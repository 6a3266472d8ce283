-- ===== src/Io.antt =====
-- include/enomik_io.h: the pins of a client and their configuration by SysEx.
pub mod Scaling
pub mod State
pub mod Digital
pub mod Analog
pub mod Touch
pub mod Outputs
pub mod Pins
pub mod Preferences
pub mod Configs
pub mod Names
pub mod Device
pub mod Stream
pub mod Answers
pub mod Commands
pub mod Laws
pub mod Reload
pub mod Keeps
pub mod Restart
pub mod Requests
pub mod Keys
pub mod Upsert
pub mod Answered
pub mod Debounce
pub mod Levels
pub mod Hysteresis
pub mod Liveness
pub mod Replies
pub mod Frames
pub mod Memory
mod Tests
