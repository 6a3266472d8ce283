-- ===== src/Transport.antt =====
-- include/esp_now_midi.h: the class `esp_now_midi`, its peers, its sends and what it receives.
pub mod Send
pub mod Dispatch
pub mod Packets
pub mod Wire
pub mod Peers
pub mod Table
pub mod Addresses
pub mod TableSteps
pub mod Removals
pub mod TableRuns
pub mod Whole
pub mod Reach
pub mod Flight
pub mod Stall
pub mod Recovery
pub mod Device
pub mod Outgoing
pub mod Sending
pub mod Receiving
mod Tests
