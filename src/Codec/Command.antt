-- ===== src/Codec/Command.antt =====
-- include/enomik_sysex_codec.h: `SysExCommand`. A received command can be any byte, so a command is
-- a number.
use esp_now_midi.Base.{ℕ}

abbrev pub set_pin_config : ℕ
set_pin_config = 0x01

abbrev pub get_pin_config : ℕ
get_pin_config = 0x02

abbrev pub clear_pin_configs : ℕ
clear_pin_configs = 0x03

abbrev pub get_all_pin_configs : ℕ
get_all_pin_configs = 0x04

abbrev pub delete_pin_config : ℕ
delete_pin_config = 0x05

abbrev pub get_mac : ℕ
get_mac = 0x06

abbrev pub add_peer : ℕ
add_peer = 0x07

abbrev pub get_all_peers : ℕ
get_all_peers = 0x08

abbrev pub reset : ℕ
reset = 0x09

abbrev pub get_version : ℕ
get_version = 0x0a

abbrev pub get_peer : ℕ
get_peer = 0x0b

abbrev pub get_config : ℕ
get_config = 0x0c

abbrev pub set_midi_loopback : ℕ
set_midi_loopback = 0x0d

abbrev pub get_midi_loopback : ℕ
get_midi_loopback = 0x0e

abbrev pub set_power_save : ℕ
set_power_save = 0x0f

abbrev pub get_power_save : ℕ
get_power_save = 0x10

abbrev pub set_name : ℕ
set_name = 0x11

abbrev pub get_name : ℕ
get_name = 0x12

abbrev pub announce : ℕ
announce = 0x15

abbrev pub set_raw_stream : ℕ
set_raw_stream = 0x16

abbrev pub raw_value : ℕ
raw_value = 0x17

abbrev pub error_response : ℕ
error_response = 0x7f
