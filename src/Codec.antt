-- ===== src/Codec.antt =====
-- include/enomik_sysex_codec.h: the commands, their data and the packet around them.
pub mod Command
pub mod Encode
pub mod Decode
pub mod Septets
pub mod Payload
pub mod Numbers
pub mod Names
mod Tests
use esp_now_midi.Base.{
  ℕ, zero, suc, ◌+◌, ◌-◌, ◌*◌, ◌/◌, ◌%◌, ◌^◌, ◌≤◌, ◌<◌, bit_or, bit_and, ◌≡◌, refl, sym, ap, ◌∙◌,
  ◌≢◌, ◌↔◌, ◌⊎◌, inl, inr, Bool, true, false, not, ◌&&◌, ◌||◌, Option, none, some, List, [], ◌∷◌,
  ◌++◌, map, arith, ltb, leb, ◌==◌, ◌!=◌, if◌then◌else◌, ==-eq, ==-ne, ==_iff, Bool-cases,
  Option-cases, length, get_or, take, drop, keep_if, All, length-append, length-map, length-take,
  length-drop, take_all, put, put_same, put_other, slot_injective, segment, length-segment,
  segment_congr, segment_shift, segment_snoc, segment_append, segment_extend, segment_remove,
  segment_list, get_or-take, get_or-drop, ring, ring-put, ring_list, ring_list-put, ring_list_step,
  ring_list_pop, ring_list-put_inside, ring_list-put_before, ring_next, u8, u16, u32, sub32, sub16,
  signed_ltb32, low_bits, shr,
}
use esp_now_midi.Base.Bits.{
  bit_and_high_bit, bit_and_low_bits, bit_and_high_nibble, bit_or-shift, shift-bit_or,
  nibbles-bit_or, bytes-bit_or,
}
use esp_now_midi.Codec.Command

-- `responseCommand`
abbrev pub response_command : ℕ → ℕ
response_command request = u8 (request + 64)

-- `SysExErrorCode`
pub data ErrorCode : Type 0 where
  bad_version unknown_command decode_failed pin_not_found not_ready operation_failed peer_not_found
        peer_table_full peer_already_exists :
      ErrorCode

abbrev pub error_byte : ErrorCode → ℕ
error_byte bad_version = 0x01
error_byte unknown_command = 0x02
error_byte decode_failed = 0x03
error_byte pin_not_found = 0x04
error_byte not_ready = 0x05
error_byte operation_failed = 0x06
error_byte peer_not_found = 0x07
error_byte peer_table_full = 0x08
error_byte peer_already_exists = 0x09

-- `AddPeerResult`
pub data AddPeerResult : Type 0 where
  success table_full already_exists failure no_transport : AddPeerResult

-- `addPeerErrorCode`
unfoldable pub add_peer_error_code : AddPeerResult → ErrorCode
add_peer_error_code success = operation_failed
add_peer_error_code table_full = peer_table_full
add_peer_error_code already_exists = peer_already_exists
add_peer_error_code failure = operation_failed
add_peer_error_code no_transport = not_ready

-- `DeviceKind`
pub data DeviceKind : Type 0 where
  client dongle : DeviceKind

abbrev pub kind_byte : DeviceKind → ℕ
kind_byte client = 0x00
kind_byte dongle = 0x01

-- `ESP_NOW_MIDI_VERSION_MAJOR` and the others, of include/version.h
abbrev pub version_major : ℕ
version_major = 0

abbrev pub version_minor : ℕ
version_minor = 19

abbrev pub version_patch : ℕ
version_patch = 1

abbrev pub max_name_length : ℕ
max_name_length = 16

-- `isNameChar`
abbrev pub is_name_char : ℕ → Bool
is_name_char c = leb 0x20 c && leb c 0x7e

-- `Announce`; a name is its characters before the terminator.
pub record Announce : Type 0 where
  pub kind : DeviceKind
  pub major : ℕ
  pub minor : ℕ
  pub patch : ℕ
  pub name : List ℕ

-- `PinConfig` of include/enomik_pinconfig.h
pub record PinConfig : Type 0 where
  pub pin : ℕ
  pub mode : ℕ
  pub threshold : ℕ
  pub midi_channel : ℕ
  pub midi_type : ℕ
  pub midi_cc : ℕ
  pub midi_note : ℕ
  pub min_midi_value : ℕ
  pub max_midi_value : ℕ

pub record RawStreamRequest : Type 0 where
  pub pin : ℕ
  pub enable : Bool
  pub interval : ℕ

pub record RawValue : Type 0 where
  pub pin : ℕ
  pub mode : ℕ
  pub raw : ℕ
  pub baseline : ℕ
  pub peak : ℕ
  pub percent : ℕ
  pub norm : ℕ
  pub threshold : ℕ
  pub active : Bool

-- `SysExPacket`: a packet is the first `length` bytes of `data`.
abbrev pub start_byte : ℕ
start_byte = 0xf0

abbrev pub end_byte : ℕ
end_byte = 0xf7

abbrev pub manufacturer_id : ℕ
manufacturer_id = 0x7d

abbrev pub header_size : ℕ
header_size = 5

abbrev pub min_packet_size : ℕ
min_packet_size = 6

abbrev pub max_data_size : ℕ
max_data_size = 256

abbrev pub byte : List ℕ → ℕ → ℕ
byte bytes i = get_or bytes i 0

-- `isEnomik`
unfoldable pub is_enomik : List ℕ → Bool
is_enomik raw = leb 2 (length raw) && byte raw 0 == start_byte && byte raw 1 == manufacturer_id

-- `isValid`
unfoldable pub is_valid : List ℕ → Bool
is_valid packet =
    leb min_packet_size (length packet)
    && byte packet 0 == start_byte
    && byte packet 1 == manufacturer_id
    && byte packet (length packet - 1) == end_byte

unfoldable pub get_major_version : List ℕ → ℕ
get_major_version packet = if leb 3 (length packet) then byte packet 2 else 0

unfoldable pub get_minor_version : List ℕ → ℕ
get_minor_version packet = if leb 4 (length packet) then byte packet 3 else 0

unfoldable pub is_version_compatible : List ℕ → Bool
unfolding get_major_version
is_version_compatible packet = get_major_version packet == version_major

unfoldable pub get_command : List ℕ → ℕ
get_command packet = if leb header_size (length packet) then byte packet 4 else Command.get_version

-- `getPayload` and `getPayloadLength`
unfoldable pub get_payload : List ℕ → List ℕ
get_payload packet =
    if ltb min_packet_size (length packet)
    then take (length packet - min_packet_size) (drop header_size packet)
    else []

-- `toMidiMessage`
unfoldable pub to_midi_message : List ℕ → List ℕ
to_midi_message packet = take max_data_size packet
