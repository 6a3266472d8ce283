-- ===== src/Codec/Decode.antt =====
-- include/enomik_sysex_codec.h: `SysExDecoder`.
use esp_now_midi.Base.{
  ℕ, zero, suc, ◌+◌, ◌-◌, ◌*◌, ◌^◌, bit_or, Bool, true, ◌&&◌, ◌||◌, Option, none, some, List, [],
  ◌∷◌, ltb, leb, ◌==◌, ◌!=◌, if◌then◌else◌, length, take, drop, u8, u32, low_bits,
}
use esp_now_midi.Codec.Command
use esp_now_midi.Codec.{
  DeviceKind, client, dongle, kind_byte, version_major, max_name_length, is_name_char, Announce,
  PinConfig, RawStreamRequest, RawValue, start_byte, end_byte, manufacturer_id, header_size,
  min_packet_size, max_data_size, byte,
}

-- `decodeSeptets32`: the loop over the five bytes.
unfoldable pub decode_from : ℕ → List ℕ → ℕ → ℕ
decode_from zero bytes value = value
decode_from (suc rounds) bytes value =
    decode_from rounds (drop 1 bytes) (bit_or (u32 (value * 2 ^ 7)) (low_bits (byte bytes 0) 7))

unfoldable pub decode_septets32 : List ℕ → ℕ
decode_septets32 bytes = decode_from 5 bytes 0

-- `decodeMAC`: the loop over the pairs of nibbles.
unfoldable pub mac_from : ℕ → List ℕ → List ℕ
mac_from zero payload = []
mac_from (suc rounds) payload =
    u8 (bit_or (byte payload 0 * 2 ^ 4) (byte payload 1)) ∷ mac_from rounds (drop 2 payload)

unfoldable pub decode_mac : List ℕ → Option (List ℕ)
decode_mac payload = if ltb (length payload) 12 then none else some (mac_from 6 payload)

unfoldable pub decode_pin_config : List ℕ → Option PinConfig
decode_pin_config payload =
    if ltb (length payload) 8
    then none
    else some (record {
      pin = byte payload 0;
      mode = byte payload 1;
      threshold = byte payload 2;
      midi_channel = byte payload 3;
      midi_type = byte payload 4 * 2;
      midi_cc = byte payload 5;
      midi_note = byte payload 5;
      min_midi_value = byte payload 6;
      max_midi_value = byte payload 7;
    })

-- `decodeIndex` and `decodePin`
unfoldable pub decode_index : List ℕ → Option ℕ
decode_index payload = if ltb (length payload) 1 then none else some (byte payload 0)

-- `decodeBoolFlag`, `decodeMidiLoopback` and `decodePowerSave`
unfoldable pub decode_bool_flag : List ℕ → Option Bool
decode_bool_flag payload =
    if length payload != 1 || byte payload 0 != 0 && byte payload 0 != 1
    then none
    else some (byte payload 0 != 0)

unfoldable pub decode_raw_stream : List ℕ → Option RawStreamRequest
decode_raw_stream payload =
    if length payload != 3 || ltb 1 (byte payload 1)
    then none
    else some
        (record { pin = byte payload 0; enable = byte payload 1 != 0; interval = byte payload 2 })

abbrev pub raw_value_payload_size : ℕ
raw_value_payload_size = 21

unfoldable pub decode_raw_value : List ℕ → Option RawValue
decode_raw_value payload =
    if length payload != raw_value_payload_size
    then none
    else some (record {
      pin = byte payload 0;
      mode = byte payload 1;
      raw = decode_septets32 (drop 2 payload);
      baseline = decode_septets32 (drop 7 payload);
      peak = decode_septets32 (drop 12 payload);
      percent = byte payload 17;
      norm = byte payload 18;
      threshold = byte payload 19;
      active = byte payload 20 != 0;
    })

-- The loop of `decodeName`
unfoldable pub all_name_chars : List ℕ → Bool
all_name_chars [] = true
all_name_chars (c ∷ rest) = is_name_char c && all_name_chars rest

unfoldable pub decode_name : List ℕ → Option (List ℕ)
decode_name payload =
    if ltb max_name_length (length payload)
    then none
    else if all_name_chars payload
    then some payload
    else none

abbrev pub announce_header_size : ℕ
announce_header_size = 4

-- `static_cast<DeviceKind>` of a byte that is at most 1
abbrev pub kind_of : ℕ → DeviceKind
kind_of b = if b == 0 then client else dongle

unfoldable pub decode_announce : List ℕ → Option Announce
decode_announce payload =
    if ltb (length payload) announce_header_size
    then none
    else if ltb (kind_byte dongle) (byte payload 0)
    then none
    else elim (decode_name (drop announce_header_size payload)) [
      | none ↦ none
      | some name ↦ some (record {
        kind = kind_of (byte payload 0);
        major = byte payload 1;
        minor = byte payload 2;
        patch = byte payload 3;
        name = name;
      })
    ]

-- The two checks of `decodeAnnounceMessage`
unfoldable pub is_announce_message : List ℕ → Bool
is_announce_message message =
    leb (min_packet_size + announce_header_size) (length message)
    && leb (length message) max_data_size
    && byte message 0 == start_byte
    && byte message 1 == manufacturer_id
    && byte message 2 == version_major
    && byte message (length message - 1) == end_byte
    && byte message 4 == Command.announce

unfoldable pub decode_announce_message : List ℕ → Option Announce
decode_announce_message message =
    if is_announce_message message
    then decode_announce (take (length message - min_packet_size) (drop header_size message))
    else none

-- `isAnnounce`
unfoldable pub is_announce : List ℕ → Bool
is_announce message =
    leb header_size (length message)
    && byte message 0 == start_byte
    && byte message 1 == manufacturer_id
    && byte message 4 == Command.announce

unfoldable pub decode_peer_entry : List ℕ → Option (ℕ × List ℕ)
decode_peer_entry payload =
    if ltb (length payload) 13 then none else elim (decode_mac (take 12 (drop 1 payload))) [
      | none ↦ none
      | some mac ↦ some (byte payload 0, mac)
    ]
