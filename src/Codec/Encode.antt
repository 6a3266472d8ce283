-- ===== src/Codec/Encode.antt =====
-- include/enomik_sysex_codec.h: `SysExEncoder`.
use esp_now_midi.Base.{
  ℕ, zero, suc, ◌/◌, Bool, List, [], ◌∷◌, ◌++◌, ◌==◌, if◌then◌else◌, u8, low_bits, shr,
}
use esp_now_midi.Codec.Command
use esp_now_midi.Codec.{
  response_command, ErrorCode, error_byte, DeviceKind, kind_byte, version_major, version_minor,
  version_patch, max_name_length, is_name_char, PinConfig, RawStreamRequest, RawValue, start_byte,
  end_byte, manufacturer_id,
}

-- The loop of `encodeSeptets32`, from the last byte to the first.
unfoldable pub septets_from : ℕ → ℕ → List ℕ → List ℕ
septets_from zero value out = out
septets_from (suc rounds) value out = septets_from rounds (shr value 7) (low_bits value 7 ∷ out)

unfoldable pub encode_septets32 : ℕ → List ℕ
encode_septets32 value = septets_from 5 value []

-- The start and the end that every encoder writes round its payload.
unfoldable pub packet : ℕ → List ℕ → List ℕ
packet command payload =
    start_byte
    ∷ manufacturer_id
    ∷ version_major
    ∷ version_minor
    ∷ command
    ∷ (payload ++ end_byte ∷ [])

abbrev pub bool_byte : Bool → ℕ
bool_byte b = if b then 1 else 0

unfoldable pub encode_simple_response : ℕ → List ℕ
encode_simple_response command = packet command []

unfoldable pub encode_byte_response : ℕ → ℕ → List ℕ
encode_byte_response command value = packet command (value ∷ [])

unfoldable pub encode_raw_stream : RawStreamRequest → ℕ → List ℕ
encode_raw_stream req command =
    packet command (low_bits req.pin 7 ∷ bool_byte req.enable ∷ low_bits req.interval 7 ∷ [])

unfoldable pub encode_raw_value : RawValue → List ℕ
encode_raw_value v = packet Command.raw_value (
    low_bits v.pin 7
    ∷ low_bits v.mode 7
    ∷ (encode_septets32 v.raw
        ++ (encode_septets32 v.baseline
            ++ (encode_septets32 v.peak
                ++ low_bits v.percent 7
                  ∷ low_bits v.norm 7
                  ∷ low_bits v.threshold 7
                  ∷ bool_byte v.active
                  ∷ []))))

unfoldable pub encode_version : List ℕ
encode_version =
    packet (response_command Command.get_version)
      (version_major ∷ version_minor ∷ version_patch ∷ [])

-- The loop of `encodeName`: a character 0 ends the name.
unfoldable pub name_bytes_from : ℕ → List ℕ → List ℕ
name_bytes_from zero name = []
name_bytes_from (suc rounds) [] = []
name_bytes_from (suc rounds) (c ∷ name) =
    let rest = name_bytes_from rounds name in if c == 0 then [] else low_bits (u8 c) 7 ∷ rest

unfoldable pub encode_name : List ℕ → ℕ → List ℕ
encode_name name command = packet command (name_bytes_from max_name_length name)

-- The loop of `encodeAnnounce`.
unfoldable pub printable_from : ℕ → List ℕ → List ℕ
printable_from zero name = []
printable_from (suc rounds) [] = []
printable_from (suc rounds) (c ∷ name) =
    let rest = printable_from rounds name in
    if c == 0 then [] else if is_name_char (u8 c) then u8 c ∷ rest else rest

unfoldable pub encode_announce : DeviceKind → List ℕ → List ℕ
encode_announce kind name = packet Command.announce (
    kind_byte kind
    ∷ version_major
    ∷ version_minor
    ∷ version_patch
    ∷ printable_from max_name_length name)

abbrev pub control_change : ℕ
control_change = 0xb0

unfoldable pub encode_pin_config : PinConfig → ℕ → List ℕ
encode_pin_config cfg command = packet command (
    cfg.pin
    ∷ cfg.mode
    ∷ cfg.threshold
    ∷ cfg.midi_channel
    ∷ u8 cfg.midi_type / 2
    ∷ (if cfg.midi_type == control_change then cfg.midi_cc else cfg.midi_note)
    ∷ cfg.min_midi_value
    ∷ cfg.max_midi_value
    ∷ [])

-- The loop of `encodeMAC` and `encodePeerEntry`, over the six bytes of the address.
unfoldable pub nibbles : List ℕ → List ℕ
nibbles [] = []
nibbles (b ∷ mac) = low_bits (shr b 4) 4 ∷ low_bits b 4 ∷ nibbles mac

unfoldable pub encode_mac : List ℕ → List ℕ
encode_mac mac = packet (response_command Command.get_mac) (nibbles mac)

unfoldable pub encode_peer_entry : ℕ → List ℕ → ℕ → List ℕ
encode_peer_entry index mac command = packet command (index ∷ nibbles mac)

-- `encodeError`, without and with a context byte
unfoldable pub encode_error : ℕ → ErrorCode → List ℕ
encode_error failed_request error_code =
    packet Command.error_response (failed_request ∷ error_byte error_code ∷ [])

unfoldable pub encode_error_context : ℕ → ErrorCode → ℕ → List ℕ
encode_error_context failed_request error_code context =
    packet Command.error_response (failed_request ∷ error_byte error_code ∷ context ∷ [])
