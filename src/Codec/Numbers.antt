-- ===== src/Codec/Numbers.antt =====
-- include/enomik_sysex_codec.h: readings, addresses and pin configurations come back from their packets.
use esp_now_midi.Base.{
  ℕ, ◌*◌, ◌%◌, ◌^◌, ◌<◌, ◌≡◌, refl, sym, ap, ◌∙◌, false, some, List, [], ◌∷◌, ◌++◌, arith, ltb,
  ◌==◌, if◌then◌else◌, length, All, take_all, u8, low_bits, shr,
}
use esp_now_midi.Base.Bits.{shift-bit_or}
use mathlib.Core.List.{append-nil}
use mathlib.Core.Path.{ap₂}
use esp_now_midi.Codec.{PinConfig, RawStreamRequest, RawValue, get_payload}
use esp_now_midi.Codec.Command
use esp_now_midi.Codec.Encode.{
  bool_byte, septets_from, encode_septets32, encode_raw_stream, encode_raw_value, encode_pin_config,
  nibbles, encode_mac, encode_peer_entry, control_change,
}
use esp_now_midi.Codec.Decode.{
  mac_from, decode_mac, decode_pin_config, decode_raw_stream, decode_raw_value, decode_peer_entry,
}
use esp_now_midi.Codec.Septets.{decode-encode_septets32}
use esp_now_midi.Codec.Payload.{get_payload-packet}

-- The fields are in range for the bytes that carry them.
pub record IsRawValue (v : RawValue) : Type 0 where
  pub pin_small : v.pin < 2 ^ 7
  pub mode_small : v.mode < 2 ^ 7
  pub raw_word : v.raw < 2 ^ 32
  pub baseline_word : v.baseline < 2 ^ 32
  pub peak_word : v.peak < 2 ^ 32
  pub percent_small : v.percent < 2 ^ 7
  pub norm_small : v.norm < 2 ^ 7
  pub threshold_small : v.threshold < 2 ^ 7

abbrev raw_value_end : RawValue → List ℕ
raw_value_end v =
    low_bits v.percent 7 ∷ low_bits v.norm 7 ∷ low_bits v.threshold 7 ∷ bool_byte v.active ∷ []

raw_value_fields :
    (v : RawValue)
    → IsRawValue v
    → decode_raw_value (
        low_bits v.pin 7
        ∷ low_bits v.mode 7
        ∷ (encode_septets32 v.raw
            ++ (encode_septets32 v.baseline ++ (encode_septets32 v.peak ++ raw_value_end v))))
      ≡ some v
unfolding decode_raw_value encode_septets32 septets_from
raw_value_fields v range = ground (
  arith,
  range.pin_small,
  decode-encode_septets32 v.raw
      (encode_septets32 v.baseline ++ (encode_septets32 v.peak ++ raw_value_end v)),
  decode-encode_septets32 v.baseline (encode_septets32 v.peak ++ raw_value_end v),
  decode-encode_septets32 v.peak (raw_value_end v),
)

-- A reading comes back from the packet that announces it, when its fields are in range: 32-bit
-- readings, and seven bits for the rest.
pub decode-encode_raw_value :
    (v : RawValue) → IsRawValue v → decode_raw_value (get_payload (encode_raw_value v)) ≡ some v
unfolding encode_raw_value
decode-encode_raw_value v range =
    ap decode_raw_value (get_payload-packet Command.raw_value _) ∙ raw_value_fields v range

mac_from-nibbles :
    (mac rest : List ℕ)
    → All (λ b. b < 2 ^ 8) mac
    → mac_from (length mac) (nibbles mac ++ rest) ≡ mac
unfolding mac_from nibbles
mac_from-nibbles [] rest bytes = refl
mac_from-nibbles (b ∷ mac) rest (small, bytes) =
    ap₂ ◌∷◌
      (ap u8 (shift-bit_or 4 (low_bits b 4) (low_bits (shr b 4) 4) (omega arith)) ∙ omega arith)
      (mac_from-nibbles mac rest bytes)

length-nibbles : (mac : List ℕ) → length (nibbles mac) ≡ length mac * 2
unfolding nibbles
length-nibbles [] = refl
length-nibbles (b ∷ mac) = omega (arith, length-nibbles mac)

decode_mac-nibbles :
    (mac : List ℕ) → length mac ≡ 6 → All (λ b. b < 2 ^ 8) mac → decode_mac (nibbles mac) ≡ some mac
unfolding decode_mac
decode_mac-nibbles mac six bytes =
    let long : ltb (length (nibbles mac)) 12 ≡ false = ground (arith, length-nibbles mac) in
    let whole : mac_from 6 (nibbles mac) ≡ mac =
      ap (mac_from 6) (sym (append-nil (nibbles mac)))
      ∙ ap (λ n. mac_from n (nibbles mac ++ [])) (sym six)
      ∙ mac_from-nibbles mac [] bytes in
    rw (long, whole) refl

peer_entry_fields :
    (index : ℕ) (mac : List ℕ)
    → length mac ≡ 6
    → All (λ b. b < 2 ^ 8) mac
    → decode_peer_entry (index ∷ nibbles mac) ≡ some (index, mac)
unfolding decode_peer_entry
peer_entry_fields index mac six bytes =
    ground (arith, length-nibbles mac, decode_mac-nibbles mac six bytes, take_all 12 (nibbles mac))

-- An address of six bytes comes back from the packet that reports it, and with its index from a
-- peer entry, whatever the command.
pub decode-encode_mac :
    (index : ℕ) (mac : List ℕ) (command : ℕ)
    → length mac ≡ 6
    → All (λ b. b < 2 ^ 8) mac
    → (decode_mac (get_payload (encode_mac mac)) ≡ some mac)
      × (decode_peer_entry (get_payload (encode_peer_entry index mac command)) ≡ some (index, mac))
unfolding encode_mac encode_peer_entry
decode-encode_mac index mac command six bytes = (
  ap decode_mac (get_payload-packet _ (nibbles mac)) ∙ decode_mac-nibbles mac six bytes,
  ap decode_peer_entry (get_payload-packet command (index ∷ nibbles mac))
      ∙ peer_entry_fields index mac six bytes,
)

-- A pin configuration keeps one number: the controller of a control change, the note of another
-- type; both fields hold it when it is read.
abbrev pub carried : PinConfig → PinConfig
carried cfg =
    let number = if cfg.midi_type == control_change then cfg.midi_cc else cfg.midi_note in
    record cfg { midi_cc = number; midi_note = number }

-- A pin configuration whose message type is an even status byte, as all channel messages are, comes
-- back from its packet, with the number that its type uses in both of the fields for it. A request
-- for a raw stream comes back when its pin and its interval have seven bits.
pub decode-encode_pin_config :
    (cfg : PinConfig) (req : RawStreamRequest) (command : ℕ)
    → cfg.midi_type < 2 ^ 8
    → cfg.midi_type % 2 ≡ 0
    → req.pin < 2 ^ 7
    → req.interval < 2 ^ 7
    → (decode_pin_config (get_payload (encode_pin_config cfg command)) ≡ some (carried cfg))
      × (decode_raw_stream (get_payload (encode_raw_stream req command)) ≡ some req)
unfolding encode_pin_config encode_raw_stream decode_pin_config decode_raw_stream
decode-encode_pin_config cfg req command byte even pin_small interval_small = (
  ap decode_pin_config (get_payload-packet command _) ∙ ground arith,
  ap decode_raw_stream (get_payload-packet command _) ∙ ground arith,
)
