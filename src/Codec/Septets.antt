-- ===== src/Codec/Septets.antt =====
-- include/enomik_sysex_codec.h: 32-bit values in five bytes.
use esp_now_midi.Base.{
  ℕ, suc, ◌+◌, ◌*◌, ◌/◌, ◌%◌, ◌^◌, ◌<◌, bit_or, ◌≡◌, refl, ap, ◌∙◌, List, ◌∷◌, ◌++◌, arith, u32,
  low_bits,
}
use esp_now_midi.Base.Bits.{shift-bit_or}
use esp_now_midi.Codec.Encode.{septets_from, encode_septets32}
use esp_now_midi.Codec.Decode.{decode_from, decode_septets32}

decode_from_step :
    (rounds b : ℕ) (bytes : List ℕ) (value : ℕ)
    → value < 2 ^ 25
    → decode_from (suc rounds) (b ∷ bytes) value
      ≡ decode_from rounds bytes (value * 2 ^ 7 + b % 2 ^ 7)
unfolding decode_from
decode_from_step rounds b bytes value small = ap (decode_from rounds bytes) (
    ap (λ t. bit_or t (b % 2 ^ 7)) {x = u32 (value * 2 ^ 7)} {y = value * 2 ^ 7} (omega arith)
    ∙ shift-bit_or 7 (b % 2 ^ 7) value (omega arith))

decode_from-zero : (bytes : List ℕ) (value : ℕ) → decode_from 0 bytes value ≡ value
unfolding decode_from
decode_from-zero bytes value = refl

decode_five :
    (a b c d e : ℕ) (rest : List ℕ)
    → a < 2 ^ 4
    → b < 2 ^ 7
    → c < 2 ^ 7
    → d < 2 ^ 7
    → e < 2 ^ 7
    → decode_septets32 (a ∷ b ∷ c ∷ d ∷ e ∷ rest)
      ≡ (((a * 2 ^ 7 + b) * 2 ^ 7 + c) * 2 ^ 7 + d) * 2 ^ 7 + e
unfolding decode_septets32
decode_five a b c d e rest la lb lc ld le =
    decode_from_step 4 a (b ∷ c ∷ d ∷ e ∷ rest) 0 (omega arith)
    ∙ decode_from_step 3 b (c ∷ d ∷ e ∷ rest) (0 * 2 ^ 7 + a % 2 ^ 7) (omega arith)
    ∙ decode_from_step 2 c (d ∷ e ∷ rest) ((0 * 2 ^ 7 + a % 2 ^ 7) * 2 ^ 7 + b % 2 ^ 7)
        (omega arith)
    ∙ decode_from_step 1 d (e ∷ rest)
        (((0 * 2 ^ 7 + a % 2 ^ 7) * 2 ^ 7 + b % 2 ^ 7) * 2 ^ 7 + c % 2 ^ 7) (omega arith)
    ∙ decode_from_step 0 e rest
        ((((0 * 2 ^ 7 + a % 2 ^ 7) * 2 ^ 7 + b % 2 ^ 7) * 2 ^ 7 + c % 2 ^ 7) * 2 ^ 7 + d % 2 ^ 7)
        (omega arith)
    ∙ decode_from-zero rest (
        ((((0 * 2 ^ 7 + a % 2 ^ 7) * 2 ^ 7 + b % 2 ^ 7) * 2 ^ 7 + c % 2 ^ 7) * 2 ^ 7 + d % 2 ^ 7)
          * 2 ^ 7
        + e % 2 ^ 7)
    ∙ omega arith

-- A 32-bit value comes back from its five bytes, whatever follows them.
pub decode-encode_septets32 :
    (value : ℕ) (rest : List ℕ)
    → value < 2 ^ 32
    → decode_septets32 (encode_septets32 value ++ rest) ≡ value
unfolding encode_septets32 septets_from
decode-encode_septets32 value rest small =
    decode_five (low_bits (value / 2 ^ 7 / 2 ^ 7 / 2 ^ 7 / 2 ^ 7) 7)
      (low_bits (value / 2 ^ 7 / 2 ^ 7 / 2 ^ 7) 7) (low_bits (value / 2 ^ 7 / 2 ^ 7) 7)
      (low_bits (value / 2 ^ 7) 7) (low_bits value 7) rest (omega arith) (omega arith) (omega arith)
      (omega arith) (omega arith)
    ∙ omega arith
