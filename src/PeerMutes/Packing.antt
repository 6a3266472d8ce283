-- ===== src/PeerMutes/Packing.antt =====
-- include/PeerMuteList.h: `packMac` keeps addresses apart.
use esp_now_midi.Base.{ℕ, ◌+◌, ◌*◌, ◌^◌, ◌<◌, bit_or, ◌≡◌, sym, ap, ◌∙◌, arith}
use esp_now_midi.Base.Bits.{bit_or-shift}
use esp_now_midi.PeerMutes.{pack_from, pack_mac}

-- The six bytes as the digits of a number
abbrev digits_of : (ℕ → ℕ) → ℕ
digits_of mac =
    mac 0 + mac 1 * 2 ^ 8 + mac 2 * 2 ^ 16 + mac 3 * 2 ^ 24 + mac 4 * 2 ^ 32 + mac 5 * 2 ^ 40

abbrev pub IsMac : (ℕ → ℕ) → Type 0
IsMac mac = (i : ℕ) → i < 6 → mac i < 256

pack_mac-digits : (mac : ℕ → ℕ) → IsMac mac → pack_mac mac ≡ digits_of mac
unfolding pack_mac pack_from
pack_mac-digits mac byte =
    let b0 : mac 0 < 256 = byte 0 (omega arith) in
    let b1 : mac 1 < 256 = byte 1 (omega arith) in
    let b2 : mac 2 < 256 = byte 2 (omega arith) in
    let b3 : mac 3 < 256 = byte 3 (omega arith) in
    let b4 : mac 4 < 256 = byte 4 (omega arith) in
    let d1 : ℕ = mac 0 + mac 1 * 2 ^ 8 in
    let d2 : ℕ = d1 + mac 2 * 2 ^ 16 in
    let d3 : ℕ = d2 + mac 3 * 2 ^ 24 in
    let d4 : ℕ = d3 + mac 4 * 2 ^ 32 in
    ap
      (λ t.
        bit_or
          (bit_or (bit_or (bit_or (bit_or t (mac 1 * 256)) (mac 2 * 65536)) (mac 3 * 16777216))
            (mac 4 * 4294967296))
          (mac 5 * 1099511627776))
      (bit_or-shift 0 0 (mac 0) (omega arith) ∙ omega arith)
    ∙ ap
        (λ t.
          bit_or
            (bit_or (bit_or (bit_or t (mac 2 * 65536)) (mac 3 * 16777216)) (mac 4 * 4294967296))
            (mac 5 * 1099511627776))
        (bit_or-shift 8 (mac 0) (mac 1) b0)
    ∙ ap
        (λ t.
          bit_or (bit_or (bit_or t (mac 3 * 16777216)) (mac 4 * 4294967296))
            (mac 5 * 1099511627776))
        (bit_or-shift 16 d1 (mac 2) (omega arith))
    ∙ ap (λ t. bit_or (bit_or t (mac 4 * 4294967296)) (mac 5 * 1099511627776))
        (bit_or-shift 24 d2 (mac 3) (omega arith))
    ∙ ap (λ t. bit_or t (mac 5 * 1099511627776)) (bit_or-shift 32 d3 (mac 4) (omega arith))
    ∙ bit_or-shift 40 d4 (mac 5) (omega arith)

same_digit :
    (mac other : ℕ → ℕ)
    → digits_of mac ≡ digits_of other
    → IsMac mac
    → IsMac other
    → (i : ℕ) → i < 6
    → mac i ≡ other i
same_digit mac other e byte byte' i inside = ground (
  arith,
  byte 0,
  byte 1,
  byte 2,
  byte 3,
  byte 4,
  byte 5,
  byte' 0,
  byte' 1,
  byte' 2,
  byte' 3,
  byte' 4,
  byte' 5,
)

-- Two addresses that are packed into the same number are the same six bytes.
pub pack_mac-injective :
    (mac other : ℕ → ℕ)
    → IsMac mac
    → IsMac other
    → pack_mac mac ≡ pack_mac other
    → (i : ℕ) → i < 6
    → mac i ≡ other i
pack_mac-injective mac other byte byte' same i inside =
    let e : digits_of mac ≡ digits_of other =
      sym (pack_mac-digits mac byte) ∙ same ∙ pack_mac-digits other byte' in
    same_digit mac other e byte byte' i inside
