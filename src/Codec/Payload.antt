-- ===== src/Codec/Payload.antt =====
-- include/enomik_sysex_codec.h: what is read from a packet.
use esp_now_midi.Base.{
  ℕ, ◌+◌, ◌-◌, ◌≡◌, refl, ap, ◌∙◌, true, List, [], ◌∷◌, ◌++◌, arith, length, get_or, take, drop,
  length-append,
}
use esp_now_midi.Codec.{
  get_payload, get_major_version, get_command, is_valid, is_version_compatible,
}
use esp_now_midi.Codec.Encode.{packet}

pub take-append : (xs ys : List ℕ) → take (length xs) (xs ++ ys) ≡ xs
take-append [] ys = refl
take-append (x ∷ xs) ys = ap (◌∷◌ x) (take-append xs ys)

pub get_or-append : (xs : List ℕ) (y d : ℕ) → get_or (xs ++ y ∷ []) (length xs) d ≡ y
get_or-append [] y d = refl
get_or-append (x ∷ xs) y d = get_or-append xs y d

pub length-packet :
    (command : ℕ) (payload : List ℕ) → length (packet command payload) ≡ length payload + 6
unfolding packet
length-packet command payload = omega (arith, length-append payload (0xf7 ∷ []))

-- What stands between the command and the last byte.
pub packet_middle :
    (command : ℕ) (payload : List ℕ)
    → take (length (packet command payload) - 6) (drop 5 (packet command payload)) ≡ payload
unfolding packet
packet_middle command payload =
    let size : length (packet command payload) - 6 ≡ length payload =
      omega (arith, length-append payload (0xf7 ∷ [])) in
    ap (λ n. take n (payload ++ 0xf7 ∷ [])) size ∙ take-append payload (0xf7 ∷ [])

pub get_payload-packet :
    (command : ℕ) (payload : List ℕ) → get_payload (packet command payload) ≡ payload
unfolding get_payload
get_payload-packet command [] = ground (arith, length-packet command [], packet_middle command [])
get_payload-packet command (x ∷ payload) =
    ground (arith, length-packet command (x ∷ payload), packet_middle command (x ∷ payload))

pub packet_opened :
    (command : ℕ) (payload : List ℕ)
    → (is_valid (packet command payload) ≡ true)
      × (is_version_compatible (packet command payload) ≡ true)
      × (get_command (packet command payload) ≡ command)
      × (get_payload (packet command payload) ≡ payload)
unfolding is_valid is_version_compatible get_major_version get_command packet
packet_opened command payload = ground (
  arith,
  length-append payload (0xf7 ∷ []),
  get_or-append payload 0xf7 0,
  get_payload-packet command payload,
)
