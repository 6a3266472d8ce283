-- ===== src/Sysex/Frames.antt =====
-- A frame that is encoded is parsed as what it was made from.
use esp_now_midi.Base.{
  ℕ, ◌-◌, ◌*◌, ◌/◌, ◌%◌, ◌^◌, ◌≤◌, ◌<◌, bit_or, bit_and, ◌≡◌, refl, Bool, true, false, some, List,
  ◌∷◌, arith, ◌==◌, ◌!=◌, length, take, length-take, u16, low_bits, shr,
}
use esp_now_midi.Base.Bits.{bytes-bit_or}
use esp_now_midi.Sysex.{
  marker, flag_first, flag_last, max_payload, max_message, max_frame, make_flags, flags_version,
  fragment_count, fragment_payload_length, FrameView, same_flag, frame_ok, parse_frame,
  encode_frame,
}

flags_version-make_flags : (first last : Bool) → flags_version (make_flags first last) ≡ 1
unfolding make_flags flags_version
flags_version-make_flags true true = refl
flags_version-make_flags true false = refl
flags_version-make_flags false true = refl
flags_version-make_flags false false = refl

first-make_flags : (first last : Bool) → (bit_and (make_flags first last) flag_first != 0) ≡ first
unfolding make_flags
first-make_flags true true = refl
first-make_flags true false = refl
first-make_flags false true = refl
first-make_flags false false = refl

pub last-make_flags : (first last : Bool) → (bit_and (make_flags first last) flag_last != 0) ≡ last
unfolding make_flags
last-make_flags true true = refl
last-make_flags true false = refl
last-make_flags false true = refl
last-make_flags false false = refl

same_flag_self : (b : Bool) → same_flag b b ≡ true
same_flag_self true = refl
same_flag_self false = refl

-- The 16-bit length comes back from its two bytes.
msg_len_bytes :
    (n : ℕ) → n ≤ max_message → u16 (bit_or (low_bits n 8) (low_bits (shr n 8) 8 * 2 ^ 8)) ≡ n
msg_len_bytes n h = omega (arith, bytes-bit_or (n % 256) (n / 256 % 256) (omega arith))

-- What a message of `msg_len` bytes, in `total` fragments, has as its fragment `seq`.
pub record IsFragment (seq total msg_len payload_len : ℕ) : Type 0 where
  pub in_order : seq < total
  pub whole : fragment_count msg_len ≡ total
  pub not_empty : 1 ≤ msg_len
  pub fits : msg_len ≤ max_message
  pub size : payload_len ≡ fragment_payload_length msg_len seq
  pub some_bytes : 1 ≤ payload_len
  pub few_bytes : payload_len ≤ max_payload

abbrev pub frame_view : ℕ → ℕ → ℕ → List ℕ → ℕ → FrameView
frame_view seq total msg_len payload payload_len = record {
  flags = make_flags (seq == 0) (seq == total - 1);
  seq = seq;
  total = total;
  msg_len = msg_len;
  payload = take payload_len payload;
  payload_len = payload_len;
}

abbrev pub frame_bytes : ℕ → ℕ → ℕ → List ℕ → ℕ → List ℕ
frame_bytes seq total msg_len payload payload_len =
    marker
    ∷ make_flags (seq == 0) (seq == total - 1)
    ∷ seq
    ∷ total
    ∷ low_bits msg_len 8
    ∷ low_bits (shr msg_len 8) 8
    ∷ take payload_len payload

-- Every fragment can be encoded, in a buffer of `MAX_FRAME` bytes.
pub encode_frame_ok :
    (seq total msg_len : ℕ) (payload : List ℕ) (payload_len : ℕ)
    → IsFragment seq total msg_len payload_len
    → encode_frame max_frame seq total msg_len payload payload_len
      ≡ some (frame_bytes seq total msg_len payload payload_len)
unfolding encode_frame
encode_frame_ok seq total msg_len payload payload_len v = ground arith

-- A frame that `encode_frame` makes of a payload that is long enough is accepted by `parse_frame`,
-- which gives back the sequence number, the counts, the flags and the payload.
pub parse_frame-encode_frame :
    (out_cap seq total msg_len : ℕ) (payload : List ℕ) (payload_len : ℕ) {frame : List ℕ}
    → payload_len ≤ length payload
    → encode_frame out_cap seq total msg_len payload payload_len ≡ some frame
    → parse_frame frame ≡ some (frame_view seq total msg_len payload payload_len)
unfolding parse_frame frame_ok encode_frame
parse_frame-encode_frame out_cap seq total msg_len payload payload_len {frame} long h = ground (
  arith,
  length-take payload_len payload,
  msg_len_bytes msg_len,
  flags_version-make_flags (seq == 0) (seq == total - 1),
  first-make_flags (seq == 0) (seq == total - 1),
  last-make_flags (seq == 0) (seq == total - 1),
  same_flag_self (seq == 0),
  same_flag_self (seq == total - 1),
)
