-- ===== src/Sysex.antt =====
-- include/esp_now_midi_sysex.h: SysEx messages in fragments. The frames of one message are built by
-- `sendSysex` of include/esp_now_midi.h.
pub mod Frames
pub mod Reassembler
mod Tests
use esp_now_midi.Base.{
  ℕ, zero, suc, ◌+◌, ◌-◌, ◌*◌, ◌/◌, ◌%◌, ◌^◌, ◌≤◌, ◌<◌, bit_or, bit_and, ◌≡◌, refl, sym, ap, ◌∙◌,
  ◌≢◌, ◌↔◌, ◌⊎◌, inl, inr, Bool, true, false, not, ◌&&◌, ◌||◌, Option, none, some, List, [], ◌∷◌,
  ◌++◌, map, arith, ltb, leb, ◌==◌, ◌!=◌, if◌then◌else◌, ==-eq, ==-ne, ==_iff, Bool-cases,
  Option-cases, length, get_or, take, drop, keep_if, All, length-append, put, put_same, put_other,
  slot_injective, segment, length-segment, segment_congr, segment_shift, segment_snoc,
  segment_append, segment_extend, segment_remove, ring, ring-put, ring_next, u8, u16, u32, sub32,
  sub16, signed_ltb32, low_bits, shr,
}

abbrev pub marker : ℕ
marker = 0xf0

abbrev pub version : ℕ
version = 1

abbrev pub flag_first : ℕ
flag_first = 0x01

abbrev pub flag_last : ℕ
flag_last = 0x02

abbrev pub header_size : ℕ
header_size = 6

abbrev pub max_payload : ℕ
max_payload = 240

abbrev pub max_message : ℕ
max_message = 1024

abbrev pub max_frame : ℕ
max_frame = header_size + max_payload

-- `makeFlags`
unfoldable pub make_flags : Bool → Bool → ℕ
make_flags first last =
    let flags = u8 (version * 2 ^ 4) in
    let flags1 = if first then bit_or flags flag_first else flags in
    if last then bit_or flags1 flag_last else flags1

-- `flagsVersion`
unfoldable pub flags_version : ℕ → ℕ
flags_version flags = low_bits (shr flags 4) 4

-- `fragmentCount`
unfoldable pub fragment_count : ℕ → ℕ
fragment_count msg_len = if msg_len == 0 then 0 else u8 ((msg_len + max_payload - 1) / max_payload)

-- `fragmentPayloadOffset`
unfoldable pub fragment_payload_offset : ℕ → ℕ
fragment_payload_offset seq = u16 (seq * max_payload)

-- `fragmentPayloadLength`
unfoldable pub fragment_payload_length : ℕ → ℕ → ℕ
unfolding fragment_payload_offset
fragment_payload_length msg_len seq =
    let offset = fragment_payload_offset seq in
    let remaining = u16 (msg_len - offset) in
    if leb msg_len offset then 0 else if ltb max_payload remaining then max_payload else remaining

-- `FrameView`; the payload is what `payload` points to.
pub record FrameView : Type 0 where
  pub flags : ℕ
  pub seq : ℕ
  pub total : ℕ
  pub msg_len : ℕ
  pub payload : List ℕ
  pub payload_len : ℕ

-- `data[i]`, inside the frame
abbrev pub byte : List ℕ → ℕ → ℕ
byte bytes i = get_or bytes i 0

-- `data[4] | data[5] << 8`
abbrev pub frame_msg_len : List ℕ → ℕ
frame_msg_len bytes = u16 (bit_or (byte bytes 4) (byte bytes 5 * 2 ^ 8))

-- `!(a != b)` for flags
abbrev pub same_flag : Bool → Bool → Bool
same_flag true b = b
same_flag false b = not b

-- The checks of `parseFrame`, in its order; the frame is refused unless all pass.
unfoldable pub frame_ok : List ℕ → Bool
frame_ok bytes =
    let len = length bytes in
    let flags = byte bytes 1 in
    let seq = byte bytes 2 in
    let total = byte bytes 3 in
    let msg_len = frame_msg_len bytes in
    let payload_len = u16 (len - header_size) in
    let first = bit_and flags flag_first != 0 in
    let last = bit_and flags flag_last != 0 in
    not (ltb len (header_size + 1) || ltb max_frame len)
    && not (byte bytes 0 != marker)
    && not (flags_version flags != version)
    && not (ltb total 1 || leb total seq)
    && not (msg_len == 0 || ltb max_message msg_len)
    && not (fragment_count msg_len != total)
    && same_flag first (seq == 0)
    && same_flag last (seq == total - 1)
    && not (payload_len == 0 || payload_len != fragment_payload_length msg_len seq)

-- `parseFrame`
unfoldable pub parse_frame : List ℕ → Option FrameView
parse_frame bytes =
    if frame_ok bytes
    then some (record {
      flags = byte bytes 1;
      seq = byte bytes 2;
      total = byte bytes 3;
      msg_len = frame_msg_len bytes;
      payload = drop header_size bytes;
      payload_len = u16 (length bytes - header_size);
    })
    else none

-- `encodeFrame`: `payload` is what the pointer points to, of which `payload_len` bytes are copied;
-- `none` is the result 0.
unfoldable pub encode_frame : ℕ → ℕ → ℕ → ℕ → List ℕ → ℕ → Option (List ℕ)
encode_frame out_cap seq total msg_len payload payload_len =
    if payload_len == 0 || ltb max_payload payload_len
    then none
    else if msg_len == 0 || ltb max_message msg_len || total == 0 || leb total seq
    then none
    else if fragment_count msg_len != total
    then none
    else if payload_len != fragment_payload_length msg_len seq
    then none
    else if ltb out_cap (header_size + payload_len)
    then none
    else some (
        marker
        ∷ make_flags (seq == 0) (seq == total - 1)
        ∷ seq
        ∷ total
        ∷ low_bits msg_len 8
        ∷ low_bits (shr msg_len 8) 8
        ∷ take payload_len payload)

-- `sendSysex` of include/esp_now_midi.h, over the step that hands one frame to the peers: it takes
-- the sender's state, and tells whether it returned `ESP_OK`.
module _ {S : Type 0} (send_to_all_peers : List ℕ → S → S × Bool) where
  unfoldable pub send_frames : List ℕ → ℕ → ℕ → ℕ → S → S × Bool
  send_frames message total seq zero s = (s, true)
  send_frames message total seq (suc rounds) s =
      let msg_len = length message in
      elim (encode_frame max_frame seq total msg_len (drop (fragment_payload_offset seq) message)
        (fragment_payload_length msg_len seq)) [
          | none ↦ (s, false)
          | some frame ↦
              let (s', ok) = send_to_all_peers frame s in
              let rest = send_frames message total (suc seq) rounds s' in
              if ok then rest else (s', false)
        ]

  unfoldable pub send_sysex : List ℕ → S → S × Bool
  send_sysex message s =
      let msg_len = length message in
      let total = fragment_count msg_len in
      if msg_len == 0 || ltb max_message msg_len
      then (s, false)
      else send_frames message total 0 total s
