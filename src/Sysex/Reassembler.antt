-- ===== src/Sysex/Reassembler.antt =====
-- `class Reassembler` of include/esp_now_midi_sysex.h: four slots, each collecting the fragments of
-- one sender. A MAC address is compared only, so it is a number.
pub mod Slots
pub mod Fragment
pub mod Steps
pub mod Delivery
use esp_now_midi.Base.{
  ℕ, zero, suc, ◌+◌, ◌-◌, ◌*◌, ◌/◌, ◌%◌, ◌^◌, ◌≤◌, ◌<◌, bit_or, bit_and, ◌≡◌, refl, sym, ap, ◌∙◌,
  ◌≢◌, ◌↔◌, ◌⊎◌, inl, inr, Bool, true, false, not, ◌&&◌, ◌||◌, Option, none, some, List, [], ◌∷◌,
  ◌++◌, map, arith, ltb, leb, ◌==◌, ◌!=◌, if◌then◌else◌, ==-eq, ==-ne, ==_iff, Bool-cases,
  Option-cases, length, get_or, take, drop, keep_if, All, length-append, length-map, length-take,
  length-drop, take_all, put, put_same, put_other, slot_injective, segment, length-segment,
  segment_congr, segment_shift, segment_snoc, segment_append, segment_extend, segment_remove, ring,
  ring-put, ring_next, u8, u16, u32, sub32, sub16, signed_ltb32, low_bits, shr,
}
use esp_now_midi.Sysex.{flag_last, FrameView, fragment_payload_offset, parse_frame}

abbrev pub max_reassembly_slots : ℕ
max_reassembly_slots = 4

abbrev pub reassembly_timeout_ms : ℕ
reassembly_timeout_ms = 100

-- `struct Slot`
pub record Slot : Type 0 where
  pub active : Bool
  pub mac : ℕ
  pub msg_len : ℕ
  pub total : ℕ
  pub expected_seq : ℕ
  pub last_ms : ℕ
  pub buffer : ℕ → ℕ

-- `_slots`
abbrev pub Slots : Type 0
Slots = ℕ → Slot

-- The loop of `clear`.
unfoldable pub clear_from : Slots → ℕ → ℕ → Slots
clear_from slots i zero = slots
clear_from slots i (suc rounds) =
    clear_from (put slots i (record (slots i) { active = false })) (suc i) rounds

unfoldable pub clear : Slots → Slots
unfolding clear_from
clear slots = clear_from slots 0 max_reassembly_slots

-- The loop of `expireStale`.
unfoldable pub expire_from : Slots → ℕ → ℕ → ℕ → Slots
expire_from slots now_ms i zero = slots
expire_from slots now_ms i (suc rounds) =
    expire_from
      (if (slots i).active && ltb reassembly_timeout_ms (sub32 now_ms (slots i).last_ms)
        then put slots i (record (slots i) { active = false })
        else slots)
      now_ms (suc i) rounds

unfoldable pub expire_stale : Slots → ℕ → Slots
expire_stale slots now_ms = expire_from slots now_ms 0 max_reassembly_slots

-- The loop of `findSlot`.
unfoldable pub find_from : Slots → ℕ → ℕ → ℕ → Option ℕ
find_from slots mac i zero = none
find_from slots mac i (suc rounds) =
    if (slots i).active && (slots i).mac == mac then some i else find_from slots mac (suc i) rounds

unfoldable pub find_slot : Slots → ℕ → Option ℕ
find_slot slots mac = find_from slots mac 0 max_reassembly_slots

-- The first loop of `allocSlot`: a slot that is free.
unfoldable pub free_from : Slots → ℕ → ℕ → Option ℕ
free_from slots i zero = none
free_from slots i (suc rounds) =
    if not (slots i).active then some i else free_from slots (suc i) rounds

-- Its second loop: the slot that was updated longest ago, by signed ages.
unfoldable pub oldest_from : Slots → ℕ → ℕ → ℕ → ℕ → ℕ
oldest_from slots now_ms oldest i zero = oldest
oldest_from slots now_ms oldest i (suc rounds) =
    oldest_from slots now_ms
      (if signed_ltb32 (sub32 now_ms (slots oldest).last_ms) (sub32 now_ms (slots i).last_ms)
        then i
        else oldest)
      (suc i) rounds

unfoldable pub alloc_slot : Slots → ℕ → ℕ
alloc_slot slots now_ms = elim (free_from slots 0 max_reassembly_slots) [
  | some i ↦ i
  | none ↦ oldest_from slots now_ms 0 1 (max_reassembly_slots - 1)
]

-- `startAssembly`
abbrev pub start_assembly : Slot → ℕ → FrameView → ℕ → Slot
start_assembly slot mac frame now_ms = record slot {
  active = true;
  mac = mac;
  msg_len = frame.msg_len;
  total = frame.total;
  expected_seq = 0;
  last_ms = now_ms;
}

-- `memcpy(buffer + i, bytes, ...)`
unfoldable pub copy_into : (ℕ → ℕ) → ℕ → List ℕ → ℕ → ℕ
copy_into buffer i [] = buffer
copy_into buffer i (b ∷ bs) = copy_into (put buffer i b) (suc i) bs

-- The end of `feed`, from the slot that the frame goes to.
unfoldable pub add_fragment : Slots → ℕ → FrameView → ℕ → Slots × Option (List ℕ)
add_fragment slots i frame now_ms =
    let slot = slots i in
    let offset = fragment_payload_offset frame.seq in
    let slot' = record slot {
      buffer = copy_into slot.buffer offset (take frame.payload_len frame.payload);
      expected_seq = u8 (frame.seq + 1);
      last_ms = now_ms;
    } in
    if ltb slot.msg_len (offset + frame.payload_len)
    then (slots, none)
    else if bit_and frame.flags flag_last == 0
    then (put slots i slot', none)
    else if slot'.expected_seq != slot'.total
    then (put slots i slot', none)
    else (
      put slots i (record slot' { active = false }),
      some (segment slot'.buffer 0 slot'.msg_len),
    )

-- `feed`, for a frame that was parsed. `alloc_slot` always finds a slot, so its null test is not
-- reached.
unfoldable pub feed_frame : Slots → ℕ → FrameView → ℕ → Slots × Option (List ℕ)
feed_frame slots mac frame now_ms =
    let slots1 = expire_stale slots now_ms in
    let found = find_slot slots1 mac in
    let first : ℕ = elim found [ some i ↦ i | none ↦ alloc_slot slots1 now_ms ] in
    if frame.seq == 0
    then add_fragment (put slots1 first (start_assembly (slots1 first) mac frame now_ms)) first
        frame now_ms
    else elim found [
      | none ↦ (slots1, none)
      | some i ↦
          if (slots1 i).msg_len != frame.msg_len || (slots1 i).total != frame.total
          then (slots1, none)
          else if frame.seq != (slots1 i).expected_seq
          then (slots1, none)
          else add_fragment slots1 i frame now_ms
    ]

-- `feed`: the result is the message that the frame completes.
unfoldable pub feed : Slots → ℕ → List ℕ → ℕ → Slots × Option (List ℕ)
feed slots mac bytes now_ms = elim (parse_frame bytes) [
  | none ↦ (slots, none)
  | some frame ↦ feed_frame slots mac frame now_ms
]

-- Frames of one sender, each with its time, fed in turn; the messages that they complete.
unfoldable pub feed_all : Slots → ℕ → List (ℕ × List ℕ) → Slots × List (List ℕ)
feed_all slots mac [] = (slots, [])
feed_all slots mac ((now_ms, bytes) ∷ rest) =
    let (slots1, out) = feed slots mac bytes now_ms in
    let (slots2, outs) = feed_all slots1 mac rest in
    (slots2, elim out [ none ↦ outs | some message ↦ message ∷ outs ])
