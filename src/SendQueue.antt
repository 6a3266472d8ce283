-- ===== src/SendQueue.antt =====
-- include/esp_now_midi_send_queue.h: packets that wait for the sender task, in two rings.
pub mod Fifo
pub mod Refines
pub mod Push
pub mod Pop
pub mod History
mod Tests
use esp_now_midi.Base.{
  ℕ, zero, suc, ◌+◌, ◌-◌, ◌*◌, ◌/◌, ◌%◌, ◌^◌, ◌≤◌, ◌<◌, bit_or, bit_and, ◌≡◌, refl, sym, ap, ◌∙◌,
  ◌≢◌, ◌↔◌, ◌⊎◌, inl, inr, Bool, true, false, not, ◌&&◌, ◌||◌, Option, none, some, List, [], ◌∷◌,
  ◌++◌, map, arith, ltb, leb, ◌==◌, ◌!=◌, if◌then◌else◌, ==-eq, ==-ne, ==_iff, Bool-cases,
  Option-cases, length, get_or, take, drop, keep_if, All, length-append, length-map, length-take,
  length-drop, take_all, put, put_same, put_other, slot_injective, segment, length-segment,
  segment_congr, segment_shift, segment_snoc, segment_append, segment_extend, segment_remove,
  segment_list, get_or-take, get_or-drop, ring, ring-put, ring_next, u8, u16, u32, sub32, sub16,
  signed_ltb32, low_bits, shr,
}

-- `enum class Priority`
pub data Priority : Type 0 where
  low normal high : Priority

-- `isOrderedController`
unfoldable pub is_ordered_controller : ℕ → Bool
is_ordered_controller cc =
    cc == 0
    || cc == 32
    || cc == 6
    || cc == 38
    || leb 64 cc && leb cc 69
    || leb 96 cc && leb cc 101
    || leb 120 cc

-- `data[i]`, inside the packet
abbrev pub byte : List ℕ → ℕ → ℕ
byte bytes i = get_or bytes i 0

-- `classify`; the packet is never a null pointer here.
unfoldable pub classify : List ℕ → Priority
classify bytes =
    let len = length bytes in
    let status = byte bytes 0 in
    let kind = bit_and status 0xf0 in
    let d1 = byte bytes 1 in
    if len == 0 || ltb 3 len
    then normal
    else if kind == 0x80
    then high
    else if kind == 0x90
    then (if leb 3 len && byte bytes 2 == 0 then high else normal)
    else if kind == 0xa0 || kind == 0xd0 || kind == 0xe0
    then low
    else if kind == 0xb0
    then (if leb 2 len && (leb 64 d1 && leb d1 69 || leb 120 d1)
        then high
        else if leb 2 len && is_ordered_controller d1
        then normal
        else low)
    else if status == 0xf8 || status == 0xfe
    then low
    else if status == 0xfc || status == 0xff
    then high
    else normal

-- `replaces`: a waiting message `queued` can be replaced by `bytes`.
unfoldable pub replaces : List ℕ → List ℕ → Bool
replaces bytes queued =
    let len = length bytes in
    let kind = bit_and (byte bytes 0) 0xf0 in
    if len != length queued || ltb len 2 || byte bytes 0 != byte queued 0
    then false
    else if kind == 0xd0 || kind == 0xe0
    then true
    else if kind == 0xa0
    then byte bytes 1 == byte queued 1
    else if kind == 0xb0
    then byte bytes 1 == byte queued 1 && not (is_ordered_controller (byte bytes 1))
    else false

-- A packet: its destination, its bytes and the caller's flags. A MAC address is compared only, so
-- it is a number.
pub record Packet : Type 0 where
  pub mac : ℕ
  pub bytes : List ℕ
  pub flags : ℕ

-- `ShortSlot` and `FrameSlot`: `len` is the length of the bytes that were copied in.
pub record Slot : Type 0 where
  pub packet : Packet
  pub seq : ℕ

pub record SendQueue : Type 0 where
  pub shorts : ℕ → Slot
  pub frames : ℕ → Slot
  pub short_head : ℕ
  pub short_count : ℕ
  pub frame_head : ℕ
  pub frame_count : ℕ
  pub next_seq : ℕ

-- `enum class Result`
pub data Result : Type 0 where
  queued replaced full too_long : Result

-- `limit`
unfoldable pub limit : ℕ → Priority → ℕ
limit short_slots low = short_slots / 2
limit short_slots normal = short_slots - short_slots / 8
limit short_slots high = short_slots

abbrev pub is_low : Priority → Bool
is_low low = true
is_low normal = false
is_low high = false

-- The test in the loop of `pushShort`.
unfoldable pub takes_place : Packet → Packet → Bool
takes_place p waiting =
    waiting.mac == p.mac && waiting.flags == p.flags && replaces p.bytes waiting.bytes

-- `memcpy(slot.data, data, len)` in a slot that is taken over.
abbrev pub overwrite : Slot → Packet → Slot
overwrite slot p = record slot { packet = record (slot.packet) { bytes = p.bytes } }

module _ (short_slots frame_slots frame_bytes : ℕ) where
  -- The loop of `pushShort` that looks for a value to replace.
  unfoldable pub replace_from : SendQueue → Packet → ℕ → ℕ → Option SendQueue
  replace_from q p i zero = none
  replace_from q p i (suc rounds) =
      let at = (q.short_head + i) % short_slots in
      if takes_place p (q.shorts at).packet
      then some (record q { shorts = put q.shorts at (overwrite (q.shorts at) p) })
      else replace_from q p (suc i) rounds

  -- The end of `pushShort`.
  unfoldable pub append_short : SendQueue → Packet → SendQueue
  append_short q p = record q {
    shorts =
        put q.shorts ((q.short_head + q.short_count) % short_slots)
          (record { packet = p; seq = q.next_seq });
    short_count = q.short_count + 1;
    next_seq = u16 (q.next_seq + 1);
  }

  unfoldable pub push_short : SendQueue → Packet → SendQueue × Result
  push_short q p =
      let priority = classify p.bytes in
      let refused = leb (limit short_slots priority) q.short_count in
      let added : SendQueue × Result = if refused then (q, full) else (append_short q p, queued) in
      if is_low priority
      then elim (replace_from q p 0 q.short_count) [ some q' ↦ (q', replaced) | none ↦ added ]
      else added

  -- The frame part of `push`.
  unfoldable pub append_frame : SendQueue → Packet → SendQueue
  append_frame q p = record q {
    frames =
        put q.frames ((q.frame_head + q.frame_count) % frame_slots)
          (record { packet = p; seq = q.next_seq });
    frame_count = q.frame_count + 1;
    next_seq = u16 (q.next_seq + 1);
  }

  unfoldable pub push : SendQueue → Packet → SendQueue × Result
  push q p =
      let len = length p.bytes in
      if len == 0
      then (q, too_long)
      else if leb len 3
      then push_short q p
      else if ltb frame_bytes len
      then (q, too_long)
      else if leb frame_slots q.frame_count
      then (q, full)
      else (append_frame q p, queued)

  unfoldable pub pop : SendQueue → SendQueue × Option Packet
  pop q =
      let have_short = ltb 0 q.short_count in
      let have_frame = ltb 0 q.frame_count in
      let short = q.shorts q.short_head in
      let frame = q.frames q.frame_head in
      let take_short = have_short && (not have_frame || leb (2 ^ 15) (sub16 short.seq frame.seq)) in
      if not have_short && not have_frame
      then (q, none)
      else if take_short
      then (
        record q { short_head = (q.short_head + 1) % short_slots; short_count = q.short_count - 1 },
        some short.packet,
      )
      else (
        record q { frame_head = (q.frame_head + 1) % frame_slots; frame_count = q.frame_count - 1 },
        some frame.packet,
      )

unfoldable pub size : SendQueue → ℕ
size q = q.short_count + q.frame_count

unfoldable pub is_empty : SendQueue → Bool
unfolding size
is_empty q = size q == 0

unfoldable pub clear : SendQueue → SendQueue
clear q = record q { short_count = 0; frame_count = 0 }
