-- ===== src/UsbQueue.antt =====
-- include/UsbMidiQueue.h: the queue of messages on their way to USB MIDI OUT.
pub mod Slots
pub mod Policy
pub mod Enqueue
pub mod Stale
pub mod Promises
pub mod Order
mod Tests
use esp_now_midi.Base.{
  ℕ, zero, suc, ◌+◌, ◌-◌, ◌*◌, ◌/◌, ◌%◌, ◌^◌, ◌≤◌, ◌<◌, bit_or, bit_and, ◌≡◌, refl, sym, ap, ◌∙◌,
  ◌≢◌, ◌↔◌, ◌⊎◌, inl, inr, Bool, true, false, not, ◌&&◌, ◌||◌, Option, none, some, List, [], ◌∷◌,
  ◌++◌, map, arith, ltb, leb, ◌==◌, ◌!=◌, if◌then◌else◌, ==-eq, ==-ne, ==_iff, Bool-cases,
  Option-cases, length, get_or, take, drop, keep_if, All, length-append, put, put_same, put_other,
  slot_injective, segment, length-segment, segment_congr, segment_shift, segment_snoc,
  segment_append, ring, ring-put, ring_next, u8, u16, u32, sub32, sub16, signed_ltb32, low_bits,
  shr,
}
use esp_now_midi.Midi.{
  MidiMessage, midi_note_off, midi_note_on, midi_control_change, midi_program_change,
  midi_aftertouch, midi_pitch_bend, midi_song_pos_pointer, midi_song_select, midi_time_clock,
  midi_stop, midi_system_reset,
}

-- `USB_MIDI_QUEUE_SIZE`, at its default; one slot stays free to tell full from empty.
abbrev pub usb_midi_queue_size : ℕ
usb_midi_queue_size = 64

abbrev pub k_capacity : ℕ
k_capacity = usb_midi_queue_size - 1

pub record Entry : Type 0 where
  pub msg : MidiMessage
  pub time_ms : ℕ

pub record UsbMidiQueue : Type 0 where
  pub items : ℕ → Entry
  pub head : ℕ
  pub tail : ℕ
  pub pending_clock : Bool
  pub clock_time_ms : ℕ
  pub stale_drops : ℕ
  pub overflow_drops : ℕ

-- `isRelease`: messages that end something.
unfoldable pub is_release : MidiMessage → Bool
is_release m =
    if m.status == midi_note_off || m.status == midi_stop || m.status == midi_system_reset
    then true
    else if m.status == midi_note_on
    then m.second_byte == 0
    else if m.status == midi_control_change
    then (if (m.first_byte == 64 || m.first_byte == 66 || m.first_byte == 67)
          && ltb m.second_byte 64
        then true
        else leb 120 m.first_byte)
    else false

-- `isState`: messages whose latest value is current state.
unfoldable pub is_state : MidiMessage → Bool
is_state m =
    m.status == midi_control_change
    || m.status == midi_pitch_bend
    || m.status == midi_aftertouch
    || m.status == midi_program_change
    || m.status == midi_song_pos_pointer
    || m.status == midi_song_select

-- `sameState`: `b` carries a newer value for the same state as `a`.
unfoldable pub same_state : MidiMessage → MidiMessage → Bool
same_state a b =
    if a.status != b.status
    then false
    else if a.status == midi_control_change
    then a.channel == b.channel && a.first_byte == b.first_byte
    else if a.status == midi_pitch_bend
        || a.status == midi_aftertouch
        || a.status == midi_program_change
    then a.channel == b.channel
    else if a.status == midi_song_pos_pointer || a.status == midi_song_select
    then true
    else false

-- `sizeLocked`
unfoldable pub size_locked : UsbMidiQueue → ℕ
size_locked q = if leb q.tail q.head then q.head - q.tail else usb_midi_queue_size - q.tail + q.head

-- `at`
abbrev pub at : UsbMidiQueue → ℕ → ℕ
at q offset = (q.tail + offset) % usb_midi_queue_size

-- The loop of `removeAtLocked`, which moves the entries behind `k` forward by one; the last
-- argument counts the rounds left.
unfoldable pub shift_from : UsbMidiQueue → ℕ → ℕ → UsbMidiQueue
shift_from q k zero = q
shift_from q k (suc rounds) =
    shift_from (record q { items = put q.items (at q k) (q.items (at q (suc k))) }) (suc k) rounds

-- `removeAtLocked`: the loop runs while `k + 1 < n`.
unfoldable pub remove_at_locked : UsbMidiQueue → ℕ → UsbMidiQueue
remove_at_locked q offset =
    let n = size_locked q in
    let q' = shift_from q offset (n - 1 - offset) in
    record q' { head = (q.head + usb_midi_queue_size - 1) % usb_midi_queue_size }

-- The loop of `evictOldestDroppableLocked`.
unfoldable pub evict_from : UsbMidiQueue → ℕ → ℕ → UsbMidiQueue × Bool
evict_from q k zero = (q, false)
evict_from q k (suc rounds) =
    let rest = evict_from q (suc k) rounds in
    if not (is_release (q.items (at q k)).msg) then (remove_at_locked q k, true) else rest

unfoldable pub evict_oldest_droppable_locked : UsbMidiQueue → UsbMidiQueue × Bool
evict_oldest_droppable_locked q = evict_from q 0 (size_locked q)

-- The four statements that end `enqueue`.
unfoldable pub store : UsbMidiQueue → MidiMessage → ℕ → UsbMidiQueue
store q msg now = record q {
  items = put q.items q.head (record { msg = msg; time_ms = now });
  head = (q.head + 1) % usb_midi_queue_size;
}

-- `++_overflowDrops`
abbrev pub count_overflow : UsbMidiQueue → UsbMidiQueue
count_overflow q = record q { overflow_drops = u32 (q.overflow_drops + 1) }

-- `_tail = (_tail + 1) % USB_MIDI_QUEUE_SIZE`
abbrev pub drop_tail : UsbMidiQueue → UsbMidiQueue
drop_tail q = record q { tail = (q.tail + 1) % usb_midi_queue_size }

unfoldable pub enqueue : UsbMidiQueue → MidiMessage → ℕ → UsbMidiQueue
enqueue q msg now =
    let (q', evicted) = evict_oldest_droppable_locked q in
    if leb k_capacity (size_locked q)
    then (if evicted
        then store (count_overflow q') msg now
        else if not (is_release msg)
        then count_overflow q'
        else store (count_overflow (drop_tail q')) msg now)
    else store q msg now

unfoldable pub enqueue_clock : UsbMidiQueue → ℕ → UsbMidiQueue
enqueue_clock q now = record q { pending_clock = true; clock_time_ms = now }

unfoldable pub has_pending : UsbMidiQueue → Bool
has_pending q = q.tail != q.head || q.pending_clock

unfoldable pub pending_count : UsbMidiQueue → ℕ
pending_count q = let count = size_locked q in if q.pending_clock then u16 (count + 1) else count

-- The message that `peek` builds for a coalesced clock.
abbrev pub clock_message : MidiMessage
clock_message = record { channel = 0; status = midi_time_clock; first_byte = 0; second_byte = 0 }

unfoldable pub peek : UsbMidiQueue → Option MidiMessage
peek q =
    if q.tail != q.head
    then some (q.items q.tail).msg
    else if q.pending_clock
    then some clock_message
    else none

unfoldable pub consume_head : UsbMidiQueue → UsbMidiQueue
consume_head q =
    if q.tail != q.head
    then drop_tail q
    else if q.pending_clock
    then record q { pending_clock = false }
    else q

-- The loop of `hasNewerStateLocked`.
unfoldable pub newer_from : UsbMidiQueue → MidiMessage → ℕ → ℕ → Bool
newer_from q m k zero = false
newer_from q m k (suc rounds) = same_state m (q.items (at q k)).msg || newer_from q m (suc k) rounds

unfoldable pub has_newer_state_locked : UsbMidiQueue → ℕ → ℕ → Bool
unfolding newer_from
has_newer_state_locked q offset n =
    newer_from q (q.items (at q offset)).msg (offset + 1) (n - (offset + 1))

-- `keep`, as one round of `compactStaleLocked` computes it.
unfoldable pub keep_at : UsbMidiQueue → ℕ → ℕ → ℕ → ℕ → Bool
keep_at q now max_age_ms n read =
    let e = q.items (at q read) in
    if ltb max_age_ms (sub32 now e.time_ms) && not (is_release e.msg)
    then is_state e.msg && not (has_newer_state_locked q read n)
    else true

-- The loop of `compactStaleLocked`, with `write`, `dropped` and `read`, and the rounds left; the
-- entries that stay are moved to the front.
unfoldable pub compact_from : ℕ → ℕ → ℕ → UsbMidiQueue → ℕ → ℕ → ℕ → ℕ → UsbMidiQueue × ℕ × ℕ
compact_from now max_age_ms n q write dropped read zero = (q, write, dropped)
compact_from now max_age_ms n q write dropped read (suc rounds) =
    let keep = keep_at q now max_age_ms n read in
    let e = q.items (at q read) in
    compact_from now max_age_ms n
      (if keep && write != read then record q { items = put q.items (at q write) e } else q)
      (if keep then suc write else write) (if keep then dropped else suc dropped) (suc read) rounds

unfoldable pub compact_stale_locked : UsbMidiQueue → ℕ → ℕ → UsbMidiQueue × ℕ
compact_stale_locked q now max_age_ms =
    let n = size_locked q in
    let (q', write, dropped) = compact_from now max_age_ms n q 0 0 0 n in
    (record q' { head = at q' write }, dropped)

-- The clock part of `dropStale`.
unfoldable pub drop_stale_clock : UsbMidiQueue → ℕ → ℕ → UsbMidiQueue × ℕ
drop_stale_clock q now max_age_ms =
    if q.pending_clock && ltb max_age_ms (sub32 now q.clock_time_ms)
    then (record q { pending_clock = false }, 1)
    else (q, 0)

-- The entries part: only the oldest entry is looked at before the whole queue is compacted.
unfoldable pub drop_stale_entries : UsbMidiQueue → ℕ → ℕ → UsbMidiQueue × ℕ
drop_stale_entries q now max_age_ms =
    if q.tail != q.head && ltb max_age_ms (sub32 now (q.items q.tail).time_ms)
    then compact_stale_locked q now max_age_ms
    else (q, 0)

unfoldable pub drop_stale : UsbMidiQueue → ℕ → ℕ → UsbMidiQueue × ℕ
drop_stale q now max_age_ms =
    let (q1, clocks) = drop_stale_clock q now max_age_ms in
    let (q2, entries) = drop_stale_entries q1 now max_age_ms in
    let dropped = u16 (clocks + entries) in
    if max_age_ms == 0
    then (q, 0)
    else (record q2 { stale_drops = u32 (q2.stale_drops + dropped) }, dropped)

-- The loop of `refreshTimestamps`.
unfoldable pub refresh_from : UsbMidiQueue → ℕ → ℕ → ℕ → UsbMidiQueue
refresh_from q now k zero = q
refresh_from q now k (suc rounds) =
    refresh_from
      (record q { items = put q.items (at q k) (record (q.items (at q k)) { time_ms = now }) }) now
      (suc k) rounds

unfoldable pub refresh_timestamps : UsbMidiQueue → ℕ → UsbMidiQueue
refresh_timestamps q now =
    let q' = refresh_from q now 0 (size_locked q) in
    if q'.pending_clock then record q' { clock_time_ms = now } else q'

unfoldable pub clear : UsbMidiQueue → UsbMidiQueue
clear q = record q { head = 0; tail = 0; pending_clock = false }
