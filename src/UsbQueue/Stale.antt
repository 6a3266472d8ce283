-- ===== src/UsbQueue/Stale.antt =====
-- `dropStale` of the ring does what the policy says.
use esp_now_midi.Base.{
  ℕ, zero, suc, ◌+◌, ◌-◌, ◌%◌, ◌≤◌, ◌<◌, ◌≡◌, refl, ap, ◌∙◌, Bool, false, not, ◌&&◌, ◌||◌, List, [],
  ◌∷◌, ◌++◌, arith, ◌==◌, ◌!=◌, if◌then◌else◌, ==-eq, ==-ne, put, segment, segment_congr,
  segment_snoc, segment_extend, ring-put, u16, u32,
}
use mathlib.Core.List.{append_assoc, append-nil}
use esp_now_midi.UsbQueue.{
  Entry, UsbMidiQueue, usb_midi_queue_size, same_state, size_locked, at, newer_from,
  has_newer_state_locked, keep_at, compact_from, compact_stale_locked, drop_stale_clock,
  drop_stale_entries, drop_stale, pending_count,
}
use esp_now_midi.UsbQueue.Slots.{IsValid, view, contents, size_locked-lt, size_locked-of_head}
use esp_now_midi.UsbQueue.Policy.{superseded, is_stale, stays, compact_list}
use esp_now_midi.Midi.{MidiMessage}

newer_from-superseded :
    (q : UsbMidiQueue) (m : MidiMessage) (k rounds : ℕ)
    → newer_from q m k rounds ≡ superseded m (segment (view q) k rounds)
unfolding newer_from superseded
newer_from-superseded q m k zero = refl
newer_from-superseded q m k (suc rounds) =
    ap (λ (b : Bool). same_state m (view q k).msg || b) (newer_from-superseded q m (suc k) rounds)

keep_at-stays :
    (q : UsbMidiQueue) (now max_age_ms n read rounds : ℕ)
    → read + suc rounds ≡ n
    → keep_at q now max_age_ms n read
      ≡ stays now max_age_ms (view q read) (segment (view q) (suc read) rounds)
unfolding keep_at has_newer_state_locked
keep_at-stays q now max_age_ms n read rounds h =
    let next : read + 1 ≡ suc read = omega arith in
    let left : n - suc read ≡ rounds = omega arith in
    rw (next, left, newer_from-superseded q (view q read).msg (suc read) rounds)

abbrev moved : UsbMidiQueue → ℕ → ℕ → UsbMidiQueue
moved q write read = record q { items = put q.items (at q write) (q.items (at q read)) }

module _ (q : UsbMidiQueue) (write read : ℕ) where
  segment-moved_front :
      write ≤ read
      → read < usb_midi_queue_size
      → segment (view (moved q write read)) 0 (suc write)
        ≡ segment (view q) 0 write ++ view q read ∷ []
  segment-moved_front behind h =
      segment_extend (view q) (view (moved q write read)) write (view q read)
        (λ j lt.
          ring-put usb_midi_queue_size q.items q.tail write (q.items (at q read)) j (omega arith)
            (omega arith)
          ∙ rw (==-ne j write (omega arith)))
        (ring-put usb_midi_queue_size q.items q.tail write (q.items (at q read)) write (omega arith)
            (omega arith)
          ∙ rw (==-eq write write refl))

  segment-moved_rest :
      (rounds : ℕ)
      → write ≤ read
      → read + suc rounds ≤ usb_midi_queue_size
      → segment (view (moved q write read)) (suc read) rounds ≡ segment (view q) (suc read) rounds
  segment-moved_rest rounds behind h =
      segment_congr (view (moved q write read)) (view q) (suc read) rounds (λ j ge lt.
        ring-put usb_midi_queue_size q.items q.tail write (q.items (at q read)) j (omega arith)
          (omega arith)
        ∙ rw (==-ne j write (omega arith)))

-- What the compaction loop leaves, started from `q` with `write` entries kept.
record Compacted (now max_age_ms : ℕ) (q : UsbMidiQueue) (write dropped read rounds : ℕ)
    (out : UsbMidiQueue × ℕ × ℕ) : Type 0 where
  kept :
      segment (view out.0) 0 out.1
      ≡ segment (view q) 0 write ++ compact_list now max_age_ms (segment (view q) read rounds)
  counted : out.1 + out.2 ≡ write + dropped + rounds
  within : out.1 ≤ write + rounds
  same_tail : out.0.tail ≡ q.tail
  same_clock : out.0.pending_clock ≡ q.pending_clock

compact_from-Compacted :
    (now max_age_ms n : ℕ) (q : UsbMidiQueue) (write dropped read rounds : ℕ)
    → write ≤ read
    → read + rounds ≡ n
    → n < usb_midi_queue_size
    → Compacted now max_age_ms q write dropped read rounds
        (compact_from now max_age_ms n q write dropped read rounds)
unfolding compact_from compact_list
compact_from-Compacted now max_age_ms n q write dropped read zero le e lt = record {
  kept = ground (arith, append-nil (segment (view q) 0 write));
  counted = omega arith;
  within = omega arith;
  same_tail = refl;
  same_clock = refl;
}
compact_from-Compacted now max_age_ms n q write dropped read (suc rounds) le e lt = ground (
  arith,
  keep_at-stays q now max_age_ms n read rounds,
  compact_from-Compacted now max_age_ms n q write (suc dropped) (suc read) rounds,
  compact_from-Compacted now max_age_ms n q (suc write) dropped (suc read) rounds,
  compact_from-Compacted now max_age_ms n (moved q write read) (suc write) dropped (suc read)
      rounds,
  segment-moved_front q write read,
  segment-moved_rest q write read rounds,
  segment_snoc (view q) 0 write,
  append_assoc (segment (view q) 0 write) (view q read ∷ [])
      (compact_list now max_age_ms (segment (view q) (suc read) rounds)),
)

-- What a part of `dropStale` leaves: `ys` in the queue, `dropped` entries fewer.
record Left (q : UsbMidiQueue) (ys : List Entry) (out : UsbMidiQueue × ℕ) : Type 0 where
  pub holds : contents out.0 ≡ ys
  pub counted : size_locked out.0 + out.1 ≡ size_locked q
  pub valid : IsValid out.0
  pub same_clock : out.0.pending_clock ≡ q.pending_clock

compact_stale_locked-Left :
    (q : UsbMidiQueue) (now max_age_ms : ℕ)
    → IsValid q
    → Left q (compact_list now max_age_ms (contents q)) (compact_stale_locked q now max_age_ms)
unfolding compact_stale_locked
compact_stale_locked-Left q now max_age_ms v =
    let n = size_locked q in
    let (q', write, dropped) = compact_from now max_age_ms n q 0 0 0 n in
    let loop =
      compact_from-Compacted now max_age_ms n q 0 0 0 n (omega arith) (omega arith)
        (size_locked-lt v) in
    let small : write < usb_midi_queue_size = omega (arith, loop.within, size_locked-lt v) in
    let size : size_locked (record q' { head = at q' write }) ≡ write =
      size_locked-of_head (record q' { head = at q' write }) write
        (omega (arith, loop.same_tail, v.tail_in)) small refl in
    record {
      holds = ap (segment (view q') 0) size ∙ loop.kept;
      counted = omega (arith, size, loop.counted);
      valid = ground (arith, loop.same_tail, v.tail_in);
      same_clock = loop.same_clock;
    }

-- The entry that `dropStale` looks at before it compacts.
abbrev pub oldest_is_stale : ℕ → ℕ → List Entry → Bool
oldest_is_stale now max_age_ms [] = false
oldest_is_stale now max_age_ms (e ∷ es) = is_stale now max_age_ms e

unfoldable pub drop_stale_list : ℕ → ℕ → List Entry → List Entry
drop_stale_list now max_age_ms xs =
    if oldest_is_stale now max_age_ms xs then compact_list now max_age_ms xs else xs

pub tail-head : (q : UsbMidiQueue) → IsValid q → (q.tail == q.head) ≡ (size_locked q == 0)
unfolding size_locked
tail-head q v = ground arith

oldest-segment :
    (q : UsbMidiQueue) (now max_age_ms : ℕ)
    → IsValid q
    → (n : ℕ)
    → (not (n == 0) && is_stale now max_age_ms (q.items q.tail))
      ≡ oldest_is_stale now max_age_ms (segment (view q) 0 n)
oldest-segment q now max_age_ms v zero = refl
oldest-segment q now max_age_ms v (suc n) =
    let start : q.tail ≡ (q.tail + 0) % 64 = omega (arith, v.tail_in) in
    ground (arith, ap (λ (i : ℕ). is_stale now max_age_ms (q.items i)) start)

oldest-contents :
    (q : UsbMidiQueue) (now max_age_ms : ℕ)
    → IsValid q
    → (q.tail != q.head && is_stale now max_age_ms (q.items q.tail))
      ≡ oldest_is_stale now max_age_ms (contents q)
oldest-contents q now max_age_ms v =
    ap (λ (b : Bool). not b && is_stale now max_age_ms (q.items q.tail)) (tail-head q v)
    ∙ oldest-segment q now max_age_ms v (size_locked q)

drop_stale_entries-Left :
    (q : UsbMidiQueue) (now max_age_ms : ℕ)
    → IsValid q
    → Left q (drop_stale_list now max_age_ms (contents q)) (drop_stale_entries q now max_age_ms)
unfolding drop_stale_entries drop_stale_list
drop_stale_entries-Left q now max_age_ms v =
    ground (arith, oldest-contents q now max_age_ms v, compact_stale_locked-Left q now max_age_ms v)

with_stale_drops :
    (q : UsbMidiQueue) (n : ℕ)
    → (contents (record q { stale_drops = n }) ≡ contents q)
      × (size_locked (record q { stale_drops = n }) ≡ size_locked q)
unfolding size_locked
with_stale_drops q n = (refl, refl)

abbrev clock_count : UsbMidiQueue → ℕ
clock_count q = if q.pending_clock then 1 else 0

-- What the clock part leaves: the same entries.
record ClockLeft (q : UsbMidiQueue) (out : UsbMidiQueue × ℕ) : Type 0 where
  pub holds : contents out.0 ≡ contents q
  pub same_size : size_locked out.0 ≡ size_locked q
  pub counted : clock_count out.0 + out.1 ≡ clock_count q
  pub valid : IsValid out.0

drop_stale_clock-Left :
    (q : UsbMidiQueue) (now max_age_ms : ℕ)
    → IsValid q
    → ClockLeft q (drop_stale_clock q now max_age_ms)
unfolding drop_stale_clock size_locked
drop_stale_clock-Left q now max_age_ms v = ground arith

-- `drop_stale` with a positive age touches the entries only as `drop_stale_list` says: if the oldest
-- is stale, a stale entry stays only if it is a release or the latest value of its state. Nothing
-- else is lost: the number of removed messages, the clock included, is the number returned.
pub contents-drop_stale :
    (q : UsbMidiQueue) (now max_age_ms : ℕ)
    → IsValid q
    → 0 < max_age_ms
    → let (q', dropped) = drop_stale q now max_age_ms in
      (contents q' ≡ drop_stale_list now max_age_ms (contents q))
      × (pending_count q' + dropped ≡ pending_count q)
      × IsValid q'
unfolding drop_stale pending_count
contents-drop_stale q now max_age_ms v h =
    let (q1, clocks) = drop_stale_clock q now max_age_ms in
    let out = drop_stale_entries q1 now max_age_ms in
    let clock = drop_stale_clock-Left q now max_age_ms v in
    let entries = drop_stale_entries-Left q1 now max_age_ms clock.valid in
    ground (
      arith,
      clock,
      entries,
      size_locked-lt v,
      with_stale_drops out.0 (u32 (out.0.stale_drops + u16 (clocks + out.1))),
    )
