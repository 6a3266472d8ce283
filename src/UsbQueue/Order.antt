-- ===== src/UsbQueue/Order.antt =====
-- `peek` and `consumeHead`: messages leave in the order in which they came, the clock last.
use esp_now_midi.Base.{
  ◌+◌, ◌%◌, ◌≡◌, refl, ap, false, Option, none, some, List, [], ◌∷◌, ◌++◌, map, arith, ◌!=◌,
  if◌then◌else◌, length, drop, length-append, length-map, segment,
}
use native.Mathlib.Decide.{ℕ_discrete}
use esp_now_midi.UsbQueue.Stale.{tail-head}
use esp_now_midi.UsbQueue.{
  UsbMidiQueue, size_locked, peek, consume_head, clock_message, has_pending, pending_count,
}
use esp_now_midi.UsbQueue.Slots.{
  IsValid, view, contents, contents-drop_tail, size_locked-lt, drop_tail-IsValid, length-contents,
}
use esp_now_midi.Midi.{MidiMessage}

-- All that waits to be sent, in order: the queued messages, then a coalesced clock.
abbrev pub waiting : UsbMidiQueue → List MidiMessage
waiting q = map (λ e. e.msg) (contents q) ++ (if q.pending_clock then clock_message ∷ [] else [])

abbrev pub head_of : List MidiMessage → Option MidiMessage
head_of [] = none
head_of (m ∷ ms) = some m

length-waiting :
    (q : UsbMidiQueue) → length (waiting q) ≡ size_locked q + (if q.pending_clock then 1 else 0)
length-waiting q = ground (
  arith,
  length-append (map (λ e. e.msg) (contents q))
      (if q.pending_clock then clock_message ∷ [] else []),
  length-map (contents q) (λ e. e.msg),
  length-contents q,
)

without_clock : (q : UsbMidiQueue) → contents (record q { pending_clock = false }) ≡ contents q
unfolding size_locked
without_clock q = refl

-- `peek` shows the first waiting message and `consume_head` removes it alone; `has_pending` and
-- `pending_count` tell whether there is one and how many there are.
pub consume_head-waiting :
    (q : UsbMidiQueue)
    → IsValid q
    → (peek q ≡ head_of (waiting q))
      × (waiting (consume_head q) ≡ drop 1 (waiting q))
      × (pending_count q ≡ length (waiting q))
      × (has_pending q ≡ (pending_count q != 0))
      × IsValid (consume_head q)
unfolding peek consume_head has_pending pending_count
consume_head-waiting q v = elim (ℕ_discrete (size_locked q) 0) [
  | yes empty ↦
      ground
        (arith, tail-head q v, ap (segment (view q) 0) {x = size_locked q} {y = 0}, without_clock q)
  | no full ↦ ground (
    arith,
    tail-head q v,
    size_locked-lt v,
    length-waiting q,
    contents-drop_tail v,
    drop_tail-IsValid v,
    ap q.items start,
  )
]
  where
    start : q.tail ≡ (q.tail + 0) % 64
    start = omega (arith, v.tail_in)
