-- ===== src/Inbox/SysexFifo.antt =====
-- include/UsbSysExQueue.h: what the queue of SysEx messages holds.
use esp_now_midi.Base.{
  ℕ, ◌<◌, ◌≡◌, Bool, true, false, not, ◌&&◌, Option, none, some, List, arith, leb, ◌==◌,
  if◌then◌else◌, length, put_same,
}
use esp_now_midi.Sysex.{max_message}
use esp_now_midi.Inbox.Sysex.{
  usb_sysex_queue_slots, Slot, UsbSysExQueue, enqueue, has_pending, peek, consume_head,
}

pub record InRange (q : UsbSysExQueue) : Type 0 where
  pub head_inside : q.head < usb_sysex_queue_slots
  pub tail_inside : q.tail < usb_sysex_queue_slots

-- A ring of two slots holds at most one message.
abbrev pub held : UsbSysExQueue → Option Slot
held q = if q.tail == q.head then none else some (q.slots q.tail)

abbrev pub is_none : Option Slot → Bool
is_none none = true
is_none (some x) = false

-- The queue holds at most one message. enqueue keeps a message of 1 to 1024 bytes when none is held
-- and refuses it otherwise, leaving the queue as it was; peek and hasPending show the held message
-- and consumeHead drops it; the indices stay inside the array.
pub held-enqueue :
    (q : UsbSysExQueue) (bytes : List ℕ) (from : Option ℕ)
    → InRange q
    → let (q', ok) = enqueue q bytes from in
      (ok ≡ (leb 1 (length bytes) && leb (length bytes) max_message && is_none (peek q)))
      × (peek q' ≡ (if ok then some (record { bytes = bytes; from = from }) else peek q))
      × (has_pending q' ≡ not (is_none (peek q')))
      × (peek (consume_head q') ≡ none)
      × InRange q'
      × InRange (consume_head q')
unfolding enqueue has_pending peek consume_head
held-enqueue q bytes from valid = ground (
  arith,
  valid.head_inside,
  valid.tail_inside,
  put_same q.slots q.head (record { bytes = bytes; from = from }) q.tail,
)
