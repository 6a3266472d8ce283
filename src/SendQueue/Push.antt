-- ===== src/SendQueue/Push.antt =====
-- `push` does to the line of packets what `push_list` says.
use esp_now_midi.Base.{ℕ, ◌≤◌, ◌≡◌, inl, inr, true, List, arith}
use esp_now_midi.SendQueue.{
  Priority, low, normal, high, classify, Packet, SendQueue, Result, limit, push_short, push,
}
use esp_now_midi.SendQueue.Fifo.{is_short, push_short_list, push_list}
use esp_now_midi.SendQueue.Refines.{
  Refines, short_count-Refines, frame_count-Refines, append_short-Refines, append_frame-Refines,
  replace_from-Refines,
}

limit-le : (short_slots : ℕ) (priority : Priority) → limit short_slots priority ≤ short_slots
unfolding limit
limit-le n low = omega arith
limit-le n normal = omega arith
limit-le n high = omega arith

module _ (short_slots frame_slots frame_bytes : ℕ) where
  -- The result and the queue after a push stand for what the list version gives.
  abbrev pub Pushed : SendQueue × Result → List Packet × Result → ℕ → Type 0
  Pushed (q, r) (ps, r') s = (r ≡ r') × Refines short_slots frame_slots frame_bytes q ps s

  push_short-Pushed :
      (q : SendQueue) (ps : List Packet) (s : ℕ) (p : Packet)
      → Refines short_slots frame_slots frame_bytes q ps s
      → is_short p ≡ true
      → Pushed
          (push_short short_slots frame_slots frame_bytes q p)
          (push_short_list short_slots frame_slots frame_bytes ps p)
          s
  unfolding push_short push_short_list
  push_short-Pushed q ps s p r short =
      elim (replace_from-Refines short_slots frame_slots frame_bytes q ps s p r short) [
        | inl (a, b) ↦ ground (
          arith,
          a,
          b,
          r,
          short_count-Refines short_slots frame_slots frame_bytes q ps s r,
          limit-le short_slots (classify p.bytes),
          append_short-Refines short_slots frame_slots frame_bytes q ps s p r short,
        )
        | inr (q', ps', a, b, r') ↦ ground (
          arith,
          a,
          b,
          r,
          r',
          short_count-Refines short_slots frame_slots frame_bytes q ps s r,
          limit-le short_slots (classify p.bytes),
          append_short-Refines short_slots frame_slots frame_bytes q ps s p r short,
        )
      ]

  -- A push on a queue that stands for a line of packets returns what `push_list` returns, and
  -- leaves a queue that stands for the line that `push_list` leaves.
  pub push-push_list :
      (q : SendQueue) (ps : List Packet) (s : ℕ) (p : Packet)
      → Refines short_slots frame_slots frame_bytes q ps s
      → Pushed
          (push short_slots frame_slots frame_bytes q p)
          (push_list short_slots frame_slots frame_bytes ps p)
          s
  unfolding push push_list
  push-push_list q ps s p r = ground (
    arith,
    r,
    push_short-Pushed q ps s p r,
    frame_count-Refines short_slots frame_slots frame_bytes q ps s r,
    append_frame-Refines short_slots frame_slots frame_bytes q ps s p r,
  )
