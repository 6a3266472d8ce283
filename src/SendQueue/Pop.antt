-- ===== src/SendQueue/Pop.antt =====
-- `pop` takes the oldest packet of both rings, also when the 16-bit sequence numbers wrap.
use esp_now_midi.Base.{
  ℕ, suc, ◌+◌, ◌-◌, ◌%◌, ◌^◌, ◌≤◌, ◌<◌, ◌≡◌, ap, inl, inr, true, false, List, [], ◌∷◌, arith,
  Bool-cases, length, ring_list, ring_list_pop, u16, sub16,
}
use esp_now_midi.SendQueue.{Packet, SendQueue, pop}
use esp_now_midi.SendQueue.Fifo.{is_short, pop_list, tagged_ahead}
use esp_now_midi.SendQueue.Refines.{
  Refines, is_frame, short_count-Refines, frame_count-Refines, length_keep,
}

abbrev pub next_start : List Packet → ℕ → ℕ
next_start [] s = s
next_start (p ∷ ps) s = suc s

module _ (short_slots frame_slots frame_bytes : ℕ)
    (small : short_slots + frame_slots ≤ 2 ^ 15) where
  bound :
      (q : SendQueue) (ps : List Packet) (s : ℕ)
      → Refines short_slots frame_slots frame_bytes q ps s
      → length ps ≤ 2 ^ 15
  bound q ps s r = omega (
    arith,
    r,
    length_keep ps,
    short_count-Refines short_slots frame_slots frame_bytes q ps s r,
    frame_count-Refines short_slots frame_slots frame_bytes q ps s r,
  )

  short_first :
      (q : SendQueue) (p : Packet) (ps : List Packet) (s : ℕ)
      → Refines short_slots frame_slots frame_bytes q (p ∷ ps) s
      → is_short p ≡ true
      → 0 < q.frame_count
      → 2 ^ 15 ≤ sub16 (u16 s) (q.frames q.frame_head).seq
  short_first q p ps s r short some_frame =
      let (j, lt, at) =
        tagged_ahead is_frame (suc s) ps (q.frames q.frame_head)
          (ring_list frame_slots q.frames ((q.frame_head + 1) % frame_slots) (q.frame_count - 1))
          (ground (arith, r, ring_list_pop frame_slots q.frames q.frame_head q.frame_count)) in
      omega (arith, lt, at, bound q (p ∷ ps) s r)

  frame_first :
      (q : SendQueue) (p : Packet) (ps : List Packet) (s : ℕ)
      → Refines short_slots frame_slots frame_bytes q (p ∷ ps) s
      → is_short p ≡ false
      → 0 < q.short_count
      → sub16 (q.shorts q.short_head).seq (u16 s) < 2 ^ 15
  frame_first q p ps s r short some_short =
      let (j, lt, at) =
        tagged_ahead is_short (suc s) ps (q.shorts q.short_head)
          (ring_list short_slots q.shorts ((q.short_head + 1) % short_slots) (q.short_count - 1))
          (ground (arith, r, ring_list_pop short_slots q.shorts q.short_head q.short_count)) in
      omega (arith, lt, at, bound q (p ∷ ps) s r)

  -- A pop on a queue that stands for a line of packets gives the first of the line, and leaves a
  -- queue that stands for the rest; on the empty line it gives nothing.
  pub pop-pop_list :
      (q : SendQueue) (ps : List Packet) (s : ℕ)
      → Refines short_slots frame_slots frame_bytes q ps s
      → let (q', out) = pop short_slots frame_slots frame_bytes q in
        let (ps', out') = pop_list ps in
        (out ≡ out') × Refines short_slots frame_slots frame_bytes q' ps' (next_start ps s)
  unfolding pop pop_list
  pop-pop_list q [] s r = ground (
    arith,
    r,
    short_count-Refines short_slots frame_slots frame_bytes q [] s r,
    frame_count-Refines short_slots frame_slots frame_bytes q [] s r,
  )
  pop-pop_list q (p ∷ ps) s r = elim (Bool-cases (is_short p)) [
    | inl short ↦ ground (
      arith,
      r,
      short,
      short_count-Refines short_slots frame_slots frame_bytes q (p ∷ ps) s r,
      ring_list_pop short_slots q.shorts q.short_head q.short_count,
      short_first q p ps s r short,
      ap (λ (n : ℕ). u16 n) {x = s + suc (length ps)} {y = suc s + length ps} (omega arith),
    )
    | inr frame ↦ ground (
      arith,
      r,
      frame,
      frame_count-Refines short_slots frame_slots frame_bytes q (p ∷ ps) s r,
      ring_list_pop frame_slots q.frames q.frame_head q.frame_count,
      frame_first q p ps s r frame,
      ap (λ (n : ℕ). u16 n) {x = s + suc (length ps)} {y = suc s + length ps} (omega arith),
    )
  ]
