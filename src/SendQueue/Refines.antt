-- ===== src/SendQueue/Refines.antt =====
-- When a queue stands for a list of packets.
use esp_now_midi.Base.{
  ℕ, zero, suc, ◌+◌, ◌%◌, ◌≤◌, ◌<◌, ◌≡◌, refl, ap, ◌∙◌, ◌⊎◌, inl, inr, Bool, true, false, not,
  Option, none, some, List, [], ◌∷◌, ◌++◌, arith, if◌then◌else◌, ==-ne, Bool-cases, Option-cases,
  length, length-append, put, put_same, segment, length-segment, ring, ring-put, ring_list,
  ring_list-put, ring_list-put_inside, u16,
}
use mathlib.Core.List.{append-nil}
use esp_now_midi.SendQueue.{
  Packet, Slot, SendQueue, append_short, append_frame, replace_from, takes_place, overwrite,
  replaces,
}
use esp_now_midi.SendQueue.Fifo.{
  is_short, count_short, count_frame, tagged, length-tagged, tagged-append, replace_list,
}

abbrev pub is_frame : Packet → Bool
is_frame p = not (is_short p)

module _ (short_slots frame_slots frame_bytes : ℕ) where
  abbrev pub shorts_of : SendQueue → List Slot
  shorts_of q = ring_list short_slots q.shorts q.short_head q.short_count

  abbrev pub frames_of : SendQueue → List Slot
  frames_of q = ring_list frame_slots q.frames q.frame_head q.frame_count

  -- The two rings hold the packets of `ps`, oldest first, the short ones and the frames apart; the
  -- sequence numbers count the packets of both from `s` on.
  pub record Refines (q : SendQueue) (ps : List Packet) (s : ℕ) : Type 0 where
    pub shorts : shorts_of q ≡ tagged is_short s ps
    pub frames : frames_of q ≡ tagged is_frame s ps
    pub next : q.next_seq ≡ u16 (s + length ps)
    pub short_head_in : q.short_head < short_slots
    pub frame_head_in : q.frame_head < frame_slots
    pub short_fits : q.short_count ≤ short_slots
    pub frame_fits : q.frame_count ≤ frame_slots

  pub short_count-Refines :
      (q : SendQueue) (ps : List Packet) (s : ℕ) → Refines q ps s → q.short_count ≡ count_short ps
  short_count-Refines q ps s r = omega (
    arith,
    length-segment (ring short_slots q.shorts q.short_head) 0 q.short_count,
    ap length r.shorts,
    length-tagged is_short s ps,
  )

  pub frame_count-Refines :
      (q : SendQueue) (ps : List Packet) (s : ℕ) → Refines q ps s → q.frame_count ≡ count_frame ps
  frame_count-Refines q ps s r = omega (
    arith,
    length-segment (ring frame_slots q.frames q.frame_head) 0 q.frame_count,
    ap length r.frames,
    length-tagged is_frame s ps,
  )

  -- Appending a short message.
  pub append_short-Refines :
      (q : SendQueue) (ps : List Packet) (s : ℕ) (p : Packet)
      → Refines q ps s
      → is_short p ≡ true
      → q.short_count < short_slots
      → Refines (append_short short_slots frame_slots frame_bytes q p) (ps ++ p ∷ []) s
  unfolding append_short
  append_short-Refines q ps s p r short room = ground (
    arith,
    r,
    ring_list-put short_slots q.shorts q.short_head q.short_count
        (record { packet = p; seq = q.next_seq }),
    tagged-append is_short s ps p,
    tagged-append is_frame s ps p,
    length-append ps (p ∷ []),
    append-nil (tagged is_frame s ps),
  )

  -- Appending a frame.
  pub append_frame-Refines :
      (q : SendQueue) (ps : List Packet) (s : ℕ) (p : Packet)
      → Refines q ps s
      → is_short p ≡ false
      → q.frame_count < frame_slots
      → Refines (append_frame short_slots frame_slots frame_bytes q p) (ps ++ p ∷ []) s
  unfolding append_frame
  append_frame-Refines q ps s p r short room = ground (
    arith,
    r,
    ring_list-put frame_slots q.frames q.frame_head q.frame_count
        (record { packet = p; seq = q.next_seq }),
    tagged-append is_short s ps p,
    tagged-append is_frame s ps p,
    length-append ps (p ∷ []),
    append-nil (tagged is_short s ps),
  )

abbrev prepend_slot : Slot → Option (List Slot) → Option (List Slot)
prepend_slot x none = none
prepend_slot x (some xs) = some (x ∷ xs)

-- The same replacement on a list of slots.
replace_slots : Packet → List Slot → Option (List Slot)
replace_slots p [] = none
replace_slots p (x ∷ xs) =
    if takes_place p x.packet
    then some (overwrite x p ∷ xs)
    else prepend_slot x (replace_slots p xs)

takes_place-short : (p w : Packet) → takes_place p w ≡ true → is_short p ≡ true → is_short w ≡ true
unfolding takes_place replaces
takes_place-short p w h k = ground arith

-- What a replacement leaves: slots that stand for the new list, and no other change.
replace_slots-tagged :
    (p : Packet) (s : ℕ) (ps : List Packet)
    → is_short p ≡ true
    → replace_slots p (tagged is_short s ps)
      ≡ elim (replace_list p ps) [ none ↦ none | some ps' ↦ some (tagged is_short s ps') ]
unfolding replace_slots replace_list
replace_slots-tagged p s [] short = refl
replace_slots-tagged p s (w ∷ ps) short = elim (Option-cases (replace_list p ps)) [
  | inl e ↦ ground (arith, replace_slots-tagged p (suc s) ps short, takes_place-short p w)
  | inr (ws, e) ↦ ground (arith, replace_slots-tagged p (suc s) ps short, takes_place-short p w)
]

replace_list-frames :
    (p : Packet) (s : ℕ) (ps ps' : List Packet)
    → is_short p ≡ true
    → replace_list p ps ≡ some ps'
    → (tagged is_frame s ps' ≡ tagged is_frame s ps) × (length ps' ≡ length ps)
unfolding replace_list
replace_list-frames p s [] ps' short e = cc
replace_list-frames p s (w ∷ ps) ps' short e = elim (Option-cases (replace_list p ps)) [
  | inl none_there ↦ ground (arith, takes_place-short p w)
  | inr (ws, there) ↦
      ground (arith, replace_list-frames p (suc s) ps ws short there, takes_place-short p w)
]

-- The loop over the ring finds and overwrites the slot that the list version does.
module _ (short_slots frame_slots frame_bytes : ℕ) where
  data Scan (q : SendQueue) (p : Packet) (i rounds : ℕ) : Type 0 where
    missed :
        replace_from short_slots frame_slots frame_bytes q p i rounds ≡ none
        → replace_slots p (segment (ring short_slots q.shorts q.short_head) i rounds) ≡ none
        → Scan q p i rounds
    hit :
        (at : ℕ → Slot)
        → replace_from short_slots frame_slots frame_bytes q p i rounds
          ≡ some (record q { shorts = at })
        → replace_slots p (segment (ring short_slots q.shorts q.short_head) i rounds)
          ≡ some (segment (ring short_slots at q.short_head) i rounds)
        → ((j : ℕ)
            → j < i
            → ring short_slots at q.short_head j ≡ ring short_slots q.shorts q.short_head j)
        → Scan q p i rounds

  replace_from-Scan :
      (q : SendQueue) (p : Packet) (i rounds : ℕ) → i + rounds ≤ short_slots → Scan q p i rounds
  unfolding replace_from replace_slots
  replace_from-Scan q p i zero h = missed refl refl
  replace_from-Scan q p i (suc rounds) h =
      let here = ring short_slots q.shorts q.short_head i in
      let written = put q.shorts ((q.short_head + i) % short_slots) (overwrite here p) in
      elim (Bool-cases (takes_place p here.packet)) [
        | inl yes' ↦
            hit written (ground arith)
              (ground (
                arith,
                ring_list-put_inside short_slots q.shorts q.short_head i rounds (overwrite here p),
                put_same q.shorts ((q.short_head + i) % short_slots) (overwrite here p)
                    ((q.short_head + i) % short_slots),
              ))
              (λ j lt.
                ring-put short_slots q.shorts q.short_head i (overwrite here p) j (omega arith)
                  (omega arith)
                ∙ rw (==-ne j i (omega arith)) refl)
        | inr no' ↦ elim (replace_from-Scan q p (suc i) rounds (omega arith)) [
          | missed a b ↦ missed (ground (arith, a)) (ground (arith, b))
          | hit at a b same ↦
              hit at (ground (arith, a)) (ground (arith, b, same i)) (λ j lt. same j (omega arith))
        ]
      ]

  -- Replacing a value keeps the order and everything else.
  pub replace_from-Refines :
      (q : SendQueue) (ps : List Packet) (s : ℕ) (p : Packet)
      → Refines short_slots frame_slots frame_bytes q ps s
      → is_short p ≡ true
      → (replace_from short_slots frame_slots frame_bytes q p 0 q.short_count ≡ none)
          × (replace_list p ps ≡ none)
        ⊎ ((q' : SendQueue) × (ps' : List Packet) × (replace_from short_slots frame_slots
                frame_bytes q p 0 q.short_count
              ≡ some q')
            × (replace_list p ps ≡ some ps')
            × Refines short_slots frame_slots frame_bytes q' ps' s)
  replace_from-Refines q ps s p r short =
      let same = ap (replace_slots p) r.shorts ∙ replace_slots-tagged p s ps short in
      elim (replace_from-Scan q p 0 q.short_count (omega (arith, r.short_fits))) [
        | missed a b ↦ elim (Option-cases (replace_list p ps)) [
          | inl e ↦ inl (a, e)
          | inr (ps', e) ↦ absurd (ground (arith, b, same, e))
        ]
        | hit at a b _ ↦ elim (Option-cases (replace_list p ps)) [
          | inl e ↦ absurd (ground (arith, b, same, e))
          | inr (ps', e) ↦ inr (
            record q { shorts = at },
            ps',
            a,
            e,
            ground (arith, r, b, same, e, replace_list-frames p s ps ps' short e),
          )
        ]
      ]

pub length_keep : (ps : List Packet) → count_short ps + count_frame ps ≡ length ps
length_keep [] = refl
length_keep (p ∷ ps) = ground (arith, length_keep ps)
