-- ===== src/SendQueue/Fifo.antt =====
-- The promise of the send queue: one list of packets, oldest first.
use esp_now_midi.Base.{
  ℕ, suc, ◌+◌, ◌<◌, ◌≡◌, refl, ap, inl, inr, Bool, not, Option, none, some, List, [], ◌∷◌, ◌++◌,
  arith, ltb, leb, ◌==◌, if◌then◌else◌, Bool-cases, length, keep_if, u16,
}
use esp_now_midi.SendQueue.{
  classify, Packet, Slot, Result, queued, replaced, full, too_long, is_low, limit, takes_place,
}

abbrev pub is_short : Packet → Bool
is_short p = leb (length p.bytes) 3

abbrev pub prepend : Packet → Option (List Packet) → Option (List Packet)
prepend w none = none
prepend w (some ws) = some (w ∷ ws)

-- The first waiting value that `p` may replace takes the new bytes, and keeps its place.
unfoldable pub replace_list : Packet → List Packet → Option (List Packet)
replace_list p [] = none
replace_list p (w ∷ ws) =
    if takes_place p w
    then some (record w { bytes = p.bytes } ∷ ws)
    else prepend w (replace_list p ws)

abbrev pub count_short : List Packet → ℕ
count_short ps = length (keep_if is_short ps)

abbrev pub count_frame : List Packet → ℕ
count_frame ps = length (keep_if (λ p. not (is_short p)) ps)

module _ (short_slots frame_slots frame_bytes : ℕ) where
  unfoldable pub push_short_list : List Packet → Packet → List Packet × Result
  push_short_list ps p =
      let priority = classify p.bytes in
      let added : List Packet × Result =
        if leb (limit short_slots priority) (count_short ps)
        then (ps, full)
        else (ps ++ p ∷ [], queued) in
      if is_low priority
      then elim (replace_list p ps) [ some ps' ↦ (ps', replaced) | none ↦ added ]
      else added

  -- A packet goes to the end of the line, or replaces an older value of the same controller for the
  -- same receiver, or is refused.
  unfoldable pub push_list : List Packet → Packet → List Packet × Result
  push_list ps p =
      let len = length p.bytes in
      if len == 0
      then (ps, too_long)
      else if leb len 3
      then push_short_list ps p
      else if ltb frame_bytes len
      then (ps, too_long)
      else if leb frame_slots (count_frame ps)
      then (ps, full)
      else (ps ++ p ∷ [], queued)

unfoldable pub pop_list : List Packet → List Packet × Option Packet
pop_list [] = ([], none)
pop_list (p ∷ ps) = (ps, some p)

-- The slots of the packets that `pick` selects, with consecutive sequence numbers from `s` on.
abbrev pub tagged : (Packet → Bool) → ℕ → List Packet → List Slot
tagged pick s [] = []
tagged pick s (p ∷ ps) =
    if pick p
    then record { packet = p; seq = u16 s } ∷ tagged pick (suc s) ps
    else tagged pick (suc s) ps

pub tagged-append :
    (pick : Packet → Bool) (s : ℕ) (ps : List Packet) (p : Packet)
    → tagged pick s (ps ++ p ∷ [])
      ≡ tagged pick s ps
        ++ (if pick p then record { packet = p; seq = u16 (s + length ps) } ∷ [] else [])
tagged-append pick s [] p = ground (
  arith,
  ap {B = List Slot} (λ (n : ℕ). record { packet = p; seq = u16 n } ∷ []) {x = s} {y = s + 0},
)
tagged-append pick s (x ∷ ps) p = ground (
  arith,
  tagged-append pick (suc s) ps p,
  ap (λ (n : ℕ). u16 n) {x = s + suc (length ps)} {y = suc s + length ps},
)

pub length-tagged :
    (pick : Packet → Bool) (s : ℕ) (ps : List Packet)
    → length (tagged pick s ps) ≡ length (keep_if pick ps)
length-tagged pick s [] = refl
length-tagged pick s (x ∷ ps) = ground (arith, length-tagged pick (suc s) ps)

-- A slot further on has a sequence number further on.
pub tagged_ahead :
    (pick : Packet → Bool) (s : ℕ) (ps : List Packet) (x : Slot) (xs : List Slot)
    → tagged pick s ps ≡ x ∷ xs
    → (j : ℕ) × (j < length ps) × (x.seq ≡ u16 (s + j))
tagged_ahead pick s [] x xs e = cc
tagged_ahead pick s (p ∷ ps) x xs e = elim (Bool-cases (pick p)) [
  | inl here ↦ (0, omega arith, ground arith)
  | inr there ↦
      let (j, lt, at) = tagged_ahead pick (suc s) ps x xs (ground arith) in
      (suc j, omega arith, omega arith)
]
