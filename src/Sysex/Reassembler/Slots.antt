-- ===== src/Sysex/Reassembler/Slots.antt =====
-- The loops over the four slots.
use esp_now_midi.Base.{
  ℕ, zero, suc, ◌+◌, ◌-◌, ◌≤◌, ◌<◌, ◌≡◌, ap, inl, inr, Bool, true, false, ◌&&◌, none, some, List,
  [], ◌∷◌, arith, ltb, leb, ◌==◌, if◌then◌else◌, Option-cases, length, get_or, put, put_same,
  put_other, sub32, signed_ltb32,
}
use esp_now_midi.Sysex.Reassembler.{
  Slot, Slots, max_reassembly_slots, reassembly_timeout_ms, expire_from, expire_stale, find_from,
  free_from, oldest_from, alloc_slot, copy_into,
}

abbrev pub expired : ℕ → Slot → Slot
expired now_ms slot =
    if slot.active && ltb reassembly_timeout_ms (sub32 now_ms slot.last_ms)
    then record slot { active = false }
    else slot

abbrev expire_step : Slots → ℕ → ℕ → Slots
expire_step slots now_ms i =
    if (slots i).active && ltb reassembly_timeout_ms (sub32 now_ms (slots i).last_ms)
    then put slots i (record (slots i) { active = false })
    else slots

expire_step_at :
    (slots : Slots) (now_ms i j : ℕ)
    → expire_step slots now_ms i j ≡ (if j == i then expired now_ms (slots j) else slots j)
expire_step_at slots now_ms i j = ground (
  arith,
  put_same slots i (record (slots i) { active = false }) j,
  put_other slots i (record (slots i) { active = false }) j,
  ap slots {x = j} {y = i},
)

expire_from_at :
    (slots : Slots) (now_ms i rounds j : ℕ)
    → expire_from slots now_ms i rounds j
      ≡ (if leb i j && ltb j (i + rounds) then expired now_ms (slots j) else slots j)
unfolding expire_from
expire_from_at slots now_ms i zero j = ground arith
expire_from_at slots now_ms i (suc rounds) j = ground (
  arith,
  expire_from_at (expire_step slots now_ms i) now_ms (suc i) rounds j,
  expire_step_at slots now_ms i j,
)

-- `find_slot` gives the first active slot of the sender.
pub find_from-lt :
    (slots : Slots) (mac i rounds k : ℕ)
    → find_from slots mac i rounds ≡ some k
    → (k < i + rounds) × ((slots k).active ≡ true) × ((slots k).mac ≡ mac)
unfolding find_from
find_from-lt slots mac i zero k h = cc
find_from-lt slots mac i (suc rounds) k h = ground (arith, find_from-lt slots mac (suc i) rounds k)

abbrev pub matches : Slots → ℕ → ℕ → Bool
matches slots mac j = (slots j).active && (slots j).mac == mac

pub find_from-before :
    (slots : Slots) (mac i rounds k j : ℕ)
    → find_from slots mac i rounds ≡ some k
    → i ≤ j
    → j < k
    → matches slots mac j ≡ false
unfolding find_from
find_from-before slots mac i zero k j h lo hi = cc
find_from-before slots mac i (suc rounds) k j h lo hi =
    ground
      (arith, find_from-before slots mac (suc i) rounds k j, ap (matches slots mac) {x = i} {y = j})

pub find_from-none :
    (slots : Slots) (mac i rounds j : ℕ)
    → find_from slots mac i rounds ≡ none
    → i ≤ j
    → j < i + rounds
    → matches slots mac j ≡ false
unfolding find_from
find_from-none slots mac i zero j h lo hi = absurd (omega arith)
find_from-none slots mac i (suc rounds) j h lo hi =
    ground
      (arith, find_from-none slots mac (suc i) rounds j, ap (matches slots mac) {x = i} {y = j})

-- The first match is found.
pub find_from-first :
    (slots : Slots) (mac i rounds k : ℕ)
    → i ≤ k
    → k < i + rounds
    → matches slots mac k ≡ true
    → ((j : ℕ) → j < k → matches slots mac j ≡ false)
    → find_from slots mac i rounds ≡ some k
unfolding find_from
find_from-first slots mac i zero k lo hi m before = absurd (omega arith)
find_from-first slots mac i (suc rounds) k lo hi m before = ground (
  arith,
  before i,
  ap (matches slots mac) {x = i} {y = k},
  find_from-first slots mac (suc i) rounds k,
)

pub expire_stale_at :
    (slots : Slots) (now_ms j : ℕ)
    → j < max_reassembly_slots
    → expire_stale slots now_ms j ≡ expired now_ms (slots j)
unfolding expire_stale
expire_stale_at slots now_ms j h = ground (arith, expire_from_at slots now_ms 0 4 j)

-- Whatever the slots, `alloc_slot` gives one of the four.
oldest_from-lt :
    (slots : Slots) (now_ms oldest i rounds : ℕ)
    → oldest < 4
    → i + rounds ≤ 4
    → oldest_from slots now_ms oldest i rounds < 4
unfolding oldest_from
oldest_from-lt slots now_ms oldest i zero h k = h
oldest_from-lt slots now_ms oldest i (suc rounds) h k =
    oldest_from-lt slots now_ms
      (if signed_ltb32 (sub32 now_ms (slots oldest).last_ms) (sub32 now_ms (slots i).last_ms)
        then i
        else oldest)
      (suc i) rounds (ground arith) (omega arith)

free_from-lt : (slots : Slots) (i rounds k : ℕ) → free_from slots i rounds ≡ some k → k < i + rounds
unfolding free_from
free_from-lt slots i zero k h = cc
free_from-lt slots i (suc rounds) k h = ground (arith, free_from-lt slots (suc i) rounds k)

pub alloc_slot-lt : (slots : Slots) (now_ms : ℕ) → alloc_slot slots now_ms < max_reassembly_slots
unfolding alloc_slot
alloc_slot-lt slots now_ms = elim (Option-cases (free_from slots 0 max_reassembly_slots)) [
  | inl e ↦ ground (arith, oldest_from-lt slots now_ms 0 1 3 (omega arith) (omega arith))
  | inr (k, e) ↦ ground (arith, free_from-lt slots 0 4 k e)
]

pub copy_into_at :
    (buffer : ℕ → ℕ) (i : ℕ) (bytes : List ℕ) (j : ℕ)
    → copy_into buffer i bytes j
      ≡ (if leb i j && ltb j (i + length bytes) then get_or bytes (j - i) 0 else buffer j)
unfolding copy_into
copy_into_at buffer i [] j = ground arith
copy_into_at buffer i (b ∷ bs) j = ground (
  arith,
  copy_into_at (put buffer i b) (suc i) bs j,
  put_same buffer i b j,
  put_other buffer i b j,
  ap (λ (n : ℕ). get_or (b ∷ bs) n 0) {x = j - i} {y = 0},
  ap (λ (n : ℕ). get_or (b ∷ bs) n 0) {x = j - i} {y = suc (j - suc i)},
)
