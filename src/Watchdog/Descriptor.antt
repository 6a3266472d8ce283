-- ===== src/Watchdog/Descriptor.antt =====
-- include/UsbStallWatchdog.h: `findMidiInEndpoint`.
use esp_now_midi.Base.{
  ℕ, zero, suc, ◌+◌, ◌*◌, ◌^◌, ◌≤◌, ◌<◌, bit_or, bit_and, ◌≡◌, refl, ◌⊎◌, inl, inr, Bool, true,
  false, not, ◌&&◌, ◌||◌, Option, none, some, arith, ltb, leb, ◌==◌, ◌!=◌, if◌then◌else◌, u16,
}
use esp_now_midi.Base.Bits.{bit_and_high_bit}

-- What the loop has found after some descriptors: nothing yet, or its answer.
abbrev pub desc_interface : ℕ
desc_interface = 0x04

abbrev pub desc_endpoint : ℕ
desc_endpoint = 0x05

-- The body of the loop at an interface descriptor, an endpoint descriptor or another one.
unfoldable pub next_streaming : (ℕ → ℕ) → ℕ → Bool → Bool
next_streaming cfg pos streaming =
    if cfg (pos + 1) == desc_interface && leb 9 (cfg pos)
    then cfg (pos + 5) == 0x01 && cfg (pos + 6) == 0x03
    else streaming

unfoldable pub is_midi_in : (ℕ → ℕ) → ℕ → Bool → Bool
is_midi_in cfg pos streaming =
    not (cfg (pos + 1) == desc_interface && leb 9 (cfg pos))
    && cfg (pos + 1) == desc_endpoint
    && leb 7 (cfg pos)
    && streaming
    && bit_and (cfg (pos + 2)) 0x80 != 0

-- The loop of `findMidiInEndpoint`, on fuel; `none` when the fuel runs out.
unfoldable pub walk : (ℕ → ℕ) → ℕ → ℕ → ℕ → Bool → Option ℕ
walk cfg total zero pos streaming = none
walk cfg total (suc fuel) pos streaming =
    let len = cfg pos in
    let rest = walk cfg total fuel (u16 (pos + len)) (next_streaming cfg pos streaming) in
    if ltb total (pos + 2)
    then some 0
    else if ltb len 2 || ltb total (pos + len)
    then some 0
    else if is_midi_in cfg pos streaming
    then some (cfg (pos + 2))
    else rest

-- `total`
abbrev pub total_length : (ℕ → ℕ) → ℕ
total_length cfg = u16 (bit_or (cfg 2) (cfg 3 * 2 ^ 8))

-- `findMidiInEndpoint`; the descriptor is never a null pointer here. A descriptor has two bytes or
-- more, so the fuel is more than the loop's rounds.
unfoldable pub find_midi_in_endpoint : (ℕ → ℕ) → Option ℕ
find_midi_in_endpoint cfg =
    if ltb (cfg 0) 4 || cfg 1 != 0x02
    then some 0
    else walk cfg (total_length cfg) (suc (total_length cfg)) 0 false

-- No endpoint, or the address of an IN endpoint
abbrev pub IsAnswer : ℕ → Type 0
IsAnswer r = (r ≡ 0) ⊎ (128 ≤ r) × (r < 256)

abbrev answer : Option ℕ → ℕ
answer none = 1
answer (some r) = r

walk-answer :
    (cfg : ℕ → ℕ) (total fuel pos : ℕ) (streaming : Bool)
    → ((j : ℕ) → cfg j < 256)
    → total < 2 ^ 16
    → pos ≤ total
    → total < pos + fuel
    → IsAnswer (answer (walk cfg total fuel pos streaming))
unfolding walk is_midi_in
walk-answer cfg total zero pos streaming byte small inside enough = absurd (omega arith)
walk-answer cfg total (suc fuel) pos streaming byte small inside enough = ground (
  arith,
  byte (pos + 2),
  bit_and_high_bit (cfg (pos + 2)) (byte (pos + 2)),
  wrap,
  walk-answer cfg total fuel (u16 (pos + cfg pos)) (next_streaming cfg pos streaming) byte small,
)
  where
    wrap : pos + cfg pos ≤ total → u16 (pos + cfg pos) ≡ pos + cfg pos
    wrap le = omega arith

is_midi_in_long :
    (cfg : ℕ → ℕ) (pos : ℕ) (streaming : Bool) → is_midi_in cfg pos streaming ≡ true → 7 ≤ cfg pos
unfolding is_midi_in
is_midi_in_long cfg pos streaming h = ground arith

module _ (cfg other : ℕ → ℕ) (total : ℕ) (same : (j : ℕ) → j < total → cfg j ≡ other j) where
  next_streaming_congr :
      (pos : ℕ) (streaming : Bool)
      → pos + 1 < total
      → pos + cfg pos ≤ total
      → next_streaming cfg pos streaming ≡ next_streaming other pos streaming
  unfolding next_streaming
  next_streaming_congr pos streaming two le =
      ground (arith, same pos, same (pos + 1), same (pos + 5), same (pos + 6))

  is_midi_in_congr :
      (pos : ℕ) (streaming : Bool)
      → pos + 1 < total
      → pos + cfg pos ≤ total
      → is_midi_in cfg pos streaming ≡ is_midi_in other pos streaming
  unfolding is_midi_in
  is_midi_in_congr pos streaming two le = ground (arith, same pos, same (pos + 1), same (pos + 2))

  walk_congr :
      (fuel pos : ℕ) (streaming : Bool)
      → walk cfg total fuel pos streaming ≡ walk other total fuel pos streaming
  unfolding walk
  walk_congr zero pos streaming = refl
  walk_congr (suc fuel) pos streaming = ground (
    arith,
    same pos,
    next_streaming_congr pos streaming,
    is_midi_in_congr pos streaming,
    same (pos + 2),
    is_midi_in_long cfg pos streaming,
    walk_congr fuel (u16 (pos + cfg pos)) (next_streaming cfg pos streaming),
  )

find_midi_in_endpoint-answer :
    (cfg : ℕ → ℕ) → ((j : ℕ) → cfg j < 256) → IsAnswer (answer (find_midi_in_endpoint cfg))
unfolding find_midi_in_endpoint
find_midi_in_endpoint-answer cfg byte = ground (
  arith,
  walk-answer cfg (total_length cfg) (suc (total_length cfg)) 0 false byte (omega arith)
      (omega arith) (omega arith),
)

IsAnswer-some : (o : Option ℕ) → IsAnswer (answer o) → (r : ℕ) × (o ≡ some r) × IsAnswer r
IsAnswer-some none h = absurd (omega arith)
IsAnswer-some (some r) h = (r, refl, h)

-- For every descriptor of bytes the search ends, and its answer is 0 or the address of an IN
-- endpoint, a byte with bit 7 set.
pub find_midi_in_endpoint-IsAnswer :
    (cfg : ℕ → ℕ)
    → ((j : ℕ) → cfg j < 256)
    → (r : ℕ) × (find_midi_in_endpoint cfg ≡ some r) × IsAnswer r
find_midi_in_endpoint-IsAnswer cfg byte =
    IsAnswer-some (find_midi_in_endpoint cfg) (find_midi_in_endpoint-answer cfg byte)

-- The search reads no byte behind the total length that the descriptor names, besides its first
-- four: two descriptors that agree on these bytes have the same answer.
pub find_midi_in_endpoint-congr :
    (cfg other : ℕ → ℕ)
    → ((j : ℕ) → (j < 4) ⊎ (j < total_length cfg) → cfg j ≡ other j)
    → find_midi_in_endpoint cfg ≡ find_midi_in_endpoint other
unfolding find_midi_in_endpoint
find_midi_in_endpoint-congr cfg other same = ground (
  arith,
  same 0 (inl (omega arith)),
  same 1 (inl (omega arith)),
  same 2 (inl (omega arith)),
  same 3 (inl (omega arith)),
  walk_congr cfg other (total_length cfg) (λ j lt. same j (inr lt)) (suc (total_length cfg)) 0
      false,
)
