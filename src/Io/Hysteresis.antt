-- ===== src/Io/Hysteresis.antt =====
-- include/enomik_io.h: the switching of a touch pin in threshold mode.
use esp_now_midi.Base.{
  ℕ, ◌≤◌, ◌≡◌, refl, sym, ap, ◌∙◌, inl, inr, Bool, true, false, not, ◌||◌, Option, none, some, List,
  [], ◌∷◌, arith, ltb, leb, if◌then◌else◌, Bool-cases, sub32,
}
use mathlib.Core.Path.{subst}
use esp_now_midi.Codec.{PinConfig}
use esp_now_midi.Io.Scaling.{same_bool}
use esp_now_midi.Io.State.{PinState}
use esp_now_midi.Io.Digital.{debounce_ms}
use esp_now_midi.Io.Touch.{release_at, is_touched, process_threshold}

-- A value that a touch pin in threshold mode has sent: when, the change that was measured, whether the
-- pin counts as touched from then on, and the value
pub record Switch : Type 0 where
  pub time : ℕ
  pub percent : ℕ
  pub touching : Bool
  pub value : ℕ

-- The switch that a result of `processTouchInput` makes, before the earlier ones
unfoldable pub logged : ℕ → ℕ → Bool → Option ℕ → List Switch → List Switch
logged now percent touching none log = log
logged now percent touching (some value) log =
    record { time = now; percent = percent; touching = touching; value = value } ∷ log

module _ {F : Type 0} (c : PinConfig) where
  -- The polls of a pin, each with its time and the measured change, and the switches, the latest first
  unfoldable pub touch_run : List (ℕ × ℕ) → PinState F → List Switch → List Switch
  unfolding process_threshold logged
  touch_run [] s log = log
  touch_run ((now, percent) ∷ polls) s log =
      let result = process_threshold c now (record s { touch_percent = percent }) in
      touch_run polls result.0 (logged now percent result.0.touched result.1 log)

-- A switch on has reached the threshold, one off is below three quarters of it, and the value is that
-- of the end of the range.
abbrev pub IsFair : PinConfig → Switch → Type 0
IsFair c w =
    ((if w.touching then leb c.threshold w.percent else ltb w.percent (release_at c)) ≡ true)
    × (w.value ≡ (if w.touching then c.max_midi_value else c.min_midi_value))

-- Switches, the latest first: each is fair, the first is on, and each turns the one before it round at
-- least the debounce time later.
abbrev pub Alternating : PinConfig → List Switch → Type 0
Alternating c [] = Unit
Alternating c (w ∷ []) = IsFair c w × (w.touching ≡ true)
Alternating c (w ∷ v ∷ log) =
    IsFair c w
    × (w.touching ≡ not v.touching)
    × (debounce_ms ≤ sub32 w.time v.time)
    × Alternating c (v ∷ log)

switched_fair :
    (c : PinConfig) (now percent : ℕ) (touched : Bool)
    → same_bool (is_touched c touched percent) touched ≡ false
    → let on = is_touched c touched percent in
      ((if on then leb c.threshold percent else ltb percent (release_at c)) ≡ true)
      × (on ≡ not touched)
unfolding is_touched
switched_fair c now percent true h = (ground (arith, h), ground (arith, h))
switched_fair c now percent false h = (ground (arith, h), ground (arith, h))

module _ {F : Type 0} (c : PinConfig) where
  -- The state after the switches
  abbrev Follows : PinState F → List Switch → Type 0
  Follows s [] = s.touched ≡ false
  Follows s (w ∷ log) = (s.touched ≡ w.touching) × (s.last_change_time ≡ w.time)

  Alternating-next :
      (w : Switch) (s : PinState F) (log : List Switch)
      → IsFair c w
      → w.touching ≡ not s.touched
      → debounce_ms ≤ sub32 w.time s.last_change_time
      → Follows s log
      → Alternating c log
      → Alternating c (w ∷ log)
  Alternating-next w s [] fair turned late follows v = (fair, turned ∙ ap not follows)
  Alternating-next w s (x ∷ log) fair turned late follows v = (
    fair,
    turned ∙ ap not follows.0,
    subst (λ (t : ℕ). debounce_ms ≤ sub32 w.time t) follows.1 late,
    v,
  )

  Follows-same :
      (s t : PinState F) (log : List Switch)
      → t.touched ≡ s.touched
      → t.last_change_time ≡ s.last_change_time
      → Follows s log
      → Follows t log
  Follows-same s t [] touched changed follows = touched ∙ follows
  Follows-same s t (w ∷ log) touched changed follows = (touched ∙ follows.0, changed ∙ follows.1)

  process_threshold-quiet :
      (now : ℕ) (s : PinState F)
      → (same_bool (is_touched c s.touched s.touch_percent) s.touched
          || ltb (sub32 now s.last_change_time) debounce_ms)
        ≡ true
      → process_threshold c now s ≡ (record s { norm = if s.touched then 127 else 0 }, none)
  unfolding process_threshold
  process_threshold-quiet now s quiet = simp (quiet) refl

  process_threshold-switched :
      (now : ℕ) (s : PinState F)
      → (same_bool (is_touched c s.touched s.touch_percent) s.touched
          || ltb (sub32 now s.last_change_time) debounce_ms)
        ≡ false
      → process_threshold c now s ≡ (
        record s {
          last_change_time = now;
          touched = is_touched c s.touched s.touch_percent;
          norm = if is_touched c s.touched s.touch_percent then 127 else 0;
        },
        some
            (if is_touched c s.touched s.touch_percent then c.max_midi_value else c.min_midi_value),
      )
  unfolding process_threshold
  process_threshold-switched now s switched = simp (switched) refl

  Alternating-touch_run_from :
      (polls : List (ℕ × ℕ)) (s : PinState F) (log : List Switch)
      → Follows s log
      → Alternating c log
      → Alternating c (touch_run c polls s log)
  unfolding touch_run logged
  Alternating-touch_run_from [] s log follows v = v
  Alternating-touch_run_from ((now, percent) ∷ polls) s log follows v =
      elim (Bool-cases (
        same_bool (is_touched c s.touched percent) s.touched
        || ltb (sub32 now s.last_change_time) debounce_ms)) [
          | inl quiet ↦ subst rest (sym (process_threshold-quiet now measured quiet)) (
              Alternating-touch_run_from polls _ log
                (Follows-same s (record measured { norm = if s.touched then 127 else 0 }) log refl
                  refl follows)
                v)
          | inr switched ↦
              let same : same_bool (is_touched c s.touched percent) s.touched ≡ false =
                ground (arith, switched) in
              let late : debounce_ms ≤ sub32 now s.last_change_time = ground (arith, switched) in
              let fair = switched_fair c now percent s.touched same in
              subst rest (sym (process_threshold-switched now measured switched)) (
                Alternating-touch_run_from polls _ _ (refl, refl)
                  (Alternating-next _ s log (fair.0, refl) fair.1 late follows v))
        ]
    where
      measured : PinState F
      measured = record s { touch_percent = percent }

      rest : PinState F × Option ℕ → Type 0
      rest result =
          Alternating c
            (touch_run c polls result.0 (logged now percent result.0.touched result.1 log))

  -- Whatever is measured and whenever, the values that a touch pin in threshold mode sends alternate
  -- between the maximum and the minimum of its range, the maximum first; the maximum is sent at a change
  -- that reaches the threshold, the minimum at one below three quarters of it (rounded down, but at
  -- least 1), and no two values within the debounce time of the 32-bit clock.
  pub Alternating-touch_run :
      (polls : List (ℕ × ℕ)) (s : PinState F)
      → s.touched ≡ false
      → Alternating c (touch_run c polls s [])
  Alternating-touch_run polls s untouched = Alternating-touch_run_from polls s [] untouched tt
