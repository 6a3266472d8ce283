-- ===== src/Io/Debounce.antt =====
-- include/enomik_io.h: what the debouncing reports.
use esp_now_midi.Base.{
  ℕ, is_some, ◌≡◌, refl, ap, ◌∙◌, Bool, Option, none, some, List, [], ◌∷◌, arith, ltb, ◌==◌,
  if◌then◌else◌, sub32,
}
use mathlib.Core.Path.{ap₂}
use esp_now_midi.Codec.{PinConfig}
use esp_now_midi.Io.State.{PinState}
use esp_now_midi.Io.Digital.{debounce_ms, observe_level, digital_due, process_digital_input}
use esp_now_midi.Io.Pins.{report_value}

module _ {F : Type 0} where
  -- The state of a digital pin after polls, the latest first: each is the time and the level
  unfoldable pub polled : PinConfig → PinState F → List (ℕ × ℕ) → PinState F
  unfolding process_digital_input report_value
  polled c s [] = s
  polled c s ((now, level) ∷ earlier) =
      let before = polled c s earlier in
      let result = process_digital_input now level before in
      (report_value c now result.0 result.1).0

-- The time of the first poll of the run of equal levels that a poll belongs to
unfoldable pub stable_since : ℕ → ℕ → List (ℕ × ℕ) → ℕ
stable_since now level [] = now
stable_since now level ((before, other) ∷ earlier) =
    let rest = stable_since before level earlier in if other == level then rest else now

-- What stands reported after a poll, by what stood before and whether the level is too young
unfoldable pub next_reported : ℕ → Option ℕ → Bool → Option ℕ
next_reported level none young = some level
next_reported level (some value) young = if young then some value else some level

-- The level that was reported last: the first one at once, and then a level when the unbroken run of
-- polls that read it, up to the latest, began `DEBOUNCE_MS` ago or earlier.
unfoldable pub reported : List (ℕ × ℕ) → Option ℕ
unfolding stable_since next_reported
reported [] = none
reported ((now, level) ∷ earlier) =
    next_reported level (reported earlier)
      (ltb (sub32 now (stable_since now level earlier)) debounce_ms)

module _ {F : Type 0} (c : PinConfig) where
  report_value-kept :
      (now : ℕ) (s : PinState F) (due : Option ℕ)
      → ((report_value c now s due).0.last_raw_value ≡ s.last_raw_value)
        × ((report_value c now s due).0.last_change_time ≡ s.last_change_time)
        × ((report_value c now s due).0.last_value ≡ (if is_some due then due else s.last_value))
  unfolding report_value
  report_value-kept now s none = (refl, refl, refl)
  report_value-kept now s (some value) = (refl, refl, refl)

  polled_level :
      (s : PinState F) (now level : ℕ) (earlier : List (ℕ × ℕ))
      → (polled c s ((now, level) ∷ earlier)).last_raw_value ≡ some level
  unfolding polled process_digital_input observe_level
  polled_level s now level earlier = (report_value-kept now _ _).0

  -- One poll after `observe_level`
  report_digital :
      (now level : ℕ) (t : PinState F)
      → (report_value c now t (if digital_due now level t then some level else none)).0.last_value
        ≡ next_reported level t.last_value (ltb (sub32 now t.last_change_time) debounce_ms)
  unfolding digital_due next_reported
  report_digital now level t = report_digital_by t.last_value refl
    where
      report_digital_by :
          (last : Option ℕ)
          → t.last_value ≡ last
          → (report_value c now t
              (if digital_due now level t then some level else none)).0.last_value
            ≡ next_reported level t.last_value (ltb (sub32 now t.last_change_time) debounce_ms)
      report_digital_by none e = (report_value-kept now t _).2 ∙ ground (arith, e)
      report_digital_by (some value) e = (report_value-kept now t _).2 ∙ ground (arith, e)

module _ {F : Type 0} (c : PinConfig) (s : PinState F) (fresh : s.last_raw_value ≡ none)
    (quiet : s.last_value ≡ none) where
  -- The stability window starts where the run of equal levels does.
  observed_since :
      (now level : ℕ) (earlier : List (ℕ × ℕ))
      → (observe_level now level (polled c s earlier)).last_change_time
        ≡ stable_since now level earlier
  unfolding polled process_digital_input observe_level stable_since
  observed_since now level [] = rw fresh refl
  observed_since now level ((before, other) ∷ earlier) =
      let since =
        (report_value-kept c before (observe_level before other (polled c s earlier))
          (process_digital_input before other (polled c s earlier)).1).1
        ∙ observed_since before other earlier in
      rw (polled_level c s before other earlier, since)
        (ground (arith, ap (λ (l : ℕ). stable_since before l earlier) {x = other} {y = level}))

  -- The code reports what the polls say, for a pin that has not been polled before: a level at once when
  -- none was reported before, and later a level when the unbroken run of polls that read it, up to the
  -- latest, began 4 ms ago or earlier.
  pub polled-reported : (polls : List (ℕ × ℕ)) → (polled c s polls).last_value ≡ reported polls
  unfolding polled process_digital_input observe_level reported
  polled-reported [] = quiet
  polled-reported ((now, level) ∷ earlier) =
      report_digital c now level (observe_level now level (polled c s earlier))
      ∙ ap₂ (λ last since. next_reported level last (ltb (sub32 now since) debounce_ms))
          (polled-reported earlier) (observed_since now level earlier)
