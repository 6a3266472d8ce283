-- ===== src/Io/Digital.antt =====
-- include/enomik_io.h: `IO::processDigitalInput`.
use esp_now_midi.Base.{
  ℕ, is_some, Bool, not, ◌&&◌, Option, none, some, ltb, ◌!=◌, if◌then◌else◌, sub32,
}
use esp_now_midi.Io.State.{PinState, is_value}

-- `DEBOUNCE_MS`
abbrev pub debounce_ms : ℕ
debounce_ms = 4

module _ {F : Type 0} where
  -- The first half of `processDigitalInput`: the reading, and the restart of the stability window
  unfoldable pub observe_level : ℕ → ℕ → PinState F → PinState F
  observe_level now reading s = record s {
    raw = reading;
    norm = if reading != 0 then 127 else 0;
    last_raw_value = some reading;
    last_change_time = if is_value reading s.last_raw_value then s.last_change_time else now;
  }

  -- The second half: whether the value is to be sent
  unfoldable pub digital_due : ℕ → ℕ → PinState F → Bool
  digital_due now reading s =
      not (is_some s.last_value && ltb (sub32 now s.last_change_time) debounce_ms)
      && not (is_value reading s.last_value)

  -- `processDigitalInput`: the state, and `currentValue` where the result is `true`
  unfoldable pub process_digital_input : ℕ → ℕ → PinState F → PinState F × Option ℕ
  unfolding observe_level digital_due
  process_digital_input now reading s =
      let observed = observe_level now reading s in
      (observed, if digital_due now reading observed then some reading else none)
