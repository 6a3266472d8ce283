-- ===== src/Io/Touch.antt =====
-- include/enomik_io.h: `IO::processTouchInput` and the calibration.
use esp_now_midi.Base.{
  ℕ, zero, suc, is_some, ◌+◌, ◌*◌, ◌/◌, Bool, false, not, ◌&&◌, ◌||◌, Option, none, some, ltb, leb,
  ◌==◌, ◌!=◌, if◌then◌else◌, u32, sub32,
}
use esp_now_midi.Codec.{PinConfig}
use esp_now_midi.Transport.Send.{pos}
use esp_now_midi.Io.Scaling.{map_range, constrain, snap_to_endpoints, magnitude, same_bool}
use esp_now_midi.Io.State.{Floats, PinState, Readings, mode_input_touch, smooth}
use esp_now_midi.Io.Digital.{debounce_ms}
use esp_now_midi.Io.Analog.{analog_endpoint_snap, change_due}

abbrev pub touch_calibration_samples : ℕ
touch_calibration_samples = 16

abbrev pub touch_min_peak_pct : ℕ
touch_min_peak_pct = 5

-- The loop of `calibrateTouch`
unfoldable pub sum_samples : (ℕ → ℕ) → ℕ → ℕ
sum_samples sample zero = 0
sum_samples sample (suc n) = sum_samples sample n + sample n

-- The limit of the change below which the baseline drifts
unfoldable pub drift_limit : PinConfig → ℕ
drift_limit c = if c.threshold != 0 then c.threshold / 2 else touch_min_peak_pct / 2

-- `releaseAt`
unfoldable pub release_at : PinConfig → ℕ
release_at c = if ltb 0 (c.threshold * 3 / 4) then c.threshold * 3 / 4 else 1

-- `isTouched` in threshold mode
unfoldable pub is_touched : PinConfig → Bool → ℕ → Bool
unfolding release_at
is_touched c touched percent =
    if touched then leb (release_at c) percent else leb c.threshold percent

module _ {F : Type 0} where
  -- Threshold mode: the end of `processTouchInput`
  unfoldable pub process_threshold : PinConfig → ℕ → PinState F → PinState F × Option ℕ
  unfolding is_touched
  process_threshold c now s =
      let now_touched = is_touched c s.touched s.touch_percent in
      let shown = record s { norm = if s.touched then 127 else 0 } in
      if same_bool now_touched s.touched || ltb (sub32 now s.last_change_time) debounce_ms
      then (shown, none)
      else (
        record shown {
          last_change_time = now;
          touched = now_touched;
          norm = if now_touched then 127 else 0;
        },
        some (if now_touched then c.max_midi_value else c.min_midi_value),
      )

module _ {F : Type 0} (floats : Floats F) where
  -- `calibrateTouch`
  unfoldable pub calibrate_touch : Readings → PinConfig → PinState F → PinState F
  unfolding sum_samples
  calibrate_touch r c s =
      if c.mode != mode_input_touch || not r.touch_available then s else record s {
        touch_baseline =
            floats.from_int
              (sum_samples (r.sample c.pin) touch_calibration_samples / touch_calibration_samples);
        touch_peak = 0;
        touch_percent = 0;
        touched = false;
      }

  -- `delta`: the change from the baseline in the direction of a touch
  unfoldable pub touch_delta : Bool → F → ℕ → ℕ
  touch_delta rises baseline reading =
      let change =
        if rises
        then floats.sub (floats.from_int reading) baseline
        else floats.sub baseline (floats.from_int reading) in
      if floats.less (floats.decimal 0 1) change then floats.to_int change else 0

  -- `state.touchPercent`
  unfoldable pub percent_of : ℕ → F → ℕ
  percent_of delta baseline =
      let percent = u32 (delta * 100 / floats.to_int baseline) in
      if ltb 127 percent then 127 else percent

  -- The slow drift of the baseline
  unfoldable pub drift : PinConfig → ℕ → PinState F → PinState F
  unfolding drift_limit
  drift c reading s =
      if not s.touched && leb s.touch_percent (drift_limit c)
      then record s {
        touch_baseline = floats.add s.touch_baseline (
            floats.mul (floats.decimal 1 100)
              (floats.sub (floats.from_int reading) s.touch_baseline));
      }
      else s

  -- The peak that maps to 127, of a smoothed value
  unfoldable pub learned_peak : F → F → ℕ → ℕ
  learned_peak baseline smoothed peak =
      let floor = floats.to_int (
        floats.div (floats.mul baseline (floats.from_int touch_min_peak_pct))
          (floats.decimal 100 1)) in
      let raised = if ltb peak floor then (if ltb 0 floor then floor else 1) else peak in
      if floats.less (floats.from_int raised) smoothed then floats.to_int smoothed else raised

  -- `norm` in continuous mode
  unfoldable pub touch_norm : F → ℕ → ℕ
  unfolding constrain snap_to_endpoints
  touch_norm smoothed peak =
      let scaled =
        floats.to_int
          (floats.div (floats.mul smoothed (floats.decimal 127 1)) (floats.from_int peak)) in
      snap_to_endpoints (constrain (pos scaled) 0 127) 0 127 analog_endpoint_snap

  -- Continuous mode
  unfoldable pub process_continuous : PinConfig → ℕ → F → ℕ → PinState F → PinState F × Option ℕ
  unfolding learned_peak touch_norm map_range change_due
  process_continuous c now baseline delta s =
      let smoothed =
        if is_some s.last_value
        then smooth floats delta s.smoothed_value
        else floats.from_int delta in
      let peak = learned_peak baseline smoothed s.touch_peak in
      let norm = touch_norm smoothed peak in
      let value = magnitude (map_range norm 0 127 c.min_midi_value c.max_midi_value) in
      let mapped = record s { smoothed_value = smoothed; touch_peak = peak; norm = norm } in
      (mapped, if change_due now value mapped then some value else none)

  -- `processTouchInput` with a baseline
  unfoldable pub measure_touch : Bool → PinConfig → ℕ → ℕ → PinState F → PinState F × Option ℕ
  unfolding touch_delta percent_of drift process_continuous process_threshold
  measure_touch rises c now reading s =
      let baseline = s.touch_baseline in
      let delta = touch_delta rises baseline reading in
      let drifted = drift c reading (record s { touch_percent = percent_of delta baseline }) in
      if c.threshold == 0
      then process_continuous c now baseline delta drifted
      else process_threshold c now drifted

  -- `processTouchInput`
  unfoldable pub process_touch_input : Readings → PinConfig → ℕ → PinState F → PinState F × Option ℕ
  unfolding measure_touch
  process_touch_input r c now s =
      let reading = r.touch c.pin in
      let one = floats.decimal 1 1 in
      let seen = record s {
        raw = reading;
        touch_baseline =
            if floats.less s.touch_baseline one then floats.from_int reading else s.touch_baseline;
      } in
      if not r.touch_available
      then (s, none)
      else if floats.less seen.touch_baseline one
      then (seen, none)
      else measure_touch r.touch_rises c now reading seen
