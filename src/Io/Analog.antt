-- ===== src/Io/Analog.antt =====
-- include/enomik_io.h: `IO::processAnalogInput`.
use esp_now_midi.Base.{
  ℕ, is_some, ◌+◌, ◌/◌, Bool, true, false, not, ◌&&◌, Option, none, some, ltb, leb, ◌==◌,
  if◌then◌else◌, u8, sub32,
}
use esp_now_midi.Midi.{midi_pitch_bend}
use esp_now_midi.Codec.{PinConfig}
use esp_now_midi.Io.Scaling.{distance, map_range, constrain, snap_to_endpoints}
use esp_now_midi.Io.State.{Floats, PinState, is_value, smooth}

abbrev pub analog_min_interval : ℕ
analog_min_interval = 5

abbrev pub analog_endpoint_snap : ℕ
analog_endpoint_snap = 1

abbrev pub pitch_bend_endpoint_snap : ℕ
pitch_bend_endpoint_snap = 64

abbrev pub analog_spike_confirm : ℕ
analog_spike_confirm = 3

-- `ANALOG_SPIKE_LIMIT`
abbrev pub analog_spike_limit : ℕ → ℕ
analog_spike_limit adc_max_value = adc_max_value / 4

-- `currentValue` of a smoothed reading
unfoldable pub analog_value : ℕ → PinConfig → ℕ → ℕ
analog_value adc_max_value c smoothed =
    if c.midi_type == midi_pitch_bend
    then snap_to_endpoints (constrain (map_range smoothed 0 adc_max_value 0 16383) 0 16383) 0 16383
        pitch_bend_endpoint_snap
    else snap_to_endpoints
        (constrain (map_range smoothed 0 adc_max_value c.min_midi_value c.max_midi_value)
          c.min_midi_value c.max_midi_value)
        c.min_midi_value c.max_midi_value analog_endpoint_snap

-- `state.norm` of a smoothed reading
unfoldable pub analog_norm : ℕ → ℕ → ℕ
analog_norm adc_max_value smoothed = constrain (map_range smoothed 0 adc_max_value 0 127) 0 127

module _ {F : Type 0} where
  -- The test of `processAnalogInput` and of the continuous touch mode
  unfoldable pub change_due : ℕ → ℕ → PinState F → Bool
  change_due now value s =
      not (is_value value s.last_value) && leb analog_min_interval (sub32 now s.last_send_time)

module _ {F : Type 0} (floats : Floats F) (adc_max_value : ℕ) where
  -- `updateSmoothedAnalog`
  unfoldable pub update_smoothed_analog : ℕ → PinState F → PinState F × Bool
  unfolding smooth
  update_smoothed_analog raw_value s =
      if not (is_some s.last_value)
      then (record s { smoothed_value = floats.from_int raw_value; spike_count = 0 }, true)
      else if ltb (analog_spike_limit adc_max_value)
          (distance raw_value (floats.to_int s.smoothed_value))
      then (if ltb (u8 (s.spike_count + 1)) analog_spike_confirm
          then (record s { spike_count = u8 (s.spike_count + 1) }, false)
          else (record s { smoothed_value = floats.from_int raw_value; spike_count = 0 }, true))
      else (
        record s { smoothed_value = smooth floats raw_value s.smoothed_value; spike_count = 0 },
        true,
      )

  -- The end of `processAnalogInput`, from the smoothed value on
  unfoldable pub report_smoothed : PinConfig → ℕ → PinState F → PinState F × Option ℕ
  unfolding analog_value analog_norm change_due
  report_smoothed c now s =
      let smoothed = floats.to_int s.smoothed_value in
      let value = analog_value adc_max_value c smoothed in
      let normalized = record s { norm = analog_norm adc_max_value smoothed } in
      (normalized, if change_due now value normalized then some value else none)

  -- `processAnalogInput`
  unfoldable pub process_analog_input : PinConfig → ℕ → ℕ → PinState F → PinState F × Option ℕ
  unfolding update_smoothed_analog report_smoothed
  process_analog_input c now reading s =
      let updated = update_smoothed_analog reading (record s { raw = reading }) in
      if updated.1 then report_smoothed c now updated.0 else (updated.0, none)
