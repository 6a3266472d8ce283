-- ===== src/Io/Pins.antt =====
-- include/enomik_io.h: the input pins, one by one.
use esp_now_midi.Base.{ℕ, ◌&&◌, ◌||◌, Option, none, some, List, [], ◌∷◌, ◌++◌, ◌==◌, if◌then◌else◌}
use esp_now_midi.Midi.{MidiMessage}
use esp_now_midi.Codec.{PinConfig, RawValue}
use esp_now_midi.Io.State.{
  Floats, PinState, Readings, mode_input, mode_input_pullup, mode_analog_input, mode_input_touch,
  is_input, raw_value_for,
}
use esp_now_midi.Io.Digital.{process_digital_input}
use esp_now_midi.Io.Analog.{process_analog_input}
use esp_now_midi.Io.Touch.{process_touch_input}
use esp_now_midi.Io.Outputs.{midi_of_value}

abbrev pub option_list {ℓ} : {A : Type ℓ} → Option A → List A
option_list none = []
option_list (some a) = a ∷ []

module _ {F : Type 0} where
  -- The end of `processPinInput`, by the value that is due
  unfoldable pub report_value :
      PinConfig → ℕ → PinState F → Option ℕ → PinState F × Option MidiMessage
  unfolding midi_of_value
  report_value c now s none = (s, none)
  report_value c now s (some value) =
      (record s { last_value = some value; last_send_time = now }, midi_of_value c value)

module _ {F : Type 0} (floats : Floats F) (r : Readings) where
  -- The switch of `processPinInput`
  unfoldable pub read_input : PinConfig → ℕ → PinState F → PinState F × Option ℕ
  unfolding process_digital_input process_analog_input process_touch_input
  read_input c now s =
      if c.mode == mode_input || c.mode == mode_input_pullup
      then process_digital_input now (r.digital c.pin) s
      else if c.mode == mode_analog_input
      then process_analog_input floats r.adc_max_value c now (r.analog c.pin) s
      else if c.mode == mode_input_touch
      then process_touch_input floats r c now s
      else (s, none)

  -- `processPinInput`: the state and what is sent
  unfoldable pub process_pin_input : PinConfig → ℕ → PinState F → PinState F × Option MidiMessage
  unfolding read_input report_value
  process_pin_input c now s =
      let reading = read_input c now s in report_value c now reading.0 reading.1

  -- The loop of `loop` over both vectors
  unfoldable pub process_pins :
      ℕ → List PinConfig → List (PinState F) → List (PinState F) × List MidiMessage
  unfolding process_pin_input is_input
  process_pins now [] states = (states, [])
  process_pins now (c ∷ configs) [] = ([], [])
  process_pins now (c ∷ configs) (s ∷ states) =
      let rest = process_pins now configs states in
      let read = if is_input c then process_pin_input c now s else (s, none) in
      (read.0 ∷ rest.0, option_list read.1 ++ rest.1)

module _ {F : Type 0} (floats : Floats F) where
  -- `readPinRaw`
  unfoldable pub read_pin_raw : ℕ → List PinConfig → List (PinState F) → Option RawValue
  unfolding is_input raw_value_for
  read_pin_raw pin [] states = none
  read_pin_raw pin (c ∷ configs) [] = none
  read_pin_raw pin (c ∷ configs) (s ∷ states) =
      let rest = read_pin_raw pin configs states in
      if c.pin == pin && is_input c then some (raw_value_for floats c s) else rest
