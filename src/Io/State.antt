-- ===== src/Io/State.antt =====
-- include/enomik_io.h: the state of a pin.
use esp_now_midi.Base.{ℕ, Bool, false, ◌&&◌, Option, none, some, ◌==◌, ◌!=◌, if◌then◌else◌}
use esp_now_midi.Codec.{PinConfig, RawValue}

-- The pin modes
abbrev pub mode_input : ℕ
mode_input = 0x00

abbrev pub mode_output : ℕ
mode_output = 0x01

abbrev pub mode_input_pullup : ℕ
mode_input_pullup = 0x02

abbrev pub mode_analog_input : ℕ
mode_analog_input = 0x03

abbrev pub mode_analog_output : ℕ
mode_analog_output = 0x04

abbrev pub mode_input_touch : ℕ
mode_input_touch = 0x05

-- The single-precision numbers of the compiler, which the model only computes with: `to_int` truncates
-- one that is not negative, and `decimal n d` is the literal for `n / d`.
pub record Floats (F : Type 0) : Type 0 where
  pub from_int : ℕ → F
  pub to_int : F → ℕ
  pub decimal : ℕ → ℕ → F
  pub add : F → F → F
  pub sub : F → F → F
  pub mul : F → F → F
  pub div : F → F → F
  pub less : F → F → Bool

-- `PinState`; what is -1 there is `none`.
pub record PinState (F : Type 0) : Type 0 where
  pub last_value : Option ℕ
  pub last_raw_value : Option ℕ
  pub last_change_time : ℕ
  pub last_send_time : ℕ
  pub smoothed_value : F
  pub spike_count : ℕ
  pub touched : Bool
  pub raw : ℕ
  pub norm : ℕ
  pub touch_baseline : F
  pub touch_peak : ℕ
  pub touch_percent : ℕ

-- What the pins read at one time. Digital readings are `HIGH` or `LOW` and analog ones are in the range
-- of the converter, so neither is negative; `sample pin i` is the i-th sample of a calibration.
pub record Readings : Type 0 where
  pub digital : ℕ → ℕ
  pub analog : ℕ → ℕ
  pub touch : ℕ → ℕ
  pub sample : ℕ → ℕ → ℕ
  pub adc_max_value : ℕ
  pub touch_available : Bool
  pub touch_rises : Bool

-- Whether a value that may be missing is this one
abbrev pub is_value : ℕ → Option ℕ → Bool
is_value n none = false
is_value n (some m) = m == n

module _ {F : Type 0} (floats : Floats F) where
  abbrev pub new_pin_state : PinState F
  new_pin_state = record {
    last_value = none;
    last_raw_value = none;
    last_change_time = 0;
    last_send_time = 0;
    smoothed_value = floats.decimal 0 1;
    spike_count = 0;
    touched = false;
    raw = 0;
    norm = 0;
    touch_baseline = floats.decimal 0 1;
    touch_peak = 0;
    touch_percent = 0;
  }

  -- `SMOOTHING_FACTOR * raw + (1.0f - SMOOTHING_FACTOR) * smoothed`
  unfoldable pub smooth : ℕ → F → F
  smooth reading smoothed =
      floats.add (floats.mul (floats.decimal 15 100) (floats.from_int reading))
        (floats.mul (floats.sub (floats.decimal 1 1) (floats.decimal 15 100)) smoothed)

  -- `rawValueFor`
  unfoldable pub raw_value_for : PinConfig → PinState F → RawValue
  raw_value_for c s =
      let is_touch = c.mode == mode_input_touch in
      record {
        pin = c.pin;
        mode = c.mode;
        raw = s.raw;
        baseline = if is_touch then floats.to_int s.touch_baseline else 0;
        peak = if is_touch then s.touch_peak else 0;
        percent = if is_touch then s.touch_percent else 0;
        norm = s.norm;
        threshold = c.threshold;
        active = if is_touch then s.touched else false;
      }

-- `isInput`
unfoldable pub is_input : PinConfig → Bool
is_input c = c.mode != mode_output && c.mode != mode_analog_output
