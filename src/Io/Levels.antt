-- ===== src/Io/Levels.antt =====
-- include/enomik_io.h: the ranges of what is sent and written.
use esp_now_midi.Base.{ℕ, ◌*◌, ◌/◌, ◌≤◌, ◌<◌, ◌≡◌, ap, ◌∙◌, ◌≢◌, some, arith, ==-ne}
use native.Mathlib.Nat.{mul-div_right, zero-div}
use esp_now_midi.Midi.{MidiMessage, midi_pitch_bend}
use esp_now_midi.Transport.Send.{ℤ, pos, negsuc}
use esp_now_midi.Codec.{PinConfig}
use esp_now_midi.Io.Scaling.{distance, map_range, constrain, snap_to_endpoints}
use esp_now_midi.Io.Analog.{analog_value, analog_endpoint_snap}
use esp_now_midi.Io.Outputs.{pwm_max_value, output_level, data_value, midi_of_value}

constrain-between :
    (z : ℤ) (low high : ℕ)
    → low ≤ high
    → (low ≤ constrain z low high) × (constrain z low high ≤ high)
unfolding constrain
constrain-between (pos n) low high h = (ground arith, ground arith)
constrain-between (negsuc n) low high h = (omega arith, omega arith)

snap_to_endpoints-between :
    (value low high snap : ℕ)
    → low ≤ high
    → (low ≤ value) × (value ≤ high)
    → (low ≤ snap_to_endpoints value low high snap) × (snap_to_endpoints value low high snap ≤ high)
unfolding snap_to_endpoints
snap_to_endpoints-between value low high snap h inside =
    (ground (arith, inside.0), ground (arith, inside.1))

-- `constrain` and then `snapToEndpoints`, with the limits in the wrong order
snap_to_endpoints-crossed :
    (z : ℤ) (low high snap : ℕ)
    → high < low
    → snap_to_endpoints (constrain z low high) low high snap ≡ low
unfolding snap_to_endpoints constrain
snap_to_endpoints-crossed (pos n) low high snap h = ground arith
snap_to_endpoints-crossed (negsuc n) low high snap h = ground arith

-- What an analog pin sends for a reading, other than a pitch bend, is between the ends of its range.
pub analog_value-between :
    (adc_max_value smoothed : ℕ) (c : PinConfig)
    → c.midi_type ≢ midi_pitch_bend
    → c.min_midi_value ≤ c.max_midi_value
    → (c.min_midi_value ≤ analog_value adc_max_value c smoothed)
      × (analog_value adc_max_value c smoothed ≤ c.max_midi_value)
unfolding analog_value
analog_value-between adc_max_value smoothed c other ordered =
    rw (==-ne c.midi_type midi_pitch_bend other, analog_value)
      (snap_to_endpoints-between _ c.min_midi_value c.max_midi_value analog_endpoint_snap ordered (
        constrain-between (map_range smoothed 0 adc_max_value c.min_midi_value c.max_midi_value)
          c.min_midi_value c.max_midi_value ordered))

-- Where the range of an analog pin is inverted, so that its minimum is above its maximum, what it sends,
-- other than a pitch bend, is the minimum whatever is read.
pub analog_value-inverted :
    (adc_max_value smoothed : ℕ) (c : PinConfig)
    → c.midi_type ≢ midi_pitch_bend
    → c.max_midi_value < c.min_midi_value
    → analog_value adc_max_value c smoothed ≡ c.min_midi_value
unfolding analog_value
analog_value-inverted adc_max_value smoothed c other inverted =
    rw (==-ne c.midi_type midi_pitch_bend other, analog_value)
      (snap_to_endpoints-crossed
        (map_range smoothed 0 adc_max_value c.min_midi_value c.max_midi_value) c.min_midi_value
        c.max_midi_value analog_endpoint_snap inverted)

-- The bytes of the message of a pin are data bytes, if those of its configuration are.
pub midi_of_value-data :
    (c : PinConfig) (value : ℕ) (message : MidiMessage)
    → c.midi_cc < 128
    → c.midi_note < 128
    → c.min_midi_value < 128
    → c.max_midi_value < 128
    → midi_of_value c value ≡ some message
    → (message.first_byte < 128) × (message.second_byte < 128)
unfolding midi_of_value data_value
midi_of_value-data c value message cc note low high h = (ground (arith, h), ground (arith, h))

-- An output stands at 0 at the minimum of its range and at the full level at the maximum, also where the
-- range is inverted.
pub output_level-endpoints :
    (low high : ℕ)
    → low ≢ high
    → (output_level low low high ≡ 0) × (output_level high low high ≡ pwm_max_value)
unfolding output_level map_range constrain
output_level-endpoints low high differ =
    let apart : 0 < distance high low = omega (arith, differ) in
    let none_of : distance low low * 255 / distance high low ≡ 0 =
      ap (λ (d : ℕ). d * 255 / distance high low) {x = distance low low} {y = 0} (omega arith)
      ∙ zero-div (distance high low) in
    let all_of : distance high low * 255 / distance high low ≡ 255 = mul-div_right 255 apart in
    (ground (arith, none_of, differ), ground (arith, all_of, differ))

-- No input drives an output above the full level.
pub output_level-bound : (x in_min in_max : ℕ) → output_level x in_min in_max ≤ pwm_max_value
unfolding output_level
output_level-bound x in_min in_max =
    (constrain-between (map_range x in_min in_max 0 pwm_max_value) 0 pwm_max_value (omega arith)).1
