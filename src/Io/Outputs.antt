-- ===== src/Io/Outputs.antt =====
-- include/enomik_io.h: what MIDI does to the output pins, and the MIDI of an input pin.
use esp_now_midi.Base.{
  ℕ, ◌/◌, Bool, ◌&&◌, ◌||◌, Option, none, some, List, [], ◌∷◌, ◌++◌, ltb, ◌==◌, ◌!=◌, if◌then◌else◌,
  u8, low_bits, shr,
}
use esp_now_midi.Midi.{
  MidiMessage, midi_note_off, midi_note_on, midi_control_change, midi_pitch_bend,
  pitch_bend_from_7_bit,
}
use esp_now_midi.Transport.Send.{ℤ, pos, from_signed}
use esp_now_midi.Codec.{PinConfig}
use esp_now_midi.Io.Scaling.{map_range, constrain}
use esp_now_midi.Io.State.{
  mode_input, mode_output, mode_input_pullup, mode_analog_input, mode_analog_output,
}

abbrev pub pwm_max_value : ℕ
pwm_max_value = 255

-- The modes of `pinMode`
pub data PinDirection : Type 0 where
  output input input_pullup : PinDirection

-- What is done to the pins
pub data PinAction : Type 0 where
  pin_mode : ℕ → PinDirection → PinAction
  digital_write : ℕ → Bool → PinAction
  analog_write : ℕ → ℕ → PinAction

-- `level` of `writeOutput`
unfoldable pub output_level : ℕ → ℕ → ℕ → ℕ
unfolding map_range constrain
output_level x in_min in_max = constrain (map_range x in_min in_max 0 pwm_max_value) 0 pwm_max_value

-- `writeOutput` of a level
unfoldable pub write_level : PinConfig → ℕ → List PinAction
write_level c level =
    if c.mode == mode_output
    then digital_write c.pin (ltb (pwm_max_value / 2) level) ∷ []
    else if c.mode == mode_analog_output
    then analog_write c.pin (u8 level) ∷ []
    else []

-- `writeOutput` of a value
unfoldable pub write_output : PinConfig → ℕ → List PinAction
unfolding output_level write_level
write_output c value = write_level c (output_level value c.min_midi_value c.max_midi_value)

-- `writePitchBend`, of a bend that is at least -8192
unfoldable pub write_pitch_bend : PinConfig → ℤ → List PinAction
unfolding output_level write_level from_signed pitch_bend_from_7_bit
write_pitch_bend c bend = write_level c (
    output_level (from_signed bend) (pitch_bend_from_7_bit c.min_midi_value)
      (pitch_bend_from_7_bit c.max_midi_value))

-- `initializePinHardware`
unfoldable pub initialize_pin_hardware : PinConfig → List PinAction
unfolding write_pitch_bend write_output
initialize_pin_hardware c =
    if c.mode == mode_output || c.mode == mode_analog_output
    then pin_mode c.pin output
      ∷ (if c.midi_type == midi_pitch_bend then write_pitch_bend c (pos 0) else write_output c 0)
    else if c.mode == mode_input
    then pin_mode c.pin input ∷ []
    else if c.mode == mode_input_pullup
    then pin_mode c.pin input_pullup ∷ []
    else []

-- The test of `onNoteOff`
unfoldable pub is_note : ℕ → ℕ → PinConfig → Bool
is_note channel note c =
    (c.midi_type == midi_note_off || c.midi_type == midi_note_on)
    && c.midi_channel == channel
    && c.midi_note == note

-- `onNoteOff`
unfoldable pub on_note_off : ℕ → ℕ → List PinConfig → List PinAction
unfolding is_note write_output
on_note_off channel note [] = []
on_note_off channel note (c ∷ configs) =
    let rest = on_note_off channel note configs in
    if is_note channel note c then write_output c 0 ++ rest else rest

-- The loop of `onNoteOn`; `released` is what `onNoteOff` does, with which it returns at velocity 0.
unfoldable pub note_on_from : List PinAction → ℕ → ℕ → ℕ → List PinConfig → List PinAction
unfolding write_output
note_on_from released channel note velocity [] = []
note_on_from released channel note velocity (c ∷ configs) =
    let rest = note_on_from released channel note velocity configs in
    if c.midi_type == midi_note_on && c.midi_channel == channel && c.midi_note == note
    then (if velocity == 0
        then released
        else write_output c (if c.mode == mode_output then 127 else velocity) ++ rest)
    else rest

-- `onNoteOn`
unfoldable pub on_note_on : ℕ → ℕ → ℕ → List PinConfig → List PinAction
unfolding note_on_from on_note_off
on_note_on channel note velocity configs =
    note_on_from (on_note_off channel note configs) channel note velocity configs

-- `onPitchBend`
unfoldable pub on_pitch_bend : ℕ → ℤ → List PinConfig → List PinAction
unfolding write_pitch_bend
on_pitch_bend channel bend [] = []
on_pitch_bend channel bend (c ∷ configs) =
    let rest = on_pitch_bend channel bend configs in
    if c.midi_type == midi_pitch_bend && c.midi_channel == channel
    then write_pitch_bend c bend ++ rest
    else rest

-- `onControlChange`
unfoldable pub on_control_change : ℕ → ℕ → ℕ → List PinConfig → List PinAction
unfolding write_output
on_control_change channel control value [] = []
on_control_change channel control value (c ∷ configs) =
    let rest = on_control_change channel control value configs in
    if c.midi_type == midi_control_change && c.midi_channel == channel && c.midi_cc == control
    then write_output c value ++ rest
    else rest

abbrev pub midi_max_bend : ℕ
midi_max_bend = 16383

abbrev pub is_digital : PinConfig → Bool
is_digital c = c.mode == mode_input || c.mode == mode_input_pullup

-- The data byte of a note or a control change in `sendMidiMessage`
unfoldable pub data_value : PinConfig → ℕ → ℕ
data_value c value =
    if is_digital c
    then (if ltb 0 value then c.min_midi_value else c.max_midi_value)
    else low_bits value 7

-- The pitch bend in `sendMidiMessage`
unfoldable pub bend_value : PinConfig → ℕ → ℕ
unfolding pitch_bend_from_7_bit constrain
bend_value c value =
    let bend =
      if is_digital c
      then pitch_bend_from_7_bit (if ltb 0 value then c.min_midi_value else c.max_midi_value)
      else if c.mode != mode_analog_input
      then pitch_bend_from_7_bit value
      else value in
    constrain (pos bend) 0 midi_max_bend

abbrev pub message_with : PinConfig → ℕ → ℕ → MidiMessage
message_with c first second = record {
  channel = c.midi_channel;
  status = c.midi_type;
  first_byte = first;
  second_byte = second;
}

-- `sendMidiMessage`: the message, if there is one
unfoldable pub midi_of_value : PinConfig → ℕ → Option MidiMessage
unfolding data_value bend_value
midi_of_value c value =
    if c.midi_type == midi_note_on || c.midi_type == midi_note_off
    then some (message_with c c.midi_note (data_value c value))
    else if c.midi_type == midi_control_change
    then some (message_with c c.midi_cc (data_value c value))
    else if c.midi_type == midi_pitch_bend
    then some
        (message_with c (low_bits (bend_value c value) 7) (low_bits (shr (bend_value c value) 7) 7))
    else none
