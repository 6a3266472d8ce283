-- ===== src/Transport/Dispatch.antt =====
-- include/esp_now_midi.h: which packets are MIDI, and which handler each message calls.
use esp_now_midi.Base.{
  ℕ, is_some, ◌-◌, ◌*◌, ◌^◌, bit_or, bit_and, Bool, true, false, ◌||◌, List, [], ◌∷◌, ltb, leb,
  ◌==◌, ◌!=◌, if◌then◌else◌, length, get_or, drop,
}
use esp_now_midi.Midi.{
  MidiMessage, MidiMessagePacket, get_data_size, midi_note_off, midi_note_on, midi_poly_aftertouch,
  midi_control_change, midi_program_change, midi_aftertouch, midi_pitch_bend, midi_time_code,
  midi_song_pos_pointer, midi_song_select, midi_time_clock, midi_start, midi_continue, midi_stop,
  midi_active_sensing, midi_system_reset,
}
use esp_now_midi.Sysex.{parse_frame}
use esp_now_midi.Transport.Send.{ℤ, pos, negsuc}

-- The handlers that are registered
pub record Handlers : Type 0 where
  pub on_note_on : Bool
  pub on_note_off : Bool
  pub on_control_change : Bool
  pub on_program_change : Bool
  pub on_pitch_bend : Bool
  pub on_after_touch_channel : Bool
  pub on_after_touch_poly : Bool
  pub on_start : Bool
  pub on_stop : Bool
  pub on_continue : Bool
  pub on_clock : Bool
  pub on_song_position : Bool
  pub on_song_select : Bool
  pub on_time_code : Bool
  pub on_active_sensing : Bool
  pub on_system_reset : Bool
  pub on_sys_ex : Bool
  pub on_sys_ex_from : Bool
  pub on_message : Bool

-- A call of a handler with its arguments
pub data Event : Type 0 where
  note_on note_off control_change poly_aftertouch : ℕ → ℕ → ℕ → Event
  program_change channel_aftertouch : ℕ → ℕ → Event
  pitch_bend : ℕ → ℤ → Event
  started stopped continued clocked sensed was_reset : Event
  song_position song_select time_code : ℕ → Event
  sys_ex : List ℕ → Event
  sys_ex_from : ℕ → List ℕ → Event
  message_from : ℕ → MidiMessage → Event

abbrev pub call_if : Bool → Event → List Event
call_if is_set event = if is_set then event ∷ [] else []

-- `(second << 7) | first`
abbrev pub joined : MidiMessage → ℕ
joined m = bit_or (m.second_byte * 2 ^ 7) m.first_byte

-- `pitchBendValue - 8192`
unfoldable pub to_signed : ℕ → ℤ
to_signed value = if leb 8192 value then pos (value - 8192) else negsuc (8191 - value)

-- The switch of `OnDataRecv`
unfoldable pub dispatch : Handlers → MidiMessage → List Event
unfolding to_signed
dispatch hs m =
    if m.status == midi_note_on
    then call_if hs.on_note_on (note_on m.channel m.first_byte m.second_byte)
    else if m.status == midi_note_off
    then call_if hs.on_note_off (note_off m.channel m.first_byte m.second_byte)
    else if m.status == midi_control_change
    then call_if hs.on_control_change (control_change m.channel m.first_byte m.second_byte)
    else if m.status == midi_program_change
    then call_if hs.on_program_change (program_change m.channel m.first_byte)
    else if m.status == midi_aftertouch
    then call_if hs.on_after_touch_channel (channel_aftertouch m.channel m.first_byte)
    else if m.status == midi_poly_aftertouch
    then call_if hs.on_after_touch_poly (poly_aftertouch m.channel m.first_byte m.second_byte)
    else if m.status == midi_pitch_bend
    then call_if hs.on_pitch_bend (pitch_bend m.channel (to_signed (joined m)))
    else if m.status == midi_start
    then call_if hs.on_start started
    else if m.status == midi_stop
    then call_if hs.on_stop stopped
    else if m.status == midi_continue
    then call_if hs.on_continue continued
    else if m.status == midi_time_clock
    then call_if hs.on_clock clocked
    else if m.status == midi_song_pos_pointer
    then call_if hs.on_song_position (song_position (joined m))
    else if m.status == midi_song_select
    then call_if hs.on_song_select (song_select m.first_byte)
    else if m.status == midi_time_code
    then call_if hs.on_time_code (time_code m.first_byte)
    else if m.status == midi_active_sensing
    then call_if hs.on_active_sensing sensed
    else if m.status == midi_system_reset
    then call_if hs.on_system_reset was_reset
    else []

-- `memset`, then `memcpy` of the bytes that arrived
unfoldable pub read_packet : List ℕ → MidiMessagePacket
read_packet bytes = record {
  status_byte = get_or bytes 0 0;
  data1 = get_or bytes 1 0;
  data2 = get_or bytes 2 0;
}

-- The statuses that are not a complete message, or undefined
unfoldable pub is_refused_status : ℕ → Bool
is_refused_status status =
    status == 0xf0
    || status == 0xf7
    || status == 0xf4
    || status == 0xf5
    || status == 0xf9
    || status == 0xfd

-- The loop of `isMidiPacket` over the data bytes
unfoldable pub no_high_bit : List ℕ → Bool
no_high_bit [] = true
no_high_bit (b ∷ bytes) =
    let rest = no_high_bit bytes in if bit_and b 0x80 != 0 then false else rest

-- `isMidiPacket`; the data is never a null pointer here.
unfoldable pub is_midi_packet : List ℕ → Bool
unfolding read_packet is_refused_status no_high_bit
is_midi_packet bytes =
    let len = length bytes in
    if len == 0
    then false
    else if ltb 3 len
    then is_some (parse_frame bytes)
    else if ltb (get_or bytes 0 0) 0x80
    then false
    else if is_refused_status (get_or bytes 0 0)
    then false
    else if get_data_size (read_packet bytes) != len
    then false
    else no_high_bit (drop 1 bytes)
