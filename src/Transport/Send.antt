-- ===== src/Transport/Send.antt =====
-- include/esp_now_midi.h: the bytes that each send method hands to all peers.
use esp_now_midi.Base.{ℕ, ◌+◌, ◌-◌, List, [], ◌∷◌, ltb, if◌then◌else◌, take, low_bits, shr}
use esp_now_midi.Midi.{
  MidiMessage, MidiMessagePacket, from_message, get_data_size, midi_note_off, midi_note_on,
  midi_poly_aftertouch, midi_control_change, midi_program_change, midi_aftertouch, midi_pitch_bend,
  midi_time_code, midi_song_pos_pointer, midi_song_select, midi_tune_request, midi_time_clock,
  midi_start, midi_continue, midi_stop, midi_active_sensing, midi_system_reset,
}

-- `int16_t` and `int` values that may be negative
pub data ℤ : Type 0 where
  pos : ℕ → ℤ
  negsuc : ℕ → ℤ

-- `(uint8_t *)&packet` of `getDataSize()` bytes
unfoldable pub packet_bytes : MidiMessagePacket → List ℕ
packet_bytes p = take (get_data_size p) (p.status_byte ∷ p.data1 ∷ p.data2 ∷ [])

-- The end of each `send...` method: the bytes that it hands to `sendToAllPeers`.
unfoldable pub send_message : MidiMessage → List ℕ
unfolding packet_bytes
send_message message = packet_bytes (from_message message)

-- The message of the methods for a channel, and of those for the system.
abbrev channel_message : ℕ → ℕ → ℕ → ℕ → MidiMessage
channel_message channel status first second = record {
  channel = channel;
  status = status;
  first_byte = first;
  second_byte = second;
}

abbrev system_message : ℕ → ℕ → ℕ → MidiMessage
system_message status first second = record {
  channel = 0;
  status = status;
  first_byte = first;
  second_byte = second;
}

-- Each method by the arguments that it has; all arguments are bytes.
unfoldable pub send_note_on : ℕ → ℕ → ℕ → List ℕ
send_note_on note velocity channel =
    send_message (channel_message channel midi_note_on note velocity)

unfoldable pub send_note_off : ℕ → ℕ → ℕ → List ℕ
send_note_off note velocity channel =
    send_message (channel_message channel midi_note_off note velocity)

unfoldable pub send_control_change : ℕ → ℕ → ℕ → List ℕ
send_control_change control value channel =
    send_message (channel_message channel midi_control_change control value)

unfoldable pub send_program_change : ℕ → ℕ → List ℕ
send_program_change program channel =
    send_message (channel_message channel midi_program_change program 0)

unfoldable pub send_after_touch : ℕ → ℕ → List ℕ
send_after_touch pressure channel =
    send_message (channel_message channel midi_aftertouch pressure 0)

unfoldable pub send_after_touch_poly : ℕ → ℕ → ℕ → List ℕ
send_after_touch_poly note pressure channel =
    send_message (channel_message channel midi_poly_aftertouch note pressure)

-- `sendPitchBendRaw`, for a value that is not negative
unfoldable pub send_pitch_bend_raw : ℕ → ℕ → List ℕ
send_pitch_bend_raw value channel =
    let masked = low_bits value 14 in
    send_message
      (channel_message channel midi_pitch_bend (low_bits masked 7) (low_bits (shr masked 7) 7))

-- The clamping of `sendPitchBend`, and the shift after it
unfoldable pub clamp_pitch_bend : ℤ → ℤ
clamp_pitch_bend (pos n) = if ltb 8191 n then pos 8191 else pos n
clamp_pitch_bend (negsuc n) = if ltb 8191 n then negsuc 8191 else negsuc n

unfoldable pub from_signed : ℤ → ℕ
from_signed (pos n) = n + 8192
from_signed (negsuc n) = 8191 - n

unfoldable pub send_pitch_bend : ℤ → ℕ → List ℕ
unfolding send_pitch_bend_raw clamp_pitch_bend from_signed
send_pitch_bend value channel = send_pitch_bend_raw (from_signed (clamp_pitch_bend value)) channel

unfoldable pub send_start : List ℕ
send_start = send_message (system_message midi_start 0 0)

unfoldable pub send_stop : List ℕ
send_stop = send_message (system_message midi_stop 0 0)

unfoldable pub send_continue : List ℕ
send_continue = send_message (system_message midi_continue 0 0)

unfoldable pub send_clock : List ℕ
send_clock = send_message (system_message midi_time_clock 0 0)

unfoldable pub send_song_position : ℕ → List ℕ
send_song_position value =
    let masked = low_bits value 14 in
    send_message
      (system_message midi_song_pos_pointer (low_bits masked 7) (low_bits (shr masked 7) 7))

unfoldable pub send_song_select : ℕ → List ℕ
send_song_select value = send_message (system_message midi_song_select (low_bits value 7) 0)

unfoldable pub send_tune_request : List ℕ
send_tune_request = send_message (system_message midi_tune_request 0 0)

unfoldable pub send_time_code : ℕ → List ℕ
send_time_code value = send_message (system_message midi_time_code (low_bits value 7) 0)

unfoldable pub send_active_sensing : List ℕ
send_active_sensing = send_message (system_message midi_active_sensing 0 0)

unfoldable pub send_system_reset : List ℕ
send_system_reset = send_message (system_message midi_system_reset 0 0)
