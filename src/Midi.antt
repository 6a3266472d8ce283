-- ===== src/Midi.antt =====
-- include/esp_now_midi_helpers.h: MIDI messages, and the three-byte packet that goes on the air.
pub mod RoundTrip
mod Tests
use esp_now_midi.Base.{
  ℕ, zero, suc, ◌+◌, ◌-◌, ◌*◌, ◌/◌, ◌%◌, ◌^◌, ◌≤◌, ◌<◌, bit_or, bit_and, ◌≡◌, refl, sym, ap, ◌∙◌,
  ◌≢◌, ◌↔◌, ◌⊎◌, inl, inr, Bool, true, false, not, ◌&&◌, ◌||◌, Option, none, some, List, [], ◌∷◌,
  ◌++◌, map, arith, ltb, leb, ◌==◌, ◌!=◌, if◌then◌else◌, ==-eq, ==-ne, ==_iff, Bool-cases,
  Option-cases, length, get_or, take, drop, keep_if, All, length-append, put, put_same, put_other,
  slot_injective, segment, length-segment, segment_congr, segment_shift, segment_snoc,
  segment_append, ring, ring-put, ring_next, u8, u16, u32, sub32, sub16, signed_ltb32, low_bits,
  shr,
}

-- `enum MidiStatus`
abbrev pub midi_note_off : ℕ
midi_note_off = 0x80

abbrev pub midi_note_on : ℕ
midi_note_on = 0x90

abbrev pub midi_poly_aftertouch : ℕ
midi_poly_aftertouch = 0xa0

abbrev pub midi_control_change : ℕ
midi_control_change = 0xb0

abbrev pub midi_program_change : ℕ
midi_program_change = 0xc0

abbrev pub midi_aftertouch : ℕ
midi_aftertouch = 0xd0

abbrev pub midi_pitch_bend : ℕ
midi_pitch_bend = 0xe0

abbrev pub midi_time_code : ℕ
midi_time_code = 0xf1

abbrev pub midi_song_pos_pointer : ℕ
midi_song_pos_pointer = 0xf2

abbrev pub midi_song_select : ℕ
midi_song_select = 0xf3

abbrev pub midi_tune_request : ℕ
midi_tune_request = 0xf6

abbrev pub midi_time_clock : ℕ
midi_time_clock = 0xf8

abbrev pub midi_start : ℕ
midi_start = 0xfa

abbrev pub midi_continue : ℕ
midi_continue = 0xfb

abbrev pub midi_stop : ℕ
midi_stop = 0xfc

abbrev pub midi_active_sensing : ℕ
midi_active_sensing = 0xfe

abbrev pub midi_system_reset : ℕ
midi_system_reset = 0xff

-- `struct midi_message`: the channel is 1-16, and 0 for system messages.
pub record MidiMessage : Type 0 where
  pub channel : ℕ
  pub status : ℕ
  pub first_byte : ℕ
  pub second_byte : ℕ

-- `struct midi_message_packet`
pub record MidiMessagePacket : Type 0 where
  pub status_byte : ℕ
  pub data1 : ℕ
  pub data2 : ℕ

-- `fromMessage`. `channel - 1` is an `int`; of its low four bits only `channel` modulo 16 matters.
unfoldable pub from_message : MidiMessage → MidiMessagePacket
from_message msg =
    let channel_zero_based = low_bits (msg.channel + 2 ^ 8 - 1) 4 in
    record {
      status_byte =
          if leb 0xf0 msg.status then u8 msg.status else u8 (bit_or msg.status channel_zero_based);
      data1 = msg.first_byte;
      data2 = msg.second_byte;
    }

-- `toMessage`
unfoldable pub to_message : MidiMessagePacket → MidiMessage
to_message p =
    if leb 0xf0 p.status_byte
    then record { channel = 0; status = p.status_byte; first_byte = p.data1; second_byte = p.data2 }
    else record {
      channel = low_bits p.status_byte 4 + 1;
      status = bit_and p.status_byte 0xf0;
      first_byte = p.data1;
      second_byte = p.data2;
    }

-- `getDataSize`
unfoldable pub get_data_size : MidiMessagePacket → ℕ
get_data_size p =
    let s = p.status_byte in
    let status = bit_and s 0xf0 in
    if leb 0xf0 s
    then (if s == midi_time_code || s == midi_song_select
        then 2
        else if s == midi_song_pos_pointer
        then 3
        else if s == midi_tune_request
            || s == midi_time_clock
            || s == midi_start
            || s == midi_continue
            || s == midi_stop
            || s == midi_active_sensing
            || s == midi_system_reset
        then 1
        else 3)
    else if status == midi_program_change || status == midi_aftertouch
    then 2
    else 3

-- `pitchBendFrom7Bit`; its argument is an `int`, and a negative one gives the minimum as 0 does.
unfoldable pub pitch_bend_from_7_bit : ℕ → ℕ
pitch_bend_from_7_bit value =
    if leb value 0 then 0 else if leb 127 value then 16383 else value * 2 ^ 7
