-- ===== src/UsbPacket.antt =====
-- include/UsbMidiPacket.h: MIDI messages and SysEx as USB-MIDI event packets.
pub mod Wire
pub mod Packing
pub mod Waiting
mod Tests
use esp_now_midi.Base.{
  ℕ, zero, suc, ◌+◌, ◌-◌, ◌*◌, ◌/◌, ◌%◌, ◌^◌, ◌≤◌, ◌<◌, bit_or, bit_and, ◌≡◌, refl, sym, ap, ◌∙◌,
  ◌≢◌, ◌↔◌, ◌⊎◌, inl, inr, Bool, true, false, not, ◌&&◌, ◌||◌, Option, none, some, List, [], ◌∷◌,
  ◌++◌, map, arith, ltb, leb, ◌==◌, ◌!=◌, if◌then◌else◌, ==-eq, ==-ne, ==_iff, Bool-cases,
  Option-cases, length, get_or, take, drop, keep_if, All, length-append, length-map, length-take,
  length-drop, take_all, put, put_same, put_other, slot_injective, segment, length-segment,
  segment_congr, segment_shift, segment_snoc, segment_append, segment_extend, segment_remove,
  segment_list, get_or-take, get_or-drop, ring, ring-put, ring_list, ring_list-put, ring_list_step,
  ring_list_pop, ring_list-put_inside, ring_list-put_before, ring_next, u8, u16, u32, sub32, sub16,
  signed_ltb32, low_bits, shr,
}
use esp_now_midi.Base.Bits.{
  bit_and_high_bit, bit_and_low_bits, bit_and_high_nibble, bit_or-shift, shift-bit_or,
  nibbles-bit_or, bytes-bit_or,
}
use esp_now_midi.Midi.{
  MidiMessage, midi_note_off, midi_note_on, midi_poly_aftertouch, midi_control_change,
  midi_program_change, midi_aftertouch, midi_pitch_bend, midi_song_pos_pointer, midi_song_select,
  midi_time_clock, midi_start, midi_continue, midi_stop,
}

-- `uint8_t packet[4]`
pub record UsbPacket : Type 0 where
  pub code : ℕ
  pub byte1 : ℕ
  pub byte2 : ℕ
  pub byte3 : ℕ

unfoldable pub is_channel_status : ℕ → Bool
is_channel_status s =
    s == midi_note_off
    || s == midi_note_on
    || s == midi_poly_aftertouch
    || s == midi_control_change
    || s == midi_program_change
    || s == midi_aftertouch
    || s == midi_pitch_bend

unfoldable pub is_single_byte : ℕ → Bool
is_single_byte s = s == midi_time_clock || s == midi_start || s == midi_continue || s == midi_stop

-- `toUsbMidiPacket`; `none` where it returns false.
unfoldable pub to_usb_midi_packet : MidiMessage → Option UsbPacket
to_usb_midi_packet msg =
    let status = msg.status in
    let d1 = bit_and msg.first_byte 0x7f in
    let d2 = bit_and msg.second_byte 0x7f in
    let one_data_byte = status == midi_program_change || status == midi_aftertouch in
    if is_channel_status status
    then (if ltb msg.channel 1 || ltb 16 msg.channel
        then none
        else some (record {
          code = shr status 4;
          byte1 = bit_or status (msg.channel - 1);
          byte2 = d1;
          byte3 = if one_data_byte then 0 else d2;
        }))
    else if status == midi_song_pos_pointer
    then some (record { code = 0x03; byte1 = status; byte2 = d1; byte3 = d2 })
    else if status == midi_song_select
    then some (record { code = 0x02; byte1 = status; byte2 = d1; byte3 = 0 })
    else if is_single_byte status
    then some (record { code = 0x0f; byte1 = status; byte2 = 0; byte3 = 0 })
    else none

-- The test at the head of `writeUsbMidiSysEx`; the message is never a null pointer here.
unfoldable pub is_whole_sysex : List ℕ → Bool
is_whole_sysex message =
    leb 2 (length message)
    && get_or message 0 0 == 0xf0
    && get_or message (length message - 1) 0 == 0xf7

-- The packet that the loop builds at index `i`
unfoldable pub packet_at : List ℕ → ℕ → UsbPacket
packet_at message i =
    let left = length message - i in
    let n = if ltb left 3 then left else 3 in
    record {
      code = if i + n == length message then 0x04 + n else 0x04;
      byte1 = get_or message i 0;
      byte2 = if ltb 1 n then get_or message (i + 1) 0 else 0;
      byte3 = if ltb 2 n then get_or message (i + 2) 0 else 0;
    }

module _ {ℓ} {S : Type ℓ} (write : UsbPacket → S → S × Bool) where
  -- The loop of `writeUsbMidiSysEx`, on fuel; `write` is the caller's, and `S` is what it changes.
  unfoldable pub write_from : List ℕ → ℕ → ℕ → S → Option (S × Bool)
  write_from message zero i s = none
  write_from message (suc fuel) i s =
      let (s', written) = write (packet_at message i) s in
      let rest = write_from message fuel (u16 (i + 3)) s' in
      if leb (length message) i then some (s, true) else if written then rest else some (s', false)

  -- `writeUsbMidiSysEx`
  unfoldable pub write_usb_midi_sys_ex : List ℕ → S → Option (S × Bool)
  write_usb_midi_sys_ex message s =
      if is_whole_sysex message
      then write_from message (suc (length message)) 0 s
      else some (s, false)
