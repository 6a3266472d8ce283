-- ===== src/UsbPacket/Wire.antt =====
-- include/UsbMidiPacket.h: a USB-MIDI packet has the bytes that go on the air.
use esp_now_midi.Base.{
  ℕ, ◌+◌, ◌-◌, ◌*◌, ◌/◌, ◌^◌, ◌≤◌, ◌<◌, bit_or, bit_and, ◌≡◌, refl, sym, ap, ◌∙◌, ◌⊎◌, inl, inr,
  Bool, true, false, ◌&&◌, ◌||◌, Option, none, some, List, [], ◌∷◌, arith, leb, ◌==◌, if◌then◌else◌,
  Bool-cases, take, low_bits, shr,
}
use esp_now_midi.Base.Bits.{bit_and_high_nibble, nibbles-bit_or}
use esp_now_midi.Midi.{
  MidiMessage, MidiMessagePacket, from_message, get_data_size, midi_program_change, midi_aftertouch,
  midi_song_pos_pointer, midi_song_select,
}
use esp_now_midi.UsbPacket.{UsbPacket, is_channel_status, is_single_byte, to_usb_midi_packet}

-- The number of MIDI bytes for a code index number, from the USB MIDI 1.0 specification
unfoldable pub code_length : ℕ → ℕ
code_length code =
    if code == 0x5 || code == 0xf
    then 1
    else if code == 0x2 || code == 0x6 || code == 0xc || code == 0xd
    then 2
    else if leb 3 code && leb code 0xe
    then 3
    else 0

-- The MIDI bytes that a host reads from a packet
unfoldable pub midi_bytes : UsbPacket → List ℕ
unfolding code_length
midi_bytes p = take (code_length p.code) (p.byte1 ∷ p.byte2 ∷ p.byte3 ∷ [])

-- The MIDI bytes of a packet that goes on the air, with data bytes of seven bits
unfoldable pub wire_bytes : MidiMessagePacket → List ℕ
wire_bytes p =
    take (get_data_size p) (p.status_byte ∷ bit_and p.data1 0x7f ∷ bit_and p.data2 0x7f ∷ [])

status_or : (s lo : ℕ) → s / 16 * 16 ≡ s → lo < 16 → bit_or s lo ≡ s + lo
status_or s lo whole small =
    ap (λ (t : ℕ). bit_or t lo) (sym whole)
    ∙ nibbles-bit_or (s / 16) lo small
    ∙ ap (λ (t : ℕ). t + lo) whole

abbrev pub is_supported : MidiMessage → Bool
is_supported m =
    is_channel_status m.status && leb 1 m.channel && leb m.channel 16
    || m.status == midi_song_pos_pointer
    || m.status == midi_song_select
    || is_single_byte m.status

abbrev pub host_bytes : Option UsbPacket → Option (List ℕ)
host_bytes none = none
host_bytes (some p) = some (midi_bytes p)

channel_status_bounds :
    (s : ℕ) → is_channel_status s ≡ true → (s / 16 * 16 ≡ s) × (0x80 ≤ s) × (s ≤ 0xe0)
unfolding is_channel_status
channel_status_bounds s h = ground arith

module _ (m : MidiMessage) where
  abbrev IsChannel : Type 0
  IsChannel = (is_channel_status m.status ≡ true) × (1 ≤ m.channel) × (m.channel ≤ 16)

  abbrev first : ℕ
  first = m.status + (m.channel - 1)

  status_byte_channel :
      IsChannel → (bit_or m.status (m.channel - 1) ≡ first) × ((from_message m).status_byte ≡ first)
  unfolding from_message
  status_byte_channel (channel, lo, hi) = ground (
    arith,
    channel_status_bounds m.status channel,
    status_or m.status (m.channel - 1),
    status_or m.status (low_bits (m.channel + 2 ^ 8 - 1) 4),
  )

  abbrev channel_size : ℕ
  channel_size = if m.status == midi_program_change || m.status == midi_aftertouch then 2 else 3

  code_length_channel : IsChannel → code_length (shr m.status 4) ≡ channel_size
  unfolding code_length
  code_length_channel (channel, lo, hi) = ground (arith, channel_status_bounds m.status channel)

  get_data_size_channel : IsChannel → get_data_size (from_message m) ≡ channel_size
  unfolding get_data_size
  get_data_size_channel (channel, lo, hi) = ground (
    arith,
    channel_status_bounds m.status channel,
    status_byte_channel (channel, lo, hi),
    bit_and_high_nibble first,
  )

  from_message_data :
      ((from_message m).data1 ≡ m.first_byte) × ((from_message m).data2 ≡ m.second_byte)
  unfolding from_message
  from_message_data = (refl, refl)

  channel_bytes : IsChannel → host_bytes (to_usb_midi_packet m) ≡ some (wire_bytes (from_message m))
  unfolding to_usb_midi_packet midi_bytes wire_bytes
  channel_bytes (channel, lo, hi) = ground (
    arith,
    code_length_channel (channel, lo, hi),
    get_data_size_channel (channel, lo, hi),
    status_byte_channel (channel, lo, hi),
    from_message_data,
  )

  status_byte_system : 0xf0 ≤ m.status → m.status < 256 → (from_message m).status_byte ≡ m.status
  unfolding from_message
  status_byte_system lo hi = ground arith

  get_data_size_system :
      (m.status ≡ 0xf2) ⊎ (m.status ≡ 0xf3) ⊎ (is_single_byte m.status ≡ true)
      → get_data_size (from_message m)
        ≡ (if m.status == 0xf2 then 3 else if m.status == 0xf3 then 2 else 1)
  unfolding get_data_size is_single_byte
  get_data_size_system h = ground (arith, status_byte_system)

  other_bytes :
      is_channel_status m.status ≡ false
      → host_bytes (to_usb_midi_packet m)
        ≡ (if is_supported m then some (wire_bytes (from_message m)) else none)
  unfolding to_usb_midi_packet midi_bytes wire_bytes code_length is_single_byte
  other_bytes h = ground (arith, get_data_size_system, status_byte_system, from_message_data)

out_of_range :
    (m : MidiMessage)
    → is_channel_status m.status ≡ true
    → (m.channel < 1) ⊎ (16 < m.channel)
    → host_bytes (to_usb_midi_packet m) ≡ none
unfolding to_usb_midi_packet
out_of_range m c h = ground arith

not_single : (s : ℕ) → s ≤ 0xe0 → is_single_byte s ≡ false
unfolding is_single_byte
not_single s h = ground arith

-- A channel message of channel 1-16, a song position, a song select and the four single-byte
-- messages become one USB-MIDI packet, from which a host reads the MIDI bytes that the message has
-- on the air, with data bytes of seven bits; every other message has no packet.
pub to_usb_midi_packet_bytes :
    (m : MidiMessage)
    → host_bytes (to_usb_midi_packet m)
      ≡ (if is_supported m then some (wire_bytes (from_message m)) else none)
to_usb_midi_packet_bytes m = elim (Bool-cases (is_channel_status m.status)) [
  | inl c ↦ ground (
    arith,
    channel_bytes m,
    out_of_range m,
    channel_status_bounds m.status c,
    not_single m.status,
  )
  | inr c ↦ other_bytes m c
]
