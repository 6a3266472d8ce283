-- ===== src/UsbPacket/Tests.antt =====
-- A program change and a short SysEx message.
use esp_now_midi.Base.{ℕ, ◌≡◌, refl, true, false, none, some, List, [], ◌∷◌, if◌then◌else◌}
use esp_now_midi.UsbPacket.Waiting.{pacer_write, pacer_write-plain}
use esp_now_midi.Midi.{MidiMessage, from_message}
use esp_now_midi.UsbPacket.{
  is_whole_sysex, to_usb_midi_packet, is_channel_status, write_usb_midi_sys_ex, write_from,
  packet_at,
}
use esp_now_midi.UsbPacket.Wire.{
  code_length, midi_bytes, wire_bytes, host_bytes, is_supported, to_usb_midi_packet_bytes,
}
use esp_now_midi.UsbPacket.Packing.{keep_packet}

abbrev program : MidiMessage
program = record { channel = 16; status = 0xc0; first_byte = 5; second_byte = 9 }

host_bytes-program : host_bytes (to_usb_midi_packet program) ≡ some (0xcf ∷ 5 ∷ [])
unfolding to_usb_midi_packet is_channel_status midi_bytes code_length
host_bytes-program = refl

to_usb_midi_packet_bytes_example :
    host_bytes (to_usb_midi_packet program)
    ≡ (if is_supported program then some (wire_bytes (from_message program)) else none)
to_usb_midi_packet_bytes_example = to_usb_midi_packet_bytes program

abbrev identity : List ℕ
identity = 0xf0 ∷ 0x7e ∷ 0x7f ∷ 6 ∷ 0xf7 ∷ []

plain_written :
    write_usb_midi_sys_ex keep_packet identity []
    ≡ some (packet_at identity 0 ∷ packet_at identity 3 ∷ [], true)
unfolding write_usb_midi_sys_ex is_whole_sysex write_from
plain_written = refl

pacer_write-plain_example :
    pacer_write keep_packet
      (λ _. false)
      (λ _. 100)
      (λ s. s)
      1
      (record { stalled = true; stalled_at = 90 })
      identity
      []
    ≡ some (
      record { stalled = false; stalled_at = 90 },
      packet_at identity 0 ∷ packet_at identity 3 ∷ [],
      true,
    )
pacer_write-plain_example =
    pacer_write-plain keep_packet (λ _. false) (λ _. 100) (λ s. s) 0
      (record { stalled = true; stalled_at = 90 }) identity []
      (packet_at identity 0 ∷ packet_at identity 3 ∷ []) plain_written

identity_whole : is_whole_sysex identity ≡ true
unfolding is_whole_sysex
identity_whole = refl
