-- ===== src/Transport/Receiving.antt =====
-- include/esp_now_midi.h: what arrives calls the handlers.
use esp_now_midi.Base.{ℕ, ◌≡◌, false, List, [], ◌++◌, arith}
use esp_now_midi.Midi.{to_message}
use esp_now_midi.Transport.Dispatch.{
  Handlers, Event, message_from, call_if, read_packet, is_midi_packet,
}
use esp_now_midi.Transport.Wire.{send_event, IsShortEvent, heard, handles, send_event-IsTaken}
use esp_now_midi.Transport.Device.{Device, on_data_recv, note_sender, short_calls}

-- When the bytes arrive that a send method of another device hands over for an event, the device
-- calls the handler for all messages with the message, then the handler of that event, each if it is
-- registered, and no other;
-- it notes the sender, and its SysEx messages stay as they are. The event is a channel message on
-- channel 1-16 with data bytes below 128, a pitch bend on channel 1-16 of any value, which is heard
-- clamped to its range, or a message of the system that has a handler of its own, whose number is
-- heard by its low bits. A tune request, which has no handler of its own, is left out.
pub on_data_recv-send_event :
    (hs : Handlers) (d : Device) (mac now : ℕ) (e : Event)
    → IsShortEvent e
    → on_data_recv hs d mac (send_event e) now ≡ (
      note_sender d mac now,
      call_if hs.on_message (message_from mac (to_message (read_packet (send_event e))))
          ++ call_if (handles hs e) (heard e),
    )
unfolding on_data_recv short_calls
on_data_recv-send_event hs d mac now e short =
    let taken = send_event-IsTaken hs e short in
    ground (arith, taken.is_midi, taken.is_short, taken.is_heard)

-- What is no MIDI packet changes nothing and calls nothing.
pub on_data_recv_other :
    (hs : Handlers) (d : Device) (mac : ℕ) (bytes : List ℕ) (now : ℕ)
    → is_midi_packet bytes ≡ false
    → on_data_recv hs d mac bytes now ≡ (d, [])
unfolding on_data_recv
on_data_recv_other hs d mac bytes now other = ground (arith, other)
