-- ===== src/Midi/Tests.antt =====
-- Messages and packets at concrete values.
use esp_now_midi.Base.{◌≡◌, refl, arith}
use esp_now_midi.Midi.{MidiMessage, from_message}
use esp_now_midi.Midi.RoundTrip.{IsChannelMessage}

-- Note on, channel 16.
abbrev note : MidiMessage
note = record { channel = 16; status = 0x90; first_byte = 60; second_byte = 100 }

from_message-note : from_message note ≡ record { status_byte = 0x9f; data1 = 60; data2 = 100 }
unfolding from_message
from_message-note = refl

note-IsChannelMessage : IsChannelMessage note
note-IsChannelMessage = omega arith
