-- ===== src/Midi/RoundTrip.antt =====
-- Messages and packets carry the same data.
use esp_now_midi.Base.{
  ℕ, ◌+◌, ◌*◌, ◌/◌, ◌%◌, ◌≤◌, ◌<◌, bit_or, ◌≡◌, ap, ◌⊎◌, inl, inr, arith, low_bits,
}
use esp_now_midi.Base.Bits.{bit_and_high_nibble, nibbles-bit_or}
use esp_now_midi.Midi.{MidiMessage, MidiMessagePacket, from_message, to_message}

-- A channel message on channel 1-16, its status one of 0x80, 0x90, ..., 0xE0.
pub record IsChannelMessage (m : MidiMessage) : Type 0 where
  pub from_one : 1 ≤ m.channel
  pub to_sixteen : m.channel ≤ 16
  pub status_whole : m.status / 16 * 16 ≡ m.status
  pub status_below : m.status < 0xf0

-- A system message, which has no channel.
pub record IsSystemMessage (m : MidiMessage) : Type 0 where
  pub no_channel : m.channel ≡ 0
  pub status_above : 0xf0 ≤ m.status
  pub status_byte : m.status < 256

pub status-bit_or :
    (m : MidiMessage) (c : ℕ) → IsChannelMessage m → c < 16 → bit_or m.status c ≡ m.status + c
status-bit_or m c v h =
    omega (arith, ap (λ (t : ℕ). bit_or t c) v.status_whole, nibbles-bit_or (m.status / 16) c h)

to_message-channel : (m : MidiMessage) → IsChannelMessage m → to_message (from_message m) ≡ m
unfolding to_message from_message
to_message-channel m v = ground (
  arith,
  status-bit_or m (low_bits (m.channel + 255) 4) v (omega arith),
  bit_and_high_nibble (m.status + (m.channel + 255) % 16),
)

to_message-system : (m : MidiMessage) → IsSystemMessage m → to_message (from_message m) ≡ m
unfolding to_message from_message
to_message-system m v = ground arith

-- A message with a channel 1-16 and a channel status, or a system message, comes back unchanged
-- from the packet that it is sent as.
pub to_message-from_message :
    (m : MidiMessage) → IsChannelMessage m ⊎ IsSystemMessage m → to_message (from_message m) ≡ m
to_message-from_message m (inl v) = to_message-channel m v
to_message-from_message m (inr v) = to_message-system m v

-- A packet is rebuilt from the message that it is read as, whatever its status byte.
pub from_message-to_message :
    (p : MidiMessagePacket) → p.status_byte < 256 → from_message (to_message p) ≡ p
unfolding to_message from_message
from_message-to_message p h = ground (
  arith,
  bit_and_high_nibble p.status_byte h,
  ap (λ (t : ℕ). bit_or t (low_bits p.status_byte 4)) (bit_and_high_nibble p.status_byte h),
  nibbles-bit_or (p.status_byte / 16) (low_bits p.status_byte 4) (omega arith),
)
