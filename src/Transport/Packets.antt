-- ===== src/Transport/Packets.antt =====
-- include/esp_now_midi.h: a message that is sent is taken for MIDI and read back.
use esp_now_midi.Base.{
  ℕ, zero, suc, ◌+◌, ◌*◌, ◌%◌, ◌≤◌, ◌<◌, ◌≡◌, refl, ap, ◌∙◌, ◌⊎◌, inl, inr, true, false, ◌||◌, [],
  ◌∷◌, arith, ◌==◌, if◌then◌else◌, length, get_or, take, drop, length-take, low_bits,
}
use esp_now_midi.Base.Bits.{bit_and_high_bit, bit_and_high_nibble}
use esp_now_midi.Midi.{MidiMessage, MidiMessagePacket, from_message, to_message, get_data_size}
use esp_now_midi.Midi.RoundTrip.{
  IsChannelMessage, IsSystemMessage, status-bit_or, to_message-from_message,
}
use esp_now_midi.Transport.Send.{packet_bytes, send_message}
use esp_now_midi.Transport.Dispatch.{read_packet, is_refused_status, no_high_bit, is_midi_packet}

-- The bytes that a message does not send are 0.
pub record IsShort (p : MidiMessagePacket) (size : ℕ) : Type 0 where
  pub size_eq : get_data_size p ≡ size
  pub size_low : 1 ≤ size
  pub size_high : size ≤ 3
  pub no_data2 : size ≤ 2 → p.data2 ≡ 0
  pub no_data1 : size ≤ 1 → p.data1 ≡ 0

read_packet-packet_bytes :
    (p : MidiMessagePacket) (size : ℕ) → IsShort p size → read_packet (packet_bytes p) ≡ p
unfolding read_packet packet_bytes
read_packet-packet_bytes p zero v = absurd (omega (arith, v.size_low))
read_packet-packet_bytes p (suc zero) v =
    ground (arith, v.size_eq, v.no_data1 (omega arith), v.no_data2 (omega arith))
read_packet-packet_bytes p (suc (suc zero)) v = ground (arith, v.size_eq, v.no_data2 (omega arith))
read_packet-packet_bytes p (suc (suc (suc zero))) v = ground (arith, v.size_eq)
read_packet-packet_bytes p (suc (suc (suc (suc n)))) v = absurd (omega (arith, v.size_high))

length-packet_bytes :
    (p : MidiMessagePacket) (size : ℕ) → IsShort p size → length (packet_bytes p) ≡ size
unfolding packet_bytes
length-packet_bytes p size v = omega (
  arith,
  length-take (get_data_size p) (p.status_byte ∷ p.data1 ∷ p.data2 ∷ []),
  v.size_eq,
  v.size_low,
  v.size_high,
)

first-packet_bytes :
    (p : MidiMessagePacket) (size : ℕ)
    → IsShort p size
    → get_or (packet_bytes p) 0 0 ≡ p.status_byte
unfolding read_packet
first-packet_bytes p size v = ap (λ q. q.status_byte) (read_packet-packet_bytes p size v)

no_high_bit_three :
    (a b c : ℕ) (size : ℕ)
    → b < 128
    → c < 128
    → no_high_bit (drop 1 (take size (a ∷ b ∷ c ∷ []))) ≡ true
unfolding no_high_bit
no_high_bit_three a b c zero small1 small2 = refl
no_high_bit_three a b c (suc zero) small1 small2 = refl
no_high_bit_three a b c (suc (suc zero)) small1 small2 = ground (arith, bit_and_high_bit b)
no_high_bit_three a b c (suc (suc (suc zero))) small1 small2 =
    ground (arith, bit_and_high_bit b, bit_and_high_bit c)
no_high_bit_three a b c (suc (suc (suc (suc size)))) small1 small2 =
    ground (arith, bit_and_high_bit b, bit_and_high_bit c)

no_high_bit-packet_bytes :
    (p : MidiMessagePacket)
    → p.data1 < 128
    → p.data2 < 128
    → no_high_bit (drop 1 (packet_bytes p)) ≡ true
unfolding packet_bytes
no_high_bit-packet_bytes p small1 small2 =
    no_high_bit_three p.status_byte p.data1 p.data2 (get_data_size p) small1 small2

is_midi_packet-packet_bytes :
    (p : MidiMessagePacket) (size : ℕ)
    → IsShort p size
    → 0x80 ≤ p.status_byte
    → is_refused_status p.status_byte ≡ false
    → p.data1 < 128
    → p.data2 < 128
    → is_midi_packet (packet_bytes p) ≡ true
unfolding is_midi_packet
is_midi_packet-packet_bytes p size v high known small1 small2 = ground (
  arith,
  no_high_bit-packet_bytes p small1 small2,
  length-packet_bytes p size v,
  first-packet_bytes p size v,
  read_packet-packet_bytes p size v,
  v.size_eq,
  v.size_low,
  v.size_high,
)

-- A message that can be sent: its status byte is not refused, and its data bytes have seven bits,
-- and are 0 behind the size of the message.
pub record IsSendable (m : MidiMessage) (size : ℕ) : Type 0 where
  pub of_kind : IsChannelMessage m ⊎ IsSystemMessage m
  pub status_high : 0x80 ≤ (from_message m).status_byte
  pub status_known : is_refused_status (from_message m).status_byte ≡ false
  pub short : IsShort (from_message m) size
  pub small1 : (from_message m).data1 < 128
  pub small2 : (from_message m).data2 < 128

-- A sendable message is taken for MIDI, and comes back from its bytes.
pub send_message-received :
    (m : MidiMessage) (size : ℕ)
    → IsSendable m size
    → (is_midi_packet (send_message m) ≡ true)
      × (length (send_message m) ≡ size)
      × (to_message (read_packet (send_message m)) ≡ m)
unfolding send_message
send_message-received m size v = (
  is_midi_packet-packet_bytes (from_message m) size v.short v.status_high v.status_known v.small1
      v.small2,
  length-packet_bytes (from_message m) size v.short,
  ap to_message (read_packet-packet_bytes (from_message m) size v.short)
      ∙ to_message-from_message m v.of_kind,
)

status_byte-channel :
    (m : MidiMessage)
    → IsChannelMessage m
    → (from_message m).status_byte ≡ m.status + (m.channel + 255) % 16
unfolding from_message
status_byte-channel m v = ground (
  arith,
  status-bit_or m (low_bits (m.channel + 255) 4) v (omega arith),
  v.status_whole,
  v.status_below,
)

get_data_size-channel :
    (p : MidiMessagePacket) (status low : ℕ)
    → p.status_byte ≡ status * 16 + low
    → low < 16
    → status < 15
    → get_data_size p ≡ (if status == 12 || status == 13 then 2 else 3)
unfolding get_data_size
get_data_size-channel p status low h small below = ground (arith, bit_and_high_nibble p.status_byte)

from_message_data :
    (m : MidiMessage)
    → ((from_message m).data1 ≡ m.first_byte) × ((from_message m).data2 ≡ m.second_byte)
unfolding from_message
from_message_data m = (refl, refl)

-- What a channel message and a system message need to be sent.
module _ (channel kind first second : ℕ) where
  abbrev channel_kind : MidiMessage
  channel_kind = record {
    channel = channel;
    status = kind * 16;
    first_byte = first;
    second_byte = second;
  }

  IsChannelMessage-kind : 1 ≤ channel → channel ≤ 16 → kind < 15 → IsChannelMessage channel_kind
  IsChannelMessage-kind from_one to_sixteen below = record {
    from_one = from_one;
    to_sixteen = to_sixteen;
    status_whole = omega arith;
    status_below = omega arith;
  }

  pub IsSendable-channel :
      1 ≤ channel
      → channel ≤ 16
      → 8 ≤ kind
      → kind < 15
      → first < 128
      → second < 128
      → (kind ≡ 12 ⊎ kind ≡ 13 → second ≡ 0)
      → IsSendable channel_kind (if kind == 12 || kind == 13 then 2 else 3)
  unfolding is_refused_status
  IsSendable-channel from_one to_sixteen above below small1 small2 no_second =
      let v = IsChannelMessage-kind from_one to_sixteen below in
      let status = status_byte-channel channel_kind v in
      let bytes = from_message_data channel_kind in
      record {
        of_kind = inl v;
        status_high = omega (arith, status);
        status_known = ground (arith, status);
        short = record {
          size_eq =
              get_data_size-channel (from_message channel_kind) kind ((channel + 255) % 16) status
                (omega arith) below;
          size_low = ground arith;
          size_high = ground arith;
          no_data2 = λ two. bytes.1 ∙ no_second (ground arith);
          no_data1 = λ one. absurd (ground arith);
        };
        small1 = omega (arith, bytes.0);
        small2 = omega (arith, bytes.1);
      }

  abbrev system_kind : MidiMessage
  system_kind = record { channel = 0; status = kind; first_byte = first; second_byte = second }

  from_message_system :
      0xf0 ≤ kind
      → kind < 256
      → from_message system_kind ≡ record { status_byte = kind; data1 = first; data2 = second }
  unfolding from_message
  from_message_system above below = ground arith

  pub IsSendable-system :
      (size : ℕ)
      → 0xf0 ≤ kind
      → kind < 256
      → is_refused_status kind ≡ false
      → get_data_size (record { status_byte = kind; data1 = first; data2 = second }) ≡ size
      → 1 ≤ size
      → size ≤ 3
      → first < 128
      → second < 128
      → (size ≤ 2 → second ≡ 0)
      → (size ≤ 1 → first ≡ 0)
      → IsSendable system_kind size
  IsSendable-system size above below known size_eq low high small1 small2 no_second no_first =
      let whole = from_message_system above below in
      record {
        of_kind = inr (record { no_channel = refl; status_above = above; status_byte = below });
        status_high = rw whole (omega arith);
        status_known = rw whole known;
        short = record {
          size_eq = rw whole size_eq;
          size_low = low;
          size_high = high;
          no_data2 = rw whole no_second;
          no_data1 = rw whole no_first;
        };
        small1 = rw whole small1;
        small2 = rw whole small2;
      }
