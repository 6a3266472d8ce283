-- ===== src/Transport/Wire.antt =====
-- include/esp_now_midi.h: what one device sends is what the handlers of another are called with.
use esp_now_midi.Base.{
  ℕ, ◌*◌, ◌/◌, ◌%◌, ◌^◌, ◌≤◌, ◌<◌, bit_or, ◌≡◌, refl, ap, ◌∙◌, ◌⊎◌, Bool, true, false, List, [],
  arith, length,
}
use esp_now_midi.Base.Bits.{shift-bit_or}
use esp_now_midi.Midi.{MidiMessage, to_message, get_data_size}
use esp_now_midi.Transport.Send.{
  ℤ, pos, negsuc, send_message, send_note_on, send_note_off, send_control_change,
  send_program_change, send_after_touch, send_after_touch_poly, send_pitch_bend,
  send_pitch_bend_raw, clamp_pitch_bend, from_signed, send_start, send_stop, send_continue,
  send_clock, send_song_position, send_song_select, send_time_code, send_active_sensing,
  send_system_reset,
}
use esp_now_midi.Transport.Dispatch.{
  Handlers, Event, note_on, note_off, control_change, poly_aftertouch, program_change,
  channel_aftertouch, pitch_bend, started, stopped, continued, clocked, sensed, was_reset,
  song_position, song_select, time_code, sys_ex, sys_ex_from, message_from, call_if, to_signed,
  dispatch, read_packet, is_refused_status, is_midi_packet,
}
use esp_now_midi.Transport.Packets.{
  IsSendable, send_message-received, IsSendable-channel, IsSendable-system,
}

-- The method that sends an event; the events that are no short message have none.
abbrev pub send_event : Event → List ℕ
send_event (note_on c a b) = send_note_on a b c
send_event (note_off c a b) = send_note_off a b c
send_event (control_change c a b) = send_control_change a b c
send_event (poly_aftertouch c a b) = send_after_touch_poly a b c
send_event (program_change c a) = send_program_change a c
send_event (channel_aftertouch c a) = send_after_touch a c
send_event (pitch_bend c v) = send_pitch_bend v c
send_event started = send_start
send_event stopped = send_stop
send_event continued = send_continue
send_event clocked = send_clock
send_event sensed = send_active_sensing
send_event was_reset = send_system_reset
send_event (song_position v) = send_song_position v
send_event (song_select v) = send_song_select v
send_event (time_code v) = send_time_code v
send_event (sys_ex bytes) = []
send_event (sys_ex_from mac bytes) = []
send_event (message_from mac m) = []

-- The channel is 1-16.
abbrev pub IsChannel : ℕ → Type 0
IsChannel c = (1 ≤ c) × (c ≤ 16)

-- An event of a short message, with a channel 1-16 and data of seven bits; a pitch bend and the
-- numbers of system messages may have any value.
abbrev pub IsShortEvent : Event → Type 0
IsShortEvent (note_on c a b) = IsChannel c × (a < 128) × (b < 128)
IsShortEvent (note_off c a b) = IsChannel c × (a < 128) × (b < 128)
IsShortEvent (control_change c a b) = IsChannel c × (a < 128) × (b < 128)
IsShortEvent (poly_aftertouch c a b) = IsChannel c × (a < 128) × (b < 128)
IsShortEvent (program_change c a) = IsChannel c × (a < 128)
IsShortEvent (channel_aftertouch c a) = IsChannel c × (a < 128)
IsShortEvent (pitch_bend c v) = IsChannel c
IsShortEvent (sys_ex bytes) = ⊥
IsShortEvent (sys_ex_from mac bytes) = ⊥
IsShortEvent (message_from mac m) = ⊥
IsShortEvent e = Unit

-- What the receiver hears: a pitch bend within -8192 and 8191, the low bits of the other numbers.
abbrev pub heard : Event → Event
heard (pitch_bend c v) = pitch_bend c (clamp_pitch_bend v)
heard (song_position v) = song_position (v % 2 ^ 14)
heard (song_select v) = song_select (v % 2 ^ 7)
heard (time_code v) = time_code (v % 2 ^ 7)
heard e = e

-- Whether the handler for an event is registered.
abbrev pub handles : Handlers → Event → Bool
handles hs (note_on c a b) = hs.on_note_on
handles hs (note_off c a b) = hs.on_note_off
handles hs (control_change c a b) = hs.on_control_change
handles hs (poly_aftertouch c a b) = hs.on_after_touch_poly
handles hs (program_change c a) = hs.on_program_change
handles hs (channel_aftertouch c a) = hs.on_after_touch_channel
handles hs (pitch_bend c v) = hs.on_pitch_bend
handles hs started = hs.on_start
handles hs stopped = hs.on_stop
handles hs continued = hs.on_continue
handles hs clocked = hs.on_clock
handles hs sensed = hs.on_active_sensing
handles hs was_reset = hs.on_system_reset
handles hs (song_position v) = hs.on_song_position
handles hs (song_select v) = hs.on_song_select
handles hs (time_code v) = hs.on_time_code
handles hs e = false

-- How the receiver takes the bytes of a short message.
pub record IsTaken (hs : Handlers) (bytes : List ℕ) (e : Event) : Type 0 where
  pub is_midi : is_midi_packet bytes ≡ true
  pub is_short : length bytes ≤ 3
  pub is_heard : dispatch hs (to_message (read_packet bytes)) ≡ call_if (handles hs e) (heard e)

module _ (hs : Handlers) where
  taken :
      (m : MidiMessage) (size : ℕ) (e : Event)
      → size ≤ 3
      → IsSendable m size
      → dispatch hs m ≡ call_if (handles hs e) (heard e)
      → IsTaken hs (send_message m) e
  taken m size e short v calls =
      let back = send_message-received m size v in
      record {
        is_midi = back.0;
        is_short = omega (arith, back.1);
        is_heard = ap (dispatch hs) back.2 ∙ calls;
      }

  joined-split : (v : ℕ) → v < 2 ^ 14 → bit_or (v / 128 % 128 * 2 ^ 7) (v % 128) ≡ v
  joined-split v small = omega (arith, shift-bit_or 7 (v % 128) (v / 128 % 128) (omega arith))

  to_signed-from_signed :
      (v : ℤ) → to_signed (from_signed (clamp_pitch_bend v)) ≡ clamp_pitch_bend v
  unfolding to_signed from_signed clamp_pitch_bend
  to_signed-from_signed (pos n) = ground arith
  to_signed-from_signed (negsuc n) = ground arith

  from_signed_small : (v : ℤ) → from_signed (clamp_pitch_bend v) < 2 ^ 14
  unfolding from_signed clamp_pitch_bend
  from_signed_small (pos n) = ground arith
  from_signed_small (negsuc n) = ground arith

  -- A channel message, and one of the system, whose handler is called.
  taken-channel :
      (c kind a b : ℕ) (e : Event)
      → IsChannel c
      → 8 ≤ kind
      → kind < 15
      → a < 128
      → b < 128
      → (kind ≡ 12 ⊎ kind ≡ 13 → b ≡ 0)
      → dispatch hs (record { channel = c; status = kind * 16; first_byte = a; second_byte = b })
        ≡ call_if (handles hs e) (heard e)
      → IsTaken hs
          (send_message
            (record { channel = c; status = kind * 16; first_byte = a; second_byte = b }))
          e
  taken-channel c kind a b e channel above below small1 small2 no_second =
      taken _ _ e (ground arith)
        (IsSendable-channel c kind a b channel.0 channel.1 above below small1 small2 no_second)

  taken-system :
      (status a b size : ℕ) (e : Event)
      → 0xf0 ≤ status
      → status < 256
      → is_refused_status status ≡ false
      → get_data_size (record { status_byte = status; data1 = a; data2 = b }) ≡ size
      → 1 ≤ size
      → size ≤ 3
      → a < 128
      → b < 128
      → (size ≤ 2 → b ≡ 0)
      → (size ≤ 1 → a ≡ 0)
      → dispatch hs (record { channel = 0; status = status; first_byte = a; second_byte = b })
        ≡ call_if (handles hs e) (heard e)
      → IsTaken hs
          (send_message (record { channel = 0; status = status; first_byte = a; second_byte = b }))
          e
  taken-system status a b size e above below known size_eq low high small1 small2 no_second
        no_first =
      taken _ size e high (
        IsSendable-system 0 status a b size above below known size_eq low high small1 small2
          no_second no_first)

  taken-pitch_bend :
      (c : ℕ) (v : ℤ) → IsChannel c → IsTaken hs (send_pitch_bend v c) (pitch_bend c v)
  unfolding send_pitch_bend send_pitch_bend_raw dispatch
  taken-pitch_bend c v channel =
      let raw = from_signed (clamp_pitch_bend v) in
      let whole : raw % 2 ^ 14 ≡ raw = omega (arith, from_signed_small v) in
      taken-channel c 14 (raw % 2 ^ 14 % 128) (raw % 2 ^ 14 / 128 % 128) (pitch_bend c v) channel
        (omega arith) (omega arith) (omega arith) (omega arith) (ground arith)
        (ap (λ n. call_if hs.on_pitch_bend (pitch_bend c (to_signed n)))
            (joined-split (raw % 2 ^ 14) (omega arith) ∙ whole)
          ∙ ap (λ w. call_if hs.on_pitch_bend (pitch_bend c w)) (to_signed-from_signed v))

  taken-song_position : (v : ℕ) → IsTaken hs (send_song_position v) (song_position v)
  unfolding send_song_position dispatch is_refused_status get_data_size
  taken-song_position v =
      taken-system 0xf2 (v % 2 ^ 14 % 128) (v % 2 ^ 14 / 128 % 128) 3 (song_position v)
        (omega arith) (omega arith) refl refl (omega arith) (omega arith) (omega arith)
        (omega arith) (omega arith) (omega arith)
        (ap (λ n. call_if hs.on_song_position (song_position n))
          (joined-split (v % 2 ^ 14) (omega arith)))

  -- A number of seven bits, and a real-time message
  taken-number :
      (status v : ℕ) (e : Event)
      → 0xf0 ≤ status
      → status < 256
      → is_refused_status status ≡ false
      → get_data_size (record { status_byte = status; data1 = v % 128; data2 = 0 }) ≡ 2
      → dispatch hs (record { channel = 0; status = status; first_byte = v % 128; second_byte = 0 })
        ≡ call_if (handles hs e) (heard e)
      → IsTaken hs
          (send_message
            (record { channel = 0; status = status; first_byte = v % 128; second_byte = 0 }))
          e
  taken-number status v e above below known two =
      taken-system status (v % 128) 0 2 e above below known two (omega arith) (omega arith)
        (omega arith) (omega arith) (λ short. refl) (omega arith)

  taken-real_time :
      (status : ℕ) (e : Event)
      → 0xf0 ≤ status
      → status < 256
      → is_refused_status status ≡ false
      → get_data_size (record { status_byte = status; data1 = 0; data2 = 0 }) ≡ 1
      → dispatch hs (record { channel = 0; status = status; first_byte = 0; second_byte = 0 })
        ≡ call_if (handles hs e) (heard e)
      → IsTaken hs
          (send_message (record { channel = 0; status = status; first_byte = 0; second_byte = 0 }))
          e
  taken-real_time status e above below known one =
      taken-system status 0 0 1 e above below known one (omega arith) (omega arith) (omega arith)
        (omega arith) (λ short. refl) (λ short. refl)

  -- The bytes that a send method hands to all peers are short MIDI for the receiver, which calls the
  -- handler of that event, if it is registered, and no other: with the channel and the data that
  -- were sent, the pitch bend clamped to its range, and the low bits of the numbers that are masked.
  pub send_event-IsTaken : (e : Event) → IsShortEvent e → IsTaken hs (send_event e) e
  unfolding send_note_on send_note_off send_control_change send_program_change send_after_touch
      send_after_touch_poly send_start send_stop send_continue send_clock send_song_select
      send_time_code send_active_sensing send_system_reset dispatch is_refused_status get_data_size
  send_event-IsTaken (note_on c a b) v =
      taken-channel c 9 a b (note_on c a b) v.0 (omega arith) (omega arith) v.1 v.2 (ground arith)
        refl
  send_event-IsTaken (note_off c a b) v =
      taken-channel c 8 a b (note_off c a b) v.0 (omega arith) (omega arith) v.1 v.2 (ground arith)
        refl
  send_event-IsTaken (control_change c a b) v =
      taken-channel c 11 a b (control_change c a b) v.0 (omega arith) (omega arith) v.1 v.2
        (ground arith) refl
  send_event-IsTaken (poly_aftertouch c a b) v =
      taken-channel c 10 a b (poly_aftertouch c a b) v.0 (omega arith) (omega arith) v.1 v.2
        (ground arith) refl
  send_event-IsTaken (program_change c a) v =
      taken-channel c 12 a 0 (program_change c a) v.0 (omega arith) (omega arith) v.1 (omega arith)
        (λ two. refl) refl
  send_event-IsTaken (channel_aftertouch c a) v =
      taken-channel c 13 a 0 (channel_aftertouch c a) v.0 (omega arith) (omega arith) v.1
        (omega arith) (λ two. refl) refl
  send_event-IsTaken (pitch_bend c w) v = taken-pitch_bend c w v
  send_event-IsTaken (song_position w) v = taken-song_position w
  send_event-IsTaken started v =
      taken-real_time 0xfa started (omega arith) (omega arith) refl refl refl
  send_event-IsTaken stopped v =
      taken-real_time 0xfc stopped (omega arith) (omega arith) refl refl refl
  send_event-IsTaken continued v =
      taken-real_time 0xfb continued (omega arith) (omega arith) refl refl refl
  send_event-IsTaken clocked v =
      taken-real_time 0xf8 clocked (omega arith) (omega arith) refl refl refl
  send_event-IsTaken sensed v =
      taken-real_time 0xfe sensed (omega arith) (omega arith) refl refl refl
  send_event-IsTaken was_reset v =
      taken-real_time 0xff was_reset (omega arith) (omega arith) refl refl refl
  send_event-IsTaken (song_select w) v =
      taken-number 0xf3 w (song_select w) (omega arith) (omega arith) refl refl refl
  send_event-IsTaken (time_code w) v =
      taken-number 0xf1 w (time_code w) (omega arith) (omega arith) refl refl refl
  send_event-IsTaken (sys_ex bytes) v = absurd v
  send_event-IsTaken (sys_ex_from mac bytes) v = absurd v
  send_event-IsTaken (message_from mac m) v = absurd v
