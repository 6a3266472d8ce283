-- ===== src/Inbox.antt =====
-- include/MidiInbox.h: received MIDI on its way from the callback to the loop.
pub mod Fifo
pub mod Sysex
pub mod SysexFifo
mod Tests
use esp_now_midi.Base.{
  ℕ, zero, suc, ◌+◌, ◌-◌, ◌*◌, ◌/◌, ◌%◌, ◌^◌, ◌≤◌, ◌<◌, bit_or, bit_and, ◌≡◌, refl, sym, ap, ◌∙◌,
  ◌≢◌, ◌↔◌, ◌⊎◌, inl, inr, Bool, true, false, not, ◌&&◌, ◌||◌, Option, none, some, List, [], ◌∷◌,
  ◌++◌, map, arith, ltb, leb, ◌==◌, ◌!=◌, if◌then◌else◌, ==-eq, ==-ne, ==_iff, Bool-cases,
  Option-cases, length, get_or, take, drop, keep_if, All, length-append, length-map, length-take,
  length-drop, take_all, put, put_same, put_other, slot_injective, segment, length-segment,
  segment_congr, segment_shift, segment_snoc, segment_append, segment_extend, segment_remove,
  segment_list, get_or-take, get_or-drop, ring, ring-put, ring_list, ring_list-put, ring_list_step,
  ring_list_pop, ring_list-put_inside, ring_list-put_before, ring_next, u8, u16, u32, sub32, sub16,
  signed_ltb32, low_bits, shr,
}
use esp_now_midi.Base.Bits.{
  bit_and_high_bit, bit_and_low_bits, bit_and_high_nibble, bit_or-shift, shift-bit_or,
  nibbles-bit_or, bytes-bit_or,
}
use esp_now_midi.Midi.{MidiMessage}

-- `MIDI_INBOX_SIZE`
abbrev pub midi_inbox_size : ℕ
midi_inbox_size = 64

-- `Entry`; a MAC address is copied only, so it is a number, 0 when the sender is unknown.
pub record Entry : Type 0 where
  pub msg : MidiMessage
  pub mac : ℕ

pub record MidiInbox : Type 0 where
  pub items : ℕ → Entry
  pub head : ℕ
  pub tail : ℕ
  pub dropped : ℕ

abbrev pub mac_or_zero : Option ℕ → ℕ
mac_or_zero none = 0
mac_or_zero (some mac) = mac

unfoldable pub push : MidiInbox → MidiMessage → Option ℕ → MidiInbox × Bool
push q msg mac =
    let next = (q.head + 1) % midi_inbox_size in
    if next == q.tail then (record q { dropped = u32 (q.dropped + 1) }, false) else (
      record q {
        items = put q.items q.head (record { msg = msg; mac = mac_or_zero mac });
        head = next;
      },
      true,
    )

-- `pop`; `none` where it returns false.
unfoldable pub pop : MidiInbox → MidiInbox × Option Entry
pop q =
    if q.tail == q.head
    then (q, none)
    else (record q { tail = (q.tail + 1) % midi_inbox_size }, some (q.items q.tail))

unfoldable pub dropped_count : MidiInbox → ℕ
dropped_count q = q.dropped
