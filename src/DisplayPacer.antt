-- ===== src/DisplayPacer.antt =====
-- include/DisplayPacer.h: when the dongle may redraw its display.
mod Tests
use esp_now_midi.Base.{
  ℕ, zero, suc, ◌+◌, ◌-◌, ◌*◌, ◌/◌, ◌%◌, ◌^◌, ◌≤◌, ◌<◌, bit_or, bit_and, ◌≡◌, refl, sym, ap, ◌∙◌,
  ◌≢◌, ◌↔◌, ◌⊎◌, inl, inr, Bool, true, false, not, ◌&&◌, ◌||◌, Option, none, some, List, [], ◌∷◌,
  ◌++◌, map, arith, ltb, leb, ◌==◌, ◌!=◌, if◌then◌else◌, ==-eq, ==-ne, ==_iff, Bool-cases,
  Option-cases, length, get_or, take, drop, keep_if, All, length-append, length-map, length-take,
  length-drop, take_all, put, put_same, put_other, slot_injective, segment, length-segment,
  segment_congr, segment_shift, segment_snoc, segment_append, segment_extend, segment_remove,
  segment_list, get_or-take, get_or-drop, ring, ring-put, ring_list, ring_list-put, ring_list_step,
  ring_list_pop, ring_list-put_inside, ring_list-put_before, ring_next, u8, u16, u32, sub32, sub16,
  signed_ltb32, low_bits, shr,
}
use esp_now_midi.Base.Bits.{
  bit_and_high_bit, bit_and_low_bits, bit_and_high_nibble, bit_or-shift, shift-bit_or,
  nibbles-bit_or, bytes-bit_or,
}

pub record Pacer : Type 0 where
  pub interval_ms : ℕ
  pub quiet_ms : ℕ
  pub max_defer_ms : ℕ
  pub last_draw_ms : ℕ
  pub last_midi_ms : ℕ
  pub midi_seen : Bool
  pub urgent : Bool

abbrev pub initial : Pacer
initial = record {
  interval_ms = 200;
  quiet_ms = 100;
  max_defer_ms = 1000;
  last_draw_ms = 0;
  last_midi_ms = 0;
  midi_seen = false;
  urgent = true;
}

unfoldable pub note_midi : Pacer → ℕ → Pacer
note_midi p now = record p { last_midi_ms = now; midi_seen = true }

unfoldable pub request_now : Pacer → Pacer
request_now p = record p { urgent = true }

unfoldable pub due : Pacer → ℕ → Bool
due p now =
    let since_draw = sub32 now p.last_draw_ms in
    let busy = p.midi_seen && ltb 0 p.quiet_ms && ltb (sub32 now p.last_midi_ms) p.quiet_ms in
    if p.urgent
    then true
    else if ltb since_draw p.interval_ms
    then false
    else not busy || ltb 0 p.max_defer_ms && leb p.max_defer_ms since_draw

unfoldable pub drawn : Pacer → ℕ → Pacer
drawn p now = record p { last_draw_ms = now; urgent = false }

-- MIDI was bridged at each of these times, the last one last.
unfoldable pub bridged : Pacer → List ℕ → Pacer
unfolding note_midi
bridged p [] = p
bridged p (t ∷ ts) = bridged (note_midi p t) ts

-- What MIDI leaves alone
abbrev Kept : Pacer → Pacer → Type 0
Kept v p =
    (v.interval_ms ≡ p.interval_ms)
    × (v.quiet_ms ≡ p.quiet_ms)
    × (v.max_defer_ms ≡ p.max_defer_ms)
    × (v.last_draw_ms ≡ p.last_draw_ms)
    × (v.urgent ≡ p.urgent)

bridged-Kept : (p : Pacer) (ts : List ℕ) → Kept (bridged p ts) p
unfolding bridged note_midi
bridged-Kept p [] = (refl, refl, refl, refl, refl)
bridged-Kept p (t ∷ ts) = bridged-Kept (note_midi p t) ts

-- Whatever MIDI is bridged after a redraw, no other redraw is due before the interval, unless one is
-- requested.
pub due-interval :
    (p : Pacer) (drawn_at : ℕ) (times : List ℕ) (now : ℕ)
    → due (bridged (drawn p drawn_at) times) now ≡ true
    → p.interval_ms ≤ sub32 now drawn_at
unfolding due drawn
due-interval p drawn_at times now h =
    ground (arith, bridged-Kept (record p { last_draw_ms = drawn_at; urgent = false }) times)

-- Whatever MIDI is bridged after a redraw, the next one is due when both the interval and the
-- longest deferral are over, when the longest deferral is not 0.
pub due-bridged :
    (p : Pacer) (drawn_at : ℕ) (times : List ℕ) (now : ℕ)
    → p.interval_ms ≤ sub32 now drawn_at
    → 0 < p.max_defer_ms
    → p.max_defer_ms ≤ sub32 now drawn_at
    → due (bridged (drawn p drawn_at) times) now ≡ true
unfolding due drawn
due-bridged p drawn_at times now interval some_defer defer =
    ground (arith, bridged-Kept (record p { last_draw_ms = drawn_at; urgent = false }) times)
