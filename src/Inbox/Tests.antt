-- ===== src/Inbox/Tests.antt =====
-- A small inbox and a SysEx message.
use esp_now_midi.Base.{
  ℕ, ◌+◌, ◌≡◌, refl, true, not, ◌&&◌, none, some, List, [], ◌∷◌, arith, leb, if◌then◌else◌, put,
  u32,
}
use esp_now_midi.Midi.{MidiMessage}
use esp_now_midi.Inbox.{MidiInbox, push, pop, dropped_count}
use esp_now_midi.Inbox.Fifo.{IsValid, contents, push_line, contents-push}
use esp_now_midi.Inbox.Sysex.{UsbSysExQueue, enqueue, has_pending, peek, consume_head}
use esp_now_midi.Inbox.SysexFifo.{InRange, is_none, held-enqueue}

abbrev note : ℕ → MidiMessage
note n = record { channel = 1; status = 0x90; first_byte = n; second_byte = 100 }

-- Two messages wait, round the end of the array.
abbrev two : MidiInbox
two = record {
  items = put (λ _. record { msg = note 1; mac = 7 }) 0 (record { msg = note 2; mac = 8 });
  head = 1;
  tail = 63;
  dropped = 0;
}

two-IsValid : IsValid two
two-IsValid = omega arith

pop-two : contents (pop two).0 ≡ record { msg = note 2; mac = 8 } ∷ []
unfolding pop put
pop-two = refl

contents-push_example :
    let (q', ok) = push two (note 3) none in
    ((contents q', ok) ≡ push_line (contents two) (record { msg = note 3; mac = 0 }))
    × (dropped_count q' ≡ (if ok then dropped_count two else u32 (dropped_count two + 1)))
    × IsValid q'
contents-push_example = contents-push two (note 3) none two-IsValid

abbrev empty_queue : UsbSysExQueue
empty_queue = record { slots = λ _. record { bytes = []; from = none }; head = 1; tail = 1 }

abbrev identity : List ℕ
identity = 0xf0 ∷ 0x7e ∷ 0xf7 ∷ []

empty_queue-InRange : InRange empty_queue
empty_queue-InRange = omega arith

enqueue-identity : (enqueue empty_queue identity (some 5)).1 ≡ true
unfolding enqueue
enqueue-identity = refl

held-enqueue_example :
    let (q', ok) = enqueue empty_queue identity (some 5) in
    (ok ≡ (leb 1 3 && leb 3 1024 && is_none (peek empty_queue)))
    × (peek q'
        ≡ (if ok then some (record { bytes = identity; from = some 5 }) else peek empty_queue))
    × (has_pending q' ≡ not (is_none (peek q')))
    × (peek (consume_head q') ≡ none)
    × InRange q'
    × InRange (consume_head q')
held-enqueue_example = held-enqueue empty_queue identity (some 5) empty_queue-InRange
