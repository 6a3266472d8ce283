-- ===== src/Inbox/Fifo.antt =====
-- include/MidiInbox.h: the inbox is a bounded first-in first-out line.
use esp_now_midi.Base.{
  ℕ, ◌+◌, ◌-◌, ◌%◌, ◌<◌, ◌≡◌, ap, ◌∙◌, ◌≢◌, Bool, true, false, Option, none, some, List, [], ◌∷◌,
  ◌++◌, arith, ltb, if◌then◌else◌, length, put, length-segment, ring, ring_list, ring_list-put,
  ring_list_pop, u32,
}
use esp_now_midi.Midi.{MidiMessage}
use esp_now_midi.Inbox.{midi_inbox_size, Entry, MidiInbox, mac_or_zero, push, pop, dropped_count}

pub record IsValid (q : MidiInbox) : Type 0 where
  pub head_inside : q.head < midi_inbox_size
  pub tail_inside : q.tail < midi_inbox_size

-- The number of messages in the inbox
abbrev pub waiting_count : MidiInbox → ℕ
waiting_count q = (q.head + midi_inbox_size - q.tail) % midi_inbox_size

-- The messages in the inbox, oldest first
abbrev pub contents : MidiInbox → List Entry
contents q = ring_list midi_inbox_size q.items q.tail (waiting_count q)

-- A line of at most 63 messages
abbrev pub push_line : List Entry → Entry → List Entry × Bool
push_line xs e = if ltb (length xs) (midi_inbox_size - 1) then (xs ++ e ∷ [], true) else (xs, false)

abbrev pub pop_line : List Entry → List Entry × Option Entry
pop_line [] = ([], none)
pop_line (x ∷ xs) = (xs, some x)

length-contents : (q : MidiInbox) → length (contents q) ≡ waiting_count q
length-contents q = length-segment (ring midi_inbox_size q.items q.tail) 0 (waiting_count q)

abbrev entry : MidiMessage → Option ℕ → Entry
entry msg mac = record { msg = msg; mac = mac_or_zero mac }

contents-added :
    (q : MidiInbox) (e : Entry)
    → IsValid q
    → waiting_count q < midi_inbox_size - 1
    → contents (record q { items = put q.items q.head e; head = (q.head + 1) % midi_inbox_size })
      ≡ contents q ++ e ∷ []
contents-added q e valid room =
    let at : q.head ≡ (q.tail + waiting_count q) % midi_inbox_size =
      ground (arith, valid.head_inside, valid.tail_inside) in
    let size : ((q.head + 1) % midi_inbox_size + midi_inbox_size - q.tail) % midi_inbox_size
        ≡ waiting_count q + 1 =
      ground (arith, valid.head_inside, valid.tail_inside) in
    ap (ring_list midi_inbox_size (put q.items q.head e) q.tail) size
    ∙ ap (λ i. ring_list midi_inbox_size (put q.items i e) q.tail (waiting_count q + 1)) at
    ∙ ring_list-put midi_inbox_size q.items q.tail (waiting_count q) e (omega arith)

contents-taken :
    (q : MidiInbox)
    → IsValid q
    → q.tail ≢ q.head
    → contents q ≡ q.items q.tail ∷ contents (record q { tail = (q.tail + 1) % midi_inbox_size })
contents-taken q valid some_left =
    let size : waiting_count q - 1
        ≡ (q.head + midi_inbox_size - (q.tail + 1) % midi_inbox_size) % midi_inbox_size =
      ground (arith, valid.head_inside, valid.tail_inside) in
    ring_list_pop midi_inbox_size q.items q.tail (waiting_count q) valid.tail_inside
      (ground (arith, valid.head_inside, valid.tail_inside))
    ∙ ap
        (λ n. q.items q.tail ∷ ring_list midi_inbox_size q.items ((q.tail + 1) % midi_inbox_size) n)
        size

-- push appends the message with its sender to the line of at most 63 that wait, or refuses it and
-- counts it as dropped when 63 wait. The indices stay inside the array.
pub contents-push :
    (q : MidiInbox) (msg : MidiMessage) (mac : Option ℕ)
    → IsValid q
    → let (q', ok) = push q msg mac in
      ((contents q', ok) ≡ push_line (contents q) (record { msg = msg; mac = mac_or_zero mac }))
      × (dropped_count q' ≡ (if ok then dropped_count q else u32 (dropped_count q + 1)))
      × IsValid q'
unfolding push dropped_count
contents-push q msg mac valid = ground (
  arith,
  valid.head_inside,
  valid.tail_inside,
  length-contents q,
  contents-added q (record { msg = msg; mac = mac_or_zero mac }) valid,
)

-- pop takes the oldest message of the line, or nothing from an empty one. The indices stay inside
-- the array.
pub contents-pop :
    (q : MidiInbox)
    → IsValid q
    → let (q', taken) = pop q in ((contents q', taken) ≡ pop_line (contents q)) × IsValid q'
unfolding pop
contents-pop q valid =
    ground (arith, valid.head_inside, valid.tail_inside, contents-taken q valid, length-contents q)
