-- ===== src/UsbQueue/Slots.antt =====
-- The ring of the queue as a list of entries, oldest first.
use esp_now_midi.Base.{
  ℕ, zero, suc, ◌+◌, ◌-◌, ◌<◌, ◌≡◌, refl, sym, ap, ◌∙◌, ◌&&◌, List, [], ◌∷◌, ◌++◌, arith, ltb, leb,
  ◌==◌, if◌then◌else◌, ==-eq, ==-ne, length, put, segment, length-segment, segment_shift,
  segment_extend, segment_remove, ring, ring-put, ring_next,
}
use esp_now_midi.UsbQueue.{
  Entry, UsbMidiQueue, usb_midi_queue_size, size_locked, at, shift_from, remove_at_locked, store,
  drop_tail,
}
use esp_now_midi.Midi.{MidiMessage}

-- The queue's indices are inside the array.
pub record IsValid (q : UsbMidiQueue) : Type 0 where
  pub head_in : q.head < usb_midi_queue_size
  pub tail_in : q.tail < usb_midi_queue_size

-- The entry at each offset from the tail.
abbrev pub view : UsbMidiQueue → ℕ → Entry
view q = ring usb_midi_queue_size q.items q.tail

-- The entries, oldest first.
abbrev pub contents : UsbMidiQueue → List Entry
contents q = segment (view q) 0 (size_locked q)

pub size_locked-lt : {q : UsbMidiQueue} → IsValid q → size_locked q < usb_midi_queue_size
unfolding size_locked
size_locked-lt v = ground arith

pub length-contents : (q : UsbMidiQueue) → length (contents q) ≡ size_locked q
length-contents q = length-segment (view q) 0 (size_locked q)

-- The head stands just behind the last entry.
pub head-at : {q : UsbMidiQueue} → IsValid q → q.head ≡ at q (size_locked q)
unfolding size_locked
head-at v = ground arith

-- A queue with tail `t` and `n` entries has its head at `t + n`, and the other way round.
pub size_locked-of_head :
    (q : UsbMidiQueue) (n : ℕ)
    → q.tail < usb_midi_queue_size
    → n < usb_midi_queue_size
    → q.head ≡ at q n
    → size_locked q ≡ n
unfolding size_locked
size_locked-of_head q n ht hn e = ground arith

module _ {q : UsbMidiQueue} (v : IsValid q) where
  pub size_locked-store :
      (msg : MidiMessage) (now : ℕ)
      → size_locked q < 63
      → size_locked (store q msg now) ≡ suc (size_locked q)
  unfolding size_locked store
  size_locked-store msg now h = ground arith

  pub store-IsValid : (msg : MidiMessage) (now : ℕ) → IsValid (store q msg now)
  unfolding store
  store-IsValid msg now = ground arith

  view-store :
      (msg : MidiMessage) (now j : ℕ)
      → j < usb_midi_queue_size
      → view (store q msg now) j
        ≡ (if j == size_locked q then record { msg = msg; time_ms = now } else view q j)
  unfolding store
  view-store msg now j h =
      ap (λ (i : ℕ). put q.items i (record { msg = msg; time_ms = now }) (at q j)) (head-at v)
      ∙ ring-put usb_midi_queue_size q.items q.tail (size_locked q)
          (record { msg = msg; time_ms = now }) j h (size_locked-lt v)

  -- What is stored becomes the newest entry.
  pub contents-store :
      (msg : MidiMessage) (now : ℕ)
      → size_locked q < 63
      → contents (store q msg now) ≡ contents q ++ record { msg = msg; time_ms = now } ∷ []
  contents-store msg now h =
      ap (segment (view (store q msg now)) 0) (size_locked-store msg now h)
      ∙ segment_extend (view q) (view (store q msg now)) (size_locked q)
          (record { msg = msg; time_ms = now })
          (λ j lt. view-store msg now j (omega arith) ∙ rw (==-ne j (size_locked q) (omega arith)))
          (view-store msg now (size_locked q) (omega arith)
            ∙ rw (==-eq (size_locked q) (size_locked q) refl))

  pub size_locked-drop_tail : 0 < size_locked q → suc (size_locked (drop_tail q)) ≡ size_locked q
  unfolding size_locked
  size_locked-drop_tail h = ground arith

  pub drop_tail-IsValid : IsValid (drop_tail q)
  drop_tail-IsValid = ground arith

  -- Moving the tail on drops the oldest entry.
  pub contents-drop_tail : 0 < size_locked q → contents q ≡ view q 0 ∷ contents (drop_tail q)
  contents-drop_tail h =
      ap (segment (view q) 0) (sym (size_locked-drop_tail h))
      ∙ ap (◌∷◌ (view q 0)) (
          sym (
            segment_shift (view q) (view (drop_tail q)) 0 (size_locked (drop_tail q))
              (λ j lo hi. ring_next usb_midi_queue_size q.items q.tail j)))

-- The loop of `removeAtLocked` leaves the indices alone.
pub shift_from_frame :
    (q : UsbMidiQueue) (k rounds : ℕ)
    → ((shift_from q k rounds).head ≡ q.head) × ((shift_from q k rounds).tail ≡ q.tail)
unfolding shift_from
shift_from_frame q k zero = (refl, refl)
shift_from_frame q k (suc rounds) =
    shift_from_frame (record q { items = put q.items (at q k) (q.items (at q (suc k))) }) (suc k)
      rounds

module _ (q : UsbMidiQueue) (k : ℕ) where
  abbrev shifted_once : UsbMidiQueue
  shifted_once = record q { items = put q.items (at q k) (q.items (at q (suc k))) }

  view-shifted_once :
      (j : ℕ)
      → j < usb_midi_queue_size
      → k < usb_midi_queue_size
      → view shifted_once j ≡ (if j == k then view q (suc k) else view q j)
  view-shifted_once j hj hk =
      ring-put usb_midi_queue_size q.items q.tail k (q.items (at q (suc k))) j hj hk

-- It moves the entries behind `k` forward by one, and no other.
pub view-shift_from :
    (q : UsbMidiQueue) (k rounds j : ℕ)
    → k + rounds < usb_midi_queue_size
    → j < usb_midi_queue_size
    → view (shift_from q k rounds) j
      ≡ (if leb k j && ltb j (k + rounds) then view q (suc j) else view q j)
unfolding shift_from
view-shift_from q k zero j h hj = ground arith
view-shift_from q k (suc rounds) j h hj = ground (
  arith,
  view-shift_from (shifted_once q k) (suc k) rounds j,
  view-shifted_once q k j,
  view-shifted_once q k (suc j),
)

module _ {q : UsbMidiQueue} (v : IsValid q) (k : ℕ) (inside : k < size_locked q) where
  pub size_locked-remove_at : suc (size_locked (remove_at_locked q k)) ≡ size_locked q
  unfolding size_locked remove_at_locked
  size_locked-remove_at =
      ground (arith, shift_from_frame q k (size_locked q - 1 - k), head-at v, size_locked-lt v)

  pub remove_at-IsValid : IsValid (remove_at_locked q k)
  unfolding remove_at_locked
  remove_at-IsValid = ground (arith, shift_from_frame q k (size_locked q - 1 - k))

  view-removed :
      (j : ℕ)
      → j < usb_midi_queue_size
      → view (remove_at_locked q k) j
        ≡ (if leb k j && ltb j (k + (size_locked q - 1 - k)) then view q (suc j) else view q j)
  unfolding remove_at_locked
  view-removed j h =
      view-shift_from q k (size_locked q - 1 - k) j (omega (arith, size_locked-lt v)) h

  -- Removing the entry at offset `k` leaves those before it and those behind it, in order.
  pub contents-remove_at :
      contents (remove_at_locked q k)
      ≡ segment (view q) 0 k ++ segment (view q) (suc k) (size_locked q - suc k)
  unfolding remove_at_locked
  contents-remove_at =
      ap (segment (view (remove_at_locked q k)) 0) (omega (arith, size_locked-remove_at))
      ∙ segment_remove (view q) (view (remove_at_locked q k)) k (size_locked q - suc k)
          (λ j lt. view-removed j (omega (arith, size_locked-lt v)) ∙ ground arith)
          (λ j ge lt. view-removed j (omega (arith, size_locked-lt v)) ∙ ground arith)
