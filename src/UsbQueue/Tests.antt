-- ===== src/UsbQueue/Tests.antt =====
-- A small queue, filled and aged.
use esp_now_midi.Base.{ℕ, ◌+◌, ◌≡◌, refl, true, [], ◌∷◌, arith, put}
use esp_now_midi.Midi.{MidiMessage}
use esp_now_midi.UsbQueue.{
  Entry, UsbMidiQueue, is_release, size_locked, enqueue, drop_stale_clock, drop_stale_entries,
  compact_stale_locked, compact_from, keep_at, has_newer_state_locked, newer_from, is_state,
  same_state, drop_stale, pending_count,
}
use esp_now_midi.UsbQueue.Slots.{IsValid, contents}
use esp_now_midi.UsbQueue.Policy.{releases, enqueue_list, last_state}
use esp_now_midi.UsbQueue.Enqueue.{contents-enqueue}
use esp_now_midi.UsbQueue.Stale.{drop_stale_list, contents-drop_stale}
use esp_now_midi.UsbQueue.Promises.{fresh, AgesFall, drop_stale_keeps}

abbrev cc_msg : ℕ → MidiMessage
cc_msg value = record { channel = 1; status = 0xb0; first_byte = 7; second_byte = value }

abbrev note_off : MidiMessage
note_off = record { channel = 1; status = 0x80; first_byte = 60; second_byte = 0 }

abbrev old_entry : Entry
old_entry = record { msg = cc_msg 10; time_ms = 0 }

-- Round the end of the array: a controller value, a note off, a newer controller value.
abbrev sample : UsbMidiQueue
sample = record {
  items =
      put (put (put (λ _. old_entry) 63 old_entry) 0 (record { msg = note_off; time_ms = 1 })) 1
        (record { msg = cc_msg 20; time_ms = 2 });
  head = 2;
  tail = 63;
  pending_clock = true;
  clock_time_ms = 900;
  stale_drops = 0;
  overflow_drops = 0;
}

sample-IsValid : IsValid sample
sample-IsValid = omega arith

sample_size : size_locked sample ≡ 3
unfolding size_locked
sample_size = refl

-- At 900 ms all three are older than 500 ms: the first controller value goes.
contents-sample_dropped :
    contents (drop_stale sample 900 500).0
    ≡ record { msg = note_off; time_ms = 1 } ∷ record { msg = cc_msg 20; time_ms = 2 } ∷ []
unfolding drop_stale drop_stale_clock drop_stale_entries compact_stale_locked compact_from keep_at
    has_newer_state_locked newer_from is_release is_state same_state size_locked put
contents-sample_dropped = refl

contents-enqueue_example :
    (contents (enqueue sample note_off 5)
      ≡ enqueue_list (contents sample) (record { msg = note_off; time_ms = 5 }))
    × IsValid (enqueue sample note_off 5)
contents-enqueue_example = contents-enqueue sample note_off 5 sample-IsValid

drop_stale_keeps_example :
    let ys = contents (drop_stale sample 900 500).0 in
    (releases ys ≡ releases (contents sample))
    × (fresh 900 500 ys ≡ fresh 900 500 (contents sample))
    × ((m : MidiMessage) → last_state m ys ≡ last_state m (contents sample))
drop_stale_keeps_example = drop_stale_keeps sample 900 500 sample-IsValid

contents-drop_stale_example :
    let (q', dropped) = drop_stale sample 900 500 in
    (contents q' ≡ drop_stale_list 900 500 (contents sample))
    × (pending_count q' + dropped ≡ pending_count sample)
    × IsValid q'
contents-drop_stale_example = contents-drop_stale sample 900 500 sample-IsValid (omega arith)

sample-AgesFall : AgesFall 900 (contents sample)
unfolding size_locked put
sample-AgesFall = omega arith
