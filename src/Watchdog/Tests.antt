-- ===== src/Watchdog/Tests.antt =====
-- Small runs of the watchdog.
use esp_now_midi.Base.{
  ℕ, ◌≡◌, refl, ◌⊎◌, true, false, some, List, [], ◌∷◌, arith, ltb, if◌then◌else◌, get_or, u8,
}
use esp_now_midi.Watchdog.{
  off, recover, stay, detach, attach, usual, detached, Inputs, Watchdog, initial, is_recover,
  phase_is_detached, note_host_rx, is_detached,
}
use esp_now_midi.Watchdog.Tick.{
  backoff_from, backoff_for, gate_open, host_recently_active, start_reattach, on_delivered,
  track_suspend, begin_busy, note_longest_busy, track_busy, count_stall, tick_awake, leave_window,
  expire_host_rx, forget_unmounted, note_write, note_delivery, sample, tick_attached, tick_detached,
  tick,
}
use esp_now_midi.Watchdog.Replug.{SuspendCause, StallCause, Detached, tick-detach}
use esp_now_midi.Watchdog.Runs.{
  Event, ticked, mode_set, host_sent, actions, Alternates, actions-Alternates, actions-detached,
}
use esp_now_midi.Watchdog.Descriptor.{
  IsAnswer, find_midi_in_endpoint, walk, next_streaming, is_midi_in, find_midi_in_endpoint-IsAnswer,
}

-- The host has read before; the endpoint is busy since time 0.
abbrev busy : Watchdog
busy = record initial { host_read_this_mount = true; in_flight = true; busy_valid = true }

abbrev awake_at : ℕ → Inputs
awake_at now = record {
  now = now;
  mounted = true;
  suspended = false;
  pending = true;
  tx_blocked = true;
  wrote = false;
  endpoint_known = true;
}

busy_detach : (tick busy (awake_at 600)).1 ≡ detach
unfolding tick tick_attached tick_awake count_stall start_reattach gate_open backoff_for
    backoff_from host_recently_active sample leave_window expire_host_rx forget_unmounted note_write
    note_delivery on_delivered track_suspend track_busy begin_busy note_longest_busy
busy_detach = refl

tick-detach_example :
    (is_recover recover ≡ true)
    × (phase_is_detached usual ≡ false)
    × (true ≡ true)
    × (gate_open (sample busy (awake_at 600)) 600 ≡ true)
    × ((false ≡ true) × SuspendCause (sample busy (awake_at 600)) (awake_at 600)
        ⊎ (false ≡ false) × StallCause (sample busy (awake_at 600)) (awake_at 600))
    × Detached (tick busy (awake_at 600)).0 600
tick-detach_example = tick-detach busy (awake_at 600) busy_detach

abbrev events : List Event
events = ticked (awake_at 600) ∷ host_sent 620 ∷ ticked (awake_at 700) ∷ ticked (awake_at 760) ∷ []

actions_of_events : actions busy events ≡ detach ∷ stay ∷ stay ∷ attach ∷ []
unfolding actions note_host_rx tick tick_attached tick_detached tick_awake count_stall
    start_reattach gate_open backoff_for backoff_from host_recently_active sample leave_window
    expire_host_rx forget_unmounted note_write note_delivery on_delivered track_suspend track_busy
    begin_busy note_longest_busy
actions_of_events = refl

actions-Alternates_example : Alternates (is_detached busy) (actions busy events)
actions-Alternates_example = actions-Alternates busy events

abbrev waiting : Watchdog
waiting = record initial { phase = detached; detached_at = 4294967290 }

-- The clock wraps round while the device is detached.
actions-detached_example :
    actions waiting (ticked (awake_at 100) ∷ mode_set off ∷ ticked (awake_at 144) ∷ [])
    ≡ stay ∷ stay ∷ attach ∷ []
actions-detached_example =
    actions-detached waiting (ticked (awake_at 100) ∷ mode_set off ∷ []) (awake_at 144) refl
      (refl, (refl, tt)) (omega arith)

-- A configuration, an interface for MIDI streaming and its IN endpoint
abbrev descriptor : List ℕ
descriptor =
    9 ∷ 2 ∷ 25 ∷ 0 ∷ 1 ∷ 1 ∷ 0 ∷ 0x80 ∷ 50 ∷ 9 ∷ 4 ∷ 0 ∷ 0 ∷ 1 ∷ 1 ∷ 3 ∷ 0 ∷ 0 ∷ 7 ∷ 5 ∷ 0x81 ∷ 2
    ∷ 64 ∷ 0 ∷ 0 ∷ []

abbrev descriptor_byte : ℕ → ℕ
descriptor_byte j = u8 (get_or descriptor j 0)

descriptor_found : find_midi_in_endpoint descriptor_byte ≡ some 0x81
unfolding find_midi_in_endpoint walk next_streaming is_midi_in
descriptor_found = refl

find_midi_in_endpoint-IsAnswer_example :
    (r : ℕ) × (find_midi_in_endpoint descriptor_byte ≡ some r) × IsAnswer r
find_midi_in_endpoint-IsAnswer_example =
    find_midi_in_endpoint-IsAnswer descriptor_byte (λ j. omega arith)

abbrev longer_byte : ℕ → ℕ
longer_byte j = if ltb j 25 then descriptor_byte j else 255
