-- ===== src/Watchdog/Replug.antt =====
-- include/UsbStallWatchdog.h: when `tick` detaches the device.
use esp_now_midi.Base.{ℕ, ◌≤◌, ◌≡◌, ◌⊎◌, Bool, true, false, arith}
use esp_now_midi.Watchdog.{
  detach, detached, Inputs, Watchdog, is_recover, phase_is_detached, elapsed,
}
use esp_now_midi.Watchdog.Tick.{
  gate_open, host_recently_active, start_reattach, on_delivered, begin_suspend,
  note_longest_suspend, track_suspend, begin_busy, note_longest_busy, track_busy, data_waiting,
  tick_suspended, count_stall, tick_awake, leave_window, expire_host_rx, forget_unmounted,
  note_write, note_delivery, awake, sample, tick_attached, tick_detached, tick,
}

-- What the steps before the decision leave alone.
abbrev pub Kept : Watchdog → Watchdog → Type 0
Kept v w =
    (v.mode ≡ w.mode) × (v.cfg ≡ w.cfg) × (phase_is_detached v.phase ≡ phase_is_detached w.phase)

leave_window-Kept : (w : Watchdog) (now : ℕ) → Kept (leave_window w now) w
unfolding leave_window
leave_window-Kept w now = ground arith

expire_host_rx-Kept : (w : Watchdog) (now : ℕ) → Kept (expire_host_rx w now) w
unfolding expire_host_rx
expire_host_rx-Kept w now = ground arith

forget_unmounted-Kept : (w : Watchdog) (i : Inputs) → Kept (forget_unmounted w i) w
unfolding forget_unmounted
forget_unmounted-Kept w i = ground arith

note_write-Kept : (w : Watchdog) (i : Inputs) (up : Bool) → Kept (note_write w i up) w
unfolding note_write
note_write-Kept w i up = ground arith

note_delivery-Kept : (w : Watchdog) (i : Inputs) (up : Bool) → Kept (note_delivery w i up) w
unfolding note_delivery on_delivered
note_delivery-Kept w i up = ground arith

begin_suspend-Kept : (w : Watchdog) (now : ℕ) → Kept (begin_suspend w now) w
unfolding begin_suspend
begin_suspend-Kept w now = ground arith

track_suspend-Kept : (w : Watchdog) (i : Inputs) → Kept (track_suspend w i) w
unfolding track_suspend note_longest_suspend
track_suspend-Kept w i = ground (arith, begin_suspend-Kept w i.now)

begin_busy-Kept : (w : Watchdog) (i : Inputs) → Kept (begin_busy w i) w
unfolding begin_busy
begin_busy-Kept w i = ground arith

track_busy-Kept : (w : Watchdog) (i : Inputs) (up : Bool) → Kept (track_busy w i up) w
unfolding track_busy note_longest_busy
track_busy-Kept w i up = ground (arith, begin_busy-Kept w i)

pub sample-Kept : (w : Watchdog) (i : Inputs) → Kept (sample w i) w
unfolding sample
sample-Kept w i = ground (
  arith,
  leave_window-Kept w i.now,
  expire_host_rx-Kept (leave_window w i.now) i.now,
  forget_unmounted-Kept (expire_host_rx (leave_window w i.now) i.now) i,
  note_write-Kept (forget_unmounted (expire_host_rx (leave_window w i.now) i.now) i) i (awake i),
  note_delivery-Kept
      (note_write (forget_unmounted (expire_host_rx (leave_window w i.now) i.now) i) i (awake i)) i
      (awake i),
  track_suspend-Kept
      (note_delivery
        (note_write (forget_unmounted (expire_host_rx (leave_window w i.now) i.now) i) i (awake i))
        i (awake i))
      i,
  track_busy-Kept
      (track_suspend
        (note_delivery
          (note_write (forget_unmounted (expire_host_rx (leave_window w i.now) i.now) i) i
            (awake i))
          i (awake i))
        i)
      i (awake i),
)

-- What a suspended host must have done.
abbrev pub SuspendCause : Watchdog → Inputs → Type 0
SuspendCause v i =
    (data_waiting v i ≡ true)
    × (v.cfg.recover_from_suspend ≡ true)
    × (v.wake_tried ≡ true)
    × (v.wake_refused ≡ true)
    × (v.reattached_this_suspend ≡ false)

-- What an awake host must have done.
abbrev pub StallCause : Watchdog → Inputs → Type 0
StallCause v i =
    (i.endpoint_known ≡ true)
    × (v.host_read_this_mount ≡ true)
    × (v.busy_valid ≡ true)
    × (v.cfg.stall_ms ≤ elapsed i.now v.busy_since)
    × (host_recently_active v i.now ≡ false)

abbrev pub Detached : Watchdog → ℕ → Type 0
Detached v now = (v.phase ≡ detached) × (v.detached_at ≡ now)

start_reattach-detach :
    (w : Watchdog) (now : ℕ)
    → (start_reattach w now).1 ≡ detach
    → (is_recover w.mode ≡ true) × Detached (start_reattach w now).0 now
unfolding start_reattach
start_reattach-detach w now h = ground arith

tick_suspended-detach :
    (w : Watchdog) (i : Inputs)
    → (tick_suspended w i).1 ≡ detach
    → (is_recover w.mode ≡ true)
      × (gate_open w i.now ≡ true)
      × SuspendCause w i
      × Detached (tick_suspended w i).0 i.now
unfolding tick_suspended
tick_suspended-detach w i h =
    ground (arith, start_reattach-detach (record w { reattached_this_suspend = true }) i.now)

pub count_stall-open :
    (w : Watchdog) (now : ℕ)
    → (gate_open (count_stall w) now ≡ gate_open w now)
      × (host_recently_active (count_stall w) now ≡ host_recently_active w now)
      × ((count_stall w).mode ≡ w.mode)
      × ((count_stall w).phase ≡ w.phase)
unfolding count_stall gate_open host_recently_active
count_stall-open w now = ground arith

tick_awake-detach :
    (w : Watchdog) (i : Inputs)
    → (tick_awake w i).1 ≡ detach
    → (is_recover w.mode ≡ true)
      × (gate_open w i.now ≡ true)
      × StallCause w i
      × Detached (tick_awake w i).0 i.now
unfolding tick_awake
tick_awake-detach w i h =
    ground (arith, count_stall-open w i.now, start_reattach-detach (count_stall w) i.now)

-- When `tick` asks for a detach, the mode is Recover, the device was attached and is mounted, and
-- in the state after the bookkeeping of this tick the backoff gate is open, and either the bus is
-- suspended with data waiting, the configuration allows it, a wakeup was tried and refused, and
-- nothing was re-attached in this suspend; or the bus is awake with an endpoint that is known, has
-- been read from in this connection and was busy for the stall time, and the host was not active
-- of late. The state that `tick` returns is detached at that time.
pub tick-detach :
    (w : Watchdog) (i : Inputs)
    → (tick w i).1 ≡ detach
    → (is_recover w.mode ≡ true)
      × (phase_is_detached w.phase ≡ false)
      × (i.mounted ≡ true)
      × (gate_open (sample w i) i.now ≡ true)
      × ((i.suspended ≡ true) × SuspendCause (sample w i) i
          ⊎ (i.suspended ≡ false) × StallCause (sample w i) i)
      × Detached (tick w i).0 i.now
unfolding tick tick_attached tick_detached
tick-detach w i h =
    ground (
      arith,
      sample-Kept w i,
      tick_suspended-detach (sample w i) i,
      tick_awake-detach (sample w i) i,
    )
