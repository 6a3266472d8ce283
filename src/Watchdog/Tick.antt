-- ===== src/Watchdog/Tick.antt =====
-- include/UsbStallWatchdog.h: `tick` and what it calls.
use esp_now_midi.Base.{
  ℕ, zero, suc, ◌+◌, ◌-◌, ◌*◌, ◌/◌, Bool, true, false, not, ◌&&◌, ◌||◌, ltb, leb, if◌then◌else◌,
  u32, sub32, signed_ltb32,
}
use esp_now_midi.Watchdog.{
  Action, stay, remote_wakeup, detach, attach, usual, detached, reattached, Config, Inputs,
  Watchdog, is_off, is_recover, phase_is_detached, phase_is_reattached, elapsed, max_u32,
}

-- The loop of `backoffFor`: the rounds that are left, and `delay`.
unfoldable pub backoff_from : Config → ℕ → ℕ → ℕ
backoff_from cfg zero delay = delay
backoff_from cfg (suc rounds) delay =
    let max_ms = cfg.backoff_max_ms in
    if ltb delay max_ms
    then backoff_from cfg rounds (if ltb (max_ms / 2) delay then max_ms else u32 (delay * 2))
    else delay

unfoldable pub backoff_for : Config → ℕ → ℕ
backoff_for cfg attempts =
    let delay = backoff_from cfg (attempts - 1) cfg.backoff_base_ms in
    if ltb delay cfg.backoff_max_ms then delay else cfg.backoff_max_ms

unfoldable pub gate_open : Watchdog → ℕ → Bool
gate_open w now =
    not w.gate_valid
    || leb (backoff_for w.cfg w.attempts_without_delivery) (elapsed now w.last_attempt_at)

unfoldable pub host_recently_active : Watchdog → ℕ → Bool
host_recently_active w now =
    w.host_rx_valid && signed_ltb32 (sub32 now w.last_host_rx_ms) w.cfg.host_active_guard_ms

unfoldable pub start_reattach : Watchdog → ℕ → Watchdog × Action
start_reattach w now =
    let counted : Watchdog = record w {
      stats = record (w.stats) { reattaches = u32 (w.stats.reattaches + 1) };
      attempts_without_delivery = u32 (w.attempts_without_delivery + 1);
      gate_valid = true;
      last_attempt_at = now;
    } in
    if is_recover w.mode
    then (
      record counted { phase = detached; detached_at = now; in_flight = false; busy_valid = false },
      detach,
    )
    else (counted, stay)

unfoldable pub on_delivered : Watchdog → Watchdog
on_delivered w = record w {
  host_read_this_mount = true;
  stats =
      if ltb 0 w.attempts_without_delivery
      then record (w.stats) { recoveries = u32 (w.stats.recoveries + 1) }
      else w.stats;
  attempts_without_delivery = 0;
  gate_valid = false;
  phase = if phase_is_reattached w.phase then usual else w.phase;
}

-- `trackSuspend`: what a new suspend resets, then the longest suspend.
unfoldable pub begin_suspend : Watchdog → ℕ → Watchdog
begin_suspend w now = if w.suspend_valid then w else record w {
  suspend_valid = true;
  suspend_since = now;
  wake_tried = false;
  wake_refused = false;
  reattached_this_suspend = false;
  stats = record (w.stats) { suspends = u32 (w.stats.suspends + 1) };
}

unfoldable pub note_longest_suspend : Watchdog → ℕ → Watchdog
note_longest_suspend w now = record w {
  stats = record (w.stats) {
    longest_suspend_ms = max_u32 w.stats.longest_suspend_ms (elapsed now w.suspend_since);
  };
}

unfoldable pub track_suspend : Watchdog → Inputs → Watchdog
track_suspend w i =
    if i.mounted && i.suspended
    then note_longest_suspend (begin_suspend w i.now) i.now
    else record w { suspend_valid = false }

-- `trackBusy`: the clock restarts on progress, then the longest busy time.
unfoldable pub begin_busy : Watchdog → Inputs → Watchdog
begin_busy w i =
    if not w.busy_valid || i.wrote
    then record w { busy_valid = true; busy_since = i.now; stall_counted = false }
    else w

unfoldable pub note_longest_busy : Watchdog → ℕ → Watchdog
note_longest_busy w now = record w {
  stats = record (w.stats) {
    longest_busy_ms = max_u32 w.stats.longest_busy_ms (elapsed now w.busy_since);
  };
}

unfoldable pub track_busy : Watchdog → Inputs → Bool → Watchdog
track_busy w i awake =
    if awake && i.tx_blocked
    then note_longest_busy (begin_busy w i) i.now
    else record w { busy_valid = false }

unfoldable pub data_waiting : Watchdog → Inputs → Bool
data_waiting w i = i.pending || w.in_flight && i.tx_blocked && w.host_read_this_mount

unfoldable pub tick_suspended : Watchdog → Inputs → Watchdog × Action
tick_suspended w i =
    let may_wake =
      not w.wake_tried
      || not w.wake_refused && leb w.cfg.wake_retry_ms (elapsed i.now w.last_wake_at) in
    let refused =
      is_off w.mode
      || not w.cfg.recover_from_suspend
      || not w.wake_refused
      || w.reattached_this_suspend
      || not (gate_open w i.now) in
    if not (data_waiting w i)
    then (w, stay)
    else if may_wake
    then (
      record w {
        wake_tried = true;
        last_wake_at = i.now;
        stats = record (w.stats) { wakeups_tried = u32 (w.stats.wakeups_tried + 1) };
      },
      remote_wakeup,
    )
    else if refused
    then (w, stay)
    else start_reattach (record w { reattached_this_suspend = true }) i.now

unfoldable pub count_stall : Watchdog → Watchdog
count_stall w = if w.stall_counted then w else record w {
  stall_counted = true;
  stats = record (w.stats) { stalls = u32 (w.stats.stalls + 1) };
}

unfoldable pub tick_awake : Watchdog → Inputs → Watchdog × Action
tick_awake w i =
    let stalled = count_stall w in
    let refused =
      is_off w.mode
      || not i.endpoint_known
      || not w.host_read_this_mount
      || host_recently_active stalled i.now
      || not (gate_open stalled i.now) in
    if not w.busy_valid || ltb (elapsed i.now w.busy_since) w.cfg.stall_ms
    then (w, stay)
    else if refused
    then (stalled, stay)
    else start_reattach stalled i.now

-- The steps of `tick` before `trackSuspend`, one by one.
unfoldable pub leave_window : Watchdog → ℕ → Watchdog
leave_window w now =
    if phase_is_reattached w.phase && leb w.cfg.recovery_window_ms (elapsed now w.reattached_at)
    then record w { phase = usual }
    else w

unfoldable pub expire_host_rx : Watchdog → ℕ → Watchdog
expire_host_rx w now =
    if w.host_rx_valid && not (host_recently_active w now)
    then record w { host_rx_valid = false }
    else w

unfoldable pub forget_unmounted : Watchdog → Inputs → Watchdog
forget_unmounted w i =
    if i.mounted then w else record w { in_flight = false; host_read_this_mount = false }

unfoldable pub note_write : Watchdog → Inputs → Bool → Watchdog
note_write w i awake = if awake && i.wrote then record w { in_flight = true } else w

unfoldable pub note_delivery : Watchdog → Inputs → Bool → Watchdog
note_delivery w i awake =
    if awake && i.endpoint_known && w.in_flight && not i.tx_blocked
    then on_delivered (record w { in_flight = false })
    else w

abbrev pub awake : Inputs → Bool
awake i = i.mounted && not i.suspended

-- `tick` as far as the two `track` calls, when the device is attached
unfoldable pub sample : Watchdog → Inputs → Watchdog
sample w i =
    let up = awake i in
    let entered = expire_host_rx (leave_window w i.now) i.now in
    let delivered = note_delivery (note_write (forget_unmounted entered i) i up) i up in
    track_busy (track_suspend delivered i) i up

unfoldable pub tick_attached : Watchdog → Inputs → Watchdog × Action
tick_attached w i =
    if not i.mounted
    then (sample w i, stay)
    else if i.suspended
    then tick_suspended (sample w i) i
    else tick_awake (sample w i) i

unfoldable pub tick_detached : Watchdog → ℕ → Watchdog × Action
tick_detached w now =
    if leb w.cfg.detach_ms (elapsed now w.detached_at)
    then (record w { phase = reattached; reattached_at = now }, attach)
    else (w, stay)

unfoldable pub tick : Watchdog → Inputs → Watchdog × Action
tick w i = if phase_is_detached w.phase then tick_detached w i.now else tick_attached w i
