-- ===== src/Watchdog/Runs.antt =====
-- include/UsbStallWatchdog.h: runs of the watchdog.
use esp_now_midi.Base.{
  ℕ, ◌≤◌, ◌≡◌, refl, ap, ◌∙◌, Bool, true, false, List, [], ◌∷◌, ◌++◌, map, arith, ltb, All,
}
use esp_now_midi.Watchdog.Replug.{sample-Kept, count_stall-open}
use esp_now_midi.Watchdog.{
  Mode, Action, stay, remote_wakeup, detach, attach, detached, Inputs, Watchdog, phase_is_detached,
  elapsed, set_mode, note_host_rx, note_wakeup_result, is_detached,
}
use esp_now_midi.Watchdog.Tick.{
  start_reattach, tick_suspended, count_stall, tick_awake, sample, tick_attached, tick_detached,
  tick,
}

-- What the caller does: a tick, or one of the reports between two ticks.
pub data Event : Type 0 where
  ticked : Inputs → Event
  mode_set : Mode → Event
  host_sent : ℕ → Event
  wakeup_reported : Bool → Event

abbrev pub step : Watchdog → Event → Watchdog × Action
step w (ticked i) = tick w i
step w (mode_set m) = (set_mode w m, stay)
step w (host_sent now) = (note_host_rx w now, stay)
step w (wakeup_reported accepted) = (note_wakeup_result w accepted, stay)

-- The actions that a run returns, in order
unfoldable pub actions : Watchdog → List Event → List Action
actions w [] = []
actions w (e ∷ es) = (step w e).1 ∷ actions (step w e).0 es

-- The caller's view of the bus: `d` tells whether the device is detached.
abbrev pub Alternates : Bool → List Action → Type 0
Alternates d [] = d ≡ d
Alternates d (stay ∷ xs) = Alternates d xs
Alternates d (remote_wakeup ∷ xs) = (d ≡ false) × Alternates d xs
Alternates d (detach ∷ xs) = (d ≡ false) × Alternates true xs
Alternates d (attach ∷ xs) = (d ≡ true) × Alternates false xs

-- Where an action Leads
abbrev Leads : Bool → Action → Bool → Type 0
Leads d stay d' = d' ≡ d
Leads d remote_wakeup d' = (d ≡ false) × (d' ≡ d)
Leads d detach d' = (d ≡ false) × (d' ≡ true)
Leads d attach d' = (d ≡ true) × (d' ≡ false)

start_reattach-Leads :
    (w : Watchdog) (now : ℕ)
    → phase_is_detached w.phase ≡ false
    → Leads false (start_reattach w now).1 (phase_is_detached (start_reattach w now).0.phase)
unfolding start_reattach
start_reattach-Leads w now h = ground arith

tick_suspended-Leads :
    (w : Watchdog) (i : Inputs)
    → phase_is_detached w.phase ≡ false
    → Leads false (tick_suspended w i).1 (phase_is_detached (tick_suspended w i).0.phase)
unfolding tick_suspended
tick_suspended-Leads w i h =
    ground (arith, start_reattach-Leads (record w { reattached_this_suspend = true }) i.now h)

tick_awake-Leads :
    (w : Watchdog) (i : Inputs)
    → phase_is_detached w.phase ≡ false
    → Leads false (tick_awake w i).1 (phase_is_detached (tick_awake w i).0.phase)
unfolding tick_awake
tick_awake-Leads w i h =
    ground (arith, count_stall-open w i.now, start_reattach-Leads (count_stall w) i.now)

tick-Leads :
    (w : Watchdog) (i : Inputs)
    → Leads (phase_is_detached w.phase) (tick w i).1 (phase_is_detached (tick w i).0.phase)
unfolding tick tick_attached tick_detached
tick-Leads w i =
    ground
      (arith, sample-Kept w i, tick_suspended-Leads (sample w i) i, tick_awake-Leads (sample w i) i)

step-Leads :
    (w : Watchdog) (e : Event) → Leads (is_detached w) (step w e).1 (is_detached (step w e).0)
unfolding is_detached set_mode note_host_rx note_wakeup_result
step-Leads w (ticked i) = tick-Leads w i
step-Leads w (mode_set m) = refl
step-Leads w (host_sent now) = refl
step-Leads w (wakeup_reported accepted) = ground arith

Leads-Alternates :
    (d d' : Bool) (a : Action) (xs : List Action)
    → Leads d a d'
    → Alternates d' xs
    → Alternates d (a ∷ xs)
Leads-Alternates d d' stay xs h rest = rw (← h) rest
Leads-Alternates d d' remote_wakeup xs (up, h) rest = (up, rw (← h) rest)
Leads-Alternates d d' detach xs (up, h) rest = (up, rw (← h) rest)
Leads-Alternates d d' attach xs (up, h) rest = (up, rw (← h) rest)

-- In every run of ticks and reports, detach and attach alternate: a detach is asked for only while
-- the device is attached, an attach only while it is detached, and no wakeup is asked for in
-- between.
pub actions-Alternates :
    (w : Watchdog) (es : List Event) → Alternates (is_detached w) (actions w es)
unfolding actions
actions-Alternates w [] = refl
actions-Alternates w (e ∷ es) =
    Leads-Alternates (is_detached w) (is_detached (step w e).0) (step w e).1
      (actions (step w e).0 es) (step-Leads w e) (actions-Alternates (step w e).0 es)

abbrev pub is_early : ℕ → ℕ → Event → Bool
is_early since ms (ticked i) = ltb (elapsed i.now since) ms
is_early since ms (mode_set m) = true
is_early since ms (host_sent now) = true
is_early since ms (wakeup_reported accepted) = true

-- Between two states of one detach
abbrev Waits : Watchdog → Watchdog → Type 0
Waits v w = (v.phase ≡ detached) × (v.detached_at ≡ w.detached_at) × (v.cfg ≡ w.cfg)

step-early :
    (w : Watchdog) (e : Event)
    → w.phase ≡ detached
    → is_early w.detached_at w.cfg.detach_ms e ≡ true
    → ((step w e).1 ≡ stay) × Waits (step w e).0 w
unfolding tick tick_detached set_mode note_host_rx note_wakeup_result
step-early w (ticked i) h early = ground arith
step-early w (mode_set m) h early = (refl, (h, refl, refl))
step-early w (host_sent now) h early = (refl, (h, refl, refl))
step-early w (wakeup_reported accepted) h early = ground arith

-- A detached device is attached again by the first tick at or after the detach time: whatever is
-- reported or set before it, and at every earlier tick, the watchdog asks for nothing.
pub actions-detached :
    (w : Watchdog) (es : List Event) (i : Inputs)
    → w.phase ≡ detached
    → All (λ e. is_early w.detached_at w.cfg.detach_ms e ≡ true) es
    → w.cfg.detach_ms ≤ elapsed i.now w.detached_at
    → actions w (es ++ ticked i ∷ []) ≡ map (λ _. stay) es ++ attach ∷ []
unfolding actions tick tick_detached
actions-detached w [] i h early due = ground arith
actions-detached w (e ∷ es) i h (first, early) due =
    ap (λ a. a ∷ actions (step w e).0 (es ++ ticked i ∷ [])) (step-early w e h first).0
    ∙ ap (λ xs. stay ∷ xs)
        (actions-detached (step w e).0 es i waits.0 (rw (waits.1, waits.2) early)
          (rw (waits.1, waits.2) due))
  where
    waits : Waits (step w e).0 w
    waits = (step-early w e h first).1
