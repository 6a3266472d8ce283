-- ===== src/Transport/Recovery.antt =====
-- include/esp_now_midi.h: sends do not stay stuck.
use esp_now_midi.Base.{
  ℕ, is_some, ◌≤◌, ◌<◌, ◌≡◌, refl, ap, ◌∙◌, inl, inr, Option-cases, Bool, some, true, ◌||◌, List,
  [], ◌∷◌, arith, ltb, sub32,
}
use esp_now_midi.Transport.Flight.{
  Flight, Attempt, count_send, enter_send, leave_send, send_one, restarted, stall_restart,
  check_stall, next,
}

unfoldable pub send_each : List Attempt → Flight → Flight
unfolding send_one
send_each [] f = f
send_each (a ∷ attempts) f = send_each attempts (send_one a f)

-- A confirmation is awaited, since the same time, and no restart came in between.
record IsWaiting (f g : Flight) : Type 0 where
  pub waits : (ltb 0 g.in_flight || g.refused_since_confirm) ≡ true
  pub since : g.last_confirm_ms ≡ f.last_confirm_ms
  pub restarts : g.stats.restarts ≡ f.stats.restarts
  pub restart_time : g.last_restart_ms ≡ f.last_restart_ms

send_one-IsWaiting :
    (a : Attempt) (f : Flight)
    → (ltb 0 f.in_flight || f.refused_since_confirm) ≡ true
    → IsWaiting f (send_one a f)
unfolding send_one enter_send leave_send count_send
send_one-IsWaiting a f waits = record {
  waits = ground arith;
  since = ground arith;
  restarts = ground arith;
  restart_time = ground arith;
}

send_each-IsWaiting :
    (attempts : List Attempt) (f : Flight)
    → (ltb 0 f.in_flight || f.refused_since_confirm) ≡ true
    → IsWaiting f (send_each attempts f)
unfolding send_each
send_each-IsWaiting [] f waits = record {
  waits = waits;
  since = refl;
  restarts = refl;
  restart_time = refl;
}
send_each-IsWaiting (a ∷ attempts) f waits =
    let one = send_one-IsWaiting a f waits in
    let rest = send_each-IsWaiting attempts (send_one a f) one.waits in
    record {
      waits = rest.waits;
      since = rest.since ∙ one.since;
      restarts = rest.restarts ∙ one.restarts;
      restart_time = rest.restart_time ∙ one.restart_time;
    }

stall_restart-due :
    (f : Flight) (now : ℕ)
    → (ltb 0 f.in_flight || f.refused_since_confirm) ≡ true
    → 1000 ≤ sub32 now f.last_confirm_ms
    → (0 < f.stats.restarts → 5000 ≤ sub32 now f.last_restart_ms)
    → is_some (stall_restart f now) ≡ true
unfolding stall_restart
stall_restart-due f now waits late backed_off = ground (arith, backed_off)

check_stall-restarted :
    (f : Flight) (now later : ℕ) (wifi : Bool)
    → stall_restart f now ≡ some wifi
    → check_stall f now later ≡ restarted f wifi later
unfolding check_stall
check_stall-restarted f now later wifi asked = rw (asked, check_stall) refl

-- A driver that owes a confirmation, or refused a packet for lack of memory, is restarted by the
-- first check that comes a second or more after the last confirmation, and 5 s or more after the
-- last restart if there was one, however many sends are tried meanwhile and whatever the driver
-- answers to them: the check asks for a restart, which is counted, noted at the time it ends, and
-- leaves no packet in flight; the next packet then goes to the driver.
pub send_each-recovers :
    (attempts : List Attempt) (f : Flight) (now later mac after : ℕ)
    → (ltb 0 f.in_flight || f.refused_since_confirm) ≡ true
    → 1000 ≤ sub32 now f.last_confirm_ms
    → (0 < f.stats.restarts → 5000 ≤ sub32 now f.last_restart_ms)
    → (is_some (stall_restart (send_each attempts f) now) ≡ true)
      × ((check_stall (send_each attempts f) now later).stats.restarts ≡ next f.stats.restarts)
      × ((check_stall (send_each attempts f) now later).last_restart_ms ≡ later)
      × ((check_stall (send_each attempts f) now later).in_flight ≡ 0)
      × ((enter_send (check_stall (send_each attempts f) now later) mac after).1 ≡ true)
unfolding enter_send restarted
send_each-recovers attempts f now later mac after waits late backed_off =
    let kept = send_each-IsWaiting attempts f waits in
    let asked =
      stall_restart-due (send_each attempts f) now kept.waits (omega (arith, kept.since))
        (ground (arith, kept.restarts, kept.restart_time, backed_off)) in
    elim (Option-cases (stall_restart (send_each attempts f) now)) [
      | inl none_eq ↦ absurd (ground (arith, asked, none_eq))
      | inr (wifi, some_eq) ↦
          rw (check_stall-restarted (send_each attempts f) now later wifi some_eq)
            (asked, ap next kept.restarts, refl, refl, refl)
    ]
