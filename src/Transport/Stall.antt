-- ===== src/Transport/Stall.antt =====
-- include/esp_now_midi.h: at most one packet is in flight, and a driver that stops confirming is restarted.
use esp_now_midi.Base.{
  ℕ, ◌+◌, ◌^◌, ◌≤◌, ◌<◌, ◌≡◌, refl, sym, ◌∙◌, inl, inr, Bool, true, false, not, ◌&&◌, Option, none,
  some, List, [], ◌∷◌, ◌++◌, arith, ltb, Option-cases, length, sub32,
}
use esp_now_midi.Transport.Flight.{
  EspErr, Flight, no_flight, count_send, enter_send, leave_send, confirm_send, restarted,
  stall_restart, check_stall,
}

-- What the tasks do, one critical section at a time; a check has the time that a restart ends.
pub data Step : Type 0 where
  enters : ℕ → ℕ → Step
  answers : EspErr → ℕ → Step
  confirms : Bool → ℕ → Step
  checks : ℕ → ℕ → Step

unfoldable pub step : Step → Flight → Flight
unfolding enter_send leave_send confirm_send check_stall
step (enters mac now) f = (enter_send f mac now).0
step (answers err now) f = leave_send f err now
step (confirms ok now) f = confirm_send f ok now
step (checks now later) f = check_stall f now later

unfoldable pub run : List Step → Flight → Flight
unfolding step
run [] f = f
run (s ∷ steps) f = run steps (step s f)

step-in_flight : (s : Step) (f : Flight) → f.in_flight ≤ 1 → (step s f).in_flight ≤ 1
unfolding step count_send
step-in_flight (enters mac now) f low = ground arith
step-in_flight (answers err now) f low = ground arith
step-in_flight (confirms ok now) f low = ground arith
step-in_flight (checks now later) f low = ground arith

-- However sends, answers of the driver, confirmations and restarts interleave, at most one packet
-- waits for its confirmation.
pub run-in_flight : (steps : List Step) (f : Flight) → f.in_flight ≤ 1 → (run steps f).in_flight ≤ 1
unfolding run
run-in_flight [] f low = low
run-in_flight (s ∷ steps) f low = run-in_flight steps (step s f) (step-in_flight s f low)

-- What a run makes known: the confirmations, and the restarts with the check that asked for them,
-- the time they ended and whether Wi-Fi was restarted as well.
pub data Entry : Type 0 where
  confirmation : Entry
  restart : ℕ → ℕ → Bool → Entry

unfoldable pub log_of : Step → Flight → List Entry
log_of (confirms ok now) f = confirmation ∷ []
log_of (checks now later) f = elim (stall_restart f now) [
  | none ↦ []
  | some wifi ↦ restart now later wifi ∷ []
]
log_of (enters mac now) f = []
log_of (answers err now) f = []

unfoldable pub log : List Step → Flight → List Entry
unfolding log_of
log [] f = []
log (s ∷ steps) f = log_of s f ++ log steps (step s f)

-- The first restart leaves Wi-Fi alone. A later one is asked for 5 s after the last one ended, or later,
-- and takes Wi-Fi with it when, and only when, no send was confirmed in between.
abbrev pub IsSpaced : Option ℕ → Bool → List Entry → Type 0
IsSpaced last confirmed [] = Unit
IsSpaced last confirmed (confirmation ∷ entries) = IsSpaced last true entries
IsSpaced none confirmed (restart now later wifi ∷ entries) =
    (wifi ≡ false) × IsSpaced (some later) false entries
IsSpaced (some before) confirmed (restart now later wifi ∷ entries) =
    (5000 ≤ sub32 now before) × (wifi ≡ not confirmed) × IsSpaced (some later) false entries

-- What the state knows of the log so far
record Knows (last : Option ℕ) (confirmed : Bool) (f : Flight) : Type 0 where
  pub none_yet : last ≡ none → f.stats.restarts ≡ 0
  pub some_yet :
      (before : ℕ) → last ≡ some before → (0 < f.stats.restarts) × (f.last_restart_ms ≡ before)
  pub confirmed_eq : f.confirmed_since_restart ≡ confirmed

stall_restart-some :
    (f : Flight) (now : ℕ) (wifi : Bool)
    → stall_restart f now ≡ some wifi
    → (wifi ≡ (ltb 0 f.stats.restarts && not f.confirmed_since_restart))
      × (0 < f.stats.restarts → 5000 ≤ sub32 now f.last_restart_ms)
unfolding stall_restart
stall_restart-some f now wifi asked = ground arith

step-restarts : (s : Step) (f : Flight) → (step s f).stats.restarts ≤ f.stats.restarts + 1
unfolding step count_send
step-restarts (enters mac now) f = ground arith
step-restarts (answers err now) f = ground arith
step-restarts (confirms ok now) f = ground arith
step-restarts (checks now later) f = ground arith

restarted_count :
    (f : Flight) (wifi : Bool) (later : ℕ)
    → (restarted f wifi later).stats.restarts ≤ f.stats.restarts + 1
unfolding restarted
restarted_count f wifi later = ground arith

Knows-same :
    (last : Option ℕ) (confirmed : Bool) (f g : Flight)
    → g.stats.restarts ≡ f.stats.restarts
    → g.last_restart_ms ≡ f.last_restart_ms
    → g.confirmed_since_restart ≡ f.confirmed_since_restart
    → Knows last confirmed f
    → Knows last confirmed g
Knows-same last confirmed f g restarts time flag k = record {
  none_yet = λ none_eq. restarts ∙ k.none_yet none_eq;
  some_yet = λ before some_eq. (
    omega (arith, restarts, (k.some_yet before some_eq).0),
    time ∙ (k.some_yet before some_eq).1,
  );
  confirmed_eq = flag ∙ k.confirmed_eq;
}

Knows-enter_send :
    (last : Option ℕ) (confirmed : Bool) (f : Flight) (mac now : ℕ)
    → Knows last confirmed f
    → Knows last confirmed (enter_send f mac now).0
unfolding enter_send
Knows-enter_send last confirmed f mac now k =
    Knows-same last confirmed f (enter_send f mac now).0 (ground arith) (ground arith)
      (ground arith) k

Knows-leave_send :
    (last : Option ℕ) (confirmed : Bool) (f : Flight) (err : EspErr) (now : ℕ)
    → Knows last confirmed f
    → Knows last confirmed (leave_send f err now)
unfolding leave_send count_send
Knows-leave_send last confirmed f err now k =
    Knows-same last confirmed f (leave_send f err now) (ground arith) (ground arith) (ground arith)
      k

Knows-confirm_send :
    (last : Option ℕ) (confirmed : Bool) (f : Flight) (ok : Bool) (now : ℕ)
    → Knows last confirmed f
    → Knows last true (confirm_send f ok now)
unfolding confirm_send
Knows-confirm_send last confirmed f true now k = record {
  none_yet = k.none_yet;
  some_yet = k.some_yet;
  confirmed_eq = refl;
}
Knows-confirm_send last confirmed f false now k = record {
  none_yet = k.none_yet;
  some_yet = k.some_yet;
  confirmed_eq = refl;
}

Knows-restarted :
    (f : Flight) (wifi : Bool) (later : ℕ)
    → f.stats.restarts + 1 < 2 ^ 32
    → Knows (some later) false (restarted f wifi later)
unfolding restarted
Knows-restarted f wifi later room = record {
  none_yet = λ h. ground arith;
  some_yet = λ before h. (omega arith, ground arith);
  confirmed_eq = refl;
}

IsSpaced-restart :
    (last : Option ℕ) (confirmed : Bool) (f : Flight) (now later : ℕ) (wifi : Bool)
    (entries : List Entry)
    → Knows last confirmed f
    → stall_restart f now ≡ some wifi
    → IsSpaced (some later) false entries
    → IsSpaced last confirmed (restart now later wifi ∷ entries)
IsSpaced-restart none confirmed f now later wifi entries k asked rest =
    (ground (arith, (stall_restart-some f now wifi asked).0, k.none_yet refl), rest)
IsSpaced-restart (some before) confirmed f now later wifi entries k asked rest =
    let facts = stall_restart-some f now wifi asked in
    let known = k.some_yet before refl in
    (rw (sym known.1) (facts.1 known.0), ground (arith, facts.0, known.0, k.confirmed_eq), rest)

log-IsSpaced_from :
    (steps : List Step) (last : Option ℕ) (confirmed : Bool) (f : Flight)
    → Knows last confirmed f
    → f.stats.restarts + length steps < 2 ^ 32
    → IsSpaced last confirmed (log steps f)
unfolding log step
log-IsSpaced_from [] last confirmed f k room = tt
log-IsSpaced_from (enters mac now ∷ steps) last confirmed f k room =
    log-IsSpaced_from steps last confirmed (enter_send f mac now).0
      (Knows-enter_send last confirmed f mac now k)
      (omega (arith, step-restarts (enters mac now) f))
log-IsSpaced_from (answers err now ∷ steps) last confirmed f k room =
    log-IsSpaced_from steps last confirmed (leave_send f err now)
      (Knows-leave_send last confirmed f err now k)
      (omega (arith, step-restarts (answers err now) f))
log-IsSpaced_from (confirms ok now ∷ steps) last confirmed f k room =
    log-IsSpaced_from steps last true (confirm_send f ok now)
      (Knows-confirm_send last confirmed f ok now k)
      (omega (arith, step-restarts (confirms ok now) f))
log-IsSpaced_from (checks now later ∷ steps) last confirmed f k room =
    elim (Option-cases (stall_restart f now)) [
      | inl quiet ↦
          rw (quiet, check_stall, log_of) (log-IsSpaced_from steps last confirmed f k (omega arith))
      | inr (wifi, asked) ↦
          rw (asked, check_stall, log_of)
            (IsSpaced-restart last confirmed f now later wifi (log steps (restarted f wifi later)) k
              asked
              (log-IsSpaced_from steps (some later) false (restarted f wifi later)
                (Knows-restarted f wifi later (omega arith))
                (omega (arith, restarted_count f wifi later))))
    ]

-- In every run from the start, the first restart leaves Wi-Fi alone; a later one is asked for at
-- least 5 s after the last one ended, and takes Wi-Fi with it when, and only when, no send was
-- confirmed in between; for fewer than 2^32 steps, so that the counter of restarts does not wrap.
pub log-IsSpaced :
    (steps : List Step) → length steps < 2 ^ 32 → IsSpaced none false (log steps no_flight)
log-IsSpaced steps few =
    log-IsSpaced_from steps none false no_flight
      (record {
        none_yet = λ h. refl;
        some_yet = λ before h. absurd (ground arith);
        confirmed_eq = refl;
      })
      (omega (arith, few))
