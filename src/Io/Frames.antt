-- ===== src/Io/Frames.antt =====
-- include/enomik_io.h: when raw values are sent.
use esp_now_midi.Base.{
  ℕ, ◌+◌, ◌^◌, ◌≤◌, ◌<◌, inl, inr, Bool, true, false, not, ◌&&◌, List, [], ◌∷◌, arith, ltb, ◌!=◌,
  if◌then◌else◌, Bool-cases, sub32,
}
use esp_now_midi.Codec.{RawStreamRequest}
use esp_now_midi.Handler.Effects.{Callbacks}
use esp_now_midi.Io.State.{Floats}
use esp_now_midi.Io.Device.{raw_stream_all_pins, raw_stream_min_ms, raw_stream_timeout_ms, Io}
use esp_now_midi.Io.Stream.{
  raw_frames, has_input, stream_interval, set_raw_stream, stream_raw_values,
}

-- What happens to the stream: a round of `loop`, a request for it, and any SysEx of the host
pub data StreamEvent : Type 0 where
  polls : ℕ → StreamEvent
  asks : ℕ → RawStreamRequest → StreamEvent
  hears : ℕ → StreamEvent

abbrev pub time_of : StreamEvent → ℕ
time_of (polls now) = now
time_of (asks now req) = now
time_of (hears now) = now

-- The times of the events do not go back and the counter does not wrap around.
abbrev pub Rising : ℕ → List StreamEvent → Type 0
Rising clock [] = Unit
Rising clock (event ∷ events) =
    (clock ≤ time_of event) × (time_of event < 2 ^ 32) × Rising (time_of event) events

abbrev pub is_nil {ℓ} : {A : Type ℓ} → List A → Bool
is_nil [] = true
is_nil (x ∷ xs) = false

-- Times, the latest first, each at least 20 milliseconds after the one before
abbrev pub Spaced : List ℕ → Type 0
Spaced [] = Unit
Spaced (t ∷ []) = Unit
Spaced (t ∷ u ∷ times) = (u + raw_stream_min_ms ≤ t) × Spaced (u ∷ times)

abbrev AtMost : ℕ → List ℕ → Type 0
AtMost latest [] = Unit
AtMost latest (t ∷ times) = t ≤ latest

AtMost-later : (a b : ℕ) (times : List ℕ) → a ≤ b → AtMost a times → AtMost b times
AtMost-later a b [] l v = tt
AtMost-later a b (t ∷ times) l v = omega arith

Spaced-next :
    (now last : ℕ) (times : List ℕ)
    → last + raw_stream_min_ms ≤ now
    → AtMost last times
    → Spaced times
    → Spaced (now ∷ times)
Spaced-next now last [] l v s = tt
Spaced-next now last (t ∷ times) l v s = (omega arith, s)

module _ {F S : Type 0} (floats : Floats F) (cb : Callbacks) where
  -- The device after the events, and the times at which it sent frames
  unfoldable pub stream_run : List StreamEvent → Io F S → List ℕ → Io F S × List ℕ
  unfolding stream_raw_values set_raw_stream
  stream_run [] io times = (io, times)
  stream_run (polls now ∷ events) io times =
      let polled = stream_raw_values floats cb now io in
      stream_run events polled.0 (if is_nil polled.1 then times else now ∷ times)
  stream_run (asks now req ∷ events) io times =
      stream_run events (set_raw_stream cb now req io).0 times
  stream_run (hears now ∷ events) io times =
      stream_run events (record io { raw_stream = record io.raw_stream { last_host_msg = now } })
        times

  record IsStream (clock : ℕ) (io : Io F S) (times : List ℕ) : Type 0 where
    slow : raw_stream_min_ms ≤ io.raw_stream.interval_ms
    past : io.raw_stream.last_frame ≤ clock
    spaced : Spaced times
    recent : AtMost io.raw_stream.last_frame times

  IsStream-stream_raw_values :
      (clock now : ℕ) (io : Io F S) (times : List ℕ)
      → clock ≤ now
      → now < 2 ^ 32
      → IsStream clock io times
      → let polled = stream_raw_values floats cb now io in
        IsStream now polled.0 (if is_nil polled.1 then times else now ∷ times)
  unfolding stream_raw_values
  IsStream-stream_raw_values clock now io times l small v =
      let later : io.raw_stream.last_frame ≤ now = omega (arith, v.past) in
      elim (Bool-cases io.raw_stream.on) [
        | inr off ↦
            rw (off, stream_raw_values)
              (record { slow = v.slow; past = later; spaced = v.spaced; recent = v.recent })
        | inl on ↦
            elim (Bool-cases (ltb raw_stream_timeout_ms (sub32 now io.raw_stream.last_host_msg))) [
              | inl idle ↦
                  rw (on, idle, stream_raw_values)
                    (record { slow = v.slow; past = later; spaced = v.spaced; recent = v.recent })
              | inr heard ↦
                  elim (Bool-cases
                    (ltb (sub32 now io.raw_stream.last_frame) io.raw_stream.interval_ms)) [
                      | inl early ↦
                          rw (on, heard, early, stream_raw_values)
                            (record {
                              slow = v.slow;
                              past = later;
                              spaced = v.spaced;
                              recent = v.recent;
                            })
                      | inr due ↦
                          let unsent =
                            is_nil (
                              raw_frames floats cb io.raw_stream.pin io.pin_configs
                                io.pin_states) in
                          let gap : io.raw_stream.last_frame + raw_stream_min_ms ≤ now =
                            ground (arith, due, v.slow, v.past) in
                          rw (on, heard, due, stream_raw_values)
                            (record {
                              slow = v.slow;
                              past = omega arith;
                              spaced = elim (Bool-cases unsent) [
                                | inl none_sent ↦ rw none_sent v.spaced
                                | inr some_sent ↦ rw some_sent (
                                    Spaced-next now io.raw_stream.last_frame times gap v.recent
                                      v.spaced)
                              ];
                              recent = elim (Bool-cases unsent) [
                                | inl none_sent ↦ rw none_sent (
                                    AtMost-later io.raw_stream.last_frame now times (omega arith)
                                      v.recent)
                                | inr some_sent ↦ rw some_sent (omega arith)
                              ];
                            })
                    ]
            ]
      ]

  IsStream-set_raw_stream :
      (clock now : ℕ) (req : RawStreamRequest) (io : Io F S) (times : List ℕ)
      → clock ≤ now
      → IsStream clock io times
      → IsStream now (set_raw_stream cb now req io).0 times
  unfolding set_raw_stream stream_interval
  IsStream-set_raw_stream clock now req io times l v =
      elim (Bool-cases
        (req.enable && req.pin != raw_stream_all_pins && not (has_input req.pin io.pin_configs))) [
          | inl refused ↦
              rw (refused, set_raw_stream)
                (record {
                  slow = v.slow;
                  past = omega (arith, v.past);
                  spaced = v.spaced;
                  recent = v.recent;
                })
          | inr taken ↦
              rw (taken, set_raw_stream)
                (record {
                  slow = ground arith;
                  past = omega (arith, v.past);
                  spaced = v.spaced;
                  recent = v.recent;
                })
        ]

  Spaced-stream_run_from :
      (clock : ℕ) (events : List StreamEvent) (io : Io F S) (times : List ℕ)
      → Rising clock events
      → IsStream clock io times
      → Spaced (stream_run events io times).1
  unfolding stream_run
  Spaced-stream_run_from clock [] io times rising v = v.spaced
  Spaced-stream_run_from clock (polls now ∷ events) io times rising v =
      Spaced-stream_run_from now events _ _ rising.2
        (IsStream-stream_raw_values clock now io times rising.0 rising.1 v)
  Spaced-stream_run_from clock (asks now req ∷ events) io times rising v =
      Spaced-stream_run_from now events _ _ rising.2
        (IsStream-set_raw_stream clock now req io times rising.0 v)
  Spaced-stream_run_from clock (hears now ∷ events) io times rising v =
      Spaced-stream_run_from now events _ _ rising.2 (record {
        slow = v.slow;
        past = omega (arith, v.past, rising.0);
        spaced = v.spaced;
        recent = v.recent;
      })

  -- Whatever the host asks for and whenever the device polls, two rounds of raw values are at least 20
  -- milliseconds apart, from a device whose interval is not shorter and whose last round is not later
  -- than the first event, in the 49 days in which the counter of milliseconds does not wrap around.
  pub Spaced-stream_run :
      (clock : ℕ) (events : List StreamEvent) (io : Io F S)
      → Rising clock events
      → raw_stream_min_ms ≤ io.raw_stream.interval_ms
      → io.raw_stream.last_frame ≤ clock
      → Spaced (stream_run events io []).1
  Spaced-stream_run clock events io rising slow past =
      Spaced-stream_run_from clock events io [] rising
        (record { slow = slow; past = past; spaced = tt; recent = tt })
