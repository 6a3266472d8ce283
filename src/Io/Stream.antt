-- ===== src/Io/Stream.antt =====
-- include/enomik_io.h: the stream of raw values.
use esp_now_midi.Base.{
  ℕ, ◌*◌, ◌/◌, Bool, false, not, ◌&&◌, ◌||◌, List, [], ◌∷◌, ◌++◌, ltb, ◌==◌, ◌!=◌, if◌then◌else◌,
  u8, u16, sub32,
}
use esp_now_midi.Codec.{PinConfig, RawStreamRequest, pin_not_found}
use esp_now_midi.Codec.Command
use esp_now_midi.Handler.Effects.{
  Callbacks, Effect, send_error_response_context, send_raw_stream_response, send_raw_value,
}
use esp_now_midi.Io.State.{Floats, PinState, is_input, raw_value_for}
use esp_now_midi.Io.Device.{
  raw_stream_all_pins, raw_stream_default_ms, raw_stream_min_ms, raw_stream_timeout_ms, Io,
}

-- `found` of `setRawStream`
unfoldable pub has_input : ℕ → List PinConfig → Bool
unfolding is_input
has_input pin [] = false
has_input pin (c ∷ configs) = c.pin == pin && is_input c || has_input pin configs

-- `intervalMs` of `setRawStream`
unfoldable pub stream_interval : ℕ → ℕ
stream_interval interval =
    let asked = if interval != 0 then u16 (interval * 5) else raw_stream_default_ms in
    if ltb asked raw_stream_min_ms then raw_stream_min_ms else asked

module _ {F S : Type 0} (cb : Callbacks) where
  -- `setRawStream`
  unfoldable pub set_raw_stream : ℕ → RawStreamRequest → Io F S → Io F S × List Effect
  unfolding has_input stream_interval send_error_response_context send_raw_stream_response
  set_raw_stream now req io =
      if req.enable && req.pin != raw_stream_all_pins && not (has_input req.pin io.pin_configs)
      then (io, send_error_response_context cb Command.set_raw_stream pin_not_found req.pin)
      else (
        record io {
          raw_stream = record io.raw_stream {
            on = req.enable;
            pin = req.pin;
            interval_ms = stream_interval req.interval;
            last_host_msg = now;
          };
        },
        send_raw_stream_response cb
            (record req { interval = u8 (stream_interval req.interval / 5) }),
      )

module _ {F : Type 0} (floats : Floats F) (cb : Callbacks) where
  -- The loop of `streamRawValues`
  unfoldable pub raw_frames : ℕ → List PinConfig → List (PinState F) → List Effect
  unfolding is_input raw_value_for send_raw_value
  raw_frames pin [] states = []
  raw_frames pin (c ∷ configs) [] = []
  raw_frames pin (c ∷ configs) (s ∷ states) =
      let rest = raw_frames pin configs states in
      if not (is_input c) || pin != raw_stream_all_pins && c.pin != pin
      then rest
      else send_raw_value cb (raw_value_for floats c s) ++ rest

module _ {F S : Type 0} (floats : Floats F) (cb : Callbacks) where
  -- `streamRawValues`
  unfoldable pub stream_raw_values : ℕ → Io F S → Io F S × List Effect
  unfolding raw_frames
  stream_raw_values now io =
      if not io.raw_stream.on
      then (io, [])
      else if ltb raw_stream_timeout_ms (sub32 now io.raw_stream.last_host_msg)
      then (record io { raw_stream = record io.raw_stream { on = false } }, [])
      else if ltb (sub32 now io.raw_stream.last_frame) io.raw_stream.interval_ms
      then (io, [])
      else (
        record io { raw_stream = record io.raw_stream { last_frame = now } },
        raw_frames floats cb io.raw_stream.pin io.pin_configs io.pin_states,
      )
