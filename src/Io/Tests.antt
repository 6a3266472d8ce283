-- ===== src/Io/Tests.antt =====
-- Examples for the pins of include/enomik_io.h.
use esp_now_midi.Base.{
  ℕ, ◌≤◌, ◌≡◌, refl, true, false, none, some, List, [], ◌∷◌, arith, if◌then◌else◌,
}
use esp_now_midi.Io.Touch.{process_threshold, is_touched, release_at}
use esp_now_midi.Io.Hysteresis.{logged, touch_run, Alternating, Alternating-touch_run}
use esp_now_midi.Io.Liveness.{answers}
use esp_now_midi.Io.Replies.{on_sys_ex-answered}
use esp_now_midi.Handler.Effects.{send_raw_stream_response, send_raw_value, send}
use esp_now_midi.Io.Scaling.{constrain, map_range, snap_to_endpoints}
use esp_now_midi.Codec.{PinConfig, response_command, is_valid, is_version_compatible, get_command}
use esp_now_midi.Codec.Command
use esp_now_midi.Codec.Encode.{packet, encode_pin_config, encode_name}
use esp_now_midi.Io.State.{is_input, Readings, new_pin_state, mode_input, mode_analog_input}
use esp_now_midi.Io.Analog.{analog_value}
use esp_now_midi.Io.Outputs.{output_level, pwm_max_value}
use esp_now_midi.Io.Configs.{find_config}
use esp_now_midi.Io.Names.{load_name, save_name, same_firmware, copy_name}
use esp_now_midi.Io.Device.{Hooks, Io, new_io, begin, send_sys_ex}
use esp_now_midi.Io.Commands.{on_sys_ex}
use esp_now_midi.Io.Stream.{
  has_input, set_raw_stream, raw_frames, stream_interval, stream_raw_values,
}
use esp_now_midi.Io.Answers.{handler_callbacks}
use esp_now_midi.Io.Frames.{StreamEvent, polls, asks, hears, Spaced, stream_run, Spaced-stream_run}
use esp_now_midi.Io.Reload.{load_name-save_name}
use esp_now_midi.Io.Requests.{receive_all}
use esp_now_midi.Io.Upsert.{IsIo, IsIo-receive_all}
use esp_now_midi.Io.Answered.{on_sys_ex-set_get}
use esp_now_midi.Io.Debounce.{polled, reported, polled-reported}
use esp_now_midi.Io.Levels.{analog_value-inverted, output_level-endpoints}
use esp_now_midi.Io.Memory.{floats, Memory, empty, nvs, nvs-IsNvs}

abbrev button : PinConfig
button = record {
  pin = 4;
  mode = mode_input;
  threshold = 0;
  midi_channel = 1;
  midi_type = 0xb0;
  midi_cc = 20;
  midi_note = 20;
  min_midi_value = 127;
  max_midi_value = 0;
}

abbrev slider : PinConfig
slider = record button {
  pin = 5;
  mode = mode_analog_input;
  min_midi_value = 10;
  max_midi_value = 110;
}

abbrev firmware : List ℕ
firmware = 1 ∷ 2 ∷ 3 ∷ 4 ∷ 5 ∷ 6 ∷ 7 ∷ 8 ∷ []

abbrev own_mac : List ℕ
own_mac = 10 ∷ 11 ∷ 12 ∷ 13 ∷ 14 ∷ 15 ∷ []

abbrev hooks : Hooks
hooks = record {
  on_midi_send_request = true;
  on_add_peer_request = none;
  on_get_peer_request = none;
  on_reset_request = true;
  on_power_save_changed = true;
  on_sys_ex_send_request = true;
}

abbrev quiet_pins : Readings
quiet_pins = record {
  digital = λ pin. 0;
  analog = λ pin. 0;
  touch = λ pin. 0;
  sample = λ pin i. 0;
  adc_max_value = 4095;
  touch_available = false;
  touch_rises = false;
}

-- Both pins, a name, power saving, and one pin deleted again
abbrev requests : List (Readings × ℕ × List ℕ)
requests =
    (quiet_pins, 1000, encode_pin_config button Command.set_pin_config)
    ∷ (quiet_pins, 1010, encode_pin_config slider Command.set_pin_config)
    ∷ (quiet_pins, 1020, encode_name (65 ∷ 66 ∷ []) Command.set_name)
    ∷ (quiet_pins, 1030, packet Command.set_power_save (1 ∷ []))
    ∷ (quiet_pins, 1040, packet Command.delete_pin_config (4 ∷ []))
    ∷ []

abbrev started : Io ℕ Memory
started = (begin floats nvs firmware quiet_pins (new_io empty)).0

IsIo-receive_all_example : IsIo (receive_all floats nvs firmware own_mac hooks requests started)
unfolding begin
IsIo-receive_all_example =
    IsIo-receive_all floats nvs firmware own_mac hooks requests started
      (record { aligned = refl; apart = tt })

abbrev with_slider : Io ℕ Memory
with_slider = record (new_io empty) {
  pin_configs = slider ∷ [];
  pin_states = new_pin_state floats ∷ [];
}

on_sys_ex-set_get_example :
    let after =
      (on_sys_ex floats nvs firmware own_mac hooks quiet_pins 1000
        (encode_pin_config button Command.set_pin_config)
        with_slider).0 in
    ((on_sys_ex floats nvs firmware own_mac hooks quiet_pins 1010
        (packet Command.get_pin_config (4 ∷ []))
        after).1
      ≡ send_sys_ex (encode_pin_config button (response_command Command.get_pin_config)) ∷ [])
    × ((on_sys_ex floats nvs firmware own_mac hooks quiet_pins 1010
          (packet Command.get_pin_config (5 ∷ []))
          after).1
        ≡ send_sys_ex (encode_pin_config slider (response_command Command.get_pin_config)) ∷ [])
unfolding find_config
on_sys_ex-set_get_example =
    on_sys_ex-set_get floats nvs firmware own_mac hooks button slider with_slider quiet_pins
      quiet_pins 1000 1010 (record { aligned = refl; apart = (refl, tt) }) (omega arith)
      (omega arith) refl (omega arith) refl

-- Released at 0, bouncing at 100 to 103, and held from 105 to 110
abbrev presses : List (ℕ × ℕ)
presses = (110, 0) ∷ (105, 0) ∷ (103, 1) ∷ (102, 0) ∷ (100, 1) ∷ (0, 1) ∷ []

polled-reported_example :
    (polled button (new_pin_state floats) presses).last_value ≡ reported presses
polled-reported_example = polled-reported button (new_pin_state floats) refl refl presses

-- The bounce is not reported, and the level that was held is.
held : reported presses ≡ some 0
unfolding reported
held = refl

bounced : reported ((103, 1) ∷ (102, 0) ∷ (100, 1) ∷ (0, 1) ∷ []) ≡ some 1
unfolding reported
bounced = refl

load_name-save_name_example :
    (load_name nvs firmware (save_name nvs (65 ∷ 66 ∷ []) started.store)).0
    ≡ (if same_firmware nvs firmware started.store then copy_name (65 ∷ 66 ∷ []) else [])
load_name-save_name_example =
    load_name-save_name nvs nvs-IsNvs firmware (65 ∷ 66 ∷ []) started.store

renamed : (load_name nvs firmware (save_name nvs (65 ∷ 66 ∷ []) started.store)).0 ≡ 65 ∷ 66 ∷ []
unfolding load_name save_name begin
renamed = refl

halfway : analog_value 4095 slider 2000 ≡ 58
unfolding analog_value snap_to_endpoints constrain map_range
halfway = refl

analog_value-inverted_example :
    analog_value 4095 (record slider { min_midi_value = 110; max_midi_value = 10 }) 2000 ≡ 110
analog_value-inverted_example =
    analog_value-inverted 4095 2000 (record slider { min_midi_value = 110; max_midi_value = 10 })
      (omega arith) (omega arith)

output_level-endpoints_example :
    (output_level 127 127 0 ≡ 0) × (output_level 0 127 0 ≡ pwm_max_value)
output_level-endpoints_example = output_level-endpoints 127 0 (omega arith)

abbrev streaming : Io ℕ Memory
streaming = record with_slider {
  raw_stream = record {
    on = true;
    pin = 127;
    interval_ms = 50;
    last_frame = 1000;
    last_host_msg = 900;
  };
}

-- A request of an unknown kind
on_sys_ex-answered_example :
    1
    ≤ answers
        (on_sys_ex floats nvs firmware own_mac hooks quiet_pins 1000 (packet 63 []) with_slider).1
unfolding packet is_valid is_version_compatible get_command
on_sys_ex-answered_example =
    on_sys_ex-answered floats nvs firmware own_mac hooks refl quiet_pins 1000 (packet 63 [])
      with_slider refl

-- Polls every 10 milliseconds, and a request for a frame every 100
abbrev stream_events : List StreamEvent
stream_events =
    polls 1045
    ∷ polls 1055
    ∷ asks 1060 (record { pin = 5; enable = true; interval = 20 })
    ∷ polls 1110
    ∷ hears 1150
    ∷ polls 1160
    ∷ []

Spaced-stream_run_example :
    Spaced (stream_run floats (handler_callbacks hooks) stream_events streaming []).1
Spaced-stream_run_example =
    Spaced-stream_run floats (handler_callbacks hooks) 1000 stream_events streaming
      (
        omega arith,
        omega arith,
        (
          omega arith,
          omega arith,
          (
            omega arith,
            omega arith,
            (omega arith, omega arith, (omega arith, omega arith, (omega arith, omega arith, tt))),
          ),
        ),
      )
      (omega arith) (omega arith)

framed :
    (stream_run floats (handler_callbacks hooks) stream_events streaming []).1 ≡ 1160 ∷ 1055 ∷ []
unfolding stream_run stream_raw_values set_raw_stream stream_interval raw_frames send_raw_value send
    handler_callbacks is_input has_input send_raw_stream_response
framed = refl

abbrev touch_pad : PinConfig
touch_pad = record slider { mode = 5; threshold = 20 }

-- Rising past the threshold, resting between both limits, and let go
abbrev touch_polls : List (ℕ × ℕ)
touch_polls = (10, 5) ∷ (20, 22) ∷ (30, 17) ∷ (40, 14) ∷ (42, 30) ∷ []

Alternating-touch_run_example :
    Alternating touch_pad (touch_run touch_pad touch_polls (new_pin_state floats) [])
Alternating-touch_run_example =
    Alternating-touch_run touch_pad touch_polls (new_pin_state floats) refl

-- The second touch follows too soon.
switched_twice :
    touch_run touch_pad touch_polls (new_pin_state floats) []
    ≡ record { time = 40; percent = 14; touching = false; value = 10 }
      ∷ record { time = 20; percent = 22; touching = true; value = 110 }
      ∷ []
unfolding touch_run process_threshold logged is_touched release_at
switched_twice = refl
