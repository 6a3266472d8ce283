-- ===== src/Io/Commands.antt =====
-- include/enomik_io.h: `setupSysExHandlers`, `onSysEx` and `loop`.
use esp_now_midi.Base.{
  ℕ, is_some, false, Option, none, some, List, [], ◌∷◌, ◌++◌, map, if◌then◌else◌,
}
use esp_now_midi.PeerMutes.{max_peers}
use esp_now_midi.Codec.{response_command}
use esp_now_midi.Codec.Command
use esp_now_midi.Handler.Effects.{
  Effect, sent, call_add_peer, call_set_pin_config, call_get_pin_config, call_delete_pin_config,
  call_get_peer, call_set_midi_loopback, call_set_power_save, call_set_name, call_set_raw_stream,
  call_clear_pin_configs, call_get_all_pin_configs, call_get_mac, call_get_all_peers,
  call_get_config, call_get_midi_loopback, call_get_power_save, call_get_name, call_reset,
  call_get_version, send_pin_config_response, send_mac_response, send_version_response,
  send_simple_response, send_delete_response, send_flag_response, send_name_response,
}
use esp_now_midi.Handler.{handle_sys_ex}
use esp_now_midi.Io.State.{Floats, Readings}
use esp_now_midi.Io.Pins.{process_pins}
use esp_now_midi.Io.Preferences.{Nvs}
use esp_now_midi.Io.Configs.{config_index, find_config}
use esp_now_midi.Io.Device.{
  Hooks, Action, at_pin, send_midi, request_add_peer, request_reset, Io, get_name,
  upsert_pin_config, delete_pin_config_at, clear_pin_configs, set_midi_loopback, set_power_save,
  set_name_override, reset_state,
}
use esp_now_midi.Io.Stream.{set_raw_stream, stream_raw_values}
use esp_now_midi.Io.Answers.{
  handler_callbacks, peer_at, actions_of, peer_responses, config_responses, pin_error,
  perform_get_pin_config, perform_get_peer, notify_power_save, config_stream,
}

-- `loop`: its MIDI, and then the raw values
module _ {F S : Type 0} (floats : Floats F) (h : Hooks) where
  unfoldable pub io_loop : Readings → ℕ → Io F S → Io F S × List Action
  unfolding process_pins stream_raw_values actions_of handler_callbacks
  io_loop r now io =
      let pins = process_pins floats r now io.pin_configs io.pin_states in
      let streamed =
        stream_raw_values floats (handler_callbacks h) now (record io { pin_states = pins.0 }) in
      (
        streamed.0,
        (if h.on_midi_send_request then map send_midi pins.1 else []) ++ actions_of h streamed.1,
      )

-- What the callbacks that `setupSysExHandlers` sets do. `mac` is the own address of the device.
module _ {F S : Type 0} (floats : Floats F) (nvs : Nvs S) (firmware_id mac : List ℕ) (h : Hooks)
    (r : Readings) (now : ℕ) where
  unfoldable pub perform_delete_pin_config : ℕ → Option ℕ → Io F S → Io F S × List Action
  unfolding pin_error delete_pin_config_at actions_of send_delete_response
  perform_delete_pin_config pin none io = (io, pin_error h Command.delete_pin_config pin)
  perform_delete_pin_config pin (some i) io =
      (delete_pin_config_at nvs i io, actions_of h (send_delete_response (handler_callbacks h) pin))

  unfoldable pub perform : Effect → Io F S → Io F S × List Action
  unfolding upsert_pin_config perform_get_pin_config find_config perform_delete_pin_config
      config_index perform_get_peer peer_at set_midi_loopback set_power_save set_name_override
      set_raw_stream clear_pin_configs config_responses send_simple_response send_mac_response
      peer_responses config_stream reset_state send_version_response actions_of get_name
      send_flag_response send_name_response send_pin_config_response
  perform (sent bytes) io = (io, actions_of h (sent bytes ∷ []))
  perform (call_add_peer peer) io =
      (io, if is_some h.on_add_peer_request then request_add_peer peer ∷ [] else [])
  perform (call_set_pin_config c) io =
      let changed = upsert_pin_config floats nvs r c io in
      (
        changed.0,
        map at_pin changed.1
            ++ actions_of h (
                send_pin_config_response (handler_callbacks h) c
                  (response_command Command.set_pin_config)),
      )
  perform (call_get_pin_config pin) io =
      (io, perform_get_pin_config h pin (find_config pin io.pin_configs))
  perform (call_delete_pin_config pin) io =
      perform_delete_pin_config pin (config_index pin io.pin_configs) io
  perform (call_get_peer index) io = (io, perform_get_peer h index (peer_at h index))
  perform (call_set_midi_loopback enabled) io =
      let changed = set_midi_loopback nvs enabled io in
      (
        changed,
        actions_of h (
            send_flag_response (handler_callbacks h) (response_command Command.set_midi_loopback)
              changed.midi_loopback),
      )
  perform (call_set_power_save enabled) io =
      let changed = set_power_save nvs enabled io in
      (
        changed,
        notify_power_save h enabled
            ++ actions_of h (
                send_flag_response (handler_callbacks h) (response_command Command.set_power_save)
                  changed.power_save),
      )
  perform (call_set_name name) io =
      let changed = set_name_override nvs name io in
      (
        changed,
        actions_of h (
            send_name_response (handler_callbacks h) (response_command Command.set_name)
              (get_name changed)),
      )
  perform (call_set_raw_stream req) io =
      let changed = set_raw_stream (handler_callbacks h) now req io in
      (changed.0, actions_of h changed.1)
  perform call_clear_pin_configs io = (
    clear_pin_configs nvs io,
    actions_of h
        (send_simple_response (handler_callbacks h) (response_command Command.clear_pin_configs)),
  )
  perform call_get_all_pin_configs io = (
    io,
    actions_of h (
        config_responses h io.pin_configs
        ++ send_simple_response (handler_callbacks h)
            (response_command Command.get_all_pin_configs)),
  )
  perform call_get_mac io = (io, actions_of h (send_mac_response (handler_callbacks h) mac))
  perform call_get_all_peers io = (
    io,
    actions_of h (
        peer_responses h max_peers 0
        ++ send_simple_response (handler_callbacks h) (response_command Command.get_all_peers)),
  )
  perform call_get_config io = (io, actions_of h (config_stream h io))
  perform call_get_midi_loopback io = (
    io,
    actions_of h (
        send_flag_response (handler_callbacks h) (response_command Command.get_midi_loopback)
          io.midi_loopback),
  )
  perform call_get_power_save io = (
    io,
    actions_of h (
        send_flag_response (handler_callbacks h) (response_command Command.get_power_save)
          io.power_save),
  )
  perform call_get_name io = (
    io,
    actions_of h (
        send_name_response (handler_callbacks h) (response_command Command.get_name) (get_name io)),
  )
  perform call_reset io = (
    reset_state nvs firmware_id io,
    notify_power_save h false
        ++ (if h.on_reset_request then request_reset ∷ [] else [])
        ++ actions_of h
            (send_simple_response (handler_callbacks h) (response_command Command.reset)),
  )
  perform call_get_version io = (io, actions_of h (send_version_response (handler_callbacks h)))

  unfoldable pub perform_all : List Effect → Io F S → Io F S × List Action
  unfolding perform
  perform_all [] io = (io, [])
  perform_all (effect ∷ effects) io =
      let first = perform effect io in
      let rest = perform_all effects first.0 in (rest.0, first.1 ++ rest.1)

  -- `onSysEx`
  unfoldable pub on_sys_ex : List ℕ → Io F S → Io F S × List Action
  unfolding perform_all handle_sys_ex handler_callbacks
  on_sys_ex bytes io =
      perform_all (handle_sys_ex (handler_callbacks h) bytes)
        (record io { raw_stream = record io.raw_stream { last_host_msg = now } })
