-- ===== src/Io/Liveness.antt =====
-- include/enomik_io.h: what each command sends.
use esp_now_midi.Base.{
  ℕ, suc, ◌+◌, ◌≤◌, ◌≡◌, refl, inl, inr, Bool, true, false, not, ◌&&◌, Option, none, some, List, [],
  ◌∷◌, ◌++◌, arith, ◌!=◌, if◌then◌else◌, Bool-cases, length, All,
}
use esp_now_midi.Codec.{to_midi_message, response_command}
use esp_now_midi.Codec.Encode.{encode_simple_response}
use esp_now_midi.PeerMutes.{max_peers}
use esp_now_midi.Io.Device.{raw_stream_all_pins}
use esp_now_midi.Codec.{PinConfig, RawStreamRequest}
use esp_now_midi.Handler.Effects.{
  Effect, sent, call_add_peer, call_set_pin_config, call_get_pin_config, call_delete_pin_config,
  call_get_peer, call_set_midi_loopback, call_set_power_save, call_set_name, call_set_raw_stream,
  call_clear_pin_configs, call_get_all_pin_configs, call_get_mac, call_get_all_peers,
  call_get_config, call_get_midi_loopback, call_get_power_save, call_get_name, call_reset,
  call_get_version,
}
use esp_now_midi.Io.State.{Floats, Readings}
use esp_now_midi.Io.Preferences.{Nvs}
use esp_now_midi.Io.Configs.{config_index}
use esp_now_midi.Io.Device.{raw_stream_all_pins, Hooks, Action, Io}
use esp_now_midi.Io.Stream.{has_input, set_raw_stream}
use esp_now_midi.Io.Answers.{handler_callbacks}
use esp_now_midi.Io.Commands.{perform_delete_pin_config, perform, perform_all}
use esp_now_midi.Codec.Command
use esp_now_midi.Handler.Effects.{
  send, send_error_response_context, send_pin_config_response, send_mac_response,
  send_version_response, send_simple_response, send_delete_response, send_peer_response,
  send_byte_response, send_flag_response, send_name_response, send_raw_stream_response,
}
use esp_now_midi.Io.Answers.{
  actions_of, perform_get_pin_config, perform_get_peer, pin_error, notify_power_save,
  config_responses, peer_responses, config_stream, peer_at,
}
use esp_now_midi.Io.Configs.{find_config}
use esp_now_midi.Io.Device.{
  at_pin, send_midi, send_sys_ex, request_add_peer, power_save_changed, request_reset,
}

-- How many SysEx messages are sent
unfoldable pub answers : List Action → ℕ
answers [] = 0
answers (send_sys_ex bytes ∷ actions) = suc (answers actions)
answers (action ∷ actions) = answers actions

answers-append : (xs ys : List Action) → answers (xs ++ ys) ≡ answers xs + answers ys
unfolding answers
answers-append [] ys = omega arith
answers-append (send_sys_ex bytes ∷ xs) ys = omega (arith, answers-append xs ys)
answers-append (at_pin action ∷ xs) ys = answers-append xs ys
answers-append (send_midi message ∷ xs) ys = answers-append xs ys
answers-append (request_add_peer mac ∷ xs) ys = answers-append xs ys
answers-append (power_save_changed enabled ∷ xs) ys = answers-append xs ys
answers-append (request_reset ∷ xs) ys = answers-append xs ys

abbrev pub is_add_peer : Effect → Bool
is_add_peer (call_add_peer mac) = true
is_add_peer effect = false

module _ (h : Hooks) (sends : h.on_sys_ex_send_request ≡ true) where
  answers-sent : (bytes : List ℕ) → answers (actions_of h (sent bytes ∷ [])) ≡ 1
  unfolding answers actions_of
  answers-sent bytes = rw (sends, actions_of) refl

  -- What comes before takes no answer away.
  answers-suffix :
      (effects rest : List Effect)
      → 1 ≤ answers (actions_of h rest)
      → 1 ≤ answers (actions_of h (effects ++ rest))
  unfolding answers actions_of
  answers-suffix [] rest v = v
  answers-suffix (sent other ∷ effects) rest v = rw (sends, actions_of) (omega arith)
  answers-suffix (effect ∷ effects) rest v = answers-suffix effects rest v

  answers-last :
      (effects : List Effect) (bytes : List ℕ)
      → 1 ≤ answers (actions_of h (effects ++ sent bytes ∷ []))
  answers-last effects bytes =
      answers-suffix effects (sent bytes ∷ []) (omega (arith, answers-sent bytes))

  answers-responses :
      (effects : List Effect) (bytes : List ℕ)
      → 1 ≤ answers (actions_of h (effects ++ send (handler_callbacks h) bytes))
  unfolding send handler_callbacks
  answers-responses effects bytes = answers-last effects (to_midi_message bytes)

module _ {F S : Type 0} (floats : Floats F) (nvs : Nvs S) (firmware_id mac : List ℕ) (h : Hooks)
    (sends : h.on_sys_ex_send_request ≡ true) (r : Readings) (now : ℕ) where
  abbrev Answered : List Action → Type 0
  Answered actions = 1 ≤ answers actions

  pub Answered-after : (xs ys : List Action) → Answered ys → Answered (xs ++ ys)
  Answered-after xs ys v = omega (arith, v, answers-append xs ys)

  Answered-get :
      (pin : ℕ) (found : Option PinConfig) → Answered (perform_get_pin_config h pin found)
  unfolding perform_get_pin_config pin_error send_pin_config_response send_error_response_context
  Answered-get pin none = answers-responses h sends [] _
  Answered-get pin (some c) = answers-responses h sends [] _

  Answered-delete :
      (pin : ℕ) (found : Option ℕ) (io : Io F S)
      → Answered (perform_delete_pin_config floats nvs firmware_id mac h r now pin found io).1
  unfolding perform_delete_pin_config pin_error send_delete_response send_error_response_context
  Answered-delete pin none io = answers-responses h sends [] _
  Answered-delete pin (some i) io = answers-responses h sends [] _

  Answered-peer : (index : ℕ) (found : Option (List ℕ)) → Answered (perform_get_peer h index found)
  unfolding perform_get_peer send_peer_response send_error_response_context
  Answered-peer index none = answers-responses h sends [] _
  Answered-peer index (some peer) = answers-responses h sends [] _

  Answered-raw :
      (req : RawStreamRequest) (io : Io F S)
      → Answered (actions_of h (set_raw_stream (handler_callbacks h) now req io).1)
  unfolding set_raw_stream send_raw_stream_response send_error_response_context
  Answered-raw req io =
      elim (Bool-cases
        (req.enable && req.pin != raw_stream_all_pins && not (has_input req.pin io.pin_configs))) [
          | inl refused ↦ rw (refused, set_raw_stream) (answers-responses h sends [] _)
          | inr taken ↦ rw (taken, set_raw_stream) (answers-responses h sends [] _)
        ]

  Answered-simple :
      (command : ℕ) → Answered (actions_of h (send_simple_response (handler_callbacks h) command))
  unfolding send_simple_response
  Answered-simple command = answers-responses h sends [] (encode_simple_response command)

  Answered-config : (io : Io F S) → Answered (actions_of h (config_stream h io))
  unfolding config_stream
  Answered-config io =
      answers-suffix h sends _ _ (Answered-simple (response_command Command.get_config))

  -- Every effect but the call that adds a peer, which the handler answers itself, is answered.
  Answered-perform :
      (effect : Effect) (io : Io F S)
      → is_add_peer effect ≡ false
      → Answered (perform floats nvs firmware_id mac h r now effect io).1
  unfolding perform send_pin_config_response send_simple_response send_mac_response
      send_version_response send_flag_response send_byte_response send_name_response
  Answered-perform (sent bytes) io other = answers-last h sends [] bytes
  Answered-perform (call_add_peer peer) io other = absurd (ground (arith, other))
  Answered-perform (call_set_pin_config c) io other =
      Answered-after _ _ (answers-responses h sends [] _)
  Answered-perform (call_get_pin_config pin) io other =
      Answered-get pin (find_config pin io.pin_configs)
  Answered-perform (call_delete_pin_config pin) io other =
      Answered-delete pin (config_index pin io.pin_configs) io
  Answered-perform (call_get_peer index) io other = Answered-peer index (peer_at h index)
  Answered-perform (call_set_midi_loopback enabled) io other = answers-responses h sends [] _
  Answered-perform (call_set_power_save enabled) io other =
      Answered-after _ _ (answers-responses h sends [] _)
  Answered-perform (call_set_name name) io other = answers-responses h sends [] _
  Answered-perform (call_set_raw_stream req) io other = Answered-raw req io
  Answered-perform call_clear_pin_configs io other = answers-responses h sends [] _
  Answered-perform call_get_all_pin_configs io other =
      answers-responses h sends (config_responses h io.pin_configs) _
  Answered-perform call_get_mac io other = answers-responses h sends [] _
  Answered-perform call_get_all_peers io other =
      answers-responses h sends (peer_responses h max_peers 0) _
  Answered-perform call_get_config io other = Answered-config io
  Answered-perform call_get_midi_loopback io other = answers-responses h sends [] _
  Answered-perform call_get_power_save io other = answers-responses h sends [] _
  Answered-perform call_get_name io other = answers-responses h sends [] _
  Answered-perform call_reset io other =
      Answered-after
        (notify_power_save h false ++ (if h.on_reset_request then request_reset ∷ [] else [])) _
        (answers-responses h sends [] (encode_simple_response (response_command Command.reset)))
  Answered-perform call_get_version io other = answers-responses h sends [] _

  pub Answered-single :
      (effects : List Effect) (io : Io F S)
      → length effects ≡ 1
      → All (λ effect. is_add_peer effect ≡ false) effects
      → Answered (perform_all floats nvs firmware_id mac h r now effects io).1
  unfolding perform_all
  Answered-single [] io one plain = absurd (omega arith)
  Answered-single (effect ∷ []) io one plain = omega (
    arith,
    answers-append (perform floats nvs firmware_id mac h r now effect io).1 [],
    Answered-perform effect io plain.0,
  )
  Answered-single (effect ∷ other ∷ effects) io one plain = absurd (omega arith)
