-- ===== src/Io/Answers.antt =====
-- include/enomik_io.h: the answers that `IO` sends through its command handler.
use esp_now_midi.Base.{
  ℕ, zero, suc, Bool, true, Option, none, some, List, [], ◌∷◌, ◌++◌, if◌then◌else◌,
}
use esp_now_midi.PeerMutes.{max_peers}
use esp_now_midi.Codec.{
  PinConfig, AddPeerResult, no_transport, pin_not_found, peer_not_found, response_command,
}
use esp_now_midi.Codec.Command
use esp_now_midi.Handler.Effects.{
  Callbacks, Effect, sent, send_error_response_context, send_pin_config_response,
  send_simple_response, send_peer_response, send_flag_response, send_name_response,
}
use esp_now_midi.Io.Device.{Hooks, Action, send_sys_ex, power_save_changed, Io, get_name}

-- The answer of the callback for a new peer that `setupSysExHandlers` sets
unfoldable pub add_peer_answer : Hooks → List ℕ → AddPeerResult
add_peer_answer h mac = elim h.on_add_peer_request [ none ↦ no_transport | some add ↦ add mac ]

-- `setupSysExHandlers`: every callback is set.
unfoldable pub handler_callbacks : Hooks → Callbacks
unfolding add_peer_answer
handler_callbacks h = record {
  on_set_pin_config = true;
  on_get_pin_config = true;
  on_delete_pin_config = true;
  on_get_peer = true;
  on_set_midi_loopback = true;
  on_set_power_save = true;
  on_set_name = true;
  on_set_raw_stream = true;
  on_clear_pin_configs = true;
  on_get_all_pin_configs = true;
  on_get_mac = true;
  on_get_all_peers = true;
  on_get_config = true;
  on_get_midi_loopback = true;
  on_get_power_save = true;
  on_get_name = true;
  on_reset = true;
  on_get_version = true;
  on_add_peer = some (add_peer_answer h);
  on_send = true;
}

-- `_onGetPeerRequest(index)`, and a null pointer where it is not set
unfoldable pub peer_at : Hooks → ℕ → Option (List ℕ)
peer_at h index = elim h.on_get_peer_request [ none ↦ none | some get ↦ get index ]

module _ (h : Hooks) where
  -- What the handler sends on goes to the callback of the application, if there is one.
  unfoldable pub actions_of : List Effect → List Action
  actions_of [] = []
  actions_of (sent bytes ∷ effects) =
      if h.on_sys_ex_send_request
      then send_sys_ex bytes ∷ actions_of effects
      else actions_of effects
  actions_of (effect ∷ effects) = actions_of effects

  -- The loop over the peers: `rounds` of them from `index` on
  unfoldable pub peer_responses : ℕ → ℕ → List Effect
  unfolding peer_at send_peer_response
  peer_responses zero index = []
  peer_responses (suc rounds) index =
      let rest = peer_responses rounds (suc index) in
      elim (peer_at h index) [
        | none ↦ []
        | some mac ↦
            send_peer_response (handler_callbacks h) index mac
              (response_command Command.get_all_peers)
            ++ rest
      ]

  -- The loop over the pin configurations
  unfoldable pub config_responses : List PinConfig → List Effect
  unfolding send_pin_config_response handler_callbacks
  config_responses [] = []
  config_responses (c ∷ configs) =
      send_pin_config_response (handler_callbacks h) c
        (response_command Command.get_all_pin_configs)
      ++ config_responses configs

module _ (h : Hooks) where
  -- The response of a handler that looks for a pin, when there is none
  unfoldable pub pin_error : ℕ → ℕ → List Action
  unfolding actions_of send_error_response_context
  pin_error command pin =
      actions_of h (send_error_response_context (handler_callbacks h) command pin_not_found pin)

  unfoldable pub perform_get_pin_config : ℕ → Option PinConfig → List Action
  unfolding pin_error actions_of send_pin_config_response
  perform_get_pin_config pin none = pin_error Command.get_pin_config pin
  perform_get_pin_config pin (some c) =
      actions_of h
        (send_pin_config_response (handler_callbacks h) c (response_command Command.get_pin_config))

  unfoldable pub perform_get_peer : ℕ → Option (List ℕ) → List Action
  unfolding actions_of send_peer_response send_error_response_context
  perform_get_peer index none =
      actions_of h
        (send_error_response_context (handler_callbacks h) Command.get_peer peer_not_found index)
  perform_get_peer index (some peer) =
      actions_of h
        (send_peer_response (handler_callbacks h) index peer (response_command Command.get_peer))

  abbrev pub notify_power_save : Bool → List Action
  notify_power_save enabled =
      if h.on_power_save_changed then power_save_changed enabled ∷ [] else []

module _ {F S : Type 0} (h : Hooks) where
  -- The messages of the whole configuration
  unfoldable pub config_stream : Io F S → List Effect
  unfolding config_responses peer_responses send_flag_response send_name_response
      send_simple_response get_name
  config_stream io =
      config_responses h io.pin_configs
      ++ peer_responses h max_peers 0
      ++ send_flag_response (handler_callbacks h) (response_command Command.get_midi_loopback)
          io.midi_loopback
      ++ send_flag_response (handler_callbacks h) (response_command Command.get_power_save)
          io.power_save
      ++ send_name_response (handler_callbacks h) (response_command Command.get_name) (get_name io)
      ++ send_simple_response (handler_callbacks h) (response_command Command.get_config)
