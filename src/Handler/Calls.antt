-- ===== src/Handler/Calls.antt =====
-- include/enomik_sysex.h: how often the handler acts on a message.
use esp_now_midi.Base.{
  suc, ap, ℕ, is_some, ◌≡◌, refl, Bool, true, false, ◌&&◌, ◌||◌, Option, none, some, List, arith,
  leb, ◌==◌, if◌then◌else◌, length,
}
use esp_now_midi.Codec.{
  AddPeerResult, success, table_full, already_exists, failure, no_transport, is_valid,
  is_version_compatible, get_command, get_payload, min_packet_size, max_data_size, ErrorCode,
  bad_version, unknown_command, decode_failed,
}
use esp_now_midi.Codec.Command
use esp_now_midi.Codec.Decode.{
  decode_mac, decode_pin_config, decode_index, decode_bool_flag, decode_name, decode_raw_stream,
}
use esp_now_midi.Handler.Effects.{
  Callbacks, Effect, call_set_pin_config, call_get_pin_config, call_delete_pin_config,
  call_get_peer, call_set_midi_loopback, call_set_power_save, call_set_name, call_set_raw_stream,
  call_clear_pin_configs, call_get_all_pin_configs, call_get_mac, call_get_all_peers,
  call_get_config, call_get_midi_loopback, call_get_power_save, call_get_name, call_reset,
  call_get_version, send_error_response, send_add_peer_response,
}
use esp_now_midi.Handler.{
  call_if, call_decoded, handle_set_pin_config, handle_get_pin_config, handle_delete_pin_config,
  handle_get_peer, handle_set_midi_loopback, handle_set_power_save, handle_set_name,
  handle_set_raw_stream, handle_clear_pin_configs, handle_get_all_pin_configs, handle_get_mac,
  handle_get_all_peers, handle_get_config, handle_get_midi_loopback, handle_get_power_save,
  handle_get_name, handle_reset, handle_get_version, handle_add_peer, answer_add_peer, add_peer_by,
  route_command, handle_sys_ex,
}

-- A packet that the handler looks into
abbrev pub is_accepted : List ℕ → Bool
is_accepted bytes =
    leb min_packet_size (length bytes)
    && leb (length bytes) max_data_size
    && is_valid bytes
    && is_version_compatible bytes

-- A request to add a peer that reaches its callback, which the handler then answers itself.
abbrev pub adds_peer : Callbacks → List ℕ → Bool
adds_peer cb bytes =
    is_accepted bytes
    && get_command bytes == Command.add_peer
    && is_some cb.on_add_peer
    && is_some (decode_mac (get_payload bytes))

-- A notification of another device
abbrev pub is_notification : List ℕ → Bool
is_notification bytes =
    is_accepted bytes
    && (get_command bytes == Command.announce || get_command bytes == Command.raw_value)

-- How often the handler acts on a message.
abbrev pub acts : Callbacks → List ℕ → ℕ
acts cb bytes = if is_notification bytes then 0 else if adds_peer cb bytes then 2 else 1

module _ (cb : Callbacks) (sends : cb.on_send ≡ true) where
  length-send_error_response :
      (request : ℕ) (code : ErrorCode) → length (send_error_response cb request code) ≡ 1
  unfolding send_error_response
  length-send_error_response request code = rw sends refl

  length-call_if :
      (is_set : Bool) (request : ℕ) (call : Effect) → length (call_if cb is_set request call) ≡ 1
  unfolding call_if
  length-call_if true request call = refl
  length-call_if false request call = length-send_error_response request _

  length-call_decoded {ℓ} :
      {A : Type ℓ} (is_set : Bool) (request : ℕ) (decoded : Option A) (call : A → Effect)
      → length (call_decoded cb is_set request decoded call) ≡ 1
  unfolding call_decoded
  length-call_decoded true request (some value) call = refl
  length-call_decoded true request none call = length-send_error_response request _
  length-call_decoded false request decoded call = length-send_error_response request _

  length-answer_add_peer : (result : AddPeerResult) → length (answer_add_peer cb result) ≡ 1
  unfolding answer_add_peer send_add_peer_response
  length-answer_add_peer success = rw sends refl
  length-answer_add_peer table_full = length-send_error_response _ _
  length-answer_add_peer already_exists = length-send_error_response _ _
  length-answer_add_peer failure = length-send_error_response _ _
  length-answer_add_peer no_transport = length-send_error_response _ _

  length-add_peer_by :
      (add : Option (List ℕ → AddPeerResult)) (decoded : Option (List ℕ))
      → length (add_peer_by cb add decoded) ≡ (if is_some add && is_some decoded then 2 else 1)
  unfolding add_peer_by
  length-add_peer_by none decoded = length-send_error_response _ _
  length-add_peer_by (some add) none = length-send_error_response _ _
  length-add_peer_by (some add) (some mac) = ap suc (length-answer_add_peer (add mac))

  length-route_command :
      (bytes : List ℕ)
      → length (route_command cb bytes) ≡ (
          if get_command bytes == Command.announce || get_command bytes == Command.raw_value
          then 0
          else if get_command bytes == Command.add_peer
              && is_some cb.on_add_peer
              && is_some (decode_mac (get_payload bytes))
          then 2
          else 1)
  unfolding route_command handle_add_peer handle_set_pin_config handle_get_pin_config
      handle_delete_pin_config handle_get_peer handle_set_midi_loopback handle_set_power_save
      handle_set_name handle_set_raw_stream handle_clear_pin_configs handle_get_all_pin_configs
      handle_get_mac handle_get_all_peers handle_get_config handle_get_midi_loopback
      handle_get_power_save handle_get_name handle_reset handle_get_version
  length-route_command bytes = ground (
    arith,
    length-add_peer_by cb.on_add_peer (decode_mac (get_payload bytes)),
    length-send_error_response (get_command bytes) unknown_command,
    length-call_decoded cb.on_set_pin_config Command.set_pin_config
        (decode_pin_config (get_payload bytes)) call_set_pin_config,
    length-call_decoded cb.on_get_pin_config Command.get_pin_config
        (decode_index (get_payload bytes)) call_get_pin_config,
    length-call_decoded cb.on_delete_pin_config Command.delete_pin_config
        (decode_index (get_payload bytes)) call_delete_pin_config,
    length-call_decoded cb.on_get_peer Command.get_peer (decode_index (get_payload bytes))
        call_get_peer,
    length-call_decoded cb.on_set_midi_loopback Command.set_midi_loopback
        (decode_bool_flag (get_payload bytes)) call_set_midi_loopback,
    length-call_decoded cb.on_set_power_save Command.set_power_save
        (decode_bool_flag (get_payload bytes)) call_set_power_save,
    length-call_decoded cb.on_set_name Command.set_name (decode_name (get_payload bytes))
        call_set_name,
    length-call_decoded cb.on_set_raw_stream Command.set_raw_stream
        (decode_raw_stream (get_payload bytes)) call_set_raw_stream,
    length-call_if cb.on_clear_pin_configs Command.clear_pin_configs call_clear_pin_configs,
    length-call_if cb.on_get_all_pin_configs Command.get_all_pin_configs call_get_all_pin_configs,
    length-call_if cb.on_get_mac Command.get_mac call_get_mac,
    length-call_if cb.on_get_all_peers Command.get_all_peers call_get_all_peers,
    length-call_if cb.on_get_config Command.get_config call_get_config,
    length-call_if cb.on_get_midi_loopback Command.get_midi_loopback call_get_midi_loopback,
    length-call_if cb.on_get_power_save Command.get_power_save call_get_power_save,
    length-call_if cb.on_get_name Command.get_name call_get_name,
    length-call_if cb.on_reset Command.reset call_reset,
    length-call_if cb.on_get_version Command.get_version call_get_version,
  )

  -- With a callback that sends, every message has exactly one effect, but that a request to add a
  -- peer that is passed on has two, and a valid notification of this version has none.
  pub length-handle_sys_ex : (bytes : List ℕ) → length (handle_sys_ex cb bytes) ≡ acts cb bytes
  unfolding handle_sys_ex
  length-handle_sys_ex bytes = ground (
    arith,
    length-send_error_response 0 decode_failed,
    length-send_error_response (get_command bytes) bad_version,
    length-route_command bytes,
  )
