-- ===== src/Handler/Effects.antt =====
-- include/enomik_sysex.h: the callbacks of `SysExHandler`, what it does through them, and its responses.
use esp_now_midi.Base.{ℕ, Bool, Option, List, [], ◌∷◌, if◌then◌else◌}
use esp_now_midi.Codec.{
  ErrorCode, AddPeerResult, PinConfig, RawStreamRequest, RawValue, response_command,
  to_midi_message,
}
use esp_now_midi.Codec.Command
use esp_now_midi.Codec.Encode.{
  bool_byte, encode_error, encode_error_context, encode_byte_response, encode_simple_response,
  encode_pin_config, encode_mac, encode_version, encode_peer_entry, encode_name, encode_raw_stream,
  encode_raw_value,
}

-- Which callbacks are set. The one for a new peer also answers, so it is the function itself.
pub record Callbacks : Type 0 where
  pub on_set_pin_config : Bool
  pub on_get_pin_config : Bool
  pub on_delete_pin_config : Bool
  pub on_get_peer : Bool
  pub on_set_midi_loopback : Bool
  pub on_set_power_save : Bool
  pub on_set_name : Bool
  pub on_set_raw_stream : Bool
  pub on_clear_pin_configs : Bool
  pub on_get_all_pin_configs : Bool
  pub on_get_mac : Bool
  pub on_get_all_peers : Bool
  pub on_get_config : Bool
  pub on_get_midi_loopback : Bool
  pub on_get_power_save : Bool
  pub on_get_name : Bool
  pub on_reset : Bool
  pub on_get_version : Bool
  pub on_add_peer : Option (List ℕ → AddPeerResult)
  pub on_send : Bool

-- What the handler does: it calls a callback, or hands a message to the one that sends.
pub data Effect : Type 0 where
  sent : List ℕ → Effect
  call_add_peer : List ℕ → Effect
  call_set_pin_config : PinConfig → Effect
  call_get_pin_config : ℕ → Effect
  call_delete_pin_config : ℕ → Effect
  call_get_peer : ℕ → Effect
  call_set_midi_loopback : Bool → Effect
  call_set_power_save : Bool → Effect
  call_set_name : List ℕ → Effect
  call_set_raw_stream : RawStreamRequest → Effect
  call_clear_pin_configs call_get_all_pin_configs call_get_mac call_get_all_peers call_get_config
        call_get_midi_loopback call_get_power_save call_get_name call_reset call_get_version :
      Effect

module _ (cb : Callbacks) where
  -- The end of each `send...` method: `_onSend(toMidiMessage(pkt))` if it is set
  unfoldable pub send : List ℕ → List Effect
  send packet = if cb.on_send then sent (to_midi_message packet) ∷ [] else []

  unfoldable pub send_error_response : ℕ → ErrorCode → List Effect
  unfolding send
  send_error_response failed_request error_code = send (encode_error failed_request error_code)

  unfoldable pub send_error_response_context : ℕ → ErrorCode → ℕ → List Effect
  unfolding send
  send_error_response_context failed_request error_code context =
      send (encode_error_context failed_request error_code context)

  unfoldable pub send_pin_config_response : PinConfig → ℕ → List Effect
  unfolding send
  send_pin_config_response cfg command = send (encode_pin_config cfg command)

  unfoldable pub send_mac_response : List ℕ → List Effect
  unfolding send
  send_mac_response mac = send (encode_mac mac)

  unfoldable pub send_version_response : List Effect
  unfolding send
  send_version_response = send encode_version

  unfoldable pub send_simple_response : ℕ → List Effect
  unfolding send
  send_simple_response command = send (encode_simple_response command)

  unfoldable pub send_delete_response : ℕ → List Effect
  unfolding send
  send_delete_response pin =
      send (encode_byte_response (response_command Command.delete_pin_config) pin)

  unfoldable pub send_add_peer_response : Bool → List Effect
  unfolding send
  send_add_peer_response ok =
      send (encode_byte_response (response_command Command.add_peer) (bool_byte ok))

  unfoldable pub send_peer_response : ℕ → List ℕ → ℕ → List Effect
  unfolding send
  send_peer_response index mac command = send (encode_peer_entry index mac command)

  -- `sendByteResponse`, and by it `sendMidiLoopbackResponse` and `sendPowerSaveResponse`
  unfoldable pub send_byte_response : ℕ → ℕ → List Effect
  unfolding send
  send_byte_response command value = send (encode_byte_response command value)

  unfoldable pub send_flag_response : ℕ → Bool → List Effect
  unfolding send_byte_response
  send_flag_response command enabled = send_byte_response command (bool_byte enabled)

  unfoldable pub send_name_response : ℕ → List ℕ → List Effect
  unfolding send
  send_name_response command name = send (encode_name name command)

  unfoldable pub send_raw_stream_response : RawStreamRequest → List Effect
  unfolding send
  send_raw_stream_response req =
      send (encode_raw_stream req (response_command Command.set_raw_stream))

  unfoldable pub send_raw_value : RawValue → List Effect
  unfolding send
  send_raw_value value = send (encode_raw_value value)
