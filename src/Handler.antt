-- ===== src/Handler.antt =====
-- include/enomik_sysex.h: the commands of `SysExHandler`, and what each does.
pub mod Effects
pub mod Calls
pub mod Passed
pub mod Expected
pub mod Proper
pub mod Requests
mod Tests
use esp_now_midi.Base.{
  ℕ, zero, suc, ◌+◌, ◌-◌, ◌*◌, ◌/◌, ◌%◌, ◌^◌, ◌≤◌, ◌<◌, bit_or, bit_and, ◌≡◌, refl, sym, ap, ◌∙◌,
  ◌≢◌, ◌↔◌, ◌⊎◌, inl, inr, Bool, true, false, not, ◌&&◌, ◌||◌, Option, none, some, List, [], ◌∷◌,
  ◌++◌, map, arith, ltb, leb, ◌==◌, ◌!=◌, if◌then◌else◌, ==-eq, ==-ne, ==_iff, Bool-cases,
  Option-cases, length, get_or, take, drop, keep_if, All, length-append, length-map, length-take,
  length-drop, take_all, put, put_same, put_other, slot_injective, segment, length-segment,
  segment_congr, segment_shift, segment_snoc, segment_append, segment_extend, segment_remove,
  segment_list, get_or-take, get_or-drop, ring, ring-put, ring_list, ring_list-put, ring_list_step,
  ring_list_pop, ring_list-put_inside, ring_list-put_before, ring_next, u8, u16, u32, sub32, sub16,
  signed_ltb32, low_bits, shr,
}
use esp_now_midi.Base.Bits.{
  bit_and_high_bit, bit_and_low_bits, bit_and_high_nibble, bit_or-shift, shift-bit_or,
  nibbles-bit_or, bytes-bit_or,
}
use esp_now_midi.Codec.{
  ErrorCode, bad_version, unknown_command, decode_failed, not_ready, AddPeerResult, success,
  add_peer_error_code, PinConfig, RawStreamRequest, RawValue, response_command, is_valid,
  is_version_compatible, get_command, get_payload, to_midi_message, min_packet_size, max_data_size,
}
use esp_now_midi.Codec.Command
use esp_now_midi.Codec.Encode.{
  bool_byte, encode_error, encode_error_context, encode_byte_response, encode_simple_response,
  encode_pin_config, encode_mac, encode_version, encode_peer_entry, encode_name, encode_raw_stream,
  encode_raw_value,
}
use esp_now_midi.Codec.Decode.{
  decode_pin_config, decode_index, decode_bool_flag, decode_name, decode_raw_stream, decode_mac,
}
use esp_now_midi.Handler.Effects.{
  Callbacks, Effect, sent, call_add_peer, call_set_pin_config, call_get_pin_config,
  call_delete_pin_config, call_get_peer, call_set_midi_loopback, call_set_power_save, call_set_name,
  call_set_raw_stream, call_clear_pin_configs, call_get_all_pin_configs, call_get_mac,
  call_get_all_peers, call_get_config, call_get_midi_loopback, call_get_power_save, call_get_name,
  call_reset, call_get_version, send_error_response, send_add_peer_response,
}

module _ (cb : Callbacks) where
  -- The shape of the handlers without a payload
  unfoldable pub call_if : Bool → ℕ → Effect → List Effect
  call_if is_set request call =
      if is_set then call ∷ [] else send_error_response cb request not_ready

  -- The shape of the handlers that decode their payload first
  unfoldable pub call_decoded {ℓ} : {A : Type ℓ} → Bool → ℕ → Option A → (A → Effect) → List Effect
  call_decoded is_set request decoded call =
      if is_set
      then elim decoded [
        | some value ↦ call value ∷ []
        | none ↦ send_error_response cb request decode_failed
      ]
      else send_error_response cb request not_ready

  unfoldable pub handle_set_pin_config : List ℕ → List Effect
  unfolding call_decoded
  handle_set_pin_config payload =
      call_decoded cb.on_set_pin_config Command.set_pin_config (decode_pin_config payload)
        call_set_pin_config

  unfoldable pub handle_get_pin_config : List ℕ → List Effect
  unfolding call_decoded
  handle_get_pin_config payload =
      call_decoded cb.on_get_pin_config Command.get_pin_config (decode_index payload)
        call_get_pin_config

  unfoldable pub handle_delete_pin_config : List ℕ → List Effect
  unfolding call_decoded
  handle_delete_pin_config payload =
      call_decoded cb.on_delete_pin_config Command.delete_pin_config (decode_index payload)
        call_delete_pin_config

  unfoldable pub handle_get_peer : List ℕ → List Effect
  unfolding call_decoded
  handle_get_peer payload =
      call_decoded cb.on_get_peer Command.get_peer (decode_index payload) call_get_peer

  unfoldable pub handle_set_midi_loopback : List ℕ → List Effect
  unfolding call_decoded
  handle_set_midi_loopback payload =
      call_decoded cb.on_set_midi_loopback Command.set_midi_loopback (decode_bool_flag payload)
        call_set_midi_loopback

  unfoldable pub handle_set_power_save : List ℕ → List Effect
  unfolding call_decoded
  handle_set_power_save payload =
      call_decoded cb.on_set_power_save Command.set_power_save (decode_bool_flag payload)
        call_set_power_save

  unfoldable pub handle_set_name : List ℕ → List Effect
  unfolding call_decoded
  handle_set_name payload =
      call_decoded cb.on_set_name Command.set_name (decode_name payload) call_set_name

  unfoldable pub handle_set_raw_stream : List ℕ → List Effect
  unfolding call_decoded
  handle_set_raw_stream payload =
      call_decoded cb.on_set_raw_stream Command.set_raw_stream (decode_raw_stream payload)
        call_set_raw_stream

  unfoldable pub handle_clear_pin_configs : List Effect
  unfolding call_if
  handle_clear_pin_configs =
      call_if cb.on_clear_pin_configs Command.clear_pin_configs call_clear_pin_configs

  unfoldable pub handle_get_all_pin_configs : List Effect
  unfolding call_if
  handle_get_all_pin_configs =
      call_if cb.on_get_all_pin_configs Command.get_all_pin_configs call_get_all_pin_configs

  unfoldable pub handle_get_mac : List Effect
  unfolding call_if
  handle_get_mac = call_if cb.on_get_mac Command.get_mac call_get_mac

  unfoldable pub handle_get_all_peers : List Effect
  unfolding call_if
  handle_get_all_peers = call_if cb.on_get_all_peers Command.get_all_peers call_get_all_peers

  unfoldable pub handle_get_config : List Effect
  unfolding call_if
  handle_get_config = call_if cb.on_get_config Command.get_config call_get_config

  unfoldable pub handle_get_midi_loopback : List Effect
  unfolding call_if
  handle_get_midi_loopback =
      call_if cb.on_get_midi_loopback Command.get_midi_loopback call_get_midi_loopback

  unfoldable pub handle_get_power_save : List Effect
  unfolding call_if
  handle_get_power_save = call_if cb.on_get_power_save Command.get_power_save call_get_power_save

  unfoldable pub handle_get_name : List Effect
  unfolding call_if
  handle_get_name = call_if cb.on_get_name Command.get_name call_get_name

  unfoldable pub handle_reset : List Effect
  unfolding call_if
  handle_reset = call_if cb.on_reset Command.reset call_reset

  unfoldable pub handle_get_version : List Effect
  unfolding call_if
  handle_get_version = call_if cb.on_get_version Command.get_version call_get_version

  -- The end of `handleAddPeer`
  unfoldable pub answer_add_peer : AddPeerResult → List Effect
  answer_add_peer success = send_add_peer_response cb true
  answer_add_peer result = send_error_response cb Command.add_peer (add_peer_error_code result)

  -- `handleAddPeer` by the callback and the address
  unfoldable pub add_peer_by : Option (List ℕ → AddPeerResult) → Option (List ℕ) → List Effect
  add_peer_by none decoded = send_error_response cb Command.add_peer not_ready
  add_peer_by (some add) none = send_error_response cb Command.add_peer decode_failed
  add_peer_by (some add) (some mac) = call_add_peer mac ∷ answer_add_peer (add mac)

  unfoldable pub handle_add_peer : List ℕ → List Effect
  unfolding add_peer_by
  handle_add_peer payload = add_peer_by cb.on_add_peer (decode_mac payload)

  -- The switch of `routeCommand`
  unfoldable pub route_command : List ℕ → List Effect
  route_command packet =
      let command = get_command packet in
      let payload = get_payload packet in
      if command == Command.set_pin_config
      then handle_set_pin_config payload
      else if command == Command.get_pin_config
      then handle_get_pin_config payload
      else if command == Command.delete_pin_config
      then handle_delete_pin_config payload
      else if command == Command.clear_pin_configs
      then handle_clear_pin_configs
      else if command == Command.get_all_pin_configs
      then handle_get_all_pin_configs
      else if command == Command.get_mac
      then handle_get_mac
      else if command == Command.add_peer
      then handle_add_peer payload
      else if command == Command.get_all_peers
      then handle_get_all_peers
      else if command == Command.get_peer
      then handle_get_peer payload
      else if command == Command.get_config
      then handle_get_config
      else if command == Command.set_midi_loopback
      then handle_set_midi_loopback payload
      else if command == Command.get_midi_loopback
      then handle_get_midi_loopback
      else if command == Command.set_power_save
      then handle_set_power_save payload
      else if command == Command.get_power_save
      then handle_get_power_save
      else if command == Command.set_name
      then handle_set_name payload
      else if command == Command.announce
      then []
      else if command == Command.get_name
      then handle_get_name
      else if command == Command.set_raw_stream
      then handle_set_raw_stream payload
      else if command == Command.raw_value
      then []
      else if command == Command.reset
      then handle_reset
      else if command == Command.get_version
      then handle_get_version
      else send_error_response cb command unknown_command

  -- `handleSysEx`; the message is never a null pointer here.
  unfoldable pub handle_sys_ex : List ℕ → List Effect
  handle_sys_ex bytes =
      if ltb (length bytes) min_packet_size || ltb max_data_size (length bytes)
      then send_error_response cb 0 decode_failed
      else if not (is_valid bytes)
      then send_error_response cb 0 decode_failed
      else if not (is_version_compatible bytes)
      then send_error_response cb (get_command bytes) bad_version
      else route_command bytes
