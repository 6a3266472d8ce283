-- ===== src/Handler/Passed.antt =====
-- include/enomik_sysex.h: when the handler calls a callback.
use esp_now_midi.Base.{
  suc, ap, ℕ, is_some, ◌≡◌, refl, Bool, true, false, ◌&&◌, Option, none, some, List, arith, ◌==◌,
  if◌then◌else◌, length, [],
}
use esp_now_midi.Codec.{
  unknown_command, AddPeerResult, success, table_full, already_exists, failure, no_transport,
  get_command, get_payload, ErrorCode, bad_version, decode_failed,
}
use esp_now_midi.Codec.Command
use esp_now_midi.Codec.Decode.{
  decode_mac, decode_pin_config, decode_index, decode_bool_flag, decode_name, decode_raw_stream,
}
use esp_now_midi.Handler.Effects.{
  Callbacks, Effect, call_set_pin_config, call_get_pin_config, call_delete_pin_config,
  call_get_peer, call_set_midi_loopback, call_set_power_save, call_set_name, call_set_raw_stream,
  call_clear_pin_configs, call_get_all_pin_configs, call_get_mac, call_get_all_peers,
  call_get_config, call_get_midi_loopback, call_get_power_save, call_get_name, call_reset,
  call_get_version, send_error_response, send_add_peer_response,
}
use esp_now_midi.Handler.{
  call_if, call_decoded, handle_set_pin_config, handle_get_pin_config, handle_delete_pin_config,
  handle_get_peer, handle_set_midi_loopback, handle_set_power_save, handle_set_name,
  handle_set_raw_stream, handle_clear_pin_configs, handle_get_all_pin_configs, handle_get_mac,
  handle_get_all_peers, handle_get_config, handle_get_midi_loopback, handle_get_power_save,
  handle_get_name, handle_reset, handle_get_version, handle_add_peer, answer_add_peer, add_peer_by,
  route_command, handle_sys_ex,
}
use esp_now_midi.Handler.Calls.{is_accepted, acts, length-handle_sys_ex}
use esp_now_midi.Handler.Effects.{sent, send}
use esp_now_midi.Base.{keep_if}

-- A call of a callback, and how many there are
abbrev pub is_call : Effect → Bool
is_call (sent bytes) = false
is_call effect = true

abbrev pub calls : List Effect → ℕ
calls effects = length (keep_if is_call effects)

-- Whether the callback for a command is set and what it is called with is in the payload.
abbrev pub reaches : Callbacks → ℕ → List ℕ → Bool
reaches cb command payload =
    if command == Command.set_pin_config
    then cb.on_set_pin_config && is_some (decode_pin_config payload)
    else if command == Command.get_pin_config
    then cb.on_get_pin_config && is_some (decode_index payload)
    else if command == Command.delete_pin_config
    then cb.on_delete_pin_config && is_some (decode_index payload)
    else if command == Command.clear_pin_configs
    then cb.on_clear_pin_configs
    else if command == Command.get_all_pin_configs
    then cb.on_get_all_pin_configs
    else if command == Command.get_mac
    then cb.on_get_mac
    else if command == Command.add_peer
    then is_some cb.on_add_peer && is_some (decode_mac payload)
    else if command == Command.get_all_peers
    then cb.on_get_all_peers
    else if command == Command.get_peer
    then cb.on_get_peer && is_some (decode_index payload)
    else if command == Command.get_config
    then cb.on_get_config
    else if command == Command.set_midi_loopback
    then cb.on_set_midi_loopback && is_some (decode_bool_flag payload)
    else if command == Command.get_midi_loopback
    then cb.on_get_midi_loopback
    else if command == Command.set_power_save
    then cb.on_set_power_save && is_some (decode_bool_flag payload)
    else if command == Command.get_power_save
    then cb.on_get_power_save
    else if command == Command.set_name
    then cb.on_set_name && is_some (decode_name payload)
    else if command == Command.announce
    then false
    else if command == Command.get_name
    then cb.on_get_name
    else if command == Command.set_raw_stream
    then cb.on_set_raw_stream && is_some (decode_raw_stream payload)
    else if command == Command.raw_value
    then false
    else if command == Command.reset
    then cb.on_reset
    else if command == Command.get_version
    then cb.on_get_version
    else false

abbrev count : Bool → ℕ
count b = if b then 1 else 0

record IsCounted (effects : List Effect) (called : Bool) : Type 0 where
  pub count_eq : calls effects ≡ count called

IsCounted-if :
    (b : Bool) {xs ys : List Effect} {p q : Bool}
    → IsCounted xs p
    → IsCounted ys q
    → IsCounted (if b then xs else ys) (if b then p else q)
IsCounted-if true first rest = first
IsCounted-if false first rest = rest

-- The case of a test
record IsCase (test : Bool) (effects : List Effect) (called : Bool) : Type 0 where
  pub counted : IsCounted effects called

on_test : (test : Bool) {xs : List Effect} {p : Bool} → IsCounted xs p → IsCase test xs p
on_test test h = record { counted = h }

-- A chain of tests: the case of the first one, or else the rest.
infixr 4 ◌otherwise◌
◌otherwise◌ :
    {b : Bool} {xs ys : List Effect} {p q : Bool}
    → IsCase b xs p
    → IsCounted ys q
    → IsCounted (if b then xs else ys) (if b then p else q)
◌otherwise◌ {b = b} first rest = IsCounted-if b first.counted rest

nothing-IsCounted : IsCounted [] false
nothing-IsCounted = record { count_eq = refl }

module _ (cb : Callbacks) where
  send_error_response-IsCounted :
      (request : ℕ) (code : ErrorCode) → IsCounted (send_error_response cb request code) false
  unfolding send_error_response send
  send_error_response-IsCounted request code = record { count_eq = ground arith }

  call_if-IsCounted :
      (is_set : Bool) (request : ℕ) (call : Effect)
      → is_call call ≡ true
      → IsCounted (call_if cb is_set request call) is_set
  unfolding call_if
  call_if-IsCounted true request call called = record { count_eq = rw called refl }
  call_if-IsCounted false request call called = send_error_response-IsCounted request _

  call_decoded-IsCounted {ℓ} :
      {A : Type ℓ} (is_set : Bool) (request : ℕ) (decoded : Option A) (call : A → Effect)
      → ((value : A) → is_call (call value) ≡ true)
      → IsCounted (call_decoded cb is_set request decoded call) (is_set && is_some decoded)
  unfolding call_decoded
  call_decoded-IsCounted true request (some value) call called = record {
    count_eq = rw (called value) refl;
  }
  call_decoded-IsCounted true request none call called = send_error_response-IsCounted request _
  call_decoded-IsCounted false request decoded call called = send_error_response-IsCounted request _

  answer_add_peer-IsCounted : (result : AddPeerResult) → IsCounted (answer_add_peer cb result) false
  unfolding answer_add_peer send_add_peer_response send
  answer_add_peer-IsCounted success = record { count_eq = ground arith }
  answer_add_peer-IsCounted table_full = send_error_response-IsCounted _ _
  answer_add_peer-IsCounted already_exists = send_error_response-IsCounted _ _
  answer_add_peer-IsCounted failure = send_error_response-IsCounted _ _
  answer_add_peer-IsCounted no_transport = send_error_response-IsCounted _ _

  add_peer_by-IsCounted :
      (add : Option (List ℕ → AddPeerResult)) (decoded : Option (List ℕ))
      → IsCounted (add_peer_by cb add decoded) (is_some add && is_some decoded)
  unfolding add_peer_by
  add_peer_by-IsCounted none decoded = send_error_response-IsCounted _ _
  add_peer_by-IsCounted (some add) none = send_error_response-IsCounted _ _
  add_peer_by-IsCounted (some add) (some mac) = record {
    count_eq = ap suc (answer_add_peer-IsCounted (add mac)).count_eq;
  }

  route_command-IsCounted :
      (bytes : List ℕ)
      → IsCounted (route_command cb bytes) (reaches cb (get_command bytes) (get_payload bytes))
  unfolding route_command handle_add_peer handle_set_pin_config handle_get_pin_config
      handle_delete_pin_config handle_get_peer handle_set_midi_loopback handle_set_power_save
      handle_set_name handle_set_raw_stream handle_clear_pin_configs handle_get_all_pin_configs
      handle_get_mac handle_get_all_peers handle_get_config handle_get_midi_loopback
      handle_get_power_save handle_get_name handle_reset handle_get_version
  route_command-IsCounted bytes =
      let command = get_command bytes in
      let payload = get_payload bytes in
      on_test (command == Command.set_pin_config) (
        call_decoded-IsCounted cb.on_set_pin_config Command.set_pin_config
          (decode_pin_config payload) call_set_pin_config (λ value. refl))
      otherwise on_test (command == Command.get_pin_config) (
          call_decoded-IsCounted cb.on_get_pin_config Command.get_pin_config (decode_index payload)
            call_get_pin_config (λ value. refl))
      otherwise on_test (command == Command.delete_pin_config) (
          call_decoded-IsCounted cb.on_delete_pin_config Command.delete_pin_config
            (decode_index payload) call_delete_pin_config (λ value. refl))
      otherwise on_test (command == Command.clear_pin_configs) (
          call_if-IsCounted cb.on_clear_pin_configs Command.clear_pin_configs call_clear_pin_configs
            refl)
      otherwise on_test (command == Command.get_all_pin_configs) (
          call_if-IsCounted cb.on_get_all_pin_configs Command.get_all_pin_configs
            call_get_all_pin_configs refl)
      otherwise on_test (command == Command.get_mac)
          (call_if-IsCounted cb.on_get_mac Command.get_mac call_get_mac refl)
      otherwise on_test (command == Command.add_peer)
          (add_peer_by-IsCounted cb.on_add_peer (decode_mac payload))
      otherwise on_test (command == Command.get_all_peers)
          (call_if-IsCounted cb.on_get_all_peers Command.get_all_peers call_get_all_peers refl)
      otherwise on_test (command == Command.get_peer) (
          call_decoded-IsCounted cb.on_get_peer Command.get_peer (decode_index payload)
            call_get_peer (λ value. refl))
      otherwise on_test (command == Command.get_config)
          (call_if-IsCounted cb.on_get_config Command.get_config call_get_config refl)
      otherwise on_test (command == Command.set_midi_loopback) (
          call_decoded-IsCounted cb.on_set_midi_loopback Command.set_midi_loopback
            (decode_bool_flag payload) call_set_midi_loopback (λ value. refl))
      otherwise on_test (command == Command.get_midi_loopback) (
          call_if-IsCounted cb.on_get_midi_loopback Command.get_midi_loopback call_get_midi_loopback
            refl)
      otherwise on_test (command == Command.set_power_save) (
          call_decoded-IsCounted cb.on_set_power_save Command.set_power_save
            (decode_bool_flag payload) call_set_power_save (λ value. refl))
      otherwise on_test (command == Command.get_power_save)
          (call_if-IsCounted cb.on_get_power_save Command.get_power_save call_get_power_save refl)
      otherwise on_test (command == Command.set_name) (
          call_decoded-IsCounted cb.on_set_name Command.set_name (decode_name payload) call_set_name
            (λ value. refl))
      otherwise on_test (command == Command.announce) nothing-IsCounted
      otherwise on_test (command == Command.get_name)
          (call_if-IsCounted cb.on_get_name Command.get_name call_get_name refl)
      otherwise on_test (command == Command.set_raw_stream) (
          call_decoded-IsCounted cb.on_set_raw_stream Command.set_raw_stream
            (decode_raw_stream payload) call_set_raw_stream (λ value. refl))
      otherwise on_test (command == Command.raw_value) nothing-IsCounted
      otherwise on_test (command == Command.reset)
          (call_if-IsCounted cb.on_reset Command.reset call_reset refl)
      otherwise on_test (command == Command.get_version)
          (call_if-IsCounted cb.on_get_version Command.get_version call_get_version refl)
      otherwise send_error_response-IsCounted command unknown_command

  -- For a handler with a callback that sends, a callback is called exactly once when the message is a
  -- packet of this version whose command has its callback set and whose payload decodes as that
  -- command's, and none is called otherwise. The call is all that happens then, but that a request to
  -- add a peer is also answered by one message. A valid notification of this version is left alone,
  -- and every other message is answered by one message that is sent back.
  pub calls-handle_sys_ex :
      (sends : cb.on_send ≡ true) (bytes : List ℕ)
      → (calls (handle_sys_ex cb bytes) ≡ (
          if is_accepted bytes && reaches cb (get_command bytes) (get_payload bytes) then 1 else 0))
        × (length (handle_sys_ex cb bytes) ≡ acts cb bytes)
  unfolding handle_sys_ex
  calls-handle_sys_ex sends bytes = (
    ground (
      arith,
      (send_error_response-IsCounted 0 decode_failed).count_eq,
      (send_error_response-IsCounted (get_command bytes) bad_version).count_eq,
      (route_command-IsCounted bytes).count_eq,
    ),
    length-handle_sys_ex cb sends bytes,
  )
