-- ===== src/Handler/Proper.antt =====
-- include/enomik_sysex.h: the handler calls back only for what it was asked, and answers readably.
use esp_now_midi.Base.{
  ℕ, ◌≡◌, refl, sym, ap, ◌∙◌, inl, inr, Bool, true, false, not, ◌||◌, Option, none, some, List, [],
  ◌∷◌, arith, ltb, ◌==◌, ==_iff, length,
}
use esp_now_midi.Codec.{
  AddPeerResult, success, table_full, already_exists, failure, no_transport, is_valid,
  is_version_compatible, get_command, get_payload, to_midi_message, min_packet_size, max_data_size,
  ErrorCode, error_byte, bad_version, unknown_command, not_ready, decode_failed, response_command,
}
use esp_now_midi.Codec.Command
use esp_now_midi.Codec.Encode.{packet, encode_error, encode_byte_response, bool_byte}
use esp_now_midi.Codec.Decode.{
  decode_mac, decode_pin_config, decode_index, decode_bool_flag, decode_name, decode_raw_stream,
}
use esp_now_midi.Codec.Payload.{packet_opened}
use esp_now_midi.Handler.Effects.{
  Callbacks, Effect, call_set_pin_config, call_get_pin_config, call_delete_pin_config,
  call_get_peer, call_set_midi_loopback, call_set_power_save, call_set_name, call_set_raw_stream,
  call_clear_pin_configs, call_get_all_pin_configs, call_get_mac, call_get_all_peers,
  call_get_config, call_get_midi_loopback, call_get_power_save, call_get_name, call_reset,
  call_get_version, send, send_error_response, send_add_peer_response,
}
use esp_now_midi.Handler.{
  call_if, call_decoded, handle_set_pin_config, handle_get_pin_config, handle_delete_pin_config,
  handle_clear_pin_configs, handle_get_all_pin_configs, handle_get_mac, handle_add_peer,
  handle_get_all_peers, handle_get_peer, handle_get_config, handle_set_midi_loopback,
  handle_get_midi_loopback, handle_set_power_save, handle_get_power_save, handle_set_name,
  handle_get_name, handle_set_raw_stream, handle_reset, handle_get_version, answer_add_peer,
  add_peer_by, route_command, handle_sys_ex,
}
use esp_now_midi.Handler.Calls.{is_accepted}
use esp_now_midi.Handler.Expected.{
  named_request, IsAnswer, IsProper, AreProper, AreProper-if, ◌or_else◌,
}

error-IsAnswer :
    (bytes : List ℕ) (request : ℕ) (code : ErrorCode)
    → request ≡ named_request bytes
    → IsAnswer bytes (packet Command.error_response (request ∷ error_byte code ∷ []))
error-IsAnswer bytes request code names =
    let opened = packet_opened Command.error_response (request ∷ error_byte code ∷ []) in
    (
      opened.0,
      opened.1,
      inl (opened.2, (code, opened.3 ∙ ap (λ r. r ∷ error_byte code ∷ []) names)),
    )

short_message :
    (command a b : ℕ) → to_midi_message (packet command (a ∷ b ∷ [])) ≡ packet command (a ∷ b ∷ [])
unfolding to_midi_message packet
short_message command a b = refl

short_answer : (command a : ℕ) → to_midi_message (packet command (a ∷ [])) ≡ packet command (a ∷ [])
unfolding to_midi_message packet
short_answer command a = refl

module _ (cb : Callbacks) (bytes : List ℕ) where
  send_error_response-AreProper :
      (request : ℕ) (code : ErrorCode)
      → request ≡ named_request bytes
      → AreProper bytes (send_error_response cb request code)
  unfolding send_error_response send encode_error
  send_error_response-AreProper request code names =
      AreProper-if cb.on_send _ _
        (λ _. record {
          each = (
            rw (short_message Command.error_response request (error_byte code))
                (error-IsAnswer bytes request code names),
            tt,
          );
        })
        (λ _. record { each = tt })

  call_if-AreProper :
      (is_set : Bool) (request : ℕ) (call : Effect)
      → request ≡ named_request bytes
      → IsProper bytes call
      → AreProper bytes (call_if cb is_set request call)
  unfolding call_if
  call_if-AreProper is_set request call names proper =
      AreProper-if is_set _ _ (λ _. record { each = (proper, tt) })
        (λ _. send_error_response-AreProper request not_ready names)

  call_decoded-AreProper {ℓ} :
      {A : Type ℓ} (is_set : Bool) (request : ℕ) (decoded : Option A) (call : A → Effect)
      → request ≡ named_request bytes
      → ((value : A) → decoded ≡ some value → IsProper bytes (call value))
      → AreProper bytes (call_decoded cb is_set request decoded call)
  unfolding call_decoded
  call_decoded-AreProper true request (some value) call names proper = record {
    each = (proper value refl, tt);
  }
  call_decoded-AreProper true request none call names proper =
      send_error_response-AreProper request decode_failed names
  call_decoded-AreProper false request decoded call names proper =
      send_error_response-AreProper request not_ready names

  module _ (accepted : is_accepted bytes ≡ true) where
    named-get_command : get_command bytes ≡ named_request bytes
    named-get_command = ground arith

    answer_add_peer-AreProper :
        (result : AddPeerResult)
        → get_command bytes ≡ Command.add_peer
        → AreProper bytes (answer_add_peer cb result)
    unfolding answer_add_peer send_add_peer_response send encode_byte_response
    answer_add_peer-AreProper success asks =
        AreProper-if cb.on_send _ _ (λ _. record { each = (added, tt) }) (λ _. record { each = tt })
      where
        added :
            IsAnswer bytes
              (to_midi_message (packet (response_command Command.add_peer) (bool_byte true ∷ [])))
        added =
            let opened = packet_opened 71 (1 ∷ []) in
            rw (short_answer 71 1) (opened.0, opened.1, inr (opened.2, opened.3, (accepted, asks)))
    answer_add_peer-AreProper table_full asks =
        send_error_response-AreProper _ _ (sym asks ∙ named-get_command)
    answer_add_peer-AreProper already_exists asks =
        send_error_response-AreProper _ _ (sym asks ∙ named-get_command)
    answer_add_peer-AreProper failure asks =
        send_error_response-AreProper _ _ (sym asks ∙ named-get_command)
    answer_add_peer-AreProper no_transport asks =
        send_error_response-AreProper _ _ (sym asks ∙ named-get_command)

    add_peer_by-AreProper :
        get_command bytes ≡ Command.add_peer
        → (add : Option (List ℕ → AddPeerResult)) (decoded : Option (List ℕ))
        → decode_mac (get_payload bytes) ≡ decoded
        → AreProper bytes (add_peer_by cb add decoded)
    unfolding add_peer_by
    add_peer_by-AreProper asks none decoded h =
        send_error_response-AreProper _ _ (sym asks ∙ named-get_command)
    add_peer_by-AreProper asks (some add) none h =
        send_error_response-AreProper _ _ (sym asks ∙ named-get_command)
    add_peer_by-AreProper asks (some add) (some mac) h = record {
      each = (((accepted, asks), h), (answer_add_peer-AreProper (add mac) asks).each);
    }

    -- The command is this one, by the test of `route_command`.
    asked : (command : ℕ) → (get_command bytes == command) ≡ true → get_command bytes ≡ command
    asked command test = (==_iff _ _).0 test

    decoded-AreProper {ℓ} :
        {A : Type ℓ} (is_set : Bool) (request : ℕ) (decoded : Option A) (call : A → Effect)
        → (get_command bytes ≡ request
            → (value : A) → decoded ≡ some value
            → IsProper bytes (call value))
        → (get_command bytes == request) ≡ true
        → AreProper bytes (call_decoded cb is_set request decoded call)
    decoded-AreProper is_set request decoded call proper test =
        call_decoded-AreProper is_set request decoded call
          (sym (asked request test) ∙ named-get_command) (proper (asked request test))

    plain-AreProper :
        (is_set : Bool) (request : ℕ) (call : Effect)
        → (get_command bytes ≡ request → IsProper bytes call)
        → (get_command bytes == request) ≡ true
        → AreProper bytes (call_if cb is_set request call)
    plain-AreProper is_set request call proper test =
        call_if-AreProper is_set request call (sym (asked request test) ∙ named-get_command)
          (proper (asked request test))

    nothing-AreProper : (command : ℕ) → (get_command bytes == command) ≡ true → AreProper bytes []
    nothing-AreProper command test = record { each = tt }

    route_command-AreProper : AreProper bytes (route_command cb bytes)
    unfolding route_command handle_add_peer handle_set_pin_config handle_get_pin_config
        handle_delete_pin_config handle_clear_pin_configs handle_get_all_pin_configs handle_get_mac
        handle_get_all_peers handle_get_peer handle_get_config handle_set_midi_loopback
        handle_get_midi_loopback handle_set_power_save handle_get_power_save handle_set_name
        handle_get_name handle_set_raw_stream handle_reset handle_get_version
    route_command-AreProper =
        decoded-AreProper cb.on_set_pin_config _ (decode_pin_config (get_payload bytes))
          call_set_pin_config (λ asks value h. ((accepted, asks), h))
        or_else decoded-AreProper cb.on_get_pin_config _ (decode_index (get_payload bytes))
            call_get_pin_config (λ asks value h. ((accepted, asks), h))
        or_else decoded-AreProper cb.on_delete_pin_config _ (decode_index (get_payload bytes))
            call_delete_pin_config (λ asks value h. ((accepted, asks), h))
        or_else plain-AreProper cb.on_clear_pin_configs _ call_clear_pin_configs
            (λ asks. (accepted, asks))
        or_else plain-AreProper cb.on_get_all_pin_configs _ call_get_all_pin_configs
            (λ asks. (accepted, asks))
        or_else plain-AreProper cb.on_get_mac _ call_get_mac (λ asks. (accepted, asks))
        or_else (λ test. add_peer_by-AreProper (asked _ test) cb.on_add_peer _ refl)
        or_else plain-AreProper cb.on_get_all_peers _ call_get_all_peers (λ asks. (accepted, asks))
        or_else decoded-AreProper cb.on_get_peer _ (decode_index (get_payload bytes)) call_get_peer
            (λ asks value h. ((accepted, asks), h))
        or_else plain-AreProper cb.on_get_config _ call_get_config (λ asks. (accepted, asks))
        or_else decoded-AreProper cb.on_set_midi_loopback _ (decode_bool_flag (get_payload bytes))
            call_set_midi_loopback (λ asks value h. ((accepted, asks), h))
        or_else plain-AreProper cb.on_get_midi_loopback _ call_get_midi_loopback
            (λ asks. (accepted, asks))
        or_else decoded-AreProper cb.on_set_power_save _ (decode_bool_flag (get_payload bytes))
            call_set_power_save (λ asks value h. ((accepted, asks), h))
        or_else plain-AreProper cb.on_get_power_save _ call_get_power_save
            (λ asks. (accepted, asks))
        or_else decoded-AreProper cb.on_set_name _ (decode_name (get_payload bytes)) call_set_name
            (λ asks value h. ((accepted, asks), h))
        or_else nothing-AreProper Command.announce
        or_else plain-AreProper cb.on_get_name _ call_get_name (λ asks. (accepted, asks))
        or_else decoded-AreProper cb.on_set_raw_stream _ (decode_raw_stream (get_payload bytes))
            call_set_raw_stream (λ asks value h. ((accepted, asks), h))
        or_else nothing-AreProper Command.raw_value
        or_else plain-AreProper cb.on_reset _ call_reset (λ asks. (accepted, asks))
        or_else plain-AreProper cb.on_get_version _ call_get_version (λ asks. (accepted, asks))
        or_else send_error_response-AreProper (get_command bytes) unknown_command named-get_command

-- Whatever bytes arrive, the handler calls a callback only for a valid packet of this version that
-- carries its command, with the arguments that the payload decodes to; and all that it sends is a
-- packet of this version that can be read: an error that names the request, or the confirmation of
-- a new peer.
pub handle_sys_ex-AreProper :
    (cb : Callbacks) (bytes : List ℕ) → AreProper bytes (handle_sys_ex cb bytes)
unfolding handle_sys_ex
handle_sys_ex-AreProper cb bytes =
    AreProper-if (ltb (length bytes) min_packet_size || ltb max_data_size (length bytes)) _ _
      (λ size. send_error_response-AreProper cb bytes 0 decode_failed (ground arith))
      (λ size.
        AreProper-if (not (is_valid bytes)) _ _
          (λ bad. send_error_response-AreProper cb bytes 0 decode_failed (ground arith))
          (λ good.
            AreProper-if (not (is_version_compatible bytes)) _ _
              (λ other.
                send_error_response-AreProper cb bytes (get_command bytes) bad_version
                  (ground arith))
              (λ same. route_command-AreProper cb bytes (ground arith))))
