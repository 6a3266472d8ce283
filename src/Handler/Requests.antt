-- ===== src/Handler/Requests.antt =====
-- include/enomik_sysex.h: what a request asks for, the handler calls.
use esp_now_midi.Base.{
  ℕ, zero, suc, ◌%◌, ◌^◌, ◌≤◌, ◌<◌, ◌≡◌, ◌∙◌, true, some, List, [], ◌∷◌, arith, length,
}
use esp_now_midi.Codec.{PinConfig, RawStreamRequest, get_command, get_payload}
use esp_now_midi.Codec.Command
use esp_now_midi.Codec.Encode.{
  packet, encode_pin_config, encode_raw_stream, encode_name, name_bytes_from,
}
use esp_now_midi.Codec.Decode.{decode_pin_config, decode_raw_stream, decode_name, all_name_chars}
use esp_now_midi.Codec.Payload.{packet_opened, length-packet}
use esp_now_midi.Codec.Numbers.{carried, decode-encode_pin_config}
use esp_now_midi.Codec.Names.{decode-encode_name}
use esp_now_midi.Handler.Effects.{
  Callbacks, call_set_pin_config, call_set_raw_stream, call_set_name,
}
use esp_now_midi.Handler.{
  call_decoded, handle_set_pin_config, handle_set_raw_stream, handle_set_name, route_command,
  handle_sys_ex,
}

-- A packet whose payload fits is routed by its command.
pub handle_sys_ex-packet :
    (cb : Callbacks) (command : ℕ) (payload : List ℕ)
    → length payload ≤ 250
    → handle_sys_ex cb (packet command payload) ≡ route_command cb (packet command payload)
unfolding handle_sys_ex
handle_sys_ex-packet cb command payload fits =
    let opened = packet_opened command payload in
    ground (arith, opened.0, opened.1, length-packet command payload)

route_pin :
    (cb : Callbacks) (bytes : List ℕ) (cfg : PinConfig)
    → get_command bytes ≡ Command.set_pin_config
    → cb.on_set_pin_config ≡ true
    → decode_pin_config (get_payload bytes) ≡ some cfg
    → route_command cb bytes ≡ call_set_pin_config cfg ∷ []
unfolding route_command handle_set_pin_config call_decoded
route_pin cb bytes cfg command is_set decoded = ground (arith, command, is_set, decoded)

route_raw :
    (cb : Callbacks) (bytes : List ℕ) (req : RawStreamRequest)
    → get_command bytes ≡ Command.set_raw_stream
    → cb.on_set_raw_stream ≡ true
    → decode_raw_stream (get_payload bytes) ≡ some req
    → route_command cb bytes ≡ call_set_raw_stream req ∷ []
unfolding route_command handle_set_raw_stream call_decoded
route_raw cb bytes req command is_set decoded = ground (arith, command, is_set, decoded)

route_name :
    (cb : Callbacks) (bytes : List ℕ) (name : List ℕ)
    → get_command bytes ≡ Command.set_name
    → cb.on_set_name ≡ true
    → decode_name (get_payload bytes) ≡ some name
    → route_command cb bytes ≡ call_set_name name ∷ []
unfolding route_command handle_set_name call_decoded
route_name cb bytes name command is_set decoded = ground (arith, command, is_set, decoded)

length-name_bytes_from :
    (rounds : ℕ) (name : List ℕ) → length (name_bytes_from rounds name) ≤ rounds
unfolding name_bytes_from
length-name_bytes_from zero name = ground arith
length-name_bytes_from (suc rounds) [] = ground arith
length-name_bytes_from (suc rounds) (c ∷ name) = ground (arith, length-name_bytes_from rounds name)

-- A pin configuration with the status byte of a channel message, a request for a raw stream with
-- seven bits of pin and interval, and a printable name of at most 16 characters, each in the packet
-- of the command that sets it, make the handler call the callback for it, when it is registered, with
-- what was encoded, and nothing else; of the two numbers of a pin configuration the one that its
-- type uses stands for both.
pub handle_sys_ex-encode :
    (cb : Callbacks) (cfg : PinConfig) (req : RawStreamRequest) (name : List ℕ)
    → cfg.midi_type < 2 ^ 8
    → cfg.midi_type % 2 ≡ 0
    → req.pin < 2 ^ 7
    → req.interval < 2 ^ 7
    → all_name_chars name ≡ true
    → length name ≤ 16
    → cb.on_set_pin_config ≡ true
    → cb.on_set_raw_stream ≡ true
    → cb.on_set_name ≡ true
    → (handle_sys_ex cb (encode_pin_config cfg Command.set_pin_config)
        ≡ call_set_pin_config (carried cfg) ∷ [])
      × (handle_sys_ex cb (encode_raw_stream req Command.set_raw_stream)
          ≡ call_set_raw_stream req ∷ [])
      × (handle_sys_ex cb (encode_name name Command.set_name) ≡ call_set_name name ∷ [])
unfolding encode_pin_config encode_raw_stream encode_name
handle_sys_ex-encode cb cfg req name byte even small1 small2 chars short pin_set raw_set name_set =
    (
      handle_sys_ex-packet cb Command.set_pin_config _ (omega arith)
          ∙ route_pin cb _ (carried cfg) (packet_opened Command.set_pin_config _).2 pin_set
              (decode-encode_pin_config cfg req Command.set_pin_config byte even small1 small2).0,
      handle_sys_ex-packet cb Command.set_raw_stream _ (omega arith)
          ∙ route_raw cb _ req (packet_opened Command.set_raw_stream _).2 raw_set
              (decode-encode_pin_config cfg req Command.set_raw_stream byte even small1 small2).1,
      handle_sys_ex-packet cb Command.set_name (name_bytes_from 16 name)
            (omega (arith, length-name_bytes_from 16 name))
          ∙ route_name cb _ name (packet_opened Command.set_name (name_bytes_from 16 name)).2
              name_set (decode-encode_name name Command.set_name chars short),
    )
