-- ===== src/Io/Answered.antt =====
-- include/enomik_io.h: what is set by SysEx is what is answered.
use esp_now_midi.Base.{
  ℕ, ◌/◌, ◌%◌, ◌^◌, ◌<◌, ◌≡◌, refl, ap, ◌∙◌, ◌≢◌, inl, inr, true, false, some, List, [], ◌∷◌, ◌++◌,
  arith, ◌==◌, if◌then◌else◌, ==-eq, ==-ne, Bool-cases, take_all, u8,
}
use esp_now_midi.Codec.{PinConfig}
use esp_now_midi.Handler.Effects.{Effect, call_set_pin_config, call_get_pin_config}
use esp_now_midi.Handler.{handle_sys_ex}
use esp_now_midi.Io.State.{Floats, Readings}
use esp_now_midi.Io.Preferences.{Nvs}
use esp_now_midi.Io.Device.{Hooks, Io}
use esp_now_midi.Io.Answers.{handler_callbacks}
use esp_now_midi.Io.Commands.{perform, perform_all, on_sys_ex}
use esp_now_midi.Codec.{response_command, to_midi_message, get_command, get_payload}
use esp_now_midi.Codec.Command
use esp_now_midi.Codec.Encode.{packet, control_change, encode_pin_config}
use esp_now_midi.Codec.Decode.{decode_index, all_name_chars}
use esp_now_midi.Codec.Numbers.{carried}
use esp_now_midi.Codec.Payload.{length-packet}
use esp_now_midi.Handler.{route_command, handle_get_pin_config, call_decoded}
use esp_now_midi.Handler.Requests.{handle_sys_ex-packet, handle_sys_ex-encode}
use esp_now_midi.Handler.Effects.{send_pin_config_response, send}
use esp_now_midi.Io.Upsert.{IsIo, find_config-upsert_pin_config}
use esp_now_midi.Io.Answers.{actions_of, perform_get_pin_config}
use esp_now_midi.Io.Configs.{find_config}
use esp_now_midi.Io.Device.{send_sys_ex}

-- The type decides which of the two numbers of a configuration is carried; the other is not encoded.
encode_pin_config-carried :
    (c : PinConfig) (command : ℕ)
    → encode_pin_config (carried c) command ≡ encode_pin_config c command
unfolding encode_pin_config
encode_pin_config-carried c command = elim (Bool-cases (c.midi_type == control_change)) [
  | inl used ↦ rw used refl
  | inr other ↦ rw other refl
]

handle_sys_ex-get_pin_config :
    (h : Hooks) (pin : ℕ)
    → handle_sys_ex (handler_callbacks h) (packet Command.get_pin_config (pin ∷ []))
      ≡ call_get_pin_config pin ∷ []
unfolding handler_callbacks route_command handle_get_pin_config call_decoded decode_index packet
    get_command get_payload
handle_sys_ex-get_pin_config h pin =
    handle_sys_ex-packet (handler_callbacks h) Command.get_pin_config (pin ∷ []) (omega arith)
    ∙ refl

short_packet :
    (c : PinConfig) (command : ℕ)
    → to_midi_message (encode_pin_config c command) ≡ encode_pin_config c command
unfolding to_midi_message encode_pin_config
short_packet c command = take_all 256 (encode_pin_config c command) (
    omega (
      arith,
      length-packet command (
          c.pin
          ∷ c.mode
          ∷ c.threshold
          ∷ c.midi_channel
          ∷ u8 c.midi_type / 2
          ∷ (if c.midi_type == control_change then c.midi_cc else c.midi_note)
          ∷ c.min_midi_value
          ∷ c.max_midi_value
          ∷ []),
    ))

module _ {F S : Type 0} (floats : Floats F) (nvs : Nvs S) (firmware_id mac : List ℕ)
    (h : Hooks) where
  -- One effect is all that is performed.
  on_sys_ex-single :
      (r : Readings) (now : ℕ) (bytes : List ℕ) (effect : Effect) (io : Io F S)
      → handle_sys_ex (handler_callbacks h) bytes ≡ effect ∷ []
      → on_sys_ex floats nvs firmware_id mac h r now bytes io
        ≡ perform_all floats nvs firmware_id mac h r now
            (effect ∷ [])
            (record io { raw_stream = record io.raw_stream { last_host_msg = now } })
  unfolding on_sys_ex
  on_sys_ex-single r now bytes effect io handled =
      ap
        (λ effects.
          perform_all floats nvs firmware_id mac h r now effects
            (record io { raw_stream = record io.raw_stream { last_host_msg = now } }))
        handled

  sent_config :
      (pin : ℕ) (c : PinConfig)
      → h.on_sys_ex_send_request ≡ true
      → perform_get_pin_config h pin (some c) ++ []
        ≡ send_sys_ex (encode_pin_config c (response_command Command.get_pin_config)) ∷ []
  unfolding perform_get_pin_config send_pin_config_response send handler_callbacks actions_of
  sent_config pin c sends =
      rw (sends, actions_of)
        (ap (λ bytes. send_sys_ex bytes ∷ [])
          (short_packet c (response_command Command.get_pin_config)))

  answer_config :
      (r : Readings) (now : ℕ) (pin : ℕ) (c : PinConfig) (io : Io F S)
      → h.on_sys_ex_send_request ≡ true
      → find_config pin io.pin_configs ≡ some c
      → (on_sys_ex floats nvs firmware_id mac h r now
          (packet Command.get_pin_config (pin ∷ []))
          io).1
        ≡ send_sys_ex (encode_pin_config c (response_command Command.get_pin_config)) ∷ []
  unfolding perform_all perform
  answer_config r now pin c io sends found =
      ap (λ result. result.1)
        (on_sys_ex-single r now (packet Command.get_pin_config (pin ∷ [])) (call_get_pin_config pin)
          io (handle_sys_ex-get_pin_config h pin))
      ∙ ap (λ o. perform_get_pin_config h pin o ++ []) found
      ∙ sent_config pin c sends

  -- After a message that sets the configuration of a pin, the request for the configuration of that pin
  -- is answered with the encoding of exactly what was set, and the request for another pin that has one
  -- is answered with what it had before. The device has one configuration for each pin, the type is an
  -- even byte, as those of the channel messages are, and the application has set its SysEx callback.
  pub on_sys_ex-set_get :
      (c other : PinConfig) (io : Io F S) (r asked : Readings) (now later : ℕ)
      → IsIo io
      → c.midi_type < 2 ^ 8
      → c.midi_type % 2 ≡ 0
      → h.on_sys_ex_send_request ≡ true
      → c.pin ≢ other.pin
      → find_config other.pin io.pin_configs ≡ some other
      → let after =
          (on_sys_ex floats nvs firmware_id mac h r now
            (encode_pin_config c Command.set_pin_config)
            io).0 in
        ((on_sys_ex floats nvs firmware_id mac h asked later
            (packet Command.get_pin_config (c.pin ∷ []))
            after).1
          ≡ send_sys_ex (encode_pin_config c (response_command Command.get_pin_config)) ∷ [])
        × ((on_sys_ex floats nvs firmware_id mac h asked later
              (packet Command.get_pin_config (other.pin ∷ []))
              after).1
            ≡ send_sys_ex (encode_pin_config other (response_command Command.get_pin_config)) ∷ [])
  unfolding perform_all perform handler_callbacks all_name_chars
  on_sys_ex-set_get c other io r asked now later v byte even sends differ had = (
    answer_config asked later c.pin (carried c) after sends
          (stored c.pin ∙ rw (==-eq c.pin c.pin refl) refl)
        ∙ ap (λ bytes. send_sys_ex bytes ∷ [])
            (encode_pin_config-carried c (response_command Command.get_pin_config)),
    answer_config asked later other.pin other after sends
        (stored other.pin ∙ rw (==-ne c.pin other.pin differ) had),
  )
    where
      heard : Io F S
      heard = record io { raw_stream = record io.raw_stream { last_host_msg = now } }

      after : Io F S
      after =
          (on_sys_ex floats nvs firmware_id mac h r now (encode_pin_config c Command.set_pin_config)
            io).0

      handled :
          handle_sys_ex (handler_callbacks h) (encode_pin_config c Command.set_pin_config)
          ≡ call_set_pin_config (carried c) ∷ []
      handled =
          (handle_sys_ex-encode (handler_callbacks h) c
            (record { pin = 0; enable = false; interval = 0 }) [] byte even (omega arith)
            (omega arith) refl (omega arith) refl refl refl).0

      stored :
          (p : ℕ)
          → find_config p after.pin_configs
            ≡ (if c.pin == p then some (carried c) else find_config p io.pin_configs)
      stored p =
          ap (λ result. find_config p result.0.pin_configs)
            (on_sys_ex-single r now (encode_pin_config c Command.set_pin_config)
              (call_set_pin_config (carried c)) io handled)
          ∙ find_config-upsert_pin_config floats nvs r (carried c) p heard
              (record { aligned = v.aligned; apart = v.apart })
