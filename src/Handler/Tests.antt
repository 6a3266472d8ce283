-- ===== src/Handler/Tests.antt =====
-- Runs of the command handler at concrete inputs.
use esp_now_midi.Base.{ℕ, ◌≡◌, refl, true, some, List, [], ◌∷◌, arith, length}
use esp_now_midi.Codec.{
  is_valid, is_version_compatible, get_command, get_payload, PinConfig, RawStreamRequest, success,
}
use esp_now_midi.Codec.Command
use esp_now_midi.Codec.Encode.{packet, encode_pin_config, encode_raw_stream, encode_name}
use esp_now_midi.Codec.Decode.{decode_mac, all_name_chars}
use esp_now_midi.Codec.Numbers.{carried}
use esp_now_midi.Handler.Effects.{
  Callbacks, call_set_pin_config, call_set_raw_stream, call_set_name,
}
use esp_now_midi.Handler.{handle_sys_ex}
use esp_now_midi.Handler.Calls.{acts}
use esp_now_midi.Handler.Passed.{calls, calls-handle_sys_ex}
use esp_now_midi.Handler.Expected.{AreProper}
use esp_now_midi.Handler.Proper.{handle_sys_ex-AreProper}
use esp_now_midi.Handler.Requests.{handle_sys_ex-encode}

abbrev all_callbacks : Callbacks
all_callbacks = record {
  on_set_pin_config = true;
  on_get_pin_config = true;
  on_delete_pin_config = true;
  on_get_peer = true;
  on_set_midi_loopback = true;
  on_set_power_save = true;
  on_set_name = true;
  on_set_raw_stream = true;
  on_clear_pin_configs = true;
  on_get_all_pin_configs = true;
  on_get_mac = true;
  on_get_all_peers = true;
  on_get_config = true;
  on_get_midi_loopback = true;
  on_get_power_save = true;
  on_get_name = true;
  on_reset = true;
  on_get_version = true;
  on_add_peer = some (λ mac. success);
  on_send = true;
}

-- A request to add a peer, by the twelve halves of its address
abbrev add_request : List ℕ
add_request = packet Command.add_peer (1 ∷ 2 ∷ 3 ∷ 4 ∷ 5 ∷ 6 ∷ 7 ∷ 8 ∷ 9 ∷ 10 ∷ 11 ∷ 12 ∷ [])

abbrev pot : PinConfig
pot = record {
  pin = 4;
  mode = 3;
  threshold = 2;
  midi_channel = 1;
  midi_type = 0xb0;
  midi_cc = 7;
  midi_note = 60;
  min_midi_value = 0;
  max_midi_value = 127;
}

abbrev stream : RawStreamRequest
stream = record { pin = 4; enable = true; interval = 20 }

abbrev title : List ℕ
title = 80 ∷ 97 ∷ 100 ∷ []

title_chars : all_name_chars title ≡ true
unfolding all_name_chars
title_chars = refl

calls-handle_sys_ex_example :
    (calls (handle_sys_ex all_callbacks add_request) ≡ 1)
    × (length (handle_sys_ex all_callbacks add_request) ≡ acts all_callbacks add_request)
unfolding packet is_valid is_version_compatible get_command decode_mac get_payload
calls-handle_sys_ex_example = calls-handle_sys_ex all_callbacks refl add_request

handle_sys_ex-AreProper_example : AreProper add_request (handle_sys_ex all_callbacks add_request)
handle_sys_ex-AreProper_example = handle_sys_ex-AreProper all_callbacks add_request

handle_sys_ex-encode_example :
    (handle_sys_ex all_callbacks (encode_pin_config pot Command.set_pin_config)
      ≡ call_set_pin_config (carried pot) ∷ [])
    × (handle_sys_ex all_callbacks (encode_raw_stream stream Command.set_raw_stream)
        ≡ call_set_raw_stream stream ∷ [])
    × (handle_sys_ex all_callbacks (encode_name title Command.set_name) ≡ call_set_name title ∷ [])
handle_sys_ex-encode_example =
    handle_sys_ex-encode all_callbacks pot stream title (omega arith) refl (omega arith)
      (omega arith) title_chars (omega arith) refl refl refl
