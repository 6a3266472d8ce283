-- ===== src/Handler/Expected.antt =====
-- include/enomik_sysex.h: what a message may make the handler do.
use esp_now_midi.Base.{
  ℕ, ◌≡◌, refl, ◌⊎◌, Bool, true, false, ◌&&◌, some, List, [], ◌∷◌, leb, if◌then◌else◌, length, All,
}
use esp_now_midi.Codec.{
  is_valid, is_version_compatible, get_command, get_payload, min_packet_size, max_data_size,
  ErrorCode, error_byte, response_command,
}
use esp_now_midi.Codec.Command
use esp_now_midi.Codec.Decode.{
  decode_mac, decode_pin_config, decode_index, decode_bool_flag, decode_name, decode_raw_stream,
}
use esp_now_midi.Handler.Effects.{
  Effect, sent, call_add_peer, call_set_pin_config, call_get_pin_config, call_delete_pin_config,
  call_get_peer, call_set_midi_loopback, call_set_power_save, call_set_name, call_set_raw_stream,
  call_clear_pin_configs, call_get_all_pin_configs, call_get_mac, call_get_all_peers,
  call_get_config, call_get_midi_loopback, call_get_power_save, call_get_name, call_reset,
  call_get_version,
}
use esp_now_midi.Handler.Calls.{is_accepted}

-- The request that an error names: the command of a packet that has the form of one, else 0.
abbrev pub named_request : List ℕ → ℕ
named_request bytes =
    if leb min_packet_size (length bytes) && leb (length bytes) max_data_size && is_valid bytes
    then get_command bytes
    else 0

-- A request of this version with this command
abbrev pub Asks : List ℕ → ℕ → Type 0
Asks bytes command = (is_accepted bytes ≡ true) × (get_command bytes ≡ command)

-- An answer is a packet of this version: an error that names the request, or the answer to a new
-- peer.
abbrev pub IsAnswer : List ℕ → List ℕ → Type 0
IsAnswer bytes answer =
    (is_valid answer ≡ true)
    × (is_version_compatible answer ≡ true)
    × ((get_command answer ≡ Command.error_response)
          × ((code : ErrorCode) × (get_payload answer ≡ named_request bytes ∷ error_byte code ∷ []))
        ⊎ (get_command answer ≡ response_command Command.add_peer)
          × (get_payload answer ≡ 1 ∷ [])
          × Asks bytes Command.add_peer)

-- What a message may make the handler do.
abbrev pub IsProper : List ℕ → Effect → Type 0
IsProper bytes (sent answer) = IsAnswer bytes answer
IsProper bytes (call_add_peer mac) =
    Asks bytes Command.add_peer × (decode_mac (get_payload bytes) ≡ some mac)
IsProper bytes (call_set_pin_config value) =
    Asks bytes Command.set_pin_config × (decode_pin_config (get_payload bytes) ≡ some value)
IsProper bytes (call_get_pin_config value) =
    Asks bytes Command.get_pin_config × (decode_index (get_payload bytes) ≡ some value)
IsProper bytes (call_delete_pin_config value) =
    Asks bytes Command.delete_pin_config × (decode_index (get_payload bytes) ≡ some value)
IsProper bytes (call_get_peer value) =
    Asks bytes Command.get_peer × (decode_index (get_payload bytes) ≡ some value)
IsProper bytes (call_set_midi_loopback value) =
    Asks bytes Command.set_midi_loopback × (decode_bool_flag (get_payload bytes) ≡ some value)
IsProper bytes (call_set_power_save value) =
    Asks bytes Command.set_power_save × (decode_bool_flag (get_payload bytes) ≡ some value)
IsProper bytes (call_set_name value) =
    Asks bytes Command.set_name × (decode_name (get_payload bytes) ≡ some value)
IsProper bytes (call_set_raw_stream value) =
    Asks bytes Command.set_raw_stream × (decode_raw_stream (get_payload bytes) ≡ some value)
IsProper bytes call_clear_pin_configs = Asks bytes Command.clear_pin_configs
IsProper bytes call_get_all_pin_configs = Asks bytes Command.get_all_pin_configs
IsProper bytes call_get_mac = Asks bytes Command.get_mac
IsProper bytes call_get_all_peers = Asks bytes Command.get_all_peers
IsProper bytes call_get_config = Asks bytes Command.get_config
IsProper bytes call_get_midi_loopback = Asks bytes Command.get_midi_loopback
IsProper bytes call_get_power_save = Asks bytes Command.get_power_save
IsProper bytes call_get_name = Asks bytes Command.get_name
IsProper bytes call_reset = Asks bytes Command.reset
IsProper bytes call_get_version = Asks bytes Command.get_version

-- All that a run does is proper.
pub record AreProper (bytes : List ℕ) (effects : List Effect) : Type 0 where
  pub each : All (IsProper bytes) effects

pub AreProper-if :
    {bytes : List ℕ} (b : Bool) (xs ys : List Effect)
    → (b ≡ true → AreProper bytes xs)
    → (b ≡ false → AreProper bytes ys)
    → AreProper bytes (if b then xs else ys)
AreProper-if true xs ys yes_case no_case = yes_case refl
AreProper-if false xs ys yes_case no_case = no_case refl

-- A chain of tests: the case of the first one, or else the rest.
infixr 4 ◌or_else◌
pub ◌or_else◌ :
    {bytes : List ℕ} {b : Bool} {xs ys : List Effect}
    → (b ≡ true → AreProper bytes xs)
    → AreProper bytes ys
    → AreProper bytes (if b then xs else ys)
◌or_else◌ {b = b} {xs = xs} {ys = ys} here rest = AreProper-if b xs ys here (λ _. rest)
