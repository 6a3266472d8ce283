-- ===== src/Io/Device.antt =====
-- include/enomik_io.h: the state of `IO` and the operations on it.
use esp_now_midi.Base.{ℕ, Bool, false, Option, none, some, List, [], ◌∷◌, ◌++◌, ◌!=◌, if◌then◌else◌}
use esp_now_midi.Midi.{MidiMessage}
use esp_now_midi.Codec.{PinConfig, AddPeerResult}
use esp_now_midi.Io.State.{Floats, PinState, Readings, new_pin_state}
use esp_now_midi.Io.Touch.{calibrate_touch}
use esp_now_midi.Io.Outputs.{PinAction, initialize_pin_hardware}
use esp_now_midi.Io.Preferences.{
  Nvs, enomik_space, pin_configs_space, loopback_key, put_number, get_number, clear_space,
  save_power_save_preference, load_power_save_preference,
}
use esp_now_midi.Io.Configs.{
  set_threshold, config_index, erase_at, save_pin_configs, load_pin_configs,
}
use esp_now_midi.Io.Names.{default_name_text, copy_name, save_firmware_id, save_name, load_name}

abbrev pub raw_stream_all_pins : ℕ
raw_stream_all_pins = 0x7f

abbrev pub raw_stream_default_ms : ℕ
raw_stream_default_ms = 50

abbrev pub raw_stream_min_ms : ℕ
raw_stream_min_ms = 20

abbrev pub raw_stream_timeout_ms : ℕ
raw_stream_timeout_ms = 10000

pub record RawStream : Type 0 where
  pub on : Bool
  pub pin : ℕ
  pub interval_ms : ℕ
  pub last_frame : ℕ
  pub last_host_msg : ℕ

-- The callbacks of the application: those that answer are functions, of the others it only matters
-- whether they are set.
pub record Hooks : Type 0 where
  pub on_midi_send_request : Bool
  pub on_add_peer_request : Option (List ℕ → AddPeerResult)
  pub on_get_peer_request : Option (ℕ → Option (List ℕ))
  pub on_reset_request : Bool
  pub on_power_save_changed : Bool
  pub on_sys_ex_send_request : Bool

-- What an operation does outside of the object
pub data Action : Type 0 where
  at_pin : PinAction → Action
  send_midi : MidiMessage → Action
  send_sys_ex : List ℕ → Action
  request_add_peer : List ℕ → Action
  power_save_changed : Bool → Action
  request_reset : Action

-- `class IO`; `store` is what NVS holds.
pub record Io (F S : Type 0) : Type 0 where
  pub pin_configs : List PinConfig
  pub pin_states : List (PinState F)
  pub midi_loopback : Bool
  pub power_save : Bool
  pub default_name : List ℕ
  pub name_override : List ℕ
  pub raw_stream : RawStream
  pub store : S

-- `getName`
unfoldable pub effective_name : List ℕ → List ℕ → List ℕ
effective_name [] fallback = fallback
effective_name (c ∷ name) fallback = c ∷ name

module _ {F S : Type 0} where
  -- A new `IO`, over what NVS holds
  abbrev pub new_io : S → Io F S
  new_io store = record {
    pin_configs = [];
    pin_states = [];
    midi_loopback = false;
    power_save = false;
    default_name = default_name_text;
    name_override = [];
    raw_stream = record {
      on = false;
      pin = raw_stream_all_pins;
      interval_ms = raw_stream_default_ms;
      last_frame = 0;
      last_host_msg = 0;
    };
    store = store;
  }

  unfoldable pub get_name : Io F S → List ℕ
  unfolding effective_name
  get_name io = effective_name io.name_override io.default_name

  -- `setDefaultName`
  unfoldable pub set_default_name : List ℕ → Io F S → Io F S
  unfolding copy_name effective_name
  set_default_name name io = record io {
    default_name = effective_name (copy_name name) (copy_name default_name_text);
  }

  -- The removal of the entry of a pin from both vectors
  unfoldable pub remove_config_at : Option ℕ → Io F S → Io F S
  unfolding erase_at
  remove_config_at none io = io
  remove_config_at (some i) io = record io {
    pin_configs = erase_at i io.pin_configs;
    pin_states = erase_at i io.pin_states;
  }

module _ {F : Type 0} (floats : Floats F) where
  -- The loop of `begin`
  unfoldable pub begin_pins : Readings → List PinConfig → List (PinState F) × List PinAction
  unfolding initialize_pin_hardware calibrate_touch
  begin_pins r [] = ([], [])
  begin_pins r (c ∷ configs) =
      let rest = begin_pins r configs in
      (
        calibrate_touch floats r c (new_pin_state floats) ∷ rest.0,
        initialize_pin_hardware c ++ rest.1,
      )

module _ {F S : Type 0} (floats : Floats F) (nvs : Nvs S) where
  -- `begin`
  unfoldable pub begin : List ℕ → Readings → Io F S → Io F S × List PinAction
  unfolding begin_pins load_pin_configs get_number load_power_save_preference load_name
  begin firmware_id r io =
      let configs = load_pin_configs nvs io.store in
      let named = load_name nvs firmware_id io.store in
      let pins = begin_pins floats r configs in
      (
        record io {
          pin_configs = configs;
          pin_states = pins.0;
          midi_loopback = get_number nvs enomik_space loopback_key 0 io.store != 0;
          power_save = load_power_save_preference nvs io.store;
          name_override = named.0;
          store = named.1;
        },
        pins.1,
      )

  -- The end of `upsertPinConfig`
  unfoldable pub add_config : Readings → PinConfig → Io F S → Io F S × List PinAction
  unfolding save_pin_configs calibrate_touch initialize_pin_hardware
  add_config r c io =
      let configs = io.pin_configs ++ c ∷ [] in
      (
        record io {
          pin_configs = configs;
          pin_states = io.pin_states ++ calibrate_touch floats r c (new_pin_state floats) ∷ [];
          store = save_pin_configs nvs configs io.store;
        },
        initialize_pin_hardware c,
      )

  -- `upsertPinConfig`, by the result of its first loop
  unfoldable pub upsert_by :
      Option (List PinConfig) → Readings → PinConfig → Io F S → Io F S × List PinAction
  unfolding save_pin_configs add_config remove_config_at config_index
  upsert_by (some configs) r c io =
      (record io { pin_configs = configs; store = save_pin_configs nvs configs io.store }, [])
  upsert_by none r c io = add_config r c (remove_config_at (config_index c.pin io.pin_configs) io)

  unfoldable pub upsert_pin_config : Readings → PinConfig → Io F S → Io F S × List PinAction
  unfolding upsert_by set_threshold
  upsert_pin_config r c io = upsert_by (set_threshold c io.pin_configs) r c io

module _ {F S : Type 0} (nvs : Nvs S) where
  -- The erasure of the delete handler and of the clear handler, which then store what is left
  unfoldable pub delete_pin_config_at : ℕ → Io F S → Io F S
  unfolding erase_at save_pin_configs
  delete_pin_config_at i io = record io {
    pin_configs = erase_at i io.pin_configs;
    pin_states = erase_at i io.pin_states;
    store = save_pin_configs nvs (erase_at i io.pin_configs) io.store;
  }

  unfoldable pub clear_pin_configs : Io F S → Io F S
  unfolding save_pin_configs
  clear_pin_configs io = record io {
    pin_configs = [];
    pin_states = [];
    store = save_pin_configs nvs [] io.store;
  }

  -- `setMidiLoopback`
  unfoldable pub set_midi_loopback : Bool → Io F S → Io F S
  unfolding put_number
  set_midi_loopback enabled io = record io {
    midi_loopback = enabled;
    store = put_number nvs enomik_space loopback_key (if enabled then 1 else 0) io.store;
  }

  -- `setPowerSave`, but for the callback
  unfoldable pub set_power_save : Bool → Io F S → Io F S
  unfolding save_power_save_preference
  set_power_save enabled io = record io {
    power_save = enabled;
    store = save_power_save_preference nvs enabled io.store;
  }

  -- `setNameOverride`
  unfoldable pub set_name_override : List ℕ → Io F S → Io F S
  unfolding copy_name save_name
  set_name_override name io = record io {
    name_override = copy_name name;
    store = save_name nvs (copy_name name) io.store;
  }

  -- The state after the reset handler
  unfoldable pub reset_state : List ℕ → Io F S → Io F S
  unfolding clear_space save_firmware_id
  reset_state firmware_id io = record io {
    pin_configs = [];
    pin_states = [];
    raw_stream = record io.raw_stream { on = false };
    midi_loopback = false;
    power_save = false;
    name_override = [];
    store =
        save_firmware_id nvs firmware_id
          (clear_space nvs enomik_space (clear_space nvs pin_configs_space io.store));
  }
