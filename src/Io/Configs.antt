-- ===== src/Io/Configs.antt =====
-- include/enomik_io.h: the pin configurations and how they are stored.
use esp_now_midi.Base.{
  ℕ, zero, suc, Bool, ◌&&◌, ◌||◌, Option, none, some, List, [], ◌∷◌, ◌==◌, if◌then◌else◌, length,
  u32,
}
use esp_now_midi.Codec.{PinConfig, byte}
use esp_now_midi.Io.Preferences.{
  Nvs, pin_configs_space, pin_config_key, count_key, put_bytes, get_bytes, put_number, get_number,
}

-- `sameExceptThreshold`
unfoldable pub same_except_threshold : PinConfig → PinConfig → Bool
same_except_threshold a b =
    a.pin == b.pin
    && a.mode == b.mode
    && a.midi_channel == b.midi_channel
    && a.midi_type == b.midi_type
    && a.midi_cc == b.midi_cc
    && a.midi_note == b.midi_note
    && a.min_midi_value == b.min_midi_value
    && a.max_midi_value == b.max_midi_value

-- The first loop of `upsertPinConfig`, with `none` where no entry differs in its threshold only
unfoldable pub set_threshold : PinConfig → List PinConfig → Option (List PinConfig)
unfolding same_except_threshold
set_threshold c [] = none
set_threshold c (existing ∷ configs) =
    let rest = set_threshold c configs in
    if existing.pin == c.pin && same_except_threshold existing c
    then some (record existing { threshold = c.threshold } ∷ configs)
    else elim rest [ none ↦ none | some changed ↦ some (existing ∷ changed) ]

-- The first entry of a pin, with its index
unfoldable pub config_index : ℕ → List PinConfig → Option ℕ
config_index pin [] = none
config_index pin (c ∷ configs) =
    let rest = config_index pin configs in
    if c.pin == pin then some 0 else elim rest [ none ↦ none | some i ↦ some (suc i) ]

-- `erase(begin() + i)`
unfoldable pub erase_at {ℓ} : {A : Type ℓ} → ℕ → List A → List A
erase_at i [] = []
erase_at zero (x ∷ xs) = xs
erase_at (suc i) (x ∷ xs) = x ∷ erase_at i xs

-- The loop that looks for a configuration
unfoldable pub find_config : ℕ → List PinConfig → Option PinConfig
find_config pin [] = none
find_config pin (c ∷ configs) =
    let rest = find_config pin configs in if c.pin == pin then some c else rest

-- The record of `savePinConfigsToPrefs`
unfoldable pub record_bytes : PinConfig → List ℕ
record_bytes c =
    c.pin ∷ c.mode ∷ c.midi_channel ∷ c.midi_type ∷ c.midi_cc ∷ c.midi_note ∷ c.min_midi_value
    ∷ c.max_midi_value ∷ c.threshold ∷ []

-- The configuration of a record, which `loadPinConfigsFromPrefs` skips at another length
unfoldable pub config_of_record : List ℕ → Option PinConfig
config_of_record buf =
    if length buf == 8 || length buf == 9
    then some (record {
      pin = byte buf 0;
      mode = byte buf 1;
      threshold = if length buf == 9 then byte buf 8 else 0;
      midi_channel = byte buf 2;
      midi_type = byte buf 3;
      midi_cc = byte buf 4;
      midi_note = byte buf 5;
      min_midi_value = byte buf 6;
      max_midi_value = byte buf 7;
    })
    else none

abbrev pub cons_some {ℓ} : {A : Type ℓ} → Option A → List A → List A
cons_some none xs = xs
cons_some (some x) xs = x ∷ xs

module _ {S : Type 0} (nvs : Nvs S) where
  -- The loop of `savePinConfigsToPrefs`, from the i-th entry on
  unfoldable pub save_records : ℕ → List PinConfig → S → S
  unfolding put_bytes record_bytes
  save_records i [] store = store
  save_records i (c ∷ configs) store =
      save_records (suc i) configs
        (put_bytes nvs pin_configs_space (pin_config_key i) (record_bytes c) store)

  -- `savePinConfigsToPrefs`
  unfoldable pub save_pin_configs : List PinConfig → S → S
  unfolding save_records put_number
  save_pin_configs configs store =
      put_number nvs pin_configs_space count_key (u32 (length configs))
        (save_records 0 configs store)

  -- The loop of `loadPinConfigsFromPrefs`: `count` entries from the i-th on
  unfoldable pub load_records : ℕ → ℕ → S → List PinConfig
  unfolding get_bytes config_of_record
  load_records zero i store = []
  load_records (suc count) i store =
      cons_some (config_of_record (get_bytes nvs pin_configs_space (pin_config_key i) 9 store))
        (load_records count (suc i) store)

  -- `loadPinConfigsFromPrefs`
  unfoldable pub load_pin_configs : S → List PinConfig
  unfolding load_records get_number
  load_pin_configs store = load_records (get_number nvs pin_configs_space count_key 0 store) 0 store
