-- ===== src/Io/Preferences.antt =====
-- include/esp_now_midi_prefs.h: `Preferences` over NVS.
use esp_now_midi.Base.{ℕ, Bool, Option, none, some, List, [], ◌!=◌, if◌then◌else◌}

-- The two namespaces, and the keys of both
pub data Space : Type 0 where
  pin_configs_space enomik_space : Space

pub data Key : Type 0 where
  pin_config_key : ℕ → Key
  count_key loopback_key power_save_key name_key firmware_key : Key

-- NVS: `opens` is whether initialising it and opening a namespace succeed, and an operation that
-- fails gives `none`. `get_blob` also takes the size of the buffer.
pub record Nvs (S : Type 0) : Type 0 where
  pub opens : S → Space → Bool
  pub set_blob : Space → Key → List ℕ → S → Option S
  pub get_blob : Space → Key → ℕ → S → Option (List ℕ)
  pub set_number : Space → Key → ℕ → S → Option S
  pub get_number : Space → Key → S → Option ℕ
  pub erase_all : Space → S → S

abbrev pub or_else {ℓ} : {A : Type ℓ} → A → Option A → A
or_else a none = a
or_else a (some b) = b

module _ {S : Type 0} (nvs : Nvs S) where
  -- `putBytes`, between `begin` and `end`
  unfoldable pub put_bytes : Space → Key → List ℕ → S → S
  put_bytes space key value store =
      if nvs.opens store space then or_else store (nvs.set_blob space key value store) else store

  -- `getBytes`: the bytes, whose number is its result
  unfoldable pub get_bytes : Space → Key → ℕ → S → List ℕ
  get_bytes space key max_len store =
      if nvs.opens store space then or_else [] (nvs.get_blob space key max_len store) else []

  -- `putUInt` and `putUChar`
  unfoldable pub put_number : Space → Key → ℕ → S → S
  put_number space key value store =
      if nvs.opens store space then or_else store (nvs.set_number space key value store) else store

  -- `getUInt` and `getUChar`
  unfoldable pub get_number : Space → Key → ℕ → S → ℕ
  get_number space key default_value store =
      if nvs.opens store space
      then or_else default_value (nvs.get_number space key store)
      else default_value

  -- `clear`
  unfoldable pub clear_space : Space → S → S
  clear_space space store = if nvs.opens store space then nvs.erase_all space store else store

  -- `savePowerSavePreference`
  unfoldable pub save_power_save_preference : Bool → S → S
  unfolding put_number
  save_power_save_preference enabled =
      put_number enomik_space power_save_key (if enabled then 1 else 0)

  -- `loadPowerSavePreference`
  unfoldable pub load_power_save_preference : S → Bool
  unfolding get_number
  load_power_save_preference store = get_number enomik_space power_save_key 0 store != 0
