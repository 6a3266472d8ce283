-- ===== src/Io/Restart.antt =====
-- include/enomik_io.h: a restart comes back with the settings that SysEx made.
use esp_now_midi.Base.{
  ℕ, zero, suc, ◌+◌, ◌^◌, ◌≤◌, ◌<◌, ◌≡◌, refl, sym, ap, ◌∙◌, inl, inr, not, ◌&&◌, Option, none,
  some, List, [], ◌∷◌, ◌++◌, arith, ◌==◌, ◌!=◌, Bool-cases, Option-cases, length, length-append,
}
use esp_now_midi.Codec.{PinConfig, RawStreamRequest}
use esp_now_midi.Handler.Effects.{
  Effect, sent, call_add_peer, call_set_pin_config, call_get_pin_config, call_delete_pin_config,
  call_get_peer, call_set_midi_loopback, call_set_power_save, call_set_name, call_set_raw_stream,
  call_clear_pin_configs, call_get_all_pin_configs, call_get_mac, call_get_all_peers,
  call_get_config, call_get_midi_loopback, call_get_power_save, call_get_name, call_reset,
  call_get_version,
}
use esp_now_midi.Io.State.{Floats, Readings}
use esp_now_midi.Io.Preferences.{Nvs, or_else}
use esp_now_midi.Io.Configs.{same_except_threshold, set_threshold, config_index, erase_at}
use esp_now_midi.Io.Names.{copy_name, firmware_id_length}
use esp_now_midi.Io.Device.{
  raw_stream_all_pins, Hooks, Io, remove_config_at, add_config, upsert_by, upsert_pin_config,
  delete_pin_config_at, clear_pin_configs, set_midi_loopback, set_power_save, set_name_override,
  reset_state,
}
use esp_now_midi.Io.Stream.{has_input, set_raw_stream}
use esp_now_midi.Io.Answers.{handler_callbacks}
use esp_now_midi.Io.Commands.{perform_delete_pin_config, perform}
use esp_now_midi.Io.Laws.{IsNvs}
use esp_now_midi.Io.Reload.{copy_name-IsName}
use esp_now_midi.Io.Keeps.{
  Keeps, Keeps-save_pin_configs, Keeps-put_loopback, Keeps-put_power_save, Keeps-save_name,
  Keeps-reset,
}

length-erase_at {ℓ} : {A : Type ℓ} (i : ℕ) (xs : List A) → length (erase_at i xs) ≤ length xs
unfolding erase_at
length-erase_at i [] = omega arith
length-erase_at zero (x ∷ xs) = omega arith
length-erase_at (suc i) (x ∷ xs) = omega (arith, length-erase_at i xs)

pub length-set_threshold :
    (c : PinConfig) (configs : List PinConfig)
    → length (or_else configs (set_threshold c configs)) ≡ length configs
unfolding set_threshold
length-set_threshold c [] = refl
length-set_threshold c (existing ∷ configs) =
    let shorter = length-set_threshold c configs in
    elim (Bool-cases (existing.pin == c.pin && same_except_threshold existing c)) [
      | inl here ↦ rw (here, set_threshold) refl
      | inr later ↦ elim (Option-cases (set_threshold c configs)) [
        | inl same ↦ rw (later, same, set_threshold) refl
        | inr (changed, found) ↦
            rw (later, found, set_threshold)
              (ap suc (ap (λ o. length (or_else configs o)) (sym found) ∙ shorter))
      ]
    ]

module _ {F S : Type 0} (nvs : Nvs S) (firmware_id : List ℕ) where
  -- The next start reads what the device holds.
  abbrev pub Stored : Io F S → Type 0
  Stored io =
      Keeps nvs firmware_id io.pin_configs io.midi_loopback io.power_save io.name_override io.store

module _ {F S : Type 0} (floats : Floats F) (nvs : Nvs S) (laws : IsNvs nvs)
    (firmware_id mac : List ℕ) (size : length firmware_id ≡ firmware_id_length) (h : Hooks)
    (r : Readings) (now : ℕ) where
  length-remove_config_at :
      (found : Option ℕ) (io : Io F S)
      → length (remove_config_at found io).pin_configs ≤ length io.pin_configs
  unfolding remove_config_at
  length-remove_config_at none io = omega arith
  length-remove_config_at (some i) io = length-erase_at i io.pin_configs

  Stored-remove_then :
      (found : Option ℕ) (c : PinConfig) (io : Io F S)
      → Stored nvs firmware_id io
      → length io.pin_configs + 1 < 2 ^ 32
      → Stored nvs firmware_id (add_config floats nvs r c (remove_config_at found io)).0
  unfolding add_config remove_config_at
  Stored-remove_then none c io k small =
      Keeps-save_pin_configs nvs laws firmware_id io.pin_configs (io.pin_configs ++ c ∷ [])
        io.midi_loopback io.power_save io.name_override io.store k
        (omega (arith, length-append io.pin_configs (c ∷ [])))
  Stored-remove_then (some i) c io k small =
      Keeps-save_pin_configs nvs laws firmware_id io.pin_configs
        (erase_at i io.pin_configs ++ c ∷ []) io.midi_loopback io.power_save io.name_override
        io.store k
        (omega (
          arith,
          length-append (erase_at i io.pin_configs) (c ∷ []),
          length-erase_at i io.pin_configs,
        ))

  Stored-upsert_by :
      (changed : Option (List PinConfig)) (c : PinConfig) (io : Io F S)
      → set_threshold c io.pin_configs ≡ changed
      → Stored nvs firmware_id io
      → length io.pin_configs + 1 < 2 ^ 32
      → Stored nvs firmware_id (upsert_by floats nvs changed r c io).0
  unfolding upsert_by
  Stored-upsert_by none c io found k small =
      Stored-remove_then (config_index c.pin io.pin_configs) c io k small
  Stored-upsert_by (some configs) c io found k small =
      Keeps-save_pin_configs nvs laws firmware_id io.pin_configs configs io.midi_loopback
        io.power_save io.name_override io.store k
        (omega (
          arith,
          ap (λ o. length (or_else io.pin_configs o)) (sym found),
          length-set_threshold c io.pin_configs,
        ))

  Stored-perform_delete :
      (pin : ℕ) (found : Option ℕ) (io : Io F S)
      → Stored nvs firmware_id io
      → length io.pin_configs + 1 < 2 ^ 32
      → Stored nvs firmware_id
          (perform_delete_pin_config floats nvs firmware_id mac h r now pin found io).0
  unfolding perform_delete_pin_config delete_pin_config_at
  Stored-perform_delete pin none io k small = k
  Stored-perform_delete pin (some i) io k small =
      Keeps-save_pin_configs nvs laws firmware_id io.pin_configs (erase_at i io.pin_configs)
        io.midi_loopback io.power_save io.name_override io.store k
        (omega (arith, length-erase_at i io.pin_configs))

  Stored-set_raw_stream :
      (req : RawStreamRequest) (io : Io F S)
      → Stored nvs firmware_id io
      → Stored nvs firmware_id (set_raw_stream (handler_callbacks h) now req io).0
  unfolding set_raw_stream
  Stored-set_raw_stream req io k =
      elim (Bool-cases
        (req.enable && req.pin != raw_stream_all_pins && not (has_input req.pin io.pin_configs))) [
          | inl refused ↦ rw (refused, set_raw_stream) k
          | inr taken ↦ rw (taken, set_raw_stream) k
        ]

  length-upsert_by :
      (changed : Option (List PinConfig)) (c : PinConfig) (io : Io F S)
      → set_threshold c io.pin_configs ≡ changed
      → length (upsert_by floats nvs changed r c io).0.pin_configs ≤ length io.pin_configs + 1
  unfolding upsert_by add_config
  length-upsert_by none c io found =
      let shorter = length-remove_config_at (config_index c.pin io.pin_configs) io in
      omega (
        arith,
        shorter,
        length-append (remove_config_at (config_index c.pin io.pin_configs) io).pin_configs
            (c ∷ []),
      )
  length-upsert_by (some configs) c io found = omega (
    arith,
    ap (λ o. length (or_else io.pin_configs o)) (sym found),
    length-set_threshold c io.pin_configs,
  )

  length-perform_delete :
      (pin : ℕ) (found : Option ℕ) (io : Io F S)
      → length
          (perform_delete_pin_config floats nvs firmware_id mac h r now pin found io).0.pin_configs
        ≤ length io.pin_configs
  unfolding perform_delete_pin_config delete_pin_config_at
  length-perform_delete pin none io = omega arith
  length-perform_delete pin (some i) io = length-erase_at i io.pin_configs

  length-set_raw_stream :
      (req : RawStreamRequest) (io : Io F S)
      → length (set_raw_stream (handler_callbacks h) now req io).0.pin_configs
        ≡ length io.pin_configs
  unfolding set_raw_stream
  length-set_raw_stream req io =
      elim (Bool-cases
        (req.enable && req.pin != raw_stream_all_pins && not (has_input req.pin io.pin_configs))) [
          | inl refused ↦ rw (refused, set_raw_stream) refl
          | inr taken ↦ rw (taken, set_raw_stream) refl
        ]

  -- An effect adds at most one pin configuration.
  pub length-perform :
      (effect : Effect) (io : Io F S)
      → length (perform floats nvs firmware_id mac h r now effect io).0.pin_configs
        ≤ length io.pin_configs + 1
  unfolding perform upsert_pin_config set_midi_loopback set_power_save set_name_override
      clear_pin_configs reset_state
  length-perform (call_set_pin_config c) io =
      length-upsert_by (set_threshold c io.pin_configs) c io refl
  length-perform (call_delete_pin_config pin) io =
      omega (arith, length-perform_delete pin (config_index pin io.pin_configs) io)
  length-perform (call_set_raw_stream req) io = omega (arith, length-set_raw_stream req io)
  length-perform (sent bytes) io = omega arith
  length-perform (call_add_peer peer) io = omega arith
  length-perform (call_get_pin_config pin) io = omega arith
  length-perform (call_get_peer index) io = omega arith
  length-perform (call_set_midi_loopback enabled) io = omega arith
  length-perform (call_set_power_save enabled) io = omega arith
  length-perform (call_set_name name) io = omega arith
  length-perform call_clear_pin_configs io = omega arith
  length-perform call_get_all_pin_configs io = omega arith
  length-perform call_get_mac io = omega arith
  length-perform call_get_all_peers io = omega arith
  length-perform call_get_config io = omega arith
  length-perform call_get_midi_loopback io = omega arith
  length-perform call_get_power_save io = omega arith
  length-perform call_get_name io = omega arith
  length-perform call_reset io = omega arith
  length-perform call_get_version io = omega arith

  -- Every effect of the command handler leaves the store at what the device holds.
  pub Stored-perform :
      (effect : Effect) (io : Io F S)
      → Stored nvs firmware_id io
      → length io.pin_configs + 1 < 2 ^ 32
      → Stored nvs firmware_id (perform floats nvs firmware_id mac h r now effect io).0
  unfolding perform upsert_pin_config set_midi_loopback set_power_save set_name_override
      clear_pin_configs reset_state
  Stored-perform (sent bytes) io k small = k
  Stored-perform (call_add_peer peer) io k small = k
  Stored-perform (call_set_pin_config c) io k small =
      Stored-upsert_by (set_threshold c io.pin_configs) c io refl k small
  Stored-perform (call_get_pin_config pin) io k small = k
  Stored-perform (call_delete_pin_config pin) io k small =
      Stored-perform_delete pin (config_index pin io.pin_configs) io k small
  Stored-perform (call_get_peer index) io k small = k
  Stored-perform (call_set_midi_loopback enabled) io k small =
      Keeps-put_loopback nvs laws firmware_id io.pin_configs io.midi_loopback io.power_save enabled
        io.name_override io.store k
  Stored-perform (call_set_power_save enabled) io k small =
      Keeps-put_power_save nvs laws firmware_id io.pin_configs io.midi_loopback io.power_save
        enabled io.name_override io.store k
  Stored-perform (call_set_name name) io k small =
      Keeps-save_name nvs laws firmware_id io.pin_configs io.midi_loopback io.power_save
        io.name_override (copy_name name) io.store k (copy_name-IsName name)
  Stored-perform (call_set_raw_stream req) io k small = Stored-set_raw_stream req io k
  Stored-perform call_clear_pin_configs io k small =
      Keeps-save_pin_configs nvs laws firmware_id io.pin_configs [] io.midi_loopback io.power_save
        io.name_override io.store k (omega arith)
  Stored-perform call_get_all_pin_configs io k small = k
  Stored-perform call_get_mac io k small = k
  Stored-perform call_get_all_peers io k small = k
  Stored-perform call_get_config io k small = k
  Stored-perform call_get_midi_loopback io k small = k
  Stored-perform call_get_power_save io k small = k
  Stored-perform call_get_name io k small = k
  Stored-perform call_reset io k small = Keeps-reset nvs laws firmware_id io.store size
  Stored-perform call_get_version io k small = k
