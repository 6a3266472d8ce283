-- ===== src/Io/Upsert.antt =====
-- include/enomik_io.h: one configuration for each pin, whatever SysEx asks for.
use esp_now_midi.Base.{
  ℕ, zero, suc, ◌≡◌, refl, sym, ap, ◌∙◌, inl, inr, true, not, ◌&&◌, Option, none, some, List, [],
  ◌∷◌, arith, ◌==◌, ◌!=◌, if◌then◌else◌, ==_iff, Bool-cases, Option-cases, length, length-append,
}
use mathlib.Core.Path.{subst}
use esp_now_midi.Codec.{PinConfig, RawStreamRequest}
use esp_now_midi.Handler.Effects.{
  Effect, sent, call_add_peer, call_set_pin_config, call_get_pin_config, call_delete_pin_config,
  call_get_peer, call_set_midi_loopback, call_set_power_save, call_set_name, call_set_raw_stream,
  call_clear_pin_configs, call_get_all_pin_configs, call_get_mac, call_get_all_peers,
  call_get_config, call_get_midi_loopback, call_get_power_save, call_get_name, call_reset,
  call_get_version,
}
use esp_now_midi.Handler.{handle_sys_ex}
use esp_now_midi.Io.State.{Floats, Readings, new_pin_state}
use esp_now_midi.Io.Touch.{calibrate_touch}
use esp_now_midi.Io.Preferences.{Nvs, or_else}
use esp_now_midi.Io.Configs.{find_config, set_threshold, config_index, erase_at}
use esp_now_midi.Io.Device.{
  raw_stream_all_pins, Hooks, Io, remove_config_at, add_config, upsert_by, upsert_pin_config,
  delete_pin_config_at, clear_pin_configs, set_midi_loopback, set_power_save, set_name_override,
  reset_state,
}
use esp_now_midi.Io.Stream.{has_input, set_raw_stream}
use esp_now_midi.Io.Answers.{handler_callbacks}
use esp_now_midi.Io.Commands.{perform_delete_pin_config, perform, perform_all, on_sys_ex}
use esp_now_midi.Io.Keys.{
  Apart, find_config-set_threshold, find_config-erase_at, config_index-none, find_config-append,
  Apart-erase_at, Apart-append, Apart-set_threshold,
}
use esp_now_midi.Io.Restart.{length-set_threshold}
use esp_now_midi.Io.Requests.{receive_all}

-- Erasing from both vectors
erase_at-aligned {ℓ κ} :
    {A : Type ℓ} {B : Type κ} (i : ℕ) (xs : List A) (ys : List B)
    → length xs ≡ length ys
    → length (erase_at i xs) ≡ length (erase_at i ys)
unfolding erase_at
erase_at-aligned i [] [] h = refl
erase_at-aligned i [] (y ∷ ys) h = absurd (omega arith)
erase_at-aligned i (x ∷ xs) [] h = absurd (omega arith)
erase_at-aligned zero (x ∷ xs) (y ∷ ys) h = omega arith
erase_at-aligned (suc i) (x ∷ xs) (y ∷ ys) h = ap suc (erase_at-aligned i xs ys (omega arith))

-- The two vectors have an entry each for every pin that is configured, and no pin has two.
pub record IsIo {F S : Type 0} (io : Io F S) : Type 0 where
  pub aligned : length io.pin_states ≡ length io.pin_configs
  pub apart : Apart io.pin_configs

module _ {F S : Type 0} (floats : Floats F) (nvs : Nvs S) (r : Readings) where
  find_config-added :
      (c : PinConfig) (p : ℕ) (io : Io F S) (found : Option ℕ)
      → config_index c.pin io.pin_configs ≡ found
      → Apart io.pin_configs
      → find_config p (add_config floats nvs r c (remove_config_at found io)).0.pin_configs
        ≡ (if c.pin == p then some c else find_config p io.pin_configs)
  unfolding add_config remove_config_at
  find_config-added c p io none absent apart = ground (
    arith,
    find_config-append p io.pin_configs c,
    config_index-none c.pin io.pin_configs absent,
    asked_none c p io.pin_configs (config_index-none c.pin io.pin_configs absent),
  )
    where
      asked_none :
          (c : PinConfig) (p : ℕ) (configs : List PinConfig)
          → find_config c.pin configs ≡ none
          → (c.pin == p) ≡ true
          → find_config p configs ≡ none
      asked_none c p configs gone same =
          ap (λ (pin : ℕ). find_config pin configs) (sym ((==_iff c.pin p).0 same)) ∙ gone
  find_config-added c p io (some i) found apart = ground (
    arith,
    find_config-append p (erase_at i io.pin_configs) c,
    find_config-erase_at c.pin p i io.pin_configs apart found,
  )

  -- Setting the configuration of a pin, whether it is new, replaced or only tuned, changes what is
  -- found for this pin and for no other.
  pub find_config-upsert_pin_config :
      (c : PinConfig) (p : ℕ) (io : Io F S)
      → IsIo io
      → find_config p (upsert_pin_config floats nvs r c io).0.pin_configs
        ≡ (if c.pin == p then some c else find_config p io.pin_configs)
  unfolding upsert_pin_config upsert_by
  find_config-upsert_pin_config c p io v = elim (Option-cases (set_threshold c io.pin_configs)) [
    | inl other ↦
        rw (other, upsert_pin_config, upsert_by)
          (find_config-added c p io (config_index c.pin io.pin_configs) refl v.apart)
    | inr (changed, found) ↦
        rw (found, upsert_pin_config, upsert_by)
          (ground (arith, found, find_config-set_threshold c p io.pin_configs v.apart))
  ]

  IsIo-added :
      (c : PinConfig) (io : Io F S) (found : Option ℕ)
      → config_index c.pin io.pin_configs ≡ found
      → IsIo io
      → IsIo (add_config floats nvs r c (remove_config_at found io)).0
  unfolding add_config remove_config_at
  IsIo-added c io none absent v = record {
    aligned = omega (
      arith,
      v.aligned,
      length-append io.pin_configs (c ∷ []),
      length-append io.pin_states (calibrate_touch floats r c (new_pin_state floats) ∷ []),
    );
    apart = Apart-append io.pin_configs c v.apart (config_index-none c.pin io.pin_configs absent);
  }
  IsIo-added c io (some i) found v = record {
    aligned = omega (
      arith,
      erase_at-aligned i io.pin_states io.pin_configs v.aligned,
      length-append (erase_at i io.pin_configs) (c ∷ []),
      length-append (erase_at i io.pin_states)
          (calibrate_touch floats r c (new_pin_state floats) ∷ []),
    );
    apart =
        Apart-append (erase_at i io.pin_configs) c (Apart-erase_at i io.pin_configs v.apart)
          (ground (arith, find_config-erase_at c.pin c.pin i io.pin_configs v.apart found));
  }

  IsIo-upsert_by :
      (changed : Option (List PinConfig)) (c : PinConfig) (io : Io F S)
      → set_threshold c io.pin_configs ≡ changed
      → IsIo io
      → IsIo (upsert_by floats nvs changed r c io).0
  unfolding upsert_by
  IsIo-upsert_by none c io found v = IsIo-added c io (config_index c.pin io.pin_configs) refl v
  IsIo-upsert_by (some configs) c io found v = record {
    aligned = omega (
      arith,
      v.aligned,
      ap (λ o. length (or_else io.pin_configs o)) (sym found),
      length-set_threshold c io.pin_configs,
    );
    apart =
        subst (λ o. Apart (or_else io.pin_configs o)) found
          (Apart-set_threshold c io.pin_configs v.apart);
  }

module _ {F S : Type 0} (floats : Floats F) (nvs : Nvs S) (firmware_id mac : List ℕ) (h : Hooks)
    (r : Readings) (now : ℕ) where
  IsIo-perform_delete :
      (pin : ℕ) (found : Option ℕ) (io : Io F S)
      → IsIo io
      → IsIo (perform_delete_pin_config floats nvs firmware_id mac h r now pin found io).0
  unfolding perform_delete_pin_config delete_pin_config_at
  IsIo-perform_delete pin none io v = v
  IsIo-perform_delete pin (some i) io v = record {
    aligned = erase_at-aligned i io.pin_states io.pin_configs v.aligned;
    apart = Apart-erase_at i io.pin_configs v.apart;
  }

  IsIo-set_raw_stream :
      (req : RawStreamRequest) (io : Io F S)
      → IsIo io
      → IsIo (set_raw_stream (handler_callbacks h) now req io).0
  unfolding set_raw_stream
  IsIo-set_raw_stream req io v =
      elim (Bool-cases
        (req.enable && req.pin != raw_stream_all_pins && not (has_input req.pin io.pin_configs))) [
          | inl refused ↦ rw (refused, set_raw_stream) v
          | inr taken ↦ rw (taken, set_raw_stream) (record { aligned = v.aligned; apart = v.apart })
        ]

  IsIo-perform :
      (effect : Effect) (io : Io F S)
      → IsIo io
      → IsIo (perform floats nvs firmware_id mac h r now effect io).0
  unfolding perform upsert_pin_config set_midi_loopback set_power_save set_name_override
      clear_pin_configs reset_state
  IsIo-perform (call_set_pin_config c) io v =
      IsIo-upsert_by floats nvs r (set_threshold c io.pin_configs) c io refl v
  IsIo-perform (call_delete_pin_config pin) io v =
      IsIo-perform_delete pin (config_index pin io.pin_configs) io v
  IsIo-perform (call_set_raw_stream req) io v = IsIo-set_raw_stream req io v
  IsIo-perform (call_set_midi_loopback enabled) io v = record {
    aligned = v.aligned;
    apart = v.apart;
  }
  IsIo-perform (call_set_power_save enabled) io v = record { aligned = v.aligned; apart = v.apart }
  IsIo-perform (call_set_name name) io v = record { aligned = v.aligned; apart = v.apart }
  IsIo-perform call_clear_pin_configs io v = record { aligned = refl; apart = tt }
  IsIo-perform call_reset io v = record { aligned = refl; apart = tt }
  IsIo-perform (sent bytes) io v = v
  IsIo-perform (call_add_peer peer) io v = v
  IsIo-perform (call_get_pin_config pin) io v = v
  IsIo-perform (call_get_peer index) io v = v
  IsIo-perform call_get_all_pin_configs io v = v
  IsIo-perform call_get_mac io v = v
  IsIo-perform call_get_all_peers io v = v
  IsIo-perform call_get_config io v = v
  IsIo-perform call_get_midi_loopback io v = v
  IsIo-perform call_get_power_save io v = v
  IsIo-perform call_get_name io v = v
  IsIo-perform call_get_version io v = v

  IsIo-perform_all :
      (effects : List Effect) (io : Io F S)
      → IsIo io
      → IsIo (perform_all floats nvs firmware_id mac h r now effects io).0
  unfolding perform_all
  IsIo-perform_all [] io v = v
  IsIo-perform_all (effect ∷ effects) io v =
      IsIo-perform_all effects (perform floats nvs firmware_id mac h r now effect io).0
        (IsIo-perform effect io v)

module _ {F S : Type 0} (floats : Floats F) (nvs : Nvs S) (firmware_id mac : List ℕ)
    (h : Hooks) where
  -- After any SysEx messages in any order, the vectors of configurations and of states have the same
  -- length and no pin is configured twice, if this was so before.
  pub IsIo-receive_all :
      (messages : List (Readings × ℕ × List ℕ)) (io : Io F S)
      → IsIo io
      → IsIo (receive_all floats nvs firmware_id mac h messages io)
  unfolding receive_all on_sys_ex
  IsIo-receive_all [] io v = v
  IsIo-receive_all ((r, now, bytes) ∷ rest) io v =
      IsIo-receive_all rest (on_sys_ex floats nvs firmware_id mac h r now bytes io).0 (
        IsIo-perform_all floats nvs firmware_id mac h r now
          (handle_sys_ex (handler_callbacks h) bytes)
          (record io { raw_stream = record io.raw_stream { last_host_msg = now } })
          (record { aligned = v.aligned; apart = v.apart }))
