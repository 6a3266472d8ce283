-- ===== src/Io/Keeps.antt =====
-- include/enomik_io.h: the stored settings are those of the device.
use esp_now_midi.Base.{
  ℕ, ◌^◌, ◌<◌, ◌≡◌, refl, ◌∙◌, Bool, true, false, List, [], arith, ◌!=◌, if◌then◌else◌, length, u32,
}
use esp_now_midi.Codec.{PinConfig}
use esp_now_midi.Io.Preferences.{
  pin_configs_space, enomik_space, Key, pin_config_key, count_key, loopback_key, power_save_key,
  name_key, firmware_key, Nvs, put_bytes, get_bytes, put_number, get_number, clear_space,
  save_power_save_preference, load_power_save_preference,
}
use esp_now_midi.Io.Configs.{save_records, save_pin_configs, load_records, load_pin_configs}
use esp_now_midi.Io.Names.{
  copy_name, copy_name_from, name_buffer, firmware_id_length, save_firmware_id, save_name,
  same_firmware,
}
use esp_now_midi.Io.Laws.{
  same_key, IsNvs, get_bytes-put_bytes, get_number-put_number, Agree, Agree-put_bytes,
  Agree-put_number, Agree-trans, get_number-clear_space, get_bytes-clear_space,
  get_number-clear_other,
}
use esp_now_midi.Io.Reload.{
  IsName, Agree-save_records, load_records_congr, load_pin_configs-save_pin_configs,
  copy_name-name_buffer, copy_name-IsName, copy_name-same, length-name_buffer,
  same_firmware-save_firmware_id,
}

module _ {S : Type 0} (nvs : Nvs S) where
  pub load_pin_configs_congr :
      (a b : S)
      → Agree nvs count_key a b
      → ((j : ℕ) → Agree nvs (pin_config_key j) a b)
      → load_pin_configs nvs a ≡ load_pin_configs nvs b
  unfolding load_pin_configs
  load_pin_configs_congr a b counted same =
      rw
        (
          counted.number pin_configs_space 0,
          load_records_congr nvs (get_number nvs pin_configs_space count_key 0 b) 0 a b same,
        )
        refl

module _ {S : Type 0} (nvs : Nvs S) (firmware_id : List ℕ) where
  -- What the next start of this firmware reads from the store
  pub record Keeps (configs : List PinConfig) (loopback power_save : Bool) (name : List ℕ)
      (store : S) : Type 0 where
    pub pins : load_pin_configs nvs store ≡ configs
    pub looped : (get_number nvs enomik_space loopback_key 0 store != 0) ≡ loopback
    pub saves_power : load_power_save_preference nvs store ≡ power_save
    pub named : copy_name (get_bytes nvs enomik_space name_key 17 store) ≡ name
    pub same : same_firmware nvs firmware_id store ≡ true

  same_firmware_congr :
      (a b : S)
      → Agree nvs firmware_key a b
      → same_firmware nvs firmware_id a ≡ same_firmware nvs firmware_id b
  unfolding same_firmware
  same_firmware_congr a b agree = rw (agree.bytes enomik_space 8) refl

  -- A change under another key than those of the pin configurations and of the firmware
  Keeps-changed :
      (configs : List PinConfig) (loopback power_save : Bool) (name : List ℕ) (changed : Key)
      (after store : S)
      (agree : (key : Key) → same_key key changed ≡ false → Agree nvs key after store)
      → ((j : ℕ) → same_key (pin_config_key j) changed ≡ false)
      → same_key count_key changed ≡ false
      → same_key firmware_key changed ≡ false
      → load_pin_configs nvs store ≡ configs
      → same_firmware nvs firmware_id store ≡ true
      → (get_number nvs enomik_space loopback_key 0 after != 0) ≡ loopback
      → load_power_save_preference nvs after ≡ power_save
      → copy_name (get_bytes nvs enomik_space name_key 17 after) ≡ name
      → Keeps configs loopback power_save name after
  Keeps-changed configs loopback power_save name changed after store agree apart uncounted other
        pins same looped saves_power named =
      record {
        pins =
            load_pin_configs_congr nvs after store (agree count_key uncounted)
              (λ j. agree (pin_config_key j) (apart j))
            ∙ pins;
        looped = looped;
        saves_power = saves_power;
        named = named;
        same = same_firmware_congr after store (agree firmware_key other) ∙ same;
      }

module _ {S : Type 0} (nvs : Nvs S) (laws : IsNvs nvs) (firmware_id : List ℕ) where
  Agree-save_pin_configs :
      (key : Key) (configs : List PinConfig) (store : S)
      → ((j : ℕ) → same_key key (pin_config_key j) ≡ false)
      → same_key key count_key ≡ false
      → Agree nvs key (save_pin_configs nvs configs store) store
  unfolding save_pin_configs
  Agree-save_pin_configs key configs store apart uncounted =
      Agree-trans nvs key (save_pin_configs nvs configs store) (save_records nvs 0 configs store)
        store
        (Agree-put_number nvs laws pin_configs_space count_key key (u32 (length configs))
          (save_records nvs 0 configs store) uncounted)
        (Agree-save_records nvs laws key 0 configs store (λ j l. apart j))

  pub Keeps-save_pin_configs :
      (configs changed : List PinConfig) (loopback power_save : Bool) (name : List ℕ) (store : S)
      → Keeps nvs firmware_id configs loopback power_save name store
      → length changed < 2 ^ 32
      → Keeps nvs firmware_id changed loopback power_save name (save_pin_configs nvs changed store)
  unfolding load_power_save_preference
  Keeps-save_pin_configs configs changed loopback power_save name store k small = record {
    pins = load_pin_configs-save_pin_configs nvs laws changed store small;
    looped =
        rw
          ((Agree-save_pin_configs loopback_key changed store (λ j. refl) refl).number enomik_space
            0)
          k.looped;
    saves_power =
        rw
          ((Agree-save_pin_configs power_save_key changed store (λ j. refl) refl).number
            enomik_space 0)
          k.saves_power;
    named =
        rw ((Agree-save_pin_configs name_key changed store (λ j. refl) refl).bytes enomik_space 17)
          k.named;
    same =
        same_firmware_congr nvs firmware_id (save_pin_configs nvs changed store) store
          (Agree-save_pin_configs firmware_key changed store (λ j. refl) refl)
        ∙ k.same;
  }

  pub Keeps-put_loopback :
      (configs : List PinConfig) (loopback power_save enabled : Bool) (name : List ℕ) (store : S)
      → Keeps nvs firmware_id configs loopback power_save name store
      → Keeps nvs firmware_id configs enabled power_save name
          (put_number nvs enomik_space loopback_key (if enabled then 1 else 0) store)
  unfolding load_power_save_preference
  Keeps-put_loopback configs loopback power_save enabled name store k =
      let after = put_number nvs enomik_space loopback_key (if enabled then 1 else 0) store in
      let agree : (key : Key) → same_key key loopback_key ≡ false → Agree nvs key after store =
        λ key.
          Agree-put_number nvs laws enomik_space loopback_key key (if enabled then 1 else 0)
            store in
      Keeps-changed nvs firmware_id configs enabled power_save name loopback_key after store agree
        (λ j. refl) refl refl k.pins k.same
        (rw
          (get_number-put_number nvs laws enomik_space loopback_key (if enabled then 1 else 0) 0
            store)
          (ground arith))
        (rw ((agree power_save_key refl).number enomik_space 0) k.saves_power)
        (rw ((agree name_key refl).bytes enomik_space 17) k.named)

  pub Keeps-put_power_save :
      (configs : List PinConfig) (loopback power_save enabled : Bool) (name : List ℕ) (store : S)
      → Keeps nvs firmware_id configs loopback power_save name store
      → Keeps nvs firmware_id configs loopback enabled name
          (save_power_save_preference nvs enabled store)
  unfolding load_power_save_preference save_power_save_preference
  Keeps-put_power_save configs loopback power_save enabled name store k =
      let after = put_number nvs enomik_space power_save_key (if enabled then 1 else 0) store in
      let agree : (key : Key) → same_key key power_save_key ≡ false → Agree nvs key after store =
        λ key.
          Agree-put_number nvs laws enomik_space power_save_key key (if enabled then 1 else 0)
            store in
      Keeps-changed nvs firmware_id configs loopback enabled name power_save_key after store agree
        (λ j. refl) refl refl k.pins k.same
        (rw ((agree loopback_key refl).number enomik_space 0) k.looped)
        (rw
          (get_number-put_number nvs laws enomik_space power_save_key (if enabled then 1 else 0) 0
            store)
          (ground arith))
        (rw ((agree name_key refl).bytes enomik_space 17) k.named)

  pub Keeps-save_name :
      (configs : List PinConfig) (loopback power_save : Bool) (old name : List ℕ) (store : S)
      → Keeps nvs firmware_id configs loopback power_save old store
      → IsName name
      → Keeps nvs firmware_id configs loopback power_save name (save_name nvs name store)
  unfolding load_power_save_preference save_name
  Keeps-save_name configs loopback power_save old name store k v =
      let buffer = name_buffer (copy_name name) in
      let after = put_bytes nvs enomik_space name_key buffer store in
      let agree : (key : Key) → same_key key name_key ≡ false → Agree nvs key after store =
        λ key. Agree-put_bytes nvs laws enomik_space name_key key buffer store in
      Keeps-changed nvs firmware_id configs loopback power_save name name_key after store agree
        (λ j. refl) refl refl k.pins k.same
        (rw ((agree loopback_key refl).number enomik_space 0) k.looped)
        (rw ((agree power_save_key refl).number enomik_space 0) k.saves_power)
        (rw
          (
            get_bytes-put_bytes nvs laws enomik_space name_key buffer 17 store
                (length-name_buffer (copy_name name) (copy_name-IsName name)),
            copy_name-name_buffer (copy_name name) (copy_name-IsName name),
          )
          (copy_name-same name v))

  pub Keeps-reset :
      (store : S)
      → length firmware_id ≡ firmware_id_length
      → Keeps nvs firmware_id [] false false [] (
          save_firmware_id nvs firmware_id
            (clear_space nvs enomik_space (clear_space nvs pin_configs_space store)))
  unfolding load_power_save_preference load_pin_configs save_firmware_id load_records copy_name
      copy_name_from
  Keeps-reset store size =
      let blank = clear_space nvs enomik_space (clear_space nvs pin_configs_space store) in
      let agree : (key : Key)
          → same_key key firmware_key ≡ false
          → Agree nvs key (put_bytes nvs enomik_space firmware_key firmware_id blank) blank =
        λ key. Agree-put_bytes nvs laws enomik_space firmware_key key firmware_id blank in
      record {
        pins =
            rw
              (
                (agree count_key refl).number pin_configs_space 0,
                get_number-clear_other nvs laws enomik_space pin_configs_space count_key 0
                    (clear_space nvs pin_configs_space store) refl,
                get_number-clear_space nvs laws pin_configs_space count_key 0 store,
              )
              refl;
        looped =
            rw
              (
                (agree loopback_key refl).number enomik_space 0,
                get_number-clear_space nvs laws enomik_space loopback_key 0
                    (clear_space nvs pin_configs_space store),
              )
              refl;
        saves_power =
            rw
              (
                (agree power_save_key refl).number enomik_space 0,
                get_number-clear_space nvs laws enomik_space power_save_key 0
                    (clear_space nvs pin_configs_space store),
              )
              refl;
        named =
            rw
              (
                (agree name_key refl).bytes enomik_space 17,
                get_bytes-clear_space nvs laws enomik_space name_key 17
                    (clear_space nvs pin_configs_space store),
              )
              refl;
        same = same_firmware-save_firmware_id nvs laws firmware_id blank size;
      }
