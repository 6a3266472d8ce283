-- ===== src/Io/Reload.antt =====
-- include/enomik_io.h: what is stored is what the next start reads.
use esp_now_midi.Base.{
  ℕ, zero, suc, ◌-◌, ◌^◌, ◌≤◌, ◌<◌, ◌≡◌, refl, sym, ap, ◌∙◌, inl, inr, true, false, List, [], ◌∷◌,
  ◌++◌, arith, ◌==◌, if◌then◌else◌, ==-eq, ==-ne, Bool-cases, length, All, length-append, u32,
}
use mathlib.Core.List.{append-nil}
use esp_now_midi.Codec.{PinConfig, max_name_length, is_name_char}
use esp_now_midi.Io.Preferences.{
  pin_configs_space, enomik_space, Key, pin_config_key, count_key, name_key, firmware_key, Nvs,
  put_bytes, put_number,
}
use esp_now_midi.Io.Configs.{
  record_bytes, save_records, save_pin_configs, load_records, load_pin_configs,
}
use esp_now_midi.Io.Names.{
  copy_name_from, copy_name, zero_bytes, name_buffer, same_bytes, firmware_id_length,
  save_firmware_id, save_name, same_firmware, load_name,
}
use esp_now_midi.Io.Laws.{
  same_key, IsNvs, get_bytes-put_bytes, get_number-put_number, Agree, Agree-put_bytes,
  Agree-put_number, Agree-trans,
}

-- A name of printable characters that fits
abbrev pub IsName : List ℕ → Type 0
IsName name = (length name ≤ max_name_length) × All (λ c. is_name_char c ≡ true) name

copy_name_from-same :
    (room pad : ℕ) (name : List ℕ)
    → length name ≤ room
    → All (λ c. is_name_char c ≡ true) name
    → copy_name_from room (name ++ zero_bytes pad) ≡ name
unfolding copy_name_from
copy_name_from-same zero pad [] fit printable = refl
copy_name_from-same zero pad (c ∷ name) fit printable = absurd (omega arith)
copy_name_from-same (suc room) zero [] fit printable = refl
copy_name_from-same (suc room) (suc pad) [] fit printable = refl
copy_name_from-same (suc room) pad (c ∷ name) fit printable =
    let not_terminator : (c == 0) ≡ false = ground (arith, printable.0) in
    rw (not_terminator, printable.0, copy_name_from-same room pad name (omega arith) printable.1)
      refl

-- A stored name is read as it is.
pub copy_name-name_buffer : (name : List ℕ) → IsName name → copy_name (name_buffer name) ≡ name
unfolding copy_name name_buffer
copy_name-name_buffer name v = copy_name_from-same max_name_length _ name v.0 v.1

length-zero_bytes : (n : ℕ) → length (zero_bytes n) ≡ n
length-zero_bytes zero = refl
length-zero_bytes (suc n) = ap suc (length-zero_bytes n)

pub length-name_buffer : (name : List ℕ) → IsName name → length (name_buffer name) ≤ 17
unfolding name_buffer
length-name_buffer name v = omega (
  arith,
  v.0,
  length-append name (zero_bytes (17 - length name)),
  length-zero_bytes (17 - length name),
)

copy_name_from-printable :
    (room : ℕ) (name : List ℕ) → All (λ c. is_name_char c ≡ true) (copy_name_from room name)
unfolding copy_name_from
copy_name_from-printable zero name = tt
copy_name_from-printable (suc room) [] = tt
copy_name_from-printable (suc room) (c ∷ name) =
    let rest = copy_name_from-printable room name in
    elim (Bool-cases (c == 0)) [
      | inl terminator ↦ rw (terminator, copy_name_from) tt
      | inr other ↦ elim (Bool-cases (is_name_char c)) [
        | inl shown ↦ rw (other, shown, copy_name_from) (shown, rest)
        | inr hidden ↦ rw (other, hidden, copy_name_from) (refl, rest)
      ]
    ]

length-copy_name_from : (room : ℕ) (name : List ℕ) → length (copy_name_from room name) ≤ room
unfolding copy_name_from
length-copy_name_from zero name = omega arith
length-copy_name_from (suc room) [] = omega arith
length-copy_name_from (suc room) (c ∷ name) = ground (arith, length-copy_name_from room name)

pub copy_name-IsName : (name : List ℕ) → IsName (copy_name name)
unfolding copy_name
copy_name-IsName name =
    (length-copy_name_from max_name_length name, copy_name_from-printable max_name_length name)

-- A copy of a name is the name.
pub copy_name-same : (name : List ℕ) → IsName name → copy_name name ≡ name
unfolding copy_name
copy_name-same name v =
    ap copy_name (sym (append-nil name)) ∙ copy_name_from-same max_name_length 0 name v.0 v.1

module _ {S : Type 0} (nvs : Nvs S) where
  -- What the records of the loop read is all that it depends on.
  pub load_records_congr :
      (count i : ℕ) (a b : S)
      → ((j : ℕ) → Agree nvs (pin_config_key j) a b)
      → load_records nvs count i a ≡ load_records nvs count i b
  unfolding load_records
  load_records_congr zero i a b same = refl
  load_records_congr (suc count) i a b same =
      rw ((same i).bytes pin_configs_space 9, load_records_congr count (suc i) a b same) refl

module _ {S : Type 0} (nvs : Nvs S) (laws : IsNvs nvs) where
  -- What is saved from the i-th record on leaves the other keys alone.
  pub Agree-save_records :
      (key : Key) (i : ℕ) (configs : List PinConfig) (store : S)
      → ((j : ℕ) → i ≤ j → same_key key (pin_config_key j) ≡ false)
      → Agree nvs key (save_records nvs i configs store) store
  unfolding save_records
  Agree-save_records key i [] store apart = record { bytes = λ s n. refl; number = λ s d. refl }
  Agree-save_records key i (c ∷ configs) store apart =
      let written = put_bytes nvs pin_configs_space (pin_config_key i) (record_bytes c) store in
      Agree-trans nvs key (save_records nvs (suc i) configs written) written store
        (Agree-save_records key (suc i) configs written (λ j l. apart j (omega arith)))
        (Agree-put_bytes nvs laws pin_configs_space (pin_config_key i) key (record_bytes c) store
          (apart i (omega arith)))

  load_records-save_records :
      (i : ℕ) (configs : List PinConfig) (store : S)
      → load_records nvs (length configs) i (save_records nvs i configs store) ≡ configs
  unfolding load_records save_records
  load_records-save_records i [] store = refl
  load_records-save_records i (c ∷ configs) store =
      let written = put_bytes nvs pin_configs_space (pin_config_key i) (record_bytes c) store in
      let later =
        Agree-save_records (pin_config_key i) (suc i) configs written
          (λ j l. ==-ne i j (λ e. absurd (omega arith))) in
      rw
        (
          later.bytes pin_configs_space 9,
          get_bytes-put_bytes nvs laws pin_configs_space (pin_config_key i) (record_bytes c) 9 store
              (kept c),
          load_records-save_records (suc i) configs written,
        )
        refl
    where
      kept : (d : PinConfig) → length (record_bytes d) ≤ 9
      kept d = omega arith

  -- Reading the stored pin configurations gives those that were saved, in their order.
  pub load_pin_configs-save_pin_configs :
      (configs : List PinConfig) (store : S)
      → length configs < 2 ^ 32
      → load_pin_configs nvs (save_pin_configs nvs configs store) ≡ configs
  unfolding load_pin_configs save_pin_configs
  load_pin_configs-save_pin_configs configs store small =
      let saved = save_records nvs 0 configs store in
      let whole : u32 (length configs) ≡ length configs = omega arith in
      rw
        (
          get_number-put_number nvs laws pin_configs_space count_key (u32 (length configs)) 0 saved,
          whole,
          load_records_congr nvs (length configs) 0
              (put_number nvs pin_configs_space count_key (length configs) saved) saved
              (λ j.
                Agree-put_number nvs laws pin_configs_space count_key (pin_config_key j)
                  (length configs) saved refl),
          load_records-save_records 0 configs store,
        )
        refl

module _ {S : Type 0} (nvs : Nvs S) (laws : IsNvs nvs) (firmware_id : List ℕ) where
  same_bytes_refl : (bytes : List ℕ) → same_bytes bytes bytes ≡ true
  same_bytes_refl [] = refl
  same_bytes_refl (b ∷ bytes) = rw (==-eq b b refl, same_bytes_refl bytes) refl

  pub same_firmware-save_firmware_id :
      (store : S)
      → length firmware_id ≡ firmware_id_length
      → same_firmware nvs firmware_id (save_firmware_id nvs firmware_id store) ≡ true
  unfolding same_firmware save_firmware_id
  same_firmware-save_firmware_id store size =
      rw
        (
          get_bytes-put_bytes nvs laws enomik_space firmware_key firmware_id 8 store (omega arith),
          size,
          same_bytes_refl firmware_id,
        )
        refl

  -- A name that was set is there after a restart of the same firmware, and after one of a new firmware
  -- no name overrides the one of the sketch.
  pub load_name-save_name :
      (name : List ℕ) (store : S)
      → (load_name nvs firmware_id (save_name nvs name store)).0
        ≡ (if same_firmware nvs firmware_id store then copy_name name else [])
  unfolding load_name save_name same_firmware
  load_name-save_name name store =
      let unchanged =
        Agree-put_bytes nvs laws enomik_space name_key firmware_key (name_buffer (copy_name name))
          store refl in
      rw
        (
          unchanged.bytes enomik_space 8,
          get_bytes-put_bytes nvs laws enomik_space name_key (name_buffer (copy_name name)) 17 store
              (length-name_buffer (copy_name name) (copy_name-IsName name)),
          copy_name-name_buffer (copy_name name) (copy_name-IsName name),
        )
        (ground arith)
