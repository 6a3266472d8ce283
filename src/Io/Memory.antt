-- ===== src/Io/Memory.antt =====
-- include/enomik_io.h: a store and numbers to run the model on.
use esp_now_midi.Base.{
  ℕ, ◌+◌, ◌-◌, ◌*◌, ◌/◌, ◌≤◌, ◌≡◌, refl, sym, ap, ◌∙◌, true, false, ◌&&◌, Option, none, some, List,
  arith, ltb, leb, if◌then◌else◌, ==-eq, length,
}
use esp_now_midi.Io.State.{Floats}
use esp_now_midi.Io.Preferences.{
  Space, pin_configs_space, enomik_space, Key, pin_config_key, count_key, loopback_key,
  power_save_key, name_key, firmware_key, Nvs, or_else,
}
use esp_now_midi.Io.Laws.{same_key, same_space, IsNvs}

-- Whole numbers in the place of floats
abbrev pub floats : Floats ℕ
floats = record {
  from_int = λ n. n;
  to_int = λ n. n;
  decimal = λ n d. n / d;
  add = λ a b. a + b;
  sub = λ a b. a - b;
  mul = λ a b. a * b;
  div = λ a b. a / b;
  less = ltb;
}

-- A store that always works
pub record Cell : Type 0 where
  pub blob : Option (List ℕ)
  pub number : Option ℕ

abbrev pub Memory : Type 0
Memory = Space → Key → Cell

abbrev pub empty : Memory
empty space key = record { blob = none; number = none }

abbrev fitting : ℕ → Option (List ℕ) → Option (List ℕ)
fitting size none = none
fitting size (some bytes) = if leb (length bytes) size then some bytes else none

abbrev pub write : Space → Key → Cell → Memory → Memory
write space key cell store s k = if same_space s space && same_key k key then cell else store s k

abbrev pub nvs : Nvs Memory
nvs = record {
  opens = λ store space. true;
  set_blob = λ space key value store.
      some (write space key (record { blob = some value; number = none }) store);
  get_blob = λ space key size store. fitting size (store space key).blob;
  set_number = λ space key value store.
      some (write space key (record { blob = none; number = some value }) store);
  get_number = λ space key store. (store space key).number;
  erase_all = λ space store s k.
      if same_space s space then record { blob = none; number = none } else store s k;
}

same_space_refl : (space : Space) → same_space space space ≡ true
same_space_refl pin_configs_space = refl
same_space_refl enomik_space = refl

same_key_refl : (key : Key) → same_key key key ≡ true
same_key_refl (pin_config_key i) = ==-eq i i refl
same_key_refl count_key = refl
same_key_refl loopback_key = refl
same_key_refl power_save_key = refl
same_key_refl name_key = refl
same_key_refl firmware_key = refl

written :
    (space : Space) (key : Key) (cell : Cell) (store : Memory)
    → write space key cell store space key ≡ cell
written space key cell store = rw (same_space_refl space, same_key_refl key) refl

unwritten :
    (space other_space : Space) (key other : Key) (cell : Cell) (store : Memory)
    → same_key other key ≡ false
    → write space key cell store other_space other ≡ store other_space other
unwritten space other_space key other cell store h = ground (arith, h)

fitting_all :
    (size : ℕ) (value : List ℕ) → length value ≤ size → fitting size (some value) ≡ some value
fitting_all size value h = ground arith

pub nvs-IsNvs : IsNvs nvs
nvs-IsNvs = record {
  opened = λ store space. refl;
  blob_fits = λ space key value store. refl;
  number_fits = λ space key value store. refl;
  blob_set = λ space key value store after h size fit.
      ap (λ t. fitting size (or_else empty t space key).blob) (sym h)
      ∙ ap (λ (c : Cell). fitting size c.blob) (written space key _ store)
      ∙ fitting_all size value fit;
  number_set = λ space key value store after h.
      ap (λ t. (or_else empty t space key).number) (sym h)
      ∙ ap (λ (c : Cell). c.number) (written space key _ store);
  blob_others = λ space other_space key other value store after h differ. (
    λ size.
        ap (λ t. fitting size (or_else empty t other_space other).blob) (sym h)
        ∙ ap (λ (c : Cell). fitting size c.blob)
            (unwritten space other_space key other _ store differ),
    ap (λ t. (or_else empty t other_space other).number) (sym h)
        ∙ ap (λ (c : Cell). c.number) (unwritten space other_space key other _ store differ),
  );
  number_others = λ space other_space key other value store after h differ. (
    λ size.
        ap (λ t. fitting size (or_else empty t other_space other).blob) (sym h)
        ∙ ap (λ (c : Cell). fitting size c.blob)
            (unwritten space other_space key other _ store differ),
    ap (λ t. (or_else empty t other_space other).number) (sym h)
        ∙ ap (λ (c : Cell). c.number) (unwritten space other_space key other _ store differ),
  );
  erased =
      λ space key store. (λ size. rw (same_space_refl space) refl, rw (same_space_refl space) refl);
  not_erased = λ space other key store differ. (λ size. rw differ refl, rw differ refl);
}
