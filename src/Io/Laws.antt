-- ===== src/Io/Laws.antt =====
-- include/esp_now_midi_prefs.h: what is read after a write.
use esp_now_midi.Base.{
  ℕ, is_some, ◌≤◌, ◌≡◌, refl, ◌∙◌, Bool, true, false, Option, none, some, List, [], arith, ◌==◌,
  length,
}
use esp_now_midi.Io.Preferences.{
  Space, pin_configs_space, enomik_space, Key, pin_config_key, count_key, loopback_key,
  power_save_key, name_key, firmware_key, Nvs, put_bytes, get_bytes, put_number, get_number,
  clear_space,
}

abbrev pub same_key : Key → Key → Bool
same_key (pin_config_key i) (pin_config_key j) = i == j
same_key count_key count_key = true
same_key loopback_key loopback_key = true
same_key power_save_key power_save_key = true
same_key name_key name_key = true
same_key firmware_key firmware_key = true
same_key k l = false

abbrev pub same_space : Space → Space → Bool
same_space pin_configs_space pin_configs_space = true
same_space enomik_space enomik_space = true
same_space k l = false

-- What the documentation of NVS says of one that works and has room: what is set is read, with a
-- buffer that is large enough, and nothing else changes.
pub record IsNvs {S : Type 0} (nvs : Nvs S) : Type 0 where
  pub opened : (store : S) (space : Space) → nvs.opens store space ≡ true
  pub blob_fits :
      (space : Space) (key : Key) (value : List ℕ) (store : S)
      → is_some (nvs.set_blob space key value store) ≡ true
  pub number_fits :
      (space : Space) (key : Key) (value : ℕ) (store : S)
      → is_some (nvs.set_number space key value store) ≡ true
  pub blob_set :
      (space : Space) (key : Key) (value : List ℕ) (store after : S)
      → nvs.set_blob space key value store ≡ some after
      → (size : ℕ) → length value ≤ size
      → nvs.get_blob space key size after ≡ some value
  pub number_set :
      (space : Space) (key : Key) (value : ℕ) (store after : S)
      → nvs.set_number space key value store ≡ some after
      → nvs.get_number space key after ≡ some value
  pub blob_others :
      (space other_space : Space) (key other : Key) (value : List ℕ) (store after : S)
      → nvs.set_blob space key value store ≡ some after
      → same_key other key ≡ false
      → ((size : ℕ)
          → nvs.get_blob other_space other size after ≡ nvs.get_blob other_space other size store)
        × (nvs.get_number other_space other after ≡ nvs.get_number other_space other store)
  pub number_others :
      (space other_space : Space) (key other : Key) (value : ℕ) (store after : S)
      → nvs.set_number space key value store ≡ some after
      → same_key other key ≡ false
      → ((size : ℕ)
          → nvs.get_blob other_space other size after ≡ nvs.get_blob other_space other size store)
        × (nvs.get_number other_space other after ≡ nvs.get_number other_space other store)
  pub erased :
      (space : Space) (key : Key) (store : S)
      → ((size : ℕ) → nvs.get_blob space key size (nvs.erase_all space store) ≡ none)
        × (nvs.get_number space key (nvs.erase_all space store) ≡ none)
  pub not_erased :
      (space other : Space) (key : Key) (store : S)
      → same_space other space ≡ false
      → ((size : ℕ)
          → nvs.get_blob other key size (nvs.erase_all space store)
            ≡ nvs.get_blob other key size store)
        × (nvs.get_number other key (nvs.erase_all space store) ≡ nvs.get_number other key store)

abbrev pub Fits {ℓ} : {A : Type ℓ} → Option A → Type ℓ
Fits {A} o = (a : A) × (o ≡ some a)

fits {ℓ} : {A : Type ℓ} (o : Option A) → is_some o ≡ true → Fits o
fits none h = absurd (ground arith)
fits (some a) h = (a, refl)

module _ {S : Type 0} (nvs : Nvs S) where
  -- Two stores that agree on a key
  pub record Agree (key : Key) (a b : S) : Type 0 where
    pub bytes :
        (space : Space) (size : ℕ) → get_bytes nvs space key size a ≡ get_bytes nvs space key size b
    pub number :
        (space : Space) (default_value : ℕ)
        → get_number nvs space key default_value a ≡ get_number nvs space key default_value b

  pub Agree-trans : (key : Key) (a b c : S) → Agree key a b → Agree key b c → Agree key a c
  Agree-trans key a b c p q = record {
    bytes = λ s n. p.bytes s n ∙ q.bytes s n;
    number = λ s d. p.number s d ∙ q.number s d;
  }

module _ {S : Type 0} (nvs : Nvs S) (laws : IsNvs nvs) where
  -- What `putBytes` leaves
  put_bytes_after :
      (space : Space) (key : Key) (value : List ℕ) (store : S)
      → nvs.set_blob space key value store ≡ some (put_bytes nvs space key value store)
  unfolding put_bytes
  put_bytes_after space key value store =
      let done = fits (nvs.set_blob space key value store) (laws.blob_fits space key value store) in
      rw (laws.opened store space, done.1) refl

  put_number_after :
      (space : Space) (key : Key) (value : ℕ) (store : S)
      → nvs.set_number space key value store ≡ some (put_number nvs space key value store)
  unfolding put_number
  put_number_after space key value store =
      let done =
        fits (nvs.set_number space key value store) (laws.number_fits space key value store) in
      rw (laws.opened store space, done.1) refl

  pub get_bytes-put_bytes :
      (space : Space) (key : Key) (value : List ℕ) (size : ℕ) (store : S)
      → length value ≤ size
      → get_bytes nvs space key size (put_bytes nvs space key value store) ≡ value
  unfolding get_bytes
  get_bytes-put_bytes space key value size store fit =
      rw
        (
          laws.opened (put_bytes nvs space key value store) space,
          laws.blob_set space key value store (put_bytes nvs space key value store)
              (put_bytes_after space key value store) size fit,
        )
        refl

  pub get_number-put_number :
      (space : Space) (key : Key) (value default_value : ℕ) (store : S)
      → get_number nvs space key default_value (put_number nvs space key value store) ≡ value
  unfolding get_number
  get_number-put_number space key value default_value store =
      rw
        (
          laws.opened (put_number nvs space key value store) space,
          laws.number_set space key value store (put_number nvs space key value store)
              (put_number_after space key value store),
        )
        refl

  pub Agree-put_bytes :
      (space : Space) (key other : Key) (value : List ℕ) (store : S)
      → same_key other key ≡ false
      → Agree nvs other (put_bytes nvs space key value store) store
  unfolding get_bytes get_number
  Agree-put_bytes space key other value store differ = record {
    bytes = λ s n.
        rw (laws.opened (put_bytes nvs space key value store) s, laws.opened store s, (kept s).0 n)
          refl;
    number = λ s d.
        rw (laws.opened (put_bytes nvs space key value store) s, laws.opened store s, (kept s).1)
          refl;
  }
    where
      kept :
          (s : Space)
          → ((n : ℕ)
              → nvs.get_blob s other n (put_bytes nvs space key value store)
                ≡ nvs.get_blob s other n store)
            × (nvs.get_number s other (put_bytes nvs space key value store)
                ≡ nvs.get_number s other store)
      kept s =
          laws.blob_others space s key other value store (put_bytes nvs space key value store)
            (put_bytes_after space key value store) differ

  pub Agree-put_number :
      (space : Space) (key other : Key) (value : ℕ) (store : S)
      → same_key other key ≡ false
      → Agree nvs other (put_number nvs space key value store) store
  unfolding get_bytes get_number
  Agree-put_number space key other value store differ = record {
    bytes = λ s n.
        rw (laws.opened (put_number nvs space key value store) s, laws.opened store s, (kept s).0 n)
          refl;
    number = λ s d.
        rw (laws.opened (put_number nvs space key value store) s, laws.opened store s, (kept s).1)
          refl;
  }
    where
      kept :
          (s : Space)
          → ((n : ℕ)
              → nvs.get_blob s other n (put_number nvs space key value store)
                ≡ nvs.get_blob s other n store)
            × (nvs.get_number s other (put_number nvs space key value store)
                ≡ nvs.get_number s other store)
      kept s =
          laws.number_others space s key other value store (put_number nvs space key value store)
            (put_number_after space key value store) differ

  pub get_number-clear_space :
      (space : Space) (key : Key) (default_value : ℕ) (store : S)
      → get_number nvs space key default_value (clear_space nvs space store) ≡ default_value
  unfolding get_number clear_space
  get_number-clear_space space key default_value store =
      rw
        (
          laws.opened store space,
          laws.opened (nvs.erase_all space store) space,
          (laws.erased space key store).1,
        )
        refl

  pub get_bytes-clear_space :
      (space : Space) (key : Key) (size : ℕ) (store : S)
      → get_bytes nvs space key size (clear_space nvs space store) ≡ []
  unfolding get_bytes clear_space
  get_bytes-clear_space space key size store =
      rw
        (
          laws.opened store space,
          laws.opened (nvs.erase_all space store) space,
          (laws.erased space key store).0 size,
        )
        refl

  pub get_number-clear_other :
      (space other : Space) (key : Key) (default_value : ℕ) (store : S)
      → same_space other space ≡ false
      → get_number nvs other key default_value (clear_space nvs space store)
        ≡ get_number nvs other key default_value store
  unfolding get_number clear_space
  get_number-clear_other space other key default_value store differ =
      rw
        (
          laws.opened store space,
          laws.opened store other,
          laws.opened (nvs.erase_all space store) other,
          (laws.not_erased space other key store differ).1,
        )
        refl
