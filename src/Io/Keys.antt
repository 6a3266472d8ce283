-- ===== src/Io/Keys.antt =====
-- include/enomik_io.h: one configuration for each pin.
use esp_now_midi.Base.{
  ℕ, zero, suc, is_some, ◌≡◌, refl, sym, ap, ◌∙◌, ◌≢◌, inl, inr, true, false, ◌&&◌, Option, none,
  some, List, [], ◌∷◌, ◌++◌, arith, ◌==◌, if◌then◌else◌, ==-ne, ==_iff, Bool-cases, Option-cases,
}
use mathlib.Core.Path.{subst}
use esp_now_midi.Codec.{PinConfig}
use esp_now_midi.Io.Preferences.{or_else}
use esp_now_midi.Io.Configs.{
  same_except_threshold, set_threshold, config_index, erase_at, find_config,
}

-- No two pin configurations are for the same pin.
abbrev pub Apart : List PinConfig → Type 0
Apart [] = Unit
Apart (c ∷ configs) = (find_config c.pin configs ≡ none) × Apart configs

same_except_threshold-eq :
    (a b : PinConfig) → same_except_threshold a b ≡ true → record a { threshold = b.threshold } ≡ b
unfolding same_except_threshold
same_except_threshold-eq a b h = ground arith

-- Where a threshold is set there is a configuration of the pin.
pub set_threshold-found :
    (c : PinConfig) (configs : List PinConfig)
    → find_config c.pin configs ≡ none
    → set_threshold c configs ≡ none
unfolding set_threshold find_config
set_threshold-found c [] h = refl
set_threshold-found c (e ∷ configs) h = elim (Bool-cases (e.pin == c.pin)) [
  | inl here ↦ absurd (ground (arith, here))
  | inr other ↦
      rw (other, set_threshold, set_threshold-found c configs (ground (arith, h, other))) refl
]

set_threshold-differ :
    (c e : PinConfig) (configs changed : List PinConfig)
    → find_config e.pin configs ≡ none
    → set_threshold c configs ≡ some changed
    → e.pin ≢ c.pin
set_threshold-differ c e configs changed gone found same = absurd (
    ground (
      arith,
      found,
      set_threshold-found c configs (ap (λ (pin : ℕ). find_config pin configs) (sym same) ∙ gone),
    ))

-- The first configuration of a pin once the threshold is set
pub find_config-set_threshold :
    (c : PinConfig) (p : ℕ) (configs : List PinConfig)
    → Apart configs
    → find_config p (or_else configs (set_threshold c configs))
      ≡ (if is_some (set_threshold c configs) && c.pin == p then some c else find_config p configs)
unfolding set_threshold find_config
find_config-set_threshold c p [] apart = refl
find_config-set_threshold c p (e ∷ configs) apart =
    let later = find_config-set_threshold c p configs apart.1 in
    elim (Bool-cases (e.pin == c.pin && same_except_threshold e c)) [
      | inl here ↦
          rw (here, set_threshold)
            (ground
              (arith, here, ap find_pin (same_except_threshold-eq e c (ground (arith, here)))))
      | inr other ↦ elim (Option-cases (set_threshold c configs)) [
        | inl same ↦ rw (other, same, set_threshold) refl
        | inr (changed, found) ↦
            let differ = set_threshold-differ c e configs changed apart.0 found in
            let rest : find_config p changed
                ≡ (if c.pin == p then some c else find_config p configs) =
              ground (arith, later, found) in
            rw (other, found, set_threshold) (ground (arith, rest, ==-ne e.pin c.pin differ))
      ]
    ]
  where
    find_pin : PinConfig → Option PinConfig
    find_pin d = find_config p (d ∷ configs)

-- The removal of the first entry of a pin
pub find_config-erase_at :
    (pin p i : ℕ) (configs : List PinConfig)
    → Apart configs
    → config_index pin configs ≡ some i
    → find_config p (erase_at i configs) ≡ (if pin == p then none else find_config p configs)
unfolding config_index find_config erase_at
find_config-erase_at pin p i [] apart h = ground arith
find_config-erase_at pin p zero (e ∷ configs) apart h = elim (Bool-cases (e.pin == pin)) [
  | inl here ↦
      let same : e.pin ≡ pin = (==_iff e.pin pin).0 here in
      let gone : find_config pin configs ≡ none =
        ap (λ (q : ℕ). find_config q configs) (sym same) ∙ apart.0 in
      elim (Bool-cases (pin == p)) [
        | inl asked ↦
            rw (asked, find_config)
              (ap (λ (q : ℕ). find_config q configs) (sym ((==_iff pin p).0 asked)) ∙ gone)
        | inr other ↦ ground (arith, same, other)
      ]
  | inr other ↦ absurd (ground (arith, h, other))
]
find_config-erase_at pin p (suc i) (e ∷ configs) apart h = elim (Bool-cases (e.pin == pin)) [
  | inl here ↦ absurd (ground (arith, h, here))
  | inr other ↦
      let rest = find_config-erase_at pin p i configs apart.1 (ground (arith, h, other)) in
      ground (arith, other, rest)
]

pub config_index-none :
    (pin : ℕ) (configs : List PinConfig)
    → config_index pin configs ≡ none
    → find_config pin configs ≡ none
unfolding config_index find_config
config_index-none pin [] h = refl
config_index-none pin (e ∷ configs) h = ground (arith, config_index-none pin configs)

pub find_config-append :
    (p : ℕ) (configs : List PinConfig) (c : PinConfig)
    → find_config p (configs ++ c ∷ []) ≡ (
        if is_some (find_config p configs)
        then find_config p configs
        else if c.pin == p
        then some c
        else none)
unfolding find_config
find_config-append p [] c = refl
find_config-append p (e ∷ configs) c = ground (arith, find_config-append p configs c)

find_config-erase_none :
    (p i : ℕ) (configs : List PinConfig)
    → find_config p configs ≡ none
    → find_config p (erase_at i configs) ≡ none
unfolding find_config erase_at
find_config-erase_none p i [] h = refl
find_config-erase_none p zero (e ∷ configs) h = ground (arith, h)
find_config-erase_none p (suc i) (e ∷ configs) h =
    let other : (e.pin == p) ≡ false = ground (arith, h) in
    rw (other, find_config) (find_config-erase_none p i configs (ground (arith, h, other)))

pub Apart-erase_at : (i : ℕ) (configs : List PinConfig) → Apart configs → Apart (erase_at i configs)
unfolding erase_at
Apart-erase_at i [] apart = tt
Apart-erase_at zero (e ∷ configs) apart = apart.1
Apart-erase_at (suc i) (e ∷ configs) apart =
    (find_config-erase_none e.pin i configs apart.0, Apart-erase_at i configs apart.1)

pub Apart-append :
    (configs : List PinConfig) (c : PinConfig)
    → Apart configs
    → find_config c.pin configs ≡ none
    → Apart (configs ++ c ∷ [])
unfolding find_config
Apart-append [] c apart h = (refl, tt)
Apart-append (e ∷ configs) c apart h = (
  ground (arith, find_config-append e.pin configs c, apart.0, h),
  Apart-append configs c apart.1 (ground (arith, h)),
)

pub Apart-set_threshold :
    (c : PinConfig) (configs : List PinConfig)
    → Apart configs
    → Apart (or_else configs (set_threshold c configs))
unfolding set_threshold
Apart-set_threshold c [] apart = tt
Apart-set_threshold c (e ∷ configs) apart =
    let later = Apart-set_threshold c configs apart.1 in
    let asked = find_config-set_threshold c e.pin configs apart.1 in
    elim (Bool-cases (e.pin == c.pin && same_except_threshold e c)) [
      | inl here ↦ rw (here, set_threshold) apart
      | inr other ↦ elim (Option-cases (set_threshold c configs)) [
        | inl same ↦ rw (other, same, set_threshold) apart
        | inr (changed, found) ↦
            let differ = set_threshold-differ c e configs changed apart.0 found in
            let gone : find_config e.pin changed ≡ none =
              ground (arith, asked, found, apart.0, ==-ne e.pin c.pin differ) in
            rw (other, found, set_threshold)
              (gone, subst (λ o. Apart (or_else configs o)) found later)
      ]
    ]
