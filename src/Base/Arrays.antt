-- ===== src/Base/Arrays.antt =====
-- A C array is a function from the index; `put` writes one slot. `segment` lists
-- the slots of a view of an array: of the array itself, or of a ring, through its index arithmetic.
use Prim.Native.Nat.{ℕ, zero, suc, ◌+◌, ◌%◌, ◌<◌, ◌≤◌}
use mathlib.Core.Path.{◌≡◌, refl, ap, ap₂, ◌∙◌}
use mathlib.Core.Logic.{◌≢◌}
use mathlib.Core.List.{List, [], ◌∷◌, ◌++◌}
use native.Mathlib.Nat.{mod-add-mod}
use native.Mathlib.Omega.{arith}
use native.Mathlib.Decide.{ℕ_discrete}
use esp_now_midi.Base.Tests.{◌==◌, ==-eq, ==-ne, if◌then◌else◌}
use esp_now_midi.Base.Lists.{length, get_or}

-- Two slots of a ring of `c` slots differ when their offsets from the tail do.
pub slot_injective : (c t j k : ℕ) → j < c → k < c → (t + j) % c ≡ (t + k) % c → j ≡ k
slot_injective c t j k hj hk e = grind arith

module _ {ℓ} {A : Type ℓ} where
  -- `items[i] = v`
  unfoldable pub put : (ℕ → A) → ℕ → A → ℕ → A
  put items i v j = if j == i then v else items j

  pub put_same : (items : ℕ → A) (i : ℕ) (v : A) (j : ℕ) → j ≡ i → put items i v j ≡ v
  unfolding put
  put_same items i v j h = ground arith

  pub put_other : (items : ℕ → A) (i : ℕ) (v : A) (j : ℕ) → j ≢ i → put items i v j ≡ items j
  unfolding put
  put_other items i v j h = ground arith

  -- The `n` elements of `f` from index `k` on.
  abbrev pub segment : (ℕ → A) → ℕ → ℕ → List A
  segment f k zero = []
  segment f k (suc n) = f k ∷ segment f (suc k) n

  pub length-segment : (f : ℕ → A) (k n : ℕ) → length (segment f k n) ≡ n
  length-segment f k zero = refl
  length-segment f k (suc n) = ap suc (length-segment f (suc k) n)

  pub segment_congr :
      (f g : ℕ → A) (k n : ℕ)
      → ((j : ℕ) → k ≤ j → j < k + n → f j ≡ g j)
      → segment f k n ≡ segment g k n
  segment_congr f g k zero h = refl
  segment_congr f g k (suc n) h =
      ap₂ ◌∷◌ (h k (omega arith) (omega arith))
        (segment_congr f g (suc k) n (λ j lo hi. h j (omega arith) (omega arith)))

  -- A view that starts one element later.
  pub segment_shift :
      (f g : ℕ → A) (k n : ℕ)
      → ((j : ℕ) → k ≤ j → j < k + n → g j ≡ f (suc j))
      → segment g k n ≡ segment f (suc k) n
  segment_shift f g k zero h = refl
  segment_shift f g k (suc n) h =
      ap₂ ◌∷◌ (h k (omega arith) (omega arith))
        (segment_shift f g (suc k) n (λ j lo hi. h j (omega arith) (omega arith)))

  pub segment_snoc : (f : ℕ → A) (k n : ℕ) → segment f k (suc n) ≡ segment f k n ++ f (k + n) ∷ []
  segment_snoc f k zero = ap (λ (j : ℕ). f j ∷ []) (omega arith)
  segment_snoc f k (suc n) =
      ap (◌∷◌ (f k))
        (segment_snoc f (suc k) n ∙ ap (λ (j : ℕ). segment f (suc k) n ++ f j ∷ []) (omega arith))

  pub segment_append :
      (f : ℕ → A) (k m n : ℕ) → segment f k (m + n) ≡ segment f k m ++ segment f (k + m) n
  segment_append f k zero n = ap₂ (segment f) (omega arith) (omega arith)
  segment_append f k (suc m) n =
      let e : suc m + n ≡ suc (m + n) = omega arith in
      rw e (
        ap (◌∷◌ (f k)) (
          segment_append f (suc k) m n
          ∙ ap (λ (j : ℕ). segment f (suc k) m ++ segment f j n) (omega arith)))

  -- A view that agrees with `f` below `n` and holds `x` there lists one element more.
  pub segment_extend :
      (f g : ℕ → A) (n : ℕ) (x : A)
      → ((j : ℕ) → j < n → g j ≡ f j)
      → g n ≡ x
      → segment g 0 (suc n) ≡ segment f 0 n ++ x ∷ []
  segment_extend f g n x same new =
      segment_snoc g 0 n
      ∙ ap₂ (λ xs (y : A). xs ++ y ∷ []) (segment_congr g f 0 n (λ j _ lt. same j (omega arith)))
          (ap g {x = 0 + n} {y = n} (omega arith) ∙ new)

  -- A view that skips the element at `k`.
  pub segment_remove :
      (f g : ℕ → A) (k n : ℕ)
      → ((j : ℕ) → j < k → g j ≡ f j)
      → ((j : ℕ) → k ≤ j → j < k + n → g j ≡ f (suc j))
      → segment g 0 (k + n) ≡ segment f 0 k ++ segment f (suc k) n
  segment_remove f g k n before behind =
      segment_append g 0 k n
      ∙ ap₂ ◌++◌ (segment_congr g f 0 k (λ j _ lt. before j (omega arith))) (
          ap (λ (i : ℕ). segment g i n) {x = 0 + k} {y = k} (omega arith)
          ∙ segment_shift f g k n behind)

  -- A view that agrees with a list lists it.
  pub segment_list :
      (f : ℕ → A) (k : ℕ) (xs : List A) (d : A)
      → ((j : ℕ) → j < length xs → f (k + j) ≡ get_or xs j d)
      → segment f k (length xs) ≡ xs
  segment_list f k [] d h = refl
  segment_list f k (x ∷ xs) d h =
      ap₂ ◌∷◌ (ap f {x = k} {y = k + 0} (omega arith) ∙ h 0 (omega arith)) (
        segment_list f (suc k) xs d
          (λ j lt. ap f {x = suc k + j} {y = k + suc j} (omega arith) ∙ h (suc j) (omega arith)))

  -- A ring of `c` slots, seen from its tail.
  abbrev pub ring : ℕ → (ℕ → A) → ℕ → ℕ → A
  ring c items tail k = items ((tail + k) % c)

  pub ring-put :
      (c : ℕ) (items : ℕ → A) (tail k : ℕ) (v : A) (j : ℕ)
      → j < c
      → k < c
      → ring c (put items ((tail + k) % c) v) tail j ≡ (if j == k then v else ring c items tail j)
  ring-put c items tail k v j hj hk = elim (ℕ_discrete j k) [
    | yes e ↦
        rw (==-eq j k e)
          (put_same items ((tail + k) % c) v ((tail + j) % c) (ap (λ (x : ℕ). (tail + x) % c) e))
    | no ne ↦ rw (==-ne j k ne) (
        put_other items ((tail + k) % c) v ((tail + j) % c)
          (λ e. ne (slot_injective c tail j k hj hk e)))
  ]

  -- Moving the tail on by one drops the first element.
  pub ring_next :
      (c : ℕ) (items : ℕ → A) (tail j : ℕ)
      → ring c items ((tail + 1) % c) j ≡ ring c items tail (suc j)
  ring_next c items tail j = ap items (rw mod-add-mod (ap (λ (n : ℕ). n % c) (omega arith)))
