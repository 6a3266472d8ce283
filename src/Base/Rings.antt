-- ===== src/Base/Rings.antt =====
-- A ring as a queue: writing behind the last element appends, moving the head on drops the first.
use Prim.Native.Nat.{ℕ, suc, ◌+◌, ◌-◌, ◌%◌, ◌<◌, ◌≤◌}
use mathlib.Core.Path.{◌≡◌, refl, ap, sym, ◌∙◌}
use mathlib.Core.List.{List, [], ◌∷◌, ◌++◌}
use native.Mathlib.Nat.{mod-eq_of_lt}
use native.Mathlib.Omega.{arith}
use esp_now_midi.Base.Tests.{==-eq, ==-ne}
use esp_now_midi.Base.Arrays.{
  put, segment, segment_congr, segment_extend, segment_shift, ring, ring-put, ring_next,
}

module _ {ℓ} {A : Type ℓ} (c : ℕ) (items : ℕ → A) (head : ℕ) where
  -- The first `n` elements from `head` on.
  abbrev pub ring_list : ℕ → List A
  ring_list n = segment (ring c items head) 0 n

module _ {ℓ} {A : Type ℓ} where
  pub ring_list-put :
      (c : ℕ) (items : ℕ → A) (head n : ℕ) (v : A)
      → n < c
      → ring_list c (put items ((head + n) % c) v) head (n + 1) ≡ ring_list c items head n ++ v ∷ []
  ring_list-put c items head n v h =
      ap (ring_list c (put items ((head + n) % c) v) head) {x = n + 1} {y = suc n} (omega arith)
      ∙ segment_extend (ring c items head) (ring c (put items ((head + n) % c) v) head) n v
          (λ j lt. ring-put c items head n v j (omega arith) h ∙ rw (==-ne j n (omega arith)) refl)
          (ring-put c items head n v n h h ∙ rw (==-eq n n refl) refl)

  pub ring_list_step :
      (c : ℕ) (items : ℕ → A) (head n : ℕ)
      → head < c
      → ring_list c items head (suc n) ≡ items head ∷ ring_list c items ((head + 1) % c) n
  ring_list_step c items head n h =
      ap (λ (i : ℕ). items i ∷ segment (ring c items head) 1 n) {x = (head + 0) % c} {y = head}
        start
      ∙ ap (◌∷◌ (items head)) (
          sym (
            segment_shift (ring c items head) (ring c items ((head + 1) % c)) 0 n
              (λ j lo hi. ring_next c items head j)))
    where
      start : (head + 0) % c ≡ head
      start = grind (arith, mod-eq_of_lt h)

  pub ring_list_pop :
      (c : ℕ) (items : ℕ → A) (head n : ℕ)
      → head < c
      → 0 < n
      → ring_list c items head n ≡ items head ∷ ring_list c items ((head + 1) % c) (n - 1)
  ring_list_pop c items head n h pos =
      let e : n ≡ suc (n - 1) = omega arith in
      ap (ring_list c items head) e ∙ ring_list_step c items head (n - 1) h

  -- Overwriting the element at offset `k`.
  pub ring_list-put_inside :
      (c : ℕ) (items : ℕ → A) (head k n : ℕ) (v : A)
      → k + suc n ≤ c
      → segment (ring c (put items ((head + k) % c) v) head) (suc k) n
        ≡ segment (ring c items head) (suc k) n
  ring_list-put_inside c items head k n v h =
      segment_congr (ring c (put items ((head + k) % c) v) head) (ring c items head) (suc k) n
        (λ j lo hi.
          ring-put c items head k v j (omega arith) (omega arith)
          ∙ rw (==-ne j k (omega arith)) refl)

  pub ring_list-put_before :
      (c : ℕ) (items : ℕ → A) (head k n : ℕ) (v : A)
      → n ≤ k
      → k < c
      → segment (ring c (put items ((head + k) % c) v) head) 0 n ≡ segment (ring c items head) 0 n
  ring_list-put_before c items head k n v h lt =
      segment_congr (ring c (put items ((head + k) % c) v) head) (ring c items head) 0 n (λ j lo hi.
        ring-put c items head k v j (omega arith) lt ∙ rw (==-ne j k (omega arith)) refl)
