-- ===== src/Base/Bits.antt =====
-- `|` of disjoint fields and `&` with a mask, at variables.
use Prim.Native.Nat.{
  ℕ, zero, suc, ◌+◌, ◌*◌, ◌/◌, ◌%◌, ◌^◌, ◌≤◌, ◌<◌, max, bit_and, bit_or, digits, bit_or-bitwise,
}
use mathlib.Core.Path.{◌≡◌, refl, ap}
use mathlib.Core.Bool.{Bool, true, ◌&&◌}
use native.Mathlib.Nat.{pow-suc}
use native.Mathlib.Omega.{arith}
use esp_now_midi.Base.Tests.{◌==◌, ==_iff}

-- A test on each number below a bound
passes : (ℕ → Bool) → ℕ → Bool
passes test zero = true
passes test (suc bound) = passes test bound && test bound

passes-true : (test : ℕ → Bool) (bound x : ℕ) → x < bound → passes test bound ≡ true → test x ≡ true
unfolding passes
passes-true test zero x inside h = absurd (omega arith)
passes-true test (suc bound) x inside h = ground (arith, passes-true test bound x)

-- `x & 0xF0` of a byte
high_nibble_table : passes (λ x. bit_and x 0xf0 == x / 16 * 16) 256 ≡ true
unfolding passes
high_nibble_table = refl

pub bit_and_high_nibble : (x : ℕ) → x < 256 → bit_and x 0xf0 ≡ x / 16 * 16
bit_and_high_nibble x h = (==_iff _ _).0 (passes-true _ 256 x h high_nibble_table)

-- `x & 0x80` of a byte
high_bit_table : passes (λ x. bit_and x 0x80 == x / 128 * 128) 256 ≡ true
unfolding passes
high_bit_table = refl

pub bit_and_high_bit : (x : ℕ) → x < 256 → bit_and x 0x80 ≡ x / 128 * 128
bit_and_high_bit x h = (==_iff _ _).0 (passes-true _ 256 x h high_bit_table)

-- `x & 0x7F` of a byte
low_bits_table : passes (λ x. bit_and x 0x7f == x % 128) 256 ≡ true
unfolding passes
low_bits_table = refl

pub bit_and_low_bits : (x : ℕ) → x < 256 → bit_and x 0x7f ≡ x % 128
bit_and_low_bits x h = (==_iff _ _).0 (passes-true _ 256 x h low_bits_table)

-- What `bit_or` stands for: the digits of two numbers, with fuel to spare.
abbrev or_with : ℕ → ℕ → ℕ → ℕ
or_with fuel x y = digits (λ rest. rest) max fuel x y

-- Fuel that is not less than the first number is as good as any other such fuel.
or_with_spare : (x y u v : ℕ) → x ≤ u → x ≤ v → or_with u x y ≡ or_with v x y
or_with_spare zero y zero zero lu lv = refl
or_with_spare zero y (suc u) zero lu lv = refl
or_with_spare zero y zero (suc v) lu lv = refl
or_with_spare zero y (suc u) (suc v) lu lv = refl
or_with_spare (suc x) y zero v lu lv = absurd (omega arith)
or_with_spare (suc x) y (suc u) zero lu lv = absurd (omega arith)
or_with_spare (suc x) y (suc u) (suc v) lu lv =
    omega (or_with_spare (suc x / 2) (y / 2) u v (omega arith) (omega arith), arith)

-- The lowest digit of `x | y`, and the rest
bit_or_low : (x y : ℕ) → bit_or x y ≡ max (x % 2) (y % 2) + bit_or (x / 2) (y / 2) * 2
bit_or_low zero y = omega (arith, bit_or-bitwise 0 (y / 2), bit_or-bitwise 0 y)
bit_or_low (suc x) y =
    let half : suc x / 2 ≤ x = omega arith in
    omega (
      arith,
      or_with_spare (suc x / 2) (y / 2) (suc x / 2) x (omega arith) half,
      bit_or-bitwise (suc x / 2) (y / 2),
      bit_or-bitwise (suc x) y,
    )

zero-bit_or : (y : ℕ) → bit_or 0 y ≡ y
zero-bit_or y = bit_or-bitwise 0 y

-- The fields of `lo | (hi << k)` do not overlap when `lo` has at most `k` bits.
pub bit_or-shift : (k lo hi : ℕ) → lo < 2 ^ k → bit_or lo (hi * 2 ^ k) ≡ lo + hi * 2 ^ k
bit_or-shift zero lo hi h =
    omega (arith, ap (λ (t : ℕ). bit_or t (hi * 1)) zero_lo, zero-bit_or (hi * 1))
  where
    zero_lo : lo ≡ 0
    zero_lo = omega arith
bit_or-shift (suc k) lo hi h = omega (
  arith,
  double,
  bit_or_low lo (hi * 2 ^ suc k),
  ap (λ (t : ℕ). bit_or (lo / 2) t) half,
  bit_or-shift k (lo / 2) hi (omega (arith, pow-suc 2 k)),
)
  where
    double : hi * 2 ^ suc k ≡ hi * 2 ^ k * 2
    double = rw pow-suc (omega arith)

    half : hi * 2 ^ suc k / 2 ≡ hi * 2 ^ k
    half = omega (arith, double)

bit_or-zero : (bound x : ℕ) → x ≤ bound → bit_or x 0 ≡ x
bit_or-zero bound zero h = zero-bit_or 0
bit_or-zero zero (suc x) h = absurd (omega arith)
bit_or-zero (suc bound) (suc x) h =
    let half : bit_or (suc x / 2) 0 ≡ suc x / 2 = bit_or-zero bound (suc x / 2) (omega arith) in
    omega (arith, half, bit_or_low (suc x) 0)

-- The same with the high field written first.
pub shift-bit_or : (k lo hi : ℕ) → lo < 2 ^ k → bit_or (hi * 2 ^ k) lo ≡ hi * 2 ^ k + lo
shift-bit_or zero lo hi h =
    omega (
      arith,
      ap (λ (t : ℕ). bit_or (hi * 1) t) zero_lo,
      bit_or-zero (hi * 1) (hi * 1) (omega arith),
    )
  where
    zero_lo : lo ≡ 0
    zero_lo = omega arith
shift-bit_or (suc k) lo hi h = omega (
  arith,
  double,
  bit_or_low (hi * 2 ^ suc k) lo,
  ap (λ (t : ℕ). bit_or t (lo / 2)) half,
  shift-bit_or k (lo / 2) hi (omega (arith, pow-suc 2 k)),
)
  where
    double : hi * 2 ^ suc k ≡ hi * 2 ^ k * 2
    double = rw pow-suc (omega arith)

    half : hi * 2 ^ suc k / 2 ≡ hi * 2 ^ k
    half = omega (arith, double)

-- A high nibble and a low nibble.
pub nibbles-bit_or : (hi lo : ℕ) → lo < 16 → bit_or (hi * 16) lo ≡ hi * 16 + lo
nibbles-bit_or hi lo h = shift-bit_or 4 lo hi h

-- Two bytes of a 16-bit word, least significant first.
pub bytes-bit_or : (lo hi : ℕ) → lo < 256 → bit_or lo (hi * 256) ≡ lo + hi * 256
bytes-bit_or lo hi h = bit_or-shift 8 lo hi h
