-- ===== src/Common/Bits.antt =====
-- 32-bit words: the wrap-around, the masks 0 and 2 ^ 32 - 1, and `&`, `|` as arithmetic.
mod Step
use Step.{bit_or-halves, bit_and-halves}
use Prim.Native.Nat.{ℕ, zero, suc, ◌+◌, ◌-◌, ◌*◌, ◌/◌, ◌%◌, ◌^◌, ◌≤◌, ◌<◌, bit_and, bit_or, min}
use mathlib.Core.Path.{◌≡◌, refl, ap, sym, ◌∙◌}
use mathlib.Core.Bool.{Bool, true, false}
use native.Mathlib.Nat.{pow-suc, one-le-pow, div-div-eq-div-mul}
use native.Mathlib.Omega.{arith}

abbrev pub ones : ℕ
ones = 2 ^ 32 - 1

-- `-(b)` of a C truth value stored in a uint32_t: all bits set, or none.
abbrev pub neg32 : Bool → ℕ
neg32 true = ones
neg32 false = 0

-- `~m` on a uint32_t.
abbrev pub not32 : ℕ → ℕ
not32 m = ones - m

-- `a - b` on a uint32_t and on a uint8_t; the modulus goes first since `-` stops at 0.
abbrev pub sub32 : ℕ → ℕ → ℕ
sub32 a b = (a + 2 ^ 32 - b) % 2 ^ 32

abbrev pub sub8 : ℕ → ℕ → ℕ
sub8 a b = (a + 2 ^ 8 - b) % 2 ^ 8

-- Two functions that agree at 0 and follow the same law for the lowest digit are equal.
module _ (f g d : ℕ → ℕ) (start : f 0 ≡ g 0) (f_halves : (x : ℕ) → f x ≡ 2 * f (x / 2) + d x)
    (g_halves : (x : ℕ) → g x ≡ 2 * g (x / 2) + d x) where
  agree_below : (bound x : ℕ) → x < bound → f x ≡ g x
  agree_below zero x h = absurd (omega arith)
  agree_below (suc bound) zero h = start
  agree_below (suc bound) (suc x) h =
      omega (arith, f_halves (suc x), g_halves (suc x), agree_below bound (suc x / 2) (omega arith))

  agree : (x : ℕ) → f x ≡ g x
  agree x = agree_below (suc x) x (omega arith)

pub bit_or-zero : (x : ℕ) → bit_or x 0 ≡ x
bit_or-zero x =
    agree (λ y. bit_or y 0) (λ y. y) (λ y. y % 2) refl (λ y. omega (arith, bit_or-halves y 0))
      (λ y. omega arith) x

pub zero-bit_or : (x : ℕ) → bit_or 0 x ≡ x
zero-bit_or x =
    agree (λ y. bit_or 0 y) (λ y. y) (λ y. y % 2) refl (λ y. omega (arith, bit_or-halves 0 y))
      (λ y. omega arith) x

pub bit_and-zero : (x : ℕ) → bit_and x 0 ≡ 0
bit_and-zero x =
    agree (λ y. bit_and y 0) (λ y. 0) (λ y. 0) refl (λ y. omega (arith, bit_and-halves y 0))
      (λ y. omega arith) x

mask_step : (q k : ℕ) → q * 2 ^ suc k ≡ 2 * (q * 2 ^ k)
mask_step q k = omega (arith, ap (λ (t : ℕ). q * t) (pow-suc 2 k))

bit_and_split : (k q r : ℕ) → r < 2 ^ k → bit_and (q * 2 ^ k + r) (2 ^ k - 1) ≡ r
bit_and_split zero q r h = rw bit_and-zero (omega arith)
bit_and_split (suc k) q r h = ground (
  arith,
  mask_step q k,
  pow-suc 2 k,
  bit_and-halves (q * 2 ^ suc k + r) (2 ^ suc k - 1),
  bit_and_split k q (r / 2) (omega arith),
)

-- A mask of `k` low bits is the remainder by `2 ^ k`.
pub bit_and_mask : (k a : ℕ) → bit_and a (2 ^ k - 1) ≡ a % 2 ^ k
bit_and_mask k a = ground (arith, one-le-pow k 2, bit_and_split k (a / 2 ^ k) (a % 2 ^ k))

pub bit_and-one : (a : ℕ) → bit_and a 1 ≡ a % 2
bit_and-one a = bit_and_mask 1 a

-- `&` with all ones keeps a word.
pub bit_and-ones : (a : ℕ) → a < 2 ^ 32 → bit_and a ones ≡ a
bit_and-ones a h = omega (arith, bit_and_mask 32 a)

-- The select `(x & m) | (y & ~m)` takes `x` at the full mask and `y` at the empty one.
pub select_ones : (x y : ℕ) → x < 2 ^ 32 → bit_or (bit_and x ones) (bit_and y (not32 ones)) ≡ x
select_ones x y h = rw (bit_and-ones x h, bit_and-zero y) (bit_or-zero x)

pub select_zero : (x y : ℕ) → y < 2 ^ 32 → bit_or (bit_and x 0) (bit_and y (not32 0)) ≡ y
select_zero x y h = rw (bit_and-zero x, bit_and-ones y h) (zero-bit_or y)

-- One bit of a word decides what `&` with it gives.
pub bit_and_pow :
    (k a b : ℕ) → bit_and a (2 ^ k) ≡ bit_and b (2 ^ k) → a / 2 ^ k % 2 ≡ b / 2 ^ k % 2
bit_and_pow zero a b h = omega (arith, bit_and_mask 1 a, bit_and_mask 1 b)
bit_and_pow (suc k) a b h =
    rw (shifted a, shifted b) (bit_and_pow k (a / 2) (b / 2) (omega (arith, halved a, halved b)))
  where
    twice : 2 ^ suc k ≡ 2 * 2 ^ k
    twice = omega (arith, pow-suc 2 k)

    shifted : (x : ℕ) → x / 2 ^ suc k ≡ x / 2 / 2 ^ k
    shifted x = ap (λ (t : ℕ). x / t) twice ∙ sym (div-div-eq-div-mul x 2 (2 ^ k))

    half : 2 ^ suc k / 2 ≡ 2 ^ k
    half = omega (arith, twice)

    halved : (x : ℕ) → bit_and x (2 ^ suc k) ≡ 2 * bit_and (x / 2) (2 ^ k)
    halved x =
        bit_and-halves x (2 ^ suc k)
        ∙ ap (λ (t : ℕ). 2 * bit_and (x / 2) t + min (x % 2) (2 ^ suc k % 2)) half
        ∙ omega (arith, twice)
