-- ===== src/Common/Bits/Step.antt =====
-- `&` and `|` by the lowest binary digit. The native operations carry fuel; more of it than the
-- first operand needs makes no difference.
use Prim.Native.Nat.{
  ℕ, zero, suc, ◌+◌, ◌*◌, ◌/◌, ◌%◌, ◌≤◌, min, max, bit_and, bit_or, digits, bitwise,
  bit_and-bitwise, bit_or-bitwise,
}
use mathlib.Core.Path.{◌≡◌, refl, sym, ap, ◌∙◌}
use native.Mathlib.Omega.{arith}

module _ (rest : ℕ → ℕ) (digit : ℕ → ℕ → ℕ) where
  none_left : (fuel y : ℕ) → digits rest digit fuel 0 y ≡ rest y
  none_left zero y = refl
  none_left (suc fuel) y = refl

  more_fuel :
      (x y fuel extra : ℕ)
      → x ≤ fuel
      → fuel ≤ extra
      → digits rest digit extra x y ≡ digits rest digit fuel x y
  more_fuel zero y fuel extra h k = none_left extra y ∙ sym (none_left fuel y)
  more_fuel (suc x) y zero extra h k = absurd (omega arith)
  more_fuel (suc x) y (suc fuel) zero h k = absurd (omega arith)
  more_fuel (suc x) y (suc fuel) (suc extra) h k =
      ap (λ (high : ℕ). high * 2 + digit (suc x % 2) (y % 2))
        (more_fuel (suc x / 2) (y / 2) fuel extra (omega arith) (omega arith))

  halves :
      (x y : ℕ)
      → bitwise rest digit (suc x) y
        ≡ 2 * bitwise rest digit (suc x / 2) (y / 2) + digit (suc x % 2) (y % 2)
  halves x y =
      omega (arith, more_fuel (suc x / 2) (y / 2) (suc x / 2) x (omega arith) (omega arith))

pub bit_and-halves : (x y : ℕ) → bit_and x y ≡ 2 * bit_and (x / 2) (y / 2) + min (x % 2) (y % 2)
bit_and-halves zero y = simp bit_and-bitwise (omega arith)
bit_and-halves (suc x) y = simp bit_and-bitwise (halves (λ _. 0) min x y)

pub bit_or-halves : (x y : ℕ) → bit_or x y ≡ 2 * bit_or (x / 2) (y / 2) + max (x % 2) (y % 2)
bit_or-halves zero y = simp bit_or-bitwise (omega arith)
bit_or-halves (suc x) y = simp bit_or-bitwise (halves (λ w. w) max x y)
