-- ===== src/PathOram/Height.antt =====
-- `ComputeTreeHeight`: the number of binary digits of the capacity.
use intel_sgx_path_oram.Common.{
  ℕ, zero, suc, ◌+◌, ◌*◌, ◌/◌, ◌^◌, ◌≤◌, ◌<◌, ◌≡◌, arith, ◌∙◌, sym, Bool-cases, inl, inr, ◌==◌,
  ==→eq, ==→ne, ltb, false,
}
use intel_sgx_path_oram.PathOram.{height_loop, compute_tree_height}
use Prim.Native.Nat.{max}
use mathlib.Core.Path.{subst}
use native.Mathlib.Nat.{pow-suc, pow-le-pow_right}
use intel_sgx_path_oram.Client.{client_max_path}

-- `n` is the number of binary digits of `capacity`.
abbrev pub IsDigits : ℕ → ℕ → Type 0
IsDigits capacity n = (capacity < 2 ^ n) × (2 ^ n ≤ max 1 (2 * capacity))

height_loop_lem :
    (fuel h capacity : ℕ)
    → capacity < 2 ^ fuel
    → (n : ℕ) × (height_loop fuel h capacity ≡ h + n) × IsDigits capacity n
unfolding height_loop
height_loop_lem zero h capacity fits = (0, omega arith, (omega arith, omega arith))
height_loop_lem (suc fuel) h capacity fits = elim (Bool-cases (capacity == 0)) [
  | inl e ↦ (0, rw e (omega arith), (omega (arith, ==→eq capacity 0 e), omega arith))
  | inr e ↦
      let (n, runs, (above, below)) =
        height_loop_lem fuel (h + 1) (capacity / 2) (omega (arith, pow-suc 2 fuel)) in
      (
        suc n,
        rw e (runs ∙ omega arith),
        (omega (arith, pow-suc 2 n), omega (arith, pow-suc 2 n, ==→ne capacity 0 e)),
      )
]

-- For a 64-bit capacity, the height `h` is its number of binary digits: the capacity is below `2 ^
-- h`, and `2 ^ h` is at most twice the capacity, or 1 for the capacity 0.
pub compute_tree_height_lem :
    (capacity : ℕ) → capacity < 2 ^ 64 → IsDigits capacity (compute_tree_height capacity)
unfolding compute_tree_height
compute_tree_height_lem capacity fits =
    let (n, runs, digits) = height_loop_lem 65 0 capacity (omega arith) in
    subst (IsDigits capacity) (sym (runs ∙ omega arith)) digits

-- A tree that fits the client's path, and one that does not.
pub height-low : (capacity : ℕ) → capacity < 2 ^ 19 → compute_tree_height capacity < client_max_path
height-low capacity low = elim (Bool-cases (ltb (compute_tree_height capacity) 20)) [
  | inl e ↦ ground arith
  | inr e ↦ absurd (
      omega (
        arith,
        (compute_tree_height_lem capacity (omega arith)).1,
        pow-le-pow_right {n = 2} (omega arith) {i = 20} {j = compute_tree_height capacity}
            (ground arith),
      ))
]

pub height-high :
    (capacity : ℕ)
    → 2 ^ 19 ≤ capacity
    → capacity < 2 ^ 63
    → ltb (compute_tree_height capacity) client_max_path ≡ false
height-high capacity high fits = elim (Bool-cases (ltb (compute_tree_height capacity) 20)) [
  | inr e ↦ e
  | inl e ↦ absurd (
      omega (
        arith,
        (compute_tree_height_lem capacity (omega arith)).0,
        pow-le-pow_right {n = 2} (omega arith) {i = compute_tree_height capacity} {j = 19}
            (ground arith),
      ))
]
