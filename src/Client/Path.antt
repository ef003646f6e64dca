-- ===== src/Client/Path.antt =====
-- The indices along a path.
use intel_sgx_path_oram.Common.{
  ℕ, zero, suc, ◌+◌, ◌*◌, ◌/◌, ◌%◌, ◌^◌, ◌≤◌, ◌<◌, ◌≡◌, ◌≢◌, List, [], ◌∷◌, arith, All, ap,
}
use intel_sgx_path_oram.Client.{child}
use intel_sgx_path_oram.Client.Tree.{path_addrs, Apart}
use native.Mathlib.Nat.{pow-suc, one-le-pow, pow-le-pow_right}

-- `bound` stands for the number of nodes down to the level of `addr`, plus one.
module _ (left addr tree_path bound : ℕ) (within : addr + 1 < bound)
    (fits : bound * 2 ^ suc left ≤ 2 ^ 32) where
  pub doubled : 2 * bound * 2 ^ left ≡ bound * 2 ^ suc left
  doubled = omega (arith, ap (λ (t : ℕ). bound * t) (pow-suc 2 left))

  pub fits_below : 2 * bound * 2 ^ left ≤ 2 ^ 32
  fits_below = omega (arith, doubled)

  bound_fits : 2 * bound ≤ 2 ^ 32
  bound_fits = grind (arith, fits_below, one-le-pow left 2)

  pub child_lem : child addr tree_path ≡ addr * 2 + 1 + tree_path % 2
  child_lem = omega (arith, bound_fits)

  pub child_within : child addr tree_path + 1 < 2 * bound
  child_within = omega (arith, child_lem)

pub path_addrs-ge :
    (left addr tree_path bound : ℕ)
    → addr + 1 < bound
    → bound * 2 ^ left ≤ 2 ^ 32
    → (low : ℕ) → low ≤ addr
    → All (λ x. low ≤ x) (path_addrs left addr tree_path)
path_addrs-ge zero addr tree_path bound within fits low h = tt
path_addrs-ge (suc left) addr tree_path bound within fits low h = (
  h,
  path_addrs-ge left (child addr tree_path) (tree_path / 2) (2 * bound)
      (child_within left addr tree_path bound within fits)
      (fits_below left addr tree_path bound within fits) low
      (omega (arith, child_lem left addr tree_path bound within fits)),
)

pub All-weaken {ℓ κ λ'} :
    {A : Type ℓ} (P : A → Type κ) (Q : A → Type λ') (xs : List A)
    → ((x : A) → P x → Q x)
    → All P xs
    → All Q xs
All-weaken P Q [] f h = tt
All-weaken P Q (x ∷ xs) f h = (f x h.0, All-weaken P Q xs f h.1)

-- Every node below `addr` on the path has another index.
pub path_addrs-Apart :
    (left addr tree_path bound : ℕ)
    → addr + 1 < bound
    → bound * 2 ^ suc left ≤ 2 ^ 32
    → Apart addr (path_addrs left (child addr tree_path) (tree_path / 2))
path_addrs-Apart left addr tree_path bound within fits =
    All-weaken (λ x. addr + 1 ≤ x) (λ x. x ≢ addr) _ (λ x above e. omega arith)
      (path_addrs-ge left (child addr tree_path) (tree_path / 2) (2 * bound)
        (child_within left addr tree_path bound within fits)
        (fits_below left addr tree_path bound within fits) (addr + 1)
        (omega (arith, child_lem left addr tree_path bound within fits)))

path_addrs-lt_bound :
    (left addr tree_path bound : ℕ)
    → addr + 1 < bound
    → bound * 2 ^ suc left ≤ 2 ^ 32
    → All (λ x. x + 1 < bound * 2 ^ left) (path_addrs (suc left) addr tree_path)
path_addrs-lt_bound zero addr tree_path bound within fits = (omega arith, tt)
path_addrs-lt_bound (suc left) addr tree_path bound within fits = (
  grind (arith, one-le-pow (suc left) 2),
  All-weaken (λ x. x + 1 < 2 * bound * 2 ^ left) (λ x. x + 1 < bound * 2 ^ suc left)
      (path_addrs (suc left) (child addr tree_path) (tree_path / 2))
      (λ x h. omega (arith, ap (λ (t : ℕ). bound * t) (pow-suc 2 left)))
      (path_addrs-lt_bound left (child addr tree_path) (tree_path / 2) (2 * bound)
        (child_within (suc left) addr tree_path bound within fits)
        (fits_below (suc left) addr tree_path bound within fits)),
)

-- The heights that `ecall_init_client` admits keep every index within a uint32_t.
pub pow_le : (left : ℕ) → left ≤ 20 → 2 ^ left ≤ 2 ^ 20
pow_le left h = pow-le-pow_right {n = 2} (omega arith) h

-- The indices of a path of at most 20 levels, computed on 32 bits, stay within the array of `2 ^
-- height` nodes.
pub path_addrs-lt :
    (height tree_path : ℕ) → height ≤ 20 → All (λ x. x < 2 ^ height) (path_addrs height 0 tree_path)
path_addrs-lt zero tree_path small = tt
path_addrs-lt (suc left) tree_path small =
    All-weaken (λ x. x + 1 < 2 * 2 ^ left) (λ x. x < 2 ^ suc left)
      (path_addrs (suc left) 0 tree_path) (λ x h. omega (arith, pow-suc 2 left))
      (path_addrs-lt_bound left 0 tree_path 2 (omega arith)
        (omega (arith, pow_le (suc left) small)))
