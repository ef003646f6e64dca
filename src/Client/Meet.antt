-- ===== src/Client/Meet.antt =====
-- Two paths of one tree and the nodes that they share.
use intel_sgx_path_oram.Common.{
  ℕ, zero, suc, ◌+◌, ◌*◌, ◌/◌, ◌%◌, ◌^◌, ◌≤◌, ◌<◌, ◌≡◌, ◌≢◌, List, [], ◌∷◌, arith, All, sym,
}
use intel_sgx_path_oram.Client.{child}
use intel_sgx_path_oram.Client.Tree.{path_addrs, Apart}
use intel_sgx_path_oram.Client.Path.{path_addrs-ge, fits_below, child_lem, child_within, All-weaken}

All-zip {ℓ κ λ'} :
    {A : Type ℓ} (P : A → Type κ) (Q : A → Type λ') (xs : List A)
    → All P xs
    → All Q xs
    → All (λ x. P x × Q x) xs
All-zip P Q [] hp hq = tt
All-zip P Q (x ∷ xs) hp hq = ((hp.0, hq.0), All-zip P Q xs hp.1 hq.1)

-- `low` stands for the number of nodes above the level, plus one.
pub path_addrs-ge_low :
    (left addr r low : ℕ)
    → low ≤ addr + 1
    → addr + 1 < 2 * low
    → 2 * low * 2 ^ suc left ≤ 2 ^ 32
    → All (λ x. 2 * low ≤ x + 1) (path_addrs left (child addr r) (r / 2))
path_addrs-ge_low left addr r low above within fits =
    All-weaken (λ x. child addr r ≤ x) (λ x. 2 * low ≤ x + 1) _
      (λ x h. omega (arith, child_lem left addr r (2 * low) within fits))
      (path_addrs-ge left (child addr r) (r / 2) (2 * (2 * low))
        (child_within left addr r (2 * low) within fits)
        (fits_below left addr r (2 * low) within fits) (child addr r) (omega arith))

-- Below two nodes of one level there is no common node.
pub paths-Apart :
    (left a b p q low : ℕ)
    → a ≢ b
    → low ≤ a + 1
    → low ≤ b + 1
    → a + 1 < 2 * low
    → b + 1 < 2 * low
    → 2 * low * 2 ^ left ≤ 2 ^ 32
    → All (λ x. Apart x (path_addrs left b q)) (path_addrs left a p)
paths-Apart zero a b p q low ne la lb ha hb fits = tt
paths-Apart (suc left) a b p q low ne la lb ha hb fits = (
  (
    λ e. ne (sym e),
    All-weaken (λ x. 2 * low ≤ x + 1) (λ x. x ≢ a) _ (λ x h e. omega arith)
        (path_addrs-ge_low left b q low lb hb fits),
  ),
  All-zip (λ x. b ≢ x) (λ x. Apart x (path_addrs left (child b q) (q / 2)))
      (path_addrs left (child a p) (p / 2))
      (All-weaken (λ x. 2 * low ≤ x + 1) (λ x. b ≢ x) _ (λ x h e. omega arith)
        (path_addrs-ge_low left a p low la ha fits))
      (paths-Apart left (child a p) (child b q) (p / 2) (q / 2) (2 * low)
        (λ e. omega (arith, child_a, child_b)) (omega (arith, child_a)) (omega (arith, child_b))
        (child_within left a p (2 * low) ha fits) (child_within left b q (2 * low) hb fits)
        (fits_below left a p (2 * low) ha fits)),
)
  where
    child_a : child a p ≡ a * 2 + 1 + p % 2
    child_a = child_lem left a p (2 * low) ha fits

    child_b : child b q ≡ b * 2 + 1 + q % 2
    child_b = child_lem left b q (2 * low) hb fits
