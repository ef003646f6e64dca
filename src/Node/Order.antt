-- ===== src/Node/Order.antt =====
-- The scans of `Node.Keys` on a list in another order, where at most one block has the key.
use intel_sgx_path_oram.Common.{
  ℕ, ◌≤◌, ◌≡◌, refl, List, ◌∷◌, arith, ◌==◌, if◌then◌else◌, Perm, ◌∙◌, Bool-cases, inl, inr,
}
use intel_sgx_path_oram.Node.{Block}
use intel_sgx_path_oram.Node.Keys.{count_key, last_match, erase_key}
use mathlib.Core.List.{Permᴰ, Perm-prop}
use mathlib.Core.List.Perm
use mathlib.Core.HLevel.{hedberg}
use mathlib.Core.Logic.{∥∥₁_elim}
use native.Mathlib.Decide.{ℕ_discrete}

bytes_discrete : Discrete (List ℕ)
bytes_discrete = hlevel ℕ_discrete

module _ (k : ℕ) where
  count_key-permᴰ : {xs ys : List Block} → Permᴰ xs ys → count_key k xs ≡ count_key k ys
  count_key-permᴰ Permᴰ.nil = refl
  count_key-permᴰ (Permᴰ.cons e p) = rw (e, count_key-permᴰ p)
  count_key-permᴰ (Permᴰ.swap e f) = rw (e, f) (omega arith)
  count_key-permᴰ (Permᴰ.trans p q) = count_key-permᴰ p ∙ count_key-permᴰ q

  pub count_key-perm : {xs ys : List Block} → Perm xs ys → count_key k xs ≡ count_key k ys
  count_key-perm p = ∥∥₁_elim p (hedberg ℕ_discrete _ _) count_key-permᴰ

  erase_key-swap :
      (x y : Block) (l : List Block) → Perm (erase_key k (y ∷ x ∷ l)) (erase_key k (x ∷ y ∷ l))
  erase_key-swap x y l = elim (Bool-cases (x.key == k)) [
    | inl hx ↦ rw hx (Perm.refl (erase_key k (y ∷ l)))
    | inr hx ↦ elim (Bool-cases (y.key == k)) [
      | inl hy ↦ rw (hx, hy) (Perm.refl (x ∷ erase_key k l))
      | inr hy ↦ rw (hx, hy) (Perm.swap x y (erase_key k l))
    ]
  ]

  erase_key-permᴰ : {xs ys : List Block} → Permᴰ xs ys → Perm (erase_key k xs) (erase_key k ys)
  erase_key-permᴰ Permᴰ.nil = Perm.nil
  erase_key-permᴰ (Permᴰ.cons {a} {b} e p) =
      rw e (ground (arith, erase_key-permᴰ p, Perm.cons b (erase_key-permᴰ p)))
  erase_key-permᴰ (Permᴰ.swap {a' = x} {b' = y} {l} e f) = rw (e, f) (erase_key-swap x y l)
  erase_key-permᴰ (Permᴰ.trans p q) = Perm.trans (erase_key-permᴰ p) (erase_key-permᴰ q)

  pub erase_key-perm : {xs ys : List Block} → Perm xs ys → Perm (erase_key k xs) (erase_key k ys)
  erase_key-perm p = ∥∥₁_elim p Perm-prop erase_key-permᴰ

  last_match-permᴰ :
      {xs ys : List Block} (d : List ℕ)
      → Permᴰ xs ys
      → count_key k ys ≤ 1
      → last_match k d xs ≡ last_match k d ys
  last_match-permᴰ d Permᴰ.nil once = refl
  last_match-permᴰ d (Permᴰ.cons {b} e p) once =
      rw e (last_match-permᴰ (if b.key == k then b.bytes else d) p (omega arith))
  last_match-permᴰ d (Permᴰ.swap e f) once = rw (e, f) (ground arith)
  last_match-permᴰ d (Permᴰ.trans p q) once =
      last_match-permᴰ d p (omega (arith, count_key-permᴰ q)) ∙ last_match-permᴰ d q once

  pub last_match-perm :
      {xs ys : List Block} (d : List ℕ)
      → Perm xs ys
      → count_key k ys ≤ 1
      → last_match k d xs ≡ last_match k d ys
  last_match-perm d p once =
      ∥∥₁_elim p (hedberg bytes_discrete _ _) (λ q. last_match-permᴰ d q once)
