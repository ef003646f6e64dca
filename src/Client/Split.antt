-- ===== src/Client/Split.antt =====
-- Two paths of one tree: their common nodes, and the nodes below on which their bits differ.
use intel_sgx_path_oram.Common.{
  ℕ, zero, suc, ◌+◌, ◌*◌, ◌/◌, ◌%◌, ◌^◌, ◌≤◌, ◌<◌, ◌≡◌, ◌≢◌, ◌⊎◌, inl, inr, refl, List, [], ◌∷◌,
  ◌++◌, arith, length, All, ◌∙◌, ap, sym, ◌==◌, ==→eq, ==→ne, Bool-cases,
}
use mathlib.Core.Path.{subst}
use intel_sgx_path_oram.Client.{child}
use intel_sgx_path_oram.Client.Tree.{path_addrs, Apart}
use intel_sgx_path_oram.Client.Path.{child_lem, child_within, fits_below, pow_le, path_addrs-Apart}
use intel_sgx_path_oram.Client.Meet.{paths-Apart}
use intel_sgx_path_oram.Client.Placed.{mod_double, pow_next, agree_more, rest_more}
use native.Mathlib.Nat.{one-le-pow, mul-add-mod_self_left, mod-mod, mod-lt, mod-eq_of_lt}

digit_fits : (d m x : ℕ) → m < d → x < 2 → d * x + m < d * 2
digit_fits d m zero small bit = omega arith
digit_fits d m (suc zero) small bit = omega arith
digit_fits d m (suc (suc x)) small bit = absurd (omega arith)

-- The remainder by twice `d`, by the digit in between.
mod_digits : (d p : ℕ) → 1 ≤ d → p % (d * 2) ≡ d * (p / d % 2) + p % d
mod_digits d p h =
    mod_double d p ∙ mod-eq_of_lt (digit_fits d (p % d) (p / d % 2) (mod-lt p h) (omega arith))

digits_same : (d m x y : ℕ) → 1 ≤ d → x < 2 → y < 2 → d * x + m ≡ d * y + m → x ≡ y
digits_same d m zero zero h hx hy e = refl
digits_same d m zero (suc zero) h hx hy e = absurd (omega arith)
digits_same d m (suc zero) zero h hx hy e = absurd (omega arith)
digits_same d m (suc zero) (suc zero) h hx hy e = refl
digits_same d m zero (suc (suc y)) h hx hy e = absurd (omega arith)
digits_same d m (suc zero) (suc (suc y)) h hx hy e = absurd (omega arith)
digits_same d m (suc (suc x)) y h hx hy e = absurd (omega arith)

module _ (h p q : ℕ) (e : p % 2 ^ (h + 1) ≡ q % 2 ^ (h + 1)) where
  both : 2 ^ h * (p / 2 ^ h % 2) + p % 2 ^ h ≡ 2 ^ h * (q / 2 ^ h % 2) + q % 2 ^ h
  both =
      sym (mod_digits (2 ^ h) p (one-le-pow h 2 (omega arith)))
      ∙ ap (λ (n : ℕ). p % n) (sym (pow_next h))
      ∙ e
      ∙ ap (λ (n : ℕ). q % n) (pow_next h)
      ∙ mod_digits (2 ^ h) q (one-le-pow h 2 (omega arith))

  -- Paths that agree in `h + 1` bits agree in `h`.
  pub agree_less : p % 2 ^ h ≡ q % 2 ^ h
  agree_less =
      sym (mod-mod p (2 ^ h))
      ∙ sym (mul-add-mod_self_left (2 ^ h) (p / 2 ^ h % 2) (p % 2 ^ h))
      ∙ ap (λ (t : ℕ). t % 2 ^ h) both
      ∙ mul-add-mod_self_left (2 ^ h) (q / 2 ^ h % 2) (q % 2 ^ h)
      ∙ mod-mod q (2 ^ h)

  pub agree_bit : p / 2 ^ h % 2 ≡ q / 2 ^ h % 2
  agree_bit =
      digits_same (2 ^ h) (q % 2 ^ h) (p / 2 ^ h % 2) (q / 2 ^ h % 2) (one-le-pow h 2 (omega arith))
        (omega arith) (omega arith)
        (ap (λ (t : ℕ). 2 ^ h * (p / 2 ^ h % 2) + t) (sym agree_less) ∙ both)

pub All-append_right {ℓ κ} :
    {A : Type ℓ} (P : A → Type κ) (xs ys : List A) → All P (xs ++ ys) → All P ys
All-append_right P [] ys h = h
All-append_right P (x ∷ xs) ys h = All-append_right P xs ys h.1

-- The levels from `h` on of the paths `p` and `q`: common nodes, and then, if the paths part, nodes
-- of `p` that are not on `q`.
pub record Splits (h p q : ℕ) (xs ys : List ℕ) : Type 0 where
  pub common : List ℕ
  pub xrest : List ℕ
  pub yrest : List ℕ
  pub left_path : xs ≡ common ++ xrest
  pub right_path : ys ≡ common ++ yrest
  pub apart : All (λ x. Apart x ys) xrest
  -- The paths agree in the bits that lead to each common node.
  pub agree : (i : ℕ) → i < length common → p % 2 ^ (h + i) ≡ q % 2 ^ (h + i)
  pub parts :
      ((xrest ≡ []) × (yrest ≡ [])) ⊎ (p % 2 ^ (h + length common) ≢ q % 2 ^ (h + length common))

both-Apart :
    (a : ℕ) (ys zs : List ℕ)
    → Apart a zs
    → All (λ x. Apart x ys) zs
    → All (λ x. Apart x (a ∷ ys)) zs
both-Apart a ys [] h k = tt
both-Apart a ys (z ∷ zs) h k = ((λ e. h.0 (sym e), k.0), both-Apart a ys zs h.1 k.1)

-- A remainder by a power of two, under another name for the exponent.
pub same_level : (p q m n : ℕ) → m ≡ n → p % 2 ^ m ≡ q % 2 ^ m → p % 2 ^ n ≡ q % 2 ^ n
same_level p q m n e h = subst (λ (k : ℕ). p % 2 ^ k ≡ q % 2 ^ k) e h

Splits-here :
    (h p q a : ℕ) (xs ys : List ℕ)
    → p % 2 ^ h ≡ q % 2 ^ h
    → p / 2 ^ h % 2 ≢ q / 2 ^ h % 2
    → Apart a xs
    → All (λ x. Apart x ys) xs
    → Splits h p q (a ∷ xs) (a ∷ ys)
Splits-here h p q a xs ys same differ above apart = record {
  common = a ∷ [];
  xrest = xs;
  yrest = ys;
  left_path = refl;
  right_path = refl;
  apart = both-Apart a ys xs above apart;
  agree = λ i low. same_level p q h (h + i) (omega arith) same;
  parts = inr (λ e. differ (agree_bit h p q e));
}

Splits-below :
    (h p q a : ℕ) (xs ys : List ℕ)
    → p % 2 ^ h ≡ q % 2 ^ h
    → Apart a xs
    → Splits (h + 1) p q xs ys
    → Splits h p q (a ∷ xs) (a ∷ ys)
Splits-below h p q a xs ys same above s = record {
  common = a ∷ s.common;
  xrest = s.xrest;
  yrest = s.yrest;
  left_path = ap (◌∷◌ a) s.left_path;
  right_path = ap (◌∷◌ a) s.right_path;
  apart =
      both-Apart a ys s.xrest
        (All-append_right (λ x. x ≢ a) s.common s.xrest
          (subst (All (λ x. x ≢ a)) s.left_path above))
        s.apart;
  agree = agree;
  parts = elim s.parts [
    | inl done ↦ inl done
    | inr differ ↦ inr (λ e. differ (same_level p q _ _ (omega arith) e))
  ];
}
  where
    agree : (i : ℕ) → i < suc (length s.common) → p % 2 ^ (h + i) ≡ q % 2 ^ (h + i)
    agree zero low = same_level p q h (h + 0) (omega arith) same
    agree (suc i) low =
        same_level p q (h + 1 + i) (h + suc i) (omega arith) (s.agree i (omega arith))

-- From a common node of level `h` on.
Splits-from :
    (left h addr p q r s low : ℕ)
    → low ≤ addr + 1
    → addr + 1 < 2 * low
    → 2 * low * 2 ^ left ≤ 2 ^ 32
    → p % 2 ^ h ≡ q % 2 ^ h
    → r ≡ p / 2 ^ h
    → s ≡ q / 2 ^ h
    → Splits h p q (path_addrs left addr r) (path_addrs left addr s)
Splits-from zero h addr p q r s low above within fits agree er es = record {
  common = [];
  xrest = [];
  yrest = [];
  left_path = refl;
  right_path = refl;
  apart = tt;
  agree = λ i low. absurd (omega arith);
  parts = inl (refl, refl);
}
Splits-from (suc left) h addr p q r s low above within fits agree er es =
    elim (Bool-cases (r % 2 == s % 2)) [
      | inl same ↦
          let bit : r % 2 ≡ s % 2 = ==→eq _ _ same in
          let one_child : child addr r ≡ child addr s = omega (arith, child_r, child_s, bit) in
          Splits-below h p q addr _ _ agree below (
            subst
              (λ c.
                Splits (h + 1) p q (path_addrs left c (r / 2))
                  (path_addrs left (child addr s) (s / 2)))
              (sym one_child)
              (Splits-from left (h + 1) (child addr s) p q (r / 2) (s / 2) (2 * low)
                (omega (arith, child_s)) (child_within left addr s (2 * low) within fits)
                (fits_below left addr s (2 * low) within fits)
                (agree_more h p q agree
                  (subst (λ u. u % 2 ≡ q / 2 ^ h % 2) er (subst (λ u. r % 2 ≡ u % 2) es bit)))
                (rest_more h p r er) (rest_more h q s es)))
      | inr differ ↦
          Splits-here h p q addr _ _ agree
            (λ e.
              ==→ne _ _ differ (
                subst (λ u. u % 2 ≡ s % 2) (sym er)
                  (subst (λ u. p / 2 ^ h % 2 ≡ u % 2) (sym es) e)))
            below
            (paths-Apart left (child addr r) (child addr s) (r / 2) (s / 2) (2 * low)
              (λ e. omega (arith, child_r, child_s, ==→ne _ _ differ)) (omega (arith, child_r))
              (omega (arith, child_s)) (child_within left addr r (2 * low) within fits)
              (child_within left addr s (2 * low) within fits)
              (fits_below left addr r (2 * low) within fits))
    ]
  where
    child_r : child addr r ≡ addr * 2 + 1 + r % 2
    child_r = child_lem left addr r (2 * low) within fits

    child_s : child addr s ≡ addr * 2 + 1 + s % 2
    child_s = child_lem left addr s (2 * low) within fits

    below : Apart addr (path_addrs left (child addr r) (r / 2))
    below = path_addrs-Apart left addr r (2 * low) within fits

pub paths-Splits :
    (height p q : ℕ) → height ≤ 20 → Splits 0 p q (path_addrs height 0 p) (path_addrs height 0 q)
paths-Splits height p q small =
    Splits-from height 0 0 p q p q 1 (omega arith) (omega arith)
      (omega (arith, pow_le height small)) (omega arith) (omega arith) (omega arith)
