-- ===== src/Client/Found.antt =====
-- Where a block is found again: on its own path, as well as on the path that was evicted last.
use intel_sgx_path_oram.Common.{
  ℕ, zero, suc, ◌+◌, ◌*◌, ◌/◌, ◌%◌, ◌^◌, ◌≤◌, ◌<◌, ◌≡◌, ◌≢◌, refl, List, [], ◌∷◌, ◌++◌, arith, All,
  All-append, ◌∙◌, ap, sym, Bool-cases, inl, inr, ◌==◌, ==→eq, ==→ne, false,
}
use intel_sgx_path_oram.Node.{Block}
use intel_sgx_path_oram.Node.Keys.{
  count_key, last_match, count_key-append, last_match-append, last_match_absent,
}
use intel_sgx_path_oram.Server.{Cipher, Server}
use intel_sgx_path_oram.Client.{child}
use intel_sgx_path_oram.Client.EvictSlots.{Along}
use intel_sgx_path_oram.Client.Tree.{path_addrs, Apart, node_blocks, path_blocks}
use intel_sgx_path_oram.Client.Path.{child_lem, child_within, fits_below, All-weaken}
use intel_sgx_path_oram.Client.EvictPath.{Lies}
use intel_sgx_path_oram.Client.Meet.{paths-Apart, path_addrs-ge_low}
use intel_sgx_path_oram.Client.Placed.{pow_next, rest_more}
use mathlib.Core.Path.{subst}
use native.Mathlib.Nat.{mul-add-mod_self_left, mul-add-div, div-add-mod, one-le-pow}

-- The lower digits of a number and its next one, from its remainder by twice the power.
module _ (d p : ℕ) where
  expand : p ≡ d * (2 * (p / (d * 2))) + p % (d * 2)
  expand = omega (arith, div-add-mod p (d * 2))

  low_digits : p % d ≡ p % (d * 2) % d
  low_digits =
      ap (λ (t : ℕ). t % d) expand ∙ mul-add-mod_self_left d (2 * (p / (d * 2))) (p % (d * 2))

  next_digit : 1 ≤ d → p / d % 2 ≡ p % (d * 2) / d % 2
  next_digit pos =
      ap (λ (t : ℕ). t / d % 2) expand
      ∙ ap (λ (t : ℕ). t % 2) (mul-add-div pos (2 * (p / (d * 2))) (p % (d * 2)))
      ∙ omega arith

Along-down : (h q : ℕ) (b : Block) → Along (h + 1) q b → Along h q b
Along-down h q b along =
    low_digits (2 ^ h) b.path
    ∙ ap (λ (t : ℕ). t % 2 ^ h) (rw (sym (pow_next h)) along)
    ∙ sym (low_digits (2 ^ h) q)

Along-digit : (h q : ℕ) (b : Block) → Along (h + 1) q b → b.path / 2 ^ h % 2 ≡ q / 2 ^ h % 2
Along-digit h q b along =
    next_digit (2 ^ h) b.path (one-le-pow h 2 (omega arith))
    ∙ ap (λ (t : ℕ). t / 2 ^ h % 2) (rw (sym (pow_next h)) along)
    ∙ sym (next_digit (2 ^ h) q (one-le-pow h 2 (omega arith)))

-- Every block of the key has the path.
abbrev pub Mapped : ℕ → ℕ → Block → Type 0
Mapped k p b = b.key ≡ k → b.path ≡ p

none_mapped :
    (k h p q : ℕ) (bs : List Block)
    → p / 2 ^ h % 2 ≢ q / 2 ^ h % 2
    → All (Mapped k p) bs
    → All (Along (h + 1) q) bs
    → count_key k bs ≡ 0
none_mapped k h p q [] ne mapped along = refl
none_mapped k h p q (b ∷ bs) ne mapped along = elim (Bool-cases (b.key == k)) [
  | inl e ↦ absurd (
      ne (
        ap (λ (t : ℕ). t / 2 ^ h % 2) (sym (mapped.0 (==→eq b.key k e)))
        ∙ Along-digit h q b along.0))
  | inr e ↦ rw e (omega (arith, none_mapped k h p q bs ne mapped.1 along.1))
]

All-append_right {ℓ κ} :
    {A : Type ℓ} (P : A → Type κ) (xs ys : List A) → All P (xs ++ ys) → All P ys
All-append_right P [] ys h = h
All-append_right P (x ∷ xs) ys h = All-append_right P xs ys h.1

module _ {size : ℕ} (cipher : Cipher size) (alloc : ℕ → List ℕ) (at : Server) where
  Lies-Along :
      (q h : ℕ) (addrs : List ℕ)
      → Lies cipher alloc q h at addrs
      → All (Along h q) (path_blocks cipher at addrs)
  Lies-Along q h [] lies = tt
  Lies-Along q h (a ∷ addrs) lies =
      All-append (Along h q) (node_blocks cipher at a) (path_blocks cipher at addrs) lies.0 (
        All-weaken (Along (h + 1) q) (Along h q) (path_blocks cipher at addrs) (Along-down h q)
          (Lies-Along q (h + 1) addrs lies.1))

  -- The scan for the key `k` of the nodes of two lists gives the same.
  pub record SameScan (k : ℕ) (xs ys : List ℕ) : Type 0 where
    pub count : count_key k (path_blocks cipher at xs) ≡ count_key k (path_blocks cipher at ys)
    pub bytes :
        (d : List ℕ)
        → last_match k d (path_blocks cipher at xs) ≡ last_match k d (path_blocks cipher at ys)

  SameScan-none :
      (k : ℕ) (xs ys : List ℕ)
      → count_key k (path_blocks cipher at xs) ≡ 0
      → count_key k (path_blocks cipher at ys) ≡ 0
      → SameScan k xs ys
  SameScan-none k xs ys none_x none_y = record {
    count = none_x ∙ sym none_y;
    bytes = λ d.
        last_match_absent k d (path_blocks cipher at xs) none_x
        ∙ sym (last_match_absent k d (path_blocks cipher at ys) none_y);
  }

  SameScan-cons : (k a : ℕ) (xs ys : List ℕ) → SameScan k xs ys → SameScan k (a ∷ xs) (a ∷ ys)
  SameScan-cons k a xs ys same = record {
    count = omega (
      arith,
      count_key-append k here (path_blocks cipher at xs),
      count_key-append k here (path_blocks cipher at ys),
      same.count,
    );
    bytes = λ d.
        last_match-append k d here (path_blocks cipher at xs)
        ∙ same.bytes (last_match k d here)
        ∙ sym (last_match-append k d here (path_blocks cipher at ys));
  }
    where
      here : List Block
      here = node_blocks cipher at a

  -- Off the nodes `addrs`, from the index `low - 1` on and below `bound`, the blocks of the key `k`
  -- have the path `q`.
  abbrev pub Strays : ℕ → ℕ → ℕ → ℕ → List ℕ → Type 0
  Strays k q low bound addrs =
      (x : ℕ) → low ≤ x + 1 → x < bound → Apart x addrs → All (Mapped k q) (node_blocks cipher at x)

  strays :
      (k q low bound : ℕ) (addrs xs : List ℕ)
      → Strays k q low bound addrs
      → All (λ x. low ≤ x + 1) xs
      → All (λ x. x < bound) xs
      → All (λ x. Apart x addrs) xs
      → All (Mapped k q) (path_blocks cipher at xs)
  strays k q low bound addrs [] off above below apart = tt
  strays k q low bound addrs (x ∷ xs) off above below apart =
      All-append (Mapped k q) (node_blocks cipher at x) (path_blocks cipher at xs)
        (off x above.0 below.0 apart.0) (strays k q low bound addrs xs off above.1 below.1 apart.1)

  -- The key `k` on its own path `p` and on the path `q`, from a common node of level `h` on.
  pub found_from :
      (left h addr k p q r s low bound : ℕ)
      → low ≤ addr + 1
      → addr + 1 < 2 * low
      → 2 * low * 2 ^ left ≤ 2 ^ 32
      → r ≡ p / 2 ^ h
      → s ≡ q / 2 ^ h
      → All (λ x. x < bound) (path_addrs left addr r)
      → Lies cipher alloc p h at (path_addrs left addr r)
      → Lies cipher alloc q h at (path_addrs left addr s)
      → All (Mapped k p) (path_blocks cipher at (path_addrs left addr s))
      → Strays k q low bound (path_addrs left addr s)
      → SameScan k (path_addrs left addr r) (path_addrs left addr s)
  found_from zero h addr k p q r s low bound above within fits er es below lies_p lies_q mapped
        off =
      record { count = refl; bytes = λ d. refl }
  found_from (suc left) h addr k p q r s low bound above within fits er es below lies_p lies_q
        mapped off =
      SameScan-cons k addr deeper_p deeper_q (elim (Bool-cases (r % 2 == s % 2)) [
        | inl same ↦
            let one_child : child addr r ≡ child addr s =
              omega (arith, child_r, child_s, ==→eq _ _ same) in
            subst (λ c. SameScan k (path_addrs left c (r / 2)) deeper_q) (sym one_child)
              (found_from left (h + 1) (child addr s) k p q (r / 2) (s / 2) (2 * low) bound
                (omega (arith, child_s)) (child_within left addr s (2 * low) within fits)
                (fits_below left addr s (2 * low) within fits) (rest_more h p r er)
                (rest_more h q s es)
                (subst (λ c. All (λ x. x < bound) (path_addrs left c (r / 2))) one_child below.1)
                (subst (λ c. Lies cipher alloc p (h + 1) at (path_addrs left c (r / 2))) one_child
                  lies_p.1)
                lies_q.1 mapped_deeper off_deeper)
        | inr differ ↦
            SameScan-none k deeper_p deeper_q
              (none_mapped k h q p (path_blocks cipher at deeper_p) (λ e. bits differ (sym e))
                (strays k q (2 * low) bound deeper_q deeper_p off_deeper
                  (path_addrs-ge_low left addr r low above within fits) below.1 (apart differ))
                (Lies-Along p (h + 1) deeper_p lies_p.1))
              (none_mapped k h p q (path_blocks cipher at deeper_q) (bits differ) mapped_deeper
                (Lies-Along q (h + 1) deeper_q lies_q.1))
      ])
    where
      deeper_p : List ℕ
      deeper_p = path_addrs left (child addr r) (r / 2)

      deeper_q : List ℕ
      deeper_q = path_addrs left (child addr s) (s / 2)

      child_r : child addr r ≡ addr * 2 + 1 + r % 2
      child_r = child_lem left addr r (2 * low) within fits

      child_s : child addr s ≡ addr * 2 + 1 + s % 2
      child_s = child_lem left addr s (2 * low) within fits

      off_deeper : Strays k q (2 * low) bound deeper_q
      off_deeper x high small apart = off x (omega arith) small (λ e. omega arith, apart)

      bits : (r % 2 == s % 2) ≡ false → p / 2 ^ h % 2 ≢ q / 2 ^ h % 2
      bits differ e =
          ==→ne _ _ differ (ap (λ (t : ℕ). t % 2) er ∙ e ∙ sym (ap (λ (t : ℕ). t % 2) es))

      mapped_deeper : All (Mapped k p) (path_blocks cipher at deeper_q)
      mapped_deeper =
          All-append_right (Mapped k p) (node_blocks cipher at addr)
            (path_blocks cipher at deeper_q) mapped

      apart : (r % 2 == s % 2) ≡ false → All (λ x. Apart x deeper_q) deeper_p
      apart differ =
          paths-Apart left (child addr r) (child addr s) (r / 2) (s / 2) (2 * low)
            (λ e. omega (arith, child_r, child_s, ==→ne _ _ differ)) (omega (arith, child_r))
            (omega (arith, child_s)) (child_within left addr r (2 * low) within fits)
            (child_within left addr s (2 * low) within fits)
            (fits_below left addr r (2 * low) within fits)
