-- ===== src/Node/Own.antt =====
-- The blocks of one path among a list of blocks.
use intel_sgx_path_oram.Common.{
  ℕ, ◌≡◌, ◌≢◌, refl, List, [], ◌∷◌, ◌++◌, arith, ◌==◌, if◌then◌else◌, Perm, All, Bool-cases, inl,
  inr, ==→ne, ne→==, ap, ◌∙◌, sym, ◌≤◌,
}
use intel_sgx_path_oram.Node.{Block}
use intel_sgx_path_oram.Node.Keys.{count_key, last_match}
use intel_sgx_path_oram.Node.Order.{count_key-perm, last_match-perm}
use mathlib.Core.List.{Permᴰ, Perm-prop}
use mathlib.Core.List.Perm
use mathlib.Core.Logic.{∥∥₁_elim}

abbrev pub own : ℕ → List Block → List Block
own q [] = []
own q (b ∷ bs) = if b.path == q then b ∷ own q bs else own q bs

pub own-append : (q : ℕ) (xs ys : List Block) → own q (xs ++ ys) ≡ own q xs ++ own q ys
own-append q [] ys = refl
own-append q (x ∷ xs) ys = elim (Bool-cases (x.path == q)) [
  | inl e ↦ rw e (ap (◌∷◌ x) (own-append q xs ys))
  | inr e ↦ rw e (own-append q xs ys)
]

pub own_none : (q : ℕ) (bs : List Block) → All (λ b. b.path ≢ q) bs → own q bs ≡ []
own_none q [] h = refl
own_none q (b ∷ bs) h = rw (ne→== b.path q h.0) (own_none q bs h.1)

module _ (q : ℕ) where
  own-swap : (x y : Block) (l : List Block) → Perm (own q (y ∷ x ∷ l)) (own q (x ∷ y ∷ l))
  own-swap x y l = elim (Bool-cases (x.path == q)) [
    | inl hx ↦ elim (Bool-cases (y.path == q)) [
      | inl hy ↦ rw (hx, hy) (Perm.swap x y (own q l))
      | inr hy ↦ rw (hx, hy) (Perm.refl (x ∷ own q l))
    ]
    | inr hx ↦ rw hx (Perm.refl (own q (y ∷ l)))
  ]

  own-permᴰ : {xs ys : List Block} → Permᴰ xs ys → Perm (own q xs) (own q ys)
  own-permᴰ Permᴰ.nil = Perm.nil
  own-permᴰ (Permᴰ.cons {a} {b} e p) = rw e (ground (arith, own-permᴰ p, Perm.cons b (own-permᴰ p)))
  own-permᴰ (Permᴰ.swap {a' = x} {b' = y} {l} e f) = rw (e, f) (own-swap x y l)
  own-permᴰ (Permᴰ.trans p r) = Perm.trans (own-permᴰ p) (own-permᴰ r)

  pub own-perm : {xs ys : List Block} → Perm xs ys → Perm (own q xs) (own q ys)
  own-perm p = ∥∥₁_elim p Perm-prop own-permᴰ

-- Where every block of the key is one of the path, only these matter to a scan for the key.
abbrev pub Homed : ℕ → ℕ → Block → Type 0
Homed k q b = b.key ≡ k → b.path ≡ q

pub count_key-own :
    (k q : ℕ) (bs : List Block) → All (Homed k q) bs → count_key k (own q bs) ≡ count_key k bs
count_key-own k q [] h = refl
count_key-own k q (b ∷ bs) h = elim (Bool-cases (b.path == q)) [
  | inl e ↦ rw e (omega (arith, count_key-own k q bs h.1))
  | inr e ↦
      rw (e, ne→== b.key k (λ named. ==→ne _ _ e (h.0 named)))
        (omega (arith, count_key-own k q bs h.1))
]

pub last_match-own :
    (k q : ℕ) (d : List ℕ) (bs : List Block)
    → All (Homed k q) bs
    → last_match k d (own q bs) ≡ last_match k d bs
last_match-own k q d [] h = refl
last_match-own k q d (b ∷ bs) h = elim (Bool-cases (b.path == q)) [
  | inl e ↦ rw e (last_match-own k q (if b.key == k then b.bytes else d) bs h.1)
  | inr e ↦ rw (e, ne→== b.key k (λ named. ==→ne _ _ e (h.0 named))) (last_match-own k q d bs h.1)
]

-- Two lists with the same blocks of one path, where all the blocks of the key have that path.
module _ (k q : ℕ) (xs ys : List Block) (hx : All (Homed k q) xs) (hy : All (Homed k q) ys)
    (same : Perm (own q xs) (own q ys)) where
  pub count_key_same : count_key k xs ≡ count_key k ys
  count_key_same = sym (count_key-own k q xs hx) ∙ count_key-perm k same ∙ count_key-own k q ys hy

  pub last_match_same : (d : List ℕ) → count_key k ys ≤ 1 → last_match k d xs ≡ last_match k d ys
  last_match_same d once =
      sym (last_match-own k q d xs hx)
      ∙ last_match-perm k d same (omega (arith, count_key-own k q ys hy))
      ∙ last_match-own k q d ys hy
