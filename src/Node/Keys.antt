-- ===== src/Node/Keys.antt =====
-- Lists of blocks by key: how many have it, which bytes a scan ends with, what is left without it.
use intel_sgx_path_oram.Common.{
  ℕ, ◌+◌, ◌≡◌, refl, List, [], ◌∷◌, ◌++◌, arith, ◌==◌, if◌then◌else◌, length, ◌≢◌, Bool-cases, inl,
  inr, ==→eq, ne→==, sym, ◌∙◌,
}
use intel_sgx_path_oram.Node.{Block}

abbrev pub count_key : ℕ → List Block → ℕ
count_key k [] = 0
count_key k (b ∷ bs) = (if b.key == k then 1 else 0) + count_key k bs

-- The bytes of the last block with the key, or `d`.
abbrev pub last_match : ℕ → List ℕ → List Block → List ℕ
last_match k d [] = d
last_match k d (b ∷ bs) = last_match k (if b.key == k then b.bytes else d) bs

abbrev pub erase_key : ℕ → List Block → List Block
erase_key k [] = []
erase_key k (b ∷ bs) = if b.key == k then erase_key k bs else b ∷ erase_key k bs

pub count_key-append :
    (k : ℕ) (xs ys : List Block) → count_key k (xs ++ ys) ≡ count_key k xs + count_key k ys
count_key-append k [] ys = omega arith
count_key-append k (x ∷ xs) ys = omega (arith, count_key-append k xs ys)

pub erase_key-append :
    (k : ℕ) (xs ys : List Block) → erase_key k (xs ++ ys) ≡ erase_key k xs ++ erase_key k ys
erase_key-append k [] ys = refl
erase_key-append k (x ∷ xs) ys = ground (arith, erase_key-append k xs ys)

pub last_match-append :
    (k : ℕ) (d : List ℕ) (xs ys : List Block)
    → last_match k d (xs ++ ys) ≡ last_match k (last_match k d xs) ys
last_match-append k d [] ys = refl
last_match-append k d (x ∷ xs) ys = last_match-append k (if x.key == k then x.bytes else d) xs ys

pub last_match_absent :
    (k : ℕ) (d : List ℕ) (bs : List Block) → count_key k bs ≡ 0 → last_match k d bs ≡ d
last_match_absent k d [] h = refl
last_match_absent k d (b ∷ bs) h = ground (arith, last_match_absent k d bs)

pub erase_key_absent : (k : ℕ) (bs : List Block) → count_key k bs ≡ 0 → erase_key k bs ≡ bs
erase_key_absent k [] h = refl
erase_key_absent k (b ∷ bs) h = ground (arith, erase_key_absent k bs)

pub count_key-erase_key : (k : ℕ) (bs : List Block) → count_key k (erase_key k bs) ≡ 0
count_key-erase_key k [] = refl
count_key-erase_key k (b ∷ bs) = ground (arith, count_key-erase_key k bs)

pub length-erase_key :
    (k : ℕ) (bs : List Block) → length (erase_key k bs) + count_key k bs ≡ length bs
length-erase_key k [] = omega arith
length-erase_key k (b ∷ bs) = ground (arith, length-erase_key k bs)

-- A scan for one key does not see that another one was erased.
pub count_key-erase_key_ne :
    (j k : ℕ) (bs : List Block) → j ≢ k → count_key j (erase_key k bs) ≡ count_key j bs
count_key-erase_key_ne j k [] ne = refl
count_key-erase_key_ne j k (b ∷ bs) ne = ground (arith, count_key-erase_key_ne j k bs ne)

pub last_match-erase_key_ne :
    (j k : ℕ) (d : List ℕ) (bs : List Block)
    → j ≢ k
    → last_match j d (erase_key k bs) ≡ last_match j d bs
last_match-erase_key_ne j k d [] ne = refl
last_match-erase_key_ne j k d (b ∷ bs) ne = elim (Bool-cases (b.key == k)) [
  | inl e ↦
      rw (e, ne→== b.key j (λ same. ne (sym same ∙ ==→eq _ _ e)))
        (last_match-erase_key_ne j k d bs ne)
  | inr e ↦ rw e (last_match-erase_key_ne j k (if b.key == j then b.bytes else d) bs ne)
]
