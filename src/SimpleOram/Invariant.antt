-- ===== src/SimpleOram/Invariant.antt =====
-- A SimpleORAM tree as a store of blocks by key: the position of each key, and what it holds.
use intel_sgx_path_oram.Common.{
  Bool, ℕ, ◌+◌, ◌≤◌, ◌≡◌, ◌≢◌, refl, List, [], ◌∷◌, arith, ◌==◌, All, All-perm, ◌∙◌, ap, sym,
  replicate, ne→==, eq→==, if◌then◌else◌, Bool-cases, inl, inr, ==→eq, ==→ne,
}
use mathlib.Core.Path.{subst}
use native.Mathlib.Nat.{ℕ_set}
use intel_sgx_path_oram.Node.{Block}
use intel_sgx_path_oram.Node.Own.{Homed, count_key_same, last_match_same}
use intel_sgx_path_oram.Node.Order.{count_key-perm, last_match-perm}
use intel_sgx_path_oram.Node.Keys.{
  count_key, last_match, erase_key, count_key-erase_key, last_match_absent, count_key-erase_key_ne,
  last_match-erase_key_ne,
}
use intel_sgx_path_oram.Server.{update}
use intel_sgx_path_oram.Simple.{TreeStore}
use intel_sgx_path_oram.Simple.PathStore.{path_nodes}
use intel_sgx_path_oram.Simple.SinkBlock.{NodesLie}
use intel_sgx_path_oram.Simple.Erased.{All-erase_key}
use intel_sgx_path_oram.SimpleTree.Rewrite.{HomeNodes}
use intel_sgx_path_oram.SimpleTree.FetchAll.{blocks_on, ReadOff}
use intel_sgx_path_oram.SimpleTree.PutAll.{PutOn}
use intel_sgx_path_oram.SimpleTree.FlushAll.{AtPos, FlushedOn}

pub AtPos-Homed :
    (pos : ℕ → ℕ) (k : ℕ) (bs : List Block) → All (AtPos pos) bs → All (Homed k (pos k)) bs
AtPos-Homed pos k [] h = tt
AtPos-Homed pos k (b ∷ bs) h = (λ named. h.0 ∙ ap pos named, AtPos-Homed pos k bs h.1)

-- Blocks of other keys keep their position.
AtPos-update :
    (pos : ℕ → ℕ) (k new : ℕ) (bs : List Block)
    → All (AtPos pos) bs
    → count_key k bs ≡ 0
    → All (AtPos (update pos k new)) bs
AtPos-update pos k new [] h none_left = tt
AtPos-update pos k new (b ∷ bs) h none_left = elim (Bool-cases (b.key == k)) [
  | inl e ↦ absurd (ground (arith, none_left, e))
  | inr e ↦ (
    h.0 ∙ rw (ne→== k b.key (λ same. ==→ne _ _ e (sym same))) refl,
    AtPos-update pos k new bs h.1 (ground (arith, none_left, e)),
  )
]

module _ {S : Type 0} (store : TreeStore S) (size : ℕ) (alloc : ℕ → List ℕ) where
  -- Good nodes; each holds only blocks whose path goes through it; a block has the path that the
  -- position map has for its key; and a key occurs at most once on its path.
  pub record IsSimpleTree (server : S) (height : ℕ) (pos : ℕ → ℕ) : Type 0 where
    pub homes : (p : ℕ) → HomeNodes store size alloc server height p
    pub lie : (p : ℕ) → NodesLie p 0 (path_nodes store server height p)
    pub mapped : (p : ℕ) → All (AtPos pos) (blocks_on store server height p)
    pub once : (k : ℕ) → count_key k (blocks_on store server height (pos k)) ≤ 1

  -- The bytes that the tree holds for a key, or zeros.
  abbrev pub held : S → ℕ → (ℕ → ℕ) → ℕ → List ℕ
  held server height pos k = last_match k (replicate size 0) (blocks_on store server height (pos k))

  -- The tree after the fetch of the key `k`: it holds no block of the key.
  pub record IsWithout (server : S) (height : ℕ) (pos : ℕ → ℕ) (k : ℕ) : Type 0 where
    pub tree : IsSimpleTree server height pos
    pub absent : (p : ℕ) → count_key k (blocks_on store server height p) ≡ 0

  pub fetched-IsWithout :
      (server server' : S) (height : ℕ) (pos : ℕ → ℕ) (k : ℕ)
      → IsSimpleTree server height pos
      → ((p : ℕ) → ReadOff store size alloc server server' height k p)
      → IsWithout server' height pos k
        × ((j : ℕ) → j ≢ k → held server' height pos j ≡ held server height pos j)
  fetched-IsWithout server server' height pos k h off = (
    record {
      tree = record {
        homes = λ p. (off p).homes;
        lie = λ p. (off p).lie;
        mapped = λ p. rw (off p).contents (All-erase_key (AtPos pos) k _ (h.mapped p));
        once = λ j. elim (Bool-cases (j == k)) [
          | inl e ↦ rw ((off (pos j)).contents) (
              subst
                (λ (i : ℕ). count_key i (erase_key k (blocks_on store server height (pos j))) ≤ 1)
                (sym (==→eq _ _ e))
                (omega (arith, count_key-erase_key k (blocks_on store server height (pos j)))))
          | inr e ↦
              rw ((off (pos j)).contents, count_key-erase_key_ne j k _ (==→ne _ _ e)) (h.once j)
        ];
      };
      absent = λ p. rw (off p).contents (count_key-erase_key k (blocks_on store server height p));
    },
    λ j ne.
        ap (last_match j (replicate size 0)) (off (pos j)).contents
        ∙ last_match-erase_key_ne j k (replicate size 0) _ ne,
  )

  -- The tree after the put of the block `b` under a new position.
  pub put-IsSimpleTree :
      (server server' : S) (height : ℕ) (pos : ℕ → ℕ) (b : Block)
      → IsWithout server height pos b.key
      → ((p : ℕ) → PutOn store size alloc server server' b height p)
      → IsSimpleTree server' height (update pos b.key b.path)
        × (held server' height (update pos b.key b.path) b.key ≡ b.bytes)
        × ((j : ℕ)
            → j ≢ b.key
            → held server' height (update pos b.key b.path) j ≡ held server height pos j)
  put-IsSimpleTree server server' height pos b h on = (
    record {
      homes = λ p. (on p).homes;
      lie = λ p. (on p).lie;
      mapped = λ p.
          All-perm (AtPos pos') (λ x. ℕ_set _ _) (on p).contents
            (sym at_key, AtPos-update pos b.key b.path _ (h.tree.mapped p) (h.absent p));
      once = λ j. elim (Bool-cases (j == b.key)) [
        | inl e ↦
            subst (λ (i : ℕ). count_key i (blocks_on store server' height (pos' j)) ≤ 1)
              (sym (==→eq _ _ e)) (omega (arith, count_new (pos' j)))
        | inr e ↦
            subst (λ (p : ℕ). count_key j (blocks_on store server' height p) ≤ 1)
              (sym (pos_old j (==→ne _ _ e)))
              (omega (arith, count_old (pos j) j (==→ne _ _ e), h.tree.once j))
      ];
    },
    held_new (pos' b.key),
    λ j ne.
        ap (λ (p : ℕ). last_match j (replicate size 0) (blocks_on store server' height p))
          (pos_old j ne)
        ∙ held_old (pos j) j ne (h.tree.once j),
  )
    where
      pos' : ℕ → ℕ
      pos' = update pos b.key b.path

      at_key : pos' b.key ≡ b.path
      at_key = rw (eq→== b.key b.key refl) refl

      pos_old : (j : ℕ) → j ≢ b.key → pos' j ≡ pos j
      pos_old j ne = rw (ne→== b.key j (λ e. ne (sym e))) refl

      counted :
          (p j : ℕ)
          → count_key j (blocks_on store server' height p)
            ≡ (if b.key == j then 1 else 0) + count_key j (blocks_on store server height p)
      counted p j = count_key-perm j (on p).contents

      count_new : (p : ℕ) → count_key b.key (blocks_on store server' height p) ≡ 1
      count_new p = counted p b.key ∙ rw (eq→== b.key b.key refl, h.absent p) (omega arith)

      count_old :
          (p j : ℕ)
          → j ≢ b.key
          → count_key j (blocks_on store server' height p)
            ≡ count_key j (blocks_on store server height p)
      count_old p j ne = counted p j ∙ rw (ne→== b.key j (λ e. ne (sym e))) (omega arith)

      held_new :
          (p : ℕ) → last_match b.key (replicate size 0) (blocks_on store server' height p) ≡ b.bytes
      held_new p =
          last_match-perm b.key (replicate size 0) (on p).contents
            (omega (arith, count_key-perm b.key (on p).contents, count_new p))
          ∙ ap
              (λ (found : Bool).
                last_match b.key (if found then b.bytes else replicate size 0)
                  (blocks_on store server height p))
              (eq→== b.key b.key refl)
          ∙ (last_match_absent b.key b.bytes (blocks_on store server height p) (h.absent p))

      held_old :
          (p j : ℕ)
          → j ≢ b.key
          → count_key j (blocks_on store server height p) ≤ 1
          → last_match j (replicate size 0) (blocks_on store server' height p)
            ≡ last_match j (replicate size 0) (blocks_on store server height p)
      held_old p j ne once =
          last_match-perm j (replicate size 0) (on p).contents
            (omega (arith, count_key-perm j (on p).contents, count_old p j ne))
          ∙ ap
              (λ (found : Bool).
                last_match j (if found then b.bytes else replicate size 0)
                  (blocks_on store server height p))
              (ne→== b.key j (λ e. ne (sym e)))

  -- The tree after a flush.
  pub flushed-IsSimpleTree :
      (server server' : S) (height q : ℕ) (pos : ℕ → ℕ)
      → IsSimpleTree server height pos
      → ((p : ℕ) → FlushedOn store size alloc server server' height q p)
      → IsSimpleTree server' height pos
        × ((j : ℕ) → held server' height pos j ≡ held server height pos j)
  flushed-IsSimpleTree server server' height q pos h on = (
    record {
      homes = λ p. (on p).homes;
      lie = λ p. (on p).lie;
      mapped = mapped';
      once = λ k. omega (arith, h.once k, same k);
    },
    λ k.
        last_match_same k (pos k) _ _ (AtPos-Homed pos k _ (mapped' (pos k)))
          (AtPos-Homed pos k _ (h.mapped (pos k))) (on (pos k)).mine (replicate size 0) (h.once k),
  )
    where
      mapped' : (p : ℕ) → All (AtPos pos) (blocks_on store server' height p)
      mapped' p = (on p).from pos (h.mapped p) (h.mapped q)

      same :
          (k : ℕ)
          → count_key k (blocks_on store server' height (pos k))
            ≡ count_key k (blocks_on store server height (pos k))
      same k =
          count_key_same k (pos k) _ _ (AtPos-Homed pos k _ (mapped' (pos k)))
            (AtPos-Homed pos k _ (h.mapped (pos k))) (on (pos k)).mine
