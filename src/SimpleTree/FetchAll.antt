-- ===== src/SimpleTree/FetchAll.antt =====
-- `MemTreeFetch` of a key whose blocks have the fetched path, and the blocks on every path of the
-- tree.
use intel_sgx_path_oram.Common.{
  ℕ, ◌+◌, ◌≤◌, ◌≡◌, ◌≢◌, inl, inr, refl, List, [], ◌∷◌, ◌++◌, arith, length, All, ◌∙◌, ap, sym,
  take-append, ne→==,
}
use mathlib.Core.Path.{ap₂, subst}
use intel_sgx_path_oram.Node.{Block}
use intel_sgx_path_oram.Node.Own.{Homed}
use intel_sgx_path_oram.Node.Keys.{count_key, erase_key, erase_key-append, erase_key_absent}
use intel_sgx_path_oram.Client.{Client}
use intel_sgx_path_oram.Client.Stash.{stash_blocks, stash_blocks-append}
use intel_sgx_path_oram.Client.Rows.{Erased, Erased-split, stash_blocks-rows}
use intel_sgx_path_oram.Client.Split.{All-append_right}
use intel_sgx_path_oram.Simple.{TreeStore}
use intel_sgx_path_oram.Simple.PathStore.{path_nodes}
use intel_sgx_path_oram.Simple.SinkBlock.{NodesLie}
use intel_sgx_path_oram.Simple.Erased.{NodesLie-rows}
use intel_sgx_path_oram.SimpleTree.{SimpleTree, TreeRead}
use intel_sgx_path_oram.SimpleTree.Rewrite.{HomeNodes}
use intel_sgx_path_oram.SimpleTree.Fetch.{TreeReads}
use intel_sgx_path_oram.SimpleTree.Share.{
  Shares, paths-Shares, NodesLie-append, NodesLie-left, NodesLie-right, NodesLie-foreign,
}

-- The blocks on a path of the tree.
abbrev pub blocks_on : {S : Type 0} → TreeStore S → S → ℕ → ℕ → List Block
blocks_on store server height p = stash_blocks (path_nodes store server height p)

count_key_foreign :
    (k q : ℕ) (bs : List Block) → All (λ b. b.path ≢ q) bs → All (Homed k q) bs → count_key k bs ≡ 0
count_key_foreign k q [] far homed = refl
count_key_foreign k q (b ∷ bs) far homed =
    rw (ne→== b.key k (λ e. far.0 (homed.0 e)))
      (omega (arith, count_key_foreign k q bs far.1 homed.1))

module _ {S : Type 0} (store : TreeStore S) (size : ℕ) (alloc : ℕ → List ℕ) where
  -- From `server` to `server'` by the removal of the key `k`, seen on the path `p`.
  pub record ReadOff (server server' : S) (height k p : ℕ) : Type 0 where
    pub contents : blocks_on store server' height p ≡ erase_key k (blocks_on store server height p)
    pub homes : HomeNodes store size alloc server' height p
    pub lie : NodesLie p 0 (path_nodes store server' height p)

  pub mem_tree_fetch-ReadOff :
      (tree : SimpleTree S) (q k p : ℕ) (c : Client) (r : TreeRead S)
      → tree.height ≤ 20
      → TreeReads store size alloc tree q k c r
      → HomeNodes store size alloc tree.server tree.height p
      → NodesLie p 0 (path_nodes store tree.server tree.height p)
      → All (Homed k q) (blocks_on store tree.server tree.height p)
      → ReadOff tree.server r.tree.server tree.height k p
  mem_tree_fetch-ReadOff tree q k p c r small reads homes lie homed = record {
    contents =
        ap stash_blocks s.after
        ∙ stash_blocks-append s.cs' s.xs
        ∙ ap₂ ◌++◌ (stash_blocks-rows k s.cs s.cs' common.rows) (sym (erase_key_absent k _ absent))
        ∙ sym (erase_key-append k (stash_blocks s.cs) (stash_blocks s.xs))
        ∙ sym (ap (erase_key k) (ap stash_blocks s.before ∙ stash_blocks-append s.cs s.xs));
    homes = s.homes;
    lie = subst (NodesLie p 0) (sym s.after) (
        NodesLie-append p 0 s.cs' s.xs
          (NodesLie-rows k p 0 s.cs s.cs' common.rows (NodesLie-left p 0 s.cs s.xs split_lie))
          (subst (λ (n : ℕ). NodesLie p (0 + n) s.xs) (sym s.same_length) below));
  }
    where
      s : Shares store size alloc tree.server r.tree.server tree.height p q
      s =
          paths-Shares store size alloc tree.server r.tree.server tree.height p q small homes
            reads.homes reads.others

      common : Erased k s.cs s.cs'
      common =
          subst (Erased k s.cs) (take-append (length s.cs) s.cs' s.ys' s.same_length)
            (Erased-split k s.cs s.ys (s.cs' ++ s.ys') (
              subst (λ ns. Erased k ns (s.cs' ++ s.ys')) s.before_q
                (subst (Erased k (path_nodes store tree.server tree.height q)) s.after_q
                  reads.erased))).0

      split_lie : NodesLie p 0 (s.cs ++ s.xs)
      split_lie = subst (NodesLie p 0) s.before lie

      below : NodesLie p (0 + length s.cs) s.xs
      below = NodesLie-right p 0 s.cs s.xs split_lie

      homed_rest : All (Homed k q) (stash_blocks s.xs)
      homed_rest =
          All-append_right (Homed k q) (stash_blocks s.cs) (stash_blocks s.xs) (
            subst (All (Homed k q)) (ap stash_blocks s.before ∙ stash_blocks-append s.cs s.xs)
              homed)

      absent : count_key k (stash_blocks s.xs) ≡ 0
      absent = elim s.parts [
        | inl none_left ↦ rw none_left.0 refl
        | inr differ ↦
            count_key_foreign k q (stash_blocks s.xs)
              (NodesLie-foreign p q (length s.cs') s.xs differ
                (subst (λ (n : ℕ). NodesLie p n s.xs) (omega (arith, s.same_length)) below))
              homed_rest
      ]
