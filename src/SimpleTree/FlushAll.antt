-- ===== src/SimpleTree/FlushAll.antt =====
-- `MemTreeFlush` and the blocks on every path of the tree.
use intel_sgx_path_oram.Common.{
  ℕ, ◌+◌, ◌%◌, ◌^◌, ◌≤◌, ◌<◌, ◌≡◌, ◌≢◌, inl, inr, refl, List, [], ◌++◌, arith, length, All,
  All-append, All-perm, ◌∙◌, ap, sym, Perm,
}
use mathlib.Core.List.Perm
use mathlib.Core.List.{append-nil}
use native.Mathlib.Nat.{ℕ_set}
use mathlib.Core.Path.{subst}
use intel_sgx_path_oram.Node.{Node, Block}
use intel_sgx_path_oram.Node.Own.{own, own-append, own_none, own-perm}
use intel_sgx_path_oram.Client.{Client}
use intel_sgx_path_oram.Client.Stash.{stash_blocks, stash_blocks-append}
use intel_sgx_path_oram.Client.Split.{All-append_right, same_level}
use intel_sgx_path_oram.Simple.{TreeStore}
use intel_sgx_path_oram.Simple.PathStore.{path_nodes}
use intel_sgx_path_oram.Simple.SinkBlock.{NodesLie}
use intel_sgx_path_oram.SimpleTree.{SimpleTree, TreeWorld}
use intel_sgx_path_oram.SimpleTree.Rewrite.{HomeNodes}
use intel_sgx_path_oram.SimpleTree.Flush.{TreeFlushes}
use intel_sgx_path_oram.SimpleTree.Share.{
  Shares, paths-Shares, NodesLie-append, NodesLie-left, NodesLie-right, NodesLie-foreign,
  NodesLie-agree, All-append_left,
}
use intel_sgx_path_oram.SimpleTree.FetchAll.{blocks_on}

-- The block's path is the one that the position map has for its key.
abbrev pub AtPos : (ℕ → ℕ) → Block → Type 0
AtPos pos b = b.path ≡ pos b.key

module _ {S : Type 0} (store : TreeStore S) (size : ℕ) (alloc : ℕ → List ℕ) where
  -- From `server` to `server'` by the flush of the path `q`, seen on the path `p`.
  pub record FlushedOn (server server' : S) (height q p : ℕ) : Type 0 where
    pub mine :
        Perm (own p (blocks_on store server' height p)) (own p (blocks_on store server height p))
    pub from :
        (pos : ℕ → ℕ)
        → All (AtPos pos) (blocks_on store server height p)
        → All (AtPos pos) (blocks_on store server height q)
        → All (AtPos pos) (blocks_on store server' height p)
    pub homes : HomeNodes store size alloc server' height p
    pub lie : NodesLie p 0 (path_nodes store server' height p)

  pub mem_tree_flush-FlushedOn :
      (tree : SimpleTree S) (q p : ℕ) (c : Client) (r : TreeWorld S)
      → tree.height ≤ 20
      → TreeFlushes store size alloc tree q c r
      → HomeNodes store size alloc tree.server tree.height p
      → NodesLie p 0 (path_nodes store tree.server tree.height p)
      → NodesLie q 0 (path_nodes store tree.server tree.height q)
      → FlushedOn tree.server r.tree.server tree.height q p
  mem_tree_flush-FlushedOn tree q p c r small flushes homes lie lie_q = record {
    mine =
        subst
          (λ (bs : List Block). Perm (own p bs) (own p (blocks_on store tree.server tree.height p)))
          (sym after)
          (subst
            (λ (bs : List Block). Perm (own p (stash_blocks s.cs' ++ stash_blocks s.xs)) (own p bs))
            (sym before)
            (rw
              (
                own-append p (stash_blocks s.cs') (stash_blocks s.xs),
                own-append p (stash_blocks s.cs) (stash_blocks s.xs),
              )
              (Perm.append_right (own p (stash_blocks s.xs)) shared)));
    from = λ pos here there.
        let P : Block → Type 0 = AtPos pos in
        subst (All P) (sym after) (
          All-append P (stash_blocks s.cs') (stash_blocks s.xs)
            (All-append_left P (stash_blocks s.cs') (stash_blocks s.ys')
              (subst (All P) after_q (All-perm P (λ b. ℕ_set _ _) flushes.levels.contents there)))
            (All-append_right P (stash_blocks s.cs) (stash_blocks s.xs)
              (subst (All P) before here)));
    homes = s.homes;
    lie = subst (NodesLie p 0) (sym s.after) (
        NodesLie-append p 0 s.cs' s.xs
          (NodesLie-agree p q 0 s.cs' agree
            (NodesLie-left q 0 s.cs' s.ys' (subst (NodesLie q 0) s.after_q flushes.levels.lie)))
          (subst (λ (n : ℕ). NodesLie p (0 + n) s.xs) (sym s.same_length)
            (NodesLie-right p 0 s.cs s.xs (subst (NodesLie p 0) s.before lie))));
  }
    where
      s : Shares store size alloc tree.server r.tree.server tree.height p q
      s =
          paths-Shares store size alloc tree.server r.tree.server tree.height p q small homes
            flushes.homes flushes.others

      before : blocks_on store tree.server tree.height p ≡ stash_blocks s.cs ++ stash_blocks s.xs
      before = ap stash_blocks s.before ∙ stash_blocks-append s.cs s.xs

      after : blocks_on store r.tree.server tree.height p ≡ stash_blocks s.cs' ++ stash_blocks s.xs
      after = ap stash_blocks s.after ∙ stash_blocks-append s.cs' s.xs

      before_q : blocks_on store tree.server tree.height q ≡ stash_blocks s.cs ++ stash_blocks s.ys
      before_q = ap stash_blocks s.before_q ∙ stash_blocks-append s.cs s.ys

      after_q :
          blocks_on store r.tree.server tree.height q ≡ stash_blocks s.cs' ++ stash_blocks s.ys'
      after_q = ap stash_blocks s.after_q ∙ stash_blocks-append s.cs' s.ys'

      agree : (i : ℕ) → i < length s.cs' → p % 2 ^ (0 + i) ≡ q % 2 ^ (0 + i)
      agree i low = same_level p q i (0 + i) (omega arith) (s.agree i low)

      foreign :
          (zs : List Node)
          → p % 2 ^ length s.cs' ≢ q % 2 ^ length s.cs'
          → NodesLie q (length s.cs') zs
          → own p (stash_blocks zs) ≡ []
      foreign zs differ lie =
          own_none p (stash_blocks zs)
            (NodesLie-foreign q p (length s.cs') zs (λ e. differ (sym e)) lie)

      none_below : (own p (stash_blocks s.ys) ≡ []) × (own p (stash_blocks s.ys') ≡ [])
      none_below = elim s.parts [
        | inl none_left ↦ (rw none_left.1.0 refl, rw none_left.1.1 refl)
        | inr differ ↦ (
          foreign s.ys differ (
              subst (λ (n : ℕ). NodesLie q n s.ys) (omega (arith, s.same_length))
                (NodesLie-right q 0 s.cs s.ys (subst (NodesLie q 0) s.before_q lie_q))),
          foreign s.ys' differ (
              subst (λ (n : ℕ). NodesLie q n s.ys') (omega arith)
                (NodesLie-right q 0 s.cs' s.ys'
                  (subst (NodesLie q 0) s.after_q flushes.levels.lie))),
        )
      ]

      shared : Perm (own p (stash_blocks s.cs')) (own p (stash_blocks s.cs))
      shared =
          subst (λ (bs : List Block). Perm bs (own p (stash_blocks s.cs)))
            (trim s.cs' s.ys' none_below.1)
            (subst (λ (bs : List Block). Perm (own p (stash_blocks s.cs' ++ stash_blocks s.ys')) bs)
              (trim s.cs s.ys none_below.0)
              (own-perm p (
                subst (λ (bs : List Block). Perm bs (stash_blocks s.cs ++ stash_blocks s.ys))
                  after_q
                  (subst (Perm (blocks_on store r.tree.server tree.height q)) before_q
                    flushes.levels.contents))))
        where
          trim :
              (xs ys : List Node)
              → own p (stash_blocks ys) ≡ []
              → own p (stash_blocks xs ++ stash_blocks ys) ≡ own p (stash_blocks xs)
          trim xs ys e =
              own-append p (stash_blocks xs) (stash_blocks ys)
              ∙ ap (◌++◌ (own p (stash_blocks xs))) e
              ∙ append-nil (own p (stash_blocks xs))
