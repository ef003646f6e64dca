-- ===== src/SimpleTree/PutAll.antt =====
-- `MemTreePut` and the blocks on every path of the tree.
use intel_sgx_path_oram.Common.{
  ℕ, zero, suc, ◌/◌, ◌≤◌, ◌≡◌, List, [], ◌∷◌, ◌++◌, arith, All, sym, map, Perm,
}
use mathlib.Core.List.Perm
use mathlib.Core.Path.{subst}
use intel_sgx_path_oram.Node.{Node, Block}
use intel_sgx_path_oram.Node.Shape.{blocks}
use intel_sgx_path_oram.Client.{Client, child}
use intel_sgx_path_oram.Client.EvictSlots.{Along}
use intel_sgx_path_oram.Client.Stash.{stash_blocks}
use intel_sgx_path_oram.Client.Tree.{Apart, path_addrs}
use intel_sgx_path_oram.Client.Path.{path_addrs-Apart, pow_le}
use intel_sgx_path_oram.Simple.{TreeStore, RootPut}
use intel_sgx_path_oram.Simple.PathStore.{path_nodes}
use intel_sgx_path_oram.Simple.SinkBlock.{NodesLie}
use intel_sgx_path_oram.Simple.Saved.{IsHomeNode}
use intel_sgx_path_oram.SimpleTree.Rewrite.{HomeNodes}
use intel_sgx_path_oram.SimpleTree.Put.{RootTakes}
use intel_sgx_path_oram.SimpleTree.Share.{Others-nodes}
use intel_sgx_path_oram.SimpleTree.FetchAll.{blocks_on}

Along-root : (p : ℕ) (bs : List Block) → All (Along 0 p) bs
Along-root p [] = tt
Along-root p (b ∷ bs) = (omega arith, Along-root p bs)

module _ {S : Type 0} (store : TreeStore S) (size : ℕ) (alloc : ℕ → List ℕ) where
  open store use {load_node}

  pub record PutOn (server server' : S) (b : Block) (height p : ℕ) : Type 0 where
    pub contents : Perm (blocks_on store server' height p) (b ∷ blocks_on store server height p)
    pub homes : HomeNodes store size alloc server' height p
    pub lie : NodesLie p 0 (path_nodes store server' height p)

  pub mem_tree_put-PutOn :
      (height p : ℕ) (server : S) (b : Block) (c : Client) (r : RootPut S)
      → 1 ≤ height
      → height ≤ 20
      → RootTakes store size alloc height server b c r
      → HomeNodes store size alloc server height p
      → NodesLie p 0 (path_nodes store server height p)
      → PutOn server r.server b height p
  mem_tree_put-PutOn zero p server b c r high small takes homes lie = absurd (omega arith)
  mem_tree_put-PutOn (suc left) p server b c r high small takes homes lie = record {
    contents =
        subst
          (λ (ns : List Node).
            Perm (blocks (load_node r.server 0).slots ++ stash_blocks ns)
              (b ∷ blocks_on store server (suc left) p))
          (sym rest.0)
          (Perm.append_right (stash_blocks (map (load_node server) below)) takes.contents);
    homes = (takes.root, rest.1);
    lie = (
      Along-root p (blocks (load_node r.server 0).slots),
      subst (NodesLie p 1) (sym rest.0) lie.1,
    );
  }
    where
      below : List ℕ
      below = path_addrs left (child 0 p) (p / 2)

      apart : Apart 0 below
      apart = path_addrs-Apart left 0 p 2 (omega arith) (omega (arith, pow_le (suc left) small))

      off_root : (xs : List ℕ) → Apart 0 xs → All (λ x. Apart x (0 ∷ [])) xs
      off_root [] h = tt
      off_root (x ∷ xs) h = ((λ e. h.0 (sym e), tt), off_root xs h.1)

      rest :
          (map (load_node r.server) below ≡ map (load_node server) below)
          × All (IsHomeNode store size alloc r.server) below
      rest =
          Others-nodes store size alloc server r.server (0 ∷ []) below
            (λ a far home. takes.others a (λ e. far.0 (sym e)) home) (off_root below apart) homes.1
