-- ===== src/SimpleOram/FullRoot.antt =====
-- `AccessSimpleORAM` and the load of the root after the fetch.
use intel_sgx_path_oram.Common.{
  ℕ, zero, suc, ◌≤◌, ◌≡◌, refl, List, [], arith, length, ap, replicate, none, Bool-cases, inl, inr,
  get_or,
}
use intel_sgx_path_oram.Node.{Block, blocks_per_node}
use intel_sgx_path_oram.Node.Shape.{IsBuffer, blocks}
use intel_sgx_path_oram.Node.Keys.{erase_key}
use intel_sgx_path_oram.Client.{Client}
use intel_sgx_path_oram.Client.Rows.{Erased}
use intel_sgx_path_oram.PathOram.{in_bounds}
use intel_sgx_path_oram.Simple.{TreeStore}
use intel_sgx_path_oram.Simple.Store.{IsTreeStore}
use intel_sgx_path_oram.Simple.PathStore.{path_nodes}
use intel_sgx_path_oram.Simple.Saved.{IsHomeNode}
use intel_sgx_path_oram.SimpleTree.{SimpleTree, mem_tree_fetch}
use intel_sgx_path_oram.SimpleTree.Rewrite.{IsSimpleClient, HomeNodes}
use intel_sgx_path_oram.SimpleTree.Fetch.{mem_tree_fetch_lem}
use intel_sgx_path_oram.SimpleTree.Put.{mem_tree_put_full}
use intel_sgx_path_oram.SimpleTree.FetchAll.{mem_tree_fetch-ReadOff}
use intel_sgx_path_oram.SimpleOram.{access_simple_tree}
use intel_sgx_path_oram.SimpleOram.Invariant.{AtPos-Homed, IsSimpleTree}

module _ {S : Type 0} (store : TreeStore S) (size : ℕ) (alloc : ℕ → List ℕ) where
  open store use {load_node}

  pub root_home :
      (height : ℕ) (server : S)
      → 1 ≤ height
      → HomeNodes store size alloc server height 0
      → IsHomeNode store size alloc server 0
  root_home zero server high homes = absurd (omega arith)
  root_home (suc left) server high homes = homes.0

  -- How many blocks the root holds.
  abbrev pub root_load : S → ℕ
  root_load server = length (blocks (load_node server 0).slots)

  -- The root after the fetch is a good node.
  pub root_of_fetch :
      IsTreeStore size alloc store
      → (tree : SimpleTree S) (pos : ℕ → ℕ) (k : ℕ) (c : Client) → IsBuffer size (replicate size 0)
      → 1 ≤ tree.height
      → tree.height ≤ 20
      → IsSimpleTree store size alloc tree.server tree.height pos
      → IsSimpleClient size tree.height c
      → IsHomeNode store size alloc (mem_tree_fetch store size tree (pos k) k c).tree.server 0
  root_of_fetch lawful tree pos k c zeros high small ht hc =
      let reads =
        mem_tree_fetch_lem store size alloc lawful tree (pos k) k c zeros small (ht.homes (pos k))
          hc (ht.once k) in
      root_home tree.height (mem_tree_fetch store size tree (pos k) k c).tree.server high
        (mem_tree_fetch-ReadOff store size alloc tree (pos k) k 0 c
          (mem_tree_fetch store size tree (pos k) k c) small reads (ht.homes 0) (ht.lie 0)
          (AtPos-Homed pos k _ (ht.mapped 0))).homes

  root_row :
      (height p k : ℕ) (server server' : S)
      → 1 ≤ height
      → Erased k (path_nodes store server height p) (path_nodes store server' height p)
      → blocks (load_node server' 0).slots ≡ erase_key k (blocks (load_node server 0).slots)
  root_row zero p k server server' high e = absurd (omega arith)
  root_row (suc left) p k server server' high e =
      ap (λ (rows : List (List Block)). get_or rows 0 []) e.rows

  -- The fetch takes only the blocks of the key out of the root.
  pub root_load-fetch :
      IsTreeStore size alloc store
      → (tree : SimpleTree S) (pos : ℕ → ℕ) (k : ℕ) (c : Client) → IsBuffer size (replicate size 0)
      → 1 ≤ tree.height
      → tree.height ≤ 20
      → IsSimpleTree store size alloc tree.server tree.height pos
      → IsSimpleClient size tree.height c
      → root_load (mem_tree_fetch store size tree (pos k) k c).tree.server
        ≡ length (erase_key k (blocks (load_node tree.server 0).slots))
  root_load-fetch lawful tree pos k c zeros high small ht hc = ap length (
      root_row tree.height (pos k) k tree.server _ high
        (mem_tree_fetch_lem store size alloc lawful tree (pos k) k c zeros small (ht.homes (pos k))
          hc (ht.once k)).erased)

  -- For a lawful store, a block of zeros that is a buffer, a tree of 1 to 20 levels that keeps its
  -- invariant, and a client that keeps no block below those levels: when the root is full after the
  -- fetch, the access fails, whatever the key, the new path, the range and the caller's block.
  pub access_simple_tree_full :
      IsTreeStore size alloc store
      → (tree : SimpleTree S) (pos : ℕ → ℕ) (k new_path ws off : ℕ) (block : List ℕ)
        (rands : List ℕ) (c : Client)
      → IsBuffer size (replicate size 0)
      → 1 ≤ tree.height
      → tree.height ≤ 20
      → IsSimpleTree store size alloc tree.server tree.height pos
      → IsSimpleClient size tree.height c
      → root_load (mem_tree_fetch store size tree (pos k) k c).tree.server ≡ blocks_per_node
      → access_simple_tree store size tree k new_path (pos k) block ws off rands c ≡ none
  unfolding access_simple_tree
  access_simple_tree_full lawful tree pos k new_path ws off block rands c zeros high small ht hc
        full =
      let f = mem_tree_fetch store size tree (pos k) k c in
      elim (Bool-cases (in_bounds size ws off block)) [
        | inr outside ↦ rw outside refl
        | inl within ↦
            rw
              (
                within,
                mem_tree_put_full store size alloc f.tree _ f.client
                    (root_of_fetch lawful tree pos k c zeros high small ht hc) full,
              )
              refl
      ]
