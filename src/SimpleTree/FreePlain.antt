-- ===== src/SimpleTree/FreePlain.antt =====
-- `FreeMemTree` without AES_ENC: which buffers it frees.
use intel_sgx_path_oram.Common.{
  ℕ, zero, suc, ◌+◌, ◌^◌, ◌<◌, ◌≡◌, refl, List, [], ◌∷◌, ◌++◌, arith, map, ◌∙◌, ap, sym,
}
use mathlib.Core.Path.{ap₂}
use intel_sgx_path_oram.Node.Shape.{addrs_of}
use intel_sgx_path_oram.Server.{Entry}
use intel_sgx_path_oram.Client.Tree.{Distinct, content_of}
use intel_sgx_path_oram.Client.Upload.{IsLayout}
use intel_sgx_path_oram.MemTree.{block_buffer, node_array}
use intel_sgx_path_oram.MemTree.Free.{buffers_from, buffers_from-Distinct}
use intel_sgx_path_oram.Simple.{PlainServer, plain_slot, load_plain, plain_store}
use intel_sgx_path_oram.Simple.Saved.{IsHomeNode}
use intel_sgx_path_oram.SimpleTree.{SimpleTree, plain_free_loop, plain_free_mem_tree}

module _ (size : ℕ) (alloc : ℕ → List ℕ) (layout : IsLayout alloc) where
  addrs_of-plain_slot :
      (server : PlainServer) (es : List Entry)
      → addrs_of (map (plain_slot server) es) ≡ map content_of es
  unfolding plain_slot
  addrs_of-plain_slot server [] = refl
  addrs_of-plain_slot server (e ∷ es) = ap (◌∷◌ e.block_content) (addrs_of-plain_slot server es)

  contents_home :
      (server : PlainServer) (a : ℕ)
      → IsHomeNode plain_store size alloc server a
      → map content_of (server.nodes a).entries ≡ alloc a
  unfolding load_plain
  contents_home server a h = sym (addrs_of-plain_slot server (server.nodes a).entries) ∙ h.home

  plain_free_loop_lem :
      (server : PlainServer) (left i : ℕ)
      → ((a : ℕ) → a < i + left → IsHomeNode plain_store size alloc server a)
      → plain_free_loop server left i ≡ buffers_from alloc left i
  unfolding plain_free_loop
  plain_free_loop_lem server zero i homes = refl
  plain_free_loop_lem server (suc left) i homes =
      ap₂ ◌++◌ (contents_home server i (homes i (omega arith)))
        (plain_free_loop_lem server left (i + 1) (λ a h. homes a (omega arith)))

  -- Where every node of the tree is good and has its own buffers, just these are freed, none of them
  -- twice, and then the array of the nodes.
  pub plain_free_mem_tree_lem :
      (tree : SimpleTree PlainServer)
      → ((a : ℕ) → a < 2 ^ tree.height → IsHomeNode plain_store size alloc tree.server a)
      → (plain_free_mem_tree tree
          ≡ map block_buffer (buffers_from alloc (2 ^ tree.height) 0) ++ node_array ∷ [])
        × Distinct (buffers_from alloc (2 ^ tree.height) 0)
  unfolding plain_free_mem_tree
  plain_free_mem_tree_lem tree homes =
      let freed =
        plain_free_loop_lem tree.server (2 ^ tree.height) 0 (λ a h. homes a (omega arith)) in
      (rw freed refl, buffers_from-Distinct alloc layout (2 ^ tree.height) 0)
