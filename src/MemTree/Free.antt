-- ===== src/MemTree/Free.antt =====
-- `FreeMemTree`: which buffers it frees.
use intel_sgx_path_oram.Common.{
  ℕ, zero, suc, ◌+◌, ◌^◌, ◌<◌, ◌≡◌, ◌≢◌, refl, List, [], ◌∷◌, ◌++◌, arith, map, All, All-append,
}
use mathlib.Core.Path.{ap₂}
use intel_sgx_path_oram.Server.{Cipher, Server}
use intel_sgx_path_oram.Client.Tree.{Apart, Distinct}
use intel_sgx_path_oram.Client.Upload.{IsLayout, IsHome}
use intel_sgx_path_oram.MemTree.{MemTree, block_buffer, node_array, free_loop, free_mem_tree}

-- The buffers of the nodes from `i` on, `left` of them.
abbrev pub buffers_from : (ℕ → List ℕ) → ℕ → ℕ → List ℕ
buffers_from alloc zero i = []
buffers_from alloc (suc left) i = alloc i ++ buffers_from alloc left (i + 1)

Apart-append :
    (zs xs ys : List ℕ)
    → All (λ z. Apart z xs) zs
    → All (λ z. Apart z ys) zs
    → All (λ z. Apart z (xs ++ ys)) zs
Apart-append [] xs ys hx hy = tt
Apart-append (z ∷ zs) xs ys hx hy =
    (All-append (λ a. a ≢ z) xs ys hx.0 hy.0, Apart-append zs xs ys hx.1 hy.1)

Apart-nil : (zs : List ℕ) → All (λ z. Apart z []) zs
Apart-nil [] = tt
Apart-nil (z ∷ zs) = (tt, Apart-nil zs)

Distinct-append :
    (xs ys : List ℕ) → Distinct xs → Distinct ys → All (λ x. Apart x ys) xs → Distinct (xs ++ ys)
Distinct-append [] ys hx hy apart = hy
Distinct-append (x ∷ xs) ys hx hy apart =
    (All-append (λ a. a ≢ x) xs ys hx.0 apart.0, Distinct-append xs ys hx.1 hy apart.1)

module _ (alloc : ℕ → List ℕ) (layout : IsLayout alloc) where
  buffers_from-Apart :
      (left i j : ℕ) → j < i → All (λ x. Apart x (buffers_from alloc left i)) (alloc j)
  buffers_from-Apart zero i j h = Apart-nil (alloc j)
  buffers_from-Apart (suc left) i j h =
      Apart-append (alloc j) (alloc i) (buffers_from alloc left (i + 1))
        (layout.apart j i (λ e. omega arith)) (buffers_from-Apart left (i + 1) j (omega arith))

  pub buffers_from-Distinct : (left i : ℕ) → Distinct (buffers_from alloc left i)
  buffers_from-Distinct zero i = tt
  buffers_from-Distinct (suc left) i =
      Distinct-append (alloc i) (buffers_from alloc left (i + 1)) (layout.distinct i)
        (buffers_from-Distinct left (i + 1)) (buffers_from-Apart left (i + 1) i (omega arith))

  module _ {size : ℕ} (cipher : Cipher size) where
    free_loop_lem :
        (server : Server) (left i : ℕ)
        → ((a : ℕ) → a < i + left → IsHome cipher alloc server a)
        → free_loop cipher server left i ≡ buffers_from alloc left i
    unfolding free_loop
    free_loop_lem server zero i homes = refl
    free_loop_lem server (suc left) i homes =
        ap₂ ◌++◌ (homes i (omega arith)).addrs
          (free_loop_lem server left (i + 1) (λ a h. homes a (omega arith)))

    -- With distinct buffers and a tree each of whose nodes is good and has its own buffers,
    -- `FreeMemTree` frees just the buffers of the nodes below `2 ^ height`, node by node, none of
    -- them twice, and then the array of the nodes.
    pub free_mem_tree_lem :
        (tree : MemTree)
        → ((a : ℕ) → a < 2 ^ tree.height → IsHome cipher alloc tree.server a)
        → (free_mem_tree cipher tree
            ≡ map block_buffer (buffers_from alloc (2 ^ tree.height) 0) ++ node_array ∷ [])
          × Distinct (buffers_from alloc (2 ^ tree.height) 0)
    unfolding free_mem_tree
    free_mem_tree_lem tree homes =
        let freed = free_loop_lem tree.server (2 ^ tree.height) 0 (λ a h. homes a (omega arith)) in
        (rw freed refl, buffers_from-Distinct (2 ^ tree.height) 0)
