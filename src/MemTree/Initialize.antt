-- ===== src/MemTree/Initialize.antt =====
-- `InitializeMemTree`: the nodes that it leaves.
use intel_sgx_path_oram.Common.{
  ℕ, zero, suc, ◌+◌, ◌%◌, ◌^◌, ◌≤◌, ◌<◌, ◌≡◌, refl, List, [], ◌∷◌, arith, length, All, ◌∙◌, some,
  map, ap, sym, ◌==◌, ne→==, Bool-cases, inl, inr, ==→eq, ==→ne,
}
use intel_sgx_path_oram.Server.{
  MemTreeNode, IsEntry, IsTreeNode, IsTreeNode-FitsNode, Cipher, Server,
}
use intel_sgx_path_oram.Client.Tree.{content_of, entry_blocks, node_blocks}
use intel_sgx_path_oram.Client.Upload.{IsLayout, IsHome}
use intel_sgx_path_oram.MemTree.{MemTree, empty_entry, initialize_loop, initialize_mem_tree}
use mathlib.Core.Path.{subst}

abbrev pub empty_tree_node : List ℕ → MemTreeNode
empty_tree_node contents = record { num_blocks = 0; entries = map empty_entry contents }

empty_entries-IsEntry : (contents : List ℕ) → All IsEntry (map empty_entry contents)
empty_entries-IsEntry [] = tt
empty_entries-IsEntry (a ∷ contents) = (
  record {
    key_fits = omega arith;
    path_fits = omega arith;
    bit = omega arith;
    absent = λ e. refl;
    named = λ e. absurd (omega arith);
  },
  empty_entries-IsEntry contents,
)

length-empty_entries : (contents : List ℕ) → length (map empty_entry contents) ≡ length contents
length-empty_entries [] = refl
length-empty_entries (a ∷ contents) = ap suc (length-empty_entries contents)

contents-empty_entries : (contents : List ℕ) → map content_of (map empty_entry contents) ≡ contents
contents-empty_entries [] = refl
contents-empty_entries (a ∷ contents) = ap (◌∷◌ a) (contents-empty_entries contents)

module _ {size : ℕ} (cipher : Cipher size) (alloc : ℕ → List ℕ) where
  open cipher use {encrypt_node, decrypt_node}

  blocks-empty_entries :
      (server : Server) (contents : List ℕ)
      → entry_blocks cipher server (map empty_entry contents) ≡ []
  blocks-empty_entries server [] = refl
  blocks-empty_entries server (a ∷ contents) = blocks-empty_entries server contents

  -- A fresh tree: every index below `2 ^ height` has an empty node with its own buffers.
  pub record IsFresh (height : ℕ) (tree : MemTree) : Type 0 where
    pub same_height : tree.height ≡ height
    pub nodes :
        (a : ℕ) → a < 2 ^ height → decrypt_node (tree.server.nodes a) ≡ empty_tree_node (alloc a)
    pub homes : (a : ℕ) → a < 2 ^ height → IsHome cipher alloc tree.server a
    pub empty : (a : ℕ) → a < 2 ^ height → node_blocks cipher tree.server a ≡ []

  module _ (layout : IsLayout alloc) where
    empty_tree_node-IsTreeNode : (i : ℕ) → IsTreeNode (empty_tree_node (alloc i))
    empty_tree_node-IsTreeNode i = record {
      four = length-empty_entries (alloc i) ∙ layout.four i;
      count_fits = omega arith;
      good = empty_entries-IsEntry (alloc i);
    }

    initialize_loop_below :
        (left i a : ℕ) (server : Server)
        → a < i
        → (initialize_loop cipher alloc left i server).nodes a ≡ server.nodes a
    unfolding initialize_loop
    initialize_loop_below zero i a server h = refl
    initialize_loop_below (suc left) i a server h =
        initialize_loop_below left (i + 1) a _ (omega arith) ∙ rw (ne→== i a (λ e. omega arith))

    initialize_loop_lem :
        (left i a : ℕ) (server : Server)
        → i ≤ a
        → a < i + left
        → decrypt_node ((initialize_loop cipher alloc left i server).nodes a)
          ≡ empty_tree_node (alloc a)
    unfolding initialize_loop
    initialize_loop_lem zero i a server low high = absurd (omega arith)
    initialize_loop_lem (suc left) i a server low high = elim (Bool-cases (i == a)) [
      | inl e ↦
          ap decrypt_node
            (initialize_loop_below left (i + 1) a _ (omega (arith, ==→eq i a e)) ∙ rw e)
          ∙ cipher.decrypt-encrypt_node server.draws (empty_tree_node (alloc i))
              (IsTreeNode-FitsNode _ (empty_tree_node-IsTreeNode i))
          ∙ ap (λ j. empty_tree_node (alloc j)) (==→eq i a e)
      | inr e ↦ initialize_loop_lem left (i + 1) a _ (omega (arith, ==→ne i a e)) (omega arith)
    ]

    -- For a block size that is a multiple of 8 and distinct buffers, initialisation succeeds, and
    -- every index below `2 ^ height` then has a good node with its own buffers and no block.
    pub initialize_mem_tree_lem :
        (height : ℕ) (server : Server)
        → size % 8 ≡ 0
        → (tree : MemTree) × (initialize_mem_tree cipher alloc height server ≡ some tree)
          × IsFresh height tree
    unfolding initialize_mem_tree
    initialize_mem_tree_lem height server whole = (
      record {
        height = height;
        block_size = size;
        server = initialize_loop cipher alloc (2 ^ height) 0 server;
      },
      rw whole refl,
      record {
        same_height = refl;
        nodes = node;
        homes = λ a below. record {
          tree = subst IsTreeNode (sym (node a below)) (empty_tree_node-IsTreeNode a);
          addrs = rw (node a below) (contents-empty_entries (alloc a));
        };
        empty = λ a below.
            rw (node a below)
              (blocks-empty_entries (initialize_loop cipher alloc (2 ^ height) 0 server) (alloc a));
      },
    )
      where
        node :
            (a : ℕ)
            → a < 2 ^ height
            → decrypt_node ((initialize_loop cipher alloc (2 ^ height) 0 server).nodes a)
              ≡ empty_tree_node (alloc a)
        node a below = initialize_loop_lem (2 ^ height) 0 a server (omega arith) (omega arith)
