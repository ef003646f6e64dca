-- ===== src/SimpleTree/InitializePlain.antt =====
-- `InitializeMemTree` without AES_ENC: the nodes that it leaves.
use intel_sgx_path_oram.Common.{
  ℕ, zero, suc, ◌+◌, ◌%◌, ◌^◌, ◌≤◌, ◌<◌, ◌≡◌, refl, List, [], ◌∷◌, arith, length, length-map, All,
  ◌∙◌, ap, sym, map, replicate, some, true, ◌==◌, ne→==, eq→==, Bool-cases, inl, inr, ==→eq, ==→ne,
}
use mathlib.Core.Path.{subst}
use intel_sgx_path_oram.Node.{Slot}
use intel_sgx_path_oram.Node.Shape.{IsBuffer, IsSlot, addrs_of, blocks}
use intel_sgx_path_oram.Server.{update}
use intel_sgx_path_oram.Client.Upload.{IsLayout}
use intel_sgx_path_oram.MemTree.{empty_entry}
use intel_sgx_path_oram.MemTree.Initialize.{empty_tree_node}
use intel_sgx_path_oram.Simple.{PlainServer, plain_store, plain_slot, load_plain}
use intel_sgx_path_oram.Simple.Saved.{IsHomeNode}
use intel_sgx_path_oram.SimpleTree.{
  SimpleTree, zero_buffers, plain_initialize_loop, plain_initialize_mem_tree,
}

module _ (size : ℕ) where
  -- The buffer at this address is of zeros.
  abbrev Zeroed : (ℕ → List ℕ) → ℕ → Type 0
  Zeroed memory x = memory x ≡ replicate size 0

  update-Zeroed :
      (memory : ℕ → List ℕ) (a x : ℕ)
      → Zeroed memory x
      → Zeroed (update memory a (replicate size 0)) x
  update-Zeroed memory a x h = elim (Bool-cases (a == x)) [ inl e ↦ rw e refl | inr e ↦ rw e h ]

  zero_buffers-Zeroed :
      (addrs : List ℕ) (memory : ℕ → List ℕ) (x : ℕ)
      → Zeroed memory x
      → Zeroed (zero_buffers size addrs memory) x
  unfolding zero_buffers
  zero_buffers-Zeroed [] memory x h = h
  zero_buffers-Zeroed (a ∷ addrs) memory x h =
      zero_buffers-Zeroed addrs _ x (update-Zeroed memory a x h)

  zero_buffers_lem :
      (addrs : List ℕ) (memory : ℕ → List ℕ) → All (Zeroed (zero_buffers size addrs memory)) addrs
  unfolding zero_buffers
  zero_buffers_lem [] memory = tt
  zero_buffers_lem (a ∷ addrs) memory =
      (zero_buffers-Zeroed addrs _ a (rw (eq→== a a refl) refl), zero_buffers_lem addrs _)

  module _ (alloc : ℕ → List ℕ) where
    loop_below :
        (left i a : ℕ) (server : PlainServer)
        → a < i
        → (plain_initialize_loop size alloc left i server).nodes a ≡ server.nodes a
    unfolding plain_initialize_loop
    loop_below zero i a server h = refl
    loop_below (suc left) i a server h =
        loop_below left (i + 1) a _ (omega arith) ∙ rw (ne→== i a (λ e. omega arith))

    loop-Zeroed :
        (left i x : ℕ) (server : PlainServer)
        → Zeroed server.memory x
        → Zeroed (plain_initialize_loop size alloc left i server).memory x
    unfolding plain_initialize_loop
    loop-Zeroed zero i x server h = h
    loop-Zeroed (suc left) i x server h =
        loop-Zeroed left (i + 1) x _ (zero_buffers-Zeroed (alloc i) server.memory x h)

    loops-Zeroed :
        (left i : ℕ) (xs : List ℕ) (server : PlainServer)
        → All (Zeroed server.memory) xs
        → All (Zeroed (plain_initialize_loop size alloc left i server).memory) xs
    loops-Zeroed left i [] server h = tt
    loops-Zeroed left i (x ∷ xs) server h =
        (loop-Zeroed left i x server h.0, loops-Zeroed left i xs server h.1)

    -- The node at `a` is empty and has its own buffers, all of zeros.
    pub record IsEmptied (server : PlainServer) (a : ℕ) : Type 0 where
      pub node : server.nodes a ≡ empty_tree_node (alloc a)
      pub buffers : All (Zeroed server.memory) (alloc a)

    plain_initialize_loop_lem :
        (left i a : ℕ) (server : PlainServer)
        → i ≤ a
        → a < i + left
        → IsEmptied (plain_initialize_loop size alloc left i server) a
    unfolding plain_initialize_loop
    plain_initialize_loop_lem zero i a server low high = absurd (omega arith)
    plain_initialize_loop_lem (suc left) i a server low high = elim (Bool-cases (i == a)) [
      | inl e ↦ record {
        node =
            loop_below left (i + 1) a _ (omega (arith, ==→eq i a e))
            ∙ rw e (ap (λ j. empty_tree_node (alloc j)) (==→eq i a e));
        buffers = loops-Zeroed left (i + 1) (alloc a) _ (
            subst (λ j. All (Zeroed (zero_buffers size (alloc i) server.memory)) (alloc j))
              (==→eq i a e) (zero_buffers_lem (alloc i) server.memory));
      }
      | inr e ↦
          plain_initialize_loop_lem left (i + 1) a _ (omega (arith, ==→ne i a e)) (omega arith)
    ]

    module _ (server : PlainServer) (zeros : IsBuffer size (replicate size 0)) where
      abbrev plain_slots : List ℕ → List Slot
      plain_slots contents = map (plain_slot server) (map empty_entry contents)

      plain_slots-IsSlot :
          (contents : List ℕ)
          → All (Zeroed server.memory) contents
          → All (IsSlot size) (plain_slots contents)
      unfolding plain_slot
      plain_slots-IsSlot [] h = tt
      plain_slots-IsSlot (a ∷ contents) h = (
        record {
          key_fits = omega arith;
          path_fits = omega arith;
          bit = omega arith;
          named = λ e. absurd (omega arith);
          buffer = subst (IsBuffer size) (sym h.0) zeros;
        },
        plain_slots-IsSlot contents h.1,
      )

      addrs_of-plain_slots : (contents : List ℕ) → addrs_of (plain_slots contents) ≡ contents
      unfolding plain_slot
      addrs_of-plain_slots [] = refl
      addrs_of-plain_slots (a ∷ contents) = ap (◌∷◌ a) (addrs_of-plain_slots contents)

      blocks-plain_slots : (contents : List ℕ) → blocks (plain_slots contents) ≡ []
      unfolding plain_slot
      blocks-plain_slots [] = refl
      blocks-plain_slots (a ∷ contents) = blocks-plain_slots contents

      emptied_home :
          (a : ℕ)
          → IsLayout alloc
          → IsEmptied server a
          → IsHomeNode plain_store size alloc server a × (blocks (load_plain server a).slots ≡ [])
      unfolding load_plain
      emptied_home a layout h = (
        record {
          shape = rw (h.node) record {
            four =
                length-map (plain_slot server) (map empty_entry (alloc a))
                ∙ length-map empty_entry (alloc a)
                ∙ layout.four a;
            good = plain_slots-IsSlot (alloc a) h.buffers;
            counted = ap length (sym (blocks-plain_slots (alloc a)));
          };
          home = rw (h.node) (addrs_of-plain_slots (alloc a));
        },
        rw (h.node) (blocks-plain_slots (alloc a)),
      )

    pub plain_initialize_mem_tree_lem :
        (height : ℕ) (server : PlainServer)
        → IsLayout alloc
        → IsBuffer size (replicate size 0)
        → size % 8 ≡ 0
        → (tree : SimpleTree PlainServer) × (plain_initialize_mem_tree size alloc height true server
            ≡ some (true, tree))
          × (tree.height ≡ height)
          × ((a : ℕ)
              → a < 2 ^ height
              → IsHomeNode plain_store size alloc tree.server a
                × (blocks (load_plain tree.server a).slots ≡ []))
    unfolding plain_initialize_mem_tree
    plain_initialize_mem_tree_lem height server layout zeros whole =
        let filled = plain_initialize_loop size alloc (2 ^ height) 0 server in
        (
          record { height = height; server = filled },
          rw whole refl,
          refl,
          λ a below.
              emptied_home filled zeros a layout
                (plain_initialize_loop_lem (2 ^ height) 0 a server (omega arith) (omega arith)),
        )
