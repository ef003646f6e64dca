-- ===== src/Simple/Empty.antt =====
-- A node that initialisation has written, as SimpleORAM's client loads it.
use intel_sgx_path_oram.Common.{
  ℕ, ◌≡◌, refl, List, [], ◌∷◌, arith, length, length-map, All, ◌∙◌, ap, map, sym,
}
use intel_sgx_path_oram.Node.{Slot}
use intel_sgx_path_oram.Node.Shape.{IsSlot, addrs_of, blocks}
use intel_sgx_path_oram.Server.{Cipher, Server}
use intel_sgx_path_oram.Client.Upload.{IsLayout}
use intel_sgx_path_oram.MemTree.{empty_entry}
use intel_sgx_path_oram.MemTree.Initialize.{empty_tree_node}
use intel_sgx_path_oram.Simple.{aes_store, decrypt_slot, load_aes}
use intel_sgx_path_oram.Simple.Saved.{IsHomeNode}

module _ {size : ℕ} (cipher : Cipher size) (server : Server) where
  open cipher use {decrypt_node, decrypt_block}

  abbrev empty_slots : List ℕ → List Slot
  empty_slots contents = map (decrypt_slot cipher server) (map empty_entry contents)

  empty_slots-IsSlot : (contents : List ℕ) → All (IsSlot size) (empty_slots contents)
  unfolding decrypt_slot
  empty_slots-IsSlot [] = tt
  empty_slots-IsSlot (a ∷ contents) = (
    record {
      key_fits = omega arith;
      path_fits = omega arith;
      bit = omega arith;
      named = λ e. absurd (omega arith);
      buffer = cipher.decrypt_block-IsBuffer (server.memory a);
    },
    empty_slots-IsSlot contents,
  )

  addrs_of-empty_slots : (contents : List ℕ) → addrs_of (empty_slots contents) ≡ contents
  unfolding decrypt_slot
  addrs_of-empty_slots [] = refl
  addrs_of-empty_slots (a ∷ contents) = ap (◌∷◌ a) (addrs_of-empty_slots contents)

  blocks-empty_slots : (contents : List ℕ) → blocks (empty_slots contents) ≡ []
  unfolding decrypt_slot
  blocks-empty_slots [] = refl
  blocks-empty_slots (a ∷ contents) = blocks-empty_slots contents

  pub load_aes_empty :
      (alloc : ℕ → List ℕ) (a : ℕ)
      → IsLayout alloc
      → decrypt_node (server.nodes a) ≡ empty_tree_node (alloc a)
      → IsHomeNode (aes_store cipher) size alloc server a
        × (blocks (load_aes cipher server a).slots ≡ [])
  unfolding load_aes
  load_aes_empty alloc a layout e = (
    record {
      shape = rw e record {
        four =
            length-map (decrypt_slot cipher server) (map empty_entry (alloc a))
            ∙ length-map empty_entry (alloc a)
            ∙ layout.four a;
        good = empty_slots-IsSlot (alloc a);
        counted = ap length (sym (blocks-empty_slots (alloc a)));
      };
      home = rw e (addrs_of-empty_slots (alloc a));
    },
    rw e (blocks-empty_slots (alloc a)),
  )
