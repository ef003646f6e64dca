-- ===== src/Tests/SimpleInputs.antt =====
-- Trees of SimpleORAM with two levels whose blocks lie in the root, encrypted and plain.
use intel_sgx_path_oram.Common.{
  ℕ, zero, suc, ◌+◌, ◌*◌, ◌≤◌, ◌<◌, ◌≡◌, ◌≢◌, refl, List, [], ◌∷◌, arith, All, map, sym,
}
use mathlib.Core.Path.{subst}
use mathlib.Core.List.{append-nil}
use intel_sgx_path_oram.Node.{Slot, Node, Block}
use intel_sgx_path_oram.Node.Keys.{count_key}
use intel_sgx_path_oram.Node.Shape.{IsSlot, IsNode, addrs_of, blocks}
use intel_sgx_path_oram.Server.{MemTreeNode, Server}
use intel_sgx_path_oram.Client.{child}
use intel_sgx_path_oram.Client.EvictSlots.{Along}
use intel_sgx_path_oram.Client.Init.{All-replicate}
use intel_sgx_path_oram.Simple.{
  TreeStore, PlainServer, aes_store, plain_store, load_aes, decrypt_slot, load_plain, plain_slot,
}
use intel_sgx_path_oram.Simple.Saved.{IsHomeNode}
use intel_sgx_path_oram.SimpleTree.FetchAll.{blocks_on}
use intel_sgx_path_oram.SimpleTree.FlushAll.{AtPos}
use intel_sgx_path_oram.SimpleTree.Rewrite.{IsSimpleClient}
use intel_sgx_path_oram.SimpleOram.Invariant.{IsSimpleTree, held}
use intel_sgx_path_oram.Tests.Ciphers.{plain_cipher, plain_encrypt_node}
use intel_sgx_path_oram.Tests.Inputs.{
  some_bytes, some_bytes-IsBuffer, four_each, empty_tree_node, server, root_node, new_client,
  vacant, vacant-IsNode,
}

-- A slot as the client loads it, with the key 0 if it is empty.
abbrev pub loaded_slot : ℕ → ℕ → ℕ → Slot
loaded_slot key bit addr = record {
  block_key = key;
  block_path = 3;
  block_content = addr;
  presence_bit = bit;
  stash = some_bytes;
}

abbrev pub empty_slot_at : ℕ → Slot
empty_slot_at addr = record {
  block_key = 0;
  block_path = 0;
  block_content = addr;
  presence_bit = 0;
  stash = some_bytes;
}

abbrev pub empty_at : ℕ → Node
empty_at a = record { num_blocks = 0; slots = map empty_slot_at (four_each a) }

-- One block in the root, or four.
abbrev pub root_one : Node
root_one = record {
  num_blocks = 1;
  slots = loaded_slot 1 1 0 ∷ empty_slot_at 1 ∷ empty_slot_at 2 ∷ empty_slot_at 3 ∷ [];
}

abbrev pub root_four : Node
root_four = record {
  num_blocks = 4;
  slots = loaded_slot 1 1 0 ∷ loaded_slot 2 1 1 ∷ loaded_slot 3 1 2 ∷ loaded_slot 4 1 3 ∷ [];
}

empty_slot_at-IsSlot : (a : ℕ) → IsSlot 8 (empty_slot_at a)
empty_slot_at-IsSlot a = record {
  key_fits = omega arith;
  path_fits = omega arith;
  bit = omega arith;
  named = λ e. absurd (omega arith);
  buffer = some_bytes-IsBuffer;
}

taken-IsSlot : (k a : ℕ) → k ≢ 0 → k < 5 → IsSlot 8 (loaded_slot k 1 a)
taken-IsSlot k a ne low = record {
  key_fits = omega arith;
  path_fits = omega arith;
  bit = omega arith;
  named = λ e. ne;
  buffer = some_bytes-IsBuffer;
}

empty_at-IsNode : (a : ℕ) → IsNode 8 (empty_at a)
empty_at-IsNode a = record {
  four = refl;
  good = (
    empty_slot_at-IsSlot (4 * a),
    (
      empty_slot_at-IsSlot (4 * a + 1),
      (empty_slot_at-IsSlot (4 * a + 2), (empty_slot_at-IsSlot (4 * a + 3), tt)),
    ),
  );
  counted = refl;
}

pub root_one-IsNode : IsNode 8 root_one
root_one-IsNode = record {
  four = refl;
  good = (
    taken-IsSlot 1 0 (λ e. omega arith) (omega arith),
    (empty_slot_at-IsSlot 1, (empty_slot_at-IsSlot 2, (empty_slot_at-IsSlot 3, tt))),
  );
  counted = refl;
}

pub root_four-IsNode : IsNode 8 root_four
root_four-IsNode = record {
  four = refl;
  good = (
    taken-IsSlot 1 0 (λ e. omega arith) (omega arith),
    (
      taken-IsSlot 2 1 (λ e. omega arith) (omega arith),
      (
        taken-IsSlot 3 2 (λ e. omega arith) (omega arith),
        (taken-IsSlot 4 3 (λ e. omega arith) (omega arith), tt),
      ),
    ),
  );
  counted = refl;
}

abbrev pub all_three : ℕ → ℕ
all_three k = 3

-- A tree of two levels with only this root.
module _ {S : Type 0} (store : TreeStore S) (s : S) (root : Node)
    (at_root : store.load_node s 0 ≡ root)
    (elsewhere : (a : ℕ) → store.load_node s (suc a) ≡ empty_at (suc a)) (shape : IsNode 8 root)
    (row : addrs_of root.slots ≡ four_each 0) (mapped : All (AtPos all_three) (blocks root.slots))
    (once : (k : ℕ) → count_key k (blocks root.slots) ≤ 1) where
  home : (a : ℕ) → IsHomeNode store 8 four_each s a
  home zero = record { shape = rw at_root shape; home = rw at_root row }
  home (suc a) = record {
    shape = rw (elsewhere a) (empty_at-IsNode (suc a));
    home = rw (elsewhere a) refl;
  }

  below : (a : ℕ) → a ≢ 0 → blocks (store.load_node s a).slots ≡ []
  below zero ne = absurd (ne refl)
  below (suc a) ne = rw (elsewhere a) refl

  child_below : (p : ℕ) → blocks (store.load_node s (child 0 p)).slots ≡ []
  child_below p = below (child 0 p) (λ e. omega arith)

  in_root : (p : ℕ) → blocks_on store s 2 p ≡ blocks root.slots
  in_root p = rw (at_root, child_below p) (append-nil (blocks root.slots))

  Along-any : (p : ℕ) (bs : List Block) → All (Along 0 p) bs
  Along-any p [] = tt
  Along-any p (b ∷ bs) = (omega arith, Along-any p bs)

  pub root_only-IsSimpleTree : IsSimpleTree store 8 four_each s 2 all_three
  root_only-IsSimpleTree = record {
    homes = λ p. (home 0, (home (child 0 p), tt));
    lie = λ p. (
      Along-any p (blocks (store.load_node s 0).slots),
      (subst (All (Along 1 p)) (sym (child_below p)) tt, tt),
    );
    mapped = λ p. subst (All (AtPos all_three)) (sym (in_root p)) mapped;
    once = λ k. subst (λ (bs : List Block). count_key k bs ≤ 1) (sym (in_root 3)) (once k);
  }

pub new_client-IsSimpleClient : IsSimpleClient 8 2 new_client
new_client-IsSimpleClient = record {
  twenty = refl;
  rest = All-replicate (IsNode 8) 18 vacant vacant-IsNode;
  unused = refl;
}

pub server-IsSimpleTree : IsSimpleTree (aes_store plain_cipher) 8 four_each server 2 all_three
unfolding load_aes decrypt_slot
server-IsSimpleTree =
    root_only-IsSimpleTree (aes_store plain_cipher) server root_one refl (λ a. refl) root_one-IsNode
      refl (refl, tt) (λ k. ground arith)

abbrev full_node : MemTreeNode
full_node = record {
  num_blocks = 4;
  entries =
      record { block_key = 1; block_path = 3; block_content = 0; presence_bit = 1 }
      ∷ record { block_key = 2; block_path = 3; block_content = 1; presence_bit = 1 }
      ∷ record { block_key = 3; block_path = 3; block_content = 2; presence_bit = 1 }
      ∷ record { block_key = 4; block_path = 3; block_content = 3; presence_bit = 1 }
      ∷ [];
}

abbrev full_nodes : ℕ → List ℕ
full_nodes zero = plain_encrypt_node 0 full_node
full_nodes (suc a) = plain_encrypt_node 0 (empty_tree_node (suc a))

-- The same tree with a full root.
abbrev pub full_server : Server
full_server = record server { nodes = full_nodes }

pub full_server-IsSimpleTree :
    IsSimpleTree (aes_store plain_cipher) 8 four_each full_server 2 all_three
unfolding load_aes decrypt_slot
full_server-IsSimpleTree =
    root_only-IsSimpleTree (aes_store plain_cipher) full_server root_four refl (λ a. refl)
      root_four-IsNode refl (refl, (refl, (refl, (refl, tt)))) (λ k. ground arith)

-- The blocks of the two roots, as the client loads them.
pub server_root : blocks (load_aes plain_cipher server 0).slots ≡ blocks root_one.slots
unfolding load_aes decrypt_slot
server_root = refl

pub full_server_root : blocks (load_aes plain_cipher full_server 0).slots ≡ blocks root_four.slots
unfolding load_aes decrypt_slot
full_server_root = refl

abbrev plain_nodes : ℕ → MemTreeNode
plain_nodes zero = root_node
plain_nodes (suc a) = empty_tree_node (suc a)

-- The first tree without encryption.
abbrev pub plain_server : PlainServer
plain_server = record { nodes = plain_nodes; memory = λ a. some_bytes }

pub plain_server-IsSimpleTree : IsSimpleTree plain_store 8 four_each plain_server 2 all_three
unfolding load_plain plain_slot
plain_server-IsSimpleTree =
    root_only-IsSimpleTree plain_store plain_server root_one refl (λ a. refl) root_one-IsNode refl
      (refl, tt) (λ k. ground arith)

pub plain_server_root : blocks (load_plain plain_server 0).slots ≡ blocks root_one.slots
unfolding load_plain plain_slot
plain_server_root = refl

-- Both stand for the same array.
pub same_arrays :
    held (aes_store plain_cipher) 8 four_each server 2 all_three
    ≡ held plain_store 8 four_each plain_server 2 all_three
unfolding load_aes decrypt_slot load_plain plain_slot
same_arrays = refl
