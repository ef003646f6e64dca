-- ===== src/Tests/Inputs.antt =====
-- A client with an empty stash, and a tree of three nodes with one block in its root.
use intel_sgx_path_oram.Common.{
  ℕ, zero, suc, ◌+◌, ◌*◌, ◌≢◌, ◌≤◌, ◌<◌, refl, List, [], ◌∷◌, arith, All, replicate, map,
}
use intel_sgx_path_oram.Node.{Slot, Node, Block}
use intel_sgx_path_oram.Node.Shape.{IsBuffer, IsBlock, IsSlot, IsClean, IsNode}
use intel_sgx_path_oram.Server.{MemTreeNode, IsEntry, Server}
use intel_sgx_path_oram.Client.{Client, empty_node}
use intel_sgx_path_oram.Client.Init.{All-replicate}
use intel_sgx_path_oram.Client.Shape.{IsClient}
use intel_sgx_path_oram.Client.Upload.{IsLayout, IsHome, empty_node-IsNode}
use intel_sgx_path_oram.Client.Tree.{Apart}
use intel_sgx_path_oram.Client.Placed.{Placed}
use intel_sgx_path_oram.MemTree.{MemTree, empty_entry}
use intel_sgx_path_oram.MemTree.Access.{HomePath}
use intel_sgx_path_oram.PathOram.{Oram}
use intel_sgx_path_oram.PathOram.Found.{IsOram}
use intel_sgx_path_oram.Client.Found.{Mapped}
use intel_sgx_path_oram.Client.EvictSlots.{Along}
use intel_sgx_path_oram.Client.{child}
use intel_sgx_path_oram.Client.Tree.{node_blocks}
use intel_sgx_path_oram.Common.{◌%◌, sym, ◌≡◌}
use mathlib.Core.Path.{subst}
use intel_sgx_path_oram.Tests.Ciphers.{
  plain_cipher, plain_encrypt_node, plain_encrypt_block, zeros-IsBuffer,
}

abbrev pub zero_block : List ℕ
zero_block = replicate 8 0

abbrev pub some_bytes : List ℕ
some_bytes = 1 ∷ 2 ∷ 3 ∷ 4 ∷ 5 ∷ 6 ∷ 7 ∷ 8 ∷ []

pub some_bytes-IsBuffer : IsBuffer 8 some_bytes
some_bytes-IsBuffer = (omega arith, refl)

abbrev pub some_block : Block
some_block = record { key = 1; path = 3; bytes = some_bytes }

pub some_block-IsBlock : IsBlock 8 some_block
some_block-IsBlock = record {
  key_fits = omega arith;
  path_fits = omega arith;
  buffer = some_bytes-IsBuffer;
}

abbrev pub vacant : Node
vacant = empty_node (replicate 4 zero_block)

pub vacant-IsNode : IsNode 8 vacant
vacant-IsNode =
    empty_node-IsNode 8 (replicate 4 zero_block)
      (All-replicate (IsBuffer 8) 4 zero_block zeros-IsBuffer) refl

abbrev pub taken_slot : Slot
taken_slot = record {
  block_key = 1;
  block_path = 3;
  block_content = 0;
  presence_bit = 1;
  stash = some_bytes;
}

abbrev pub free_slot : Slot
free_slot = record {
  block_key = 0;
  block_path = 0;
  block_content = 0;
  presence_bit = 0;
  stash = zero_block;
}

-- One block and three empty slots.
abbrev pub one_taken : Node
one_taken = record { num_blocks = 1; slots = taken_slot ∷ free_slot ∷ free_slot ∷ free_slot ∷ [] }

free_slot-IsSlot : IsSlot 8 free_slot
free_slot-IsSlot = record {
  key_fits = omega arith;
  path_fits = omega arith;
  bit = omega arith;
  named = λ e. absurd (omega arith);
  buffer = zeros-IsBuffer;
}

taken_slot-IsSlot : IsSlot 8 taken_slot
taken_slot-IsSlot = record {
  key_fits = omega arith;
  path_fits = omega arith;
  bit = omega arith;
  named = λ e. λ z. absurd (omega arith);
  buffer = some_bytes-IsBuffer;
}

pub one_taken-IsNode : IsNode 8 one_taken
one_taken-IsNode = record {
  four = refl;
  good = (taken_slot-IsSlot, (free_slot-IsSlot, (free_slot-IsSlot, (free_slot-IsSlot, tt))));
  counted = refl;
}

-- `path` are the nodes of the stash.
abbrev pub client_of : List Node → ℕ → Client
client_of path load = record {
  path_mm = 3 ∷ 0 ∷ 0 ∷ [];
  path = path;
  encrypted_data_addr_in_path = replicate 20 (0 ∷ 1 ∷ 2 ∷ 3 ∷ []);
  temp_block_content = replicate 4 zero_block;
  client_heighest_height = 2;
  stash_load = load;
  dummy_block = zero_block;
}

abbrev pub new_client : Client
new_client = client_of (replicate 20 vacant) 0

pub new_client-IsClient : IsClient 8 new_client
new_client-IsClient = record {
  stash = All-replicate (IsNode 8) 20 vacant vacant-IsNode;
  twenty = refl;
  loaded = refl;
  buffers = All-replicate (IsBuffer 8) 4 zero_block zeros-IsBuffer;
  four = refl;
  rows = refl;
  dummy = zeros-IsBuffer;
}

abbrev pub loaded_client : Client
loaded_client = client_of (one_taken ∷ replicate 19 vacant) 1

pub loaded_client-IsClient : IsClient 8 loaded_client
loaded_client-IsClient = record {
  stash = (one_taken-IsNode, All-replicate (IsNode 8) 19 vacant vacant-IsNode);
  twenty = refl;
  loaded = refl;
  buffers = All-replicate (IsBuffer 8) 4 zero_block zeros-IsBuffer;
  four = refl;
  rows = refl;
  dummy = zeros-IsBuffer;
}

abbrev pub four_each : ℕ → List ℕ
four_each a = (4 * a) ∷ (4 * a + 1) ∷ (4 * a + 2) ∷ (4 * a + 3) ∷ []

Apart-four_each : (a b x : ℕ) → a ≢ b → 4 * a ≤ x → x < 4 * a + 4 → Apart x (four_each b)
Apart-four_each a b x ne low high =
    (λ e. omega arith, (λ e. omega arith, (λ e. omega arith, (λ e. omega arith, tt))))

pub four_each-IsLayout : IsLayout four_each
four_each-IsLayout = record {
  four = λ a. refl;
  distinct = λ a. (
    (λ e. omega arith, (λ e. omega arith, (λ e. omega arith, tt))),
    ((λ e. omega arith, (λ e. omega arith, tt)), ((λ e. omega arith, tt), (tt, tt))),
  );
  apart = λ a b ne. (
    Apart-four_each a b (4 * a) ne (omega arith) (omega arith),
    (
      Apart-four_each a b (4 * a + 1) ne (omega arith) (omega arith),
      (
        Apart-four_each a b (4 * a + 2) ne (omega arith) (omega arith),
        (Apart-four_each a b (4 * a + 3) ne (omega arith) (omega arith), tt),
      ),
    ),
  );
}

abbrev pub empty_tree_node : ℕ → MemTreeNode
empty_tree_node a = record { num_blocks = 0; entries = map empty_entry (four_each a) }

-- The root has the block of key 1, whose path is 3.
abbrev pub root_node : MemTreeNode
root_node = record {
  num_blocks = 1;
  entries =
      record { block_key = 1; block_path = 3; block_content = 0; presence_bit = 1 }
      ∷ empty_entry 1
      ∷ empty_entry 2
      ∷ empty_entry 3
      ∷ [];
}

abbrev pub three_nodes : ℕ → List ℕ
three_nodes zero = plain_encrypt_node 0 root_node
three_nodes (suc a) = plain_encrypt_node 0 (empty_tree_node (suc a))

abbrev pub one_memory : ℕ → List ℕ
one_memory a = plain_encrypt_block 0 some_bytes

abbrev pub server : Server
server = record { nodes = three_nodes; memory = one_memory; draws = 0 }

abbrev pub tree : MemTree
tree = record { height = 2; block_size = 8; server = server }

abbrev pub oram : Oram
oram = record { capacity = 2; tree = tree }

empty_entry-IsEntry : (a : ℕ) → IsEntry (empty_entry a)
empty_entry-IsEntry a = record {
  key_fits = omega arith;
  path_fits = omega arith;
  bit = omega arith;
  absent = λ e. refl;
  named = λ e. absurd (omega arith);
}

root_IsHome : IsHome plain_cipher four_each server 0
root_IsHome = record {
  tree = record {
    four = refl;
    count_fits = omega arith;
    good = (
      record {
        key_fits = omega arith;
        path_fits = omega arith;
        bit = omega arith;
        absent = λ e. absurd (omega arith);
        named = λ e. λ z. absurd (omega arith);
      },
      (empty_entry-IsEntry 1, (empty_entry-IsEntry 2, (empty_entry-IsEntry 3, tt))),
    );
  };
  addrs = refl;
}

empty_IsHome : (a : ℕ) → IsHome plain_cipher four_each server (suc a)
empty_IsHome a = record {
  tree = record {
    four = refl;
    count_fits = omega arith;
    good = (
      empty_entry-IsEntry (4 * suc a),
      (
        empty_entry-IsEntry (4 * suc a + 1),
        (empty_entry-IsEntry (4 * suc a + 2), (empty_entry-IsEntry (4 * suc a + 3), tt)),
      ),
    );
  };
  addrs = refl;
}

pub server_IsHome : (a : ℕ) → IsHome plain_cipher four_each server a
server_IsHome zero = root_IsHome
server_IsHome (suc a) = empty_IsHome a

-- The one block lies in the root.
pub server-Placed : Placed plain_cipher four_each server 1
server-Placed p = ((omega arith, tt), tt)

pub tree-HomePath : HomePath plain_cipher four_each tree 3
tree-HomePath = (root_IsHome, (empty_IsHome 1, tt))

abbrev pub all_taken : Node
all_taken = record {
  num_blocks = 4;
  slots = taken_slot ∷ taken_slot ∷ taken_slot ∷ taken_slot ∷ [];
}

pub all_taken-IsNode : IsNode 8 all_taken
all_taken-IsNode = record {
  four = refl;
  good = (taken_slot-IsSlot, (taken_slot-IsSlot, (taken_slot-IsSlot, (taken_slot-IsSlot, tt))));
  counted = refl;
}

-- Eighty blocks.
abbrev pub full_client : Client
full_client = client_of (replicate 20 all_taken) 80

pub full_client-IsClient : IsClient 8 full_client
full_client-IsClient = record {
  stash = All-replicate (IsNode 8) 20 all_taken all_taken-IsNode;
  twenty = refl;
  loaded = refl;
  buffers = All-replicate (IsBuffer 8) 4 zero_block zeros-IsBuffer;
  four = refl;
  rows = refl;
  dummy = zeros-IsBuffer;
}

-- `one_taken` with the buffers of the root.
abbrev pub one_node : Node
one_node = record {
  num_blocks = 1;
  slots =
      taken_slot
      ∷ record free_slot { block_content = 1 }
      ∷ record free_slot { block_content = 2 }
      ∷ record free_slot { block_content = 3 }
      ∷ [];
}

moved_free_slot-IsSlot : (a : ℕ) → IsSlot 8 (record free_slot { block_content = a })
moved_free_slot-IsSlot a = record {
  key_fits = omega arith;
  path_fits = omega arith;
  bit = omega arith;
  named = λ e. absurd (omega arith);
  buffer = zeros-IsBuffer;
}

pub one_node-IsNode : IsNode 8 one_node
one_node-IsNode = record {
  four = refl;
  good = (
    taken_slot-IsSlot,
    (moved_free_slot-IsSlot 1, (moved_free_slot-IsSlot 2, (moved_free_slot-IsSlot 3, tt))),
  );
  counted = refl;
}

pub one_node-IsClean : All IsClean one_node.slots
one_node-IsClean = (λ e. absurd (omega arith), (λ e. refl, (λ e. refl, (λ e. refl, tt))))

child_of_root : (p : ℕ) → child 0 p ≡ suc (p % 2)
child_of_root p = omega arith

tree-Placed : Placed plain_cipher four_each server 2
tree-Placed p = (
  (omega arith, tt),
  (subst (λ a. All (Along 1 p) (node_blocks plain_cipher server a)) (sym (child_of_root p)) tt, tt),
)

tree-Mapped : (a : ℕ) → All (Mapped 1 3) (node_blocks plain_cipher server a)
tree-Mapped zero = ((λ e. refl), tt)
tree-Mapped (suc a) = tt

pub oram-IsOram : IsOram plain_cipher four_each 1 3 oram
oram-IsOram = record {
  low = omega arith;
  homes = λ a below. server_IsHome a;
  placed = tree-Placed;
  mapped = λ a below. tree-Mapped a;
}
