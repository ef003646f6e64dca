-- ===== src/Simple.antt =====
-- Enclave/Enclave_Client.cpp, the calls that only SimpleORAM makes, as built without PATH_ORAM: the
-- download and the update of a path, the put to the root and the flush, with AES_ENC and without
-- it; and Enclave/Enclave_ObliviousFunctions.cpp, `ObliviousNodeWrite`, in that build. `none` is a
-- failed assertion. Level `h` of `client->path` and `client->path_stash` is a node of `Client.path`.
pub mod Write
pub mod Sink
pub mod SinkBlock
pub mod Flush
pub mod Store
pub mod PathStore
pub mod Saved
pub mod Erased
pub mod Root
pub mod FlushPath
pub mod Empty
use intel_sgx_path_oram.Common.{
  ℕ, zero, suc, ◌+◌, ◌-◌, ◌/◌, ◌%◌, ◌^◌, List, [], ◌∷◌, ◌++◌, Bool, true, false, ◌&&◌, ◌||◌, not,
  ◌==◌, ltb, leb, if◌then◌else◌, to_int, bit_and, bit_or, Option, none, some, map, set, get_or,
  take, drop,
}
use intel_sgx_path_oram.Common.Bits.{neg32, not32, sub32}
use intel_sgx_path_oram.Node.{Slot, Node, Block, blocks_per_node, put_slot}
use intel_sgx_path_oram.Server.{Entry, MemTreeNode, Cipher, Server, update}
use intel_sgx_path_oram.Client.{
  Client, ◌>>=◌, assert, child, empty_node, slot_block, entry_of, tree_node_of,
}

-- The loop of `ObliviousNodeWrite`: every slot keeps its address.
pub plain_write_loop : ℕ → Block → ℕ → List Slot → List Slot
plain_write_loop mask b block_size [] = []
plain_write_loop mask b block_size (s ∷ ss) =
    let sign = neg32 (s.presence_bit == 0) in
    let masked_sign = bit_and sign (not32 mask) in
    put_slot masked_sign s.block_content b block_size s
    ∷ plain_write_loop (bit_or mask sign) b block_size ss

pub record PlainWrite : Type 0 where
  pub node : Node
  pub succ : Bool

pub plain_node_write : Node → Block → ℕ → PlainWrite
plain_node_write n b block_size =
    let is_failed = b.key == 0 || leb blocks_per_node n.num_blocks in
    record {
      node = record {
        num_blocks = (n.num_blocks + (if is_failed then 0 else 1)) % 2 ^ 32;
        slots = plain_write_loop (neg32 is_failed) b block_size n.slots;
      };
      succ = not is_failed;
    }

-- How the nodes in the untrusted memory are read and written, with the blocks of their slots.
pub record TreeStore (S : Type 0) : Type 0 where
  pub load_node : S → ℕ → Node
  pub save_node : ℕ → Node → S → S

-- With AES_ENC.
module _ {size : ℕ} (cipher : Cipher size) where
  open cipher use {encrypt_node, decrypt_node, encrypt_block, decrypt_block}

  unfoldable pub decrypt_slot : Server → Entry → Slot
  decrypt_slot server e = record {
    block_key = e.block_key;
    block_path = e.block_path;
    block_content = e.block_content;
    presence_bit = e.presence_bit;
    stash = decrypt_block (server.memory e.block_content);
  }

  unfoldable pub load_aes : Server → ℕ → Node
  load_aes server addr =
      let n = decrypt_node (server.nodes addr) in
      record { num_blocks = n.num_blocks; slots = map (decrypt_slot server) n.entries }

  pub save_blocks : List Slot → Server → Server
  save_blocks [] server = server
  save_blocks (s ∷ ss) server = save_blocks ss (record server {
    memory = update server.memory s.block_content (encrypt_block server.draws s.stash);
    draws = server.draws + 1;
  })

  pub save_aes : ℕ → Node → Server → Server
  unfolding save_blocks
  save_aes addr n server = save_blocks n.slots (record server {
    nodes = update server.nodes addr (encrypt_node server.draws (tree_node_of n));
    draws = server.draws + 1;
  })

  abbrev pub aes_store : TreeStore Server
  aes_store = record { load_node = load_aes; save_node = save_aes }

-- Without AES_ENC: the nodes themselves by index, and the blocks by address. The buffers have
-- `block_size` bytes, so that `memcpy` copies them whole.
pub record PlainServer : Type 0 where
  pub nodes : ℕ → MemTreeNode
  pub memory : ℕ → List ℕ

unfoldable pub plain_slot : PlainServer → Entry → Slot
plain_slot server e = record {
  block_key = e.block_key;
  block_path = e.block_path;
  block_content = e.block_content;
  presence_bit = e.presence_bit;
  stash = server.memory e.block_content;
}

unfoldable pub load_plain : PlainServer → ℕ → Node
load_plain server addr =
    let n = server.nodes addr in
    record { num_blocks = n.num_blocks; slots = map (plain_slot server) n.entries }

pub copy_blocks : List Slot → PlainServer → PlainServer
copy_blocks [] server = server
copy_blocks (s ∷ ss) server =
    copy_blocks ss (record server { memory = update server.memory s.block_content s.stash })

pub save_plain : ℕ → Node → PlainServer → PlainServer
unfolding copy_blocks
save_plain addr n server =
    copy_blocks n.slots (record server { nodes = update server.nodes addr (tree_node_of n) })

abbrev pub plain_store : TreeStore PlainServer
plain_store = record { load_node = load_plain; save_node = save_plain }

pub record RootPut (S : Type 0) : Type 0 where
  pub client : Client
  pub server : S
  pub root_load : ℕ

module _ {S : Type 0} (store : TreeStore S) where
  open store use {load_node, save_node}

  -- The levels from `h` on, `left` of them, whose first node is `addr`.
  pub fill_path_loop : S → ℕ → ℕ → ℕ → ℕ → List Node → List Node
  fill_path_loop server zero h addr tree_path path = path
  fill_path_loop server (suc left) h addr tree_path path =
      fill_path_loop server left (h + 1) (child addr tree_path) (tree_path / 2)
        (set path h (load_node server addr))

  pub simple_download_path : S → ℕ → ℕ → Client → Client
  unfolding fill_path_loop
  simple_download_path server height block_path c = record c {
    path = fill_path_loop server height 0 0 block_path c.path;
  }

  pub update_loop : List Node → ℕ → ℕ → ℕ → ℕ → S → S
  update_loop path zero h addr tree_path server = server
  update_loop path (suc left) h addr tree_path server =
      update_loop path left (h + 1) (child addr tree_path) (tree_path / 2)
        (save_node addr (get_or path h (empty_node [])) server)

  pub update_path : Client → ℕ → ℕ → S → S
  unfolding update_loop
  update_path c height block_path server = update_loop c.path height 0 0 block_path server

  pub oblivious_put_to_root : ℕ → Block → Client → S → Option (RootPut S)
  oblivious_put_to_root block_size b c server = do
    let root = load_node server 0
    _ ← assert (ltb root.num_blocks blocks_per_node)
    let w = plain_node_write root b block_size
    _ ← assert w.succ
    some (record {
      client = record c { path = set c.path 0 w.node };
      server = save_node 0 w.node server;
      root_load = w.node.num_blocks;
    })

-- What the loop over `k` carries: the flags, and the presence bit and the count of blocks that it
-- clears and lowers where the block comes from.
pub record Sinking : Type 0 where
  pub has_flushed : Bool
  pub failed_flushed : Bool
  pub presence_bit : ℕ
  pub num_blocks : ℕ

pub record Sunk : Type 0 where
  pub path : List Node
  pub state : Sinking

-- `(rand_path & (1 << k)) == (block_path & (1 << k))`.
abbrev pub path_match : ℕ → ℕ → ℕ → Bool
path_match rand_path block_path k = bit_and rand_path (2 ^ k) == bit_and block_path (2 ^ k)

-- The loop over `k` on the nodes of the levels `k + 1` and below.
pub sink_loop : ℕ → ℕ → ℕ → Block → List Node → Sinking → Sunk
sink_loop block_size rand_path k b [] s = record { path = []; state = s }
sink_loop block_size rand_path k b (n ∷ ns) s =
    let is_path_match = path_match rand_path b.path k in
    let failed = s.failed_flushed || not is_path_match in
    let tried = not failed && not s.has_flushed && is_path_match in
    let w = plain_node_write n b block_size in
    let will_insert = tried && w.succ in
    let rest = sink_loop block_size rand_path (k + 1) b ns (record {
      has_flushed = s.has_flushed || will_insert;
      failed_flushed = failed;
      presence_bit = bit_and s.presence_bit (neg32 (not will_insert));
      num_blocks = sub32 s.num_blocks (to_int will_insert);
    }) in
    record { path = (if tried then w.node else n) ∷ rest.path; state = rest.state }

pub record FlushedSlots : Type 0 where
  pub node : Node
  pub below : List Node

-- The loop over `j` in the node of level `i`, with the nodes below it.
pub flush_slots : ℕ → ℕ → ℕ → ℕ → List Slot → List Node → FlushedSlots
flush_slots block_size rand_path i num [] ns = record {
  node = record { num_blocks = num; slots = [] };
  below = ns;
}
flush_slots block_size rand_path i num (s ∷ ss) ns =
    let sunk = sink_loop block_size rand_path i (slot_block s) ns (record {
      has_flushed = false;
      failed_flushed = false;
      presence_bit = s.presence_bit;
      num_blocks = num;
    }) in
    let skips = s.presence_bit == 0 in
    let s' = if skips then s else record s { presence_bit = sunk.state.presence_bit } in
    let num' = if skips then num else sunk.state.num_blocks in
    let ns' = if skips then ns else sunk.path in
    let rest = flush_slots block_size rand_path i num' ss ns' in
    record {
      node = record { num_blocks = rest.node.num_blocks; slots = s' ∷ rest.node.slots };
      below = rest.below;
    }

-- The loop over `i`, which leaves the last level out. The fuel is the number of levels.
pub flush_levels : ℕ → ℕ → ℕ → ℕ → List Node → List Node
flush_levels fuel block_size rand_path i [] = []
flush_levels zero block_size rand_path i (n ∷ ns) = n ∷ ns
flush_levels (suc fuel) block_size rand_path i (n ∷ ns) =
    let here = flush_slots block_size rand_path i n.num_blocks n.slots ns in
    here.node ∷ flush_levels fuel block_size rand_path (i + 1) here.below

pub simple_oram_flush : ℕ → ℕ → ℕ → Client → Client
unfolding flush_levels
simple_oram_flush height block_size rand_path c = if ltb height 2 then c else record c {
  path =
      flush_levels (height - 1) block_size rand_path 0 (take height c.path) ++ drop height c.path;
}
