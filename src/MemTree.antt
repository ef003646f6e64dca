-- ===== src/MemTree.antt =====
-- App/MemTree.h and App/MemTree.cpp as built with AES_ENC: the tree in the untrusted memory, its
-- initialisation and freeing, and the calls that PathORAM makes on it. The ECALLs return
-- SGX_SUCCESS, so their status is left out.
pub mod Access
pub mod Initialize
pub mod Free
use intel_sgx_path_oram.Common.{
  ℕ, zero, suc, ◌+◌, ◌%◌, ◌^◌, List, [], ◌∷◌, ◌++◌, map, replicate, ◌==◌, Option, none, some,
}
use intel_sgx_path_oram.Node.{Block, blocks_per_node}
use intel_sgx_path_oram.Server.{Entry, MemTreeNode, Cipher, Server, update}
use intel_sgx_path_oram.Client.{
  Client, World, Fetched, Put, ◌>>=◌, assert, download_path, oblivious_fetch,
  oblivious_put_to_stash, evict_path,
}

pub record MemTree : Type 0 where
  pub height : ℕ
  pub block_size : ℕ
  pub server : Server

-- An entry of a node of zeros, but for the address of its buffer.
abbrev pub empty_entry : ℕ → Entry
empty_entry content = record {
  block_key = 0;
  block_path = 0;
  block_content = content;
  presence_bit = 0;
}

-- What is handed to `free`: the buffer of a block at an address, or the array of the nodes.
pub data Freed : Type 0 where
  block_buffer : ℕ → Freed
  node_array : Freed

module _ {size : ℕ} (cipher : Cipher size) where
  open cipher use {encrypt_node, decrypt_node}

  -- The loop over the nodes that are left, from the index `i`; `alloc i` are the addresses that
  -- the four calls of `calloc` return for the node `i`.
  pub initialize_loop : (ℕ → List ℕ) → ℕ → ℕ → Server → Server
  initialize_loop alloc zero i server = server
  initialize_loop alloc (suc left) i server =
      let n : MemTreeNode = record { num_blocks = 0; entries = map empty_entry (alloc i) } in
      initialize_loop alloc left (i + 1) (record server {
        nodes = update server.nodes i (encrypt_node server.draws n);
        draws = server.draws + 1;
      })

  -- `server` is the memory as `calloc` returned it.
  pub initialize_mem_tree : (ℕ → List ℕ) → ℕ → Server → Option MemTree
  initialize_mem_tree alloc height server = do
    _ ← assert (size % 8 == 0)
    some (record {
      height = height;
      block_size = size;
      server = initialize_loop alloc (2 ^ height) 0 server;
    })

  pub mem_tree_fetch_path_oram : MemTree → ℕ → ℕ → ℕ → Client → Option Fetched
  mem_tree_fetch_path_oram tree block_path block_key encrypted_content c = do
    c' ← download_path cipher tree.server tree.height block_path c
    some (oblivious_fetch size block_key encrypted_content c')

  pub mem_tree_put_path_oram : MemTree → Block → ℕ → Client → Option Put
  mem_tree_put_path_oram tree b encrypted_content c =
      oblivious_put_to_stash size b encrypted_content c

  pub record Flushed : Type 0 where
    pub tree : MemTree
    pub client : Client

  pub mem_tree_flush_path_oram : MemTree → ℕ → Client → Flushed
  mem_tree_flush_path_oram tree rand_path c =
      let w =
        evict_path cipher tree.height rand_path (record { client = c; server = tree.server }) in
      record { tree = record tree { server = w.server }; client = w.client }

  -- The addresses that the loop hands to `free`, in order, from the index `i` on.
  pub free_loop : Server → ℕ → ℕ → List ℕ
  free_loop server zero i = []
  free_loop server (suc left) i =
      map (λ e. e.block_content) (decrypt_node (server.nodes i)).entries
      ++ free_loop server left (i + 1)

  -- `FreeMemTree`: what it hands to `free`, in order.
  pub free_mem_tree : MemTree → List Freed
  unfolding free_loop
  free_mem_tree tree =
      map block_buffer (free_loop tree.server (2 ^ tree.height) 0) ++ node_array ∷ []
