-- ===== src/SimpleTree.antt =====
-- App/MemTree.cpp, the calls that SimpleORAM makes on a tree: `MemTreeFetch`, `MemTreePut` and
-- `MemTreeFlush`, over a store of nodes that is encrypted (AES_ENC) or plain, and
-- `InitializeMemTree` and `FreeMemTree` for the plain one. The ECALLs return SGX_SUCCESS, so their status is left out.
pub mod Rewrite
pub mod Fetch
pub mod Put
pub mod Flush
pub mod Share
pub mod FetchAll
pub mod PutAll
pub mod FlushAll
pub mod InitializePlain
pub mod FreePlain
use intel_sgx_path_oram.Common.{
  ℕ, zero, suc, ◌+◌, ◌%◌, ◌^◌, List, [], ◌∷◌, ◌++◌, Bool, ◌==◌, if◌then◌else◌, map, replicate,
  Option, some,
}
use intel_sgx_path_oram.Node.{Block}
use intel_sgx_path_oram.Server.{update}
use intel_sgx_path_oram.Client.{Client, ◌>>=◌, assert, oblivious_fetch}
use intel_sgx_path_oram.MemTree.{empty_entry, Freed, block_buffer, node_array}
use intel_sgx_path_oram.Simple.{
  TreeStore, PlainServer, simple_download_path, update_path, RootPut, oblivious_put_to_root,
  simple_oram_flush,
}

pub record SimpleTree (S : Type 0) : Type 0 where
  pub height : ℕ
  pub server : S

-- What `MemTreeFetch` leaves.
pub record TreeRead (S : Type 0) : Type 0 where
  pub client : Client
  pub tree : SimpleTree S
  pub fetched_block : List ℕ

pub record TreeWorld (S : Type 0) : Type 0 where
  pub client : Client
  pub tree : SimpleTree S

module _ {S : Type 0} (store : TreeStore S) (block_size : ℕ) where
  -- Without PATH_ORAM the address of the fetched block is not used.
  pub mem_tree_fetch : SimpleTree S → ℕ → ℕ → Client → TreeRead S
  mem_tree_fetch tree block_path block_key c =
      let downloaded = simple_download_path store tree.server tree.height block_path c in
      let fetched = oblivious_fetch block_size block_key 0 downloaded in
      record {
        client = fetched.client;
        tree = record tree {
          server = update_path store fetched.client tree.height block_path tree.server;
        };
        fetched_block = fetched.fetched_block;
      }

  pub mem_tree_put : SimpleTree S → Block → Client → Option (RootPut S)
  mem_tree_put tree b c = oblivious_put_to_root store block_size b c tree.server

  pub mem_tree_flush : SimpleTree S → ℕ → Client → TreeWorld S
  mem_tree_flush tree rand_path c =
      let downloaded = simple_download_path store tree.server tree.height rand_path c in
      let flushed = simple_oram_flush tree.height block_size rand_path downloaded in
      record {
        client = flushed;
        tree = record tree { server = update_path store flushed tree.height rand_path tree.server };
      }

module _ (size : ℕ) where
  -- The calls of `calloc` for the blocks of one node.
  pub zero_buffers : List ℕ → (ℕ → List ℕ) → ℕ → List ℕ
  zero_buffers [] memory = memory
  zero_buffers (a ∷ addrs) memory = zero_buffers addrs (update memory a (replicate size 0))

  -- The loop over the nodes that are left, from the index `i`, each of which `calloc` has zeroed.
  -- `alloc i` are the addresses that the four calls of `calloc` return for the node `i`.
  pub plain_initialize_loop : (ℕ → List ℕ) → ℕ → ℕ → PlainServer → PlainServer
  unfolding zero_buffers
  plain_initialize_loop alloc zero i server = server
  plain_initialize_loop alloc (suc left) i server =
      plain_initialize_loop alloc left (i + 1) (record {
        nodes =
            update server.nodes i (record { num_blocks = 0; entries = map empty_entry (alloc i) });
        memory = zero_buffers (alloc i) server.memory;
      })

  -- `InitializeMemTree` without AES_ENC, where the array of the nodes is allocated, or is not. The
  -- result `none` is the failed assertion; else it is whether the tree was set up, and the tree.
  pub plain_initialize_mem_tree :
      (ℕ → List ℕ) → ℕ → Bool → PlainServer → Option (Bool × SimpleTree PlainServer)
  unfolding plain_initialize_loop
  plain_initialize_mem_tree alloc height allocated server = do
    _ ← assert (size % 8 == 0)
    let filled = if allocated then plain_initialize_loop alloc (2 ^ height) 0 server else server
    some (allocated, record { height = height; server = filled })

-- The addresses that the loop hands to `free`, in order, from the index `i` on.
pub plain_free_loop : PlainServer → ℕ → ℕ → List ℕ
plain_free_loop server zero i = []
plain_free_loop server (suc left) i =
    map (λ e. e.block_content) (server.nodes i).entries ++ plain_free_loop server left (i + 1)

-- `FreeMemTree` without AES_ENC: what it hands to `free`, in order.
pub plain_free_mem_tree : SimpleTree PlainServer → List Freed
unfolding plain_free_loop
plain_free_mem_tree tree =
    map block_buffer (plain_free_loop tree.server (2 ^ tree.height) 0) ++ node_array ∷ []
