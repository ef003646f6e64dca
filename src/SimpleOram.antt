-- ===== src/SimpleOram.antt =====
-- App/SimpleORAM.h and App/SimpleORAM.cpp. `none` is a failed assertion, an access outside a
-- buffer, or a source of randomness that ran dry. The ORAM for the position map is the rest of a
-- list. All of them share the enclave's one client. Timings and messages are left out.
pub mod Invariant
pub mod FullRoot
pub mod Access
pub mod Array
pub mod Runs
pub mod Fresh
pub mod Start
pub mod Whole
pub mod Construct
use intel_sgx_path_oram.Common.{
  ℕ, zero, suc, ◌+◌, ◌-◌, ◌*◌, ◌/◌, ◌%◌, ◌^◌, List, [], ◌∷◌, Bool, true, false, ◌&&◌, ◌==◌, ltb,
  leb, if◌then◌else◌, Option, none, some,
}
use intel_sgx_path_oram.Oblivious.{Quad}
use intel_sgx_path_oram.Node.{Block}
use intel_sgx_path_oram.Server.{Cipher, Server}
use intel_sgx_path_oram.Client.{Client, ◌>>=◌, assert, write_mm_in_client, max_pos_map}
use intel_sgx_path_oram.MemTree.{initialize_mem_tree}
use intel_sgx_path_oram.PathOram.{
  block_path_size, compute_tree_height, draw_path, path_bytes, bytes_path, exchange, in_bounds,
  Behind, client_of_first,
}
use intel_sgx_path_oram.Simple.{TreeStore}
use intel_sgx_path_oram.SimpleTree.{
  SimpleTree, TreeWorld, mem_tree_fetch, mem_tree_put, mem_tree_flush,
}

abbrev pub flush_thresh_root : ℕ
flush_thresh_root = 1

pub record SimpleOram (S : Type 0) : Type 0 where
  pub capacity : ℕ
  pub tree : SimpleTree S

-- One call of `GenerateMyRand`, on the values that it will return.
unfoldable pub generate_my_rand : List ℕ → Option (ℕ × List ℕ)
generate_my_rand [] = none
generate_my_rand (r ∷ rands) = some (r, rands)

-- What the access to one tree leaves.
pub record SimpleTreeAccess (S : Type 0) : Type 0 where
  pub client : Client
  pub tree : SimpleTree S
  pub rands : List ℕ
  pub block : List ℕ

-- What an access leaves: the client, the ORAMs, the randomness still to come, the caller's block.
pub record SimpleAccess (S : Type 0) : Type 0 where
  pub client : Client
  pub orams : List (SimpleOram S)
  pub rands : List ℕ
  pub block : List ℕ

-- `*block_path` after the position map was read and updated, and what that changed.
pub record SimpleMapped (S : Type 0) : Type 0 where
  pub client : Client
  pub pos_map : List (SimpleOram S)
  pub rands : List ℕ
  pub old_path : ℕ

module _ {S : Type 0} (store : TreeStore S) (block_size : ℕ) where
  -- The flush, if the root holds enough blocks.
  pub flush_root : ℕ → SimpleTree S → Client → List ℕ → List ℕ → Option (SimpleTreeAccess S)
  flush_root root_load tree c rands block =
      if leb flush_thresh_root root_load
      then (generate_my_rand rands >>= λ drawn.
          let flushed = mem_tree_flush store block_size tree drawn.0 c in
          some (record {
            client = flushed.client;
            tree = flushed.tree;
            rands = drawn.1;
            block = block;
          }))
      else some (record { client = c; tree = tree; rands = rands; block = block })

  -- From the position map's answer on: fetch, exchange, put and flush.
  pub access_simple_tree :
      SimpleTree S → ℕ → ℕ → ℕ → List ℕ → ℕ → ℕ → List ℕ → Client → Option (SimpleTreeAccess S)
  access_simple_tree tree block_key new_path old_path block write_size write_offset rands c =
      let fetched = mem_tree_fetch store block_size tree old_path block_key c in
      do
        _ ← assert (in_bounds block_size write_size write_offset block)
        let ex = exchange write_size write_offset block fetched.fetched_block
        let b : Block = record { key = block_key; path = new_path; bytes = ex.fetched_block }
        put ← mem_tree_put store block_size fetched.tree b fetched.client
        flush_root put.root_load (record fetched.tree { server = put.server }) put.client rands
            ex.block

  -- The position map in the client: the new path for the old one.
  pub simple_map_in_client : Behind → List (SimpleOram S) → List ℕ → ℕ → ℕ → Client → SimpleMapped S
  simple_map_in_client behind pos_map rands ind new_path c =
      let word : Quad = record { lo = new_path; hi = behind.word } in
      let w = write_mm_in_client ind behind.r14 word behind.elsewhere c in
      record { client = w.client; pos_map = pos_map; rands = rands; old_path = w.block_path.lo }

  pub simple_mapped_of : SimpleAccess S → SimpleMapped S
  simple_mapped_of a = record {
    client = a.client;
    pos_map = a.orams;
    rands = a.rands;
    old_path = bytes_path a.block;
  }

  pub access_simple_oram :
      Behind → List (SimpleOram S) → Client → List ℕ → ℕ → List ℕ → ℕ → ℕ → Option (SimpleAccess S)
  access_simple_oram behind [] c rands ind block write_size write_offset = none
  access_simple_oram behind (o ∷ pos_map) c rands ind block write_size write_offset = do
    _ ← assert (ltb ind o.capacity)
    (new_path, rands₁) ← draw_path rands
    let block_key = (ind + 1) % 2 ^ 32
    let num_paths_per_block = block_size / block_path_size
    let block_index = ind / num_paths_per_block
    let block_offset = ind % num_paths_per_block * block_path_size
    let recursive =
        access_simple_oram behind pos_map c rands₁ block_index (path_bytes new_path) block_path_size
          block_offset
    mapped ← elim (leb o.capacity max_pos_map) [
      | true ↦ some (simple_map_in_client behind pos_map rands₁ ind new_path c)
      | false ↦ recursive >>= λ a. some (simple_mapped_of a)
    ]
    t ←
        access_simple_tree o.tree block_key new_path mapped.old_path block write_size write_offset
          mapped.rands mapped.client
    some (record {
      client = t.client;
      orams = record o { tree = t.tree } ∷ mapped.pos_map;
      rands = t.rands;
      block = t.block;
    })

  -- `SimpleORAM::write`, on a block that is not null.
  pub simple_write :
      Behind → List (SimpleOram S) → Client → List ℕ → ℕ → List ℕ → ℕ → ℕ → Option (SimpleAccess S)
  unfolding access_simple_oram
  simple_write behind orams c rands ind block write_size write_offset =
      access_simple_oram behind orams c rands ind block write_size write_offset

  -- `SimpleORAM::read`, where `fresh` is the buffer that it allocates.
  pub simple_read :
      Behind → List (SimpleOram S) → Client → List ℕ → ℕ → List ℕ → Option (SimpleAccess S)
  unfolding access_simple_oram
  simple_read behind orams c rands ind fresh = access_simple_oram behind orams c rands ind fresh 0 0

-- What a constructor leaves: the enclave's client, if it has been initialised, and the ORAM with
-- those of its position maps.
pub record SimpleBuilt : Type 0 where
  pub client : Option Client
  pub orams : List (SimpleOram Server)

module _ {size : ℕ} (cipher : Cipher size) where
  -- The constructor with AES_ENC, with the id that the static counter gives. `allocs l` are the
  -- addresses that `calloc` gives on level `l`, and `behind` the words of the client's struct behind
  -- `path_mm`.
  pub simple_construct : ℕ → ℕ → (ℕ → ℕ → List ℕ) → Server → List ℕ → ℕ → Option SimpleBuilt
  simple_construct zero my_oram_id allocs heap behind capacity = none
  simple_construct (suc fuel) my_oram_id allocs heap behind capacity =
      let num_paths_per_block = size / block_path_size in
      let higher_capacity = (capacity + num_paths_per_block - 1) % 2 ^ 64 / num_paths_per_block in
      do
        pos_map ← elim (leb capacity max_pos_map) [
          | true ↦ some (record { client = none; orams = [] })
          | false ↦ do
            _ ← assert (size % block_path_size == 0 && ltb 1 num_paths_per_block)
            simple_construct fuel (my_oram_id + 1) (λ l. allocs (l + 1)) heap behind higher_capacity
        ]
        client ← client_of_first my_oram_id capacity size behind pos_map.client
        t ← initialize_mem_tree cipher (allocs 0) (compute_tree_height capacity) heap
        let tree : SimpleTree Server = record { height = t.height; server = t.server }
        some (record {
          client = client;
          orams = record { capacity = capacity; tree = tree } ∷ pos_map.orams;
        })
