-- ===== src/PathOram.antt =====
-- App/PathORAM.h and App/PathORAM.cpp. `none` is a failed assertion, an access outside a buffer, or
-- a source of randomness that ran dry. The ORAM for the position map is the rest of a list: an
-- object and its `pos_map_`, its `pos_map_`, and so on. All of them share the enclave's one client.
-- Timings and messages are left out.
pub mod AccessTree
pub mod AccessPath
pub mod Height
pub mod ReadWrite
pub mod Construct
pub mod Found
pub mod WriteRead
use intel_sgx_path_oram.Common.{
  ℕ, zero, suc, ◌+◌, ◌-◌, ◌*◌, ◌/◌, ◌%◌, ◌^◌, List, [], ◌∷◌, ◌++◌, Bool, true, false, ◌&&◌, ◌==◌,
  ltb, leb, if◌then◌else◌, Option, none, some, length, take, drop, get_or,
}
use intel_sgx_path_oram.Oblivious.{Quad}
use intel_sgx_path_oram.Node.{Node, Block}
use intel_sgx_path_oram.Server.{Cipher, Server}
use intel_sgx_path_oram.Client.{Client, ◌>>=◌, assert, init_client, write_mm_in_client, max_pos_map}
use intel_sgx_path_oram.MemTree.{
  MemTree, Flushed, mem_tree_fetch_path_oram, mem_tree_put_path_oram, mem_tree_flush_path_oram,
  initialize_mem_tree,
}

-- The loop of `ComputeTreeHeight`, with fuel: the binary digits of the capacity.
pub height_loop : ℕ → ℕ → ℕ → ℕ
height_loop zero h capacity = h
height_loop (suc fuel) h capacity =
    let rest = height_loop fuel (h + 1) (capacity / 2) in if capacity == 0 then h else rest

-- A uint64_t has 64 digits at most.
pub compute_tree_height : ℕ → ℕ
unfolding height_loop
compute_tree_height capacity = height_loop 65 0 capacity

-- `sizeof(BlockPath)`.
abbrev pub block_path_size : ℕ
block_path_size = 4

pub record Oram : Type 0 where
  pub capacity : ℕ
  pub tree : MemTree

-- The values that `GenerateMyRand` will return, and the loop that draws until one is not 0.
unfoldable pub draw_path : List ℕ → Option (ℕ × List ℕ)
draw_path [] = none
draw_path (r ∷ rands) = if r == 0 then draw_path rands else some (r, rands)

-- The bytes of a BlockPath, lowest first, and back.
abbrev pub path_bytes : ℕ → List ℕ
path_bytes p = p % 256 ∷ p / 256 % 256 ∷ p / 65536 % 256 ∷ p / 16777216 % 256 ∷ []

abbrev pub bytes_path : List ℕ → ℕ
bytes_path bs =
    get_or bs 0 0 + 256 * get_or bs 1 0 + 65536 * get_or bs 2 0 + 16777216 * get_or bs 3 0

-- `memcpy` out of and into the middle of a buffer.
abbrev pub slice : ℕ → ℕ → List ℕ → List ℕ
slice offset n bytes = take n (drop offset bytes)

abbrev pub splice : ℕ → List ℕ → List ℕ → List ℕ
splice offset src bytes = take offset bytes ++ src ++ drop (offset + length src) bytes

pub record Exchanged : Type 0 where
  pub fetched_block : List ℕ
  pub block : List ℕ

-- A write swaps the bytes of `block` with those at the offset; a read (`write_size` 0) copies the
-- fetched block out.
pub exchange : ℕ → ℕ → List ℕ → List ℕ → Exchanged
exchange write_size write_offset block fetched =
    if ltb 0 write_size
    then record {
      fetched_block = splice write_offset (take write_size block) fetched;
      block = slice write_offset write_size fetched ++ drop write_size block;
    }
    else record { fetched_block = fetched; block = fetched ++ drop (length fetched) block }

-- `memcpy` stays within the two buffers.
abbrev pub in_bounds : ℕ → ℕ → ℕ → List ℕ → Bool
in_bounds size write_size write_offset block =
    if ltb 0 write_size
    then (if leb (write_offset + write_size) size then leb write_size (length block) else false)
    else leb size (length block)

-- What the memory behind an object holds: the word behind a fresh `BlockPath`, and the register
-- that the swap leaves unset; and what lies where `client->path` points once its low half has been
-- overwritten.
pub record Behind : Type 0 where
  pub word : ℕ
  pub r14 : Quad
  pub elsewhere : List Node

-- `*block_path` after the position map was read and updated, and what that changed.
pub record Mapped : Type 0 where
  pub client : Client
  pub pos_map : List Oram
  pub rands : List ℕ
  pub old_path : ℕ

pub record TreeAccess : Type 0 where
  pub client : Client
  pub oram : Oram
  pub block : List ℕ

-- What an access leaves: the client, the ORAMs, the randomness still to come, the caller's block.
pub record Access : Type 0 where
  pub client : Client
  pub orams : List Oram
  pub rands : List ℕ
  pub block : List ℕ

-- The position map in the client: the new path for the old one.
pub map_in_client : Behind → List Oram → List ℕ → ℕ → ℕ → Client → Mapped
map_in_client behind pos_map rands ind new_path c =
    let word : Quad = record { lo = new_path; hi = behind.word } in
    let w = write_mm_in_client ind behind.r14 word behind.elsewhere c in
    record { client = w.client; pos_map = pos_map; rands = rands; old_path = w.block_path.lo }

-- The position map in the next ORAM, whose write gives the old bytes back in the buffer.
pub mapped_of : Access → Mapped
mapped_of a = record {
  client = a.client;
  pos_map = a.orams;
  rands = a.rands;
  old_path = bytes_path a.block;
}

-- `while (*block_path == 0) *block_path = GenerateMyRand();`
unfoldable pub draw_if_zero : ℕ → List ℕ → Option (ℕ × List ℕ)
unfolding draw_path
draw_if_zero old_path rands = if old_path == 0 then draw_path rands else some (old_path, rands)

-- What a constructor leaves: the enclave's client, if it has been initialised, and the ORAM with
-- those of its position maps.
pub record Built : Type 0 where
  pub client : Option Client
  pub orams : List Oram

-- The client is initialised only by the ORAM with the first id. `behind` are the words of the struct
-- behind `path_mm`.
abbrev pub client_of_first : ℕ → ℕ → ℕ → List ℕ → Option Client → Option (Option Client)
client_of_first my_oram_id capacity block_size behind client =
    if my_oram_id == 1
    then (init_client (compute_tree_height capacity) block_size behind >>= λ c. some (some c))
    else some client

module _ {size : ℕ} (cipher : Cipher size) where
  -- From the position map's answer on: fetch, exchange, put and flush.
  pub access_tree : Oram → ℕ → ℕ → ℕ → List ℕ → ℕ → ℕ → Client → Option TreeAccess
  access_tree o block_key new_path old_path block write_size write_offset c = do
    fetched ← mem_tree_fetch_path_oram cipher o.tree old_path block_key 0 c
    _ ← assert (in_bounds size write_size write_offset block)
    let ex = exchange write_size write_offset block fetched.fetched_block
    let b : Block = record { key = block_key; path = new_path; bytes = ex.fetched_block }
    put ← mem_tree_put_path_oram cipher o.tree b fetched.encrypted_content fetched.client
    let flushed = mem_tree_flush_path_oram cipher o.tree old_path put.client
    some (record {
      client = flushed.client;
      oram = record o { tree = flushed.tree };
      block = ex.block;
    })

  pub access_path_oram : Behind → List Oram → Client → List ℕ → ℕ → List ℕ → ℕ → ℕ → Option Access
  access_path_oram behind [] c rands ind block write_size write_offset = none
  access_path_oram behind (o ∷ pos_map) c rands ind block write_size write_offset = do
    _ ← assert (ltb ind o.capacity)
    (new_path, rands₁) ← draw_path rands
    let block_key = (ind + 1) % 2 ^ 32
    let num_paths_per_block = size / block_path_size
    let block_index = ind / num_paths_per_block
    let block_offset = ind % num_paths_per_block * block_path_size
    let recursive =
        access_path_oram behind pos_map c rands₁ block_index (path_bytes new_path) block_path_size
          block_offset
    mapped ← elim (leb o.capacity max_pos_map) [
      | true ↦ some (map_in_client behind pos_map rands₁ ind new_path c)
      | false ↦ recursive >>= λ a. some (mapped_of a)
    ]
    (old_path, rands₂) ← draw_if_zero mapped.old_path mapped.rands
    t ← access_tree o block_key new_path old_path block write_size write_offset mapped.client
    some (record {
      client = t.client;
      orams = t.oram ∷ mapped.pos_map;
      rands = rands₂;
      block = t.block;
    })

  -- `PathORAM::write`, on a block that is not null.
  pub write : Behind → List Oram → Client → List ℕ → ℕ → List ℕ → ℕ → ℕ → Option Access
  unfolding access_path_oram
  write behind orams c rands ind block write_size write_offset =
      access_path_oram behind orams c rands ind block write_size write_offset

  -- `PathORAM::read`. `fresh` is the buffer of `block_size_` bytes that it allocates; the parameter
  -- is assigned to, so only the callee sees that buffer, and the caller's own one is freed.
  pub read : Behind → List Oram → Client → List ℕ → ℕ → List ℕ → Option Access
  unfolding access_path_oram
  read behind orams c rands ind fresh = access_path_oram behind orams c rands ind fresh 0 0

  -- The constructor, with the id that the static counter gives: an ORAM for the position map of one
  -- that is above MAX_POS_MAP, and so on. `allocs l` are the addresses that `calloc` gives on level
  -- `l`. The fuel is one unit for each ORAM of the chain.
  unfoldable pub construct : ℕ → ℕ → (ℕ → ℕ → List ℕ) → Server → List ℕ → ℕ → Option Built
  construct zero my_oram_id allocs heap behind capacity = none
  construct (suc fuel) my_oram_id allocs heap behind capacity =
      let num_paths_per_block = size / block_path_size in
      let higher_capacity = (capacity + num_paths_per_block - 1) % 2 ^ 64 / num_paths_per_block in
      do
        pos_map ← elim (leb capacity max_pos_map) [
          | true ↦ some (record { client = none; orams = [] })
          | false ↦ do
            _ ← assert (size % block_path_size == 0 && ltb 1 num_paths_per_block)
            construct fuel (my_oram_id + 1) (λ l. allocs (l + 1)) heap behind higher_capacity
        ]
        client ← client_of_first my_oram_id capacity size behind pos_map.client
        tree ← initialize_mem_tree cipher (allocs 0) (compute_tree_height capacity) heap
        some (record {
          client = client;
          orams = record { capacity = capacity; tree = tree } ∷ pos_map.orams;
        })
