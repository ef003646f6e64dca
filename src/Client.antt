-- ===== src/Client.antt =====
-- Enclave/Enclave_Client.cpp, the calls that PathORAM makes: `ecall_init_client`,
-- `ecall_read_mm_in_client`, `ecall_write_mm_in_client`,
-- `ecall_download_path_to_enclave_client_path_oram`, `ecall_oblivious_fetch`,
-- `ecall_oblivious_put_to_stash_path_oram` and `ecall_evict_path_outside_enclave_path_oram`.
-- `none` is a failed assertion, which aborts. `temp_node` is a local of each call, since every call
-- overwrites it before reading it. Messages are left out.
pub mod Stash
pub mod Fetch
pub mod Rows
pub mod FetchPut
pub mod Tree
pub mod Shape
pub mod DownloadEntries
pub mod Download
pub mod Upload
pub mod Path
pub mod EvictPath
pub mod WholePath
pub mod PosMap
pub mod Init
pub mod Meet
pub mod Placed
pub mod Split
pub mod Found
pub mod EvictSlots
pub mod Evict
use intel_sgx_path_oram.Common.{
  ℕ, zero, suc, ◌+◌, ◌-◌, ◌*◌, ◌/◌, ◌%◌, ◌^◌, List, [], ◌∷◌, Bool, true, false, ◌&&◌, ◌||◌, not,
  ◌==◌, ltb, if◌then◌else◌, bit_and, replicate, Option, none, some, map, set, get_or, ◌++◌,
}
use intel_sgx_path_oram.Common.Bits.{sub32}
use intel_sgx_path_oram.Oblivious.{Quad, Swapped, oblivious_pick_32, oblivious_pick_and_swap_32}
use intel_sgx_path_oram.Node.{
  Slot, Node, Block, blocks_per_node, node_write, node_read, node_transfer,
}
use intel_sgx_path_oram.Server.{Entry, MemTreeNode, Cipher, Server, update}

abbrev pub client_max_path : ℕ
client_max_path = 20

abbrev pub max_pos_map : ℕ
max_pos_map = 65536

-- `path_mm` is followed by the words behind it in the struct, which a 64-bit access at its last
-- entry reaches. The first two of them are the pointer `client->path`; the field `path` holds the
-- nodes that it points to.
pub record Client : Type 0 where
  pub path_mm : List ℕ
  pub path : List Node
  pub encrypted_data_addr_in_path : List (List ℕ)
  pub temp_block_content : List (List ℕ)
  pub client_heighest_height : ℕ
  pub stash_load : ℕ
  pub dummy_block : List ℕ

-- Abort, or go on.
infixl 5 ◌>>=◌
abbrev pub ◌>>=◌ {ℓ κ} : {A : Type ℓ} {B : Type κ} → Option A → (A → Option B) → Option B
none >>= f = none
some a >>= f = f a

abbrev pub assert : Bool → Option (Unit {0})
assert true = some tt
assert false = none

abbrev pub empty_slot : List ℕ → Slot
empty_slot bytes = record {
  block_key = 0;
  block_path = 0;
  block_content = 0;
  presence_bit = 0;
  stash = bytes;
}

-- A node of zeros over the given buffers.
abbrev pub empty_node : List (List ℕ) → Node
empty_node buffers = record { num_blocks = 0; slots = map empty_slot buffers }

-- `behind` are the words of the struct behind `path_mm`.
pub init_client : ℕ → ℕ → List ℕ → Option Client
init_client height block_size behind =
    let buffers = replicate blocks_per_node (replicate block_size 0) in
    if ltb height client_max_path
    then some (record {
      path_mm = replicate max_pos_map 0 ++ behind;
      path = replicate client_max_path (empty_node buffers);
      encrypted_data_addr_in_path = replicate client_max_path (replicate blocks_per_node 0);
      temp_block_content = buffers;
      client_heighest_height = height;
      stash_load = 0;
      dummy_block = replicate block_size 0;
    })
    else none

pub read_mm_in_client : ℕ → Quad → Client → Quad
read_mm_in_client ind block_path c = oblivious_pick_32 ind c.path_mm block_path max_pos_map

pub record WriteMm : Type 0 where
  pub client : Client
  pub block_path : Quad

-- The nodes that `client->path` points to after a 64-bit write at `ind`. At the last index that write
-- replaces the low half of the pointer, and `elsewhere` is what lies where it then points, which may
-- be anything; should the next access fault, nothing that follows is run.
abbrev pub path_after : ℕ → List Node → List Node → List Node
path_after ind elsewhere path = if ltb (ind + 1) max_pos_map then path else elsewhere

-- `block_path` is the word at the caller's pointer and the word behind it.
pub write_mm_in_client : ℕ → Quad → Quad → List Node → Client → WriteMm
write_mm_in_client ind r14 block_path elsewhere c =
    let swapped = oblivious_pick_and_swap_32 ind r14 c.path_mm block_path max_pos_map in
    record {
      client = record c { path_mm = swapped.src; path = path_after ind elsewhere c.path };
      block_path = swapped.dest;
    }

-- `addr * 2 + 1 + tree_path % 2`, on a uint32_t.
abbrev pub child : ℕ → ℕ → ℕ
child addr tree_path = (addr * 2 + 1 + tree_path % 2) % 2 ^ 32

pub record Stored : Type 0 where
  pub path : List Node
  pub ptr : ℕ
  pub succ : Bool

abbrev pub keyless : Block → Block
keyless b = record b { key = 0 }

-- The loop over the stash that takes in one downloaded block; later writes are fake.
pub store_loop : Bool → ℕ → Block → ℕ → List Node → Stored
store_loop succ ptr b block_size [] = record { path = []; ptr = ptr; succ = succ }
store_loop succ ptr b block_size (n ∷ ns) =
    let w = node_write n ptr (if succ then keyless b else b) block_size in
    let rest = store_loop (if succ then true else w.succ) w.ptr b block_size ns in
    record { path = w.node ∷ rest.path; ptr = rest.ptr; succ = rest.succ }

module _ {size : ℕ} (cipher : Cipher size) where
  open cipher use {encrypt_node, decrypt_node, encrypt_block, decrypt_block}

  -- One entry `i` of the decrypted node at level `h`.
  pub download_entry : Server → Entry → Client → Option Client
  download_entry server e c = do
    let bytes = decrypt_block (server.memory e.block_content)
    let b : Block = record { key = e.block_key; path = e.block_path; bytes = bytes }
    let stored = store_loop false e.block_content b size c.path
    let load = if e.block_key == 0 then c.stash_load else (c.stash_load + 1) % 2 ^ 32
    _ ← assert (e.block_key == 0 || stored.succ)
    some (record c {
      path = stored.path;
      temp_block_content = set c.temp_block_content 0 bytes;
      stash_load = load;
    })

  pub download_entries : Server → List Entry → Client → Option Client
  download_entries server [] c = some c
  download_entries server (e ∷ es) c = do
    c' ← download_entry server e c
    download_entries server es c'

  -- Level `h`: the addresses of the encrypted blocks are kept, and the blocks go to the stash.
  pub download_level : Server → ℕ → ℕ → Client → Option Client
  download_level server h addr c =
      let n = decrypt_node (server.nodes addr) in
      download_entries server n.entries (record c {
        encrypted_data_addr_in_path =
            set c.encrypted_data_addr_in_path h (map (λ e. e.block_content) n.entries);
      })

  pub download_loop : ℕ → ℕ → ℕ → ℕ → Server → Client → Option Client
  download_loop zero h addr tree_path server c = some c
  download_loop (suc left) h addr tree_path server c = do
    c' ← download_level server h addr c
    download_loop left (h + 1) (child addr tree_path) (tree_path / 2) server c'

  pub download_path : Server → ℕ → ℕ → Client → Option Client
  download_path server height block_path c = download_loop height 0 0 block_path server c

pub record FetchLoop : Type 0 where
  pub path : List Node
  pub fetched : List ℕ
  pub ptr : ℕ
  pub succ : Bool

-- `succ = succ || ObliviousNodeRead(…)` reads no further node once a block is found.
pub fetch_loop : Bool → ℕ → ℕ → List ℕ → ℕ → List Node → FetchLoop
fetch_loop succ key block_size fetched ptr [] = record {
  path = [];
  fetched = fetched;
  ptr = ptr;
  succ = succ;
}
fetch_loop true key block_size fetched ptr (n ∷ ns) =
    let rest = fetch_loop true key block_size fetched ptr ns in
    record { path = n ∷ rest.path; fetched = rest.fetched; ptr = rest.ptr; succ = rest.succ }
fetch_loop false key block_size fetched ptr (n ∷ ns) =
    let r = node_read n key block_size fetched ptr in
    let rest = fetch_loop r.succ key block_size r.fetched r.ptr ns in
    record { path = r.node ∷ rest.path; fetched = rest.fetched; ptr = rest.ptr; succ = rest.succ }

pub record Fetched : Type 0 where
  pub client : Client
  pub fetched_block : List ℕ
  pub encrypted_content : ℕ

pub oblivious_fetch : ℕ → ℕ → ℕ → Client → Fetched
oblivious_fetch block_size block_key encrypted_content c =
    let loop =
      fetch_loop false block_key block_size (replicate block_size 0) encrypted_content c.path in
    record {
      client = record c {
        path = loop.path;
        stash_load = if loop.succ then sub32 c.stash_load 1 else c.stash_load;
      };
      fetched_block = loop.fetched;
      encrypted_content = loop.ptr;
    }

pub put_loop : Bool → ℕ → Block → ℕ → List Node → Stored
put_loop succ ptr b block_size [] = record { path = []; ptr = ptr; succ = succ }
put_loop succ ptr b block_size (n ∷ ns) =
    let real = not succ && ltb n.num_blocks blocks_per_node in
    let w = node_write n ptr (if real then b else keyless b) block_size in
    let rest = put_loop (if real then w.succ else succ) w.ptr b block_size ns in
    record { path = w.node ∷ rest.path; ptr = rest.ptr; succ = rest.succ }

pub record Put : Type 0 where
  pub client : Client
  pub encrypted_content : ℕ
  pub root_load : ℕ

pub oblivious_put_to_stash : ℕ → Block → ℕ → Client → Option Put
oblivious_put_to_stash block_size b encrypted_content c = do
  let loop = put_loop false encrypted_content b block_size c.path
  let load = (c.stash_load + 1) % 2 ^ 32
  _ ← assert loop.succ
  some (record {
    client = record c { path = loop.path; stash_load = load };
    encrypted_content = loop.ptr;
    root_load = load;
  })

-- What the scan of the stash for one level carries.
pub record Gathered : Type 0 where
  pub temp : Node
  pub stash_load : ℕ

-- The three tests of `sign`.
abbrev pub goes : ℕ → ℕ → Slot → Node → Bool
goes path_mask tree_path s temp =
    bit_and s.block_path path_mask == bit_and tree_path path_mask
    && ltb temp.num_blocks blocks_per_node
    && ltb 0 s.presence_bit

abbrev pub slot_block : Slot → Block
slot_block s = record { key = s.block_key; path = s.block_path; bytes = s.stash }

pub record GatherSlots : Type 0 where
  pub node : Node
  pub state : Gathered

pub gather_slots : ℕ → ℕ → ℕ → ℕ → List Slot → Gathered → GatherSlots
gather_slots path_mask tree_path block_size num [] g = record {
  node = record { num_blocks = num; slots = [] };
  state = g;
}
gather_slots path_mask tree_path block_size num (s ∷ ss) g =
    let sign = goes path_mask tree_path s g.temp in
    let temp = node_transfer g.temp s.block_content (slot_block s) sign block_size in
    let s' = if sign then record s { presence_bit = 0 } else s in
    let num' = if sign then sub32 num 1 else num in
    let load = if sign then sub32 g.stash_load 1 else g.stash_load in
    let rest =
      gather_slots path_mask tree_path block_size num' ss
        (record { temp = temp; stash_load = load }) in
    record {
      node = record { num_blocks = rest.node.num_blocks; slots = s' ∷ rest.node.slots };
      state = rest.state;
    }

pub record GatherNodes : Type 0 where
  pub path : List Node
  pub state : Gathered

pub gather_nodes : ℕ → ℕ → ℕ → List Node → Gathered → GatherNodes
gather_nodes path_mask tree_path block_size [] g = record { path = []; state = g }
gather_nodes path_mask tree_path block_size (n ∷ ns) g =
    let here = gather_slots path_mask tree_path block_size n.num_blocks n.slots g in
    let rest = gather_nodes path_mask tree_path block_size ns here.state in
    record { path = here.node ∷ rest.path; state = rest.state }

-- `block_contents[i] = encrypted_data_addr_in_path[h][i]`.
pub restore : List ℕ → List Slot → List Slot
restore [] ss = ss
restore (a ∷ addrs) [] = []
restore (a ∷ addrs) (s ∷ ss) = record s { block_content = a } ∷ restore addrs ss

-- The part of a node in the client that is encrypted as a `MemTreeNode`.
abbrev pub entry_of : Slot → Entry
entry_of s = record {
  block_key = s.block_key;
  block_path = s.block_path;
  block_content = s.block_content;
  presence_bit = s.presence_bit;
}

abbrev pub tree_node_of : Node → MemTreeNode
tree_node_of n = record { num_blocks = n.num_blocks; entries = map entry_of n.slots }

pub record World : Type 0 where
  pub client : Client
  pub server : Server

module _ {size : ℕ} (cipher : Cipher size) where
  open cipher use {encrypt_node, encrypt_block}

  -- Each block of the node is encrypted to its address; an empty slot writes the dummy block.
  pub upload_blocks : List ℕ → List Slot → Server → Server
  upload_blocks dummy [] server = server
  upload_blocks dummy (s ∷ ss) server =
      let bytes = if s.presence_bit == 0 then dummy else s.stash in
      upload_blocks dummy ss (record server {
        memory = update server.memory s.block_content (encrypt_block server.draws bytes);
        draws = server.draws + 1;
      })

  pub upload_node : List ℕ → ℕ → Node → Server → Server
  unfolding upload_blocks
  upload_node dummy addr n server = upload_blocks dummy n.slots (record server {
    nodes = update server.nodes addr (encrypt_node server.draws (tree_node_of n));
    draws = server.draws + 1;
  })

  -- One round of the loop over the levels, at level `h` and node `addr`.
  pub evict_level : ℕ → ℕ → ℕ → World → World
  evict_level tree_path h addr w =
      let c = w.client in
      let start : Gathered = record {
        temp = empty_node c.temp_block_content;
        stash_load = c.stash_load;
      } in
      let scan = gather_nodes (2 ^ h - 1) tree_path size c.path start in
      let gathered = scan.state.temp in
      let temp = record gathered {
        slots = restore (get_or c.encrypted_data_addr_in_path h []) gathered.slots;
      } in
      record {
        client = record c {
          path = scan.path;
          stash_load = scan.state.stash_load;
          temp_block_content = map (λ s. s.stash) temp.slots;
        };
        server = upload_node c.dummy_block addr temp w.server;
      }

  -- `addr[h]`, and the levels from `height - 1` down to 0. The node of level `h` is reached before
  -- the levels below it are done, so the recursion runs down first.
  pub evict_loop : ℕ → ℕ → ℕ → ℕ → ℕ → World → World
  evict_loop zero h addr rest_path tree_path w = w
  evict_loop (suc left) h addr rest_path tree_path w =
      evict_level tree_path h addr
        (evict_loop left (h + 1) (child addr rest_path) (rest_path / 2) tree_path w)

  pub evict_path : ℕ → ℕ → World → World
  evict_path height block_path w = evict_loop height 0 0 block_path block_path w
