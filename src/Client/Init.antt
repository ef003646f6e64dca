-- ===== src/Client/Init.antt =====
-- `ecall_init_client` and the invariant of the client.
use intel_sgx_path_oram.Common.{
  false, none, ltb, ℕ, zero, suc, ◌%◌, ◌≤◌, ◌<◌, ◌≡◌, refl, List, [], ◌++◌, arith, length,
  length-replicate, All, ◌∙◌, sym, some, replicate, lt→ltb, ap,
}
use intel_sgx_path_oram.Node.{Node, blocks_per_node}
use intel_sgx_path_oram.Node.Shape.{IsBuffer, IsNode, blocks}
use intel_sgx_path_oram.Client.{Client, client_max_path, max_pos_map, empty_node, init_client}
use intel_sgx_path_oram.Client.Stash.{stash_blocks}
use intel_sgx_path_oram.Client.Shape.{IsClient}
use intel_sgx_path_oram.Client.Upload.{empty_node-IsNode}

pub All-replicate {ℓ κ} :
    {A : Type ℓ} (P : A → Type κ) (n : ℕ) (a : A) → P a → All P (replicate n a)
All-replicate P zero a h = tt
All-replicate P (suc n) a h = (h, All-replicate P n a h)

pub stash_blocks-replicate :
    (n : ℕ) (node : Node) → blocks node.slots ≡ [] → stash_blocks (replicate n node) ≡ []
stash_blocks-replicate zero node h = refl
stash_blocks-replicate (suc n) node h = rw h (stash_blocks-replicate n node h)

pub zeros-IsBuffer : (size : ℕ) → 8 ≤ size → size % 8 ≡ 0 → IsBuffer size (replicate size 0)
zeros-IsBuffer size word whole = (omega arith, length-replicate size 0 ∙ omega arith)

-- The client after a successful initialisation: a good one, whose stash is empty and whose position
-- map is of zeros.
pub record IsInitial (size : ℕ) (behind : List ℕ) (c : Client) : Type 0 where
  pub client : IsClient size c
  pub empty : stash_blocks c.path ≡ []
  pub zeros : c.path_mm ≡ replicate max_pos_map 0 ++ behind

-- For a height below 20 and a block size that is a positive multiple of 8, initialisation gives a
-- good client, whose stash is empty and whose position map is all zeros.
pub init_client_lem :
    (height size : ℕ) (behind : List ℕ)
    → height < client_max_path
    → 8 ≤ size
    → size % 8 ≡ 0
    → (c : Client) × (init_client height size behind ≡ some c) × IsInitial size behind c
unfolding init_client
init_client_lem height size behind low word whole = (
  record {
    path_mm = replicate max_pos_map 0 ++ behind;
    path = replicate client_max_path (empty_node buffers);
    encrypted_data_addr_in_path = replicate client_max_path addrs;
    temp_block_content = buffers;
    client_heighest_height = height;
    stash_load = 0;
    dummy_block = replicate size 0;
  },
  rw (lt→ltb height client_max_path low) refl,
  record {
    client = record {
      stash = All-replicate (IsNode size) client_max_path (empty_node buffers) good_node;
      twenty = length-replicate client_max_path (empty_node buffers);
      loaded = ap length (sym no_blocks);
      buffers = whole_buffers;
      four = length-replicate blocks_per_node zero_block;
      rows = length-replicate client_max_path addrs;
      dummy = zeros-IsBuffer size word whole;
    };
    empty = no_blocks;
    zeros = refl;
  },
)
  where
    zero_block : List ℕ
    zero_block = replicate size 0

    addrs : List ℕ
    addrs = replicate blocks_per_node 0

    buffers : List (List ℕ)
    buffers = replicate blocks_per_node zero_block

    whole_buffers : All (IsBuffer size) buffers
    whole_buffers =
        All-replicate (IsBuffer size) blocks_per_node zero_block (zeros-IsBuffer size word whole)

    good_node : IsNode size (empty_node buffers)
    good_node =
        empty_node-IsNode size buffers whole_buffers (length-replicate blocks_per_node zero_block)

    no_blocks : stash_blocks (replicate client_max_path (empty_node buffers)) ≡ []
    no_blocks = stash_blocks-replicate client_max_path (empty_node buffers) refl

-- A height above the client's path fails the assertion.
pub init_client_refused :
    (height size : ℕ) (behind : List ℕ)
    → ltb height client_max_path ≡ false
    → init_client height size behind ≡ none
unfolding init_client
init_client_refused height size behind high = rw high refl
