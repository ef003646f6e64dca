-- ===== src/Client/Shape.antt =====
-- What the client's state satisfies between the calls of one access.
use intel_sgx_path_oram.Common.{ℕ, ◌≤◌, ◌≡◌, arith, length, All}
use intel_sgx_path_oram.Node.{blocks_per_node}
use intel_sgx_path_oram.Node.Shape.{IsBuffer, IsNode}
use intel_sgx_path_oram.Client.{Client, client_max_path}
use intel_sgx_path_oram.Client.Stash.{stash_blocks, length-stash_blocks-le}

-- Twenty good nodes in the stash, `stash_load` their number of blocks, and whole buffers.
pub record IsClient (size : ℕ) (c : Client) : Type 0 where
  pub stash : All (IsNode size) c.path
  pub twenty : length c.path ≡ client_max_path
  pub loaded : c.stash_load ≡ length (stash_blocks c.path)
  pub buffers : All (IsBuffer size) c.temp_block_content
  pub four : length c.temp_block_content ≡ blocks_per_node
  pub rows : length c.encrypted_data_addr_in_path ≡ client_max_path
  pub dummy : IsBuffer size c.dummy_block

-- The stash has eighty slots.
abbrev pub stash_slots : ℕ
stash_slots = 80

pub IsClient-stash-le :
    (size : ℕ) (c : Client) → IsClient size c → length (stash_blocks c.path) ≤ stash_slots
IsClient-stash-le size c h = omega (arith, length-stash_blocks-le size c.path h.stash, h.twenty)
