-- ===== src/Server.antt =====
-- What the enclave's client exchanges with the untrusted memory: Include/Conf.h, `MemTreeNode` and
-- `EncMemTreeNode`, the heap buffers that the encrypted blocks lie in, and the encryption that
-- Enclave/Enclave.cpp offers, as an interface.
use intel_sgx_path_oram.Common.{
  ℕ, ◌+◌, ◌^◌, ◌≤◌, ◌<◌, ◌≡◌, ◌≢◌, List, [], ◌∷◌, All, ◌==◌, if◌then◌else◌, length, arith,
}
use intel_sgx_path_oram.Encryption.{mac_size, iv_size, enc_buf_len}
use intel_sgx_path_oram.Node.{blocks_per_node}
use intel_sgx_path_oram.Node.Shape.{IsBuffer}

-- The entry of each array of a `MemTreeNode` at one index.
pub record Entry : Type 0 where
  pub block_key : ℕ
  pub block_path : ℕ
  pub block_content : ℕ
  pub presence_bit : ℕ

pub record MemTreeNode : Type 0 where
  pub num_blocks : ℕ
  pub entries : List Entry

pub record IsEntry (e : Entry) : Type 0 where
  pub key_fits : e.block_key < 2 ^ 32
  pub path_fits : e.block_path < 2 ^ 32
  pub bit : e.presence_bit ≤ 1
  pub absent : e.presence_bit ≡ 0 → e.block_key ≡ 0
  pub named : e.presence_bit ≡ 1 → e.block_key ≢ 0

-- A tree node as eviction and initialisation write it: the key of an empty slot is 0.
pub record IsTreeNode (n : MemTreeNode) : Type 0 where
  pub four : length n.entries ≡ blocks_per_node
  pub count_fits : n.num_blocks ≤ blocks_per_node
  pub good : All IsEntry n.entries

-- A tree node whose numbers fit into the fields of a `MemTreeNode`.
pub record FitsEntry (e : Entry) : Type 0 where
  pub key_fits : e.block_key < 2 ^ 32
  pub path_fits : e.block_path < 2 ^ 32
  pub bit_fits : e.presence_bit < 2 ^ 8

pub record FitsNode (n : MemTreeNode) : Type 0 where
  pub four : length n.entries ≡ blocks_per_node
  pub count_fits : n.num_blocks < 2 ^ 32
  pub fits : All FitsEntry n.entries

IsEntry-FitsEntry : (es : List Entry) → All IsEntry es → All FitsEntry es
IsEntry-FitsEntry [] h = tt
IsEntry-FitsEntry (e ∷ es) h = (
  record { key_fits = h.0.key_fits; path_fits = h.0.path_fits; bit_fits = omega (arith, h.0.bit) },
  IsEntry-FitsEntry es h.1,
)

pub IsTreeNode-FitsNode : (n : MemTreeNode) → IsTreeNode n → FitsNode n
IsTreeNode-FitsNode n h = record {
  four = h.four;
  count_fits = omega (arith, h.count_fits);
  fits = IsEntry-FitsEntry n.entries h.good;
}

-- `encryptData` and `decryptData` for nodes and for blocks of `size` bytes. The first argument of
-- an encryption is the number of the random draw that its IV comes from. The laws are what
-- Enclave.cpp gets from AES-GCM: what was encrypted decrypts to itself; and a
-- decryption always gives a whole buffer. A block with its tag and IV fits into the local buffer that
-- `encryptData` goes through.
pub record Cipher (size : ℕ) : Type 0 where
  pub size_fits : size + mac_size + iv_size ≤ enc_buf_len
  pub encrypt_node : ℕ → MemTreeNode → List ℕ
  pub decrypt_node : List ℕ → MemTreeNode
  pub encrypt_block : ℕ → List ℕ → List ℕ
  pub decrypt_block : List ℕ → List ℕ
  pub decrypt_block-IsBuffer : (e : List ℕ) → IsBuffer size (decrypt_block e)
  pub decrypt-encrypt_node :
      (r : ℕ) (n : MemTreeNode) → FitsNode n → decrypt_node (encrypt_node r n) ≡ n
  pub decrypt-encrypt_block :
      (r : ℕ) (b : List ℕ) → IsBuffer size b → decrypt_block (encrypt_block r b) ≡ b

-- The array of encrypted nodes by index, the encrypted blocks by address, and how many times
-- `sgx_read_rand` has been called.
pub record Server : Type 0 where
  pub nodes : ℕ → List ℕ
  pub memory : ℕ → List ℕ
  pub draws : ℕ

abbrev pub update {ℓ} : {A : Type ℓ} → (ℕ → A) → ℕ → A → ℕ → A
update f i v j = if i == j then v else f j
