-- ===== src/Node/Shape.antt =====
-- What a slot, a node and a block satisfy, and the blocks that a node holds.
use intel_sgx_path_oram.Common.{
  ℕ, ◌*◌, ◌/◌, ◌^◌, ◌≤◌, ◌<◌, ◌≡◌, ◌≢◌, List, [], ◌∷◌, arith, ◌==◌, if◌then◌else◌, length, All,
  Bool-cases, inl, inr, ==→ne, map,
}
use intel_sgx_path_oram.Node.{Slot, Node, Block, blocks_per_node}

-- A buffer of `size` bytes that `ocopy` moves whole: at least one 64-bit word, and no bytes over.
abbrev pub IsBuffer : ℕ → List ℕ → Type 0
IsBuffer size bytes = (1 ≤ size / 8) × (length bytes ≡ 8 * (size / 8))

pub record IsBlock (size : ℕ) (b : Block) : Type 0 where
  pub key_fits : b.key < 2 ^ 32
  pub path_fits : b.path < 2 ^ 32
  pub buffer : IsBuffer size b.bytes

pub record IsSlot (size : ℕ) (s : Slot) : Type 0 where
  pub key_fits : s.block_key < 2 ^ 32
  pub path_fits : s.block_path < 2 ^ 32
  pub bit : s.presence_bit ≤ 1
  pub named : s.presence_bit ≡ 1 → s.block_key ≢ 0
  pub buffer : IsBuffer size s.stash

-- An empty slot has no key.
abbrev pub IsClean : Slot → Type 0
IsClean s = s.presence_bit ≡ 0 → s.block_key ≡ 0

abbrev pub block_of : Slot → Block
block_of s = record { key = s.block_key; path = s.block_path; bytes = s.stash }

-- The blocks in the slots whose presence bit is set, in order.
abbrev pub blocks : List Slot → List Block
blocks [] = []
blocks (s ∷ ss) = if s.presence_bit == 0 then blocks ss else block_of s ∷ blocks ss

-- The addresses of the slots' encrypted blocks.
abbrev pub addrs_of : List Slot → List ℕ
addrs_of = map (λ s. s.block_content)

-- Four good slots, and a count of blocks that is the number of those present.
pub record IsNode (size : ℕ) (n : Node) : Type 0 where
  pub four : length n.slots ≡ blocks_per_node
  pub good : All (IsSlot size) n.slots
  pub counted : n.num_blocks ≡ length (blocks n.slots)

pub length-blocks-le : (ss : List Slot) → length (blocks ss) ≤ length ss
length-blocks-le [] = omega arith
length-blocks-le (s ∷ ss) = ground (arith, length-blocks-le ss)

-- A block that a slot can hold: it has a key.
pub record IsKeyed (size : ℕ) (b : Block) : Type 0 where
  pub block : IsBlock size b
  pub open block use *
  pub named : b.key ≢ 0

block_of-IsKeyed :
    (size : ℕ) (s : Slot) → IsSlot size s → s.presence_bit ≢ 0 → IsKeyed size (block_of s)
block_of-IsKeyed size s h present = record {
  block = record { key_fits = h.key_fits; path_fits = h.path_fits; buffer = h.buffer };
  named = h.named (omega (arith, h.bit));
}

pub blocks-IsKeyed :
    (size : ℕ) (ss : List Slot) → All (IsSlot size) ss → All (IsKeyed size) (blocks ss)
blocks-IsKeyed size [] h = tt
blocks-IsKeyed size (s ∷ ss) h = elim (Bool-cases (s.presence_bit == 0)) [
  | inl e ↦ rw e (blocks-IsKeyed size ss h.1)
  | inr e ↦ rw e (block_of-IsKeyed size s h.0 (==→ne _ 0 e), blocks-IsKeyed size ss h.1)
]
