-- ===== src/Node/Transfer.antt =====
-- `ObliviousNodeTransfer`: the slots that it leaves.
use intel_sgx_path_oram.Common.{
  ℕ, ◌+◌, ◌%◌, ◌^◌, ◌<◌, ◌≡◌, ◌≢◌, refl, List, [], ◌∷◌, arith, ◌==◌, length, length_perm, All, true,
  false, Bool-cases, inl, inr, Perm, ◌∙◌,
}
use intel_sgx_path_oram.Common.Bits.{ones}
use intel_sgx_path_oram.Node.{Slot, Node, Block, blocks_per_node, transfer_loop, node_transfer}
use intel_sgx_path_oram.Node.Shape.{IsBlock, IsSlot, blocks, IsNode, length-blocks-le}
use intel_sgx_path_oram.Node.Write.{
  put_slot-ones, put_slot-zero, fill_first, length-fill_first, fill_first-IsSlot,
  fill_first-IsClean, blocks-fill_first, Added,
}

transfer_loop-ones :
    (size num ptr : ℕ) (b : Block) (ss : List Slot)
    → num < 2 ^ 32
    → All (IsSlot size) ss
    → transfer_loop ones num ptr b size ss ≡ record { num_blocks = num; slots = ss }
unfolding transfer_loop
transfer_loop-ones size num ptr b [] hn h = refl
transfer_loop-ones size num ptr b (s ∷ ss) hn h = elim (Bool-cases (s.presence_bit == 0)) [
  | inl e ↦
      rw (e, put_slot-zero size ptr b s h.0, same, transfer_loop-ones size num ptr b ss hn h.1)
  | inr e ↦
      rw (e, put_slot-zero size ptr b s h.0, same, transfer_loop-ones size num ptr b ss hn h.1)
]
  where
    same : (num + 0) % 2 ^ 32 ≡ num
    same = omega arith

transfer_loop-zero :
    (size num ptr : ℕ) (b : Block) (ss : List Slot)
    → num + 1 < 2 ^ 32
    → length (blocks ss) < length ss
    → IsBlock size b
    → All (IsSlot size) ss
    → transfer_loop 0 num ptr b size ss
      ≡ record { num_blocks = num + 1; slots = (fill_first ptr b ss).slots }
unfolding transfer_loop fill_first
transfer_loop-zero size num ptr b [] hn room hb h = absurd (omega arith)
transfer_loop-zero size num ptr b (s ∷ ss) hn room hb h = elim (Bool-cases (s.presence_bit == 0)) [
  | inl e ↦ rw (
    e,
    put_slot-ones size ptr b s hb h.0,
    more,
    transfer_loop-ones size (num + 1) ptr b ss hn h.1,
  )
  | inr e ↦ rw (
    e,
    put_slot-zero size ptr b s h.0,
    same,
    transfer_loop-zero size num ptr b ss hn (ground arith) hb h.1,
  )
]
  where
    same : (num + 0) % 2 ^ 32 ≡ num
    same = omega arith

    more : (num + 1) % 2 ^ 32 ≡ num + 1
    more = omega arith

-- With its sign clear, `ObliviousNodeTransfer` changes nothing.
pub node_transfer_clear :
    (size ptr : ℕ) (n : Node) (b : Block) → IsNode size n → node_transfer n ptr b false size ≡ n
unfolding node_transfer
node_transfer_clear size ptr n b h =
    transfer_loop-ones size n.num_blocks ptr b n.slots
      (omega (arith, h.counted, h.four, length-blocks-le n.slots)) h.good

-- The branch-free transfer of a whole block with its sign set, where the key is not 0, into a good
-- node with a free slot adds exactly that block and one to the count, and keeps the node good.
pub node_transfer-Added :
    (size ptr : ℕ) (n : Node) (b : Block)
    → IsNode size n
    → IsBlock size b
    → b.key ≢ 0
    → n.num_blocks < blocks_per_node
    → Added size n b (node_transfer n ptr b true size)
unfolding node_transfer
node_transfer-Added size ptr n b h hb named free =
    rw (transfer_loop-zero size n.num_blocks ptr b n.slots (omega arith) room hb h.good) record {
      shape = record {
        four = length-fill_first size ptr b n.slots ∙ h.four;
        good = fill_first-IsSlot size ptr b n.slots hb named h.good;
        counted = omega (arith, length_perm contents, h.counted);
      };
      one_more = refl;
      contents = contents;
      clean = fill_first-IsClean size ptr b n.slots;
    }
  where
    room : length (blocks n.slots) < length n.slots
    room = omega (arith, h.counted, h.four)

    contents : Perm (blocks (fill_first ptr b n.slots).slots) (b ∷ blocks n.slots)
    contents = blocks-fill_first size ptr b n.slots room
