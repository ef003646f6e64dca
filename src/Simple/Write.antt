-- ===== src/Simple/Write.antt =====
-- `ObliviousNodeWrite` as built without PATH_ORAM: the slots that it leaves, and when it refuses.
use intel_sgx_path_oram.Common.{
  ℕ, ◌+◌, ◌<◌, ◌≡◌, ◌≢◌, refl, List, [], ◌∷◌, arith, ◌==◌, if◌then◌else◌, length_perm, length, All,
  true, false, Bool-cases, inl, inr, Perm, ◌∙◌, ap,
}
use mathlib.Core.List.Perm
use intel_sgx_path_oram.Common.Bits.{ones}
use intel_sgx_path_oram.Node.{Slot, Node, Block}
use intel_sgx_path_oram.Node.Shape.{
  IsBlock, IsSlot, block_of, blocks, IsNode, length-blocks-le, addrs_of,
}
use intel_sgx_path_oram.Node.Write.{filled, put_slot-ones, put_slot-zero, refuses}
use intel_sgx_path_oram.Simple.{PlainWrite, plain_write_loop, plain_node_write}

-- The plain reading of the loop.
unfoldable pub fill : Block → List Slot → List Slot
fill b [] = []
fill b (s ∷ ss) =
    let rest = fill b ss in if s.presence_bit == 0 then filled s.block_content b ∷ ss else s ∷ rest

plain_write_loop-ones :
    (size : ℕ) (b : Block) (ss : List Slot)
    → All (IsSlot size) ss
    → plain_write_loop ones b size ss ≡ ss
unfolding plain_write_loop
plain_write_loop-ones size b [] h = refl
plain_write_loop-ones size b (s ∷ ss) h = elim (Bool-cases (s.presence_bit == 0)) [
  | inl e ↦ rw (e, put_slot-zero size s.block_content b s h.0, plain_write_loop-ones size b ss h.1)
  | inr e ↦ rw (e, put_slot-zero size s.block_content b s h.0, plain_write_loop-ones size b ss h.1)
]

plain_write_loop-zero :
    (size : ℕ) (b : Block) (ss : List Slot)
    → IsBlock size b
    → All (IsSlot size) ss
    → plain_write_loop 0 b size ss ≡ fill b ss
unfolding plain_write_loop fill
plain_write_loop-zero size b [] hb h = refl
plain_write_loop-zero size b (s ∷ ss) hb h = elim (Bool-cases (s.presence_bit == 0)) [
  | inl e ↦
      rw (e, put_slot-ones size s.block_content b s hb h.0, plain_write_loop-ones size b ss h.1)
  | inr e ↦
      rw (e, put_slot-zero size s.block_content b s h.0, plain_write_loop-zero size b ss hb h.1)
]

module _ (size : ℕ) (b : Block) where
  length-fill : (ss : List Slot) → length (fill b ss) ≡ length ss
  unfolding fill
  length-fill [] = refl
  length-fill (s ∷ ss) = ground (arith, length-fill ss)

  addrs_of-fill : (ss : List Slot) → addrs_of (fill b ss) ≡ addrs_of ss
  unfolding fill
  addrs_of-fill [] = refl
  addrs_of-fill (s ∷ ss) = elim (Bool-cases (s.presence_bit == 0)) [
    | inl e ↦ rw e refl
    | inr e ↦ rw e (ap (◌∷◌ s.block_content) (addrs_of-fill ss))
  ]

  filled-IsSlot : (ptr : ℕ) → IsBlock size b → b.key ≢ 0 → IsSlot size (filled ptr b)
  filled-IsSlot ptr h ne = record {
    key_fits = h.key_fits;
    path_fits = h.path_fits;
    bit = omega arith;
    named = λ e. ne;
    buffer = h.buffer;
  }

  fill-IsSlot :
      (ss : List Slot)
      → IsBlock size b
      → b.key ≢ 0
      → All (IsSlot size) ss
      → All (IsSlot size) (fill b ss)
  unfolding fill
  fill-IsSlot [] hb ne h = tt
  fill-IsSlot (s ∷ ss) hb ne h = elim (Bool-cases (s.presence_bit == 0)) [
    | inl e ↦ rw e (filled-IsSlot s.block_content hb ne, h.1)
    | inr e ↦ rw e (h.0, fill-IsSlot ss hb ne h.1)
  ]

  blocks-fill :
      (ss : List Slot) → length (blocks ss) < length ss → Perm (blocks (fill b ss)) (b ∷ blocks ss)
  unfolding fill
  blocks-fill [] h = absurd (omega arith)
  blocks-fill (s ∷ ss) h = elim (Bool-cases (s.presence_bit == 0)) [
    | inl e ↦ rw e (Perm.refl (b ∷ blocks ss))
    | inr e ↦
        rw (e, e)
          (Perm.trans (Perm.cons (block_of s) (blocks-fill ss (ground arith)))
            (Perm.swap b (block_of s) (blocks ss)))
  ]

-- The write of key 0, or into a full node that is good, changes nothing and reports failure.
pub plain_node_write_refused :
    (size : ℕ) (n : Node) (b : Block)
    → IsNode size n
    → refuses n b ≡ true
    → plain_node_write n b size ≡ record { node = n; succ = false }
unfolding plain_node_write
plain_node_write_refused size n b h e =
    rw (e, plain_write_loop-ones size b n.slots h.good)
      (ground (arith, h.counted, h.four, length-blocks-le n.slots))

-- The block is added to a good node, which stays one and keeps the addresses of its blocks.
pub record PlainAdded (size : ℕ) (n : Node) (b : Block) (w : PlainWrite) : Type 0 where
  pub shape : IsNode size w.node
  pub one_more : w.node.num_blocks ≡ n.num_blocks + 1
  pub contents : Perm (blocks w.node.slots) (b ∷ blocks n.slots)
  pub same_addrs : addrs_of w.node.slots ≡ addrs_of n.slots
  pub stored : w.succ ≡ true

-- The write of a whole block into a good node with a free slot, where the key is not 0.
pub plain_node_write-Added :
    (size : ℕ) (n : Node) (b : Block)
    → IsNode size n
    → IsBlock size b
    → refuses n b ≡ false
    → PlainAdded size n b (plain_node_write n b size)
unfolding plain_node_write
plain_node_write-Added size n b h hb e =
    rw (e, plain_write_loop-zero size b n.slots hb h.good)
      record {
        shape = record {
          four = length-fill size b n.slots ∙ h.four;
          good = fill-IsSlot size b n.slots hb named h.good;
          counted = omega (arith, length_perm contents, h.counted, h.four, room);
        };
        one_more = omega (arith, h.counted, h.four, room);
        contents = contents;
        same_addrs = addrs_of-fill size b n.slots;
        stored = refl;
      }
  where
    room : length (blocks n.slots) < length n.slots
    room = ground (arith, e, h.counted, h.four)

    named : b.key ≢ 0
    named = ground (arith, e)

    contents : Perm (blocks (fill b n.slots)) (b ∷ blocks n.slots)
    contents = blocks-fill size b n.slots room
