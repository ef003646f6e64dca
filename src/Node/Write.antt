-- ===== src/Node/Write.antt =====
-- `ObliviousNodeWrite`: the slots that it leaves, and when it refuses.
use intel_sgx_path_oram.Common.{
  ℕ, ◌+◌, ◌/◌, ◌%◌, ◌^◌, ◌<◌, ◌≡◌, ◌≢◌, refl, List, [], ◌∷◌, arith, ◌==◌, if◌then◌else◌,
  length_perm, length, All, Bool, true, false, Bool-cases, inl, inr, Perm, leb, ◌||◌, ◌∙◌,
}
use mathlib.Core.List.Perm
use intel_sgx_path_oram.Common.Bits.{ones, select_ones, select_zero}
use intel_sgx_path_oram.Oblivious.Copy.{ocopy_lem, ocopy_clear}
use intel_sgx_path_oram.Node.{
  Slot, Node, Block, blocks_per_node, put_slot, Wrote, write_loop, node_write,
}
use intel_sgx_path_oram.Node.Shape.{
  IsBlock, IsSlot, IsClean, block_of, blocks, IsNode, length-blocks-le,
}

-- A slot that holds `b` at the address `ptr`.
abbrev pub filled : ℕ → Block → Slot
filled ptr b = record {
  block_key = b.key;
  block_path = b.path;
  block_content = ptr;
  presence_bit = 1;
  stash = b.bytes;
}

pub put_slot-ones :
    (size ptr : ℕ) (b : Block) (s : Slot)
    → IsBlock size b
    → IsSlot size s
    → put_slot ones ptr b size s ≡ filled ptr b
unfolding put_slot
put_slot-ones size ptr b s hb hs =
    rw
      (
        select_ones b.key s.block_key hb.key_fits,
        select_ones b.path s.block_path hb.path_fits,
        ocopy_lem ones (size / 8) b.bytes s.stash hb.buffer.0 hb.buffer.1 hs.buffer.1,
        select_ones 1 s.presence_bit (omega arith),
      )
      refl

pub put_slot-zero :
    (size ptr : ℕ) (b : Block) (s : Slot) → IsSlot size s → put_slot 0 ptr b size s ≡ s
unfolding put_slot
put_slot-zero size ptr b s hs = ground (
  arith,
  select_zero b.key s.block_key hs.key_fits,
  select_zero b.path s.block_path hs.path_fits,
  select_zero 1 s.presence_bit (omega (arith, hs.bit)),
  ocopy_clear (size / 8) b.bytes s.stash,
  hs.bit,
)

-- The plain reading of the loop: the first empty slot takes the block and gives up its address.
unfoldable pub fill_first : ℕ → Block → List Slot → Wrote
fill_first ptr b [] = record { slots = []; ptr = ptr }
fill_first ptr b (s ∷ ss) =
    let rest = fill_first ptr b ss in
    if s.presence_bit == 0
    then record { slots = filled ptr b ∷ ss; ptr = s.block_content }
    else record { slots = s ∷ rest.slots; ptr = rest.ptr }

write_loop-ones :
    (size ptr : ℕ) (b : Block) (ss : List Slot)
    → All (IsSlot size) ss
    → write_loop ones ptr b size ss ≡ record { slots = ss; ptr = ptr }
unfolding write_loop
write_loop-ones size ptr b [] h = refl
write_loop-ones size ptr b (s ∷ ss) h = elim (Bool-cases (s.presence_bit == 0)) [
  | inl e ↦ rw (e, put_slot-zero size ptr b s h.0, write_loop-ones size ptr b ss h.1) refl
  | inr e ↦ rw (e, put_slot-zero size ptr b s h.0, write_loop-ones size ptr b ss h.1) refl
]

write_loop-zero :
    (size ptr : ℕ) (b : Block) (ss : List Slot)
    → IsBlock size b
    → All (IsSlot size) ss
    → write_loop 0 ptr b size ss ≡ fill_first ptr b ss
unfolding write_loop fill_first
write_loop-zero size ptr b [] hb h = refl
write_loop-zero size ptr b (s ∷ ss) hb h = elim (Bool-cases (s.presence_bit == 0)) [
  | inl e ↦
      rw (e, put_slot-ones size ptr b s hb h.0, write_loop-ones size s.block_content b ss h.1) refl
  | inr e ↦ rw (e, put_slot-zero size ptr b s h.0, write_loop-zero size ptr b ss hb h.1) refl
]

module _ (size ptr : ℕ) (b : Block) where
  pub length-fill_first : (ss : List Slot) → length (fill_first ptr b ss).slots ≡ length ss
  unfolding fill_first
  length-fill_first [] = refl
  length-fill_first (s ∷ ss) = ground (arith, length-fill_first ss)

  filled-IsSlot : IsBlock size b → b.key ≢ 0 → IsSlot size (filled ptr b)
  filled-IsSlot h ne = record {
    key_fits = h.key_fits;
    path_fits = h.path_fits;
    bit = omega arith;
    named = λ e. ne;
    buffer = h.buffer;
  }

  pub fill_first-IsSlot :
      (ss : List Slot)
      → IsBlock size b
      → b.key ≢ 0
      → All (IsSlot size) ss
      → All (IsSlot size) (fill_first ptr b ss).slots
  unfolding fill_first
  fill_first-IsSlot [] hb ne h = tt
  fill_first-IsSlot (s ∷ ss) hb ne h = elim (Bool-cases (s.presence_bit == 0)) [
    | inl e ↦ rw e (filled-IsSlot hb ne, h.1)
    | inr e ↦ rw e (h.0, fill_first-IsSlot ss hb ne h.1)
  ]

  pub fill_first-IsClean :
      (ss : List Slot) → All IsClean ss → All IsClean (fill_first ptr b ss).slots
  unfolding fill_first
  fill_first-IsClean [] h = tt
  fill_first-IsClean (s ∷ ss) h = elim (Bool-cases (s.presence_bit == 0)) [
    | inl e ↦ rw e (λ p. absurd (omega arith), h.1)
    | inr e ↦ rw e (h.0, fill_first-IsClean ss h.1)
  ]

  pub blocks-fill_first :
      (ss : List Slot)
      → length (blocks ss) < length ss
      → Perm (blocks (fill_first ptr b ss).slots) (b ∷ blocks ss)
  unfolding fill_first
  blocks-fill_first [] h = absurd (omega arith)
  blocks-fill_first (s ∷ ss) h = elim (Bool-cases (s.presence_bit == 0)) [
    | inl e ↦ rw e (Perm.refl (b ∷ blocks ss))
    | inr e ↦
        rw (e, e)
          (Perm.trans (Perm.cons (block_of s) (blocks-fill_first ss (ground arith)))
            (Perm.swap b (block_of s) (blocks ss)))
  ]

  pub fill_first_full :
      (ss : List Slot)
      → length (blocks ss) ≡ length ss
      → fill_first ptr b ss ≡ record { slots = ss; ptr = ptr }
  unfolding fill_first
  fill_first_full [] h = refl
  fill_first_full (s ∷ ss) h = elim (Bool-cases (s.presence_bit == 0)) [
    | inl e ↦ absurd (ground (arith, length-blocks-le ss))
    | inr e ↦ rw (e, fill_first_full ss (ground arith))
  ]

-- The test that `ObliviousNodeWrite` opens with.
abbrev pub refuses : Node → Block → Bool
refuses n b = b.key == 0 || leb blocks_per_node n.num_blocks

-- The branch-free write of key 0, or into a full node that is good, changes nothing and reports
-- failure.
pub node_write_refused :
    (size ptr : ℕ) (n : Node) (b : Block)
    → IsNode size n
    → refuses n b ≡ true
    → node_write n ptr b size ≡ record { node = n; ptr = ptr; succ = false }
unfolding node_write
node_write_refused size ptr n b h e =
    rw (e, write_loop-ones size ptr b n.slots h.good)
      (ground (arith, h.counted, h.four, length-blocks-le n.slots))

-- The block is added to a good node, which stays one.
pub record Added (size : ℕ) (n : Node) (b : Block) (n' : Node) : Type 0 where
  pub shape : IsNode size n'
  pub one_more : n'.num_blocks ≡ n.num_blocks + 1
  pub contents : Perm (blocks n'.slots) (b ∷ blocks n.slots)
  pub clean : All IsClean n.slots → All IsClean n'.slots

-- The branch-free write of a whole block into a good node with a free slot, where the key is not 0:
-- it reports success, adds exactly that block and one to the count, and keeps the node good.
pub node_write-Added :
    (size ptr : ℕ) (n : Node) (b : Block)
    → IsNode size n
    → IsBlock size b
    → refuses n b ≡ false
    → Added size n b (node_write n ptr b size).node × ((node_write n ptr b size).succ ≡ true)
unfolding node_write
node_write-Added size ptr n b h hb e =
    rw (e, write_loop-zero size ptr b n.slots hb h.good) (added_shape, refl)
  where
    room : length (blocks n.slots) < length n.slots
    room = ground (arith, e, h.counted, h.four)

    named : b.key ≢ 0
    named = ground (arith, e)

    contents : Perm (blocks (fill_first ptr b n.slots).slots) (b ∷ blocks n.slots)
    contents = blocks-fill_first size ptr b n.slots room

    added_shape : Added size n b (record {
      num_blocks = (n.num_blocks + 1) % 2 ^ 32;
      slots = (fill_first ptr b n.slots).slots;
    })
    added_shape = record {
      shape = record {
        four = length-fill_first size ptr b n.slots ∙ h.four;
        good = fill_first-IsSlot size ptr b n.slots hb named h.good;
        counted = omega (arith, length_perm contents, h.counted, h.four, room);
      };
      one_more = omega (arith, h.counted, h.four, room);
      contents = contents;
      clean = fill_first-IsClean size ptr b n.slots;
    }
