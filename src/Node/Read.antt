-- ===== src/Node/Read.antt =====
-- `ObliviousNodeRead`: the slots that it leaves, and the bytes that it reads.
use intel_sgx_path_oram.Common.{
  ℕ, suc, ◌+◌, ◌-◌, ◌/◌, ◌^◌, ◌≤◌, ◌<◌, ◌≡◌, refl, List, [], ◌∷◌, arith, if◌then◌else◌, length, All,
  Bool, true, false, ltb, ◌||◌, ◌∙◌, ap, to_int,
}
use intel_sgx_path_oram.Common.Bits.{bit_and-one, bit_and-zero}
use intel_sgx_path_oram.Oblivious.Copy.{ocopy_lem}
use intel_sgx_path_oram.Node.{
  Slot, Node, Reading, matches, clear_slot, read_slot, read_loop, node_read, NodeRead,
}
use intel_sgx_path_oram.Node.Shape.{IsBuffer, IsSlot, blocks, IsNode, length-blocks-le, addrs_of}
use intel_sgx_path_oram.Node.Keys.{count_key, last_match, erase_key, length-erase_key}

clear_slot-false : (size : ℕ) (s : Slot) → IsSlot size s → clear_slot false s ≡ s
unfolding clear_slot
clear_slot-false size s h =
    ground (arith, bit_and-zero s.block_key, bit_and-zero s.presence_bit, h.key_fits, h.bit)

pub clear_slot-IsSlot :
    (size : ℕ) (sign : Bool) (s : Slot) → IsSlot size s → IsSlot size (clear_slot sign s)
clear_slot-IsSlot size false s h = rw (clear_slot-false size s h) h
clear_slot-IsSlot size true s h =
    unfold clear_slot in
    record {
      key_fits = omega arith;
      path_fits = h.path_fits;
      bit = omega (arith, bit_and-one s.presence_bit, h.bit);
      named = λ e. absurd (omega (arith, bit_and-one s.presence_bit, h.bit));
      buffer = h.buffer;
    }

-- One slot's share of the blocks, once the scan has passed it.
blocks-clear_slot :
    (size k : ℕ) (s : Slot) (ss ss' : List Slot)
    → IsSlot size s
    → blocks ss' ≡ erase_key k (blocks ss)
    → blocks (clear_slot (matches k s) s ∷ ss') ≡ erase_key k (blocks (s ∷ ss))
unfolding clear_slot
blocks-clear_slot size k s ss ss' h ih = ground (
  arith,
  bit_and-zero s.presence_bit,
  bit_and-one s.presence_bit,
  bit_and-zero s.block_key,
  h.bit,
  h.key_fits,
  ih,
)

fetched-read_slot :
    (size : ℕ) (sign : Bool) (s : Slot) (r : Reading)
    → IsSlot size s
    → IsBuffer size r.fetched
    → (read_slot sign size s r).fetched ≡ (if sign then s.stash else r.fetched)
unfolding read_slot
fetched-read_slot size sign s r h hr =
    ocopy_lem (to_int sign) (size / 8) s.stash r.fetched hr.0 h.buffer.1 hr.1 ∙ ground arith

num_blocks-read_slot :
    (size : ℕ) (sign : Bool) (s : Slot) (r : Reading)
    → r.num_blocks < 2 ^ 32
    → to_int sign ≤ r.num_blocks
    → (read_slot sign size s r).num_blocks ≡ r.num_blocks - to_int sign
unfolding read_slot
num_blocks-read_slot size false s r fits h = omega arith
num_blocks-read_slot size true s r fits h = omega arith

module _ (size k : ℕ) where
  pub blocks-read_loop :
      (ss : List Slot) (r : Reading)
      → All (IsSlot size) ss
      → blocks (read_loop k size ss r).slots ≡ erase_key k (blocks ss)
  unfolding read_loop
  blocks-read_loop [] r h = refl
  blocks-read_loop (s ∷ ss) r h =
      blocks-clear_slot size k s ss (read_loop k size ss (read_slot (matches k s) size s r)).slots
        h.0 (blocks-read_loop ss (read_slot (matches k s) size s r) h.1)

  pub read_loop-IsSlot :
      (ss : List Slot) (r : Reading)
      → All (IsSlot size) ss
      → All (IsSlot size) (read_loop k size ss r).slots
  unfolding read_loop
  read_loop-IsSlot [] r h = tt
  read_loop-IsSlot (s ∷ ss) r h = (
    clear_slot-IsSlot size (matches k s) s h.0,
    read_loop-IsSlot ss (read_slot (matches k s) size s r) h.1,
  )

  pub length-read_loop :
      (ss : List Slot) (r : Reading) → length (read_loop k size ss r).slots ≡ length ss
  unfolding read_loop
  length-read_loop [] r = refl
  length-read_loop (s ∷ ss) r = ap suc (length-read_loop ss (read_slot (matches k s) size s r))

  pub fetched-read_loop :
      (ss : List Slot) (r : Reading)
      → All (IsSlot size) ss
      → IsBuffer size r.fetched
      → (read_loop k size ss r).state.fetched ≡ last_match k r.fetched (blocks ss)
  unfolding read_loop
  fetched-read_loop [] r h hr = refl
  fetched-read_loop (s ∷ ss) r h hr =
      fetched-read_loop ss (read_slot (matches k s) size s r) h.1
        (ground (arith, taken, h.0.buffer, hr))
      ∙ ground (arith, taken)
    where
      taken :
          (read_slot (matches k s) size s r).fetched ≡ (if matches k s then s.stash else r.fetched)
      taken = fetched-read_slot size (matches k s) s r h.0 hr

  pub succ-read_loop :
      (ss : List Slot) (r : Reading)
      → (read_loop k size ss r).state.succ ≡ (r.succ || ltb 0 (count_key k (blocks ss)))
  unfolding read_loop read_slot
  succ-read_loop [] r = ground arith
  succ-read_loop (s ∷ ss) r = succ-read_loop ss (read_slot (matches k s) size s r) ∙ ground arith

  pub num_blocks-read_loop :
      (ss : List Slot) (r : Reading)
      → r.num_blocks < 2 ^ 32
      → count_key k (blocks ss) ≤ r.num_blocks
      → (read_loop k size ss r).state.num_blocks ≡ r.num_blocks - count_key k (blocks ss)
  unfolding read_loop
  num_blocks-read_loop [] r fits h = omega arith
  num_blocks-read_loop (s ∷ ss) r fits h =
      num_blocks-read_loop ss (read_slot (matches k s) size s r) (ground (arith, less))
        (ground (arith, less))
      ∙ ground (arith, less)
    where
      less : (read_slot (matches k s) size s r).num_blocks ≡ r.num_blocks - to_int (matches k s)
      less = num_blocks-read_slot size (matches k s) s r fits (ground arith)

-- What a read of the key `k` out of the node `n` gives: the node without the blocks of that key,
-- their bytes (those of the last one) or else what was in the buffer, and whether there was any.
pub record Taken (size k : ℕ) (n : Node) (fetched : List ℕ) (r : NodeRead) : Type 0 where
  pub shape : IsNode size r.node
  pub contents : blocks r.node.slots ≡ erase_key k (blocks n.slots)
  pub bytes : r.fetched ≡ last_match k fetched (blocks n.slots)
  pub found : r.succ ≡ ltb 0 (count_key k (blocks n.slots))

-- The branch-free read of the key from a good node, into a whole buffer: it removes exactly the
-- blocks of the key, keeps the node good, leaves the bytes of the last such block in the buffer, or
-- the buffer's own, and reports whether there was one.
pub node_read_lem :
    (size k ptr : ℕ) (n : Node) (fetched : List ℕ)
    → IsNode size n
    → IsBuffer size fetched
    → Taken size k n fetched (node_read n k size fetched ptr)
unfolding node_read
node_read_lem size k ptr n fetched h hf = record {
  shape = record {
    four = length-read_loop size k n.slots start ∙ h.four;
    good = read_loop-IsSlot size k n.slots start h.good;
    counted =
        num_blocks-read_loop size k n.slots start (omega (arith, small))
          (omega (arith, lost, h.counted))
        ∙ omega (arith, lost, h.counted, ap length (blocks-read_loop size k n.slots start h.good));
  };
  contents = blocks-read_loop size k n.slots start h.good;
  bytes = fetched-read_loop size k n.slots start h.good hf;
  found = succ-read_loop size k n.slots start;
}
  where
    start : Reading
    start = record { num_blocks = n.num_blocks; fetched = fetched; ptr = ptr; succ = false }

    small : n.num_blocks ≤ 4
    small = omega (arith, length-blocks-le n.slots, h.counted, h.four)

    lost :
        length (erase_key k (blocks n.slots)) + count_key k (blocks n.slots)
        ≡ length (blocks n.slots)
    lost = length-erase_key k (blocks n.slots)

addrs_of-read_loop :
    (k size : ℕ) (ss : List Slot) (r : Reading)
    → addrs_of (read_loop k size ss r).slots ≡ addrs_of ss
unfolding read_loop clear_slot
addrs_of-read_loop k size [] r = refl
addrs_of-read_loop k size (s ∷ ss) r =
    ap (◌∷◌ s.block_content) (addrs_of-read_loop k size ss (read_slot (matches k s) size s r))

pub addrs_of-node_read :
    (k size ptr : ℕ) (n : Node) (fetched : List ℕ)
    → addrs_of (node_read n k size fetched ptr).node.slots ≡ addrs_of n.slots
unfolding node_read
addrs_of-node_read k size ptr n fetched = addrs_of-read_loop k size n.slots _
