-- ===== src/Node.antt =====
-- Include/Conf.h, `MemTreeNode`, and Enclave/Enclave_ObliviousFunctions.cpp, `ObliviousNodeRead`,
-- `ObliviousNodeTransfer` and `ObliviousNodeWrite`, as built with PATH_ORAM defined.
-- The parallel arrays of a node are a list of slots, and a slot holds the entry of each array at
-- one index. `stash` is the buffer that the client keeps for that slot (`client_path_stash[d][i]`
-- or `client_temp_block_content[i]`), a list of bytes. Addresses of encrypted blocks are numbers.
pub mod Shape
pub mod Keys
pub mod Order
pub mod Own
pub mod Write
pub mod Transfer
pub mod Read
use intel_sgx_path_oram.Common.{
  ℕ, ◌+◌, ◌/◌, ◌%◌, ◌^◌, List, [], ◌∷◌, Bool, true, false, ◌&&◌, ◌||◌, ◌==◌, ltb, leb,
  if◌then◌else◌, to_int, bit_and, bit_or, replicate,
}
use intel_sgx_path_oram.Common.Bits.{neg32, not32, sub32, sub8}
use intel_sgx_path_oram.Oblivious.{ocopy}

abbrev pub blocks_per_node : ℕ
blocks_per_node = 4

pub record Slot : Type 0 where
  pub block_key : ℕ
  pub block_path : ℕ
  pub block_content : ℕ
  pub presence_bit : ℕ
  pub stash : List ℕ

pub record Node : Type 0 where
  pub num_blocks : ℕ
  pub slots : List Slot

-- A block as the callers hand it over: its key, its path and its bytes.
pub record Block : Type 0 where
  pub key : ℕ
  pub path : ℕ
  pub bytes : List ℕ

-- The select that `ObliviousNodeWrite` and `ObliviousNodeTransfer` make in each field.
abbrev pub select : ℕ → ℕ → ℕ → ℕ
select masked_sign new old = bit_or (bit_and new masked_sign) (bit_and old (not32 masked_sign))

-- One slot after the body of either loop: `ptr` is the address that takes the slot's place.
pub put_slot : ℕ → ℕ → Block → ℕ → Slot → Slot
put_slot masked_sign ptr b block_size s = record {
  block_key = select masked_sign b.key s.block_key;
  block_path = select masked_sign b.path s.block_path;
  block_content = if masked_sign == 0 then s.block_content else ptr;
  presence_bit = select masked_sign 1 s.presence_bit % 2 ^ 8;
  stash = ocopy masked_sign b.bytes s.stash (block_size / 8);
}

pub record Wrote : Type 0 where
  pub slots : List Slot
  pub ptr : ℕ

-- The loop of `ObliviousNodeWrite` over the slots that are left. The slot's old address goes to
-- `*encrypted_content_ptr`.
pub write_loop : ℕ → ℕ → Block → ℕ → List Slot → Wrote
write_loop mask ptr b block_size [] = record { slots = []; ptr = ptr }
write_loop mask ptr b block_size (s ∷ ss) =
    let sign = neg32 (s.presence_bit == 0) in
    let masked_sign = bit_and sign (not32 mask) in
    let s' = put_slot masked_sign ptr b block_size s in
    let ptr' = if masked_sign == 0 then ptr else s.block_content in
    let rest = write_loop (bit_or mask sign) ptr' b block_size ss in
    record { slots = s' ∷ rest.slots; ptr = rest.ptr }

pub record NodeWrite : Type 0 where
  pub node : Node
  pub ptr : ℕ
  pub succ : Bool

-- `ptr` is `*encrypted_content_ptr`; the callers of this build pass no null pointer here.
pub node_write : Node → ℕ → Block → ℕ → NodeWrite
node_write n ptr b block_size =
    let is_failed = b.key == 0 || leb blocks_per_node n.num_blocks in
    let mask = neg32 is_failed in
    let loop = write_loop mask ptr b block_size n.slots in
    record {
      node = record {
        num_blocks = (n.num_blocks + (if is_failed then 0 else 1)) % 2 ^ 32;
        slots = loop.slots;
      };
      ptr = loop.ptr;
      succ = if is_failed then false else true;
    }

-- The loop of `ObliviousNodeTransfer`, with the count of blocks.
pub transfer_loop : ℕ → ℕ → ℕ → Block → ℕ → List Slot → Node
transfer_loop mask num_blocks ptr b block_size [] = record { num_blocks = num_blocks; slots = [] }
transfer_loop mask num_blocks ptr b block_size (s ∷ ss) =
    let sign = neg32 (s.presence_bit == 0) in
    let masked_sign = bit_and sign (not32 mask) in
    let s' = put_slot masked_sign ptr b block_size s in
    let num_blocks' = (num_blocks + (if masked_sign == 0 then 0 else 1)) % 2 ^ 32 in
    let rest = transfer_loop (bit_or mask masked_sign) num_blocks' ptr b block_size ss in
    record { num_blocks = rest.num_blocks; slots = s' ∷ rest.slots }

-- The node after `ObliviousNodeTransfer`; its result, which is `input_sign` again, is not used.
pub node_transfer : Node → ℕ → Block → Bool → ℕ → Node
node_transfer n ptr b input_sign block_size =
    let mask = neg32 (if input_sign then false else true) in
    transfer_loop mask n.num_blocks ptr b block_size n.slots

-- What `ObliviousNodeRead` carries from slot to slot.
pub record Reading : Type 0 where
  pub num_blocks : ℕ
  pub fetched : List ℕ
  pub ptr : ℕ
  pub succ : Bool

pub record ReadLoop : Type 0 where
  pub slots : List Slot
  pub state : Reading

abbrev pub matches : ℕ → Slot → Bool
matches key s = s.block_key == key && ltb 0 s.presence_bit

-- `sign` is a bool, so `x & sign` keeps the lowest bit of `x` only.
pub clear_slot : Bool → Slot → Slot
clear_slot sign s = record s {
  block_key = sub32 s.block_key (bit_and s.block_key (to_int sign));
  presence_bit = sub8 s.presence_bit (bit_and s.presence_bit (to_int sign));
}

pub read_slot : Bool → ℕ → Slot → Reading → Reading
read_slot sign block_size s r = record {
  num_blocks = sub32 r.num_blocks (bit_and 1 (to_int sign));
  fetched = ocopy (to_int sign) s.stash r.fetched (block_size / 8);
  ptr = if sign then s.block_content else r.ptr;
  succ = r.succ || sign;
}

pub read_loop : ℕ → ℕ → List Slot → Reading → ReadLoop
read_loop key block_size [] r = record { slots = []; state = r }
read_loop key block_size (s ∷ ss) r =
    let sign = matches key s in
    let rest = read_loop key block_size ss (read_slot sign block_size s r) in
    record { slots = clear_slot sign s ∷ rest.slots; state = rest.state }

pub record NodeRead : Type 0 where
  pub node : Node
  pub fetched : List ℕ
  pub ptr : ℕ
  pub succ : Bool

pub node_read : Node → ℕ → ℕ → List ℕ → ℕ → NodeRead
node_read n key block_size fetched ptr =
    let loop =
      read_loop key block_size n.slots
        (record { num_blocks = n.num_blocks; fetched = fetched; ptr = ptr; succ = false }) in
    record {
      node = record { num_blocks = loop.state.num_blocks; slots = loop.slots };
      fetched = loop.state.fetched;
      ptr = loop.state.ptr;
      succ = loop.state.succ;
    }
