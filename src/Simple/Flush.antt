-- ===== src/Simple/Flush.antt =====
-- `ecall_client_simple_oram_flush`, the loops over `j` and over `i`: the nodes of the path.
use intel_sgx_path_oram.Common.{
  ℕ, zero, suc, ◌+◌, ◌-◌, ◌^◌, ◌≤◌, ◌<◌, ◌≡◌, inl, inr, refl, List, [], ◌∷◌, ◌++◌, arith, ◌==◌,
  length, All, true, false, Bool-cases, Perm, ◌∙◌, ap,
}
use mathlib.Core.List.Perm
use mathlib.Core.Path.{subst}
use mathlib.Core.List.{perm_middle}
use intel_sgx_path_oram.Node.{Slot, Node}
use intel_sgx_path_oram.Node.Shape.{IsSlot, IsNode, block_of, blocks, length-blocks-le}
use intel_sgx_path_oram.Client.Stash.{stash_blocks}
use intel_sgx_path_oram.Client.EvictSlots.{Along}
use intel_sgx_path_oram.Simple.{Sinking, Sunk, sink_loop, FlushedSlots, flush_slots, flush_levels}
use intel_sgx_path_oram.Node.Shape.{addrs_of}
use intel_sgx_path_oram.Client.Stash.{path_addresses}
use intel_sgx_path_oram.Simple.SinkBlock.{NodesLie, Sinks, Moves, sink_loop_lem}

blocks_absent :
    (s : Slot) (ss : List Slot) → (s.presence_bit == 0) ≡ true → blocks (s ∷ ss) ≡ blocks ss
blocks_absent s ss e = rw e refl

blocks_present :
    (s : Slot) (ss : List Slot)
    → (s.presence_bit == 0) ≡ false
    → blocks (s ∷ ss) ≡ block_of s ∷ blocks ss
blocks_present s ss e = rw e refl

module _ (size rand_path : ℕ) where
  -- The blocks of the slots `ss` of level `i` and of the nodes `ns` below, before and after.
  pub record FlushesSlots (i num : ℕ) (ss : List Slot) (ns : List Node) (r : FlushedSlots)
      : Type 0 where
    pub good : All (IsSlot size) r.node.slots
    pub same_length : length r.node.slots ≡ length ss
    pub same_row : addrs_of r.node.slots ≡ addrs_of ss
    pub counted : r.node.num_blocks + length (blocks ss) ≡ num + length (blocks r.node.slots)
    pub shape : All (IsNode size) r.below
    pub same_addrs : path_addresses r.below ≡ path_addresses ns
    pub contents : Perm (blocks r.node.slots ++ stash_blocks r.below) (blocks ss ++ stash_blocks ns)
    pub along : All (Along i rand_path) (blocks r.node.slots)
    pub lie : NodesLie rand_path (i + 1) ns → NodesLie rand_path (i + 1) r.below

  abbrev with_slot : Slot → FlushedSlots → FlushedSlots
  with_slot s r = record {
    node = record { num_blocks = r.node.num_blocks; slots = s ∷ r.node.slots };
    below = r.below;
  }

  module _ (i num : ℕ) (s : Slot) (ss : List Slot) (ns : List Node) where
    keeps_slot :
        (r : FlushedSlots)
        → IsSlot size s
        → All (Along i rand_path) (blocks (s ∷ ss))
        → FlushesSlots i num ss ns r
        → FlushesSlots i num (s ∷ ss) ns (with_slot s r)
    keeps_slot r h along rest = record {
      good = (h, rest.good);
      same_length = ap suc rest.same_length;
      same_row = ap (◌∷◌ s.block_content) rest.same_row;
      counted = ground (arith, rest.counted);
      shape = rest.shape;
      same_addrs = rest.same_addrs;
      contents = elim (Bool-cases (s.presence_bit == 0)) [
        | inl e ↦ rw e rest.contents
        | inr e ↦ rw e (Perm.cons (block_of s) rest.contents)
      ];
      along = elim (Bool-cases (s.presence_bit == 0)) [
        | inl e ↦ rw e rest.along
        | inr e ↦
            rw e ((subst (All (Along i rand_path)) (blocks_present s ss e) along).0, rest.along)
      ];
      lie = rest.lie;
    }

    Moves-slot :
        (sunk : Sunk) (t : Sinking) (r : FlushedSlots)
        → IsSlot size s
        → (s.presence_bit == 0) ≡ false
        → 1 ≤ num
        → Sinks size rand_path i (block_of s) ns t sunk
        → Moves (block_of s) ns t sunk
        → FlushesSlots i (num - 1) ss sunk.path r
        → FlushesSlots i num (s ∷ ss) ns (with_slot (record s { presence_bit = 0 }) r)
    Moves-slot sunk t r h present some_left sinks moves rest = record {
      good = (
        record {
          key_fits = h.key_fits;
          path_fits = h.path_fits;
          bit = omega arith;
          named = λ e. absurd (omega arith);
          buffer = h.buffer;
        },
        rest.good,
      );
      same_length = ap suc rest.same_length;
      same_row = ap (◌∷◌ s.block_content) rest.same_row;
      counted = rw present (omega (arith, rest.counted));
      shape = rest.shape;
      same_addrs = rest.same_addrs ∙ sinks.same_addrs;
      contents = rw present (
          Perm.trans rest.contents (
            Perm.trans (Perm.append_left (blocks ss) moves.contents)
              (perm_middle (blocks ss) (stash_blocks ns))));
      along = rest.along;
      lie = λ below. rest.lie (sinks.lie below);
    }

  -- The state with which the loop over `k` begins for the slot `s`.
  abbrev entered : Slot → ℕ → Sinking
  entered s num = record {
    has_flushed = false;
    failed_flushed = false;
    presence_bit = s.presence_bit;
    num_blocks = num;
  }

  Sinks-slot :
      (i num : ℕ) (s : Slot) (ns : List Node)
      → 1 ≤ num
      → num < 2 ^ 32
      → IsSlot size s
      → All (IsNode size) ns
      → (s.presence_bit == 0) ≡ false
      → Along i rand_path (block_of s)
      → Sinks size rand_path i
          (block_of s)
          ns
          (entered s num)
          (sink_loop size rand_path i (block_of s) ns (entered s num))
  Sinks-slot i num s ns some_left fits hs hn present along =
      sink_loop_lem size rand_path i (block_of s) ns (entered s num) (omega (arith, hs.bit), fits)
        some_left (refl, refl) (hs.named (ground (arith, hs.bit, present)))
        (record { key_fits = hs.key_fits; path_fits = hs.path_fits; buffer = hs.buffer }) along hn

  pub flush_slots_lem :
      (i num : ℕ) (ss : List Slot) (ns : List Node)
      → length (blocks ss) ≤ num
      → num < 2 ^ 32
      → All (IsSlot size) ss
      → All (IsNode size) ns
      → All (Along i rand_path) (blocks ss)
      → FlushesSlots i num ss ns (flush_slots size rand_path i num ss ns)
  unfolding flush_slots
  flush_slots_lem i num [] ns few fits hs hn along = record {
    good = tt;
    same_length = refl;
    same_row = refl;
    counted = refl;
    shape = hn;
    same_addrs = refl;
    contents = Perm.refl (stash_blocks ns);
    along = tt;
    lie = λ h. h;
  }
  flush_slots_lem i num (s ∷ ss) ns few fits hs hn along = elim (Bool-cases (s.presence_bit == 0)) [
    | inl e ↦ rw e (
        keeps_slot i num s ss ns _ hs.0 along (
          flush_slots_lem i num ss ns (ground (arith, few, e)) fits hs.1 hn
            (subst (All (Along i rand_path)) (blocks_absent s ss e) along)))
    | inr e ↦
        let along' = subst (All (Along i rand_path)) (blocks_present s ss e) along in
        let sinks = Sinks-slot i num s ns (ground (arith, few, e)) fits hs.0 hn e along'.0 in
        elim sinks.outcome [
          | inl stays ↦
              rw (e, stays.bit, stays.num, stays.same_path)
                (keeps_slot i num s ss ns _ hs.0 along
                  (flush_slots_lem i num ss ns (ground (arith, few, e)) fits hs.1 hn along'.1))
          | inr moves ↦
              rw (e, moves.bit, moves.num)
                (Moves-slot i num s ss ns _ _ _ hs.0 e (ground (arith, few, e)) sinks moves (
                  flush_slots_lem i (num - 1) ss _ (ground (arith, few, e)) (omega (arith, fits))
                    hs.1 sinks.shape along'.1))
        ]
  ]

  -- The levels from `i` on.
  pub record FlushesLevels (i : ℕ) (ns ns' : List Node) : Type 0 where
    pub shape : All (IsNode size) ns'
    pub same_addrs : path_addresses ns' ≡ path_addresses ns
    pub contents : Perm (stash_blocks ns') (stash_blocks ns)
    pub lie : NodesLie rand_path i ns'

  pub flush_levels_lem :
      (fuel i : ℕ) (ns : List Node)
      → All (IsNode size) ns
      → NodesLie rand_path i ns
      → FlushesLevels i ns (flush_levels fuel size rand_path i ns)
  unfolding flush_levels
  flush_levels_lem fuel i [] h lie = record {
    shape = tt;
    same_addrs = refl;
    contents = Perm.nil;
    lie = tt;
  }
  flush_levels_lem zero i (n ∷ ns) h lie = record {
    shape = h;
    same_addrs = refl;
    contents = Perm.refl (stash_blocks (n ∷ ns));
    lie = lie;
  }
  flush_levels_lem (suc fuel) i (n ∷ ns) h lie =
      let here =
        flush_slots_lem i n.num_blocks n.slots ns (omega (arith, h.0.counted)) (small n h.0)
          h.0.good h.1 lie.0 in
      let rest = flush_levels_lem fuel (i + 1) _ here.shape (here.lie lie.1) in
      record {
        shape = (
          record {
            four = here.same_length ∙ h.0.four;
            good = here.good;
            counted = omega (arith, here.counted, h.0.counted);
          },
          rest.shape,
        );
        same_addrs = rw (here.same_row, rest.same_addrs, here.same_addrs) refl;
        contents = Perm.trans (Perm.append_left _ rest.contents) here.contents;
        lie = (here.along, rest.lie);
      }
    where
      small : (n : Node) → IsNode size n → n.num_blocks < 2 ^ 32
      small n h = omega (arith, h.counted, h.four, length-blocks-le n.slots)
