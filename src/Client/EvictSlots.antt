-- ===== src/Client/EvictSlots.antt =====
-- The scan of one node of the stash for one level, `gather_slots`: which blocks go into the node of
-- that level, and which stay.
use intel_sgx_path_oram.Common.{
  ℕ, suc, ◌+◌, ◌-◌, ◌%◌, ◌^◌, ◌≤◌, ◌<◌, ◌≡◌, ◌≢◌, refl, List, [], ◌∷◌, ◌++◌, arith, ◌==◌, length,
  All, All-perm, true, false, Bool-cases, inl, inr, Perm, ap, ==→ne,
}
use intel_sgx_path_oram.Common.Bits.{bit_and_mask, sub32}
use intel_sgx_path_oram.Node.{Slot, Node, Block, blocks_per_node, node_transfer}
use intel_sgx_path_oram.Node.Shape.{IsBlock, IsSlot, IsClean, blocks, IsNode, block_of}
use intel_sgx_path_oram.Node.Write.{Added}
use intel_sgx_path_oram.Node.Transfer.{node_transfer_clear, node_transfer-Added}
use intel_sgx_path_oram.Client.{Gathered, GatherSlots, goes, slot_block, gather_slots}
use mathlib.Core.List.Perm
use mathlib.Core.List.{perm_middle}
use native.Mathlib.Nat.{ℕ_set}

-- The block's path and the tree path agree in the `h` bits that lead to level `h`.
abbrev pub Along : ℕ → ℕ → Block → Type 0
Along h tree_path b = b.path % 2 ^ h ≡ tree_path % 2 ^ h

abbrev pub Off : ℕ → ℕ → Block → Type 0
Off h tree_path b = b.path % 2 ^ h ≢ tree_path % 2 ^ h

module _ (size h tree_path : ℕ) where
  -- From the blocks `bs` and the node `g.temp` to the blocks `bs'` and the node `g'.temp`: none is
  -- lost, those that moved lie along the path, and none is left that could have moved.
  pub record Gathers (bs bs' : List Block) (g g' : Gathered) : Type 0 where
    pub shape : IsNode size g'.temp
    pub grows : g.temp.num_blocks ≤ g'.temp.num_blocks
    pub contents : Perm (blocks g.temp.slots ++ bs) (blocks g'.temp.slots ++ bs')
    pub along :
        All (Along h tree_path) (blocks g.temp.slots)
        → All (Along h tree_path) (blocks g'.temp.slots)
    pub greedy : g'.temp.num_blocks < blocks_per_node → All (Off h tree_path) bs'
    pub clean : All IsClean g.temp.slots → All IsClean g'.temp.slots
    pub shrinks : length bs' ≤ length bs
    pub load :
        length bs ≤ g.stash_load
        → g.stash_load < 2 ^ 32
        → g'.stash_load + length bs ≡ g.stash_load + length bs'

  pub Gathers-nil : (g : Gathered) → IsNode size g.temp → Gathers [] [] g g
  Gathers-nil g hg = record {
    shape = hg;
    grows = omega arith;
    contents = Perm.refl _;
    along = λ a. a;
    clean = λ a. a;
    greedy = λ _. tt;
    shrinks = omega arith;
    load = λ _ _. refl;
  }

  goes-Along :
      (s : Slot) (temp : Node)
      → goes (2 ^ h - 1) tree_path s temp ≡ true
      → Along h tree_path (block_of s)
  goes-Along s temp e = ground (arith, bit_and_mask h s.block_path, bit_and_mask h tree_path)

  goes-room :
      (s : Slot) (temp : Node)
      → goes (2 ^ h - 1) tree_path s temp ≡ true
      → (temp.num_blocks < blocks_per_node) × (s.presence_bit ≢ 0)
  goes-room s temp e = ground arith

  stays-Off :
      (s : Slot) (temp : Node)
      → goes (2 ^ h - 1) tree_path s temp ≡ false
      → s.presence_bit ≢ 0
      → temp.num_blocks < blocks_per_node
      → Off h tree_path (block_of s)
  stays-Off s temp e present room =
      ground (arith, bit_and_mask h s.block_path, bit_and_mask h tree_path)

  -- A block moves to the node.
  Gathers-move :
      (b : Block) (bs bs' : List Block) (g g' : Gathered) (temp : Node)
      → Added size g.temp b temp
      → Along h tree_path b
      → Gathers bs bs' (record { temp = temp; stash_load = sub32 g.stash_load 1 }) g'
      → Gathers (b ∷ bs) bs' g g'
  Gathers-move b bs bs' g g' temp added on rest = record {
    shape = rest.shape;
    grows = omega (arith, rest.grows, added.one_more);
    contents =
        Perm.trans (perm_middle (blocks g.temp.slots) bs)
          (Perm.trans (Perm.append_right bs (Perm.symm added.contents)) rest.contents);
    along = λ a. rest.along (All-perm (Along h tree_path) (λ x. ℕ_set _ _) added.contents (on, a));
    clean = λ a. rest.clean (added.clean a);
    greedy = rest.greedy;
    shrinks = omega (arith, rest.shrinks);
    load = λ p q. omega (arith, rest.load (omega arith) (omega arith));
  }

  -- A block stays.
  Gathers-stay :
      (b : Block) (bs bs' : List Block) (g g' : Gathered)
      → (g.temp.num_blocks < blocks_per_node → Off h tree_path b)
      → Gathers bs bs' g g'
      → Gathers (b ∷ bs) (b ∷ bs') g g'
  Gathers-stay b bs bs' g g' off rest = record {
    shape = rest.shape;
    grows = rest.grows;
    contents = Perm.trans (perm_middle (blocks g.temp.slots) bs) (
        Perm.trans (Perm.cons b rest.contents)
          (Perm.symm (perm_middle (blocks g'.temp.slots) bs')));
    along = rest.along;
    clean = rest.clean;
    greedy = λ room. (off (omega (arith, rest.grows)), rest.greedy room);
    shrinks = omega (arith, rest.shrinks);
    load = λ p q. omega (arith, rest.load (omega arith) q);
  }

  -- The slots of a node after the scan.
  pub record ScansSlots (ss : List Slot) (num : ℕ) (g : Gathered) (r : GatherSlots) : Type 0 where
    pub good : All (IsSlot size) r.node.slots
    pub same_length : length r.node.slots ≡ length ss
    pub counted :
        length (blocks ss) ≤ num
        → num < 2 ^ 32
        → r.node.num_blocks + length (blocks ss) ≡ num + length (blocks r.node.slots)
    pub gathers : Gathers (blocks ss) (blocks r.node.slots) g r.state

  emptied-IsSlot : (s : Slot) → IsSlot size s → IsSlot size (record s { presence_bit = 0 })
  emptied-IsSlot s hs = record {
    key_fits = hs.key_fits;
    path_fits = hs.path_fits;
    bit = omega arith;
    named = λ e. absurd (omega arith);
    buffer = hs.buffer;
  }

  slot-IsBlock : (s : Slot) → IsSlot size s → IsBlock size (slot_block s)
  slot-IsBlock s hs = record {
    key_fits = hs.key_fits;
    path_fits = hs.path_fits;
    buffer = hs.buffer;
  }

  ScansSlots-move :
      (s : Slot) (ss : List Slot) (num : ℕ) (g : Gathered) (temp : Node) (r : GatherSlots)
      → IsSlot size s
      → goes (2 ^ h - 1) tree_path s g.temp ≡ true
      → Added size g.temp (slot_block s) temp
      → ScansSlots ss (sub32 num 1) (record { temp = temp; stash_load = sub32 g.stash_load 1 }) r
      → ScansSlots (s ∷ ss) num g (record {
        node = record {
          num_blocks = r.node.num_blocks;
          slots = record s { presence_bit = 0 } ∷ r.node.slots;
        };
        state = r.state;
      })
  ScansSlots-move s ss num g temp r hs go added rest = record {
    good = (emptied-IsSlot s hs, rest.good);
    same_length = ap suc rest.same_length;
    counted = rw present (λ p q. omega (arith, rest.counted (omega arith) (omega arith)));
    gathers = rw present (
        Gathers-move (block_of s) (blocks ss) (blocks r.node.slots) g r.state temp added
          (goes-Along s g.temp go) rest.gathers);
  }
    where
      present : (s.presence_bit == 0) ≡ false
      present = ground (arith, goes-room s g.temp go)

  ScansSlots-stay :
      (s : Slot) (ss : List Slot) (num : ℕ) (g : Gathered) (r : GatherSlots)
      → IsSlot size s
      → goes (2 ^ h - 1) tree_path s g.temp ≡ false
      → ScansSlots ss num g r
      → ScansSlots (s ∷ ss) num g (record {
        node = record { num_blocks = r.node.num_blocks; slots = s ∷ r.node.slots };
        state = r.state;
      })
  ScansSlots-stay s ss num g r hs stay rest = elim (Bool-cases (s.presence_bit == 0)) [
    | inl e ↦ record {
      good = (hs, rest.good);
      same_length = ap suc rest.same_length;
      counted = rw e rest.counted;
      gathers = rw e rest.gathers;
    }
    | inr e ↦ record {
      good = (hs, rest.good);
      same_length = ap suc rest.same_length;
      counted = rw e (λ p q. omega (arith, rest.counted (omega arith) q));
      gathers = rw e (
          Gathers-stay (block_of s) (blocks ss) (blocks r.node.slots) g r.state
            (stays-Off s g.temp stay (==→ne _ 0 e)) rest.gathers);
    }
  ]

  pub gather_slots_lem :
      (ss : List Slot) (num : ℕ) (g : Gathered)
      → All (IsSlot size) ss
      → IsNode size g.temp
      → ScansSlots ss num g (gather_slots (2 ^ h - 1) tree_path size num ss g)
  unfolding gather_slots
  gather_slots_lem [] num g hs hg = record {
    good = tt;
    same_length = refl;
    counted = λ p q. refl;
    gathers = Gathers-nil g hg;
  }
  gather_slots_lem (s ∷ ss) num g hs hg = elim (Bool-cases (goes (2 ^ h - 1) tree_path s g.temp)) [
    | inl go ↦ rw go (
        ScansSlots-move s ss num g temp _ hs.0 go (added go) (
          gather_slots_lem ss (sub32 num 1)
            (record { temp = temp; stash_load = sub32 g.stash_load 1 }) hs.1 (added go).shape))
    | inr stay ↦
        rw (stay, node_transfer_clear size s.block_content g.temp (slot_block s) hg)
          (ScansSlots-stay s ss num g (gather_slots (2 ^ h - 1) tree_path size num ss g) hs.0 stay
            (gather_slots_lem ss num g hs.1 hg))
  ]
    where
      temp : Node
      temp = node_transfer g.temp s.block_content (slot_block s) true size

      added : goes (2 ^ h - 1) tree_path s g.temp ≡ true → Added size g.temp (slot_block s) temp
      added go =
          let (room, present) = goes-room s g.temp go in
          node_transfer-Added size s.block_content g.temp (slot_block s) hg (slot-IsBlock s hs.0)
            (hs.0.named (omega (arith, hs.0.bit))) room
