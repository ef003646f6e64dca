-- ===== src/Simple/SinkBlock.antt =====
-- `ecall_client_simple_oram_flush`, the loop over `k`: where one block goes.
use intel_sgx_path_oram.Common.{
  ℕ, ◌+◌, ◌-◌, ◌/◌, ◌%◌, ◌^◌, ◌≤◌, ◌≡◌, ◌≢◌, ◌⊎◌, inl, inr, refl, List, [], ◌∷◌, arith, All, Bool,
  true, false, Bool-cases, Perm, ap, All-perm, ◌||◌, ==→eq, sym,
}
use mathlib.Core.List.Perm
use mathlib.Core.List.{perm_middle}
use native.Mathlib.Nat.{ℕ_set}
use intel_sgx_path_oram.Common.Bits.{bit_and_pow}
use intel_sgx_path_oram.Node.{Node, Block, blocks_per_node}
use intel_sgx_path_oram.Node.Shape.{IsBlock, IsNode, blocks}
use intel_sgx_path_oram.Node.Write.{refuses}
use intel_sgx_path_oram.Client.Stash.{stash_blocks, path_addresses}
use intel_sgx_path_oram.Client.EvictSlots.{Along}
use intel_sgx_path_oram.Client.Placed.{agree_more}
use intel_sgx_path_oram.Simple.{Sinking, Sunk, path_match, sink_loop, plain_node_write}
use intel_sgx_path_oram.Simple.Sink.{
  tries, Fits, passed, inserted, sink_loop_skip, sink_loop_blocked, sink_loop_insert, Idle,
  sink_loop-Idle,
}
use intel_sgx_path_oram.Node.Shape.{addrs_of}
use intel_sgx_path_oram.Simple.Write.{PlainAdded, plain_node_write-Added}

-- The blocks of the node at level `h`, and so on, lie along the path.
abbrev pub NodesLie : ℕ → ℕ → List Node → Type 0
NodesLie rand_path h [] = Unit {0}
NodesLie rand_path h (n ∷ ns) =
    All (Along h rand_path) (blocks n.slots) × NodesLie rand_path (h + 1) ns

path_match_lem :
    (k p q : ℕ)
    → path_match p q k ≡ true
    → q % 2 ^ k ≡ p % 2 ^ k
    → q % 2 ^ (k + 1) ≡ p % 2 ^ (k + 1)
path_match_lem k p q matched same = agree_more k q p same (sym bits)
  where
    bits : p / 2 ^ k % 2 ≡ q / 2 ^ k % 2
    bits = bit_and_pow k p q (==→eq _ _ matched)

-- The block `b`, on its way from the node above `ns`, cannot move: its path leaves the flushed one
-- before any node of `ns` with a free slot.
abbrev pub Stuck : ℕ → ℕ → Block → List Node → Type 0
Stuck rand_path k b [] = Unit {0}
Stuck rand_path k b (n ∷ ns) =
    (path_match rand_path b.path k ≡ false)
    ⊎ (blocks_per_node ≤ n.num_blocks) × Stuck rand_path (k + 1) b ns

-- The block stays, and the nodes below too.
pub record Stays (rand_path k : ℕ) (b : Block) (ns : List Node) (s : Sinking) (r : Sunk)
    : Type 0 where
  pub same_path : r.path ≡ ns
  pub bit : r.state.presence_bit ≡ s.presence_bit
  pub num : r.state.num_blocks ≡ s.num_blocks
  pub stuck : Stuck rand_path k b ns

-- The block moves to one of the nodes below.
pub record Moves (b : Block) (ns : List Node) (s : Sinking) (r : Sunk) : Type 0 where
  pub contents : Perm (stash_blocks r.path) (b ∷ stash_blocks ns)
  pub bit : r.state.presence_bit ≡ 0
  pub num : r.state.num_blocks ≡ s.num_blocks - 1

module _ (size rand_path : ℕ) where
  pub record Sinks (k : ℕ) (b : Block) (ns : List Node) (s : Sinking) (r : Sunk) : Type 0 where
    pub shape : All (IsNode size) r.path
    pub same_addrs : path_addresses r.path ≡ path_addresses ns
    pub lie : NodesLie rand_path (k + 1) ns → NodesLie rand_path (k + 1) r.path
    pub outcome : Stays rand_path k b ns s r ⊎ Moves b ns s r

  -- The flags with which the loop is entered while the block has not moved.
  abbrev Open : Sinking → Type 0
  Open s = (s.has_flushed ≡ false) × (s.failed_flushed ≡ false)

  module _ (k : ℕ) (b : Block) (n : Node) (ns : List Node) (s : Sinking)
      (shape : All (IsNode size) (n ∷ ns)) where
    stays_here :
        Fits size rand_path s
        → path_match rand_path b.path k ≡ false
        → Sinks k b (n ∷ ns) s (sink_loop size rand_path k b (n ∷ ns) s)
    stays_here fits off = rw (sink_loop_skip size rand_path k b n ns s fits missed) record {
      shape = rw rest.same_path shape;
      same_addrs = rw rest.same_path refl;
      lie = λ h. rw rest.same_path h;
      outcome = inl (record {
        same_path = ap (◌∷◌ n) rest.same_path;
        bit = rest.bit;
        num = rest.num;
        stuck = inl off;
      });
    }
      where
        failed : (x : Bool) → (x || true) ≡ true
        failed true = refl
        failed false = refl

        missed : tries size rand_path k b s ≡ false
        missed = rw (off, failed s.failed_flushed) refl

        rest :
            Idle size rand_path ns
              (passed size rand_path k b s)
              (sink_loop size rand_path (k + 1) b ns (passed size rand_path k b s))
        rest =
            sink_loop-Idle size rand_path (k + 1) b ns (passed size rand_path k b s) fits
              (inr (rw off (failed s.failed_flushed)))

    passes_full :
        path_match rand_path b.path k ≡ true
        → blocks_per_node ≤ n.num_blocks
        → (r : Sunk) → Sinks (k + 1) b ns (passed size rand_path k b s) r
        → Sinks k b (n ∷ ns) s (record { path = n ∷ r.path; state = r.state })
    passes_full on full r rest = record {
      shape = (shape.0, rest.shape);
      same_addrs = ap (◌∷◌ (addrs_of n.slots)) rest.same_addrs;
      lie = λ h. (h.0, rest.lie h.1);
      outcome = elim rest.outcome [
        | inl stays ↦ inl (record {
          same_path = ap (◌∷◌ n) stays.same_path;
          bit = stays.bit;
          num = stays.num;
          stuck = inr (full, stays.stuck);
        })
        | inr moves ↦ inr (record {
          contents =
              Perm.trans (Perm.append_left (blocks n.slots) moves.contents)
                (perm_middle (blocks n.slots) (stash_blocks ns));
          bit = moves.bit;
          num = moves.num;
        })
      ];
    }

    moves_here :
        Fits size rand_path s
        → 1 ≤ s.num_blocks
        → Open s
        → path_match rand_path b.path k ≡ true
        → b.path % 2 ^ k ≡ rand_path % 2 ^ k
        → PlainAdded size n b (plain_node_write n b size)
        → Sinks k b (n ∷ ns) s (sink_loop size rand_path k b (n ∷ ns) s)
    moves_here fits some_left (fresh, unfailed) on same added =
        rw (sink_loop_insert size rand_path k b n ns s fits some_left tried added) record {
          shape = rw rest.same_path (added.shape, shape.1);
          same_addrs = rw (rest.same_path, added.same_addrs) refl;
          lie = λ h. rw rest.same_path (
            All-perm (Along (k + 1) rand_path) (λ x. ℕ_set _ _) added.contents
                (path_match_lem k rand_path b.path on same, h.0),
            h.1,
          );
          outcome = inr (record {
            contents = rw rest.same_path (Perm.append_right (stash_blocks ns) added.contents);
            bit = rest.bit;
            num = rest.num;
          });
        }
      where
        tried : tries size rand_path k b s ≡ true
        tried = rw (fresh, unfailed, on) refl

        rest :
            Idle size rand_path ns
              (inserted size rand_path k b n ns s fits)
              (sink_loop size rand_path (k + 1) b ns (inserted size rand_path k b n ns s fits))
        rest =
            sink_loop-Idle size rand_path (k + 1) b ns (inserted size rand_path k b n ns s fits)
              (omega arith, omega (arith, fits.1)) (inl refl)

  -- In the flush, one good block, with a key other than 0, whose path agrees with the flushed one
  -- so far, with the flags unset, a presence bit below 2 ^ 32, a count of its node from 1 to below
  -- 2 ^ 32, and good nodes below: either it moves into one of them, and then its presence bit is
  -- cleared and the count of its node is one less, or nothing changes, and then its path leaves the
  -- flushed one before any node below that has room for a block. The nodes below stay good, keep
  -- their buffers, and hold only blocks along the path if they did before.
  pub sink_loop_lem :
      (k : ℕ) (b : Block) (ns : List Node) (s : Sinking)
      → Fits size rand_path s
      → 1 ≤ s.num_blocks
      → Open s
      → b.key ≢ 0
      → IsBlock size b
      → b.path % 2 ^ k ≡ rand_path % 2 ^ k
      → All (IsNode size) ns
      → Sinks k b ns s (sink_loop size rand_path k b ns s)
  sink_loop_lem k b [] s fits some_left open' named hb same shape =
      unfold sink_loop in
      record {
        shape = tt;
        same_addrs = refl;
        lie = λ h. h;
        outcome = inl (record { same_path = refl; bit = refl; num = refl; stuck = tt });
      }
  sink_loop_lem k b (n ∷ ns) s fits some_left open' named hb same shape =
      let rest = λ (on : path_match rand_path b.path k ≡ true).
        sink_loop_lem (k + 1) b ns (passed size rand_path k b s) fits some_left
          (open'.0, rw (open'.1, on) refl) named hb (path_match_lem k rand_path b.path on same)
          shape.1 in
      elim (Bool-cases (path_match rand_path b.path k)) [
        | inr off ↦ stays_here k b n ns s shape fits off
        | inl on ↦ elim (Bool-cases (refuses n b)) [
          | inl full ↦
              rw
                (sink_loop_blocked size rand_path k b n ns s fits shape.0
                  (rw (open'.0, open'.1, on) refl) full)
                (passes_full k b n ns s shape on (ground (arith, named, full)) _ (rest on))
          | inr free ↦
              moves_here k b n ns s shape fits some_left open' on same
                (plain_node_write-Added size n b shape.0 hb free)
        ]
      ]
