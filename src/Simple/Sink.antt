-- ===== src/Simple/Sink.antt =====
-- `ecall_client_simple_oram_flush`, the loop over `k`: one step, and the steps
-- after the last one that matters.
use intel_sgx_path_oram.Common.{
  ℕ, ◌+◌, ◌-◌, ◌^◌, ◌≤◌, ◌<◌, ◌≡◌, ◌⊎◌, inl, inr, refl, List, [], ◌∷◌, arith, Bool, true, false,
  not, ap, ◌||◌, ◌&&◌,
}
use intel_sgx_path_oram.Common.Bits.{bit_and-ones, bit_and-zero, sub32}
use intel_sgx_path_oram.Node.{Node, Block}
use intel_sgx_path_oram.Node.Shape.{IsNode}
use intel_sgx_path_oram.Node.Write.{refuses}
use intel_sgx_path_oram.Simple.{Sinking, Sunk, path_match, sink_loop, plain_node_write}
use intel_sgx_path_oram.Simple.Write.{plain_node_write_refused, PlainAdded}

or-false : (x : Bool) → (x || false) ≡ x
or-false true = refl
or-false false = refl

module _ (size rand_path : ℕ) where
  -- Whether the write to the next node is tried.
  abbrev pub tries : ℕ → Block → Sinking → Bool
  tries k b s =
      not (s.failed_flushed || not (path_match rand_path b.path k))
      && not s.has_flushed
      && path_match rand_path b.path k

  abbrev pub Fits : Sinking → Type 0
  Fits s = (s.presence_bit < 2 ^ 32) × (s.num_blocks < 2 ^ 32)

  -- The state after a step that moves nothing.
  abbrev pub passed : ℕ → Block → Sinking → Sinking
  passed k b s = record s {
    failed_flushed = s.failed_flushed || not (path_match rand_path b.path k);
  }

  module _ (k : ℕ) (b : Block) (n : Node) (ns : List Node) (s : Sinking) (fits : Fits s) where
    abbrev pub below : Sunk
    below = sink_loop size rand_path (k + 1) b ns (passed k b s)

    pub sink_loop_skip :
        tries k b s ≡ false
        → sink_loop size rand_path k b (n ∷ ns) s
          ≡ record { path = n ∷ below.path; state = below.state }
    unfolding sink_loop
    sink_loop_skip e = rw (e, or-false s.has_flushed, bit_and-ones s.presence_bit fits.0, same) refl
      where
        same : sub32 s.num_blocks 0 ≡ s.num_blocks
        same = omega (arith, fits.1)

    pub sink_loop_blocked :
        IsNode size n
        → tries k b s ≡ true
        → refuses n b ≡ true
        → sink_loop size rand_path k b (n ∷ ns) s
          ≡ record { path = n ∷ below.path; state = below.state }
    unfolding sink_loop
    sink_loop_blocked h e full =
        rw
          (
            e,
            plain_node_write_refused size n b h full,
            or-false s.has_flushed,
            bit_and-ones s.presence_bit fits.0,
            same,
          )
          refl
      where
        same : sub32 s.num_blocks 0 ≡ s.num_blocks
        same = omega (arith, fits.1)

    -- The state once the block has moved.
    abbrev pub inserted : Sinking
    inserted = record {
      has_flushed = true;
      failed_flushed = s.failed_flushed || not (path_match rand_path b.path k);
      presence_bit = 0;
      num_blocks = s.num_blocks - 1;
    }

    abbrev pub after : Sunk
    after = sink_loop size rand_path (k + 1) b ns inserted

    or-true : (x : Bool) → (x || true) ≡ true
    or-true true = refl
    or-true false = refl

    pub sink_loop_insert :
        1 ≤ s.num_blocks
        → tries k b s ≡ true
        → PlainAdded size n b (plain_node_write n b size)
        → sink_loop size rand_path k b (n ∷ ns) s
          ≡ record { path = (plain_node_write n b size).node ∷ after.path; state = after.state }
    unfolding sink_loop
    sink_loop_insert some_left e added =
        rw (e, added.stored, or-true s.has_flushed, bit_and-zero s.presence_bit, less) refl
      where
        less : sub32 s.num_blocks 1 ≡ s.num_blocks - 1
        less = omega (arith, fits.1, some_left)

  -- Once the block has moved, or cannot move any more, the loop changes nothing.
  abbrev pub Done : Sinking → Type 0
  Done s = (s.has_flushed ≡ true) ⊎ (s.failed_flushed ≡ true)

  Done-tries : (k : ℕ) (b : Block) (s : Sinking) → Done s → tries k b s ≡ false
  Done-tries k b s (inl e) = rw e (
      moved (not (s.failed_flushed || not (path_match rand_path b.path k)))
        (path_match rand_path b.path k))
    where
      moved : (x y : Bool) → (x && not true && y) ≡ false
      moved true true = refl
      moved true false = refl
      moved false y = refl
  Done-tries k b s (inr e) = rw e refl

  Done-passed : (k : ℕ) (b : Block) (s : Sinking) → Done s → Done (passed k b s)
  Done-passed k b s (inl e) = inl e
  Done-passed k b s (inr e) = inr (rw e refl)

  pub record Idle (ns : List Node) (s : Sinking) (r : Sunk) : Type 0 where
    pub same_path : r.path ≡ ns
    pub bit : r.state.presence_bit ≡ s.presence_bit
    pub num : r.state.num_blocks ≡ s.num_blocks

  pub sink_loop-Idle :
      (k : ℕ) (b : Block) (ns : List Node) (s : Sinking)
      → Fits s
      → Done s
      → Idle ns s (sink_loop size rand_path k b ns s)
  sink_loop-Idle k b [] s fits done =
      unfold sink_loop in record { same_path = refl; bit = refl; num = refl }
  sink_loop-Idle k b (n ∷ ns) s fits done =
      let rest = sink_loop-Idle (k + 1) b ns (passed k b s) fits (Done-passed k b s done) in
      rw (sink_loop_skip k b n ns s fits (Done-tries k b s done))
        record { same_path = ap (◌∷◌ n) rest.same_path; bit = rest.bit; num = rest.num }
