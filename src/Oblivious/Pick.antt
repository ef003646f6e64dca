-- ===== src/Oblivious/Pick.antt =====
-- `ObliviousPick32` and `ObliviousPickAndSwap32`: the 64-bit moves of a scan.
use intel_sgx_path_oram.Common.{
  ℕ, zero, suc, ◌+◌, ◌≤◌, ◌<◌, ◌≡◌, refl, List, [], ◌∷◌, arith, ◌==◌, length, length-set, get_or,
  set, max, ne→==, ◌∙◌, ap, Bool-cases, inl, inr, ==→eq, ==→ne,
}
use intel_sgx_path_oram.Oblivious.{
  Quad, load64, store64, pick_loop, oblivious_pick_32, pick_and_swap_loop,
  oblivious_pick_and_swap_32,
}

set-get_or : (xs : List ℕ) (i : ℕ) → set xs i (get_or xs i 0) ≡ xs
set-get_or [] i = refl
set-get_or (x ∷ xs) zero = refl
set-get_or (x ∷ xs) (suc i) = ap (◌∷◌ x) (set-get_or xs i)

store64-load64 : (words : List ℕ) (i : ℕ) → store64 words i (load64 words i) ≡ words
unfolding store64 load64
store64-load64 words i = rw (set-get_or words i, set-get_or words (i + 1))

length-store64 : (words : List ℕ) (i : ℕ) (q : Quad) → length (store64 words i q) ≡ length words
unfolding store64
length-store64 words i q = length-set (set words i q.lo) (i + 1) q.hi ∙ length-set words i q.lo

-- Past the index, and before it, a round changes nothing.
pick_and_swap_loop_miss :
    (left count ind : ℕ) (r14 : Quad) (src : List ℕ) (dest : Quad)
    → ind < count
    → pick_and_swap_loop left count ind r14 src dest ≡ record { src = src; dest = dest }
unfolding pick_and_swap_loop
pick_and_swap_loop_miss zero count ind r14 src dest h = refl
pick_and_swap_loop_miss (suc left) count ind r14 src dest h =
    rw (ne→== count ind (omega arith), store64-load64 src count)
      (pick_and_swap_loop_miss left (count + 1) ind r14 src dest (omega arith))

pick_and_swap_loop_hit :
    (left count ind : ℕ) (r14 : Quad) (src : List ℕ) (dest : Quad)
    → count ≤ ind
    → ind < count + left
    → pick_and_swap_loop left count ind r14 src dest
      ≡ record { src = store64 src ind dest; dest = load64 src ind }
unfolding pick_and_swap_loop
pick_and_swap_loop_hit zero count ind r14 src dest h k = absurd (omega arith)
pick_and_swap_loop_hit (suc left) count ind r14 src dest h k = elim (Bool-cases (count == ind)) [
  | inl e ↦
      rw (e, ==→eq count ind e)
        (pick_and_swap_loop_miss left (ind + 1) ind dest (store64 src ind dest) (load64 src ind)
          (omega arith))
  | inr e ↦
      rw (e, store64-load64 src count)
        (pick_and_swap_loop_hit left (count + 1) ind r14 src dest (omega (arith, ==→ne count ind e))
          (omega arith))
]

-- For an index below the length, the scan `ObliviousPickAndSwap32` exchanges the two words at
-- `dest` with the words at `ind` and at `ind + 1` of `src`, and changes nothing else, whatever
-- `r14` held.
pub oblivious_pick_and_swap_32_lem :
    (ind len : ℕ) (r14 : Quad) (src : List ℕ) (dest : Quad)
    → ind < len
    → oblivious_pick_and_swap_32 ind r14 src dest len
      ≡ record { src = store64 src ind dest; dest = load64 src ind }
unfolding oblivious_pick_and_swap_32
oblivious_pick_and_swap_32_lem ind len r14 src dest h =
    pick_and_swap_loop_hit (max 1 len) 0 ind r14 src dest (omega arith) (omega arith)

pick_loop_miss :
    (left count ind : ℕ) (src : List ℕ) (dest : Quad)
    → ind < count
    → pick_loop left count ind src dest ≡ dest
unfolding pick_loop
pick_loop_miss zero count ind src dest h = refl
pick_loop_miss (suc left) count ind src dest h =
    rw (ne→== count ind (omega arith)) (pick_loop_miss left (count + 1) ind src dest (omega arith))

pick_loop_hit :
    (left count ind : ℕ) (src : List ℕ) (dest : Quad)
    → count ≤ ind
    → ind < count + left
    → pick_loop left count ind src dest ≡ load64 src ind
unfolding pick_loop
pick_loop_hit zero count ind src dest h k = absurd (omega arith)
pick_loop_hit (suc left) count ind src dest h k = elim (Bool-cases (count == ind)) [
  | inl e ↦
      rw (e, ==→eq count ind e)
        (pick_loop_miss left (ind + 1) ind src (load64 src ind) (omega arith))
  | inr e ↦
      rw e (
        pick_loop_hit left (count + 1) ind src dest (omega (arith, ==→ne count ind e))
          (omega arith))
]

-- For an index below the length, `ObliviousPick32` writes the words at `ind` and at `ind + 1` to
-- the two words at `dest`.
pub oblivious_pick_32_lem :
    (ind len : ℕ) (src : List ℕ) (dest : Quad)
    → ind < len
    → oblivious_pick_32 ind src dest len ≡ load64 src ind
unfolding oblivious_pick_32
oblivious_pick_32_lem ind len src dest h =
    pick_loop_hit (max 1 len) 0 ind src dest (omega arith) (omega arith)
