-- ===== src/Oblivious.antt =====
-- Enclave/Enclave_ObliviousFunctions.cpp, the branch-free primitives written in assembly:
-- `omove`, `omove_32`, `ocopy`, `oswap`, `ObliviousPick32`, `ObliviousPickAndSwap32` and the two
-- wrappers. A conditional move is a test on its flag; memory is a list of bytes or of 32-bit words.
pub mod Copy
pub mod Pick
use intel_sgx_path_oram.Common.{
  ℕ, zero, suc, ◌+◌, List, Bool, ◌==◌, if◌then◌else◌, take, drop, get_or, set, ◌++◌,
}
use Prim.Native.Nat.{max}

-- `testq cond, cond; cmovz val_1, rdx` over `rdx = val_2`: what is stored into `*dest`.
pub omove : ℕ → ℕ → ℕ → ℕ
omove cond val_1 val_2 = let rdx = val_2 in if cond == 0 then val_1 else rdx

pub omove_32 : ℕ → ℕ → ℕ → ℕ
omove_32 cond val_1 val_2 = let edx = val_2 in if cond == 0 then val_1 else edx

-- `*dest` after `omove_32(cond, *dest, src, dest)`.
pub oblivious_move_32 : ℕ → ℕ → ℕ → ℕ
unfolding omove_32
oblivious_move_32 cond src dest = omove_32 cond dest src

-- One round of `ocopy` moves eight bytes: the source's if the flag is set, else the destination's.
pub ocopy_loop : ℕ → ℕ → List ℕ → List ℕ → List ℕ
ocopy_loop zero cond src dest = dest
ocopy_loop (suc left) cond src dest =
    (if cond == 0 then take 8 dest else take 8 src)
    ++ ocopy_loop left cond (drop 8 src) (drop 8 dest)

-- The bytes at `dest` after `ocopy`. The test is at the loop's end, so one round is always made.
pub ocopy : ℕ → List ℕ → List ℕ → ℕ → List ℕ
ocopy cond src dest len = ocopy_loop (max 1 len) cond src dest

pub record Swapped {ℓ} (A : Type ℓ) (B : Type ℓ) : Type ℓ where
  pub src : A
  pub dest : B

-- `r14` starts with whatever the register holds.
pub oswap : ℕ → ℕ → ℕ → ℕ → Swapped ℕ ℕ
oswap cond r14 src dest =
    let r12 = src in
    let r13 = dest in
    let r14' = if cond == 0 then r14 else r13 in
    let r13' = if cond == 0 then r13 else r12 in
    let r12' = if cond == 0 then r12 else r14' in record { src = r12'; dest = r13' }

pub oblivious_swap : ℕ → ℕ → ℕ → ℕ → Swapped ℕ ℕ
unfolding oswap
oblivious_swap cond r14 src dest = oswap cond r14 src dest

-- `mov (…), %r12` names a 64-bit register, so it moves two neighbouring 32-bit words.
pub record Quad : Type 0 where
  pub lo : ℕ
  pub hi : ℕ

unfoldable pub load64 : List ℕ → ℕ → Quad
load64 words i = record { lo = get_or words i 0; hi = get_or words (i + 1) 0 }

unfoldable pub store64 : List ℕ → ℕ → Quad → List ℕ
store64 words i q = set (set words i q.lo) (i + 1) q.hi

-- `left` rounds from `count` on; the value is the two words at `dest`.
pub pick_loop : ℕ → ℕ → ℕ → List ℕ → Quad → Quad
pick_loop zero count ind src dest = dest
pick_loop (suc left) count ind src dest =
    let r12 = load64 src count in
    let r13 = if count == ind then r12 else dest in pick_loop left (count + 1) ind src r13

pub oblivious_pick_32 : ℕ → List ℕ → Quad → ℕ → Quad
unfolding pick_loop
oblivious_pick_32 ind src dest len = pick_loop (max 1 len) 0 ind src dest

pub pick_and_swap_loop : ℕ → ℕ → ℕ → Quad → List ℕ → Quad → Swapped (List ℕ) Quad
pick_and_swap_loop zero count ind r14 src dest = record { src = src; dest = dest }
pick_and_swap_loop (suc left) count ind r14 src dest =
    let r12 = load64 src count in
    let r13 = dest in
    let r14' = if count == ind then r13 else r14 in
    let r13' = if count == ind then r12 else r13 in
    let r12' = if count == ind then r14' else r12 in
    pick_and_swap_loop left (count + 1) ind r14' (store64 src count r12') r13'

pub oblivious_pick_and_swap_32 : ℕ → Quad → List ℕ → Quad → ℕ → Swapped (List ℕ) Quad
unfolding pick_and_swap_loop
oblivious_pick_and_swap_32 ind r14 src dest len = pick_and_swap_loop (max 1 len) 0 ind r14 src dest
