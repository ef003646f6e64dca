-- ===== src/Oblivious/Copy.antt =====
-- `omove`, `oswap` and `ocopy`: the assembly against the move, swap and copy under a condition.
use intel_sgx_path_oram.Common.{
  ℕ, zero, suc, ◌*◌, ◌≤◌, ◌≡◌, refl, List, arith, ◌==◌, if◌then◌else◌, drop, length, length-drop,
  take-append-drop, [], ◌∷◌, max, true, false, Bool-cases, inl, inr,
}
use intel_sgx_path_oram.Oblivious.{oblivious_move_32, ocopy_loop, ocopy, oblivious_swap}

module _ (len : ℕ) where
  length-drop_eight : (xs : List ℕ) → length xs ≡ 8 * suc len → length (drop 8 xs) ≡ 8 * len
  length-drop_eight xs h = omega (arith, length-drop 8 xs)

ocopy_loop_clear :
    (len cond : ℕ) (src dest : List ℕ) → (cond == 0) ≡ true → ocopy_loop len cond src dest ≡ dest
unfolding ocopy_loop
ocopy_loop_clear zero cond src dest c = refl
ocopy_loop_clear (suc len) cond src dest c =
    rw (c, ocopy_loop_clear len cond (drop 8 src) (drop 8 dest) c) (take-append-drop 8 dest)

nil_of_length : (xs ys : List ℕ) → length xs ≡ 0 → length ys ≡ 0 → ys ≡ xs
nil_of_length [] [] h k = refl
nil_of_length [] (y ∷ ys) h k = absurd (omega arith)
nil_of_length (x ∷ xs) ys h k = absurd (omega arith)

ocopy_loop_set :
    (len cond : ℕ) (src dest : List ℕ)
    → (cond == 0) ≡ false
    → length src ≡ 8 * len
    → length dest ≡ 8 * len
    → ocopy_loop len cond src dest ≡ src
unfolding ocopy_loop
ocopy_loop_set zero cond src dest c hs hd = nil_of_length src dest (omega arith) (omega arith)
ocopy_loop_set (suc len) cond src dest c hs hd =
    rw
      (
        c,
        ocopy_loop_set len cond (drop 8 src) (drop 8 dest) c (length-drop_eight len src hs)
            (length-drop_eight len dest hd),
      )
      (take-append-drop 8 src)

-- Between two buffers of `len` 64-bit words, `len` at least 1, `ocopy` leaves the source's bytes in
-- the destination if the flag is not 0, and the destination's own bytes if it is.
pub ocopy_lem :
    (cond len : ℕ) (src dest : List ℕ)
    → 1 ≤ len
    → length src ≡ 8 * len
    → length dest ≡ 8 * len
    → ocopy cond src dest len ≡ (if cond == 0 then dest else src)
unfolding ocopy
ocopy_lem cond len src dest pos hs hd = elim (Bool-cases (cond == 0)) [
  | inl c ↦ rw (c, rounds) (ocopy_loop_clear len cond src dest c)
  | inr c ↦ rw (c, rounds) (ocopy_loop_set len cond src dest c hs hd)
]
  where
    rounds : max 1 len ≡ len
    rounds = omega arith

-- A clear flag copies nothing, whatever the lengths are.
pub ocopy_clear : (len : ℕ) (src dest : List ℕ) → ocopy 0 src dest len ≡ dest
unfolding ocopy
ocopy_clear len src dest = ocopy_loop_clear (max 1 len) 0 src dest refl

-- `ObliviousSwap` exchanges the two values exactly when its flag is not 0, whatever `r14` held.
pub oblivious_swap_lem :
    (cond r14 src dest : ℕ)
    → oblivious_swap cond r14 src dest
      ≡ (if cond == 0 then record { src = src; dest = dest } else record { src = dest; dest = src })
unfolding oblivious_swap
oblivious_swap_lem cond r14 src dest = ground arith

-- `ObliviousMove32` stores `src` exactly when its flag is not 0.
pub oblivious_move_32_lem :
    (cond src dest : ℕ) → oblivious_move_32 cond src dest ≡ (if cond == 0 then dest else src)
unfolding oblivious_move_32
oblivious_move_32_lem cond src dest = refl
