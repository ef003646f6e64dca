-- ===== src/Client/Stash.antt =====
-- The stash, `client->path` and `client->path_stash`, as a list of nodes: taking a block in
-- (`store_loop`, `put_loop`) and taking the block of a key out (`fetch_loop`).
use intel_sgx_path_oram.Common.{
  ℕ, suc, ◌+◌, ◌*◌, ◌≤◌, ◌<◌, ◌≡◌, ◌≢◌, refl, List, [], ◌∷◌, ◌++◌, arith, sym, ◌∙◌, length,
  length-append, All, Bool, true, false, Bool-cases, inl, inr, Perm, ap, ltb, map,
}
use intel_sgx_path_oram.Node.{Node, Block, node_write}
use intel_sgx_path_oram.Node.Shape.{IsBlock, blocks, IsNode, length-blocks-le, addrs_of}
use intel_sgx_path_oram.Node.Write.{refuses, node_write_refused, node_write-Added, Added}
use intel_sgx_path_oram.Client.{Stored, keyless, store_loop, put_loop}
use mathlib.Core.List.Perm
use mathlib.Core.List.{perm_middle, append_assoc}

-- The blocks in the stash, node by node.
abbrev pub stash_blocks : List Node → List Block
stash_blocks [] = []
stash_blocks (n ∷ ns) = blocks n.slots ++ stash_blocks ns

-- The addresses of the blocks of each node.
abbrev pub path_addresses : List Node → List (List ℕ)
path_addresses = map (λ n. addrs_of n.slots)

pub stash_blocks-append :
    (xs ys : List Node) → stash_blocks (xs ++ ys) ≡ stash_blocks xs ++ stash_blocks ys
stash_blocks-append [] ys = refl
stash_blocks-append (x ∷ xs) ys =
    ap (◌++◌ (blocks x.slots)) (stash_blocks-append xs ys)
    ∙ sym (append_assoc (blocks x.slots) (stash_blocks xs) (stash_blocks ys))

pub length-stash_blocks-le :
    (size : ℕ) (ns : List Node) → All (IsNode size) ns → length (stash_blocks ns) ≤ 4 * length ns
length-stash_blocks-le size [] h = omega arith
length-stash_blocks-le size (n ∷ ns) h = omega (
  arith,
  length-append (blocks n.slots) (stash_blocks ns),
  length-blocks-le n.slots,
  h.0.four,
  length-stash_blocks-le size ns h.1,
)

module _ (size : ℕ) where
  store_loop_done :
      (ptr : ℕ) (b : Block) (ns : List Node)
      → All (IsNode size) ns
      → store_loop true ptr b size ns ≡ record { path = ns; ptr = ptr; succ = true }
  unfolding store_loop
  store_loop_done ptr b [] h = refl
  store_loop_done ptr b (n ∷ ns) h =
      rw (node_write_refused size ptr n (keyless b) h.0 refl, store_loop_done ptr b ns h.1)

  -- A block of key 0 goes nowhere.
  pub store_loop_keyless :
      (ptr : ℕ) (b : Block) (ns : List Node)
      → b.key ≡ 0
      → All (IsNode size) ns
      → store_loop false ptr b size ns ≡ record { path = ns; ptr = ptr; succ = false }
  unfolding store_loop
  store_loop_keyless ptr b [] e h = refl
  store_loop_keyless ptr b (n ∷ ns) e h =
      rw (node_write_refused size ptr n b h.0 (ground arith), store_loop_keyless ptr b ns e h.1)

  -- What storing the block `b` in the stash `ns` gives where there is room.
  pub record IsStored (b : Block) (ns : List Node) (st : Stored) : Type 0 where
    pub shape : All (IsNode size) st.path
    pub same_length : length st.path ≡ length ns
    pub stored : st.succ ≡ true
    pub contents : Perm (stash_blocks st.path) (b ∷ stash_blocks ns)

  store_here :
      (ptr : ℕ) (b : Block) (n : Node) (ns : List Node)
      → All (IsNode size) (n ∷ ns)
      → Added size n b (node_write n ptr b size).node × ((node_write n ptr b size).succ ≡ true)
      → IsStored b (n ∷ ns) (store_loop false ptr b size (n ∷ ns))
  unfolding store_loop
  store_here ptr b n ns h (added, ok) =
      rw (ok, store_loop_done (node_write n ptr b size).ptr b ns h.1)
        record {
          shape = (added.shape, h.1);
          same_length = refl;
          stored = refl;
          contents = Perm.append_right (stash_blocks ns) added.contents;
        }

  store_later :
      (ptr : ℕ) (b : Block) (n : Node) (ns : List Node)
      → IsNode size n
      → refuses n b ≡ true
      → IsStored b ns (store_loop false ptr b size ns)
      → IsStored b (n ∷ ns) (store_loop false ptr b size (n ∷ ns))
  unfolding store_loop
  store_later ptr b n ns h full rest = rw (node_write_refused size ptr n b h full) record {
    shape = (h, rest.shape);
    same_length = ap suc rest.same_length;
    stored = rest.stored;
    contents =
        Perm.trans (Perm.append_left (blocks n.slots) rest.contents)
          (perm_middle (blocks n.slots) (stash_blocks ns));
  }

  -- A good stash with a free slot takes in a block whose key is not 0: the loop reports success,
  -- exactly that block is added, and the stash stays good and as long.
  pub store_loop_lem :
      (ptr : ℕ) (b : Block) (ns : List Node)
      → b.key ≢ 0
      → IsBlock size b
      → All (IsNode size) ns
      → length (stash_blocks ns) < 4 * length ns
      → IsStored b ns (store_loop false ptr b size ns)
  store_loop_lem ptr b [] ne hb h room = absurd (omega arith)
  store_loop_lem ptr b (n ∷ ns) ne hb h room = elim (Bool-cases (refuses n b)) [
    | inl full ↦
        store_later ptr b n ns h.0 full
          (store_loop_lem ptr b ns ne hb h.1 (omega (arith, parts, taken full, h.0.counted)))
    | inr free ↦ store_here ptr b n ns h (node_write-Added size ptr n b h.0 hb free)
  ]
    where
      parts : length (stash_blocks (n ∷ ns)) ≡ length (blocks n.slots) + length (stash_blocks ns)
      parts = length-append (blocks n.slots) (stash_blocks ns)

      taken : refuses n b ≡ true → 4 ≤ n.num_blocks
      taken full = ground arith

  -- A full stash refuses every block.
  pub store_loop_full :
      (ptr : ℕ) (b : Block) (ns : List Node)
      → All (IsNode size) ns
      → length (stash_blocks ns) ≡ 4 * length ns
      → store_loop false ptr b size ns ≡ record { path = ns; ptr = ptr; succ = false }
  unfolding store_loop
  store_loop_full ptr b [] h full = refl
  store_loop_full ptr b (n ∷ ns) h full =
      rw (node_write_refused size ptr n b h.0 here, store_loop_full ptr b ns h.1 there)
    where
      bound : length (stash_blocks ns) ≤ 4 * length ns
      bound = length-stash_blocks-le size ns h.1

      parts : length (stash_blocks (n ∷ ns)) ≡ length (blocks n.slots) + length (stash_blocks ns)
      parts = length-append (blocks n.slots) (stash_blocks ns)

      there : length (stash_blocks ns) ≡ 4 * length ns
      there = omega (arith, parts, bound, length-blocks-le n.slots, h.0.four)

      here : refuses n b ≡ true
      here = ground (arith, parts, there, h.0.counted)

  -- On a good stash the loop of the put and the loop of the download, which choose their fake
  -- writes by different tests, do the same.
  pub put_loop-store_loop :
      (succ : Bool) (ptr : ℕ) (b : Block) (ns : List Node)
      → All (IsNode size) ns
      → put_loop succ ptr b size ns ≡ store_loop succ ptr b size ns
  unfolding put_loop store_loop
  put_loop-store_loop succ ptr b [] h = refl
  put_loop-store_loop true ptr b (n ∷ ns) h =
      rw (put_loop-store_loop true (node_write n ptr (keyless b) size).ptr b ns h.1)
  put_loop-store_loop false ptr b (n ∷ ns) h = elim (Bool-cases (ltb n.num_blocks 4)) [
    | inl free ↦
        rw
          (
            free,
            put_loop-store_loop (node_write n ptr b size).succ (node_write n ptr b size).ptr b ns
                h.1,
          )
          refl
    | inr full ↦
        rw
          (
            full,
            node_write_refused size ptr n b h.0 (ground arith),
            node_write_refused size ptr n (keyless b) h.0 refl,
            put_loop-store_loop false ptr b ns h.1,
          )
          refl
  ]
