-- ===== src/PathOram/WriteRead.antt =====
-- A write followed by a read of the same index.
use intel_sgx_path_oram.Common.{
  ℕ, ◌+◌, ◌%◌, ◌^◌, ◌≤◌, ◌<◌, ◌≡◌, ◌≢◌, refl, List, [], ◌∷◌, arith, All, length, ◌∙◌, ap, sym,
  Option, none, some, get_or, set, get_or-set_ne, get_or-set_self, ne→==, Bool-cases, inl, inr,
  ◌==◌, ==→eq, ==→ne, ◌⊎◌,
}
use intel_sgx_path_oram.Oblivious.{store64}
use intel_sgx_path_oram.Node.Keys.{count_key}
use intel_sgx_path_oram.Server.{Cipher}
use intel_sgx_path_oram.Client.{Client, max_pos_map}
use intel_sgx_path_oram.Client.Shape.{IsClient, stash_slots}
use intel_sgx_path_oram.Client.Tree.{Apart, path_addrs}
use intel_sgx_path_oram.Client.Path.{All-weaken, path_addrs-lt}
use intel_sgx_path_oram.Client.Upload.{IsLayout, IsHome}
use intel_sgx_path_oram.MemTree.Access.{reachable, HomePath}
use intel_sgx_path_oram.PathOram.{
  Oram, Behind, draw_path, draw_if_zero, exchange, splice, TreeAccess, Access, write, read,
  access_path_oram,
}
use intel_sgx_path_oram.PathOram.AccessTree.{TreeAccessed}
use intel_sgx_path_oram.PathOram.AccessPath.{remapped, access_path_oram_lem}
use intel_sgx_path_oram.PathOram.ReadWrite.{stored_bytes, read_lem, exchange_write, write_bounds}
use intel_sgx_path_oram.PathOram.Found.{IsOram, IsOram-HomePath, IsFound, accessed-IsFound}
use mathlib.Core.Path.{subst}

NonzeroPath : Option (ℕ × List ℕ) → Type 0
NonzeroPath none = Unit {0}
NonzeroPath (some drawn) = drawn.0 ≢ 0

-- A drawn path is not 0.
draw_path-NonzeroPath : (rands : List ℕ) → NonzeroPath (draw_path rands)
unfolding draw_path NonzeroPath
draw_path-NonzeroPath [] = tt
draw_path-NonzeroPath (r ∷ rands) = elim (Bool-cases (r == 0)) [
  | inl e ↦ rw e (draw_path-NonzeroPath rands)
  | inr e ↦ rw e (==→ne r 0 e)
]

draw_path-ne : (rands rands' : List ℕ) (p : ℕ) → draw_path rands ≡ some (p, rands') → p ≢ 0
unfolding NonzeroPath
draw_path-ne rands rands' p h = subst NonzeroPath h (draw_path-NonzeroPath rands)

on-or-Apart {κ} : (P : ℕ → Type κ) (a : ℕ) (addrs : List ℕ) → All P addrs → P a ⊎ Apart a addrs
on-or-Apart P a [] h = inr tt
on-or-Apart P a (x ∷ addrs) h = elim (Bool-cases (x == a)) [
  | inl e ↦ inl (subst P (==→eq x a e) h.0)
  | inr e ↦ elim (on-or-Apart P a addrs h.1) [
    | inl here ↦ inl here
    | inr apart ↦ inr (==→ne x a e, apart)
  ]
]

-- The parts of an access that a tree access gives.
tree_access_of : Oram → Option Access → TreeAccess → TreeAccess
tree_access_of o none t = t
tree_access_of o (some a) t = record {
  client = a.client;
  oram = get_or a.orams 0 o;
  block = a.block;
}

module _ {size : ℕ} (cipher : Cipher size) (alloc : ℕ → List ℕ) (layout : IsLayout alloc)
    (word : 8 ≤ size) (whole : size % 8 ≡ 0) (behind : Behind) (o : Oram) (pos_map : List Oram)
    (c : Client) (rands rands₁ rands₂ rands₃ : List ℕ) (ind new_path old_path next_path : ℕ)
    (block fresh : List ℕ) (write_size offset : ℕ) (t : TreeAccess) where
  -- A read of an index right after a write of it gives the block as the write left it: the bytes
  -- stored before (zeros if there were none) with the written range replaced. The conditions: the
  -- block size is a positive multiple of 8; the nodes' buffers are distinct; drawn paths are 32-bit
  -- numbers; the index is below the capacity and below 65535, the last index of the position map;
  -- that map lies in the client and reaches to the index; every node of the tree, of at most 20
  -- levels, is good, holds only blocks whose path goes through it, and holds the block of the index
  -- under its old path if at all; the block occurs at most once among the reachable ones; the
  -- client is good; the range lies within a block and is not empty; the caller's block is as long
  -- as the range, and the reader's buffer as a block; the write succeeded; and fewer than 80 blocks
  -- are reachable before each of the two accesses.
  pub read-write :
      ind < o.capacity
      → o.capacity ≤ max_pos_map
      → ind + 1 < max_pos_map
      → ind < length c.path_mm
      → draw_path rands ≡ some (new_path, rands₁)
      → draw_if_zero (get_or c.path_mm ind 0) rands₁ ≡ some (old_path, rands₂)
      → draw_path rands₂ ≡ some (next_path, rands₃)
      → new_path < 2 ^ 32
      → next_path < 2 ^ 32
      → IsOram cipher alloc (ind + 1) old_path o
      → IsClient size c
      → count_key (ind + 1) (reachable cipher o.tree old_path c) ≤ 1
      → length (reachable cipher o.tree old_path c) < stash_slots
      → 1 ≤ write_size
      → offset + write_size ≤ size
      → length block ≡ write_size
      → write cipher behind (o ∷ pos_map) c rands ind block write_size offset
        ≡ some (record {
          client = t.client;
          orams = t.oram ∷ pos_map;
          rands = rands₂;
          block = t.block;
        })
      → length (reachable cipher t.oram.tree new_path t.client) < stash_slots
      → length fresh ≡ size
      → (r : Access) × (read cipher behind (t.oram ∷ pos_map) t.client rands₂ ind fresh ≡ some r)
        × (r.block ≡ splice offset block (stored_bytes cipher alloc ind o old_path c))
  unfolding write draw_if_zero tree_access_of store64
  read-write within small_map below longer drawn old next fits next_fits h hc once room any inside
        whole_block wrote room' buffer =
      let (t', runs', served) =
        read_lem cipher alloc layout word whole behind t.oram pos_map t.client rands₂ rands₃ rands₃
          ind next_path new_path (subst (λ (n : ℕ). ind < n) (sym got.same_capacity) within)
          (subst (λ (n : ℕ). n ≤ max_pos_map) (sym got.same_capacity) small_map) below next mapped
          next_fits (subst (λ (n : ℕ). n ≤ 20) (sym got.same_height) h.low) homes got.client
          (omega (arith, found.once)) room' fresh buffer in
      (
        _,
        runs',
        served.answer
            ∙ found.found
            ∙ ap (λ e. e.fetched_block)
                (exchange_write write_size offset block (stored_bytes cipher alloc ind o old_path c)
                  any whole_block),
      )
    where
      run :
          (t₀ : TreeAccess) × (access_path_oram cipher behind
              (o ∷ pos_map)
              c
              rands
              ind
              block
              write_size
              offset
            ≡ some (record {
              client = t₀.client;
              orams = t₀.oram ∷ pos_map;
              rands = rands₂;
              block = t₀.block;
            }))
          × TreeAccessed cipher alloc o
              (ind + 1)
              new_path
              old_path
              block
              write_size
              offset
              (remapped behind ind new_path c)
              t₀
      run =
          access_path_oram_lem cipher alloc layout word whole behind o pos_map c rands rands₁ rands₂
            ind new_path old_path block write_size offset within small_map below drawn old fits
            h.low (IsOram-HomePath cipher alloc (ind + 1) old_path old_path o h) hc
            (write_bounds size write_size offset block any inside whole_block) once room

      got :
          TreeAccessed cipher alloc o
            (ind + 1)
            new_path
            old_path
            block
            write_size
            offset
            (remapped behind ind new_path c)
            t
      got =
          subst
            (TreeAccessed cipher alloc o (ind + 1) new_path old_path block write_size offset
              (remapped behind ind new_path c))
            (sym (ap (λ a. tree_access_of o a t) (sym wrote ∙ run.1))) run.2

      found :
          IsFound cipher alloc
            (ind + 1)
            new_path
            (exchange write_size offset block
              (stored_bytes cipher alloc ind o old_path c)).fetched_block
            t.oram
            t.client
      found =
          accessed-IsFound cipher alloc o (ind + 1) new_path old_path block write_size offset
            (remapped behind ind new_path c) t h got got.client

      nonzero : new_path ≢ 0
      nonzero = draw_path-ne rands rands₁ new_path drawn

      held : get_or t.client.path_mm ind 0 ≡ new_path
      held =
          ap (λ mm. get_or mm ind 0) got.same_mm
          ∙ get_or-set_ne (set c.path_mm ind new_path) (ind + 1) ind behind.word 0
              (λ e. omega arith)
          ∙ get_or-set_self c.path_mm ind new_path 0 (omega arith)

      mapped : draw_if_zero (get_or t.client.path_mm ind 0) rands₃ ≡ some (new_path, rands₃)
      mapped = rw (held, ne→== new_path 0 nonzero) refl

      all_homes : (a : ℕ) → a < 2 ^ o.tree.height → IsHome cipher alloc t.oram.tree.server a
      all_homes a below =
          elim (on-or-Apart (IsHome cipher alloc t.oram.tree.server) a
            (path_addrs o.tree.height 0 old_path)
            (subst
              (λ (height : ℕ).
                All (IsHome cipher alloc t.oram.tree.server) (path_addrs height 0 old_path))
              got.same_height got.homes)) [
                | inl home ↦ home
                | inr apart ↦ (got.others a apart (h.homes a below)).home
              ]

      homes : HomePath cipher alloc t.oram.tree new_path
      homes =
          subst
            (λ (height : ℕ).
              All (IsHome cipher alloc t.oram.tree.server) (path_addrs height 0 new_path))
            (sym got.same_height)
            (All-weaken (λ x. x < 2 ^ o.tree.height) (IsHome cipher alloc t.oram.tree.server)
              (path_addrs o.tree.height 0 new_path) all_homes
              (path_addrs-lt o.tree.height new_path h.low))
