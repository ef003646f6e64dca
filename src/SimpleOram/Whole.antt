-- ===== src/SimpleOram/Whole.antt =====
-- `AccessSimpleORAM` with the position map in the client, as `simple_read` and `simple_write` call
-- it.
use intel_sgx_path_oram.Common.{
  ℕ, ◌+◌, ◌%◌, ◌^◌, ◌≤◌, ◌<◌, ◌≡◌, refl, List, ◌∷◌, arith, get_or, some, true, replicate, lt→ltb,
  le→leb,
}
use intel_sgx_path_oram.Node.{blocks_per_node}
use intel_sgx_path_oram.Node.Shape.{IsBuffer}
use intel_sgx_path_oram.Oblivious.{load64}
use intel_sgx_path_oram.Client.{Client, max_pos_map}
use intel_sgx_path_oram.Client.PosMap.{write_mm_in_client_below}
use intel_sgx_path_oram.PathOram.{Behind, draw_path, in_bounds}
use intel_sgx_path_oram.PathOram.AccessPath.{remapped}
use intel_sgx_path_oram.Simple.{TreeStore}
use intel_sgx_path_oram.Simple.Store.{IsTreeStore}
use intel_sgx_path_oram.SimpleTree.{mem_tree_fetch}
use intel_sgx_path_oram.SimpleTree.Rewrite.{IsSimpleClient}
use intel_sgx_path_oram.SimpleOram.{
  SimpleOram, SimpleTreeAccess, SimpleAccess, simple_map_in_client, access_simple_oram,
}
use intel_sgx_path_oram.SimpleOram.Invariant.{IsSimpleTree}
use intel_sgx_path_oram.SimpleOram.Access.{Accessed, access_simple_tree_lem}
use intel_sgx_path_oram.SimpleOram.FullRoot.{root_load}

module _ {S : Type 0} (store : TreeStore S) (size : ℕ) (alloc : ℕ → List ℕ) where
  simple_map_in_client_lem :
      (behind : Behind) (pos_map : List (SimpleOram S)) (rands : List ℕ) (ind new_path : ℕ)
      (c : Client)
      → ind + 1 < max_pos_map
      → simple_map_in_client store size behind pos_map rands ind new_path c ≡ record {
        client = remapped behind ind new_path c;
        pos_map = pos_map;
        rands = rands;
        old_path = get_or c.path_mm ind 0;
      }
  unfolding simple_map_in_client load64
  simple_map_in_client_lem behind pos_map rands ind new_path c below = rw (
      write_mm_in_client_below ind behind.r14 (record { lo = new_path; hi = behind.word })
        behind.elsewhere c below)

  -- The result of an access to the first ORAM of the list.
  abbrev pub after_access : SimpleOram S → List (SimpleOram S) → SimpleTreeAccess S → SimpleAccess S
  after_access o pos_map t = record {
    client = t.client;
    orams = record o { tree = t.tree } ∷ pos_map;
    rands = t.rands;
    block = t.block;
  }

  -- `AccessSimpleORAM` with its position map in the client. Let the index be below the capacity,
  -- which is at most 65536, and below 65535, the last index of that map, the first non-zero random
  -- value be a 32-bit number and followed by one for the flush, the word of the map at the index be
  -- the path under which the tree's invariant has the key, the root not be full after the fetch,
  -- and the store, the zeros, the height, the client and the range be as in
  -- `access_simple_tree_lem`. Then the access succeeds, only the first ORAM of the list changes,
  -- and the access to its tree is that of `access_simple_tree_lem` for the key `ind + 1`, from the
  -- client whose position map has the new path at the index.
  pub access_simple_oram_lem :
      IsTreeStore size alloc store
      → (behind : Behind) (o : SimpleOram S) (pos_map : List (SimpleOram S)) (c : Client)
        (pos : ℕ → ℕ) (rands : List ℕ) (ind new_path rand_path : ℕ) (left : List ℕ) (block : List ℕ)
        (ws off : ℕ)
      → IsBuffer size (replicate size 0)
      → ind < o.capacity
      → o.capacity ≤ max_pos_map
      → ind + 1 < max_pos_map
      → draw_path rands ≡ some (new_path, rand_path ∷ left)
      → new_path < 2 ^ 32
      → 1 ≤ o.tree.height
      → o.tree.height ≤ 20
      → pos (ind + 1) ≡ get_or c.path_mm ind 0
      → IsSimpleTree store size alloc o.tree.server o.tree.height pos
      → IsSimpleClient size o.tree.height c
      → in_bounds size ws off block ≡ true
      → root_load store size alloc
          (mem_tree_fetch store size o.tree
            (pos (ind + 1))
            (ind + 1)
            (remapped behind ind new_path c)).tree.server
        < blocks_per_node
      → (t : SimpleTreeAccess S) × (access_simple_oram store size behind
            (o ∷ pos_map)
            c
            rands
            ind
            block
            ws
            off
          ≡ some (after_access o pos_map t))
        × Accessed store size alloc o.tree pos
            (ind + 1)
            new_path
            ws
            off
            block
            left
            (remapped behind ind new_path c)
            t
  unfolding access_simple_oram
  access_simple_oram_lem lawful behind o pos_map c pos rands ind new_path rand_path left block ws
        off zeros within small_map below drawn fits high small mapped ht hc bounds room =
      let (t, runs, accessed) =
        access_simple_tree_lem store size alloc lawful o.tree pos (ind + 1) new_path ws off block
          rand_path left (remapped behind ind new_path c) zeros high small (λ e. omega arith)
          (omega arith) fits bounds ht
          (record { twenty = hc.twenty; rest = hc.rest; unused = hc.unused }) room in
      (
        t,
        rw
            (
              lt→ltb ind o.capacity within,
              drawn,
              le→leb o.capacity max_pos_map small_map,
              simple_map_in_client_lem behind pos_map (rand_path ∷ left) ind new_path c below,
              ← mapped,
              key,
              runs,
            )
            refl,
        accessed,
      )
    where
      key : (ind + 1) % 2 ^ 32 ≡ ind + 1
      key = omega arith
