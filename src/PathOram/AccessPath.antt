-- ===== src/PathOram/AccessPath.antt =====
-- `AccessPathORAM` on an ORAM whose position map lies in the client.
use intel_sgx_path_oram.Common.{
  ℕ, ◌+◌, ◌%◌, ◌^◌, ◌≤◌, ◌<◌, ◌≡◌, refl, List, ◌∷◌, arith, length, true, some, get_or, lt→ltb,
  le→leb,
}
use intel_sgx_path_oram.Oblivious.{load64, store64}
use intel_sgx_path_oram.Node.Keys.{count_key}
use intel_sgx_path_oram.Server.{Cipher}
use intel_sgx_path_oram.Client.{Client, max_pos_map}
use intel_sgx_path_oram.Client.Shape.{IsClient, stash_slots}
use intel_sgx_path_oram.Client.PosMap.{write_mm_in_client_below, remapped-IsClient}
use intel_sgx_path_oram.Client.Upload.{IsLayout}
use intel_sgx_path_oram.MemTree.Access.{reachable, HomePath}
use intel_sgx_path_oram.PathOram.{
  Oram, Behind, map_in_client, draw_path, draw_if_zero, in_bounds, TreeAccess, access_path_oram,
}
use intel_sgx_path_oram.PathOram.AccessTree.{TreeAccessed, access_tree_lem}

-- The client once the position map has the new path for the index.
abbrev pub remapped : Behind → ℕ → ℕ → Client → Client
remapped behind ind new_path c = record c {
  path_mm = store64 c.path_mm ind (record { lo = new_path; hi = behind.word });
}

map_in_client_lem :
    (behind : Behind) (pos_map : List Oram) (rands : List ℕ) (ind new_path : ℕ) (c : Client)
    → ind + 1 < max_pos_map
    → map_in_client behind pos_map rands ind new_path c ≡ record {
      client = remapped behind ind new_path c;
      pos_map = pos_map;
      rands = rands;
      old_path = get_or c.path_mm ind 0;
    }
unfolding map_in_client load64
map_in_client_lem behind pos_map rands ind new_path c below = rw (
    write_mm_in_client_below ind behind.r14 (record { lo = new_path; hi = behind.word })
      behind.elsewhere c below)

module _ {size : ℕ} (cipher : Cipher size) (alloc : ℕ → List ℕ) (layout : IsLayout alloc)
    (word : 8 ≤ size) (whole : size % 8 ≡ 0) where
  -- With the position map in the client, an index below 65535, its last one, and the other
  -- conditions of a write or a read, `AccessPathORAM` succeeds: the new path of the index and the
  -- word behind it in memory replace two neighbouring words of the position map, and the rest of
  -- the access is that of `access_tree_lem` on the old path that the map held, or on one drawn if
  -- that was 0.
  pub access_path_oram_lem :
      (behind : Behind) (o : Oram) (pos_map : List Oram) (c : Client) (rands rands₁ rands₂ : List ℕ)
      (ind new_path old_path : ℕ) (block : List ℕ) (write_size offset : ℕ)
      → ind < o.capacity
      → o.capacity ≤ max_pos_map
      → ind + 1 < max_pos_map
      → draw_path rands ≡ some (new_path, rands₁)
      → draw_if_zero (get_or c.path_mm ind 0) rands₁ ≡ some (old_path, rands₂)
      → new_path < 2 ^ 32
      → o.tree.height ≤ 20
      → HomePath cipher alloc o.tree old_path
      → IsClient size c
      → in_bounds size write_size offset block ≡ true
      → count_key (ind + 1) (reachable cipher o.tree old_path c) ≤ 1
      → length (reachable cipher o.tree old_path c) < stash_slots
      → (t : TreeAccess) × (access_path_oram cipher behind
            (o ∷ pos_map)
            c
            rands
            ind
            block
            write_size
            offset
          ≡ some (record {
            client = t.client;
            orams = t.oram ∷ pos_map;
            rands = rands₂;
            block = t.block;
          }))
        × TreeAccessed cipher alloc o
            (ind + 1)
            new_path
            old_path
            block
            write_size
            offset
            (remapped behind ind new_path c)
            t
  unfolding access_path_oram
  access_path_oram_lem behind o pos_map c rands rands₁ rands₂ ind new_path old_path block ws off
        within small_map below drawn old fits small homes hc bounds once room =
      let (t, runs, accessed) =
        access_tree_lem cipher alloc layout word whole o (ind + 1) new_path old_path block ws off
          (remapped behind ind new_path c) (λ e. omega arith) (omega arith) fits small homes
          (remapped-IsClient size _ c hc) bounds once room in
      (
        t,
        rw
            (
              lt→ltb ind o.capacity within,
              drawn,
              le→leb o.capacity max_pos_map small_map,
              map_in_client_lem behind pos_map rands₁ ind new_path c below,
              old,
              key,
              runs,
            )
            refl,
        accessed,
      )
    where
      key : (ind + 1) % 2 ^ 32 ≡ ind + 1
      key = omega arith
