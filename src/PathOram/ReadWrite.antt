-- ===== src/PathOram/ReadWrite.antt =====
-- `PathORAM::read` and `PathORAM::write` on an ORAM whose position map lies in the client.
use intel_sgx_path_oram.Common.{
  ℕ, zero, suc, ◌+◌, ◌%◌, ◌^◌, ◌≤◌, ◌<◌, ◌≡◌, refl, List, [], ◌∷◌, ◌++◌, arith, length, true, ◌∙◌,
  ap, sym, some, get_or, drop, take-all, replicate, lt→ltb, le→leb, Perm,
}
use intel_sgx_path_oram.Node.Keys.{count_key, last_match, erase_key}
use intel_sgx_path_oram.Server.{Cipher}
use intel_sgx_path_oram.Client.{Client, max_pos_map}
use intel_sgx_path_oram.Client.Shape.{IsClient, stash_slots}
use intel_sgx_path_oram.Client.Upload.{IsLayout}
use intel_sgx_path_oram.MemTree.Access.{reachable, HomePath}
use intel_sgx_path_oram.PathOram.{
  Oram, Behind, draw_path, draw_if_zero, exchange, in_bounds, slice, splice, TreeAccess, write,
  read,
}
use mathlib.Core.Path.{subst}
use intel_sgx_path_oram.PathOram.AccessPath.{access_path_oram_lem}

drop-all : (n : ℕ) (xs : List ℕ) → length xs ≤ n → drop n xs ≡ []
drop-all zero [] h = refl
drop-all zero (x ∷ xs) h = absurd (omega arith)
drop-all (suc n) [] h = refl
drop-all (suc n) (x ∷ xs) h = drop-all n xs (omega arith)

append_nil : (xs : List ℕ) → xs ++ [] ≡ xs
append_nil [] = refl
append_nil (x ∷ xs) = ap (◌∷◌ x) (append_nil xs)

exchange_read :
    (block fetched : List ℕ)
    → length block ≡ length fetched
    → (exchange 0 0 block fetched).block ≡ fetched
unfolding exchange
exchange_read block fetched h =
    rw (drop-all (length fetched) block (omega arith)) (append_nil fetched)

pub exchange_write :
    (write_size offset : ℕ) (block fetched : List ℕ)
    → 1 ≤ write_size
    → length block ≡ write_size
    → exchange write_size offset block fetched ≡ record {
      fetched_block = splice offset block fetched;
      block = slice offset write_size fetched;
    }
unfolding exchange
exchange_write ws off block fetched any h =
    rw
      (
        lt→ltb 0 ws any,
        take-all ws block (omega arith),
        drop-all ws block (omega arith),
        append_nil (slice off ws fetched),
      )
      refl

pub write_bounds :
    (size write_size offset : ℕ) (block : List ℕ)
    → 1 ≤ write_size
    → offset + write_size ≤ size
    → length block ≡ write_size
    → in_bounds size write_size offset block ≡ true
write_bounds size ws off block any inside whole_block =
    rw (lt→ltb 0 ws any, le→leb (off + ws) size inside, le→leb ws (length block) (omega arith)) refl

module _ {size : ℕ} (cipher : Cipher size) (alloc : ℕ → List ℕ) where
  -- The block of the index `ind` as the tree and the stash have it, or zeros.
  abbrev pub stored_bytes : ℕ → Oram → ℕ → Client → List ℕ
  stored_bytes ind o path c =
      last_match (ind + 1) (replicate size 0) (reachable cipher o.tree path c)

  -- What an access of `ind` leaves that puts `bytes` back and hands `result` to the caller.
  pub record Served (ind new_path old_path : ℕ) (bytes result : List ℕ) (o : Oram) (c : Client)
      (t : TreeAccess) : Type 0 where
    pub client : IsClient size t.client
    pub answer : t.block ≡ result
    pub contents : Perm (reachable cipher t.oram.tree old_path t.client) (
        record { key = ind + 1; path = new_path; bytes = bytes }
        ∷ erase_key (ind + 1) (reachable cipher o.tree old_path c))
    pub homes : HomePath cipher alloc t.oram.tree old_path

  module _ (layout : IsLayout alloc) (word : 8 ≤ size) (whole : size % 8 ≡ 0) (behind : Behind)
      (o : Oram) (pos_map : List Oram) (c : Client) (rands rands₁ rands₂ : List ℕ)
      (ind new_path old_path : ℕ) (within : ind < o.capacity) (small_map : o.capacity ≤ max_pos_map)
      (below : ind + 1 < max_pos_map) (drawn : draw_path rands ≡ some (new_path, rands₁))
      (old : draw_if_zero (get_or c.path_mm ind 0) rands₁ ≡ some (old_path, rands₂))
      (fits : new_path < 2 ^ 32) (small : o.tree.height ≤ 20)
      (homes : HomePath cipher alloc o.tree old_path) (hc : IsClient size c)
      (once : count_key (ind + 1) (reachable cipher o.tree old_path c) ≤ 1)
      (room : length (reachable cipher o.tree old_path c) < stash_slots) where
    -- Under the same conditions, and with a fresh buffer of one block, `read` succeeds; the buffer
    -- holds the bytes of the block of the index (zeros if there was none); of the reachable blocks
    -- only that of the index has changed, to the new path; and the client and the nodes of the path
    -- are good again.
    pub read_lem :
        (fresh : List ℕ)
        → length fresh ≡ size
        → (t : TreeAccess) × (read cipher behind (o ∷ pos_map) c rands ind fresh
            ≡ some (record {
              client = t.client;
              orams = t.oram ∷ pos_map;
              rands = rands₂;
              block = t.block;
            }))
          × Served ind new_path old_path
              (stored_bytes ind o old_path c)
              (stored_bytes ind o old_path c)
              o
              c
              t
    unfolding read exchange
    read_lem fresh buffer =
        let (t, runs, got) =
          access_path_oram_lem cipher alloc layout word whole behind o pos_map c rands rands₁ rands₂
            ind new_path old_path fresh 0 0 within small_map below drawn old fits small homes hc
            (le→leb size (length fresh) (omega arith)) once room in
        (
          t,
          runs,
          record {
            client = got.client;
            answer = got.exchanged ∙ exchange_read fresh _ (buffer ∙ sym got.fetched_whole);
            contents = got.contents;
            homes = got.homes;
          },
        )

    -- Let the block size be a positive multiple of 8, the nodes' buffers distinct, the tree of at
    -- most 20 levels and the new path a 32-bit number. On an ORAM whose position map lies in the
    -- client, let the index be below the capacity and below 65535, the last index of that map, the
    -- block of the index occur at most once among the blocks that can be reached (those of the
    -- stash and of the nodes on its old path), fewer than 80 blocks be reachable, the nodes of that
    -- path be good and the client too, and the written range be as long as the caller's block, not
    -- empty, and lie within a block. Then `write` succeeds; the caller gets the old bytes of the
    -- range; of the reachable blocks only that of the index has changed, to the new path and to its
    -- old bytes (zeros if there was none) with the range replaced; and the client and the nodes of
    -- the path are good again.
    pub write_lem :
        (block : List ℕ) (write_size offset : ℕ)
        → 1 ≤ write_size
        → offset + write_size ≤ size
        → length block ≡ write_size
        → (t : TreeAccess) × (write cipher behind (o ∷ pos_map) c rands ind block write_size offset
            ≡ some (record {
              client = t.client;
              orams = t.oram ∷ pos_map;
              rands = rands₂;
              block = t.block;
            }))
          × Served ind new_path old_path
              (splice offset block (stored_bytes ind o old_path c))
              (slice offset write_size (stored_bytes ind o old_path c))
              o
              c
              t
    unfolding write
    write_lem block ws off some_bytes inside whole_block =
        let (t, runs, got) =
          access_path_oram_lem cipher alloc layout word whole behind o pos_map c rands rands₁ rands₂
            ind new_path old_path block ws off within small_map below drawn old fits small homes hc
            (write_bounds size ws off block some_bytes inside whole_block) once room in
        (
          t,
          runs,
          record {
            client = got.client;
            answer = got.exchanged ∙ ap (λ e. e.block) exchanged;
            contents =
                subst
                  (λ e. Perm (reachable cipher t.oram.tree old_path t.client) (
                    record { key = ind + 1; path = new_path; bytes = e.fetched_block }
                    ∷ erase_key (ind + 1) (reachable cipher o.tree old_path c)))
                  exchanged got.contents;
            homes = got.homes;
          },
        )
      where
        exchanged : exchange ws off block (stored_bytes ind o old_path c) ≡ record {
          fetched_block = splice off block (stored_bytes ind o old_path c);
          block = slice off ws (stored_bytes ind o old_path c);
        }
        exchanged =
            exchange_write ws off block (stored_bytes ind o old_path c) some_bytes whole_block
