-- ===== src/PathOram/AccessTree.antt =====
-- `AccessPathORAM` from the position map's answer on: a path comes into the stash, the block is
-- taken out, exchanged with the caller's and put back under its new path, and the path is evicted.
use intel_sgx_path_oram.Common.{
  ℕ, ◌+◌, ◌%◌, ◌^◌, ◌≤◌, ◌<◌, ◌≡◌, ◌≢◌, refl, List, ◌∷◌, ◌++◌, arith, length, length_perm,
  length-append, length-replicate, length-take, length-drop, true, Bool-cases, inl, inr, ◌∙◌, sym,
  Perm, some, replicate, ltb, take, drop,
}
use intel_sgx_path_oram.Node.{Block}
use intel_sgx_path_oram.Node.Shape.{IsBuffer, IsBlock}
use intel_sgx_path_oram.Node.Keys.{count_key, last_match, erase_key, length-erase_key}
use intel_sgx_path_oram.Server.{Cipher}
use intel_sgx_path_oram.Client.{Client, Fetched, Put}
use intel_sgx_path_oram.Client.Stash.{stash_blocks}
use intel_sgx_path_oram.Client.Shape.{IsClient, stash_slots}
use intel_sgx_path_oram.Client.Tree.{Apart, path_addrs}
use intel_sgx_path_oram.Client.Upload.{IsLayout, IsHome, Untouched}
use intel_sgx_path_oram.Client.EvictPath.{RowsAre, Lies}
use intel_sgx_path_oram.Client.FetchPut.{ClientPut}
use intel_sgx_path_oram.MemTree.Access.{
  reachable, HomePath, TreeFetched, mem_tree_fetch_path_oram_lem, mem_tree_put_path_oram_lem,
  TreeFlushed, mem_tree_flush_path_oram_lem,
}
use intel_sgx_path_oram.MemTree.{Flushed, mem_tree_flush_path_oram}
use intel_sgx_path_oram.PathOram.{Oram, exchange, in_bounds, TreeAccess, access_tree}
use mathlib.Core.List.Perm
use mathlib.Core.Path.{subst}

length-splice :
    (offset : ℕ) (src bytes : List ℕ)
    → offset + length src ≤ length bytes
    → length (take offset bytes ++ src ++ drop (offset + length src) bytes) ≡ length bytes
length-splice offset src bytes fits = omega (
  arith,
  length-append (take offset bytes) (src ++ drop (offset + length src) bytes),
  length-append (take offset bytes ++ src) (drop (offset + length src) bytes),
  length-append (take offset bytes) src,
  length-append src (drop (offset + length src) bytes),
  length-take offset bytes,
  length-drop (offset + length src) bytes,
)

-- The exchange within bounds keeps the length of the block that goes back into the tree.
pub length-exchange :
    (size write_size offset : ℕ) (block fetched : List ℕ)
    → length fetched ≡ size
    → in_bounds size write_size offset block ≡ true
    → length (exchange write_size offset block fetched).fetched_block ≡ size
unfolding exchange
length-exchange size write_size offset block fetched whole within =
    elim (Bool-cases (ltb 0 write_size)) [
      | inl w ↦ rw w (
          length-splice offset (take write_size block) fetched
            (ground (arith, w, length-take write_size block))
          ∙ whole)
      | inr r ↦ rw r whole
    ]

module _ {size : ℕ} (cipher : Cipher size) (alloc : ℕ → List ℕ) where
  -- The block that goes back into the tree: the fetched bytes, exchanged with the caller's.
  abbrev pub put_back : (k new_path write_size offset : ℕ) → List ℕ → List Block → Block
  put_back k new_path write_size offset block bs = record {
    key = k;
    path = new_path;
    bytes = (exchange write_size offset block (last_match k (replicate size 0) bs)).fetched_block;
  }

  -- What an access of the key `k` on the path `old_path` gives: the caller's block after the
  -- exchange; of the blocks that could be reached, the accessed one with its new path and bytes and
  -- all others as they were; each in the stash or in a node along its path; the rest untouched.
  pub record TreeAccessed (o : Oram) (k new_path old_path : ℕ) (block : List ℕ)
      (write_size offset : ℕ) (c : Client) (t : TreeAccess) : Type 0 where
    pub client : IsClient size t.client
    pub exchanged :
        t.block
        ≡ (exchange write_size offset block
            (last_match k (replicate size 0) (reachable cipher o.tree old_path c))).block
    pub contents : Perm (reachable cipher t.oram.tree old_path t.client) (
        put_back k new_path write_size offset block (reachable cipher o.tree old_path c)
        ∷ erase_key k (reachable cipher o.tree old_path c))
    pub fetched_whole :
        length (last_match k (replicate size 0) (reachable cipher o.tree old_path c)) ≡ size
    pub lies : Lies cipher alloc old_path 0 t.oram.tree.server (path_addrs o.tree.height 0 old_path)
    pub homes : HomePath cipher alloc t.oram.tree old_path
    pub others :
        (b : ℕ)
        → Apart b (path_addrs o.tree.height 0 old_path)
        → IsHome cipher alloc o.tree.server b
        → Untouched cipher alloc o.tree.server t.oram.tree.server b
    pub same_mm : t.client.path_mm ≡ c.path_mm
    pub same_height : t.oram.tree.height ≡ o.tree.height
    pub same_capacity : t.oram.capacity ≡ o.capacity

  module _ (layout : IsLayout alloc) (word : 8 ≤ size) (whole : size % 8 ≡ 0) where
    zeros : IsBuffer size (replicate size 0)
    zeros = (omega arith, length-replicate size (0) ∙ omega arith)

    module _ (o : Oram) (k new_path old_path : ℕ) (block : List ℕ) (ws off : ℕ) (c : Client)
        (f : Fetched) (got : TreeFetched cipher alloc o.tree old_path k c f) where
      fetched_room :
          length (reachable cipher o.tree old_path c) < stash_slots
          → length (stash_blocks f.client.path) < stash_slots
      fetched_room room =
          omega (
            arith,
            length_perm got.contents,
            length-erase_key k (reachable cipher o.tree old_path c),
          )

      exchanged_block : Block
      exchanged_block = record {
        key = k;
        path = new_path;
        bytes = (exchange ws off block f.fetched_block).fetched_block;
      }

      exchanged_block-IsBlock :
          k < 2 ^ 32
          → new_path < 2 ^ 32
          → in_bounds size ws off block ≡ true
          → IsBlock size exchanged_block
      unfolding exchanged_block
      exchanged_block-IsBlock key_fits path_fits within = record {
        key_fits = key_fits;
        path_fits = path_fits;
        buffer = (
          omega arith,
          length-exchange size ws off block f.fetched_block (got.buffer.1 ∙ omega arith) within
              ∙ omega arith,
        );
      }

      accessed :
          (p : Put)
          → ClientPut size exchanged_block f.client p
          → (r : Flushed cipher) → TreeFlushed cipher alloc o.tree old_path p.client r
          → TreeAccessed o k new_path old_path block ws off c (record {
            client = r.client;
            oram = record o { tree = r.tree };
            block = (exchange ws off block f.fetched_block).block;
          })
      unfolding exchanged_block
      accessed p put r (flushed, height) = record {
        client = flushed.client;
        exchanged = rw got.bytes refl;
        contents =
            rw (height, sym got.bytes)
              (Perm.trans (Perm.symm flushed.contents)
                (Perm.trans put.contents (Perm.cons exchanged_block got.contents)));
        fetched_whole = rw (sym got.bytes) (got.buffer.1 ∙ omega arith);
        lies = flushed.lies;
        homes = rw height flushed.homes;
        others = flushed.others;
        same_mm = flushed.same_mm ∙ put.same_mm ∙ got.same_mm;
        same_height = height;
        same_capacity = refl;
      }

    -- For a block size that is a positive multiple of 8, distinct buffers, a path of at most 20
    -- levels whose nodes are good, a good client, a 32-bit new path, and a 32-bit key that is not 0
    -- and occurs at most once among the reachable blocks, fewer than 80 of these, and an exchange
    -- within bounds: fetch, exchange, put and flush succeed; the caller's block is exchanged with
    -- the fetched bytes; the reachable blocks are the same but for the accessed one, which has its
    -- new path and bytes; each node of the path holds only blocks that lie along it; the client and
    -- the nodes are good again; and no node off the path has changed.
    pub access_tree_lem :
        (o : Oram) (k new_path old_path : ℕ) (block : List ℕ) (write_size offset : ℕ) (c : Client)
        → k ≢ 0
        → k < 2 ^ 32
        → new_path < 2 ^ 32
        → o.tree.height ≤ 20
        → HomePath cipher alloc o.tree old_path
        → IsClient size c
        → in_bounds size write_size offset block ≡ true
        → count_key k (reachable cipher o.tree old_path c) ≤ 1
        → length (reachable cipher o.tree old_path c) < stash_slots
        → (t : TreeAccess) × (access_tree cipher o k new_path old_path block write_size offset c
            ≡ some t)
          × TreeAccessed o k new_path old_path block write_size offset c t
    unfolding access_tree exchanged_block
    access_tree_lem o k new_path old_path block ws off c named key_fits path_fits small homes hc
          within once room =
        let (f, fetches, got) =
          mem_tree_fetch_path_oram_lem cipher alloc o.tree old_path k 0 c zeros small homes hc
            (omega arith) once in
        let b = exchanged_block o k new_path old_path block ws off c f got in
        let (p, puts, put) =
          mem_tree_put_path_oram_lem cipher alloc o.tree b f.encrypted_content f.client named
            (exchanged_block-IsBlock o k new_path old_path block ws off c f got key_fits path_fits
              within)
            got.client (fetched_room o k new_path old_path block ws off c f got room) in
        let flushed =
          mem_tree_flush_path_oram_lem cipher alloc o.tree old_path p.client layout small put.client
            (subst (RowsAre cipher alloc 0 (path_addrs o.tree.height 0 old_path))
              (sym put.same_rows) got.rows) in
        let r = mem_tree_flush_path_oram cipher o.tree old_path p.client in
        (
          record {
            client = r.client;
            oram = record o { tree = r.tree };
            block = (exchange ws off block f.fetched_block).block;
          },
          rw (fetches, within, puts) refl,
          accessed o k new_path old_path block ws off c f got p put r flushed,
        )
