-- ===== src/MemTree/Access.antt =====
-- The three calls that PathORAM makes on a tree whose nodes have buffers of their own.
use intel_sgx_path_oram.Common.{
  ℕ, ◌≤◌, ◌<◌, ◌≡◌, ◌≢◌, List, ◌++◌, arith, length, All, ◌∙◌, some, replicate, Perm, sym, refl,
}
use intel_sgx_path_oram.Node.{Block}
use intel_sgx_path_oram.Node.Shape.{IsBuffer, IsBlock}
use intel_sgx_path_oram.Node.Keys.{count_key, last_match, erase_key}
use intel_sgx_path_oram.Node.Order.{count_key-perm, erase_key-perm, last_match-perm}
use intel_sgx_path_oram.Server.{Cipher}
use intel_sgx_path_oram.Client.{Client, Fetched, Put, oblivious_fetch}
use intel_sgx_path_oram.Client.Stash.{stash_blocks}
use intel_sgx_path_oram.Client.Shape.{IsClient, stash_slots}
use intel_sgx_path_oram.Client.Tree.{path_addrs, path_blocks}
use intel_sgx_path_oram.Client.Upload.{IsLayout, IsHome}
use intel_sgx_path_oram.Client.EvictPath.{RowsAre, PathEvicted}
use intel_sgx_path_oram.Client.WholePath.{download_path_lem, evict_path_lem}
use intel_sgx_path_oram.Client.FetchPut.{oblivious_fetch_lem, ClientPut, oblivious_put_to_stash_lem}
use intel_sgx_path_oram.MemTree.{
  MemTree, Flushed, mem_tree_fetch_path_oram, mem_tree_put_path_oram, mem_tree_flush_path_oram,
}
use mathlib.Core.Path.{subst}

-- The blocks of a path of the tree and of the stash, where a block on that path must lie.
abbrev pub reachable : {size : ℕ} → Cipher size → MemTree → ℕ → Client → List Block
reachable cipher tree tree_path c =
    path_blocks cipher tree.server (path_addrs tree.height 0 tree_path) ++ stash_blocks c.path

module _ {size : ℕ} (cipher : Cipher size) (alloc : ℕ → List ℕ) where
  -- The nodes of the path are good and have their own buffers.
  abbrev pub HomePath : MemTree → ℕ → Type 0
  HomePath tree tree_path =
      All (IsHome cipher alloc tree.server) (path_addrs tree.height 0 tree_path)

  -- What the fetch of the key `k` gives: every block that can be reached is in the stash, but for
  -- the one with the key, whose bytes are fetched.
  pub record TreeFetched (tree : MemTree) (block_path k : ℕ) (c : Client) (r : Fetched)
      : Type 0 where
    pub client : IsClient size r.client
    pub contents :
        Perm (stash_blocks r.client.path) (erase_key k (reachable cipher tree block_path c))
    pub bytes :
        r.fetched_block ≡ last_match k (replicate size 0) (reachable cipher tree block_path c)
    pub buffer : IsBuffer size r.fetched_block
    pub same_mm : r.client.path_mm ≡ c.path_mm
    pub rows :
        RowsAre cipher alloc 0
          (path_addrs tree.height 0 block_path)
          r.client.encrypted_data_addr_in_path

  pub mem_tree_fetch_path_oram_lem :
      (tree : MemTree) (block_path k ptr : ℕ) (c : Client)
      → IsBuffer size (replicate size 0)
      → tree.height ≤ 20
      → HomePath tree block_path
      → IsClient size c
      → length (reachable cipher tree block_path c) ≤ stash_slots
      → count_key k (reachable cipher tree block_path c) ≤ 1
      → (r : Fetched) × (mem_tree_fetch_path_oram cipher tree block_path k ptr c ≡ some r)
        × TreeFetched tree block_path k c r
  unfolding mem_tree_fetch_path_oram
  mem_tree_fetch_path_oram_lem tree block_path k ptr c zeros small homes hc room once =
      let (c', runs, joined, rows) =
        download_path_lem cipher alloc tree.server tree.height block_path c small homes hc room in
      let got =
        oblivious_fetch_lem size k ptr c' zeros joined.client
          (omega (arith, count_key-perm k joined.contents)) in
      (
        oblivious_fetch size k ptr c',
        rw runs refl,
        record {
          client = got.client;
          contents = rw got.contents (erase_key-perm k joined.contents);
          bytes = got.bytes ∙ last_match-perm k (replicate size 0) joined.contents once;
          buffer = got.buffer;
          same_mm = got.same_mm ∙ joined.same_mm;
          rows =
              subst (RowsAre cipher alloc 0 (path_addrs tree.height 0 block_path))
                (sym got.same_rows) rows;
        },
      )

  pub mem_tree_put_path_oram_lem :
      (tree : MemTree) (b : Block) (ptr : ℕ) (c : Client)
      → b.key ≢ 0
      → IsBlock size b
      → IsClient size c
      → length (stash_blocks c.path) < stash_slots
      → (r : Put) × (mem_tree_put_path_oram cipher tree b ptr c ≡ some r) × ClientPut size b c r
  unfolding mem_tree_put_path_oram
  mem_tree_put_path_oram_lem tree b ptr c named hb hc room =
      oblivious_put_to_stash_lem size ptr b c named hb hc room

  -- The flush of a path from the client `c`.
  abbrev pub TreeFlushed : MemTree → ℕ → Client → Flushed cipher → Type 0
  TreeFlushed tree rand_path c r =
      PathEvicted cipher alloc rand_path 0 (path_addrs tree.height 0 rand_path)
        (record { client = c; server = tree.server })
        (record { client = r.client; server = r.tree.server })
      × (r.tree.height ≡ tree.height)

  pub mem_tree_flush_path_oram_lem :
      (tree : MemTree) (rand_path : ℕ) (c : Client)
      → IsLayout alloc
      → tree.height ≤ 20
      → IsClient size c
      → RowsAre cipher alloc 0 (path_addrs tree.height 0 rand_path) c.encrypted_data_addr_in_path
      → TreeFlushed tree rand_path c (mem_tree_flush_path_oram cipher tree rand_path c)
  unfolding mem_tree_flush_path_oram
  mem_tree_flush_path_oram_lem tree rand_path c layout small hc rows =
      (evict_path_lem cipher alloc tree.height rand_path _ layout small hc rows, refl)
