-- ===== src/SimpleOram/Access.antt =====
-- `AccessSimpleORAM`, from the position map's answer on: fetch, exchange, put and flush.
use intel_sgx_path_oram.Common.{
  ℕ, ◌^◌, ◌≤◌, ◌<◌, ◌≡◌, ◌≢◌, refl, List, ◌∷◌, arith, ◌∙◌, ap, sym, replicate, true, some,
  length-replicate, leb, le→leb,
}
use mathlib.Core.Path.{subst}
use intel_sgx_path_oram.Node.{Block, blocks_per_node}
use intel_sgx_path_oram.Node.Shape.{IsBlock, IsBuffer}
use intel_sgx_path_oram.Server.{update}
use intel_sgx_path_oram.Client.{Client}
use intel_sgx_path_oram.PathOram.{exchange, in_bounds}
use intel_sgx_path_oram.PathOram.AccessTree.{length-exchange}
use intel_sgx_path_oram.Simple.{TreeStore, RootPut}
use intel_sgx_path_oram.Simple.Store.{IsTreeStore}
use intel_sgx_path_oram.SimpleTree.{
  SimpleTree, TreeRead, TreeWorld, mem_tree_fetch, mem_tree_put, mem_tree_flush,
}
use intel_sgx_path_oram.SimpleTree.Rewrite.{IsSimpleClient}
use intel_sgx_path_oram.SimpleTree.Fetch.{TreeReads, mem_tree_fetch_lem}
use intel_sgx_path_oram.SimpleTree.Put.{RootTakes, mem_tree_put_lem}
use intel_sgx_path_oram.SimpleTree.Flush.{TreeFlushes, mem_tree_flush_lem}
use intel_sgx_path_oram.SimpleTree.FetchAll.{mem_tree_fetch-ReadOff}
use intel_sgx_path_oram.SimpleTree.PutAll.{mem_tree_put-PutOn}
use intel_sgx_path_oram.SimpleTree.FlushAll.{mem_tree_flush-FlushedOn}
use intel_sgx_path_oram.SimpleOram.{
  SimpleTreeAccess, generate_my_rand, flush_root, access_simple_tree, flush_thresh_root,
}
use intel_sgx_path_oram.SimpleOram.Invariant.{
  AtPos-Homed, IsSimpleTree, held, IsWithout, fetched-IsWithout, put-IsSimpleTree,
  flushed-IsSimpleTree,
}
use intel_sgx_path_oram.SimpleOram.FullRoot.{root_home, root_load}

module _ {S : Type 0} (store : TreeStore S) (size : ℕ) (alloc : ℕ → List ℕ) where
  -- The run of an access whose put succeeds and leaves the root with a block.
  access_simple_tree_runs :
      (tree : SimpleTree S) (k new_path old_path ws off : ℕ) (block : List ℕ) (rand : ℕ)
      (rands : List ℕ) (c : Client) (put : RootPut S)
      → let f = mem_tree_fetch store size tree old_path k c in
        let ex = exchange ws off block f.fetched_block in
        let flushed =
          mem_tree_flush store size
            (record { height = tree.height; server = put.server })
            rand
            put.client in
        in_bounds size ws off block ≡ true
        → mem_tree_put store size f.tree
            (record { key = k; path = new_path; bytes = ex.fetched_block })
            f.client
          ≡ some put
        → leb flush_thresh_root put.root_load ≡ true
        → f.tree.height ≡ tree.height
        → access_simple_tree store size tree k new_path old_path block ws off (rand ∷ rands) c
          ≡ some (record {
            client = flushed.client;
            tree = flushed.tree;
            rands = rands;
            block = ex.block;
          })
  unfolding access_simple_tree flush_root generate_my_rand
  access_simple_tree_runs tree k new_path old_path ws off block rand rands c put within puts loaded
        same =
      rw (within, puts, loaded, same) refl

  -- What an access to the key `k` gives, under the new path.
  pub record Accessed (tree : SimpleTree S) (pos : ℕ → ℕ) (k new_path ws off : ℕ) (block : List ℕ)
      (rands : List ℕ) (c : Client) (r : SimpleTreeAccess S) : Type 0 where
    pub tree' : IsSimpleTree store size alloc r.tree.server tree.height (update pos k new_path)
    pub client : IsSimpleClient size tree.height r.client
    pub same_mm : r.client.path_mm ≡ c.path_mm
    pub same_height : r.tree.height ≡ tree.height
    pub rands_left : r.rands ≡ rands
    pub given :
        r.block
        ≡ (exchange ws off block (held store size alloc tree.server tree.height pos k)).block
    pub stored :
        held store size alloc r.tree.server tree.height (update pos k new_path) k
        ≡ (exchange ws off block
            (held store size alloc tree.server tree.height pos k)).fetched_block
    pub others :
        (j : ℕ)
        → j ≢ k
        → held store size alloc r.tree.server tree.height (update pos k new_path) j
          ≡ held store size alloc tree.server tree.height pos j

  -- For a lawful store, a block of zeros that is a buffer, a tree of 1 to 20 levels that keeps its
  -- invariant under the position map, a client that keeps no block below those levels, a 32-bit key
  -- other than 0, a 32-bit new path, an exchange within bounds, a random value for the flush, and a
  -- root that is not full after the fetch: the access under the old path that the map gives
  -- succeeds; it exchanges the caller's block with the bytes that the tree held for the key (zeros
  -- if none); the tree then holds the result for the key, under the new path, and for every other
  -- key what it held before; the tree's invariant, under the updated map, and the client's are
  -- kept, and the position map in the client has not changed.
  pub access_simple_tree_lem :
      IsTreeStore size alloc store
      → (tree : SimpleTree S) (pos : ℕ → ℕ) (k new_path ws off : ℕ) (block : List ℕ) (rand : ℕ)
        (rands : List ℕ) (c : Client)
      → IsBuffer size (replicate size 0)
      → 1 ≤ tree.height
      → tree.height ≤ 20
      → k ≢ 0
      → k < 2 ^ 32
      → new_path < 2 ^ 32
      → in_bounds size ws off block ≡ true
      → IsSimpleTree store size alloc tree.server tree.height pos
      → IsSimpleClient size tree.height c
      → root_load store size alloc (mem_tree_fetch store size tree (pos k) k c).tree.server
        < blocks_per_node
      → (r : SimpleTreeAccess S) × (access_simple_tree store size tree k new_path
            (pos k)
            block
            ws
            off
            (rand ∷ rands)
            c
          ≡ some r)
        × Accessed tree pos k new_path ws off block rands c r
  access_simple_tree_lem lawful tree pos k new_path ws off block rand rands c zeros high small named
        key_fits path_fits within ht hc room =
      (
        record {
          client = flushed.client;
          tree = flushed.tree;
          rands = rands;
          block = (exchange ws off block f.fetched_block).block;
        },
        access_simple_tree_runs tree k new_path (pos k) ws off block rand rands c put.0 within put.1
            (le→leb 1 put.0.root_load (omega (arith, takes.root_load))) reads.same_height,
        record {
          tree' = final.0;
          client = flushes.client;
          same_mm = flushes.same_mm ∙ takes.same_mm ∙ reads.same_mm;
          same_height = flushes.same_height;
          rands_left = refl;
          given = ap (λ (bytes : List ℕ). (exchange ws off block bytes).block) reads.bytes;
          stored =
              final.1 k
              ∙ placed.1
              ∙ ap (λ (bytes : List ℕ). (exchange ws off block bytes).fetched_block) reads.bytes;
          others = λ j ne. final.1 j ∙ placed.2 j ne ∙ without.1 j ne;
        },
      )
    where
      f : TreeRead S
      f = mem_tree_fetch store size tree (pos k) k c

      reads : TreeReads store size alloc tree (pos k) k c f
      reads =
          mem_tree_fetch_lem store size alloc lawful tree (pos k) k c zeros small (ht.homes (pos k))
            hc (ht.once k)

      without :
          IsWithout store size alloc f.tree.server tree.height pos k
          × ((j : ℕ)
              → j ≢ k
              → held store size alloc f.tree.server tree.height pos j
                ≡ held store size alloc tree.server tree.height pos j)
      without =
          fetched-IsWithout store size alloc tree.server f.tree.server tree.height pos k ht (λ p.
            mem_tree_fetch-ReadOff store size alloc tree (pos k) k p c f small reads (ht.homes p)
              (ht.lie p) (AtPos-Homed pos k _ (ht.mapped p)))

      b : Block
      b = record {
        key = k;
        path = new_path;
        bytes = (exchange ws off block f.fetched_block).fetched_block;
      }

      b-IsBlock : IsBlock size b
      b-IsBlock = record {
        key_fits = key_fits;
        path_fits = path_fits;
        buffer = (
          zeros.0,
          length-exchange size ws off block f.fetched_block
                (reads.buffer.1 ∙ sym zeros.1 ∙ length-replicate size 0) within
              ∙ sym (length-replicate size 0)
              ∙ zeros.1,
        );
      }

      put :
          (r : RootPut S) × (mem_tree_put store size f.tree b f.client ≡ some r)
          × RootTakes store size alloc f.tree.height f.tree.server b f.client r
      put =
          mem_tree_put_lem store size alloc lawful f.tree b f.client
            (omega (arith, reads.same_height, high)) named b-IsBlock
            (root_home store size alloc tree.height f.tree.server high (without.0.tree.homes 0))
            (subst (λ (h : ℕ). IsSimpleClient size h f.client) (sym reads.same_height) reads.client)
            room

      takes : RootTakes store size alloc tree.height f.tree.server b f.client put.0
      takes =
          subst (λ (h : ℕ). RootTakes store size alloc h f.tree.server b f.client put.0)
            reads.same_height put.2

      placed :
          IsSimpleTree store size alloc put.0.server tree.height (update pos k new_path)
          × (held store size alloc put.0.server tree.height (update pos k new_path) k ≡ b.bytes)
          × ((j : ℕ)
              → j ≢ k
              → held store size alloc put.0.server tree.height (update pos k new_path) j
                ≡ held store size alloc f.tree.server tree.height pos j)
      placed =
          put-IsSimpleTree store size alloc f.tree.server put.0.server tree.height pos b without.0
            (λ p.
              mem_tree_put-PutOn store size alloc tree.height p f.tree.server b f.client put.0 high
                small takes (without.0.tree.homes p) (without.0.tree.lie p))

      t2 : SimpleTree S
      t2 = record { height = tree.height; server = put.0.server }

      flushed : TreeWorld S
      flushed = mem_tree_flush store size t2 rand put.0.client

      flushes : TreeFlushes store size alloc t2 rand put.0.client flushed
      flushes =
          mem_tree_flush_lem store size alloc lawful t2 rand put.0.client small
            (placed.0.homes rand) takes.client (placed.0.lie rand)

      final :
          IsSimpleTree store size alloc flushed.tree.server tree.height (update pos k new_path)
          × ((j : ℕ)
              → held store size alloc flushed.tree.server tree.height (update pos k new_path) j
                ≡ held store size alloc put.0.server tree.height (update pos k new_path) j)
      final =
          flushed-IsSimpleTree store size alloc put.0.server flushed.tree.server tree.height rand
            (update pos k new_path) placed.0
            (λ p.
              mem_tree_flush-FlushedOn store size alloc t2 rand p put.0.client flushed small flushes
                (placed.0.homes p) (placed.0.lie p) (placed.0.lie rand))
