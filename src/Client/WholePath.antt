-- ===== src/Client/WholePath.antt =====
-- `download_path` and `evict_path` from the root of a tree whose nodes have buffers of their own.
use intel_sgx_path_oram.Common.{
  ℕ, ◌+◌, ◌≤◌, ◌≡◌, List, [], ◌∷◌, ◌++◌, arith, length, length-append, All, ◌∙◌, some,
}
use intel_sgx_path_oram.Server.{IsTreeNode, Cipher, Server}
use intel_sgx_path_oram.Client.{Client, World, download_path, evict_path}
use intel_sgx_path_oram.Client.Stash.{stash_blocks}
use intel_sgx_path_oram.Client.Shape.{IsClient, stash_slots}
use intel_sgx_path_oram.Client.Tree.{path_addrs, path_blocks}
use intel_sgx_path_oram.Client.DownloadEntries.{Joined}
use intel_sgx_path_oram.Client.Download.{Kept, download_loop_lem}
use intel_sgx_path_oram.Client.Upload.{IsLayout, IsHome}
use intel_sgx_path_oram.Client.Path.{pow_le}
use intel_sgx_path_oram.Client.EvictPath.{RowsAre, PathEvicted, evict_loop_lem}

module _ {size : ℕ} (cipher : Cipher size) (alloc : ℕ → List ℕ) where
  open cipher use {decrypt_node}

  homes_trees :
      (server : Server) (addrs : List ℕ)
      → All (IsHome cipher alloc server) addrs
      → All (λ a. IsTreeNode (decrypt_node (server.nodes a))) addrs
  homes_trees server [] h = tt
  homes_trees server (a ∷ addrs) h = (h.0.tree, homes_trees server addrs h.1)

  RowsAre-Kept :
      (h : ℕ) (server : Server) (addrs : List ℕ) (rows : List (List ℕ))
      → All (IsHome cipher alloc server) addrs
      → Kept cipher server h addrs rows
      → RowsAre cipher alloc h addrs rows
  RowsAre-Kept h server [] rows homes kept = tt
  RowsAre-Kept h server (a ∷ addrs) rows homes kept =
      (kept.0 ∙ homes.0.addrs, RowsAre-Kept (h + 1) server addrs rows homes.1 kept.1)

  -- Download of a path of at most 20 levels of good nodes into a good client, where the blocks of
  -- the path and of the stash are at most 80: it succeeds, the stash then holds exactly its own
  -- blocks and those of the path, the position map has not changed, and the address of each buffer
  -- is kept.
  pub download_path_lem :
      (server : Server) (height block_path : ℕ) (c : Client)
      → height ≤ 20
      → All (IsHome cipher alloc server) (path_addrs height 0 block_path)
      → IsClient size c
      → length (path_blocks cipher server (path_addrs height 0 block_path) ++ stash_blocks c.path)
        ≤ stash_slots
      → (c' : Client) × (download_path cipher server height block_path c ≡ some c')
        × Joined size (path_blocks cipher server (path_addrs height 0 block_path)) c c'
        × RowsAre cipher alloc 0 (path_addrs height 0 block_path) c'.encrypted_data_addr_in_path
  unfolding download_path
  download_path_lem server height block_path c small homes hc room =
      let addrs = path_addrs height 0 block_path in
      let (c', runs, joined, kept, above) =
        download_loop_lem cipher server height 0 0 block_path c (omega arith)
          (homes_trees server addrs homes) hc
          (omega (arith, length-append (path_blocks cipher server addrs) (stash_blocks c.path))) in
      (c', runs, joined, RowsAre-Kept 0 server addrs c'.encrypted_data_addr_in_path homes kept)

  -- With distinct buffers, eviction of a path of at most 20 levels, from a good client that keeps
  -- the addresses of the buffers of each node of the path: no block of the stash is lost, those
  -- that moved into a node lie along the path to it, the client and the nodes are good again, and
  -- no node off the path, nor the position map, has changed.
  pub evict_path_lem :
      (height block_path : ℕ) (w : World)
      → IsLayout alloc
      → height ≤ 20
      → IsClient size w.client
      → RowsAre cipher alloc 0 (path_addrs height 0 block_path) w.client.encrypted_data_addr_in_path
      → PathEvicted cipher alloc block_path 0
          (path_addrs height 0 block_path)
          w
          (evict_path cipher height block_path w)
  unfolding evict_path
  evict_path_lem height block_path w layout small hc rows =
      evict_loop_lem cipher alloc layout height 0 0 block_path block_path 2 w (omega arith)
        (omega (arith, pow_le height small)) hc rows
