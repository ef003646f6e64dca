-- ===== src/Client/Download.antt =====
-- `download_path`: the stash and the addresses of the encrypted buffers, level by level.
use intel_sgx_path_oram.Common.{
  ℕ, zero, suc, ◌+◌, ◌/◌, ◌≤◌, ◌<◌, ◌≡◌, refl, List, [], ◌∷◌, ◌++◌, arith, length, length_perm,
  length-append, length-set, All, ◌∙◌, ap, map, some, set, get_or, get_or-set_self, get_or-set_ne,
}
use intel_sgx_path_oram.Server.{IsTreeNode, Cipher, Server}
use intel_sgx_path_oram.Client.{Client, child, download_level, download_loop, client_max_path}
use intel_sgx_path_oram.Client.Stash.{stash_blocks}
use intel_sgx_path_oram.Client.Shape.{IsClient, stash_slots}
use intel_sgx_path_oram.Client.Tree.{content_of, node_blocks, path_addrs, path_blocks}
use intel_sgx_path_oram.Client.DownloadEntries.{
  Joined, Joined-nil, Joined-trans, download_entries_lem,
}

module _ {size : ℕ} (cipher : Cipher size) (server : Server) where
  open cipher use {decrypt_node}

  -- Level by level from `h` on, the addresses of the nodes' encrypted buffers.
  abbrev pub Kept : ℕ → List ℕ → List (List ℕ) → Type 0
  Kept h [] rows = Unit {0}
  Kept h (a ∷ addrs) rows =
      (get_or rows h [] ≡ map content_of (decrypt_node (server.nodes a)).entries)
      × Kept (h + 1) addrs rows

  -- The rows above level `h` are as they were.
  abbrev pub SameAbove : ℕ → Client → Client → Type 0
  SameAbove h c c' =
      (j : ℕ)
      → j < h
      → get_or c'.encrypted_data_addr_in_path j [] ≡ get_or c.encrypted_data_addr_in_path j []

  level_client-IsClient :
      (h : ℕ) (row : List ℕ) (c : Client)
      → IsClient size c
      → IsClient size
          (record c { encrypted_data_addr_in_path = set c.encrypted_data_addr_in_path h row })
  level_client-IsClient h row c hc = record {
    stash = hc.stash;
    twenty = hc.twenty;
    loaded = hc.loaded;
    buffers = hc.buffers;
    four = hc.four;
    rows = length-set c.encrypted_data_addr_in_path h row ∙ hc.rows;
    dummy = hc.dummy;
  }

  download_level_lem :
      (h a : ℕ) (c : Client)
      → h < client_max_path
      → IsTreeNode (decrypt_node (server.nodes a))
      → IsClient size c
      → length (node_blocks cipher server a) + length (stash_blocks c.path) ≤ stash_slots
      → (c' : Client) × (download_level cipher server h a c ≡ some c')
        × Joined size (node_blocks cipher server a) c c'
        × (get_or c'.encrypted_data_addr_in_path h []
            ≡ map content_of (decrypt_node (server.nodes a)).entries)
        × SameAbove h c c'
  unfolding download_level
  download_level_lem h a c hh tree hc room =
      let n = decrypt_node (server.nodes a) in
      let row = map content_of n.entries in
      let c₀ = record c { encrypted_data_addr_in_path = set c.encrypted_data_addr_in_path h row } in
      let (c', runs, joined, rows) =
        download_entries_lem cipher server n.entries c₀ tree.good (level_client-IsClient h row c hc)
          room in
      (
        c',
        runs,
        record { client = joined.client; contents = joined.contents; same_mm = joined.same_mm },
        ap (λ r. get_or r h []) rows
            ∙ get_or-set_self c.encrypted_data_addr_in_path h row [] (omega (arith, hc.rows)),
        λ j below.
            ap (λ r. get_or r j []) rows
            ∙ get_or-set_ne c.encrypted_data_addr_in_path h j row [] (omega arith),
      )

  pub download_loop_lem :
      (left h addr tree_path : ℕ) (c : Client)
      → h + left ≤ client_max_path
      → All (λ a. IsTreeNode (decrypt_node (server.nodes a))) (path_addrs left addr tree_path)
      → IsClient size c
      → length (path_blocks cipher server (path_addrs left addr tree_path))
          + length (stash_blocks c.path)
        ≤ stash_slots
      → (c' : Client) × (download_loop cipher left h addr tree_path server c ≡ some c')
        × Joined size (path_blocks cipher server (path_addrs left addr tree_path)) c c'
        × Kept h (path_addrs left addr tree_path) c'.encrypted_data_addr_in_path
        × SameAbove h c c'
  unfolding download_loop
  download_loop_lem zero h addr tree_path c hh trees hc room =
      (c, refl, Joined-nil size c hc, tt, λ j below. refl)
  download_loop_lem (suc left) h addr tree_path c hh trees hc room =
      let here = node_blocks cipher server addr in
      let below_addrs = path_addrs left (child addr tree_path) (tree_path / 2) in
      let later = path_blocks cipher server below_addrs in
      let parts : length (here ++ later) ≡ length here + length later = length-append here later in
      let (c', runs, joined, row, above) =
        download_level_lem h addr c (omega arith) trees.0 hc (omega (arith, parts)) in
      let size' : length (stash_blocks c'.path) ≡ length here + length (stash_blocks c.path) =
        length_perm joined.contents ∙ length-append here (stash_blocks c.path) in
      let (c'', runs', joined', kept, above') =
        download_loop_lem left (h + 1) (child addr tree_path) (tree_path / 2) c' (omega arith)
          trees.1 joined.client (omega (arith, parts, size')) in
      (
        c'',
        rw runs runs',
        Joined-trans size here later c c' c'' joined joined',
        (above' h (omega arith) ∙ row, kept),
        λ j lt. above' j (omega arith) ∙ above j lt,
      )
