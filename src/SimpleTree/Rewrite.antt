-- ===== src/SimpleTree/Rewrite.antt =====
-- The update of a path from the client, where the nodes have kept their buffers.
use intel_sgx_path_oram.Common.{
  ℕ, ◌≤◌, ◌≡◌, List, [], ◌++◌, arith, length, length-map, All, ◌∙◌, ap, map, sym, drop,
}
use intel_sgx_path_oram.Node.{Node}
use intel_sgx_path_oram.Node.Shape.{IsNode, addrs_of}
use intel_sgx_path_oram.Client.{Client}
use intel_sgx_path_oram.Client.Tree.{Apart, path_addrs}
use intel_sgx_path_oram.Client.Path.{pow_le}
use intel_sgx_path_oram.Client.Stash.{stash_blocks, path_addresses}
use intel_sgx_path_oram.Simple.{TreeStore, update_path}
use intel_sgx_path_oram.Simple.Store.{IsTreeStore}
use intel_sgx_path_oram.Simple.PathStore.{
  path_addrs-Distinct, length-path_addrs, path_nodes, update_path_lem, save_nodes,
}
use intel_sgx_path_oram.Simple.Saved.{IsHomeNode, Saved, save_nodes_lem, homes-shape, homes-loaded}

-- Twenty levels, and those below the tree's height are good nodes that hold nothing.
pub record IsSimpleClient (size height : ℕ) (c : Client) : Type 0 where
  pub twenty : length c.path ≡ 20
  pub rest : All (IsNode size) (drop height c.path)
  pub unused : stash_blocks (drop height c.path) ≡ []

module _ {S : Type 0} (store : TreeStore S) (size : ℕ) (alloc : ℕ → List ℕ) where
  open store use {load_node}

  -- The nodes of the path are good and have their own buffers.
  abbrev pub HomeNodes : S → ℕ → ℕ → Type 0
  HomeNodes server height p = All (IsHomeNode store size alloc server) (path_addrs height 0 p)

  -- The nodes of the path have become `ns`, and no other node has changed.
  pub record Rewritten (height p : ℕ) (ns : List Node) (server server' : S) : Type 0 where
    pub nodes : path_nodes store server' height p ≡ ns
    pub homes : HomeNodes server' height p
    pub others :
        (b : ℕ)
        → Apart b (path_addrs height 0 p)
        → addrs_of (load_node server b).slots ≡ alloc b
        → load_node server' b ≡ load_node server b

  pub update_path-Rewritten :
      IsTreeStore size alloc store
      → (height p : ℕ) (ns rest : List Node) (server : S) (c : Client) → height ≤ 20
      → HomeNodes server height p
      → c.path ≡ ns ++ rest
      → All (IsNode size) ns
      → path_addresses ns ≡ path_addresses (path_nodes store server height p)
      → Rewritten height p ns server (update_path store c height p server)
  update_path-Rewritten lawful height p ns rest server c small homes split shape rows =
      rw (update_path_lem store c height p ns rest server split long) record {
        nodes = saved.loaded;
        homes =
            homes-loaded store size alloc (save_nodes store (path_addrs height 0 p) ns server)
              (path_addrs height 0 p) ns saved.loaded shape row;
        others = saved.others;
      }
    where
      row : path_addresses ns ≡ map alloc (path_addrs height 0 p)
      row = rows ∙ (homes-shape store size alloc server (path_addrs height 0 p) homes).1

      long : length ns ≡ height
      long =
          sym (length-map (λ (n : Node). addrs_of n.slots) ns)
          ∙ ap length row
          ∙ length-map alloc (path_addrs height 0 p)
          ∙ length-path_addrs height 0 p

      saved :
          Saved store size alloc
            (path_addrs height 0 p)
            ns
            server
            (save_nodes store (path_addrs height 0 p) ns server)
      saved =
          save_nodes_lem store size alloc lawful (path_addrs height 0 p) ns server
            (path_addrs-Distinct height 0 p 2 (omega arith) (omega (arith, pow_le height small)))
            shape row
