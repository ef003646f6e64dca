-- ===== src/SimpleTree/Flush.antt =====
-- `MemTreeFlush` on the flushed path.
use intel_sgx_path_oram.Common.{
  ℕ, ◌≤◌, ◌≡◌, refl, List, arith, length, length-map, length-append, length-drop, All, ◌∙◌, ap, sym,
  drop, drop-append,
}
use mathlib.Core.Path.{subst}
use intel_sgx_path_oram.Node.{Node}
use intel_sgx_path_oram.Node.Shape.{IsNode, addrs_of}
use intel_sgx_path_oram.Client.{Client}
use intel_sgx_path_oram.Client.Tree.{Apart, path_addrs}
use intel_sgx_path_oram.Client.Stash.{stash_blocks}
use intel_sgx_path_oram.Simple.{TreeStore, simple_download_path, simple_oram_flush, update_path}
use intel_sgx_path_oram.Simple.Store.{IsTreeStore}
use intel_sgx_path_oram.Simple.PathStore.{
  length-path_addrs, path_nodes, simple_download_path_lem, mm-simple_download_path,
}
use intel_sgx_path_oram.Simple.SinkBlock.{NodesLie}
use intel_sgx_path_oram.Simple.Flush.{FlushesLevels}
use intel_sgx_path_oram.Simple.FlushPath.{ClientFlushes, simple_oram_flush_lem}
use intel_sgx_path_oram.Simple.Saved.{homes-shape}
use intel_sgx_path_oram.SimpleTree.{SimpleTree, TreeWorld, mem_tree_flush}
use intel_sgx_path_oram.SimpleTree.Rewrite.{
  IsSimpleClient, HomeNodes, Rewritten, update_path-Rewritten,
}

module _ {S : Type 0} (store : TreeStore S) (size : ℕ) (alloc : ℕ → List ℕ) where
  open store use {load_node}

  -- What the flush of the path `p` gives.
  pub record TreeFlushes (tree : SimpleTree S) (p : ℕ) (c : Client) (r : TreeWorld S) : Type 0 where
    pub client : IsSimpleClient size tree.height r.client
    pub same_mm : r.client.path_mm ≡ c.path_mm
    pub same_height : r.tree.height ≡ tree.height
    pub levels :
        FlushesLevels size p 0
          (path_nodes store tree.server tree.height p)
          (path_nodes store r.tree.server tree.height p)
    pub homes : HomeNodes store size alloc r.tree.server tree.height p
    pub others :
        (b : ℕ)
        → Apart b (path_addrs tree.height 0 p)
        → addrs_of (load_node tree.server b).slots ≡ alloc b
        → load_node r.tree.server b ≡ load_node tree.server b

  -- `MemTreeFlush` of a path, for a lawful store, a tree of at most 20 levels whose nodes on the
  -- path are good, have their own buffers and hold only blocks that lie along the path, and a
  -- client that keeps no block below those levels: no block is lost or made, the nodes of the path
  -- are good again, keep their buffers and hold only blocks that lie along it, no node off the path
  -- has changed, and neither have the position map and the tree's height.
  pub mem_tree_flush_lem :
      IsTreeStore size alloc store
      → (tree : SimpleTree S) (p : ℕ) (c : Client) → tree.height ≤ 20
      → HomeNodes store size alloc tree.server tree.height p
      → IsSimpleClient size tree.height c
      → NodesLie p 0 (path_nodes store tree.server tree.height p)
      → TreeFlushes tree p c (mem_tree_flush store size tree p c)
  unfolding mem_tree_flush
  mem_tree_flush_lem lawful tree p c small homes hc lie = record {
    client = record {
      twenty =
          ap length f.path
          ∙ omega (
            arith,
            length-append f.flushed rest,
            same_long,
            length-drop tree.height c.path,
            hc.twenty,
            small,
          );
      rest = subst (All (IsNode size)) (sym below) hc.rest;
      unused = ap stash_blocks below ∙ hc.unused;
    };
    same_mm = f.same_mm ∙ mm-simple_download_path store tree.server tree.height p c;
    same_height = refl;
    levels = rw saved.nodes f.levels;
    homes = saved.homes;
    others = saved.others;
  }
    where
      pn : List Node
      pn = path_nodes store tree.server tree.height p

      rest : List Node
      rest = drop tree.height c.path

      c1 : Client
      c1 = simple_download_path store tree.server tree.height p c

      long : length pn ≡ tree.height
      long =
          length-map (λ (a : ℕ). load_node tree.server a) (path_addrs tree.height 0 p)
          ∙ length-path_addrs tree.height 0 p

      f : ClientFlushes size p pn rest c1 (simple_oram_flush tree.height size p c1)
      f =
          simple_oram_flush_lem size tree.height p pn rest c1
            (simple_download_path_lem store tree.server tree.height p c (omega (arith, hc.twenty)))
            long (homes-shape store size alloc tree.server (path_addrs tree.height 0 p) homes).0 lie

      same_long : length f.flushed ≡ tree.height
      same_long =
          sym (length-map (λ (n : Node). addrs_of n.slots) f.flushed)
          ∙ ap length f.levels.same_addrs
          ∙ length-map (λ (n : Node). addrs_of n.slots) pn
          ∙ long

      below : drop tree.height (simple_oram_flush tree.height size p c1).path ≡ rest
      below = ap (drop tree.height) f.path ∙ drop-append tree.height f.flushed rest same_long

      saved :
          Rewritten store size alloc tree.height p f.flushed tree.server
            (update_path store (simple_oram_flush tree.height size p c1) tree.height p tree.server)
      saved =
          update_path-Rewritten store size alloc lawful tree.height p f.flushed rest tree.server
            (simple_oram_flush tree.height size p c1) small homes f.path f.levels.shape
            f.levels.same_addrs
