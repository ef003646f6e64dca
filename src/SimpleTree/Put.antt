-- ===== src/SimpleTree/Put.antt =====
-- `MemTreePut` on the root, and when it fails.
use intel_sgx_path_oram.Common.{
  ℕ, zero, suc, ◌+◌, ◌≤◌, ◌<◌, ◌≡◌, ◌≢◌, refl, List, [], ◌∷◌, arith, length, length-set, All, ◌∙◌,
  ap, sym, set, drop, Perm, some, none, lt→ltb, le→not_ltb,
}
use mathlib.Core.Path.{subst}
use intel_sgx_path_oram.Node.{Node, Block, blocks_per_node}
use intel_sgx_path_oram.Node.Shape.{IsBlock, IsNode, addrs_of, blocks}
use intel_sgx_path_oram.Client.{Client}
use intel_sgx_path_oram.Client.Stash.{stash_blocks}
use intel_sgx_path_oram.Simple.{TreeStore, RootPut, PlainWrite, plain_node_write}
use intel_sgx_path_oram.Simple.Write.{PlainAdded, plain_node_write-Added}
use intel_sgx_path_oram.Simple.Root.{oblivious_put_to_root_runs, oblivious_put_to_root_full}
use intel_sgx_path_oram.Simple.Store.{IsTreeStore}
use intel_sgx_path_oram.Simple.Saved.{IsHomeNode}
use intel_sgx_path_oram.SimpleTree.{SimpleTree, mem_tree_put}
use intel_sgx_path_oram.SimpleTree.Rewrite.{IsSimpleClient}

drop-set_zero : (n : ℕ) (xs : List Node) (v : Node) → 1 ≤ n → drop n (set xs 0 v) ≡ drop n xs
drop-set_zero zero xs v h = absurd (omega arith)
drop-set_zero (suc n) [] v h = refl
drop-set_zero (suc n) (x ∷ xs) v h = refl

module _ {S : Type 0} (store : TreeStore S) (size : ℕ) (alloc : ℕ → List ℕ) where
  open store use {load_node, save_node}

  -- What the put of the block `b` gives.
  pub record RootTakes (height : ℕ) (server : S) (b : Block) (c : Client) (r : RootPut S)
      : Type 0 where
    pub client : IsSimpleClient size height r.client
    pub same_mm : r.client.path_mm ≡ c.path_mm
    pub contents :
        Perm (blocks (load_node r.server 0).slots) (b ∷ blocks (load_node server 0).slots)
    pub root : IsHomeNode store size alloc r.server 0
    pub root_load : r.root_load ≡ length (blocks (load_node server 0).slots) + 1
    pub others :
        (a : ℕ)
        → a ≢ 0
        → addrs_of (load_node server a).slots ≡ alloc a
        → load_node r.server a ≡ load_node server a

  pub mem_tree_put_lem :
      IsTreeStore size alloc store
      → (tree : SimpleTree S) (b : Block) (c : Client) → 1 ≤ tree.height
      → b.key ≢ 0
      → IsBlock size b
      → IsHomeNode store size alloc tree.server 0
      → IsSimpleClient size tree.height c
      → length (blocks (load_node tree.server 0).slots) < blocks_per_node
      → (r : RootPut S) × (mem_tree_put store size tree b c ≡ some r)
        × RootTakes tree.height tree.server b c r
  unfolding mem_tree_put
  mem_tree_put_lem lawful tree b c high named hb home hc room = (
    record {
      client = record c { path = set c.path 0 w.node };
      server = save_node 0 w.node tree.server;
      root_load = w.node.num_blocks;
    },
    oblivious_put_to_root_runs store size b c tree.server
        (lt→ltb _ 4 (omega (arith, home.shape.counted, room))) added.stored,
    record {
      client = record {
        twenty = length-set c.path 0 w.node ∙ hc.twenty;
        rest =
            subst (All (IsNode size)) (sym (drop-set_zero tree.height c.path w.node high)) hc.rest;
        unused = ap stash_blocks (drop-set_zero tree.height c.path w.node high) ∙ hc.unused;
      };
      same_mm = refl;
      contents = rw saved added.contents;
      root = record { shape = rw saved added.shape; home = rw saved row };
      root_load = omega (arith, added.one_more, home.shape.counted);
      others = λ a ne h. lawful.load-save_ne 0 a w.node tree.server ne row h;
    },
  )
    where
      w : PlainWrite
      w = plain_node_write (load_node tree.server 0) b size

      added : PlainAdded size (load_node tree.server 0) b w
      added =
          plain_node_write-Added size (load_node tree.server 0) b home.shape hb
            (ground (arith, home.shape.counted, named, room))

      row : addrs_of w.node.slots ≡ alloc 0
      row = added.same_addrs ∙ home.home

      saved : load_node (save_node 0 w.node tree.server) 0 ≡ w.node
      saved = lawful.load-save_self 0 w.node tree.server added.shape row

  -- A full root refuses every block: the assertion fails.
  pub mem_tree_put_full :
      (tree : SimpleTree S) (b : Block) (c : Client)
      → IsHomeNode store size alloc tree.server 0
      → length (blocks (load_node tree.server 0).slots) ≡ blocks_per_node
      → mem_tree_put store size tree b c ≡ none
  unfolding mem_tree_put
  mem_tree_put_full tree b c home full =
      oblivious_put_to_root_full store size b c tree.server
        (le→not_ltb _ 4 (omega (arith, home.shape.counted, full)))
