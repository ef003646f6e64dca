-- ===== src/SimpleTree/Fetch.antt =====
-- `MemTreeFetch`: the download of a path, the fetch of a key and the update of the path.
use intel_sgx_path_oram.Common.{
  ℕ, ◌≤◌, ◌≡◌, refl, List, [], ◌++◌, arith, length, length-map, length-append, length-drop, All,
  All-append, All-take, All-drop, ◌∙◌, ap, sym, take, drop, replicate, take-append-drop,
}
use mathlib.Core.Path.{subst}
use mathlib.Core.List.{append-nil}
use intel_sgx_path_oram.Node.{Node}
use intel_sgx_path_oram.Node.Shape.{IsBuffer, IsNode, addrs_of}
use intel_sgx_path_oram.Node.Keys.{count_key, last_match}
use intel_sgx_path_oram.Client.{Client, oblivious_fetch}
use intel_sgx_path_oram.Client.Tree.{Apart, path_addrs}
use intel_sgx_path_oram.Client.Stash.{stash_blocks, stash_blocks-append}
use intel_sgx_path_oram.Client.Rows.{
  Erased, FetchedRows, oblivious_fetch-FetchedRows, Erased-split, stash_blocks-rows,
}
use intel_sgx_path_oram.Simple.{TreeStore, simple_download_path, update_path}
use intel_sgx_path_oram.Simple.Store.{IsTreeStore}
use intel_sgx_path_oram.Simple.PathStore.{
  length-path_addrs, path_nodes, simple_download_path_lem, mm-simple_download_path,
}
use intel_sgx_path_oram.Simple.Saved.{homes-shape}
use intel_sgx_path_oram.SimpleTree.{SimpleTree, TreeRead, mem_tree_fetch}
use intel_sgx_path_oram.SimpleTree.Rewrite.{
  IsSimpleClient, HomeNodes, Rewritten, update_path-Rewritten,
}

module _ {S : Type 0} (store : TreeStore S) (size : ℕ) (alloc : ℕ → List ℕ) where
  open store use {load_node}

  -- What the fetch of the key `k` on the path `p` gives.
  pub record TreeReads (tree : SimpleTree S) (p k : ℕ) (c : Client) (r : TreeRead S) : Type 0 where
    pub client : IsSimpleClient size tree.height r.client
    pub same_mm : r.client.path_mm ≡ c.path_mm
    pub same_height : r.tree.height ≡ tree.height
    pub erased :
        Erased k
          (path_nodes store tree.server tree.height p)
          (path_nodes store r.tree.server tree.height p)
    pub homes : HomeNodes store size alloc r.tree.server tree.height p
    pub others :
        (b : ℕ)
        → Apart b (path_addrs tree.height 0 p)
        → addrs_of (load_node tree.server b).slots ≡ alloc b
        → load_node r.tree.server b ≡ load_node tree.server b
    pub bytes :
        r.fetched_block
        ≡ last_match k
            (replicate size 0)
            (stash_blocks (path_nodes store tree.server tree.height p))
    pub buffer : IsBuffer size r.fetched_block

  pub mem_tree_fetch_lem :
      IsTreeStore size alloc store
      → (tree : SimpleTree S) (p k : ℕ) (c : Client) → IsBuffer size (replicate size 0)
      → tree.height ≤ 20
      → HomeNodes store size alloc tree.server tree.height p
      → IsSimpleClient size tree.height c
      → count_key k (stash_blocks (path_nodes store tree.server tree.height p)) ≤ 1
      → TreeReads tree p k c (mem_tree_fetch store size tree p k c)
  unfolding mem_tree_fetch
  mem_tree_fetch_lem lawful tree p k c zeros small homes hc once = record {
    client = record {
      twenty =
          sym (length-map (λ (n : Node). addrs_of n.slots) path)
          ∙ ap length got.erased.same_addrs
          ∙ length-map (λ (n : Node). addrs_of n.slots) c1.path
          ∙ ap length down
          ∙ omega (
            arith,
            length-append pn rest,
            long,
            length-drop tree.height c.path,
            hc.twenty,
            small,
          );
      rest = All-drop (IsNode size) tree.height path got.shape;
      unused =
          subst (λ (n : ℕ). stash_blocks (drop n path) ≡ []) long
            (stash_blocks-rows k rest (drop (length pn) path) split.1.rows ∙ rw hc.unused refl);
    };
    same_mm = got.same_mm ∙ mm-simple_download_path store tree.server tree.height p c;
    same_height = refl;
    erased = rw saved.nodes split.0;
    homes = saved.homes;
    others = saved.others;
    bytes = got.bytes ∙ ap (last_match k (replicate size 0)) blocks_down;
    buffer = got.buffer;
  }
    where
      pn : List Node
      pn = path_nodes store tree.server tree.height p

      rest : List Node
      rest = drop tree.height c.path

      c1 : Client
      c1 = simple_download_path store tree.server tree.height p c

      down : c1.path ≡ pn ++ rest
      down = simple_download_path_lem store tree.server tree.height p c (omega (arith, hc.twenty))

      long : length pn ≡ tree.height
      long =
          length-map load_node_here (path_addrs tree.height 0 p) ∙ length-path_addrs tree.height 0 p
        where
          load_node_here : ℕ → Node
          load_node_here = load_node tree.server

      shapes : All (IsNode size) c1.path
      shapes = rw down (
          All-append (IsNode size) pn rest
            (homes-shape store size alloc tree.server (path_addrs tree.height 0 p) homes).0 hc.rest)

      blocks_down : stash_blocks c1.path ≡ stash_blocks pn
      blocks_down = rw (down, stash_blocks-append pn rest, hc.unused) (append-nil (stash_blocks pn))

      got : FetchedRows size k c1 (oblivious_fetch size k 0 c1)
      got = oblivious_fetch-FetchedRows size k 0 c1 zeros shapes (rw blocks_down once)

      path : List Node
      path = (oblivious_fetch size k 0 c1).client.path

      split : Erased k pn (take (length pn) path) × Erased k rest (drop (length pn) path)
      split = Erased-split k pn rest path (subst (λ ns. Erased k ns path) down got.erased)

      saved :
          Rewritten store size alloc tree.height p
            (take (length pn) path)
            tree.server
            (update_path store (oblivious_fetch size k 0 c1).client tree.height p tree.server)
      saved =
          update_path-Rewritten store size alloc lawful tree.height p (take (length pn) path)
            (drop (length pn) path) tree.server (oblivious_fetch size k 0 c1).client small homes
            (sym (take-append-drop (length pn) path))
            (All-take (IsNode size) (length pn) path got.shape) split.0.same_addrs
