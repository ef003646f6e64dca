-- ===== src/Simple/PathStore.antt =====
-- The loops over the levels of a path, in the download and in the update, on a lawful store.
use intel_sgx_path_oram.Common.{
  ℕ, zero, suc, ◌+◌, ◌*◌, ◌/◌, ◌^◌, ◌≤◌, ◌<◌, ◌≡◌, refl, List, [], ◌∷◌, ◌++◌, arith, length,
  length-append, ◌∙◌, ap, map, sym, get_or, set, drop,
}
use mathlib.Core.List.{append_assoc}
use intel_sgx_path_oram.Node.{Node}
use intel_sgx_path_oram.Client.{Client, child, empty_node}
use intel_sgx_path_oram.Client.Tree.{Distinct, path_addrs}
use intel_sgx_path_oram.Client.Path.{path_addrs-Apart, child_within, fits_below}
use intel_sgx_path_oram.Simple.{
  TreeStore, fill_path_loop, simple_download_path, update_loop, update_path,
}

set-append :
    (pre ns : List Node) (n v : Node) (h : ℕ)
    → length pre ≡ h
    → set (pre ++ n ∷ ns) h v ≡ (pre ++ v ∷ []) ++ ns
set-append [] ns n v zero e = refl
set-append [] ns n v (suc h) e = absurd (omega arith)
set-append (x ∷ pre) ns n v zero e = absurd (omega arith)
set-append (x ∷ pre) ns n v (suc h) e = ap (◌∷◌ x) (set-append pre ns n v h (omega arith))

get_or-append :
    (pre ns : List Node) (n d : Node) (h : ℕ) → length pre ≡ h → get_or (pre ++ n ∷ ns) h d ≡ n
get_or-append [] ns n d zero e = refl
get_or-append [] ns n d (suc h) e = absurd (omega arith)
get_or-append (x ∷ pre) ns n d zero e = absurd (omega arith)
get_or-append (x ∷ pre) ns n d (suc h) e = get_or-append pre ns n d h (omega arith)

pub path_addrs-Distinct :
    (left addr tree_path bound : ℕ)
    → addr + 1 < bound
    → bound * 2 ^ left ≤ 2 ^ 32
    → Distinct (path_addrs left addr tree_path)
path_addrs-Distinct zero addr tree_path bound within fits = tt
path_addrs-Distinct (suc left) addr tree_path bound within fits = (
  path_addrs-Apart left addr tree_path bound within fits,
  path_addrs-Distinct left (child addr tree_path) (tree_path / 2) (2 * bound)
      (child_within left addr tree_path bound within fits)
      (fits_below left addr tree_path bound within fits),
)

pub length-path_addrs : (left addr tree_path : ℕ) → length (path_addrs left addr tree_path) ≡ left
length-path_addrs zero addr tree_path = refl
length-path_addrs (suc left) addr tree_path =
    ap suc (length-path_addrs left (child addr tree_path) (tree_path / 2))

module _ {S : Type 0} (store : TreeStore S) where
  open store use {load_node, save_node}

  fill_path_loop_lem :
      (server : S) (left h addr tree_path : ℕ) (pre rest : List Node)
      → length pre ≡ h
      → left ≤ length rest
      → fill_path_loop store server left h addr tree_path (pre ++ rest)
        ≡ pre ++ (map (load_node server) (path_addrs left addr tree_path) ++ drop left rest)
  unfolding fill_path_loop
  fill_path_loop_lem server zero h addr tree_path pre rest at long = refl
  fill_path_loop_lem server (suc left) h addr tree_path pre [] at long = absurd (omega arith)
  fill_path_loop_lem server (suc left) h addr tree_path pre (n ∷ rest) at long =
      ap (fill_path_loop store server left (h + 1) (child addr tree_path) (tree_path / 2))
        (set-append pre rest n (load_node server addr) h at)
      ∙ fill_path_loop_lem server left (h + 1) (child addr tree_path) (tree_path / 2)
          (pre ++ load_node server addr ∷ []) rest
          (length-append pre (load_node server addr ∷ []) ∙ omega arith) (omega arith)
      ∙ append_assoc pre (load_node server addr ∷ []) _

  -- The nodes of a path as the client loads them.
  abbrev pub path_nodes : S → ℕ → ℕ → List Node
  path_nodes server height tree_path = map (load_node server) (path_addrs height 0 tree_path)

  -- The download puts the nodes of the path into the first levels and keeps the others.
  pub simple_download_path_lem :
      (server : S) (height block_path : ℕ) (c : Client)
      → height ≤ length c.path
      → (simple_download_path store server height block_path c).path
        ≡ path_nodes server height block_path ++ drop height c.path
  unfolding simple_download_path
  simple_download_path_lem server height block_path c long =
      fill_path_loop_lem server height 0 0 block_path [] c.path refl long

  pub mm-simple_download_path :
      (server : S) (height block_path : ℕ) (c : Client)
      → (simple_download_path store server height block_path c).path_mm ≡ c.path_mm
  unfolding simple_download_path
  mm-simple_download_path server height block_path c = refl

  -- The nodes saved one after the other.
  abbrev pub save_nodes : List ℕ → List Node → S → S
  save_nodes [] ns server = server
  save_nodes (a ∷ addrs) [] server = server
  save_nodes (a ∷ addrs) (n ∷ ns) server = save_nodes addrs ns (save_node a n server)

  update_loop_lem :
      (left h addr tree_path : ℕ) (pre ns rest : List Node) (server : S)
      → length pre ≡ h
      → length ns ≡ left
      → update_loop store (pre ++ (ns ++ rest)) left h addr tree_path server
        ≡ save_nodes (path_addrs left addr tree_path) ns server
  unfolding update_loop
  update_loop_lem zero h addr tree_path pre ns rest server at long = refl
  update_loop_lem (suc left) h addr tree_path pre [] rest server at long = absurd (omega arith)
  update_loop_lem (suc left) h addr tree_path pre (n ∷ ns) rest server at long =
      ap
        (λ (m : Node).
          update_loop store (pre ++ (n ∷ ns ++ rest)) left (h + 1) (child addr tree_path)
            (tree_path / 2) (save_node addr m server))
        (get_or-append pre (ns ++ rest) n (empty_node []) h at)
      ∙ ap
          (λ (path : List Node).
            update_loop store path left (h + 1) (child addr tree_path) (tree_path / 2)
              (save_node addr n server))
          (sym (append_assoc pre (n ∷ []) (ns ++ rest)))
      ∙ update_loop_lem left (h + 1) (child addr tree_path) (tree_path / 2) (pre ++ n ∷ []) ns rest
          (save_node addr n server) (length-append pre (n ∷ []) ∙ omega arith) (omega arith)

  pub update_path_lem :
      (c : Client) (height block_path : ℕ) (ns rest : List Node) (server : S)
      → c.path ≡ ns ++ rest
      → length ns ≡ height
      → update_path store c height block_path server
        ≡ save_nodes (path_addrs height 0 block_path) ns server
  unfolding update_path
  update_path_lem c height block_path ns rest server e long =
      rw e (update_loop_lem height 0 0 block_path [] ns rest server refl long)
