-- ===== src/Simple/Saved.antt =====
-- Nodes saved along a path, and the nodes loaded from it.
use intel_sgx_path_oram.Common.{
  ℕ, ◌≡◌, refl, List, [], ◌∷◌, arith, length, All, ◌∙◌, ap, map, sym, get_or, drop,
}
use mathlib.Core.Path.{ap₂}
use intel_sgx_path_oram.Node.{Node}
use intel_sgx_path_oram.Node.Shape.{IsNode}
use intel_sgx_path_oram.Client.Tree.{Apart, Distinct}
use intel_sgx_path_oram.Simple.{TreeStore}
use intel_sgx_path_oram.Node.Shape.{addrs_of}
use intel_sgx_path_oram.Client.Stash.{path_addresses}
use intel_sgx_path_oram.Simple.Store.{IsTreeStore}
use intel_sgx_path_oram.Simple.PathStore.{save_nodes}

module _ {S : Type 0} (store : TreeStore S) (size : ℕ) (alloc : ℕ → List ℕ) where
  open store use {load_node, save_node}

  -- A good node with its own buffers.
  pub record IsHomeNode (server : S) (a : ℕ) : Type 0 where
    pub shape : IsNode size (load_node server a)
    pub home : addrs_of (load_node server a).slots ≡ alloc a

  pub record Saved (addrs : List ℕ) (ns : List Node) (server server' : S) : Type 0 where
    pub loaded : map (load_node server') addrs ≡ ns
    pub others :
        (b : ℕ)
        → Apart b addrs
        → addrs_of (load_node server b).slots ≡ alloc b
        → load_node server' b ≡ load_node server b

  Saved-more :
      IsTreeStore size alloc store
      → (a : ℕ) (addrs : List ℕ) (n : Node) (ns : List Node) (server server' : S) → Apart a addrs
      → IsNode size n
      → addrs_of n.slots ≡ alloc a
      → Saved addrs ns (save_node a n server) server'
      → Saved (a ∷ addrs) (n ∷ ns) server server'
  Saved-more lawful a addrs n ns server server' apart h row rest = record {
    loaded = ap₂ ◌∷◌ (rest.others a apart (rw here row) ∙ here) rest.loaded;
    others = λ b far home.
        let ne = λ (e : b ≡ a). far.0 (sym e) in
        let same = lawful.load-save_ne a b n server ne row home in
        rest.others b far.1 (rw same home) ∙ same;
  }
    where
      here : load_node (save_node a n server) a ≡ n
      here = lawful.load-save_self a n server h row

  pub save_nodes_lem :
      IsTreeStore size alloc store
      → (addrs : List ℕ) (ns : List Node) (server : S) → Distinct addrs
      → All (IsNode size) ns
      → path_addresses ns ≡ map alloc addrs
      → Saved addrs ns server (save_nodes store addrs ns server)
  save_nodes_lem lawful [] [] server distinct h rows = record {
    loaded = refl;
    others = λ b far home. refl;
  }
  save_nodes_lem lawful [] (n ∷ ns) server distinct h rows = absurd (omega (arith, ap length rows))
  save_nodes_lem lawful (a ∷ addrs) [] server distinct h rows =
      absurd (omega (arith, ap length rows))
  save_nodes_lem lawful (a ∷ addrs) (n ∷ ns) server distinct h rows =
      Saved-more lawful a addrs n ns server _ distinct.0 h.0
        (ap (λ (l : List (List ℕ)). get_or l 0 []) rows)
        (save_nodes_lem lawful addrs ns (save_node a n server) distinct.1 h.1
          (ap (λ (l : List (List ℕ)). drop 1 l) rows))

  -- The nodes of a path are good and have their own buffers.
  pub homes-shape :
      (server : S) (addrs : List ℕ)
      → All (IsHomeNode server) addrs
      → All (IsNode size) (map (load_node server) addrs)
        × (path_addresses (map (load_node server) addrs) ≡ map alloc addrs)
  homes-shape server [] h = (tt, refl)
  homes-shape server (a ∷ addrs) h =
      let rest = homes-shape server addrs h.1 in ((h.0.shape, rest.0), ap₂ ◌∷◌ h.0.home rest.1)

  -- Good nodes with these buffers, loaded from there.
  pub homes-loaded :
      (server : S) (addrs : List ℕ) (ns : List Node)
      → map (load_node server) addrs ≡ ns
      → All (IsNode size) ns
      → path_addresses ns ≡ map alloc addrs
      → All (IsHomeNode server) addrs
  homes-loaded server [] ns e h rows = tt
  homes-loaded server (a ∷ addrs) [] e h rows = absurd (omega (arith, ap length e))
  homes-loaded server (a ∷ addrs) (n ∷ ns) e h rows =
      let here : load_node server a ≡ n = ap (λ (l : List Node). get_or l 0 n) e in
      (
        record {
          shape = rw here h.0;
          home = rw here (ap (λ (l : List (List ℕ)). get_or l 0 []) rows);
        },
        homes-loaded server addrs ns (ap (λ (l : List Node). drop 1 l) e) h.1
            (ap (λ (l : List (List ℕ)). drop 1 l) rows),
      )
