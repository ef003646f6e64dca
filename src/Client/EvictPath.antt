-- ===== src/Client/EvictPath.antt =====
-- `evict_path`: the nodes of a path are written back from the leaf to the root.
use intel_sgx_path_oram.Common.{
  ℕ, zero, suc, ◌+◌, ◌*◌, ◌/◌, ◌^◌, ◌≤◌, ◌<◌, ◌≡◌, ◌≢◌, refl, List, [], ◌∷◌, ◌++◌, All, ◌∙◌, ap,
  sym, Perm, get_or,
}
use intel_sgx_path_oram.Node.{Block}
use intel_sgx_path_oram.Server.{Cipher, Server}
use intel_sgx_path_oram.Client.{World, child, evict_level, evict_loop}
use intel_sgx_path_oram.Client.Stash.{stash_blocks}
use intel_sgx_path_oram.Client.Shape.{IsClient}
use intel_sgx_path_oram.Client.EvictSlots.{Along}
use intel_sgx_path_oram.Client.Tree.{Apart, node_blocks, path_addrs, path_blocks}
use intel_sgx_path_oram.Client.Upload.{IsLayout, IsHome, Untouched, Levelled, evict_level_lem}
use intel_sgx_path_oram.Client.Path.{path_addrs-Apart, child_within, fits_below}
use mathlib.Core.List.Perm
use mathlib.Core.List.{append_assoc, perm_append_comm}
use mathlib.Core.Path.{subst, ap₂}

regroup :
    (s₀ p s₁ n s₂ : List Block) → Perm s₀ (p ++ s₁) → Perm s₁ (n ++ s₂) → Perm s₀ ((n ++ p) ++ s₂)
regroup s₀ p s₁ n s₂ h k = Perm.trans h (
    Perm.trans (Perm.append_left p k) (
      subst (λ bs. Perm bs ((n ++ p) ++ s₂)) (append_assoc p n s₂)
        (Perm.append_right s₂ (perm_append_comm p n))))

module _ {size : ℕ} (cipher : Cipher size) (alloc : ℕ → List ℕ) where
  -- Level by level from `h` on, the kept addresses are those of the nodes' own buffers.
  abbrev pub RowsAre : ℕ → List ℕ → List (List ℕ) → Type 0
  RowsAre h [] rows = Unit {0}
  RowsAre h (a ∷ addrs) rows = (get_or rows h [] ≡ alloc a) × RowsAre (h + 1) addrs rows

  -- Level by level from `h` on, the blocks of a node lie along the path.
  abbrev pub Lies : ℕ → ℕ → Server → List ℕ → Type 0
  Lies tree_path h server [] = Unit {0}
  Lies tree_path h server (a ∷ addrs) =
      All (Along h tree_path) (node_blocks cipher server a) × Lies tree_path (h + 1) server addrs

  -- From `w` to `w'` by the eviction to the nodes `addrs`, whose level starts at `h`: no block of
  -- the stash is lost, those that moved lie along the path, and no other node has changed.
  pub record PathEvicted (tree_path h : ℕ) (addrs : List ℕ) (w w' : World) : Type 0 where
    pub client : IsClient size w'.client
    pub contents :
        Perm
          (stash_blocks w.client.path)
          (path_blocks cipher w'.server addrs ++ stash_blocks w'.client.path)
    pub lies : Lies tree_path h w'.server addrs
    pub homes : All (IsHome cipher alloc w'.server) addrs
    pub others :
        (b : ℕ)
        → Apart b addrs
        → IsHome cipher alloc w.server b
        → Untouched cipher alloc w.server w'.server b
    pub same_rows : w'.client.encrypted_data_addr_in_path ≡ w.client.encrypted_data_addr_in_path
    pub same_mm : w'.client.path_mm ≡ w.client.path_mm

  pub Untouched-refl :
      (server : Server) (b : ℕ)
      → IsHome cipher alloc server b
      → Untouched cipher alloc server server b
  Untouched-refl server b h = record { home = h; contents = refl }

  -- The nodes `addrs` under the upload of another one.
  Untouched-path_blocks :
      (server server' : Server) (a : ℕ) (addrs : List ℕ)
      → ((b : ℕ) → b ≢ a → IsHome cipher alloc server b → Untouched cipher alloc server server' b)
      → Apart a addrs
      → All (IsHome cipher alloc server) addrs
      → All (IsHome cipher alloc server') addrs
        × (path_blocks cipher server' addrs ≡ path_blocks cipher server addrs)
  Untouched-path_blocks server server' a [] others apart homes = (tt, refl)
  Untouched-path_blocks server server' a (b ∷ addrs) others apart homes =
      let here = others b apart.0 homes.0 in
      let (homes', blocks') = Untouched-path_blocks server server' a addrs others apart.1 homes.1 in
      ((here.home, homes'), ap₂ ◌++◌ here.contents blocks')

  Untouched-Lies :
      (tree_path h : ℕ) (server server' : Server) (a : ℕ) (addrs : List ℕ)
      → ((b : ℕ) → b ≢ a → IsHome cipher alloc server b → Untouched cipher alloc server server' b)
      → Apart a addrs
      → All (IsHome cipher alloc server) addrs
      → Lies tree_path h server addrs
      → Lies tree_path h server' addrs
  Untouched-Lies tree_path h server server' a [] others apart homes lies = tt
  Untouched-Lies tree_path h server server' a (b ∷ addrs) others apart homes lies = (
    subst (All (Along h tree_path)) (sym (others b apart.0 homes.0).contents) lies.0,
    Untouched-Lies tree_path (h + 1) server server' a addrs others apart.1 homes.1 lies.1,
  )

  module _ (layout : IsLayout alloc) where
    -- The level of `a`, after the levels below it.
    evict_last :
        (tree_path h a : ℕ) (addrs : List ℕ) (w w₁ : World)
        → Apart a addrs
        → get_or w.client.encrypted_data_addr_in_path h [] ≡ alloc a
        → PathEvicted tree_path (h + 1) addrs w w₁
        → PathEvicted tree_path h (a ∷ addrs) w (evict_level cipher tree_path h a w₁)
    evict_last tree_path h a addrs w w₁ apart row deep = record {
      client = top.client;
      contents =
          subst
            (λ bs.
              Perm (stash_blocks w.client.path)
                ((node_blocks cipher w₂.server a ++ bs) ++ stash_blocks w₂.client.path))
            (sym below.1)
            (regroup (stash_blocks w.client.path) (path_blocks cipher w₁.server addrs)
              (stash_blocks w₁.client.path) (node_blocks cipher w₂.server a)
              (stash_blocks w₂.client.path) deep.contents top.contents);
      lies = (
        top.along,
        Untouched-Lies tree_path (h + 1) w₁.server w₂.server a addrs top.others apart deep.homes
            deep.lies,
      );
      homes = (top.home, below.0);
      others = λ b b_apart home.
          let first = deep.others b b_apart.1 home in
          let then' = top.others b (λ e. b_apart.0 (sym e)) first.home in
          record { home = then'.home; contents = then'.contents ∙ first.contents };
      same_rows = top.same_rows ∙ deep.same_rows;
      same_mm = top.same_mm ∙ deep.same_mm;
    }
      where
        w₂ : World
        w₂ = evict_level cipher tree_path h a w₁

        top : Levelled cipher alloc tree_path h a w₁ w₂
        top =
            evict_level_lem cipher alloc layout tree_path h a w₁ deep.client
              (ap (λ rows. get_or rows h []) deep.same_rows ∙ row)

        below :
            All (IsHome cipher alloc w₂.server) addrs
            × (path_blocks cipher w₂.server addrs ≡ path_blocks cipher w₁.server addrs)
        below = Untouched-path_blocks w₁.server w₂.server a addrs top.others apart deep.homes

    pub evict_loop_lem :
        (left h addr rest_path tree_path bound : ℕ) (w : World)
        → addr + 1 < bound
        → bound * 2 ^ left ≤ 2 ^ 32
        → IsClient size w.client
        → RowsAre h (path_addrs left addr rest_path) w.client.encrypted_data_addr_in_path
        → PathEvicted tree_path h
            (path_addrs left addr rest_path)
            w
            (evict_loop cipher left h addr rest_path tree_path w)
    unfolding evict_loop
    evict_loop_lem zero h addr rest_path tree_path bound w within fits hc rows = record {
      client = hc;
      contents = Perm.refl _;
      lies = tt;
      homes = tt;
      others = λ b apart home. Untouched-refl w.server b home;
      same_rows = refl;
      same_mm = refl;
    }
    evict_loop_lem (suc left) h addr rest_path tree_path bound w within fits hc rows =
        evict_last tree_path h addr (path_addrs left (child addr rest_path) (rest_path / 2)) w
          (evict_loop cipher left (h + 1) (child addr rest_path) (rest_path / 2) tree_path w)
          (path_addrs-Apart left addr rest_path bound within fits) rows.0
          (evict_loop_lem left (h + 1) (child addr rest_path) (rest_path / 2) tree_path (2 * bound)
            w (child_within left addr rest_path bound within fits)
            (fits_below left addr rest_path bound within fits) hc rows.1)
