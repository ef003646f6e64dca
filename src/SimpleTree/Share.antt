-- ===== src/SimpleTree/Share.antt =====
-- What the rewriting of one path of the tree means for every other path.
use intel_sgx_path_oram.Common.{
  ℕ, suc, ◌+◌, ◌%◌, ◌^◌, ◌≤◌, ◌<◌, ◌≡◌, ◌≢◌, ◌⊎◌, inl, inr, refl, List, [], ◌∷◌, ◌++◌, arith,
  length, length-map, All, All-append, ◌∙◌, ap, map, sym,
}
use mathlib.Core.Path.{ap₂, subst}
use intel_sgx_path_oram.Node.{Node, Block}
use intel_sgx_path_oram.Node.Shape.{addrs_of, blocks}
use intel_sgx_path_oram.Client.Tree.{Apart, path_addrs}
use intel_sgx_path_oram.Client.Stash.{stash_blocks}
use intel_sgx_path_oram.Client.Split.{
  Splits, paths-Splits, agree_less, same_level, All-append_right,
}
use intel_sgx_path_oram.Client.EvictSlots.{Along}
use intel_sgx_path_oram.Simple.{TreeStore}
use intel_sgx_path_oram.Simple.PathStore.{path_nodes}
use intel_sgx_path_oram.Simple.SinkBlock.{NodesLie}
use intel_sgx_path_oram.Simple.Saved.{IsHomeNode}
use intel_sgx_path_oram.SimpleTree.Rewrite.{HomeNodes}

pub map-append : (f : ℕ → Node) (xs ys : List ℕ) → map f (xs ++ ys) ≡ map f xs ++ map f ys
map-append f [] ys = refl
map-append f (x ∷ xs) ys = ap (◌∷◌ (f x)) (map-append f xs ys)

pub All-append_left {ℓ κ} :
    {A : Type ℓ} (P : A → Type κ) (xs ys : List A) → All P (xs ++ ys) → All P xs
All-append_left P [] ys h = tt
All-append_left P (x ∷ xs) ys h = (h.0, All-append_left P xs ys h.1)

-- The levels from `h` on, in two parts.
pub NodesLie-append :
    (p h : ℕ) (xs ys : List Node)
    → NodesLie p h xs
    → NodesLie p (h + length xs) ys
    → NodesLie p h (xs ++ ys)
NodesLie-append p h [] ys hx hy = subst (λ (n : ℕ). NodesLie p n ys) (omega arith) hy
NodesLie-append p h (x ∷ xs) ys hx hy = (
  hx.0,
  NodesLie-append p (h + 1) xs ys hx.1 (subst (λ (n : ℕ). NodesLie p n ys) (omega arith) hy),
)

pub NodesLie-left : (p h : ℕ) (xs ys : List Node) → NodesLie p h (xs ++ ys) → NodesLie p h xs
NodesLie-left p h [] ys lie = tt
NodesLie-left p h (x ∷ xs) ys lie = (lie.0, NodesLie-left p (h + 1) xs ys lie.1)

pub NodesLie-right :
    (p h : ℕ) (xs ys : List Node) → NodesLie p h (xs ++ ys) → NodesLie p (h + length xs) ys
NodesLie-right p h [] ys lie = subst (λ (n : ℕ). NodesLie p n ys) (omega arith) lie
NodesLie-right p h (x ∷ xs) ys lie =
    subst (λ (n : ℕ). NodesLie p n ys) (omega arith) (NodesLie-right p (h + 1) xs ys lie.1)

All-turn :
    (p q h : ℕ) (bs : List Block) → p % 2 ^ h ≡ q % 2 ^ h → All (Along h q) bs → All (Along h p) bs
All-turn p q h [] e lie = tt
All-turn p q h (b ∷ bs) e lie = (lie.0 ∙ sym e, All-turn p q h bs e lie.1)

-- Nodes on which two paths agree.
pub NodesLie-agree :
    (p q h : ℕ) (ns : List Node)
    → ((i : ℕ) → i < length ns → p % 2 ^ (h + i) ≡ q % 2 ^ (h + i))
    → NodesLie q h ns
    → NodesLie p h ns
NodesLie-agree p q h [] agree lie = tt
NodesLie-agree p q h (n ∷ ns) agree lie = (
  All-turn p q h (blocks n.slots) (same_level p q (h + 0) h (omega arith) (agree 0 (omega arith)))
      lie.0,
  NodesLie-agree p q (h + 1) ns
      (λ i low. same_level p q (h + suc i) (h + 1 + i) (omega arith) (agree (suc i) (omega arith)))
      lie.1,
)

All-foreign :
    (p q h : ℕ) (bs : List Block)
    → p % 2 ^ h ≢ q % 2 ^ h
    → All (Along h p) bs
    → All (λ b. b.path ≢ q) bs
All-foreign p q h [] differ lie = tt
All-foreign p q h (b ∷ bs) differ lie = (
  λ e. differ (sym (subst (λ (x : ℕ). x % 2 ^ h ≡ p % 2 ^ h) e lie.0)),
  All-foreign p q h bs differ lie.1,
)

-- Below the level where two paths part, the nodes of one hold no block of the other.
pub NodesLie-foreign :
    (p q h : ℕ) (ns : List Node)
    → p % 2 ^ h ≢ q % 2 ^ h
    → NodesLie p h ns
    → All (λ b. b.path ≢ q) (stash_blocks ns)
NodesLie-foreign p q h [] differ lie = tt
NodesLie-foreign p q h (n ∷ ns) differ lie =
    All-append (λ b. b.path ≢ q) (blocks n.slots) (stash_blocks ns)
      (All-foreign p q h (blocks n.slots) differ lie.0)
      (NodesLie-foreign p q (h + 1) ns (λ e. differ (agree_less h p q e)) lie.1)

module _ {S : Type 0} (store : TreeStore S) (size : ℕ) (alloc : ℕ → List ℕ)
    (server server' : S) where
  open store use {load_node}

  -- No node off the list has changed, if it has its own buffers.
  abbrev pub Others : List ℕ → Type 0
  Others addrs =
      (b : ℕ)
      → Apart b addrs
      → addrs_of (load_node server b).slots ≡ alloc b
      → load_node server' b ≡ load_node server b

  pub Others-nodes :
      (addrs xs : List ℕ)
      → Others addrs
      → All (λ x. Apart x addrs) xs
      → All (IsHomeNode store size alloc server) xs
      → (map (load_node server') xs ≡ map (load_node server) xs)
        × All (IsHomeNode store size alloc server') xs
  Others-nodes addrs [] others apart homes = (refl, tt)
  Others-nodes addrs (x ∷ xs) others apart homes =
      let rest = Others-nodes addrs xs others apart.1 homes.1 in
      let same = others x apart.0 homes.0.home in
      (
        ap₂ ◌∷◌ same rest.0,
        (record { shape = rw same homes.0.shape; home = rw same homes.0.home }, rest.1),
      )

  -- The path `p` after the path `q` was rewritten: common nodes `cs'` for `cs`, and the rest `xs`.
  pub record Shares (height p q : ℕ) : Type 0 where
    pub cs : List Node
    pub cs' : List Node
    pub xs : List Node
    pub ys : List Node
    pub ys' : List Node
    pub before : path_nodes store server height p ≡ cs ++ xs
    pub after : path_nodes store server' height p ≡ cs' ++ xs
    pub before_q : path_nodes store server height q ≡ cs ++ ys
    pub after_q : path_nodes store server' height q ≡ cs' ++ ys'
    pub homes : HomeNodes store size alloc server' height p
    pub same_length : length cs' ≡ length cs
    pub agree : (i : ℕ) → i < length cs' → p % 2 ^ i ≡ q % 2 ^ i
    pub parts : ((xs ≡ []) × ((ys ≡ []) × (ys' ≡ []))) ⊎ (p % 2 ^ length cs' ≢ q % 2 ^ length cs')

  pub paths-Shares :
      (height p q : ℕ)
      → height ≤ 20
      → HomeNodes store size alloc server height p
      → HomeNodes store size alloc server' height q
      → Others (path_addrs height 0 q)
      → Shares height p q
  paths-Shares height p q small homes homes' others = record {
    cs = map (load_node server) s.common;
    cs' = map (load_node server') s.common;
    xs = map (load_node server) s.xrest;
    ys = map (load_node server) s.yrest;
    ys' = map (load_node server') s.yrest;
    before =
        ap (map (load_node server)) s.left_path ∙ map-append (load_node server) s.common s.xrest;
    after =
        ap (map (load_node server')) s.left_path
        ∙ map-append (load_node server') s.common s.xrest
        ∙ ap (λ (ns : List Node). map (load_node server') s.common ++ ns) rest.0;
    before_q =
        ap (map (load_node server)) s.right_path ∙ map-append (load_node server) s.common s.yrest;
    after_q =
        ap (map (load_node server')) s.right_path ∙ map-append (load_node server') s.common s.yrest;
    homes = subst (All (IsHomeNode store size alloc server')) (sym s.left_path) (
        All-append (IsHomeNode store size alloc server') s.common s.xrest
          (All-append_left (IsHomeNode store size alloc server') s.common s.yrest
            (subst (All (IsHomeNode store size alloc server')) s.right_path homes'))
          rest.1);
    same_length =
        length-map (load_node server') s.common ∙ sym (length-map (load_node server) s.common);
    agree = λ i low.
        same_level p q (0 + i) i (omega arith)
          (s.agree i (omega (arith, length-map (load_node server') s.common)));
    parts = elim s.parts [
      | inl none_left ↦ inl (
        ap (map (load_node server)) none_left.0,
        (ap (map (load_node server)) none_left.1, ap (map (load_node server')) none_left.1),
      )
      | inr differ ↦ inr (λ e. differ (
          same_level p q (length (map (load_node server') s.common)) (0 + length s.common)
            (omega (arith, length-map (load_node server') s.common)) e))
    ];
  }
    where
      s : Splits 0 p q (path_addrs height 0 p) (path_addrs height 0 q)
      s = paths-Splits height p q small

      rest :
          (map (load_node server') s.xrest ≡ map (load_node server) s.xrest)
          × All (IsHomeNode store size alloc server') s.xrest
      rest = Others-nodes (path_addrs height 0 q) s.xrest others s.apart (
          All-append_right (IsHomeNode store size alloc server) s.common s.xrest
            (subst (All (IsHomeNode store size alloc server)) s.left_path homes))
