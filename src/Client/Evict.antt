-- ===== src/Client/Evict.antt =====
-- The scan of the stash for one level, `gather_nodes`: which blocks go into the node of that level,
-- and which stay.
use intel_sgx_path_oram.Common.{
  ℕ, suc, ◌+◌, ◌-◌, ◌^◌, ◌≡◌, refl, List, [], ◌∷◌, ◌++◌, arith, length, length-append, All,
  All-append, Perm, ◌∙◌, ap,
}
use intel_sgx_path_oram.Node.{Node, Block}
use intel_sgx_path_oram.Node.Shape.{blocks, IsNode, length-blocks-le}
use intel_sgx_path_oram.Client.{Gathered, GatherSlots, GatherNodes, gather_slots, gather_nodes}
use intel_sgx_path_oram.Client.Stash.{stash_blocks}
use mathlib.Core.List.Perm
use mathlib.Core.List.{append_assoc, perm_append_comm}
use intel_sgx_path_oram.Client.EvictSlots.{Off, Gathers, Gathers-nil, ScansSlots, gather_slots_lem}

regroup :
    (t xs ys t' xs' t'' ys' : List Block)
    → Perm (t ++ xs) (t' ++ xs')
    → Perm (t' ++ ys) (t'' ++ ys')
    → Perm (t ++ (xs ++ ys)) (t'' ++ (xs' ++ ys'))
regroup t xs ys t' xs' t'' ys' p q = Perm.trans (Perm.symm (Perm-assoc t xs ys)) (
    Perm.trans (Perm.append_right ys p) (
      Perm.trans (Perm-comm t' xs' ys) (
        Perm.trans (Perm.append_right xs' q)
          (Perm.trans (Perm-assoc t'' ys' xs') (Perm.append_left t'' (perm_append_comm ys' xs'))))))
  where
    Perm-assoc : (a b c : List Block) → Perm ((a ++ b) ++ c) (a ++ (b ++ c))
    Perm-assoc a b c = rw (append_assoc a b c) (Perm.refl _)

    Perm-comm : (a b c : List Block) → Perm ((a ++ b) ++ c) ((a ++ c) ++ b)
    Perm-comm a b c =
        rw (append_assoc a b c, append_assoc a c b) (Perm.append_left a (perm_append_comm b c))

module _ (size h tree_path : ℕ) where
  -- Two scans in a row.
  Gathers-append :
      (xs xs' ys ys' : List Block) (g g' g'' : Gathered)
      → Gathers size h tree_path xs xs' g g'
      → Gathers size h tree_path ys ys' g' g''
      → Gathers size h tree_path (xs ++ ys) (xs' ++ ys') g g''
  Gathers-append xs xs' ys ys' g g' g'' p q = record {
    shape = q.shape;
    grows = omega (arith, p.grows, q.grows);
    contents =
        regroup (blocks g.temp.slots) xs ys (blocks g'.temp.slots) xs' (blocks g''.temp.slots) ys'
          p.contents q.contents;
    along = λ a. q.along (p.along a);
    clean = λ a. q.clean (p.clean a);
    greedy = λ room.
        All-append (Off h tree_path) xs' ys' (p.greedy (omega (arith, q.grows))) (q.greedy room);
    shrinks = omega (arith, p.shrinks, q.shrinks, before, after);
    load = λ fits small.
        let first = p.load (omega (arith, before)) small in
        omega (
          arith,
          before,
          after,
          first,
          q.load (omega (arith, before, first)) (omega (arith, first, p.shrinks, before)),
        );
  }
    where
      before : length (xs ++ ys) ≡ length xs + length ys
      before = length-append xs ys

      after : length (xs' ++ ys') ≡ length xs' + length ys'
      after = length-append xs' ys'

  -- The stash after the scan.
  pub record ScansNodes (ns : List Node) (g : Gathered) (r : GatherNodes) : Type 0 where
    pub good : All (IsNode size) r.path
    pub same_length : length r.path ≡ length ns
    pub gathers : Gathers size h tree_path (stash_blocks ns) (stash_blocks r.path) g r.state

  scan_node :
      (n : Node) (ns : List Node) (g : Gathered)
      → IsNode size n
      → IsNode size g.temp
      → (let r = gather_slots (2 ^ h - 1) tree_path size n.num_blocks n.slots g in
          IsNode size r.state.temp
          → ScansNodes ns r.state (gather_nodes (2 ^ h - 1) tree_path size ns r.state))
      → ScansNodes (n ∷ ns) g (gather_nodes (2 ^ h - 1) tree_path size (n ∷ ns) g)
  unfolding gather_nodes
  scan_node n ns g hn hg later = record {
    good = (here_IsNode, rest.good);
    same_length = ap suc rest.same_length;
    gathers =
        Gathers-append (blocks n.slots) (blocks r.node.slots) (stash_blocks ns) _ g r.state _
          here.gathers rest.gathers;
  }
    where
      r : GatherSlots
      r = gather_slots (2 ^ h - 1) tree_path size n.num_blocks n.slots g

      here : ScansSlots size h tree_path n.slots n.num_blocks g r
      here = gather_slots_lem size h tree_path n.slots n.num_blocks g hn.good hg

      rest : ScansNodes ns r.state (gather_nodes (2 ^ h - 1) tree_path size ns r.state)
      rest = later here.gathers.shape

      here_IsNode : IsNode size r.node
      here_IsNode = record {
        four = here.same_length ∙ hn.four;
        good = here.good;
        counted = omega (
          arith,
          here.counted (omega (arith, hn.counted))
              (omega (arith, hn.counted, hn.four, length-blocks-le n.slots)),
          hn.counted,
        );
      }

  -- The scan of a good stash for level `h` with the mask `2 ^ h - 1`: no block is lost between the
  -- node and the stash, blocks that moved agree with the tree path in its `h` lowest bits, blocks
  -- that stay while the node has a free slot do not, and counts and the stash load follow the
  -- blocks.
  pub gather_nodes_lem :
      (ns : List Node) (g : Gathered)
      → All (IsNode size) ns
      → IsNode size g.temp
      → ScansNodes ns g (gather_nodes (2 ^ h - 1) tree_path size ns g)
  unfolding gather_nodes
  gather_nodes_lem [] g hs hg = record {
    good = tt;
    same_length = refl;
    gathers = Gathers-nil size h tree_path g hg;
  }
  gather_nodes_lem (n ∷ ns) g hs hg = scan_node n ns g hs.0 hg (
      gather_nodes_lem ns (gather_slots (2 ^ h - 1) tree_path size n.num_blocks n.slots g).state
        hs.1)
