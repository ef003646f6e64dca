-- ===== src/SimpleOram/Runs.antt =====
-- Accesses in sequence, and an array of blocks by key that they are compared with.
use intel_sgx_path_oram.Common.{
  ℕ, ◌<◌, ◌≡◌, refl, List, [], ◌∷◌, arith, All, ◌∙◌, ap, sym, replicate, some, ◌==◌, ==→eq, ==→ne,
  Bool-cases, inl, inr,
}
use mathlib.Core.Path.{ap₂, subst}
use mathlib.Core.Option.{some-injective, none-ne-some}
use intel_sgx_path_oram.Node.{blocks_per_node}
use intel_sgx_path_oram.Node.Shape.{IsBuffer, length-blocks-le}
use intel_sgx_path_oram.Simple.Saved.{IsHomeNode}
use intel_sgx_path_oram.Server.{Cipher, Server}
use intel_sgx_path_oram.Client.Upload.{IsLayout}
use intel_sgx_path_oram.PathOram.{exchange}
use intel_sgx_path_oram.Simple.{TreeStore, PlainServer, aes_store, plain_store}
use intel_sgx_path_oram.Simple.Store.{IsTreeStore, aes_store-IsTreeStore, plain_store-IsTreeStore}
use intel_sgx_path_oram.SimpleTree.{SimpleTree, mem_tree_fetch}
use intel_sgx_path_oram.SimpleTree.Rewrite.{IsSimpleClient}
use intel_sgx_path_oram.SimpleOram.{SimpleTreeAccess}
use intel_sgx_path_oram.SimpleOram.Invariant.{IsSimpleTree, held}
use intel_sgx_path_oram.SimpleOram.Access.{Accessed, access_simple_tree_lem}
use intel_sgx_path_oram.SimpleOram.FullRoot.{root_load, root_of_fetch, access_simple_tree_full}
use intel_sgx_path_oram.SimpleOram.Array.{
  Request, array_block, array_after, array_blocks, array_end, SimpleState, IsRequest, run, next,
  Steps, done, step, IsState, array_of,
}

module _ {S : Type 0} (store : TreeStore S) (size : ℕ) (alloc : ℕ → List ℕ) where
  -- One call against one step of the array.
  pub record Refines (s : SimpleState S) (q : Request) (r : SimpleTreeAccess S) : Type 0 where
    pub state : IsState store size alloc (next store size alloc s q r)
    pub given : r.block ≡ array_block (array_of store size alloc s) q
    pub array :
        array_of store size alloc (next store size alloc s q r)
        ≡ array_after (array_of store size alloc s) q

  room_of :
      IsTreeStore size alloc store
      → IsBuffer size (replicate size 0)
      → (s : SimpleState S) (q : Request) (r : SimpleTreeAccess S) → IsState store size alloc s
      → run store size alloc s q ≡ some r
      → root_load store size alloc
          (mem_tree_fetch store size s.tree (s.pos q.key) q.key s.client).tree.server
        < blocks_per_node
  room_of lawful zeros s q r h e = elim (Bool-cases (loaded == blocks_per_node)) [
    | inl full ↦ absurd (
        none-ne-some r (
          sym (
            access_simple_tree_full store size alloc lawful s.tree s.pos q.key q.new_path
              q.write_size q.write_offset q.block (q.rand_path ∷ []) s.client zeros h.high h.small
              h.tree h.client (==→eq _ _ full))
          ∙ e))
    | inr free ↦ omega (
      arith,
      ==→ne _ _ free,
      length-blocks-le (store.load_node fetched.server 0).slots,
      root.shape.four,
    )
  ]
    where
      fetched : SimpleTree S
      fetched = (mem_tree_fetch store size s.tree (s.pos q.key) q.key s.client).tree

      loaded : ℕ
      loaded = root_load store size alloc fetched.server

      root : IsHomeNode store size alloc fetched.server 0
      root =
          root_of_fetch store size alloc lawful s.tree s.pos q.key s.client zeros h.high h.small
            h.tree h.client

  Accessed-Refines :
      (s : SimpleState S) (q : Request) (r : SimpleTreeAccess S)
      → IsState store size alloc s
      → Accessed store size alloc s.tree s.pos q.key q.new_path q.write_size q.write_offset q.block
          [] s.client r
      → Refines s q r
  Accessed-Refines s q r h a = record {
    state = record {
      high = omega (arith, a.same_height, h.high);
      small = omega (arith, a.same_height, h.small);
      tree =
          subst
            (λ (n : ℕ).
              IsSimpleTree store size alloc r.tree.server n (next store size alloc s q r).pos)
            (sym a.same_height) a.tree';
      client = subst (λ (n : ℕ). IsSimpleClient size n r.client) (sym a.same_height) a.client;
    };
    given = a.given;
    array = λ i j. pointwise j i;
  }
    where
      same :
          (j : ℕ)
          → held store size alloc r.tree.server s.tree.height (next store size alloc s q r).pos j
            ≡ array_after (array_of store size alloc s) q j
      same j = elim (Bool-cases (q.key == j)) [
        | inl e ↦
            subst
              (λ (i : ℕ).
                held store size alloc r.tree.server s.tree.height (next store size alloc s q r).pos
                  i
                ≡ (exchange q.write_size q.write_offset q.block
                    (array_of store size alloc s q.key)).fetched_block)
              (==→eq _ _ e) a.stored
            ∙ sym (rw e refl)
        | inr e ↦ a.others j (λ k. ==→ne _ _ e (sym k)) ∙ sym (rw e refl)
      ]

      pointwise :
          (j : ℕ)
          → array_of store size alloc (next store size alloc s q r) j
            ≡ array_after (array_of store size alloc s) q j
      pointwise j =
          ap (λ (n : ℕ). held store size alloc r.tree.server n (next store size alloc s q r).pos j)
            a.same_height
          ∙ same j

  pub run-Refines :
      IsTreeStore size alloc store
      → IsBuffer size (replicate size 0)
      → (s : SimpleState S) (q : Request) (r : SimpleTreeAccess S) → IsState store size alloc s
      → IsRequest size q
      → run store size alloc s q ≡ some r
      → Refines s q r
  run-Refines lawful zeros s q r h hq e =
      let got =
        access_simple_tree_lem store size alloc lawful s.tree s.pos q.key q.new_path q.write_size
          q.write_offset q.block q.rand_path [] s.client zeros h.high h.small hq.named hq.key_fits
          hq.path_fits hq.within h.tree h.client (room_of lawful zeros s q r h e) in
      subst (Refines s q) (some-injective got.0 r (sym got.1 ∙ e))
        (Accessed-Refines s q got.0 h got.2)

  -- Accesses of a SimpleORAM tree in sequence refine an array of blocks by key. Let the store of
  -- nodes be lawful, the block of zeros a buffer, the tree, of 1 to 20 levels, keep its invariant
  -- under the position map, and the client keep no block below those levels; let the key of each
  -- call be a 32-bit number other than 0, its new path a 32-bit number, and its range within
  -- bounds. When all calls succeed, they hand back what the array hands back, and the state that
  -- they end in keeps the invariant and stands for the array that the calls lead to, with the
  -- position map updated by each call.
  pub Steps-array :
      IsTreeStore size alloc store
      → IsBuffer size (replicate size 0)
      → {s s' : SimpleState S} {qs : List Request} {outs : List (List ℕ)}
      → IsState store size alloc s
      → All (IsRequest size) qs
      → Steps store size alloc s qs outs s'
      → IsState store size alloc s'
        × (outs ≡ array_blocks (array_of store size alloc s) qs)
        × (array_of store size alloc s' ≡ array_end (array_of store size alloc s) qs)
  Steps-array lawful zeros h hqs done = (h, refl, refl)
  Steps-array lawful zeros {s} h hqs (step {q} {qs} r e rest) =
      let one = run-Refines lawful zeros s q r h hqs.0 e in
      let more = Steps-array lawful zeros one.state hqs.1 rest in
      (
        more.0,
        ap₂ ◌∷◌ one.given (more.1 ∙ ap (λ (array : ℕ → List ℕ). array_blocks array qs) one.array),
        more.2 ∙ ap (λ (array : ℕ → List ℕ). array_end array qs) one.array,
      )

-- With encrypted nodes and with plain ones, over distinct buffers and where the block of zeros is a
-- buffer: from two states that keep their invariants and stand for the same array, the same
-- requests, each with a 32-bit key other than 0, a 32-bit new path and a range within bounds, when
-- all succeed in both builds, hand back the same blocks and end in states that stand for the same
-- array.
pub Steps-agree :
    {size : ℕ} (cipher : Cipher size) (alloc : ℕ → List ℕ)
    → IsLayout alloc
    → IsBuffer size (replicate size 0)
    → {s s' : SimpleState Server} {t t' : SimpleState PlainServer} {qs : List Request}
      {outs outs' : List (List ℕ)}
    → IsState (aes_store cipher) size alloc s
    → IsState plain_store size alloc t
    → All (IsRequest size) qs
    → array_of (aes_store cipher) size alloc s ≡ array_of plain_store size alloc t
    → Steps (aes_store cipher) size alloc s qs outs s'
    → Steps plain_store size alloc t qs outs' t'
    → (outs ≡ outs')
      × (array_of (aes_store cipher) size alloc s' ≡ array_of plain_store size alloc t')
Steps-agree {size} cipher alloc layout zeros {qs} hs ht hqs same steps steps' =
    let aes =
      Steps-array (aes_store cipher) size alloc (aes_store-IsTreeStore cipher alloc layout) zeros hs
        hqs steps in
    let plain =
      Steps-array plain_store size alloc (plain_store-IsTreeStore size alloc layout) zeros ht hqs
        steps' in
    (
      aes.1 ∙ ap (λ (array : ℕ → List ℕ). array_blocks array qs) same ∙ sym plain.1,
      aes.2 ∙ ap (λ (array : ℕ → List ℕ). array_end array qs) same ∙ sym plain.2,
    )
