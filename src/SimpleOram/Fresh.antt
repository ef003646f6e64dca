-- ===== src/SimpleOram/Fresh.antt =====
-- A tree and a client as initialisation leaves them.
use intel_sgx_path_oram.Common.{
  ℕ, ◌+◌, ◌%◌, ◌^◌, ◌≤◌, ◌<◌, ◌≡◌, refl, List, [], ◌∷◌, ◌++◌, arith, length, All, All-drop, ◌∙◌, ap,
  sym, map, take, drop, take-append-drop, replicate, true, some,
}
use mathlib.Core.Path.{ap₂, subst}
use intel_sgx_path_oram.Node.{Block}
use intel_sgx_path_oram.Node.Keys.{last_match}
use intel_sgx_path_oram.Node.Shape.{IsNode, blocks}
use intel_sgx_path_oram.Server.{Cipher, Server}
use intel_sgx_path_oram.Client.{Client, init_client, client_max_path}
use intel_sgx_path_oram.Client.EvictSlots.{Along}
use intel_sgx_path_oram.Client.Init.{init_client_lem, zeros-IsBuffer}
use intel_sgx_path_oram.Client.Path.{path_addrs-lt, All-weaken}
use intel_sgx_path_oram.Client.Shape.{IsClient}
use intel_sgx_path_oram.Client.Stash.{stash_blocks, stash_blocks-append}
use intel_sgx_path_oram.Client.Tree.{path_addrs}
use intel_sgx_path_oram.Client.Upload.{IsLayout}
use intel_sgx_path_oram.MemTree.{MemTree, initialize_mem_tree}
use intel_sgx_path_oram.MemTree.Initialize.{initialize_mem_tree_lem}
use intel_sgx_path_oram.Simple.{TreeStore, PlainServer, aes_store, plain_store}
use intel_sgx_path_oram.Simple.Empty.{load_aes_empty}
use intel_sgx_path_oram.Simple.Saved.{IsHomeNode}
use intel_sgx_path_oram.Simple.SinkBlock.{NodesLie}
use intel_sgx_path_oram.SimpleTree.{SimpleTree, plain_initialize_mem_tree}
use intel_sgx_path_oram.SimpleTree.InitializePlain.{plain_initialize_mem_tree_lem}
use intel_sgx_path_oram.SimpleTree.FetchAll.{blocks_on}
use intel_sgx_path_oram.SimpleTree.FlushAll.{AtPos}
use intel_sgx_path_oram.SimpleTree.Rewrite.{IsSimpleClient}
use intel_sgx_path_oram.SimpleOram.Invariant.{IsSimpleTree}
use intel_sgx_path_oram.SimpleOram.Array.{IsState, array_of}

module _ {S : Type 0} (store : TreeStore S) (size : ℕ) (alloc : ℕ → List ℕ) (server : S) where
  open store use {load_node}

  -- The node is empty.
  abbrev Empty : ℕ → Type 0
  Empty a = blocks (load_node server a).slots ≡ []

  nothing_on :
      (addrs : List ℕ)
      → All Empty addrs
      → stash_blocks (map (λ (a : ℕ). load_node server a) addrs) ≡ []
  nothing_on [] h = refl
  nothing_on (a ∷ addrs) h = ap₂ ◌++◌ h.0 (nothing_on addrs h.1)

  Empty-NodesLie :
      (p h : ℕ) (addrs : List ℕ)
      → All Empty addrs
      → NodesLie p h (map (λ (a : ℕ). load_node server a) addrs)
  Empty-NodesLie p h [] empty = tt
  Empty-NodesLie p h (a ∷ addrs) empty =
      (subst (All (Along h p)) (sym empty.0) tt, Empty-NodesLie p (h + 1) addrs empty.1)

  Empty-IsSimpleTree :
      (height : ℕ) (pos : ℕ → ℕ)
      → height ≤ 20
      → ((a : ℕ) → a < 2 ^ height → IsHomeNode store size alloc server a × Empty a)
      → IsSimpleTree store size alloc server height pos
        × ((p : ℕ) → blocks_on store server height p ≡ [])
  Empty-IsSimpleTree height pos small nodes = (
    record {
      homes = λ p.
          All-weaken (λ a. a < 2 ^ height) (IsHomeNode store size alloc server)
            (path_addrs height 0 p) (λ a low. (nodes a low).0) (path_addrs-lt height p small);
      lie = λ p. Empty-NodesLie p 0 (path_addrs height 0 p) (empty p);
      mapped = λ p. subst (All (AtPos pos)) (sym (nothing p)) tt;
      once = λ k. rw (nothing (pos k)) (omega arith);
    },
    nothing,
  )
    where
      empty : (p : ℕ) → All Empty (path_addrs height 0 p)
      empty p =
          All-weaken (λ a. a < 2 ^ height) Empty (path_addrs height 0 p) (λ a low. (nodes a low).1)
            (path_addrs-lt height p small)

      nothing : (p : ℕ) → blocks_on store server height p ≡ []
      nothing p = nothing_on (path_addrs height 0 p) (empty p)

none_right : (xs ys : List Block) → xs ++ ys ≡ [] → ys ≡ []
none_right [] ys e = e
none_right (x ∷ xs) ys e = absurd (omega (arith, ap length e))

IsClient-IsSimpleClient :
    (size height : ℕ) (c : Client)
    → IsClient size c
    → stash_blocks c.path ≡ []
    → IsSimpleClient size height c
IsClient-IsSimpleClient size height c h e = record {
  twenty = h.twenty;
  rest = All-drop (IsNode size) height c.path h.stash;
  unused = none_right (stash_blocks (take height c.path)) (stash_blocks (drop height c.path)) (
      sym (stash_blocks-append (take height c.path) (drop height c.path))
      ∙ ap stash_blocks (take-append-drop height c.path)
      ∙ e);
}

-- For a height from 1 to 19, a block size that is a positive multiple of 8 and distinct buffers:
-- the initialisations of the client and of an encrypted tree succeed, and together they keep the
-- invariant and stand for the array of zeros, whatever the position map holds.
pub fresh-IsState :
    {size : ℕ} (cipher : Cipher size) (alloc : ℕ → List ℕ) (height : ℕ) (heap : Server)
    (behind : List ℕ) (pos : ℕ → ℕ)
    → IsLayout alloc
    → 1 ≤ height
    → height < client_max_path
    → 8 ≤ size
    → size % 8 ≡ 0
    → (c : Client) × (t : MemTree) × (init_client height size behind ≡ some c)
      × (initialize_mem_tree cipher alloc height heap ≡ some t)
      × IsState
          (aes_store cipher)
          size
          alloc
          (record { tree = record { height = height; server = t.server }; client = c; pos = pos })
      × (array_of
            (aes_store cipher)
            size
            alloc
            (record { tree = record { height = height; server = t.server }; client = c; pos = pos })
          ≡ λ k. replicate size 0)
fresh-IsState {size} cipher alloc height heap behind pos layout high low word whole =
    let client = init_client_lem height size behind low word whole in
    let fresh = initialize_mem_tree_lem cipher alloc layout height heap whole in
    let tree =
      Empty-IsSimpleTree (aes_store cipher) size alloc fresh.0.server height pos
        (omega (arith, low))
        (λ a below. load_aes_empty cipher fresh.0.server alloc a layout (fresh.2.nodes a below)) in
    (
      client.0,
      fresh.0,
      client.1,
      fresh.1,
      record {
        high = high;
        small = omega (arith, low);
        tree = tree.0;
        client = IsClient-IsSimpleClient size height client.0 client.2.client client.2.empty;
      },
      λ i k. ap (last_match k (replicate size 0)) (tree.1 (pos k)) i,
    )

-- The same without AES_ENC, where the array of the nodes is allocated.
pub fresh_plain-IsState :
    (size : ℕ) (alloc : ℕ → List ℕ) (height : ℕ) (heap : PlainServer) (behind : List ℕ)
    (pos : ℕ → ℕ)
    → IsLayout alloc
    → 1 ≤ height
    → height < client_max_path
    → 8 ≤ size
    → size % 8 ≡ 0
    → (c : Client) × (tree : SimpleTree PlainServer) × (init_client height size behind ≡ some c)
      × (plain_initialize_mem_tree size alloc height true heap ≡ some (true, tree))
      × IsState plain_store size alloc (record { tree = tree; client = c; pos = pos })
      × (array_of plain_store size alloc (record { tree = tree; client = c; pos = pos }) ≡ λ k.
          replicate size 0)
fresh_plain-IsState size alloc height heap behind pos layout high low word whole =
    let client = init_client_lem height size behind low word whole in
    let fresh =
      plain_initialize_mem_tree_lem size alloc height heap layout (zeros-IsBuffer size word whole)
        whole in
    let tree =
      Empty-IsSimpleTree plain_store size alloc fresh.0.server fresh.0.height pos
        (omega (arith, low, fresh.2))
        (λ a below. fresh.3 a (subst (λ (h : ℕ). a < 2 ^ h) fresh.2 below)) in
    (
      client.0,
      fresh.0,
      client.1,
      fresh.1,
      record {
        high = omega (arith, fresh.2, high);
        small = omega (arith, low, fresh.2);
        tree = tree.0;
        client =
            IsClient-IsSimpleClient size fresh.0.height client.0 client.2.client client.2.empty;
      },
      λ i k. ap (last_match k (replicate size 0)) (tree.1 (pos k)) i,
    )
