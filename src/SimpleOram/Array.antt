-- ===== src/SimpleOram/Array.antt =====
-- Accesses in sequence, the states that they go through, and the array of blocks by key that a state
-- stands for.
use intel_sgx_path_oram.Common.{ℕ, ◌^◌, ◌≤◌, ◌<◌, ◌≡◌, ◌≢◌, List, [], ◌∷◌, true, some, Option}
use intel_sgx_path_oram.Server.{update}
use intel_sgx_path_oram.Client.{Client}
use intel_sgx_path_oram.PathOram.{exchange, in_bounds}
use intel_sgx_path_oram.Simple.{TreeStore}
use intel_sgx_path_oram.SimpleTree.{SimpleTree}
use intel_sgx_path_oram.SimpleTree.Rewrite.{IsSimpleClient}
use intel_sgx_path_oram.SimpleOram.{SimpleTreeAccess, access_simple_tree}
use intel_sgx_path_oram.SimpleOram.Invariant.{IsSimpleTree, held}

-- A call of the access with the random values that it draws: the new path, and the flushed one.
pub record Request : Type 0 where
  pub key : ℕ
  pub new_path : ℕ
  pub rand_path : ℕ
  pub block : List ℕ
  pub write_size : ℕ
  pub write_offset : ℕ

-- The array that an ORAM stands for: what a call hands back, and what it leaves.
abbrev pub array_block : (ℕ → List ℕ) → Request → List ℕ
array_block array q = (exchange q.write_size q.write_offset q.block (array q.key)).block

abbrev pub array_after : (ℕ → List ℕ) → Request → ℕ → List ℕ
array_after array q =
    update array q.key (exchange q.write_size q.write_offset q.block (array q.key)).fetched_block

abbrev pub array_blocks : (ℕ → List ℕ) → List Request → List (List ℕ)
array_blocks array [] = []
array_blocks array (q ∷ qs) = array_block array q ∷ array_blocks (array_after array q) qs

abbrev pub array_end : (ℕ → List ℕ) → List Request → ℕ → List ℕ
array_end array [] = array
array_end array (q ∷ qs) = array_end (array_after array q) qs

-- The tree, the client, and the position map.
pub record SimpleState (S : Type 0) : Type 0 where
  pub tree : SimpleTree S
  pub client : Client
  pub pos : ℕ → ℕ

pub record IsRequest (size : ℕ) (q : Request) : Type 0 where
  pub named : q.key ≢ 0
  pub key_fits : q.key < 2 ^ 32
  pub path_fits : q.new_path < 2 ^ 32
  pub within : in_bounds size q.write_size q.write_offset q.block ≡ true

module _ {S : Type 0} (store : TreeStore S) (size : ℕ) (alloc : ℕ → List ℕ) where
  abbrev pub run : SimpleState S → Request → Option (SimpleTreeAccess S)
  run s q =
      access_simple_tree store size s.tree q.key q.new_path (s.pos q.key) q.block q.write_size
        q.write_offset (q.rand_path ∷ []) s.client

  abbrev pub next : SimpleState S → Request → SimpleTreeAccess S → SimpleState S
  next s q r = record { tree = r.tree; client = r.client; pos = update s.pos q.key q.new_path }

  -- Calls one after the other, with the blocks that they hand back.
  pub data Steps : SimpleState S → List Request → List (List ℕ) → SimpleState S → Type 0 where
    done : {s : SimpleState S} → Steps s [] [] s
    step :
        {s s' : SimpleState S} {q : Request} {qs : List Request} {outs : List (List ℕ)}
        → (r : SimpleTreeAccess S) → run s q ≡ some r
        → Steps (next s q r) qs outs s'
        → Steps s (q ∷ qs) (r.block ∷ outs) s'

  pub record IsState (s : SimpleState S) : Type 0 where
    pub high : 1 ≤ s.tree.height
    pub small : s.tree.height ≤ 20
    pub tree : IsSimpleTree store size alloc s.tree.server s.tree.height s.pos
    pub client : IsSimpleClient size s.tree.height s.client

  -- The array that a state stands for.
  abbrev pub array_of : SimpleState S → ℕ → List ℕ
  array_of s = held store size alloc s.tree.server s.tree.height s.pos
