-- ===== src/SimpleOram/Construct.antt =====
-- The constructors of SimpleORAM and of PathORAM compared.
use intel_sgx_path_oram.Common.{
  ℕ, zero, suc, ◌+◌, ◌-◌, ◌/◌, ◌%◌, ◌^◌, ◌≡◌, refl, List, [], ◌∷◌, Bool, map, Option, some, none,
  leb, ltb, ◌==◌, ◌&&◌, true, false, Bool-cases, inl, inr, ◌∙◌, ap,
}
use intel_sgx_path_oram.Server.{Cipher, Server}
use intel_sgx_path_oram.Client.{Client, max_pos_map, ◌>>=◌, assert}
use intel_sgx_path_oram.MemTree.{MemTree, initialize_mem_tree}
use intel_sgx_path_oram.PathOram.{
  Oram, Built, client_of_first, construct, compute_tree_height, block_path_size,
}
use intel_sgx_path_oram.SimpleOram.{SimpleOram, SimpleBuilt, simple_construct}

-- The same ORAM, seen as a SimpleORAM with AES_ENC.
abbrev pub simple_of : Oram → SimpleOram Server
simple_of o = record {
  capacity = o.capacity;
  tree = record { height = o.tree.height; server = o.tree.server };
}

abbrev pub simple_built : Built → SimpleBuilt
simple_built b = record { client = b.client; orams = map simple_of b.orams }

abbrev pub simple_of_all : Option Built → Option SimpleBuilt
simple_of_all none = none
simple_of_all (some b) = some (simple_built b)

-- The last steps of both: the client of the first ORAM, and the tree before those of the position
-- map.
abbrev join :
    (Option Client → Option (Option Client)) → ℕ → Option Built → Option MemTree → Option Built
join first capacity pos_map t = pos_map >>= λ rest. first rest.client >>= λ client. t >>= λ tree.
    some
      (record { client = client; orams = record { capacity = capacity; tree = tree } ∷ rest.orams })

abbrev simple_join :
    (Option Client → Option (Option Client))
    → ℕ
    → Option SimpleBuilt
    → Option MemTree
    → Option SimpleBuilt
simple_join first capacity pos_map t = pos_map >>= λ rest. first rest.client >>= λ client.
    t >>= λ tree. some (record {
      client = client;
      orams =
          record {
            capacity = capacity;
            tree = record { height = tree.height; server = tree.server };
          }
          ∷ rest.orams;
    })

add_tree :
    (capacity : ℕ) (rest : List Oram) (client : Option (Option Client)) (t : Option MemTree)
    → (client >>= λ client'. t >>= λ tree. some (record {
      client = client';
      orams =
          record {
            capacity = capacity;
            tree = record { height = tree.height; server = tree.server };
          }
          ∷ map simple_of rest;
    }))
      ≡ simple_of_all (
          client >>= λ client'. t >>= λ tree.
          some (record {
            client = client';
            orams = record { capacity = capacity; tree = tree } ∷ rest;
          }))
add_tree capacity rest none t = refl
add_tree capacity rest (some client) none = refl
add_tree capacity rest (some client) (some tree) = refl

join-simple :
    (first : Option Client → Option (Option Client)) (capacity : ℕ) (pos_map : Option Built)
    (t : Option MemTree)
    → simple_join first capacity (simple_of_all pos_map) t
      ≡ simple_of_all (join first capacity pos_map t)
join-simple first capacity none t = refl
join-simple first capacity (some b) t = add_tree capacity b.orams (first b.client) t

assert-simple :
    (b : Bool) (pos_map : Option Built)
    → (assert b >>= λ ok. simple_of_all pos_map) ≡ simple_of_all (assert b >>= λ ok. pos_map)
assert-simple true pos_map = refl
assert-simple false pos_map = refl

module _ {size : ℕ} (cipher : Cipher size) where
  -- The constructor of SimpleORAM, for any capacity and block size, fails where that of PathORAM
  -- fails, and else gives the same chain of trees and the same client.
  pub simple_construct-construct :
      (fuel id : ℕ) (allocs : ℕ → ℕ → List ℕ) (heap : Server) (behind : List ℕ) (capacity : ℕ)
      → simple_construct cipher fuel id allocs heap behind capacity
        ≡ simple_of_all (construct cipher fuel id allocs heap behind capacity)
  unfolding simple_construct construct
  simple_construct-construct zero id allocs heap behind capacity = refl
  simple_construct-construct (suc fuel) id allocs heap behind capacity =
      elim (Bool-cases (leb capacity max_pos_map)) [
        | inl fits ↦
            rw fits (join-simple first capacity (some (record { client = none; orams = [] })) here)
        | inr over ↦ rw over (
            ap (λ pos_map. simple_join first capacity pos_map here)
              (ap (λ (pos_map : Option SimpleBuilt). assert divides >>= λ ok. pos_map)
                  (simple_construct-construct fuel (id + 1) (λ l. allocs (l + 1)) heap behind
                    higher)
                ∙ assert-simple divides rest)
            ∙ join-simple first capacity (assert divides >>= λ ok. rest) here)
      ]
    where
      first : Option Client → Option (Option Client)
      first client = client_of_first id capacity size behind client

      here : Option MemTree
      here = initialize_mem_tree cipher (allocs 0) (compute_tree_height capacity) heap

      divides : Bool
      divides = size % block_path_size == 0 && ltb 1 (size / block_path_size)

      higher : ℕ
      higher = (capacity + size / block_path_size - 1) % 2 ^ 64 / (size / block_path_size)

      rest : Option Built
      rest = construct cipher fuel (id + 1) (λ l. allocs (l + 1)) heap behind higher
