-- ===== src/PathOram/Construct.antt =====
-- The constructor of `PathORAM`: the chain of ORAMs for the position maps.
use intel_sgx_path_oram.Common.{
  ℕ, zero, suc, ◌+◌, ◌-◌, ◌*◌, ◌/◌, ◌%◌, ◌^◌, ◌≤◌, ◌<◌, ◌≡◌, refl, List, [], ◌∷◌, arith, true,
  false, ◌⊎◌, inl, inr, none, some, Option, Bool-cases, leb, ltb, le→leb, lt→ltb, eq→==, ne→==,
}
use intel_sgx_path_oram.Server.{Cipher, Server}
use intel_sgx_path_oram.Client.{Client, max_pos_map}
use intel_sgx_path_oram.Client.Init.{IsInitial, init_client_lem, init_client_refused}
use intel_sgx_path_oram.Client.Upload.{IsLayout}
use intel_sgx_path_oram.MemTree.Initialize.{IsFresh, initialize_mem_tree_lem}
use intel_sgx_path_oram.PathOram.{
  Oram, client_of_first, construct, compute_tree_height, block_path_size,
}
use native.Mathlib.Nat.{div-lt_iff_lt-mul, pow-suc, mul-le-mul_right}
use intel_sgx_path_oram.PathOram.Height.{height-low, height-high}

-- The capacity of the ORAM that holds the position map of one of the given capacity.
abbrev pub higher_capacity : ℕ → ℕ → ℕ
higher_capacity size capacity = (capacity + size / block_path_size - 1) / (size / block_path_size)

module _ {size : ℕ} (cipher : Cipher size) where
  -- From the given capacity on, each ORAM is fresh and holds the position map of the one before,
  -- and the last one's own position map fits into the client.
  abbrev pub IsChain : (ℕ → ℕ → List ℕ) → ℕ → List Oram → Type 0
  IsChain allocs capacity [] = ⊥
  IsChain allocs capacity (o ∷ rest) =
      (o.capacity ≡ capacity)
      × IsFresh cipher (allocs 0) (compute_tree_height capacity) o.tree
      × ((capacity ≤ max_pos_map) × (rest ≡ [])
          ⊎ (max_pos_map < capacity)
            × IsChain (λ l. allocs (l + 1)) (higher_capacity size capacity) rest)

  -- The first ORAM, whose client has been initialised.
  pub record IsBuilt (allocs : ℕ → ℕ → List ℕ) (behind : List ℕ) (capacity : ℕ) (c : Client)
      (orams : List Oram) : Type 0 where
    pub client : IsInitial size behind c
    pub chain : IsChain allocs capacity orams

  module _ (word : 8 ≤ size) (whole : size % 8 ≡ 0) where
    two_paths : 2 ≤ size / block_path_size
    two_paths = omega arith

    higher_capacity-le : (capacity q : ℕ) → capacity ≤ 2 * q → higher_capacity size capacity ≤ q
    higher_capacity-le capacity q h = omega (arith, quotient)
      where
        positive : 0 < size / block_path_size
        positive = omega (arith, two_paths)

        below : capacity + size / block_path_size - 1 < suc q * (size / block_path_size)
        below = grind (arith, h, two_paths, mul-le-mul_right q two_paths)

        quotient : higher_capacity size capacity < suc q
        quotient =
            (div-lt_iff_lt-mul {k = size / block_path_size}
                {x = capacity + size / block_path_size - 1} {y = suc q} positive).1
              below

    no_overflow :
        (capacity : ℕ)
        → capacity < 2 ^ 63
        → (capacity + size / block_path_size - 1) % 2 ^ 64 ≡ capacity + size / block_path_size - 1
    no_overflow capacity low = omega (arith, cipher.size_fits)

    -- The constructor of a position map returns such a chain, and initialises no client.
    abbrev Constructed : ℕ → ℕ → (ℕ → ℕ → List ℕ) → Server → List ℕ → ℕ → Type 0
    Constructed fuel id allocs heap behind capacity =
        (orams : List Oram) × (construct cipher fuel id allocs heap behind capacity
          ≡ some (record { client = none; orams = orams }))
        × IsChain allocs capacity orams

    -- The constructor, where its id says whether it initialises the client.
    module _ (fuel id : ℕ) (allocs : ℕ → ℕ → List ℕ) (heap : Server) (behind : List ℕ)
        (capacity : ℕ) (layout : IsLayout (allocs 0)) (client : Option Client)
        (initialized : client_of_first id capacity size behind none ≡ some client) where
      abbrev Builds : List Oram → Type 0
      Builds orams =
          construct cipher (suc fuel) id allocs heap behind capacity
          ≡ some (record { client = client; orams = orams })

      construct_last :
          leb capacity max_pos_map ≡ true
          → (orams : List Oram) × Builds orams × IsChain allocs capacity orams
      unfolding construct
      construct_last fits =
          let (tree, runs, fresh) =
            initialize_mem_tree_lem cipher (allocs 0) layout (compute_tree_height capacity) heap
              whole in
          (
            record { capacity = capacity; tree = tree } ∷ [],
            rw (fits, initialized, runs) refl,
            (refl, fresh, inl (ground arith, refl)),
          )

      construct_more :
          leb capacity max_pos_map ≡ false
          → capacity < 2 ^ 63
          → Constructed fuel
              (id + 1)
              (λ l. allocs (l + 1))
              heap
              behind
              (higher_capacity size capacity)
          → (orams : List Oram) × Builds orams × IsChain allocs capacity orams
      unfolding construct
      construct_more over low (rest, runs', chain) =
          let (tree, runs, fresh) =
            initialize_mem_tree_lem cipher (allocs 0) layout (compute_tree_height capacity) heap
              whole in
          (
            record { capacity = capacity; tree = tree } ∷ rest,
            rw
                (
                  over,
                  eq→== (size % block_path_size) 0 (omega arith),
                  lt→ltb 1 (size / block_path_size) two_paths,
                  no_overflow capacity low,
                  runs',
                  initialized,
                  runs,
                )
                refl,
            (refl, fresh, inr (ground arith, chain)),
          )

    construct_pos_map :
        (fuel id : ℕ) (allocs : ℕ → ℕ → List ℕ) (heap : Server) (behind : List ℕ) (capacity : ℕ)
        → 2 ≤ id
        → ((l : ℕ) → IsLayout (allocs l))
        → capacity ≤ max_pos_map * 2 ^ fuel
        → capacity < 2 ^ 63
        → Constructed (suc fuel) id allocs heap behind capacity
    construct_pos_map zero id allocs heap behind capacity later layouts small low =
        construct_last 0 id allocs heap behind capacity (layouts 0) none
          (rw (ne→== id 1 (λ e. omega arith)) refl) (le→leb capacity max_pos_map (omega arith))
    construct_pos_map (suc fuel) id allocs heap behind capacity later layouts small low =
        let skipped : client_of_first id capacity size behind none ≡ some none =
          rw (ne→== id 1 (λ e. omega arith)) refl in
        elim (Bool-cases (leb capacity max_pos_map)) [
          | inl fits ↦
              construct_last (suc fuel) id allocs heap behind capacity (layouts 0) none skipped fits
          | inr over ↦
              construct_more (suc fuel) id allocs heap behind capacity (layouts 0) none skipped over
                low
                (construct_pos_map fuel (id + 1) (λ l. allocs (l + 1)) heap behind
                  (higher_capacity size capacity) (omega arith) (λ l. layouts (l + 1))
                  (higher_capacity-le capacity (max_pos_map * 2 ^ fuel)
                    (omega (arith, pow-suc 2 fuel)))
                  (omega (arith, low, higher_capacity-le capacity capacity (omega arith))))
        ]

    pos_map-Constructed :
        (fuel : ℕ) (allocs : ℕ → ℕ → List ℕ) (heap : Server) (behind : List ℕ) (capacity : ℕ)
        → ((l : ℕ) → IsLayout (allocs l))
        → capacity ≤ max_pos_map * 2 ^ suc fuel
        → capacity < 2 ^ 63
        → Constructed (suc fuel) 2 (λ l. allocs (l + 1)) heap behind (higher_capacity size capacity)
    pos_map-Constructed fuel allocs heap behind capacity layouts small low =
        construct_pos_map fuel 2 (λ l. allocs (l + 1)) heap behind (higher_capacity size capacity)
          (omega arith) (λ l. layouts (l + 1))
          (higher_capacity-le capacity (max_pos_map * 2 ^ fuel) (omega (arith, pow-suc 2 fuel)))
          (omega (arith, low, higher_capacity-le capacity capacity (omega arith)))

    -- The first ORAM needs a client whose path is as long as its tree is high.
    construct_too_high :
        (fuel : ℕ) (allocs : ℕ → ℕ → List ℕ) (heap : Server) (behind : List ℕ) (capacity : ℕ)
        → leb capacity max_pos_map ≡ false
        → 2 ^ 19 ≤ capacity
        → capacity < 2 ^ 63
        → Constructed fuel 2 (λ l. allocs (l + 1)) heap behind (higher_capacity size capacity)
        → construct cipher (suc fuel) 1 allocs heap behind capacity ≡ none
    unfolding construct
    construct_too_high fuel allocs heap behind capacity over high low (rest, runs', chain) =
        rw
          (
            over,
            eq→== (size % block_path_size) 0 (omega arith),
            lt→ltb 1 (size / block_path_size) two_paths,
            no_overflow capacity low,
            runs',
            init_client_refused (compute_tree_height capacity) size behind
                (height-high capacity high low),
          )
          refl

    first-IsChain :
        (fuel : ℕ) (allocs : ℕ → ℕ → List ℕ) (heap : Server) (behind : List ℕ) (capacity : ℕ)
        → ((l : ℕ) → IsLayout (allocs l))
        → capacity ≤ max_pos_map * 2 ^ fuel
        → capacity < 2 ^ 63
        → (c : Client) → client_of_first 1 capacity size behind none ≡ some (some c)
        → (orams : List Oram) × (construct cipher (suc fuel) 1 allocs heap behind capacity
            ≡ some (record { client = some c; orams = orams }))
          × IsChain allocs capacity orams
    first-IsChain zero allocs heap behind capacity layouts small low c made =
        construct_last 0 1 allocs heap behind capacity (layouts 0) (some c) made
          (le→leb capacity max_pos_map (omega arith))
    first-IsChain (suc fuel) allocs heap behind capacity layouts small low c made =
        elim (Bool-cases (leb capacity max_pos_map)) [
          | inl fits ↦
              construct_last (suc fuel) 1 allocs heap behind capacity (layouts 0) (some c) made fits
          | inr over ↦
              construct_more (suc fuel) 1 allocs heap behind capacity (layouts 0) (some c) made over
                low (pos_map-Constructed fuel allocs heap behind capacity layouts small low)
        ]

    too_high :
        (fuel : ℕ) (allocs : ℕ → ℕ → List ℕ) (heap : Server) (behind : List ℕ) (capacity : ℕ)
        → ((l : ℕ) → IsLayout (allocs l))
        → capacity ≤ max_pos_map * 2 ^ fuel
        → capacity < 2 ^ 63
        → 2 ^ 19 ≤ capacity
        → construct cipher (suc fuel) 1 allocs heap behind capacity ≡ none
    too_high zero allocs heap behind capacity layouts small low high = absurd (omega arith)
    too_high (suc fuel) allocs heap behind capacity layouts small low high =
        construct_too_high (suc fuel) allocs heap behind capacity (ground arith) high low
          (pos_map-Constructed fuel allocs heap behind capacity layouts small low)

    -- For block sizes that are positive multiples of 8, distinct buffers for the nodes of each
    -- tree, and a capacity of at most `65536 * 2 ^ fuel` and below 2 ^ 63, the constructor of the
    -- first ORAM ends. If the capacity is below 524288 it leaves a good client with an empty stash
    -- and a position map of zeros, and a chain of ORAMs of fresh trees: the first has the capacity,
    -- each next one the capacity of its predecessor's position map, and the chain ends exactly
    -- where that fits into the client. From 524288 on it fails the assertion of the client's
    -- initialisation on the height.
    pub construct_lem :
        (fuel : ℕ) (allocs : ℕ → ℕ → List ℕ) (heap : Server) (behind : List ℕ) (capacity : ℕ)
        → ((l : ℕ) → IsLayout (allocs l))
        → capacity ≤ max_pos_map * 2 ^ fuel
        → capacity < 2 ^ 63
        → (capacity < 2 ^ 19)
            × ((c : Client) × (orams : List Oram) × (construct cipher
                    (suc fuel)
                    1
                    allocs
                    heap
                    behind
                    capacity
                  ≡ some (record { client = some c; orams = orams }))
                × IsBuilt allocs behind capacity c orams)
          ⊎ (2 ^ 19 ≤ capacity) × (construct cipher (suc fuel) 1 allocs heap behind capacity ≡ none)
    construct_lem fuel allocs heap behind capacity layouts small low =
        elim (Bool-cases (ltb capacity 524288)) [
          | inl below ↦
              let (c, made, initial) =
                init_client_lem (compute_tree_height capacity) size behind
                  (height-low capacity (ground arith)) word whole in
              let (orams, runs, chain) =
                first-IsChain fuel allocs heap behind capacity layouts small low c (rw made refl) in
              inl (ground arith, (c, orams, runs, record { client = initial; chain = chain }))
          | inr above ↦ inr (
            ground arith,
            too_high fuel allocs heap behind capacity layouts small low (ground arith),
          )
        ]
