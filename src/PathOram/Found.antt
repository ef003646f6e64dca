-- ===== src/PathOram/Found.antt =====
-- Where the tree keeps the accessed block after an access.
use intel_sgx_path_oram.Common.{
  ℕ, ◌%◌, ◌^◌, ◌≤◌, ◌<◌, ◌≡◌, ◌≢◌, refl, List, [], ◌∷◌, ◌++◌, arith, All, All-perm, length, true,
  ◌∙◌, ap, sym, some, replicate, Perm, Bool-cases, inl, inr, ◌==◌, ==→ne, eq→==, if◌then◌else◌,
}
use intel_sgx_path_oram.Node.{Block}
use intel_sgx_path_oram.Node.Keys.{
  count_key, last_match, erase_key, count_key-append, last_match-append, last_match_absent,
  count_key-erase_key,
}
use intel_sgx_path_oram.Node.Order.{count_key-perm, last_match-perm}
use intel_sgx_path_oram.Server.{Cipher}
use intel_sgx_path_oram.Client.{Client}
use intel_sgx_path_oram.Client.Stash.{stash_blocks}
use intel_sgx_path_oram.Client.Shape.{IsClient, stash_slots}
use intel_sgx_path_oram.Client.Tree.{path_addrs, path_blocks, node_blocks}
use intel_sgx_path_oram.Client.Path.{All-weaken, path_addrs-lt, pow_le}
use intel_sgx_path_oram.Client.Upload.{IsLayout, IsHome}
use intel_sgx_path_oram.Client.Placed.{Placed, placed_lem}
use intel_sgx_path_oram.Client.Found.{Mapped, SameScan, found_from}
use intel_sgx_path_oram.MemTree.Access.{reachable, HomePath}
use intel_sgx_path_oram.PathOram.{Oram, exchange, in_bounds, TreeAccess, access_tree}
use intel_sgx_path_oram.PathOram.AccessTree.{put_back, TreeAccessed, access_tree_lem}
use mathlib.Core.Path.{subst}
use native.Mathlib.Nat.{ℕ_set}

erase_key-Mapped : (k p : ℕ) (bs : List Block) → All (Mapped k p) (erase_key k bs)
erase_key-Mapped k p [] = tt
erase_key-Mapped k p (b ∷ bs) = elim (Bool-cases (b.key == k)) [
  | inl e ↦ rw e (erase_key-Mapped k p bs)
  | inr e ↦ rw e ((λ same. absurd (==→ne b.key k e same)), erase_key-Mapped k p bs)
]

All-append_left {ℓ κ} : {A : Type ℓ} (P : A → Type κ) (xs ys : List A) → All P (xs ++ ys) → All P xs
All-append_left P [] ys h = tt
All-append_left P (x ∷ xs) ys h = (h.0, All-append_left P xs ys h.1)

last_match-head :
    (k : ℕ) (d : List ℕ) (b : Block) (bs : List Block)
    → b.key ≡ k
    → count_key k bs ≡ 0
    → last_match k d (b ∷ bs) ≡ b.bytes
last_match-head k d b bs e none =
    last_match_absent k (if b.key == k then b.bytes else d) bs none ∙ rw (eq→== b.key k e)

Mapped-prop : (k p : ℕ) (b : Block) → IsProp (Mapped k p b)
Mapped-prop k p b = λ f g i e. ℕ_set _ _ (f e) (g e) i

module _ {size : ℕ} (cipher : Cipher size) (alloc : ℕ → List ℕ) where
  -- Every node is good, holds only blocks whose path goes through it, and those of the key `k`
  -- have the path `p`.
  pub record IsOram (k p : ℕ) (o : Oram) : Type 0 where
    pub low : o.tree.height ≤ 20
    pub homes : (a : ℕ) → a < 2 ^ o.tree.height → IsHome cipher alloc o.tree.server a
    pub placed : Placed cipher alloc o.tree.server o.tree.height
    pub mapped :
        (a : ℕ) → a < 2 ^ o.tree.height → All (Mapped k p) (node_blocks cipher o.tree.server a)

  pub IsOram-HomePath : (k p path : ℕ) (o : Oram) → IsOram k p o → HomePath cipher alloc o.tree path
  IsOram-HomePath k p path o h =
      All-weaken (λ x. x < 2 ^ o.tree.height) (IsHome cipher alloc o.tree.server)
        (path_addrs o.tree.height 0 path) h.homes (path_addrs-lt o.tree.height path h.low)

  -- What the next access of the same key will meet on the new path.
  pub record IsFound (k new_path : ℕ) (bytes : List ℕ) (o : Oram) (c : Client) : Type 0 where
    pub client : IsClient size c
    pub placed : Placed cipher alloc o.tree.server o.tree.height
    pub once : count_key k (reachable cipher o.tree new_path c) ≡ 1
    pub found : last_match k (replicate size 0) (reachable cipher o.tree new_path c) ≡ bytes

  module _ (o : Oram) (k new_path old_path : ℕ) (block : List ℕ) (write_size offset : ℕ)
      (c : Client) (t : TreeAccess) (h : IsOram k old_path o)
      (got : TreeAccessed cipher alloc o k new_path old_path block write_size offset c t) where
    bs : List Block
    bs = reachable cipher o.tree old_path c

    new_block : Block
    new_block = put_back cipher alloc k new_path write_size offset block bs

    contents_after :
        Perm
          (path_blocks cipher t.oram.tree.server (path_addrs o.tree.height 0 old_path)
            ++ stash_blocks t.client.path)
          (new_block ∷ erase_key k bs)
    unfolding bs new_block
    contents_after =
        subst
          (λ (height : ℕ).
            Perm
              (path_blocks cipher t.oram.tree.server (path_addrs height 0 old_path)
                ++ stash_blocks t.client.path)
              (new_block ∷ erase_key k bs))
          got.same_height got.contents

    Placed-after : Placed cipher alloc t.oram.tree.server o.tree.height
    Placed-after =
        placed_lem cipher alloc o.tree.server t.oram.tree.server o.tree.height old_path h.low
          h.homes h.placed got.others got.lies

    mapped_after :
        All
          (Mapped k new_path)
          (path_blocks cipher t.oram.tree.server (path_addrs o.tree.height 0 old_path))
    unfolding bs new_block
    mapped_after =
        All-append_left (Mapped k new_path)
          (path_blocks cipher t.oram.tree.server (path_addrs o.tree.height 0 old_path))
          (stash_blocks t.client.path)
          (All-perm (Mapped k new_path) (Mapped-prop k new_path) contents_after
            ((λ e. refl), erase_key-Mapped k new_path bs))

    same_scan :
        SameScan cipher alloc t.oram.tree.server k
          (path_addrs o.tree.height 0 new_path)
          (path_addrs o.tree.height 0 old_path)
    unfolding bs new_block
    same_scan =
        found_from cipher alloc t.oram.tree.server o.tree.height 0 0 k new_path old_path new_path
          old_path 1 (2 ^ o.tree.height) (omega arith) (omega arith)
          (omega (arith, pow_le o.tree.height h.low)) (omega arith) (omega arith)
          (path_addrs-lt o.tree.height new_path h.low) (Placed-after new_path) got.lies mapped_after
          (λ x low below apart.
            let same = got.others x apart (h.homes x below) in
            subst (All (Mapped k old_path)) (sym same.contents) (h.mapped x below))

    -- The scan of the reachable blocks, on the new path as on the old one.
    once_after : count_key k (new_block ∷ erase_key k bs) ≡ 1
    unfolding new_block
    once_after = rw (eq→== k k refl) (omega (arith, count_key-erase_key k bs))

    found_count : count_key k (reachable cipher t.oram.tree new_path t.client) ≡ 1
    found_count = rw got.same_height (
        omega (
          arith,
          count_key-append k
              (path_blocks cipher t.oram.tree.server (path_addrs o.tree.height 0 new_path))
              (stash_blocks t.client.path),
          same_scan.count,
          count_key-append k
              (path_blocks cipher t.oram.tree.server (path_addrs o.tree.height 0 old_path))
              (stash_blocks t.client.path),
          count_key-perm k contents_after,
          once_after,
        ))

    found_bytes :
        last_match k (replicate size 0) (reachable cipher t.oram.tree new_path t.client)
        ≡ new_block.bytes
    unfolding new_block
    found_bytes =
        ap
          (λ (height : ℕ). last_match k zeros (
            path_blocks cipher t.oram.tree.server (path_addrs height 0 new_path)
            ++ stash_blocks t.client.path))
          got.same_height
        ∙ (last_match-append k zeros
              (path_blocks cipher t.oram.tree.server (path_addrs o.tree.height 0 new_path))
              (stash_blocks t.client.path)
            ∙ ap (λ d. last_match k d (stash_blocks t.client.path)) (same_scan.bytes zeros)
            ∙ sym (
                last_match-append k zeros
                  (path_blocks cipher t.oram.tree.server (path_addrs o.tree.height 0 old_path))
                  (stash_blocks t.client.path))
            ∙ last_match-perm k zeros contents_after (omega (arith, once_after))
            ∙ last_match-head k zeros new_block (erase_key k bs) refl (count_key-erase_key k bs))
      where
        zeros : List ℕ
        zeros = replicate size 0

    pub accessed-IsFound :
        IsClient size t.client
        → IsFound k new_path
            (exchange write_size offset block
              (last_match k (replicate size 0) (reachable cipher o.tree old_path c))).fetched_block
            t.oram
            t.client
    unfolding new_block bs
    accessed-IsFound hc = record {
      client = hc;
      placed = subst (Placed cipher alloc t.oram.tree.server) (sym got.same_height) Placed-after;
      once = found_count;
      found = found_bytes;
    }

  -- Let every node of a tree of at most 20 levels be good and hold only blocks whose path goes
  -- through it, let the blocks of the key that it holds have the old path, and let the conditions
  -- of `access_tree_lem` hold. Then the access succeeds, every node again holds only blocks whose
  -- path goes through it, the client is good, and on the new path the key is found exactly once,
  -- with the bytes that the access put back.
  pub access_tree-IsFound :
      (o : Oram) (k new_path old_path : ℕ) (block : List ℕ) (write_size offset : ℕ) (c : Client)
      → IsLayout alloc
      → 8 ≤ size
      → size % 8 ≡ 0
      → IsOram k old_path o
      → k ≢ 0
      → k < 2 ^ 32
      → new_path < 2 ^ 32
      → IsClient size c
      → in_bounds size write_size offset block ≡ true
      → count_key k (reachable cipher o.tree old_path c) ≤ 1
      → length (reachable cipher o.tree old_path c) < stash_slots
      → (t : TreeAccess) × (access_tree cipher o k new_path old_path block write_size offset c
          ≡ some t)
        × IsFound k new_path
            (exchange write_size offset block
              (last_match k (replicate size 0) (reachable cipher o.tree old_path c))).fetched_block
            t.oram
            t.client
  unfolding new_block bs
  access_tree-IsFound o k new_path old_path block ws off c layout word whole h named key_fits
        path_fits hc within once room =
      let (t, runs, got) =
        access_tree_lem cipher alloc layout word whole o k new_path old_path block ws off c named
          key_fits path_fits h.low (IsOram-HomePath k old_path old_path o h) hc within once room in
      (t, runs, accessed-IsFound o k new_path old_path block ws off c t h got got.client)
