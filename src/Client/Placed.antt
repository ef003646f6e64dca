-- ===== src/Client/Placed.antt =====
-- Where the blocks of the tree lie, for every path, before and after an eviction.
use intel_sgx_path_oram.Common.{
  ℕ, zero, suc, ◌+◌, ◌*◌, ◌/◌, ◌%◌, ◌^◌, ◌≤◌, ◌<◌, ◌≡◌, refl, List, [], ◌∷◌, arith, All, ◌∙◌, ap,
  sym, Bool-cases, inl, inr, ◌==◌, ==→eq, ==→ne,
}
use intel_sgx_path_oram.Server.{Cipher, Server}
use intel_sgx_path_oram.Client.{child, World, evict_path}
use intel_sgx_path_oram.Client.EvictSlots.{Along}
use intel_sgx_path_oram.Client.Tree.{path_addrs, Apart, node_blocks}
use intel_sgx_path_oram.Client.Path.{
  child_lem, child_within, fits_below, All-weaken, pow_le, path_addrs-lt,
}
use intel_sgx_path_oram.Client.Upload.{IsLayout, IsHome, Untouched}
use intel_sgx_path_oram.Client.EvictPath.{Lies, RowsAre}
use intel_sgx_path_oram.Client.WholePath.{evict_path_lem}
use intel_sgx_path_oram.Client.Shape.{IsClient}
use intel_sgx_path_oram.Client.Meet.{paths-Apart, path_addrs-ge_low}
use mathlib.Core.Path.{subst}
use native.Mathlib.Nat.{pow-suc, mul-add-mod_self_left, div-add-mod, div-div-eq-div-mul}

pub mod_double : (d p : ℕ) → p % (d * 2) ≡ (d * (p / d % 2) + p % d) % (d * 2)
mod_double d p =
    ap (λ (t : ℕ). t % (d * 2)) expand
    ∙ mul-add-mod_self_left (d * 2) (p / d / 2) (d * (p / d % 2) + p % d)
  where
    halves : p / d ≡ 2 * (p / d / 2) + p / d % 2
    halves = omega arith

    expand : p ≡ d * 2 * (p / d / 2) + (d * (p / d % 2) + p % d)
    expand = omega (arith, div-add-mod p d, ap (λ (t : ℕ). d * t) halves)

pub pow_next : (h : ℕ) → 2 ^ (h + 1) ≡ 2 ^ h * 2
pow_next h = ap (λ (n : ℕ). 2 ^ n) (omega arith) ∙ pow-suc 2 h

-- Two paths that agree in `h` bits and in the next one agree in `h + 1` bits.
pub agree_more :
    (h p q : ℕ)
    → p % 2 ^ h ≡ q % 2 ^ h
    → p / 2 ^ h % 2 ≡ q / 2 ^ h % 2
    → p % 2 ^ (h + 1) ≡ q % 2 ^ (h + 1)
agree_more h p q same bit =
    rw (pow_next h) (mod_double (2 ^ h) p ∙ rw (same, bit) refl ∙ sym (mod_double (2 ^ h) q))

pub rest_more : (h p r : ℕ) → r ≡ p / 2 ^ h → r / 2 ≡ p / 2 ^ (h + 1)
rest_more h p r e = rw (pow_next h, e) (div-div-eq-div-mul p (2 ^ h) 2)

-- Every path holds only blocks that lie along it.
abbrev pub Placed : {size : ℕ} → Cipher size → (ℕ → List ℕ) → Server → ℕ → Type 0
Placed cipher alloc server height = (p : ℕ) → Lies cipher alloc p 0 server (path_addrs height 0 p)

module _ {size : ℕ} (cipher : Cipher size) (alloc : ℕ → List ℕ) (server server' : Server) where
  Untouched-Lies :
      (p h : ℕ) (addrs : List ℕ)
      → All (Untouched cipher alloc server server') addrs
      → Lies cipher alloc p h server addrs
      → Lies cipher alloc p h server' addrs
  Untouched-Lies p h [] same lies = tt
  Untouched-Lies p h (a ∷ addrs) same lies = (
    subst (All (Along h p)) (sym same.0.contents) lies.0,
    Untouched-Lies p (h + 1) addrs same.1 lies.1,
  )

  -- What an eviction of the nodes `addrs` leaves alone, from the index `low - 1` on.
  abbrev Spared : ℕ → List ℕ → Type 0
  Spared low addrs =
      (b : ℕ)
      → low ≤ b + 1
      → Apart b addrs
      → IsHome cipher alloc server b
      → Untouched cipher alloc server server' b

  spared :
      (low : ℕ) (addrs xs : List ℕ)
      → Spared low addrs
      → All (λ x. low ≤ x + 1) xs
      → All (λ x. Apart x addrs) xs
      → All (IsHome cipher alloc server) xs
      → All (Untouched cipher alloc server server') xs
  spared low addrs [] others above apart homes = tt
  spared low addrs (x ∷ xs) others above apart homes =
      (others x above.0 apart.0 homes.0, spared low addrs xs others above.1 apart.1 homes.1)

  -- The path `p` once the path `q` has been evicted, from a common node of level `h` on.
  placed_from :
      (left h addr p q r s low : ℕ)
      → low ≤ addr + 1
      → addr + 1 < 2 * low
      → 2 * low * 2 ^ left ≤ 2 ^ 32
      → p % 2 ^ h ≡ q % 2 ^ h
      → r ≡ p / 2 ^ h
      → s ≡ q / 2 ^ h
      → Spared low (path_addrs left addr s)
      → All (IsHome cipher alloc server) (path_addrs left addr r)
      → Lies cipher alloc p h server (path_addrs left addr r)
      → Lies cipher alloc q h server' (path_addrs left addr s)
      → Lies cipher alloc p h server' (path_addrs left addr r)
  placed_from zero h addr p q r s low above within fits agree er es others homes old new = tt
  placed_from (suc left) h addr p q r s low above within fits agree er es others homes old new = (
    All-weaken (Along h q) (Along h p) (node_blocks cipher server' addr)
        (λ b along. along ∙ sym agree) new.0,
    elim (Bool-cases (r % 2 == s % 2)) [
      | inl same ↦
          let bit : r % 2 ≡ s % 2 = ==→eq _ _ same in
          let one_child : child addr r ≡ child addr s = omega (arith, child_r, child_s, bit) in
          subst (λ c. Lies cipher alloc p (h + 1) server' (path_addrs left c (r / 2)))
            (sym one_child)
            (placed_from left (h + 1) (child addr s) p q (r / 2) (s / 2) (2 * low)
              (omega (arith, child_s)) (child_within left addr s (2 * low) within fits)
              (fits_below left addr s (2 * low) within fits)
              (agree_more h p q agree
                (subst (λ u. u % 2 ≡ q / 2 ^ h % 2) er (subst (λ u. r % 2 ≡ u % 2) es bit)))
              (rest_more h p r er) (rest_more h q s es) deeper
              (subst (λ c. All (IsHome cipher alloc server) (path_addrs left c (r / 2))) one_child
                homes.1)
              (subst (λ c. Lies cipher alloc p (h + 1) server (path_addrs left c (r / 2))) one_child
                old.1)
              new.1)
      | inr differ ↦
          Untouched-Lies p (h + 1) (path_addrs left (child addr r) (r / 2))
            (spared (2 * low) (path_addrs left (child addr s) (s / 2))
              (path_addrs left (child addr r) (r / 2)) deeper
              (path_addrs-ge_low left addr r low above within fits)
              (paths-Apart left (child addr r) (child addr s) (r / 2) (s / 2) (2 * low)
                (λ e. omega (arith, child_r, child_s, ==→ne _ _ differ)) (omega (arith, child_r))
                (omega (arith, child_s)) (child_within left addr r (2 * low) within fits)
                (child_within left addr s (2 * low) within fits)
                (fits_below left addr r (2 * low) within fits))
              homes.1)
            old.1
    ],
  )
    where
      child_r : child addr r ≡ addr * 2 + 1 + r % 2
      child_r = child_lem left addr r (2 * low) within fits

      child_s : child addr s ≡ addr * 2 + 1 + s % 2
      child_s = child_lem left addr s (2 * low) within fits

      deeper : Spared (2 * low) (path_addrs left (child addr s) (s / 2))
      deeper b high apart home = others b (omega arith) (λ e. omega arith, apart) home

  pub placed_lem :
      (height q : ℕ)
      → height ≤ 20
      → ((a : ℕ) → a < 2 ^ height → IsHome cipher alloc server a)
      → Placed cipher alloc server height
      → ((b : ℕ)
          → Apart b (path_addrs height 0 q)
          → IsHome cipher alloc server b
          → Untouched cipher alloc server server' b)
      → Lies cipher alloc q 0 server' (path_addrs height 0 q)
      → Placed cipher alloc server' height
  placed_lem height q small homes placed others lies p =
      placed_from height 0 0 p q p q 1 (omega arith) (omega arith)
        (omega (arith, pow_le height small)) (omega arith) (omega arith) (omega arith)
        (λ b low. others b)
        (All-weaken (λ x. x < 2 ^ height) (IsHome cipher alloc server) (path_addrs height 0 p) homes
          (path_addrs-lt height p small))
        (placed p) lies

-- If every node holds only blocks whose path goes through it, then, with distinct buffers, after
-- the eviction of any path, of at most 20 levels and from a good client that keeps the addresses of
-- its buffers, in a tree of good nodes, every node again holds only such blocks.
pub evict_path-Placed :
    {size : ℕ} (cipher : Cipher size) (alloc : ℕ → List ℕ) (height block_path : ℕ) (w : World)
    → IsLayout alloc
    → height ≤ 20
    → IsClient size w.client
    → RowsAre cipher alloc 0 (path_addrs height 0 block_path) w.client.encrypted_data_addr_in_path
    → ((a : ℕ) → a < 2 ^ height → IsHome cipher alloc w.server a)
    → Placed cipher alloc w.server height
    → Placed cipher alloc (evict_path cipher height block_path w).server height
evict_path-Placed cipher alloc height block_path w layout small hc rows homes placed =
    let evicted = evict_path_lem cipher alloc height block_path w layout small hc rows in
    placed_lem cipher alloc w.server (evict_path cipher height block_path w).server height
      block_path small homes placed evicted.others evicted.lies
