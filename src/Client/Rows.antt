-- ===== src/Client/Rows.antt =====
-- `ecall_oblivious_fetch` on the levels of `client->path`, node by node.
use intel_sgx_path_oram.Common.{
  take, replicate, ℕ, ◌+◌, ◌≤◌, ◌≡◌, refl, List, [], ◌∷◌, ◌++◌, arith, length, All, false,
  Bool-cases, inl, inr, ◌∙◌, ap, ltb, map, drop, get_or, sym,
}
use mathlib.Core.Path.{ap₂}
use intel_sgx_path_oram.Node.{Node, Block, node_read, NodeRead}
use intel_sgx_path_oram.Node.Shape.{IsBuffer, blocks, IsNode, blocks-IsKeyed}
use intel_sgx_path_oram.Node.Keys.{
  last_match, count_key, erase_key, count_key-append, erase_key-append, erase_key_absent,
}
use intel_sgx_path_oram.Node.Read.{addrs_of-node_read, Taken, node_read_lem}
use intel_sgx_path_oram.Client.{Client, fetch_loop, Fetched, oblivious_fetch}
use intel_sgx_path_oram.Client.Stash.{stash_blocks}
use intel_sgx_path_oram.Client.FetchPut.{stash_blocks-IsKeyed}
use intel_sgx_path_oram.Client.Fetch.{fetch_loop_lem, fetch_loop_done, last_match-IsBuffer}
use intel_sgx_path_oram.Node.Shape.{addrs_of}
use intel_sgx_path_oram.Client.Stash.{path_addresses}

-- The blocks of each node, and those without the key.
abbrev pub node_rows : List Node → List (List Block)
node_rows = map (λ n. blocks n.slots)

abbrev pub erased_rows : ℕ → List Node → List (List Block)
erased_rows k = map (λ n. erase_key k (blocks n.slots))

erased_rows_absent :
    (k : ℕ) (ns : List Node) → count_key k (stash_blocks ns) ≡ 0 → node_rows ns ≡ erased_rows k ns
erased_rows_absent k [] none_left = refl
erased_rows_absent k (n ∷ ns) none_left =
    ap₂ ◌∷◌ (sym (erase_key_absent k (blocks n.slots) (omega (arith, parts))))
      (erased_rows_absent k ns (omega (arith, parts)))
  where
    parts :
        count_key k (stash_blocks (n ∷ ns))
        ≡ count_key k (blocks n.slots) + count_key k (stash_blocks ns)
    parts = count_key-append k (blocks n.slots) (stash_blocks ns)

-- From the nodes `ns` to the nodes `ns'` by the removal of the key.
pub record Erased (k : ℕ) (ns ns' : List Node) : Type 0 where
  pub rows : node_rows ns' ≡ erased_rows k ns
  pub same_addrs : path_addresses ns' ≡ path_addresses ns

pub fetch_loop-Erased :
    (size k ptr : ℕ) (fetched : List ℕ) (ns : List Node)
    → All (IsNode size) ns
    → IsBuffer size fetched
    → count_key k (stash_blocks ns) ≤ 1
    → Erased k ns (fetch_loop false k size fetched ptr ns).path
unfolding fetch_loop
fetch_loop-Erased size k ptr fetched [] h hf once = record { rows = refl; same_addrs = refl }
fetch_loop-Erased size k ptr fetched (n ∷ ns) h hf once =
    elim (Bool-cases (ltb 0 (count_key k (blocks n.slots)))) [
      | inl here ↦
          rw (taken.found ∙ here, fetch_loop_done k size r.ptr r.fetched ns)
            record {
              rows =
                  ap₂ ◌∷◌ taken.contents
                    (erased_rows_absent k ns (ground (arith, parts, here, once)));
              same_addrs = ap (λ (row : List ℕ). row ∷ path_addresses ns) same_row;
            }
      | inr missed ↦
          let rest =
            fetch_loop-Erased size k r.ptr r.fetched ns h.1 buffer (omega (arith, parts, once)) in
          rw (taken.found ∙ missed) record {
            rows = ap₂ ◌∷◌ taken.contents rest.rows;
            same_addrs = ap₂ ◌∷◌ same_row rest.same_addrs;
          }
    ]
  where
    r : NodeRead
    r = node_read n k size fetched ptr

    taken : Taken size k n fetched r
    taken = node_read_lem size k ptr n fetched h.0 hf

    same_row : addrs_of r.node.slots ≡ addrs_of n.slots
    same_row = addrs_of-node_read k size ptr n fetched

    parts :
        count_key k (stash_blocks (n ∷ ns))
        ≡ count_key k (blocks n.slots) + count_key k (stash_blocks ns)
    parts = count_key-append k (blocks n.slots) (stash_blocks ns)

    buffer : IsBuffer size r.fetched
    buffer = rw taken.bytes (
        last_match-IsBuffer size k fetched (blocks n.slots) hf
          (blocks-IsKeyed size n.slots h.0.good))

-- What a list of rows says of the blocks of all the nodes.
pub stash_blocks-rows :
    (k : ℕ) (ns ns' : List Node)
    → node_rows ns' ≡ erased_rows k ns
    → stash_blocks ns' ≡ erase_key k (stash_blocks ns)
stash_blocks-rows k [] [] e = refl
stash_blocks-rows k [] (n ∷ ns') e = absurd (omega (arith, ap length e))
stash_blocks-rows k (n ∷ ns) [] e = absurd (omega (arith, ap length e))
stash_blocks-rows k (n ∷ ns) (n' ∷ ns') e =
    ap₂ ◌++◌ (ap (λ (l : List (List Block)). get_or l 0 []) e)
      (stash_blocks-rows k ns ns' (ap (λ (l : List (List Block)). drop 1 l) e))
    ∙ sym (erase_key-append k (blocks n.slots) (stash_blocks ns))

-- What the fetch of the key gives, row by row.
pub record FetchedRows (size k : ℕ) (c : Client) (r : Fetched) : Type 0 where
  pub erased : Erased k c.path r.client.path
  pub shape : All (IsNode size) r.client.path
  pub bytes : r.fetched_block ≡ last_match k (replicate size 0) (stash_blocks c.path)
  pub buffer : IsBuffer size r.fetched_block
  pub same_mm : r.client.path_mm ≡ c.path_mm

pub oblivious_fetch-FetchedRows :
    (size k ptr : ℕ) (c : Client)
    → IsBuffer size (replicate size 0)
    → All (IsNode size) c.path
    → count_key k (stash_blocks c.path) ≤ 1
    → FetchedRows size k c (oblivious_fetch size k ptr c)
unfolding oblivious_fetch
oblivious_fetch-FetchedRows size k ptr c zeros h once =
    let got = fetch_loop_lem size k ptr (replicate size 0) c.path h zeros once in
    record {
      erased = fetch_loop-Erased size k ptr (replicate size 0) c.path h zeros once;
      shape = got.shape;
      bytes = got.bytes;
      buffer = rw got.bytes (
          last_match-IsBuffer size k _ (stash_blocks c.path) zeros
            (stash_blocks-IsKeyed size c.path h));
      same_mm = refl;
    }

-- The rows of the first nodes and those of the rest.
pub Erased-split :
    (k : ℕ) (xs ys zs : List Node)
    → Erased k (xs ++ ys) zs
    → Erased k xs (take (length xs) zs) × Erased k ys (drop (length xs) zs)
Erased-split k [] ys zs e = (record { rows = refl; same_addrs = refl }, e)
Erased-split k (x ∷ xs) ys [] e = absurd (omega (arith, ap length e.rows))
Erased-split k (x ∷ xs) ys (z ∷ zs) e =
    let rest = Erased-split k xs ys zs (record {
      rows = ap (λ (l : List (List Block)). drop 1 l) e.rows;
      same_addrs = ap (λ (l : List (List ℕ)). drop 1 l) e.same_addrs;
    }) in
    (
      record {
        rows = ap₂ ◌∷◌ (ap (λ (l : List (List Block)). get_or l 0 []) e.rows) rest.0.rows;
        same_addrs =
            ap₂ ◌∷◌ (ap (λ (l : List (List ℕ)). get_or l 0 []) e.same_addrs) rest.0.same_addrs;
      },
      rest.1,
    )
