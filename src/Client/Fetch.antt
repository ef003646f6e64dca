-- ===== src/Client/Fetch.antt =====
-- `fetch_loop`: the stash that it leaves, and the bytes that it reads.
use intel_sgx_path_oram.Common.{
  ℕ, suc, ◌+◌, ◌≤◌, ◌≡◌, refl, List, [], ◌∷◌, arith, ◌==◌, if◌then◌else◌, length, All, true, false,
  Bool-cases, inl, inr, ◌∙◌, ap, ltb, sym,
}
use intel_sgx_path_oram.Node.{Node, Block, node_read, NodeRead}
use intel_sgx_path_oram.Node.Shape.{IsBuffer, blocks, IsNode, IsKeyed, blocks-IsKeyed}
use intel_sgx_path_oram.Node.Keys.{
  count_key, last_match, erase_key, count_key-append, erase_key-append, last_match-append,
  last_match_absent, erase_key_absent,
}
use intel_sgx_path_oram.Node.Read.{Taken, node_read_lem}
use intel_sgx_path_oram.Client.{FetchLoop, fetch_loop}
use intel_sgx_path_oram.Client.Stash.{stash_blocks}

pub fetch_loop_done :
    (k size ptr : ℕ) (fetched : List ℕ) (ns : List Node)
    → fetch_loop true k size fetched ptr ns
      ≡ record { path = ns; fetched = fetched; ptr = ptr; succ = true }
unfolding fetch_loop
fetch_loop_done k size ptr fetched [] = refl
fetch_loop_done k size ptr fetched (n ∷ ns) = rw (fetch_loop_done k size ptr fetched ns)

-- What a fetch of the key `k` gives: a stash without that key, the bytes of its block (or those
-- the buffer had), and whether there was one.
pub record IsFetched (size k : ℕ) (fetched : List ℕ) (ns : List Node) (r : FetchLoop) : Type 0 where
  pub shape : All (IsNode size) r.path
  pub same_length : length r.path ≡ length ns
  pub contents : stash_blocks r.path ≡ erase_key k (stash_blocks ns)
  pub bytes : r.fetched ≡ last_match k fetched (stash_blocks ns)
  pub found : r.succ ≡ ltb 0 (count_key k (stash_blocks ns))

module _ (size k : ℕ) (fetched : List ℕ) (n : Node) (ns : List Node) (r : NodeRead)
    (taken : Taken size k n fetched r) where
  parts :
      count_key k (stash_blocks (n ∷ ns))
      ≡ count_key k (blocks n.slots) + count_key k (stash_blocks ns)
  parts = count_key-append k (blocks n.slots) (stash_blocks ns)

  fetch_found :
      All (IsNode size) ns
      → 1 ≤ count_key k (blocks n.slots)
      → count_key k (stash_blocks (n ∷ ns)) ≤ 1
      → IsFetched size k fetched
          (n ∷ ns)
          (record { path = r.node ∷ ns; fetched = r.fetched; ptr = r.ptr; succ = true })
  fetch_found h here once = record {
    shape = (taken.shape, h);
    same_length = refl;
    contents =
        rw
          (
            taken.contents,
            erase_key-append k (blocks n.slots) (stash_blocks ns),
            erase_key_absent k (stash_blocks ns) none_left,
          )
          refl;
    bytes =
        taken.bytes
        ∙ sym (
            last_match-append k fetched (blocks n.slots) (stash_blocks ns)
            ∙ last_match_absent k _ (stash_blocks ns) none_left);
    found = ground (arith, parts, here);
  }
    where
      none_left : count_key k (stash_blocks ns) ≡ 0
      none_left = omega (arith, parts)

  fetch_missed :
      (rest : FetchLoop)
      → count_key k (blocks n.slots) ≡ 0
      → IsFetched size k r.fetched ns rest
      → IsFetched size k fetched (n ∷ ns) (record {
        path = r.node ∷ rest.path;
        fetched = rest.fetched;
        ptr = rest.ptr;
        succ = rest.succ;
      })
  fetch_missed rest none_here h = record {
    shape = (taken.shape, h.shape);
    same_length = ap suc h.same_length;
    contents =
        rw (taken.contents, h.contents)
          (sym (erase_key-append k (blocks n.slots) (stash_blocks ns)));
    bytes =
        h.bytes
        ∙ ap (λ d. last_match k d (stash_blocks ns)) taken.bytes
        ∙ sym (last_match-append k fetched (blocks n.slots) (stash_blocks ns));
    found = h.found ∙ ground (arith, parts, none_here);
  }

pub last_match-IsBuffer :
    (size k : ℕ) (d : List ℕ) (bs : List Block)
    → IsBuffer size d
    → All (IsKeyed size) bs
    → IsBuffer size (last_match k d bs)
last_match-IsBuffer size k d [] hd h = hd
last_match-IsBuffer size k d (b ∷ bs) hd h =
    last_match-IsBuffer size k (if b.key == k then b.bytes else d) bs
      (ground (arith, hd, h.0.buffer)) h.1

-- Where at most one block of the stash has the key.
pub fetch_loop_lem :
    (size k ptr : ℕ) (fetched : List ℕ) (ns : List Node)
    → All (IsNode size) ns
    → IsBuffer size fetched
    → count_key k (stash_blocks ns) ≤ 1
    → IsFetched size k fetched ns (fetch_loop false k size fetched ptr ns)
unfolding fetch_loop
fetch_loop_lem size k ptr fetched [] h hf once = record {
  shape = tt;
  same_length = refl;
  contents = refl;
  bytes = refl;
  found = refl;
}
fetch_loop_lem size k ptr fetched (n ∷ ns) h hf once =
    elim (Bool-cases (ltb 0 (count_key k (blocks n.slots)))) [
      | inl here ↦
          rw (taken.found ∙ here, fetch_loop_done k size r.ptr r.fetched ns)
            (fetch_found size k fetched n ns r taken h.1 (ground (arith, here)) once)
      | inr missed ↦ rw (taken.found ∙ missed) (
          fetch_missed size k fetched n ns r taken (fetch_loop false k size r.fetched r.ptr ns)
            (ground (arith, missed))
            (fetch_loop_lem size k r.ptr r.fetched ns h.1 buffer
              (omega (arith, count_key-append k (blocks n.slots) (stash_blocks ns)))))
    ]
  where
    r : NodeRead
    r = node_read n k size fetched ptr

    taken : Taken size k n fetched r
    taken = node_read_lem size k ptr n fetched h.0 hf

    buffer : IsBuffer size r.fetched
    buffer = rw taken.bytes (
        last_match-IsBuffer size k fetched (blocks n.slots) hf
          (blocks-IsKeyed size n.slots h.0.good))
