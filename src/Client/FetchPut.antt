-- ===== src/Client/FetchPut.antt =====
-- `oblivious_fetch` and `oblivious_put_to_stash` on the client's state: the stash and its load.
use intel_sgx_path_oram.Common.{
  ℕ, ◌+◌, ◌%◌, ◌^◌, ◌≤◌, ◌<◌, ◌≡◌, ◌≢◌, refl, List, [], ◌∷◌, arith, length, length_perm, All,
  All-append, false, ◌∙◌, Perm, some, none, replicate, if◌then◌else◌,
}
use intel_sgx_path_oram.Common.Bits.{sub32}
use intel_sgx_path_oram.Node.{Node, Block}
use intel_sgx_path_oram.Node.Shape.{IsBuffer, IsBlock, IsNode, IsKeyed, blocks, blocks-IsKeyed}
use intel_sgx_path_oram.Node.Keys.{count_key, last_match, erase_key, length-erase_key}
use intel_sgx_path_oram.Client.{
  Client, Stored, store_loop, fetch_loop, FetchLoop, Fetched, oblivious_fetch, Put,
  oblivious_put_to_stash,
}
use intel_sgx_path_oram.Client.Stash.{
  stash_blocks, IsStored, store_loop_lem, store_loop_full, put_loop-store_loop,
}
use intel_sgx_path_oram.Client.Fetch.{IsFetched, fetch_loop_lem, last_match-IsBuffer}
use intel_sgx_path_oram.Client.Shape.{IsClient, IsClient-stash-le, stash_slots}

pub stash_blocks-IsKeyed :
    (size : ℕ) (ns : List Node) → All (IsNode size) ns → All (IsKeyed size) (stash_blocks ns)
stash_blocks-IsKeyed size [] h = tt
stash_blocks-IsKeyed size (n ∷ ns) h =
    All-append (IsKeyed size) (blocks n.slots) (stash_blocks ns)
      (blocks-IsKeyed size n.slots h.0.good) (stash_blocks-IsKeyed size ns h.1)

-- What the fetch of the key `k` gives, from the client `c`.
pub record ClientFetched (size k : ℕ) (c : Client) (r : Fetched) : Type 0 where
  pub client : IsClient size r.client
  pub contents : stash_blocks r.client.path ≡ erase_key k (stash_blocks c.path)
  pub bytes : r.fetched_block ≡ last_match k (replicate size 0) (stash_blocks c.path)
  pub buffer : IsBuffer size r.fetched_block
  pub same_mm : r.client.path_mm ≡ c.path_mm
  pub same_rows : r.client.encrypted_data_addr_in_path ≡ c.encrypted_data_addr_in_path

-- From a good client whose stash has the key at most once, and where a block of zeros is a buffer,
-- the fetch gives the bytes of the block of the key (zeros if there is none), removes exactly that
-- block from the stash, and keeps the client good, its load included.
pub oblivious_fetch_lem :
    (size k ptr : ℕ) (c : Client)
    → IsBuffer size (replicate size 0)
    → IsClient size c
    → count_key k (stash_blocks c.path) ≤ 1
    → ClientFetched size k c (oblivious_fetch size k ptr c)
unfolding oblivious_fetch
oblivious_fetch_lem size k ptr c zeros hc once = record {
  client = record {
    stash = got.shape;
    twenty = got.same_length ∙ hc.twenty;
    loaded = load;
    buffers = hc.buffers;
    four = hc.four;
    rows = hc.rows;
    dummy = hc.dummy;
  };
  contents = got.contents;
  bytes = got.bytes;
  buffer = rw got.bytes (
      last_match-IsBuffer size k _ (stash_blocks c.path) zeros
        (stash_blocks-IsKeyed size c.path hc.stash));
  same_mm = refl;
  same_rows = refl;
}
  where
    r : FetchLoop
    r = fetch_loop false k size (replicate size 0) ptr c.path

    got : IsFetched size k (replicate size 0) c.path r
    got = fetch_loop_lem size k ptr (replicate size 0) c.path hc.stash zeros once

    left :
        length (stash_blocks r.path) + count_key k (stash_blocks c.path)
        ≡ length (stash_blocks c.path)
    left = rw got.contents (length-erase_key k (stash_blocks c.path))

    small : length (stash_blocks c.path) ≤ 80
    small = IsClient-stash-le size c hc

    load : (if r.succ then sub32 c.stash_load 1 else c.stash_load) ≡ length (stash_blocks r.path)
    load = rw got.found (ground (arith, left, small, hc.loaded))

-- What putting the block `b` gives, from the client `c`.
pub record ClientPut (size : ℕ) (b : Block) (c : Client) (r : Put) : Type 0 where
  pub client : IsClient size r.client
  pub contents : Perm (stash_blocks r.client.path) (b ∷ stash_blocks c.path)
  pub root_load : r.root_load ≡ length (stash_blocks r.client.path)
  pub same_mm : r.client.path_mm ≡ c.path_mm
  pub same_rows : r.client.encrypted_data_addr_in_path ≡ c.encrypted_data_addr_in_path

-- Put of a block with a key other than 0 into a good client with a free slot: it succeeds, exactly
-- that block joins the stash, and the load reported is the number of blocks.
pub oblivious_put_to_stash_lem :
    (size ptr : ℕ) (b : Block) (c : Client)
    → b.key ≢ 0
    → IsBlock size b
    → IsClient size c
    → length (stash_blocks c.path) < stash_slots
    → (r : Put) × (oblivious_put_to_stash size b ptr c ≡ some r) × ClientPut size b c r
unfolding oblivious_put_to_stash
oblivious_put_to_stash_lem size ptr b c named hb hc room = (
  record {
    client = record c { path = st.path; stash_load = (c.stash_load + 1) % 2 ^ 32 };
    encrypted_content = st.ptr;
    root_load = (c.stash_load + 1) % 2 ^ 32;
  },
  rw (put_loop-store_loop size false ptr b c.path hc.stash, stored.stored),
  record {
    client = record {
      stash = stored.shape;
      twenty = stored.same_length ∙ hc.twenty;
      loaded = load;
      buffers = hc.buffers;
      four = hc.four;
      rows = hc.rows;
      dummy = hc.dummy;
    };
    contents = stored.contents;
    root_load = load;
    same_mm = refl;
    same_rows = refl;
  },
)
  where
    st : Stored
    st = store_loop false ptr b size c.path

    stored : IsStored size b c.path st
    stored = store_loop_lem size ptr b c.path named hb hc.stash (omega (arith, hc.twenty))

    load : (c.stash_load + 1) % 2 ^ 32 ≡ length (stash_blocks st.path)
    load = omega (arith, length_perm stored.contents, hc.loaded)

-- Put into a good client whose eighty slots are all taken fails its assertion, whatever the block.
pub oblivious_put_to_stash_full :
    (size ptr : ℕ) (b : Block) (c : Client)
    → IsClient size c
    → length (stash_blocks c.path) ≡ stash_slots
    → oblivious_put_to_stash size b ptr c ≡ none
unfolding oblivious_put_to_stash
oblivious_put_to_stash_full size ptr b c hc full =
    rw
      (
        put_loop-store_loop size false ptr b c.path hc.stash,
        store_loop_full size ptr b c.path hc.stash (omega (arith, hc.twenty)),
      )
      refl
