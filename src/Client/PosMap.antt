-- ===== src/Client/PosMap.antt =====
-- The position map in the client: `read_mm_in_client` and `write_mm_in_client`.
use intel_sgx_path_oram.Common.{
  ℕ, ◌+◌, ◌<◌, ◌≡◌, ◌≢◌, refl, List, arith, length, length-set, get_or, set, get_or-set_self,
  get_or-set_ne, ◌∙◌, ltb, if◌then◌else◌, lt→ltb,
}
use intel_sgx_path_oram.Node.{Node}
use intel_sgx_path_oram.Oblivious.{Quad, load64, store64}
use intel_sgx_path_oram.Oblivious.Pick.{oblivious_pick_32_lem, oblivious_pick_and_swap_32_lem}
use intel_sgx_path_oram.Client.{
  Client, max_pos_map, read_mm_in_client, WriteMm, path_after, write_mm_in_client,
}
use intel_sgx_path_oram.Client.Shape.{IsClient}

-- The swap as one equation.
pub write_mm_in_client_lem :
    (ind : ℕ) (r14 block_path : Quad) (elsewhere : List Node) (c : Client)
    → ind < max_pos_map
    → write_mm_in_client ind r14 block_path elsewhere c ≡ record {
      client = record c {
        path_mm = store64 c.path_mm ind block_path;
        path = path_after ind elsewhere c.path;
      };
      block_path = load64 c.path_mm ind;
    }
unfolding write_mm_in_client
write_mm_in_client_lem ind r14 block_path elsewhere c within =
    rw (oblivious_pick_and_swap_32_lem ind max_pos_map r14 c.path_mm block_path within)

-- The swap below the last index, which leaves the nodes in place.
pub write_mm_in_client_below :
    (ind : ℕ) (r14 block_path : Quad) (elsewhere : List Node) (c : Client)
    → ind + 1 < max_pos_map
    → write_mm_in_client ind r14 block_path elsewhere c ≡ record {
      client = record c { path_mm = store64 c.path_mm ind block_path };
      block_path = load64 c.path_mm ind;
    }
write_mm_in_client_below ind r14 block_path elsewhere c below =
    write_mm_in_client_lem ind r14 block_path elsewhere c (omega arith)
    ∙ rw (lt→ltb (ind + 1) max_pos_map below) refl

-- What the write of `block_path` at `ind` does to the words of the position map.
pub record PathWritten (ind : ℕ) (block_path : Quad) (elsewhere : List Node) (c : Client)
    (r : WriteMm) : Type 0 where
  pub old_path : r.block_path.lo ≡ get_or c.path_mm ind 0
  pub new_path : get_or r.client.path_mm ind 0 ≡ block_path.lo
  pub neighbour : get_or r.client.path_mm (ind + 1) 0 ≡ block_path.hi
  pub others : (j : ℕ) → j ≢ ind → j ≢ ind + 1 → get_or r.client.path_mm j 0 ≡ get_or c.path_mm j 0
  pub same_length : length r.client.path_mm ≡ length c.path_mm
  pub nodes : r.client.path ≡ (if ltb (ind + 1) max_pos_map then c.path else elsewhere)

-- Write to the position map at an index below 65536, where the struct goes on behind the map: the
-- caller gets the old word of the index, the index has the caller's word, its right neighbour has
-- the word behind the caller's, and no other word has changed. Below the last index the nodes of
-- `client->path` are as they were; at the last one, where the neighbour is half of that pointer,
-- they are whatever lies where it then points.
pub write_mm_in_client_words :
    (ind : ℕ) (r14 block_path : Quad) (elsewhere : List Node) (c : Client)
    → ind < max_pos_map
    → max_pos_map < length c.path_mm
    → PathWritten ind block_path elsewhere c (write_mm_in_client ind r14 block_path elsewhere c)
unfolding load64 store64
write_mm_in_client_words ind r14 block_path elsewhere c within longer =
    rw (write_mm_in_client_lem ind r14 block_path elsewhere c within) (record {
      old_path = refl;
      new_path =
          get_or-set_ne (set c.path_mm ind block_path.lo) (ind + 1) ind block_path.hi 0
            (λ e. omega arith)
          ∙ get_or-set_self c.path_mm ind block_path.lo 0 (omega arith);
      neighbour =
          get_or-set_self (set c.path_mm ind block_path.lo) (ind + 1) block_path.hi 0
            (omega (arith, length-set c.path_mm ind block_path.lo));
      others = λ j ne ne'.
          get_or-set_ne (set c.path_mm ind block_path.lo) (ind + 1) j block_path.hi 0
            (λ e. omega arith)
          ∙ get_or-set_ne c.path_mm ind j block_path.lo 0 (λ e. omega arith);
      same_length =
          length-set (set c.path_mm ind block_path.lo) (ind + 1) block_path.hi
          ∙ length-set c.path_mm ind block_path.lo;
      nodes = refl;
    })

-- A read of the position map right after a write at the same index gives back the words written,
-- whatever the register of the swap and the buffer of the read held, and wherever the pointer
-- behind the map may then lead.
pub read-write_mm_in_client :
    (ind : ℕ) (r14 block_path dest : Quad) (elsewhere : List Node) (c : Client)
    → ind < max_pos_map
    → max_pos_map < length c.path_mm
    → read_mm_in_client ind dest (write_mm_in_client ind r14 block_path elsewhere c).client
      ≡ block_path
unfolding read_mm_in_client load64
read-write_mm_in_client ind r14 block_path dest elsewhere c within longer =
    oblivious_pick_32_lem ind max_pos_map _ dest within ∙ rw (written.new_path, written.neighbour)
  where
    written :
        PathWritten ind block_path elsewhere c (write_mm_in_client ind r14 block_path elsewhere c)
    written = write_mm_in_client_words ind r14 block_path elsewhere c within longer

pub remapped-IsClient :
    (size : ℕ) (words : List ℕ) (c : Client)
    → IsClient size c
    → IsClient size (record c { path_mm = words })
remapped-IsClient size words c h = record {
  stash = h.stash;
  twenty = h.twenty;
  loaded = h.loaded;
  buffers = h.buffers;
  four = h.four;
  rows = h.rows;
  dummy = h.dummy;
}
