-- ===== src/Client/Upload.antt =====
-- `evict_level`: one node is filled from the stash, encrypted and written over the old one.
use intel_sgx_path_oram.Common.{
  ℕ, suc, ◌-◌, ◌^◌, ◌<◌, ◌≡◌, ◌≢◌, refl, List, [], ◌∷◌, ◌++◌, arith, length, All, ◌∙◌, ap, map, sym,
  Perm, get_or,
}
use intel_sgx_path_oram.Node.{Slot, Node, blocks_per_node}
use intel_sgx_path_oram.Node.Shape.{IsBuffer, IsSlot, IsClean, IsNode, blocks}
use intel_sgx_path_oram.Server.{Entry, IsTreeNode, Cipher, Server}
use intel_sgx_path_oram.Client.{
  Client, World, Gathered, GatherNodes, gather_nodes, empty_slot, empty_node, restore, upload_node,
  evict_level,
}
use intel_sgx_path_oram.Client.Stash.{stash_blocks}
use intel_sgx_path_oram.Client.Shape.{IsClient, IsClient-stash-le}
use intel_sgx_path_oram.Client.EvictSlots.{Along, Off, Gathers}
use intel_sgx_path_oram.Client.Evict.{ScansNodes, gather_nodes_lem}
use intel_sgx_path_oram.Client.Tree.{
  content_of, Apart, Distinct, blocks-restore, length-restore, restore-IsSlot, restore-IsClean,
  contents-restore, contents-entries, tree_node_of-IsTreeNode, entry_blocks, node_blocks, Uploaded,
  upload_node_lem,
}
use mathlib.Core.Path.{subst}

-- The addresses of the four buffers that initialisation allots to each node.
pub record IsLayout (alloc : ℕ → List ℕ) : Type 0 where
  pub four : (a : ℕ) → length (alloc a) ≡ blocks_per_node
  pub distinct : (a : ℕ) → Distinct (alloc a)
  pub apart : (a b : ℕ) → a ≢ b → All (λ x. Apart x (alloc b)) (alloc a)

empty_slots-IsSlot :
    (size : ℕ) (bs : List (List ℕ)) → All (IsBuffer size) bs → All (IsSlot size) (map empty_slot bs)
empty_slots-IsSlot size [] h = tt
empty_slots-IsSlot size (b ∷ bs) h = (
  record {
    key_fits = omega arith;
    path_fits = omega arith;
    bit = omega arith;
    named = λ e. absurd (omega arith);
    buffer = h.0;
  },
  empty_slots-IsSlot size bs h.1,
)

empty_slots-IsClean : (bs : List (List ℕ)) → All IsClean (map empty_slot bs)
empty_slots-IsClean [] = tt
empty_slots-IsClean (b ∷ bs) = (λ e. refl, empty_slots-IsClean bs)

blocks-empty_slots : (bs : List (List ℕ)) → blocks (map empty_slot bs) ≡ []
blocks-empty_slots [] = refl
blocks-empty_slots (b ∷ bs) = blocks-empty_slots bs

length-empty_slots : (bs : List (List ℕ)) → length (map empty_slot bs) ≡ length bs
length-empty_slots [] = refl
length-empty_slots (b ∷ bs) = ap suc (length-empty_slots bs)

pub empty_node-IsNode :
    (size : ℕ) (bs : List (List ℕ))
    → All (IsBuffer size) bs
    → length bs ≡ blocks_per_node
    → IsNode size (empty_node bs)
empty_node-IsNode size bs h four = record {
  four = length-empty_slots bs ∙ four;
  good = empty_slots-IsSlot size bs h;
  counted = ap length (sym (blocks-empty_slots bs));
}

stashes-IsBuffer :
    (size : ℕ) (ss : List Slot) → All (IsSlot size) ss → All (IsBuffer size) (map (λ s. s.stash) ss)
stashes-IsBuffer size [] h = tt
stashes-IsBuffer size (s ∷ ss) h = (h.0.buffer, stashes-IsBuffer size ss h.1)

length-stashes : (ss : List Slot) → length (map (λ s. s.stash) ss) ≡ length ss
length-stashes [] = refl
length-stashes (s ∷ ss) = ap suc (length-stashes ss)

entry_blocks_same :
    {size : ℕ} (cipher : Cipher size) (s s' : Server) (es : List Entry)
    → All (λ x. s'.memory x ≡ s.memory x) (map content_of es)
    → entry_blocks cipher s' es ≡ entry_blocks cipher s es
entry_blocks_same cipher s s' [] h = refl
entry_blocks_same cipher s s' (e ∷ es) h = rw (h.0, entry_blocks_same cipher s s' es h.1)

All-map {ℓ κ λ'} :
    {A : Type ℓ} (P : A → Type κ) (Q : A → Type λ') (xs : List A)
    → ((x : A) → P x → Q x)
    → All P xs
    → All Q xs
All-map P Q [] f h = tt
All-map P Q (x ∷ xs) f h = (f x h.0, All-map P Q xs f h.1)

module _ {size : ℕ} (cipher : Cipher size) (alloc : ℕ → List ℕ) where
  open cipher use {decrypt_node}

  -- The node at index `a` decrypts to a good node whose buffers are its own.
  pub record IsHome (server : Server) (a : ℕ) : Type 0 where
    pub tree : IsTreeNode (decrypt_node (server.nodes a))
    pub addrs : map content_of (decrypt_node (server.nodes a)).entries ≡ alloc a

  -- What stays of a node that another one's upload passes by.
  pub record Untouched (server server' : Server) (b : ℕ) : Type 0 where
    pub home : IsHome server' b
    pub contents : node_blocks cipher server' b ≡ node_blocks cipher server b

  -- From `w` to `w'` by the eviction to the node `a` of level `h`.
  pub record Levelled (tree_path h a : ℕ) (w w' : World) : Type 0 where
    pub client : IsClient size w'.client
    pub contents :
        Perm
          (stash_blocks w.client.path)
          (node_blocks cipher w'.server a ++ stash_blocks w'.client.path)
    pub along : All (Along h tree_path) (node_blocks cipher w'.server a)
    pub greedy :
        length (node_blocks cipher w'.server a) < blocks_per_node
        → All (Off h tree_path) (stash_blocks w'.client.path)
    pub home : IsHome w'.server a
    pub others : (b : ℕ) → b ≢ a → IsHome w.server b → Untouched w.server w'.server b
    pub same_rows : w'.client.encrypted_data_addr_in_path ≡ w.client.encrypted_data_addr_in_path
    pub same_mm : w'.client.path_mm ≡ w.client.path_mm

  module _ (layout : IsLayout alloc) where
    untouched :
        (server server' : Server) (a b : ℕ) (n : Node)
        → Uploaded cipher a n server server'
        → map (λ s. s.block_content) n.slots ≡ alloc a
        → b ≢ a
        → IsHome server b
        → Untouched server server' b
    untouched server server' a b n up row ne home = record {
      home = record {
        tree = subst (λ e. IsTreeNode (decrypt_node e)) (sym same_node) home.tree;
        addrs =
            subst (λ e. map content_of (decrypt_node e).entries ≡ alloc b) (sym same_node)
              home.addrs;
      };
      contents =
          ap (λ n. entry_blocks cipher server' (decrypt_node n).entries) same_node
          ∙ entry_blocks_same cipher server server' (decrypt_node (server.nodes b)).entries (
              rw home.addrs (
                All-map _ _ (alloc b) (λ x apart. up.other_memory x (rw row apart))
                  (layout.apart b a ne)));
    }
      where
        same_node : server'.nodes b ≡ server.nodes b
        same_node = up.other_nodes b ne

    -- With distinct buffers, one level of the eviction, from a good client that keeps the addresses
    -- of the node's buffers: the stash's blocks are split between the node and the stash, those in
    -- the node lie along the path, if the node has a free slot then no block left in the stash
    -- could have moved into it, and the client, the node and all other nodes are good again.
    pub evict_level_lem :
        (tree_path h a : ℕ) (w : World)
        → IsClient size w.client
        → get_or w.client.encrypted_data_addr_in_path h [] ≡ alloc a
        → Levelled tree_path h a w (evict_level cipher tree_path h a w)
    unfolding evict_level
    evict_level_lem tree_path h a w hc row = record {
      client = record {
        stash = scan.good;
        twenty = scan.same_length ∙ hc.twenty;
        loaded = omega (
          arith,
          hc.loaded,
          gathers.load (omega (arith, hc.loaded))
              (omega (arith, hc.loaded, IsClient-stash-le size c hc)),
        );
        buffers = stashes-IsBuffer size temp.slots temp_shape.good;
        four = length-stashes temp.slots ∙ temp_shape.four;
        rows = hc.rows;
        dummy = hc.dummy;
      };
      contents = rw up.contents (rw kept gathered);
      along = rw (up.contents, kept) (gathers.along (rw start_empty tt));
      greedy =
          rw (up.contents, kept) (λ few. gathers.greedy (omega (arith, gathers.shape.counted)));
      home = record {
        tree = rw up.node (tree_node_of-IsTreeNode cipher temp temp_shape temp_clean);
        addrs = rw up.node (contents-entries temp.slots ∙ temp_row);
      };
      others = λ b ne home.
          untouched w.server (upload_node cipher c.dummy_block a temp w.server) a b temp up temp_row
            ne home;
      same_rows = refl;
      same_mm = refl;
    }
      where
        c : Client
        c = w.client

        start : Gathered
        start = record { temp = empty_node c.temp_block_content; stash_load = c.stash_load }

        r : GatherNodes
        r = gather_nodes (2 ^ h - 1) tree_path size c.path start

        scan : ScansNodes size h tree_path c.path start r
        scan =
            gather_nodes_lem size h tree_path c.path start hc.stash
              (empty_node-IsNode size c.temp_block_content hc.buffers hc.four)

        gathers : Gathers size h tree_path (stash_blocks c.path) (stash_blocks r.path) start r.state
        gathers = scan.gathers

        start_empty : blocks start.temp.slots ≡ []
        start_empty = blocks-empty_slots c.temp_block_content

        temp : Node
        temp = record r.state.temp {
          slots = restore (get_or c.encrypted_data_addr_in_path h []) r.state.temp.slots;
        }

        kept : blocks temp.slots ≡ blocks r.state.temp.slots
        kept = blocks-restore (get_or c.encrypted_data_addr_in_path h []) r.state.temp.slots

        gathered : Perm (stash_blocks c.path) (blocks r.state.temp.slots ++ stash_blocks r.path)
        gathered =
            subst
              (λ bs.
                Perm (bs ++ stash_blocks c.path) (blocks r.state.temp.slots ++ stash_blocks r.path))
              start_empty gathers.contents

        temp_shape : IsNode size temp
        temp_shape = record {
          four = length-restore _ r.state.temp.slots ∙ gathers.shape.four;
          good = restore-IsSlot size _ r.state.temp.slots gathers.shape.good;
          counted = gathers.shape.counted ∙ ap length (sym kept);
        }

        temp_clean : All IsClean temp.slots
        temp_clean =
            restore-IsClean _ r.state.temp.slots
              (gathers.clean (empty_slots-IsClean c.temp_block_content))

        temp_row : map (λ s. s.block_content) temp.slots ≡ alloc a
        temp_row =
            rw row (
              contents-restore (alloc a) r.state.temp.slots
                (layout.four a ∙ sym gathers.shape.four))

        up : Uploaded cipher a temp w.server (upload_node cipher c.dummy_block a temp w.server)
        up =
            upload_node_lem cipher c.dummy_block a temp w.server temp_shape temp_clean
              (rw temp_row (layout.distinct a))
