-- ===== src/Client/Tree.antt =====
-- The tree in the untrusted memory as the client reads it: the blocks of a node, the nodes of a
-- path, and what the upload of one node changes.
use intel_sgx_path_oram.Common.{
  ℕ, zero, suc, ◌+◌, ◌/◌, ◌≡◌, ◌≢◌, refl, List, [], ◌∷◌, ◌++◌, arith, ◌==◌, if◌then◌else◌, length,
  All, Bool-cases, inl, inr, ◌∙◌, ap, map, sym, ==→ne, ==→eq, ne→==, eq→==,
}
use mathlib.Core.Path.{ap₂}
use intel_sgx_path_oram.Node.{Slot, Node, Block}
use intel_sgx_path_oram.Node.Shape.{IsBuffer, IsSlot, IsClean, blocks, IsNode, length-blocks-le}
use intel_sgx_path_oram.Server.{
  Entry, IsEntry, IsTreeNode, IsTreeNode-FitsNode, Cipher, Server, update,
}
use intel_sgx_path_oram.Client.{child, restore, entry_of, tree_node_of, upload_blocks, upload_node}

abbrev pub content_of : Entry → ℕ
content_of e = e.block_content

-- Every address in the list differs from `addr`.
abbrev pub Apart : ℕ → List ℕ → Type 0
Apart addr = All (λ a. a ≢ addr)

abbrev pub Distinct : List ℕ → Type 0
Distinct [] = Unit {0}
Distinct (a ∷ addrs) = Apart a addrs × Distinct addrs

restored-IsSlot :
    (size a : ℕ) (s : Slot) → IsSlot size s → IsSlot size (record s { block_content = a })
restored-IsSlot size a s h = record {
  key_fits = h.key_fits;
  path_fits = h.path_fits;
  bit = h.bit;
  named = h.named;
  buffer = h.buffer;
}

pub blocks-restore : (addrs : List ℕ) (ss : List Slot) → blocks (restore addrs ss) ≡ blocks ss
unfolding restore
blocks-restore [] ss = refl
blocks-restore (a ∷ addrs) [] = refl
blocks-restore (a ∷ addrs) (s ∷ ss) = rw (blocks-restore addrs ss)

pub length-restore : (addrs : List ℕ) (ss : List Slot) → length (restore addrs ss) ≡ length ss
unfolding restore
length-restore [] ss = refl
length-restore (a ∷ addrs) [] = refl
length-restore (a ∷ addrs) (s ∷ ss) = ap suc (length-restore addrs ss)

pub restore-IsSlot :
    (size : ℕ) (addrs : List ℕ) (ss : List Slot)
    → All (IsSlot size) ss
    → All (IsSlot size) (restore addrs ss)
unfolding restore
restore-IsSlot size [] ss h = h
restore-IsSlot size (a ∷ addrs) [] h = tt
restore-IsSlot size (a ∷ addrs) (s ∷ ss) h =
    (restored-IsSlot size a s h.0, restore-IsSlot size addrs ss h.1)

pub restore-IsClean :
    (addrs : List ℕ) (ss : List Slot) → All IsClean ss → All IsClean (restore addrs ss)
unfolding restore
restore-IsClean [] ss h = h
restore-IsClean (a ∷ addrs) [] h = tt
restore-IsClean (a ∷ addrs) (s ∷ ss) h = (h.0, restore-IsClean addrs ss h.1)

pub contents-restore :
    (addrs : List ℕ) (ss : List Slot)
    → length addrs ≡ length ss
    → map (λ s. s.block_content) (restore addrs ss) ≡ addrs
unfolding restore
contents-restore [] [] h = refl
contents-restore [] (s ∷ ss) h = absurd (omega arith)
contents-restore (a ∷ addrs) [] h = absurd (omega arith)
contents-restore (a ∷ addrs) (s ∷ ss) h = ap (◌∷◌ a) (contents-restore addrs ss (omega arith))

entry_of-IsEntry : (size : ℕ) (s : Slot) → IsSlot size s → IsClean s → IsEntry (entry_of s)
entry_of-IsEntry size s h clean = record {
  key_fits = h.key_fits;
  path_fits = h.path_fits;
  bit = h.bit;
  absent = clean;
  named = h.named;
}

pub entries-IsEntry :
    (size : ℕ) (ss : List Slot)
    → All (IsSlot size) ss
    → All IsClean ss
    → All IsEntry (map entry_of ss)
entries-IsEntry size [] h clean = tt
entries-IsEntry size (s ∷ ss) h clean =
    (entry_of-IsEntry size s h.0 clean.0, entries-IsEntry size ss h.1 clean.1)

pub length-entries : (ss : List Slot) → length (map entry_of ss) ≡ length ss
length-entries [] = refl
length-entries (s ∷ ss) = ap suc (length-entries ss)

pub contents-entries :
    (ss : List Slot) → map content_of (map entry_of ss) ≡ map (λ s. s.block_content) ss
contents-entries [] = refl
contents-entries (s ∷ ss) = ap (◌∷◌ s.block_content) (contents-entries ss)

module _ {size : ℕ} (cipher : Cipher size) where
  open cipher use {encrypt_node, decrypt_node, encrypt_block, decrypt_block}

  -- The block that an entry stands for.
  abbrev pub entry_block : Server → Entry → Block
  entry_block server e = record {
    key = e.block_key;
    path = e.block_path;
    bytes = decrypt_block (server.memory e.block_content);
  }

  -- The blocks of the entries that have a key.
  abbrev pub entry_blocks : Server → List Entry → List Block
  entry_blocks server [] = []
  entry_blocks server (e ∷ es) =
      if e.block_key == 0
      then entry_blocks server es
      else entry_block server e ∷ entry_blocks server es

  -- The blocks of the node at index `a`.
  abbrev pub node_blocks : Server → ℕ → List Block
  node_blocks server a = entry_blocks server (decrypt_node (server.nodes a)).entries

  nodes-upload_blocks :
      (dummy : List ℕ) (ss : List Slot) (server : Server)
      → (upload_blocks cipher dummy ss server).nodes ≡ server.nodes
  unfolding upload_blocks
  nodes-upload_blocks dummy [] server = refl
  nodes-upload_blocks dummy (s ∷ ss) server = nodes-upload_blocks dummy ss _

  memory-upload_blocks :
      (dummy : List ℕ) (ss : List Slot) (server : Server) (addr : ℕ)
      → Apart addr (map (λ s. s.block_content) ss)
      → (upload_blocks cipher dummy ss server).memory addr ≡ server.memory addr
  unfolding upload_blocks
  memory-upload_blocks dummy [] server addr h = refl
  memory-upload_blocks dummy (s ∷ ss) server addr h =
      memory-upload_blocks dummy ss _ addr h.1 ∙ rw (ne→== s.block_content addr h.0)

  entry_blocks-upload_blocks :
      (dummy : List ℕ) (ss : List Slot) (server : Server)
      → All (IsSlot size) ss
      → All IsClean ss
      → Distinct (map (λ s. s.block_content) ss)
      → entry_blocks (upload_blocks cipher dummy ss server) (map entry_of ss) ≡ blocks ss
  unfolding upload_blocks
  entry_blocks-upload_blocks dummy [] server h clean distinct = refl
  entry_blocks-upload_blocks dummy (s ∷ ss) server h clean distinct =
      elim (Bool-cases (s.presence_bit == 0)) [
        | inl e ↦
            rw (e, eq→== s.block_key 0 (clean.0 (==→eq _ 0 e)))
              (entry_blocks-upload_blocks dummy ss next h.1 clean.1 distinct.1)
        | inr e ↦
            rw (e, ne→== s.block_key 0 (h.0.named (omega (arith, ==→ne _ 0 e, h.0.bit))))
              (ap₂ ◌∷◌ (ap (with_bytes s) (read_back (rw e h.0.buffer) ∙ rw e))
                (entry_blocks-upload_blocks dummy ss next h.1 clean.1 distinct.1))
      ]
    where
      with_bytes : Slot → List ℕ → Block
      with_bytes t bytes = record { key = t.block_key; path = t.block_path; bytes = bytes }

      chosen : List ℕ
      chosen = if s.presence_bit == 0 then dummy else s.stash

      next : Server
      next = record server {
        memory = update server.memory s.block_content (encrypt_block server.draws chosen);
        draws = server.draws + 1;
      }

      read_back :
          IsBuffer size chosen
          → decrypt_block ((upload_blocks cipher dummy ss next).memory s.block_content) ≡ chosen
      read_back hb =
          rw
            (
              memory-upload_blocks dummy ss next s.block_content distinct.0,
              eq→== s.block_content s.block_content refl,
            )
            (cipher.decrypt-encrypt_block server.draws chosen hb)

  -- What the upload of the node `n` to the index `a` gives: the node reads back, its blocks are
  -- those of `n`, and no other node and no buffer of another node has changed.
  pub record Uploaded (a : ℕ) (n : Node) (server server' : Server) : Type 0 where
    pub node : decrypt_node (server'.nodes a) ≡ tree_node_of n
    pub contents : node_blocks server' a ≡ blocks n.slots
    pub other_nodes : (b : ℕ) → b ≢ a → server'.nodes b ≡ server.nodes b
    pub other_memory :
        (addr : ℕ)
        → Apart addr (map (λ s. s.block_content) n.slots)
        → server'.memory addr ≡ server.memory addr

  pub tree_node_of-IsTreeNode :
      (n : Node) → IsNode size n → All IsClean n.slots → IsTreeNode (tree_node_of n)
  tree_node_of-IsTreeNode n h clean = record {
    four = length-entries n.slots ∙ h.four;
    count_fits = omega (arith, length-blocks-le n.slots, h.counted, h.four);
    good = entries-IsEntry size n.slots h.good clean;
  }

  -- A good node whose empty slots have no key and whose buffers are distinct, written to the
  -- untrusted memory, reads back as itself with its blocks' bytes, and no other node and no other
  -- buffer has changed.
  pub upload_node_lem :
      (dummy : List ℕ) (a : ℕ) (n : Node) (server : Server)
      → IsNode size n
      → All IsClean n.slots
      → Distinct (map (λ s. s.block_content) n.slots)
      → Uploaded a n server (upload_node cipher dummy a n server)
  unfolding upload_node
  upload_node_lem dummy a n server h clean distinct = record {
    node = node;
    contents = rw node (entry_blocks-upload_blocks dummy n.slots start h.good clean distinct);
    other_nodes = λ b ne. rw (nodes-upload_blocks dummy n.slots start, ne→== a b (λ e. ne (sym e)));
    other_memory = λ addr apart. memory-upload_blocks dummy n.slots start addr apart;
  }
    where
      start : Server
      start = record server {
        nodes = update server.nodes a (encrypt_node server.draws (tree_node_of n));
        draws = server.draws + 1;
      }

      node : decrypt_node ((upload_blocks cipher dummy n.slots start).nodes a) ≡ tree_node_of n
      node =
          rw (nodes-upload_blocks dummy n.slots start, eq→== a a refl)
            (cipher.decrypt-encrypt_node server.draws (tree_node_of n)
              (IsTreeNode-FitsNode _ (tree_node_of-IsTreeNode n h clean)))

-- The indices of `left` nodes from `addr` down, by the bits of `tree_path`: the recurrence
-- `addr = addr * 2 + 1 + tree_path % 2; tree_path /= 2` of every loop over a path.
abbrev pub path_addrs : ℕ → ℕ → ℕ → List ℕ
path_addrs zero addr tree_path = []
path_addrs (suc left) addr tree_path = addr ∷ path_addrs left (child addr tree_path) (tree_path / 2)

-- The blocks of the given nodes.
abbrev pub path_blocks : {size : ℕ} → Cipher size → Server → List ℕ → List Block
path_blocks cipher server [] = []
path_blocks cipher server (a ∷ addrs) =
    node_blocks cipher server a ++ path_blocks cipher server addrs
