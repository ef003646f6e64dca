-- ===== src/Simple/Store.antt =====
-- The two ways in which SimpleORAM keeps its nodes, encrypted and plain, and their laws.
use intel_sgx_path_oram.Common.{
  ℕ, ◌+◌, ◌≡◌, ◌≢◌, refl, List, [], ◌∷◌, arith, All, ◌∙◌, ap, map, sym, ne→==, eq→==,
}
use mathlib.Core.Path.{ap₂, subst}
use intel_sgx_path_oram.Node.{Slot, Node}
use intel_sgx_path_oram.Node.Shape.{IsSlot, IsNode, length-blocks-le}
use intel_sgx_path_oram.Server.{Entry, FitsEntry, FitsNode, Cipher, Server, update}
use intel_sgx_path_oram.Client.{entry_of, tree_node_of}
use intel_sgx_path_oram.Client.Tree.{Apart, Distinct, length-entries}
use intel_sgx_path_oram.Client.Upload.{IsLayout}
use intel_sgx_path_oram.Simple.{
  TreeStore, aes_store, plain_store, decrypt_slot, load_aes, save_blocks, save_aes, PlainServer,
  plain_slot, load_plain, copy_blocks, save_plain,
}
use intel_sgx_path_oram.Node.Shape.{addrs_of}

-- What is saved is what is loaded, and a node with buffers of its own is not touched by another's.
pub record IsTreeStore (size : ℕ) (alloc : ℕ → List ℕ) {S : Type 0} (store : TreeStore S)
    : Type 0 where
  pub load-save_self :
      (a : ℕ) (n : Node) (s : S)
      → IsNode size n
      → addrs_of n.slots ≡ alloc a
      → store.load_node (store.save_node a n s) a ≡ n
  pub load-save_ne :
      (a b : ℕ) (n : Node) (s : S)
      → b ≢ a
      → addrs_of n.slots ≡ alloc a
      → addrs_of (store.load_node s b).slots ≡ alloc b
      → store.load_node (store.save_node a n s) b ≡ store.load_node s b

entries-FitsEntry :
    (size : ℕ) (ss : List Slot) → All (IsSlot size) ss → All FitsEntry (map entry_of ss)
entries-FitsEntry size [] h = tt
entries-FitsEntry size (s ∷ ss) h = (
  record { key_fits = h.0.key_fits; path_fits = h.0.path_fits; bit_fits = omega (arith, h.0.bit) },
  entries-FitsEntry size ss h.1,
)

tree_node_of-FitsNode : (size : ℕ) (n : Node) → IsNode size n → FitsNode (tree_node_of n)
tree_node_of-FitsNode size n h = record {
  four = length-entries n.slots ∙ h.four;
  count_fits = omega (arith, length-blocks-le n.slots, h.counted, h.four);
  fits = entries-FitsEntry size n.slots h.good;
}

-- Slots read through `read` from entries, at the addresses where two memories agree.
same_slots :
    (f g : Entry → Slot) (es : List Entry)
    → ((e : Entry) → (f e).block_content ≡ e.block_content)
    → (M : ℕ → Type 0) → ((e : Entry) → M e.block_content → g e ≡ f e)
    → All M (addrs_of (map f es))
    → map g es ≡ map f es
same_slots f g [] at M same h = refl
same_slots f g (e ∷ es) at M same h =
    ap₂ ◌∷◌ (same e (subst M (at e) h.0)) (same_slots f g es at M same h.1)

module _ {size : ℕ} (cipher : Cipher size) where
  open cipher use {encrypt_node, decrypt_node, encrypt_block, decrypt_block}

  nodes-save_blocks :
      (ss : List Slot) (server : Server) → (save_blocks cipher ss server).nodes ≡ server.nodes
  unfolding save_blocks
  nodes-save_blocks [] server = refl
  nodes-save_blocks (s ∷ ss) server = nodes-save_blocks ss _

  memory-save_blocks :
      (ss : List Slot) (server : Server) (addr : ℕ)
      → Apart addr (addrs_of ss)
      → (save_blocks cipher ss server).memory addr ≡ server.memory addr
  unfolding save_blocks
  memory-save_blocks [] server addr h = refl
  memory-save_blocks (s ∷ ss) server addr h =
      memory-save_blocks ss _ addr h.1 ∙ rw (ne→== s.block_content addr h.0) refl

  slots-save_blocks :
      (ss : List Slot) (server : Server)
      → All (IsSlot size) ss
      → Distinct (addrs_of ss)
      → map (decrypt_slot cipher (save_blocks cipher ss server)) (map entry_of ss) ≡ ss
  unfolding save_blocks decrypt_slot
  slots-save_blocks [] server h distinct = refl
  slots-save_blocks (s ∷ ss) server h distinct =
      ap₂ ◌∷◌
        (ap (λ (bytes : List ℕ). record s { stash = bytes })
          (rw
            (
              memory-save_blocks ss next s.block_content distinct.0,
              eq→== s.block_content s.block_content refl,
            )
            (cipher.decrypt-encrypt_block server.draws s.stash h.0.buffer)))
        (slots-save_blocks ss next h.1 distinct.1)
    where
      next : Server
      next = record server {
        memory = update server.memory s.block_content (encrypt_block server.draws s.stash);
        draws = server.draws + 1;
      }

  module _ (a : ℕ) (n : Node) (server : Server) where
    abbrev start_aes : Server
    start_aes = record server {
      nodes = update server.nodes a (encrypt_node server.draws (tree_node_of n));
      draws = server.draws + 1;
    }

    load-save_aes :
        IsNode size n
        → Distinct (addrs_of n.slots)
        → load_aes cipher (save_aes cipher a n server) a ≡ n
    unfolding load_aes save_aes
    load-save_aes h distinct =
        rw
          (
            nodes-save_blocks n.slots start_aes,
            eq→== a a refl,
            cipher.decrypt-encrypt_node server.draws (tree_node_of n)
                (tree_node_of-FitsNode size n h),
          )
          (ap (λ (ss : List Slot). record { num_blocks = n.num_blocks; slots = ss })
            (slots-save_blocks n.slots start_aes h.good distinct))

    load-save_aes_ne :
        (b : ℕ)
        → b ≢ a
        → All (λ x. Apart x (addrs_of n.slots)) (addrs_of (load_aes cipher server b).slots)
        → load_aes cipher (save_aes cipher a n server) b ≡ load_aes cipher server b
    unfolding load_aes save_aes decrypt_slot
    load-save_aes_ne b ne apart =
        rw (nodes-save_blocks n.slots start_aes, ne→== a b (λ e. ne (sym e)))
          (ap
            (λ (ss : List Slot). record {
              num_blocks = (decrypt_node (server.nodes b)).num_blocks;
              slots = ss;
            })
            (same_slots (decrypt_slot cipher server)
              (decrypt_slot cipher (save_blocks cipher n.slots start_aes))
              (decrypt_node (server.nodes b)).entries (λ e. refl) (λ x. Apart x (addrs_of n.slots))
              (λ e far. rw (memory-save_blocks n.slots start_aes e.block_content far) refl) apart))

  -- With distinct buffers, the encrypted nodes are a lawful store: a good node with its own buffers
  -- that has been saved is loaded as itself, with the bytes of its blocks, and any other node with
  -- its own buffers is loaded as before.
  pub aes_store-IsTreeStore :
      (alloc : ℕ → List ℕ) → IsLayout alloc → IsTreeStore size alloc (aes_store cipher)
  aes_store-IsTreeStore alloc layout = record {
    load-save_self = λ a n s h row. load-save_aes a n s h (rw row (layout.distinct a));
    load-save_ne =
        λ a b n s ne row home. load-save_aes_ne a n s b ne (rw (home, row) (layout.apart b a ne));
  }

nodes-copy_blocks :
    (ss : List Slot) (server : PlainServer) → (copy_blocks ss server).nodes ≡ server.nodes
unfolding copy_blocks
nodes-copy_blocks [] server = refl
nodes-copy_blocks (s ∷ ss) server = nodes-copy_blocks ss _

memory-copy_blocks :
    (ss : List Slot) (server : PlainServer) (addr : ℕ)
    → Apart addr (addrs_of ss)
    → (copy_blocks ss server).memory addr ≡ server.memory addr
unfolding copy_blocks
memory-copy_blocks [] server addr h = refl
memory-copy_blocks (s ∷ ss) server addr h =
    memory-copy_blocks ss _ addr h.1 ∙ rw (ne→== s.block_content addr h.0) refl

slots-copy_blocks :
    (ss : List Slot) (server : PlainServer)
    → Distinct (addrs_of ss)
    → map (plain_slot (copy_blocks ss server)) (map entry_of ss) ≡ ss
unfolding copy_blocks plain_slot
slots-copy_blocks [] server distinct = refl
slots-copy_blocks (s ∷ ss) server distinct =
    ap₂ ◌∷◌
      (ap (λ (bytes : List ℕ). record s { stash = bytes })
        (rw
          (
            memory-copy_blocks ss next s.block_content distinct.0,
            eq→== s.block_content s.block_content refl,
          )
          refl))
      (slots-copy_blocks ss next distinct.1)
  where
    next : PlainServer
    next = record server { memory = update server.memory s.block_content s.stash }

module _ (a : ℕ) (n : Node) (server : PlainServer) where
  abbrev start_plain : PlainServer
  start_plain = record server { nodes = update server.nodes a (tree_node_of n) }

  load-save_plain : Distinct (addrs_of n.slots) → load_plain (save_plain a n server) a ≡ n
  unfolding load_plain save_plain
  load-save_plain distinct =
      rw (nodes-copy_blocks n.slots start_plain, eq→== a a refl)
        (ap (λ (ss : List Slot). record { num_blocks = n.num_blocks; slots = ss })
          (slots-copy_blocks n.slots start_plain distinct))

  load-save_plain_ne :
      (b : ℕ)
      → b ≢ a
      → All (λ x. Apart x (addrs_of n.slots)) (addrs_of (load_plain server b).slots)
      → load_plain (save_plain a n server) b ≡ load_plain server b
  unfolding load_plain save_plain plain_slot
  load-save_plain_ne b ne apart =
      rw (nodes-copy_blocks n.slots start_plain, ne→== a b (λ e. ne (sym e)))
        (ap (λ (ss : List Slot). record { num_blocks = (server.nodes b).num_blocks; slots = ss })
          (same_slots (plain_slot server) (plain_slot (copy_blocks n.slots start_plain))
            (server.nodes b).entries (λ e. refl) (λ x. Apart x (addrs_of n.slots))
            (λ e far. rw (memory-copy_blocks n.slots start_plain e.block_content far) refl) apart))

-- With buffers of their own, the plain nodes are a lawful store.
pub plain_store-IsTreeStore :
    (size : ℕ) (alloc : ℕ → List ℕ) → IsLayout alloc → IsTreeStore size alloc plain_store
plain_store-IsTreeStore size alloc layout = record {
  load-save_self = λ a n s h row. load-save_plain a n s (rw row (layout.distinct a));
  load-save_ne =
      λ a b n s ne row home. load-save_plain_ne a n s b ne (rw (home, row) (layout.apart b a ne));
}
