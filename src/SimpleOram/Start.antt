-- ===== src/SimpleOram/Start.antt =====
-- Accesses from the initialisation on, with AES_ENC and without.
use intel_sgx_path_oram.Common.{
  ℕ, ◌%◌, ◌≤◌, ◌<◌, ◌≡◌, List, All, Bool, ◌∙◌, ap, sym, replicate, some, true,
}
use mathlib.Core.Path.{subst}
use mathlib.Core.Option.{some-injective}
use intel_sgx_path_oram.Server.{Cipher, Server}
use intel_sgx_path_oram.Client.{Client, init_client, client_max_path}
use intel_sgx_path_oram.Client.Init.{zeros-IsBuffer}
use intel_sgx_path_oram.Client.Upload.{IsLayout}
use intel_sgx_path_oram.MemTree.{MemTree, initialize_mem_tree}
use intel_sgx_path_oram.Simple.{TreeStore, PlainServer, aes_store, plain_store}
use intel_sgx_path_oram.Simple.Store.{aes_store-IsTreeStore, plain_store-IsTreeStore}
use intel_sgx_path_oram.SimpleTree.{SimpleTree, plain_initialize_mem_tree}
use intel_sgx_path_oram.SimpleOram.Runs.{Steps-array}
use intel_sgx_path_oram.SimpleOram.Array.{
  Request, IsRequest, SimpleState, IsState, array_of, array_blocks, Steps,
}
use intel_sgx_path_oram.SimpleOram.Fresh.{fresh-IsState, fresh_plain-IsState}

-- The state that begins with this tree and this client.
abbrev pub started : {S : Type 0} → (ℕ → ℕ) → SimpleTree S → Client → SimpleState S
started pos tree c = record { tree = tree; client = c; pos = pos }

-- It is a good one, and stands for the array of zeros.
abbrev IsBlank : {S : Type 0} → TreeStore S → ℕ → (ℕ → List ℕ) → SimpleState S → Type 0
IsBlank store size alloc s =
    IsState store size alloc s × (array_of store size alloc s ≡ λ k. replicate size 0)

module _ {size : ℕ} (cipher : Cipher size) (alloc : ℕ → List ℕ) (height : ℕ) (heap : Server)
    (heap' : PlainServer) (behind : List ℕ) (pos : ℕ → ℕ) (layout : IsLayout alloc)
    (high : 1 ≤ height) (low : height < client_max_path) (word : 8 ≤ size)
    (whole : size % 8 ≡ 0) where
  aes-IsBlank :
      (c : Client) (t : MemTree)
      → init_client height size behind ≡ some c
      → initialize_mem_tree cipher alloc height heap ≡ some t
      → IsBlank
          (aes_store cipher)
          size
          alloc
          (started pos (record { height = height; server = t.server }) c)
  aes-IsBlank c t made grown =
      let fresh = fresh-IsState cipher alloc height heap behind pos layout high low word whole in
      subst
        (λ (d : Client).
          IsBlank (aes_store cipher) size alloc
            (started pos (record { height = height; server = t.server }) d))
        (some-injective fresh.0 c (sym fresh.2 ∙ made))
        (subst
          (λ (u : MemTree).
            IsBlank (aes_store cipher) size alloc
              (started pos (record { height = height; server = u.server }) fresh.0))
          (some-injective fresh.1 t (sym fresh.3 ∙ grown)) (fresh.4, fresh.5))

  plain-IsBlank :
      (c : Client) (tree : SimpleTree PlainServer)
      → init_client height size behind ≡ some c
      → plain_initialize_mem_tree size alloc height true heap' ≡ some (true, tree)
      → IsBlank plain_store size alloc (started pos tree c)
  plain-IsBlank c tree made grown =
      let fresh =
        fresh_plain-IsState size alloc height heap' behind pos layout high low word whole in
      subst (λ (d : Client). IsBlank plain_store size alloc (started pos tree d))
        (some-injective fresh.0 c (sym fresh.2 ∙ made))
        (subst
          (λ (u : SimpleTree PlainServer). IsBlank plain_store size alloc (started pos u fresh.0))
          (ap (λ (x : Bool × SimpleTree PlainServer). x.1)
            (some-injective (true, fresh.1) (true, tree) (sym fresh.3 ∙ grown)))
          (fresh.4, fresh.5))

  -- For a height from 1 to 19, a block size that is a positive multiple of 8 and distinct buffers:
  -- from the client and the trees that initialisation makes, one encrypted and one plain, whatever
  -- the position map holds, the same requests, each with a 32-bit key other than 0, a 32-bit new
  -- path and a range within bounds, when all succeed, hand back in either build what an array of
  -- blocks of zeros hands back.
  pub start-Steps :
      (c : Client) (t : MemTree) (tree : SimpleTree PlainServer)
      → init_client height size behind ≡ some c
      → initialize_mem_tree cipher alloc height heap ≡ some t
      → plain_initialize_mem_tree size alloc height true heap' ≡ some (true, tree)
      → {s' : SimpleState Server} {t' : SimpleState PlainServer} {qs : List Request}
        {outs outs' : List (List ℕ)}
      → All (IsRequest size) qs
      → Steps
          (aes_store cipher)
          size
          alloc
          (started pos (record { height = height; server = t.server }) c)
          qs
          outs
          s'
      → Steps plain_store size alloc (started pos tree c) qs outs' t'
      → (outs ≡ array_blocks (λ k. replicate size 0) qs)
        × (outs' ≡ array_blocks (λ k. replicate size 0) qs)
  start-Steps c t tree made grown grown' {qs} hqs steps steps' =
      let aes = aes-IsBlank c t made grown in
      let plain = plain-IsBlank c tree made grown' in
      (
        (Steps-array (aes_store cipher) size alloc (aes_store-IsTreeStore cipher alloc layout)
              (zeros-IsBuffer size word whole) aes.0 hqs steps).1
            ∙ ap (λ (array : ℕ → List ℕ). array_blocks array qs) aes.1,
        (Steps-array plain_store size alloc (plain_store-IsTreeStore size alloc layout)
              (zeros-IsBuffer size word whole) plain.0 hqs steps').1
            ∙ ap (λ (array : ℕ → List ℕ). array_blocks array qs) plain.1,
      )
