-- ===== src/Tests/Starts.antt =====
-- A write right after the initialisation of a SimpleORAM tree, with AES_ENC and without.
use intel_sgx_path_oram.Common.{
  ◌≡◌, refl, [], ◌∷◌, Bool, arith, length, ◌∙◌, ap, sym, replicate, true, some,
}
use mathlib.Core.Path.{subst}
use mathlib.Core.Option.{some-injective}
use intel_sgx_path_oram.Node.Shape.{blocks}
use intel_sgx_path_oram.Node.Keys.{erase_key}
use intel_sgx_path_oram.Server.{Server}
use intel_sgx_path_oram.Client.{Client, init_client}
use intel_sgx_path_oram.Client.Init.{zeros-IsBuffer}
use intel_sgx_path_oram.MemTree.{MemTree, initialize_mem_tree}
use intel_sgx_path_oram.MemTree.Initialize.{initialize_mem_tree_lem}
use intel_sgx_path_oram.Simple.{PlainServer, aes_store, plain_store, load_aes, load_plain}
use intel_sgx_path_oram.Simple.Store.{aes_store-IsTreeStore, plain_store-IsTreeStore}
use intel_sgx_path_oram.Simple.Empty.{load_aes_empty}
use intel_sgx_path_oram.SimpleTree.{SimpleTree, plain_initialize_mem_tree}
use intel_sgx_path_oram.SimpleTree.InitializePlain.{plain_initialize_mem_tree_lem}
use intel_sgx_path_oram.SimpleOram.{SimpleTreeAccess, access_simple_tree}
use intel_sgx_path_oram.SimpleOram.Access.{Accessed, access_simple_tree_lem}
use intel_sgx_path_oram.SimpleOram.FullRoot.{root_load-fetch}
use intel_sgx_path_oram.SimpleOram.Array.{
  Request, IsRequest, SimpleState, IsState, array_of, array_blocks, step, done,
}
use intel_sgx_path_oram.SimpleOram.Fresh.{fresh-IsState, fresh_plain-IsState}
use intel_sgx_path_oram.SimpleOram.Start.{started, start-Steps}
use intel_sgx_path_oram.Tests.Ciphers.{plain_cipher}
use intel_sgx_path_oram.Tests.SimpleInputs.{plain_server, all_three}
use intel_sgx_path_oram.Tests.Inputs.{four_each, four_each-IsLayout, server}

abbrev aes_new :
    (c : Client) × (t : MemTree) × (init_client 2 8 [] ≡ some c)
    × (initialize_mem_tree plain_cipher four_each 2 server ≡ some t)
    × IsState
        (aes_store plain_cipher)
        8
        four_each
        (started all_three (record { height = 2; server = t.server }) c)
    × (array_of
          (aes_store plain_cipher)
          8
          four_each
          (started all_three (record { height = 2; server = t.server }) c)
        ≡ λ k. replicate 8 0)
aes_new =
    fresh-IsState plain_cipher four_each 2 server [] all_three four_each-IsLayout (omega arith)
      (omega arith) (omega arith) refl

abbrev plain_new :
    (c : Client) × (tree : SimpleTree PlainServer) × (init_client 2 8 [] ≡ some c)
    × (plain_initialize_mem_tree 8 four_each 2 true plain_server ≡ some (true, tree))
    × IsState plain_store 8 four_each (started all_three tree c)
    × (array_of plain_store 8 four_each (started all_three tree c) ≡ λ k. replicate 8 0)
plain_new =
    fresh_plain-IsState 8 four_each 2 plain_server [] all_three four_each-IsLayout (omega arith)
      (omega arith) (omega arith) refl

abbrev new_client : Client
new_client = aes_new.0

abbrev aes_begun : SimpleState Server
aes_begun = started all_three (record { height = 2; server = aes_new.1.server }) new_client

abbrev plain_begun : SimpleState PlainServer
plain_begun = started all_three plain_new.1 new_client

plain_begun-IsState : IsState plain_store 8 four_each plain_begun
plain_begun-IsState =
    subst (λ (c : Client). IsState plain_store 8 four_each (started all_three plain_new.1 c))
      (some-injective plain_new.0 new_client (sym plain_new.2 ∙ aes_new.2)) plain_new.4

aes_root : blocks (load_aes plain_cipher aes_new.1.server 0).slots ≡ []
aes_root =
    let fresh = initialize_mem_tree_lem plain_cipher four_each four_each-IsLayout 2 server refl in
    subst (λ (t : MemTree). blocks (load_aes plain_cipher t.server 0).slots ≡ [])
      (some-injective fresh.0 aes_new.1 (sym fresh.1 ∙ aes_new.3))
      (load_aes_empty plain_cipher fresh.0.server four_each 0 four_each-IsLayout
        (fresh.2.nodes 0 (omega arith))).1

plain_root : blocks (load_plain plain_new.1.server 0).slots ≡ []
plain_root =
    let fresh =
      plain_initialize_mem_tree_lem 8 four_each 2 plain_server four_each-IsLayout
        (zeros-IsBuffer 8 (omega arith) refl) refl in
    subst (λ (t : SimpleTree PlainServer). blocks (load_plain t.server 0).slots ≡ [])
      (ap (λ (x : Bool × SimpleTree PlainServer). x.1)
        (some-injective (true, fresh.0) (true, plain_new.1) (sym fresh.1 ∙ plain_new.3)))
      (fresh.3 0 (omega arith)).1

-- Two bytes at offset 4 of the block of key 1.
abbrev writing : Request
writing = record {
  key = 1;
  new_path = 5;
  rand_path = 1;
  block = 9 ∷ 9 ∷ [];
  write_size = 2;
  write_offset = 4;
}

writing-IsRequest : IsRequest 8 writing
writing-IsRequest = record {
  named = λ e. omega arith;
  key_fits = omega arith;
  path_fits = omega arith;
  within = refl;
}

abbrev aes_written :
    (r : SimpleTreeAccess Server) × (access_simple_tree
        (aes_store plain_cipher)
        8
        aes_begun.tree
        1
        5
        3
        (9 ∷ 9 ∷ [])
        2
        4
        (1 ∷ [])
        new_client
      ≡ some r)
    × Accessed
        (aes_store plain_cipher)
        8
        four_each
        aes_begun.tree
        all_three
        1
        5
        2
        4
        (9 ∷ 9 ∷ [])
        []
        new_client
        r
aes_written =
    let lawful = aes_store-IsTreeStore plain_cipher four_each four_each-IsLayout in
    let zeros = zeros-IsBuffer 8 (omega arith) refl in
    let h = aes_new.4 in
    access_simple_tree_lem (aes_store plain_cipher) 8 four_each lawful aes_begun.tree all_three 1 5
      2 4 (9 ∷ 9 ∷ []) 1 [] new_client zeros h.high h.small (λ e. omega arith) (omega arith)
      (omega arith) refl h.tree h.client
      (omega (
        arith,
        root_load-fetch (aes_store plain_cipher) 8 four_each lawful aes_begun.tree all_three 1
            new_client zeros h.high h.small h.tree h.client,
        ap (λ bs. length (erase_key 1 bs)) aes_root,
      ))

abbrev plain_written :
    (r : SimpleTreeAccess PlainServer) × (access_simple_tree plain_store 8 plain_begun.tree 1 5 3
        (9 ∷ 9 ∷ [])
        2
        4
        (1 ∷ [])
        new_client
      ≡ some r)
    × Accessed plain_store 8 four_each plain_begun.tree all_three 1 5 2 4
        (9 ∷ 9 ∷ [])
        []
        new_client
        r
plain_written =
    let lawful = plain_store-IsTreeStore 8 four_each four_each-IsLayout in
    let zeros = zeros-IsBuffer 8 (omega arith) refl in
    let h = plain_begun-IsState in
    access_simple_tree_lem plain_store 8 four_each lawful plain_begun.tree all_three 1 5 2 4
      (9 ∷ 9 ∷ []) 1 [] new_client zeros h.high h.small (λ e. omega arith) (omega arith)
      (omega arith) refl h.tree h.client
      (omega (
        arith,
        root_load-fetch plain_store 8 four_each lawful plain_begun.tree all_three 1 new_client zeros
            h.high h.small h.tree h.client,
        ap (λ bs. length (erase_key 1 bs)) plain_root,
      ))

start-Steps_example :
    (aes_written.0.block ∷ [] ≡ array_blocks (λ k. replicate 8 0) (writing ∷ []))
    × (plain_written.0.block ∷ [] ≡ array_blocks (λ k. replicate 8 0) (writing ∷ []))
start-Steps_example =
    start-Steps plain_cipher four_each 2 server plain_server [] all_three four_each-IsLayout
      (omega arith) (omega arith) (omega arith) refl new_client aes_new.1 plain_new.1 aes_new.2
      aes_new.3 plain_new.3 (writing-IsRequest, tt) (step aes_written.0 aes_written.1 done)
      (step plain_written.0 plain_written.1 done)
