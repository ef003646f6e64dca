-- ===== src/Tests/SimpleRuns.antt =====
-- Runs of SimpleORAM accesses in sequence, encrypted and plain.
use intel_sgx_path_oram.Common.{◌<◌, ◌≡◌, refl, [], ◌∷◌, arith, length, some, replicate, ap}
use intel_sgx_path_oram.Node.Keys.{erase_key}
use intel_sgx_path_oram.Simple.{PlainServer, aes_store, plain_store}
use intel_sgx_path_oram.Simple.Store.{IsTreeStore, plain_store-IsTreeStore}
use intel_sgx_path_oram.SimpleTree.{SimpleTree, mem_tree_fetch}
use intel_sgx_path_oram.SimpleOram.{SimpleTreeAccess, access_simple_tree}
use intel_sgx_path_oram.SimpleOram.Access.{Accessed, access_simple_tree_lem}
use intel_sgx_path_oram.SimpleOram.FullRoot.{root_load, root_load-fetch}
use intel_sgx_path_oram.SimpleOram.Runs.{Steps-array, Steps-agree}
use intel_sgx_path_oram.SimpleOram.Array.{
  Request, IsRequest, SimpleState, IsState, done, step, array_of, array_blocks, array_end,
}
use intel_sgx_path_oram.Server.{Server, update}
use intel_sgx_path_oram.Tests.Ciphers.{plain_cipher, zeros-IsBuffer}
use intel_sgx_path_oram.Tests.Inputs.{four_each, four_each-IsLayout, new_client}
use intel_sgx_path_oram.Tests.SimpleInputs.{
  all_three, new_client-IsSimpleClient, server-IsSimpleTree, plain_server,
  plain_server-IsSimpleTree, plain_server_root, same_arrays,
}
use intel_sgx_path_oram.Tests.SimpleAccesses.{aes_lawful, two_levels, room}

-- A read of the block of key 1.
abbrev reading : Request
reading = record {
  key = 1;
  new_path = 6;
  rand_path = 2;
  block = replicate 8 0;
  write_size = 0;
  write_offset = 0;
}

reading-IsRequest : IsRequest 8 reading
reading-IsRequest = record {
  named = λ e. omega arith;
  key_fits = omega arith;
  path_fits = omega arith;
  within = refl;
}

abbrev begun : SimpleState Server
begun = record { tree = two_levels; client = new_client; pos = all_three }

begun-IsState : IsState (aes_store plain_cipher) 8 four_each begun
begun-IsState = record {
  high = omega arith;
  small = omega arith;
  tree = server-IsSimpleTree;
  client = new_client-IsSimpleClient;
}

abbrev aes_read :
    (r : SimpleTreeAccess Server) × (access_simple_tree
        (aes_store plain_cipher)
        8
        two_levels
        1
        6
        3
        (replicate 8 0)
        0
        0
        (2 ∷ [])
        new_client
      ≡ some r)
    × Accessed
        (aes_store plain_cipher)
        8
        four_each
        two_levels
        all_three
        1
        6
        0
        0
        (replicate 8 0)
        []
        new_client
        r
aes_read =
    access_simple_tree_lem (aes_store plain_cipher) 8 four_each aes_lawful two_levels all_three 1 6
      0 0 (replicate 8 0) 2 [] new_client zeros-IsBuffer (omega arith) (omega arith)
      (λ e. omega arith) (omega arith) (omega arith) refl server-IsSimpleTree
      new_client-IsSimpleClient room

abbrev end_state : SimpleState Server
end_state = record {
  tree = aes_read.0.tree;
  client = aes_read.0.client;
  pos = update all_three 1 6;
}

Steps-array_example :
    IsState (aes_store plain_cipher) 8 four_each end_state
    × (aes_read.0.block ∷ []
        ≡ array_blocks (array_of (aes_store plain_cipher) 8 four_each begun) (reading ∷ []))
    × (array_of (aes_store plain_cipher) 8 four_each end_state
        ≡ array_end (array_of (aes_store plain_cipher) 8 four_each begun) (reading ∷ []))
Steps-array_example =
    Steps-array (aes_store plain_cipher) 8 four_each aes_lawful zeros-IsBuffer begun-IsState
      (reading-IsRequest, tt) (step aes_read.0 aes_read.1 done)

-- The same read without encryption.
plain_lawful : IsTreeStore 8 four_each plain_store
plain_lawful = plain_store-IsTreeStore 8 four_each four_each-IsLayout

abbrev plain_levels : SimpleTree PlainServer
plain_levels = record { height = 2; server = plain_server }

abbrev plain_begun : SimpleState PlainServer
plain_begun = record { tree = plain_levels; client = new_client; pos = all_three }

plain_begun-IsState : IsState plain_store 8 four_each plain_begun
plain_begun-IsState = record {
  high = omega arith;
  small = omega arith;
  tree = plain_server-IsSimpleTree;
  client = new_client-IsSimpleClient;
}

plain_room :
    root_load plain_store 8 four_each
      (mem_tree_fetch plain_store 8 plain_levels 3 1 new_client).tree.server
    < 4
plain_room = omega (
  arith,
  root_load-fetch plain_store 8 four_each plain_lawful plain_levels all_three 1 new_client
      zeros-IsBuffer (omega arith) (omega arith) plain_server-IsSimpleTree
      new_client-IsSimpleClient,
  ap (λ bs. length (erase_key 1 bs)) plain_server_root,
)

abbrev plain_read :
    (r : SimpleTreeAccess PlainServer) × (access_simple_tree plain_store 8 plain_levels 1 6 3
        (replicate 8 0)
        0
        0
        (2 ∷ [])
        new_client
      ≡ some r)
    × Accessed plain_store 8 four_each plain_levels all_three 1 6 0 0
        (replicate 8 0)
        []
        new_client
        r
plain_read =
    access_simple_tree_lem plain_store 8 four_each plain_lawful plain_levels all_three 1 6 0 0
      (replicate 8 0) 2 [] new_client zeros-IsBuffer (omega arith) (omega arith) (λ e. omega arith)
      (omega arith) (omega arith) refl plain_server-IsSimpleTree new_client-IsSimpleClient
      plain_room

abbrev plain_end : SimpleState PlainServer
plain_end = record {
  tree = plain_read.0.tree;
  client = plain_read.0.client;
  pos = update all_three 1 6;
}

Steps-agree_example :
    (aes_read.0.block ∷ [] ≡ plain_read.0.block ∷ [])
    × (array_of (aes_store plain_cipher) 8 four_each end_state
        ≡ array_of plain_store 8 four_each plain_end)
Steps-agree_example =
    Steps-agree plain_cipher four_each four_each-IsLayout zeros-IsBuffer begun-IsState
      plain_begun-IsState (reading-IsRequest, tt) same_arrays (step aes_read.0 aes_read.1 done)
      (step plain_read.0 plain_read.1 done)
