-- ===== src/Tests/SimpleAccesses.antt =====
-- Runs of SimpleORAM's accesses and of its parts.
use intel_sgx_path_oram.Common.{
  ◌<◌, ◌≡◌, refl, [], ◌∷◌, arith, length, some, none, replicate, false, ap, ◌∙◌,
}
use intel_sgx_path_oram.Node.Keys.{erase_key}
use intel_sgx_path_oram.Simple.{aes_store, Sinking, sink_loop}
use intel_sgx_path_oram.Simple.Store.{IsTreeStore, aes_store-IsTreeStore}
use intel_sgx_path_oram.Simple.SinkBlock.{Sinks, sink_loop_lem}
use intel_sgx_path_oram.SimpleTree.{SimpleTree, mem_tree_fetch, mem_tree_flush}
use intel_sgx_path_oram.SimpleTree.Flush.{TreeFlushes, mem_tree_flush_lem}
use intel_sgx_path_oram.SimpleOram.{
  SimpleTreeAccess, access_simple_tree, SimpleOram, access_simple_oram,
}
use intel_sgx_path_oram.SimpleOram.Access.{Accessed, access_simple_tree_lem}
use intel_sgx_path_oram.SimpleOram.FullRoot.{root_load, access_simple_tree_full, root_load-fetch}
use intel_sgx_path_oram.SimpleOram.Array.{IsState, array_of}
use intel_sgx_path_oram.Server.{Server}
use intel_sgx_path_oram.Client.{Client, init_client}
use intel_sgx_path_oram.MemTree.{MemTree, initialize_mem_tree}
use intel_sgx_path_oram.PathOram.{Behind, draw_path}
use intel_sgx_path_oram.PathOram.AccessPath.{remapped}
use intel_sgx_path_oram.SimpleOram.Fresh.{fresh-IsState}
use intel_sgx_path_oram.SimpleOram.Whole.{after_access, access_simple_oram_lem}
use intel_sgx_path_oram.Tests.Ciphers.{plain_cipher, zeros-IsBuffer}
use intel_sgx_path_oram.Tests.Inputs.{
  four_each, four_each-IsLayout, new_client, server, some_block, some_block-IsBlock, vacant,
  vacant-IsNode,
}
use intel_sgx_path_oram.Tests.SimpleInputs.{
  all_three, new_client-IsSimpleClient, server-IsSimpleTree, full_server, full_server-IsSimpleTree,
  server_root, full_server_root,
}

pub aes_lawful : IsTreeStore 8 four_each (aes_store plain_cipher)
aes_lawful = aes_store-IsTreeStore plain_cipher four_each four_each-IsLayout

abbrev pub two_levels : SimpleTree Server
two_levels = record { height = 2; server = server }

pub room :
    root_load
      (aes_store plain_cipher)
      8
      four_each
      (mem_tree_fetch (aes_store plain_cipher) 8 two_levels 3 1 new_client).tree.server
    < 4
room = omega (
  arith,
  root_load-fetch (aes_store plain_cipher) 8 four_each aes_lawful two_levels all_three 1 new_client
      zeros-IsBuffer (omega arith) (omega arith) server-IsSimpleTree new_client-IsSimpleClient,
  ap (λ bs. length (erase_key 1 bs)) server_root,
)

access_simple_tree_example :
    (r : SimpleTreeAccess Server) × (access_simple_tree
        (aes_store plain_cipher)
        8
        two_levels
        1
        5
        3
        (9 ∷ 9 ∷ [])
        2
        4
        (1 ∷ [])
        new_client
      ≡ some r)
    × Accessed
        (aes_store plain_cipher)
        8
        four_each
        two_levels
        all_three
        1
        5
        2
        4
        (9 ∷ 9 ∷ [])
        []
        new_client
        r
access_simple_tree_example =
    access_simple_tree_lem (aes_store plain_cipher) 8 four_each aes_lawful two_levels all_three 1 5
      2 4 (9 ∷ 9 ∷ []) 1 [] new_client zeros-IsBuffer (omega arith) (omega arith) (λ e. omega arith)
      (omega arith) (omega arith) refl server-IsSimpleTree new_client-IsSimpleClient room

-- Key 9 is not in the tree, whose root is full.
still_full :
    root_load
      (aes_store plain_cipher)
      8
      four_each
      (mem_tree_fetch
        (aes_store plain_cipher)
        8
        (record { height = 2; server = full_server })
        3
        9
        new_client).tree.server
    ≡ 4
still_full =
    root_load-fetch (aes_store plain_cipher) 8 four_each aes_lawful _ all_three 9 new_client
      zeros-IsBuffer (omega arith) (omega arith) full_server-IsSimpleTree new_client-IsSimpleClient
    ∙ ap (λ bs. length (erase_key 9 bs)) full_server_root

access_simple_tree_full_example :
    access_simple_tree
      (aes_store plain_cipher)
      8
      (record { height = 2; server = full_server })
      9
      5
      3
      (9 ∷ 9 ∷ [])
      2
      4
      (1 ∷ [])
      new_client
    ≡ none
access_simple_tree_full_example =
    access_simple_tree_full (aes_store plain_cipher) 8 four_each aes_lawful
      (record { height = 2; server = full_server }) all_three 9 5 2 4 (9 ∷ 9 ∷ []) (1 ∷ [])
      new_client zeros-IsBuffer (omega arith) (omega arith) full_server-IsSimpleTree
      new_client-IsSimpleClient still_full

mem_tree_flush_example :
    TreeFlushes
      (aes_store plain_cipher)
      8
      four_each
      two_levels
      2
      new_client
      (mem_tree_flush (aes_store plain_cipher) 8 two_levels 2 new_client)
mem_tree_flush_example =
    mem_tree_flush_lem (aes_store plain_cipher) 8 four_each aes_lawful two_levels 2 new_client
      (omega arith) (server-IsSimpleTree.homes 2) new_client-IsSimpleClient
      (server-IsSimpleTree.lie 2)

aes_store_example : IsTreeStore 8 four_each (aes_store plain_cipher)
aes_store_example = aes_store-IsTreeStore plain_cipher four_each four_each-IsLayout

abbrev entered : Sinking
entered = record { has_flushed = false; failed_flushed = false; presence_bit = 1; num_blocks = 1 }

-- A block of path 3 follows the path 1 for one level.
sink_loop_example :
    Sinks 8 1 0 some_block
      (vacant ∷ vacant ∷ [])
      entered
      (sink_loop 8 1 0 some_block (vacant ∷ vacant ∷ []) entered)
sink_loop_example =
    sink_loop_lem 8 1 0 some_block (vacant ∷ vacant ∷ []) entered (omega arith, omega arith)
      (omega arith) (refl, refl) (λ e. omega arith) some_block-IsBlock (omega arith)
      (vacant-IsNode, (vacant-IsNode, tt))

fresh_example :
    (c : Client) × (t : MemTree) × (init_client 2 8 [] ≡ some c)
    × (initialize_mem_tree plain_cipher four_each 2 server ≡ some t)
    × IsState
        (aes_store plain_cipher)
        8
        four_each
        (record { tree = record { height = 2; server = t.server }; client = c; pos = all_three })
    × (array_of
          (aes_store plain_cipher)
          8
          four_each
          (record { tree = record { height = 2; server = t.server }; client = c; pos = all_three })
        ≡ λ k. replicate 8 0)
fresh_example =
    fresh-IsState plain_cipher four_each 2 server [] all_three four_each-IsLayout (omega arith)
      (omega arith) (omega arith) refl

abbrev simple_behind : Behind
simple_behind = record { word = 0; r14 = record { lo = 0; hi = 0 }; elsewhere = [] }

abbrev simple_oram : SimpleOram Server
simple_oram = record { capacity = 2; tree = two_levels }

drawn_twice : draw_path (0 ∷ 5 ∷ 1 ∷ []) ≡ some (5, 1 ∷ [])
unfolding draw_path
drawn_twice = refl

room_remapped :
    root_load
      (aes_store plain_cipher)
      8
      four_each
      (mem_tree_fetch
        (aes_store plain_cipher)
        8
        two_levels
        3
        1
        (remapped simple_behind 0 5 new_client)).tree.server
    < 4
room_remapped = omega (
  arith,
  root_load-fetch (aes_store plain_cipher) 8 four_each aes_lawful two_levels all_three 1
      (remapped simple_behind 0 5 new_client) zeros-IsBuffer (omega arith) (omega arith)
      server-IsSimpleTree
      (record { twenty = refl; rest = new_client-IsSimpleClient.rest; unused = refl }),
  ap (λ bs. length (erase_key 1 bs)) server_root,
)

access_simple_oram_example :
    (t : SimpleTreeAccess Server) × (access_simple_oram
        (aes_store plain_cipher)
        8
        simple_behind
        (simple_oram ∷ [])
        new_client
        (0 ∷ 5 ∷ 1 ∷ [])
        0
        (9 ∷ 9 ∷ [])
        2
        4
      ≡ some (after_access (aes_store plain_cipher) 8 four_each simple_oram [] t))
    × Accessed
        (aes_store plain_cipher)
        8
        four_each
        two_levels
        all_three
        1
        5
        2
        4
        (9 ∷ 9 ∷ [])
        []
        (remapped simple_behind 0 5 new_client)
        t
access_simple_oram_example =
    access_simple_oram_lem (aes_store plain_cipher) 8 four_each aes_lawful simple_behind simple_oram
      [] new_client all_three (0 ∷ 5 ∷ 1 ∷ []) 0 5 1 [] (9 ∷ 9 ∷ []) 2 4 zeros-IsBuffer
      (omega arith) (omega arith) (omega arith) drawn_twice (omega arith) (omega arith)
      (omega arith) refl server-IsSimpleTree new_client-IsSimpleClient refl room_remapped
