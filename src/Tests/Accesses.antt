-- ===== src/Tests/Accesses.antt =====
-- Runs of whole accesses and of the constructor.
use intel_sgx_path_oram.Common.{
  ◌^◌, ◌≤◌, ◌<◌, ◌≡◌, ◌⊎◌, refl, List, [], ◌∷◌, arith, length, some, none,
}
use intel_sgx_path_oram.Client.{Client}
use intel_sgx_path_oram.Node.Keys.{count_key}
use intel_sgx_path_oram.MemTree.Access.{reachable}
use intel_sgx_path_oram.PathOram.{
  Behind, TreeAccess, access_tree, access_path_oram, draw_path, draw_if_zero, Oram, construct, read,
  write,
}
use intel_sgx_path_oram.PathOram.ReadWrite.{Served, read_lem, write_lem}
use intel_sgx_path_oram.PathOram.Construct.{IsBuilt, construct_lem}
use intel_sgx_path_oram.PathOram.AccessTree.{TreeAccessed, access_tree_lem}
use intel_sgx_path_oram.PathOram.AccessPath.{remapped, access_path_oram_lem}
use intel_sgx_path_oram.Tests.Ciphers.{plain_cipher}
use intel_sgx_path_oram.PathOram.WriteRead.{read-write}
use intel_sgx_path_oram.PathOram.{exchange, Access}
use intel_sgx_path_oram.Node.Keys.{erase_key}
use intel_sgx_path_oram.Common.{length_perm}
use intel_sgx_path_oram.PathOram.Found.{IsFound, access_tree-IsFound}
use intel_sgx_path_oram.Node.Keys.{last_match}
use intel_sgx_path_oram.Common.{replicate}
use intel_sgx_path_oram.Tests.Inputs.{
  oram-IsOram, zero_block, some_bytes, new_client, new_client-IsClient, four_each,
  four_each-IsLayout, server, tree, oram, tree-HomePath,
}

one_found : count_key 1 (reachable plain_cipher tree 3 new_client) ≡ 1
one_found = refl

one_reachable : length (reachable plain_cipher tree 3 new_client) ≡ 1
one_reachable = refl

first_drawn : draw_path (0 ∷ 5 ∷ []) ≡ some (5, [])
unfolding draw_path
first_drawn = refl

old_kept : draw_if_zero 3 [] ≡ some (3, [])
unfolding draw_if_zero
old_kept = refl

access_tree_example :
    (t : TreeAccess) × (access_tree plain_cipher oram 1 5 3 (9 ∷ 9 ∷ []) 2 4 new_client ≡ some t)
    × TreeAccessed plain_cipher four_each oram 1 5 3 (9 ∷ 9 ∷ []) 2 4 new_client t
access_tree_example =
    access_tree_lem plain_cipher four_each four_each-IsLayout (omega arith) refl oram 1 5 3
      (9 ∷ 9 ∷ []) 2 4 new_client (λ e. omega arith) (omega arith) (omega arith) (omega arith)
      tree-HomePath new_client-IsClient refl (omega (arith, one_found))
      (omega (arith, one_reachable))

abbrev behind : Behind
behind = record { word = 0; r14 = record { lo = 0; hi = 0 }; elsewhere = [] }

access_path_oram_example :
    (t : TreeAccess) × (access_path_oram plain_cipher behind
        (oram ∷ [])
        new_client
        (0 ∷ 5 ∷ [])
        0
        (9 ∷ 9 ∷ [])
        2
        4
      ≡ some (record { client = t.client; orams = t.oram ∷ []; rands = []; block = t.block }))
    × TreeAccessed plain_cipher four_each oram 1 5 3
        (9 ∷ 9 ∷ [])
        2
        4
        (remapped behind 0 5 new_client)
        t
access_path_oram_example =
    access_path_oram_lem plain_cipher four_each four_each-IsLayout (omega arith) refl behind oram []
      new_client (0 ∷ 5 ∷ []) [] [] 0 5 3 (9 ∷ 9 ∷ []) 2 4 (omega arith) (omega arith) (omega arith)
      first_drawn old_kept (omega arith) (omega arith) tree-HomePath new_client-IsClient refl
      (omega (arith, one_found)) (omega (arith, one_reachable))

read_example :
    (t : TreeAccess) × (read plain_cipher behind (oram ∷ []) new_client (0 ∷ 5 ∷ []) 0 zero_block
      ≡ some (record { client = t.client; orams = t.oram ∷ []; rands = []; block = t.block }))
    × Served plain_cipher four_each 0 5 3 some_bytes some_bytes oram new_client t
read_example =
    read_lem plain_cipher four_each four_each-IsLayout (omega arith) refl behind oram [] new_client
      (0 ∷ 5 ∷ []) [] [] 0 5 3 (omega arith) (omega arith) (omega arith) first_drawn old_kept
      (omega arith) (omega arith) tree-HomePath new_client-IsClient (omega (arith, one_found))
      (omega (arith, one_reachable)) zero_block refl

write_example :
    (t : TreeAccess) × (write plain_cipher behind
        (oram ∷ [])
        new_client
        (0 ∷ 5 ∷ [])
        0
        (9 ∷ 9 ∷ [])
        2
        4
      ≡ some (record { client = t.client; orams = t.oram ∷ []; rands = []; block = t.block }))
    × Served plain_cipher four_each 0 5 3
        (1 ∷ 2 ∷ 3 ∷ 4 ∷ 9 ∷ 9 ∷ 7 ∷ 8 ∷ [])
        (5 ∷ 6 ∷ [])
        oram
        new_client
        t
write_example =
    write_lem plain_cipher four_each four_each-IsLayout (omega arith) refl behind oram [] new_client
      (0 ∷ 5 ∷ []) [] [] 0 5 3 (omega arith) (omega arith) (omega arith) first_drawn old_kept
      (omega arith) (omega arith) tree-HomePath new_client-IsClient (omega (arith, one_found))
      (omega (arith, one_reachable)) (9 ∷ 9 ∷ []) 2 4 (omega arith) (omega arith) refl

-- With blocks of 8 bytes, 100000 paths fill 50000 blocks.
construct_example :
    (100000 < 2 ^ 19)
      × ((c : Client) × (orams : List Oram) × (construct plain_cipher 2 1
              (λ l. four_each)
              server
              []
              100000
            ≡ some (record { client = some c; orams = orams }))
          × IsBuilt plain_cipher (λ l. four_each) [] 100000 c orams)
    ⊎ (2 ^ 19 ≤ 100000) × (construct plain_cipher 2 1 (λ l. four_each) server [] 100000 ≡ none)
construct_example =
    construct_lem plain_cipher (omega arith) refl 1 (λ l. four_each) server [] 100000
      (λ l. four_each-IsLayout) (omega arith) (omega arith)

access_tree-IsFound_example :
    (t : TreeAccess) × (access_tree plain_cipher oram 1 5 3 (9 ∷ 9 ∷ []) 2 4 new_client ≡ some t)
    × IsFound plain_cipher four_each 1 5
        (exchange 2 4
          (9 ∷ 9 ∷ [])
          (last_match 1 (replicate 8 0) (reachable plain_cipher tree 3 new_client))).fetched_block
        t.oram
        t.client
access_tree-IsFound_example =
    access_tree-IsFound plain_cipher four_each oram 1 5 3 (9 ∷ 9 ∷ []) 2 4 new_client
      four_each-IsLayout (omega arith) refl oram-IsOram (λ e. omega arith) (omega arith)
      (omega arith) new_client-IsClient refl (omega (arith, one_found))
      (omega (arith, one_reachable))

drawn_again : draw_path (0 ∷ 3 ∷ 6 ∷ []) ≡ some (3, 6 ∷ [])
unfolding draw_path
drawn_again = refl

kept_again : draw_if_zero 3 (6 ∷ []) ≡ some (3, 6 ∷ [])
unfolding draw_if_zero
kept_again = refl

drawn_next : draw_path (6 ∷ []) ≡ some (6, [])
unfolding draw_path
drawn_next = refl

-- A write that draws the path which the block already had.
same_path_write :
    (t : TreeAccess) × (write plain_cipher behind
        (oram ∷ [])
        new_client
        (0 ∷ 3 ∷ 6 ∷ [])
        0
        (9 ∷ 9 ∷ [])
        2
        4
      ≡ some (record { client = t.client; orams = t.oram ∷ []; rands = 6 ∷ []; block = t.block }))
    × Served plain_cipher four_each 0 3 3
        (1 ∷ 2 ∷ 3 ∷ 4 ∷ 9 ∷ 9 ∷ 7 ∷ 8 ∷ [])
        (5 ∷ 6 ∷ [])
        oram
        new_client
        t
same_path_write =
    write_lem plain_cipher four_each four_each-IsLayout (omega arith) refl behind oram [] new_client
      (0 ∷ 3 ∷ 6 ∷ []) (6 ∷ []) (6 ∷ []) 0 3 3 (omega arith) (omega arith) (omega arith) drawn_again
      kept_again (omega arith) (omega arith) tree-HomePath new_client-IsClient
      (omega (arith, one_found)) (omega (arith, one_reachable)) (9 ∷ 9 ∷ []) 2 4 (omega arith)
      (omega arith) refl

none_else : length (erase_key 1 (reachable plain_cipher tree 3 new_client)) ≡ 0
none_else = refl

read-write_example :
    (r : Access) × (read plain_cipher behind
        (same_path_write.0.oram ∷ [])
        same_path_write.0.client
        (6 ∷ [])
        0
        zero_block
      ≡ some r)
    × (r.block ≡ 1 ∷ 2 ∷ 3 ∷ 4 ∷ 9 ∷ 9 ∷ 7 ∷ 8 ∷ [])
read-write_example =
    read-write plain_cipher four_each four_each-IsLayout (omega arith) refl behind oram []
      new_client (0 ∷ 3 ∷ 6 ∷ []) (6 ∷ []) (6 ∷ []) [] 0 3 3 6 (9 ∷ 9 ∷ []) zero_block 2 4
      same_path_write.0 (omega arith) (omega arith) (omega arith) (omega arith) drawn_again
      kept_again drawn_next (omega arith) (omega arith) oram-IsOram new_client-IsClient
      (omega (arith, one_found)) (omega (arith, one_reachable)) (omega arith) (omega arith) refl
      same_path_write.1 (omega (arith, length_perm same_path_write.2.contents, none_else)) refl
