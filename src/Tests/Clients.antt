-- ===== src/Tests/Clients.antt =====
-- Runs of the client's calls and of the accesses.
use intel_sgx_path_oram.Common.{
  map, ◌++◌, ℕ, List, zero, ◌+◌, ◌^◌, ◌≡◌, ◌<◌, refl, [], ◌∷◌, arith, length, All, replicate, some,
  none, length-replicate, ◌-◌,
}
use intel_sgx_path_oram.Node.Keys.{count_key}
use intel_sgx_path_oram.Client.{
  Client, World, Put, write_mm_in_client, read_mm_in_client, gather_nodes, oblivious_fetch,
  oblivious_put_to_stash, download_path, evict_level, evict_path, upload_node, init_client,
  max_pos_map,
}
use intel_sgx_path_oram.Client.Stash.{stash_blocks}
use intel_sgx_path_oram.Client.Evict.{ScansNodes, gather_nodes_lem}
use intel_sgx_path_oram.Client.Tree.{Uploaded, upload_node_lem, path_addrs, path_blocks}
use intel_sgx_path_oram.Client.Path.{path_addrs-lt}
use intel_sgx_path_oram.Client.DownloadEntries.{Joined}
use intel_sgx_path_oram.Client.Upload.{Levelled, evict_level_lem}
use intel_sgx_path_oram.Client.EvictPath.{RowsAre, PathEvicted}
use intel_sgx_path_oram.Client.WholePath.{download_path_lem, evict_path_lem}
use intel_sgx_path_oram.Client.Placed.{Placed, evict_path-Placed}
use intel_sgx_path_oram.Encryption.{encrypt_data, decrypt_data, decrypt_data-encrypt_data}
use intel_sgx_path_oram.Client.FetchPut.{
  ClientFetched, oblivious_fetch_lem, ClientPut, oblivious_put_to_stash_lem,
  oblivious_put_to_stash_full,
}
use intel_sgx_path_oram.Client.PosMap.{
  PathWritten, write_mm_in_client_words, read-write_mm_in_client,
}
use intel_sgx_path_oram.Client.Init.{IsInitial, init_client_lem}
use intel_sgx_path_oram.MemTree.{
  MemTree, block_buffer, node_array, initialize_mem_tree, free_mem_tree,
}
use intel_sgx_path_oram.MemTree.Access.{reachable}
use mathlib.Core.Path.{subst}
use intel_sgx_path_oram.Client.Tree.{Distinct}
use intel_sgx_path_oram.MemTree.Free.{buffers_from, free_mem_tree_lem}
use intel_sgx_path_oram.MemTree.Initialize.{IsFresh, initialize_mem_tree_lem}
use intel_sgx_path_oram.PathOram.{compute_tree_height}
use intel_sgx_path_oram.PathOram.Height.{IsDigits, compute_tree_height_lem}
use intel_sgx_path_oram.Tests.Ciphers.{plain_cipher, zeros-IsBuffer, plain_gcm}
use intel_sgx_path_oram.Tests.Inputs.{
  zero_block, some_block, some_block-IsBlock, vacant, vacant-IsNode, one_taken, one_taken-IsNode,
  new_client, new_client-IsClient, loaded_client, loaded_client-IsClient, full_client,
  full_client-IsClient, four_each, four_each-IsLayout, server, tree, tree-HomePath, one_node,
  one_node-IsNode, one_node-IsClean, server_IsHome, some_bytes, server-Placed,
}

one_reachable : length (reachable plain_cipher tree 3 new_client) ≡ 1
one_reachable = refl

download_path_example :
    (c' : Client) × (download_path plain_cipher server 2 3 new_client ≡ some c')
    × Joined 8 (path_blocks plain_cipher server (path_addrs 2 0 3)) new_client c'
    × RowsAre plain_cipher four_each 0 (path_addrs 2 0 3) c'.encrypted_data_addr_in_path
download_path_example =
    download_path_lem plain_cipher four_each server 2 3 new_client (omega arith) tree-HomePath
      new_client-IsClient (omega (arith, one_reachable))

abbrev one_level : World
one_level = record { client = loaded_client; server = server }

evict_path_example :
    PathEvicted plain_cipher four_each 3 0
      (path_addrs 1 0 3)
      one_level
      (evict_path plain_cipher 1 3 one_level)
evict_path_example =
    evict_path_lem plain_cipher four_each 1 3 one_level four_each-IsLayout (omega arith)
      loaded_client-IsClient (refl, tt)

evict_level_example :
    Levelled plain_cipher four_each 3 0 0 one_level (evict_level plain_cipher 3 0 0 one_level)
evict_level_example =
    evict_level_lem plain_cipher four_each four_each-IsLayout 3 0 0 one_level loaded_client-IsClient
      refl

loaded_once : count_key 1 (stash_blocks loaded_client.path) ≡ 1
loaded_once = refl

oblivious_fetch_example : ClientFetched 8 1 loaded_client (oblivious_fetch 8 1 0 loaded_client)
oblivious_fetch_example =
    oblivious_fetch_lem 8 1 0 loaded_client zeros-IsBuffer loaded_client-IsClient
      (omega (arith, loaded_once))

loaded_length : length (stash_blocks loaded_client.path) ≡ 1
loaded_length = refl

oblivious_put_to_stash_example :
    (r : Put) × (oblivious_put_to_stash 8 some_block 0 loaded_client ≡ some r)
    × ClientPut 8 some_block loaded_client r
oblivious_put_to_stash_example =
    oblivious_put_to_stash_lem 8 0 some_block loaded_client (λ e. omega arith) some_block-IsBlock
      loaded_client-IsClient (omega (arith, loaded_length))

gather_nodes_example :
    ScansNodes 8 1 3
      (one_taken ∷ [])
      (record { temp = vacant; stash_load = 1 })
      (gather_nodes (2 ^ 1 - 1) 3 8 (one_taken ∷ []) (record { temp = vacant; stash_load = 1 }))
gather_nodes_example =
    gather_nodes_lem 8 1 3 (one_taken ∷ []) (record { temp = vacant; stash_load = 1 })
      (one_taken-IsNode, tt) vacant-IsNode

write_mm_in_client_example :
    PathWritten 65535
      (record { lo = 7; hi = 9 })
      []
      (record new_client { path_mm = replicate (max_pos_map + 1) 0 })
      (write_mm_in_client 65535
        (record { lo = 0; hi = 0 })
        (record { lo = 7; hi = 9 })
        []
        (record new_client { path_mm = replicate (max_pos_map + 1) 0 }))
write_mm_in_client_example =
    write_mm_in_client_words 65535 (record { lo = 0; hi = 0 }) (record { lo = 7; hi = 9 }) []
      (record new_client { path_mm = replicate (max_pos_map + 1) 0 }) (omega arith)
      (omega (arith, length-replicate (max_pos_map + 1) zero))

read_mm_in_client_example :
    read_mm_in_client 65535
      (record { lo = 1; hi = 1 })
      (write_mm_in_client 65535
        (record { lo = 0; hi = 0 })
        (record { lo = 7; hi = 9 })
        []
        (record new_client { path_mm = replicate (max_pos_map + 1) 0 })).client
    ≡ record { lo = 7; hi = 9 }
read_mm_in_client_example =
    read-write_mm_in_client 65535 (record { lo = 0; hi = 0 }) (record { lo = 7; hi = 9 })
      (record { lo = 1; hi = 1 }) [] (record new_client { path_mm = replicate (max_pos_map + 1) 0 })
      (omega arith) (omega (arith, length-replicate (max_pos_map + 1) zero))

init_client_example : (c : Client) × (init_client 2 8 (7 ∷ []) ≡ some c) × IsInitial 8 (7 ∷ []) c
init_client_example = init_client_lem 2 8 (7 ∷ []) (omega arith) (omega arith) refl

path_addrs_example : All (λ x. x < 2 ^ 3) (path_addrs 3 0 5)
path_addrs_example = path_addrs-lt 3 5 (omega arith)

initialize_mem_tree_example :
    (t : MemTree) × (initialize_mem_tree plain_cipher four_each 2 server ≡ some t)
    × IsFresh plain_cipher four_each 2 t
initialize_mem_tree_example =
    initialize_mem_tree_lem plain_cipher four_each four_each-IsLayout 2 server refl

abbrev new_tree : MemTree
new_tree = (initialize_mem_tree_lem plain_cipher four_each four_each-IsLayout 2 server refl).0

new_tree-IsFresh : IsFresh plain_cipher four_each 2 new_tree
new_tree-IsFresh =
    (initialize_mem_tree_lem plain_cipher four_each four_each-IsLayout 2 server refl).2

free_mem_tree_example :
    (free_mem_tree plain_cipher new_tree
      ≡ map block_buffer (buffers_from four_each (2 ^ new_tree.height) 0) ++ node_array ∷ [])
    × Distinct (buffers_from four_each (2 ^ new_tree.height) 0)
free_mem_tree_example =
    free_mem_tree_lem four_each four_each-IsLayout plain_cipher new_tree (λ a h.
      new_tree-IsFresh.homes a (subst (λ (n : ℕ). a < 2 ^ n) new_tree-IsFresh.same_height h))

compute_tree_height_example : IsDigits 5 (compute_tree_height 5)
compute_tree_height_example = compute_tree_height_lem 5 (omega arith)

oblivious_put_to_stash_full_example : oblivious_put_to_stash 8 some_block 0 full_client ≡ none
oblivious_put_to_stash_full_example =
    oblivious_put_to_stash_full 8 0 some_block full_client full_client-IsClient refl

upload_node_example :
    Uploaded plain_cipher 0 one_node server (upload_node plain_cipher zero_block 0 one_node server)
upload_node_example =
    upload_node_lem plain_cipher zero_block 0 one_node server one_node-IsNode (one_node-IsClean)
      (four_each-IsLayout.distinct 0)

evict_path-Placed_example :
    Placed plain_cipher four_each (evict_path plain_cipher 1 3 one_level).server 1
evict_path-Placed_example =
    evict_path-Placed plain_cipher four_each 1 3 one_level four_each-IsLayout (omega arith)
      loaded_client-IsClient (refl, tt) (λ a below. server_IsHome a) server-Placed

decrypt_data_example :
    (e : List ℕ) × (encrypt_data plain_gcm (replicate 12 7) some_bytes 36 ≡ some e)
    × (length e ≡ 36)
    × (decrypt_data plain_gcm e 8 ≡ some some_bytes)
decrypt_data_example =
    decrypt_data-encrypt_data plain_gcm (replicate 12 7) some_bytes refl (omega arith)
