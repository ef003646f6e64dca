-- ===== src/Tests/Nodes.antt =====
-- Runs of the oblivious primitives and of the operations on one node.
use intel_sgx_path_oram.Common.{◌≡◌, refl, [], ◌∷◌, arith, true, false, ◌==◌, if◌then◌else◌}
use intel_sgx_path_oram.Oblivious.{ocopy, oblivious_pick_and_swap_32, load64, store64}
use intel_sgx_path_oram.Oblivious.Copy.{ocopy_lem}
use intel_sgx_path_oram.Oblivious.Pick.{oblivious_pick_and_swap_32_lem}
use intel_sgx_path_oram.Node.{node_read, node_write, node_transfer}
use intel_sgx_path_oram.Node.Read.{Taken, node_read_lem}
use intel_sgx_path_oram.Node.Write.{Added, node_write-Added, node_write_refused}
use intel_sgx_path_oram.Node.Transfer.{node_transfer-Added}
use intel_sgx_path_oram.Tests.Ciphers.{zeros-IsBuffer}
use intel_sgx_path_oram.Tests.Inputs.{
  zero_block, some_bytes, some_block, some_block-IsBlock, one_taken, one_taken-IsNode, all_taken,
  all_taken-IsNode,
}

ocopy_example : ocopy 7 some_bytes zero_block 1 ≡ (if 7 == 0 then zero_block else some_bytes)
ocopy_example = ocopy_lem 7 1 some_bytes zero_block (omega arith) refl refl

-- The swap at index 1 also writes the word at index 2.
pick_and_swap_example :
    oblivious_pick_and_swap_32 1
      (record { lo = 0; hi = 0 })
      (10 ∷ 20 ∷ 30 ∷ [])
      (record { lo = 7; hi = 8 })
      3
    ≡ record {
      src = store64 (10 ∷ 20 ∷ 30 ∷ []) 1 (record { lo = 7; hi = 8 });
      dest = load64 (10 ∷ 20 ∷ 30 ∷ []) 1;
    }
pick_and_swap_example =
    oblivious_pick_and_swap_32_lem 1 3 (record { lo = 0; hi = 0 }) (10 ∷ 20 ∷ 30 ∷ [])
      (record { lo = 7; hi = 8 }) (omega arith)

node_read_example : Taken 8 1 one_taken zero_block (node_read one_taken 1 8 zero_block 0)
node_read_example = node_read_lem 8 1 0 one_taken zero_block one_taken-IsNode zeros-IsBuffer

node_write-Added_example :
    Added 8 one_taken some_block (node_write one_taken 0 some_block 8).node
    × ((node_write one_taken 0 some_block 8).succ ≡ true)
node_write-Added_example =
    node_write-Added 8 0 one_taken some_block one_taken-IsNode some_block-IsBlock refl

node_write_refused_example :
    node_write all_taken 0 some_block 8 ≡ record { node = all_taken; ptr = 0; succ = false }
node_write_refused_example = node_write_refused 8 0 all_taken some_block all_taken-IsNode refl

node_transfer-Added_example :
    Added 8 one_taken some_block (node_transfer one_taken 0 some_block true 8)
node_transfer-Added_example =
    node_transfer-Added 8 0 one_taken some_block one_taken-IsNode some_block-IsBlock
      (λ e. omega arith) (omega arith)
