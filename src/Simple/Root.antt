-- ===== src/Simple/Root.antt =====
-- `ecall_oblivious_put_to_root`: its two branches.
use intel_sgx_path_oram.Common.{ℕ, ◌≡◌, refl, true, false, ltb, some, none, set}
use intel_sgx_path_oram.Node.{Block, blocks_per_node}
use intel_sgx_path_oram.Client.{Client}
use intel_sgx_path_oram.Simple.{TreeStore, PlainWrite, plain_node_write, oblivious_put_to_root}

module _ {S : Type 0} (store : TreeStore S) (size : ℕ) (b : Block) (c : Client) (server : S) where
  open store use {load_node, save_node}

  abbrev pub root_write : PlainWrite
  root_write = plain_node_write (load_node server 0) b size

  pub oblivious_put_to_root_runs :
      ltb (load_node server 0).num_blocks blocks_per_node ≡ true
      → root_write.succ ≡ true
      → oblivious_put_to_root store size b c server
        ≡ some (record {
          client = record c { path = set c.path 0 root_write.node };
          server = save_node 0 root_write.node server;
          root_load = root_write.node.num_blocks;
        })
  unfolding oblivious_put_to_root
  oblivious_put_to_root_runs free stored = rw (free, stored) refl

  pub oblivious_put_to_root_full :
      ltb (load_node server 0).num_blocks blocks_per_node ≡ false
      → oblivious_put_to_root store size b c server ≡ none
  unfolding oblivious_put_to_root
  oblivious_put_to_root_full full = rw full refl
