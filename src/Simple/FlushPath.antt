-- ===== src/Simple/FlushPath.antt =====
-- `ecall_client_simple_oram_flush` on the client: the flushed levels and those below them.
use intel_sgx_path_oram.Common.{
  ℕ, ◌-◌, ◌≡◌, refl, List, ◌++◌, length, All, ltb, ◌∙◌, ap, take, drop, take-append, drop-append,
  Bool-cases, inl, inr,
}
use mathlib.Core.List.Perm
use mathlib.Core.Path.{ap₂}
use intel_sgx_path_oram.Node.{Node}
use intel_sgx_path_oram.Node.Shape.{IsNode}
use intel_sgx_path_oram.Client.{Client}
use intel_sgx_path_oram.Client.Stash.{stash_blocks}
use intel_sgx_path_oram.Simple.{flush_levels, simple_oram_flush}
use intel_sgx_path_oram.Simple.SinkBlock.{NodesLie}
use intel_sgx_path_oram.Simple.Flush.{FlushesLevels, flush_levels_lem}

-- The flush of the levels `ns`, with `rest` below them.
pub record ClientFlushes (size rand_path : ℕ) (ns rest : List Node) (c c' : Client) : Type 0 where
  pub flushed : List Node
  pub path : c'.path ≡ flushed ++ rest
  pub levels : FlushesLevels size rand_path 0 ns flushed
  pub same_mm : c'.path_mm ≡ c.path_mm

pub simple_oram_flush_lem :
    (size height rand_path : ℕ) (ns rest : List Node) (c : Client)
    → c.path ≡ ns ++ rest
    → length ns ≡ height
    → All (IsNode size) ns
    → NodesLie rand_path 0 ns
    → ClientFlushes size rand_path ns rest c (simple_oram_flush height size rand_path c)
unfolding simple_oram_flush
simple_oram_flush_lem size height rand_path ns rest c e long shape lie =
    elim (Bool-cases (ltb height 2)) [
      | inl low ↦ rw low record {
        flushed = ns;
        path = e;
        levels = record {
          shape = shape;
          same_addrs = refl;
          contents = Perm.refl (stash_blocks ns);
          lie = lie;
        };
        same_mm = refl;
      }
      | inr high ↦ rw high record {
        flushed = flush_levels (height - 1) size rand_path 0 ns;
        path =
            ap₂ (λ (xs ys : List Node). flush_levels (height - 1) size rand_path 0 xs ++ ys)
              (ap (take height) e ∙ take-append height ns rest long)
              (ap (drop height) e ∙ drop-append height ns rest long);
        levels = flush_levels_lem size rand_path (height - 1) 0 ns shape lie;
        same_mm = refl;
      }
    ]
