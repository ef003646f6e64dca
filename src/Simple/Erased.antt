-- ===== src/Simple/Erased.antt =====
-- A fetch and where the blocks of a path lie.
use intel_sgx_path_oram.Client.Rows.{node_rows, erased_rows}
use intel_sgx_path_oram.Common.{
  ℕ, ◌+◌, ◌≡◌, List, [], ◌∷◌, arith, ◌==◌, length, All, Bool-cases, inl, inr, ap, drop, get_or, sym,
}
use mathlib.Core.Path.{subst}
use intel_sgx_path_oram.Node.{Node, Block}
use intel_sgx_path_oram.Node.Shape.{blocks}
use intel_sgx_path_oram.Node.Keys.{erase_key}
use intel_sgx_path_oram.Client.EvictSlots.{Along}
use intel_sgx_path_oram.Simple.SinkBlock.{NodesLie}

pub All-erase_key {κ} :
    (P : Block → Type κ) (k : ℕ) (bs : List Block) → All P bs → All P (erase_key k bs)
All-erase_key P k [] h = tt
All-erase_key P k (b ∷ bs) h = elim (Bool-cases (b.key == k)) [
  | inl e ↦ rw e (All-erase_key P k bs h.1)
  | inr e ↦ rw e (h.0, All-erase_key P k bs h.1)
]

pub NodesLie-rows :
    (k rand_path h : ℕ) (ns ns' : List Node)
    → node_rows ns' ≡ erased_rows k ns
    → NodesLie rand_path h ns
    → NodesLie rand_path h ns'
NodesLie-rows k rand_path h [] [] e lie = tt
NodesLie-rows k rand_path h [] (n ∷ ns') e lie = absurd (omega (arith, ap length e))
NodesLie-rows k rand_path h (n ∷ ns) [] e lie = tt
NodesLie-rows k rand_path h (n ∷ ns) (n' ∷ ns') e lie = (
  subst (All (Along h rand_path)) (sym (ap (λ (l : List (List Block)). get_or l 0 []) e))
      (All-erase_key (Along h rand_path) k (blocks n.slots) lie.0),
  NodesLie-rows k rand_path (h + 1) ns ns' (ap (λ (l : List (List Block)). drop 1 l) e) lie.1,
)
