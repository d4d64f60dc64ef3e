-- ===== src/NodeSetSync/Cordon/Batches.antt =====
-- What each call of a batch keeps to, the whole batch keeps to, whatever the scheduler does.
use slurm_operator.Prelude.{ℕ, List, get_elem?, Option-cases, inl, inr}
use slurm_operator.Batch.{slow_start_batch}
use slurm_operator.Batch.Invariant.{slow_start_batch-Keeps}
use slurm_operator.Effects.{Call, Trace, M}
use slurm_operator.Effects.Adds.{Adds, same, Adds-trans, Makes}
use slurm_operator.NodeSetSync.Cordon.{at_item}

module _ {A : Type 0} (P : Call → Trace → Type 0) where
  at_item-Adds :
      (items : List A) (body : A → M (Unit {0}))
      → ((item : A) → Makes P (body item))
      → (i : ℕ) (tr : Trace) → Adds P tr (at_item items body i tr).1
  unfolding at_item
  at_item-Adds items body h i tr = elim (Option-cases (get_elem? items i)) [
    | inl e ↦ rw (at_item, e) same
    | inr (item, e) ↦ rw (at_item, e) (h item tr)
  ]

  pub slow_start_batch-Adds :
      (items : List A) (body : A → M (Unit {0})) (order : List ℕ → List ℕ) (count initial : ℕ)
      (tr : Trace)
      → ((item : A) → Makes P (body item))
      → Adds P tr (slow_start_batch (at_item items body) order count initial tr).2
  slow_start_batch-Adds items body order count initial tr h =
      slow_start_batch-Keeps (Adds P) (λ t. same) (λ a b c. Adds-trans) (at_item items body)
        (at_item-Adds items body h) order count initial tr
