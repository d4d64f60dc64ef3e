-- ===== src/Batch/Examples.antt =====
-- Runs of `SlowStartBatch` on small inputs, with a scheduler that runs each batch backwards.
use mathlib.Core.List.{reverse, reverse_perm}
use slurm_operator.Prelude.{
  ℕ, ◌≡◌, refl, List, [], ◌∷◌, Option, none, some, arith, ◌==◌, if◌then◌else◌,
}
use slurm_operator.Batch.{slow_start_batch}
use slurm_operator.Batch.SlowStart.{Ran, slow_start_batch-Ran}

-- A call that records its index and fails at one of them.
abbrev failing_at : ℕ → ℕ → List ℕ → Option ℕ × List ℕ
failing_at bad i log = (if i == bad then some i else none, i ∷ log)

-- Batches 0, then 2 1: the second fails, and the rest is skipped.
stops_after_failure : slow_start_batch (failing_at 2) reverse 9 1 [] ≡ (2, some 2, 1 ∷ 2 ∷ 0 ∷ [])
unfolding slow_start_batch
stops_after_failure = refl

runs_all : slow_start_batch (failing_at 9) reverse 4 1 [] ≡ (4, none, 3 ∷ 1 ∷ 2 ∷ 0 ∷ [])
unfolding slow_start_batch
runs_all = refl

slow_start_batch-Ran_example :
    Ran (failing_at 2) 9 1 0 0 [] (slow_start_batch (failing_at 2) reverse 9 1 [])
slow_start_batch-Ran_example =
    slow_start_batch-Ran (failing_at 2) reverse reverse_perm 9 1 [] (omega arith)
