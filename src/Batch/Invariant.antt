-- ===== src/Batch/Invariant.antt =====
-- What each call keeps to, `SlowStartBatch` keeps to, in whatever order the calls run.
use slurm_operator.Prelude.{
  ℕ, zero, suc, ◌-◌, ◌*◌, min, List, [], ◌∷◌, Option, List-cases, inl, inr,
}
use slurm_operator.Batch.{run_calls, batch_loop, slow_start_batch, indexes}

module _ {S E : Type 0} (R : S → S → Type 0) (at_once : (s : S) → R s s)
    (join : (a b c : S) → R a b → R b c → R a c) (fn : ℕ → S → Option E × S)
    (h : (i : ℕ) (s : S) → R s (fn i s).1) where
  run_calls-Keeps : (is : List ℕ) (s : S) → R s (run_calls fn is s).1
  unfolding run_calls
  run_calls-Keeps [] s = at_once s
  run_calls-Keeps (i ∷ is) s = join _ _ _ (h i s) (run_calls-Keeps is (fn i s).1)

  batch_loop-Keeps :
      (order : List ℕ → List ℕ) (fuel b remaining successes index : ℕ) (s : S)
      → R s (batch_loop fn order fuel b remaining successes index s).2
  unfolding batch_loop
  batch_loop-Keeps order zero b remaining successes index s = at_once s
  batch_loop-Keeps order (suc fuel) zero remaining successes index s = at_once s
  batch_loop-Keeps order (suc fuel) (suc b) remaining successes index s =
      let is = order (indexes index (suc b)) in
      elim (List-cases (run_calls fn is s).0) [
        | inl ok ↦
            rw (batch_loop, ok)
              (join _ _ _ (run_calls-Keeps is s)
                (batch_loop-Keeps order fuel (min (2 * suc b) (remaining - suc b)) _ _ _ _))
        | inr (e, errs, bad) ↦ rw (batch_loop, bad) (run_calls-Keeps is s)
      ]

  pub slow_start_batch-Keeps :
      (order : List ℕ → List ℕ) (count initial : ℕ) (s : S)
      → R s (slow_start_batch fn order count initial s).2
  unfolding slow_start_batch
  slow_start_batch-Keeps order count initial s =
      batch_loop-Keeps order count (min count initial) count 0 0 s
