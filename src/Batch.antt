-- ===== src/Batch.antt =====
-- internal/utils/tools.go: `SlowStartBatch`. The calls of one batch run as goroutines; `order`
-- stands for the Go scheduler, which runs each of them once, in an order of its choice, and each
-- call is one step on the state that the calls share. A result of type `Option E` is a Go error,
-- `none` for nil. Counts are lengths of slices, so they are natural numbers.
pub mod SlowStart
pub mod Invariant
mod Examples
use slurm_operator.Prelude.{
  ℕ, zero, suc, ◌+◌, ◌-◌, ◌*◌, min, List, [], ◌∷◌, Option, none, some, length,
}

-- The indexes that the goroutines of a batch of `n` are started with.
abbrev pub indexes : ℕ → ℕ → List ℕ
indexes i zero = []
indexes i (suc n) = i ∷ indexes (suc i) n

-- What a call sends on `errCh`.
abbrev pub send : {E : Type 0} → Option E → List E → List E
send none errs = errs
send (some e) errs = e ∷ errs

-- The receive from `errCh` after the batch.
abbrev pub first : {E : Type 0} → List E → Option E
first [] = none
first (e ∷ errs) = some e

module _ {S E : Type 0} where
  module _ (fn : ℕ → S → Option E × S) where
    -- The calls in the order in which they run: the contents of `errCh`, and the state.
    pub run_calls : List ℕ → S → List E × S
    run_calls [] s = ([], s)
    run_calls (i ∷ is) s =
        let (res, s') = fn i s in let (errs, s'') = run_calls is s' in (send res errs, s'')

    module _ (order : List ℕ → List ℕ) where
      -- The loop, with fuel: a round takes at least one from `remaining`.
      pub batch_loop : ℕ → ℕ → ℕ → ℕ → ℕ → S → ℕ × Option E × S
      batch_loop zero batch_size remaining successes index s = (successes, none, s)
      batch_loop (suc fuel) zero remaining successes index s = (successes, none, s)
      batch_loop (suc fuel) (suc b) remaining successes index s =
          let (errs, s') = run_calls (order (indexes index (suc b))) s in
          let successes' = successes + (suc b - length errs) in
          let remaining' = remaining - suc b in
          elim errs [
            | [] ↦
                batch_loop fuel (min (2 * suc b) remaining') remaining' successes' (index + suc b)
                  s'
            | e ∷ _ ↦ (successes', some e, s')
          ]

      unfoldable pub slow_start_batch : ℕ → ℕ → S → ℕ × Option E × S
      unfolding batch_loop run_calls
      slow_start_batch count initial_batch_size s =
          batch_loop count (min count initial_batch_size) count 0 0 s
