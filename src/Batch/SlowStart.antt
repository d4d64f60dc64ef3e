-- ===== src/Batch/SlowStart.antt =====
-- What `SlowStartBatch` promises of the calls it makes, whatever order the goroutines run in.
use mathlib.Core.List.{Perm}
use mathlib.Core.List.Perm
use slurm_operator.Prelude.{
  ℕ, zero, suc, ◌+◌, ◌-◌, ◌*◌, ◌≤◌, ◌<◌, min, ◌≡◌, refl, sym, ◌∙◌, ap, subst, List, [], ◌∷◌, ◌++◌,
  Option, none, some, arith, length, inl, inr, List-cases, length-perm,
}
use native.Mathlib.Nat.{zero-add, add-zero}
use slurm_operator.Batch.{indexes, send, first, run_calls, batch_loop, slow_start_batch}

-- The calls are those of the first `attempted` indexes, each once, run as `calls`; the state is
-- what they leave, the count is that of the calls without an error, and the error is the first.
-- Without an error all of `count` is attempted, and the calls that were risked are at most the
-- ones that succeeded, again, and the initial batch.
pub record Ran {S E : Type 0} (fn : ℕ → S → Option E × S) (count initial index base : ℕ) (s : S)
    (r : ℕ × Option E × S) : Type 0 where
  pub attempted : ℕ
  pub calls : List ℕ
  pub are_prefix : Perm calls (indexes index attempted)
  pub within : attempted ≤ count
  pub final_state : r.2 ≡ (run_calls fn calls s).1
  pub counted : r.0 + length (run_calls fn calls s).0 ≡ base + attempted
  pub reported : r.1 ≡ first {E = E} (run_calls fn calls s).0
  pub complete : r.1 ≡ none → attempted ≡ count
  pub slow : base + attempted ≤ 2 * r.0 + initial

indexes-add : (i m n : ℕ) → indexes i (m + n) ≡ indexes i m ++ indexes (i + m) n
indexes-add i zero n = rw (zero-add, add-zero)
indexes-add i (suc m) n =
    let e : suc m + n ≡ suc (m + n) = omega arith in
    let e' : i + suc m ≡ suc i + m = omega arith in
    rw (e, e') (ap (◌∷◌ i) (indexes-add (suc i) m n))

length-indexes : (i n : ℕ) → length (indexes i n) ≡ n
length-indexes i zero = refl
length-indexes i (suc n) = ap suc (length-indexes (suc i) n)

send-append : {E : Type 0} (r : Option E) (xs ys : List E) → send r (xs ++ ys) ≡ send r xs ++ ys
send-append none xs ys = refl
send-append (some e) xs ys = refl

module _ {S E : Type 0} (fn : ℕ → S → Option E × S) where
  run_calls-append :
      (xs ys : List ℕ) (s : S)
      → let mid = run_calls fn xs s in
        let end = run_calls fn ys mid.1 in run_calls fn (xs ++ ys) s ≡ (mid.0 ++ end.0, end.1)
  unfolding run_calls
  run_calls-append [] ys s = refl
  run_calls-append (x ∷ xs) ys s =
      rw (run_calls-append xs ys (fn x s).1, ← send-append (fn x s).0) refl

  length-errors-le : (xs : List ℕ) (s : S) → length (run_calls fn xs s).0 ≤ length xs
  unfolding run_calls
  length-errors-le [] s = omega arith
  length-errors-le (x ∷ xs) s = ground (arith, length-errors-le xs (fn x s).1)

  -- A batch without an error, and then the rest of the loop.
  Ran-after :
      (b remaining initial index base base' : ℕ) (s : S) (r : ℕ × Option E × S) (is : List ℕ)
      → base' ≡ base + b
      → Perm is (indexes index b)
      → b ≤ remaining
      → (run_calls fn is s).0 ≡ []
      → Ran fn (remaining - b) initial (index + b) base' (run_calls fn is s).1 r
      → Ran fn remaining initial index base s r
  Ran-after b remaining initial index base base' s r is new p le ok rest = record {
    attempted = b + rest.attempted;
    calls = is ++ rest.calls;
    are_prefix = rw (indexes-add index b rest.attempted) (Perm.append p rest.are_prefix);
    within = omega arith;
    final_state = rest.final_state ∙ sym (ap (λ t. t.1) both);
    counted = rw (both, ok) (omega (arith, rest.counted));
    reported = rw (both, ok) rest.reported;
    complete = λ e. omega (arith, rest.complete e);
    slow = omega (arith, rest.slow);
  }
    where
      both : run_calls fn (is ++ rest.calls) s ≡ (
        (run_calls fn is s).0 ++ (run_calls fn rest.calls (run_calls fn is s).1).0,
        (run_calls fn rest.calls (run_calls fn is s).1).1,
      )
      both = run_calls-append is rest.calls s

  -- A batch with an error ends the loop.
  Ran-failed :
      (b remaining initial index base n : ℕ) (s : S) (e : E) (errs : List E) (is : List ℕ)
      → Perm is (indexes index b)
      → b ≤ remaining
      → b ≤ base + initial
      → length is ≡ b
      → (run_calls fn is s).0 ≡ e ∷ errs
      → n ≡ base + (b - length (e ∷ errs))
      → Ran fn remaining initial index base s (n, some e, (run_calls fn is s).1)
  Ran-failed b remaining initial index base n s e errs is p le small len bad new = record {
    attempted = b;
    calls = is;
    are_prefix = p;
    within = le;
    final_state = refl;
    counted = rw bad (omega (arith, bound));
    reported = rw bad refl;
    complete = λ h. absurd (cc);
    slow = omega arith;
  }
    where
      bound : length (e ∷ errs) ≤ b
      bound = subst (λ (l : List E). length l ≤ b) bad (omega (arith, length-errors-le is s))

  Ran-done : (initial index base : ℕ) (s : S) → Ran fn 0 initial index base s (base, none, s)
  unfolding run_calls
  Ran-done initial index base s = record {
    attempted = 0;
    calls = [];
    are_prefix = Perm.nil;
    within = omega arith;
    final_state = refl;
    counted = omega arith;
    reported = refl;
    complete = λ h. refl;
    slow = omega arith;
  }

  module _ (order : List ℕ → List ℕ) (perm : (is : List ℕ) → Perm (order is) is) where
    length-order : (index b : ℕ) → length (order (indexes index b)) ≡ b
    length-order index b = length-perm (perm (indexes index b)) ∙ length-indexes index b

    batch_loop-Ran :
        (fuel b remaining initial index base : ℕ) (s : S)
        → remaining ≤ fuel
        → b ≤ remaining
        → (b ≡ 0 → remaining ≡ 0)
        → b ≤ base + initial
        → Ran fn remaining initial index base s (batch_loop fn order fuel b remaining base index s)
    unfolding batch_loop
    batch_loop-Ran zero b remaining initial index base s enough le live small =
        let e : remaining ≡ 0 = omega arith in rw e (Ran-done initial index base s)
    batch_loop-Ran (suc fuel) zero remaining initial index base s enough le live small =
        rw (live refl) (Ran-done initial index base s)
    batch_loop-Ran (suc fuel) (suc b) remaining initial index base s enough le live small =
        elim (List-cases (run_calls fn is s).0) [
          | inl ok ↦
              rw (ok, batch_loop)
                (Ran-after (suc b) remaining initial index base (base + (suc b - errors)) s _ is
                  (rw ok (omega arith)) (perm _) le ok
                  (batch_loop-Ran fuel (min (2 * suc b) (remaining - suc b)) (remaining - suc b)
                    initial (index + suc b) (base + (suc b - errors)) _ (omega arith) (omega arith)
                    (λ h. omega arith) (rw ok (omega arith))))
          | inr (e, errs, bad) ↦
              rw (bad, batch_loop)
                (Ran-failed (suc b) remaining initial index base (base + (suc b - errors)) s e errs
                  is (perm _) le small (length-order index (suc b)) bad (rw bad refl))
        ]
      where
        is : List ℕ
        is = order (indexes index (suc b))

        errors : ℕ
        errors = length (run_calls fn is s).0

    -- Whatever the scheduler does, `SlowStartBatch` with a positive initial batch calls each of a
    -- prefix of the indexes once and reports the calls' outcome; without an error all are called.
    pub slow_start_batch-Ran :
        (count initial : ℕ) (s : S)
        → 0 < initial
        → Ran fn count initial 0 0 s (slow_start_batch fn order count initial s)
    unfolding slow_start_batch
    slow_start_batch-Ran count initial s h =
        batch_loop-Ran count (min count initial) count initial 0 0 s (omega arith) (omega arith)
          (λ e. omega arith) (omega arith)
