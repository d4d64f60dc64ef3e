-- ===== src/NodeSetSync/Scale/Safe.antt =====
-- Scaling deletes only pods whose Slurm node is drained, or that have ended.
use slurm_operator.Prelude.{
  ℕ, zero, suc, ◌-◌, Bool, true, false, ◌||◌, ◌≡◌, refl, ap, List, [], ◌∷◌, Option, none, some,
  length, take, Bool-cases, inl, inr,
}
use slurm_operator.Api.{Error, Result, ok, err, Pod}
use slurm_operator.PodUtils.{is_terminating, is_failed, is_succeeded}
use slurm_operator.Effects.{
  Trace, Env, M, pvcs_match_policy, expect_deletions, raise_expectations, set_expectations,
}
use slurm_operator.Effects.Adds.{same, add, Adds-trans, Makes-bind}
use slurm_operator.Batch.{slow_start_batch, send}
use slurm_operator.SlurmControl.{is_node_drained}
use slurm_operator.NodeSetSync.Fresh.{pods_now}
use slurm_operator.NodeSetSync.Cordon.{at_item, refresh, query, concat, k_obj, sync_pod_uncordon}
use slurm_operator.NodeSetSync.Cordon.Calls.{SafeCall, FoundDrained}
use slurm_operator.NodeSetSync.Cordon.Safe.{
  Safe, is_node_drained-Safe, make_pod_cordon_and_drain-Safe, sync_pod_uncordon-Safe,
}
use slurm_operator.NodeSetSync.Cordon.Batches.{slow_start_batch-Adds}
use slurm_operator.NodeSetSync.Scale.{
  in_burst, observe_skipped, on_error, delete_or_drain, unless_terminating, process_condemned,
  after_condemned, delete_pod_fn, create_pod_fn, update_unless, fix_pod_pvcs_fn,
  process_node_set_pod, delete_stage, create_stage, get_pod_keys, uncordon_stage, do_pod_scale,
  process_stage, do_pod_processing,
}

module _ (env : Env) where
  delete_or_drain-Safe :
      (pod : Pod) (b : Bool) (tr : Trace)
      → (b ≡ true → FoundDrained env pod tr)
      → Safe env tr (delete_or_drain env pod b tr).1
  unfolding delete_or_drain SafeCall
  delete_or_drain-Safe pod true tr drained = add same (inl (drained refl))
  delete_or_drain-Safe pod false tr drained = Adds-trans (add (add same tt) tt) (
      make_pod_cordon_and_drain-Safe env pod
        (concat ("Pod (" ∷ k_obj pod ∷ ") was cordoned pending termination" ∷ [])) _)

  unless_terminating-Safe : (pod : Pod) (tr : Trace) → Safe env tr (unless_terminating env pod tr).1
  unfolding unless_terminating
  unless_terminating-Safe pod tr = elim (Bool-cases (is_terminating pod)) [
    | inl e ↦ rw e same
    | inr e ↦ rw e (
        Makes-bind (SafeCall env) (is_node_drained env pod) (delete_or_drain env pod) tr
          (is_node_drained-Safe env pod tr)
          (λ b h. delete_or_drain-Safe pod b _ (λ e'. found b h e')))
  ]
    where
      found :
          (b : Bool)
          → (is_node_drained env pod tr).0 ≡ ok b
          → b ≡ true
          → FoundDrained env pod (is_node_drained env pod tr).1
      found true h e = record {
        asked_at = tr;
        answer = ap (λ r. (r, (is_node_drained env pod tr).1)) h;
      }
      found false h e = absurd (cc)

  pub process_condemned-Safe :
      (pod : Pod) (tr : Trace) → Safe env tr (process_condemned env pod tr).1
  unfolding process_condemned SafeCall
  process_condemned-Safe pod tr =
      Makes-bind (SafeCall env) (refresh env pod) (unless_terminating env) tr (add same tt)
        (λ pod' e. unless_terminating-Safe pod' _)

  after_condemned-Safe :
      (pod : Pod) (r : Result (Unit {0})) (tr : Trace)
      → Safe env tr (after_condemned env pod r tr).1
  unfolding SafeCall
  after_condemned-Safe pod (ok a) tr = same
  after_condemned-Safe pod (err e) tr = add same tt

  delete_pod_fn-Safe : (pod : Pod) (tr : Trace) → Safe env tr (delete_pod_fn env pod tr).1
  unfolding delete_pod_fn
  delete_pod_fn-Safe pod tr =
      Adds-trans (process_condemned-Safe pod tr) (after_condemned-Safe pod _ _)

  create_pod_fn-Safe : (pod : Pod) (tr : Trace) → Safe env tr (create_pod_fn env pod tr).1
  unfolding create_pod_fn SafeCall
  create_pod_fn-Safe pod tr = add same tt

  update_unless-Safe :
      (pod : Pod) (b : Bool) (tr : Trace) → Safe env tr (update_unless env pod b tr).1
  unfolding update_unless SafeCall
  update_unless-Safe pod true tr = same
  update_unless-Safe pod false tr = add same tt

  fix_pod_pvcs_fn-Safe : (pod : Pod) (tr : Trace) → Safe env tr (fix_pod_pvcs_fn env pod tr).1
  unfolding fix_pod_pvcs_fn SafeCall
  fix_pod_pvcs_fn-Safe pod tr =
      Makes-bind (SafeCall env) (query (pvcs_match_policy pod) (λ t. env.pvcs_match t pod))
        (update_unless env pod) tr (add same tt) (λ b e. update_unless-Safe pod b _)

  process_node_set_pod-Safe :
      (pod : Pod) (tr : Trace) → Safe env tr (process_node_set_pod env pod tr).1
  unfolding process_node_set_pod SafeCall
  process_node_set_pod-Safe pod tr = elim (Bool-cases (is_failed pod || is_succeeded pod)) [
    | inr e ↦ rw e (add same tt)
    | inl e ↦ elim (Bool-cases (is_terminating pod)) [
      | inl t ↦ rw (e, t) same
      | inr t ↦ rw (e, t) (add same (inr e))
    ]
  ]

  observe_skipped-Safe : (n : ℕ) (tr : Trace) → Safe env tr (observe_skipped n tr)
  unfolding observe_skipped SafeCall
  observe_skipped-Safe zero tr = same
  observe_skipped-Safe (suc n) tr = Adds-trans (add same tt) (observe_skipped-Safe n _)

  on_error-Safe :
      (e : Option Error) (start tr : Trace) (k : Trace → List Error × Trace)
      → Safe env start tr
      → Safe env tr (k tr).1
      → Safe env start (on_error e tr k).1
  on_error-Safe none start tr k p q = Adds-trans p q
  on_error-Safe (some e) start tr k p q = p

  module _ (orders : ℕ → List ℕ → List ℕ) (initial : ℕ) where
    batch-Safe :
        (n count : ℕ) (pods : List Pod) (body : Pod → M (Unit {0})) (tr : Trace)
        → ((pod : Pod) (t : Trace) → Safe env t (body pod t).1)
        → Safe env tr (slow_start_batch (at_item pods body) (orders n) count initial tr).2
    batch-Safe n count pods body tr h =
        slow_start_batch-Adds (SafeCall env) pods body (orders n) count initial tr h

    delete_stage-Safe :
        (del : List Pod) (errs : List Error) (tr : Trace)
        → Safe env tr (delete_stage env orders initial del errs tr).1
    unfolding delete_stage
    delete_stage-Safe del errs tr =
        Adds-trans (batch-Safe 2 (length del) del (fix_pod_pvcs_fn env) tr fix_pod_pvcs_fn-Safe)
          (batch-Safe 3 (in_burst del) del (delete_pod_fn env) _ delete_pod_fn-Safe)

    create_stage-Safe :
        (del create : List Pod) (tr : Trace)
        → Safe env tr (create_stage env orders initial del create tr).1
    unfolding create_stage
    create_stage-Safe del create tr =
        let r =
          slow_start_batch (at_item create (create_pod_fn env)) (orders 1) (in_burst create) initial
            tr in
        Adds-trans (batch-Safe 1 (in_burst create) create (create_pod_fn env) tr create_pod_fn-Safe)
          (Adds-trans (observe_skipped-Safe (in_burst create - r.0) r.2)
            (delete_stage-Safe del (send r.1 []) (observe_skipped (in_burst create - r.0) r.2)))

    uncordon_stage-Safe :
        (keep del create : List Pod) (tr : Trace)
        → Safe env tr (uncordon_stage env orders initial keep del create tr).1
    unfolding uncordon_stage SafeCall
    uncordon_stage-Safe keep del create tr =
        let raised = raise_expectations (in_burst create) 0 ∷ tr in
        let r =
          slow_start_batch (at_item keep (sync_pod_uncordon env)) (orders 0) (length keep) initial
            raised in
        Adds-trans (raised_by (in_burst create) tr) (
          on_error-Safe r.1 raised r.2
            (create_stage env orders initial (pods_now env tr r.2 del) create)
            (batch-Safe 0 (length keep) keep (sync_pod_uncordon env) raised
              (sync_pod_uncordon-Safe env))
            (create_stage-Safe (pods_now env tr r.2 del) create r.2))
      where
        raised_by : (n : ℕ) (t : Trace) → Safe env t (raise_expectations n 0 ∷ t)
        raised_by n t = add same tt

    -- Whatever the cluster answers and in whatever order the pods of a batch are handled, a pass of
    -- `doPodScale` deletes a pod only if it has failed or succeeded or `IsNodeDrained` has just
    -- answered true for it, and undrains only after the Kubernetes node was read as not cordoned
    -- and then the Slurm node's reason as the operator's.
    pub do_pod_scale-Safe :
        (keep del create : List Pod) (tr : Trace)
        → Safe env tr (do_pod_scale env orders initial keep del create tr).1
    unfolding do_pod_scale SafeCall
    do_pod_scale-Safe keep del create tr =
        let keys = get_pod_keys (take (in_burst del) del) in
        on_error-Safe (env.expect tr keys) tr (expect_deletions keys ∷ tr)
          (uncordon_stage env orders initial keep del create) (add same tt)
          (uncordon_stage-Safe keep del create (expect_deletions keys ∷ tr))

    -- A pass of `doPodProcessing` also deletes a pod only if it has failed or succeeded or
    -- `IsNodeDrained` has just answered true for it, and undrains only after the Kubernetes node
    -- was read as not cordoned and then the Slurm node's reason as the operator's.
    pub do_pod_processing-Safe :
        (pods keep del : List Pod) (tr : Trace)
        → Safe env tr (do_pod_processing env orders initial pods keep del tr).1
    unfolding do_pod_processing process_stage SafeCall
    do_pod_processing-Safe pods keep del tr =
        on_error-Safe (env.reset_expectations tr) tr (set_expectations 0 0 ∷ tr)
          (process_stage env orders initial pods keep del) (add same tt)
          (Adds-trans
            (batch-Safe 0 (length keep) keep (sync_pod_uncordon env) _ (sync_pod_uncordon-Safe env))
            (Adds-trans (batch-Safe 1 (length del) _ (delete_pod_fn env) _ delete_pod_fn-Safe) (
              batch-Safe 2 (length pods) _ (process_node_set_pod env) _ process_node_set_pod-Safe)))
