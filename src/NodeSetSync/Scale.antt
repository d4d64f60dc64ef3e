-- ===== src/NodeSetSync/Scale.antt =====
-- internal/controller/nodeset/nodeset_sync.go: creating and deleting the pods of a NodeSet.
-- `utilerrors.NewAggregate` of no errors is nil, so an aggregate is the list of its errors; an
-- error that is returned at once is a list of one. Each batch has a scheduler of its own.
pub mod Safe
use Prim.Native.String
use slurm_operator.Prelude.{
  ℕ, zero, suc, ◌+◌, ◌-◌, String, Bool, true, false, not, ◌||◌, List, [], ◌∷◌, ◌++◌, Option, none,
  some, length, map, take, if◌then◌else◌,
}
use slurm_operator.Prelude.Int.{pos, pos_part}
use slurm_operator.Api.{Error, namespace_terminating, Result, ok, err, is_not_found, Pod}
use slurm_operator.PodUtils.{is_terminating, is_failed, is_succeeded}
use slurm_operator.MathUtils.{clamp}
use slurm_operator.Batch.{slow_start_batch, send}
use slurm_operator.Effects.{
  Trace, Env, M, pure, ◌>>=◌, as_result, create_pod, delete_pod, update_pod, pvcs_match_policy,
  update_pod_pvcs, expect_deletions, raise_expectations, set_expectations, creation_observed,
  deletion_observed, push_duration,
}
use slurm_operator.SlurmControl.{is_node_drained}
use slurm_operator.NodeSetSync.Fresh.{pods_now}
use slurm_operator.NodeSetSync.Cordon.{
  at_item, concat, k_obj, query, refresh, make_pod_cordon_and_drain, sync_pod_uncordon,
}

abbrev pub burst_replicas : ℕ
burst_replicas = 250

-- `kubecontroller.PodKey`.
abbrev pub pod_key : Pod → String
pod_key pod = concat (pod.namespace ∷ "/" ∷ pod.name ∷ [])

unfoldable pub get_pod_keys : List Pod → List String
get_pod_keys pods = map pod_key pods

-- How many of the pods are handled in one pass.
unfoldable pub in_burst : List Pod → ℕ
unfolding clamp
in_burst pods = pos_part (clamp (pos (length pods)) (pos 0) (pos burst_replicas))

-- `for range skippedPods`.
unfoldable pub observe_skipped : ℕ → Trace → Trace
observe_skipped zero tr = tr
observe_skipped (suc n) tr = observe_skipped n (creation_observed ∷ tr)

abbrev pub ignore_not_found : Option Error → Result (Unit {0})
ignore_not_found none = ok tt
ignore_not_found (some e) = if is_not_found e then ok tt else err e

abbrev pub ignore_terminating : Option Error → Result (Unit {0})
ignore_terminating none = ok tt
ignore_terminating (some namespace_terminating) = ok tt
ignore_terminating (some e) = err e

-- A step that ends the function with its error.
abbrev pub on_error : Option Error → Trace → (Trace → List Error × Trace) → List Error × Trace
on_error none tr k = k tr
on_error (some e) tr k = (e ∷ [], tr)

module _ (env : Env) where
  -- The rest of `processCondemned` once it knows whether the Slurm node is drained.
  unfoldable pub delete_or_drain : Pod → Bool → M (Unit {0})
  unfolding make_pod_cordon_and_drain
  delete_or_drain pod true tr = (ignore_not_found (env.delete tr pod), delete_pod pod ∷ tr)
  delete_or_drain pod false tr =
      make_pod_cordon_and_drain env pod
        (concat ("Pod (" ∷ k_obj pod ∷ ") was cordoned pending termination" ∷ []))
        (deletion_observed (pod_key pod) ∷ push_duration 30000000000 ∷ tr)

  unfoldable pub unless_terminating : Pod → M (Unit {0})
  unfolding is_node_drained delete_or_drain
  unless_terminating pod =
      if is_terminating pod then pure tt else (is_node_drained env pod >>= delete_or_drain pod)

  unfoldable pub process_condemned : Pod → M (Unit {0})
  unfolding unless_terminating
  process_condemned pod = refresh env pod >>= unless_terminating

  -- What `deletePodFn` makes of the outcome.
  abbrev pub after_condemned : Pod → Result (Unit {0}) → M (Unit {0})
  after_condemned pod (ok a) tr = (ok tt, tr)
  after_condemned pod (err e) tr =
      (if is_not_found e then ok tt else err e, deletion_observed (pod_key pod) ∷ tr)

  unfoldable pub delete_pod_fn : Pod → M (Unit {0})
  unfolding process_condemned
  delete_pod_fn pod tr =
      after_condemned pod (process_condemned pod tr).0 (process_condemned pod tr).1

  unfoldable pub create_pod_fn : Pod → M (Unit {0})
  create_pod_fn pod = query (create_pod pod) (λ tr. ignore_terminating (env.create tr pod))

  unfoldable pub update_unless : Pod → Bool → M (Unit {0})
  update_unless pod true = pure tt
  update_unless pod false = query (update_pod_pvcs pod) (λ tr. as_result (env.update_pvcs tr pod))

  unfoldable pub fix_pod_pvcs_fn : Pod → M (Unit {0})
  unfolding update_unless
  fix_pod_pvcs_fn pod =
      query (pvcs_match_policy pod) (λ tr. env.pvcs_match tr pod) >>= update_unless pod

  unfoldable pub process_node_set_pod : Pod → M (Unit {0})
  process_node_set_pod pod =
      if is_failed pod || is_succeeded pod
      then (if is_terminating pod
          then pure tt
          else query (delete_pod pod) (λ tr. as_result (env.delete tr pod)))
      else query (update_pod pod) (λ tr. as_result (env.update tr pod))

  module _ (orders : ℕ → List ℕ → List ℕ) (initial : ℕ) where
    -- `SlowStartBatch` on some of the pods of a list: the successes, the error, the trace.
    abbrev pub batch : ℕ → ℕ → List Pod → (Pod → M (Unit {0})) → Trace → ℕ × Option Error × Trace
    batch n count pods body tr = slow_start_batch (at_item pods body) (orders n) count initial tr

    -- The stages of `doPodScale` after the expectations: pods to keep, to create, to delete.
    unfoldable pub delete_stage : List Pod → List Error → Trace → List Error × Trace
    unfolding slow_start_batch at_item fix_pod_pvcs_fn delete_pod_fn in_burst
    delete_stage pods_to_delete errs tr =
        let (fixed, e1, tr1) = batch 2 (length pods_to_delete) pods_to_delete fix_pod_pvcs_fn tr in
        let (deleted, e2, tr2) =
          batch 3 (in_burst pods_to_delete) pods_to_delete delete_pod_fn tr1 in
        (errs ++ send e1 [] ++ send e2 [], tr2)

    unfoldable pub create_stage : List Pod → List Pod → Trace → List Error × Trace
    unfolding slow_start_batch at_item create_pod_fn observe_skipped in_burst delete_stage
    create_stage pods_to_delete pods_to_create tr =
        let (created, e, tr1) = batch 1 (in_burst pods_to_create) pods_to_create create_pod_fn tr in
        delete_stage pods_to_delete (send e [])
          (observe_skipped (in_burst pods_to_create - created) tr1)

    unfoldable pub uncordon_stage : List Pod → List Pod → List Pod → Trace → List Error × Trace
    unfolding slow_start_batch at_item in_burst sync_pod_uncordon create_stage pods_now
    uncordon_stage pods_to_keep pods_to_delete pods_to_create tr =
        let (n, e, tr1) =
          batch 0 (length pods_to_keep) pods_to_keep (sync_pod_uncordon env)
            (raise_expectations (in_burst pods_to_create) 0 ∷ tr) in
        on_error e tr1 (create_stage (pods_now env tr tr1 pods_to_delete) pods_to_create)

    unfoldable pub do_pod_scale : List Pod → List Pod → List Pod → Trace → List Error × Trace
    unfolding in_burst get_pod_keys uncordon_stage
    do_pod_scale pods_to_keep pods_to_delete pods_to_create tr =
        let keys = get_pod_keys (take (in_burst pods_to_delete) pods_to_delete) in
        on_error (env.expect tr keys) (expect_deletions keys ∷ tr)
          (uncordon_stage pods_to_keep pods_to_delete pods_to_create)

    -- `doPodProcessing`, with the pods that `splitUpdatePods` keeps; and its three batches.
    unfoldable pub process_stage : List Pod → List Pod → List Pod → Trace → List Error × Trace
    unfolding slow_start_batch at_item sync_pod_uncordon delete_pod_fn process_node_set_pod pods_now
    process_stage pods pods_to_keep pods_to_delete tr =
        let (n0, e0, tr1) = batch 0 (length pods_to_keep) pods_to_keep (sync_pod_uncordon env) tr in
        let condemned = pods_now env tr tr1 pods_to_delete in
        let (n1, e1, tr2) = batch 1 (length pods_to_delete) condemned delete_pod_fn tr1 in
        let seen = pods_now env tr tr2 pods in
        let (n2, e2, tr3) = batch 2 (length pods) seen process_node_set_pod tr2 in
        (send e0 [] ++ send e1 [] ++ send e2 [], tr3)

    unfoldable pub do_pod_processing : List Pod → List Pod → List Pod → Trace → List Error × Trace
    unfolding process_stage
    do_pod_processing pods pods_to_keep pods_to_delete tr =
        on_error (env.reset_expectations tr) (set_expectations 0 0 ∷ tr)
          (process_stage pods pods_to_keep pods_to_delete)
