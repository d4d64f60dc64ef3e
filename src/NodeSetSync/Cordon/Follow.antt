-- ===== src/NodeSetSync/Cordon/Follow.antt =====
-- `syncCordon` undrains a Slurm node only where it may.
use slurm_operator.Prelude.{ℕ, Bool, true, false, ◌≡◌, refl, List, length, Bool-cases, inl, inr}
use slurm_operator.Api.{Error, Result, ok, err, Pod, Node, is_not_found}
use slurm_operator.PodUtils.{is_pod_cordon}
use slurm_operator.Effects.{Trace, Env}
use slurm_operator.Effects.Adds.{
  same, add, Extends, Adds-trans, Adds-Extends, Makes-bind, rest_of_bind,
}
use slurm_operator.SlurmControl.{is_node_down_for_unresponsive, is_node_reason_ours}
use slurm_operator.NodeSetSync.Cordon.{
  cordon_with_node, follow_cordon, ask_reason, with_kube_node, sync_cordon_fn, sync_cordon,
  override, make_pod_cordon_and_drain,
}
use slurm_operator.NodeSetSync.Cordon.Calls.{SafeCall, MayUndrain}
use slurm_operator.NodeSetSync.Cordon.Safe.{
  Safe, checked, is_node_down-Safe, is_node_reason_ours-Safe, make_node_drain-Safe,
  make_node_undrain-Safe, make_pod_cordon_and_drain-Safe,
}
use slurm_operator.NodeSetSync.Cordon.Batches.{slow_start_batch-Adds}

module _ (env : Env) (wrap : Error → Error) where
  cordon_with_node-Safe :
      (pod : Pod) (tr : Trace) → Safe env tr (cordon_with_node env wrap pod tr).1
  unfolding cordon_with_node SafeCall
  cordon_with_node-Safe pod tr = Adds-trans (add same tt) (
      rest_of_bind (SafeCall env) _ (λ node. make_pod_cordon_and_drain env pod (override pod node))
        _ (λ node e. make_pod_cordon_and_drain-Safe env pod (override pod node) _))

  follow_cordon-Safe :
      (pod : Pod) (is_cordoned unresponsive ours : Bool) (tr : Trace)
      → (is_cordoned ≡ false → ours ≡ true → MayUndrain env pod tr)
      → Safe env tr (follow_cordon env wrap pod is_cordoned unresponsive ours tr).1
  unfolding follow_cordon
  follow_cordon-Safe pod is_cordoned unresponsive false tr may = same
  follow_cordon-Safe pod is_cordoned true true tr may = same
  follow_cordon-Safe pod true false true tr may = cordon_with_node-Safe pod tr
  follow_cordon-Safe pod false false true tr may = elim (Bool-cases (is_pod_cordon pod)) [
    | inl e ↦ rw e (make_node_drain-Safe env pod _ tr)
    | inr e ↦ rw e (make_node_undrain-Safe env pod pod _ tr (inl refl) (may refl refl))
  ]

  ask_reason-Safe :
      (pod : Pod) (node : Node) (unresponsive : Bool) (at_node tr : Trace)
      → env.read_node at_node pod.node_name ≡ ok node
      → Extends at_node tr
      → Safe env tr (ask_reason env wrap pod node.unschedulable unresponsive tr).1
  unfolding ask_reason
  ask_reason-Safe pod node unresponsive at_node tr read first =
      Makes-bind (SafeCall env) (is_node_reason_ours env pod)
        (follow_cordon env wrap pod node.unschedulable unresponsive) tr
        (is_node_reason_ours-Safe env pod tr)
        λ ours h.
          follow_cordon-Safe pod node.unschedulable unresponsive ours _
            λ free e. checked env pod at_node tr ours (rw read free) h first e

  with_kube_node-Safe :
      (pod : Pod) (r : Result Node) (at_node tr : Trace)
      → env.read_node at_node pod.node_name ≡ r
      → Extends at_node tr
      → Safe env tr (with_kube_node env wrap pod r tr).1
  unfolding with_kube_node
  with_kube_node-Safe pod (err e) at_node tr read first = elim (Bool-cases (is_not_found e)) [
    | inl h ↦ rw h same
    | inr h ↦ rw h same
  ]
  with_kube_node-Safe pod (ok node) at_node tr read first =
      Makes-bind (SafeCall env) (is_node_down_for_unresponsive env pod)
        (ask_reason env wrap pod node.unschedulable) tr (is_node_down-Safe env pod tr)
        λ unresponsive h.
          ask_reason-Safe pod node unresponsive at_node _ read
            (Adds-trans first (Adds-Extends (is_node_down-Safe env pod tr)))

  sync_cordon_fn-Safe : (pod : Pod) (tr : Trace) → Safe env tr (sync_cordon_fn env wrap pod tr).1
  unfolding sync_cordon_fn SafeCall
  sync_cordon_fn-Safe pod tr =
      Adds-trans (add same tt) (with_kube_node-Safe pod _ tr _ refl (add same tt))

  -- Whatever the cluster answers and in whatever order the pods are handled, `syncCordon` asks for
  -- an undrain only after it has read the pod's Kubernetes node as not cordoned and then found the
  -- Slurm node's reason to be the operator's; and it deletes no pod, unless it has failed or
  -- succeeded or `IsNodeDrained` has just answered true for it.
  pub sync_cordon-Safe :
      (order : List ℕ → List ℕ) (initial : ℕ) (pods : List Pod) (tr : Trace)
      → Safe env tr (sync_cordon env order initial wrap pods tr).1
  unfolding sync_cordon
  sync_cordon-Safe order initial pods tr =
      slow_start_batch-Adds (SafeCall env) pods (sync_cordon_fn env wrap) order (length pods)
        initial tr sync_cordon_fn-Safe
