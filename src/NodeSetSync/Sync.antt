-- ===== src/NodeSetSync/Sync.antt =====
-- internal/controller/nodeset/nodeset_sync.go: `syncNodeSet` in StatefulSet mode and `syncUpdate`.
-- A parameter `new_pod` stands for `newNodeSetPodOrdinal`, which reads the Controller object and
-- builds a pod; `name_less` is Go's `<` on strings and `now` the time at which pods are looked at.
pub mod Safe
pub mod Rolling
use slurm_operator.Prelude.{
  ℕ, String, Bool, not, List, [], ◌∷◌, Option, str_eq, keep, if◌then◌else◌,
}
use slurm_operator.Prelude.Int.{ℤ}
use slurm_operator.Api.{Error, Result, ok, err, Pod, NodeSet, IntOrString}
use slurm_operator.Api.Maps.{get_value}
use slurm_operator.Api.WellKnown.{scaling_mode, on_delete}
use slurm_operator.PodUtils.{PodApi}
use slurm_operator.PodOrder.{split_unhealthy_pods}
use slurm_operator.Effects.{Trace, Env}
use slurm_operator.NodeSetSync.Choose.{
  ReplicaPlan, scale_out, scale_in, process, replica_plan, find_updated_pods, split_update_pods,
}
use slurm_operator.NodeSetSync.Scale.{do_pod_scale, do_pod_processing}

-- What the code does with what it cannot choose: the API's view of pods, texts, sorting, times.
pub record World : Type 0 where
  pub env : Env
  pub orders : ℕ → List ℕ → List ℕ
  pub initial : ℕ
  pub api : PodApi
  pub parse_time : String → Option ℕ
  pub sort : (Pod → Pod → Bool) → List Pod → List Pod
  pub name_less : String → String → Bool
  pub scaled : Option IntOrString → ℤ → Bool → Option ℤ
  pub now : ℕ
  pub new_pod : NodeSet → String → ℕ → Result Pod

-- The pods of a list of ordinals, or the first error.
unfoldable pub new_pods : World → NodeSet → String → List ℕ → Result (List Pod)
new_pods w nodeset hash [] = ok []
new_pods w nodeset hash (n ∷ ns) = elim (w.new_pod nodeset hash n) [
  | err e ↦ err e
  | ok pod ↦ elim (new_pods w nodeset hash ns) [ err e ↦ err e | ok pods ↦ ok (pod ∷ pods) ]
]

abbrev pub has_mode : NodeSet → Pod → Bool
has_mode nodeset pod = str_eq (get_value scaling_mode pod.labels) nodeset.scaling_mode

abbrev pub scale : World → List Pod → List Pod → List Pod → Trace → List Error × Trace
scale w pods_to_keep pods_to_delete pods_to_create tr =
    do_pod_scale w.env w.orders w.initial pods_to_keep pods_to_delete pods_to_create tr

-- The pods for the ordinals, once they are built.
unfoldable pub create_all : World → List Pod → Result (List Pod) → Trace → List Error × Trace
unfolding do_pod_scale
create_all w pods_new_scaling (err e) tr = (e ∷ [], tr)
create_all w pods_new_scaling (ok created) tr = scale w pods_new_scaling [] created tr

-- The plan, carried out on the pods of the mode, with the pods of another mode.
unfoldable pub follow_plan :
    World → NodeSet → List Pod → List Pod → String → ReplicaPlan → Trace → List Error × Trace
unfolding new_pods create_all do_pod_scale do_pod_processing split_update_pods
follow_plan w nodeset pods_new pods_old hash (scale_out ordinals) tr =
    create_all w pods_new (new_pods w nodeset hash ordinals) tr
follow_plan w nodeset pods_new pods_old hash (scale_in del kept) tr = scale w kept del [] tr
follow_plan w nodeset pods_new pods_old hash process tr =
    let (del, kept) =
      split_update_pods w.api w.parse_time w.sort w.scaled w.now nodeset pods_new hash in
    do_pod_processing w.env w.orders w.initial pods_new kept pods_old tr

-- `syncNodeSet`, where the mode is not DaemonSet.
unfoldable pub sync_node_set : World → NodeSet → List Pod → String → Trace → List Error × Trace
unfolding follow_plan replica_plan
sync_node_set w nodeset pods hash tr =
    let pods_new = keep (has_mode nodeset) pods in
    let pods_old = keep (λ pod. not (has_mode nodeset pod)) pods in
    follow_plan w nodeset pods_new pods_old hash
      (replica_plan w.api w.parse_time w.sort nodeset pods pods_new) tr

-- A call of `doPodScale` that is left out where there is nothing to delete.
unfoldable pub scale_some : World → List Pod → Trace → List Error × Trace
unfolding do_pod_scale
scale_some w [] tr = ([], tr)
scale_some w (pod ∷ pods) tr = scale w [] (pod ∷ pods) [] tr

-- What follows a step that ended without an error.
abbrev pub and_then : List Error × Trace → (Trace → List Error × Trace) → List Error × Trace
and_then ([], tr) k = k tr
and_then (e ∷ errs, tr) k = (e ∷ errs, tr)

-- The two lists of `syncRollingUpdate`: unhealthy pods, and the healthy ones that it deletes.
unfoldable pub rolling_pods : World → NodeSet → List Pod → String → List Pod × List Pod
unfolding find_updated_pods split_unhealthy_pods split_update_pods
rolling_pods w nodeset pods hash =
    let old_pods = (find_updated_pods pods hash).1 in
    let (unhealthy, healthy) = split_unhealthy_pods w.api w.name_less w.sort old_pods in
    let (del, kept) =
      split_update_pods w.api w.parse_time w.sort w.scaled w.now nodeset healthy hash in
    (unhealthy, del)

unfoldable pub sync_rolling_update :
    World → NodeSet → List Pod → String → Trace → List Error × Trace
unfolding rolling_pods scale_some
sync_rolling_update w nodeset pods hash tr =
    and_then (scale_some w (rolling_pods w nodeset pods hash).0 tr)
      (scale_some w (rolling_pods w nodeset pods hash).1)

unfoldable pub sync_update : World → NodeSet → List Pod → String → Trace → List Error × Trace
unfolding sync_rolling_update
sync_update w nodeset pods hash tr =
    if str_eq nodeset.update_strategy_type on_delete
    then ([], tr)
    else sync_rolling_update w nodeset pods hash tr
