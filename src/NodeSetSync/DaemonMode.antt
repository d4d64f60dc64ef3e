-- ===== src/NodeSetSync/DaemonMode.antt =====
-- internal/controller/nodeset/nodeset_sync.go: `syncNodeSet` in DaemonSet mode, and both modes.
-- `Daemons` holds what the mode needs besides: k8s.io/component-helpers' tests on a pod and a node,
-- the pod that `NodeShouldRunDaemonPod` tries on a node, the pod that is made for one, and the
-- backoff of failed pods on a node of a NodeSet, on a state of any type.
pub mod Safe
pub mod Plan
use slurm_operator.Prelude.{
  ℕ, String, Bool, true, false, not, List, [], ◌∷◌, ◌++◌, Option, str_eq, keep, count_if,
  if◌then◌else◌,
}
use slurm_operator.Api.{Error, Result, ok, err, Pod, Node, NodeSet}
use slurm_operator.Api.WellKnown.{daemon_set}
use slurm_operator.Effects.{Trace, M, pure, ◌>>=◌, list_nodes}
use slurm_operator.NodeSetSync.Cordon.{query}
use slurm_operator.NodeSetSync.Choose.{process}
use slurm_operator.NodeSetSync.Sync.{World, scale, has_mode, follow_plan, sync_node_set}
use slurm_operator.NodeSetSync.Scale.{do_pod_scale}
use slurm_operator.Daemon.{
  Groups, Scheduler, Backoff, pods_on, get_nodes_to_daemon_pods, node_should_run_daemon_pod,
  pods_should_be_on_node,
}

pub record Daemons (W : Type 0) : Type 0 where
  pub scheduler : Scheduler
  pub pod_on : NodeSet → Node → Option Pod
  pub get_target_node_name : Pod → Option String
  pub backoff : NodeSet → String → Backoff W
  pub sort : List Pod → List Pod
  pub new_daemon_pod : NodeSet → String → String → Result Pod

module _ {W : Type 0} (d : Daemons W) where
  abbrev pub should_run_on : NodeSet → Node → Bool × Bool
  should_run_on nodeset node = node_should_run_daemon_pod d.scheduler (d.pod_on nodeset node) node

  -- The loop over the nodes: those that need a pod, the pods to delete, the state of the backoff.
  unfoldable pub plan_nodes : NodeSet → Groups → List Node → W → (List String × List Pod) × W
  unfolding node_should_run_daemon_pod pods_on pods_should_be_on_node
  plan_nodes nodeset groups [] s = (([], []), s)
  plan_nodes nodeset groups (node ∷ nodes) s =
      let (here, s') =
        pods_should_be_on_node (d.backoff nodeset node.name) d.sort (should_run_on nodeset node)
          node.name (pods_on node.name groups) s in
      let (rest, s'') = plan_nodes nodeset groups nodes s' in
      ((here.0 ++ rest.0, here.1 ++ rest.1), s'')

  unfoldable pub new_daemon_pods : NodeSet → String → List String → Result (List Pod)
  new_daemon_pods nodeset hash [] = ok []
  new_daemon_pods nodeset hash (name ∷ names) = elim (d.new_daemon_pod nodeset name hash) [
    | err e ↦ err e
    | ok pod ↦ elim (new_daemon_pods nodeset hash names) [
      | err e ↦ err e
      | ok pods ↦ ok (pod ∷ pods)
    ]
  ]

  module _ (w : World) where
    -- The pods of the mode, the pods of another one, and what is to be deleted and created.
    unfoldable pub scale_or_process :
        NodeSet
        → List Pod
        → List Pod
        → String
        → List Pod
        → Result (List Pod)
        → Trace
        → List Error × Trace
    unfolding do_pod_scale follow_plan
    scale_or_process nodeset pods_new pods_old hash to_delete (err e) tr = (e ∷ [], tr)
    scale_or_process nodeset pods_new pods_old hash [] (ok []) tr =
        follow_plan w nodeset pods_new pods_old hash process tr
    scale_or_process nodeset pods_new pods_old hash [] (ok (pod ∷ pods)) tr =
        scale w pods_new [] (pod ∷ pods) tr
    scale_or_process nodeset pods_new pods_old hash (pod ∷ pods) (ok to_create) tr =
        scale w pods_new (pod ∷ pods) to_create tr

    unfoldable pub sync_daemons :
        NodeSet → List Pod → String → Result (List Node) → W → Trace → (List Error × Trace) × W
    unfolding get_nodes_to_daemon_pods plan_nodes new_daemon_pods scale_or_process
    sync_daemons nodeset pods hash (err e) s tr = ((e ∷ [], tr), s)
    sync_daemons nodeset pods hash (ok nodes) s tr =
        let pods_new = keep (has_mode nodeset) pods in
        let pods_old = keep (λ pod. not (has_mode nodeset pod)) pods in
        let groups = get_nodes_to_daemon_pods d.get_target_node_name false pods_new in
        let (plan, s') = plan_nodes nodeset groups nodes s in
        (
          scale_or_process nodeset pods_new pods_old hash plan.1
              (new_daemon_pods nodeset hash plan.0) tr,
          s',
        )

    -- `syncNodeSet`.
    unfoldable pub sync_pods : NodeSet → List Pod → String → W → Trace → (List Error × Trace) × W
    unfolding sync_daemons sync_node_set
    sync_pods nodeset pods hash s tr =
        if str_eq nodeset.scaling_mode daemon_set
        then sync_daemons nodeset pods hash (w.env.nodes tr) s (list_nodes ∷ tr)
        else (sync_node_set w nodeset pods hash tr, s)

    -- `getDesiredNodeCountForDaemonSet`; the count fits an int32.
    unfoldable pub get_desired_node_count : NodeSet → M ℕ
    unfolding node_should_run_daemon_pod
    get_desired_node_count nodeset = query list_nodes (λ tr. w.env.nodes tr) >>= λ nodes.
        pure (count_if (λ node. (should_run_on nodeset node).0) nodes)
