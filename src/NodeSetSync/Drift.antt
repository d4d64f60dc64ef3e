-- ===== src/NodeSetSync/Drift.antt =====
-- internal/controller/nodeset/nodeset_sync.go: what a reconcile brings over from Slurm to the pods
-- and from the Kubernetes nodes to Slurm: `syncSlurmNodes`, `syncSlurmDeadline` and
-- `syncSlurmTopology`. `format` stands for time.Time's `Format` at RFC 3339, `expand` for
-- `hostlist.Expand`. The pods' maps of annotations are not nil.
use slurm_operator.Prelude.{
  ℕ, String, Bool, not, ◌||◌, List, ◌∷◌, ◌==◌, has_str, length, str_eq, if◌then◌else◌,
}
use slurm_operator.Api.{Result, ok, err, is_not_found, Pod, Node, NodeSet}
use slurm_operator.Api.Maps.{Labels, insert, remove, get_value}
use slurm_operator.Api.WellKnown.{pod_deadline, topology_spec}
use slurm_operator.Naming.{get_slurm_node_name}
use slurm_operator.PodUtils.{PodApi, is_running_and_available, is_healthy}
use slurm_operator.Stores.{Store, peek}
use slurm_operator.Batch.{slow_start_batch}
use slurm_operator.Effects.{Env, M, pure, throw, ◌>>=◌, as_result, delete_pod, get_node}
use slurm_operator.NodeSetSync.Cordon.{at_item, query, patch_to}
use slurm_operator.NodeSetSync.Scale.{ignore_not_found}
use slurm_operator.SlurmControl.{get_nodes_for_pods, update_node_topology}
use slurm_operator.SlurmControl.Deadlines.{get_node_deadlines}

-- Whether the pod shows that its Slurm node should be registered, and it is not.
unfoldable pub is_drifted : PodApi → ℕ → NodeSet → List String → Pod → Bool
is_drifted api now nodeset registered pod = not (
    (has_str (get_slurm_node_name pod) registered
      || not (is_running_and_available api pod nodeset.min_ready_seconds now))
    || not (is_healthy api pod))

module _ (env : Env) (order : List ℕ → List ℕ) (initial : ℕ) where
  -- A loop over the pods.
  unfoldable pub for_pods : List Pod → (Pod → M (Unit {0})) → M (Unit {0})
  unfolding slow_start_batch at_item
  for_pods pods body tr =
      let (n, e, tr') = slow_start_batch (at_item pods body) order (length pods) initial tr in
      (as_result e, tr')

  module _ (api : PodApi) (now : ℕ) (nodeset : NodeSet) where
    unfoldable pub sync_slurm_nodes_fn : List String → Pod → M (Unit {0})
    unfolding is_drifted
    sync_slurm_nodes_fn registered pod =
        if is_drifted api now nodeset registered pod
        then query (delete_pod pod) (λ tr. ignore_not_found (env.delete tr pod))
        else pure tt

    -- After `GetNodesForPods`: its result cannot be used without a client.
    unfoldable pub delete_drifted : List Pod → List String × Bool → M (Unit {0})
    unfolding for_pods sync_slurm_nodes_fn
    delete_drifted pods (registered, is_usable) =
        if is_usable then for_pods pods (sync_slurm_nodes_fn registered) else pure tt

    unfoldable pub sync_slurm_nodes : List Pod → M (Unit {0})
    unfolding get_nodes_for_pods delete_drifted
    sync_slurm_nodes pods = get_nodes_for_pods env pods >>= delete_drifted pods

  module _ (expand : String → Result (List String)) (format : ℕ → String) where
    unfoldable pub with_deadline : ℕ → Labels → Labels
    unfolding insert remove
    with_deadline deadline annotations =
        if deadline == 0
        then remove pod_deadline annotations
        else insert pod_deadline (format deadline) annotations

    unfoldable pub sync_slurm_deadline_fn : Store ℕ → Pod → M (Unit {0})
    unfolding peek with_deadline
    sync_slurm_deadline_fn deadlines pod =
        let deadline = peek 0 (get_slurm_node_name pod) deadlines in
        patch_to env (record pod { annotations = with_deadline deadline pod.annotations }) pod

    unfoldable pub sync_slurm_deadline : List Pod → M (Unit {0})
    unfolding get_node_deadlines for_pods sync_slurm_deadline_fn
    sync_slurm_deadline pods = get_node_deadlines expand env pods >>= λ deadlines.
        for_pods pods (sync_slurm_deadline_fn deadlines)

  -- The last step of `syncSlurmTopologyFn`, whose error is only logged.
  unfoldable pub try_topology : Pod → String → M (Unit {0})
  unfolding update_node_topology
  try_topology pod line tr = (ok tt, (update_node_topology env pod line tr).1)

  unfoldable pub set_topology : Pod → String → M (Unit {0})
  unfolding insert try_topology
  set_topology pod line =
      patch_to env (record pod { annotations = insert topology_spec line pod.annotations }) pod
      >>= λ _. try_topology pod line

  unfoldable pub topology_from : Pod → Result Node → M (Unit {0})
  unfolding set_topology
  topology_from pod (ok node) = set_topology pod (get_value topology_spec node.annotations)
  topology_from pod (err e) = if is_not_found e then pure tt else throw e

  unfoldable pub sync_slurm_topology_fn : Pod → M (Unit {0})
  unfolding topology_from
  sync_slurm_topology_fn pod tr =
      if str_eq pod.node_name ""
      then (ok tt, tr)
      else topology_from pod (env.read_node tr pod.node_name) (get_node pod.node_name ∷ tr)

  unfoldable pub sync_slurm_topology : List Pod → M (Unit {0})
  unfolding for_pods sync_slurm_topology_fn
  sync_slurm_topology pods = for_pods pods sync_slurm_topology_fn
