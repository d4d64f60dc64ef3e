-- ===== src/NodeSetSync/Taint.antt =====
-- internal/controller/nodeset/nodeset_sync.go: `syncTaint`, and pkg/taints/taints.go. `Tainter` is
-- k8s.io/kubernetes/pkg/util/taints: the node that a taint is added to or removed from, and whether
-- it differs. An owner of a pod is its controlling reference, which `owner_of` reads.
pub mod Marked
use slurm_operator.Prelude.{
  ℕ, String, Bool, true, false, not, ◌&&◌, List, [], ◌∷◌, Option, none, some, has_str, length,
  if◌then◌else◌, keep, map,
}
use slurm_operator.Api.{Error, Result, ok, err, Pod, Node, NodeSet, Taint, OwnerReference}
use slurm_operator.PodUtils.{is_running, is_terminating}
use slurm_operator.Batch.{slow_start_batch}
use slurm_operator.Effects.{
  Trace, Env, M, pure, throw, ◌>>=◌, as_result, list_nodes, list_node_sets, list_pods, patch_node,
}
use slurm_operator.NodeSetSync.Cordon.{at_item, query}

abbrev pub taint_node_worker : Taint
taint_node_worker = record {
  key = "nodeset.slinky.slurm.net/worker";
  value = "";
  effect = "NoExecute";
}

pub record Tainter : Type 0 where
  pub add_or_update_taint : Node → Taint → Result (Node × Bool)
  pub remove_taint : Node → Taint → Result (Node × Bool)

-- The UIDs of the NodeSets that ask for their nodes to be tainted.
unfoldable pub tainting_uids : List NodeSet → List String
tainting_uids [] = []
tainting_uids (nodeset ∷ nodesets) =
    let rest = tainting_uids nodesets in
    if nodeset.taint_kube_nodes then nodeset.uid ∷ rest else rest

module _ (owner_of : Pod → Option OwnerReference) where
  unfoldable pub is_worker_of : List String → Pod → Bool
  is_worker_of uids pod = elim (owner_of pod) [
    | none ↦ false
    | some ref ↦ has_str ref.uid uids && (is_running pod && not (is_terminating pod))
  ]

  -- The names of the nodes with such pods.
  unfoldable pub node_set_with_pod : List String → List Pod → List String
  unfolding is_worker_of
  node_set_with_pod uids pods = map (λ pod. pod.node_name) (keep (is_worker_of uids) pods)

unfoldable pub patch_if : Env → Node → Result (Node × Bool) → M (Unit {0})
patch_if env node (err e) = throw e
patch_if env node (ok (to_update, updated)) =
    if updated
    then query (patch_node to_update node) (λ tr. as_result (env.patch_kube_node tr to_update node))
    else pure tt

module _ (tainter : Tainter) (env : Env) where
  unfoldable pub sync_taint_fn : List String → Node → M (Unit {0})
  unfolding patch_if
  sync_taint_fn names node = patch_if env node (
      if has_str node.name names
      then tainter.add_or_update_taint node taint_node_worker
      else tainter.remove_taint node taint_node_worker)

  module _ (order : List ℕ → List ℕ) (initial : ℕ) where
    unfoldable pub taint_nodes : List Node → List String → M (Unit {0})
    unfolding slow_start_batch at_item sync_taint_fn
    taint_nodes nodes names tr =
        let (n, e, tr') =
          slow_start_batch (at_item nodes (sync_taint_fn names)) order (length nodes) initial tr in
        (as_result e, tr')

    -- What follows the list of NodeSets: the list of pods, and the loop.
    unfoldable pub taint_by_pods :
        (Pod → Option OwnerReference) → List Node → List NodeSet → M (Unit {0})
    unfolding taint_nodes tainting_uids node_set_with_pod
    taint_by_pods owner_of nodes nodesets = query list_pods (λ tr. env.pods tr) >>= λ pods.
        taint_nodes nodes (node_set_with_pod owner_of (tainting_uids nodesets) pods)

    unfoldable pub taint_by_sets : (Pod → Option OwnerReference) → List Node → M (Unit {0})
    unfolding taint_by_pods
    taint_by_sets owner_of nodes =
        query list_node_sets (λ tr. env.node_sets tr) >>= taint_by_pods owner_of nodes

    unfoldable pub sync_taint : (Pod → Option OwnerReference) → M (Unit {0})
    unfolding taint_by_sets
    sync_taint owner_of = query list_nodes (λ tr. env.nodes tr) >>= taint_by_sets owner_of
