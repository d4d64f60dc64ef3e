-- ===== src/NodeSetSync/Reconcile/Quiet.antt =====
-- The steps of a reconcile that delete no pod and ask for no undrain.
use slurm_operator.Prelude.{
  ℕ, String, Bool, true, false, ◌≡◌, refl, List, ◌∷◌, Option, none, some, if◌then◌else◌, length,
  map, str_eq,
}
use slurm_operator.Api.{Error, Result, ok, err, is_not_found, Pod, Node, NodeSet, OwnerReference}
use slurm_operator.Api.Object.{Object}
use slurm_operator.Naming.{get_slurm_node_name}
use slurm_operator.Stores.{Store, empty}
use slurm_operator.Effects.{
  Call, Trace, Env, M, pure, throw, ◌>>=◌, SlurmNode, JobInfo, slurm_list_nodes, slurm_list_jobs,
  slurm_get_node, get_node, patch_pod, get_object, list_nodes, list_node_sets, list_pods,
  patch_node, create_object, patch_object, UpdateNodeMsg,
}
use slurm_operator.Effects
use slurm_operator.Effects.Adds.{
  Adds, same, add, Adds-trans, Adds-map, Adds-if, Makes-if, Makes-bind, Makes-call,
}
use slurm_operator.SlurmControl.{
  answered, or_empty, with_node, send_update, refresh_node_cache, update_node_topology,
}
use slurm_operator.SlurmControl.Deadlines.{jobs_loop, get_node_deadlines}
use slurm_operator.Objects.Writes.{WriteCall, sync_object-Writes}
use slurm_operator.NodeSetSync.Cordon.{patch_to}
use slurm_operator.NodeSetSync.Cordon.Calls.{asks_undrain}
use slurm_operator.NodeSetSync.Cordon.Batches.{slow_start_batch-Adds}
use slurm_operator.NodeSetSync.Shared.{
  Builder, found_or, returns, own_each, set_owner_references, sync_named, own_and_sync, sync_built,
  sync_if_built, sync_cluster_worker_service, sync_cluster_worker_pdb, sync_config, sync_ssh_config,
}
use slurm_operator.NodeSetSync.Drift.{
  for_pods, sync_slurm_deadline_fn, sync_slurm_deadline, try_topology, set_topology, topology_from,
  sync_slurm_topology_fn, sync_slurm_topology,
}
use slurm_operator.NodeSetSync.Taint.{
  Tainter, patch_if, sync_taint_fn, taint_nodes, taint_by_pods, taint_by_sets, sync_taint,
  node_set_with_pod, tainting_uids,
}

unfoldable pub QuietCall : Call → Trace → Type 0
QuietCall (Effects.slurm_update_node node msg) tr = asks_undrain msg ≡ false
QuietCall (Effects.delete_pod pod) tr = ⊥
QuietCall _ tr = Unit

abbrev pub Quiet : Trace → Trace → Type 0
Quiet a b = Adds QuietCall a b

pub for_pods-Adds :
    (P : Call → Trace → Type 0) (env : Env) (order : List ℕ → List ℕ) (initial : ℕ)
    (pods : List Pod) (body : Pod → M (Unit {0})) (tr : Trace)
    → ((pod : Pod) (t : Trace) → Adds P t (body pod t).1)
    → Adds P tr (for_pods env order initial pods body tr).1
unfolding for_pods
for_pods-Adds P env order initial pods body tr h =
    slow_start_batch-Adds P pods body order (length pods) initial tr h

module _ (env : Env) where
  pub refresh_node_cache-Quiet : (tr : Trace) → Quiet tr (refresh_node_cache env tr).1
  unfolding refresh_node_cache QuietCall
  refresh_node_cache-Quiet tr =
      Adds-if QuietCall (env.has_slurm_client tr) _ _ tr (λ e. go (env.list_slurm_nodes tr))
        (λ e. same)
    where
      go :
          (r : Result (List SlurmNode))
          → Quiet tr
              (elim r as (λ x. Result (Unit {0}) × Trace) [
                | ok nodes ↦ (ok tt, slurm_list_nodes true ∷ tr)
                | err e ↦ (err e, slurm_list_nodes true ∷ tr)
              ]).1
      go (ok nodes) = add same tt
      go (err e) = add same tt

  module _ (builder : Builder) (wrap : String → Error → Error) where
    sync_named-Quiet :
        (message : String) (object : Object) (tr : Trace)
        → Quiet tr (sync_named builder env wrap message object tr).1
    unfolding sync_named WriteCall QuietCall
    sync_named-Quiet message object tr =
        Adds-map only_objects (sync_object-Writes env wrap object true tr)
      where
        only_objects : (c : Call) (t : Trace) → WriteCall env object true tr c t → QuietCall c t
        only_objects (create_object o) t x = tt
        only_objects (patch_object new old) t x = tt
        only_objects (get_object o) t x = tt
        only_objects _ t x = absurd x

    own_and_sync-Quiet :
        (message cluster_name : String) (object : Object) (tr : Trace)
        → Quiet tr (own_and_sync builder env wrap message cluster_name object tr).1
    unfolding own_and_sync set_owner_references QuietCall
    own_and_sync-Quiet message cluster_name object tr =
        Makes-bind QuietCall (set_owner_references builder env wrap object cluster_name)
          (sync_named builder env wrap message) tr
          (Makes-call QuietCall list_node_sets (env.node_sets tr)
            (λ nodesets.
              returns builder env wrap (own_each builder env wrap cluster_name nodesets object))
            tr tt (λ nodesets e. same))
          (λ owned e. sync_named-Quiet message owned _)

    sync_if_built-Quiet :
        (failed message cluster_name : String) (r : Result Object) (tr : Trace)
        → Quiet tr (sync_if_built builder env wrap failed message cluster_name r tr).1
    unfolding sync_if_built sync_built QuietCall
    sync_if_built-Quiet failed message cluster_name (err e) tr = same
    sync_if_built-Quiet failed message cluster_name (ok built) tr =
        Makes-call QuietCall (get_object built) (found_or built (env.read_object tr built))
          (own_and_sync builder env wrap message cluster_name) tr tt
          (λ object e. own_and_sync-Quiet message cluster_name object _)

    pub sync_cluster_worker_service-Quiet :
        (nodeset : NodeSet) (tr : Trace)
        → Quiet tr (sync_cluster_worker_service builder env wrap nodeset tr).1
    unfolding sync_cluster_worker_service
    sync_cluster_worker_service-Quiet nodeset tr =
        sync_if_built-Quiet _ _ nodeset.controller_name
          (builder.build_cluster_worker_service nodeset) tr

    pub sync_cluster_worker_pdb-Quiet :
        (nodeset : NodeSet) (tr : Trace)
        → Quiet tr (sync_cluster_worker_pdb builder env wrap nodeset tr).1
    unfolding sync_cluster_worker_pdb
    sync_cluster_worker_pdb-Quiet nodeset tr =
        sync_if_built-Quiet _ _ nodeset.controller_name (builder.build_cluster_worker_pdb nodeset)
          tr

    sync_config-Quiet :
        (r : Result Object) (tr : Trace) → Quiet tr (sync_config builder env wrap r tr).1
    unfolding sync_config
    sync_config-Quiet (err e) tr = same
    sync_config-Quiet (ok config) tr = sync_named-Quiet "failed to sync SSH config" config tr

    pub sync_ssh_config-Quiet :
        (nodeset : NodeSet) (tr : Trace) → Quiet tr (sync_ssh_config builder env wrap nodeset tr).1
    unfolding sync_ssh_config
    sync_ssh_config-Quiet nodeset tr =
        Makes-if QuietCall nodeset.ssh_enabled
          (sync_config builder env wrap (builder.build_worker_ssh_config nodeset)) (pure tt) tr
          (λ e. sync_config-Quiet (builder.build_worker_ssh_config nodeset) tr) (λ e. same)

  module _ (order : List ℕ → List ℕ) (initial : ℕ) where
    get_node_deadlines-Quiet :
        (expand : String → Result (List String)) (pods : List Pod) (tr : Trace)
        → Quiet tr (get_node_deadlines expand env pods tr).1
    unfolding get_node_deadlines QuietCall
    get_node_deadlines-Quiet expand pods tr =
        Adds-if QuietCall (env.has_slurm_client tr) _ _ tr (λ e. go (env.list_jobs tr)) (λ e. same)
      where
        go :
            (r : Result (List JobInfo))
            → Quiet tr
                (elim r as (λ x. Result (Store ℕ) × Trace) [
                  | err e ↦ (err e, slurm_list_jobs ∷ tr)
                  | ok jobs ↦ (
                    jobs_loop expand (map get_slurm_node_name pods) jobs empty,
                    slurm_list_jobs ∷ tr,
                  )
                ]).1
        go (ok nodes) = add same tt
        go (err e) = add same tt

    pub sync_slurm_deadline-Quiet :
        (expand : String → Result (List String)) (format : ℕ → String) (pods : List Pod)
        (tr : Trace)
        → Quiet tr (sync_slurm_deadline env order initial expand format pods tr).1
    unfolding sync_slurm_deadline sync_slurm_deadline_fn QuietCall
    sync_slurm_deadline-Quiet expand format pods tr =
        Makes-bind QuietCall (get_node_deadlines expand env pods)
          (λ deadlines.
            for_pods env order initial pods
              (sync_slurm_deadline_fn env order initial expand format deadlines))
          tr (get_node_deadlines-Quiet expand pods tr)
          λ deadlines e. for_pods-Adds QuietCall env order initial pods _ _ (λ pod t. add same tt)

    update_node_topology-Quiet :
        (pod : Pod) (line : String) (tr : Trace) → Quiet tr (update_node_topology env pod line tr).1
    unfolding update_node_topology with_node send_update QuietCall
    update_node_topology-Quiet pod line tr =
        Adds-if QuietCall (env.has_slurm_client tr) _ _ tr
          (λ e. go (env.get_slurm_node tr (get_slurm_node_name pod))) (λ e. same)
      where
        go :
            (r : Result SlurmNode)
            → Quiet tr
                (answered tt
                  (λ node.
                    if str_eq (or_empty node.topology) line
                    then pure tt
                    else send_update env node
                        (record { state = none; reason = none; topology_str = some line }))
                  r
                  (slurm_get_node (get_slurm_node_name pod) ∷ tr)).1
        go (err e) = add same tt
        go (ok node) = Adds-trans (add {c = slurm_get_node (get_slurm_node_name pod)} same tt) (
            Makes-if QuietCall (str_eq (or_empty node.topology) line) (pure tt)
              (send_update env node
                (record { state = none; reason = none; topology_str = some line }))
              (slurm_get_node (get_slurm_node_name pod) ∷ tr) (λ e. same) (λ e. add same refl))

    set_topology-Quiet :
        (pod : Pod) (line : String) (tr : Trace)
        → Quiet tr (set_topology env order initial pod line tr).1
    unfolding set_topology try_topology QuietCall
    set_topology-Quiet pod line tr =
        Makes-bind QuietCall (patch_to env _ pod) (λ u. try_topology env order initial pod line) tr
          (add same tt) (λ u e. update_node_topology-Quiet pod line _)

    topology_from-Quiet :
        (pod : Pod) (r : Result Node) (tr : Trace)
        → Quiet tr (topology_from env order initial pod r tr).1
    unfolding topology_from
    topology_from-Quiet pod (ok node) tr = set_topology-Quiet pod _ tr
    topology_from-Quiet pod (err e) tr =
        Makes-if QuietCall (is_not_found e) (pure tt) (throw e) tr (λ h. same) (λ h. same)

    pub sync_slurm_topology-Quiet :
        (pods : List Pod) (tr : Trace) → Quiet tr (sync_slurm_topology env order initial pods tr).1
    unfolding sync_slurm_topology sync_slurm_topology_fn QuietCall
    sync_slurm_topology-Quiet pods tr = for_pods-Adds QuietCall env order initial pods _ tr λ pod t.
        Adds-if QuietCall (str_eq pod.node_name "") _ _ t (λ e. same)
          (λ e.
            Adds-trans (add {c = get_node pod.node_name} same tt)
              (topology_from-Quiet pod (env.read_node t pod.node_name) _))

    module _ (tainter : Tainter) (owner_of : Pod → Option OwnerReference) where
      patch_if-Quiet :
          (node : Node) (r : Result (Node × Bool)) (tr : Trace)
          → Quiet tr (patch_if env node r tr).1
      unfolding patch_if QuietCall
      patch_if-Quiet node (err e) tr = same
      patch_if-Quiet node (ok (new, true)) tr = add same tt
      patch_if-Quiet node (ok (new, false)) tr = same

      taint_nodes-Quiet :
          (nodes : List Node) (names : List String) (tr : Trace)
          → Quiet tr (taint_nodes tainter env order initial nodes names tr).1
      unfolding taint_nodes sync_taint_fn
      taint_nodes-Quiet nodes names tr =
          slow_start_batch-Adds QuietCall nodes (sync_taint_fn tainter env names) order
            (length nodes) initial tr (λ node t. patch_if-Quiet node _ t)

      taint_by_pods-Quiet :
          (nodes : List Node) (nodesets : List NodeSet) (tr : Trace)
          → Quiet tr (taint_by_pods tainter env order initial owner_of nodes nodesets tr).1
      unfolding taint_by_pods QuietCall
      taint_by_pods-Quiet nodes nodesets tr =
          Makes-call QuietCall list_pods (env.pods tr)
            (λ pods.
              taint_nodes tainter env order initial nodes
                (node_set_with_pod owner_of (tainting_uids nodesets) pods))
            tr tt (λ pods e. taint_nodes-Quiet nodes _ _)

      taint_by_sets-Quiet :
          (nodes : List Node) (tr : Trace)
          → Quiet tr (taint_by_sets tainter env order initial owner_of nodes tr).1
      unfolding taint_by_sets QuietCall
      taint_by_sets-Quiet nodes tr =
          Makes-call QuietCall list_node_sets (env.node_sets tr)
            (taint_by_pods tainter env order initial owner_of nodes) tr tt
            (λ nodesets e. taint_by_pods-Quiet nodes nodesets _)

      pub sync_taint-Quiet :
          (tr : Trace) → Quiet tr (sync_taint tainter env order initial owner_of tr).1
      unfolding sync_taint QuietCall
      sync_taint-Quiet tr =
          Makes-call QuietCall list_nodes (env.nodes tr)
            (taint_by_sets tainter env order initial owner_of) tr tt
            (λ nodes e. taint_by_sets-Quiet nodes _)
