-- ===== src/NodeSetSync/Runs.antt =====
-- Runs of a whole reconcile, and of its steps.
use mathlib.Core.List.Perm
use slurm_operator.Naming.{get_slurm_node_name}
use slurm_operator.Api.Maps.{get?}
use slurm_operator.Prelude.{
  ℕ, ◌≡◌, refl, inl, eq_iff, String, Bool, true, false, List, [], ◌∷◌, Option, none, some, str_eq,
  map, keep, count_if, if◌then◌else◌,
}
use slurm_operator.Prelude.Int.{pos}
use slurm_operator.Api.{Result, ok, running, Pod, Node, Taint, OwnerReference}
use slurm_operator.Api.Object.{Object, service, pod_disruption_budget}
use slurm_operator.PodUtils.{is_terminating}
use slurm_operator.PodOrder.Sorting.{insertion_sort}
use slurm_operator.Samples.{worker, pod_named, all_ready, no_times, node_in, cluster}
use slurm_operator.Effects.{Env, idle, drain, delete_pod, patch_node, slurm_list_nodes}
use slurm_operator.Effects.Adds.{Adds}
use slurm_operator.NodeSetSync.Sync.{World}
use slurm_operator.NodeSetSync.Shared.{
  Builder, sync_cluster_worker_service, sync_cluster_worker_pdb,
}
use slurm_operator.NodeSetSync.Shared.Stale.{StaleCall, sync_cluster_worker-Stale}
use slurm_operator.NodeSetSync.Drift.{sync_slurm_nodes}
use slurm_operator.NodeSetSync.Taint.{
  Tainter, taint_node_worker, tainting_uids, node_set_with_pod, sync_taint_fn,
}
use slurm_operator.NodeSetSync.Taint.Marked.{TaintLaws, LeftAs, runs_worker, sync_taint_fn_lem}
use slurm_operator.NodeSetSync.DaemonMode.{Daemons, plan_nodes}
use slurm_operator.NodeSetSync.DaemonMode.Plan.{needs_pod, plan_nodes_lem}
use slurm_operator.NodeSetSync.Reconcile.{Tools, sync_then_update}
use slurm_operator.NodeSetSync.Reconcile.Safe.{SyncCall, sync_then_update-Safe}

abbrev live : Object
live = record {
  kind = service;
  namespace = "slurm";
  name = "slurm-workers";
  labels = [];
  annotations = [];
  owner_references = [];
  immutable = none;
  deletion_timestamp = none;
  fields = λ f. "live";
}

abbrev env : Env
env = record (cluster (node_in "slinky-0" (idle ∷ drain ∷ []) "slurm-operator: x") []) {
  read_object = λ tr object. ok live;
}

abbrev working : Pod
working = record (pod_named "slinky-1") { phase = running; node_name = "n1" }

abbrev builder : Builder
builder = record {
  build_cluster_worker_service = λ nodeset. ok (record live { fields = λ f. "built" });
  build_cluster_worker_pdb = λ nodeset.
      ok (record live {
        kind = pod_disruption_budget;
        name = "slurm-budget";
        fields = λ f. "built";
      });
  build_worker_ssh_config = λ nodeset. ok live;
  set_owner_reference = λ nodeset object. ok object;
}

abbrev one_by_one : ℕ → List ℕ → List ℕ
one_by_one n is = is

-- A node that gets the taint has no other, and one that loses it has none.
abbrev marked : Node → Taint → Result (Node × Bool)
marked node taint = ok (record node { taints = taint ∷ [] }, true)

abbrev unmarked : Node → Taint → Result (Node × Bool)
unmarked node taint = ok (record node { taints = [] }, true)

abbrev tainter : Tainter
tainter = record { add_or_update_taint = marked; remove_taint = unmarked }

abbrev owner : Pod → Option OwnerReference
owner pod = some (record {
  api_version = "";
  kind = "NodeSet";
  name = "slinky-1";
  uid = "u1";
  controller = some true;
})

abbrev world : World
world = record {
  env = env;
  orders = one_by_one;
  initial = 1;
  api = all_ready;
  parse_time = no_times;
  sort = insertion_sort;
  name_less = λ s t. false;
  scaled = λ value total round_up. some (pos 1);
  now = 0;
  new_pod = λ nodeset hash n. ok (pod_named "slinky-1");
}

abbrev tools : Tools
tools = record {
  builder = builder;
  wrap = λ s e. e;
  expand = λ s. ok [];
  format = λ n. "";
  tainter = tainter;
  owner_of = owner;
  schedule = one_by_one;
}

abbrev keep_order : List Pod → List Pod
keep_order pods = pods

abbrev daemons : Daemons Bool
daemons = record {
  scheduler = record {
    fits_node_affinity = λ pod node. true;
    tolerates_taints = λ pod node. true;
    tolerates_no_execute = λ pod node. true;
  };
  pod_on = λ nodeset node. some (pod_named "slinky-1");
  get_target_node_name = λ pod. some pod.node_name;
  backoff =
      λ nodeset name. record { in_backoff = λ w. w; next = λ w. true; enqueue_after = λ w. w };
  sort = keep_order;
  new_daemon_pod = λ nodeset name hash. ok (pod_named name);
}

-- Slurm lists another node only, so the pod that works without one is deleted.
deletes_drifted :
    (sync_slurm_nodes env (λ is. is) 1 all_ready 0 worker (working ∷ []) []).1
    ≡ delete_pod working ∷ slurm_list_nodes false ∷ []
unfolding sync_slurm_nodes get_slurm_node_name get?
deletes_drifted = refl

sync_then_update-Safe_example :
    Adds
      (SyncCall env all_ready 0 worker (working ∷ []))
      []
      (sync_then_update tools daemons world worker (working ∷ []) (λ tr. true) "h" false []).0.1
sync_then_update-Safe_example =
    sync_then_update-Safe tools daemons world worker (working ∷ []) (λ tr. true) "h" false []

-- The two objects of the cluster, and one that has both: it tells them by their names.
abbrev budget : Object
budget = record live { kind = pod_disruption_budget; name = "slurm-budget" }

abbrev holding : Env
holding = record env {
  read_object = λ tr object. ok (if str_eq object.name "slurm-budget" then budget else live);
}

sync_cluster_worker-Stale_example :
    Adds StaleCall [] (sync_cluster_worker_service builder holding (λ s e. e) worker []).1
    × Adds StaleCall [] (sync_cluster_worker_pdb builder holding (λ s e. e) worker []).1
sync_cluster_worker-Stale_example =
    sync_cluster_worker-Stale builder (λ nodeset object. (refl, (refl, refl, refl))) holding
      (λ s e. e) live budget (λ tr object key. rw (key.2) refl) (λ tr object key. rw (key.2) refl)
      worker (refl, refl, refl) (refl, refl, refl) []

abbrev node : Node
node = record { name = "n1"; labels = []; annotations = []; unschedulable = false; taints = [] }

same_text : (s : String) → str_eq s s ≡ true
same_text s = (eq_iff s s).1 refl

tainter-TaintLaws : TaintLaws tainter
tainter-TaintLaws = record {
  added = λ n taint. rw (same_text taint.key, same_text taint.effect) refl;
  removed = λ n taint. refl;
  added_same = λ n taint. inl refl;
  removed_same = λ n taint. inl refl;
}

sync_taint_fn_lem_example :
    LeftAs env node
      (runs_worker owner "n1" (worker ∷ []) (working ∷ []))
      []
      (patch_node (record node { taints = taint_node_worker ∷ [] }) node ∷ [])
unfolding sync_taint_fn node_set_with_pod tainting_uids
sync_taint_fn_lem_example =
    sync_taint_fn_lem owner tainter tainter-TaintLaws env (worker ∷ []) (working ∷ []) node [] _
      refl

plan_nodes_lem_example :
    let plan = (plan_nodes daemons worker [] (node ∷ []) false).0 in
    (plan.0 ≡ map (λ n. n.name) (keep (needs_pod daemons Perm.refl worker []) (node ∷ [])))
    × (count_if is_terminating plan.1 ≡ 0)
plan_nodes_lem_example = plan_nodes_lem daemons Perm.refl worker [] (node ∷ []) false
