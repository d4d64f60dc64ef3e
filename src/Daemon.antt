-- ===== src/Daemon.antt =====
-- internal/controller/nodeset/nodeset_sync.go: the pods of a NodeSet in DaemonSet mode, one on each
-- node that should run one. A map from nodes to pods is an association list; `sort` stands for
-- sort.Sort by `ActivePods`, and the record says what k8s.io/component-helpers answers on a pod and
-- a node.
pub mod Groups
pub mod Surplus
mod Examples
use slurm_operator.Prelude.{
  ℕ, String, Bool, true, false, not, ◌&&◌, ◌||◌, List, [], ◌∷◌, ◌++◌, Option, none, some, keep,
  str_eq, if◌then◌else◌,
}
use slurm_operator.Api.{Pod, Node}
use slurm_operator.PodUtils.{is_failed, is_succeeded, is_terminating}

abbrev pub Groups : Type 0
Groups = List (String × List Pod)

unfoldable pub pods_on : String → Groups → Option (List Pod)
pods_on name [] = none
pods_on name ((n, pods) ∷ groups) =
    let rest = pods_on name groups in if str_eq n name then some pods else rest

-- `m[name] = append(m[name], pod)`.
unfoldable pub add_to : String → Pod → Groups → Groups
add_to name pod [] = (name, pod ∷ []) ∷ []
add_to name pod ((n, pods) ∷ groups) =
    let rest = add_to name pod groups in
    if str_eq n name then (n, pods ++ pod ∷ []) ∷ groups else (n, pods) ∷ rest

-- `podutil.IsPodTerminal`.
abbrev pub is_pod_terminal : Pod → Bool
is_pod_terminal pod = is_failed pod || is_succeeded pod

abbrev pub is_left_out : Bool → Pod → Bool
is_left_out include_deleted_terminal pod =
    not include_deleted_terminal && (is_pod_terminal pod && is_terminating pod)

module _ (get_target_node_name : Pod → Option String) where
  abbrev pub group_pod : Option String → Pod → Groups → Groups
  group_pod none pod groups = groups
  group_pod (some name) pod groups = add_to name pod groups

  unfoldable pub group_pods : Bool → List Pod → Groups → Groups
  unfolding add_to
  group_pods include [] groups = groups
  group_pods include (pod ∷ pods) groups =
      group_pods include pods (
        if is_left_out include pod then groups else group_pod (get_target_node_name pod) pod groups)

  unfoldable pub get_nodes_to_daemon_pods : Bool → List Pod → Groups
  unfolding group_pods
  get_nodes_to_daemon_pods include pods = group_pods include pods []

-- Whether a pod may run on a node: its affinity, and whether it tolerates the taints that keep it
-- from being scheduled, and the ones that evict it.
pub record Scheduler : Type 0 where
  pub fits_node_affinity : Pod → Node → Bool
  pub tolerates_taints : Pod → Node → Bool
  pub tolerates_no_execute : Pod → Node → Bool

-- `NodeShouldRunDaemonPod` for the pod that would be made, if it can be: whether to run one there,
-- and whether to let one run.
unfoldable pub node_should_run_daemon_pod : Scheduler → Option Pod → Node → Bool × Bool
node_should_run_daemon_pod scheduler none node = (false, false)
node_should_run_daemon_pod scheduler (some pod) node =
    let fits_node_name = str_eq pod.node_name "" || str_eq pod.node_name node.name in
    let tolerant =
      if scheduler.tolerates_taints pod node
      then (true, true)
      else (false, scheduler.tolerates_no_execute pod node) in
    if not fits_node_name || not (scheduler.fits_node_affinity pod node)
    then (false, false)
    else tolerant

-- The backoff of failed pods, by node: whether a node is in it, what its next step does, and the
-- other reconcile that is asked for meanwhile.
pub record Backoff (W : Type 0) : Type 0 where
  pub in_backoff : W → Bool
  pub next : W → W
  pub enqueue_after : W → W

-- What a loop over the pods of a node sorts them into: the pods to delete and the running ones.
abbrev pub Sorted : Type 0 → Type 0
Sorted W = (List Pod × List Pod) × W

module _ {W : Type 0} (backoff : Backoff W) (sort : List Pod → List Pod) where
  abbrev pub to_deleted : Pod → Sorted W → Sorted W
  to_deleted pod ((deleted, running), w) = ((pod ∷ deleted, running), w)

  abbrev pub to_running : Pod → Sorted W → Sorted W
  to_running pod ((deleted, running), w) = ((deleted, pod ∷ running), w)

  unfoldable pub triage : List Pod → W → Sorted W
  triage [] w = (([], []), w)
  triage (pod ∷ pods) w =
      let rest = triage pods in
      if is_terminating pod
      then rest w
      else if is_failed pod
      then (if backoff.in_backoff w
          then rest (backoff.enqueue_after w)
          else to_deleted pod (rest (backoff.next w)))
      else if is_succeeded pod
      then to_deleted pod (rest w)
      else to_running pod (rest w)

  -- All but the first.
  abbrev pub surplus : List Pod → List Pod
  surplus [] = []
  surplus (pod ∷ pods) = pods

  abbrev pub settle : Sorted W → List Pod × W
  settle ((deleted, running), w) = (deleted ++ surplus (sort running), w)

  abbrev pub or_nil : Option (List Pod) → List Pod
  or_nil none = []
  or_nil (some pods) = pods

  -- The node's name where it needs a pod, the pods to delete there, and the state of the backoff.
  unfoldable pub pods_should_be_on_node :
      Bool × Bool → String → Option (List Pod) → W → (List String × List Pod) × W
  unfolding triage
  pods_should_be_on_node (should_run, should_continue_running) name pods w =
      let (settled, w') = settle (triage (or_nil pods) w) in
      let exists = elim pods as (λ x. Bool) [ none ↦ false | some ps ↦ true ] in
      if should_run && not exists
      then ((name ∷ [], []), w)
      else if should_continue_running
      then (([], settled), w')
      else (([], keep (λ pod. not (is_terminating pod)) (or_nil pods)), w)
