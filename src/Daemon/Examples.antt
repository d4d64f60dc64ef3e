-- ===== src/Daemon/Examples.antt =====
-- The pods of a NodeSet in DaemonSet mode, tested on two nodes.
use slurm_operator.Prelude.{
  String, Bool, true, false, ◌≡◌, refl, List, [], ◌∷◌, Option, none, some, if◌then◌else◌, str_eq,
}
use mathlib.Core.List.Perm
use mathlib.Core.List.{Perm}
use slurm_operator.Api.{Pod, running, failed}
use slurm_operator.Samples.{pod_named}
use slurm_operator.Daemon.{Backoff, pods_on, get_nodes_to_daemon_pods, pods_should_be_on_node}
use slurm_operator.Daemon.Groups.{pods_on-get_nodes_to_daemon_pods}

abbrev on : String → String → Pod
on name node = record (pod_named name) { phase = running; node_name = node }

abbrev target : Pod → Option String
target pod = if str_eq pod.node_name "" then none else some pod.node_name

abbrev pods : List Pod
pods = on "a" "n1" ∷ pod_named "b" ∷ on "c" "n2" ∷ on "d" "n1" ∷ []

pods_on-get_nodes_to_daemon_pods_example :
    pods_on "n1" (get_nodes_to_daemon_pods target false pods)
    ≡ some (on "a" "n1" ∷ on "d" "n1" ∷ [])
pods_on-get_nodes_to_daemon_pods_example = pods_on-get_nodes_to_daemon_pods target false "n1" pods

-- The backoff is a counter of failed pods: after one of them the node waits.
abbrev backoff : Backoff Bool
backoff = record { in_backoff = λ w. w; next = λ w. true; enqueue_after = λ w. w }

abbrev there : List Pod
there =
    record (pod_named "a") { phase = failed }
    ∷ record (pod_named "b") { phase = failed }
    ∷ on "c" "n1"
    ∷ on "d" "n1"
    ∷ []

abbrev keep_order : List Pod → List Pod
keep_order ps = ps

-- The second failed pod is left for later.
waits :
    (pods_should_be_on_node backoff keep_order (true, true) "n1" (some there) false).0
    ≡ ([], record (pod_named "a") { phase = failed } ∷ on "d" "n1" ∷ [])
unfolding pods_should_be_on_node
waits = refl
