-- ===== src/Events/Examples.antt =====
-- Events of a pod that a NodeSet controls, and of an orphan.
use slurm_operator.Prelude.{
  ◌≡◌, refl, true, List, [], ◌∷◌, none, some, count_if, str_eq, if◌then◌else◌,
}
use slurm_operator.Api.{Pod, OwnerReference}
use slurm_operator.Samples.{worker, pod_named}
use slurm_operator.Events.{
  Reader, resolve_controller_ref, PodEvent, created, updated, deleted, pod_object, tombstone,
  other_object, handle_all, create_pod, pod_updated, pod_deleted, deletion_observed, enqueued,
}
use slurm_operator.Events.Pods.{creations, is_counted, creations-handle_all}
use slurm_operator.Events.Wakes.{Wakes, Wakes-all}

abbrev ref : OwnerReference
ref = record {
  api_version = "slinky.slurm.net/v1beta1";
  kind = "NodeSet";
  name = "slinky-1";
  uid = "u1";
  controller = some true;
}

abbrev reader : Reader
reader = record {
  controller_of = λ pod. if str_eq pod.name "slinky-1-0" then some ref else none;
  get_node_set = λ namespace name. some worker;
  list_node_sets = λ namespace. some (worker ∷ []);
  get_pod = λ namespace name. none;
  pods_on_node = λ name. none;
  key_of = λ nodeset. some "slurm/slinky-1";
  selects = λ selector labels. true;
  labels_equal = λ a b. true;
  refs_equal = λ a b. true;
  is_pod_ready = λ pod. true;
}

abbrev owned : Pod
owned = pod_named "slinky-1-0"

abbrev ending : Pod
ending = record owned { deletion_timestamp = some 5; resource_version = "2" }

abbrev events : List PodEvent
events =
    created (pod_object owned)
    ∷ created (pod_object (pod_named "orphan"))
    ∷ updated (pod_object ending) (pod_object owned)
    ∷ deleted (tombstone (pod_object ending))
    ∷ created other_object
    ∷ []

creations-handle_all_example :
    creations (handle_all reader events) ≡ count_if (is_counted reader) events
creations-handle_all_example = creations-handle_all reader events

ends :
    pod_updated reader ending owned
    ≡ deletion_observed "slurm/slinky-1" "slurm/slinky-1-0" ∷ enqueued worker ∷ []
unfolding pod_updated
ends = refl

Wakes-all_example :
    Wakes worker (create_pod reader ending)
    × Wakes worker (pod_updated reader ending owned)
    × Wakes worker (pod_deleted reader ending)
unfolding resolve_controller_ref
Wakes-all_example = Wakes-all reader ending owned ref worker "slurm/slinky-1" refl refl refl refl
