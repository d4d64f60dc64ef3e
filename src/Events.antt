-- ===== src/Events.antt =====
-- internal/controller/nodeset/eventhandler: how the NodeSet controller is woken. A handler returns
-- what it does, in order: the expectations that it lowers and the requests that it queues. What a
-- handler reads of the cache is a `Reader`: the cache does not change while one event is handled,
-- and of an error the handlers use only that there is one. `controller_of` is
-- `metav1.GetControllerOf`, `key_of` is `kubecontroller.KeyFunc`, and `selects` says whether a
-- selector of labels is not empty and matches. An object of another type is `other_object`.
pub mod Pods
pub mod Wakes
mod Examples
use slurm_operator.Prelude.{
  ℕ, ◌+◌, ◌*◌, String, Bool, true, false, not, ◌&&◌, ◌||◌, List, [], ◌∷◌, ◌++◌, Option, none, some,
  map, keep, str_eq, if◌then◌else◌,
}
use slurm_operator.Prelude.Int.{ℤ, pos, negsuc, pos_part, ltb_ℤ}
use slurm_operator.Api.{Pod, Node, NodeSet, OwnerReference}
use slurm_operator.Api.Maps.{Labels}
use slurm_operator.PodUtils.{is_terminating}
use slurm_operator.Naming.{is_pod_from_node_set}
use slurm_operator.Selectors.{new_builder, with_worker_selector_labels}
use slurm_operator.NodeSetSync.Scale.{pod_key}

pub data Notice : Type 0 where
  creation_observed : String → Notice
  deletion_observed : String → String → Notice
  enqueued : NodeSet → Notice
  enqueued_after : NodeSet → ℕ → Notice

pub record Reader : Type 0 where
  pub controller_of : Pod → Option OwnerReference
  pub get_node_set : String → String → Option NodeSet
  pub list_node_sets : String → Option (List NodeSet)
  pub get_pod : String → String → Option Pod
  pub pods_on_node : String → Option (List Pod)
  pub key_of : NodeSet → Option String
  pub selects : Labels → Labels → Bool
  pub labels_equal : Labels → Labels → Bool
  pub refs_equal : Option OwnerReference → Option OwnerReference → Bool
  pub is_pod_ready : Pod → Bool

-- What an event holds: a pod, the last known state of one, or something else.
pub data EventObject : Type 0 where
  pod_object : Pod → EventObject
  tombstone : EventObject → EventObject
  other_object : EventObject

abbrev pub node_set_kind : String
node_set_kind = "NodeSet"

abbrev pub node_set_api_version : String
node_set_api_version = "slinky.slurm.net/v1beta1"

abbrev pub or_none : {A : Type 0} → Option (List A) → List A
or_none none = []
or_none (some xs) = xs

abbrev pub differs : Bool → Bool → Bool
differs true b = not b
differs false b = b

module _ (r : Reader) where
  -- The NodeSet that was found, where it is the one that the reference means.
  abbrev pub same_uid : OwnerReference → Option NodeSet → Option NodeSet
  same_uid ref none = none
  same_uid ref (some nodeset) = if str_eq nodeset.uid ref.uid then some nodeset else none

  unfoldable pub resolve_controller_ref : String → OwnerReference → Option NodeSet
  resolve_controller_ref namespace ref =
      if not (str_eq ref.kind node_set_kind) || not (str_eq ref.api_version node_set_api_version)
      then none
      else same_uid ref (r.get_node_set namespace ref.name)

  abbrev pub is_selected : Pod → NodeSet → Bool
  is_selected pod nodeset =
      r.selects (with_worker_selector_labels new_builder nodeset.name) pod.labels

  unfoldable pub get_pod_node_sets : Pod → List NodeSet
  unfolding with_worker_selector_labels
  get_pod_node_sets pod = keep (is_selected pod) (or_none (r.list_node_sets pod.namespace))

  abbrev pub enqueue_all : List NodeSet → List Notice
  enqueue_all nodesets = map enqueued nodesets

  -- The end of `deletePod`, once the controller is known, and its key.
  abbrev pub observe_deletion : Pod → NodeSet → Option String → List Notice
  observe_deletion pod nodeset none = []
  observe_deletion pod nodeset (some key) =
      deletion_observed key (pod_key pod) ∷ enqueued nodeset ∷ []

  abbrev pub deleted_from : Pod → Option NodeSet → List Notice
  deleted_from pod none = []
  deleted_from pod (some nodeset) = observe_deletion pod nodeset (r.key_of nodeset)

  -- The controller that a reference of the pod means.
  abbrev pub resolved : Pod → Option OwnerReference → Option NodeSet
  resolved pod none = none
  resolved pod (some ref) = resolve_controller_ref pod.namespace ref

  -- `deletePod` of a pod.
  unfoldable pub pod_deleted : Pod → List Notice
  unfolding resolve_controller_ref
  pod_deleted pod = deleted_from pod (resolved pod (r.controller_of pod))

  unfoldable pub delete_pod : EventObject → List Notice
  unfolding pod_deleted
  delete_pod (pod_object pod) = pod_deleted pod
  delete_pod (tombstone (pod_object pod)) = pod_deleted pod
  delete_pod (tombstone object) = []
  delete_pod other_object = []

  abbrev pub observe_creation : NodeSet → Option String → List Notice
  observe_creation nodeset none = []
  observe_creation nodeset (some key) = creation_observed key ∷ enqueued nodeset ∷ []

  abbrev pub created_for : Option NodeSet → List Notice
  created_for none = []
  created_for (some nodeset) = observe_creation nodeset (r.key_of nodeset)

  -- The rest of `createPod`, for a pod that is not being deleted.
  unfoldable pub new_pod : Pod → Option OwnerReference → List Notice
  unfolding resolve_controller_ref get_pod_node_sets
  new_pod pod (some ref) = created_for (resolve_controller_ref pod.namespace ref)
  new_pod pod none = enqueue_all (get_pod_node_sets pod)

  unfoldable pub create_pod : Pod → List Notice
  unfolding pod_deleted new_pod
  create_pod pod = if is_terminating pod then pod_deleted pod else new_pod pod (r.controller_of pod)

  abbrev pub enqueue_found : Option NodeSet → List Notice
  enqueue_found none = []
  enqueue_found (some nodeset) = enqueued nodeset ∷ []

  -- A pod that has become ready is looked at again when it may count as available.
  abbrev pub requeue_duration : NodeSet → ℕ
  requeue_duration nodeset = pos_part nodeset.min_ready_seconds * 1000000000 + 1000000000

  abbrev pub after_ready : Pod → Pod → NodeSet → List Notice
  after_ready cur old nodeset =
      if (not (r.is_pod_ready old) && r.is_pod_ready cur) && ltb_ℤ (pos 0) nodeset.min_ready_seconds
      then enqueued_after nodeset (requeue_duration nodeset) ∷ []
      else []

  abbrev pub updated_for : Pod → Pod → Option NodeSet → List Notice
  updated_for cur old none = []
  updated_for cur old (some nodeset) = enqueued nodeset ∷ after_ready cur old nodeset

  -- The end of `updatePod`, by the controller of the pod as it is; whether anything has changed.
  unfoldable pub current_pod : Pod → Pod → Bool → Option OwnerReference → List Notice
  unfolding resolve_controller_ref get_pod_node_sets
  current_pod cur old changed (some ref) =
      updated_for cur old (resolve_controller_ref cur.namespace ref)
  current_pod cur old changed none = if changed then enqueue_all (get_pod_node_sets cur) else []

  abbrev pub former_controller : Pod → Bool → List Notice
  former_controller old ref_changed =
      if ref_changed then enqueue_found (resolved old (r.controller_of old)) else []

  abbrev pub label_changed : Pod → Pod → Bool
  label_changed cur old = not (r.labels_equal cur.labels old.labels)

  abbrev pub ref_changed : Pod → Pod → Bool
  ref_changed cur old = not (r.refs_equal (r.controller_of cur) (r.controller_of old))

  unfoldable pub pod_updated : Pod → Pod → List Notice
  unfolding pod_deleted resolve_controller_ref current_pod
  pod_updated cur old =
      if str_eq cur.resource_version old.resource_version
      then []
      else if is_terminating cur
      then pod_deleted cur ++ (if label_changed cur old then pod_deleted old else [])
      else former_controller old (ref_changed cur old)
        ++ current_pod cur old (label_changed cur old || ref_changed cur old) (r.controller_of cur)

  unfoldable pub update_pod : EventObject → EventObject → List Notice
  unfolding pod_updated
  update_pod (pod_object cur) (pod_object old) = pod_updated cur old
  update_pod _ _ = []

  -- The methods of the handler.
  unfoldable pub create : EventObject → List Notice
  unfolding create_pod
  create (pod_object pod) = create_pod pod
  create _ = []

  abbrev pub refreshed : Option Pod → List Notice
  refreshed none = []
  refreshed (some pod) =
      enqueue_all (keep (λ nodeset. is_pod_from_node_set nodeset pod) (get_pod_node_sets pod))

  unfoldable pub generic : EventObject → List Notice
  unfolding get_pod_node_sets is_pod_from_node_set
  generic (pod_object pod) = refreshed (r.get_pod pod.namespace pod.name)
  generic _ = []

  -- The handler of nodes: the controllers of the pods on the node.
  unfoldable pub enqueue_node_sets_for_node : List Pod → List Notice
  unfolding resolve_controller_ref
  enqueue_node_sets_for_node [] = []
  enqueue_node_sets_for_node (pod ∷ pods) =
      enqueue_found (resolved pod (r.controller_of pod)) ++ enqueue_node_sets_for_node pods

  unfoldable pub update_node : Node → Node → List Notice
  unfolding enqueue_node_sets_for_node
  update_node old new =
      let cordon_changed = differs old.unschedulable new.unschedulable in
      if (cordon_changed || not (r.labels_equal old.annotations new.annotations))
        || not (r.labels_equal old.labels new.labels)
      then enqueue_node_sets_for_node (or_none (r.pods_on_node new.name))
      else []

-- The events of pods, and what the handler does on each.
pub data PodEvent : Type 0 where
  created : EventObject → PodEvent
  updated : EventObject → EventObject → PodEvent
  deleted : EventObject → PodEvent
  touched : EventObject → PodEvent

module _ (r : Reader) where
  unfoldable pub handle : PodEvent → List Notice
  unfolding create update_pod delete_pod generic
  handle (created object) = create r object
  handle (updated cur old) = update_pod r cur old
  handle (deleted object) = delete_pod r object
  handle (touched object) = generic r object

  unfoldable pub handle_all : List PodEvent → List Notice
  unfolding handle
  handle_all [] = []
  handle_all (e ∷ es) = handle e ++ handle_all es
