-- ===== src/Events/Pods.antt =====
-- Which events of pods are observed as creations, and that they wake the controller of a pod.
use slurm_operator.Prelude.{
  ℕ, ◌≡◌, refl, String, Bool, true, false, not, ◌&&◌, ◌||◌, List, [], ◌∷◌, ◌++◌, Option, none, some,
  count_if, count_if-append, str_eq, Bool-cases, inl, inr, arith, if◌then◌else◌,
}
use slurm_operator.Prelude.Int.{pos, ltb_ℤ}
use slurm_operator.Api.{Pod, NodeSet, OwnerReference}
use slurm_operator.PodUtils.{is_terminating, is_set}
use slurm_operator.Events.{
  Notice, creation_observed, enqueued, enqueued_after, Reader, EventObject, pod_object, tombstone,
  other_object, resolve_controller_ref, resolved, get_pod_node_sets, enqueue_all, observe_deletion,
  deleted_from, pod_deleted, delete_pod, observe_creation, created_for, new_pod, create_pod,
  enqueue_found, requeue_duration, updated_for, current_pod, former_controller, label_changed,
  ref_changed, pod_updated, update_pod, create, refreshed, generic, PodEvent, created, updated,
  deleted, touched, handle, handle_all,
}

abbrev pub is_creation : Notice → Bool
is_creation (creation_observed key) = true
is_creation _ = false

abbrev pub creations : List Notice → ℕ
creations notices = count_if is_creation notices

abbrev to_count : Bool → ℕ
to_count true = 1
to_count false = 0

module _ (r : Reader) where
  abbrev pub has_key : Option NodeSet → Bool
  has_key none = false
  has_key (some nodeset) = is_set (r.key_of nodeset)

  -- The event is the creation of a pod that is not being deleted and that a NodeSet controls.
  abbrev pub is_counted : PodEvent → Bool
  is_counted (created (pod_object pod)) =
      not (is_terminating pod) && has_key (resolved r pod (r.controller_of pod))
  is_counted _ = false

  enqueue_all-0 : (nodesets : List NodeSet) → creations (enqueue_all r nodesets) ≡ 0
  enqueue_all-0 [] = refl
  enqueue_all-0 (nodeset ∷ nodesets) = omega (arith, enqueue_all-0 nodesets)

  deleted_from-0 : (pod : Pod) (o : Option NodeSet) → creations (deleted_from r pod o) ≡ 0
  deleted_from-0 pod none = refl
  deleted_from-0 pod (some nodeset) = go (r.key_of nodeset)
    where
      go : (o : Option String) → creations (observe_deletion r pod nodeset o) ≡ 0
      go none = refl
      go (some key) = refl

  pod_deleted-0 : (pod : Pod) → creations (pod_deleted r pod) ≡ 0
  unfolding pod_deleted
  pod_deleted-0 pod = deleted_from-0 pod _

  delete_pod-0 : (object : EventObject) → creations (delete_pod r object) ≡ 0
  unfolding delete_pod
  delete_pod-0 (pod_object pod) = pod_deleted-0 pod
  delete_pod-0 (tombstone (pod_object pod)) = pod_deleted-0 pod
  delete_pod-0 (tombstone (tombstone object)) = refl
  delete_pod-0 (tombstone other_object) = refl
  delete_pod-0 other_object = refl

  created_for-1 : (o : Option NodeSet) → creations (created_for r o) ≡ to_count (has_key o)
  created_for-1 none = refl
  created_for-1 (some nodeset) = go (r.key_of nodeset)
    where
      go : (o : Option String) → creations (observe_creation r nodeset o) ≡ to_count (is_set o)
      go none = refl
      go (some key) = refl

  new_pod-1 :
      (pod : Pod) (o : Option OwnerReference)
      → creations (new_pod r pod o) ≡ to_count (has_key (resolved r pod o))
  unfolding new_pod
  new_pod-1 pod none = enqueue_all-0 (get_pod_node_sets r pod)
  new_pod-1 pod (some ref) = created_for-1 (resolve_controller_ref r pod.namespace ref)

  create_pod-1 :
      (pod : Pod)
      → creations (create_pod r pod)
        ≡ to_count (not (is_terminating pod) && has_key (resolved r pod (r.controller_of pod)))
  unfolding create_pod
  create_pod-1 pod = elim (Bool-cases (is_terminating pod)) [
    | inl e ↦ rw e (pod_deleted-0 pod)
    | inr e ↦ rw e (new_pod-1 pod (r.controller_of pod))
  ]

  enqueue_found-0 : (o : Option NodeSet) → creations (enqueue_found r o) ≡ 0
  enqueue_found-0 none = refl
  enqueue_found-0 (some nodeset) = refl

  updated_for-0 : (cur old : Pod) (o : Option NodeSet) → creations (updated_for r cur old o) ≡ 0
  updated_for-0 cur old none = refl
  updated_for-0 cur old (some nodeset) =
      go (
        (not (r.is_pod_ready old) && r.is_pod_ready cur) && ltb_ℤ (pos 0) nodeset.min_ready_seconds)
    where
      go :
          (b : Bool)
          → creations (
              enqueued nodeset
              ∷ (if b then enqueued_after nodeset (requeue_duration r nodeset) ∷ [] else []))
            ≡ 0
      go true = refl
      go false = refl

  current_pod-0 :
      (cur old : Pod) (changed : Bool) (o : Option OwnerReference)
      → creations (current_pod r cur old changed o) ≡ 0
  unfolding current_pod
  current_pod-0 cur old changed (some ref) = updated_for-0 cur old _
  current_pod-0 cur old true none = enqueue_all-0 (get_pod_node_sets r cur)
  current_pod-0 cur old false none = refl

  both-0 : (a b : List Notice) → creations a ≡ 0 → creations b ≡ 0 → creations (a ++ b) ≡ 0
  both-0 a b p q = omega (arith, count_if-append is_creation a b, p, q)

  pod_updated-0 : (cur old : Pod) → creations (pod_updated r cur old) ≡ 0
  unfolding pod_updated
  pod_updated-0 cur old =
      go (str_eq cur.resource_version old.resource_version) (is_terminating cur)
        (label_changed r cur old) (ref_changed r cur old)
    where
      go :
          (same_version ends labels refs : Bool)
          → creations (
              if same_version
              then []
              else if ends
              then pod_deleted r cur ++ (if labels then pod_deleted r old else [])
              else former_controller r old refs
                ++ current_pod r cur old (labels || refs) (r.controller_of cur))
            ≡ 0
      go true ends labels refs = refl
      go false true true refs = both-0 _ _ (pod_deleted-0 cur) (pod_deleted-0 old)
      go false true false refs = both-0 _ _ (pod_deleted-0 cur) refl
      go false false labels true =
          both-0 _ _ (enqueue_found-0 (resolved r old (r.controller_of old)))
            (current_pod-0 cur old _ (r.controller_of cur))
      go false false labels false = both-0 [] _ refl (current_pod-0 cur old _ (r.controller_of cur))

  refreshed-0 : (o : Option Pod) → creations (refreshed r o) ≡ 0
  refreshed-0 none = refl
  refreshed-0 (some pod) = enqueue_all-0 _

  handle-1 : (e : PodEvent) → creations (handle r e) ≡ to_count (is_counted e)
  unfolding handle create update_pod generic
  handle-1 (created (pod_object pod)) = create_pod-1 pod
  handle-1 (created (tombstone object)) = refl
  handle-1 (created other_object) = refl
  handle-1 (updated (pod_object cur) (pod_object old)) = pod_updated-0 cur old
  handle-1 (updated (pod_object cur) (tombstone object)) = refl
  handle-1 (updated (pod_object cur) other_object) = refl
  handle-1 (updated (tombstone object) old) = refl
  handle-1 (updated other_object old) = refl
  handle-1 (deleted object) = delete_pod-0 object
  handle-1 (touched (pod_object pod)) = refreshed-0 _
  handle-1 (touched (tombstone object)) = refl
  handle-1 (touched other_object) = refl

  -- Over any events the handler lowers the expected creations once for each creation of a pod that is
  -- not being deleted and whose controlling reference means a NodeSet that is there, and for nothing
  -- else: no update, no deletion, no orphan and no object of another type counts.
  pub creations-handle_all :
      (events : List PodEvent) → creations (handle_all r events) ≡ count_if is_counted events
  unfolding handle_all
  creations-handle_all [] = refl
  creations-handle_all (e ∷ es) = ground (
    arith,
    count_if-append is_creation (handle r e) (handle_all r es),
    handle-1 e,
    creations-handle_all es,
  )
