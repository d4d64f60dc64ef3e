-- ===== src/Events/Wakes.antt =====
-- The controller of a pod is queued whenever the pod is created, changed or deleted.
use slurm_operator.Prelude.{
  String, ◌≡◌, refl, sym, ap, ◌∙◌, Bool, false, ◌||◌, List, [], ◌∷◌, ◌++◌, some, append_assoc,
  str_eq, Bool-cases, inl, inr,
}
use slurm_operator.Api.{Pod, NodeSet, OwnerReference}
use slurm_operator.PodUtils.{is_terminating}
use slurm_operator.NodeSetSync.Scale.{pod_key}
use slurm_operator.Events.{
  Notice, creation_observed, deletion_observed, enqueued, Reader, resolve_controller_ref,
  pod_deleted, new_pod, create_pod, after_ready, current_pod, former_controller, label_changed,
  ref_changed, pod_updated,
}

-- The NodeSet is queued among the other things that a handler does.
abbrev pub Wakes : NodeSet → List Notice → Type 0
Wakes nodeset notices =
    (before : List Notice) × (after : List Notice) × (notices ≡ before ++ enqueued nodeset ∷ after)

Wakes-before :
    {nodeset : NodeSet} {notices : List Notice} (front : List Notice)
    → Wakes nodeset notices
    → Wakes nodeset (front ++ notices)
Wakes-before front (before, after, p) =
    (front ++ before, after, ap (λ l. front ++ l) p ∙ sym (append_assoc front before _))

Wakes-after :
    {nodeset : NodeSet} {notices : List Notice} (rest : List Notice)
    → Wakes nodeset notices
    → Wakes nodeset (notices ++ rest)
Wakes-after rest (before, after, p) =
    (before, after ++ rest, ap (λ l. l ++ rest) p ∙ append_assoc before _ rest)

module _ (r : Reader) (pod old : Pod) (ref : OwnerReference) (nodeset : NodeSet) (key : String)
    (controls : r.controller_of pod ≡ some ref)
    (found : resolve_controller_ref r pod.namespace ref ≡ some nodeset)
    (has_key : r.key_of nodeset ≡ some key) where
  pod_deleted-Wakes : Wakes nodeset (pod_deleted r pod)
  unfolding pod_deleted
  pod_deleted-Wakes =
      rw (controls, found, has_key) (deletion_observed key (pod_key pod) ∷ [], [], refl)

  create_pod-Wakes : Wakes nodeset (create_pod r pod)
  unfolding create_pod new_pod
  create_pod-Wakes = elim (Bool-cases (is_terminating pod)) [
    | inl e ↦ rw e pod_deleted-Wakes
    | inr e ↦ rw (e, controls, found, has_key) (creation_observed key ∷ [], [], refl)
  ]

  current_pod-Wakes :
      (changed : Bool) → Wakes nodeset (current_pod r pod old changed (r.controller_of pod))
  unfolding current_pod
  current_pod-Wakes changed = rw (controls, found) ([], after_ready r pod old nodeset, refl)

  pod_updated-Wakes :
      str_eq pod.resource_version old.resource_version ≡ false
      → Wakes nodeset (pod_updated r pod old)
  unfolding pod_updated
  pod_updated-Wakes new = elim (Bool-cases (is_terminating pod)) [
    | inl e ↦ rw (new, e) (Wakes-after _ pod_deleted-Wakes)
    | inr e ↦
        rw (new, e)
          (Wakes-before (former_controller r old (ref_changed r pod old))
            (current_pod-Wakes (label_changed r pod old || ref_changed r pod old)))
  ]

  -- The NodeSet that a pod's controlling reference means is queued when the pod is created, when it
  -- is changed to another version, and when it is deleted, whether or not the pod is being deleted,
  -- and whatever it was before.
  pub Wakes-all :
      str_eq pod.resource_version old.resource_version ≡ false
      → Wakes nodeset (create_pod r pod)
        × Wakes nodeset (pod_updated r pod old)
        × Wakes nodeset (pod_deleted r pod)
  Wakes-all new = (create_pod-Wakes, pod_updated-Wakes new, pod_deleted-Wakes)
