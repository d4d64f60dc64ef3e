-- ===== src/NodeSetSync/Choose.antt =====
-- internal/controller/nodeset/nodeset_sync.go: which pods a NodeSet creates, deletes and updates.
-- An int is a natural number where it counts, an integer where it can be negative.
pub mod Ordinals
pub mod Update
pub mod Replicas
use slurm_operator.Prelude.{
  ℕ, zero, suc, ◌+◌, ◌-◌, String, Bool, true, false, not, ◌||◌, List, [], ◌∷◌, ◌++◌, Option, none,
  some, ◌==◌, str_eq, length, count_if, map, if◌then◌else◌,
}
use slurm_operator.Prelude.Int.{ℤ, pos, negsuc, pos_part, ◌-ℤ◌}
use slurm_operator.Api.{Pod, NodeSet, IntOrString}
use slurm_operator.Api.Maps.{get_value}
use slurm_operator.Api.WellKnown.{scaling_mode, daemon_set, on_delete}
use slurm_operator.PodUtils.{PodApi, is_terminating}
use slurm_operator.MathUtils.{clamp, get_scaled_value}
use slurm_operator.Naming.{get_ordinal}
use slurm_operator.PodOrder.{split_active_pods, split_unhealthy_pods}

-- `usedOrdinals.Has`.
abbrev pub has_ordinal : ℕ → List ℤ → Bool
has_ordinal n [] = false
has_ordinal n (pos m ∷ used) = m == n || has_ordinal n used
has_ordinal n (negsuc m ∷ used) = has_ordinal n used

-- `for usedOrdinals.Has(ordinal) { ordinal++ }`, with fuel.
unfoldable pub next_free : ℕ → List ℤ → ℕ → ℕ
next_free zero used ordinal = ordinal
next_free (suc fuel) used ordinal =
    let rest = next_free fuel used (suc ordinal) in
    if has_ordinal ordinal used then rest else ordinal

-- The ordinals of `podsToCreate`: each round takes a free one and marks it as used.
unfoldable pub pick_ordinals : ℕ → List ℤ → ℕ → List ℕ
unfolding next_free
pick_ordinals zero used ordinal = []
pick_ordinals (suc n) used ordinal =
    let free = next_free (length used) used ordinal in free ∷ pick_ordinals n (pos free ∷ used) free

-- `historycontrol.GetRevision`.
abbrev pub revision_of : Pod → String
revision_of pod = get_value "controller-revision-hash" pod.labels

-- `findUpdatedPods`: the new pods and the old ones.
unfoldable pub find_updated_pods : List Pod → String → List Pod × List Pod
find_updated_pods [] hash = ([], [])
find_updated_pods (pod ∷ pods) hash =
    let rest = find_updated_pods pods hash in
    if is_terminating pod
    then rest
    else if str_eq (revision_of pod) hash
    then (pod ∷ rest.0, rest.1)
    else (rest.0, pod ∷ rest.1)

abbrev pub replicas_of : NodeSet → ℤ
replicas_of nodeset = elim nodeset.replicas [ none ↦ pos 1 | some n ↦ n ]

-- What a reconcile in StatefulSet mode does with the pods of that mode: create pods with some
-- ordinals, delete some and keep the others, or process all.
pub data ReplicaPlan : Type 0 where
  scale_out : List ℕ → ReplicaPlan
  scale_in : List Pod → List Pod → ReplicaPlan
  process : ReplicaPlan

module _ (api : PodApi) (parse_time : String → Option ℕ)
    (sort : (Pod → Pod → Bool) → List Pod → List Pod) where
  -- By `diff`, negative, positive or 0: all pods' ordinals are used ones.
  unfoldable pub plan_for : List Pod → List Pod → ℤ → ReplicaPlan
  unfolding pick_ordinals get_ordinal split_active_pods
  plan_for pods pods_new_scaling (negsuc n) =
      scale_out (pick_ordinals (suc n) (map get_ordinal pods) 0)
  plan_for pods pods_new_scaling (pos zero) = process
  plan_for pods pods_new_scaling (pos (suc n)) =
      let (del, keep) = split_active_pods api parse_time sort pods_new_scaling (pos (suc n)) in
      scale_in del keep

  unfoldable pub replica_plan : NodeSet → List Pod → List Pod → ReplicaPlan
  unfolding plan_for ◌-ℤ◌
  replica_plan nodeset pods pods_new_scaling =
      plan_for pods pods_new_scaling (pos (length pods_new_scaling) -ℤ replicas_of nodeset)

  module _ (scaled : Option IntOrString → ℤ → Bool → Option ℤ) (now : ℕ) where
    -- `remainingUnavailable`, from the pods that are new and the total that is wanted.
    unfoldable pub remaining_unavailable : NodeSet → List Pod → ℤ → ℤ
    unfolding clamp get_scaled_value ◌-ℤ◌
    remaining_unavailable nodeset new_pods total =
        let num_unavailable =
          count_if (λ pod. not (api.is_pod_available pod nodeset.min_ready_seconds now)) new_pods in
        let max_unavailable = get_scaled_value scaled nodeset.max_unavailable total true (pos 1) in
        clamp (max_unavailable -ℤ pos num_unavailable) (pos 0) max_unavailable

    -- `splitUpdatePods`: the pods to delete and the pods to keep.
    unfoldable pub split_update_pods : NodeSet → List Pod → String → List Pod × List Pod
    unfolding find_updated_pods remaining_unavailable split_active_pods
    split_update_pods nodeset pods hash =
        if str_eq nodeset.update_strategy_type on_delete
        then ([], [])
        else (let (new_pods, old_pods) = find_updated_pods pods hash in
            let total =
              if str_eq nodeset.scaling_mode daemon_set
              then pos (length pods)
              else replicas_of nodeset in
            let (del, remaining) =
              split_active_pods api parse_time sort old_pods
                (remaining_unavailable nodeset new_pods total) in
            (del, new_pods ++ remaining))
