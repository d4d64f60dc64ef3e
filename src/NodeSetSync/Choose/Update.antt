-- ===== src/NodeSetSync/Choose/Update.antt =====
-- A rolling update makes no more pods unavailable than it may.
use mathlib.Core.List.{Perm}
use slurm_operator.Prelude.{
  ℕ, ◌-◌, ◌≡◌, refl, ap, ◌∙◌, min, Bool, true, false, not, ◌&&◌, String, List, [], ◌∷◌, ◌++◌,
  Option, arith, length, if◌then◌else◌, str_eq, count_if, keep,
}
use slurm_operator.Prelude.Int.{ℤ, pos, pos_part, ◌-ℤ◌}
use slurm_operator.Api.{Pod, NodeSet, IntOrString}
use slurm_operator.Api.WellKnown.{daemon_set, on_delete}
use slurm_operator.PodUtils.{PodApi, is_terminating}
use slurm_operator.MathUtils.{clamp, get_scaled_value}
use slurm_operator.PodOrder.{split_active_pods}
use slurm_operator.PodOrder.Split.{SortSpec, split_active_pods_lem}
use slurm_operator.NodeSetSync.Choose.{
  revision_of, find_updated_pods, replicas_of, remaining_unavailable, split_update_pods,
}

-- The pods that an update leaves alone and those that it replaces.
abbrev pub is_new : String → Pod → Bool
is_new hash pod = not (is_terminating pod) && str_eq (revision_of pod) hash

abbrev pub is_old : String → Pod → Bool
is_old hash pod = not (is_terminating pod) && not (str_eq (revision_of pod) hash)

deal :
    (gone same : Bool) (pod : Pod) (new old : List Pod)
    → Path
        (List Pod × List Pod)
        (if gone then (new, old) else if same then (pod ∷ new, old) else (new, pod ∷ old))
        (
          if not gone && same then pod ∷ new else new,
          if not gone && not same then pod ∷ old else old,
        )
deal true same pod new old = refl
deal false true pod new old = refl
deal false false pod new old = refl

pub find_updated_pods-keep :
    (pods : List Pod) (hash : String)
    → find_updated_pods pods hash ≡ (keep (is_new hash) pods, keep (is_old hash) pods)
unfolding find_updated_pods
find_updated_pods-keep [] hash = refl
find_updated_pods-keep (pod ∷ pods) hash = rw (find_updated_pods-keep pods hash) (
    deal (is_terminating pod) (str_eq (revision_of pod) hash) pod (keep (is_new hash) pods)
      (keep (is_old hash) pods))

clamp_budget :
    (most : ℤ) (n : ℕ) → pos_part (clamp (most -ℤ pos n) (pos 0) most) ≡ pos_part most - n
unfolding clamp ◌-ℤ◌
clamp_budget most n = ground arith

module _ (api : PodApi) (parse_time : String → Option ℕ)
    (sort : (Pod → Pod → Bool) → List Pod → List Pod) (spec : SortSpec sort)
    (scaled : Option IntOrString → ℤ → Bool → Option ℤ) (now : ℕ) where
  abbrev pub unavailable : NodeSet → List Pod → ℕ
  unavailable nodeset pods =
      count_if (λ pod. not (api.is_pod_available pod nodeset.min_ready_seconds now)) pods

  abbrev pub budget : NodeSet → List Pod → ℕ
  budget nodeset pods =
      let total =
        if str_eq nodeset.scaling_mode daemon_set then pos (length pods) else replicas_of nodeset in
      pos_part (get_scaled_value scaled nodeset.max_unavailable total true (pos 1))

  -- Where updates are not left to the user, `splitUpdatePods` deletes only pods of an older
  -- revision that are not terminating, keeps the other ones and the new ones, and deletes as many
  -- as there are, up to what `maxUnavailable` leaves after the new pods that are unavailable.
  pub split_update_pods_lem :
      (nodeset : NodeSet) (pods : List Pod) (hash : String)
      → str_eq nodeset.update_strategy_type on_delete ≡ false
      → let (del, kept) = split_update_pods api parse_time sort scaled now nodeset pods hash in
        (remaining : List Pod) × (kept ≡ keep (is_new hash) pods ++ remaining)
        × Perm (del ++ remaining) (keep (is_old hash) pods)
        × (length del
            ≡ min
                (budget nodeset pods - unavailable nodeset (keep (is_new hash) pods))
                (length (keep (is_old hash) pods)))
  unfolding split_update_pods remaining_unavailable
  split_update_pods_lem nodeset pods hash rolling =
      let total =
        if str_eq nodeset.scaling_mode daemon_set then pos (length pods) else replicas_of nodeset in
      let most = get_scaled_value scaled nodeset.max_unavailable total true (pos 1) in
      let n = unavailable nodeset (keep (is_new hash) pods) in
      let part = clamp (most -ℤ pos n) (pos 0) most in
      let split = split_active_pods_lem api parse_time sort spec (keep (is_old hash) pods) part in
      rw (rolling, find_updated_pods-keep pods hash)
        (
          (split_active_pods api parse_time sort (keep (is_old hash) pods) part).1,
          refl,
          split.0,
          split.1 ∙ ap (λ k. min k (length (keep (is_old hash) pods))) (clamp_budget most n),
        )
