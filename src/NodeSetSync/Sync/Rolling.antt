-- ===== src/NodeSetSync/Sync/Rolling.antt =====
-- A rolling update does not count the new pods that are unavailable.
use slurm_operator.Prelude.{
  ℕ, zero, suc, ◌+◌, ◌≤◌, ◌≡◌, refl, min, Bool, false, not, String, List, [], ◌∷◌, arith, length,
  drop, keep, count_if, length-keep, count_if-le-length, count_if-perm, str_eq,
}
use slurm_operator.Api.{Pod, NodeSet}
use slurm_operator.Api.WellKnown.{on_delete}
use slurm_operator.PodOrder.{split_unhealthy_pods}
use slurm_operator.PodOrder.Split.{SortSpec}
use slurm_operator.NodeSetSync.Choose.{find_updated_pods}
use slurm_operator.NodeSetSync.Choose.Update.{
  is_new, is_old, budget, find_updated_pods-keep, split_update_pods_lem,
}
use slurm_operator.NodeSetSync.Sync.{World, rolling_pods}

module _ (p : Pod → Bool) where
  count_if-drop : (n : ℕ) (xs : List Pod) → count_if p (drop n xs) ≤ count_if p xs
  count_if-drop zero xs = omega arith
  count_if-drop (suc n) [] = omega arith
  count_if-drop (suc n) (x ∷ xs) = omega (arith, count_if-drop n xs)

  count_if-not : (xs : List Pod) → count_if p xs + count_if (λ x. not (p x)) xs ≡ length xs
  count_if-not [] = omega arith
  count_if-not (x ∷ xs) = ground (arith, count_if-not xs)

count_new-old :
    (hash : String) (pods : List Pod) → count_if (is_new hash) (keep (is_old hash) pods) ≡ 0
count_new-old hash [] = refl
count_new-old hash (pod ∷ pods) = ground (arith, count_new-old hash pods)

count_not-old :
    (hash : String) (pods : List Pod)
    → count_if (λ x. not (is_old hash x)) (keep (is_old hash) pods) ≡ 0
count_not-old hash [] = refl
count_not-old hash (pod ∷ pods) = ground (arith, count_not-old hash pods)

module _ (w : World) (spec : SortSpec w.sort) where
  -- The pods that `splitUpdatePods` is given by a rolling update.
  abbrev pub healthy_old : List Pod → String → List Pod
  healthy_old pods hash =
      (split_unhealthy_pods w.api w.name_less w.sort (find_updated_pods pods hash).1).1

  -- A test that no old pod passes, none of them passes.
  none_of :
      (p : Pod → Bool) (pods : List Pod) (hash : String)
      → count_if p (keep (is_old hash) pods) ≡ 0
      → count_if p (healthy_old pods hash) ≡ 0
  unfolding split_unhealthy_pods
  none_of p pods hash h = rw (find_updated_pods-keep pods hash) (
      omega (
        arith,
        h,
        count_if-drop p _ (w.sort _ (keep (is_old hash) pods)),
        count_if-perm p (spec.perm _ (keep (is_old hash) pods)),
      ))

  -- Where updates are not left to the user, a rolling update hands `splitUpdatePods` old pods only:
  -- so of the old pods that it takes for healthy it deletes as many as `maxUnavailable` allows or
  -- there are, however many of the new pods are unavailable.
  pub rolling_pods_lem :
      (nodeset : NodeSet) (pods : List Pod) (hash : String)
      → str_eq nodeset.update_strategy_type on_delete ≡ false
      → length (rolling_pods w nodeset pods hash).1
        ≡ min
            (budget w.api w.parse_time w.sort spec w.scaled w.now nodeset (healthy_old pods hash))
            (length (healthy_old pods hash))
  unfolding rolling_pods
  rolling_pods_lem nodeset pods hash rolling =
      let healthy = healthy_old pods hash in
      let new = keep (is_new hash) healthy in
      let (remaining, kept, dealt, many) =
        split_update_pods_lem w.api w.parse_time w.sort spec w.scaled w.now nodeset healthy hash
          rolling in
      omega (
        arith,
        many,
        count_if-le-length (λ pod. not (w.api.is_pod_available pod nodeset.min_ready_seconds w.now))
            new,
        length-keep (is_new hash) healthy,
        none_of (is_new hash) pods hash (count_new-old hash pods),
        length-keep (is_old hash) healthy,
        count_if-not (is_old hash) healthy,
        none_of (λ x. not (is_old hash x)) pods hash (count_not-old hash pods),
      )
