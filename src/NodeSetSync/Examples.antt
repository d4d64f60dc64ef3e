-- ===== src/NodeSetSync/Examples.antt =====
-- Runs of the reconciliation of a NodeSet's pods.
use mathlib.Core.List.{Perm}
use slurm_operator.Prelude.{
  false, ℕ, ◌-◌, ◌<◌, ◌≡◌, refl, min, Bool, List, [], ◌∷◌, ◌++◌, Option, some, length, map, keep,
}
use slurm_operator.Prelude.Int.{ℤ, pos, negsuc}
use slurm_operator.Api.{ok, Pod, NodeSet, IntOrString}
use slurm_operator.Naming.{get_ordinal}
use slurm_operator.PodOrder.Sorting.{insertion_sort, insertion_sort-SortSpec}
use slurm_operator.Samples.{worker, pod_named, all_ready, no_times, node_in, cluster}
use slurm_operator.Effects.{Env, idle, allocated, drain}
use slurm_operator.NodeSetSync.Choose.{
  scale_out, scale_in, process, replica_plan, pick_ordinals, split_update_pods,
}
use slurm_operator.NodeSetSync.Sync.{World, rolling_pods}
use slurm_operator.NodeSetSync.Sync.Rolling.{healthy_old, rolling_pods_lem}
use slurm_operator.NodeSetSync.Choose.Ordinals.{Picked}
use slurm_operator.NodeSetSync.Choose.Replicas.{replica_plan_lem}
use slurm_operator.NodeSetSync.Choose.Update.{
  is_new, is_old, unavailable, budget, split_update_pods_lem,
}

-- Ordinals 0 and 2 are used, and one pod has a name without an ordinal.
picks_gaps : pick_ordinals 3 (pos 2 ∷ pos 0 ∷ negsuc 0 ∷ []) 0 ≡ 1 ∷ 3 ∷ 4 ∷ []
unfolding pick_ordinals
picks_gaps = refl

abbrev drained : Env
drained = cluster (node_in "slinky-0" (idle ∷ drain ∷ []) "slurm-operator: x") []

abbrev busy : Env
busy = cluster (node_in "slinky-0" (allocated ∷ []) "") []

abbrev one_by_one : ℕ → List ℕ → List ℕ
one_by_one n is = is

abbrev pods : List Pod
pods = pod_named "slinky-0" ∷ pod_named "slinky-2" ∷ []

abbrev three : NodeSet
three = record worker { replicas = some (pos 3) }

replica_plan_lem_example :
    let plan = replica_plan all_ready no_times insertion_sort three pods pods in
    (length pods < 3
      → (ordinals : List ℕ) × (plan ≡ scale_out ordinals)
        × Picked (3 - length pods) (map get_ordinal pods) 0 ordinals)
    × (length pods ≡ 3 → plan ≡ process)
    × (3 < length pods
        → (del : List Pod) × (keep : List Pod) × (plan ≡ scale_in del keep)
          × (length del ≡ length pods - 3)
          × Perm (del ++ keep) pods)
replica_plan_lem_example =
    replica_plan_lem all_ready no_times insertion_sort insertion_sort-SortSpec three pods pods 3
      refl

abbrev half : Option IntOrString → ℤ → Bool → Option ℤ
half value total round_up = some (pos 1)

split_update_pods_lem_example :
    let (del, kept) = split_update_pods all_ready no_times insertion_sort half 0 three pods "h" in
    (remaining : List Pod) × (kept ≡ keep (is_new "h") pods ++ remaining)
    × Perm (del ++ remaining) (keep (is_old "h") pods)
    × (length del
        ≡ min
            (budget all_ready no_times insertion_sort insertion_sort-SortSpec half 0 three pods
              - unavailable all_ready no_times insertion_sort insertion_sort-SortSpec half 0 three
                  (keep (is_new "h") pods))
            (length (keep (is_old "h") pods)))
split_update_pods_lem_example =
    split_update_pods_lem all_ready no_times insertion_sort insertion_sort-SortSpec half 0 three
      pods "h" refl

abbrev world : World
world = record {
  env = drained;
  orders = one_by_one;
  initial = 1;
  api = all_ready;
  parse_time = no_times;
  sort = insertion_sort;
  name_less = λ s t. false;
  scaled = half;
  now = 0;
  new_pod = λ nodeset hash n. ok (pod_named "slinky-1");
}

rolling_pods_lem_example :
    length (rolling_pods world three pods "h").1
    ≡ min
        (budget all_ready no_times insertion_sort insertion_sort-SortSpec half 0 three
          (healthy_old world insertion_sort-SortSpec pods "h"))
        (length (healthy_old world insertion_sort-SortSpec pods "h"))
rolling_pods_lem_example = rolling_pods_lem world insertion_sort-SortSpec three pods "h" refl
