-- ===== src/PodOrder/Examples.antt =====
-- Runs of the order of pods and of the two functions that cut a list of pods.
use mathlib.Core.List.{Perm}
use slurm_operator.Prelude.{
  ℕ, ◌≡◌, refl, true, false, not, String, [], ◌∷◌, ◌++◌, Option, none, length, count_if, All,
}
use slurm_operator.Prelude.Int.{pos}
use slurm_operator.Api.{Pod, running, failed}
use slurm_operator.PodUtils.{PodApi, is_healthy}
use slurm_operator.Samples.{pod_named}
use slurm_operator.PodOrder.{
  less, cordoned, less_by_creation, split_active_pods, split_unhealthy_pods,
}
use slurm_operator.Annotations.{get_bool_from_annotations}
use slurm_operator.PodOrder.Sorting.{insertion_sort, insertion_sort-SortSpec}
use slurm_operator.PodOrder.Lex.{lex_less}
use slurm_operator.PodOrder.Rank.{keys, less-lex}
use slurm_operator.PodOrder.Split.{Before, split_active_pods_lem, split_unhealthy_pods_lem}

-- Every running pod is ready.
abbrev api : PodApi
api = record {
  is_pod_ready = λ pod. true;
  is_pod_available = λ pod n now. true;
  get_pod_condition = λ cs kind. none;
}

abbrev no_times : String → Option ℕ
no_times s = none

abbrev older : Pod
older = record (pod_named "slinky-0") { creation_timestamp = 5; phase = running }

abbrev newer : Pod
newer = record (pod_named "slinky-1") { creation_timestamp = 9; phase = failed }

-- The healthy pod is the older one, and is handed out as the unhealthy one.
healthy_as_unhealthy :
    split_unhealthy_pods api (λ s t. false) insertion_sort (newer ∷ older ∷ [])
    ≡ (older ∷ [], newer ∷ [])
unfolding split_unhealthy_pods less_by_creation insertion_sort
healthy_as_unhealthy = refl

split_active_pods_lem_example :
    let (first, second) =
      split_active_pods api no_times insertion_sort (older ∷ newer ∷ []) (pos 1) in
    Perm (first ++ second) (older ∷ newer ∷ [])
    × (length first ≡ 1)
    × (All (λ pod. cordoned api no_times pod ≡ false) (older ∷ newer ∷ [])
        → Before (less api no_times) first second)
split_active_pods_lem_example =
    split_active_pods_lem api no_times insertion_sort insertion_sort-SortSpec (older ∷ newer ∷ [])
      (pos 1)

split_unhealthy_pods_lem_example :
    let unhealthy = λ (a : PodApi). count_if (λ pod. not (is_healthy a pod)) (newer ∷ older ∷ []) in
    let (first, second) =
      split_unhealthy_pods api (λ s t. false) insertion_sort (newer ∷ older ∷ []) in
    Perm (first ++ second) (newer ∷ older ∷ [])
    × (length first ≡ 1)
    × (unhealthy api ≡ unhealthy api
        → split_unhealthy_pods api (λ s t. false) insertion_sort (newer ∷ older ∷ [])
          ≡ split_unhealthy_pods api (λ s t. false) insertion_sort (newer ∷ older ∷ []))
split_unhealthy_pods_lem_example =
    split_unhealthy_pods_lem api no_times insertion_sort insertion_sort-SortSpec api (λ s t. false)
      (newer ∷ older ∷ [])

less-lex_example : less api no_times older newer ≡ lex_less (keys api no_times) older newer
unfolding cordoned get_bool_from_annotations
less-lex_example = less-lex api no_times older newer refl
