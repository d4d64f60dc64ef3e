-- ===== src/PodOrder.antt =====
-- internal/controller/nodeset/utils/sort.go: the order in which pods are given up, and the two
-- functions that cut a list of pods by it. `sort.Sort` is a parameter `sort`, a function of `Less`
-- and the list; `time.Parse` and k8s.io/kubernetes' readiness of a pod are parameters too.
pub mod Lex
pub mod Rank
pub mod Split
pub mod Sorting
mod Examples
use Prim.Native.String
use slurm_operator.Prelude.{
  ℕ, String, Bool, true, false, not, ◌&&◌, ◌||◌, ◌-◌, Option, List, [], ◌∷◌, length, take, drop,
  count_if, ltb, ◌==◌, str_eq, if◌then◌else◌,
}
use slurm_operator.Prelude.Int.{ℤ, pos, pos_part, ltb_ℤ, ◌==ℤ◌}
use slurm_operator.Api.{Pod, Phase, Condition, unset, pending, running, succeeded, failed, unknown}
use slurm_operator.Api.WellKnown.{pod_cordon, pod_deletion_cost, pod_deadline}
use slurm_operator.PodUtils.{PodApi, is_healthy}
use slurm_operator.MathUtils.{clamp}
use slurm_operator.Naming.{get_ordinal}
use slurm_operator.Annotations.{
  get_number_from_annotations, get_bool_from_annotations, get_time_from_annotations,
}

-- `podPhaseToWeight[phase]`: 0 for a phase that is not in the map.
abbrev pub pod_phase_to_weight : Phase → ℕ
pod_phase_to_weight unknown = 1
pod_phase_to_weight running = 2
pod_phase_to_weight _ = 0

abbrev pub bool_eq : Bool → Bool → Bool
bool_eq true b = b
bool_eq false b = not b

abbrev pub is_empty : String → Bool
is_empty s = str_eq s ""

-- The last transition time of the first condition "Ready" that is true.
ready_time_of : List Condition → ℕ
ready_time_of [] = 0
ready_time_of (c ∷ cs) =
    let rest = ready_time_of cs in
    if str_eq c.kind "Ready" && c.is_true then c.last_transition_time else rest

unfoldable pub after_or_zero : ℕ → ℕ → Bool
after_or_zero t1 t2 = if t1 == 0 || t2 == 0 then t1 == 0 else ltb t2 t1

module _ (api : PodApi) (parse_time : String → Option ℕ) where
  pub pod_ready_time : Pod → ℕ
  unfolding ready_time_of
  pod_ready_time pod = if api.is_pod_ready pod then ready_time_of pod.conditions else 0

  pub deletion_cost : Pod → ℤ
  deletion_cost pod = (get_number_from_annotations pod.annotations pod_deletion_cost).0

  pub deadline : Pod → ℕ
  deadline pod = (get_time_from_annotations parse_time pod.annotations pod_deadline).0

  pub cordoned : Pod → Bool
  cordoned pod = (get_bool_from_annotations pod.annotations pod_cordon).0

  -- The steps of `Less` on times, the last ones.
  unfoldable pub less_by_time : Pod → Pod → Bool
  unfolding after_or_zero
  less_by_time pod1 pod2 =
      if api.is_pod_ready pod1
        && api.is_pod_ready pod2
        && not (pod_ready_time pod1 == pod_ready_time pod2)
      then after_or_zero (pod_ready_time pod1) (pod_ready_time pod2)
      else if not (pod1.creation_timestamp == pod2.creation_timestamp)
      then after_or_zero pod1.creation_timestamp pod2.creation_timestamp
      else false

  -- The steps of `Less` from the cordon on.
  unfoldable pub less_by_cordon : Pod → Pod → Bool
  less_by_cordon pod1 pod2 =
      if cordoned pod1 || cordoned pod2
      then cordoned pod1
      else if not (get_ordinal pod1 ==ℤ get_ordinal pod2)
      then ltb_ℤ (get_ordinal pod2) (get_ordinal pod1)
      else less_by_time pod1 pod2

  -- The steps of `Less` from the deletion cost on.
  unfoldable pub less_by_cost : Pod → Pod → Bool
  less_by_cost pod1 pod2 =
      if not (deletion_cost pod1 ==ℤ deletion_cost pod2)
      then ltb_ℤ (deletion_cost pod1) (deletion_cost pod2)
      else if not (deadline pod1 == deadline pod2)
      then ltb (deadline pod1) (deadline pod2)
      else less_by_cordon pod1 pod2

  -- `ActivePods.Less`.
  unfoldable pub less : Pod → Pod → Bool
  less pod1 pod2 =
      if not (str_eq pod1.node_name pod2.node_name)
        && (is_empty pod1.node_name || is_empty pod2.node_name)
      then is_empty pod1.node_name
      else if not (pod_phase_to_weight pod1.phase == pod_phase_to_weight pod2.phase)
      then ltb (pod_phase_to_weight pod1.phase) (pod_phase_to_weight pod2.phase)
      else if not (bool_eq (api.is_pod_ready pod1) (api.is_pod_ready pod2))
      then not (api.is_pod_ready pod1)
      else less_by_cost pod1 pod2

  module _ (sort : (Pod → Pod → Bool) → List Pod → List Pod) where
    -- `SplitActivePods`: the slice is sorted in place, so the caller's `pods` is the sorted one.
    unfoldable pub split_active_pods : List Pod → ℤ → List Pod × List Pod
    split_active_pods pods partition =
        let pivot = pos_part (clamp partition (pos 0) (pos (length pods))) in
        let sorted = sort less pods in (take pivot sorted, drop pivot sorted)

-- `PodsByCreationTimestamp.Less`; texts are compared by a parameter, Go's `<` on strings.
unfoldable pub less_by_creation : (String → String → Bool) → Pod → Pod → Bool
less_by_creation name_less pod1 pod2 =
    if pod1.creation_timestamp == pod2.creation_timestamp
    then name_less pod1.name pod2.name
    else ltb pod1.creation_timestamp pod2.creation_timestamp

unfoldable pub split_unhealthy_pods :
    PodApi
    → (String → String → Bool)
    → ((Pod → Pod → Bool) → List Pod → List Pod)
    → List Pod
    → List Pod × List Pod
split_unhealthy_pods api name_less sort pods =
    let num_unhealthy = count_if (λ pod. not (is_healthy api pod)) pods in
    let sorted = sort (less_by_creation name_less) pods in
    (take num_unhealthy sorted, drop num_unhealthy sorted)
