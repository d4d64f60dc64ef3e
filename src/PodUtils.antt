-- ===== src/PodUtils.antt =====
-- internal/utils/podutils/pod.go and pkg/conditions/conditions.go: tests on a pod. What
-- k8s.io/kubernetes/pkg/api/v1/pod says of readiness and availability is the record `PodApi`.
pub mod Drained
use slurm_operator.Prelude.{
  ℕ, String, ◌≡◌, Bool, true, false, not, ◌&&◌, ◌||◌, List, [], ◌∷◌, Option, none, some, str_eq,
  if◌then◌else◌,
}
use slurm_operator.Prelude.Int.{ℤ}
use slurm_operator.Api.{Pod, Phase, Condition, unset, pending, running, succeeded, failed, unknown}
use slurm_operator.Api.Maps.{get_value}
use slurm_operator.Api.WellKnown.{pod_cordon}

-- `podutil.IsPodReady`, `podutil.IsPodAvailable` at a time, and `podutil.GetPodCondition`.
pub record PodApi : Type 0 where
  pub is_pod_ready : Pod → Bool
  pub is_pod_available : Pod → ℤ → ℕ → Bool
  pub get_pod_condition : List Condition → String → Option Condition

abbrev pub is_pod_cordon : Pod → Bool
is_pod_cordon pod = str_eq (get_value pod_cordon pod.annotations) "true"

abbrev pub phase_is_running : Phase → Bool
phase_is_running running = true
phase_is_running _ = false

abbrev pub is_running : Pod → Bool
is_running pod = phase_is_running pod.phase

abbrev pub phase_is_set : Phase → Bool
phase_is_set unset = false
phase_is_set _ = true

abbrev pub is_created : Pod → Bool
is_created pod = phase_is_set pod.phase

abbrev pub phase_is_failed : Phase → Bool
phase_is_failed failed = true
phase_is_failed _ = false

abbrev pub is_failed : Pod → Bool
is_failed pod = phase_is_failed pod.phase

abbrev pub phase_is_succeeded : Phase → Bool
phase_is_succeeded succeeded = true
phase_is_succeeded _ = false

abbrev pub is_succeeded : Pod → Bool
is_succeeded pod = phase_is_succeeded pod.phase

abbrev pub is_set {ℓ} : {A : Type ℓ} → Option A → Bool
is_set none = false
is_set (some a) = true

abbrev pub is_terminating : Pod → Bool
is_terminating pod = is_set pod.deletion_timestamp

module _ (api : PodApi) where
  abbrev pub is_running_and_ready : Pod → Bool
  is_running_and_ready pod = is_running pod && api.is_pod_ready pod

  abbrev pub is_running_and_available : Pod → ℤ → ℕ → Bool
  is_running_and_available pod min_ready_seconds now =
      api.is_pod_available pod min_ready_seconds now

  abbrev pub is_healthy : Pod → Bool
  is_healthy pod = is_running_and_ready pod && not (is_terminating pod)

abbrev pub condition_holds : Option Condition → Bool
condition_holds none = false
condition_holds (some c) = c.is_true

module _ (api : PodApi) where
  pub is_condition_true : List Condition → String → Bool
  is_condition_true status kind = condition_holds (api.get_pod_condition status kind)

  unfoldable pub is_node_busy : List Condition → Bool
  is_node_busy status =
      let is_busy =
        is_condition_true status "SlurmNodeStateAllocated"
        || is_condition_true status "SlurmNodeStateMixed" in
      is_busy || is_condition_true status "SlurmNodeStateCompleting"

  unfoldable pub is_node_drain : List Condition → Bool
  is_node_drain status =
      is_condition_true status "SlurmNodeStateDrain"
      && not (is_condition_true status "SlurmNodeStateUndrain")

  unfoldable pub is_node_drained : List Condition → Bool
  is_node_drained status = is_node_drain status && not (is_node_busy status)

  unfoldable pub is_node_draining : List Condition → Bool
  is_node_draining status = is_node_drain status && is_node_busy status
