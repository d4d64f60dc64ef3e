-- ===== src/Status.antt =====
-- internal/controller/nodeset/nodeset_sync_status.go: the status of a NodeSet and of its pods. The
-- counters are int32 in the source and count pods of one cluster, so they are natural numbers here.
pub mod Replicas
pub mod Conditions
pub mod Protect
pub mod Sync
mod Examples
use slurm_operator.Prelude.{
  ℕ, ◌+◌, ◌*◌, ◌==◌, String, Bool, true, false, not, ◌&&◌, ◌||◌, List, [], ◌∷◌, ◌++◌, Option, none,
  some, map, length, get_elem?, keep, str_eq, has_prefix, chars, if◌then◌else◌,
}
use slurm_operator.Prelude.Int.{ℤ, pos, ltb_ℤ, ◌-ℤ◌}
use slurm_operator.Api.{Error, text, Result, ok, err, is_not_found, Pod, NodeSet, Condition}
use slurm_operator.Api.Maps.{Labels, insert, remove}
use slurm_operator.Api.WellKnown.{stateful_set, daemon_set, pod_protect}
use slurm_operator.PodUtils.{
  PodApi, is_created, is_running_and_ready, is_terminating, is_node_busy, is_healthy,
}
use slurm_operator.MathUtils.{clamp}
use slurm_operator.Naming.{get_slurm_node_name}
use slurm_operator.NodeSetSync.Choose.{replicas_of, revision_of}
use slurm_operator.Batch.{slow_start_batch}
use slurm_operator.Steps.{Step, done, fails, ◌>>-◌, run, Retrier}

pub record ReplicaStatus : Type 0 where
  pub replicas : ℕ
  pub ready : ℕ
  pub available : ℕ
  pub unavailable : ℤ
  pub current : ℕ
  pub updated : ℕ
  pub desired : ℤ

abbrev pub no_replicas : ReplicaStatus
no_replicas = record {
  replicas = 0;
  ready = 0;
  available = 0;
  unavailable = pos 0;
  current = 0;
  updated = 0;
  desired = pos 0;
}

module _ (api : PodApi) (now : ℕ) where
  -- One round of the loop for each of the three counts.
  abbrev pub count_replica : Pod → ReplicaStatus → ReplicaStatus
  count_replica pod s = if is_created pod then record s { replicas = s.replicas + 1 } else s

  abbrev pub count_available : NodeSet → Pod → ReplicaStatus → ReplicaStatus
  count_available nodeset pod s =
      if api.is_pod_available pod nodeset.min_ready_seconds now
      then record s { available = s.available + 1 }
      else s

  abbrev pub count_ready : NodeSet → Pod → ReplicaStatus → ReplicaStatus
  count_ready nodeset pod s =
      if is_running_and_ready api pod
      then count_available nodeset pod (record s { ready = s.ready + 1 })
      else s

  abbrev pub count_current : String → Pod → ReplicaStatus → ReplicaStatus
  count_current hash pod s =
      if str_eq (revision_of pod) hash then record s { current = s.current + 1 } else s

  abbrev pub count_updated : String → Pod → ReplicaStatus → ReplicaStatus
  count_updated hash pod s =
      if str_eq (revision_of pod) hash then record s { updated = s.updated + 1 } else s

  abbrev pub count_revision : String → String → Pod → ReplicaStatus → ReplicaStatus
  count_revision current update pod s =
      if is_created pod && not (is_terminating pod)
      then count_updated update pod (count_current current pod s)
      else s

  unfoldable pub count_pods : NodeSet → String → String → List Pod → ReplicaStatus → ReplicaStatus
  count_pods nodeset current update [] s = s
  count_pods nodeset current update (pod ∷ pods) s =
      count_pods nodeset current update pods
        (count_revision current update pod (count_ready nodeset pod (count_replica pod s)))

  -- With the hashes of the two revisions, and what `getDesiredNodeCountForDaemonSet` answers.
  unfoldable pub calculate_replica_status :
      Result ℤ → NodeSet → List Pod → String → String → Result ReplicaStatus
  unfolding count_pods clamp
  calculate_replica_status desired_nodes nodeset pods current update =
      let s = count_pods nodeset current update pods no_replicas in
      if str_eq nodeset.scaling_mode stateful_set
      then ok (record s {
        unavailable = clamp (pos s.replicas -ℤ pos s.available) (pos 0) (pos s.replicas);
        desired = replicas_of nodeset;
      })
      else (if str_eq nodeset.scaling_mode daemon_set
          then elim desired_nodes [
            | err e ↦ err e
            | ok n ↦
                ok (record s { unavailable = clamp (n -ℤ pos s.available) (pos 0) n; desired = n })
          ]
          else ok s)

-- `NodeSetStatus`, without the generation and the selector; the conditions are copied.
pub record NodeSetStatus : Type 0 where
  pub replicas : ReplicaStatus
  pub slurm_idle : ℕ
  pub slurm_allocated : ℕ
  pub slurm_down : ℕ
  pub slurm_drain : ℕ
  pub node_set_hash : String
  pub collision_count : ℕ

-- What is read of `CalculateNodeStatus`.
pub record NodeCounts : Type 0 where
  pub total : ℕ
  pub idle : ℕ
  pub allocated : ℕ
  pub mixed : ℕ
  pub down : ℕ
  pub drain : ℕ
  pub node_states : String → List Condition

-- The calls that are made for the status. `update_status` writes the status of the NodeSet read
-- before; `push` asks for another reconcile after some nanoseconds.
pub record Calls (W : Type 0) : Type 0 where
  pub refresh_node_cache : W → Option Error × W
  pub update_node_with_pod_info : Pod → W → Option Error × W
  pub desired_nodes : W → Result ℤ
  pub calculate_node_status : Step W NodeCounts
  pub get_node_set : Step W (Unit {0})
  pub update_status : NodeSetStatus → W → Option Error × W
  pub push : ℤ → W → W
  pub get_pod : Pod → Step W Pod
  pub patch : Pod → W → Option Error × W
  pub patch_status : Pod → W → Option Error × W

module _ {W : Type 0} (calls : Calls W) (api : PodApi) where
  abbrev pub add_found : Option Condition → List Condition → List Condition
  add_found none rest = rest
  add_found (some d) rest = d ∷ rest

  -- The Slurm node states of a pod: the earlier ones that are gone are dropped.
  module _ (pod : Pod) (states : List Condition) where
    abbrev pub still_present : List Condition → List Condition
    still_present [] = []
    still_present (c ∷ cs) =
        let rest = still_present cs in add_found (api.get_pod_condition pod.conditions c.kind) rest

    abbrev pub is_state : Condition → Bool
    is_state c = has_prefix c.kind "SlurmNodeState"

    unfoldable pub filtered_conditions : List Condition → List Condition
    filtered_conditions [] = []
    filtered_conditions (c ∷ cs) =
        let rest = filtered_conditions cs in
        if not (is_state c) then c ∷ rest else still_present states ++ rest

  -- `podutil.UpdatePodCondition` for each state.
  abbrev pub set_conditions :
      (Condition → List Condition → List Condition)
      → List Condition
      → List Condition
      → List Condition
  set_conditions update_condition [] conditions = conditions
  set_conditions update_condition (c ∷ cs) conditions =
      set_conditions update_condition cs (update_condition c conditions)

  unfoldable pub updated_conditions :
      (Condition → List Condition → List Condition) → Pod → List Condition → Pod
  unfolding filtered_conditions
  updated_conditions update_condition pod states = record pod {
    conditions =
        set_conditions update_condition states (filtered_conditions pod states pod.conditions);
  }

  -- A pod that is gone ends the loop over all the pods.
  abbrev pub after_patch : Step W (Unit {0}) → Option Error × W → Result (Unit {0}) × W
  after_patch rest (none, w) = rest w
  after_patch rest (some e, w) = (if is_not_found e then ok tt else err e, w)

  unfoldable pub update_node_set_pod_conditions :
      (Condition → List Condition → List Condition)
      → (String → List Condition)
      → List Pod
      → Step W (Unit {0})
  unfolding updated_conditions
  update_node_set_pod_conditions update_condition node_states [] w = (ok tt, w)
  update_node_set_pod_conditions update_condition node_states (pod ∷ pods) w =
      let rest = update_node_set_pod_conditions update_condition node_states pods in
      let updated =
        updated_conditions update_condition pod (node_states (get_slurm_node_name pod)) in
      after_patch rest (calls.patch_status updated w)

  -- The label that protects a pod from eviction.
  unfoldable pub protected_pod : NodeSet → Pod → Pod
  unfolding is_node_busy insert remove
  protected_pod nodeset pod =
      let protect : Bool = elim nodeset.workload_disruption_protection [
        | none ↦ true
        | some b ↦ b
      ] in
      if is_node_busy api pod.conditions && protect
      then record pod { labels = insert pod_protect "true" pod.labels }
      else record pod { labels = remove pod_protect pod.labels }
