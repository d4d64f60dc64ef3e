-- ===== src/Status/Replicas.antt =====
-- What `calculateReplicaStatus` counts.
use slurm_operator.Prelude.{
  ℕ, ◌+◌, ◌-◌, ◌≤◌, String, Bool, true, not, ◌&&◌, ◌≡◌, refl, inl, inr, List, [], ◌∷◌, count_if,
  str_eq, Bool-cases, arith,
}
use slurm_operator.Prelude.Int.{ℤ, pos, ◌-ℤ◌, -ℤ_parts, eq_of_parts}
use slurm_operator.Api.{
  Result, ok, Pod, NodeSet, Phase, unset, pending, running, succeeded, failed, unknown,
}
use slurm_operator.Api.WellKnown.{stateful_set}
use slurm_operator.PodUtils.{
  PodApi, is_created, is_running_and_ready, is_terminating, phase_is_running, phase_is_set,
}
use slurm_operator.MathUtils.{clamp}
use slurm_operator.NodeSetSync.Choose.{replicas_of, revision_of}
use slurm_operator.Status.{
  ReplicaStatus, no_replicas, count_pods, count_replica, count_ready, count_revision,
  calculate_replica_status,
}

module _ (api : PodApi) (now : ℕ) (nodeset : NodeSet) where
  abbrev pub is_ready_and_available : Pod → Bool
  is_ready_and_available pod =
      is_running_and_ready api pod && api.is_pod_available pod nodeset.min_ready_seconds now

  abbrev pub has_revision : String → Pod → Bool
  has_revision hash pod =
      (is_created pod && not (is_terminating pod)) && str_eq (revision_of pod) hash

  -- The counts that a list of pods adds.
  pub record Counted (current update : String) (pods : List Pod) (before after : ReplicaStatus)
      : Type 0 where
    pub replicas : after.replicas ≡ before.replicas + count_if is_created pods
    pub ready : after.ready ≡ before.ready + count_if (is_running_and_ready api) pods
    pub available : after.available ≡ before.available + count_if is_ready_and_available pods
    pub current_pods : after.current ≡ before.current + count_if (has_revision current) pods
    pub updated : after.updated ≡ before.updated + count_if (has_revision update) pods

  one-Counted :
      (current update : String) (pod : Pod) (s : ReplicaStatus)
      → Counted current update (pod ∷ []) s (
          count_revision api now current update pod
            (count_ready api now nodeset pod (count_replica api now pod s)))
  one-Counted current update pod s = record {
    replicas = ground arith;
    ready = ground arith;
    available = ground arith;
    current_pods = ground arith;
    updated = ground arith;
  }

  count_pods-Counted :
      (current update : String) (pods : List Pod) (s : ReplicaStatus)
      → Counted current update pods s (count_pods api now nodeset current update pods s)
  unfolding count_pods
  count_pods-Counted current update [] s = record {
    replicas = omega arith;
    ready = omega arith;
    available = omega arith;
    current_pods = omega arith;
    updated = omega arith;
  }
  count_pods-Counted current update (pod ∷ pods) s =
      let t =
        count_revision api now current update pod
          (count_ready api now nodeset pod (count_replica api now pod s)) in
      let one = one-Counted current update pod s in
      let ih = count_pods-Counted current update pods t in
      record {
        replicas = omega (arith, one.replicas, ih.replicas);
        ready = omega (arith, one.ready, ih.ready);
        available = omega (arith, one.available, ih.available);
        current_pods = omega (arith, one.current_pods, ih.current_pods);
        updated = omega (arith, one.updated, ih.updated);
      }

  count_if_mono :
      (p q : Pod → Bool) (pods : List Pod)
      → ((pod : Pod) → p pod ≡ true → q pod ≡ true)
      → count_if p pods ≤ count_if q pods
  count_if_mono p q [] h = omega arith
  count_if_mono p q (pod ∷ pods) h = elim (Bool-cases (p pod)) [
    | inl e ↦ rw (e, h pod e) (omega (arith, count_if_mono p q pods h))
    | inr e ↦ rw e (omega (arith, count_if_mono p q pods h))
  ]

  running_is_created : (pod : Pod) → is_running_and_ready api pod ≡ true → is_created pod ≡ true
  running_is_created pod h = go pod.phase (ground (arith, h))
    where
      go : (phase : Phase) → phase_is_running phase ≡ true → phase_is_set phase ≡ true
      go unset e = e
      go pending e = refl
      go running e = refl
      go succeeded e = refl
      go failed e = refl
      go unknown e = refl

  available_few :
      (pods : List Pod) → count_if is_ready_and_available pods ≤ count_if is_created pods
  available_few pods =
      count_if_mono is_ready_and_available is_created pods
        (λ pod h. running_is_created pod (ground (arith, h)))

  clamp_rest :
      (n a : ℕ) → a ≤ n → (u : ℕ) × (clamp (pos n -ℤ pos a) (pos 0) (pos n) ≡ pos u) × (u + a ≡ n)
  unfolding clamp
  clamp_rest n a h =
      (n - a, eq_of_parts _ _ (ground (arith, h, -ℤ_parts (pos n) (pos a))), omega (arith, h))

  -- In StatefulSet mode `calculateReplicaStatus` counts the pods that are created, that run and are
  -- ready, and of these the available ones; the created ones that are not terminating by the
  -- revisions that they have; and every replica is either available or unavailable.
  pub calculate_replica_status-Counted :
      (desired_nodes : Result ℤ) (pods : List Pod) (current update : String)
      → nodeset.scaling_mode ≡ stateful_set
      → (s : ReplicaStatus) × (unavailable : ℕ) × (calculate_replica_status api now desired_nodes
            nodeset pods current update
          ≡ ok s)
        × Counted current update pods no_replicas s
        × (s.desired ≡ replicas_of nodeset)
        × (s.unavailable ≡ pos unavailable)
        × (unavailable + s.available ≡ s.replicas)
  unfolding calculate_replica_status
  calculate_replica_status-Counted desired_nodes pods current update mode =
      let s = count_pods api now nodeset current update pods no_replicas in
      let c = count_pods-Counted current update pods no_replicas in
      let few = available_few pods in
      let (u, clamped, adds) =
        clamp_rest s.replicas s.available (omega (arith, c.replicas, c.available, few)) in
      (
        record s {
          unavailable = clamp (pos s.replicas -ℤ pos s.available) (pos 0) (pos s.replicas);
          desired = replicas_of nodeset;
        },
        u,
        rw mode refl,
        record {
          replicas = c.replicas;
          ready = c.ready;
          available = c.available;
          current_pods = c.current_pods;
          updated = c.updated;
        },
        refl,
        clamped,
        adds,
      )
