-- ===== src/Status/Sync.antt =====
-- internal/controller/nodeset/nodeset_sync_status.go: the writes of the status, of the NodeSet and
-- of its pods, and their composition in `syncStatus`.
use slurm_operator.Prelude.{
  ℕ, ◌+◌, ◌*◌, ◌==◌, String, not, ◌&&◌, List, [], ◌∷◌, ◌++◌, Option, none, some, length, get_elem?,
  if◌then◌else◌,
}
use slurm_operator.Prelude.Int.{ℤ, pos, ltb_ℤ}
use slurm_operator.Api.{Error, text, Result, ok, err, is_not_found, Pod, NodeSet, Condition}
use slurm_operator.PodUtils.{PodApi, is_healthy}
use slurm_operator.Batch.{slow_start_batch}
use slurm_operator.Steps.{Step, ◌>>-◌, run, Retrier}
use slurm_operator.Status.{
  ReplicaStatus, NodeSetStatus, NodeCounts, Calls, calculate_replica_status, protected_pod,
  update_node_set_pod_conditions,
}

abbrev pub second : ℕ
second = 1000000000

-- `int64(nodeset.Spec.MinReadySeconds)` is not negative where this is used.
abbrev pub seconds_of : ℤ → ℤ
seconds_of (pos n) = pos (n * second + second)
seconds_of n = pos second

module _ {W : Type 0} (calls : Calls W) (api : PodApi) where
  -- The pod is patched twice.
  abbrev pub label_found : NodeSet → Result Pod × W → Result (Unit {0}) × W
  label_found nodeset (err e, w) = (if is_not_found e then ok tt else err e, w)
  label_found nodeset (ok pod, w) =
      let updated = protected_pod calls api nodeset pod in
      (run (calls.patch updated) >>- λ _. run (calls.patch updated)) w

  unfoldable pub sync_pod_pdb_labels : NodeSet → Pod → Step W (Unit {0})
  unfolding protected_pod
  sync_pod_pdb_labels nodeset pod w = label_found nodeset (calls.get_pod pod w)

  -- A function over the pods as one over their indexes, for `SlowStartBatch`.
  abbrev pub error_of : Result (Unit {0}) × W → Option Error × W
  error_of (ok u, w) = (none, w)
  error_of (err e, w) = (some e, w)

  abbrev pub at_index : List Pod → (Pod → Step W (Unit {0})) → ℕ → W → Option Error × W
  at_index pods fn i w = elim (get_elem? pods i) [
    | none ↦ (none, w)
    | some pod ↦ error_of (fn pod w)
  ]

  module _ (order : List ℕ → List ℕ) where
    abbrev pub batch : List Pod → (Pod → Step W (Unit {0})) → Step W (Unit {0})
    batch pods fn w =
        let (n, e, w') = slow_start_batch (at_index pods fn) order (length pods) 1 w in
        (elim e [ none ↦ ok tt | some e ↦ err e ], w')

    unfoldable pub update_node_set_pod_pdb_labels : NodeSet → List Pod → Step W (Unit {0})
    unfolding sync_pod_pdb_labels slow_start_batch
    update_node_set_pod_pdb_labels nodeset pods = batch pods (sync_pod_pdb_labels nodeset)

    abbrev pub sync_slurm_status_fn : Pod → Step W (Unit {0})
    sync_slurm_status_fn pod w =
        let updated = run (calls.update_node_with_pod_info pod) w in
        if not (is_healthy api pod) then (ok tt, w) else updated

    unfoldable pub sync_slurm_status : List Pod → Step W (Unit {0})
    unfolding slow_start_batch
    sync_slurm_status pods = batch pods sync_slurm_status_fn

    unfoldable pub sync_node_set_pod_status :
        (Condition → List Condition → List Condition) → NodeSet → List Pod → Step W (Unit {0})
    unfolding update_node_set_pod_conditions update_node_set_pod_pdb_labels
    sync_node_set_pod_status update_condition nodeset pods =
        calls.calculate_node_status >>- λ counts.
        update_node_set_pod_conditions calls api update_condition counts.node_states pods >>- λ _.
        update_node_set_pod_pdb_labels nodeset pods

  abbrev pub write_status : NodeSetStatus → Step W (Unit {0})
  write_status new w = found (calls.get_node_set w)
    where
      found : Result (Unit {0}) × W → Result (Unit {0}) × W
      found (ok u, w) = run (calls.update_status new) w
      found (err e, w) = (if is_not_found e then ok tt else err e, w)

  unfoldable pub update_node_set_status : Retrier → NodeSetStatus → Step W (Unit {0})
  update_node_set_status retrier new = retrier.retry (write_status new)

  -- Another reconcile, until the pods are available and the Slurm nodes are all there.
  unfoldable pub push_resync : NodeSet → ReplicaStatus → ℕ → W → W
  push_resync nodeset s total w =
      if not (ltb_ℤ nodeset.min_ready_seconds (pos 0)) && not (s.ready == s.available)
      then calls.push (seconds_of nodeset.min_ready_seconds) w
      else if not (total == s.replicas)
      then calls.push (pos (10 * second)) w
      else w

  -- The comparison of the old status with a pointer to the new one never holds, so the status is
  -- always written.
  unfoldable pub sync_node_set_status :
      Retrier → ℕ → NodeSet → List Pod → String → String → ℕ → String → Step W (Unit {0})
  unfolding calculate_replica_status update_node_set_status push_resync
  sync_node_set_status retrier now nodeset pods current update collision_count hash w =
      (from_replicas
          (calculate_replica_status api now (calls.desired_nodes w) nodeset pods current update))
        w
    where
      status_of : ReplicaStatus → NodeCounts → NodeSetStatus
      status_of s counts = record {
        replicas = s;
        slurm_idle = counts.idle;
        slurm_allocated = counts.allocated + counts.mixed;
        slurm_down = counts.down;
        slurm_drain = counts.drain;
        node_set_hash = hash;
        collision_count = collision_count;
      }

      from_replicas : Result ReplicaStatus → Step W (Unit {0})
      from_replicas (err e) w = (err e, w)
      from_replicas (ok s) w =
          (calls.calculate_node_status >>- λ counts.
          update_node_set_status retrier (status_of s counts) >>- λ _ v.
          (ok tt, push_resync nodeset s counts.total v))
            w

  abbrev pub errors_of : Result (Unit {0}) → List Error
  errors_of (ok u) = []
  errors_of (err e) = e ∷ []

  abbrev pub listed : Option Error → List Error
  listed none = []
  listed (some e) = e ∷ []

  -- `utilerrors.NewAggregate`: no errors are nil.
  abbrev pub aggregate : List Error → Result (Unit {0})
  aggregate [] = ok tt
  aggregate (e ∷ es) = err (text "errors")

  -- `syncStatus`, with the errors so far. An error of the pods' status is returned alone.
  unfoldable pub sync_status :
      Retrier
      → (List ℕ → List ℕ)
      → (Condition → List Condition → List Condition)
      → ℕ
      → NodeSet
      → List Pod
      → String
      → String
      → ℕ
      → String
      → List Error
      → Step W (Unit {0})
  unfolding sync_slurm_status sync_node_set_status sync_node_set_pod_status
  sync_status retrier order update_condition now nodeset pods current update count hash errors w =
      let (e, w1) = calls.refresh_node_cache w in
      let (slurm, w2) = sync_slurm_status order pods w1 in
      let (status, w3) =
        sync_node_set_status retrier now nodeset pods current update count hash w2 in
      let (pod_status, w4) = sync_node_set_pod_status order update_condition nodeset pods w3 in
      let all = errors ++ (listed e ++ (errors_of slurm ++ errors_of status)) in
      (elim pod_status [ err f ↦ err f | ok u ↦ aggregate all ], w4)
