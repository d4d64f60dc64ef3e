-- ===== src/NodeSetSync/Reconcile/Safe.antt =====
-- Every pod that a reconcile deletes is one that it may delete, and every undrain is one that it may
-- ask for.
use slurm_operator.Prelude.{
  ℕ, String, Bool, true, false, if◌then◌else◌, not, ◌||◌, ◌≡◌, ◌⊎◌, inl, inr, List, [], ◌∷◌, All,
  has_str, Bool-cases, arith,
}
use slurm_operator.Api.{Error, Result, ok, err, Pod, NodeSet}
use slurm_operator.Naming.{get_slurm_node_name}
use slurm_operator.PodUtils.{PodApi, is_running_and_available, is_healthy}
use slurm_operator.Effects.{Call, Trace, Env, M, pure, ◌>>=◌, ◌>>◌}
use slurm_operator.Steps.{Result-cases}
use slurm_operator.Effects
use slurm_operator.Effects.Adds.{
  Adds, same, add, Extends, Adds-trans, Adds-Extends, Adds-map, Adds-from, Makes, Makes-bind,
  Makes-if,
}
use slurm_operator.SlurmControl.{get_nodes_for_pods}
use slurm_operator.NodeSetSync.Fresh.{pods_now}
use slurm_operator.NodeSetSync.Cordon.{sync_cordon, query}
use slurm_operator.NodeSetSync.Scale.{ignore_not_found}
use slurm_operator.NodeSetSync.Sync.{World, and_then, sync_update}
use slurm_operator.NodeSetSync.Sync.Safe.{sync_update-Safe}
use slurm_operator.NodeSetSync.DaemonMode.{Daemons}
use slurm_operator.NodeSetSync.DaemonMode.Safe.{sync_pods-Safe}
use slurm_operator.NodeSetSync.Reconcile.{
  Tools, in_order, preparations, after_prepare, sync, sync_then_update,
}
use slurm_operator.NodeSetSync.Reconcile.Quiet.{
  QuietCall, Quiet, for_pods-Adds, refresh_node_cache-Quiet, sync_cluster_worker_service-Quiet,
  sync_cluster_worker_pdb-Quiet, sync_ssh_config-Quiet, sync_slurm_deadline-Quiet,
  sync_slurm_topology-Quiet, sync_taint-Quiet,
}
use slurm_operator.NodeSetSync.Cordon.Calls.{SafeCall}
use slurm_operator.NodeSetSync.Cordon.Follow.{sync_cordon-Safe}
use slurm_operator.NodeSetSync.Drift.{
  is_drifted, sync_slurm_nodes_fn, delete_drifted, sync_slurm_nodes,
}

-- Before this point the controller was told which Slurm nodes of the NodeSet's pods are registered,
-- and the pod's was not among them, although the pod is available and healthy.
pub record Unregistered (env : Env) (api : PodApi) (now : ℕ) (nodeset : NodeSet) (pods : List Pod)
    (pod : Pod) (tr : Trace) : Type 0 where
  pub registered : List String
  pub asked_at : Trace
  pub answer : (get_nodes_for_pods env pods asked_at).0 ≡ ok (registered, true)
  pub missing : has_str (get_slurm_node_name pod) registered ≡ false
  pub available : is_running_and_available api pod nodeset.min_ready_seconds now ≡ true
  pub healthy : is_healthy api pod ≡ true
  pub later : Extends asked_at tr

-- What a reconcile makes sure of before a call.
unfoldable pub SyncCall : Env → PodApi → ℕ → NodeSet → List Pod → Call → Trace → Type 0
SyncCall env api now nodeset pods (Effects.delete_pod pod) tr =
    SafeCall env (Effects.delete_pod pod) tr ⊎ Unregistered env api now nodeset pods pod tr
SyncCall env api now nodeset pods c tr = SafeCall env c tr

module _ (env : Env) (api : PodApi) (now : ℕ) (nodeset : NodeSet) (pods : List Pod) where
  from_safe : (c : Call) (tr : Trace) → SafeCall env c tr → SyncCall env api now nodeset pods c tr
  unfolding SyncCall
  from_safe (Effects.delete_pod pod) tr x = inl x
  from_safe _ tr x = x

  from_quiet : (c : Call) (tr : Trace) → QuietCall c tr → SyncCall env api now nodeset pods c tr
  unfolding SyncCall SafeCall QuietCall
  from_quiet (Effects.slurm_update_node node msg) tr x = λ e. absurd (cc (x, e))
  from_quiet (Effects.delete_pod pod) tr x = absurd x
  from_quiet _ tr x = tt

  abbrev SyncSafe : Trace → Trace → Type 0
  SyncSafe a b = Adds (SyncCall env api now nodeset pods) a b

  quiet : {a b : Trace} → Quiet a b → SyncSafe a b
  quiet q = Adds-map from_quiet q

  get_nodes_for_pods-Extends : (tr : Trace) → Quiet tr (get_nodes_for_pods env pods tr).1
  unfolding get_nodes_for_pods QuietCall
  get_nodes_for_pods-Extends tr = elim (Bool-cases (env.has_slurm_client tr)) [
    | inr e ↦ rw e same
    | inl e ↦ elim (Result-cases (env.list_slurm_nodes tr)) [
      | inl (nodes, f) ↦ rw (e, f) (add same tt)
      | inr (x, f) ↦ rw (e, f) (add same tt)
    ]
  ]

  -- What the test of `syncSlurmNodesFn` says of a pod.
  is_drifted_lem :
      (a b c : Bool) → not ((a || not b) || not c) ≡ true → (a ≡ false) × (b ≡ true) × (c ≡ true)
  is_drifted_lem a b c h = ground (arith, h)

  module _ (registered : List String) (asked_at : Trace)
      (answer : (get_nodes_for_pods env pods asked_at).0 ≡ ok (registered, true)) where
    found :
        (pod : Pod) (tr : Trace)
        → is_drifted api now nodeset registered pod ≡ true
        → Extends asked_at tr
        → Unregistered env api now nodeset pods pod tr
    unfolding is_drifted
    found pod tr h later =
        let (missing, available, healthy) = is_drifted_lem _ _ _ h in
        record {
          registered = registered;
          asked_at = asked_at;
          answer = answer;
          missing = missing;
          available = available;
          healthy = healthy;
          later = later;
        }

    delete_drifted-Safe :
        (order : List ℕ → List ℕ) (initial : ℕ) (tr : Trace)
        → Extends asked_at tr
        → SyncSafe tr
            (delete_drifted env order initial api now nodeset pods (registered, true) tr).1
    unfolding delete_drifted sync_slurm_nodes_fn SyncCall
    delete_drifted-Safe order initial tr later =
        Adds-from
          (for_pods-Adds (λ c t. Extends asked_at t → SyncCall env api now nodeset pods c t) env
            order initial pods (sync_slurm_nodes_fn env order initial api now nodeset registered) tr
            λ pod t.
              Makes-if (λ c u. Extends asked_at u → SyncCall env api now nodeset pods c u)
                (is_drifted api now nodeset registered pod)
                (query (Effects.delete_pod pod) (λ u. ignore_not_found (env.delete u pod)))
                (pure tt) t (λ h. add same (λ x. inr (found pod t h x))) (λ h. same))
          later

  after_nodes :
      (order : List ℕ → List ℕ) (initial : ℕ) (r : List String × Bool) (asked_at tr : Trace)
      → (get_nodes_for_pods env pods asked_at).0 ≡ ok r
      → Extends asked_at tr
      → SyncSafe tr (delete_drifted env order initial api now nodeset pods r tr).1
  unfolding delete_drifted
  after_nodes order initial (registered, true) asked_at tr answer later =
      delete_drifted-Safe registered asked_at answer order initial tr later
  after_nodes order initial (registered, false) asked_at tr answer later = same

  pub sync_slurm_nodes-Safe :
      (order : List ℕ → List ℕ) (initial : ℕ) (tr : Trace)
      → SyncSafe tr (sync_slurm_nodes env order initial api now nodeset pods tr).1
  unfolding sync_slurm_nodes
  sync_slurm_nodes-Safe order initial tr =
      Makes-bind (SyncCall env api now nodeset pods) (get_nodes_for_pods env pods)
        (delete_drifted env order initial api now nodeset pods) tr
        (quiet (get_nodes_for_pods-Extends tr))
        λ r e. after_nodes order initial r tr _ e (Adds-Extends (get_nodes_for_pods-Extends tr))

in_order-Makes :
    (P : Call → Trace → Type 0) (ms : List (M (Unit {0})))
    → All (λ m. Makes P m) ms
    → Makes P (in_order ms)
unfolding in_order
in_order-Makes P [] hs tr = same
in_order-Makes P (m ∷ ms) (h, hs) tr =
    Makes-bind P m (λ u. in_order ms) tr (h tr) (λ u e. in_order-Makes P ms hs _)

module _ {W : Type 0} (t : Tools) (d : Daemons W) (w : World) (nodeset : NodeSet)
    (pods : List Pod) where
  abbrev P : Call → Trace → Type 0
  P = SyncCall w.env w.api w.now nodeset pods

  preparations-Safe : All (λ m. Makes P m) (preparations t d w nodeset pods)
  unfolding preparations
  preparations-Safe = (
    λ tr. q (refresh_node_cache-Quiet w.env tr),
    (
      λ tr. q (sync_cluster_worker_service-Quiet w.env t.builder t.wrap nodeset tr),
      (
        λ tr. q (sync_cluster_worker_pdb-Quiet w.env t.builder t.wrap nodeset tr),
        (
          λ tr. q (sync_ssh_config-Quiet w.env t.builder t.wrap nodeset tr),
          (
            sync_slurm_nodes-Safe w.env w.api w.now nodeset pods (t.schedule 0) w.initial,
            (
              λ tr. q (
                  sync_slurm_deadline-Quiet w.env (t.schedule 1) w.initial t.expand t.format pods
                    tr),
              (
                λ tr. q (sync_slurm_topology-Quiet w.env (t.schedule 2) w.initial pods tr),
                (
                  cordon,
                  (
                    λ tr.
                        q (sync_taint-Quiet w.env (t.schedule 4) w.initial t.tainter t.owner_of tr),
                    tt,
                  ),
                ),
              ),
            ),
          ),
        ),
      ),
    ),
  )
    where
      q : {a b : Trace} → Quiet a b → Adds P a b
      q x = quiet w.env w.api w.now nodeset pods x

      cordon :
          (tr : Trace)
          → Adds P tr
              (sync_cordon w.env (t.schedule 3) w.initial (t.wrap "failed to get node") pods tr).1
      cordon tr =
          Adds-map (from_safe w.env w.api w.now nodeset pods)
            (sync_cordon-Safe w.env (t.wrap "failed to get node") (t.schedule 3) w.initial pods tr)

  after_prepare-Safe :
      (hash : String) (s : W) (start : Trace) (r : Result (Unit {0}) × Trace)
      → Adds P r.1 (after_prepare t d w nodeset pods hash s start r).0.1
  after_prepare-Safe hash s start (err e, tr) = same
  after_prepare-Safe hash s start (ok u, tr) =
      Adds-map (from_safe w.env w.api w.now nodeset pods)
        (sync_pods-Safe d w nodeset (pods_now w.env start tr pods) hash s tr)

  sync-Safe :
      (hash : String) (s : W) (tr : Trace)
      → Adds (SyncCall w.env w.api w.now nodeset pods) tr (sync t d w nodeset pods hash s tr).0.1
  unfolding sync
  sync-Safe hash s tr =
      Adds-trans (in_order-Makes P (preparations t d w nodeset pods) preparations-Safe tr)
        (after_prepare-Safe hash s tr (in_order (preparations t d w nodeset pods) tr))

  and_then-Makes :
      (r : List Error × Trace) (k : Trace → List Error × Trace) (tr : Trace)
      → Adds P tr r.1
      → ((u : Trace) → Adds P u (k u).1)
      → Adds P tr (and_then r k).1
  and_then-Makes ([], u) k tr p q = Adds-trans p (q u)
  and_then-Makes (e ∷ errs, u) k tr p q = p

  update-Safe :
      (hash : String) (seen : List Pod) (b : Bool) (u : Trace)
      → Adds P u (if b then sync_update w nodeset seen hash u else ([], u)).1
  update-Safe hash seen true u =
      Adds-map (from_safe w.env w.api w.now nodeset pods) (sync_update-Safe w nodeset seen hash u)
  update-Safe hash seen false u = same

  -- Under any answers of the cluster and any order of the calls of a batch,
  -- `sync` in either scaling mode, followed by `syncUpdate` where it ends without an error and no
  -- pods are expected, deletes a pod only if it has failed or succeeded, if `IsNodeDrained` has just
  -- answered true for it, or if it is available and healthy while Slurm, asked before, did not
  -- list its node; and it asks to undrain only the node it has just read for a pod, or for
  -- what that pod was read as, whose Kubernetes node it has read as not cordoned and whose Slurm
  -- node's reason it has then read as the operator's.
  pub sync_then_update-Safe :
      (satisfied : Trace → Bool) (hash : String) (s : W) (tr : Trace)
      → Adds
          (SyncCall w.env w.api w.now nodeset pods)
          tr
          (sync_then_update t d w nodeset pods satisfied hash s tr).0.1
  unfolding sync_then_update
  sync_then_update-Safe satisfied hash s tr =
      and_then-Makes (sync t d w nodeset pods hash s tr).0 _ tr (sync-Safe hash s tr)
        (λ u. update-Safe hash (pods_now w.env tr u pods) (satisfied u) u)
