-- ===== src/NodeSetSync/Reconcile.antt =====
-- internal/controller/nodeset/nodeset_sync.go: `sync`, the steps of a reconcile in their order.
pub mod Quiet
pub mod Safe
use slurm_operator.Prelude.{ℕ, String, Bool, if◌then◌else◌, List, [], ◌∷◌, Option}
use slurm_operator.Api.{Error, Result, ok, err, Pod, NodeSet, OwnerReference}
use slurm_operator.Effects.{Trace, M, pure, ◌>>=◌, ◌>>◌}
use slurm_operator.SlurmControl.{refresh_node_cache}
use slurm_operator.NodeSetSync.Fresh.{pods_now}
use slurm_operator.NodeSetSync.Cordon.{sync_cordon}
use slurm_operator.NodeSetSync.Sync.{World, and_then, sync_update}
use slurm_operator.NodeSetSync.Shared.{
  Builder, sync_cluster_worker_service, sync_cluster_worker_pdb, sync_ssh_config,
}
use slurm_operator.NodeSetSync.Drift.{sync_slurm_nodes, sync_slurm_deadline, sync_slurm_topology}
use slurm_operator.NodeSetSync.Taint.{Tainter, sync_taint}
use slurm_operator.NodeSetSync.DaemonMode.{Daemons, sync_pods}

-- What the steps need besides the world: builders, texts, hostlists, taints and owners, and a
-- scheduler for the batch of each step.
pub record Tools : Type 0 where
  pub builder : Builder
  pub wrap : String → Error → Error
  pub expand : String → Result (List String)
  pub format : ℕ → String
  pub tainter : Tainter
  pub owner_of : Pod → Option OwnerReference
  pub schedule : ℕ → List ℕ → List ℕ

-- Steps one after another, up to the first error.
unfoldable pub in_order : List (M (Unit {0})) → M (Unit {0})
in_order [] = pure tt
in_order (m ∷ ms) = m >> in_order ms

-- The steps that come before the cordon make no read of a pod in place; what follows takes the pods
-- as the reads since the start have left them.
module _ {W : Type 0} (t : Tools) (d : Daemons W) (w : World) (nodeset : NodeSet)
    (pods : List Pod) where
  -- The steps before `syncNodeSet`.
  unfoldable pub preparations : List (M (Unit {0}))
  preparations =
      refresh_node_cache w.env
      ∷ sync_cluster_worker_service t.builder w.env t.wrap nodeset
      ∷ sync_cluster_worker_pdb t.builder w.env t.wrap nodeset
      ∷ sync_ssh_config t.builder w.env t.wrap nodeset
      ∷ sync_slurm_nodes w.env (t.schedule 0) w.initial w.api w.now nodeset pods
      ∷ sync_slurm_deadline w.env (t.schedule 1) w.initial t.expand t.format pods
      ∷ sync_slurm_topology w.env (t.schedule 2) w.initial pods
      ∷ sync_cordon w.env (t.schedule 3) w.initial (t.wrap "failed to get node") pods
      ∷ sync_taint t.tainter w.env (t.schedule 4) w.initial t.owner_of
      ∷ []

  abbrev pub after_prepare :
      String → W → Trace → Result (Unit {0}) × Trace → (List Error × Trace) × W
  after_prepare hash s start (err e, tr) = ((e ∷ [], tr), s)
  after_prepare hash s start (ok u, tr) =
      sync_pods d w nodeset (pods_now w.env start tr pods) hash s tr

  unfoldable pub sync : String → W → Trace → (List Error × Trace) × W
  unfolding in_order preparations sync_pods pods_now
  sync hash s tr = after_prepare hash s tr (in_order preparations tr)

  -- Of `Sync` the steps from `sync` to `syncUpdate`, which is left out after an error and while pods
  -- are expected: `satisfied` is what `SatisfiedExpectations` answers.
  unfoldable pub sync_then_update : (Trace → Bool) → String → W → Trace → (List Error × Trace) × W
  unfolding sync sync_update pods_now
  sync_then_update satisfied hash s tr = (
    and_then (sync hash s tr).0 (λ u.
        if satisfied u then sync_update w nodeset (pods_now w.env tr u pods) hash u else ([], u)),
    (sync hash s tr).1,
  )
