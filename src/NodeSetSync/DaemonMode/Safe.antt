-- ===== src/NodeSetSync/DaemonMode/Safe.antt =====
-- `syncNodeSet` deletes and undrains only where it may, in either mode.
use slurm_operator.Prelude.{String, not, List, [], ◌∷◌, str_eq, keep, inl, inr, Bool-cases}
use slurm_operator.Api.{Result, ok, err, Pod, Node, NodeSet}
use slurm_operator.Api.WellKnown.{daemon_set}
use slurm_operator.Effects.{Trace, list_nodes}
use slurm_operator.Effects.Adds.{same, add, Adds-trans}
use slurm_operator.NodeSetSync.Choose.{process}
use slurm_operator.NodeSetSync.Cordon.Calls.{SafeCall}
use slurm_operator.NodeSetSync.Cordon.Safe.{Safe}
use slurm_operator.NodeSetSync.Scale.Safe.{do_pod_scale-Safe}
use slurm_operator.NodeSetSync.Sync.{World, has_mode}
use slurm_operator.NodeSetSync.Sync.Safe.{follow_plan-Safe, sync_node_set-Safe}
use slurm_operator.NodeSetSync.DaemonMode.{Daemons, scale_or_process, sync_daemons, sync_pods}

module _ {W : Type 0} (d : Daemons W) (w : World) where
  scale_or_process-Safe :
      (nodeset : NodeSet) (pods_new pods_old : List Pod) (hash : String) (to_delete : List Pod)
      (r : Result (List Pod)) (tr : Trace)
      → Safe w.env tr (scale_or_process d w nodeset pods_new pods_old hash to_delete r tr).1
  unfolding scale_or_process
  scale_or_process-Safe nodeset pods_new pods_old hash to_delete (err e) tr = same
  scale_or_process-Safe nodeset pods_new pods_old hash [] (ok []) tr =
      follow_plan-Safe w nodeset pods_new pods_old hash process tr
  scale_or_process-Safe nodeset pods_new pods_old hash [] (ok (pod ∷ pods)) tr =
      do_pod_scale-Safe w.env w.orders w.initial pods_new [] (pod ∷ pods) tr
  scale_or_process-Safe nodeset pods_new pods_old hash (pod ∷ pods) (ok to_create) tr =
      do_pod_scale-Safe w.env w.orders w.initial pods_new (pod ∷ pods) to_create tr

  sync_daemons-Safe :
      (nodeset : NodeSet) (pods : List Pod) (hash : String) (r : Result (List Node)) (s : W)
      (tr : Trace)
      → Safe w.env tr (sync_daemons d w nodeset pods hash r s tr).0.1
  unfolding sync_daemons
  sync_daemons-Safe nodeset pods hash (err e) s tr = same
  sync_daemons-Safe nodeset pods hash (ok nodes) s tr =
      scale_or_process-Safe nodeset (keep (has_mode nodeset) pods)
        (keep (λ pod. not (has_mode nodeset pod)) pods) hash _ _ tr

  pub sync_pods-Safe :
      (nodeset : NodeSet) (pods : List Pod) (hash : String) (s : W) (tr : Trace)
      → Safe w.env tr (sync_pods d w nodeset pods hash s tr).0.1
  unfolding sync_pods SafeCall
  sync_pods-Safe nodeset pods hash s tr =
      elim (Bool-cases (str_eq nodeset.scaling_mode daemon_set)) [
        | inl e ↦ rw e (
            Adds-trans (add {c = list_nodes} same tt)
              (sync_daemons-Safe nodeset pods hash (w.env.nodes tr) s (list_nodes ∷ tr)))
        | inr e ↦ rw e (sync_node_set-Safe w nodeset pods hash tr)
      ]
