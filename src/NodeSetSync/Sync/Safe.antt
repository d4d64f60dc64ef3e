-- ===== src/NodeSetSync/Sync/Safe.antt =====
-- A reconcile keeps to the rules of deleting and undraining.
use slurm_operator.Prelude.{String, List, [], ◌∷◌, str_eq}
use slurm_operator.Api.{Error, Result, ok, err, Pod, NodeSet}
use slurm_operator.Api.WellKnown.{on_delete}
use slurm_operator.Effects.{Trace}
use slurm_operator.Effects.Adds.{same, Adds-trans, Adds-if}
use slurm_operator.NodeSetSync.Cordon.Calls.{SafeCall}
use slurm_operator.NodeSetSync.Cordon.Safe.{Safe}
use slurm_operator.NodeSetSync.Scale.Safe.{do_pod_scale-Safe, do_pod_processing-Safe}
use slurm_operator.NodeSetSync.Choose.{ReplicaPlan, scale_out, scale_in, process}
use slurm_operator.NodeSetSync.Sync.{
  World, create_all, follow_plan, sync_node_set, scale_some, and_then, rolling_pods,
  sync_rolling_update, sync_update,
}

module _ (w : World) where
  create_all-Safe :
      (pods : List Pod) (r : Result (List Pod)) (tr : Trace)
      → Safe w.env tr (create_all w pods r tr).1
  unfolding create_all
  create_all-Safe pods (err e) tr = same
  create_all-Safe pods (ok created) tr =
      do_pod_scale-Safe w.env w.orders w.initial pods [] created tr

  pub follow_plan-Safe :
      (nodeset : NodeSet) (pods_new pods_old : List Pod) (hash : String) (plan : ReplicaPlan)
      (tr : Trace)
      → Safe w.env tr (follow_plan w nodeset pods_new pods_old hash plan tr).1
  unfolding follow_plan
  follow_plan-Safe nodeset pods_new pods_old hash (scale_out ordinals) tr =
      create_all-Safe pods_new _ tr
  follow_plan-Safe nodeset pods_new pods_old hash (scale_in del kept) tr =
      do_pod_scale-Safe w.env w.orders w.initial kept del [] tr
  follow_plan-Safe nodeset pods_new pods_old hash process tr =
      do_pod_processing-Safe w.env w.orders w.initial pods_new _ pods_old tr

  scale_some-Safe : (pods : List Pod) (tr : Trace) → Safe w.env tr (scale_some w pods tr).1
  unfolding scale_some
  scale_some-Safe [] tr = same
  scale_some-Safe (pod ∷ pods) tr = do_pod_scale-Safe w.env w.orders w.initial [] (pod ∷ pods) [] tr

  and_then-Safe :
      (r : List Error × Trace) (k : Trace → List Error × Trace) (tr : Trace)
      → Safe w.env tr r.1
      → ((t : Trace) → Safe w.env t (k t).1)
      → Safe w.env tr (and_then r k).1
  and_then-Safe ([], t) k tr p q = Adds-trans p (q t)
  and_then-Safe (e ∷ errs, t) k tr p q = p

  sync_rolling_update-Safe :
      (nodeset : NodeSet) (pods : List Pod) (hash : String) (tr : Trace)
      → Safe w.env tr (sync_rolling_update w nodeset pods hash tr).1
  unfolding sync_rolling_update
  sync_rolling_update-Safe nodeset pods hash tr =
      and_then-Safe (scale_some w (rolling_pods w nodeset pods hash).0 tr)
        (scale_some w (rolling_pods w nodeset pods hash).1) tr
        (scale_some-Safe (rolling_pods w nodeset pods hash).0 tr)
        (scale_some-Safe (rolling_pods w nodeset pods hash).1)

  pub sync_update-Safe :
      (nodeset : NodeSet) (pods : List Pod) (hash : String) (tr : Trace)
      → Safe w.env tr (sync_update w nodeset pods hash tr).1
  unfolding sync_update
  sync_update-Safe nodeset pods hash tr =
      Adds-if (SafeCall w.env) (str_eq nodeset.update_strategy_type on_delete) ([], tr)
        (sync_rolling_update w nodeset pods hash tr) tr (λ e. same)
        (λ e. sync_rolling_update-Safe nodeset pods hash tr)

  pub sync_node_set-Safe :
      (nodeset : NodeSet) (pods : List Pod) (hash : String) (tr : Trace)
      → Safe w.env tr (sync_node_set w nodeset pods hash tr).1
  unfolding sync_node_set
  sync_node_set-Safe nodeset pods hash tr = follow_plan-Safe nodeset _ _ hash _ tr

  -- `syncNodeSet` in StatefulSet mode, followed by `syncUpdate` where it ends without an error,
  -- deletes a pod only if it has failed or succeeded or `IsNodeDrained` has just answered true for
  -- it, and undrains only after the Kubernetes node was read as not cordoned and then the Slurm
  -- node's reason as the operator's: under any answers of the cluster and any order of the calls.
  pub sync_both-Safe :
      (nodeset : NodeSet) (pods : List Pod) (hash : String) (tr : Trace)
      → Safe w.env tr
          (and_then (sync_node_set w nodeset pods hash tr) (sync_update w nodeset pods hash)).1
  sync_both-Safe nodeset pods hash tr =
      and_then-Safe (sync_node_set w nodeset pods hash tr) (sync_update w nodeset pods hash) tr
        (sync_node_set-Safe nodeset pods hash tr) (sync_update-Safe nodeset pods hash)
