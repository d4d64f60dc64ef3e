-- ===== src/NodeSetSync/Choose/Replicas.antt =====
-- A reconcile brings the number of pods to the replicas that are wanted.
use mathlib.Core.List.{Perm}
use slurm_operator.Prelude.{
  ℕ, suc, ◌-◌, ◌<◌, ◌≡◌, refl, ap, ◌∙◌, Bool, String, List, ◌++◌, Option, arith, length, map,
}
use slurm_operator.Prelude.Int.{ℤ, pos, negsuc, ◌-ℤ◌}
use slurm_operator.Api.{Pod, NodeSet}
use slurm_operator.PodUtils.{PodApi}
use slurm_operator.Naming.{get_ordinal}
use slurm_operator.PodOrder.{split_active_pods}
use slurm_operator.PodOrder.Split.{SortSpec, split_active_pods_lem}
use slurm_operator.NodeSetSync.Choose.{
  scale_out, scale_in, process, replicas_of, pick_ordinals, plan_for, replica_plan,
}
use slurm_operator.NodeSetSync.Choose.Ordinals.{Picked, pick_ordinals-Picked}

sub_below : (a b : ℕ) → a < b → (pos a -ℤ pos b) ≡ negsuc (b - a - 1)
unfolding ◌-ℤ◌
sub_below a b h = ground arith

sub_same : (a b : ℕ) → a ≡ b → (pos a -ℤ pos b) ≡ pos 0
unfolding ◌-ℤ◌
sub_same a b h = ground arith

sub_above : (a b : ℕ) → b < a → (pos a -ℤ pos b) ≡ pos (suc (a - b - 1))
unfolding ◌-ℤ◌
sub_above a b h = ground arith

module _ (api : PodApi) (parse_time : String → Option ℕ)
    (sort : (Pod → Pod → Bool) → List Pod → List Pod) (spec : SortSpec sort) where
  -- The plan that a reconcile in StatefulSet mode hands to the steps which carry it out, within
  -- their limits. With fewer pods than replicas it lists as many ordinals as pods are missing,
  -- distinct, that no pod has, and the smallest such; with more it splits the pods into as many to
  -- give up as are too many, and the others to keep; with as many it is to process them.
  pub replica_plan_lem :
      (nodeset : NodeSet) (pods pods_new : List Pod) (replicas : ℕ)
      → replicas_of nodeset ≡ pos replicas
      → let plan = replica_plan api parse_time sort nodeset pods pods_new in
        (length pods_new < replicas
          → (ordinals : List ℕ) × (plan ≡ scale_out ordinals)
            × Picked (replicas - length pods_new) (map get_ordinal pods) 0 ordinals)
        × (length pods_new ≡ replicas → plan ≡ process)
        × (replicas < length pods_new
            → (del : List Pod) × (keep : List Pod) × (plan ≡ scale_in del keep)
              × (length del ≡ length pods_new - replicas)
              × Perm (del ++ keep) pods_new)
  unfolding replica_plan plan_for
  replica_plan_lem nodeset pods pods_new replicas wanted = (
    λ few.
        let e : suc (replicas - length pods_new - 1) ≡ replicas - length pods_new = omega arith in
        (
          pick_ordinals (replicas - length pods_new) (map get_ordinal pods) 0,
          by_diff (sub_below (length pods_new) replicas few)
              ∙ ap (λ k. scale_out (pick_ordinals k (map get_ordinal pods) 0)) e,
          pick_ordinals-Picked (replicas - length pods_new) (map get_ordinal pods) 0,
        ),
    λ same. by_diff (sub_same (length pods_new) replicas same),
    λ many.
        let n = length pods_new - replicas in
        let e : suc (length pods_new - replicas - 1) ≡ n = omega arith in
        let split = split_active_pods_lem api parse_time sort spec pods_new (pos n) in
        (
          (split_active_pods api parse_time sort pods_new (pos n)).0,
          (split_active_pods api parse_time sort pods_new (pos n)).1,
          by_diff (sub_above (length pods_new) replicas many) ∙ rw e refl,
          split.1 ∙ omega arith,
          split.0,
        ),
  )
    where
      by_diff :
          {d : ℤ}
          → (pos (length pods_new) -ℤ pos replicas) ≡ d
          → replica_plan api parse_time sort nodeset pods pods_new
            ≡ plan_for api parse_time sort pods pods_new d
      by_diff h =
          ap (λ r. plan_for api parse_time sort pods pods_new (pos (length pods_new) -ℤ r)) wanted
          ∙ ap (plan_for api parse_time sort pods pods_new) h
