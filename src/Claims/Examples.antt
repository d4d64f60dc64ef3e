-- ===== src/Claims/Examples.antt =====
-- The owner references of a claim, tested on one that a Job owns.
use slurm_operator.Prelude.{◌≡◌, refl, true, [], ◌∷◌, none}
use slurm_operator.Api.{NodeSet, Pod}
use slurm_operator.Api.WellKnown.{delete}
use slurm_operator.Claims.{
  Refs, is_ours, remove_refs, matches_ref, is_claim_owner_up_to_date, update_claim_owner_refs,
  node_set_owner, pod_owner, controller_ref,
}
use slurm_operator.Claims.Converge.{update_claim_owner_refs_lem}
use slurm_operator.Samples.{worker, pod_named}

abbrev disks : NodeSet
disks = record worker { when_deleted = delete }

abbrev pod : Pod
pod = pod_named "slinky-1-007"

abbrev refs : Refs
refs =
    record { api_version = "v1"; kind = "Job"; name = "other"; uid = "x"; controller = none }
    ∷ controller_ref (pod_owner pod)
    ∷ []

-- The NodeSet comes in the place of the pod.
handed_over :
    update_claim_owner_refs (controller_ref (pod_owner pod) ∷ []) disks pod
    ≡ controller_ref (node_set_owner disks) ∷ []
unfolding update_claim_owner_refs
handed_over = refl

update_claim_owner_refs_lem_example :
    (is_claim_owner_up_to_date (update_claim_owner_refs refs disks pod) disks pod ≡ true)
    × (remove_refs
          (update_claim_owner_refs refs disks pod)
          (is_ours (node_set_owner disks) (pod_owner pod))
        ≡ remove_refs refs (is_ours (node_set_owner disks) (pod_owner pod)))
unfolding matches_ref
update_claim_owner_refs_lem_example =
    update_claim_owner_refs_lem refs disks pod ((refl, refl), ((refl, refl), tt)) refl
