-- ===== src/Storage/Examples.antt =====
-- The volumes of a pod, tested on one that mounts another claim.
use slurm_operator.Prelude.{◌≡◌, refl, true, List, [], ◌∷◌, some}
use slurm_operator.Api.{NodeSet, Pod, Volume}
use slurm_operator.Naming.{get_ordinal, get_padded_ordinal}
use slurm_operator.Api.Maps.{get?}
use slurm_operator.Storage.{claim_name_of, update_storage, is_storage_match}
use slurm_operator.Storage.Match.{is_storage_match-update_storage}
use slurm_operator.Samples.{worker, pod_named}

abbrev disks : NodeSet
disks = record worker { volume_claim_templates = "data" ∷ "logs" ∷ [] }

abbrev pod : Pod
pod = record (pod_named "slinky-1-007") {
  volumes =
      record { name = "logs"; claim_name = some "old" }
      ∷ record { name = "tmp"; claim_name = some "mine" }
      ∷ [];
}

abbrev volumes : List Volume
volumes =
    record { name = "data"; claim_name = some "data-slinky-1-007" }
    ∷ record { name = "logs"; claim_name = some "logs-slinky-1-007" }
    ∷ record { name = "tmp"; claim_name = some "mine" }
    ∷ []

remounted : (update_storage (λ m. m) disks pod).volumes ≡ volumes
unfolding update_storage claim_name_of get_padded_ordinal get_ordinal get?
remounted = refl

remounted_matches : is_storage_match disks (update_storage (λ m. m) disks pod) ≡ true
unfolding get_ordinal
remounted_matches = is_storage_match-update_storage (λ m. m) (λ m h. (h, λ k. refl)) disks pod refl
