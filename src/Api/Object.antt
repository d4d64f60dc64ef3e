-- ===== src/Api/Object.antt =====
-- The objects that internal/utils/objectutils/patch.go creates and patches, whatever their kind. A
-- field that is not metadata is named by its path, such as `Spec.Replicas`, and holds a value as
-- text; `fields` gives the value of each.
use slurm_operator.Prelude.{ℕ, String, Bool, List, Option}
use slurm_operator.Api.{OwnerReference}
use slurm_operator.Api.Maps.{Labels}

pub data ObjectKind : Type 0 where
  config_map secret service deployment stateful_set controller rest_api : ObjectKind
  accounting node_set login_set pod_disruption_budget service_monitor unhandled : ObjectKind

pub record Object : Type 0 where
  pub kind : ObjectKind
  pub namespace : String
  pub name : String
  pub labels : Labels
  pub annotations : Labels
  pub owner_references : List OwnerReference
  pub immutable : Option Bool
  pub deletion_timestamp : Option ℕ
  pub fields : String → String
