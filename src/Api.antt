-- ===== src/Api.antt =====
-- The objects that the operator works on, with the fields that the modelled code reads:
-- api/v1beta1/nodeset_types.go, api/v1beta1/well_known.go, and of Kubernetes' core types the pod,
-- the node and the owner reference. A Go map is an association list; a nil map and an empty one
-- are not told apart. Times are nanoseconds since Go's zero time, so `IsZero` is equality with 0.
pub mod Maps
pub mod Object
pub mod WellKnown
use slurm_operator.Prelude.{ℕ, String, Bool, true, false, List, Option}
use slurm_operator.Prelude.Int.{ℤ}
use Maps.{Labels}

-- Go errors, as far as the code tells them apart.
pub data Error : Type 0 where
  not_found already_exists conflict namespace_terminating : Error
  text : String → Error

pub data Result {ℓ} (A : Type ℓ) : Type ℓ where
  ok : A → Result A
  err : Error → Result A

-- `apierrors.IsNotFound`.
abbrev pub is_not_found : Error → Bool
is_not_found not_found = true
is_not_found _ = false

-- `corev1.PodPhase`; `unset` is the empty string.
pub data Phase : Type 0 where
  unset pending running succeeded failed unknown : Phase

-- A pod condition: its type, whether its status is "True", its transition time and message.
pub record Condition : Type 0 where
  pub kind : String
  pub is_true : Bool
  pub last_transition_time : ℕ
  pub message : String

-- `metav1.OwnerReference`; a nil `Controller` is `none`.
pub record OwnerReference : Type 0 where
  pub api_version : String
  pub kind : String
  pub name : String
  pub uid : String
  pub controller : Option Bool

-- A volume of a pod: its name, and the claim that it mounts, if it mounts one.
pub record Volume : Type 0 where
  pub name : String
  pub claim_name : Option String

-- `corev1.Taint`.
pub record Taint : Type 0 where
  pub key : String
  pub value : String
  pub effect : String

pub record Pod : Type 0 where
  pub name : String
  pub namespace : String
  pub generate_name : String
  pub uid : String
  pub resource_version : String
  pub labels : Labels
  pub annotations : Labels
  pub creation_timestamp : ℕ
  pub deletion_timestamp : Option ℕ
  pub node_name : String
  pub hostname : String
  pub host_network : Bool
  pub phase : Phase
  pub conditions : List Condition
  pub volumes : List Volume

pub record Node : Type 0 where
  pub name : String
  pub labels : Labels
  pub annotations : Labels
  pub unschedulable : Bool
  pub taints : List Taint

-- `intstr.IntOrString`.
pub data IntOrString : Type 0 where
  int_val : ℤ → IntOrString
  str_val : String → IntOrString

pub record NodeSet : Type 0 where
  pub name : String
  pub namespace : String
  pub uid : String
  pub replicas : Option ℤ
  pub scaling_mode : String
  pub update_strategy_type : String
  pub max_unavailable : Option IntOrString
  pub min_ready_seconds : ℤ
  pub ordinal_padding : ℕ
  pub workload_disruption_protection : Option Bool
  pub when_deleted : String
  pub when_scaled : String
  pub volume_claim_templates : List String
  pub controller_name : String
  pub controller_namespace : String
  pub taint_kube_nodes : Bool
  pub ssh_enabled : Bool
