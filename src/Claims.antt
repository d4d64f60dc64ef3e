-- ===== src/Claims.antt =====
-- internal/controller/nodeset/podcontrol/podcontrol.go: the owner references by which a volume
-- claim follows the retention policy of its NodeSet.
pub mod Refs
pub mod Converge
mod Examples
use slurm_operator.Prelude.{
  String, Bool, true, false, not, ◌&&◌, ◌||◌, List, [], ◌∷◌, ◌++◌, Option, none, some, str_eq,
  if◌then◌else◌,
}
use slurm_operator.Api.{Pod, NodeSet, OwnerReference}
use slurm_operator.Api.WellKnown.{retain, delete}
use slurm_operator.PodUtils.{is_pod_cordon}

-- `metav1.Object` with its GroupVersionKind: what a reference to it holds.
pub record Owner : Type 0 where
  pub api_version : String
  pub kind : String
  pub name : String
  pub uid : String

abbrev pub node_set_owner : NodeSet → Owner
node_set_owner nodeset = record {
  api_version = "slinky.slurm.net/v1beta1";
  kind = "NodeSet";
  name = nodeset.name;
  uid = nodeset.uid;
}

abbrev pub pod_owner : Pod → Owner
pod_owner pod = record { api_version = "v1"; kind = "Pod"; name = pod.name; uid = pod.uid }

abbrev pub Refs : Type 0
Refs = List OwnerReference

unfoldable pub matches_ref : Owner → OwnerReference → Bool
matches_ref owner ref =
    (str_eq owner.api_version ref.api_version && str_eq owner.kind ref.kind)
    && str_eq ref.name owner.name

abbrev pub has_uid : Owner → OwnerReference → Bool
has_uid owner ref = str_eq ref.uid owner.uid

-- `ownerRef.Controller != nil && *ownerRef.Controller`.
abbrev pub is_controller : OwnerReference → Bool
is_controller ref = elim ref.controller [ none ↦ false | some b ↦ b ]

unfoldable pub has_owner_ref : Owner → Refs → Bool
has_owner_ref owner [] = false
has_owner_ref owner (ref ∷ refs) = has_uid owner ref || has_owner_ref owner refs

-- The first reference that matches decides.
unfoldable pub has_stale_owner_ref : Owner → Refs → Bool
unfolding matches_ref
has_stale_owner_ref owner [] = false
has_stale_owner_ref owner (ref ∷ refs) =
    let rest = has_stale_owner_ref owner refs in
    if matches_ref owner ref then not (has_uid owner ref) else rest

-- `getPersistentVolumeClaimRetentionPolicy`: what to do with the claims of a NodeSet that is
-- deleted, and of a pod that is scaled in.
pub record Policy : Type 0 where
  pub when_deleted : String
  pub when_scaled : String

abbrev pub or_retain : String → String
or_retain s = if str_eq s "" then retain else s

unfoldable pub retention_policy : NodeSet → Policy
retention_policy nodeset = record {
  when_deleted = or_retain nodeset.when_deleted;
  when_scaled = or_retain nodeset.when_scaled;
}

-- The cases of the switches over a policy; they exclude one another, and `other` is the default.
pub data Retention : Type 0 where
  retain_all delete_with_set delete_with_pod delete_with_either other : Retention

unfoldable pub retention : Policy → Retention
retention policy =
    if str_eq policy.when_deleted retain && str_eq policy.when_scaled retain
    then retain_all
    else if str_eq policy.when_deleted delete && str_eq policy.when_scaled retain
    then delete_with_set
    else if str_eq policy.when_deleted retain && str_eq policy.when_scaled delete
    then delete_with_pod
    else if str_eq policy.when_deleted delete && str_eq policy.when_scaled delete
    then delete_with_either
    else other

abbrev pub retains_all : Retention → Bool
retains_all retain_all = true
retains_all _ = false

-- The loop of `hasUnexpectedController`.
unfoldable pub other_controller : Owner → Owner → Refs → Bool
unfolding matches_ref
other_controller set pod [] = false
other_controller set pod (ref ∷ refs) =
    let rest = other_controller set pod refs in
    if matches_ref set ref
    then (if has_uid set ref then rest else true)
    else if matches_ref pod ref
    then (if has_uid pod ref then rest else true)
    else is_controller ref || rest

unfoldable pub has_unexpected_controller : Retention → Owner → Owner → Refs → Bool
unfolding other_controller
has_unexpected_controller policy set pod refs =
    if retains_all policy then false else other_controller set pod refs

unfoldable pub has_non_controller_owner : Owner → Owner → Refs → Bool
has_non_controller_owner set pod [] = false
has_non_controller_owner set pod (ref ∷ refs) =
    ((has_uid set ref || has_uid pod ref) && not (is_controller ref))
    || has_non_controller_owner set pod refs

-- The last switch of `isClaimOwnerUpToDate`: whether the NodeSet owns the claim, whether the pod
-- does, and whether the pod is scaled down.
unfoldable pub is_as_retained : Retention → Bool → Bool → Bool → Bool
is_as_retained retain_all set pod scaled_down = not (set || pod)
is_as_retained other set pod scaled_down = not (set || pod)
is_as_retained delete_with_set set pod scaled_down = not (not set || pod)
is_as_retained delete_with_pod set pod true = not set && pod
is_as_retained delete_with_pod set pod false = not set && not pod
is_as_retained delete_with_either set pod true = not set && pod
is_as_retained delete_with_either set pod false = set && not pod

module _ (policy : Retention) (set pod : Owner) (scaled_down : Bool) where
  unfoldable pub owner_up_to_date : Refs → Bool
  unfolding has_stale_owner_ref has_unexpected_controller has_owner_ref has_non_controller_owner
      is_as_retained
  owner_up_to_date refs =
      if has_stale_owner_ref set refs || has_stale_owner_ref pod refs
      then true
      else if has_unexpected_controller policy set pod refs
      then not (has_owner_ref set refs || has_owner_ref pod refs)
      else if has_non_controller_owner set pod refs
      then false
      else is_as_retained policy (has_owner_ref set refs) (has_owner_ref pod refs) scaled_down

-- `removeRefs`.
abbrev pub remove_refs : Refs → (OwnerReference → Bool) → Refs
remove_refs [] predicate = []
remove_refs (ref ∷ refs) predicate =
    let rest = remove_refs refs predicate in if predicate ref then rest else ref ∷ rest

-- `metav1.NewControllerRef`.
abbrev pub controller_ref : Owner → OwnerReference
controller_ref owner = record {
  api_version = owner.api_version;
  kind = owner.kind;
  name = owner.name;
  uid = owner.uid;
  controller = some true;
}

unfoldable pub add_controller_ref : Refs → Owner → Refs
unfolding has_owner_ref
add_controller_ref refs owner =
    if has_owner_ref owner refs then refs else refs ++ controller_ref owner ∷ []

abbrev pub is_ours : Owner → Owner → OwnerReference → Bool
is_ours set pod ref = matches_ref set ref || matches_ref pod ref

module _ (policy : Retention) (set pod : Owner) (scaled_down : Bool) where
  -- The references that the policy adds to the scrubbed ones.
  unfoldable pub add_retained : Refs → Refs
  unfolding add_controller_ref
  add_retained refs = elim policy [
    | retain_all ↦ refs
    | other ↦ refs
    | delete_with_set ↦ add_controller_ref refs set
    | delete_with_pod ↦ if scaled_down then add_controller_ref refs pod else refs
    | delete_with_either ↦
        if scaled_down then add_controller_ref refs pod else add_controller_ref refs set
  ]

  unfoldable pub update_owner_refs : Refs → Refs
  unfolding has_unexpected_controller add_retained matches_ref
  update_owner_refs refs =
      let scrubbed = remove_refs refs (is_ours set pod) in
      if has_unexpected_controller policy set pod refs then scrubbed else add_retained scrubbed

-- `isClaimOwnerUpToDate` and `updateClaimOwnerRefForSetAndPod`, on the references of a claim.
unfoldable pub is_claim_owner_up_to_date : Refs → NodeSet → Pod → Bool
unfolding retention_policy retention owner_up_to_date
is_claim_owner_up_to_date refs nodeset pod =
    owner_up_to_date (retention (retention_policy nodeset)) (node_set_owner nodeset) (pod_owner pod)
      (is_pod_cordon pod) refs

unfoldable pub update_claim_owner_refs : Refs → NodeSet → Pod → Refs
unfolding retention_policy retention update_owner_refs
update_claim_owner_refs refs nodeset pod =
    update_owner_refs (retention (retention_policy nodeset)) (node_set_owner nodeset)
      (pod_owner pod) (is_pod_cordon pod) refs
