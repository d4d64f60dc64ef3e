-- ===== src/PodControl.antt =====
-- internal/controller/nodeset/podcontrol/podcontrol.go: creating, updating and deleting the pods of
-- a NodeSet with their volume claims. The cluster is a record of calls on a state. An error that is
-- wrapped with `%w` is the error itself, one that is formatted anew is a text; the messages of
-- events are left out.
pub mod Retention
pub mod Creation
pub mod Update
pub mod Updated
mod Examples
use slurm_operator.Prelude.{
  ℕ, String, Bool, true, false, not, ◌&&◌, ◌||◌, List, [], ◌∷◌, ◌++◌, Option, none, some, str_eq,
  if◌then◌else◌,
}
use slurm_operator.Api.{Error, already_exists, text, Result, ok, err, is_not_found, Pod, NodeSet}
use slurm_operator.Api.Maps.{Labels}
use slurm_operator.Api.WellKnown.{retain}
use slurm_operator.Naming.{is_identity_match, update_identity}
use slurm_operator.Claims.{
  Refs, node_set_owner, pod_owner, has_stale_owner_ref, has_unexpected_controller, retention,
  retention_policy, is_claim_owner_up_to_date, update_claim_owner_refs,
}
use slurm_operator.Storage.{
  claim_name_of, get_persistent_volume_claims, update_storage, is_storage_match,
}
use slurm_operator.Steps.{Step, done, fails, ◌>>-◌, run, if_found, Retrier}

-- A claim: its name, whether it is being deleted, and who owns it.
pub record Claim : Type 0 where
  pub name : String
  pub deletion_timestamp : Option ℕ
  pub owner_references : Refs

pub record Cluster (W : Type 0) : Type 0 where
  pub get_claim : String → Step W Claim
  pub create_claim : Claim → W → Option Error × W
  pub update_claim : Claim → W → Option Error × W
  pub create_this_pod : Pod → W → Option Error × W
  pub delete_pod : Pod → W → Option Error × W
  pub update_pod : Pod → W → Option Error × W
  pub get_pod : String → Step W Pod
  -- An event with its reason, and whether it is a normal one.
  pub event : String → Bool → W → W

abbrev pub is_already_exists : Error → Bool
is_already_exists already_exists = true
is_already_exists _ = false

abbrev pub is_nil : Option Error → Bool
is_nil none = true
is_nil (some e) = false

abbrev pub event_create : String
event_create = "Create"

abbrev pub event_delete : String
event_delete = "Delete"

abbrev pub event_update : String
event_update = "Update"

module _ {W : Type 0} (cluster : Cluster W) where
  -- `recordPodEvent` and `recordClaimEvent`: a normal event for a nil error.
  unfoldable pub record_pod_event : String → Option Error → W → W
  record_pod_event verb e w = cluster.event verb (is_nil e) w

  -- The creation of a claim that was found missing. The error of the creation is a variable of its
  -- own, so the test that follows and the event see the error of the read, which is `e`.
  abbrev pub told : Error → W → W
  told e w = if is_already_exists e then w else record_pod_event event_create (some e) w

  abbrev pub after_create : Error → Option Error × W → List Error × W
  after_create e (none, w) = ([], told e w)
  after_create e (some c, w) = (c ∷ [], told e w)

  abbrev pub new_claim : String → Claim
  new_claim name = record { name = name; deletion_timestamp = none; owner_references = [] }

  abbrev pub being_deleted : Option ℕ → List Error
  being_deleted none = []
  being_deleted (some t) = text "pvc is being deleted" ∷ []

  abbrev pub after_get : String → Result Claim × W → List Error × W
  after_get name (ok claim, w) = (being_deleted claim.deletion_timestamp, w)
  after_get name (err e, w) =
      let created = after_create e (cluster.create_claim (new_claim name) w) in
      if is_not_found e then created else (e ∷ [], record_pod_event event_create (some e) w)

  -- What becomes of one claim of a new pod: the errors that it adds.
  unfoldable pub create_claim_step : String → W → List Error × W
  unfolding record_pod_event
  create_claim_step name w = after_get name (cluster.get_claim name w)

  unfoldable pub create_claims : Labels → W → List Error × W
  unfolding create_claim_step
  create_claims [] w = ([], w)
  create_claims ((t, name) ∷ claims) w =
      let (errs, w') = create_claim_step name w in
      let (more, w'') = create_claims claims w' in (errs ++ more, w'')

  module _ (nodeset : NodeSet) (pod : Pod) where
    -- The loops of `PodPVCsMatchRetentionPolicy` and `UpdatePodPVCsForRetentionPolicy`.
    abbrev pub match_one : Step W Bool → Claim → Step W Bool
    match_one rest claim w =
        if is_claim_owner_up_to_date claim.owner_references nodeset pod
        then rest w
        else (ok false, w)

    unfoldable pub claims_match : List String → Step W Bool
    unfolding claim_name_of is_claim_owner_up_to_date
    claims_match [] w = (ok true, w)
    claims_match (t ∷ ts) w =
        let rest = claims_match ts in
        if_found (match_one rest) rest (λ e. text "could not retrieve claim")
          (cluster.get_claim (claim_name_of nodeset pod t) w)

    unfoldable pub pod_pvcs_match_retention_policy : Step W Bool
    unfolding claims_match
    pod_pvcs_match_retention_policy = claims_match nodeset.volume_claim_templates

    abbrev pub updated_claim : Claim → Claim
    updated_claim claim = record claim {
      owner_references = update_claim_owner_refs claim.owner_references nodeset pod;
    }

    -- The event on a claim that someone else controls.
    unfoldable pub warn_of_controller : Claim → W → W
    unfolding retention retention_policy has_unexpected_controller
    warn_of_controller claim w =
        if has_unexpected_controller (retention (retention_policy nodeset)) (node_set_owner nodeset)
          (pod_owner pod) claim.owner_references
        then cluster.event "ConflictingController" false w
        else w

    unfoldable pub update_one_claim : Claim → Step W (Unit {0})
    unfolding is_claim_owner_up_to_date update_claim_owner_refs warn_of_controller
    update_one_claim claim w =
        if is_claim_owner_up_to_date claim.owner_references nodeset pod
        then (ok tt, warn_of_controller claim w)
        else run (cluster.update_claim (updated_claim claim)) (warn_of_controller claim w)

    unfoldable pub update_claims : List String → Step W (Unit {0})
    unfolding claim_name_of update_one_claim
    update_claims [] w = (ok tt, w)
    update_claims (t ∷ ts) w =
        let rest = update_claims ts in
        if_found (λ claim. update_one_claim claim >>- λ _. rest) rest (λ e. e)
          (cluster.get_claim (claim_name_of nodeset pod t) w)

    unfoldable pub update_pod_pvcs_for_retention_policy : Step W (Unit {0})
    unfolding update_claims
    update_pod_pvcs_for_retention_policy = update_claims nodeset.volume_claim_templates

    -- The loop of `IsPodPVCsStale` over the names of the claims.
    abbrev pub stale_one : Step W Bool → Claim → Step W Bool
    stale_one rest claim w =
        if has_stale_owner_ref (pod_owner pod) claim.owner_references then (ok true, w) else rest w

    unfoldable pub any_stale : Labels → Step W Bool
    unfolding has_stale_owner_ref
    any_stale [] w = (ok false, w)
    any_stale ((t, name) ∷ claims) w =
        let rest = any_stale claims in
        if_found (stale_one rest) rest (λ e. e) (cluster.get_claim name w)

  module _ (order : Labels → Labels) where
    unfoldable pub is_pod_pvcs_stale : NodeSet → Pod → Step W Bool
    unfolding any_stale get_persistent_volume_claims retention_policy
    is_pod_pvcs_stale nodeset pod w =
        if str_eq (retention_policy nodeset).when_scaled retain
        then (ok false, w)
        else any_stale nodeset pod (order (get_persistent_volume_claims nodeset pod)) w

    -- `createPersistentVolumeClaims`: an aggregate of no errors is nil.
    unfoldable pub create_persistent_volume_claims : NodeSet → Pod → W → List Error × W
    unfolding create_claims get_persistent_volume_claims
    create_persistent_volume_claims nodeset pod =
        create_claims (order (get_persistent_volume_claims nodeset pod))

    -- The creation, once there are claims.
    abbrev pub policy_set : Option Error → Result (Unit {0}) × W → Result (Unit {0}) × W
    policy_set created (err f, w) = (err f, record_pod_event event_update (some f) w)
    policy_set none (ok u, w) = (ok tt, record_pod_event event_create none w)
    policy_set (some e) (ok u, w) = (err e, record_pod_event event_create (some e) w)

    abbrev pub pod_created : NodeSet → Pod → Option Error × W → Result (Unit {0}) × W
    pod_created nodeset pod (e, w) =
        let rest = policy_set e (update_pod_pvcs_for_retention_policy nodeset pod w) in
        elim e [ none ↦ rest | some e ↦ if is_already_exists e then (err e, w) else rest ]

    -- An aggregate that stands for an error is a text.
    abbrev pub claims_created : NodeSet → Pod → List Error × W → Result (Unit {0}) × W
    claims_created nodeset pod ([], w) = pod_created nodeset pod (cluster.create_this_pod pod w)
    claims_created nodeset pod (e ∷ es, w) =
        (err (text "claims"), record_pod_event event_create (some (text "claims")) w)

    unfoldable pub create_node_set_pod : NodeSet → Pod → Step W (Unit {0})
    unfolding create_persistent_volume_claims update_pod_pvcs_for_retention_policy record_pod_event
    create_node_set_pod nodeset pod w =
        claims_created nodeset pod (create_persistent_volume_claims nodeset pod w)

    unfoldable pub delete_node_set_pod : Pod → Step W (Unit {0})
    unfolding record_pod_event
    delete_node_set_pod pod w =
        let (e, w') = cluster.delete_pod pod w in
        (elim e [ none ↦ ok tt | some e ↦ err e ], record_pod_event event_delete e w')
