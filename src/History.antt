-- ===== src/History.antt =====
-- internal/utils/historycontrol/historycontrol.go and utils.go: the ControllerRevisions of a
-- NodeSet. The client is a record of calls on a state. An int32 or an int64 is the number of its
-- bits, so that adding one is taken modulo the word; the hash and the sorting of k8s.io/kubernetes
-- are parameters.
pub mod Create
pub mod Retry
pub mod Revisions
pub mod Choice
pub mod Truncate
mod Examples
use slurm_operator.Prelude.{
  ℕ, ◌+◌, ◌%◌, ◌^◌, ◌==◌, String, Bool, true, false, not, ◌||◌, List, [], ◌∷◌, ◌++◌, Option, none,
  some, zero, suc, str_eq, if◌then◌else◌,
}
use slurm_operator.Api.{OwnerReference, Error, already_exists, not_found, text, Result, ok, err}
use slurm_operator.Api.Maps.{Labels, get_value, insert}
use slurm_operator.Claims.{Owner, Refs, is_controller, has_uid}
use slurm_operator.PodControl.{is_already_exists}
use slurm_operator.Steps.{Step, Retrier}

pub record Revision : Type 0 where
  pub name : String
  pub namespace : String
  pub labels : Labels
  pub owner_references : Refs
  pub raw : String
  pub revision : ℕ

-- The calls of the Kubernetes client. An invalid object is an error of its own to `IsInvalid`,
-- which `is_invalid` tells.
pub record Client (W : Type 0) : Type 0 where
  pub list : String → Step W (List Revision)
  pub get : String → Step W Revision
  pub create : Revision → W → Option Error × W
  pub update : Revision → W → Option Error × W
  pub delete : Revision → W → Option Error × W
  pub is_invalid : Error → Bool

abbrev pub hash_label : String
hash_label = "controller-revision-hash"

-- `SetRevision`: the map that the caller holds afterwards. A nil map is `none`, and a write to the
-- new one that the function makes in its place is lost.
abbrev pub set_revision : Option Labels → String → Option Labels
set_revision none revision = none
set_revision (some labels) revision =
    some (if str_eq revision "" then labels else insert hash_label revision labels)

-- `GetRevision`.
abbrev pub get_revision : Labels → String
get_revision labels = get_value hash_label labels

-- `metav1.GetControllerOf`: the first reference of a controller.
unfoldable pub controller_of : Refs → Option OwnerReference
controller_of [] = none
controller_of (ref ∷ refs) =
    let rest = controller_of refs in if is_controller ref then some ref else rest

abbrev pub may_own : Owner → Option OwnerReference → Bool
may_own parent none = true
may_own parent (some ref) = has_uid parent ref

abbrev pub owned_by : Owner → List Revision → List Revision
owned_by parent [] = []
owned_by parent (r ∷ rs) =
    let rest = owned_by parent rs in
    if may_own parent (controller_of r.owner_references) then r ∷ rest else rest

-- `*collisionCount++`.
abbrev pub next_count : ℕ → ℕ
next_count c = (c + 1) % 2 ^ 32

-- What happens in one round of the loop of `CreateControllerRevision`: it ends with a result, or a
-- revision of that name with other data is there.
pub data Round (W : Type 0) : Type 0 where
  ends : Result Revision → W → Round W
  collides : W → Round W

abbrev pub controlled : Error
controlled = text "attempt to adopt revision owned by another"

abbrev pub owner_ref : Owner → OwnerReference
owner_ref parent = record {
  api_version = parent.api_version;
  kind = parent.kind;
  name = parent.name;
  uid = parent.uid;
  controller = some true;
}

abbrev pub adopt : Owner → Revision → Revision
adopt parent clone = record clone {
  owner_references = clone.owner_references ++ owner_ref parent ∷ [];
}

abbrev pub without_owner : Owner → Refs → Refs
without_owner parent [] = []
without_owner parent (ref ∷ refs) =
    let rest = without_owner parent refs in if has_uid parent ref then rest else ref ∷ rest

abbrev pub release : Owner → Revision → Revision
release parent clone = record clone {
  owner_references = without_owner parent clone.owner_references;
}

abbrev pub with_clone : {W : Type 0} → Result (Unit {0}) × (Revision × W) → Result Revision × W
with_clone (ok u, (clone, w)) = (ok clone, w)
with_clone (err e, (clone, w)) = (err e, w)

module _ {W : Type 0} (client : Client W) where
  unfoldable pub list_controller_revisions : Owner → String → Step W (List Revision)
  unfolding controller_of
  list_controller_revisions parent namespace w =
      let (r, w') = client.list namespace w in
      (elim r [ ok items ↦ ok (owned_by parent items) | err e ↦ err e ], w')

  abbrev pub compare_found : Revision → Result Revision × W → Round W
  compare_found clone (err e, w) = ends (err e) w
  compare_found clone (ok exists, w) =
      if str_eq exists.raw clone.raw then ends (ok exists) w else collides w

  -- An error beside the created object is what the callers look at.
  abbrev pub after_creation : Revision → Option Error × W → Round W
  after_creation created (none, w) = ends (ok created) w
  after_creation created (some e, w) =
      let found = compare_found created (client.get created.name w) in
      if is_already_exists e then found else ends (err e) w

  abbrev pub create_round : Revision → W → Round W
  create_round created w = after_creation created (client.create created w)

  -- The loop, by the name that each collision count gives; `none` is out of fuel.
  unfoldable pub create_loop : (ℕ → Revision) → ℕ → ℕ → W → Option (Result Revision × ℕ × W)
  create_loop named zero count w = none
  create_loop named (suc fuel) count w =
      let again = create_loop named fuel (next_count count) in
      elim (create_round (named count) w) [
        | ends r w' ↦ some (r, count, w')
        | collides w' ↦ again w'
      ]

  unfoldable pub create_controller_revision :
      (String → String → String)
      → (Revision → ℕ → String)
      → ℕ
      → Owner
      → String
      → Revision
      → ℕ
      → W
      → Option (Result Revision × ℕ × W)
  unfolding create_loop
  create_controller_revision revision_name hash fuel parent namespace revision count w =
      create_loop
        (λ c. record revision {
          name = revision_name parent.name (hash revision c);
          namespace = namespace;
        })
        fuel count w

  -- After a failed write the object is read again, and kept as it is where that fails too.
  abbrev pub read_again :
      Error → Revision → Result Revision × W → Result (Unit {0}) × (Revision × W)
  read_again e clone (ok got, w) = (err e, (got, w))
  read_again e clone (err f, w) = (err e, (clone, w))

  abbrev pub write : String → Revision → Option Error × W → Result (Unit {0}) × (Revision × W)
  write name clone (none, w) = (ok tt, (clone, w))
  write name clone (some e, w) = read_again e clone (client.get name w)

  -- The functions that are retried; the state of each is the clone and the world.
  abbrev pub try_update : String → ℕ → Step (Revision × W) (Unit {0})
  try_update name new_revision (clone, w) =
      let next = record clone { revision = new_revision } in
      if clone.revision == new_revision
      then (ok tt, (clone, w))
      else write name next (client.update next w)

  -- Nothing is done to a revision that has a controller.
  abbrev pub unless_controlled :
      Option OwnerReference → String → Revision → Revision × W → Result (Unit {0}) × (Revision × W)
  unless_controlled (some ref) name next s = (err controlled, s)
  unless_controlled none name next (clone, w) = write name next (client.update next w)

  abbrev pub try_adopt : String → Owner → Step (Revision × W) (Unit {0})
  try_adopt name parent (clone, w) =
      unless_controlled (controller_of clone.owner_references) name (adopt parent clone) (clone, w)

  abbrev pub try_release : String → Owner → Step (Revision × W) (Unit {0})
  try_release name parent (clone, w) =
      unless_controlled (controller_of clone.owner_references) name (release parent clone)
        (clone, w)

  -- Deleted revisions and ones that the parent does not own any more are passed over: `none` is
  -- nil.
  abbrev pub released : Result (Unit {0}) × (Revision × W) → Result (Option Revision) × W
  released (ok u, (clone, w)) = (ok (some clone), w)
  released (err not_found, (clone, w)) = (ok none, w)
  released (err e, (clone, w)) = (if client.is_invalid e then ok none else err e, w)

  module _ (retrier : Retrier) where
    unfoldable pub update_controller_revision : Revision → ℕ → Step W Revision
    update_controller_revision revision new_revision w =
        with_clone (retrier.retry (try_update revision.name new_revision) (revision, w))

    unfoldable pub adopt_controller_revision : Owner → Revision → Step W Revision
    unfolding controller_of
    adopt_controller_revision parent revision w =
        with_clone (retrier.retry (try_adopt revision.name parent) (revision, w))

    unfoldable pub release_controller_revision : Owner → Revision → Step W (Option Revision)
    unfolding controller_of
    release_controller_revision parent revision w =
        released (retrier.retry (try_release revision.name parent) (revision, w))
