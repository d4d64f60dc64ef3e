-- ===== src/History/Revisions.antt =====
-- internal/controller/nodeset/nodeset_history.go, and the adoption of revisions in
-- internal/controller/nodeset/nodeset_sync.go. The making of a new revision encodes the NodeSet as
-- JSON: it is a parameter, by the number and the collision count.
use slurm_operator.Prelude.{
  ℕ, ◌+◌, ◌-◌, ◌%◌, ◌^◌, String, Bool, true, false, not, List, [], ◌∷◌, ◌++◌, Option, none, some,
  map, keep, length, take, leb, has_str, str_eq, if◌then◌else◌,
}
use slurm_operator.Api.{Error, Result, ok, err, Pod}
use slurm_operator.Api.Maps.{get?, insert}
use slurm_operator.Claims.{Owner}
use slurm_operator.Steps.{Step, done, ◌>>-◌, run, Retrier}
use slurm_operator.History.{
  Revision, Client, hash_label, get_revision, controller_of, list_controller_revisions,
  create_controller_revision, update_controller_revision, adopt_controller_revision,
}

-- k8s.io/kubernetes/pkg/controller/history.
pub record Api : Type 0 where
  pub sort : List Revision → List Revision
  pub equal : Revision → Revision → Bool
  pub find_equal : List Revision → Revision → List Revision
  pub revision_name : String → String → String
  pub hash : Revision → ℕ → String

abbrev pub newest : List Revision → Option Revision
newest [] = none
newest (r ∷ []) = some r
newest (r ∷ s ∷ rs) = newest (s ∷ rs)

-- An int64 wraps.
unfoldable pub next_revision : List Revision → ℕ
next_revision revisions = elim (newest revisions) [ none ↦ 1 | some r ↦ (r.revision + 1) % 2 ^ 64 ]

abbrev pub find_named : String → List Revision → Option Revision
find_named name [] = none
find_named name (r ∷ rs) =
    let rest = find_named name rs in if str_eq r.name name then some r else rest

module _ {W : Type 0} (client : Client W) (retrier : Retrier) where
  module _ (api : Api) (fuel : ℕ) (parent : Owner) (namespace : String) where
    -- What the calls that find or make the update revision end in: no result where the creation is
    -- out of fuel.
    abbrev pub Outcome : Type 0 → Type 0
    Outcome A = Option (Result A × ℕ × W)

    -- The newest equal revision beside the newest of all; there is one if there is an equal one.
    abbrev pub reuse : Revision → Option Revision → Revision → ℕ → W → Outcome Revision
    reuse new none found count w = none
    reuse new (some top) found count w =
        let (r, w') = update_controller_revision client retrier found new.revision w in
        some (if api.equal top found then (ok top, count, w) else (r, count, w'))

    abbrev pub find_or_create :
        Revision → List Revision → Option Revision → ℕ → W → Outcome Revision
    find_or_create new sorted (some found) count w = reuse new (newest sorted) found count w
    find_or_create new sorted none count w =
        create_controller_revision client api.revision_name api.hash fuel parent namespace new count
          w

    abbrev pub with_current :
        String → List Revision → Outcome Revision → Outcome (Revision × Revision)
    with_current node_set_hash sorted none = none
    with_current node_set_hash sorted (some (err e, count, w)) = some (err e, count, w)
    with_current node_set_hash sorted (some (ok update, count, w)) =
        let current : Revision = elim (find_named node_set_hash sorted) [
          | none ↦ update
          | some r ↦ r
        ] in
        some (ok (current, update), count, w)

    abbrev pub from_new :
        String → List Revision → Result Revision → ℕ → W → Outcome (Revision × Revision)
    from_new node_set_hash sorted (err e) count w = some (err e, count, w)
    from_new node_set_hash sorted (ok new) count w =
        with_current node_set_hash sorted
          (find_or_create new sorted (newest (api.find_equal sorted new)) count w)

    -- The current and the update revision, by the status: its hash and its collision count.
    unfoldable pub get_node_set_revisions :
        (ℕ → ℕ → Result Revision)
        → String
        → Option ℕ
        → List Revision
        → W
        → Outcome (Revision × Revision)
    unfolding next_revision create_controller_revision update_controller_revision
    get_node_set_revisions new_revision node_set_hash collision_count revisions w =
        let sorted = api.sort revisions in
        let count : ℕ = elim collision_count [ none ↦ 0 | some c ↦ c ] in
        from_new node_set_hash sorted (new_revision (next_revision sorted) count) count w

  -- `truncateHistory`, once the pods are listed. The limit is not negative: with a negative one the
  -- slice reaches past the history and the code panics.
  abbrev pub live_names : Option Revision → Option Revision → List Pod → List String
  live_names current update pods =
      let name : Option Revision → List String = λ o. elim o [ none ↦ [] | some r ↦ r.name ∷ [] ] in
      name current ++ (name update ++ map (λ pod. get_revision pod.labels) pods)

  unfoldable pub to_delete : ℕ → List String → List Revision → List Revision
  to_delete limit live revisions =
      let history = keep (λ r. not (has_str r.name live)) revisions in
      if leb (length history) limit then [] else take (length history - limit) history

  unfoldable pub delete_revisions : List Revision → Step W (Unit {0})
  delete_revisions [] = done tt
  delete_revisions (r ∷ rs) = run (client.delete r) >>- λ _. delete_revisions rs

  unfoldable pub truncate_history :
      Step W (List Pod) → ℕ → List Revision → Option Revision → Option Revision → Step W (Unit {0})
  unfolding to_delete delete_revisions
  truncate_history get_pods limit revisions current update = get_pods >>- λ pods.
      delete_revisions (to_delete limit (live_names current update pods) revisions)

  -- `adoptOrphanRevisions`: the label of a revision that has none is its name.
  abbrev pub label_missing : Revision → Step W (Unit {0})
  label_missing r w =
      let labelled = record r { labels = insert hash_label r.name r.labels } in
      let updated = run (client.update labelled) w in
      elim (get? hash_label r.labels) [ some l ↦ (ok tt, w) | none ↦ updated ]

  unfoldable pub label_all : List Revision → Step W (Unit {0})
  label_all [] = done tt
  label_all (r ∷ rs) = label_missing r >>- λ _. label_all rs

  abbrev pub is_orphan : Revision → Bool
  is_orphan r = elim (controller_of r.owner_references) [ none ↦ true | some ref ↦ false ]

  unfoldable pub do_adopt_orphan_revisions : Owner → List Revision → Step W (Unit {0})
  unfolding adopt_controller_revision
  do_adopt_orphan_revisions parent [] = done tt
  do_adopt_orphan_revisions parent (r ∷ rs) =
      adopt_controller_revision client retrier parent r >>- λ _. do_adopt_orphan_revisions parent rs

  abbrev pub adopt_some : (W → Option Error × W) → Owner → List Revision → Step W (Unit {0})
  adopt_some can_adopt parent [] = done tt
  adopt_some can_adopt parent (r ∷ rs) =
      run can_adopt >>- λ _. do_adopt_orphan_revisions parent (r ∷ rs)

  unfoldable pub adopt_orphan_revisions :
      (W → Option Error × W) → Owner → String → Step W (Unit {0})
  unfolding list_controller_revisions label_all do_adopt_orphan_revisions controller_of
  adopt_orphan_revisions can_adopt parent namespace =
      list_controller_revisions client parent namespace >>- λ revisions.
      label_all revisions >>- λ _. adopt_some can_adopt parent (keep is_orphan revisions)
