-- ===== src/Objects/Writes.antt =====
-- What `SyncObject` may write.
use slurm_operator.Prelude.{String, Bool, true, false, not, ◌&&◌, ◌≡◌, refl, [], ◌∷◌, if◌then◌else◌}
use slurm_operator.Api.{Error, Result, ok, err, is_not_found}
use slurm_operator.Api.Maps.{Labels, get?}
use slurm_operator.Api.Object.{Object, ObjectKind}
use slurm_operator.Annotations.Merge.{merge_maps, or_else, merge_two}
use slurm_operator.PodUtils.{is_set}
use slurm_operator.Effects
use slurm_operator.Effects.{Call, Trace, Env, get_object, create_object, patch_object}
use slurm_operator.Effects.Adds.{Adds, same, add, Adds-trans, Adds-if}
use slurm_operator.Objects.{
  takes, merged, left_alone, may_be_immutable, is_true, is_handled, write_object, sync_object,
  delete_found, delete_object,
}

-- The object that is written keeps the old one's identity, owners and the fields that are not the
-- operator's; it has the new one's fields, labels and annotations, and the old ones besides.
pub record IsMerge (old new result : Object) : Type 0 where
  pub names : (result.namespace ≡ old.namespace) × (result.name ≡ old.name)
  pub owners : result.owner_references ≡ old.owner_references
  pub field :
      (f : String) → result.fields f ≡ (if takes new.kind f then new.fields f else old.fields f)
  pub label : (k : String) → get? k result.labels ≡ or_else (get? k new.labels) (get? k old.labels)
  pub annotation :
      (k : String)
      → get? k result.annotations ≡ or_else (get? k new.annotations) (get? k old.annotations)

-- What holds of a write where it is made: the object was read before.
unfoldable pub WriteCall : Env → Object → Bool → Trace → Call → Trace → Type 0
WriteCall env new should_update start (create_object object) tr =
    (object ≡ new) × ((e : Error) × (env.read_object start new ≡ err e) × (is_not_found e ≡ true))
WriteCall env new should_update start (patch_object result old) tr =
    (env.read_object start new ≡ ok old)
    × (should_update ≡ true)
    × (is_set old.deletion_timestamp ≡ false)
    × ((may_be_immutable new.kind && is_true old.immutable) ≡ false)
    × IsMerge old new result
WriteCall env new should_update start (get_object object) tr = object ≡ new
WriteCall env new should_update start _ tr = ⊥

merged-IsMerge : (old new : Object) → IsMerge old new (merged new.kind old new)
unfolding merged merge_maps
merged-IsMerge old new = record {
  names = (refl, refl);
  owners = refl;
  field = λ f. refl;
  label = λ k. both k old.labels new.labels;
  annotation = λ k. both k old.annotations new.annotations;
}
  where
    both :
        (k : String) (a b : Labels)
        → get? k (merge_maps (a ∷ b ∷ [])) ≡ or_else (get? k b) (get? k a)
    both k a b = merge_two k a b

left_alone-false :
    (kind : ObjectKind) (should_update : Bool) (old : Object)
    → left_alone kind should_update old ≡ false
    → (is_set old.deletion_timestamp ≡ false)
      × (should_update ≡ true)
      × ((may_be_immutable kind && is_true old.immutable) ≡ false)
unfolding left_alone
left_alone-false kind should_update old h = go (is_set old.deletion_timestamp) should_update h
  where
    go :
        (a b : Bool)
        → (if a
            then true
            else if not b
            then true
            else may_be_immutable kind && is_true old.immutable)
          ≡ false
        → (a ≡ false) × (b ≡ true) × ((may_be_immutable kind && is_true old.immutable) ≡ false)
    go true b h = absurd (cc)
    go false false h = absurd (cc)
    go false true h = (refl, refl, h)

module _ (env : Env) (wrap : String → Error → Error) where
  write_object-Writes :
      (new : Object) (should_update : Bool) (r : Result Object) (start tr : Trace)
      → env.read_object start new ≡ r
      → Adds
          (WriteCall env new should_update start)
          tr
          (write_object env wrap new should_update r tr).1
  unfolding write_object WriteCall
  write_object-Writes new should_update (err e) start tr read =
      Adds-if (WriteCall env new should_update start) (is_not_found e) _ _ tr
        (λ h. add same (refl, (e, read, h))) (λ h. same)
  write_object-Writes new should_update (ok old) start tr read =
      Adds-if (WriteCall env new should_update start) (left_alone new.kind should_update old) _ _ tr
        (λ h. same)
        (λ h.
          let (kept, wanted, mutable) = left_alone-false new.kind should_update old h in
          add same (read, wanted, kept, mutable, merged-IsMerge old new))

  -- `SyncObject` creates an object only after reading that it is not found, and patches one only
  -- where it was asked to, and the one that it read is neither being deleted nor immutable. The
  -- patch keeps the old object's name, owners and the fields that are not the operator's, takes the
  -- others from the new one, and gives each label and annotation the new value or, where the new
  -- object has none, the old one.
  pub sync_object-Writes :
      (new : Object) (should_update : Bool) (tr : Trace)
      → Adds (WriteCall env new should_update tr) tr (sync_object env wrap new should_update tr).1
  unfolding sync_object WriteCall
  sync_object-Writes new should_update tr =
      Adds-if (WriteCall env new should_update tr) (is_handled new.kind) _ _ tr
        (λ h. Adds-trans (add same refl) (write_object-Writes new should_update _ tr _ refl))
        (λ h. same)

-- A deletion of the object that was read, which is not being deleted already.
unfoldable pub DeleteCall : Env → Object → Trace → Call → Trace → Type 0
DeleteCall env new start (Effects.delete_object old) tr =
    (env.read_object start new ≡ ok old) × (is_set old.deletion_timestamp ≡ false)
DeleteCall env new start (get_object object) tr = object ≡ new
DeleteCall env new start _ tr = ⊥

module _ (env : Env) (wrap : String → Error → Error) where
  delete_found-Deletes :
      (new : Object) (r : Result Object) (start tr : Trace)
      → env.read_object start new ≡ r
      → Adds (DeleteCall env new start) tr (delete_found env wrap r tr).1
  unfolding delete_found DeleteCall
  delete_found-Deletes new (err e) start tr read = same
  delete_found-Deletes new (ok old) start tr read =
      Adds-if (DeleteCall env new start) (is_set old.deletion_timestamp) _ _ tr (λ h. same)
        (λ h. add same (read, h))

  -- `DeleteObject` deletes nothing but the object that it has read, and that only where it is not
  -- being deleted already.
  pub delete_object-Deletes :
      (new : Object) (tr : Trace)
      → Adds (DeleteCall env new tr) tr (delete_object env wrap new tr).1
  unfolding delete_object DeleteCall
  delete_object-Deletes new tr =
      Adds-if (DeleteCall env new tr) (is_handled new.kind) _ _ tr
        (λ h. Adds-trans (add same refl) (delete_found-Deletes new _ tr _ refl)) (λ h. same)
