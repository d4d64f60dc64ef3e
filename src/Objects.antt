-- ===== src/Objects.antt =====
-- internal/utils/objectutils/patch.go and delete.go: `SyncObject` and `DeleteObject`. The type switch on the object's Go type is a
-- test of its kind; `wrap` is `fmt.Errorf` with the text before `%w`.
pub mod Writes
mod Examples
use slurm_operator.Prelude.{
  String, Bool, true, false, not, ◌&&◌, List, [], ◌∷◌, Option, none, some, has_str, has_prefix,
  if◌then◌else◌,
}
use slurm_operator.Api.{Error, Result, ok, err, text, is_not_found}
use slurm_operator.Api.Object.{
  Object, ObjectKind, config_map, secret, service, deployment, stateful_set, controller, rest_api,
  accounting, node_set, login_set, pod_disruption_budget, service_monitor, unhandled,
}
use slurm_operator.Annotations.Merge.{merge_maps}
use slurm_operator.PodUtils.{is_set}
use slurm_operator.Effects
use slurm_operator.Effects.{Env, M, throw, get_object, create_object, patch_object}

-- The fields that a patch takes from the new object, by its kind: some kinds take the whole spec.
unfoldable pub takes : ObjectKind → String → Bool
takes config_map f = has_str f ("Data" ∷ "BinaryData" ∷ [])
takes secret f = has_str f ("Data" ∷ "StringData" ∷ [])
takes service f = has_prefix f "Spec"
takes controller f = has_prefix f "Spec"
takes rest_api f = has_prefix f "Spec"
takes accounting f = has_prefix f "Spec"
takes deployment f =
    has_str f ("Spec.MinReadySeconds" ∷ "Spec.Replicas" ∷ "Spec.Strategy" ∷ "Spec.Template" ∷ [])
takes stateful_set f = has_str f (
    "Spec.MinReadySeconds" ∷ "Spec.Ordinals" ∷ "Spec.PersistentVolumeClaimRetentionPolicy"
    ∷ "Spec.Replicas" ∷ "Spec.Template" ∷ "Spec.UpdateStrategy" ∷ [])
takes node_set f = has_str f (
    "Spec.MinReadySeconds" ∷ "Spec.PersistentVolumeClaimRetentionPolicy" ∷ "Spec.Replicas"
    ∷ "Spec.Template" ∷ "Spec.UpdateStrategy" ∷ [])
takes login_set f = has_str f ("Spec.Replicas" ∷ "Spec.Template" ∷ [])
takes pod_disruption_budget f =
    has_str f ("Spec.MaxUnavailable" ∷ "Spec.MinAvailable" ∷ "Spec.Selector" ∷ [])
takes service_monitor f = has_str f (
    "Spec.JobLabel" ∷ "Spec.TargetLabels" ∷ "Spec.PodTargetLabels" ∷ "Spec.Endpoints"
    ∷ "Spec.Selector" ∷ "Spec.SelectorMechanism" ∷ "Spec.NamespaceSelector" ∷ "Spec.SampleLimit"
    ∷ "Spec.ScrapeProtocols" ∷ "Spec.FallbackScrapeProtocol" ∷ "Spec.TargetLimit"
    ∷ "Spec.LabelLimit" ∷ "Spec.LabelNameLengthLimit" ∷ "Spec.LabelValueLengthLimit"
    ∷ "Spec.NativeHistogramConfig" ∷ "Spec.KeepDroppedTargets" ∷ "Spec.AttachMetadata"
    ∷ "Spec.ScrapeClassName" ∷ "Spec.BodySizeLimit" ∷ "Spec.ServiceDiscoveryRole" ∷ [])
takes unhandled f = false

-- What the old object is patched to.
unfoldable pub merged : ObjectKind → Object → Object → Object
unfolding takes merge_maps
merged kind old new = record old {
  annotations = merge_maps (old.annotations ∷ new.annotations ∷ []);
  labels = merge_maps (old.labels ∷ new.labels ∷ []);
  fields = λ f. if takes kind f then new.fields f else old.fields f;
}

abbrev pub is_handled : ObjectKind → Bool
is_handled unhandled = false
is_handled _ = true

-- Whether the kind has `Immutable`.
abbrev pub may_be_immutable : ObjectKind → Bool
may_be_immutable config_map = true
may_be_immutable secret = true
may_be_immutable _ = false

-- `ptr.Deref(obj.Immutable, false)`.
abbrev pub is_true : Option Bool → Bool
is_true none = false
is_true (some b) = b

-- The early returns before the patch.
unfoldable pub left_alone : ObjectKind → Bool → Object → Bool
left_alone kind should_update old =
    if is_set old.deletion_timestamp
    then true
    else if not should_update
    then true
    else may_be_immutable kind && is_true old.immutable

module _ (env : Env) (wrap : String → Error → Error) where
  abbrev pub wrapped : String → Option Error → Result (Unit {0})
  wrapped message none = ok tt
  wrapped message (some e) = err (wrap message e)

  -- After `c.Get`.
  unfoldable pub write_object : Object → Bool → Result Object → M (Unit {0})
  unfolding merged left_alone
  write_object new should_update (err e) tr =
      if is_not_found e
      then (wrapped "error creating" (env.add_object tr new), create_object new ∷ tr)
      else (err (wrap "error getting" e), tr)
  write_object new should_update (ok old) tr =
      if left_alone new.kind should_update old then (ok tt, tr) else (
        wrapped "error patching" (env.change_object tr (merged new.kind old new) old),
        patch_object (merged new.kind old new) old ∷ tr,
      )

  unfoldable pub sync_object : Object → Bool → M (Unit {0})
  unfolding write_object
  sync_object new should_update tr =
      if is_handled new.kind
      then write_object new should_update (env.read_object tr new) (get_object new ∷ tr)
      else throw (text "unhandled object, this is a bug") tr

  -- `DeleteObject`, of internal/utils/objectutils/delete.go, after `c.Get`.
  unfoldable pub delete_found : Result Object → M (Unit {0})
  delete_found (err e) tr = (if is_not_found e then ok tt else err (wrap "error getting" e), tr)
  delete_found (ok old) tr =
      if is_set old.deletion_timestamp
      then (ok tt, tr)
      else (wrapped "error deleting" (env.remove_object tr old), Effects.delete_object old ∷ tr)

  unfoldable pub delete_object : Object → M (Unit {0})
  unfolding delete_found
  delete_object new tr =
      if is_handled new.kind
      then delete_found (env.read_object tr new) (get_object new ∷ tr)
      else throw (text "unhandled object, this is a bug") tr
