-- ===== src/Claims/Converge.antt =====
-- One update brings the owner references of a claim to what the retention policy asks for.
use text.Mathlib.TextPositions.{eq_refl}
use slurm_operator.Prelude.{
  Bool, true, false, not, ◌||◌, ◌≡◌, refl, sym, ◌∙◌, [], ◌∷◌, ◌++◌, str_eq, eq_iff, arith, All,
  All-append, Bool-cases, inl, inr, if◌then◌else◌,
}
use slurm_operator.Api.{Pod, NodeSet}
use slurm_operator.Claims.{
  Owner, Refs, Retention, retain_all, delete_with_set, delete_with_pod, delete_with_either, other,
  matches_ref, has_owner_ref, other_controller, has_unexpected_controller, has_non_controller_owner,
  is_as_retained, owner_up_to_date, remove_refs, is_ours, controller_ref, add_controller_ref,
  add_retained, update_owner_refs, node_set_owner, pod_owner, retention, retention_policy,
  is_claim_owner_up_to_date, update_claim_owner_refs,
}
use slurm_operator.Claims.Refs.{
  Names, scrubbed-has_owner_ref, scrubbed-Names, scrubbed-other_controller, scrubbed_twice,
  scrubbed-again, not_stale, no_non_controller, has_owner_ref-append, other_controller-append,
  has_non_controller_owner-append,
}

-- References of a claim as good as `refs` for the others, owned by the NodeSet and the pod or not.
record Owned (set pod : Owner) (refs new : Refs) (by_set by_pod : Bool) : Type 0 where
  names : All (λ r. Names set r × Names pod r) new
  set_owns : has_owner_ref set new ≡ by_set
  pod_owns : has_owner_ref pod new ≡ by_pod
  controls : has_non_controller_owner set pod new ≡ false
  same : other_controller set pod new ≡ other_controller set pod refs
  kept : remove_refs new (is_ours set pod) ≡ remove_refs refs (is_ours set pod)

module _ (set pod : Owner) (refs : Refs) (names : All (λ r. Names set r × Names pod r) refs)
    (other_pod : matches_ref set (controller_ref pod) ≡ false)
    (other_set : matches_ref pod (controller_ref set) ≡ false)
    (distinct : str_eq set.uid pod.uid ≡ false) where
  abbrev scrubbed : Refs
  scrubbed = remove_refs refs (is_ours set pod)

  scrubbed-Owned : Owned set pod refs scrubbed false false
  scrubbed-Owned =
      let none = scrubbed-has_owner_ref set pod refs names in
      record {
        names = scrubbed-Names set pod refs names;
        set_owns = none.0;
        pod_owns = none.1;
        controls = no_non_controller set pod scrubbed none.0 none.1;
        same = scrubbed-other_controller set pod refs names;
        kept = scrubbed_twice set pod refs;
      }

  matches_self : (owner : Owner) → matches_ref owner (controller_ref owner) ≡ true
  unfolding matches_ref
  matches_self owner =
      ground (arith, eq_refl owner.api_version, eq_refl owner.kind, eq_refl owner.name)

  distinct' : str_eq pod.uid set.uid ≡ false
  distinct' = ground (arith, distinct, eq_iff set.uid pod.uid, eq_iff pod.uid set.uid)

  with_set-Owned : Owned set pod refs (scrubbed ++ controller_ref set ∷ []) true false
  with_set-Owned =
      let s = scrubbed-Owned in
      record {
        names =
            All-append _ scrubbed (controller_ref set ∷ []) s.names
              ((matches_self set ∙ sym (eq_refl set.uid), other_set ∙ sym distinct), tt);
        set_owns =
            has_owner_ref-append set pod set _ scrubbed
            ∙ ground (arith, s.set_owns, eq_refl set.uid);
        pod_owns =
            has_owner_ref-append set pod pod _ scrubbed ∙ ground (arith, s.pod_owns, distinct);
        controls = has_non_controller_owner-append set pod _ scrubbed refl ∙ s.controls;
        same =
            other_controller-append set pod (controller_ref set) scrubbed
              (ground (arith, matches_self set, eq_refl set.uid))
            ∙ s.same;
        kept =
            scrubbed-again set pod scrubbed (controller_ref set) (ground (arith, matches_self set))
            ∙ s.kept;
      }

  with_pod-Owned : Owned set pod refs (scrubbed ++ controller_ref pod ∷ []) false true
  with_pod-Owned =
      let s = scrubbed-Owned in
      record {
        names =
            All-append _ scrubbed (controller_ref pod ∷ []) s.names
              ((other_pod ∙ sym distinct', matches_self pod ∙ sym (eq_refl pod.uid)), tt);
        set_owns =
            has_owner_ref-append set pod set _ scrubbed ∙ ground (arith, s.set_owns, distinct');
        pod_owns =
            has_owner_ref-append set pod pod _ scrubbed
            ∙ ground (arith, s.pod_owns, eq_refl pod.uid);
        controls = has_non_controller_owner-append set pod _ scrubbed refl ∙ s.controls;
        same =
            other_controller-append set pod (controller_ref pod) scrubbed
              (ground (arith, matches_self pod, other_pod, eq_refl pod.uid))
            ∙ s.same;
        kept =
            scrubbed-again set pod scrubbed (controller_ref pod) (ground (arith, matches_self pod))
            ∙ s.kept;
      }

  add_set : add_controller_ref scrubbed set ≡ scrubbed ++ controller_ref set ∷ []
  unfolding add_controller_ref
  add_set = rw (scrubbed-Owned.set_owns) refl

  add_pod : add_controller_ref scrubbed pod ≡ scrubbed ++ controller_ref pod ∷ []
  unfolding add_controller_ref
  add_pod = rw (scrubbed-Owned.pod_owns) refl

  -- What the policy adds is what it asks for.
  added :
      (policy : Retention) (down : Bool)
      → (a : Bool) × (b : Bool) × Owned set pod refs (add_retained policy set pod down scrubbed) a b
        × (is_as_retained policy a b down ≡ true)
  unfolding add_retained is_as_retained
  added retain_all down = (false, false, scrubbed-Owned, refl)
  added other down = (false, false, scrubbed-Owned, refl)
  added delete_with_set down = (true, false, rw add_set with_set-Owned, refl)
  added delete_with_pod true = (false, true, rw add_pod with_pod-Owned, refl)
  added delete_with_pod false = (false, false, scrubbed-Owned, refl)
  added delete_with_either true = (false, true, rw add_pod with_pod-Owned, refl)
  added delete_with_either false = (true, false, rw add_set with_set-Owned, refl)

  verdict :
      (policy : Retention) (down : Bool) (new : Refs) (a b : Bool)
      → Owned set pod refs new a b
      → owner_up_to_date policy set pod down new ≡ (
          if has_unexpected_controller policy set pod refs
          then not (a || b)
          else is_as_retained policy a b down)
  unfolding owner_up_to_date has_unexpected_controller
  verdict policy down new a b o =
      rw (not_stale set pod new o.names, o.same, o.set_owns, o.pod_owns, o.controls) refl

  converges :
      (policy : Retention) (down : Bool)
      → let new = update_owner_refs policy set pod down refs in
        (owner_up_to_date policy set pod down new ≡ true)
        × (remove_refs new (is_ours set pod) ≡ remove_refs refs (is_ours set pod))
  unfolding update_owner_refs
  converges policy down = elim (Bool-cases (has_unexpected_controller policy set pod refs)) [
    | inl u ↦ rw u (
      verdict policy down scrubbed false false scrubbed-Owned ∙ rw u refl,
      scrubbed_twice set pod refs,
    )
    | inr u ↦
        let (a, b, owned, right) = added policy down in
        rw u (verdict policy down _ a b owned ∙ rw u right, owned.kept)
  ]

-- Where the references of a claim name the NodeSet and the pod exactly when they have their UIDs,
-- one `updateClaimOwnerRefForSetAndPod` makes `isClaimOwnerUpToDate` true, whatever the policy and
-- whoever else controls the claim; and the references to others stay as they are.
pub update_claim_owner_refs_lem :
    (refs : Refs) (nodeset : NodeSet) (pod : Pod)
    → All (λ r. Names (node_set_owner nodeset) r × Names (pod_owner pod) r) refs
    → str_eq nodeset.uid pod.uid ≡ false
    → let new = update_claim_owner_refs refs nodeset pod in
      let ours = is_ours (node_set_owner nodeset) (pod_owner pod) in
      (is_claim_owner_up_to_date new nodeset pod ≡ true)
      × (remove_refs new ours ≡ remove_refs refs ours)
unfolding is_claim_owner_up_to_date update_claim_owner_refs matches_ref
update_claim_owner_refs_lem refs nodeset pod names distinct =
    converges (node_set_owner nodeset) (pod_owner pod) refs names refl refl distinct
      (retention (retention_policy nodeset)) _
