-- ===== src/Claims/Refs.antt =====
-- What scrubbing the references and adding one do to the tests on them.
use slurm_operator.Prelude.{
  true, false, ◌&&◌, ◌||◌, ◌≡◌, refl, [], ◌∷◌, ◌++◌, arith, All, Bool-cases, inl, inr, sym, ap, ◌∙◌,
  if◌then◌else◌,
}
use slurm_operator.Api.{OwnerReference}
use slurm_operator.Claims.{
  Owner, Refs, matches_ref, has_uid, is_controller, has_owner_ref, has_stale_owner_ref,
  other_controller, has_non_controller_owner, remove_refs, is_ours,
}

-- A reference has an owner's name and kind exactly if it has its UID.
abbrev pub Names : Owner → OwnerReference → Type 0
Names owner ref = matches_ref owner ref ≡ has_uid owner ref

module _ (set pod : Owner) where
  pub scrubbed-has_owner_ref :
      (refs : Refs)
      → All (λ r. Names set r × Names pod r) refs
      → (has_owner_ref set (remove_refs refs (is_ours set pod)) ≡ false)
        × (has_owner_ref pod (remove_refs refs (is_ours set pod)) ≡ false)
  unfolding has_owner_ref
  scrubbed-has_owner_ref [] h = (refl, refl)
  scrubbed-has_owner_ref (r ∷ refs) h = ground (arith, h.0, scrubbed-has_owner_ref refs h.1)

  pub scrubbed-Names :
      (refs : Refs)
      → All (λ r. Names set r × Names pod r) refs
      → All (λ r. Names set r × Names pod r) (remove_refs refs (is_ours set pod))
  scrubbed-Names [] h = tt
  scrubbed-Names (r ∷ refs) h = elim (Bool-cases (is_ours set pod r)) [
    | inl e ↦ rw e (scrubbed-Names refs h.1)
    | inr e ↦ rw e (h.0, scrubbed-Names refs h.1)
  ]

  other_controller-cons :
      (r : OwnerReference) (xs ys : Refs)
      → other_controller set pod xs ≡ other_controller set pod ys
      → other_controller set pod (r ∷ xs) ≡ other_controller set pod (r ∷ ys)
  unfolding other_controller
  other_controller-cons r xs ys = ap λ rest.
      if matches_ref set r
      then (if has_uid set r then rest else true)
      else if matches_ref pod r
      then (if has_uid pod r then rest else true)
      else is_controller r || rest

  other_controller-ours :
      (r : OwnerReference) (xs : Refs)
      → Names set r
      → Names pod r
      → is_ours set pod r ≡ true
      → other_controller set pod (r ∷ xs) ≡ other_controller set pod xs
  unfolding other_controller
  other_controller-ours r xs h k e = elim (Bool-cases (matches_ref set r)) [
    | inl f ↦ rw (f, other_controller, sym h ∙ f) refl
    | inr f ↦
        let g : matches_ref pod r ≡ true = ground (arith, e, f) in
        rw (f, g, other_controller, sym k ∙ g) refl
  ]

  pub scrubbed-other_controller :
      (refs : Refs)
      → All (λ r. Names set r × Names pod r) refs
      → other_controller set pod (remove_refs refs (is_ours set pod))
        ≡ other_controller set pod refs
  scrubbed-other_controller [] h = refl
  scrubbed-other_controller (r ∷ refs) h = elim (Bool-cases (is_ours set pod r)) [
    | inl e ↦
        rw e (scrubbed-other_controller refs h.1 ∙ sym (other_controller-ours r refs h.0.0 h.0.1 e))
    | inr e ↦ rw e (other_controller-cons r _ refs (scrubbed-other_controller refs h.1))
  ]

  -- Without a reference that has the UID of either, none of the tests holds.
  pub not_stale :
      (refs : Refs)
      → All (λ r. Names set r × Names pod r) refs
      → (has_stale_owner_ref set refs || has_stale_owner_ref pod refs) ≡ false
  unfolding has_stale_owner_ref
  not_stale [] h = refl
  not_stale (r ∷ refs) h = ground (arith, h.0, not_stale refs h.1)

  pub no_non_controller :
      (refs : Refs)
      → has_owner_ref set refs ≡ false
      → has_owner_ref pod refs ≡ false
      → has_non_controller_owner set pod refs ≡ false
  unfolding has_owner_ref has_non_controller_owner
  no_non_controller [] h k = refl
  no_non_controller (r ∷ refs) h k = ground (arith, no_non_controller refs)

  pub has_owner_ref-append :
      (owner : Owner) (r : OwnerReference) (refs : Refs)
      → has_owner_ref owner (refs ++ r ∷ []) ≡ (has_owner_ref owner refs || has_uid owner r)
  unfolding has_owner_ref
  has_owner_ref-append owner r [] = ground arith
  has_owner_ref-append owner r (x ∷ refs) = ground (arith, has_owner_ref-append owner r refs)

  pub other_controller-append :
      (r : OwnerReference) (refs : Refs)
      → (if matches_ref set r then has_uid set r else matches_ref pod r && has_uid pod r) ≡ true
      → other_controller set pod (refs ++ r ∷ []) ≡ other_controller set pod refs
  unfolding other_controller
  other_controller-append r [] h = ground arith
  other_controller-append r (x ∷ refs) h = ground (arith, other_controller-append r refs h)

  pub has_non_controller_owner-append :
      (r : OwnerReference) (refs : Refs)
      → is_controller r ≡ true
      → has_non_controller_owner set pod (refs ++ r ∷ []) ≡ has_non_controller_owner set pod refs
  unfolding has_non_controller_owner
  has_non_controller_owner-append r [] h = ground arith
  has_non_controller_owner-append r (x ∷ refs) h =
      ground (arith, has_non_controller_owner-append r refs h)

  pub scrubbed-again :
      (refs : Refs) (r : OwnerReference)
      → is_ours set pod r ≡ true
      → remove_refs (refs ++ r ∷ []) (is_ours set pod) ≡ remove_refs refs (is_ours set pod)
  scrubbed-again [] r h = ground (arith, h)
  scrubbed-again (x ∷ refs) r h = ground (arith, h, scrubbed-again refs r h)

  pub scrubbed_twice :
      (refs : Refs)
      → remove_refs (remove_refs refs (is_ours set pod)) (is_ours set pod)
        ≡ remove_refs refs (is_ours set pod)
  scrubbed_twice [] = refl
  scrubbed_twice (r ∷ refs) = elim (Bool-cases (is_ours set pod r)) [
    | inl e ↦ rw e (scrubbed_twice refs)
    | inr e ↦ rw (e, e) (ap (◌∷◌ r) (scrubbed_twice refs))
  ]
