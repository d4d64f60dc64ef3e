-- ===== src/Storage/Match.antt =====
-- `UpdateStorage` establishes what `IsStorageMatch` tests.
use text.Mathlib.TextPositions.{eq_refl}
use slurm_operator.Prelude.{
  String, Bool, true, false, ◌&&◌, ◌≡◌, refl, subst, ap, ◌∙◌, List, [], ◌∷◌, ◌++◌, Option, none,
  some, map, str_eq, eq_iff, has_str, keep, arith, Bool-cases, Option-cases, inl, inr,
  if◌then◌else◌,
}
use slurm_operator.Prelude.Int.{pos, ltb_ℤ}
use slurm_operator.Api.{Pod, NodeSet, Volume}
use slurm_operator.Api.Maps.{Labels, get?, insert, get?-insert}
use slurm_operator.Api.WellKnown.{stateful_set}
use slurm_operator.Naming.{get_ordinal}
use slurm_operator.Storage.{
  claim_name_of, claims_of, get_persistent_volume_claims, claim_volume, is_none, is_missing,
  update_storage, volume_named, all_mounted, is_storage_match,
}

-- No key stands twice.
abbrev pub Distinct : Labels → Type 0
Distinct [] = Unit
Distinct ((k, v) ∷ m) = (get? k m ≡ none) × Distinct m

-- Ranging over a map visits each of its entries once.
abbrev pub Visits : (Labels → Labels) → Type 0
Visits order =
    (m : Labels) → Distinct m → Distinct (order m) × ((k : String) → get? k (order m) ≡ get? k m)

insert-Distinct : (k v : String) (m : Labels) → Distinct m → Distinct (insert k v m)
unfolding insert get?
insert-Distinct k v [] h = (refl, tt)
insert-Distinct k v ((j, w) ∷ m) h = elim (Bool-cases (str_eq j k)) [
  | inl e ↦ rw e (subst (λ x. get? x m ≡ none) ((eq_iff j k).0 e) h.0, h.1)
  | inr e ↦
      let f : str_eq k j ≡ false = ground (arith, e, eq_iff j k, eq_iff k j) in
      rw e (get?-insert k j v m ∙ rw f h.0, insert-Distinct k v m h.1)
]

pub claims_of-Distinct :
    (nodeset : NodeSet) (pod : Pod) (ts : List String) (m : Labels)
    → Distinct m
    → Distinct (claims_of nodeset pod ts m)
unfolding claims_of
claims_of-Distinct nodeset pod [] m h = h
claims_of-Distinct nodeset pod (t ∷ ts) m h =
    claims_of-Distinct nodeset pod ts _ (insert-Distinct t _ m h)

pub get?-claims_of :
    (nodeset : NodeSet) (pod : Pod) (ts : List String) (m : Labels) (k : String)
    → get? k (claims_of nodeset pod ts m)
      ≡ (if has_str k ts then some (claim_name_of nodeset pod k) else get? k m)
unfolding claims_of
get?-claims_of nodeset pod [] m k = refl
get?-claims_of nodeset pod (t ∷ ts) m k =
    get?-claims_of nodeset pod ts _ k ∙ elim (Bool-cases (str_eq t k)) [
      | inl e ↦
          rw (get?-insert t k (claim_name_of nodeset pod t) m, e, (eq_iff t k).0 e)
            (same (has_str k ts))
      | inr e ↦ rw (get?-insert t k (claim_name_of nodeset pod t) m, e) refl
    ]
  where
    same :
        (b : Bool)
        → (if b then some (claim_name_of nodeset pod k) else some (claim_name_of nodeset pod k))
          ≡ some (claim_name_of nodeset pod k)
    same true = refl
    same false = refl

-- Of volumes with one name, one in the second list wins.
abbrev or_else : Option Volume → Option Volume → Option Volume
or_else none o = o
or_else (some v) o = some v

volume_named-append :
    (name : String) (xs ys : List Volume)
    → volume_named name (xs ++ ys) ≡ or_else (volume_named name ys) (volume_named name xs)
unfolding volume_named
volume_named-append name [] ys = elim (Option-cases (volume_named name ys)) [
  | inl e ↦ rw e refl
  | inr (v, e) ↦ rw e refl
]
volume_named-append name (x ∷ xs) ys = elim (Option-cases (volume_named name ys)) [
  | inl e ↦ rw (volume_named, volume_named-append name xs ys, e) refl
  | inr (v, e) ↦ rw (volume_named, volume_named-append name xs ys, e) refl
]

volume_named-keep :
    (name : String) (p : Volume → Bool) (vs : List Volume)
    → ((v : Volume) → str_eq v.name name ≡ true → p v ≡ false)
    → volume_named name (keep p vs) ≡ none
unfolding volume_named
volume_named-keep name p [] h = refl
volume_named-keep name p (v ∷ vs) h = elim (Bool-cases (p v)) [
  | inr e ↦ rw e (volume_named-keep name p vs h)
  | inl e ↦
      let f : str_eq v.name name ≡ false = ground (arith, e, h v) in
      rw (e, volume_named, volume_named-keep name p vs h, f) refl
]

abbrev as_volume : String → Option String → Option Volume
as_volume name none = none
as_volume name (some claim) = some (claim_volume (name, claim))

volume_named-map :
    (name : String) (m : Labels)
    → Distinct m
    → volume_named name (map claim_volume m) ≡ as_volume name (get? name m)
unfolding volume_named get?
volume_named-map name [] h = refl
volume_named-map name ((k, v) ∷ m) h =
    let ih = volume_named-map name m h.1 in
    elim (Bool-cases (str_eq k name)) [
      | inl e ↦
          let none_left = subst (λ x. get? x m ≡ none) ((eq_iff k name).0 e) h.0 in
          rw (volume_named, ih, none_left, get?, e, (eq_iff k name).0 e) refl
      | inr e ↦ elim (Option-cases (get? name m)) [
        | inl f ↦ rw (volume_named, ih, get?, e, f, e) refl
        | inr (c, f) ↦ rw (volume_named, ih, get?, e, f) refl
      ]
    ]

module _ (order : Labels → Labels) (visits : Visits order) (nodeset : NodeSet) (pod : Pod) where
  abbrev claims : Labels
  claims = get_persistent_volume_claims nodeset pod

  -- The volume of a template's name mounts the template's claim.
  updated_volume :
      (t : String)
      → has_str t nodeset.volume_claim_templates ≡ true
      → volume_named t (update_storage order nodeset pod).volumes
        ≡ some (claim_volume (t, claim_name_of nodeset pod t))
  unfolding update_storage get_persistent_volume_claims
  updated_volume t h =
      let found : get? t claims ≡ some (claim_name_of nodeset pod t) =
        get?-claims_of nodeset pod nodeset.volume_claim_templates [] t ∙ rw h refl in
      let (distinct, visited) =
        visits claims (claims_of-Distinct nodeset pod nodeset.volume_claim_templates [] tt) in
      let gone : (v : Volume) → str_eq v.name t ≡ true → is_missing v.name claims ≡ false =
        λ v e. ap (λ n. is_missing n claims) ((eq_iff v.name t).0 e) ∙ ap is_none found in
      volume_named-append t (map claim_volume (order claims))
        (keep (λ v. is_missing v.name claims) pod.volumes)
      ∙ rw
          (
            volume_named-keep t (λ v. is_missing v.name claims) pod.volumes gone,
            volume_named-map t (order claims) distinct,
            visited t,
            found,
          )
          refl

  claim_name_same :
      (t : String)
      → claim_name_of nodeset (update_storage order nodeset pod) t ≡ claim_name_of nodeset pod t
  unfolding claim_name_of update_storage get_ordinal
  claim_name_same t = refl

  all_mounted_after :
      (ts : List String)
      → ((t : String) → has_str t ts ≡ true → has_str t nodeset.volume_claim_templates ≡ true)
      → all_mounted nodeset (update_storage order nodeset pod) ts ≡ true
  unfolding all_mounted
  all_mounted_after [] sub = refl
  all_mounted_after (t ∷ ts) sub =
      rw
        (
          claim_name_same t,
          updated_volume t (sub t (ground (arith, eq_refl t))),
          eq_refl (claim_name_of nodeset pod t),
        )
        (all_mounted_after ts (λ u h. sub u (ground (arith, h))))

  -- After `UpdateStorage`, `IsStorageMatch` holds of a pod that has an ordinal, or in DaemonSet
  -- mode of any pod, whatever order the runtime ranges over the claims in.
  pub is_storage_match-update_storage :
      (ltb_ℤ (get_ordinal pod) (pos 0) && str_eq nodeset.scaling_mode stateful_set) ≡ false
      → is_storage_match nodeset (update_storage order nodeset pod) ≡ true
  unfolding is_storage_match update_storage get_ordinal
  is_storage_match-update_storage h =
      let all = all_mounted_after nodeset.volume_claim_templates (λ t e. e) in
      ground (arith, all, h)
