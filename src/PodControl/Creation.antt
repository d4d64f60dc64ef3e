-- ===== src/PodControl/Creation.antt =====
-- A pod that `CreateNodeSetPod` has created has all its claims.
use slurm_operator.Prelude.{
  String, either_way, Bool, true, ◌≡◌, refl, sym, subst, ◌∙◌, inl, inr, List, [], ◌∷◌, ◌++◌, Option,
  none, some, str_eq, has_str, Bool-cases, if◌then◌else◌,
}
use slurm_operator.Api.{
  Error, Result, ok, err, is_not_found, not_found, already_exists, conflict, namespace_terminating,
  text, Pod, NodeSet,
}
use slurm_operator.Api.Maps.{Labels, get?}
use slurm_operator.Claims.{is_claim_owner_up_to_date}
use slurm_operator.Storage.{claim_name_of, get_persistent_volume_claims}
use slurm_operator.Storage.Match.{Visits, get?-claims_of, claims_of-Distinct}
use slurm_operator.Steps.{Step, ◌>>-◌, if_found}
use slurm_operator.PodControl.{
  Claim, Cluster, is_already_exists, told, after_create, after_get, new_claim, policy_set,
  pod_created, claims_created, record_pod_event, warn_of_controller, update_one_claim,
  update_claims, update_pod_pvcs_for_retention_policy, create_claim_step, create_claims,
  create_persistent_volume_claims, create_node_set_pod, updated_claim,
}

-- What a cluster promises on the claims that it has: a claim that was read or created is there, and
-- no call that the creation of a pod makes removes one.
pub record Lawful {W : Type 0} (cluster : Cluster W) (Holds : String → W → Type 0) : Type 0 where
  pub read :
      (n : String) (w : W) (c : Claim)
      → (cluster.get_claim n w).0 ≡ ok c
      → Holds n (cluster.get_claim n w).1
  pub created :
      (c : Claim) (w : W)
      → (cluster.create_claim c w).0 ≡ none
      → Holds c.name (cluster.create_claim c w).1
  pub get_keeps : (m n : String) (w : W) → Holds m w → Holds m (cluster.get_claim n w).1
  pub create_keeps :
      (m : String) (c : Claim) (w : W) → Holds m w → Holds m (cluster.create_claim c w).1
  pub update_keeps :
      (m : String) (c : Claim) (w : W) → Holds m w → Holds m (cluster.update_claim c w).1
  pub pod_keeps :
      (m : String) (p : Pod) (w : W) → Holds m w → Holds m (cluster.create_this_pod p w).1
  pub event_keeps : (m v : String) (b : Bool) (w : W) → Holds m w → Holds m (cluster.event v b w)

-- No claim of a map is missing.
abbrev AllHeld : {W : Type 0} → (String → W → Type 0) → Labels → W → Type 0
AllHeld Holds [] w = Unit
AllHeld Holds ((t, n) ∷ m) w = Holds n w × AllHeld Holds m w

some-inj : {a b : String} → some a ≡ some b → a ≡ b
some-inj p = cc p

AllHeld-get? :
    {W : Type 0} (Holds : String → W → Type 0) (m : Labels) (w : W) (k n : String)
    → AllHeld Holds m w
    → get? k m ≡ some n
    → Holds n w
unfolding get?
AllHeld-get? Holds [] w k n h e =
    subst (λ o. elim o as (λ x. Type 0) [ none ↦ Unit {0} | some x ↦ Holds n w ]) e tt
AllHeld-get? Holds ((j, v) ∷ m) w k n h e = elim (Bool-cases (str_eq j k)) [
  | inl f ↦ subst (λ x. Holds x w) (some-inj (sym (rw (get?, f) refl) ∙ e)) h.0
  | inr f ↦ AllHeld-get? Holds m w k n h.1 (sym (rw (get?, f) refl) ∙ e)
]

failed_not : {A : Type 0} (r : Result (Unit {0})) {e : Error} → r ≡ err e → r ≡ ok tt → A
failed_not {A} r p q =
    subst (λ (r : Result (Unit {0})). elim r as (λ x. Type 0) [ ok u ↦ Unit {0} | err e ↦ A ])
      (sym q ∙ p) tt

none_left : {A : Type 0} {e : Error} {es : List Error} → (e ∷ es) ≡ [] → A
none_left {A} p = subst (λ o. elim o as (λ x. Type 0) [ [] ↦ A | e ∷ es ↦ Unit {0} ]) p tt

both_empty : (xs ys : List Error) → xs ++ ys ≡ [] → (xs ≡ []) × (ys ≡ [])
both_empty [] ys p = (refl, p)
both_empty (x ∷ xs) ys p = none_left p

module _ {W : Type 0} (cluster : Cluster W) (Holds : String → W → Type 0)
    (laws : Lawful cluster Holds) where
  abbrev Keeps : (W → W) → Type 0
  Keeps f = (m : String) (w : W) → Holds m w → Holds m (f w)

  -- The event of a failure keeps the claims too.
  told-Keeps : (e : Error) → Keeps (told cluster e)
  unfolding record_pod_event
  told-Keeps not_found m w h = laws.event_keeps m _ _ w h
  told-Keeps already_exists m w h = h
  told-Keeps conflict m w h = laws.event_keeps m _ _ w h
  told-Keeps namespace_terminating m w h = laws.event_keeps m _ _ w h
  told-Keeps (text s) m w h = laws.event_keeps m _ _ w h

  after_create_keeps :
      (e : Error) (m : String) (r : Option Error × W)
      → Holds m r.1
      → Holds m (after_create cluster e r).1
  after_create_keeps e m (none, w) h = told-Keeps e m w h
  after_create_keeps e m (some c, w) h = told-Keeps e m w h

  after_get_keeps :
      (n m : String) (r : Result Claim × W) → Holds m r.1 → Holds m (after_get cluster n r).1
  unfolding record_pod_event
  after_get_keeps n m (ok c, w) h = h
  after_get_keeps n m (err e, w) h = elim (Bool-cases (is_not_found e)) [
    | inl f ↦ rw f (
        after_create_keeps e m (cluster.create_claim (new_claim cluster n) w)
          (laws.create_keeps m _ w h))
    | inr f ↦ rw f (laws.event_keeps m _ _ w h)
  ]

  create_claim_step-Keeps : (n : String) → Keeps (λ w. (create_claim_step cluster n w).1)
  unfolding create_claim_step
  create_claim_step-Keeps n m w h =
      after_get_keeps n m (cluster.get_claim n w) (laws.get_keeps m n w h)

  create_claims-Keeps : (claims : Labels) → Keeps (λ w. (create_claims cluster claims w).1)
  unfolding create_claims
  create_claims-Keeps [] m w h = h
  create_claims-Keeps ((t, n) ∷ claims) m w h =
      create_claims-Keeps claims m _ (create_claim_step-Keeps n m w h)

  after_create-Holds :
      (e : Error) (n : String) (r : Option Error × W)
      → (r.0 ≡ none → Holds n r.1)
      → (after_create cluster e r).0 ≡ []
      → Holds n (after_create cluster e r).1
  after_create-Holds e n (none, w) h f = told-Keeps e n w (h refl)
  after_create-Holds e n (some c, w) h f = cc f

  after_get-Holds :
      (n : String) (r : Result Claim × W)
      → ((c : Claim) → r.0 ≡ ok c → Holds n r.1)
      → (after_get cluster n r).0 ≡ []
      → Holds n (after_get cluster n r).1
  after_get-Holds n (ok c, w) h f = h c refl
  after_get-Holds n (err not_found, w) h f =
      let claim = new_claim cluster n in
      after_create-Holds not_found n (cluster.create_claim claim w) (laws.created claim w) f
  after_get-Holds n (err already_exists, w) h f = none_left f
  after_get-Holds n (err conflict, w) h f = none_left f
  after_get-Holds n (err namespace_terminating, w) h f = none_left f
  after_get-Holds n (err (text s), w) h f = none_left f

  create_claim_step-Holds :
      (n : String) (w : W)
      → (create_claim_step cluster n w).0 ≡ []
      → Holds n (create_claim_step cluster n w).1
  unfolding create_claim_step
  create_claim_step-Holds n w f = after_get-Holds n (cluster.get_claim n w) (laws.read n w) f

  create_claims-Holds :
      (claims : Labels) (w : W)
      → (create_claims cluster claims w).0 ≡ []
      → AllHeld Holds claims (create_claims cluster claims w).1
  unfolding create_claims
  create_claims-Holds [] w f = tt
  create_claims-Holds ((t, n) ∷ claims) w f =
      let (first_empty, rest_empty) = both_empty (create_claim_step cluster n w).0 _ f in
      (
        create_claims-Keeps claims n _ (create_claim_step-Holds n w first_empty),
        create_claims-Holds claims _ rest_empty,
      )

  module _ (nodeset : NodeSet) (pod : Pod) where
    warn-Keeps : (c : Claim) → Keeps (warn_of_controller cluster nodeset pod c)
    unfolding warn_of_controller
    warn-Keeps c m w h = either_way (Holds m) _ _ _ (laws.event_keeps m _ _ w h) h

    update_one-Keeps : (c : Claim) → Keeps (λ w. (update_one_claim cluster nodeset pod c w).1)
    unfolding update_one_claim
    update_one-Keeps c m w h =
        let k = warn-Keeps c m w h in
        either_way (λ (r : Result (Unit {0}) × W). Holds m r.1)
          (is_claim_owner_up_to_date c.owner_references nodeset pod) _ _ k
          (laws.update_keeps m (updated_claim cluster nodeset pod c) _ k)

    -- One round of the loop, where the rest of it keeps the claims.
    module _ (rest : Step W (Unit {0})) (rest_keeps : Keeps (λ w. (rest w).1)) where
      next_keeps :
          (m : String) (r : Result (Unit {0}) × W)
          → Holds m r.1
          → Holds m
              (elim r.0 as (λ x. Result (Unit {0}) × W) [
                | ok a ↦ rest r.1
                | err e ↦ (err e, r.1)
              ]).1
      next_keeps m (ok a, w) h = rest_keeps m w h
      next_keeps m (err e, w) h = h

      found_keeps :
          (m : String) (r : Result Claim × W)
          → Holds m r.1
          → Holds m
              (if_found
                (λ c. update_one_claim cluster nodeset pod c >>- λ a. rest)
                rest
                (λ e. e)
                r).1
      found_keeps m (ok c, w) h =
          next_keeps m (update_one_claim cluster nodeset pod c w) (update_one-Keeps c m w h)
      found_keeps m (err e, w) h =
          either_way (λ (r : Result (Unit {0}) × W). Holds m r.1) (is_not_found e) _ _
            (rest_keeps m w h) h

    update_claims-Keeps :
        (ts : List String) → Keeps (λ w. (update_claims cluster nodeset pod ts w).1)
    unfolding update_claims
    update_claims-Keeps [] m w h = h
    update_claims-Keeps (t ∷ ts) m w h =
        let n = claim_name_of nodeset pod t in
        found_keeps (update_claims cluster nodeset pod ts) (update_claims-Keeps ts) m
          (cluster.get_claim n w) (laws.get_keeps m n w h)

    policy_set_keeps :
        (order : Labels → Labels) (e : Option Error) (m : String) (r : Result (Unit {0}) × W)
        → Holds m r.1
        → Holds m (policy_set cluster order e r).1
    unfolding record_pod_event
    policy_set_keeps order e m (err f, w) h = laws.event_keeps m _ _ w h
    policy_set_keeps order none m (ok u, w) h = laws.event_keeps m _ _ w h
    policy_set_keeps order (some e) m (ok u, w) h = laws.event_keeps m _ _ w h

    pod_created_keeps :
        (order : Labels → Labels) (m : String) (r : Option Error × W)
        → Holds m r.1
        → Holds m (pod_created cluster order nodeset pod r).1
    unfolding update_pod_pvcs_for_retention_policy
    pod_created_keeps order m (e, w) h =
        let set = update_pod_pvcs_for_retention_policy cluster nodeset pod w in
        let after =
          policy_set_keeps order e m set
            (update_claims-Keeps nodeset.volume_claim_templates m w h) in
        elim e
          as (λ x.
            Holds m
              (elim x as (λ y. Result (Unit {0}) × W) [
                | none ↦ policy_set cluster order e set
                | some f ↦
                    if is_already_exists f then (err f, w) else policy_set cluster order e set
              ]).1) [
                | none ↦ after
                | some f ↦
                    either_way (λ (r : Result (Unit {0}) × W). Holds m r.1) (is_already_exists f) _
                      _ h after
              ]

    claims_created-Holds :
        (order : Labels → Labels) (m : String) (r : List Error × W)
        → (r.0 ≡ [] → Holds m r.1)
        → (claims_created cluster order nodeset pod r).0 ≡ ok tt
        → Holds m (claims_created cluster order nodeset pod r).1
    claims_created-Holds order m ([], w) h f =
        pod_created_keeps order m (cluster.create_this_pod pod w) (laws.pod_keeps m pod w (h refl))
    claims_created-Holds order m (e ∷ es, w) h f = failed_not _ refl f

    -- Where a claim that was read or created is there and no call of the creation removes one,
    -- every claim of a pod is there after `CreateNodeSetPod` has ended without an error, in
    -- whatever order the runtime ranges over the claims.
    pub create_node_set_pod_lem :
        (order : Labels → Labels) (w : W) (t : String)
        → Visits order
        → has_str t nodeset.volume_claim_templates ≡ true
        → (create_node_set_pod cluster order nodeset pod w).0 ≡ ok tt
        → Holds (claim_name_of nodeset pod t) (create_node_set_pod cluster order nodeset pod w).1
    unfolding create_node_set_pod create_persistent_volume_claims get_persistent_volume_claims
    create_node_set_pod_lem order w t visits listed succeeded =
        let claims = get_persistent_volume_claims nodeset pod in
        let (distinct, visited) =
          visits claims (claims_of-Distinct nodeset pod nodeset.volume_claim_templates [] tt) in
        let found : get? t (order claims) ≡ some (claim_name_of nodeset pod t) =
          visited t
          ∙ get?-claims_of nodeset pod nodeset.volume_claim_templates [] t
          ∙ rw listed refl in
        claims_created-Holds order (claim_name_of nodeset pod t)
          (create_claims cluster (order claims) w)
          (λ empty.
            AllHeld-get? Holds (order claims) _ t _ (create_claims-Holds (order claims) w empty)
              found)
          succeeded
