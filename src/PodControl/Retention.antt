-- ===== src/PodControl/Retention.antt =====
-- After the claims of a pod were updated for the retention policy they match it.
use slurm_operator.Prelude.{
  String, either_way, Bool, true, false, ◌≡◌, refl, sym, subst, ◌∙◌, ◌⊎◌, inl, inr, List, [], ◌∷◌,
  Option, none, some, str_eq, eq_iff, Bool-cases, Option-cases, if◌then◌else◌, All,
}
use slurm_operator.Api.{ok, err, not_found, Pod, NodeSet}
use slurm_operator.Claims.{node_set_owner, pod_owner, is_claim_owner_up_to_date}
use slurm_operator.Claims.Refs.{Names}
use slurm_operator.Claims.Converge.{update_claim_owner_refs_lem}
use slurm_operator.Storage.{claim_name_of}
use slurm_operator.Steps.{Step, ◌>>-◌, if_found, then-ok}
use slurm_operator.PodControl.{
  Claim, Cluster, warn_of_controller, updated_claim, update_one_claim, update_claims, claims_match,
  update_pod_pvcs_for_retention_policy, pod_pvcs_match_retention_policy,
}

-- A cluster whose claims are the ones of a map, which answers without faults.
pub record Faultless {W : Type 0} (cluster : Cluster W) (stored : String → W → Option Claim)
    : Type 0 where
  pub reads :
      (n : String) (w : W) (c : Claim) → stored n w ≡ some c → cluster.get_claim n w ≡ (ok c, w)
  pub misses : (n : String) (w : W) → stored n w ≡ none → cluster.get_claim n w ≡ (err not_found, w)
  pub named : (n : String) (w : W) (c : Claim) → stored n w ≡ some c → c.name ≡ n
  pub accepts : (c : Claim) (w : W) → (cluster.update_claim c w).0 ≡ none
  pub writes :
      (c : Claim) (w : W) (n : String)
      → stored n (cluster.update_claim c w).1 ≡ (if str_eq c.name n then some c else stored n w)
  pub event_keeps :
      (v : String) (b : Bool) (w : W) (n : String) → stored n (cluster.event v b w) ≡ stored n w

module _ {W : Type 0} (cluster : Cluster W) (stored : String → W → Option Claim)
    (laws : Faultless cluster stored) (nodeset : NodeSet) (pod : Pod)
    (distinct : str_eq nodeset.uid pod.uid ≡ false) where
  abbrev UpToDate : Claim → Type 0
  UpToDate c = is_claim_owner_up_to_date c.owner_references nodeset pod ≡ true

  -- The references of a claim name the NodeSet and the pod exactly when they have their UIDs.
  abbrev Known : Claim → Type 0
  Known c = All (λ r. Names (node_set_owner nodeset) r × Names (pod_owner pod) r) c.owner_references

  -- What holds of the claim of a name, if there is one.
  abbrev At : (Claim → Type 0) → String → W → Type 0
  At P n w = (c : Claim) → stored n w ≡ some c → P c

  -- What an update of a claim by the policy keeps of the claims of other names.
  abbrev Ready : Claim → Type 0
  Ready c = UpToDate c ⊎ Known c

  updated :
      (c : Claim)
      → Ready c
      → is_claim_owner_up_to_date c.owner_references nodeset pod ≡ false
      → UpToDate (updated_claim cluster nodeset pod c)
  updated c (inl e) f = cc (e, f)
  updated c (inr known) f =
      (update_claim_owner_refs_lem c.owner_references nodeset pod known distinct).0

  -- One claim is handled: the world after, in which the claim is up to date and no other got worse.
  some-inj : {a b : Claim} → some a ≡ some b → a ≡ b
  some-inj p = cc p

  record Handled (n : String) (w w' : W) : Type 0 where
    here : At UpToDate n w'
    others : (m : String) → At UpToDate m w → At UpToDate m w'
    readies : (m : String) → At Ready m w → At Ready m w'

  warned :
      (c : Claim) (w : W) (n : String)
      → stored n (warn_of_controller cluster nodeset pod c w) ≡ stored n w
  unfolding warn_of_controller
  warned c w n = either_way (λ v. stored n v ≡ stored n w) _ _ _ (laws.event_keeps _ _ w n) refl

  -- The claims after one is updated: the same ones, or the one that is now up to date in its place.
  abbrev Changed : Claim → W → W → Type 0
  Changed c w w' =
      (UpToDate c × ((m : String) → stored m w' ≡ stored m w))
      ⊎ ((c' : Claim) × UpToDate c'
          × ((m : String) → stored m w' ≡ (if str_eq c.name m then some c' else stored m w)))

  update_one-Changed :
      (c : Claim) (w : W)
      → Ready c
      → (w' : W) × (update_one_claim cluster nodeset pod c w ≡ (ok tt, w')) × Changed c w w'
  unfolding update_one_claim
  update_one-Changed c w ready =
      let v = warn_of_controller cluster nodeset pod c w in
      elim (Bool-cases (is_claim_owner_up_to_date c.owner_references nodeset pod)) [
        | inl e ↦ (v, rw e refl, inl (e, warned c w))
        | inr e ↦
            let c' = updated_claim cluster nodeset pod c in
            (
              (cluster.update_claim c' v).1,
              rw (e, laws.accepts c' v) refl,
              inr (c', updated c ready e, λ m. laws.writes c' v m ∙ rw (warned c w m) refl),
            )
      ]

  changed_at :
      (P : Claim → Type 0) (c c' d : Claim) (w w' : W) (m : String)
      → P c'
      → stored m w' ≡ (if str_eq c.name m then some c' else stored m w)
      → stored m w' ≡ some d
      → (str_eq c.name m ≡ false → stored m w ≡ some d → P d)
      → P d
  changed_at P c c' d w w' m good changed f h = elim (Bool-cases (str_eq c.name m)) [
    | inl g ↦
        let new : stored m w' ≡ some c' = changed ∙ rw g refl in
        subst P (some-inj (sym new ∙ f)) good
    | inr g ↦ let old : stored m w' ≡ stored m w = changed ∙ rw g refl in h g (sym old ∙ f)
  ]

  Changed-Handled :
      (n : String) (c : Claim) (w w' : W) → stored n w ≡ some c → Changed c w w' → Handled n w w'
  Changed-Handled n c w w' e (inl (good, same)) = record {
    here = λ d f. subst UpToDate (some-inj (sym e ∙ sym (same n) ∙ f)) good;
    others = λ m h d f. h d (sym (same m) ∙ f);
    readies = λ m h d f. h d (sym (same m) ∙ f);
  }
  Changed-Handled n c w w' e (inr (c', good, changed)) =
      let mine = (eq_iff c.name n).1 (laws.named n w c e) in
      record {
        here = λ d f. changed_at UpToDate c c' d w w' n good (changed n) f (λ g o. cc (mine, g));
        others = λ m h d f. changed_at UpToDate c c' d w w' m good (changed m) f (λ g o. h d o);
        readies = λ m h d f. changed_at Ready c c' d w w' m (inl good) (changed m) f (λ g o. h d o);
      }

  step_claim :
      (n : String) (w : W) (rest : Step W (Unit {0}))
      → At Ready n w
      → (w' : W) × (if_found
            (λ c. update_one_claim cluster nodeset pod c >>- λ a. rest)
            rest
            (λ e. e)
            (cluster.get_claim n w)
          ≡ rest w')
        × Handled n w w'
  step_claim n w rest ready = elim (Option-cases (stored n w)) [
    | inl e ↦ (
      w,
      rw (laws.misses n w e) refl,
      record { here = λ c f. cc (e, f); others = λ m h. h; readies = λ m h. h },
    )
    | inr (c, e) ↦
        let (w', made, changed) = update_one-Changed c w (ready c e) in
        (
          w',
          rw (laws.reads n w c e)
              (then-ok (update_one_claim cluster nodeset pod c) (λ a. rest) w w' tt made),
          Changed-Handled n c w w' e changed,
        )
  ]

  -- Every claim of the list.
  abbrev Each : (Claim → Type 0) → List String → W → Type 0
  Each P ts w = All (λ t. At P (claim_name_of nodeset pod t) w) ts

  Each-kept :
      (P : Claim → Type 0) (w w' : W) (ts : List String)
      → ((m : String) → At P m w → At P m w')
      → Each P ts w
      → Each P ts w'
  Each-kept P w w' [] k h = tt
  Each-kept P w w' (t ∷ ts) k h = (k _ h.0, Each-kept P w w' ts k h.1)

  -- The loop leaves every claim up to date.
  record Ended (ts : List String) (w : W) : Type 0 where
    after : W
    ends : update_claims cluster nodeset pod ts w ≡ (ok tt, after)
    all : Each UpToDate ts after
    others : (m : String) → At UpToDate m w → At UpToDate m after

  update_claims-Ended : (ts : List String) (w : W) → Each Ready ts w → Ended ts w
  unfolding update_claims
  update_claims-Ended [] w h = record { after = w; ends = refl; all = tt; others = λ m k. k }
  update_claims-Ended (t ∷ ts) w h =
      let n = claim_name_of nodeset pod t in
      let (w', made, handled) = step_claim n w (update_claims cluster nodeset pod ts) h.0 in
      let ih = update_claims-Ended ts w' (Each-kept Ready w w' ts handled.readies h.1) in
      record {
        after = ih.after;
        ends = made ∙ ih.ends;
        all = (ih.others n handled.here, ih.all);
        others = λ m k. ih.others m (handled.others m k);
      }

  claims_match-true :
      (ts : List String) (w : W)
      → Each UpToDate ts w
      → claims_match cluster nodeset pod ts w ≡ (ok true, w)
  unfolding claims_match
  claims_match-true [] w h = refl
  claims_match-true (t ∷ ts) w h =
      let n = claim_name_of nodeset pod t in
      elim (Option-cases (stored n w)) [
        | inl e ↦ rw (laws.misses n w e) (claims_match-true ts w h.1)
        | inr (c, e) ↦ rw (laws.reads n w c e, h.0 c e) (claims_match-true ts w h.1)
      ]

  -- Over a store of claims that answers without faults, where the owner references of the pod's
  -- claims name the NodeSet and the pod exactly when they have their UIDs,
  -- `UpdatePodPVCsForRetentionPolicy` ends without an error and `PodPVCsMatchRetentionPolicy` then
  -- answers true.
  pub update_pod_pvcs_for_retention_policy_lem :
      (w : W)
      → Each Known nodeset.volume_claim_templates w
      → (w' : W) × (update_pod_pvcs_for_retention_policy cluster nodeset pod w ≡ (ok tt, w'))
        × (pod_pvcs_match_retention_policy cluster nodeset pod w' ≡ (ok true, w'))
  unfolding update_pod_pvcs_for_retention_policy pod_pvcs_match_retention_policy
  update_pod_pvcs_for_retention_policy_lem w known =
      let ts = nodeset.volume_claim_templates in
      let ended = update_claims-Ended ts w (as_ready ts known) in
      (ended.after, ended.ends, claims_match-true ts ended.after ended.all)
    where
      as_ready : (ts : List String) → Each Known ts w → Each Ready ts w
      as_ready [] k = tt
      as_ready (t ∷ ts) k = ((λ c e. inr (k.0 c e)), as_ready ts k.1)
