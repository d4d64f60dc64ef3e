-- ===== src/PodControl/Examples.antt =====
-- A cluster that keeps its claims in a list, newest first, and tests on it.
use text.Mathlib.TextPositions.{eq_refl}
use slurm_operator.Prelude.{
  String, true, All, ◌≡◌, refl, sym, subst, ap, ◌∙◌, inl, inr, List, [], ◌∷◌, Option, none, some,
  str_eq, eq_iff, Bool-cases, if◌then◌else◌, arith,
}
use slurm_operator.Api.{Result, ok, err, not_found, NodeSet, Pod}
use slurm_operator.Api.Maps.{get?}
use slurm_operator.Api.WellKnown.{delete}
use slurm_operator.Claims.{node_set_owner, pod_owner, matches_ref}
use slurm_operator.Claims.Refs.{Names}
use slurm_operator.Naming.{get_padded_ordinal, get_ordinal, get_ordinal_pod_name}
use slurm_operator.Storage.{claim_name_of}
use slurm_operator.Steps.{last, Retrier}
use slurm_operator.PodControl.{
  Claim, Cluster, create_node_set_pod, update_pod_pvcs_for_retention_policy,
  pod_pvcs_match_retention_policy,
}
use slurm_operator.PodControl.Creation.{Lawful, create_node_set_pod_lem}
use slurm_operator.PodControl.Retention.{Faultless, update_pod_pvcs_for_retention_policy_lem}
use slurm_operator.PodControl.Update.{attempt, first, update_node_set_pod}
use slurm_operator.PodControl.Updated.{Updated, update_node_set_pod_lem}
use slurm_operator.Samples.{worker, pod_named}

abbrev Claims : Type 0
Claims = List Claim

abbrev stored : String → Claims → Option Claim
stored n [] = none
stored n (c ∷ w) = let rest = stored n w in if str_eq c.name n then some c else rest

abbrev found : Option Claim → Result Claim
found none = err not_found
found (some c) = ok c

found-ok : (o : Option Claim) (c : Claim) → found o ≡ ok c → o ≡ some c
found-ok none c e = cc e
found-ok (some d) c e = cc e

abbrev claims : Cluster Claims
claims = record {
  get_claim = λ n w. (found (stored n w), w);
  create_claim = λ c w. (none, c ∷ w);
  update_claim = λ c w. (none, c ∷ w);
  create_this_pod = λ pod w. (none, w);
  delete_pod = λ pod w. (none, w);
  update_pod = λ pod w. (none, w);
  get_pod = λ name w. (ok (pod_named name), w);
  event = λ v b w. w;
}

some-inj : {A : Type 0} {a b : A} → some a ≡ some b → a ≡ b
some-inj p = cc p

stored_name : (n : String) (w : Claims) (c : Claim) → stored n w ≡ some c → c.name ≡ n
stored_name n [] c e =
    subst (λ o. elim o as (λ x. Type 0) [ none ↦ Unit {0} | some x ↦ c.name ≡ n ]) e tt
stored_name n (d ∷ w) c e = elim (Bool-cases (str_eq d.name n)) [
  | inl f ↦
      let top : stored n (d ∷ w) ≡ some d = rw f refl in
      subst (λ x. x.name ≡ n) (some-inj (sym top ∙ e)) ((eq_iff d.name n).0 f)
  | inr f ↦ stored_name n w c (sym (rw f refl) ∙ e)
]

claims-Faultless : Faultless claims stored
claims-Faultless = record {
  reads = λ n w c e. rw e refl;
  misses = λ n w e. rw e refl;
  named = stored_name;
  accepts = λ c w. refl;
  writes = λ c w n. refl;
  event_keeps = λ v b w n. refl;
}

abbrev Held : String → Claims → Type 0
Held n w = (c : Claim) × (stored n w ≡ some c)

Held-more : (m : String) (c : Claim) (w : Claims) → Held m w → Held m (c ∷ w)
Held-more m c w (d, e) = elim (Bool-cases (str_eq c.name m)) [
  | inl f ↦ (c, rw f refl)
  | inr f ↦ (d, rw f e)
]

claims-Lawful : Lawful claims Held
claims-Lawful = record {
  read = λ n w c e. (c, found-ok _ c e);
  created = λ c w e. (c, rw (eq_refl c.name) refl);
  get_keeps = λ m n w h. h;
  create_keeps = Held-more;
  update_keeps = Held-more;
  pod_keeps = λ m p w h. h;
  event_keeps = λ m v b w h. h;
}

abbrev disks : NodeSet
disks = record worker {
  volume_claim_templates = "data" ∷ [];
  when_deleted = delete;
  when_scaled = delete;
}

abbrev old_claim : Claim
old_claim = record {
  name = "data-slinky-1-007";
  deletion_timestamp = none;
  owner_references =
      (record { api_version = "v1"; kind = "Job"; name = "other"; uid = "x"; controller = none })
      ∷ [];
}

abbrev pod : Pod
pod = pod_named "slinky-1-007"

abbrev KnownRefs : Claim → Type 0
KnownRefs c = All (λ r. Names (node_set_owner disks) r × Names (pod_owner pod) r) c.owner_references

update_pod_pvcs_for_retention_policy_lem_example :
    (w : Claims) × (update_pod_pvcs_for_retention_policy claims disks pod (old_claim ∷ [])
      ≡ (ok tt, w))
    × (pod_pvcs_match_retention_policy claims disks pod w ≡ (ok true, w))
unfolding claim_name_of matches_ref get_padded_ordinal get_ordinal
update_pod_pvcs_for_retention_policy_lem_example =
    update_pod_pvcs_for_retention_policy_lem claims stored claims-Faultless disks pod refl
      (old_claim ∷ []) ((λ c e. subst KnownRefs (some-inj e) ((refl, refl), tt)), tt)

ok-inj : {a b : Pod} → ok a ≡ ok b → a ≡ b
ok-inj p = cc p

abbrev one_try : Retrier
one_try = record { retry = λ fn w. fn w; retries = λ fn w. last w }

create_node_set_pod_lem_example :
    Held "data-slinky-1-007" (create_node_set_pod claims (λ m. m) disks pod []).1
unfolding claim_name_of create_node_set_pod get_padded_ordinal get_ordinal get?
create_node_set_pod_lem_example =
    create_node_set_pod_lem claims Held claims-Lawful disks pod (λ m. m) [] "data"
      (λ m h. (h, λ k. refl)) refl refl

reads_named :
    (name : String) (w : Claims) (p : Pod) → (claims.get_pod name w).0 ≡ ok p → p.name ≡ name
reads_named name w p e = sym (ap (λ (q : Pod). q.name) (ok-inj e))

update_node_set_pod_lem_example :
    Updated claims
      (λ m. m)
      (λ m h. (h, λ k. refl))
      disks
      refl
      reads_named
      pod
      tt
      (one_try.retry (attempt claims (λ m. m) disks) (first claims (λ m. m) disks pod [])).1
unfolding get_ordinal_pod_name update_node_set_pod get? get_padded_ordinal
update_node_set_pod_lem_example =
    update_node_set_pod_lem claims (λ m. m) (λ m h. (h, λ k. refl)) disks refl reads_named one_try
      pod [] (7, omega arith, refl) refl
