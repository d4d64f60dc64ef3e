-- ===== src/Webhooks/Updates.antt =====
-- What no sequence of accepted updates changes.
use slurm_operator.Prelude.{
  String, Bool, true, false, not, ◌&&◌, ◌≡◌, refl, ◌∙◌, List, [], ◌∷◌, ◌++◌, Option, none, some,
  str_eq, eq_iff, arith,
}
use slurm_operator.Api.{Error, Result}
use slurm_operator.Keys.{SecretKeySelector}
use slurm_operator.Keys.Controllers.{Controller, cluster_name, auth_jwt_ref}
use slurm_operator.Webhooks.{opt_eq, selector_eq, error_if, validate_controller, validate_update}

-- The versions of a Controller: each is the first, or an update that was accepted.
pub data Updated (read_files : String → String → Result (List String)) (first : Controller)
    : Controller → Type 0 where
  unchanged : Updated read_files first first
  then_updated :
      {old new : Controller}
      → Updated read_files first old
      → (validate_update read_files old new).1 ≡ []
      → Updated read_files first new

-- What stays.
pub record SameDeployment (a b : Controller) : Type 0 where
  pub cluster : cluster_name b ≡ cluster_name a
  pub slurm_secret : b.slurm_key_ref.name ≡ a.slurm_key_ref.name
  pub jwt : auth_jwt_ref b ≡ auth_jwt_ref a
  pub persistence : b.persistence_enabled ≡ a.persistence_enabled

opt_eq_lem : (a b : Option Bool) → opt_eq a b ≡ true → a ≡ b
opt_eq_lem none none h = refl
opt_eq_lem none (some b) h = absurd (cc)
opt_eq_lem (some true) none h = absurd (cc)
opt_eq_lem (some false) none h = absurd (cc)
opt_eq_lem (some true) (some true) h = refl
opt_eq_lem (some true) (some false) h = absurd (cc)
opt_eq_lem (some false) (some true) h = absurd (cc)
opt_eq_lem (some false) (some false) h = refl

and-true : (a b : Bool) → (a && b) ≡ true → (a ≡ true) × (b ≡ true)
and-true a b h = ground (arith, h)

selector_eq_lem : (a b : SecretKeySelector) → selector_eq a b ≡ true → a ≡ b
selector_eq_lem a b h =
    let (name, rest) = and-true (str_eq a.name b.name) _ h in
    let (key, optional) = and-true (str_eq a.key b.key) (opt_eq a.optional b.optional) rest in
    cc (
      (eq_iff a.name b.name).0 name,
      (eq_iff a.key b.key).0 key,
      opt_eq_lem a.optional b.optional optional,
    )

not-false : (b : Bool) → not b ≡ false → b ≡ true
not-false true h = refl
not-false false h = absurd (cc)

pub error_if-nil :
    (b : Bool) (message : String) (errs : List Error)
    → error_if b message errs ≡ []
    → (b ≡ false) × (errs ≡ [])
error_if-nil true message errs h = absurd (cc)
error_if-nil false message errs h = (refl, h)

pub append-nil-inv : (xs ys : List Error) → xs ++ ys ≡ [] → (xs ≡ []) × (ys ≡ [])
append-nil-inv [] ys h = (refl, h)
append-nil-inv (x ∷ xs) ys h = absurd (cc)

module _ (read_files : String → String → Result (List String)) where
  accepted :
      (old new : Controller) → (validate_update read_files old new).1 ≡ [] → SameDeployment old new
  unfolding validate_update
  accepted old new h =
      let (files, e1) = append-nil-inv (validate_controller read_files new).1 _ h in
      let (cluster, e2) = error_if-nil _ _ _ e1 in
      let (slurm, e3) = error_if-nil _ _ _ e2 in
      let (jwt, e4) = error_if-nil _ _ _ e3 in
      let (persistence, e5) = error_if-nil _ _ _ e4 in
      record {
        cluster = (eq_iff (cluster_name new) (cluster_name old)).0 (not-false _ cluster);
        slurm_secret = (eq_iff new.slurm_key_ref.name old.slurm_key_ref.name).0 (not-false _ slurm);
        jwt = selector_eq_lem _ _ (not-false _ jwt);
        persistence = opt_eq_lem _ _ (not-false _ persistence);
      }

  -- However often a Controller is updated, while the webhook accepts each update, the cluster keeps
  -- its name, the Secrets of its Slurm and JWT keys, and whether its state is persistent.
  pub Updated-SameDeployment :
      (first last : Controller) → Updated read_files first last → SameDeployment first last
  Updated-SameDeployment first _ unchanged = record {
    cluster = refl;
    slurm_secret = refl;
    jwt = refl;
    persistence = refl;
  }
  Updated-SameDeployment first last (then_updated {old} before h) =
      let so_far = Updated-SameDeployment first old before in
      let now = accepted old last h in
      record {
        cluster = now.cluster ∙ so_far.cluster;
        slurm_secret = now.slurm_secret ∙ so_far.slurm_secret;
        jwt = now.jwt ∙ so_far.jwt;
        persistence = now.persistence ∙ so_far.persistence;
      }
