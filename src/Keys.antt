-- ===== src/Keys.antt =====
-- api/v1beta1/*_keys.go and base_types.go: the names of the objects that belong to the operator's
-- custom resources, and the Secrets that they refer to; and `FqdnShort` of
-- internal/utils/domainname/domainname.go. `fqdn` is `Fqdn` there, which reads a file.
pub mod Controllers
pub mod Accountings
pub mod Tokens
pub mod NodeSets
pub mod LoginSets
pub mod RestApis
pub mod Collisions
mod Examples
use slurm_operator.Prelude.{
  ℕ, String, Bool, true, false, ◌&&◌, List, [], ◌∷◌, Option, none, some, str_eq, if◌then◌else◌,
}
use slurm_operator.Prelude.Int.{ℤ, pos}
use slurm_operator.NodeSetSync.Cordon.{concat}

-- `types.NamespacedName`, and `ObjectReference`.
pub record NamespacedName : Type 0 where
  pub name : String
  pub namespace : String

-- `corev1.SecretKeySelector`, and `JwtSecretKeySelector`.
pub record SecretKeySelector : Type 0 where
  pub name : String
  pub key : String
  pub optional : Option Bool

pub record JwtSecretKeySelector : Type 0 where
  pub selector : SecretKeySelector
  pub namespace : String

unfoldable pub is_match : NamespacedName → NamespacedName → Bool
is_match ref key = str_eq ref.name key.name && str_eq ref.namespace key.namespace

abbrev pub no_selector : SecretKeySelector
no_selector = record { name = ""; key = ""; optional = none }

-- `ptr.Deref`.
abbrev pub deref {ℓ} : {A : Type ℓ} → Option A → A → A
deref none a = a
deref (some b) a = b

-- A value that has a new name and a deprecated one.
abbrev pub either_of {ℓ} : {A : Type ℓ} → Option A → Option A → Option A
either_of none old = old
either_of (some new) old = some new

abbrev pub key_named : String → String → NamespacedName
key_named name namespace = record { name = name; namespace = namespace }

unfoldable pub fqdn_short : String → String → String
fqdn_short name namespace = concat (name ∷ "." ∷ namespace ∷ [])
