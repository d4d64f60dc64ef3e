-- ===== src/Keys/Tokens.antt =====
-- api/v1beta1/token_keys.go. A lifetime is in nanoseconds.
use slurm_operator.Prelude.{String, [], ◌∷◌, Option, none, some, str_eq, if◌then◌else◌}
use slurm_operator.Prelude.Int.{ℤ, pos}
use slurm_operator.Keys.{
  NamespacedName, SecretKeySelector, JwtSecretKeySelector, no_selector, deref, either_of, key_named,
}
use slurm_operator.NodeSetSync.Cordon.{concat}

pub record Token : Type 0 where
  pub name : String
  pub namespace : String
  pub given_username : String
  pub given_lifetime : Option ℤ
  pub jwt_key_ref : Option JwtSecretKeySelector
  pub jwt_hs256_key_ref : Option JwtSecretKeySelector
  pub given_secret_ref : Option SecretKeySelector

abbrev pub key : Token → NamespacedName
key o = key_named o.name o.namespace

abbrev pub username : Token → String
username o = if str_eq o.given_username "" then "nobody" else o.given_username

abbrev pub lifetime : Token → ℤ
lifetime o = deref o.given_lifetime (pos 900000000000)

abbrev pub in_namespace : String → JwtSecretKeySelector → JwtSecretKeySelector
in_namespace namespace ref =
    if str_eq ref.namespace "" then record ref { namespace = namespace } else ref

unfoldable pub jwt_ref : Token → JwtSecretKeySelector
jwt_ref o = in_namespace o.namespace (
    deref (either_of o.jwt_key_ref o.jwt_hs256_key_ref)
      (record { selector = no_selector; namespace = "" }))

abbrev pub jwt_hs256_ref : Token → JwtSecretKeySelector
jwt_hs256_ref o = jwt_ref o

unfoldable pub jwt_key : Token → NamespacedName
unfolding jwt_ref
jwt_key o = key_named (jwt_ref o).selector.name (jwt_ref o).namespace

abbrev pub jwt_hs256_key : Token → NamespacedName
jwt_hs256_key o = jwt_key o

abbrev pub secret_key : Token → NamespacedName
secret_key o = elim o.given_secret_ref [
  | none ↦ key_named (concat (o.name ∷ "-jwt-" ∷ o.given_username ∷ [])) o.namespace
  | some ref ↦ key_named ref.name o.namespace
]

abbrev pub secret_ref : Token → SecretKeySelector
secret_ref o = elim o.given_secret_ref [
  | none ↦ record { name = (secret_key o).name; key = "SLURM_JWT"; optional = none }
  | some ref ↦ record { name = (secret_key o).name; key = ref.key; optional = none }
]
