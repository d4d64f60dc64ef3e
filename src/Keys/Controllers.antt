-- ===== src/Keys/Controllers.antt =====
-- api/v1beta1/controller_keys.go. A selector of a ConfigMap's key is one of a Secret's key here.
use Prim.Native.String
use slurm_operator.Prelude.{String, Bool, List, [], ◌∷◌, Option, str_eq, if◌then◌else◌}
use slurm_operator.Keys.{
  NamespacedName, SecretKeySelector, no_selector, deref, either_of, key_named, fqdn_short,
}
use slurm_operator.NodeSetSync.Cordon.{concat}

-- What is read of a Controller here and by its webhook.
pub record Controller : Type 0 where
  pub name : String
  pub namespace : String
  pub given_cluster_name : String
  pub external : Bool
  pub external_host : String
  pub slurm_key_ref : SecretKeySelector
  pub jwt_key_ref : Option SecretKeySelector
  pub jwt_hs256_key_ref : Option SecretKeySelector
  pub jwks_key_ref : Option SecretKeySelector
  pub persistence_enabled : Option Bool
  pub config_file_refs : List String

unfoldable pub cluster_name : Controller → String
cluster_name o =
    if str_eq o.given_cluster_name ""
    then concat (o.namespace ∷ "_" ∷ o.name ∷ [])
    else o.given_cluster_name

abbrev pub key : Controller → NamespacedName
key o = key_named (String.◌++◌ o.name "-controller") o.namespace

abbrev pub primary_name : Controller → String
primary_name o = if o.external then o.external_host else String.◌++◌ (key o).name "-0"

abbrev pub service_key : Controller → NamespacedName
service_key o = key_named (key o).name o.namespace

abbrev pub service_fqdn : (String → String → String) → Controller → String
service_fqdn fqdn o = fqdn (service_key o).name (service_key o).namespace

unfoldable pub service_fqdn_short : Controller → String
unfolding fqdn_short
service_fqdn_short o = fqdn_short (service_key o).name (service_key o).namespace

unfoldable pub primary_fqdn : Controller → String
unfolding service_fqdn_short
primary_fqdn o = concat (primary_name o ∷ "." ∷ service_fqdn_short o ∷ [])

abbrev pub auth_slurm_key : Controller → NamespacedName
auth_slurm_key o = key_named o.slurm_key_ref.name o.namespace

abbrev pub auth_slurm_ref : Controller → SecretKeySelector
auth_slurm_ref o = o.slurm_key_ref

unfoldable pub auth_jwt_ref : Controller → SecretKeySelector
auth_jwt_ref o = deref (either_of o.jwt_key_ref o.jwt_hs256_key_ref) no_selector

abbrev pub auth_jwt_hs256_ref : Controller → SecretKeySelector
auth_jwt_hs256_ref o = auth_jwt_ref o

unfoldable pub auth_jwt_key : Controller → NamespacedName
unfolding auth_jwt_ref
auth_jwt_key o = key_named (auth_jwt_ref o).name o.namespace

abbrev pub auth_jwt_hs256_key : Controller → NamespacedName
auth_jwt_hs256_key o = auth_jwt_key o

abbrev pub auth_jwks_ref : Controller → Option SecretKeySelector
auth_jwks_ref o = o.jwks_key_ref

abbrev pub auth_jwks_key : Controller → NamespacedName
auth_jwks_key o = key_named (deref (auth_jwks_ref o) no_selector).name o.namespace

abbrev pub config_key : Controller → NamespacedName
config_key o = key_named (String.◌++◌ o.name "-config") o.namespace
