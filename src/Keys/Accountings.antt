-- ===== src/Keys/Accountings.antt =====
-- api/v1beta1/accounting_keys.go.
use Prim.Native.String
use slurm_operator.Prelude.{String, Option, none}
use slurm_operator.Keys.{
  NamespacedName, SecretKeySelector, no_selector, deref, either_of, key_named, fqdn_short,
}

pub record Accounting : Type 0 where
  pub name : String
  pub namespace : String
  pub password_key_ref : SecretKeySelector
  pub slurm_key_ref : SecretKeySelector
  pub jwt_key_ref : Option SecretKeySelector
  pub jwt_hs256_key_ref : Option SecretKeySelector
  pub jwks_key_ref : Option SecretKeySelector

abbrev pub key : Accounting → NamespacedName
key o = key_named (String.◌++◌ o.name "-accounting") o.namespace

abbrev pub primary_name : Accounting → String
primary_name o = String.◌++◌ (key o).name "-0"

abbrev pub service_key : Accounting → NamespacedName
service_key o = key_named (key o).name o.namespace

abbrev pub service_fqdn : (String → String → String) → Accounting → String
service_fqdn fqdn o = fqdn (service_key o).name (service_key o).namespace

unfoldable pub service_fqdn_short : Accounting → String
unfolding fqdn_short
service_fqdn_short o = fqdn_short (service_key o).name (service_key o).namespace

abbrev pub auth_storage_key : Accounting → NamespacedName
auth_storage_key o = key_named o.password_key_ref.name o.namespace

abbrev pub auth_storage_ref : Accounting → SecretKeySelector
auth_storage_ref o = record {
  name = (auth_storage_key o).name;
  key = o.password_key_ref.key;
  optional = none;
}

abbrev pub auth_slurm_key : Accounting → NamespacedName
auth_slurm_key o = key_named o.slurm_key_ref.name o.namespace

abbrev pub auth_slurm_ref : Accounting → SecretKeySelector
auth_slurm_ref o = o.slurm_key_ref

unfoldable pub auth_jwt_ref : Accounting → SecretKeySelector
auth_jwt_ref o = deref (either_of o.jwt_key_ref o.jwt_hs256_key_ref) no_selector

abbrev pub auth_jwt_hs256_ref : Accounting → SecretKeySelector
auth_jwt_hs256_ref o = auth_jwt_ref o

unfoldable pub auth_jwt_key : Accounting → NamespacedName
unfolding auth_jwt_ref
auth_jwt_key o = key_named (auth_jwt_ref o).name o.namespace

abbrev pub auth_jwt_hs256_key : Accounting → NamespacedName
auth_jwt_hs256_key o = auth_jwt_key o

abbrev pub auth_jwks_ref : Accounting → Option SecretKeySelector
auth_jwks_ref o = o.jwks_key_ref

abbrev pub auth_jwks_key : Accounting → NamespacedName
auth_jwks_key o = key_named (deref (auth_jwks_ref o) no_selector).name o.namespace

abbrev pub config_key : Accounting → NamespacedName
config_key o = key_named (String.◌++◌ o.name "-accounting") o.namespace
