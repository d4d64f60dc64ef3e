-- ===== src/Keys/RestApis.antt =====
-- api/v1beta1/restapi_keys.go.
use Prim.Native.String
use slurm_operator.Prelude.{String}
use slurm_operator.Keys.{NamespacedName, key_named, fqdn_short}

pub record RestApi : Type 0 where
  pub name : String
  pub namespace : String

abbrev pub key : RestApi → NamespacedName
key o = key_named (String.◌++◌ o.name "-restapi") o.namespace

abbrev pub service_key : RestApi → NamespacedName
service_key o = key_named (key o).name o.namespace

abbrev pub service_fqdn : (String → String → String) → RestApi → String
service_fqdn fqdn o = fqdn (service_key o).name (service_key o).namespace

unfoldable pub service_fqdn_short : RestApi → String
unfolding fqdn_short
service_fqdn_short o = fqdn_short (service_key o).name (service_key o).namespace
