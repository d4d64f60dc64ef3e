-- ===== src/Keys/LoginSets.antt =====
-- api/v1beta1/loginset_keys.go.
use Prim.Native.String
use slurm_operator.Prelude.{String, none}
use slurm_operator.Keys.{NamespacedName, SecretKeySelector, key_named, fqdn_short}

pub record LoginSet : Type 0 where
  pub name : String
  pub namespace : String
  pub sssd_conf_ref : SecretKeySelector

abbrev pub key : LoginSet → NamespacedName
key o = key_named o.name o.namespace

abbrev pub service_key : LoginSet → NamespacedName
service_key o = key_named (key o).name o.namespace

abbrev pub service_fqdn : (String → String → String) → LoginSet → String
service_fqdn fqdn o = fqdn (service_key o).name (service_key o).namespace

unfoldable pub service_fqdn_short : LoginSet → String
unfolding fqdn_short
service_fqdn_short o = fqdn_short (service_key o).name (service_key o).namespace

abbrev pub sssd_secret_key : LoginSet → NamespacedName
sssd_secret_key o = key_named o.sssd_conf_ref.name o.namespace

abbrev pub sssd_secret_ref : LoginSet → SecretKeySelector
sssd_secret_ref o = record {
  name = (sssd_secret_key o).name;
  key = o.sssd_conf_ref.key;
  optional = none;
}

abbrev pub ssh_config_key : LoginSet → NamespacedName
ssh_config_key o = key_named (String.◌++◌ o.name "-ssh-config") o.namespace

abbrev pub ssh_host_keys : LoginSet → NamespacedName
ssh_host_keys o = key_named (String.◌++◌ (key o).name "-ssh-host-keys") o.namespace
