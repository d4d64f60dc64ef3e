-- ===== src/Keys/NodeSets.antt =====
-- api/v1beta1/nodeset_keys.go: what is read of a NodeSet there.
use Prim.Native.String
use slurm_operator.Prelude.{String, none}
use slurm_operator.Keys.{NamespacedName, SecretKeySelector, key_named}

pub record NodeSetNames : Type 0 where
  pub name : String
  pub namespace : String
  pub sssd_conf_ref : SecretKeySelector

abbrev pub key : NodeSetNames → NamespacedName
key o = key_named o.name o.namespace

abbrev pub headless_service_key : NodeSetNames → NamespacedName
headless_service_key o = key_named (String.◌++◌ (key o).name "-headless") o.namespace

abbrev pub sssd_secret_key : NodeSetNames → NamespacedName
sssd_secret_key o = key_named o.sssd_conf_ref.name o.namespace

abbrev pub sssd_secret_ref : NodeSetNames → SecretKeySelector
sssd_secret_ref o = record {
  name = (sssd_secret_key o).name;
  key = o.sssd_conf_ref.key;
  optional = none;
}

abbrev pub ssh_config_key : NodeSetNames → NamespacedName
ssh_config_key o = key_named (String.◌++◌ o.name "-ssh-config") o.namespace
