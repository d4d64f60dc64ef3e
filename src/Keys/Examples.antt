-- ===== src/Keys/Examples.antt =====
-- The names of the objects of a Controller, and of a NodeSet and a LoginSet that share one.
use slurm_operator.Prelude.{◌≡◌, refl, ◌↔◌, false, none, []}
use slurm_operator.Keys.{no_selector}
use slurm_operator.Keys.Controllers.{Controller, cluster_name, primary_fqdn}
use slurm_operator.Keys.NodeSets.{NodeSetNames}
use slurm_operator.Keys.NodeSets
use slurm_operator.Keys.LoginSets.{LoginSet}
use slurm_operator.Keys.LoginSets
use slurm_operator.Keys.Collisions.{ssh_config_key-shared}

abbrev slurm : Controller
slurm = record {
  name = "slurm";
  namespace = "prod";
  given_cluster_name = "";
  external = false;
  external_host = "";
  slurm_key_ref = no_selector;
  jwt_key_ref = none;
  jwt_hs256_key_ref = none;
  jwks_key_ref = none;
  persistence_enabled = none;
  config_file_refs = [];
}

names_cluster : cluster_name slurm ≡ "prod_slurm"
unfolding cluster_name
names_cluster = refl

names_host : primary_fqdn slurm ≡ "slurm-controller-0.slurm-controller.prod"
unfolding primary_fqdn
names_host = refl

abbrev workers : NodeSetNames
workers = record { name = "a"; namespace = "prod"; sssd_conf_ref = no_selector }

abbrev logins : LoginSet
logins = record { name = "a"; namespace = "prod"; sssd_conf_ref = no_selector }

ssh_config_key-shared_example :
    (NodeSets.ssh_config_key workers ≡ LoginSets.ssh_config_key logins)
    ↔ ((workers.name ≡ logins.name) × (workers.namespace ≡ logins.namespace))
ssh_config_key-shared_example = ssh_config_key-shared workers logins
