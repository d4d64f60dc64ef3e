-- ===== src/Webhooks/Examples.antt =====
-- Controllers that the webhook sees: one with a name that is no name of a table, and its updates.
use slurm_operator.Prelude.{
  ◌≤◌, String, true, false, ◌≡◌, refl, ◌↔◌, All, List, [], ◌∷◌, none, some, chars,
}
use slurm_operator.Api.{Result, ok}
use slurm_operator.Keys.Controllers.{Controller, cluster_name}
use slurm_operator.Webhooks.{
  byte_length, is_table_char, matches_some, validate_create, validate_update,
}
use slurm_operator.Webhooks.Updates.{
  unchanged, then_updated, SameDeployment, Updated-SameDeployment,
}
use slurm_operator.Webhooks.Names.{FilesOk, validate_create_lem}

abbrev slurm : Controller
slurm = record {
  name = "my-slurm";
  namespace = "prod";
  given_cluster_name = "my-cluster";
  external = false;
  external_host = "";
  slurm_key_ref = record { name = "key"; key = "slurm.key"; optional = none };
  jwt_key_ref = none;
  jwt_hs256_key_ref = some (record { name = "jwt"; key = "jwt.key"; optional = none });
  jwks_key_ref = none;
  persistence_enabled = some true;
  config_file_refs = "files" ∷ [];
}

abbrev read_files : String → String → Result (List String)
read_files name namespace = ok ("gres.conf" ∷ "my.conf" ∷ [])

-- The deprecated reference becomes the new one.
abbrev renamed : Controller
renamed = record slurm { jwt_key_ref = slurm.jwt_hs256_key_ref; jwt_hs256_key_ref = none }

accepts_dash : (validate_create read_files slurm).1 ≡ []
unfolding validate_create
accepts_dash = refl

validate_create_lem_example : ((validate_create read_files slurm).1 ≡ []) ↔ (
    All (λ name. FilesOk (read_files name "prod")) ("files" ∷ [])
    × (byte_length (chars (cluster_name slurm)) ≤ 40)
    × (matches_some is_table_char (chars (cluster_name slurm)) ≡ true))
validate_create_lem_example = validate_create_lem read_files slurm

renames : (validate_update read_files slurm renamed).1 ≡ []
unfolding validate_update
renames = refl

Updated-SameDeployment_example : SameDeployment slurm renamed
Updated-SameDeployment_example =
    Updated-SameDeployment read_files slurm renamed (then_updated unchanged renames)
