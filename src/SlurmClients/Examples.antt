-- ===== src/SlurmClients/Examples.antt =====
-- A Controller with a RestApi, its client, and what comes of it when the RestApi is gone.
use slurm_operator.Prelude.{String, ◌≡◌, refl, false, List, [], ◌∷◌, none, some}
use slurm_operator.Prelude.Int.{pos}
use slurm_operator.Api.{ok, err, text}
use slurm_operator.ClientMap.{lookup, new_client_map}
use slurm_operator.Keys.{NamespacedName, key_named, no_selector}
use slurm_operator.Keys.Controllers.{Controller}
use slurm_operator.Keys.RestApis.{RestApi}
use slurm_operator.NodeSetSync.Cordon.{concat}
use slurm_operator.Stores.{empty, peek_duration}
use slurm_operator.References.{get_restapis_for_controller}
use slurm_operator.SlurmClients.{Cluster, State, key_of, get_rest_api_server, signing_key, sync}
use slurm_operator.SlurmClients.Serves.{IsServed, sync-IsServed, sync-none}

abbrev slurm : Controller
slurm = record {
  name = "slurm";
  namespace = "prod";
  given_cluster_name = "";
  external = false;
  external_host = "";
  slurm_key_ref = no_selector;
  jwt_key_ref = some (record { name = "keys"; key = "jwt.key"; optional = none });
  jwt_hs256_key_ref = none;
  jwks_key_ref = none;
  persistence_enabled = none;
  config_file_refs = [];
}

abbrev request : NamespacedName
request = key_named "slurm" "prod"

abbrev cluster_with : List (RestApi × NamespacedName) → Cluster
cluster_with restapis = record {
  get_controller = λ req. ok slurm;
  list_restapis = ok restapis;
  get_secret = λ name namespace. ok (("jwt.key", "k") ∷ []);
  new_token = λ key. ok "token of the key";
  token_error = λ token key. none;
  new_client = λ server token. none;
  debug = false;
  wrap = λ what e. e;
  name_of = λ key. concat (key.namespace ∷ "/" ∷ key.name ∷ []);
}

abbrev served : Cluster
served = cluster_with (
    (record { name = "other"; namespace = "prod" }, key_named "slurm" "test")
    ∷ (record { name = "rest"; namespace = "prod" }, request)
    ∷ [])

abbrev start : State
start = record {
  client_map = new_client_map;
  settings = λ c. ("", "");
  durations = empty;
  next_client = 7;
}

handled :
    ((sync served request start).0 ≡ ok tt)
    × (lookup "prod/slurm" (sync served request start).1.client_map.clients ≡ some 7)
    × ((sync served request start).1.settings 7
        ≡ ("http://rest-restapi.prod:6820", "token of the key"))
    × (peek_duration "prod/slurm" (sync served request start).1.durations ≡ pos 720000000000)
unfolding sync
handled = (refl, refl, refl, refl)

finds_server : get_rest_api_server served slurm ≡ ok "http://rest-restapi.prod:6820"
unfolding get_rest_api_server
finds_server = refl

sync-IsServed_example :
    (key : String) × (signing_key served slurm ≡ ok key)
    × IsServed served
        (key_of served slurm)
        "http://rest-restapi.prod:6820"
        key
        (sync served request start).1
sync-IsServed_example =
    sync-IsServed served request start slurm "http://rest-restapi.prod:6820" refl finds_server
      handled.0

-- The client of before, which the RestApi that is gone leaves behind.
abbrev before : State
before = (sync served request start).1

none_there : get_restapis_for_controller slurm (cluster_with []).list_restapis ≡ ok []
unfolding get_restapis_for_controller
none_there = refl

left_behind : sync (cluster_with []) request before ≡ (err (text "Not Found"), before)
left_behind = sync-none (cluster_with []) request before slurm refl none_there
