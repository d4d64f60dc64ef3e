-- ===== src/SlurmClients.antt =====
-- internal/controller/slurmclient/slurmclient_sync.go: the Slurm client of a Controller. The cluster
-- that is read does not change while one request is handled. `new_token` and `token_error` are what
-- internal/controller/token/slurmjwt makes of a key and a token; the latter is the first error of
-- its claims. `name_of` is `NamespacedName.String` and `wrap` is `fmt.Errorf` with `%w`. A client is the
-- number of its object, and `settings` is its server and its token.
pub mod Serves
mod Examples
use slurm_operator.Prelude.{
  ℕ, ◌+◌, ◌==◌, String, Bool, List, [], ◌∷◌, Option, none, some, if◌then◌else◌,
}
use slurm_operator.Prelude.Int.{ℤ, pos, negsuc}
use slurm_operator.Api.{Error, Result, ok, err, text, is_not_found}
use slurm_operator.Api.Maps.{Labels}
use slurm_operator.ClientMap.{ClientMap}
use slurm_operator.ClientMap
use slurm_operator.Keys.{NamespacedName, key_named}
use slurm_operator.Keys.Controllers.{Controller, auth_jwt_ref}
use slurm_operator.Keys.RestApis.{RestApi, service_fqdn_short}
use slurm_operator.NodeSetSync.Cordon.{concat}
use slurm_operator.References.{get_restapis_for_controller, get_secret_key_ref}
use slurm_operator.Stores.{Store, duration_greater, push_duration, peek_duration}

pub record Cluster : Type 0 where
  pub get_controller : NamespacedName → Result Controller
  pub list_restapis : Result (List (RestApi × NamespacedName))
  pub get_secret : String → String → Result Labels
  pub new_token : String → Result String
  pub token_error : String → String → Option Error
  pub new_client : String → String → Option Error
  pub debug : Bool
  pub wrap : String → Error → Error
  pub name_of : NamespacedName → String

pub record State : Type 0 where
  pub client_map : ClientMap
  pub settings : ℕ → String × String
  pub durations : Store ℤ
  pub next_client : ℕ

abbrev pub set : ℕ → String × String → (ℕ → String × String) → ℕ → String × String
set c value settings d = if c == d then value else settings d

unfoldable pub removed : String → State → State
unfolding ClientMap.remove
removed name s = record s { client_map = (ClientMap.remove name s.client_map).1 }

unfoldable pub pushed : String → ℤ → State → State
unfolding push_duration
pushed name duration s = record s {
  durations = push_duration duration_greater name duration s.durations;
}

-- The refresh of a token, after 4/5 of its 15 minutes, where none is to come.
abbrev pub push_refresh : String → ℤ → State → State
push_refresh name (pos n) s = if n == 0 then pushed name (pos 720000000000) s else s
push_refresh name (negsuc n) s = s

unfoldable pub refresh_later : String → State → State
unfolding peek_duration
refresh_later name s = push_refresh name (peek_duration name s.durations) s

module _ (cluster : Cluster) where
  abbrev pub key_of : Controller → String
  key_of o = cluster.name_of (key_named o.name o.namespace)

  abbrev pub port : String
  port = "6820"

  abbrev pub first_server : List (RestApi × NamespacedName) → Result String
  first_server [] = err (text "Not Found")
  first_server ((restapi, ref) ∷ restapis) = ok (
      if cluster.debug
      then concat ("http://localhost:" ∷ port ∷ [])
      else concat ("http://" ∷ service_fqdn_short restapi ∷ ":" ∷ port ∷ []))

  abbrev pub server_of : Result (List (RestApi × NamespacedName)) → Result String
  server_of (err e) = err e
  server_of (ok restapis) = first_server restapis

  unfoldable pub get_rest_api_server : Controller → Result String
  unfolding get_restapis_for_controller service_fqdn_short
  get_rest_api_server o = server_of (get_restapis_for_controller o cluster.list_restapis)

  -- A client that is made and started.
  abbrev pub add_client :
      String → String → String → Option Error → State → Result (Unit {0}) × State
  add_client name server token (some e) s =
      (err (cluster.wrap "failed to create slurm client" e), s)
  add_client name server token none s = (
    ok tt,
    record s {
      client_map = (ClientMap.add name s.next_client s.client_map).1;
      settings = set s.next_client (server, token) s.settings;
      next_client = s.next_client + 1;
    },
  )

  -- The client of the name, changed in place, or a new one.
  unfoldable pub set_up : String → String → String → Option ℕ → State → Result (Unit {0}) × State
  unfolding ClientMap.add
  set_up name server token (some c) s =
      (ok tt, record s { settings = set c (server, token) s.settings })
  set_up name server token none s = add_client name server token (cluster.new_client server token) s

  unfoldable pub with_claims :
      String → String → String → Option Error → State → Result (Unit {0}) × State
  unfolding refresh_later set_up ClientMap.lookup
  with_claims name server token (some e) s =
      (err (cluster.wrap "failed to parse Slurm auth token" e), s)
  with_claims name server token none s =
      set_up name server token (ClientMap.get name s.client_map) (refresh_later name s)

  unfoldable pub with_token :
      String → String → String → Result String → State → Result (Unit {0}) × State
  unfolding with_claims
  with_token name server key (err e) s =
      (err (cluster.wrap "failed to create Slurm auth token" e), s)
  with_token name server key (ok token) s =
      with_claims name server token (cluster.token_error token key) s

  unfoldable pub with_key : String → String → Result String → State → Result (Unit {0}) × State
  unfolding with_token
  with_key name server (err e) s = (err e, s)
  with_key name server (ok key) s = with_token name server key (cluster.new_token key) s

  unfoldable pub signing_key : Controller → Result String
  unfolding auth_jwt_ref get_secret_key_ref
  signing_key o =
      get_secret_key_ref (auth_jwt_ref o) (cluster.get_secret (auth_jwt_ref o).name o.namespace)

  unfoldable pub with_server : Controller → Result String → State → Result (Unit {0}) × State
  unfolding removed pushed signing_key with_key
  with_server o (err e) s =
      if is_not_found e
      then (ok tt, pushed (key_of o) (pos 10000000000) (removed (key_of o) s))
      else (err e, s)
  with_server o (ok server) s = with_key (key_of o) server (signing_key o) s

  unfoldable pub with_controller :
      NamespacedName → Result Controller → State → Result (Unit {0}) × State
  unfolding removed get_rest_api_server with_server
  with_controller req (err e) s =
      if is_not_found e then (ok tt, removed (cluster.name_of req) s) else (err e, s)
  with_controller req (ok o) s = with_server o (get_rest_api_server o) s

  unfoldable pub sync : NamespacedName → State → Result (Unit {0}) × State
  unfolding with_controller
  sync req s = with_controller req (cluster.get_controller req) s
