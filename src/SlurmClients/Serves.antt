-- ===== src/SlurmClients/Serves.antt =====
-- The client that a handled request leaves behind.
use slurm_operator.Prelude.{
  ℕ, ◌==◌, String, ◌≡◌, refl, sym, ap, ◌∙◌, Bool, true, false, [], Option, none, some, str_eq,
  eq_iff, arith, if◌then◌else◌,
}
use slurm_operator.Prelude.Int.{ℤ, pos, negsuc}
use slurm_operator.Api.{Error, Result, ok, err, text}
use slurm_operator.ClientMap.{ClientMap, lookup, remove, add_new, add}
use slurm_operator.Keys.{NamespacedName}
use slurm_operator.Keys.Controllers.{Controller}
use slurm_operator.References.{get_restapis_for_controller}
use slurm_operator.Stores.{peek_duration}
use slurm_operator.SlurmClients.{
  Cluster, State, key_of, set, pushed, push_refresh, refresh_later, get_rest_api_server, add_client,
  set_up, with_claims, with_token, with_key, signing_key, with_server, with_controller, sync,
}

-- The map has a client for the name, with the server and with a token of the key.
pub record IsServed (cluster : Cluster) (name server key : String) (s : State) : Type 0 where
  pub client : ℕ
  pub token : String
  pub found : lookup name s.client_map.clients ≡ some client
  pub set_to : s.settings client ≡ (server, token)
  pub made : cluster.new_token key ≡ ok token

set-here : (c : ℕ) (v : String × String) (f : ℕ → String × String) → set c v f c ≡ v
set-here c v f = rw same refl
  where
    same : (c == c) ≡ true
    same = grind (arith)

lookup-add :
    (name : String) (c : ℕ) (m : ClientMap)
    → lookup name m.clients ≡ none
    → lookup name (add name c m).1.clients ≡ some c
unfolding lookup remove add_new add
lookup-add name c m e =
    let same : str_eq name name ≡ true = (eq_iff name name).1 refl in rw (e, e, same) refl

push_refresh-client_map :
    (name : String) (due : ℤ) (s : State) → (push_refresh name due s).client_map ≡ s.client_map
unfolding pushed
push_refresh-client_map name (pos n) s = either (n == 0)
  where
    either :
        (now : Bool)
        → (if now then pushed name (pos 720000000000) s else s).client_map ≡ s.client_map
    either true = refl
    either false = refl
push_refresh-client_map name (negsuc n) s = refl

refresh_later-client_map :
    (name : String) (s : State) → (refresh_later name s).client_map ≡ s.client_map
unfolding refresh_later
refresh_later-client_map name s = push_refresh-client_map name (peek_duration name s.durations) s

module _ (cluster : Cluster) (name server key token : String) where
  set_up-IsServed :
      (found : Option ℕ) (s : State)
      → lookup name s.client_map.clients ≡ found
      → cluster.new_token key ≡ ok token
      → (set_up cluster name server token found s).0 ≡ ok tt
      → IsServed cluster name server key (set_up cluster name server token found s).1
  unfolding set_up
  set_up-IsServed (some c) s e made done = record {
    client = c;
    token = token;
    found = e;
    set_to = set-here c (server, token) s.settings;
    made = made;
  }
  set_up-IsServed none s e made done = go (cluster.new_client server token) done
    where
      go :
          (failed : Option Error)
          → (add_client cluster name server token failed s).0 ≡ ok tt
          → IsServed cluster name server key (add_client cluster name server token failed s).1
      go (some f) done = absurd (cc)
      go none done = record {
        client = s.next_client;
        token = token;
        found = lookup-add name s.next_client s.client_map e;
        set_to = set-here s.next_client (server, token) s.settings;
        made = made;
      }

  with_claims-IsServed :
      (failed : Option Error) (s : State)
      → cluster.new_token key ≡ ok token
      → (with_claims cluster name server token failed s).0 ≡ ok tt
      → IsServed cluster name server key (with_claims cluster name server token failed s).1
  unfolding with_claims
  with_claims-IsServed (some f) s made done = absurd (cc)
  with_claims-IsServed none s made done =
      let kept = ap (λ m. lookup name m.clients) (refresh_later-client_map name s) in
      set_up-IsServed (lookup name s.client_map.clients) (refresh_later name s) kept made done

with_token-IsServed :
    (cluster : Cluster) (name server key : String) (token : Result String) (s : State)
    → cluster.new_token key ≡ token
    → (with_token cluster name server key token s).0 ≡ ok tt
    → IsServed cluster name server key (with_token cluster name server key token s).1
unfolding with_token
with_token-IsServed cluster name server key (err e) s made done = absurd (cc)
with_token-IsServed cluster name server key (ok token) s made done =
    with_claims-IsServed cluster name server key token (cluster.token_error token key) s made done

-- Where the Controller was read and a RestApi of it was found, a request that is handled without an
-- error has read the signing key, and leaves a client under the Controller's name in the map, the one
-- that was there or a new one, which is set to the RestApi's server and to a token of the key.
pub sync-IsServed :
    (cluster : Cluster) (req : NamespacedName) (s : State) (o : Controller) (server : String)
    → cluster.get_controller req ≡ ok o
    → get_rest_api_server cluster o ≡ ok server
    → (sync cluster req s).0 ≡ ok tt
    → (key : String) × (signing_key cluster o ≡ ok key)
      × IsServed cluster (key_of cluster o) server key (sync cluster req s).1
unfolding with_key with_server with_controller sync
sync-IsServed cluster req s o server read served done =
    let answer : sync cluster req s
        ≡ with_key cluster (key_of cluster o) server (signing_key cluster o) s =
      rw (read, served) refl in
    rw answer (go (signing_key cluster o) refl (ap (λ r. r.0) (sym answer) ∙ done))
  where
    go :
        (key : Result String)
        → signing_key cluster o ≡ key
        → (with_key cluster (key_of cluster o) server key s).0 ≡ ok tt
        → (k : String) × (signing_key cluster o ≡ ok k)
          × IsServed cluster
              (key_of cluster o)
              server
              k
              (with_key cluster (key_of cluster o) server key s).1
    go (err e) read_key done = absurd (cc)
    go (ok key) read_key done =
        let token = cluster.new_token key in
        (key, read_key, with_token-IsServed cluster (key_of cluster o) server key token s refl done)

-- Where the Controller was read and no RestApi of it is there, the request fails, and the state is as
-- it was: a client of the Controller stays in the map, and no other request is asked for.
pub sync-none :
    (cluster : Cluster) (req : NamespacedName) (s : State) (o : Controller)
    → cluster.get_controller req ≡ ok o
    → get_restapis_for_controller o cluster.list_restapis ≡ ok []
    → sync cluster req s ≡ (err (text "Not Found"), s)
unfolding get_rest_api_server with_server with_controller sync
sync-none cluster req s o read none_there = rw (read, none_there) refl
