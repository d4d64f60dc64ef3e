-- ===== src/ClientMap.antt =====
-- internal/clientmap/clientmap.go: the Slurm clients by the names of their controllers. A client is
-- the number of its object; its `Start` and `Stop` are entries of a log, the newest first. The lock
-- makes each operation one step. The map is an association list of distinct names.
pub mod Running
mod Examples
use slurm_operator.Prelude.{
  ℕ, ◌+◌, ◌==◌, String, Bool, true, false, ◌||◌, List, [], ◌∷◌, Option, none, some, str_eq,
  if◌then◌else◌,
}

pub data Event : Type 0 where
  started stopped : ℕ → Event

pub record ClientMap : Type 0 where
  pub clients : List (String × ℕ)
  pub log : List Event

abbrev pub new_client_map : ClientMap
new_client_map = record { clients = []; log = [] }

unfoldable pub lookup : String → List (String × ℕ) → Option ℕ
lookup name [] = none
lookup name ((n, c) ∷ m) = let rest = lookup name m in if str_eq n name then some c else rest

unfoldable pub drop_name : String → List (String × ℕ) → List (String × ℕ)
drop_name name [] = []
drop_name name ((n, c) ∷ m) =
    let rest = drop_name name m in if str_eq n name then m else (n, c) ∷ rest

abbrev pub get : String → ClientMap → Option ℕ
get name m = lookup name m.clients

abbrev pub is_there : Option ℕ → Bool
is_there none = false
is_there (some c) = true

-- `Has`: one of the names is there.
abbrev pub has : List String → ClientMap → Bool
has [] m = false
has (name ∷ names) m = is_there (lookup name m.clients) || has names m

abbrev pub stop_found : String → ClientMap → Option ℕ → Bool × ClientMap
stop_found name m none = (false, m)
stop_found name m (some c) =
    (true, record { clients = drop_name name m.clients; log = stopped c ∷ m.log })

unfoldable pub remove : String → ClientMap → Bool × ClientMap
unfolding lookup drop_name
remove name m = stop_found name m (lookup name m.clients)

abbrev pub start_missing : String → ℕ → ClientMap → Option ℕ → Bool × ClientMap
start_missing name client m (some c) = (false, m)
start_missing name client m none =
    (true, record { clients = (name, client) ∷ m.clients; log = started client ∷ m.log })

-- The unexported `add`, and `Add`.
unfoldable pub add_new : String → ℕ → ClientMap → Bool × ClientMap
unfolding lookup
add_new name client m = start_missing name client m (lookup name m.clients)

unfoldable pub add : String → ℕ → ClientMap → Bool × ClientMap
unfolding add_new remove
add name client m = add_new name client (remove name m).1

-- The operations that change the map, in the order in which they take the lock.
pub data Op : Type 0 where
  add_op : String → ℕ → Op
  remove_op : String → Op

abbrev pub step : Op → ClientMap → ClientMap
step (add_op name client) m = (add name client m).1
step (remove_op name) m = (remove name m).1

abbrev pub run_ops : List Op → ClientMap → ClientMap
run_ops [] m = m
run_ops (op ∷ ops) m = run_ops ops (step op m)
