-- ===== src/SlurmControl/Examples.antt =====
-- Runs of the queries and updates of Slurm nodes.
use slurm_operator.Prelude.{
  ℕ, ◌≤◌, ◌≡◌, refl, ap, All, true, false, String, List, [], ◌∷◌, ◌++◌, Option, none, some, has_str,
  if◌then◌else◌,
}
use slurm_operator.Api.{Result, ok, Pod}
use slurm_operator.Naming.{get_slurm_node_name}
use slurm_operator.Stores.{Store, peek}
use slurm_operator.Samples.{pod_named, node_in, cluster}
use slurm_operator.Effects.{
  SlurmNode, UpdateNodeMsg, JobInfo, Call, Trace, Env, idle, drain, slurm_get_node,
  slurm_update_node, slurm_list_jobs,
}
use slurm_operator.SlurmControl.{
  make_node_drain, is_node_drain, is_node_reason_ours, prefixed_reason, or_empty,
}
use slurm_operator.SlurmControl.Drain.{
  after_drain, after_update, asks_drain, is_query, DrainVisible, make_node_drain-twice,
}
use slurm_operator.SlurmControl.Status.{calculate_node_status, no_status}
use slurm_operator.SlurmControl.Status.Flags.{base_sum}
use slurm_operator.SlurmControl.Status.Bases.{BasesCounted}
use slurm_operator.SlurmControl.Status.Counts.{Counted, calculate_node_status-Counted}
use slurm_operator.SlurmControl.Deadlines.{get_node_deadlines}
use slurm_operator.SlurmControl.Deadlines.Latest.{latest_end, get_node_deadlines_lem}

abbrev pod : Pod
pod = pod_named "slinky-0"

abbrev name : String
name = get_slurm_node_name pod

abbrev fresh : SlurmNode
fresh = node_in "slinky-0" (idle ∷ []) ""

abbrev draining : SlurmNode
draining = node_in "slinky-0" (idle ∷ drain ∷ []) "slurm-operator: full"

abbrev last_sent : Trace → Option UpdateNodeMsg
last_sent [] = none
last_sent (slurm_update_node node msg ∷ tr) = some msg
last_sent (_ ∷ tr) = last_sent tr

abbrev apply_msg : UpdateNodeMsg → SlurmNode
apply_msg msg =
    node_in "slinky-0" (if asks_drain msg then idle ∷ drain ∷ [] else idle ∷ [])
      (or_empty msg.reason)

abbrev shown_after : Option UpdateNodeMsg → Result SlurmNode
shown_after none = ok fresh
shown_after (some msg) = ok (apply_msg msg)

-- A cluster that shows the node with the last update.
abbrev drainable : Env
drainable = record (cluster fresh []) { get_slurm_node = λ tr n. shown_after (last_sent tr) }

last_sent-append :
    (reads : List Call) (msg : UpdateNodeMsg)
    → All (λ c. is_query c ≡ true) reads
    → last_sent (reads ++ after_update pod fresh msg []) ≡ some msg
last_sent-append [] msg h = refl
last_sent-append (slurm_update_node node m ∷ reads) msg h = absurd (cc (h.0))
last_sent-append (_ ∷ reads) msg h = last_sent-append reads msg h.1

drainable-DrainVisible : DrainVisible drainable pod "full" []
unfolding prefixed_reason
drainable-DrainVisible = record {
  has_client = λ t. refl;
  node = fresh;
  known = refl;
  new = refl;
  accepted = λ msg. refl;
  applied = apply_msg;
  shown = λ msg reads h. ap shown_after (last_sent-append reads msg h);
  drains = λ msg h. rw h refl;
  gives = λ msg r h. rw h refl;
}

make_node_drain-twice_example :
    let base = after_drain pod fresh "full" [] in
    let get = slurm_get_node name in
    (make_node_drain drainable pod "full" [] ≡ (ok tt, base))
    × (is_node_drain drainable pod base ≡ (ok true, get ∷ base))
    × (is_node_reason_ours drainable pod base ≡ (ok true, get ∷ base))
    × (make_node_drain drainable pod "full" base ≡ (ok tt, get ∷ base))
unfolding drainable-DrainVisible
make_node_drain-twice_example = make_node_drain-twice drainable pod "full" [] drainable-DrainVisible

calculate_node_status-Counted_example :
    let answer = (calculate_node_status (cluster draining []) (pod ∷ []) []).0 in
    Counted (name ∷ []) (draining ∷ []) no_status answer.0
    × BasesCounted (name ∷ []) (draining ∷ []) no_status answer.0
    × (base_sum answer.0 ≤ answer.0.total)
    × (answer.1 ≡ none)
calculate_node_status-Counted_example =
    calculate_node_status-Counted (cluster draining []) (pod ∷ []) [] (draining ∷ []) refl refl

abbrev job : JobInfo
job = record { is_running = true; nodes = name; start_time = 10; time_limit = 5; infinite = false }

abbrev single : String → Result (List String)
single s = ok (s ∷ [])

get_node_deadlines_lem_example :
    (store : Store ℕ) × (get_node_deadlines single (cluster draining (job ∷ [])) (pod ∷ []) []
      ≡ (ok store, slurm_list_jobs ∷ []))
    × ((n : String)
        → has_str n (name ∷ []) ≡ true
        → peek 0 n store ≡ latest_end single n (job ∷ []) 0)
get_node_deadlines_lem_example =
    get_node_deadlines_lem single (cluster draining (job ∷ [])) (pod ∷ []) [] (job ∷ []) refl refl
      (λ h. (name ∷ [], refl), tt)
