-- ===== src/Status/Examples.antt =====
-- The status of a NodeSet, tested on pods in several states.
use slurm_operator.Prelude.{
  ℕ, String, true, false, not, ◌≡◌, refl, ◌⊎◌, ◌+◌, ◌*◌, ◌&&◌, ◌∙◌, inl, inr, Bool-cases, ap, List,
  [], ◌∷◌, Option, none, some, map, keep, length, count_if, All, has_str, has_prefix, chars,
  if◌then◌else◌, str_eq, eq_iff, sym,
}
use slurm_operator.Prelude.Int.{pos}
use slurm_operator.Api.{Pod, Condition, ok, err, running, pending, text}
use slurm_operator.Api.Maps.{get?}
use slurm_operator.Api.WellKnown.{pod_protect}
use slurm_operator.PodUtils.{PodApi, is_node_busy}
use slurm_operator.Samples.{worker, pod_named, all_ready}
use slurm_operator.NodeSetSync.Choose.{replicas_of}
use slurm_operator.Status.{
  Calls, ReplicaStatus, no_replicas, calculate_replica_status, filtered_conditions, is_state,
  protected_pod,
}
use slurm_operator.Status.Replicas.{Counted, calculate_replica_status-Counted}
use slurm_operator.Status.Conditions.{has_kind, is_state_of, filtered_conditions_lem}
use slurm_operator.Status.Protect.{wants_protection, labels-protected_pod}

abbrev pods : List Pod
pods =
    record (pod_named "slinky-1-0") { phase = running }
    ∷ record (pod_named "slinky-1-1") { phase = pending }
    ∷ pod_named "slinky-1-2"
    ∷ []

calculate_replica_status-Counted_example :
    (s : ReplicaStatus) × (unavailable : ℕ) × (calculate_replica_status all_ready 5
        (ok (pos 0))
        worker
        pods
        "a"
        "b"
      ≡ ok s)
    × Counted all_ready 5 worker "a" "b" pods no_replicas s
    × (s.desired ≡ replicas_of worker)
    × (s.unavailable ≡ pos unavailable)
    × (unavailable + s.available ≡ s.replicas)
calculate_replica_status-Counted_example =
    calculate_replica_status-Counted all_ready 5 worker (ok (pos 0)) pods "a" "b" refl

abbrev calls : Calls (Unit {0})
calls = record {
  refresh_node_cache = λ w. (none, w);
  update_node_with_pod_info = λ pod w. (none, w);
  desired_nodes = λ w. ok (pos 0);
  calculate_node_status = λ w. (err (text "no client"), w);
  get_node_set = λ w. (ok tt, w);
  update_status = λ s w. (none, w);
  push = λ n w. w;
  get_pod = λ pod w. (ok pod, w);
  patch = λ pod w. (none, w);
  patch_status = λ pod w. (none, w);
}

abbrev condition : String → Condition
condition kind = record { kind = kind; is_true = true; last_transition_time = 0; message = "" }

-- The first condition of a type.
abbrev find : List Condition → String → Option Condition
find [] kind = none
find (c ∷ cs) kind = let rest = find cs kind in if str_eq c.kind kind then some c else rest

abbrev finding : PodApi
finding = record all_ready { get_pod_condition = find }

abbrev busy_pod : Pod
busy_pod = record (pod_named "slinky-1-0") {
  conditions =
      condition "Ready"
      ∷ condition "SlurmNodeStateIdle"
      ∷ condition "SlurmNodeStateMixed"
      ∷ condition "SlurmNodeStateDrain"
      ∷ [];
}

abbrev states : List Condition
states = condition "SlurmNodeStateMixed" ∷ condition "SlurmNodeStateDrain" ∷ []

-- Three state conditions before and two now: each of these is there three times.
doubled : length (filtered_conditions calls finding busy_pod states busy_pod.conditions) ≡ 7
unfolding filtered_conditions has_prefix chars
doubled = refl

some-inj : {a b : Condition} → some a ≡ some b → a ≡ b
some-inj p = cc p

find_kind :
    (cs : List Condition) (kind : String) (c : Condition) → find cs kind ≡ some c → c.kind ≡ kind
find_kind [] kind c e = absurd (cc)
find_kind (d ∷ cs) kind c e = elim (Bool-cases (str_eq d.kind kind)) [
  | inl f ↦
      let top : find (d ∷ cs) kind ≡ some d = rw f refl in
      sym (ap Condition.kind (some-inj (sym top ∙ e))) ∙ (eq_iff d.kind kind).0 f
  | inr f ↦
      let below : find (d ∷ cs) kind ≡ find cs kind = rw f refl in
      find_kind cs kind c (sym below ∙ e)
]

filtered_conditions_lem_example :
    let new = filtered_conditions calls finding busy_pod states busy_pod.conditions in
    let state = is_state calls finding busy_pod states in
    (keep (λ c. not (state c)) new ≡ keep (λ c. not (state c)) busy_pod.conditions)
    × All (λ c. (state c ≡ false) ⊎ (has_str c.kind (map (λ s. s.kind) states) ≡ true)) new
    × ((kind : String)
        → count_if (is_state_of calls finding find_kind busy_pod states kind) new
          ≡ count_if state busy_pod.conditions
            * count_if (has_kind calls finding find_kind busy_pod states kind) states)
unfolding has_prefix chars
filtered_conditions_lem_example =
    filtered_conditions_lem calls finding find_kind busy_pod states busy_pod.conditions
      (refl, (refl, tt))

labels-protected_pod_example :
    get? pod_protect (protected_pod calls finding worker busy_pod).labels ≡ (
      if is_node_busy finding busy_pod.conditions && wants_protection worker
      then some "true"
      else none)
labels-protected_pod_example = labels-protected_pod calls finding worker busy_pod pod_protect
