-- ===== src/SlurmControl/Status.antt =====
-- internal/controller/nodeset/slurmcontrol/slurmcontrol.go: `CalculateNodeStatus`. The counters are
-- int32 in the source and count nodes of one cluster, so they are natural numbers here. The map
-- `NodeStates` is a function; a missing key has no conditions.
pub mod Counts
pub mod Bases
pub mod Flags
use slurm_operator.Prelude.{
  ℕ, ◌+◌, String, Bool, true, false, List, [], ◌∷◌, ◌++◌, Option, none, some, str_eq, has_str, map,
  if◌then◌else◌,
}
use slurm_operator.Api.{Error, Result, ok, err, Pod, Condition}
use slurm_operator.Naming.{get_slurm_node_name}
use slurm_operator.Effects.{SlurmNode, NodeState, Trace, Env, M, slurm_list_nodes}
use slurm_operator.Effects
use slurm_operator.SlurmControl.{has, or_empty, tolerate_error}

pub record SlurmNodeStatus : Type 0 where
  pub total : ℕ
  pub allocated : ℕ
  pub down : ℕ
  pub error : ℕ
  pub future : ℕ
  pub idle : ℕ
  pub mixed : ℕ
  pub unknown : ℕ
  pub completing : ℕ
  pub drain : ℕ
  pub fail : ℕ
  pub invalid : ℕ
  pub invalid_reg : ℕ
  pub maintenance : ℕ
  pub not_responding : ℕ
  pub undrain : ℕ
  pub node_states : String → List Condition

abbrev pub no_status : SlurmNodeStatus
no_status = record {
  total = 0;
  allocated = 0;
  down = 0;
  error = 0;
  future = 0;
  idle = 0;
  mixed = 0;
  unknown = 0;
  completing = 0;
  drain = 0;
  fail = 0;
  invalid = 0;
  invalid_reg = 0;
  maintenance = 0;
  not_responding = 0;
  undrain = 0;
  node_states = λ name. [];
}

-- `nodeState`.
abbrev pub node_state : SlurmNode → String → Condition
node_state node kind = record {
  kind = kind;
  is_true = true;
  last_transition_time = 0;
  message = or_empty node.reason;
}

-- `status.NodeStates[nodeName] = append(...)`.
abbrev pub with_state : SlurmNode → String → SlurmNodeStatus → SlurmNodeStatus
with_state node kind status = record status {
  node_states = λ name.
      if str_eq (or_empty node.name) name
      then status.node_states name ++ node_state node kind ∷ []
      else status.node_states name;
}

-- The switch over the base states: the first of them that the node has counts.
unfoldable pub count_base : SlurmNode → SlurmNodeStatus → SlurmNodeStatus
count_base node s =
    if has node Effects.allocated
    then record (with_state node "SlurmNodeStateAllocated" s) { allocated = s.allocated + 1 }
    else if has node Effects.down
    then record (with_state node "SlurmNodeStateDown" s) { down = s.down + 1 }
    else if has node Effects.error
    then record (with_state node "SlurmNodeStateError" s) { error = s.error + 1 }
    else if has node Effects.future
    then record (with_state node "SlurmNodeStateFuture" s) { future = s.future + 1 }
    else if has node Effects.idle
    then record (with_state node "SlurmNodeStateIdle" s) { idle = s.idle + 1 }
    else if has node Effects.mixed
    then record (with_state node "SlurmNodeStateMixed" s) { mixed = s.mixed + 1 }
    else if has node Effects.unknown
    then record (with_state node "SlurmNodeStateUnknown" s) { unknown = s.unknown + 1 }
    else s

-- One of the flags: a node that has it counts.
unfoldable pub count_flag :
    SlurmNode
    → NodeState
    → String
    → (SlurmNodeStatus → SlurmNodeStatus)
    → SlurmNodeStatus
    → SlurmNodeStatus
count_flag node state kind count s = if has node state then count (with_state node kind s) else s

abbrev pub add_completing : SlurmNodeStatus → SlurmNodeStatus
add_completing s = record s { completing = s.completing + 1 }

abbrev pub add_drain : SlurmNodeStatus → SlurmNodeStatus
add_drain s = record s { drain = s.drain + 1 }

abbrev pub add_fail : SlurmNodeStatus → SlurmNodeStatus
add_fail s = record s { fail = s.fail + 1 }

abbrev pub add_invalid : SlurmNodeStatus → SlurmNodeStatus
add_invalid s = record s { invalid = s.invalid + 1 }

abbrev pub add_invalid_reg : SlurmNodeStatus → SlurmNodeStatus
add_invalid_reg s = record s { invalid_reg = s.invalid_reg + 1 }

abbrev pub add_maintenance : SlurmNodeStatus → SlurmNodeStatus
add_maintenance s = record s { maintenance = s.maintenance + 1 }

abbrev pub add_not_responding : SlurmNodeStatus → SlurmNodeStatus
add_not_responding s = record s { not_responding = s.not_responding + 1 }

abbrev pub add_undrain : SlurmNodeStatus → SlurmNodeStatus
add_undrain s = record s { undrain = s.undrain + 1 }

-- The flags, one after the other.
unfoldable pub count_flags : SlurmNode → SlurmNodeStatus → SlurmNodeStatus
unfolding count_flag
count_flags node s =
    let s1 = count_flag node Effects.completing "SlurmNodeStateCompleting" add_completing s in
    let s2 = count_flag node Effects.drain "SlurmNodeStateDrain" add_drain s1 in
    let s3 = count_flag node Effects.fail "SlurmNodeStateFail" add_fail s2 in
    let s4 = count_flag node Effects.invalid "SlurmNodeStateInvalid" add_invalid s3 in
    let s5 = count_flag node Effects.invalid_reg "SlurmNodeStateInvalidReg" add_invalid_reg s4 in
    let s6 = count_flag node Effects.maintenance "SlurmNodeStateMaintenance" add_maintenance s5 in
    let s7 =
      count_flag node Effects.not_responding "SlurmNodeStateNotResponding" add_not_responding s6 in
    count_flag node Effects.undrain "SlurmNodeStateUndrain" add_undrain s7

-- One round of the loop over the nodes.
unfoldable pub count_node : List String → SlurmNodeStatus → SlurmNode → SlurmNodeStatus
unfolding count_base count_flags
count_node names s node =
    if has_str (or_empty node.name) names
    then count_flags node (count_base node (record s { total = s.total + 1 }))
    else s

unfoldable pub count_nodes : List String → List SlurmNode → SlurmNodeStatus → SlurmNodeStatus
unfolding count_node
count_nodes names [] s = s
count_nodes names (node ∷ nodes) s = count_nodes names nodes (count_node names s node)

-- The status is returned beside the error.
unfoldable pub calculate_node_status :
    Env → List Pod → Trace → (SlurmNodeStatus × Option Error) × Trace
unfolding count_nodes
calculate_node_status env pods tr =
    if env.has_slurm_client tr
    then elim (env.list_slurm_nodes tr) [
      | err e ↦ (
        (no_status, if tolerate_error (some e) then none else some e),
        slurm_list_nodes false ∷ tr,
      )
      | ok nodes ↦ (
        (count_nodes (map get_slurm_node_name pods) nodes no_status, none),
        slurm_list_nodes false ∷ tr,
      )
    ]
    else ((no_status, none), tr)
