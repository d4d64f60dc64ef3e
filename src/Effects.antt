-- ===== src/Effects.antt =====
-- The world that the NodeSet controller acts on: the Kubernetes API, the Slurm REST API and the
-- expectations of k8s.io/kubernetes/pkg/controller. Every call that can change it is recorded in a
-- trace, the latest first, and `Env` says what each call answers, as a function of all the calls
-- before it. So a theorem over every `Env` holds whatever other processes do between two calls.
pub mod Adds
use slurm_operator.Prelude.{ℕ, String, Bool, true, false, List, [], ◌∷◌, Option, none, some}
use slurm_operator.Prelude.Int.{ℤ}
use slurm_operator.Api.{Error, Result, ok, err, Pod, Node, NodeSet}
use slurm_operator.Api.Object.{Object}

-- V0044NodeState, the states that the code names; `other_state` is any other.
pub data NodeState : Type 0 where
  allocated down error future idle mixed unknown : NodeState
  completing drain fail invalid invalid_reg maintenance not_responding undrain : NodeState
  other_state : NodeState

-- V0044Node; a nil pointer is `none`.
pub record SlurmNode : Type 0 where
  pub name : Option String
  pub state : List NodeState
  pub reason : Option String
  pub topology : Option String

-- V0044UpdateNodeMsg, and the states it can ask for.
pub data UpdateState : Type 0 where
  to_drain to_undrain to_idle : UpdateState

pub record UpdateNodeMsg : Type 0 where
  pub state : Option (List UpdateState)
  pub reason : Option String
  pub topology_str : Option String

-- V0044JobInfo: whether it is running, its hostlist, its start in seconds and its time limit in
-- minutes, which may be infinite.
pub record JobInfo : Type 0 where
  pub is_running : Bool
  pub nodes : String
  pub start_time : ℕ
  pub time_limit : ℕ
  pub infinite : Bool

pub data Call : Type 0 where
  slurm_list_nodes : Bool → Call
  slurm_get_node : String → Call
  slurm_update_node : SlurmNode → UpdateNodeMsg → Call
  slurm_list_jobs : Call
  get_pod : Pod → Call
  get_node : String → Call
  patch_pod : Pod → Pod → Call
  create_pod : Pod → Call
  delete_pod : Pod → Call
  pvcs_match_policy : Pod → Call
  update_pod_pvcs : Pod → Call
  update_pod : Pod → Call
  expect_deletions : List String → Call
  raise_expectations : ℕ → ℕ → Call
  set_expectations : ℕ → ℕ → Call
  creation_observed : Call
  deletion_observed : String → Call
  push_duration : ℕ → Call
  list_nodes : Call
  list_node_sets : Call
  list_pods : Call
  patch_node : Node → Node → Call
  get_object : Object → Call
  create_object : Object → Call
  patch_object : Object → Object → Call
  delete_object : Object → Call

abbrev pub Trace : Type 0
Trace = List Call

pub record Env : Type 0 where
  pub has_slurm_client : Trace → Bool
  pub list_slurm_nodes : Trace → Result (List SlurmNode)
  pub get_slurm_node : Trace → String → Result SlurmNode
  pub update_slurm_node : Trace → SlurmNode → UpdateNodeMsg → Option Error
  pub list_jobs : Trace → Result (List JobInfo)
  pub read_pod : Trace → Pod → Result Pod
  pub read_node : Trace → String → Result Node
  pub patch : Trace → Pod → Pod → Option Error
  pub create : Trace → Pod → Option Error
  pub delete : Trace → Pod → Option Error
  pub pvcs_match : Trace → Pod → Result Bool
  pub update_pvcs : Trace → Pod → Option Error
  pub update : Trace → Pod → Option Error
  pub expect : Trace → List String → Option Error
  pub reset_expectations : Trace → Option Error
  pub nodes : Trace → Result (List Node)
  pub node_sets : Trace → Result (List NodeSet)
  pub pods : Trace → Result (List Pod)
  pub patch_kube_node : Trace → Node → Node → Option Error
  pub read_object : Trace → Object → Result Object
  pub add_object : Trace → Object → Option Error
  pub change_object : Trace → Object → Object → Option Error
  pub remove_object : Trace → Object → Option Error

-- A Go function that returns a value and an error.
abbrev pub M : Type 0 → Type 0
M A = Trace → Result A × Trace

abbrev pub pure : {A : Type 0} → A → M A
pure a tr = (ok a, tr)

abbrev pub throw : {A : Type 0} → Error → M A
throw e tr = (err e, tr)

-- `if err != nil { return err }`.
infixl 5 ◌>>=◌ ◌>>◌
abbrev pub ◌>>=◌ : {A B : Type 0} → M A → (A → M B) → M B
◌>>=◌ m f tr = let (r, tr') = m tr in elim r [ ok a ↦ f a tr' | err e ↦ (err e, tr') ]

abbrev pub ◌>>◌ : {B : Type 0} → M (Unit {0}) → M B → M B
m >> k = m >>= λ _. k

-- A call whose answer the code handles itself.
abbrev pub call : {A : Type 0} → Call → (Trace → A) → Trace → A × Trace
call c answer tr = (answer tr, c ∷ tr)

abbrev pub as_result : Option Error → Result (Unit {0})
as_result none = ok tt
as_result (some e) = err e

abbrev pub to_error : {A : Type 0} → Result A → Option Error
to_error (ok a) = none
to_error (err e) = some e
