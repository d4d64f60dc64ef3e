-- ===== src/NodeSetSync/Cordon/Calls.antt =====
-- When the controller may undrain a Slurm node, and may delete a pod: what it has read before.
use slurm_operator.Prelude.{Bool, true, false, ◌||◌, ◌≡◌, ◌⊎◌, List, [], ◌∷◌, none, some}
use slurm_operator.Api.{ok, Pod}
use slurm_operator.Naming.{get_slurm_node_name}
use slurm_operator.Effects.{
  Trace, Env, M, pure, get_node, patch_pod, as_result, Call, ◌>>=◌, ◌>>◌, SlurmNode, UpdateNodeMsg,
  UpdateState, to_drain, to_undrain, to_idle, slurm_get_node, slurm_update_node,
}
use slurm_operator.Effects
use slurm_operator.Effects.Adds.{Extends, Adds-trans}
use slurm_operator.PodUtils.{is_succeeded, is_failed}
use slurm_operator.SlurmControl.{is_node_drained, is_node_reason_ours}
use slurm_operator.NodeSetSync.Cordon.{node_is_cordoned}

abbrev has_undrain : List UpdateState → Bool
has_undrain [] = false
has_undrain (to_undrain ∷ ss) = true
has_undrain (_ ∷ ss) = has_undrain ss

abbrev pub asks_undrain : UpdateNodeMsg → Bool
asks_undrain msg = elim msg.state [ none ↦ false | some ss ↦ has_undrain ss ]

-- Before this point the controller has read the Kubernetes node of the pod and not found it
-- cordoned, and after that found the reason of the pod's Slurm node to be its own.
pub record MayUndrain (env : Env) (pod : Pod) (tr : Trace) : Type 0 where
  pub at_node : Trace
  pub at_reason : Trace
  pub not_cordoned : node_is_cordoned (env.read_node at_node pod.node_name) ≡ false
  pub ours : (is_node_reason_ours env pod at_reason).0 ≡ ok true
  pub first : Extends at_node at_reason
  pub later : Extends at_reason tr

pub MayUndrain-later :
    {env : Env} {pod : Pod} {a b : Trace}
    → MayUndrain env pod a
    → Extends a b
    → MayUndrain env pod b
MayUndrain-later may x = record {
  at_node = may.at_node;
  at_reason = may.at_reason;
  not_cordoned = may.not_cordoned;
  ours = may.ours;
  first = may.first;
  later = Adds-trans may.later x;
}

-- The pod itself, or what a read of it answered.
abbrev pub Reread : Env → Pod → Pod → Type 0
Reread env pod pod' = (pod' ≡ pod) ⊎ ((t : Trace) × (env.read_pod t pod ≡ ok pod'))

-- The Slurm node is the answer to the call just made, for the pod or for what it was read as.
pub record IsNodeOf (env : Env) (pod : Pod) (node : SlurmNode) (tr : Trace) : Type 0 where
  pub now : Pod
  pub reread : Reread env pod now
  pub before : Trace
  pub answer : env.get_slurm_node before (get_slurm_node_name now) ≡ ok node
  pub just : tr ≡ slurm_get_node (get_slurm_node_name now) ∷ before

-- `IsNodeDrained` has just answered that the pod's Slurm node is drained.
pub record FoundDrained (env : Env) (pod : Pod) (tr : Trace) : Type 0 where
  pub asked_at : Trace
  pub answer : is_node_drained env pod asked_at ≡ (ok true, tr)

-- What the controller makes sure of before a call: an undrain, and the deletion of a pod that has
-- not ended.
unfoldable pub SafeCall : Env → Call → Trace → Type 0
SafeCall env (slurm_update_node node msg) tr =
    asks_undrain msg ≡ true → (pod : Pod) × MayUndrain env pod tr × IsNodeOf env pod node tr
SafeCall env (Effects.delete_pod pod) tr =
    FoundDrained env pod tr ⊎ ((is_failed pod || is_succeeded pod) ≡ true)
SafeCall env _ tr = Unit
