-- ===== src/SlurmControl/Drain.antt =====
-- What draining a node through the Slurm REST API leaves for the queries of the controller.
use Prim.Native.String
use text.Mathlib.TextPositions.{eq_refl}
use slurm_operator.Prelude.{
  String, Bool, some, true, false, ◌≡◌, refl, List, [], ◌∷◌, none, str_eq, arith, Bool-cases, inl,
  inr, has_prefix, has_prefix-append, ◌&&◌, not, All, ◌++◌,
}
use slurm_operator.Api.{ok, Pod}
use slurm_operator.Naming.{get_slurm_node_name}
use slurm_operator.Effects.{
  SlurmNode, Trace, Env, M, Call, UpdateNodeMsg, UpdateState, to_drain, to_undrain, to_idle,
  slurm_get_node, slurm_update_node,
}
use slurm_operator.Effects
use slurm_operator.SlurmControl.{
  has, or_empty, node_reason_prefix, prefixed_reason, with_node, send_update, drain_msg,
  make_node_drain, is_node_drain, is_node_reason_ours,
}

-- The reasons that the operator writes are empty or start with its prefix.
prefixed_reason-ours :
    (reason : String)
    → (not (str_eq (prefixed_reason reason) "")
        && not (has_prefix (prefixed_reason reason) node_reason_prefix))
      ≡ false
unfolding prefixed_reason
prefixed_reason-ours reason = elim (Bool-cases (str_eq reason "")) [
  | inl empty ↦ rw empty refl
  | inr other ↦ ground (arith, has_prefix-append node_reason_prefix (String.◌++◌ " " reason), other)
]

-- The update asks for a drain.
abbrev pub asks_drain : UpdateNodeMsg → Bool
asks_drain msg = elim msg.state [ none ↦ false | some ss ↦ has_drain ss ]
  where
    has_drain : List UpdateState → Bool
    has_drain [] = false
    has_drain (to_drain ∷ ss) = true
    has_drain (_ ∷ ss) = has_drain ss

-- The calls that only read.
abbrev pub is_query : Call → Bool
is_query (Effects.slurm_list_nodes _) = true
is_query (Effects.slurm_get_node _) = true
is_query Effects.slurm_list_jobs = true
is_query (Effects.get_pod _) = true
is_query (Effects.get_node _) = true
is_query _ = false

-- The trace after the read of a pod's node and an update of it.
abbrev pub after_update : Pod → SlurmNode → UpdateNodeMsg → Trace → Trace
after_update pod node msg tr =
    slurm_update_node node msg ∷ slurm_get_node (get_slurm_node_name pod) ∷ tr

abbrev pub after_drain : Pod → SlurmNode → String → Trace → Trace
after_drain pod node reason tr = after_update pod node (drain_msg reason) tr

-- The Slurm cluster has a client and knows the pod's node, which does not show the drain yet. It
-- accepts any update of the node, and shows the node with it for as long as there are only queries:
-- the state DRAIN where the update asks for it, and the reason that the update gives.
pub record DrainVisible (env : Env) (pod : Pod) (reason : String) (tr : Trace) : Type 0 where
  pub has_client : (t : Trace) → env.has_slurm_client t ≡ true
  pub node : SlurmNode
  pub known : env.get_slurm_node tr (get_slurm_node_name pod) ≡ ok node
  pub new :
      (has node Effects.drain && str_eq (or_empty node.reason) (prefixed_reason reason)) ≡ false
  pub accepted :
      (msg : UpdateNodeMsg)
      → env.update_slurm_node (slurm_get_node (get_slurm_node_name pod) ∷ tr) node msg ≡ none
  pub applied : UpdateNodeMsg → SlurmNode
  pub shown :
      (msg : UpdateNodeMsg) (reads : List Call)
      → All (λ c. is_query c ≡ true) reads
      → env.get_slurm_node (reads ++ after_update pod node msg tr) (get_slurm_node_name pod)
        ≡ ok (applied msg)
  pub drains :
      (msg : UpdateNodeMsg) → asks_drain msg ≡ true → has (applied msg) Effects.drain ≡ true
  pub gives :
      (msg : UpdateNodeMsg) (r : String) → msg.reason ≡ some r → or_empty (applied msg).reason ≡ r

module _ (env : Env) (pod : Pod) (reason : String) (tr : Trace)
    (v : DrainVisible env pod reason tr) where
  abbrev get : Call
  get = slurm_get_node (get_slurm_node_name pod)

  -- `MakeNodeDrain` of a node that a visible cluster shows without that drain sends one update;
  -- then `IsNodeDrain` and `IsNodeReasonOurs` answer true, and the same drain again sends nothing.
  pub make_node_drain-twice :
      let base = after_drain pod v.node reason tr in
      (make_node_drain env pod reason tr ≡ (ok tt, base))
      × (is_node_drain env pod base ≡ (ok true, get ∷ base))
      × (is_node_reason_ours env pod base ≡ (ok true, get ∷ base))
      × (make_node_drain env pod reason base ≡ (ok tt, get ∷ base))
  unfolding make_node_drain with_node send_update is_node_drain is_node_reason_ours
  make_node_drain-twice =
      let later = v.shown (drain_msg reason) [] tt in
      let drains = v.drains (drain_msg reason) refl in
      let gives = v.gives (drain_msg reason) (prefixed_reason reason) refl in
      let c = v.has_client (after_drain pod v.node reason tr) in
      (
        rw (v.has_client tr, v.known, v.new, v.accepted (drain_msg reason)) refl,
        rw (c, later, drains) refl,
        rw (c, later, gives, prefixed_reason-ours reason) refl,
        rw (c, later, drains, gives, eq_refl (prefixed_reason reason)) refl,
      )
