-- ===== src/SlurmControl.antt =====
-- internal/controller/nodeset/slurmcontrol/slurmcontrol.go: the NodeSet controller's view of the
-- Slurm nodes. Each method looks the client up, gets the node of the pod, and gives a default
-- where there is no client or the node is not known. Logging is left out.
pub mod Status
pub mod Deadlines
pub mod Drain
mod Examples
use Prim.Native.String
use slurm_operator.Prelude.{
  ℕ, String, Bool, true, false, not, ◌&&◌, ◌||◌, List, [], ◌∷◌, Option, none, some, ◌==◌, str_eq,
  has_prefix, contains, has_str, map, if◌then◌else◌,
}
use slurm_operator.Api.{Error, Result, ok, err, text, Pod}
use slurm_operator.Naming.{get_slurm_node_name}
use slurm_operator.Effects.{
  NodeState, SlurmNode, UpdateState, to_drain, to_undrain, to_idle, UpdateNodeMsg, Call, Trace, Env,
  M, pure, slurm_list_nodes, slurm_get_node, slurm_update_node,
}
use slurm_operator.Effects

-- The answers of the REST client that the code tolerates, by their text.
unfoldable pub tolerate_error : Option Error → Bool
tolerate_error none = true
tolerate_error (some (text s)) = str_eq s "Not Found" || str_eq s "No Content"
tolerate_error (some e) = false

abbrev pub state_code : NodeState → ℕ
state_code Effects.allocated = 0
state_code Effects.down = 1
state_code Effects.error = 2
state_code Effects.future = 3
state_code Effects.idle = 4
state_code Effects.mixed = 5
state_code Effects.unknown = 6
state_code Effects.completing = 7
state_code Effects.drain = 8
state_code Effects.fail = 9
state_code Effects.invalid = 10
state_code Effects.invalid_reg = 11
state_code Effects.maintenance = 12
state_code Effects.not_responding = 13
state_code Effects.undrain = 14
state_code Effects.other_state = 15

-- `GetStateAsSet().Has`.
abbrev pub has_in : NodeState → List NodeState → Bool
has_in s [] = false
has_in s (x ∷ xs) = state_code x == state_code s || has_in s xs

abbrev pub has : SlurmNode → NodeState → Bool
has node s = has_in s node.state

-- `ptr.Deref(p, "")`.
abbrev pub or_empty : Option String → String
or_empty none = ""
or_empty (some s) = s

abbrev pub node_reason_prefix : String
node_reason_prefix = "slurm-operator:"

unfoldable pub prefixed_reason : String → String
prefixed_reason reason =
    if str_eq reason "" then "" else String.◌++◌ node_reason_prefix (String.◌++◌ " " reason)

-- The tests of the methods below on the node that they got.
abbrev pub already_drained : SlurmNode → String → Bool
already_drained node reason =
    has node Effects.drain && str_eq (or_empty node.reason) (prefixed_reason reason)

abbrev pub already_undrained : SlurmNode → Bool
already_undrained node = not (has node Effects.drain) || has node Effects.undrain

abbrev pub has_foreign_reason : SlurmNode → Bool
has_foreign_reason node =
    not (str_eq (or_empty node.reason) "")
    && not (has_prefix (or_empty node.reason) node_reason_prefix)

abbrev pub or_tolerated : {A : Type 0} → A → Error → Result A
or_tolerated absent e = if tolerate_error (some e) then ok absent else err e

abbrev pub drain_msg : String → UpdateNodeMsg
drain_msg reason = record {
  state = some (to_drain ∷ []);
  reason = some (prefixed_reason reason);
  topology_str = none;
}

abbrev pub undrain_msg : String → UpdateNodeMsg
undrain_msg reason = record {
  state = some (to_undrain ∷ []);
  reason = some (prefixed_reason reason);
  topology_str = none;
}

abbrev pub answered : {A : Type 0} → A → (SlurmNode → M A) → Result SlurmNode → M A
answered absent body (ok node) tr = body node tr
answered absent body (err e) tr = (or_tolerated absent e, tr)

module _ (env : Env) where
  -- The head of the methods: the client, the node, and what is returned without them.
  unfoldable pub with_node : {A : Type 0} → A → Pod → (SlurmNode → M A) → M A
  with_node absent pod body tr =
      if env.has_slurm_client tr
      then answered absent body (env.get_slurm_node tr (get_slurm_node_name pod))
          (slurm_get_node (get_slurm_node_name pod) ∷ tr)
      else (ok absent, tr)

  -- `slurmClient.Update` and what its callers do with its error.
  unfoldable pub send_update : SlurmNode → UpdateNodeMsg → M (Unit {0})
  send_update node msg tr = (
    elim (env.update_slurm_node tr node msg) [ none ↦ ok tt | some e ↦ or_tolerated tt e ],
    slurm_update_node node msg ∷ tr,
  )

  unfoldable pub refresh_node_cache : M (Unit {0})
  refresh_node_cache tr =
      if env.has_slurm_client tr
      then elim (env.list_slurm_nodes tr) [
        | ok nodes ↦ (ok tt, slurm_list_nodes true ∷ tr)
        | err e ↦ (err e, slurm_list_nodes true ∷ tr)
      ]
      else (ok tt, tr)

  unfoldable pub update_node_topology : Pod → String → M (Unit {0})
  unfolding with_node send_update
  update_node_topology pod topology_line = with_node tt pod λ node.
      if str_eq (or_empty node.topology) topology_line
      then pure tt
      else send_update node
          (record { state = none; reason = none; topology_str = some topology_line })

  unfoldable pub make_node_drain : Pod → String → M (Unit {0})
  unfolding with_node send_update prefixed_reason
  make_node_drain pod reason =
      with_node tt pod
        λ node. if already_drained node reason then pure tt else send_update node (drain_msg reason)

  unfoldable pub make_node_undrain : Pod → String → M (Unit {0})
  unfolding with_node send_update prefixed_reason
  make_node_undrain pod reason =
      with_node tt pod
        λ node. if already_undrained node then pure tt else send_update node (undrain_msg reason)

  unfoldable pub is_node_drain : Pod → M Bool
  unfolding with_node
  is_node_drain pod = with_node true pod λ node. pure (has node Effects.drain)

  unfoldable pub is_node_drained : Pod → M Bool
  unfolding with_node
  is_node_drained pod = with_node true pod λ node.
      let is_busy =
        has node Effects.allocated || has node Effects.mixed || has node Effects.completing in
      let is_drain = has node Effects.drain && not (has node Effects.undrain) in
      pure (is_drain && not is_busy)

  unfoldable pub is_node_down_for_unresponsive : Pod → M Bool
  unfolding with_node
  is_node_down_for_unresponsive pod =
      with_node true pod
        λ node. pure (has node Effects.down && contains (or_empty node.reason) "Not responding")

  unfoldable pub is_node_reason_ours : Pod → M Bool
  unfolding with_node
  is_node_reason_ours pod =
      with_node true pod λ node. pure (if has_foreign_reason node then false else true)

  -- `slurmNodeNames`, and false where there is no client.
  unfoldable pub get_nodes_for_pods : List Pod → M (List String × Bool)
  get_nodes_for_pods pods tr =
      if env.has_slurm_client tr
      then elim (env.list_slurm_nodes tr) [
        | ok nodes ↦ (ok (registered nodes, true), slurm_list_nodes false ∷ tr)
        | err e ↦ (err e, slurm_list_nodes false ∷ tr)
      ]
      else (ok ([], false), tr)
    where
      pod_node_names : List String
      pod_node_names = map get_slurm_node_name pods

      registered : List SlurmNode → List String
      registered [] = []
      registered (node ∷ nodes) =
          let rest = registered nodes in
          if has_str (or_empty node.name) pod_node_names then or_empty node.name ∷ rest else rest
