-- ===== src/Naming/Identity.antt =====
-- `UpdateIdentity` establishes what `IsIdentityMatch` tests, and names the Slurm node.
use slurm_operator.Prelude.{ℕ, ◌≤◌, ◌≡◌, refl, ◌∙◌, true, arith, eq_iff}
use slurm_operator.Prelude.Int.{pos}
use slurm_operator.Api.{Pod, NodeSet}
use slurm_operator.Api.Maps.{get_value, get?-insert}
use slurm_operator.Api.WellKnown.{pod_name, stateful_set}
use slurm_operator.Naming.{
  get_parent_name_and_ordinal, get_ordinal_pod_name, update_identity, is_identity_match,
}
use slurm_operator.Naming.RoundTrip.{get_parent_name_and_ordinal-get_ordinal_pod_name}

pod_name-update_identity :
    (nodeset : NodeSet) (pod : Pod)
    → get_value pod_name (update_identity nodeset pod).labels ≡ pod.name
unfolding update_identity
pod_name-update_identity nodeset pod = simp (get_value, get?-insert)

is_identity_match-intro :
    (nodeset : NodeSet) (pod : Pod) (n : ℕ)
    → nodeset.scaling_mode ≡ stateful_set
    → get_parent_name_and_ordinal pod ≡ (nodeset.name, pos n)
    → pod.namespace ≡ nodeset.namespace
    → get_value pod_name pod.labels ≡ pod.name
    → is_identity_match nodeset pod ≡ true
unfolding is_identity_match
is_identity_match-intro nodeset pod n mode named space label = ground (
  arith,
  eq_iff nodeset.scaling_mode stateful_set,
  eq_iff nodeset.name (get_parent_name_and_ordinal pod).0,
  eq_iff pod.namespace nodeset.namespace,
  eq_iff (get_value pod_name pod.labels) pod.name,
)

-- A pod of a NodeSet in StatefulSet mode that is named after one of its ordinals has, once its
-- identity is updated, the identity that `UpdateNodeSetPod` asks for.
pub is_identity_match-update_identity :
    (nodeset : NodeSet) (pod : Pod) (n : ℕ)
    → nodeset.scaling_mode ≡ stateful_set
    → n ≤ 2147483647
    → pod.name ≡ get_ordinal_pod_name nodeset (pos n)
    → is_identity_match nodeset (update_identity nodeset pod) ≡ true
is_identity_match-update_identity nodeset pod n mode h e =
    is_identity_match-intro nodeset (update_identity nodeset pod) n mode
      (get_parent_name_and_ordinal-get_ordinal_pod_name nodeset (update_identity nodeset pod) n h
        (unfold update_identity in e))
      (unfold update_identity in refl)
      (pod_name-update_identity nodeset pod ∙ unfold update_identity in refl)
