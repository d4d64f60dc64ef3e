-- ===== src/Status/Protect.antt =====
-- The label that protects a pod of a busy Slurm node from eviction.
use slurm_operator.Prelude.{
  String, Bool, true, ◌&&◌, ◌≡◌, inl, inr, none, some, str_eq, Bool-cases, if◌then◌else◌,
}
use slurm_operator.Api.{Pod, NodeSet}
use slurm_operator.Api.Maps.{get?, get?-insert, get?-remove}
use slurm_operator.Api.WellKnown.{pod_protect}
use slurm_operator.PodUtils.{PodApi, is_node_busy}
use slurm_operator.Status.{Calls, protected_pod}

-- The NodeSet asks for protection, as it does by default.
abbrev pub wants_protection : NodeSet → Bool
wants_protection nodeset = elim nodeset.workload_disruption_protection [ none ↦ true | some b ↦ b ]

-- After the update of its labels a pod has the protecting label exactly if its Slurm node is busy
-- and the NodeSet wants protection; all other labels are as before.
pub labels-protected_pod :
    {W : Type 0} (calls : Calls W) (api : PodApi) (nodeset : NodeSet) (pod : Pod) (k : String)
    → get? k (protected_pod calls api nodeset pod).labels ≡ (
        if str_eq pod_protect k
        then (if is_node_busy api pod.conditions && wants_protection nodeset
            then some "true"
            else none)
        else get? k pod.labels)
unfolding protected_pod
labels-protected_pod calls api nodeset pod k =
    elim (Bool-cases (is_node_busy api pod.conditions && wants_protection nodeset)) [
      | inl e ↦ rw e (get?-insert pod_protect k "true" pod.labels)
      | inr e ↦ rw e (get?-remove pod_protect k pod.labels)
    ]
