-- ===== src/Keys/Collisions.antt =====
-- Objects of different owners that have one name.
use text.Mathlib.TextLemmas.{append_cancel_right}
use slurm_operator.Prelude.{◌≡◌, refl, ap, ◌↔◌}
use slurm_operator.Keys.NodeSets.{NodeSetNames}
use slurm_operator.Keys.NodeSets
use slurm_operator.Keys.LoginSets.{LoginSet}
use slurm_operator.Keys.LoginSets

-- The ConfigMap of a NodeSet's SSH configuration is that of a LoginSet's just if the two have the
-- same name in the same namespace.
pub ssh_config_key-shared :
    (nodeset : NodeSetNames) (loginset : LoginSet)
    → (NodeSets.ssh_config_key nodeset ≡ LoginSets.ssh_config_key loginset)
      ↔ ((nodeset.name ≡ loginset.name) × (nodeset.namespace ≡ loginset.namespace))
ssh_config_key-shared nodeset loginset = (there, back)
  where
    there :
        NodeSets.ssh_config_key nodeset ≡ LoginSets.ssh_config_key loginset
        → (nodeset.name ≡ loginset.name) × (nodeset.namespace ≡ loginset.namespace)
    there h = (
      append_cancel_right nodeset.name loginset.name "-ssh-config" (ap (λ k. k.name) h),
      ap (λ k. k.namespace) h,
    )

    back :
        (nodeset.name ≡ loginset.name) × (nodeset.namespace ≡ loginset.namespace)
        → NodeSets.ssh_config_key nodeset ≡ LoginSets.ssh_config_key loginset
    back (p, q) = rw (p, q) refl
