-- ===== src/Api/WellKnown.antt =====
-- api/v1beta1/well_known.go: keys of annotations and labels; and of nodeset_types.go the values of
-- the enumerated fields.
use slurm_operator.Prelude.{String}

abbrev pub pod_cordon : String
pod_cordon = "nodeset.slinky.slurm.net/pod-cordon"

abbrev pub pod_deletion_cost : String
pod_deletion_cost = "nodeset.slinky.slurm.net/pod-deletion-cost"

abbrev pub pod_deadline : String
pod_deadline = "nodeset.slinky.slurm.net/pod-deadline"

abbrev pub node_cordon_reason : String
node_cordon_reason = "nodeset.slinky.slurm.net/node-cordon-reason"

abbrev pub topology_spec : String
topology_spec = "topology.slinky.slurm.net/spec"

abbrev pub pod_name : String
pod_name = "nodeset.slinky.slurm.net/pod-name"

abbrev pub pod_index : String
pod_index = "nodeset.slinky.slurm.net/pod-index"

abbrev pub pod_hostname : String
pod_hostname = "nodeset.slinky.slurm.net/pod-hostname"

abbrev pub pod_protect : String
pod_protect = "nodeset.slinky.slurm.net/pod-protect"

abbrev pub scaling_mode : String
scaling_mode = "nodeset.slinky.slurm.net/scaling-mode"

abbrev pub stateful_set : String
stateful_set = "StatefulSet"

abbrev pub daemon_set : String
daemon_set = "DaemonSet"

abbrev pub rolling_update : String
rolling_update = "RollingUpdate"

abbrev pub on_delete : String
on_delete = "OnDelete"

abbrev pub retain : String
retain = "Retain"

abbrev pub delete : String
delete = "Delete"
