-- ===== src/Samples.antt =====
-- Objects that the tests of several modules use.
use slurm_operator.Prelude.{ℕ, String, true, false, List, [], ◌∷◌, Option, none, some}
use slurm_operator.Prelude.Int.{pos}
use slurm_operator.Api.{Pod, NodeSet, unset, ok, err, not_found}
use slurm_operator.PodUtils.{PodApi}
use slurm_operator.Effects.{NodeState, SlurmNode, JobInfo, Env}
use slurm_operator.Api.WellKnown.{stateful_set, rolling_update}

abbrev pub worker : NodeSet
worker = record {
  name = "slinky-1";
  namespace = "slurm";
  uid = "u1";
  replicas = none;
  scaling_mode = stateful_set;
  update_strategy_type = rolling_update;
  max_unavailable = none;
  min_ready_seconds = pos 0;
  ordinal_padding = 3;
  workload_disruption_protection = none;
  when_deleted = "";
  when_scaled = "";
  volume_claim_templates = [];
  controller_name = "slurm";
  controller_namespace = "slurm";
  taint_kube_nodes = true;
  ssh_enabled = false;
}

abbrev pub pod_named : String → Pod
pod_named name = record {
  name = name;
  namespace = "slurm";
  generate_name = "";
  uid = "p";
  resource_version = "1";
  labels = [];
  annotations = [];
  creation_timestamp = 0;
  deletion_timestamp = none;
  node_name = "";
  hostname = "";
  host_network = false;
  phase = unset;
  conditions = [];
  volumes = [];
}

-- Every pod is ready and available, and no text is a time.
abbrev pub all_ready : PodApi
all_ready = record {
  is_pod_ready = λ pod. true;
  is_pod_available = λ pod n now. true;
  get_pod_condition = λ cs kind. none;
}

abbrev pub no_times : String → Option ℕ
no_times s = none

abbrev pub node_in : String → List NodeState → String → SlurmNode
node_in name states reason = record {
  name = some name;
  state = states;
  reason = some reason;
  topology = none;
}

-- A cluster with one Slurm node that always shows the same, on a Kubernetes node that is not
-- cordoned, which accepts everything.
abbrev pub cluster : SlurmNode → List JobInfo → Env
cluster node jobs = record {
  has_slurm_client = λ tr. true;
  list_slurm_nodes = λ tr. ok (node ∷ []);
  get_slurm_node = λ tr name. ok node;
  update_slurm_node = λ tr n msg. none;
  list_jobs = λ tr. ok jobs;
  read_pod = λ tr pod. ok pod;
  read_node = λ tr name.
      ok
        (record { name = name; labels = []; annotations = []; unschedulable = false; taints = [] });
  patch = λ tr new old. none;
  create = λ tr pod. none;
  delete = λ tr pod. none;
  pvcs_match = λ tr pod. ok true;
  update_pvcs = λ tr pod. none;
  update = λ tr pod. none;
  expect = λ tr keys. none;
  reset_expectations = λ tr. none;
  nodes = λ tr. ok [];
  node_sets = λ tr. ok (worker ∷ []);
  pods = λ tr. ok [];
  patch_kube_node = λ tr new old. none;
  read_object = λ tr object. err not_found;
  add_object = λ tr object. none;
  change_object = λ tr new old. none;
  remove_object = λ tr object. none;
}
