-- ===== src/Selectors.antt =====
-- internal/builder/labels/labels.go: the labels of the operator's objects and the selectors that
-- find them. A builder is its map of labels, and an object is what its labels are built from: its
-- name, and for a NodeSet the name of the cluster.
pub mod Matching
mod Examples
use slurm_operator.Prelude.{String, List, [], ◌∷◌}
use slurm_operator.Api.Maps.{Labels, insert}
use slurm_operator.Api.WellKnown.{pod_protect}
use slurm_operator.Annotations.Merge.{copy}

abbrev pub Builder : Type 0
Builder = Labels

abbrev pub new_builder : Builder
new_builder = []

abbrev pub app_label : String
app_label = "app.kubernetes.io/name"

abbrev pub instance_label : String
instance_label = "app.kubernetes.io/instance"

abbrev pub component_label : String
component_label = "app.kubernetes.io/component"

abbrev pub cluster_label : String
cluster_label = "slinky.slurm.net/cluster"

abbrev pub with_app : Builder → String → Builder
with_app b app = insert app_label app b

abbrev pub with_instance : Builder → String → Builder
with_instance b name = insert instance_label name b

abbrev pub with_component : Builder → String → Builder
with_component b component = insert component_label component b

abbrev pub with_part_of : Builder → String → Builder
with_part_of b name = insert "app.kubernetes.io/part-of" name b

abbrev pub with_managed_by : Builder → String → Builder
with_managed_by b component = insert "app.kubernetes.io/managed-by" component b

abbrev pub with_cluster : Builder → String → Builder
with_cluster b cluster = insert cluster_label cluster b

unfoldable pub with_labels : Builder → Labels → Builder
unfolding copy
with_labels b labels = copy b labels

abbrev pub with_pod_protect : Builder → Builder
with_pod_protect b = insert pod_protect "true" b

abbrev pub build : Builder → Labels
build b = b

unfoldable pub with_controller_selector_labels : Builder → String → Builder
unfolding insert
with_controller_selector_labels b name = with_instance (with_app b "slurmctld") name

unfoldable pub with_controller_labels : Builder → String → Builder
unfolding with_controller_selector_labels
with_controller_labels b name = with_component (with_controller_selector_labels b name) "controller"

unfoldable pub with_restapi_selector_labels : Builder → String → Builder
unfolding insert
with_restapi_selector_labels b name = with_instance (with_app b "slurmrestd") name

unfoldable pub with_restapi_labels : Builder → String → Builder
unfolding with_restapi_selector_labels
with_restapi_labels b name = with_component (with_restapi_selector_labels b name) "restapi"

unfoldable pub with_accounting_selector_labels : Builder → String → Builder
unfolding insert
with_accounting_selector_labels b name = with_instance (with_app b "slurmdbd") name

unfoldable pub with_accounting_labels : Builder → String → Builder
unfolding with_accounting_selector_labels
with_accounting_labels b name = with_component (with_accounting_selector_labels b name) "accounting"

unfoldable pub with_worker_selector_labels : Builder → String → Builder
unfolding insert
with_worker_selector_labels b name = with_instance (with_app b "slurmd") name

unfoldable pub with_worker_labels : Builder → String → String → Builder
unfolding with_worker_selector_labels
with_worker_labels b name cluster =
    with_cluster (with_component (with_worker_selector_labels b name) "worker") cluster

unfoldable pub with_login_selector_labels : Builder → String → Builder
unfolding insert
with_login_selector_labels b name = with_instance (with_app b "login") name

unfoldable pub with_login_labels : Builder → String → Builder
unfolding with_login_selector_labels
with_login_labels b name = with_component (with_login_selector_labels b name) "login"
