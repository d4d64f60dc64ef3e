-- ===== src/Lib.antt =====
-- Verification library of the Slurm operator: a Kubernetes operator that runs Slurm workers as
-- pods. The core of the program is the NodeSet controller. A reconcile reads the NodeSet and its
-- pods, asks the Slurm REST API about the pods' Slurm nodes, drains and undrains them to follow the
-- cordons of pods and Kubernetes nodes, and creates, deletes and updates pods to reach the replicas
-- that are wanted without stopping work that still runs.
--
-- The files and the code, by paths from the repository's root:
--   Prelude, Samples     shared names, integers, lists, texts; objects for the tests
--   Api                  api/v1beta1: the objects, with the fields that the models read; Go errors
--   PodUtils             internal/utils/podutils/pod.go and pkg/conditions/conditions.go
--   MathUtils            internal/utils/mathutils/math.go
--   Annotations          internal/utils/structutils/map.go: values of annotations; merged maps
--   Naming               internal/controller/nodeset/utils/utils.go: pod names, ordinals, identity
--   PodOrder             internal/controller/nodeset/utils/sort.go: which pods are given up first
--   Batch                internal/utils/tools.go: SlowStartBatch
--   Stores               internal/utils/timestore and internal/utils/durationstore
--   Effects              the world of the controller: calls, answers, and the trace of calls
--   SlurmControl         internal/controller/nodeset/slurmcontrol/slurmcontrol.go
--   NodeSetSync          internal/controller/nodeset/nodeset_sync.go, in modules:
--     Cordon               syncCordon, syncPodUncordon and the functions that they call
--     Scale                doPodScale, doPodProcessing, processCondemned
--     Choose               replica arithmetic, ordinals, splitUpdatePods
--     Sync                 syncNodeSet in StatefulSet mode, syncUpdate, syncRollingUpdate
--     DaemonMode           syncNodeSet in DaemonSet mode and as a whole
--     Drift                syncSlurmNodes, syncSlurmDeadline, syncSlurmTopology
--     Taint                syncTaint, and pkg/taints/taints.go
--     Shared               the worker service, the disruption budget, the SSH configuration
--     Reconcile            sync, which runs all of these in order, and syncUpdate after it
--   Claims               internal/controller/nodeset/podcontrol/podcontrol.go: owner references
--   Storage              internal/controller/nodeset/utils/utils.go: the volumes of a pod
--   Steps                steps on a state that end in a result or an error; RetryOnConflict
--   PodControl           internal/controller/nodeset/podcontrol/podcontrol.go: the operations on pods
--     Update               UpdateNodeSetPod
--   History              internal/utils/historycontrol: ControllerRevisions, created and retried
--     Revisions            internal/controller/nodeset/nodeset_history.go; adoption of orphans
--   Status               internal/controller/nodeset/nodeset_sync_status.go: counts, conditions, labels
--     Sync                 syncStatus and the writes that it makes
--   ClientMap            internal/clientmap/clientmap.go
--   Defaults             internal/defaults/nodeset.go
--   Daemon               internal/controller/nodeset/nodeset_sync.go: the pods of the DaemonSet mode
--   Objects              internal/utils/objectutils: SyncObject and DeleteObject
--   Selectors            internal/builder/labels/labels.go: labels and selectors
--   Events               internal/controller/nodeset/eventhandler: the events that wake the controller
--   Keys                 api/v1beta1/*_keys.go: the names of the resources' objects and Secrets
--   Webhooks             internal/webhook: what is checked before an object is stored
--   References           internal/utils/refresolver: the objects that refer to another
--   SlurmClients         internal/controller/slurmclient: the Slurm client of a Controller
--
-- A function that calls Kubernetes or Slurm takes the trace of all calls made so far and returns its
-- result and the longer trace. `Effects.Env` says what each call answers as a function of the trace
-- before it, so a theorem over every `Env` holds whatever the other processes of the cluster do. The
-- pod control interface and the expectations are answered by the environment too. `Adds` is the
-- relation between the trace before and after, with what holds of each call where it is made. A pod
-- that a read overwrites in place is computed from the trace too (`NodeSetSync.Fresh`), so that later
-- steps of a reconcile work on it.
--
-- `PodControl` and the parts after it stand on another view of the cluster: a record of calls on a
-- state of any type, with what a theorem needs of them as laws, which a store without faults in the
-- tests satisfies. A function that a Go closure mutates variables of takes them as its state.
--
-- Fuel: the loop of SlowStartBatch has the number of calls as fuel, and each round takes at least
-- one; the search for a free ordinal has the number of used ordinals, and each step passes one. The
-- loop of CreateControllerRevision has one round more than there are names taken.
--
-- Parameters: sort.Sort, time.Parse, hostlist.Expand, intstr.GetScaledValueFromIntOrPercent, the
-- readiness of a pod in k8s.io/kubernetes, retry.RetryOnConflict, the hash, the names and the order
-- of k8s.io/kubernetes' revisions, the order in which a map is ranged over, and the scheduler of
-- goroutines, a permutation of the calls of a batch. Each call is one step: interleavings inside of
-- a call are not modelled.
--
-- Not modelled: the JSON of a revision's patch, UpdateNodeWithPodInfo, the claiming of pods in
-- getNodeSetPods, the joint of `sync` with revisions and status in Sync, the other controllers; the
-- builders, which lay out objects field by field; what UpdateNodeSetPod changes of a pod in memory
-- for the steps that come after it; generated code, start-up and logging.
mod Prelude
mod Samples
pub mod Api
pub mod PodUtils
pub mod MathUtils
pub mod Naming
pub mod Annotations
pub mod PodOrder
pub mod Batch
pub mod Stores
pub mod Effects
pub mod Steps
pub mod SlurmControl
pub mod NodeSetSync
pub mod Claims
pub mod Storage
pub mod PodControl
pub mod History
pub mod Status
pub mod Daemon
pub mod ClientMap
pub mod Defaults
pub mod Objects
pub mod Selectors
pub mod Events
pub mod Keys
pub mod Webhooks
pub mod References
pub mod SlurmClients
