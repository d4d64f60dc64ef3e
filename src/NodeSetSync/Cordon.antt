-- ===== src/NodeSetSync/Cordon.antt =====
-- internal/controller/nodeset/nodeset_sync.go: cordoning pods and draining their Slurm nodes.
-- `r.Get` into the pod that a function was given is a pod that the model's function returns.
-- The functions of a loop over pods run in the batches of `Batch`: `order` is the scheduler and
-- `initial` is `SlowStartInitialBatchSize`, a constant of k8s.io/kubernetes.
pub mod Calls
pub mod Safe
pub mod Follow
pub mod Batches
use Prim.Native.String
use slurm_operator.Prelude.{
  ℕ, String, Bool, true, false, not, ◌||◌, List, [], ◌∷◌, Option, none, some, str_eq, length,
  get_elem?, if◌then◌else◌,
}
use slurm_operator.Api.{Error, Result, ok, err, text, is_not_found, Pod, Node}
use slurm_operator.Api.Maps.{Labels, get?, insert, remove}
use slurm_operator.Api.WellKnown.{pod_cordon, node_cordon_reason}
use slurm_operator.PodUtils.{is_pod_cordon}
use slurm_operator.Batch.{slow_start_batch}
use slurm_operator.Effects.{
  Trace, Env, M, pure, throw, ◌>>=◌, ◌>>◌, Call, as_result, to_error, get_pod, get_node, patch_pod,
}
use slurm_operator.SlurmControl.{
  is_node_drain, is_node_reason_ours, is_node_down_for_unresponsive, make_node_drain,
  make_node_undrain,
}

abbrev pub concat : List String → String
concat [] = ""
concat (s ∷ ss) = String.◌++◌ s (concat ss)

-- `klog.KObj`, as it is printed.
abbrev pub k_obj : Pod → String
k_obj pod =
    if str_eq pod.namespace "" then pod.name else concat (pod.namespace ∷ "/" ∷ pod.name ∷ [])

-- The answer to a call, and what the code makes of it.
abbrev pub query : {A : Type 0} → Call → (Trace → Result A) → M A
query c answer tr = (answer tr, c ∷ tr)

-- The function of a loop over pods or nodes, as `SlowStartBatch` calls it. The index is in range.
unfoldable pub at_item :
    {A : Type 0} → List A → (A → M (Unit {0})) → ℕ → Trace → Option Error × Trace
at_item items body i tr = elim (get_elem? items i) [
  | none ↦ (none, tr)
  | some item ↦ let (r, tr') = body item tr in (to_error r, tr')
]

-- `isNodeCordoned`: a node that cannot be read is not cordoned.
abbrev pub node_is_cordoned : Result Node → Bool
node_is_cordoned (ok node) = node.unschedulable
node_is_cordoned (err e) = false

-- The reason of a drain that follows the Kubernetes node.
abbrev pub override : Pod → Node → String
override pod node = elim (get? node_cordon_reason node.annotations) [
  | some value ↦ value
  | none ↦
      concat
        ("Node (" ∷ pod.node_name ∷ ") was cordoned, Pod (" ∷ k_obj pod ∷ ") must be cordoned" ∷ [])
]

module _ (env : Env) where
  abbrev pub patch_to : Pod → Pod → M (Unit {0})
  patch_to new old = query (patch_pod new old) (λ tr. as_result (env.patch tr new old))

  abbrev pub refresh : Pod → M Pod
  refresh pod = query (get_pod pod) (λ tr. env.read_pod tr pod)

  abbrev pub fetch_node : String → M Node
  fetch_node name = query (get_node name) (λ tr. env.read_node tr name)

  unfoldable pub make_pod_cordon : Pod → M Pod
  make_pod_cordon pod =
      if is_pod_cordon pod
      then pure pod
      else (patch_to (record pod { annotations = insert pod_cordon "true" pod.annotations }) pod
          >> refresh pod)

  unfoldable pub make_pod_uncordon : Pod → M Pod
  make_pod_uncordon pod =
      if not (is_pod_cordon pod)
      then pure pod
      else (patch_to (record pod { annotations = remove pod_cordon pod.annotations }) pod
          >> refresh pod)

  -- The rest of `syncSlurmNodeDrain` once it knows whether the node is draining.
  unfoldable pub drain_unless : Pod → String → Bool → M (Unit {0})
  unfolding make_node_drain
  drain_unless pod message true = pure tt
  drain_unless pod message false =
      let reason = concat ("Pod (" ∷ k_obj pod ∷ ") has been cordoned" ∷ []) in
      make_node_drain env pod (if not (str_eq message "") then message else reason)

  unfoldable pub sync_slurm_node_drain : Pod → String → M (Unit {0})
  unfolding is_node_drain drain_unless
  sync_slurm_node_drain pod message = is_node_drain env pod >>= drain_unless pod message

  unfoldable pub undrain_if : Pod → String → Bool → M (Unit {0})
  unfolding make_node_undrain
  undrain_if pod message false = pure tt
  undrain_if pod message true =
      let reason = concat ("Pod (" ∷ k_obj pod ∷ ") has been uncordoned" ∷ []) in
      make_node_undrain env pod (if not (str_eq message "") then message else reason)

  unfoldable pub sync_slurm_node_undrain : Pod → String → M (Unit {0})
  unfolding is_node_drain undrain_if
  sync_slurm_node_undrain pod message = is_node_drain env pod >>= undrain_if pod message

  unfoldable pub make_pod_cordon_and_drain : Pod → String → M (Unit {0})
  unfolding make_pod_cordon sync_slurm_node_drain
  make_pod_cordon_and_drain pod reason =
      make_pod_cordon pod >>= λ pod'. sync_slurm_node_drain pod' reason

  unfoldable pub make_pod_uncordon_and_undrain : Pod → String → M (Unit {0})
  unfolding make_pod_uncordon sync_slurm_node_undrain
  make_pod_uncordon_and_undrain pod reason =
      make_pod_uncordon pod >>= λ pod'. sync_slurm_node_undrain pod' reason

  unfoldable pub is_node_cordoned : Pod → Trace → Bool × Trace
  is_node_cordoned pod tr =
      (node_is_cordoned (env.read_node tr pod.node_name), get_node pod.node_name ∷ tr)

  unfoldable pub uncordon_if_ours : Pod → Bool → M (Unit {0})
  unfolding make_pod_uncordon_and_undrain
  uncordon_if_ours pod false = pure tt
  uncordon_if_ours pod true = make_pod_uncordon_and_undrain pod ""

  unfoldable pub sync_pod_uncordon : Pod → M (Unit {0})
  unfolding is_node_cordoned is_node_reason_ours uncordon_if_ours
  sync_pod_uncordon pod tr =
      if (is_node_cordoned pod tr).0
      then (ok tt, (is_node_cordoned pod tr).1)
      else (is_node_reason_ours env pod >>= uncordon_if_ours pod) (is_node_cordoned pod tr).1

  -- The second read of the node, whose error is wrapped, and the drain that follows it.
  unfoldable pub cordon_with_node : (Error → Error) → Pod → M (Unit {0})
  unfolding make_pod_cordon_and_drain
  cordon_with_node wrap pod =
      query (get_node pod.node_name) (λ tr. wrapped (env.read_node tr pod.node_name)) >>= λ node.
      make_pod_cordon_and_drain pod (override pod node)
    where
      wrapped : Result Node → Result Node
      wrapped (ok node) = ok node
      wrapped (err e) = err (wrap e)

  -- The switch of `syncCordonFn`: the node is cordoned, it is unresponsive, the reason is ours.
  unfoldable pub follow_cordon : (Error → Error) → Pod → Bool → Bool → Bool → M (Unit {0})
  unfolding cordon_with_node make_node_drain make_node_undrain
  follow_cordon wrap pod is_cordoned unresponsive false = pure tt
  follow_cordon wrap pod is_cordoned true true = pure tt
  follow_cordon wrap pod true false true = cordon_with_node wrap pod
  follow_cordon wrap pod false false true =
      if is_pod_cordon pod
      then make_node_drain env pod (concat ("Pod (" ∷ k_obj pod ∷ ") was cordoned" ∷ []))
      else make_node_undrain env pod (concat ("Pod (" ∷ k_obj pod ∷ ") was uncordoned" ∷ []))

  unfoldable pub ask_reason : (Error → Error) → Pod → Bool → Bool → M (Unit {0})
  unfolding is_node_reason_ours follow_cordon
  ask_reason wrap pod is_cordoned unresponsive =
      is_node_reason_ours env pod >>= follow_cordon wrap pod is_cordoned unresponsive

  -- `syncCordonFn` once it has the Kubernetes node.
  unfoldable pub with_kube_node : (Error → Error) → Pod → Result Node → M (Unit {0})
  unfolding is_node_down_for_unresponsive ask_reason
  with_kube_node wrap pod (err e) = if is_not_found e then pure tt else throw e
  with_kube_node wrap pod (ok node) =
      is_node_down_for_unresponsive env pod >>= ask_reason wrap pod node.unschedulable

  unfoldable pub sync_cordon_fn : (Error → Error) → Pod → M (Unit {0})
  unfolding with_kube_node
  sync_cordon_fn wrap pod tr =
      with_kube_node wrap pod (env.read_node tr pod.node_name) (get_node pod.node_name ∷ tr)

  unfoldable pub sync_cordon : (List ℕ → List ℕ) → ℕ → (Error → Error) → List Pod → M (Unit {0})
  unfolding slow_start_batch at_item sync_cordon_fn
  sync_cordon order initial wrap pods tr =
      let (n, e, tr') =
        slow_start_batch (at_item pods (sync_cordon_fn wrap)) order (length pods) initial tr in
      (as_result e, tr')
