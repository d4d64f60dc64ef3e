-- ===== src/NodeSetSync/Fresh.antt =====
-- internal/controller/nodeset/nodeset_sync.go: pods that are overwritten in place. `r.Get` of a pod
-- writes the answer to the pod that it is given, which is a pointer that later steps share. A trace
-- tells which reads were made and the environment what was answered, so the pods of a later step are
-- computed from them.
use slurm_operator.Prelude.{
  ℕ, zero, suc, ◌-◌, Bool, ◌&&◌, List, [], ◌∷◌, map, length, str_eq, if◌then◌else◌,
}
use slurm_operator.Api.{Result, ok, err, Pod}
use slurm_operator.Effects.{Trace, Env, get_pod}

abbrev pub same_key : Pod → Pod → Bool
same_key p q = str_eq p.name q.name && str_eq p.namespace q.namespace

-- A failed read leaves the pod.
abbrev pub overwritten : Pod → Result Pod → Pod
overwritten pod (ok fresh) = fresh
overwritten pod (err e) = pod

-- The pod after the newest `n` calls of the trace.
unfoldable pub pod_now : Env → ℕ → Trace → Pod → Pod
pod_now env zero tr pod = pod
pod_now env (suc n) [] pod = pod
pod_now env (suc n) (get_pod p ∷ tr) pod =
    let older = pod_now env n tr pod in
    if same_key p pod then overwritten older (env.read_pod tr p) else older
pod_now env (suc n) (_ ∷ tr) pod = pod_now env n tr pod

-- The pods after the calls from `start` to `tr`.
unfoldable pub pods_now : Env → Trace → Trace → List Pod → List Pod
unfolding pod_now
pods_now env start tr pods = map (pod_now env (length tr - length start) tr) pods
