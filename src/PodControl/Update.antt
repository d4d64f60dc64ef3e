-- ===== src/PodControl/Update.antt =====
-- internal/controller/nodeset/podcontrol/podcontrol.go: `UpdateNodeSetPod`. The function that is
-- retried works on variables of its caller: the pod and whether an update was attempted.
use slurm_operator.Prelude.{Bool, true, false, ◌&&◌, [], ◌∷◌, Option, none, some, if◌then◌else◌}
use slurm_operator.Api.{Error, text, Result, ok, err, Pod, NodeSet}
use slurm_operator.Api.Maps.{Labels}
use slurm_operator.Naming.{is_identity_match, update_identity}
use slurm_operator.Storage.{update_storage, is_storage_match}
use slurm_operator.Steps.{Step, ◌>>-◌, Retrier}
use slurm_operator.PodControl.{
  Cluster, event_update, record_pod_event, pod_pvcs_match_retention_policy,
  update_pod_pvcs_for_retention_policy, create_persistent_volume_claims,
}

pub record Attempt (W : Type 0) : Type 0 where
  pub pod : Pod
  pub attempted_update : Bool
  pub world : W

-- A fault ends the attempt with an event.
abbrev pub faulted :
    {W : Type 0} {A : Type 0} → Cluster W → Error → Pod → Bool → W → Result A × Attempt W
faulted cluster e pod attempted w = (
  err e,
  record {
    pod = pod;
    attempted_update = attempted;
    world = record_pod_event cluster event_update (some e) w;
  },
)

module _ {W : Type 0} (cluster : Cluster W) (order : Labels → Labels) (nodeset : NodeSet) where
  -- Each fix tells whether there was nothing to fix.
  unfoldable pub fix_identity : Step (Attempt W) Bool
  unfolding is_identity_match update_identity
  fix_identity a =
      if is_identity_match nodeset a.pod
      then (ok true, a)
      else (ok false, record a { pod = update_identity nodeset a.pod })

  unfoldable pub fix_storage : Step (Attempt W) Bool
  unfolding is_storage_match update_storage create_persistent_volume_claims
  fix_storage a =
      let pod = update_storage order nodeset a.pod in
      let (errs, w) = create_persistent_volume_claims cluster order nodeset pod a.world in
      if is_storage_match nodeset a.pod then (ok true, a) else elim errs [
        | [] ↦ (ok false, record a { pod = pod; world = w })
        | e ∷ es ↦ faulted cluster (text "claims") pod a.attempted_update w
      ]

  abbrev pub repaired : Attempt W → Result (Unit {0}) × W → Result Bool × Attempt W
  repaired a (ok u, w) = (ok false, record a { world = w })
  repaired a (err e, w) = faulted cluster e a.pod a.attempted_update w

  abbrev pub repair : Attempt W → Result Bool × W → Result Bool × Attempt W
  repair a (err e, w) = faulted cluster e a.pod a.attempted_update w
  repair a (ok true, w) = (ok true, record a { world = w })
  repair a (ok false, w) = repaired a (update_pod_pvcs_for_retention_policy cluster nodeset a.pod w)

  unfoldable pub fix_policy : Step (Attempt W) Bool
  unfolding pod_pvcs_match_retention_policy update_pod_pvcs_for_retention_policy
  fix_policy a = repair a (pod_pvcs_match_retention_policy cluster nodeset a.pod a.world)

  -- Where an update fails the pod is read again for the next attempt.
  abbrev pub reread : Attempt W → Error → Result Pod × W → Result (Unit {0}) × Attempt W
  reread a e (ok pod, w) = (err e, record { pod = pod; attempted_update = true; world = w })
  reread a e (err f, w) = (err e, record a { attempted_update = true; world = w })

  abbrev pub committed : Attempt W → Option Error × W → Result (Unit {0}) × Attempt W
  committed a (none, w) = (ok tt, record a { attempted_update = true; world = w })
  committed a (some e, w) = reread a e (cluster.get_pod a.pod.name w)

  unfoldable pub commit : Step (Attempt W) (Unit {0})
  commit a = committed a (cluster.update_pod a.pod a.world)

  abbrev pub when_dirty : Bool → Step (Attempt W) (Unit {0})
  when_dirty true a = (ok tt, a)
  when_dirty false a = commit a

  unfoldable pub attempt : Step (Attempt W) (Unit {0})
  unfolding fix_identity fix_storage fix_policy commit
  attempt =
      fix_identity >>- λ i. fix_storage >>- λ s. fix_policy >>- λ p. when_dirty (i && (s && p))

  abbrev pub first : Pod → W → Attempt W
  first pod w = record { pod = pod; attempted_update = false; world = w }

  unfoldable pub update_node_set_pod : Retrier → Pod → Step W (Unit {0})
  unfolding attempt record_pod_event
  update_node_set_pod retrier pod w =
      let (r, a) = retrier.retry attempt (first pod w) in
      let e : Option Error = elim r [ ok u ↦ none | err e ↦ some e ] in
      (r, if a.attempted_update then record_pod_event cluster event_update e a.world else a.world)
