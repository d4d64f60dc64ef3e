-- ===== src/NodeSetSync/Cordon/Safe.antt =====
-- Cordoning keeps to what a call may be made after.
use slurm_operator.Prelude.{
  String, Bool, true, false, ◌≡◌, refl, sym, ◌∙◌, subst, inl, inr, ◌∷◌, Option, none, some,
  Bool-cases,
}
use slurm_operator.Api.{Error, Result, ok, err, Pod}
use slurm_operator.Steps.{ok-inj}
use slurm_operator.Api.Maps.{remove}
use slurm_operator.Api.WellKnown.{pod_cordon}
use slurm_operator.Naming.{get_slurm_node_name}
use slurm_operator.Effects.{
  Trace, Env, M, get_node, patch_pod, as_result, ◌>>◌, SlurmNode, slurm_get_node, slurm_update_node,
}
use slurm_operator.Effects.Adds.{
  Adds, same, add, Extends, Adds-trans, Adds-Extends, Makes-bind, Adds-if,
}
use slurm_operator.PodUtils.{is_pod_cordon}
use slurm_operator.SlurmControl.{
  already_drained, already_undrained, with_node, answered, send_update, drain_msg, undrain_msg,
  is_node_drain, is_node_drained, is_node_reason_ours, is_node_down_for_unresponsive,
  make_node_drain, make_node_undrain,
}
use slurm_operator.NodeSetSync.Cordon.{
  make_pod_cordon, make_pod_uncordon, drain_unless, undrain_if, sync_slurm_node_drain,
  sync_slurm_node_undrain, make_pod_cordon_and_drain, make_pod_uncordon_and_undrain,
  is_node_cordoned, node_is_cordoned, uncordon_if_ours, sync_pod_uncordon, patch_to, refresh, query,
}
use slurm_operator.NodeSetSync.Cordon.Calls.{MayUndrain, MayUndrain-later, Reread, SafeCall}

module _ (env : Env) where
  abbrev pub Safe : Trace → Trace → Type 0
  Safe a b = Adds (SafeCall env) a b

  answered-Safe :
      {A : Type 0} (absent : A) (body : SlurmNode → M A) (r : Result SlurmNode) (t : Trace)
      → ((node : SlurmNode) → r ≡ ok node → Safe t (body node t).1)
      → Safe t (answered absent body r t).1
  answered-Safe absent body (ok node) t h = h node refl
  answered-Safe absent body (err e) t h = same

  -- A method of slurmcontrol is safe if its body is.
  with_node-Safe :
      {A : Type 0} (absent : A) (pod : Pod) (body : SlurmNode → M A) (tr : Trace)
      → ((node : SlurmNode)
          → env.get_slurm_node tr (get_slurm_node_name pod) ≡ ok node
          → Safe
              (slurm_get_node (get_slurm_node_name pod) ∷ tr)
              (body node (slurm_get_node (get_slurm_node_name pod) ∷ tr)).1)
      → Safe tr (with_node env absent pod body tr).1
  unfolding with_node SafeCall
  with_node-Safe absent pod body tr h =
      Adds-if (SafeCall env) (env.has_slurm_client tr) _ _ tr
        (λ e. Adds-trans (add same tt) (answered-Safe absent body _ _ h)) (λ e. same)

  pub is_node_drain-Safe : (pod : Pod) (tr : Trace) → Safe tr (is_node_drain env pod tr).1
  unfolding is_node_drain
  is_node_drain-Safe pod tr = with_node-Safe true pod _ tr (λ node e. same)

  pub is_node_drained-Safe : (pod : Pod) (tr : Trace) → Safe tr (is_node_drained env pod tr).1
  unfolding is_node_drained
  is_node_drained-Safe pod tr = with_node-Safe true pod _ tr (λ node e. same)

  pub is_node_down-Safe :
      (pod : Pod) (tr : Trace) → Safe tr (is_node_down_for_unresponsive env pod tr).1
  unfolding is_node_down_for_unresponsive
  is_node_down-Safe pod tr = with_node-Safe true pod _ tr (λ node e. same)

  pub is_node_reason_ours-Safe :
      (pod : Pod) (tr : Trace) → Safe tr (is_node_reason_ours env pod tr).1
  unfolding is_node_reason_ours
  is_node_reason_ours-Safe pod tr = with_node-Safe true pod _ tr (λ node e. same)

  pub make_node_drain-Safe :
      (pod : Pod) (reason : String) (tr : Trace) → Safe tr (make_node_drain env pod reason tr).1
  unfolding make_node_drain send_update SafeCall
  make_node_drain-Safe pod reason tr = with_node-Safe tt pod _ tr λ node got.
      elim (Bool-cases (already_drained node reason)) [
        | inl e ↦ rw e same
        | inr e ↦ rw e (sent node)
      ]
    where
      sent :
          (node : SlurmNode)
          → Safe (slurm_get_node (get_slurm_node_name pod) ∷ tr) (
              slurm_update_node node (drain_msg reason)
              ∷ slurm_get_node (get_slurm_node_name pod)
              ∷ tr)
      sent node = add same (λ h. absurd (cc))

  -- The undrain of the node of a pod, where it may be asked for that pod before it was read again.
  pub make_node_undrain-Safe :
      (pod now : Pod) (reason : String) (tr : Trace)
      → Reread env pod now
      → MayUndrain env pod tr
      → Safe tr (make_node_undrain env now reason tr).1
  unfolding make_node_undrain send_update SafeCall
  make_node_undrain-Safe pod now reason tr reread may = with_node-Safe tt now _ tr λ node got.
      elim (Bool-cases (already_undrained node)) [
        | inl e ↦ rw e same
        | inr e ↦ rw e (sent node got)
      ]
    where
      sent :
          (node : SlurmNode)
          → env.get_slurm_node tr (get_slurm_node_name now) ≡ ok node
          → Safe (slurm_get_node (get_slurm_node_name now) ∷ tr) (
              slurm_update_node node (undrain_msg reason)
              ∷ slurm_get_node (get_slurm_node_name now)
              ∷ tr)
      sent node got = add same λ h. (
        pod,
        MayUndrain-later may (add same tt),
        record { now = now; reread = reread; before = tr; answer = got; just = refl },
      )

  make_pod_cordon-Safe : (pod : Pod) (tr : Trace) → Safe tr (make_pod_cordon env pod tr).1
  unfolding make_pod_cordon SafeCall
  make_pod_cordon-Safe pod tr = elim (Bool-cases (is_pod_cordon pod)) [
    | inl e ↦ rw e same
    | inr e ↦ rw e (
        Makes-bind (SafeCall env) (patch_to env _ pod) (λ _. refresh env pod) tr (add same tt)
          (λ a h. add same tt))
  ]

  make_pod_uncordon-Safe : (pod : Pod) (tr : Trace) → Safe tr (make_pod_uncordon env pod tr).1
  unfolding make_pod_uncordon SafeCall
  make_pod_uncordon-Safe pod tr = elim (Bool-cases (is_pod_cordon pod)) [
    | inr e ↦ rw e same
    | inl e ↦ rw e (
        Makes-bind (SafeCall env) (patch_to env _ pod) (λ _. refresh env pod) tr (add same tt)
          (λ a h. add same tt))
  ]

  drain_unless-Safe :
      (pod : Pod) (message : String) (b : Bool) (tr : Trace)
      → Safe tr (drain_unless env pod message b tr).1
  unfolding drain_unless
  drain_unless-Safe pod message true tr = same
  drain_unless-Safe pod message false tr = make_node_drain-Safe pod _ tr

  sync_slurm_node_drain-Safe :
      (pod : Pod) (message : String) (tr : Trace)
      → Safe tr (sync_slurm_node_drain env pod message tr).1
  unfolding sync_slurm_node_drain
  sync_slurm_node_drain-Safe pod message tr =
      Makes-bind (SafeCall env) (is_node_drain env pod) (drain_unless env pod message) tr
        (is_node_drain-Safe pod tr) (λ is_drain e. drain_unless-Safe pod message is_drain _)

  pub make_pod_cordon_and_drain-Safe :
      (pod : Pod) (reason : String) (tr : Trace)
      → Safe tr (make_pod_cordon_and_drain env pod reason tr).1
  unfolding make_pod_cordon_and_drain
  make_pod_cordon_and_drain-Safe pod reason tr =
      Makes-bind (SafeCall env) (make_pod_cordon env pod) (λ p. sync_slurm_node_drain env p reason)
        tr (make_pod_cordon-Safe pod tr) λ pod' e. sync_slurm_node_drain-Safe pod' reason _

  patched-Reread :
      (pod new pod' : Pod) (tr : Trace)
      → ((patch_to env new pod >> refresh env pod) tr).0 ≡ ok pod'
      → Reread env pod pod'
  patched-Reread pod new pod' tr h = go (env.patch tr new pod) h
    where
      go :
          (e : Option Error)
          → ((query (patch_pod new pod) (λ t. as_result e) >> refresh env pod) tr).0 ≡ ok pod'
          → Reread env pod pod'
      go none k = inr (_, k)
      go (some e) k = absurd (cc)

  make_pod_uncordon-Reread :
      (pod pod' : Pod) (tr : Trace)
      → (make_pod_uncordon env pod tr).0 ≡ ok pod'
      → Reread env pod pod'
  unfolding make_pod_uncordon
  make_pod_uncordon-Reread pod pod' tr h = elim (Bool-cases (is_pod_cordon pod)) [
    | inr e ↦
        let unchanged : (make_pod_uncordon env pod tr).0 ≡ ok pod =
          rw (make_pod_uncordon, e) refl in
        inl (sym (ok-inj (sym unchanged ∙ h)))
    | inl e ↦
        let new = record pod { annotations = remove pod_cordon pod.annotations } in
        let patched : (make_pod_uncordon env pod tr).0
            ≡ ((patch_to env new pod >> refresh env pod) tr).0 =
          rw (make_pod_uncordon, e) refl in
        patched-Reread pod new pod' tr (sym patched ∙ h)
  ]

  module _ (pod now : Pod) (reread : Reread env pod now) where
    undrain_if-Safe :
        (message : String) (b : Bool) (tr : Trace)
        → MayUndrain env pod tr
        → Safe tr (undrain_if env now message b tr).1
    unfolding undrain_if
    undrain_if-Safe message false tr may = same
    undrain_if-Safe message true tr may = make_node_undrain-Safe pod now _ tr reread may

    sync_slurm_node_undrain-Safe :
        (message : String) (tr : Trace)
        → MayUndrain env pod tr
        → Safe tr (sync_slurm_node_undrain env now message tr).1
    unfolding sync_slurm_node_undrain
    sync_slurm_node_undrain-Safe message tr may =
        Makes-bind (SafeCall env) (is_node_drain env now) (undrain_if env now message) tr
          (is_node_drain-Safe now tr)
          λ is_drain e.
            undrain_if-Safe message is_drain _
              (MayUndrain-later may (Adds-Extends (is_node_drain-Safe now tr)))

  pub make_pod_uncordon_and_undrain-Safe :
      (pod : Pod) (reason : String) (tr : Trace)
      → MayUndrain env pod tr
      → Safe tr (make_pod_uncordon_and_undrain env pod reason tr).1
  unfolding make_pod_uncordon_and_undrain
  make_pod_uncordon_and_undrain-Safe pod reason tr may =
      Makes-bind (SafeCall env) (make_pod_uncordon env pod)
        (λ p. sync_slurm_node_undrain env p reason) tr (make_pod_uncordon-Safe pod tr)
        λ pod' e.
          sync_slurm_node_undrain-Safe pod pod' (make_pod_uncordon-Reread pod pod' tr e) reason _
            (MayUndrain-later may (Adds-Extends (make_pod_uncordon-Safe pod tr)))

  uncordon_if_ours-Safe :
      (pod : Pod) (b : Bool) (tr : Trace)
      → (b ≡ true → MayUndrain env pod tr)
      → Safe tr (uncordon_if_ours env pod b tr).1
  unfolding uncordon_if_ours
  uncordon_if_ours-Safe pod false tr may = same
  uncordon_if_ours-Safe pod true tr may = make_pod_uncordon_and_undrain-Safe pod "" tr (may refl)

  -- What the two reads that come before an undrain establish.
  pub checked :
      (pod : Pod) (at_node at_reason : Trace) (b : Bool)
      → node_is_cordoned (env.read_node at_node pod.node_name) ≡ false
      → (is_node_reason_ours env pod at_reason).0 ≡ ok b
      → Extends at_node at_reason
      → b ≡ true
      → MayUndrain env pod (is_node_reason_ours env pod at_reason).1
  checked pod at_node at_reason b free h first e = record {
    at_node = at_node;
    at_reason = at_reason;
    not_cordoned = free;
    ours = subst (λ x. (is_node_reason_ours env pod at_reason).0 ≡ ok x) e h;
    first = first;
    later = Adds-Extends (is_node_reason_ours-Safe pod at_reason);
  }

  pub sync_pod_uncordon-Safe : (pod : Pod) (tr : Trace) → Safe tr (sync_pod_uncordon env pod tr).1
  unfolding sync_pod_uncordon is_node_cordoned SafeCall
  sync_pod_uncordon-Safe pod tr =
      Adds-if (SafeCall env) (node_is_cordoned (env.read_node tr pod.node_name)) _ _ tr
        (λ e. add same tt)
        (λ e. Adds-trans (add same tt) (
          Makes-bind (SafeCall env) (is_node_reason_ours env pod) (uncordon_if_ours env pod)
            (get_node pod.node_name ∷ tr) (is_node_reason_ours-Safe pod _)
            (λ b h. uncordon_if_ours-Safe pod b _ (checked pod tr _ b e h (add same tt)))))
