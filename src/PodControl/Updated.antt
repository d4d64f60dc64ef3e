-- ===== src/PodControl/Updated.antt =====
-- A pod that `UpdateNodeSetPod` is done with has the identity and the storage of its NodeSet.
use slurm_operator.Prelude.{
  ℕ, ◌≤◌, String, Bool, true, false, ◌≡◌, refl, sym, subst, ap, ◌∙◌, ◌&&◌, ◌⊎◌, inl, inr, Option,
  none, some, arith, Bool-cases, List-cases,
}
use slurm_operator.Prelude.Int.{pos, ltb_ℤ}
use slurm_operator.Api.{Error, conflict, Result, ok, err, Pod, NodeSet}
use slurm_operator.Api.Maps.{Labels}
use slurm_operator.Api.WellKnown.{stateful_set}
use slurm_operator.Naming.{get_ordinal, get_ordinal_pod_name, is_identity_match, update_identity}
use slurm_operator.Naming.Identity.{is_identity_match-update_identity}
use slurm_operator.Naming.RoundTrip.{get_parent_name_and_ordinal-get_ordinal_pod_name}
use slurm_operator.Storage.{is_storage_match, update_storage}
use slurm_operator.Storage.Match.{Visits, is_storage_match-update_storage}
use slurm_operator.Steps.{Step, Retried, last, again, Retrier, ◌>>-◌}
use slurm_operator.PodControl.{
  Cluster, pod_pvcs_match_retention_policy, update_pod_pvcs_for_retention_policy,
  create_persistent_volume_claims,
}
use slurm_operator.PodControl.Update.{
  Attempt, fix_identity, fix_storage, fix_policy, commit, when_dirty, attempt, first, repaired,
  repair, reread, committed, update_node_set_pod,
}

-- Named after one of the ordinals of a NodeSet.
abbrev pub Numbered : NodeSet → String → Type 0
Numbered nodeset name = (n : ℕ) × (n ≤ 2147483647) × (name ≡ get_ordinal_pod_name nodeset (pos n))

abbrev pub InPlace : NodeSet → Pod → Type 0
InPlace nodeset pod = (is_identity_match nodeset pod ≡ true) × (is_storage_match nodeset pod ≡ true)

-- The last call was an update of the pod that the attempt leaves, and it was accepted.
abbrev pub Sent : {W : Type 0} → Cluster W → Attempt W → Type 0
Sent {W = W} cluster s = (w : W) × (cluster.update_pod s.pod w ≡ (none, s.world))

-- What a step makes true of what it leaves: the pod is still numbered, and `P` without an error.
abbrev Post : {W A : Type 0} → NodeSet → (A → Attempt W → Type 0) → Result A × Attempt W → Type 0
Post nodeset P (ok a, s) = Numbered nodeset s.pod.name × P a s
Post nodeset P (err e, s) = Numbered nodeset s.pod.name

bound :
    {W A B : Type 0} (nodeset : NodeSet) (P : A → Attempt W → Type 0) (Q : B → Attempt W → Type 0)
    (f : A → Step (Attempt W) B) (m : Step (Attempt W) A) (a : Attempt W)
    → Post nodeset P (m a)
    → ((x : A) (s : Attempt W) → Numbered nodeset s.pod.name → P x s → Post nodeset Q (f x s))
    → Post nodeset Q ((m >>- f) a)
bound {W = W} {A = A} {B = B} nodeset P Q f m a h k = go (m a) h
  where
    go :
        (r : Result A × Attempt W)
        → Post nodeset P r
        → Post {W = W} {A = B} nodeset Q (elim r.0 [ ok x ↦ f x r.1 | err e ↦ (err e, r.1) ])
    go (ok x, s) h = k x s h.0 h.1
    go (err e, s) h = h

abbrev Identified : NodeSet → Pod → Type 0
Identified nodeset pod = is_identity_match nodeset pod ≡ true

module _ {W : Type 0} (cluster : Cluster W) (order : Labels → Labels) (visits : Visits order)
    (nodeset : NodeSet) (mode : nodeset.scaling_mode ≡ stateful_set) where
  identity-fixed :
      (pod : Pod)
      → Numbered nodeset pod.name
      → is_identity_match nodeset (update_identity nodeset pod) ≡ true
  identity-fixed pod (n, small, named) =
      is_identity_match-update_identity nodeset pod n mode small named

  ordinal_of : (pod : Pod) → Numbered nodeset pod.name → ltb_ℤ (get_ordinal pod) (pos 0) ≡ false
  unfolding get_ordinal
  ordinal_of pod (n, small, named) =
      subst (λ i. ltb_ℤ i (pos 0) ≡ false)
        (sym (
          ap (λ r. r.1)
            (get_parent_name_and_ordinal-get_ordinal_pod_name nodeset pod n small named)))
        (ground arith)

  storage-fixed :
      (pod : Pod)
      → Numbered nodeset pod.name
      → is_storage_match nodeset (update_storage order nodeset pod) ≡ true
  storage-fixed pod numbered =
      is_storage_match-update_storage order visits nodeset pod (rw (ordinal_of pod numbered) refl)

  identity-kept :
      (pod : Pod)
      → is_identity_match nodeset (update_storage order nodeset pod) ≡ is_identity_match nodeset pod
  unfolding is_identity_match update_storage
  identity-kept pod = refl

  -- A fix that says that there was nothing to fix has left the pod.
  abbrev Fixed : Pod → (Pod → Type 0) → Bool → Attempt W → Type 0
  Fixed start P unchanged s = P s.pod × (unchanged ≡ true → s.pod ≡ start)

  fix_identity-Post :
      (a : Attempt W)
      → Numbered nodeset a.pod.name
      → Post nodeset (Fixed a.pod (Identified nodeset)) (fix_identity cluster order nodeset a)
  unfolding fix_identity
  fix_identity-Post a numbered = elim (Bool-cases (is_identity_match nodeset a.pod)) [
    | inl e ↦ rw e (numbered, (e, λ h. refl))
    | inr e ↦
        rw e
          (unfold update_identity in numbered, (identity-fixed a.pod numbered, λ h. absurd (cc h)))
  ]

  fix_storage-Post :
      (a : Attempt W)
      → Numbered nodeset a.pod.name
      → Identified nodeset a.pod
      → Post nodeset (Fixed a.pod (InPlace nodeset)) (fix_storage cluster order nodeset a)
  unfolding fix_storage
  fix_storage-Post a numbered identified =
      let pod = update_storage order nodeset a.pod in
      let name_kept : Numbered nodeset pod.name = (unfold update_storage in numbered) in
      elim (Bool-cases (is_storage_match nodeset a.pod)) [
        | inl e ↦ rw e (numbered, ((identified, e), λ h. refl))
        | inr e ↦
            elim (List-cases
              (create_persistent_volume_claims cluster order nodeset pod a.world).0) [
                | inl f ↦
                    rw (e, f)
                      (
                        name_kept,
                        (
                          (identity-kept a.pod ∙ identified, storage-fixed a.pod numbered),
                          λ h. absurd (cc h),
                        ),
                      )
                | inr (x, xs, f) ↦ rw (e, f) name_kept
              ]
      ]

  fix_policy-Post :
      (a : Attempt W)
      → Numbered nodeset a.pod.name
      → Post nodeset (λ u s. s.pod ≡ a.pod) (fix_policy cluster order nodeset a)
  unfolding fix_policy
  fix_policy-Post a numbered = go (pod_pvcs_match_retention_policy cluster nodeset a.pod a.world)
    where
      after :
          (r : Result (Unit {0}) × W)
          → Post nodeset (λ u s. s.pod ≡ a.pod) (repaired cluster order nodeset a r)
      after (ok u, w) = (numbered, refl)
      after (err e, w) = numbered

      go :
          (r : Result Bool × W)
          → Post nodeset (λ u s. s.pod ≡ a.pod) (repair cluster order nodeset a r)
      go (err e, w) = numbered
      go (ok true, w) = (numbered, refl)
      go (ok false, w) = after (update_pod_pvcs_for_retention_policy cluster nodeset a.pod w)

  -- The pod is in place, and it was sent, or it is the one that the attempt started with.
  abbrev Done : Pod → Unit {0} → Attempt W → Type 0
  Done start u s = InPlace nodeset s.pod × (Sent cluster s ⊎ (s.pod ≡ start))

  and_true : (i s p : Bool) → (i && (s && p)) ≡ true → (i ≡ true) × (s ≡ true)
  and_true i s p h = ground (arith, h)

  -- Reading a pod by its name gives a pod of that name.
  module _
      (reads : (name : String) (w : W) (pod : Pod)
        → (cluster.get_pod name w).0 ≡ ok pod
        → pod.name ≡ name) where
    commit-Post :
        (start : Pod) (a : Attempt W)
        → Numbered nodeset a.pod.name
        → InPlace nodeset a.pod
        → Post nodeset (Done start) (commit cluster order nodeset a)
    unfolding commit
    commit-Post start a numbered h = go (cluster.update_pod a.pod a.world) refl
      where
        read_again :
            (e : Error) (w : W) (r : Result Pod × W)
            → cluster.get_pod a.pod.name w ≡ r
            → Post nodeset (Done start) (reread cluster order nodeset a e r)
        read_again e w (ok pod, w') f =
            subst (Numbered nodeset) (sym (reads a.pod.name w pod (ap (λ x. x.0) f))) numbered
        read_again e w (err x, w') f = numbered

        go :
            (r : Option Error × W)
            → cluster.update_pod a.pod a.world ≡ r
            → Post nodeset (Done start) (committed cluster order nodeset a r)
        go (none, w) sent = (numbered, (h, inl (a.world, sent)))
        go (some e, w) sent = read_again e w _ refl

    when_dirty-Post :
        (start : Pod) (b : Bool) (a : Attempt W)
        → Numbered nodeset a.pod.name
        → InPlace nodeset a.pod
        → (b ≡ true → a.pod ≡ start)
        → Post nodeset (Done start) (when_dirty cluster order nodeset b a)
    when_dirty-Post start true a numbered h unchanged = (numbered, (h, inr (unchanged refl)))
    when_dirty-Post start false a numbered h unchanged = commit-Post start a numbered h

    attempt-Post :
        (a : Attempt W)
        → Numbered nodeset a.pod.name
        → Post nodeset (Done a.pod) (attempt cluster order nodeset a)
    unfolding attempt
    attempt-Post a numbered =
        bound nodeset (Fixed a.pod (Identified nodeset)) (Done a.pod) _
          (fix_identity cluster order nodeset) a (fix_identity-Post a numbered)
          (λ i b nb hb.
            bound nodeset (Fixed b.pod (InPlace nodeset)) (Done a.pod) _
              (fix_storage cluster order nodeset) b (fix_storage-Post b nb hb.0)
              (λ s c nc hc.
                bound nodeset (λ u d. d.pod ≡ c.pod) (Done a.pod) _
                  (fix_policy cluster order nodeset) c (fix_policy-Post c nc)
                  (λ p d nd hd.
                    when_dirty-Post a.pod (i && (s && p)) d nd
                      (subst (InPlace nodeset) (sym hd) hc.0)
                      (λ h.
                        let (first_true, second_true) = and_true i s p h in
                        hd ∙ hc.1 second_true ∙ hb.1 first_true))))

    still-Numbered :
        {A : Type 0} (P : A → Attempt W → Type 0) (r : Result A × Attempt W)
        → Post nodeset P r
        → Numbered nodeset r.1.pod.name
    still-Numbered P (ok a, s) h = h.0
    still-Numbered P (err e, s) h = h

    -- A pod that an attempt starts with: the one given, or what an attempt left that ended in a
    -- conflict.
    abbrev pub Started : Pod → Pod → Type 0
    Started given pod =
        (pod ≡ given)
        ⊎ ((b : Attempt W) × ((attempt cluster order nodeset b).0 ≡ err conflict)
            × ((attempt cluster order nodeset b).1.pod ≡ pod))

    abbrev pub Updated : Pod → Unit {0} → Attempt W → Type 0
    Updated given u s = InPlace nodeset s.pod × (Sent cluster s ⊎ Started given s.pod)

    Done-Updated :
        (given start : Pod) (r : Result (Unit {0}) × Attempt W)
        → Started given start
        → Post nodeset (Done start) r
        → Post nodeset (Updated given) r
    Done-Updated given start (err e, s) started h = h
    Done-Updated given start (ok u, s) started (n, (h, inl sent)) = (n, (h, inl sent))
    Done-Updated given start (ok u, s) started (n, (h, inr same)) =
        (n, (h, inr (subst (Started given) (sym same) started)))

    Retried-Post :
        (given : Pod) (a : Attempt W) (r : Result (Unit {0}) × Attempt W)
        → Retried (attempt cluster order nodeset) a r
        → Numbered nodeset a.pod.name
        → Started given a.pod
        → Post nodeset (Updated given) r
    Retried-Post given _ _ (last a) numbered started =
        Done-Updated given a.pod _ started (attempt-Post a numbered)
    Retried-Post given _ _ (again a r conflicted rest) numbered started =
        Retried-Post given _ r rest
          (still-Numbered (Done a.pod) (attempt cluster order nodeset a) (attempt-Post a numbered))
          (inr (a, conflicted, refl))

    -- Where reads by a name give a pod of that name, a pod that is named after an ordinal of a
    -- NodeSet in StatefulSet mode has the identity and the storage that the NodeSet asks for when
    -- `UpdateNodeSetPod` ends without an error, however often conflicts made it try again; and the
    -- API accepted an update of just that pod as the last call of the attempts, or the last attempt
    -- changed nothing: the pod is the one given, or what an earlier attempt that ended in a conflict
    -- left.
    pub update_node_set_pod_lem :
        (retrier : Retrier) (pod : Pod) (w : W)
        → Numbered nodeset pod.name
        → (update_node_set_pod cluster order nodeset retrier pod w).0 ≡ ok tt
        → Updated pod tt
            (retrier.retry (attempt cluster order nodeset) (first cluster order nodeset pod w)).1
    unfolding update_node_set_pod
    update_node_set_pod_lem retrier pod w numbered succeeded = go _ succeeded (
        Retried-Post pod _ _ (retrier.retries (attempt cluster order nodeset) _) numbered
          (inl refl))
      where
        go :
            (r : Result (Unit {0}) × Attempt W)
            → r.0 ≡ ok tt
            → Post nodeset (Updated pod) r
            → Updated pod tt r.1
        go (ok u, s) e h = h.1
        go (err e, s) f h = cc f
