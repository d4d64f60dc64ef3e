-- ===== src/Daemon/Surplus.antt =====
-- A node that runs a pod of the NodeSet keeps one of the running ones.
use mathlib.Core.List.{Perm}
use slurm_operator.Prelude.{
  Bool, true, not, ◌&&◌, ◌||◌, ◌≡◌, refl, ap, inl, inr, List, [], ◌∷◌, keep, All, Bool-cases,
}
use slurm_operator.Api.{Pod}
use slurm_operator.PodUtils.{is_failed, is_succeeded, is_terminating}
use slurm_operator.Daemon.{Backoff, Sorted, triage}

-- A pod that is not terminating and has not ended.
abbrev pub is_live : Pod → Bool
is_live pod = not (is_terminating pod) && (not (is_failed pod) && not (is_succeeded pod))

abbrev pub has_ended : Pod → Bool
has_ended pod = not (is_terminating pod) && (is_failed pod || is_succeeded pod)

-- The second list is the first without some failed pods, each left out where the backoff held.
pub data Picked {W : Type 0} (backoff : Backoff W) : List Pod → List Pod → Type 0 where
  no_more : Picked backoff [] []
  picks :
      {pod : Pod} {all some_of : List Pod}
      → Picked backoff all some_of
      → Picked backoff (pod ∷ all) (pod ∷ some_of)
  waits :
      {pod : Pod} {all some_of : List Pod} (w : W)
      → is_failed pod ≡ true
      → backoff.in_backoff w ≡ true
      → Picked backoff all some_of
      → Picked backoff (pod ∷ all) some_of

module _ {W : Type 0} (backoff : Backoff W) (sort : List Pod → List Pod)
    (permutes : (pods : List Pod) → Perm (sort pods) pods) where
  abbrev pub Triaged : List Pod → Sorted W → Type 0
  Triaged pods r = (r.0.1 ≡ keep is_live pods) × Picked backoff (keep has_ended pods) r.0.0

  pub triage-Triaged : (pods : List Pod) (w : W) → Triaged pods (triage backoff sort pods w)
  unfolding triage
  triage-Triaged [] w = (refl, no_more)
  triage-Triaged (pod ∷ pods) w = elim (Bool-cases (is_terminating pod)) [
    | inl e ↦ rw e (triage-Triaged pods w)
    | inr e ↦ elim (Bool-cases (is_failed pod)) [
      | inl f ↦ elim (Bool-cases (backoff.in_backoff w)) [
        | inl g ↦
            let (live, ended) = triage-Triaged pods (backoff.enqueue_after w) in
            rw (e, f, g) (live, waits w f g ended)
        | inr g ↦
            let (live, ended) = triage-Triaged pods (backoff.next w) in
            rw (e, f, g) (live, picks ended)
      ]
      | inr f ↦ elim (Bool-cases (is_succeeded pod)) [
        | inl g ↦ let (live, ended) = triage-Triaged pods w in rw (e, f, g) (live, picks ended)
        | inr g ↦
            let (live, ended) = triage-Triaged pods w in rw (e, f, g) (ap (◌∷◌ pod) live, ended)
      ]
    ]
  ]

  ended-All : (pods : List Pod) → All (λ p. has_ended p ≡ true) (keep has_ended pods)
  ended-All [] = tt
  ended-All (pod ∷ pods) = elim (Bool-cases (has_ended pod)) [
    | inl e ↦ rw e (e, ended-All pods)
    | inr e ↦ rw e (ended-All pods)
  ]

  Picked-All :
      (P : Pod → Type 0) (all some_of : List Pod)
      → Picked backoff all some_of
      → All P all
      → All P some_of
  Picked-All P _ _ no_more h = tt
  Picked-All P _ _ (picks {all = all} {some_of = some_of} rest) h =
      (h.0, Picked-All P all some_of rest h.1)
  Picked-All P _ _ (waits {all = all} {some_of = some_of} w failed held rest) h =
      Picked-All P all some_of rest h.1

  -- What is deleted of the pods that are not live has ended.
  pub triage-ended :
      (pods : List Pod) (w : W) → All (λ p. has_ended p ≡ true) (triage backoff sort pods w).0.0
  triage-ended pods w = Picked-All _ _ _ (triage-Triaged pods w).1 (ended-All pods)

  -- The first of the sorted ones, if there is one.
  abbrev first_of : List Pod → List Pod
  first_of [] = []
  first_of (pod ∷ pods) = pod ∷ []
