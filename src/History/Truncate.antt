-- ===== src/History/Truncate.antt =====
-- `truncateHistory` deletes the oldest revisions that are not live, up to the limit.
use slurm_operator.Prelude.{
  ℕ, zero, suc, ◌-◌, min, String, Bool, true, false, not, ◌||◌, ap, str_eq, ◌≡◌, refl, sym, ◌∙◌,
  inl, inr, List, [], ◌∷◌, ◌++◌, append_assoc, append-nil, Option, none, some, map, keep, length,
  take, drop, take-append-drop, length-drop, All, leb, leb→le, has_str, Bool-cases, arith,
}
use slurm_operator.Api.{ok, Pod}
use slurm_operator.Steps.{Step, run, Retrier, then-ok}
use slurm_operator.History.{get_revision, Revision, Client}
use slurm_operator.History.Revisions.{live_names, to_delete, delete_revisions, truncate_history}

abbrev pub is_named : Option Revision → String → Bool
is_named none name = false
is_named (some r) name = str_eq r.name name

abbrev pub some_pod_has : List Pod → String → Bool
some_pod_has [] name = false
some_pod_has (pod ∷ pods) name = str_eq (get_revision pod.labels) name || some_pod_has pods name

-- The current or the update revision, or one whose name is the hash label of a pod.
abbrev pub is_live : Option Revision → Option Revision → List Pod → Revision → Bool
is_live current update pods r =
    is_named current r.name || (is_named update r.name || some_pod_has pods r.name)

keep-same :
    (p q : Revision → Bool) (rs : List Revision)
    → ((r : Revision) → p r ≡ q r)
    → keep p rs ≡ keep q rs
keep-same p q [] h = refl
keep-same p q (r ∷ rs) h = elim (Bool-cases (q r)) [
  | inl e ↦ rw (h r, e) (ap (◌∷◌ r) (keep-same p q rs h))
  | inr e ↦ rw (h r, e) (keep-same p q rs h)
]

pods_named :
    (pods : List Pod) (name : String)
    → has_str name (map (λ pod. get_revision pod.labels) pods) ≡ some_pod_has pods name
pods_named [] name = refl
pods_named (pod ∷ pods) name =
    ap (λ b. str_eq (get_revision pod.labels) name || b) (pods_named pods name)

-- A client that deletes without faults, with a log of what was deleted.
pub record Deletes {W : Type 0} (client : Client W) (log : W → List Revision) : Type 0 where
  pub accepts : (r : Revision) (w : W) → (client.delete r w).0 ≡ none
  pub logs : (r : Revision) (w : W) → log (client.delete r w).1 ≡ log w ++ r ∷ []

keep-All : (p : Revision → Bool) (rs : List Revision) → All (λ r. p r ≡ true) (keep p rs)
keep-All p [] = tt
keep-All p (r ∷ rs) = elim (Bool-cases (p r)) [
  | inl e ↦ rw e (e, keep-All p rs)
  | inr e ↦ rw e (keep-All p rs)
]

take-All : (P : Revision → Type 0) (n : ℕ) (rs : List Revision) → All P rs → All P (take n rs)
take-All P zero rs h = tt
take-All P (suc n) [] h = tt
take-All P (suc n) (r ∷ rs) h = (h.0, take-All P n rs h.1)

module _ {W : Type 0} (client : Client W) (retrier : Retrier) (log : W → List Revision)
    (deletes : Deletes client log) where
  abbrev is_dead : List String → Revision → Bool
  is_dead live r = not (has_str r.name live)

  delete_revisions_lem :
      (rs : List Revision) (w : W)
      → (w' : W) × (delete_revisions client retrier rs w ≡ (ok tt, w')) × (log w' ≡ log w ++ rs)
  unfolding delete_revisions
  delete_revisions_lem [] w = (w, refl, sym (append-nil (log w)))
  delete_revisions_lem (r ∷ rs) w =
      let v = (client.delete r w).1 in
      let (w', ended, logged) = delete_revisions_lem rs v in
      let gone : run (client.delete r) w ≡ (ok tt, v) = rw (deletes.accepts r w) refl in
      (
        w',
        then-ok (run (client.delete r)) (λ a. delete_revisions client retrier rs) w v tt gone
            ∙ ended,
        logged ∙ rw (deletes.logs r w) (append_assoc (log w) (r ∷ []) rs),
      )

  split :
      (limit : ℕ) (live : List String) (revisions : List Revision)
      → (kept : List Revision) × (to_delete client retrier limit live revisions ++ kept
          ≡ keep (is_dead live) revisions)
        × (length kept ≡ min limit (length (keep (is_dead live) revisions)))
        × All (λ r. is_dead live r ≡ true) (to_delete client retrier limit live revisions)
  unfolding to_delete
  split limit live revisions =
      let history = keep (is_dead live) revisions in
      let all = keep-All (is_dead live) revisions in
      let n = length history - limit in
      elim (Bool-cases (leb (length history) limit)) [
        | inl e ↦
            let few = leb→le (length history) limit e in
            (history, rw e refl, omega (arith, few), rw e tt)
        | inr e ↦ (
          drop n history,
          rw e (take-append-drop n history),
          length-drop n history ∙ ground (arith, e),
          rw e (take-All _ n history all),
        )
      ]

  live_names_lem :
      (current update : Option Revision) (pods : List Pod) (r : Revision)
      → has_str r.name (live_names client retrier current update pods)
        ≡ is_live current update pods r
  live_names_lem none none pods r = pods_named pods r.name
  live_names_lem none (some u) pods r = ap (λ b. str_eq u.name r.name || b) (pods_named pods r.name)
  live_names_lem (some c) none pods r = ap (λ b. str_eq c.name r.name || b) (pods_named pods r.name)
  live_names_lem (some c) (some u) pods r =
      ap (λ b. str_eq c.name r.name || (str_eq u.name r.name || b)) (pods_named pods r.name)

  -- With a client that deletes without faults and the pods listed, `truncateHistory` succeeds: of
  -- the revisions that are not live, in the order given, it deletes the first ones, so that as many
  -- are kept as the limit says or there are; and it deletes nothing else. Live are the current and the
  -- update revision, and those whose name is the hash label of a pod.
  pub truncate_history_lem :
      (get_pods : Step W (List Pod)) (limit : ℕ) (revisions : List Revision)
      (current update : Option Revision) (w : W) (pods : List Pod)
      → get_pods w ≡ (ok pods, w)
      → let dead : Revision → Bool = λ r. not (is_live current update pods r) in
        (w' : W) × (gone : List Revision) × (kept : List Revision) × (truncate_history client
            retrier get_pods limit revisions current update w
          ≡ (ok tt, w'))
        × (log w' ≡ log w ++ gone)
        × (gone ++ kept ≡ keep dead revisions)
        × (length kept ≡ min limit (length (keep dead revisions)))
  unfolding truncate_history
  truncate_history_lem get_pods limit revisions current update w pods listed =
      let live = live_names client retrier current update pods in
      let gone = to_delete client retrier limit live revisions in
      let (kept, joined, long, dead) = split limit live revisions in
      let (w', ended, logged) = delete_revisions_lem gone w in
      let same =
        keep-same (is_dead live) (λ r. not (is_live current update pods r)) revisions
          (λ r. ap not (live_names_lem current update pods r)) in
      (
        w',
        gone,
        kept,
        then-ok get_pods
              (λ ps. delete_revisions client retrier (
                to_delete client retrier limit (live_names client retrier current update ps)
                  revisions))
              w w pods listed
            ∙ ended,
        logged,
        joined ∙ same,
        long ∙ ap (λ l. min limit (length l)) same,
      )
