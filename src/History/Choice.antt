-- ===== src/History/Choice.antt =====
-- The update revision that `getNodeSetRevisions` gives restores the NodeSet as it is.
use slurm_operator.Prelude.{
  ℕ, suc, String, true, ◌==◌, ◌≡◌, ◌≢◌, refl, sym, subst, ap, ◌∙◌, inl, inr, List, [], ◌∷◌, Option,
  none, some, length, All, has_str, Bool-cases, either_way,
}
use slurm_operator.Api.{Error, already_exists, Result, ok, err}
use slurm_operator.Claims.{Owner}
use slurm_operator.Steps.{ok-inj, Retried, last, again, Retrier, Gives, Gives-intro, Gives-elim}
use slurm_operator.History.{
  Revision, Client, try_update, write, read_again, with_clone, update_controller_revision,
}
use slurm_operator.History.Create.{NoDup, names, create_controller_revision_lem}
use slurm_operator.History.Revisions.{
  Api, newest, find_named, reuse, find_or_create, with_current, next_revision,
  get_node_set_revisions,
}

-- What the code relies on of k8s.io/kubernetes and of the immutable data of revisions: `content` is
-- the data that a name has.
pub record Contract {W : Type 0} (client : Client W) (api : Api) (content : String → String)
    : Type 0 where
  pub equal-raw : (a b : Revision) → api.equal a b ≡ true → a.raw ≡ b.raw
  pub found-equal :
      (rs : List Revision) (new : Revision) → All (λ r. r.raw ≡ new.raw) (api.find_equal rs new)
  pub found-nil : (new : Revision) → api.find_equal [] new ≡ []
  pub immutable :
      (n : String) (w : W) (r : Revision) → (client.get n w).0 ≡ ok r → r.raw ≡ content n

newest-All :
    (P : Revision → Type 0) (rs : List Revision) (r : Revision)
    → All P rs
    → newest rs ≡ some r
    → P r
newest-All P [] r h e = absurd (cc)
newest-All P (a ∷ []) r h e = subst P (some-inj e) h.0
  where
    some-inj : {a b : Revision} → some a ≡ some b → a ≡ b
    some-inj p = cc p
newest-All P (a ∷ b ∷ rs) r h e = newest-All P (b ∷ rs) r h.1 e

abbrev outcome : {W : Type 0} → Result Revision → ℕ → W → Option (Result Revision × ℕ × W)
outcome r c w = some (r, c, w)

newest_some : (a : Revision) (rs : List Revision) → newest (a ∷ rs) ≢ none
newest_some a [] p = absurd (cc)
newest_some a (b ∷ rs) p = newest_some b rs p

result-inj :
    {W : Type 0} {r s : Result Revision} {c d : ℕ} {v w : W} → outcome r c v ≡ outcome s d w → r ≡ s
result-inj p = cc p

module _ {W : Type 0} (client : Client W) (retrier : Retrier) (api : Api)
    (content : String → String) (contract : Contract client api content) where
  fetched-raw :
      (name : String) (e : Error) (d : Revision) (w : W) (a : Result Revision × W)
      → client.get name w ≡ a
      → d.raw ≡ content name
      → (read_again client e d a).1.0.raw ≡ content name
  fetched-raw name e d w (ok g, v) p k = contract.immutable name w g (ap (λ x. x.0) p)
  fetched-raw name e d w (err f, v) p k = k

  write-raw :
      (name : String) (d : Revision) (a : Option Error × W)
      → d.raw ≡ content name
      → (write client name d a).1.0.raw ≡ content name
  write-raw name d (none, w) k = k
  write-raw name d (some e, w) k = fetched-raw name e d w (client.get name w) refl k

  try_update-raw :
      (name : String) (n : ℕ) (c : Revision) (w : W)
      → c.raw ≡ content name
      → (try_update client name n (c, w)).1.0.raw ≡ content name
  try_update-raw name n c w k =
      let next = record c { revision = n } in
      either_way (λ (a : Result (Unit {0}) × (Revision × W)). a.1.0.raw ≡ content name)
        (c.revision == n) _ _ k (write-raw name next (client.update next w) k)

  -- Whatever the attempts end in, the clone keeps the data of its name.
  Retried-raw :
      (name : String) (n : ℕ) (s : Revision × W) (r : Result (Unit {0}) × (Revision × W))
      → s.0.raw ≡ content name
      → Retried (try_update client name n) s r
      → r.1.0.raw ≡ content name
  Retried-raw name n _ _ h (last (c, w)) = try_update-raw name n c w h
  Retried-raw name n _ r h (again (c, w) _ e rest) =
      Retried-raw name n _ r (try_update-raw name n c w h) rest

  with_clone-raw :
      (raw : String) (a : Result (Unit {0}) × (Revision × W)) (r : Revision)
      → a.1.0.raw ≡ raw
      → (with_clone a).0 ≡ ok r
      → r.raw ≡ raw
  with_clone-raw raw (ok u, (c, w)) r h e = sym (ap Revision.raw (ok-inj e)) ∙ h
  with_clone-raw raw (err f, (c, w)) r h e = absurd (cc)

  update_controller_revision-raw :
      (found : Revision) (n : ℕ) (w : W) (r : Revision)
      → found.raw ≡ content found.name
      → (update_controller_revision client retrier found n w).0 ≡ ok r
      → r.raw ≡ found.raw
  unfolding update_controller_revision
  update_controller_revision-raw found n w r h e =
      with_clone-raw (content found.name) _ r
        (Retried-raw found.name n (found, w) _ h
          (retrier.retries (try_update client found.name n) (found, w)))
        e
      ∙ sym h

  module _ (parent : Owner) (namespace : String) (new : Revision) (taken : List String)
      (covers : (c : Revision) (w : W)
        → (client.create c w).0 ≡ some already_exists
        → has_str c.name taken ≡ true) where
    abbrev fuel : ℕ
    fuel = suc (length taken)

    -- A result, which without an error is a revision with the data of the new one.
    abbrev Restores : Option (Result Revision × ℕ × W) → Type 0
    Restores o =
        (r : Result Revision) × (c : ℕ) × (w : W) × (o ≡ some (r, c, w))
        × Gives (λ (update : Revision). update.raw ≡ new.raw) r

    reuse-Restores :
        (top : Option Revision) (found : Revision) (count : ℕ) (w : W)
        → top ≢ none
        → found.raw ≡ new.raw
        → found.raw ≡ content found.name
        → Restores (reuse client retrier api fuel parent namespace new top found count w)
    reuse-Restores none found count w there same named = absurd (there refl)
    reuse-Restores (some top) found count w there same named =
        elim (Bool-cases (api.equal top found)) [
          | inl e ↦ (ok top, count, w, rw e refl, contract.equal-raw top found e ∙ same)
          | inr e ↦
              let a = update_controller_revision client retrier found new.revision w in
              (
                a.0,
                count,
                a.1,
                rw e refl,
                Gives-intro (λ (u : Revision). u.raw ≡ new.raw) a.0
                    (λ u f. update_controller_revision-raw found new.revision w u named f ∙ same),
              )
        ]

    find_or_create-Restores :
        (sorted : List Revision) (count : ℕ) (w : W) (f : Option Revision)
        → newest (api.find_equal sorted new) ≡ f
        → All (λ r. r.raw ≡ content r.name) (api.find_equal sorted new)
        → NoDup (names api.revision_name api.hash parent new fuel count)
        → Restores (find_or_create client retrier api fuel parent namespace new sorted f count w)
    find_or_create-Restores sorted count w none e listed distinct =
        create_controller_revision_lem client api.revision_name api.hash parent namespace new count
          w taken covers distinct
    find_or_create-Restores sorted count w (some found) e listed distinct =
        let all = api.find_equal sorted new in
        let same =
          newest-All (λ r. r.raw ≡ new.raw) all found (contract.found-equal sorted new) e in
        let named = newest-All (λ r. r.raw ≡ content r.name) all found listed e in
        reuse-Restores (newest sorted) found count w (nonempty sorted e) same named
      where
        nonempty :
            (rs : List Revision) → newest (api.find_equal rs new) ≡ some found → newest rs ≢ none
        nonempty [] e p = absurd (cc (e, contract.found-nil new))
        nonempty (a ∷ rs) e p = newest_some a rs p

    -- A result, which without an error is two revisions of which the second has the data of the new
    -- one.
    abbrev RestoresBoth : Option (Result (Revision × Revision) × ℕ × W) → Type 0
    RestoresBoth o =
        (r : Result (Revision × Revision)) × (c : ℕ) × (w : W) × (o ≡ some (r, c, w))
        × Gives (λ (both : Revision × Revision). both.1.raw ≡ new.raw) r

    with_current-RestoresBoth :
        (node_set_hash : String) (sorted : List Revision) (o : Option (Result Revision × ℕ × W))
        → Restores o
        → RestoresBoth
            (with_current client retrier api fuel parent namespace node_set_hash sorted o)
    with_current-RestoresBoth node_set_hash sorted none (r, c, w, e, h) = absurd (cc)
    with_current-RestoresBoth node_set_hash sorted (some (err x, c, w)) h = (err x, c, w, refl, tt)
    with_current-RestoresBoth node_set_hash sorted (some (ok u, c, w)) (r, c', w', e, h) = (
      ok (elim (find_named node_set_hash sorted) as (λ x. Revision) [ none ↦ u | some d ↦ d ], u),
      c,
      w,
      refl,
      Gives-elim (λ (d : Revision). d.raw ≡ new.raw) r u h (sym (result-inj e)),
    )

    -- Where the new revision of a NodeSet could be made, few names are taken, and their counts give
    -- names that differ, `getNodeSetRevisions` ends with a result; and without an error its update
    -- revision has the data of the new one, be it the newest revision, an older one that is rolled
    -- back to, one that is created or one that was there.
    pub get_node_set_revisions_lem :
        (new_revision : ℕ → ℕ → Result Revision) (node_set_hash : String) (count : ℕ)
        (revisions : List Revision) (w : W)
        → new_revision (next_revision (api.sort revisions)) count ≡ ok new
        → All (λ r. r.raw ≡ content r.name) (api.find_equal (api.sort revisions) new)
        → NoDup (names api.revision_name api.hash parent new fuel count)
        → RestoresBoth (
            get_node_set_revisions client retrier api fuel parent namespace new_revision
              node_set_hash
              (some count)
              revisions
              w)
    unfolding get_node_set_revisions
    get_node_set_revisions_lem new_revision node_set_hash count revisions w made listed distinct =
        let sorted = api.sort revisions in
        rw made (
          with_current-RestoresBoth node_set_hash sorted _
            (find_or_create-Restores sorted count w _ refl listed distinct))
