-- ===== src/History/Retry.antt =====
-- The writes of ControllerRevisions that are retried on conflicts: what they leave.
use slurm_operator.Prelude.{
  ℕ, ◌==◌, String, ◌≡◌, refl, subst, inl, inr, Option, none, some, Bool-cases, ==_iff,
}
use slurm_operator.Api.{Error, Result, ok, err}
use slurm_operator.Claims.{Owner}
use slurm_operator.Steps.{Step, ok-inj, Retried, last, again, Retrier}
use slurm_operator.History.{
  Revision, Client, controller_of, owner_ref, write, read_again, try_update, with_clone,
  update_controller_revision,
}

-- What holds of the clone when an attempt ends without an error.
abbrev Leaves : {W : Type 0} → (Revision → Type 0) → Result (Unit {0}) × (Revision × W) → Type 0
Leaves P (ok u, (clone, w)) = P clone
Leaves P (err e, s) = Unit

-- A property of each attempt is one of the last.
retried-Leaves :
    {W : Type 0} (P : Revision → Type 0) (fn : Step (Revision × W) (Unit {0})) (s : Revision × W)
    (r : Result (Unit {0}) × (Revision × W))
    → ((t : Revision × W) → Leaves P (fn t))
    → Retried fn s r
    → Leaves P r
retried-Leaves P fn _ _ h (last s) = h s
retried-Leaves P fn _ _ h (again s r e rest) = retried-Leaves P fn _ r h rest

with_clone-Leaves :
    {W : Type 0} (client : Client W) (P : Revision → Type 0)
    (r : Result (Unit {0}) × (Revision × W)) (clone : Revision)
    → Leaves P r
    → (with_clone r).0 ≡ ok clone
    → P clone
with_clone-Leaves client P (ok u, (c, w)) clone h e = subst P (ok-inj e) h
with_clone-Leaves client P (err f, s) clone h e = absurd (cc)

write-Leaves :
    {W : Type 0} (client : Client W) (P : Revision → Type 0) (name : String) (clone : Revision)
    (r : Option Error × W)
    → P clone
    → Leaves P (write client name clone r)
write-Leaves client P name clone (none, w) h = h
write-Leaves client P name clone (some e, w) h = go (client.get name w)
  where
    go : (r : Result Revision × _) → Leaves P (read_again client e clone r)
    go (ok got, v) = tt
    go (err f, v) = tt

-- A revision that `UpdateControllerRevision` gives without an error has the number asked for.
pub revision-update_controller_revision :
    {W : Type 0} (client : Client W) (retrier : Retrier) (r : Revision) (n : ℕ) (w : W)
    (updated : Revision)
    → (update_controller_revision client retrier r n w).0 ≡ ok updated
    → updated.revision ≡ n
unfolding update_controller_revision
revision-update_controller_revision client retrier r n w updated e =
    with_clone-Leaves client (λ c. c.revision ≡ n) _ updated
      (retried-Leaves (λ c. c.revision ≡ n) (try_update client r.name n) (r, w) _ each
        (retrier.retries (try_update client r.name n) (r, w)))
      e
  where
    each : (t : Revision × _) → Leaves (λ c. c.revision ≡ n) (try_update client r.name n t)
    each (c, v) = elim (Bool-cases (c.revision == n)) [
      | inl f ↦ rw f ((==_iff c.revision n).0 f)
      | inr f ↦
          rw f (write-Leaves client (λ d. d.revision ≡ n) r.name (record c { revision = n }) _ refl)
    ]

abbrev Controls : Owner → Revision → Type 0
Controls parent c = controller_of c.owner_references ≡ some (owner_ref parent)
