-- ===== src/History/Create.antt =====
-- The loop of `CreateControllerRevision` ends, and what it gives holds the data asked for.
use slurm_operator.Prelude.{
  ℕ, ◌≤◌, ◌<◌, suc, zero, String, Bool, true, false, not, ◌≡◌, refl, sym, subst, ap, ◌∙◌, inl, inr,
  List, [], ◌∷◌, Option, none, some, length, keep, length-keep, count_if-le-length, All, has_str,
  str_eq, eq_iff, Bool-cases, Option-cases, arith,
}
use slurm_operator.Api.{
  Error, already_exists, text, not_found, conflict, namespace_terminating, Result, ok, err,
}
use slurm_operator.Steps.{Gives, Gives-intro}
use slurm_operator.Claims.{Owner}
use slurm_operator.History.{
  Revision, Client, Round, ends, collides, next_count, compare_found, after_creation, create_round,
  create_loop, create_controller_revision,
}

-- No text stands twice.
abbrev pub NoDup : List String → Type 0
NoDup [] = Unit
NoDup (x ∷ xs) = (has_str x xs ≡ false) × NoDup xs

abbrev pub other_than : String → String → Bool
other_than x y = not (str_eq y x)

none_left : {B : Type 0} {A : Type 0} {a : A} → some a ≡ none → B
none_left {B} p = subst (λ o. elim o as (λ x. Type 0) [ none ↦ B | some x ↦ Unit {0} ]) p tt

fewer :
    (x : String) (ts : List String)
    → has_str x ts ≡ true
    → suc (length (keep (other_than x) ts)) ≤ length ts
fewer x [] h = ground (arith, h)
fewer x (t ∷ ts) h =
    let rest = count_if-le-length (other_than x) ts in
    let kept = length-keep (other_than x) ts in
    elim (Bool-cases (str_eq t x)) [
      | inl e ↦ rw e (omega (arith, rest, kept))
      | inr e ↦ rw e (omega (arith, fewer x ts (sym (rw e refl) ∙ h)))
    ]

still_there :
    (x y : String) (ts : List String)
    → str_eq y x ≡ false
    → has_str y ts ≡ true
    → has_str y (keep (other_than x) ts) ≡ true
still_there x y [] e h = h
still_there x y (t ∷ ts) e h =
    ground (arith, h, still_there x y ts e, e, eq_iff t x, eq_iff t y, eq_iff y x)

-- Distinct texts of a list are no more than the list is long.
pigeonhole :
    (xs ts : List String) → NoDup xs → All (λ x. has_str x ts ≡ true) xs → length xs ≤ length ts
pigeonhole [] ts d h = omega arith
pigeonhole (x ∷ xs) ts d h =
    let ih = pigeonhole xs (keep (other_than x) ts) d.1 (others xs d.0 h.1) in
    omega (arith, ih, fewer x ts h.0)
  where
    others :
        (ys : List String)
        → has_str x ys ≡ false
        → All (λ y. has_str y ts ≡ true) ys
        → All (λ y. has_str y (keep (other_than x) ts) ≡ true) ys
    others [] e k = tt
    others (y ∷ ys) e k =
        let apart : str_eq y x ≡ false = ground (arith, e) in
        let rest : has_str x ys ≡ false = ground (arith, e) in
        (still_there x y ts apart k.0, others ys rest k.1)

round-inj : {W : Type 0} {a b : Revision} {v w : W} → ends (ok a) v ≡ ends (ok b) w → a ≡ b
round-inj p = cc p

abbrev got : {W : Type 0} → ℕ → W → Revision → Option (Result Revision × ℕ × W)
got c w r = some (ok r, c, w)

ok-inj : {W : Type 0} {a b : Revision} {c d : ℕ} {v w : W} → got c v a ≡ got d w b → a ≡ b
ok-inj p = cc p

-- The names that the next rounds try, by the collision count.
abbrev pub names_from : (ℕ → String) → ℕ → ℕ → List String
names_from name zero count = []
names_from name (suc n) count = name count ∷ names_from name n (next_count count)

abbrev pub names :
    (String → String → String) → (Revision → ℕ → String) → Owner → Revision → ℕ → ℕ → List String
names revision_name hash parent revision =
    names_from (λ c. revision_name parent.name (hash revision c))

module _ {W : Type 0} (client : Client W) (named : ℕ → Revision) where
  abbrev tried : ℕ → ℕ → List String
  tried = names_from (λ c. (named c).name)

  length-tried : (n count : ℕ) → length (tried n count) ≡ n
  length-tried zero count = refl
  length-tried (suc n) count = omega (arith, length-tried n (next_count count))

  -- Only names of the list are ever found taken.
  module _ (taken : List String)
      (covers : (c : Revision) (w : W)
        → (client.create c w).0 ≡ some already_exists
        → has_str c.name taken ≡ true) where
    collided-taken :
        (c : Revision) (w w' : W)
        → create_round client c w ≡ collides w'
        → has_str c.name taken ≡ true
    collided-taken c w w' e = go (client.create c w) refl e
      where
        go :
            (r : Option Error × W)
            → client.create c w ≡ r
            → after_creation client c r ≡ collides w'
            → has_str c.name taken ≡ true
        go (none, v) p e = cc e
        go (some already_exists, v) p e = covers c w (ap (λ x. x.0) p)
        go (some not_found, v) p e = cc e
        go (some conflict, v) p e = cc e
        go (some namespace_terminating, v) p e = cc e
        go (some (text s), v) p e = cc e

    -- A loop that has run out of fuel has found every name that it tried taken.
    all_taken :
        (fuel count : ℕ) (w : W)
        → create_loop client named fuel count w ≡ none
        → All (λ n. has_str n taken ≡ true) (tried fuel count)
    unfolding create_loop
    all_taken zero count w e = tt
    all_taken (suc fuel) count w e =
        go (create_round client (named count) w) refl e (all_taken fuel (next_count count))
      where
        go :
            (r : Round W)
            → create_round client (named count) w ≡ r
            → elim r as (λ x. Option (Result Revision × ℕ × W)) [
              | ends r w' ↦ some (r, count, w')
              | collides w' ↦ create_loop client named fuel (next_count count) w'
            ]
              ≡ none
            → ((w' : W)
                → create_loop client named fuel (next_count count) w' ≡ none
                → All (λ n. has_str n taken ≡ true) (tried fuel (next_count count)))
            → All (λ n. has_str n taken ≡ true) (tried (suc fuel) count)
        go (ends r w') p e ih = none_left e
        go (collides w') p e ih = (collided-taken (named count) w w' p, ih w' e)

    loop_ends :
        (fuel count : ℕ) (w : W)
        → NoDup (tried fuel count)
        → length taken < fuel
        → (r : Result Revision × ℕ × W) × (create_loop client named fuel count w ≡ some r)
    loop_ends fuel count w distinct enough =
        elim (Option-cases (create_loop client named fuel count w)) [
          | inl e ↦
              let few = pigeonhole (tried fuel count) taken distinct (all_taken fuel count w e) in
              absurd (omega (arith, few, enough, length-tried fuel count))
          | inr f ↦ f
        ]

  -- A round that gives a revision gives one with the data it tried.
  round-raw :
      (c : Revision) (w w' : W) (r : Revision)
      → create_round client c w ≡ ends (ok r) w'
      → r.raw ≡ c.raw
  round-raw c w w' r e = created (client.create c w) e
    where
      compared :
          (found : Result Revision × W)
          → compare_found client c found ≡ ends (ok r) w'
          → r.raw ≡ c.raw
      compared (err f, v) e = absurd (cc)
      compared (ok exists, v) e = elim (Bool-cases (str_eq exists.raw c.raw)) [
        | inl f ↦
            let same : ends (ok exists) v ≡ ends (ok r) w' = sym (rw f refl) ∙ e in
            sym (ap Revision.raw (round-inj same)) ∙ (eq_iff exists.raw c.raw).0 f
        | inr f ↦ let apart : collides v ≡ ends (ok r) w' = sym (rw f refl) ∙ e in absurd (cc)
      ]

      created : (a : Option Error × W) → after_creation client c a ≡ ends (ok r) w' → r.raw ≡ c.raw
      created (none, v) e = sym (ap Revision.raw (round-inj e))
      created (some already_exists, v) e = compared (client.get c.name v) e
      created (some not_found, v) e = absurd (cc)
      created (some conflict, v) e = absurd (cc)
      created (some namespace_terminating, v) e = absurd (cc)
      created (some (text s), v) e = absurd (cc)

  loop-raw :
      (raw : String) (fuel count : ℕ) (w : W) (r : Revision) (c : ℕ) (w' : W)
      → ((k : ℕ) → (named k).raw ≡ raw)
      → create_loop client named fuel count w ≡ some (ok r, c, w')
      → r.raw ≡ raw
  unfolding create_loop
  loop-raw raw zero count w r c w' same e = absurd (cc)
  loop-raw raw (suc fuel) count w r c w' same e =
      go (create_round client (named count) w) refl e
        (λ v. loop-raw raw fuel (next_count count) v r c w' same)
    where
      go :
          (a : Round W)
          → create_round client (named count) w ≡ a
          → elim a as (λ x. Option (Result Revision × ℕ × W)) [
            | ends r v ↦ some (r, count, v)
            | collides v ↦ create_loop client named fuel (next_count count) v
          ]
            ≡ some (ok r, c, w')
          → ((v : W)
              → create_loop client named fuel (next_count count) v ≡ some (ok r, c, w')
              → r.raw ≡ raw)
          → r.raw ≡ raw
      go (ends (ok d) v) p e ih =
          let found : d ≡ r = ok-inj e in
          sym (ap Revision.raw found) ∙ round-raw (named count) w v d p ∙ same count
      go (ends (err f) v) p e ih = absurd (cc)
      go (collides v) p e ih = ih v e

-- Where no creation finds a name taken but the names of a list, and the collision counts give names
-- that differ, `CreateControllerRevision` ends after at most one round more than the list is long;
-- and what it gives without an error holds the data of the revision asked for, created or found.
pub create_controller_revision_lem :
    {W : Type 0} (client : Client W) (revision_name : String → String → String)
    (hash : Revision → ℕ → String) (parent : Owner) (namespace : String) (revision : Revision)
    (count : ℕ) (w : W) (taken : List String)
    → ((c : Revision) (w : W)
        → (client.create c w).0 ≡ some already_exists
        → has_str c.name taken ≡ true)
    → NoDup (names revision_name hash parent revision (suc (length taken)) count)
    → (r : Result Revision) × (c : ℕ) × (w' : W) × (create_controller_revision client revision_name
          hash
          (suc (length taken))
          parent
          namespace
          revision
          count
          w
        ≡ some (r, c, w'))
      × Gives (λ created. created.raw ≡ revision.raw) r
unfolding create_controller_revision
create_controller_revision_lem client revision_name hash parent namespace revision count w taken
      covers distinct =
    let named : ℕ → Revision = λ c. record revision {
      name = revision_name parent.name (hash revision c);
      namespace = namespace;
    } in
    let ((r, c, w'), ended) =
      loop_ends client named taken covers (suc (length taken)) count w distinct (omega arith) in
    (
      r,
      c,
      w',
      ended,
      Gives-intro (λ (a : Revision). a.raw ≡ revision.raw) r
          (λ created e.
            loop-raw client named revision.raw (suc (length taken)) count w created c w' (λ k. refl)
              (subst (λ x. create_loop client named (suc (length taken)) count w ≡ some (x, c, w'))
                e ended)),
    )
