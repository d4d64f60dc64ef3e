-- ===== src/Steps.antt =====
-- Steps on a state that end in a result or an error: the state comes back either way.
use slurm_operator.Prelude.{◌≡◌, refl, ap, subst, ◌⊎◌, inl, inr, Option, none, some}
use slurm_operator.Prelude.{if◌then◌else◌}
use slurm_operator.Api.{Error, conflict, Result, ok, err, is_not_found}

abbrev pub Step : Type 0 → Type 0 → Type 0
Step W A = W → Result A × W

module _ {W : Type 0} where
  abbrev pub done : {A : Type 0} → A → Step W A
  done a w = (ok a, w)

  abbrev pub fails : {A : Type 0} → Error → Step W A
  fails e w = (err e, w)

  -- `if err != nil { return err }`.
  infixl 5 ◌>>-◌
  abbrev pub ◌>>-◌ : {A B : Type 0} → Step W A → (A → Step W B) → Step W B
  ◌>>-◌ m f w = let (r, w') = m w in elim r [ ok a ↦ f a w' | err e ↦ (err e, w') ]

  pub then-ok :
      {A B : Type 0} (m : Step W A) (f : A → Step W B) (w w' : W) (a : A)
      → m w ≡ (ok a, w')
      → (m >>- f) w ≡ f a w'
  then-ok {A} {B} m f w w' a p =
      ap
        (λ (r : Result A × W). elim r.0 as (λ x. Result B × W) [
          | ok a ↦ f a r.1
          | err e ↦ (err e, r.1)
        ])
        p

  -- What follows the read of an object in a loop: a missing object is passed over, and any other
  -- error ends the loop.
  abbrev pub if_found :
      {A B : Type 0} → (A → Step W B) → Step W B → (Error → Error) → Result A × W → Result B × W
  if_found found rest wrap (ok a, w) = found a w
  if_found found rest wrap (err e, w) = if is_not_found e then rest w else (err (wrap e), w)

  -- A call that gives an error or none.
  abbrev pub run : (W → Option Error × W) → Step W (Unit {0})
  run act w = let (e, w') = act w in (elim e [ none ↦ ok tt | some e ↦ err e ], w')

-- `retry.RetryOnConflict` as client-go documents it: the function runs until it does not end in a
-- conflict, or until no attempt is left.
pub data Retried {W A : Type 0} (fn : Step W A) : W → Result A × W → Type 0 where
  last : (w : W) → Retried fn w (fn w)
  again :
      (w : W) (r : Result A × W) → (fn w).0 ≡ err conflict → Retried fn (fn w).1 r → Retried fn w r

-- An implementation of it.
pub record Retrier : Type 1 where
  pub retry : {W A : Type 0} → Step W A → Step W A
  pub retries : {W A : Type 0} (fn : Step W A) (w : W) → Retried fn w (retry fn w)

pub Result-cases :
    {A : Type 0} (r : Result A) → ((a : A) × (r ≡ ok a)) ⊎ ((e : Error) × (r ≡ err e))
Result-cases (ok a) = inl (a, refl)
Result-cases (err e) = inr (e, refl)

-- What holds of the value of a result that is no error.
abbrev pub Gives {ℓ} : {A : Type 0} → (A → Type ℓ) → Result A → Type ℓ
Gives P (ok a) = P a
Gives P (err e) = Unit

pub Gives-intro {ℓ} :
    {A : Type 0} (P : A → Type ℓ) (r : Result A) → ((a : A) → r ≡ ok a → P a) → Gives P r
Gives-intro P (ok a) h = h a refl
Gives-intro P (err e) h = tt

pub ok-inj : {A : Type 0} {a b : A} → ok a ≡ ok b → a ≡ b
ok-inj p = cc p

pub Gives-elim {ℓ} :
    {A : Type 0} (P : A → Type ℓ) (r : Result A) (a : A) → Gives P r → r ≡ ok a → P a
Gives-elim P (ok b) a h e = subst P (ok-inj e) h
Gives-elim P (err x) a h e = absurd (cc)
