-- ===== src/Effects/Adds.antt =====
-- What holds of each call that a piece of the controller makes, given the calls before it.
use slurm_operator.Prelude.{◌≡◌, refl, Bool, true, false, ◌∷◌, if◌then◌else◌}
use slurm_operator.Api.{Result, ok, err}
use slurm_operator.Effects.{Call, Trace, M, ◌>>=◌}

-- The second trace is the first one and calls that satisfy `P` where they are made.
pub data Adds (P : Call → Trace → Type 0) (start : Trace) : Trace → Type 0 where
  same : Adds P start start
  add : {c : Call} {tr : Trace} → Adds P start tr → P c tr → Adds P start (c ∷ tr)

-- Any calls.
abbrev pub Extends : Trace → Trace → Type 0
Extends start tr = Adds (λ c t. Unit) start tr

module _ {P : Call → Trace → Type 0} where
  pub Adds-trans : {a b c : Trace} → Adds P a b → Adds P b c → Adds P a c
  Adds-trans p same = p
  Adds-trans p (add q x) = add (Adds-trans p q) x

  pub Adds-Extends : {a b : Trace} → Adds P a b → Extends a b
  Adds-Extends same = same
  Adds-Extends (add q x) = add (Adds-Extends q) tt

pub Adds-map :
    {P Q : Call → Trace → Type 0} {a b : Trace}
    → ((c : Call) (tr : Trace) → P c tr → Q c tr)
    → Adds P a b
    → Adds Q a b
Adds-map f same = same
Adds-map f (add q x) = add (Adds-map f q) (f _ _ x)

-- What holds of a call that comes after a trace, holds of the calls after it.
pub Adds-from :
    {P : Call → Trace → Type 0} {start a b : Trace}
    → Adds (λ c t. Extends start t → P c t) a b
    → Extends start a
    → Adds P a b
Adds-from same x = same
Adds-from (add q f) x = add (Adds-from q x) (f (Adds-trans x (Adds-Extends q)))

-- A step all of whose calls satisfy `P`.
abbrev pub Makes : {A : Type 0} → (P : Call → Trace → Type 0) → M A → Type 0
Makes P m = (tr : Trace) → Adds P tr (m tr).1

module _ {A B : Type 0} (P : Call → Trace → Type 0) where
  pub rest_of_bind :
      (r : Result A) (f : A → M B) (tr : Trace)
      → ((a : A) → r ≡ ok a → Adds P tr (f a tr).1)
      → Adds P tr ((◌>>=◌ (λ t. (r, t)) f) tr).1
  rest_of_bind (ok a) f tr q = q a refl
  rest_of_bind (err e) f tr q = same

  pub Makes-bind :
      (m : M A) (f : A → M B) (tr : Trace)
      → Adds P tr (m tr).1
      → ((a : A) → (m tr).0 ≡ ok a → Adds P (m tr).1 (f a (m tr).1).1)
      → Adds P tr ((m >>= f) tr).1
  Makes-bind m f tr p q = Adds-trans p (rest_of_bind (m tr).0 f (m tr).1 q)

-- A call, and what the code does with an answer that is no error.
pub Makes-call :
    {A B : Type 0} (P : Call → Trace → Type 0) (c : Call) (r : Result A) (f : A → M B) (tr : Trace)
    → P c tr
    → ((a : A) → r ≡ ok a → Adds P (c ∷ tr) (f a (c ∷ tr)).1)
    → Adds P tr ((◌>>=◌ (λ t. (r, t)) f) (c ∷ tr)).1
Makes-call P c r f tr p q = Adds-trans (add same p) (rest_of_bind P r f (c ∷ tr) q)

pub Makes-if :
    {A : Type 0} (P : Call → Trace → Type 0) (b : Bool) (m m' : M A) (tr : Trace)
    → (b ≡ true → Adds P tr (m tr).1)
    → (b ≡ false → Adds P tr (m' tr).1)
    → Adds P tr ((if b then m else m') tr).1
Makes-if P true m m' tr p q = p refl
Makes-if P false m m' tr p q = q refl

pub Adds-if :
    {A : Type 0} (P : Call → Trace → Type 0) (b : Bool) (x y : A × Trace) (start : Trace)
    → (b ≡ true → Adds P start x.1)
    → (b ≡ false → Adds P start y.1)
    → Adds P start (if b then x else y).1
Adds-if P true x y start p q = p refl
Adds-if P false x y start p q = q refl
