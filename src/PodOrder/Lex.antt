-- ===== src/PodOrder/Lex.antt =====
-- Lexicographic comparison by a list of numeric keys is a strict weak order.
use slurm_operator.Prelude.{
  ℕ, ◌≡◌, refl, Bool, true, false, List, [], ◌∷◌, arith, ltb, ◌==◌, if◌then◌else◌,
}

-- A key that is compared upwards or downwards.
pub data Key {ℓ} (A : Type ℓ) : Type ℓ where
  asc : (A → ℕ) → Key A
  desc : (A → ℕ) → Key A

module _ {ℓ} {A : Type ℓ} where
  unfoldable pub lex_less : List (Key A) → A → A → Bool
  lex_less [] x y = false
  lex_less (asc k ∷ ks) x y =
      let rest = lex_less ks x y in if k x == k y then rest else ltb (k x) (k y)
  lex_less (desc k ∷ ks) x y =
      let rest = lex_less ks x y in if k x == k y then rest else ltb (k y) (k x)

  pub lex_less_asymm :
      (ks : List (Key A)) (x y : A) → lex_less ks x y ≡ true → lex_less ks y x ≡ false
  unfolding lex_less
  lex_less_asymm [] x y h = refl
  lex_less_asymm (asc k ∷ ks) x y h = ground (arith, lex_less_asymm ks x y)
  lex_less_asymm (desc k ∷ ks) x y h = ground (arith, lex_less_asymm ks x y)

  pub lex_less_trans :
      (ks : List (Key A)) (x y z : A)
      → lex_less ks x y ≡ true
      → lex_less ks y z ≡ true
      → lex_less ks x z ≡ true
  unfolding lex_less
  lex_less_trans [] x y z h h' = h
  lex_less_trans (asc k ∷ ks) x y z h h' = ground (arith, lex_less_trans ks x y z)
  lex_less_trans (desc k ∷ ks) x y z h h' = ground (arith, lex_less_trans ks x y z)

  -- What is below `z` and not above `y` from `y`: incomparability is transitive.
  pub lex_less_cotrans :
      (ks : List (Key A)) (x y z : A)
      → lex_less ks x y ≡ false
      → lex_less ks y z ≡ false
      → lex_less ks x z ≡ false
  unfolding lex_less
  lex_less_cotrans [] x y z h h' = refl
  lex_less_cotrans (asc k ∷ ks) x y z h h' = ground (arith, lex_less_cotrans ks x y z)
  lex_less_cotrans (desc k ∷ ks) x y z h h' = ground (arith, lex_less_cotrans ks x y z)
