-- ===== src/Naming/Digits.antt =====
-- Decimal digits as characters: what `%0wd` prints of a natural number, and its value.
use Prim.Native.Char.{Char, code}
use slurm_operator.Prelude.{
  ℕ, zero, suc, ◌+◌, ◌-◌, ◌*◌, ◌/◌, ◌%◌, ◌<◌, ◌≡◌, refl, Bool, true, false, ◌&&◌, List, [], ◌∷◌,
  arith, ltb, leb, if◌then◌else◌, length, Bool-cases, inl, inr, ltb→lt, ap, ◌∙◌, ◌≢◌,
}

abbrev pub digit : ℕ → Char
digit zero = "0"
digit (suc zero) = "1"
digit (suc (suc zero)) = "2"
digit (suc (suc (suc zero))) = "3"
digit (suc (suc (suc (suc zero)))) = "4"
digit (suc (suc (suc (suc (suc zero))))) = "5"
digit (suc (suc (suc (suc (suc (suc zero)))))) = "6"
digit (suc (suc (suc (suc (suc (suc (suc zero))))))) = "7"
digit (suc (suc (suc (suc (suc (suc (suc (suc zero)))))))) = "8"
digit _ = "9"

code-digit : (d : ℕ) → d < 10 → code (digit d) ≡ b'0' + d
code-digit zero h = refl
code-digit (suc zero) h = refl
code-digit (suc (suc zero)) h = refl
code-digit (suc (suc (suc zero))) h = refl
code-digit (suc (suc (suc (suc zero)))) h = refl
code-digit (suc (suc (suc (suc (suc zero))))) h = refl
code-digit (suc (suc (suc (suc (suc (suc zero)))))) h = refl
code-digit (suc (suc (suc (suc (suc (suc (suc zero))))))) h = refl
code-digit (suc (suc (suc (suc (suc (suc (suc (suc zero)))))))) h = refl
code-digit (suc (suc (suc (suc (suc (suc (suc (suc (suc n))))))))) h =
    let e : n ≡ 0 = omega arith in rw e refl

unfoldable pub is_digit : Char → Bool
is_digit c = leb b'0' (code c) && leb (code c) b'9'

unfoldable pub all_digits : List Char → Bool
unfolding is_digit
all_digits [] = true
all_digits (c ∷ s) = is_digit c && all_digits s

-- `[0-9]+`.
unfoldable pub is_digits : List Char → Bool
unfolding all_digits
is_digits [] = false
is_digits (c ∷ s) = all_digits (c ∷ s)

-- The number that digits stand for, behind those already read.
unfoldable pub value : ℕ → List Char → ℕ
value n [] = n
value n (c ∷ s) = value (n * 10 + (code c - b'0')) s

-- The digits of `n`, put in front of others; one digit needs one unit of fuel.
print_onto : ℕ → ℕ → List Char → List Char
print_onto zero n out = out
print_onto (suc fuel) n out =
    let rest = print_onto fuel (n / 10) (digit (n % 10) ∷ out) in
    if ltb n 10 then digit n ∷ out else rest

pub zeros : ℕ → List Char → List Char
zeros zero out = out
zeros (suc n) out = "0" ∷ zeros n out

-- The digits of `n`, with zeros in front up to the width.
unfoldable pub print : ℕ → ℕ → List Char
unfolding print_onto zeros
print w n = zeros (w - length (print_onto (suc n) n [])) (print_onto (suc n) n [])

is_digit-digit : (d : ℕ) → d < 10 → is_digit (digit d) ≡ true
unfolding is_digit
is_digit-digit d h = ground (arith, code-digit d)

print_onto-all_digits :
    (fuel n : ℕ) (out : List Char)
    → all_digits out ≡ true
    → all_digits (print_onto fuel n out) ≡ true
unfolding print_onto all_digits
print_onto-all_digits zero n out h = h
print_onto-all_digits (suc fuel) n out h = elim (Bool-cases (ltb n 10)) [
  | inl small ↦ rw small (ground (arith, is_digit-digit n))
  | inr large ↦ rw large (
      print_onto-all_digits fuel (n / 10) (digit (n % 10) ∷ out)
        (ground (arith, is_digit-digit (n % 10))))
]

value-print_onto :
    (fuel n : ℕ) (out : List Char) → n < fuel → value 0 (print_onto fuel n out) ≡ value n out
unfolding print_onto value
value-print_onto zero n out h = absurd (omega arith)
value-print_onto (suc fuel) n out h = elim (Bool-cases (ltb n 10)) [
  | inl small ↦ rw small (ap (λ k. value k out) (omega (arith, code-digit n (ltb→lt n 10 small))))
  | inr large ↦ rw large (
      value-print_onto fuel (n / 10) (digit (n % 10) ∷ out) (ground arith)
      ∙ ap (λ k. value k out) (omega (arith, code-digit (n % 10) (omega arith))))
]

print_onto-ne-nil : (fuel n : ℕ) (out : List Char) → out ≢ [] → print_onto fuel n out ≢ []
unfolding print_onto
print_onto-ne-nil zero n out h = h
print_onto-ne-nil (suc fuel) n out h = elim (Bool-cases (ltb n 10)) [
  | inl small ↦ rw small (λ e. cc)
  | inr large ↦ rw large (print_onto-ne-nil fuel (n / 10) (digit (n % 10) ∷ out) (λ e. cc))
]

value-zeros : (w : ℕ) (s : List Char) → value 0 (zeros w s) ≡ value 0 s
unfolding zeros value
value-zeros zero s = refl
value-zeros (suc w) s = value-zeros w s

-- What is printed, with any padding, stands for the number.
pub value-print : (w n : ℕ) → value 0 (print w n) ≡ n
unfolding print value
value-print w n =
    value-zeros (w - length (print_onto (suc n) n [])) (print_onto (suc n) n [])
    ∙ value-print_onto (suc n) n [] (omega arith)

is_digits-cons : (c : Char) (s : List Char) → is_digits (c ∷ s) ≡ all_digits (c ∷ s)
unfolding is_digits
is_digits-cons c s = refl

zeros-is_digits :
    (w : ℕ) (s : List Char)
    → all_digits s ≡ true
    → s ≢ []
    → (all_digits (zeros w s) ≡ true) × (zeros w s ≢ [])
unfolding zeros all_digits is_digit
zeros-is_digits zero s h h' = (h, h')
zeros-is_digits (suc w) s h h' = ((zeros-is_digits w s h h').0, λ e. cc)

is_digits_of : (s : List Char) → all_digits s ≡ true → s ≢ [] → is_digits s ≡ true
is_digits_of [] h h' = absurd (h' refl)
is_digits_of (c ∷ s) h h' = is_digits-cons c s ∙ h

print_onto-cons : (n : ℕ) → print_onto (suc n) n [] ≢ []
unfolding print_onto
print_onto-cons n = elim (Bool-cases (ltb n 10)) [
  | inl small ↦ rw small (λ e. cc)
  | inr large ↦ rw large (print_onto-ne-nil n (n / 10) (digit (n % 10) ∷ []) (λ e. cc))
]

-- And it is made of digits, one at least.
pub print-is_digits : (w n : ℕ) → is_digits (print w n) ≡ true
unfolding print
print-is_digits w n =
    let (digits, some_digit) =
      zeros-is_digits (w - length (print_onto (suc n) n [])) (print_onto (suc n) n [])
        (print_onto-all_digits (suc n) n [] (unfold all_digits in refl)) (print_onto-cons n) in
    is_digits_of _ digits some_digit
