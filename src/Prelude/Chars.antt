-- ===== src/Prelude/Chars.antt =====
-- A native text as the list of its characters, and back.
use Prim.Native.Char.{Char, code}
use Prim.Native.String.append
use Prim.Native.String.{String}
use Prim.Native.String
use mathlib.Core.Path.{◌≡◌, refl, ap, ◌∙◌}
use mathlib.Core.Bool.{Bool, true, false, ◌||◌}
use mathlib.Core.List.{List, [], ◌∷◌, ◌++◌}
use native.Mathlib.Omega.{arith}
use slurm_operator.Prelude.Tests.{◌==◌, if◌then◌else◌}

unfoldable pub chars : String → List Char
chars String.[] = []
chars (String.◌∷◌ c s) = c ∷ chars s

unfoldable pub text_of : List Char → String
text_of [] = String.[]
text_of (c ∷ s) = String.◌∷◌ c (text_of s)

pub chars-text_of : (s : List Char) → chars (text_of s) ≡ s
unfolding chars text_of
chars-text_of [] = refl
chars-text_of (c ∷ s) = ap (◌∷◌ c) (chars-text_of s)

pub text_of-chars : (s : String) → text_of (chars s) ≡ s
unfolding chars text_of
text_of-chars String.[] = refl
text_of-chars (String.◌∷◌ c s) = ap (String.◌∷◌ c) (text_of-chars s)

pub chars-append : (s t : String) → chars (String.◌++◌ s t) ≡ chars s ++ chars t
unfolding chars
chars-append String.[] t = ap chars (append.nil t)
chars-append (String.◌∷◌ c s) t = ap chars (append.cons c s t) ∙ ap (◌∷◌ c) (chars-append s t)

-- `strings.HasPrefix` and `strings.Contains`: the text first, then what is looked for.
abbrev pub is_prefix : List Char → List Char → Bool
is_prefix [] s = true
is_prefix (c ∷ p) [] = false
is_prefix (c ∷ p) (d ∷ s) = let rest = is_prefix p s in if code c == code d then rest else false

abbrev pub is_infix : List Char → List Char → Bool
is_infix p [] = is_prefix p []
is_infix p (c ∷ s) = is_prefix p (c ∷ s) || is_infix p s

unfoldable pub has_prefix : String → String → Bool
has_prefix s p = is_prefix (chars p) (chars s)

unfoldable pub contains : String → String → Bool
contains s p = is_infix (chars p) (chars s)

is_prefix-append : (p s : List Char) → is_prefix p (p ++ s) ≡ true
is_prefix-append [] s = refl
is_prefix-append (c ∷ p) s = ground (arith, is_prefix-append p s)

pub has_prefix-append : (p s : String) → has_prefix (String.◌++◌ p s) p ≡ true
unfolding has_prefix
has_prefix-append p s = rw (chars-append p s) (is_prefix-append (chars p) (chars s))
