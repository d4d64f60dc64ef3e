-- ===== src/Naming/RoundTrip.antt =====
-- The name that an ordinal makes gives back the NodeSet's name and the ordinal.
use Prim.Native.Char.{Char}
use slurm_operator.Prelude.{
  ℕ, ◌≤◌, ◌≡◌, refl, sym, ap, ◌∙◌, String, true, List, [], ◌∷◌, ◌++◌, none, some, arith, chars,
  text_of, chars-text_of, text_of-chars, chars-append,
}
use slurm_operator.Prelude.Int.{ℤ, pos}
use slurm_operator.Api.{Pod, NodeSet}
use slurm_operator.Naming.{
  cut_last_dash, sub_matches, name_and_ordinal, get_parent_name_and_ordinal, get_padded_ordinal,
  get_ordinal_pod_name, match_prefix, is_pod_from_node_set,
}
use slurm_operator.Naming.Digits.{
  is_digits, is_digit, all_digits, value, print, value-print, print-is_digits,
}

-- Digits hold no dash.
cut_last_dash-digits : (s : List Char) → all_digits s ≡ true → cut_last_dash s ≡ none
unfolding cut_last_dash all_digits is_digit
cut_last_dash-digits [] h = refl
cut_last_dash-digits (c ∷ s) h =
    rw (cut_last_dash-digits s (ground arith), cut_last_dash) (ground arith)

cut_last_dash-append :
    (parent digits : List Char)
    → all_digits digits ≡ true
    → cut_last_dash (parent ++ "-" ∷ digits) ≡ some (parent, digits)
unfolding cut_last_dash
cut_last_dash-append [] digits h = rw (cut_last_dash-digits digits h)
cut_last_dash-append (c ∷ parent) digits h = rw (cut_last_dash-append parent digits h)

all_digits_of : (s : List Char) → is_digits s ≡ true → all_digits s ≡ true
unfolding is_digits all_digits
all_digits_of [] h = refl
all_digits_of (c ∷ s) h = h

sub_matches-append :
    (parent digits : List Char)
    → is_digits digits ≡ true
    → sub_matches (parent ++ "-" ∷ digits) ≡ some (parent, digits)
unfolding sub_matches
sub_matches-append parent digits h =
    rw (cut_last_dash-append parent digits (all_digits_of digits h), sub_matches) (rw h)

-- The characters of the name made from an ordinal.
chars-get_ordinal_pod_name :
    (nodeset : NodeSet) (n : ℕ)
    → chars (get_ordinal_pod_name nodeset (pos n))
      ≡ chars nodeset.name ++ "-" ∷ print nodeset.ordinal_padding n
unfolding get_ordinal_pod_name get_padded_ordinal print chars
chars-get_ordinal_pod_name nodeset n =
    chars-append nodeset.name _
    ∙ ap (◌++◌ (chars nodeset.name))
        (chars-append "-" _ ∙ ap (◌∷◌ "-") (chars-text_of (print nodeset.ordinal_padding n)))

name_and_ordinal-digits :
    (parent digits : List Char) (n : ℕ)
    → value 0 digits ≡ n
    → n ≤ 2147483647
    → name_and_ordinal (some (parent, digits)) ≡ (text_of parent, pos n)
unfolding name_and_ordinal
name_and_ordinal-digits parent digits n e h = ground arith

name_and_ordinal-get_ordinal_pod_name :
    (nodeset : NodeSet) (n : ℕ)
    → n ≤ 2147483647
    → name_and_ordinal (sub_matches (chars (get_ordinal_pod_name nodeset (pos n))))
      ≡ (nodeset.name, pos n)
name_and_ordinal-get_ordinal_pod_name nodeset n h =
    ap (λ t. name_and_ordinal (sub_matches t)) (chars-get_ordinal_pod_name nodeset n)
    ∙ ap name_and_ordinal (
        sub_matches-append (chars nodeset.name) (print nodeset.ordinal_padding n)
          (print-is_digits nodeset.ordinal_padding n))
    ∙ name_and_ordinal-digits (chars nodeset.name) (print nodeset.ordinal_padding n) n
        (value-print nodeset.ordinal_padding n) h
    ∙ ap (λ t. (t, pos n)) (text_of-chars nodeset.name)

-- A pod named after an ordinal that fits an int32 gives back the NodeSet's name and that ordinal,
-- whatever the padding and whatever dashes and digits the NodeSet's name holds.
pub get_parent_name_and_ordinal-get_ordinal_pod_name :
    (nodeset : NodeSet) (pod : Pod) (n : ℕ)
    → n ≤ 2147483647
    → pod.name ≡ get_ordinal_pod_name nodeset (pos n)
    → get_parent_name_and_ordinal pod ≡ (nodeset.name, pos n)
unfolding get_parent_name_and_ordinal
get_parent_name_and_ordinal-get_ordinal_pod_name nodeset pod n h e =
    ap (λ t. name_and_ordinal (sub_matches (chars t))) e
    ∙ name_and_ordinal-get_ordinal_pod_name nodeset n h

-- So different ordinals make different names.
pub get_ordinal_pod_name_inj :
    (nodeset : NodeSet) (m n : ℕ)
    → m ≤ 2147483647
    → n ≤ 2147483647
    → get_ordinal_pod_name nodeset (pos m) ≡ get_ordinal_pod_name nodeset (pos n)
    → m ≡ n
get_ordinal_pod_name_inj nodeset m n hm hn e =
    let both : ◌≡◌ {A = String × ℤ} (nodeset.name, pos m) (nodeset.name, pos n) =
      sym (name_and_ordinal-get_ordinal_pod_name nodeset m hm)
      ∙ ap (λ t. name_and_ordinal (sub_matches (chars t))) e
      ∙ name_and_ordinal-get_ordinal_pod_name nodeset n hn in
    cc

match_prefix-append : (name rest : List Char) → match_prefix name (name ++ "-" ∷ rest) ≡ true
unfolding match_prefix
match_prefix-append [] rest = refl
match_prefix-append (c ∷ name) rest = ground (arith, match_prefix-append name rest)

-- A NodeSet claims the pods that are named after its ordinals.
pub is_pod_from_node_set-get_ordinal_pod_name :
    (nodeset : NodeSet) (pod : Pod) (n : ℕ)
    → pod.name ≡ get_ordinal_pod_name nodeset (pos n)
    → is_pod_from_node_set nodeset pod ≡ true
unfolding is_pod_from_node_set
is_pod_from_node_set-get_ordinal_pod_name nodeset pod n e =
    ap (match_prefix (chars nodeset.name)) (ap chars e ∙ chars-get_ordinal_pod_name nodeset n)
    ∙ match_prefix-append (chars nodeset.name) (print nodeset.ordinal_padding n)
