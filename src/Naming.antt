-- ===== src/Naming.antt =====
-- internal/controller/nodeset/utils/utils.go: ordinals and names of pods. Names are native texts;
-- what walks a name works on its characters. The regular expressions are read as Go's regexp
-- package matches them on a text without newlines, which no name of an object holds.
pub mod Digits
pub mod RoundTrip
pub mod Identity
mod Examples
use Prim.Native.Char.{Char, code}
use Prim.Native.String
use slurm_operator.Prelude.{
  ℕ, suc, ◌+◌, ◌-◌, String, Bool, true, false, ◌&&◌, List, [], ◌∷◌, ◌++◌, Option, none, some, leb,
  ◌==◌, str_eq, chars, text_of, if◌then◌else◌,
}
use slurm_operator.Prelude.Int.{ℤ, pos, negsuc, ltb_ℤ}
use slurm_operator.Api.{Pod, NodeSet}
use slurm_operator.Api.Maps.{get_value, insert}
use slurm_operator.Api.WellKnown.{pod_name, pod_index, pod_hostname, scaling_mode, stateful_set}
use Digits.{is_digits, value, print}

-- The greedy `(.*)-` stops at the last dash that `([0-9]+)$` lets it stop at; digits are no dashes,
-- so that is the last one: what stands before it, and what after.
cut_last_dash : List Char → Option (List Char × List Char)
cut_last_dash [] = none
cut_last_dash (c ∷ s) = elim (cut_last_dash s) [
  | some (before, after) ↦ some (c ∷ before, after)
  | none ↦ if code c == b'-' then some ([], s) else none
]

-- `nodesetPodRegex.FindStringSubmatch`: the two groups.
sub_matches : List Char → Option (List Char × List Char)
unfolding cut_last_dash is_digits
sub_matches s = elim (cut_last_dash s) [
  | none ↦ none
  | some (parent, digits) ↦ if is_digits digits then some (parent, digits) else none
]

-- `strconv.ParseInt(digits, 10, 32)`, on digits: `none` is out of range.
abbrev parse_int32 : List Char → Option ℕ
parse_int32 digits = if leb (value 0 digits) 2147483647 then some (value 0 digits) else none

abbrev or_minus_one : Option ℕ → ℤ
or_minus_one none = negsuc 0
or_minus_one (some n) = pos n

name_and_ordinal : Option (List Char × List Char) → String × ℤ
unfolding text_of value
name_and_ordinal matches = elim matches [
  | none ↦ ("", negsuc 0)
  | some (parent, digits) ↦ (text_of parent, or_minus_one (parse_int32 digits))
]

unfoldable pub get_parent_name_and_ordinal : Pod → String × ℤ
unfolding name_and_ordinal sub_matches chars
get_parent_name_and_ordinal pod = name_and_ordinal (sub_matches (chars pod.name))

unfoldable pub get_ordinal : Pod → ℤ
unfolding get_parent_name_and_ordinal
get_ordinal pod = (get_parent_name_and_ordinal pod).1

-- `%0wd`: zeros are put after the sign, and the width counts it.
abbrev pub format_padded : ℕ → ℤ → List Char
format_padded w (pos n) = print w n
format_padded w (negsuc n) = "-" ∷ print (w - 1) (suc n)

unfoldable pub get_padded_ordinal : NodeSet → ℤ → String
unfolding text_of print
get_padded_ordinal nodeset ordinal = text_of (format_padded nodeset.ordinal_padding ordinal)

unfoldable pub get_ordinal_pod_name : NodeSet → ℤ → String
unfolding get_padded_ordinal
get_ordinal_pod_name nodeset ordinal =
    String.◌++◌ nodeset.name (String.◌++◌ "-" (get_padded_ordinal nodeset ordinal))

-- `regexp.MatchString("^" + nodeset.Name + "-", pod.Name)`: the name is a pattern, in which a dot
-- stands for any character; no other character of an object's name has a meaning there.
match_prefix : List Char → List Char → Bool
match_prefix [] [] = false
match_prefix [] (c ∷ s) = code c == b'-'
match_prefix (p ∷ ps) [] = false
match_prefix (p ∷ ps) (c ∷ s) =
    let rest = match_prefix ps s in
    if code p == b'.' then rest else if code p == code c then rest else false

unfoldable pub is_pod_from_node_set : NodeSet → Pod → Bool
unfolding match_prefix chars
is_pod_from_node_set nodeset pod = match_prefix (chars nodeset.name) (chars pod.name)

unfoldable pub get_slurm_node_name : Pod → String
get_slurm_node_name pod =
    if str_eq (get_value scaling_mode pod.labels) stateful_set
    then (if pod.host_network
        then pod.node_name
        else if str_eq pod.hostname ""
        then pod.name
        else pod.hostname)
    else pod.hostname

-- `UpdateIdentity`.
unfoldable pub update_identity : NodeSet → Pod → Pod
update_identity nodeset pod =
    let indexed =
      if str_eq nodeset.scaling_mode stateful_set
      then insert pod_index (get_padded_ordinal nodeset (get_ordinal pod)) pod.labels
      else pod.labels in
    let named = record pod {
      namespace = nodeset.namespace;
      labels = insert pod_name pod.name indexed;
    } in
    record named { labels = insert pod_hostname (get_slurm_node_name named) named.labels }

-- `initIdentity`.
unfoldable pub init_identity : NodeSet → Pod → Pod
unfolding update_identity
init_identity nodeset pod =
    let updated = update_identity nodeset pod in
    let ordinal = get_ordinal updated in
    let fixed =
      if str_eq nodeset.scaling_mode stateful_set
      then record updated {
        name = get_ordinal_pod_name nodeset ordinal;
        hostname =
            if str_eq updated.hostname ""
            then get_ordinal_pod_name nodeset ordinal
            else String.◌++◌ updated.hostname (get_padded_ordinal nodeset ordinal);
      }
      else updated in
    record fixed {
      labels =
          insert scaling_mode nodeset.scaling_mode
            (insert pod_hostname (get_slurm_node_name fixed) fixed.labels);
    }

-- `strings.TrimSuffix(s, "-")`.
trim_dash : List Char → List Char
trim_dash [] = []
trim_dash (c ∷ []) = if code c == b'-' then [] else c ∷ []
trim_dash (c ∷ d ∷ s) = c ∷ trim_dash (d ∷ s)

unfoldable pub is_identity_match : NodeSet → Pod → Bool
unfolding trim_dash chars
is_identity_match nodeset pod =
    let (parent, ordinal) = get_parent_name_and_ordinal pod in
    let owned =
      str_eq pod.namespace nodeset.namespace && str_eq (get_value pod_name pod.labels) pod.name in
    if str_eq nodeset.scaling_mode stateful_set
    then (if ltb_ℤ ordinal (pos 0) then false else str_eq nodeset.name parent && owned)
    else str_eq nodeset.name (text_of (trim_dash (chars pod.generate_name))) && owned
