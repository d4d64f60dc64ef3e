-- ===== src/Api/Maps.antt =====
-- Go's `map[string]string` as an association list: reading, writing and deleting a key.
use slurm_operator.Prelude.{
  String, ◌≡◌, refl, List, [], ◌∷◌, Option, none, some, arith, str_eq, eq_iff, if◌then◌else◌,
}

abbrev pub Labels : Type 0
Labels = List (String × String)

unfoldable pub get? : String → Labels → Option String
get? k [] = none
get? k ((j, v) ∷ m) = if str_eq j k then some v else get? k m

-- `m[k]`: the empty string where the key is missing.
abbrev pub get_value : String → Labels → String
get_value k m = elim (get? k m) [ none ↦ "" | some v ↦ v ]

unfoldable pub insert : String → String → Labels → Labels
insert k v [] = (k, v) ∷ []
insert k v ((j, w) ∷ m) = if str_eq j k then (k, v) ∷ m else (j, w) ∷ insert k v m

-- `delete(m, k)`.
unfoldable pub remove : String → Labels → Labels
remove k [] = []
remove k ((j, w) ∷ m) = let rest = remove k m in if str_eq j k then rest else (j, w) ∷ rest

pub get?-insert :
    (k j v : String) (m : Labels)
    → get? j (insert k v m) ≡ (if str_eq k j then some v else get? j m)
unfolding get? insert
get?-insert k j v [] = refl
get?-insert k j v ((i, w) ∷ m) =
    ground (arith, eq_iff k j, eq_iff i k, eq_iff i j, get?-insert k j v m)

pub get?-remove :
    (k j : String) (m : Labels) → get? j (remove k m) ≡ (if str_eq k j then none else get? j m)
unfolding get? remove
get?-remove k j [] = ground arith
get?-remove k j ((i, w) ∷ m) = ground (arith, eq_iff k j, eq_iff i k, eq_iff i j, get?-remove k j m)
