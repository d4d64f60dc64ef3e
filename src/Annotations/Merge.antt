-- ===== src/Annotations/Merge.antt =====
-- internal/utils/structutils/map.go: `MergeMaps`, and the keys and values of a map.
use slurm_operator.Prelude.{
  String, ◌≡◌, refl, ap, ◌∙◌, List, [], ◌∷◌, Bool, true, false, Option, none, some, map, str_eq,
  if◌then◌else◌,
}
use slurm_operator.Api.Maps.{Labels, get?, insert, get?-insert}

unfoldable pub keys : Labels → List String
keys items = map (λ item. item.0) items

unfoldable pub values : Labels → List String
values items = map (λ item. item.1) items

-- `maps.Copy`. A key that an association list repeats has the value that reading it gives.
unfoldable pub copy : Labels → Labels → Labels
unfolding insert
copy out [] = out
copy out ((k, v) ∷ m) = insert k v (copy out m)

unfoldable pub merge_into : Labels → List Labels → Labels
unfolding copy
merge_into out [] = out
merge_into out (m ∷ ms) = merge_into (copy out m) ms

unfoldable pub merge_maps : List Labels → Labels
unfolding merge_into
merge_maps ms = merge_into [] ms

-- The value that the first of two has, or the second.
abbrev pub or_else : Option String → Option String → Option String
or_else none o = o
or_else (some v) o = some v

pub get?-copy :
    (k : String) (out m : Labels) → get? k (copy out m) ≡ or_else (get? k m) (get? k out)
unfolding get? copy
get?-copy k out [] = refl
get?-copy k out ((j, v) ∷ m) =
    rw (get?-insert j k v (copy out m)) (go (str_eq j k) (get?-copy k out m))
  where
    go :
        (b : Bool)
        → get? k (copy out m) ≡ or_else (get? k m) (get? k out)
        → (if b then some v else get? k (copy out m))
          ≡ or_else (if b then some v else get? k m) (get? k out)
    go true rest = refl
    go false rest = rest

or_else-none : (o : Option String) → or_else o none ≡ o
or_else-none none = refl
or_else-none (some v) = refl

-- The maps' values of a key, the last map first.
abbrev pub last_value : String → List Labels → Option String
last_value k [] = none
last_value k (m ∷ ms) = or_else (last_value k ms) (get? k m)

or_else_assoc : (a b c : Option String) → or_else a (or_else b c) ≡ or_else (or_else a b) c
or_else_assoc none b c = refl
or_else_assoc (some v) b c = refl

merge_into-last :
    (k : String) (out : Labels) (ms : List Labels)
    → get? k (merge_into out ms) ≡ or_else (last_value k ms) (get? k out)
unfolding merge_into
merge_into-last k out [] = refl
merge_into-last k out (m ∷ ms) =
    merge_into-last k (copy out m) ms
    ∙ ap (or_else (last_value k ms)) (get?-copy k out m)
    ∙ or_else_assoc (last_value k ms) (get? k m) (get? k out)

-- In the merge of maps a key has the value of the last map that has the key.
pub get?-merge_maps : (k : String) (ms : List Labels) → get? k (merge_maps ms) ≡ last_value k ms
unfolding merge_maps get?
get?-merge_maps k ms = merge_into-last k [] ms ∙ or_else-none (last_value k ms)

pub merge_two :
    (k : String) (a b : Labels) → get? k (merge_maps (a ∷ b ∷ [])) ≡ or_else (get? k b) (get? k a)
merge_two k a b = get?-merge_maps k (a ∷ b ∷ [])
