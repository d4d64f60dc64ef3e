-- ===== src/PodOrder/Sorting.antt =====
-- Insertion sort keeps what sort.Sort promises.
use mathlib.Core.List.{Perm}
use mathlib.Core.List.Perm
use slurm_operator.Prelude.{
  ◌≡◌, Bool, true, false, inl, inr, List, [], ◌∷◌, All, Bool-cases, if◌then◌else◌,
}
use slurm_operator.Api.{Pod}
use slurm_operator.PodOrder.{less}
use slurm_operator.PodOrder.Split.{Sorted, SortSpec}

abbrev pub insert : (Pod → Pod → Bool) → Pod → List Pod → List Pod
insert less x [] = x ∷ []
insert less x (y ∷ ys) = let rest = y ∷ insert less x ys in if less y x then rest else x ∷ y ∷ ys

unfoldable pub insertion_sort : (Pod → Pod → Bool) → List Pod → List Pod
insertion_sort less [] = []
insertion_sort less (x ∷ xs) = insert less x (insertion_sort less xs)

insert-perm : (less : Pod → Pod → Bool) (x : Pod) (l : List Pod) → Perm (insert less x l) (x ∷ l)
insert-perm less x [] = Perm.rfl
insert-perm less x (y ∷ ys) = elim (Bool-cases (less y x)) [
  | inl lt ↦ rw (lt, insert) (Perm.trans (Perm.cons y (insert-perm less x ys)) (Perm.swap x y ys))
  | inr ge ↦ rw (ge, insert) Perm.rfl
]

insertion_sort-perm : (less : Pod → Pod → Bool) (l : List Pod) → Perm (insertion_sort less l) l
unfolding insertion_sort
insertion_sort-perm less [] = Perm.rfl
insertion_sort-perm less (x ∷ xs) =
    Perm.trans (insert-perm less x (insertion_sort less xs))
      (Perm.cons x (insertion_sort-perm less xs))

module _ (P : Pod → Type 0) (less : Pod → Pod → Bool)
    (asymm : (x y : Pod) → P x → P y → less x y ≡ true → less y x ≡ false)
    (cotrans : (x y z : Pod)
      → P x
      → P y
      → P z
      → less x y ≡ false
      → less y z ≡ false
      → less x z ≡ false) where
  insert-All : (Q : Pod → Type 0) (x : Pod) (l : List Pod) → Q x → All Q l → All Q (insert less x l)
  insert-All Q x [] q h = (q, tt)
  insert-All Q x (y ∷ ys) q h = elim (Bool-cases (less y x)) [
    | inl lt ↦ rw (lt, insert) (h.0, insert-All Q x ys q h.1)
    | inr ge ↦ rw (ge, insert) (q, h)
  ]

  All-below :
      (x y : Pod) (l : List Pod)
      → P x
      → P y
      → All P l
      → less y x ≡ false
      → All (λ z. less z y ≡ false) l
      → All (λ z. less z x ≡ false) l
  All-below x y [] px py pl e h = tt
  All-below x y (z ∷ zs) px py pl e h =
      (cotrans z y x pl.0 py px h.0 e, All-below x y zs px py pl.1 e h.1)

  insert-Sorted :
      (x : Pod) (l : List Pod) → P x → All P l → Sorted less l → Sorted less (insert less x l)
  insert-Sorted x [] px pl h = (tt, tt)
  insert-Sorted x (y ∷ ys) px pl h = elim (Bool-cases (less y x)) [
    | inl lt ↦
        rw (lt, insert)
          (
            insert-All (λ z. less z y ≡ false) x ys (asymm y x pl.0 px lt) h.0,
            insert-Sorted x ys px pl.1 h.1,
          )
    | inr ge ↦ rw (ge, insert) ((ge, All-below x y ys px pl.0 pl.1 ge h.0), h)
  ]

  insertion_sort-All : (l : List Pod) → All P l → All P (insertion_sort less l)
  unfolding insertion_sort
  insertion_sort-All [] h = tt
  insertion_sort-All (x ∷ xs) h = insert-All P x _ h.0 (insertion_sort-All xs h.1)

  insertion_sort-Sorted : (l : List Pod) → All P l → Sorted less (insertion_sort less l)
  unfolding insertion_sort
  insertion_sort-Sorted [] h = tt
  insertion_sort-Sorted (x ∷ xs) h =
      insert-Sorted x _ h.0 (insertion_sort-All xs h.1) (insertion_sort-Sorted xs h.1)

pub insertion_sort-SortSpec : SortSpec insertion_sort
insertion_sort-SortSpec = record {
  perm = insertion_sort-perm;
  sorted = λ P less l h asymm cotrans. insertion_sort-Sorted P less asymm cotrans l h;
}
