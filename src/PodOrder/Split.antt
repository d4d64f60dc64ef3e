-- ===== src/PodOrder/Split.antt =====
-- What `SplitActivePods` and `SplitUnhealthyPods` return, from what sort.Sort promises.
use mathlib.Core.List.{Perm}
use slurm_operator.Prelude.{
  ℕ, zero, suc, ◌≡◌, sym, ap, subst, ◌∙◌, min, Bool, true, false, not, String, List, [], ◌∷◌, ◌++◌,
  Option, arith, length, take, drop, count_if, count_if-le-length, All, take-append-drop,
  length-take, length-perm,
}
use slurm_operator.Prelude.Int.{ℤ, pos, pos_part}
use slurm_operator.Api.{Pod}
use slurm_operator.PodUtils.{PodApi, is_healthy}
use slurm_operator.MathUtils.{clamp}
use slurm_operator.PodOrder.{
  cordoned, less, less_by_creation, split_active_pods, split_unhealthy_pods,
}
use slurm_operator.PodOrder.Lex.{lex_less, lex_less_asymm, lex_less_cotrans}
use slurm_operator.PodOrder.Rank.{keys, less-lex}

-- No later pod is less than an earlier one.
abbrev pub Sorted : (Pod → Pod → Bool) → List Pod → Type 0
Sorted less [] = Unit
Sorted less (x ∷ xs) = All (λ y. less y x ≡ false) xs × Sorted less xs

-- sort.Sort: a permutation; and sorted, where `less` is a strict weak order on what it is given.
pub record SortSpec (sort : (Pod → Pod → Bool) → List Pod → List Pod) : Type 1 where
  pub perm : (less : Pod → Pod → Bool) (l : List Pod) → Perm (sort less l) l
  pub sorted :
      (P : Pod → Type 0) (less : Pod → Pod → Bool) (l : List Pod)
      → All P l
      → ((x y : Pod) → P x → P y → less x y ≡ true → less y x ≡ false)
      → ((x y z : Pod) → P x → P y → P z → less x y ≡ false → less y z ≡ false → less x z ≡ false)
      → Sorted less (sort less l)

-- What is cut off a sorted list is no greater than the rest.
abbrev pub Before : (Pod → Pod → Bool) → List Pod → List Pod → Type 0
Before less xs ys = All (λ x. All (λ y. less y x ≡ false) ys) xs

All-drop : (P : Pod → Type 0) (n : ℕ) (xs : List Pod) → All P xs → All P (drop n xs)
All-drop P zero xs h = h
All-drop P (suc n) [] h = tt
All-drop P (suc n) (x ∷ xs) h = All-drop P n xs h.1

Sorted-Before :
    (less : Pod → Pod → Bool) (n : ℕ) (xs : List Pod)
    → Sorted less xs
    → Before less (take n xs) (drop n xs)
Sorted-Before less zero xs h = tt
Sorted-Before less (suc n) [] h = tt
Sorted-Before less (suc n) (x ∷ xs) h =
    (All-drop (λ y. less y x ≡ false) n xs h.0, Sorted-Before less n xs h.1)

pos_part-clamp : (n : ℤ) (m : ℕ) → pos_part (clamp n (pos 0) (pos m)) ≡ min (pos_part n) m
unfolding clamp
pos_part-clamp n m = ground arith

module _ (api : PodApi) (parse_time : String → Option ℕ)
    (sort : (Pod → Pod → Bool) → List Pod → List Pod) (spec : SortSpec sort) where
  abbrev Uncordoned : Pod → Type 0
  Uncordoned pod = cordoned api parse_time pod ≡ false

  less-lex-Uncordoned :
      (p q : Pod) → Uncordoned p → less api parse_time p q ≡ lex_less (keys api parse_time) p q
  less-lex-Uncordoned p q h = less-lex api parse_time p q (ground arith)

  Sorted-Uncordoned :
      (pods : List Pod)
      → All Uncordoned pods
      → Sorted (less api parse_time) (sort (less api parse_time) pods)
  Sorted-Uncordoned pods h =
      spec.sorted Uncordoned (less api parse_time) pods h
        (λ x y hx hy e.
          less-lex-Uncordoned y x hy
          ∙ lex_less_asymm (keys api parse_time) x y (sym (less-lex-Uncordoned x y hx) ∙ e))
        (λ x y z hx hy hz e f.
          less-lex-Uncordoned x z hx
          ∙ lex_less_cotrans (keys api parse_time) x y z (sym (less-lex-Uncordoned x y hx) ∙ e)
              (sym (less-lex-Uncordoned y z hy) ∙ f))

  cut_perm :
      (l : Pod → Pod → Bool) (pods : List Pod) (n : ℕ)
      → Perm (take n (sort l pods) ++ drop n (sort l pods)) pods
  cut_perm l pods n =
      subst (λ xs. Perm xs pods) (sym (take-append-drop n (sort l pods))) (spec.perm l pods)

  -- `SplitActivePods` deals the pods out, nothing lost or doubled: as many as asked for to the
  -- first list, none if that is negative and all if it is too many; and where no pod is cordoned,
  -- no pod of the second list is less than one of the first.
  pub split_active_pods_lem :
      (pods : List Pod) (partition : ℤ)
      → let (first, second) = split_active_pods api parse_time sort pods partition in
        Perm (first ++ second) pods
        × (length first ≡ min (pos_part partition) (length pods))
        × (All Uncordoned pods → Before (less api parse_time) first second)
  unfolding split_active_pods
  split_active_pods_lem pods partition = (
    cut_perm (less api parse_time) pods _,
    length-take _ (sort (less api parse_time) pods)
        ∙ omega (
          arith,
          length-perm (spec.perm (less api parse_time) pods),
          pos_part-clamp partition (length pods),
        ),
    λ h. Sorted-Before (less api parse_time) _ _ (Sorted-Uncordoned pods h),
  )

  -- `SplitUnhealthyPods` deals the pods out and makes the first list as long as there are unhealthy
  -- pods, but which pods go there does not depend on their health: it is the same list whenever as
  -- many pods are unhealthy.
  pub split_unhealthy_pods_lem :
      (other : PodApi) (name_less : String → String → Bool) (pods : List Pod)
      → let unhealthy = λ (a : PodApi). count_if (λ pod. not (is_healthy a pod)) pods in
        let (first, second) = split_unhealthy_pods api name_less sort pods in
        Perm (first ++ second) pods
        × (length first ≡ unhealthy api)
        × (unhealthy api ≡ unhealthy other
            → split_unhealthy_pods api name_less sort pods
              ≡ split_unhealthy_pods other name_less sort pods)
  unfolding split_unhealthy_pods
  split_unhealthy_pods_lem other name_less pods = (
    cut_perm (less_by_creation name_less) pods _,
    length-take _ (sort (less_by_creation name_less) pods)
        ∙ omega (
          arith,
          length-perm (spec.perm (less_by_creation name_less) pods),
          count_if-le-length (λ pod. not (is_healthy api pod)) pods,
        ),
    λ e.
        ap
          (λ n. (
            take n (sort (less_by_creation name_less) pods),
            drop n (sort (less_by_creation name_less) pods),
          ))
          e,
  )
