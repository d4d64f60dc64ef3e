-- ===== src/NodeSetSync/Choose/Ordinals.antt =====
-- The ordinals of new pods are free, distinct and as small as can be.
use slurm_operator.Prelude.{
  ℕ, zero, suc, ◌+◌, ◌≤◌, ◌<◌, ◌≡◌, refl, ap, Bool, true, false, ◌||◌, inl, inr, List, [], ◌∷◌,
  arith, ◌==◌, leb, length, All, Bool-cases, if◌then◌else◌,
}
use slurm_operator.Prelude.Int.{ℤ, pos, negsuc}
use slurm_operator.NodeSetSync.Choose.{has_ordinal, next_free, pick_ordinals}

-- How many used ordinals are at least a number.
count_from : ℕ → List ℤ → ℕ
count_from n [] = 0
count_from n (pos m ∷ used) = (if leb n m then 1 else 0) + count_from n used
count_from n (negsuc m ∷ used) = count_from n used

count_from-le-length : (n : ℕ) (used : List ℤ) → count_from n used ≤ length used
unfolding count_from
count_from-le-length n [] = omega arith
count_from-le-length n (pos m ∷ used) = ground (arith, count_from-le-length n used)
count_from-le-length n (negsuc m ∷ used) = omega (arith, count_from-le-length n used)

count_from-suc-le : (n : ℕ) (used : List ℤ) → count_from (suc n) used ≤ count_from n used
unfolding count_from
count_from-suc-le n [] = omega arith
count_from-suc-le n (pos m ∷ used) = ground (arith, count_from-suc-le n used)
count_from-suc-le n (negsuc m ∷ used) = omega (arith, count_from-suc-le n used)

count_from-suc-lt :
    (n : ℕ) (used : List ℤ)
    → has_ordinal n used ≡ true
    → count_from (suc n) used < count_from n used
unfolding count_from
count_from-suc-lt n [] h = absurd (cc)
count_from-suc-lt n (pos m ∷ used) h =
    ground (arith, count_from-suc-lt n used, count_from-suc-le n used)
count_from-suc-lt n (negsuc m ∷ used) h = count_from-suc-lt n used h

-- The first free ordinal from a start.
pub record IsNext (used : List ℤ) (start n : ℕ) : Type 0 where
  pub free : has_ordinal n used ≡ false
  pub above : start ≤ n
  pub least : (m : ℕ) → start ≤ m → m < n → has_ordinal m used ≡ true

none_from : (n : ℕ) (used : List ℤ) → count_from n used ≡ 0 → has_ordinal n used ≡ false
unfolding count_from
none_from n [] h = refl
none_from n (pos m ∷ used) h = ground (arith, none_from n used)
none_from n (negsuc m ∷ used) h = none_from n used h

next_free-IsNext :
    (fuel : ℕ) (used : List ℤ) (start : ℕ)
    → count_from start used ≤ fuel
    → IsNext used start (next_free fuel used start)
unfolding next_free
next_free-IsNext zero used start enough = record {
  free = none_from start used (omega arith);
  above = omega arith;
  least = λ m h l. absurd (omega arith);
}
next_free-IsNext (suc fuel) used start enough = elim (Bool-cases (has_ordinal start used)) [
  | inr e ↦
      rw (next_free, e)
        (record { free = e; above = omega arith; least = λ m h l. absurd (omega arith) })
  | inl e ↦
      let ih =
        next_free-IsNext fuel used (suc start) (omega (arith, count_from-suc-lt start used e)) in
      rw (next_free, e)
        (record {
          free = ih.free;
          above = omega (arith, ih.above);
          least = λ m h l. elim (Bool-cases (m == start)) [
            | inl same ↦ ground (arith, e)
            | inr other ↦ ih.least m (ground arith) l
          ];
        })
]

abbrev pub Ascending : ℕ → List ℕ → Type 0
Ascending start [] = Unit
Ascending start (x ∷ xs) = (start ≤ x) × Ascending (suc x) xs

abbrev pub has_nat : ℕ → List ℕ → Bool
has_nat m [] = false
has_nat m (x ∷ xs) = x == m || has_nat m xs

-- `n` ordinals from a start up, distinct and not used, below which there is no other free one.
pub record Picked (n : ℕ) (used : List ℤ) (start : ℕ) (picked : List ℕ) : Type 0 where
  pub many : length picked ≡ n
  pub free : All (λ x. has_ordinal x used ≡ false) picked
  pub ascending : Ascending start picked
  pub least :
      All
        (λ x. (m : ℕ) → start ≤ m → m < x → (has_ordinal m used || has_nat m picked) ≡ true)
        picked

All-map : (P Q : ℕ → Type 0) (xs : List ℕ) → ((x : ℕ) → P x → Q x) → All P xs → All Q xs
All-map P Q [] f h = tt
All-map P Q (x ∷ xs) f h = (f x h.0, All-map P Q xs f h.1)

still_free :
    (f x : ℕ) (used : List ℤ) → has_ordinal x (pos f ∷ used) ≡ false → has_ordinal x used ≡ false
still_free f x used h = ground arith

Ascending-after :
    (f : ℕ) (used : List ℤ) (xs : List ℕ)
    → All (λ x. has_ordinal x (pos f ∷ used) ≡ false) xs
    → Ascending f xs
    → Ascending (suc f) xs
Ascending-after f used [] h a = tt
Ascending-after f used (x ∷ xs) h a = (ground (arith, h.0), a.1)

-- What was least after `f` was taken is least from the start.
least_after :
    (f start m : ℕ) (used : List ℤ) (xs : List ℕ)
    → ((k : ℕ) → start ≤ k → k < f → has_ordinal k used ≡ true)
    → start ≤ m
    → (f ≤ m → (has_ordinal m (pos f ∷ used) || has_nat m xs) ≡ true)
    → (has_ordinal m used || has_nat m (f ∷ xs)) ≡ true
least_after f start m used xs below h above = elim (Bool-cases (leb f m)) [
  | inl e ↦ ground (arith, above)
  | inr e ↦ ground (arith, below m h)
]

pub pick_ordinals-Picked :
    (n : ℕ) (used : List ℤ) (start : ℕ) → Picked n used start (pick_ordinals n used start)
unfolding pick_ordinals
pick_ordinals-Picked zero used start = record { many = refl; free = tt; ascending = tt; least = tt }
pick_ordinals-Picked (suc n) used start =
    let f = next_free (length used) used start in
    let next = next_free-IsNext (length used) used start (count_from-le-length start used) in
    let rest = pick_ordinals n (pos f ∷ used) f in
    let ih = pick_ordinals-Picked n (pos f ∷ used) f in
    record {
      many = ap suc ih.many;
      free = (next.free, All-map _ _ rest (λ x h. still_free f x used h) ih.free);
      ascending = (next.above, Ascending-after f used rest ih.free ih.ascending);
      least = (
        λ m h l. ground (arith, next.least m h l),
        All-map _ _ rest
            (λ x h m ge l. least_after f start m used rest next.least ge (λ fm. h m fm l)) ih.least,
      );
    }
