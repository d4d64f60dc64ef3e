-- ===== src/Stores/Pushes.antt =====
-- With `Greater` a store of times keeps the latest time pushed for each key.
use text.Mathlib.TextPositions.{eq_refl}
use slurm_operator.Prelude.{
  false, inl, inr, sym, subst, Bool-cases, ℕ, max, ◌≡◌, refl, ap, ◌∙◌, String, Bool, List, [], ◌∷◌,
  arith, str_eq, eq_iff, if◌then◌else◌,
}
use slurm_operator.Stores.{Store, push, peek, time_greater}

unfoldable pub push_all : {V : Type 0} → (V → V → Bool) → List (String × V) → Store V → Store V
push_all eval [] store = store
push_all eval ((k, v) ∷ kvs) store = push_all eval kvs (push eval k v store)

-- The latest of the times that a list holds for a key, and of one more.
unfoldable pub latest : String → ℕ → List (String × ℕ) → ℕ
latest key t [] = t
latest key t ((k, v) ∷ kvs) = latest key (if str_eq k key then max t v else t) kvs

peek-push_same :
    (key : String) (v : ℕ) (store : Store ℕ)
    → peek 0 key (push time_greater key v store) ≡ max (peek 0 key store) v
unfolding peek push
peek-push_same key v store = ground (arith, eq_refl key)

peek-push_other :
    (key k : String) (v : ℕ) (store : Store ℕ)
    → str_eq key k ≡ false
    → peek 0 key (push time_greater k v store) ≡ peek 0 key store
unfolding peek push
peek-push_other key k v store h = ground arith

pub peek-push :
    (key k : String) (v : ℕ) (store : Store ℕ)
    → peek 0 key (push time_greater k v store)
      ≡ (if str_eq k key then max (peek 0 key store) v else peek 0 key store)
peek-push key k v store = elim (Bool-cases (str_eq k key)) [
  | inl same ↦
      let e : k ≡ key = (eq_iff k key).0 same in
      rw same (
        subst (λ j. peek 0 key (push time_greater j v store) ≡ max (peek 0 key store) v) (sym e)
          (peek-push_same key v store))
  | inr other ↦
      rw other (peek-push_other key k v store (ground (arith, eq_iff k key, eq_iff key k)))
]

-- After any pushes, a key has the latest time among the ones pushed for it and the one it had.
pub peek-push_all :
    (key : String) (kvs : List (String × ℕ)) (store : Store ℕ)
    → peek 0 key (push_all time_greater kvs store) ≡ latest key (peek 0 key store) kvs
unfolding push_all latest
peek-push_all key [] store = refl
peek-push_all key ((k, v) ∷ kvs) store =
    peek-push_all key kvs (push time_greater k v store)
    ∙ ap (λ t. latest key t kvs) (peek-push key k v store)
