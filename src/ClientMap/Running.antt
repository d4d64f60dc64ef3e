-- ===== src/ClientMap/Running.antt =====
-- The clients that run are the ones of the map.
use slurm_operator.Prelude.{
  ℕ, ◌+◌, ◌==◌, String, Bool, true, false, ◌≡◌, refl, sym, ap, ◌∙◌, inl, inr, List, [], ◌∷◌, Option,
  none, some, str_eq, Bool-cases, arith,
}
use slurm_operator.ClientMap.{
  Event, started, stopped, ClientMap, new_client_map, lookup, drop_name, stop_found, remove,
  start_missing, add_new, add, Op, add_op, remove_op, step, run_ops,
}

abbrev pub one_if : Bool → ℕ
one_if true = 1
one_if false = 0

-- How often a client was started, stopped, and is in the map.
abbrev pub starts : ℕ → List Event → ℕ
starts c [] = 0
starts c (started d ∷ log) = one_if (c == d) + starts c log
starts c (stopped d ∷ log) = starts c log

abbrev pub stops : ℕ → List Event → ℕ
stops c [] = 0
stops c (started d ∷ log) = stops c log
stops c (stopped d ∷ log) = one_if (c == d) + stops c log

abbrev pub held : ℕ → List (String × ℕ) → ℕ
held c [] = 0
held c ((n, d) ∷ m) = one_if (c == d) + held c m

abbrev pub Balanced : ClientMap → Type 0
Balanced m = (c : ℕ) → starts c m.log ≡ stops c m.log + held c m.clients

some-inj : {a b : ℕ} → some a ≡ some b → a ≡ b
some-inj p = cc p

held-drop_name :
    (name : String) (d c : ℕ) (m : List (String × ℕ))
    → lookup name m ≡ some d
    → held c m ≡ one_if (c == d) + held c (drop_name name m)
unfolding lookup drop_name
held-drop_name name d c [] e = absurd (cc)
held-drop_name name d c ((n, x) ∷ m) e = elim (Bool-cases (str_eq n name)) [
  | inl f ↦
      let same : some x ≡ some d = sym (rw f refl) ∙ e in
      rw f (ap (λ y. one_if (c == y) + held c m) (some-inj same))
  | inr f ↦
      let below : lookup name m ≡ some d = sym (rw f refl) ∙ e in
      rw f (omega (arith, held-drop_name name d c m below))
]

remove-Balanced : (name : String) (m : ClientMap) → Balanced m → Balanced (remove name m).1
unfolding remove
remove-Balanced name m h = go (lookup name m.clients) refl
  where
    go : (o : Option ℕ) → lookup name m.clients ≡ o → Balanced (stop_found name m o).1
    go none e = h
    go (some d) e = λ c. omega (arith, h c, held-drop_name name d c m.clients e)

add_new-Balanced :
    (name : String) (d : ℕ) (m : ClientMap) → Balanced m → Balanced (add_new name d m).1
unfolding add_new
add_new-Balanced name d m h = go (lookup name m.clients)
  where
    go : (o : Option ℕ) → Balanced (start_missing name d m o).1
    go none = λ c. omega (arith, h c)
    go (some x) = h

step-Balanced : (op : Op) (m : ClientMap) → Balanced m → Balanced (step op m)
unfolding add
step-Balanced (add_op name d) m h = add_new-Balanced name d _ (remove-Balanced name m h)
step-Balanced (remove_op name) m h = remove-Balanced name m h

run_ops-from : (ops : List Op) (m : ClientMap) → Balanced m → Balanced (run_ops ops m)
run_ops-from [] m h = h
run_ops-from (op ∷ ops) m h = run_ops-from ops (step op m) (step-Balanced op m h)

-- After any operations on a new map every client was started as often as it was stopped and is in
-- the map: what runs is what the map holds.
pub run_ops-Balanced : (ops : List Op) → Balanced (run_ops ops new_client_map)
run_ops-Balanced ops = run_ops-from ops new_client_map (λ c. refl)
