-- ===== src/ClientMap/Examples.antt =====
-- A client that is replaced is stopped.
use slurm_operator.Prelude.{◌≡◌, refl, List, [], ◌∷◌}
use slurm_operator.ClientMap.{
  Op, add_op, remove_op, run_ops, new_client_map, add, remove, started, stopped,
}
use slurm_operator.ClientMap.Running.{Balanced, run_ops-Balanced}

abbrev ops : List Op
ops = add_op "a" 1 ∷ add_op "b" 2 ∷ add_op "a" 3 ∷ remove_op "b" ∷ []

left : run_ops ops new_client_map ≡ record {
  clients = ("a", 3) ∷ [];
  log = stopped 2 ∷ started 3 ∷ stopped 1 ∷ started 2 ∷ started 1 ∷ [];
}
unfolding add remove
left = refl

run_ops-Balanced_example : Balanced (run_ops ops new_client_map)
run_ops-Balanced_example = run_ops-Balanced ops
