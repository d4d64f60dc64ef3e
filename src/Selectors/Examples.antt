-- ===== src/Selectors/Examples.antt =====
-- Labels of a NodeSet and of a login set of the same name.
use slurm_operator.Prelude.{String, ◌≡◌, refl, ◌↔◌, [], ◌∷◌}
use slurm_operator.Selectors.{new_builder, with_worker_labels}
use slurm_operator.Selectors.Matching.{worker, Selects, selector_of, labels_of, selector_of-Selects}

worker_labels :
    with_worker_labels new_builder "slinky" "slurm"
    ≡ ("app.kubernetes.io/name", "slurmd")
      ∷ ("app.kubernetes.io/instance", "slinky")
      ∷ ("app.kubernetes.io/component", "worker")
      ∷ ("slinky.slurm.net/cluster", "slurm")
      ∷ []
unfolding with_worker_labels
worker_labels = refl

abbrev name : String
name = "a"

selector_of-Selects_example :
    Selects
      (selector_of worker name)
      (labels_of (("app.kubernetes.io/name", "x") ∷ []) worker name "slurm")
    ↔ ((worker ≡ worker) × (name ≡ name))
selector_of-Selects_example =
    selector_of-Selects worker worker name name "slurm" (("app.kubernetes.io/name", "x") ∷ [])
