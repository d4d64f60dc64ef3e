-- ===== src/Stores/Examples.antt =====
-- Runs of the stores.
use slurm_operator.Prelude.{ℕ, String, ◌≡◌, refl, List, [], ◌∷◌}
use slurm_operator.Prelude.Int.{negsuc}
use slurm_operator.Stores.{empty, time_greater, duration_greater, peek, push_duration, pop_duration}
use slurm_operator.Stores.Pushes.{push_all, latest, peek-push_all}

abbrev pushed : List (String × ℕ)
pushed = ("a", 3) ∷ ("b", 9) ∷ ("a", 7) ∷ ("a", 5) ∷ []

peek-push_all_example : peek 0 "a" (push_all time_greater pushed empty) ≡ 7
unfolding peek latest
peek-push_all_example = peek-push_all "a" pushed empty

-- A negative duration is kept while nothing else is pushed, and 0 is what an empty store gives.
keeps_negative :
    (pop_duration "k" (push_duration duration_greater "k" (negsuc 4) empty)).0 ≡ negsuc 4
unfolding pop_duration push_duration
keeps_negative = refl
