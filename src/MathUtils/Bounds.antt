-- ===== src/MathUtils/Bounds.antt =====
-- `Clamp` stays in its range, keeps what is in range, and does not mind the order of its bounds.
use slurm_operator.Prelude.{◌≡◌, arith}
use slurm_operator.Prelude.Int.{ℤ, min_ℤ, max_ℤ, ◌≤ℤ◌, eq_of_parts}
use slurm_operator.MathUtils.{clamp}

-- The clamped value lies between the bounds, whichever is the smaller; a value between them is
-- kept; and the bounds may be swapped.
pub clamp_lem :
    (val a b : ℤ)
    → (min_ℤ a b ≤ℤ clamp val a b)
      × (clamp val a b ≤ℤ max_ℤ a b)
      × (a ≤ℤ val → val ≤ℤ b → clamp val a b ≡ val)
      × (clamp val a b ≡ clamp val b a)
unfolding clamp
clamp_lem val a b = (
  ground arith,
  ground arith,
  λ h k. eq_of_parts _ _ (ground arith),
  eq_of_parts _ _ (ground arith),
)
