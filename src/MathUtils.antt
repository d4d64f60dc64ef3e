-- ===== src/MathUtils.antt =====
-- internal/utils/mathutils/math.go: `Clamp` at Go's integers, and the scaling of a count or a
-- percentage with a default. `intstr.GetScaledValueFromIntOrPercent` is a parameter, with `none`
-- for its error.
pub mod Bounds
use slurm_operator.Prelude.{Bool, true, Option, none, some, if◌then◌else◌}
use slurm_operator.Prelude.Int.{ℤ, min_ℤ, max_ℤ}
use slurm_operator.Api.{IntOrString}

unfoldable pub clamp : ℤ → ℤ → ℤ → ℤ
clamp val a b = let lower = min_ℤ a b in let upper = max_ℤ a b in min_ℤ (max_ℤ val lower) upper

unfoldable pub get_scaled_value :
    (Option IntOrString → ℤ → Bool → Option ℤ) → Option IntOrString → ℤ → Bool → ℤ → ℤ
get_scaled_value scaled int_or_percent total round_up default_value =
    elim (scaled int_or_percent total round_up) [ none ↦ default_value | some val ↦ val ]
