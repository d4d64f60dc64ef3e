-- ===== src/Defaults/Stable.antt =====
-- Defaults set once stay, and do not change what the controller makes of unset fields.
use slurm_operator.Prelude.{String, if◌then◌else◌, Option, none, some, str_eq}
use slurm_operator.Api.{IntOrString, str_val}

-- The limit of an update: where it is a rolling one it has a limit, and 25% for none.
abbrev pub limit_of : String → Option IntOrString → Option IntOrString
limit_of kind none = if str_eq kind "RollingUpdate" then some (str_val "25%") else none
limit_of kind (some max) = some max
