-- ===== src/Defaults.antt =====
-- internal/defaults/nodeset.go: the defaults of a NodeSet.
pub mod Stable
mod Examples
use slurm_operator.Prelude.{String, Bool, true, false, Option, none, some, str_eq, if◌then◌else◌}
use slurm_operator.Prelude.Int.{pos}
use slurm_operator.Api.{NodeSet, IntOrString, str_val}
use slurm_operator.Api.WellKnown.{stateful_set, rolling_update, retain}

abbrev pub or_some {ℓ} : {A : Type ℓ} → Option A → A → Option A
or_some none a = some a
or_some (some b) a = some b

abbrev pub or_text : String → String → String
or_text s default = if str_eq s "" then default else s

-- The limit of a rolling update, for the type of the update that was set before.
abbrev pub default_max : String → Option IntOrString → Option IntOrString
default_max kind max = if str_eq kind rolling_update then or_some max (str_val "25%") else max

unfoldable pub set_node_set_defaults : NodeSet → NodeSet
set_node_set_defaults nodeset =
    let kind = or_text nodeset.update_strategy_type rolling_update in
    record nodeset {
      replicas = or_some nodeset.replicas (pos 1);
      scaling_mode = or_text nodeset.scaling_mode stateful_set;
      workload_disruption_protection = or_some nodeset.workload_disruption_protection true;
      update_strategy_type = kind;
      max_unavailable = default_max kind nodeset.max_unavailable;
      when_deleted = or_text nodeset.when_deleted retain;
      when_scaled = or_text nodeset.when_scaled retain;
    }
