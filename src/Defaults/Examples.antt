-- ===== src/Defaults/Examples.antt =====
-- The defaults of a NodeSet that sets only its name.
use slurm_operator.Api.{NodeSet}
use slurm_operator.Samples.{worker}

abbrev bare : NodeSet
bare = record worker { scaling_mode = ""; update_strategy_type = "" }
