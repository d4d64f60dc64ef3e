-- ===== src/PodUtils/Drained.antt =====
-- The three views of a draining node that pkg/conditions gives exclude and cover one another.
use slurm_operator.Prelude.{◌≡◌, false, ◌||◌, ◌&&◌, List, arith}
use slurm_operator.Api.{Condition}
use slurm_operator.PodUtils.{PodApi, is_node_drain, is_node_drained, is_node_draining}

-- A node with drain intent is either drained or draining, never both, and no other node is either.
pub drain_split :
    (api : PodApi) (status : List Condition)
    → ((is_node_drained api status || is_node_draining api status) ≡ is_node_drain api status)
      × ((is_node_drained api status && is_node_draining api status) ≡ false)
unfolding is_node_drained is_node_draining
drain_split api status = ground arith
