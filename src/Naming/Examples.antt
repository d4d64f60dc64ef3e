-- ===== src/Naming/Examples.antt =====
-- Names of pods, on concrete objects.
use slurm_operator.Prelude.{◌≡◌, refl, true, arith}
use slurm_operator.Prelude.Int.{pos, negsuc}
use slurm_operator.Samples.{worker, pod_named}
use slurm_operator.Naming.{
  get_parent_name_and_ordinal, get_ordinal, get_ordinal_pod_name, is_pod_from_node_set,
}
use slurm_operator.Naming.RoundTrip.{get_parent_name_and_ordinal-get_ordinal_pod_name}

padded_name : get_ordinal_pod_name worker (pos 7) ≡ "slinky-1-007"
unfolding get_ordinal_pod_name
padded_name = refl

parsed_name : get_parent_name_and_ordinal (pod_named "slinky-1-042") ≡ ("slinky-1", pos 42)
unfolding get_parent_name_and_ordinal
parsed_name = refl

no_ordinal : get_ordinal (pod_named "slinky-x") ≡ negsuc 0
unfolding get_ordinal
no_ordinal = refl

out_of_range : get_parent_name_and_ordinal (pod_named "a-2147483648") ≡ ("a", negsuc 0)
unfolding get_parent_name_and_ordinal
out_of_range = refl

dot_is_any : is_pod_from_node_set (record worker { name = "a.b" }) (pod_named "axb-0") ≡ true
unfolding is_pod_from_node_set
dot_is_any = refl

get_parent_name_and_ordinal-get_ordinal_pod_name_example :
    get_parent_name_and_ordinal (pod_named "slinky-1-007") ≡ ("slinky-1", pos 7)
unfolding get_ordinal_pod_name
get_parent_name_and_ordinal-get_ordinal_pod_name_example =
    get_parent_name_and_ordinal-get_ordinal_pod_name worker (pod_named "slinky-1-007") 7
      (omega arith) refl
