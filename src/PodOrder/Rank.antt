-- ===== src/PodOrder/Rank.antt =====
-- `Less` is lexicographic comparison, for two pods that are not both cordoned; for two that are
-- and that tie before the cordon, each is less than the other.
use slurm_operator.Prelude.{
  ℕ, ◌≡◌, Bool, true, false, not, ◌&&◌, String, List, [], ◌∷◌, Option, arith, ◌==◌, eq_iff,
}
use slurm_operator.Prelude.Int.{pos_part, neg_part}
use slurm_operator.Api.{Pod}
use slurm_operator.PodUtils.{PodApi}
use slurm_operator.Naming.{get_ordinal}
use slurm_operator.PodOrder.{
  pod_phase_to_weight, is_empty, after_or_zero, pod_ready_time, deletion_cost, deadline, cordoned,
  less, less_by_time, less_by_cordon, less_by_cost,
}
use slurm_operator.PodOrder.Lex.{Key, asc, desc, lex_less}

abbrev pub number : Bool → ℕ
number false = 0
number true = 1

module _ (api : PodApi) (parse_time : String → Option ℕ) where
  abbrev pub time_keys : List (Key Pod)
  time_keys =
      asc (λ pod. number (not (pod_ready_time api parse_time pod == 0)))
      ∷ desc (pod_ready_time api parse_time)
      ∷ asc (λ pod. number (not (pod.creation_timestamp == 0)))
      ∷ desc (λ pod. pod.creation_timestamp)
      ∷ []

  -- A higher integer first: its positive part downwards, then its negative part upwards.
  abbrev pub cordon_keys : List (Key Pod) → List (Key Pod)
  cordon_keys ks =
      asc (λ pod. number (not (cordoned api parse_time pod)))
      ∷ desc (λ pod. pos_part (get_ordinal pod))
      ∷ asc (λ pod. neg_part (get_ordinal pod))
      ∷ ks

  abbrev pub assigned_keys : List (Key Pod) → List (Key Pod)
  assigned_keys ks =
      asc (λ pod. number (not (is_empty pod.node_name)))
      ∷ asc (λ pod. pod_phase_to_weight pod.phase)
      ∷ asc (λ pod. number (api.is_pod_ready pod))
      ∷ ks

  abbrev pub cost_keys : List (Key Pod) → List (Key Pod)
  cost_keys ks =
      asc (λ pod. pos_part (deletion_cost api parse_time pod))
      ∷ desc (λ pod. neg_part (deletion_cost api parse_time pod))
      ∷ asc (deadline api parse_time)
      ∷ ks

  -- Unassigned, phase, readiness, deletion cost, deadline, cordon, ordinal, times.
  abbrev pub keys : List (Key Pod)
  keys = assigned_keys (cost_keys (cordon_keys time_keys))

  pod_ready_time-not_ready :
      (pod : Pod) → api.is_pod_ready pod ≡ false → pod_ready_time api parse_time pod ≡ 0
  unfolding pod_ready_time
  pod_ready_time-not_ready pod h = ground arith

  less_by_time-lex :
      (p q : Pod)
      → api.is_pod_ready p ≡ api.is_pod_ready q
      → less_by_time api parse_time p q ≡ lex_less time_keys p q
  unfolding less_by_time lex_less after_or_zero
  less_by_time-lex p q h = ground (arith, pod_ready_time-not_ready p, pod_ready_time-not_ready q)

  less_by_cordon-lex :
      (ks : List (Key Pod)) (p q : Pod)
      → (cordoned api parse_time p && cordoned api parse_time q) ≡ false
      → less_by_time api parse_time p q ≡ lex_less ks p q
      → less_by_cordon api parse_time p q ≡ lex_less (cordon_keys ks) p q
  unfolding less_by_cordon lex_less
  less_by_cordon-lex ks p q h e = ground arith

  less_by_cost-lex :
      (ks : List (Key Pod)) (p q : Pod)
      → less_by_cordon api parse_time p q ≡ lex_less ks p q
      → less_by_cost api parse_time p q ≡ lex_less (cost_keys ks) p q
  unfolding less_by_cost lex_less
  less_by_cost-lex ks p q e = ground arith

  less-assigned :
      (ks : List (Key Pod)) (p q : Pod)
      → (api.is_pod_ready p ≡ api.is_pod_ready q
          → less_by_cost api parse_time p q ≡ lex_less ks p q)
      → less api parse_time p q ≡ lex_less (assigned_keys ks) p q
  unfolding less lex_less
  less-assigned ks p q e =
      ground (arith, eq_iff p.node_name q.node_name, eq_iff p.node_name "", eq_iff q.node_name "")

  -- For two pods that are not both cordoned `Less` compares the keys in turn: unassigned first,
  -- then by phase, readiness, deletion cost, deadline, cordon, higher ordinal, and last the later
  -- ready and creation times, with no time at all before any.
  pub less-lex :
      (p q : Pod)
      → (cordoned api parse_time p && cordoned api parse_time q) ≡ false
      → less api parse_time p q ≡ lex_less keys p q
  less-lex p q h = less-assigned (cost_keys (cordon_keys time_keys)) p q (λ e.
      less_by_cost-lex (cordon_keys time_keys) p q
        (less_by_cordon-lex time_keys p q h (less_by_time-lex p q e)))
