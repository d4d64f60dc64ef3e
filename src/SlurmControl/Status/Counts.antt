-- ===== src/SlurmControl/Status/Counts.antt =====
-- What the counters of `CalculateNodeStatus` count.
use slurm_operator.Prelude.{
  ◌+◌, ◌≤◌, String, Bool, true, ◌&&◌, ◌||◌, ◌≡◌, refl, List, [], ◌∷◌, arith, count_if, none, map,
  Bool-cases, inl, inr,
}
use slurm_operator.Api.{Pod, ok}
use slurm_operator.Naming.{get_slurm_node_name}
use slurm_operator.Effects.{NodeState, SlurmNode, Env, Trace}
use slurm_operator.Effects
use slurm_operator.SlurmControl.{has}
use slurm_operator.SlurmControl.Status.Flags.{base_sum, one, count_flags_sum, count_flags_lem}
use slurm_operator.SlurmControl.Status.Bases.{listed, BasesCounted, count_nodes-BasesCounted}
use slurm_operator.SlurmControl.Status.{
  SlurmNodeStatus, no_status, count_base, count_node, count_nodes, calculate_node_status,
}

abbrev pub has_base : SlurmNode → Bool
has_base node =
    has node Effects.allocated
    || (has node Effects.down
        || (has node Effects.error
            || (has node Effects.future
                || (has node Effects.idle
                    || (has node Effects.mixed || has node Effects.unknown)))))

count_base_sum :
    (node : SlurmNode) (s : SlurmNodeStatus)
    → base_sum (count_base node s) ≡ base_sum s + one (has_base node)
unfolding count_base one
count_base_sum node s = ground arith

-- `t` is `s` with the states of some nodes added: every counter grows by how many of the nodes
-- that belong to a pod have the state, and the sum of the base states by how many have one.
pub record Counted (names : List String) (nodes : List SlurmNode) (s t : SlurmNodeStatus)
    : Type 0 where
  pub all : t.total ≡ s.total + count_if (listed names) nodes
  pub base : base_sum t ≡ base_sum s + count_if (λ n. listed names n && has_base n) nodes
  pub completing :
      t.completing ≡ s.completing + count_if (λ n. listed names n && has n Effects.completing) nodes
  pub drain : t.drain ≡ s.drain + count_if (λ n. listed names n && has n Effects.drain) nodes
  pub fail : t.fail ≡ s.fail + count_if (λ n. listed names n && has n Effects.fail) nodes
  pub invalid :
      t.invalid ≡ s.invalid + count_if (λ n. listed names n && has n Effects.invalid) nodes
  pub invalid_reg :
      t.invalid_reg
      ≡ s.invalid_reg + count_if (λ n. listed names n && has n Effects.invalid_reg) nodes
  pub maintenance :
      t.maintenance
      ≡ s.maintenance + count_if (λ n. listed names n && has n Effects.maintenance) nodes
  pub not_responding :
      t.not_responding
      ≡ s.not_responding + count_if (λ n. listed names n && has n Effects.not_responding) nodes
  pub undrain :
      t.undrain ≡ s.undrain + count_if (λ n. listed names n && has n Effects.undrain) nodes

-- Counting a base state leaves the total and the flags.
record SameFlags (s t : SlurmNodeStatus) : Type 0 where
  all : t.total ≡ s.total
  completing : t.completing ≡ s.completing
  drain : t.drain ≡ s.drain
  fail : t.fail ≡ s.fail
  invalid : t.invalid ≡ s.invalid
  invalid_reg : t.invalid_reg ≡ s.invalid_reg
  maintenance : t.maintenance ≡ s.maintenance
  not_responding : t.not_responding ≡ s.not_responding
  undrain : t.undrain ≡ s.undrain

count_base_lem : (node : SlurmNode) (s : SlurmNodeStatus) → SameFlags s (count_base node s)
unfolding count_base
count_base_lem node s = record {
  all = ground arith;
  completing = ground arith;
  drain = ground arith;
  fail = ground arith;
  invalid = ground arith;
  invalid_reg = ground arith;
  maintenance = ground arith;
  not_responding = ground arith;
  undrain = ground arith;
}

count_node_lem :
    (names : List String) (node : SlurmNode) (s : SlurmNodeStatus)
    → Counted names (node ∷ []) s (count_node names s node)
unfolding count_node one
count_node_lem names node s = elim (Bool-cases (listed names node)) [
  | inr off ↦ record {
    all = ground (arith, off);
    base = ground (arith, off);
    completing = ground (arith, off);
    drain = ground (arith, off);
    fail = ground (arith, off);
    invalid = ground (arith, off);
    invalid_reg = ground (arith, off);
    maintenance = ground (arith, off);
    not_responding = ground (arith, off);
    undrain = ground (arith, off);
  }
  | inl on ↦
      let s1 : SlurmNodeStatus = record s { total = s.total + 1 } in
      let s2 = count_base node s1 in
      let b = count_base_lem node s1 in
      let f = count_flags_lem node s2 in
      record {
        all = ground (arith, on, b.all, f.all);
        base = ground (arith, on, count_base_sum node s1, count_flags_sum node s2);
        completing = ground (arith, on, b.completing, f.completing);
        drain = ground (arith, on, b.drain, f.drain);
        fail = ground (arith, on, b.fail, f.fail);
        invalid = ground (arith, on, b.invalid, f.invalid);
        invalid_reg = ground (arith, on, b.invalid_reg, f.invalid_reg);
        maintenance = ground (arith, on, b.maintenance, f.maintenance);
        not_responding = ground (arith, on, b.not_responding, f.not_responding);
        undrain = ground (arith, on, b.undrain, f.undrain);
      }
]

count_if-and :
    (p q : SlurmNode → Bool) (nodes : List SlurmNode)
    → count_if (λ n. p n && q n) nodes ≤ count_if p nodes
count_if-and p q [] = omega arith
count_if-and p q (n ∷ nodes) = ground (arith, count_if-and p q nodes)

count_nodes-Counted :
    (names : List String) (nodes : List SlurmNode) (s : SlurmNodeStatus)
    → Counted names nodes s (count_nodes names nodes s)
unfolding count_nodes
count_nodes-Counted names [] s = record {
  all = omega arith;
  base = omega arith;
  completing = omega arith;
  drain = omega arith;
  fail = omega arith;
  invalid = omega arith;
  invalid_reg = omega arith;
  maintenance = omega arith;
  not_responding = omega arith;
  undrain = omega arith;
}
count_nodes-Counted names (node ∷ nodes) s =
    let a = count_node_lem names node s in
    let b = count_nodes-Counted names nodes (count_node names s node) in
    record {
      all = omega (arith, a.all, b.all);
      base = omega (arith, a.base, b.base);
      completing = omega (arith, a.completing, b.completing);
      drain = omega (arith, a.drain, b.drain);
      fail = omega (arith, a.fail, b.fail);
      invalid = omega (arith, a.invalid, b.invalid);
      invalid_reg = omega (arith, a.invalid_reg, b.invalid_reg);
      maintenance = omega (arith, a.maintenance, b.maintenance);
      not_responding = omega (arith, a.not_responding, b.not_responding);
      undrain = omega (arith, a.undrain, b.undrain);
    }

-- With a client that lists the nodes, `CalculateNodeStatus` counts, for the total and for each
-- flag, the listed nodes of the pods that have it, and for each base state those that have it and
-- no base state that comes before it; so the base states add up to the nodes that have one, which
-- are at most the total.
pub calculate_node_status-Counted :
    (env : Env) (pods : List Pod) (tr : Trace) (nodes : List SlurmNode)
    → env.has_slurm_client tr ≡ true
    → env.list_slurm_nodes tr ≡ ok nodes
    → let answer = (calculate_node_status env pods tr).0 in
      Counted (map get_slurm_node_name pods) nodes no_status answer.0
      × BasesCounted (map get_slurm_node_name pods) nodes no_status answer.0
      × (base_sum answer.0 ≤ answer.0.total)
      × (answer.1 ≡ none)
unfolding calculate_node_status
calculate_node_status-Counted env pods tr nodes client listed_nodes =
    let names = map get_slurm_node_name pods in
    let c = count_nodes-Counted names nodes no_status in
    rw (client, listed_nodes)
      (
        c,
        count_nodes-BasesCounted names nodes no_status,
        omega (arith, c.all, c.base, count_if-and (listed names) has_base nodes),
        refl,
      )
