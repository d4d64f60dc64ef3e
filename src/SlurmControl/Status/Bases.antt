-- ===== src/SlurmControl/Status/Bases.antt =====
-- The counters of base states: a node counts for the first of its base states, in their order.
use slurm_operator.Prelude.{
  ℕ, ◌+◌, String, Bool, ◌&&◌, not, ◌≡◌, refl, List, [], ◌∷◌, arith, count_if, has_str, Bool-cases,
  inl, inr,
}
use slurm_operator.Effects.{NodeState, SlurmNode}
use slurm_operator.Effects
use slurm_operator.SlurmControl.{has, or_empty}
use slurm_operator.SlurmControl.Status.Flags.{one, count_flags-BasesKept}
use slurm_operator.SlurmControl.Status.{
  SlurmNodeStatus, count_base, count_flags, count_node, count_nodes,
}

abbrev pub listed : List String → SlurmNode → Bool
listed names node = has_str (or_empty node.name) names

-- The node has the state and none of the earlier ones.
abbrev pub is_first : List NodeState → NodeState → SlurmNode → Bool
is_first [] state node = has node state
is_first (other ∷ earlier) state node = not (has node other) && is_first earlier state node

-- `t` is `s` with the base states of some nodes added, of those that belong to a pod.
pub record BasesCounted (names : List String) (nodes : List SlurmNode) (s t : SlurmNodeStatus)
    : Type 0 where
  pub allocated :
      t.allocated
      ≡ s.allocated + count_if (λ n. listed names n && is_first [] Effects.allocated n) nodes
  pub down :
      t.down
      ≡ s.down
        + count_if (λ n. listed names n && is_first (Effects.allocated ∷ []) Effects.down n) nodes
  pub error :
      t.error
      ≡ s.error
        + count_if
            (λ n.
              listed names n && is_first (Effects.allocated ∷ Effects.down ∷ []) Effects.error n)
            nodes
  pub future :
      t.future
      ≡ s.future
        + count_if
            (λ n.
              listed names n
              && is_first (Effects.allocated ∷ Effects.down ∷ Effects.error ∷ []) Effects.future n)
            nodes
  pub idle :
      t.idle
      ≡ s.idle
        + count_if
            (λ n.
              listed names n
              && is_first
                  (Effects.allocated ∷ Effects.down ∷ Effects.error ∷ Effects.future ∷ [])
                  Effects.idle
                  n)
            nodes
  pub mixed :
      t.mixed
      ≡ s.mixed
        + count_if
            (λ n.
              listed names n
              && is_first
                  (Effects.allocated ∷ Effects.down ∷ Effects.error ∷ Effects.future ∷ Effects.idle
                    ∷ [])
                  Effects.mixed
                  n)
            nodes
  pub unknown :
      t.unknown
      ≡ s.unknown
        + count_if
            (λ n.
              listed names n
              && is_first
                  (Effects.allocated ∷ Effects.down ∷ Effects.error ∷ Effects.future ∷ Effects.idle
                    ∷ Effects.mixed ∷ [])
                  Effects.unknown
                  n)
            nodes

-- A counter that only the switch over base states changes.
module _ (g : SlurmNodeStatus → ℕ) (test : SlurmNode → Bool)
    (total : (s : SlurmNodeStatus) (n : ℕ) → g (record s { total = n }) ≡ g s)
    (flags : (node : SlurmNode) (s : SlurmNodeStatus) → g (count_flags node s) ≡ g s)
    (base : (node : SlurmNode) (s : SlurmNodeStatus)
      → g (count_base node s) ≡ g s + one (test node)) where
  count_node-grows :
      (names : List String) (node : SlurmNode) (s : SlurmNodeStatus)
      → g (count_node names s node) ≡ g s + one (listed names node && test node)
  unfolding count_node one
  count_node-grows names node s = elim (Bool-cases (listed names node)) [
    | inr off ↦ rw off (omega arith)
    | inl on ↦
        let s1 : SlurmNodeStatus = record s { total = s.total + 1 } in
        rw on (omega (arith, flags node (count_base node s1), base node s1, total s (s.total + 1)))
  ]

  count_nodes-grows :
      (names : List String) (nodes : List SlurmNode) (s : SlurmNodeStatus)
      → g (count_nodes names nodes s) ≡ g s + count_if (λ n. listed names n && test n) nodes
  unfolding count_nodes one
  count_nodes-grows names [] s = omega arith
  count_nodes-grows names (node ∷ nodes) s = ground (
    arith,
    count_node-grows names node s,
    count_nodes-grows names nodes (count_node names s node),
  )

pub count_nodes-BasesCounted :
    (names : List String) (nodes : List SlurmNode) (s : SlurmNodeStatus)
    → BasesCounted names nodes s (count_nodes names nodes s)
unfolding count_base one
count_nodes-BasesCounted names nodes s = record {
  allocated =
      count_nodes-grows (λ t. t.allocated) _ (λ t n. refl)
        (λ d t. (count_flags-BasesKept d t).allocated) (λ d t. ground arith) names nodes s;
  down =
      count_nodes-grows (λ t. t.down) _ (λ t n. refl) (λ d t. (count_flags-BasesKept d t).down)
        (λ d t. ground arith) names nodes s;
  error =
      count_nodes-grows (λ t. t.error) _ (λ t n. refl) (λ d t. (count_flags-BasesKept d t).error)
        (λ d t. ground arith) names nodes s;
  future =
      count_nodes-grows (λ t. t.future) _ (λ t n. refl) (λ d t. (count_flags-BasesKept d t).future)
        (λ d t. ground arith) names nodes s;
  idle =
      count_nodes-grows (λ t. t.idle) _ (λ t n. refl) (λ d t. (count_flags-BasesKept d t).idle)
        (λ d t. ground arith) names nodes s;
  mixed =
      count_nodes-grows (λ t. t.mixed) _ (λ t n. refl) (λ d t. (count_flags-BasesKept d t).mixed)
        (λ d t. ground arith) names nodes s;
  unknown =
      count_nodes-grows (λ t. t.unknown) _ (λ t n. refl)
        (λ d t. (count_flags-BasesKept d t).unknown) (λ d t. ground arith) names nodes s;
}
