-- ===== src/SlurmControl/Status/Flags.antt =====
-- What counting the flags of a node does to each counter.
use slurm_operator.Prelude.{
  ℕ, ◌+◌, ◌*◌, String, Bool, ◌≡◌, arith, if◌then◌else◌, Bool-cases, inl, inr,
}
use slurm_operator.Effects.{NodeState, SlurmNode, Env, Trace}
use slurm_operator.Effects
use slurm_operator.SlurmControl.{has}
use slurm_operator.SlurmControl.Status.{
  with_state, count_flag, add_completing, add_drain, add_fail, add_invalid, add_invalid_reg,
  add_maintenance, add_not_responding, add_undrain, SlurmNodeStatus, count_flags,
}

-- The sum of the counters of base states.
abbrev pub base_sum : SlurmNodeStatus → ℕ
base_sum s = s.allocated + s.down + s.error + s.future + s.idle + s.mixed + s.unknown

unfoldable pub one : Bool → ℕ
one b = if b then 1 else 0

module _ (g : SlurmNodeStatus → ℕ) (node : SlurmNode) where
  count_flag_lem :
      (state : NodeState) (kind : String) (add : SlurmNodeStatus → SlurmNodeStatus) (d : ℕ)
      (s : SlurmNodeStatus)
      → g (add (with_state node kind s)) ≡ g s + d
      → g (count_flag node state kind add s) ≡ g s + d * one (has node state)
  unfolding count_flag one
  count_flag_lem state kind add d s h = elim (Bool-cases (has node state)) [
    | inl e ↦ rw (count_flag, e) (omega (arith, h))
    | inr e ↦ rw (count_flag, e) (omega arith)
  ]

  -- What each flag adds to `g`, whatever the node.
  record Weights (d1 d2 d3 d4 d5 d6 d7 d8 : ℕ) : Type 0 where
    of_completing :
        (kind : String) (t : SlurmNodeStatus)
        → g (add_completing (with_state node kind t)) ≡ g t + d1
    of_drain :
        (kind : String) (t : SlurmNodeStatus) → g (add_drain (with_state node kind t)) ≡ g t + d2
    of_fail :
        (kind : String) (t : SlurmNodeStatus) → g (add_fail (with_state node kind t)) ≡ g t + d3
    of_invalid :
        (kind : String) (t : SlurmNodeStatus) → g (add_invalid (with_state node kind t)) ≡ g t + d4
    of_invalid_reg :
        (kind : String) (t : SlurmNodeStatus)
        → g (add_invalid_reg (with_state node kind t)) ≡ g t + d5
    of_maintenance :
        (kind : String) (t : SlurmNodeStatus)
        → g (add_maintenance (with_state node kind t)) ≡ g t + d6
    of_not_responding :
        (kind : String) (t : SlurmNodeStatus)
        → g (add_not_responding (with_state node kind t)) ≡ g t + d7
    of_undrain :
        (kind : String) (t : SlurmNodeStatus) → g (add_undrain (with_state node kind t)) ≡ g t + d8

  count_flags-weighted :
      (d1 d2 d3 d4 d5 d6 d7 d8 : ℕ) (s : SlurmNodeStatus)
      → Weights d1 d2 d3 d4 d5 d6 d7 d8
      → g (count_flags node s)
        ≡ g s
          + d1 * one (has node Effects.completing)
          + d2 * one (has node Effects.drain)
          + d3 * one (has node Effects.fail)
          + d4 * one (has node Effects.invalid)
          + d5 * one (has node Effects.invalid_reg)
          + d6 * one (has node Effects.maintenance)
          + d7 * one (has node Effects.not_responding)
          + d8 * one (has node Effects.undrain)
  unfolding count_flags
  count_flags-weighted d1 d2 d3 d4 d5 d6 d7 d8 s w =
      let s1 = count_flag node Effects.completing "SlurmNodeStateCompleting" add_completing s in
      let e1 =
        count_flag_lem Effects.completing "SlurmNodeStateCompleting" add_completing d1 s
          (w.of_completing _ s) in
      let s2 = count_flag node Effects.drain "SlurmNodeStateDrain" add_drain s1 in
      let e2 =
        count_flag_lem Effects.drain "SlurmNodeStateDrain" add_drain d2 s1 (w.of_drain _ s1) in
      let s3 = count_flag node Effects.fail "SlurmNodeStateFail" add_fail s2 in
      let e3 = count_flag_lem Effects.fail "SlurmNodeStateFail" add_fail d3 s2 (w.of_fail _ s2) in
      let s4 = count_flag node Effects.invalid "SlurmNodeStateInvalid" add_invalid s3 in
      let e4 =
        count_flag_lem Effects.invalid "SlurmNodeStateInvalid" add_invalid d4 s3
          (w.of_invalid _ s3) in
      let s5 = count_flag node Effects.invalid_reg "SlurmNodeStateInvalidReg" add_invalid_reg s4 in
      let e5 =
        count_flag_lem Effects.invalid_reg "SlurmNodeStateInvalidReg" add_invalid_reg d5 s4
          (w.of_invalid_reg _ s4) in
      let s6 = count_flag node Effects.maintenance "SlurmNodeStateMaintenance" add_maintenance s5 in
      let e6 =
        count_flag_lem Effects.maintenance "SlurmNodeStateMaintenance" add_maintenance d6 s5
          (w.of_maintenance _ s5) in
      let s7 =
        count_flag node Effects.not_responding "SlurmNodeStateNotResponding" add_not_responding
          s6 in
      let e7 =
        count_flag_lem Effects.not_responding "SlurmNodeStateNotResponding" add_not_responding d7 s6
          (w.of_not_responding _ s6) in
      let s8 = count_flag node Effects.undrain "SlurmNodeStateUndrain" add_undrain s7 in
      let e8 =
        count_flag_lem Effects.undrain "SlurmNodeStateUndrain" add_undrain d8 s7
          (w.of_undrain _ s7) in
      omega (arith, e1, e2, e3, e4, e5, e6, e7, e8)

-- One node, before its base state is counted and after.
pub record Step (node : SlurmNode) (s t : SlurmNodeStatus) : Type 0 where
  pub all : t.total ≡ s.total
  pub completing : t.completing ≡ s.completing + one (has node Effects.completing)
  pub drain : t.drain ≡ s.drain + one (has node Effects.drain)
  pub fail : t.fail ≡ s.fail + one (has node Effects.fail)
  pub invalid : t.invalid ≡ s.invalid + one (has node Effects.invalid)
  pub invalid_reg : t.invalid_reg ≡ s.invalid_reg + one (has node Effects.invalid_reg)
  pub maintenance : t.maintenance ≡ s.maintenance + one (has node Effects.maintenance)
  pub not_responding : t.not_responding ≡ s.not_responding + one (has node Effects.not_responding)
  pub undrain : t.undrain ≡ s.undrain + one (has node Effects.undrain)

pub count_flags_sum :
    (node : SlurmNode) (s : SlurmNodeStatus) → base_sum (count_flags node s) ≡ base_sum s
count_flags_sum node s =
    omega (arith, count_flags-weighted base_sum node 0 0 0 0 0 0 0 0 s (ground arith))

pub count_flags_lem : (node : SlurmNode) (s : SlurmNodeStatus) → Step node s (count_flags node s)
unfolding one
count_flags_lem node s = record {
  all = omega (arith, count_flags-weighted (λ t. t.total) node 0 0 0 0 0 0 0 0 s (ground arith));
  completing =
      omega (arith, count_flags-weighted (λ t. t.completing) node 1 0 0 0 0 0 0 0 s (ground arith));
  drain = omega (arith, count_flags-weighted (λ t. t.drain) node 0 1 0 0 0 0 0 0 s (ground arith));
  fail = omega (arith, count_flags-weighted (λ t. t.fail) node 0 0 1 0 0 0 0 0 s (ground arith));
  invalid =
      omega (arith, count_flags-weighted (λ t. t.invalid) node 0 0 0 1 0 0 0 0 s (ground arith));
  invalid_reg =
      omega
        (arith, count_flags-weighted (λ t. t.invalid_reg) node 0 0 0 0 1 0 0 0 s (ground arith));
  maintenance =
      omega
        (arith, count_flags-weighted (λ t. t.maintenance) node 0 0 0 0 0 1 0 0 s (ground arith));
  not_responding =
      omega
        (arith, count_flags-weighted (λ t. t.not_responding) node 0 0 0 0 0 0 1 0 s (ground arith));
  undrain =
      omega (arith, count_flags-weighted (λ t. t.undrain) node 0 0 0 0 0 0 0 1 s (ground arith));
}

-- No flag changes a counter of a base state.
pub record BasesKept (s t : SlurmNodeStatus) : Type 0 where
  pub allocated : t.allocated ≡ s.allocated
  pub down : t.down ≡ s.down
  pub error : t.error ≡ s.error
  pub future : t.future ≡ s.future
  pub idle : t.idle ≡ s.idle
  pub mixed : t.mixed ≡ s.mixed
  pub unknown : t.unknown ≡ s.unknown

pub count_flags-BasesKept :
    (node : SlurmNode) (s : SlurmNodeStatus) → BasesKept s (count_flags node s)
count_flags-BasesKept node s = record {
  allocated =
      omega (arith, count_flags-weighted (λ t. t.allocated) node 0 0 0 0 0 0 0 0 s (ground arith));
  down = omega (arith, count_flags-weighted (λ t. t.down) node 0 0 0 0 0 0 0 0 s (ground arith));
  error = omega (arith, count_flags-weighted (λ t. t.error) node 0 0 0 0 0 0 0 0 s (ground arith));
  future =
      omega (arith, count_flags-weighted (λ t. t.future) node 0 0 0 0 0 0 0 0 s (ground arith));
  idle = omega (arith, count_flags-weighted (λ t. t.idle) node 0 0 0 0 0 0 0 0 s (ground arith));
  mixed = omega (arith, count_flags-weighted (λ t. t.mixed) node 0 0 0 0 0 0 0 0 s (ground arith));
  unknown =
      omega (arith, count_flags-weighted (λ t. t.unknown) node 0 0 0 0 0 0 0 0 s (ground arith));
}
