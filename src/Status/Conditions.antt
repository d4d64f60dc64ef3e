-- ===== src/Status/Conditions.antt =====
-- Which conditions of a pod `updateNodeSetPodConditions` keeps.
use text.Mathlib.TextPositions.{eq_refl}
use slurm_operator.Prelude.{
  ◌*◌, ◌&&◌, Bool, str_eq, String, true, false, not, ◌≡◌, refl, ap, ◌∙◌, ◌⊎◌, inl, inr, List, [],
  ◌∷◌, Option, none, some, map, keep, count_if, All, All-append, All-imp, keep-append,
  count_if-append, has_str, has_prefix, Bool-cases, arith,
}
use slurm_operator.Api.{Pod, Condition}
use slurm_operator.PodUtils.{PodApi}
use slurm_operator.Status.{Calls, add_found, still_present, is_state, filtered_conditions}

module _ {W : Type 0} (calls : Calls W) (api : PodApi)
    (finds : (cs : List Condition) (kind : String) (c : Condition)
      → api.get_pod_condition cs kind ≡ some c
      → c.kind ≡ kind)
    (pod : Pod) (states : List Condition) where
  abbrev StateOf : List Condition → Condition → Type 0
  StateOf ss c =
      (is_state calls api pod states c ≡ true) × (has_str c.kind (map (λ s. s.kind) ss) ≡ true)

  abbrev present : List Condition
  present = still_present calls api pod states states

  abbrev pub is_found : Option Condition → Bool
  is_found none = false
  is_found (some c) = true

  -- A state of that type which the pod has.
  abbrev pub has_kind : String → Condition → Bool
  has_kind kind s = str_eq s.kind kind && is_found (api.get_pod_condition pod.conditions s.kind)

  abbrev pub is_state_of : String → Condition → Bool
  is_state_of kind c = is_state calls api pod states c && str_eq c.kind kind

  StateOf-more : (s c : Condition) (ss : List Condition) → StateOf ss c → StateOf (s ∷ ss) c
  StateOf-more s c ss h = (h.0, ground (arith, h.1))

  still_present-StateOf :
      (ss : List Condition)
      → All (λ s. is_state calls api pod states s ≡ true) ss
      → All (StateOf ss) (still_present calls api pod states ss)
  still_present-StateOf [] h = tt
  still_present-StateOf (s ∷ ss) h =
      let rest =
        All-imp (StateOf ss) (StateOf (s ∷ ss)) (still_present calls api pod states ss)
          (λ c. StateOf-more s c ss) (still_present-StateOf ss h.1) in
      found (api.get_pod_condition pod.conditions s.kind) refl rest
    where
      found :
          (o : Option Condition)
          → api.get_pod_condition pod.conditions s.kind ≡ o
          → All (StateOf (s ∷ ss)) (still_present calls api pod states ss)
          → All (StateOf (s ∷ ss)) (add_found calls api o (still_present calls api pod states ss))
      found none e rest = rest
      found (some d) e rest =
          let same = finds pod.conditions s.kind d e in
          let name_there : has_str d.kind (map (λ c. c.kind) (s ∷ ss)) ≡ true =
            rw (same, eq_refl s.kind) refl in
          ((ap (λ n. has_prefix n "SlurmNodeState") same ∙ h.0, name_there), rest)

  present-kind :
      (kind : String) (ss : List Condition)
      → All (λ s. is_state calls api pod states s ≡ true) ss
      → count_if (is_state_of kind) (still_present calls api pod states ss)
        ≡ count_if (has_kind kind) ss
  present-kind kind [] h = refl
  present-kind kind (s ∷ ss) h =
      go (api.get_pod_condition pod.conditions s.kind) (present-kind kind ss h.1) refl
    where
      go :
          (o : Option Condition)
          → count_if (is_state_of kind) (still_present calls api pod states ss)
            ≡ count_if (has_kind kind) ss
          → api.get_pod_condition pod.conditions s.kind ≡ o
          → count_if
              (is_state_of kind)
              (add_found calls api o (still_present calls api pod states ss))
            ≡ count_if (has_kind kind) (s ∷ ss)
      go none below e =
          let absent : has_kind kind s ≡ (str_eq s.kind kind && false) =
            ap (λ o. str_eq s.kind kind && is_found o) e in
          ground (arith, absent, below)
      go (some d) below e =
          let same = finds pod.conditions s.kind d e in
          let state : is_state calls api pod states d ≡ true =
            ap (λ n. has_prefix n "SlurmNodeState") same ∙ h.0 in
          let kind_same : str_eq d.kind kind ≡ str_eq s.kind kind = ap (λ n. str_eq n kind) same in
          let there : has_kind kind s ≡ (str_eq s.kind kind && true) =
            ap (λ o. str_eq s.kind kind && is_found o) e in
          ground (arith, state, kind_same, there, below)

  filtered-kind :
      (kind : String) (cs : List Condition)
      → All (λ s. is_state calls api pod states s ≡ true) states
      → count_if (is_state_of kind) (filtered_conditions calls api pod states cs)
        ≡ count_if (is_state calls api pod states) cs * count_if (has_kind kind) states
  unfolding filtered_conditions
  filtered-kind kind [] h = omega arith
  filtered-kind kind (c ∷ cs) h =
      let below = filtered-kind kind cs h in
      elim (Bool-cases (is_state calls api pod states c)) [
        | inr e ↦ rw (e, e) (omega (arith, below))
        | inl e ↦ rw e (
            count_if-append (is_state_of kind) present _
            ∙ omega (arith, below, present-kind kind states h))
      ]

  -- Of the conditions that are no Slurm node states none is in the present ones.
  states_only :
      (ss : List Condition) (cs : List Condition)
      → All (StateOf ss) cs
      → keep (λ c. not (is_state calls api pod states c)) cs ≡ []
  states_only ss [] h = refl
  states_only ss (c ∷ cs) h = rw (h.0.0) (states_only ss cs h.1)

  filtered-others :
      (cs : List Condition)
      → All (λ s. is_state calls api pod states s ≡ true) states
      → let new = filtered_conditions calls api pod states cs in
        let state = is_state calls api pod states in
        (keep (λ c. not (state c)) new ≡ keep (λ c. not (state c)) cs)
        × All (λ c. (state c ≡ false) ⊎ (has_str c.kind (map (λ s. s.kind) states) ≡ true)) new
  unfolding filtered_conditions
  filtered-others [] h = (refl, tt)
  filtered-others (c ∷ cs) h =
      let (same, known) = filtered-others cs h in
      let here = still_present-StateOf states h in
      elim (Bool-cases (is_state calls api pod states c)) [
        | inr e ↦ rw (e, e) (ap (◌∷◌ c) same, (inl refl, known))
        | inl e ↦ rw e (
          keep-append (λ c. not (is_state calls api pod states c)) present _
              ∙ rw (states_only states present here) same,
          All-append _ present _ (All-imp (StateOf states) _ present (λ c k. inr k.1) here) known,
        )
      ]

  -- Where a condition is found by its type and all the states are Slurm node states,
  -- `updateNodeSetPodConditions` keeps the conditions that are none, in order; the states that it
  -- keeps are of the types that the node has now; and there are, of each type, as many as the node
  -- has states of it that the pod has too, once for every state that the pod had.
  pub filtered_conditions_lem :
      (cs : List Condition)
      → All (λ s. is_state calls api pod states s ≡ true) states
      → let new = filtered_conditions calls api pod states cs in
        let state = is_state calls api pod states in
        (keep (λ c. not (state c)) new ≡ keep (λ c. not (state c)) cs)
        × All (λ c. (state c ≡ false) ⊎ (has_str c.kind (map (λ s. s.kind) states) ≡ true)) new
        × ((kind : String)
            → count_if (is_state_of kind) new ≡ count_if state cs * count_if (has_kind kind) states)
  filtered_conditions_lem cs h =
      let (same, known) = filtered-others cs h in (same, known, λ kind. filtered-kind kind cs h)
