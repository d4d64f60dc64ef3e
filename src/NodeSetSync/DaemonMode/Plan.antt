-- ===== src/NodeSetSync/DaemonMode/Plan.antt =====
-- What a reconcile in DaemonSet mode creates and deletes.
use mathlib.Core.List.{Perm}
use slurm_operator.Prelude.{
  ℕ, ◌≤◌, ◌≡◌, refl, ap, ◌∙◌, String, Bool, true, false, not, ◌&&◌, List, [], ◌∷◌, ◌++◌, Option,
  none, some, All, map, keep, count_if, count_if-append, count_if-perm, arith, if◌then◌else◌,
}
use slurm_operator.Api.{Pod, Node, NodeSet}
use slurm_operator.PodUtils.{is_terminating}
use slurm_operator.Daemon.{
  Groups, Backoff, pods_on, triage, surplus, settle, pods_should_be_on_node,
}
use slurm_operator.Daemon.Surplus.{is_live, has_ended, triage-Triaged, triage-ended}
use slurm_operator.NodeSetSync.DaemonMode.{Daemons, should_run_on, plan_nodes}

abbrev terminating : List Pod → ℕ
terminating pods = count_if is_terminating pods

ended-0 : (pods : List Pod) → All (λ p. has_ended p ≡ true) pods → terminating pods ≡ 0
ended-0 [] h = refl
ended-0 (pod ∷ pods) (h, hs) = ground (arith, h, ended-0 pods hs)

live-0 : (pods : List Pod) → terminating (keep is_live pods) ≡ 0
live-0 [] = refl
live-0 (pod ∷ pods) = ground (arith, live-0 pods)

kept-0 : (pods : List Pod) → terminating (keep (λ pod. not (is_terminating pod)) pods) ≡ 0
kept-0 [] = refl
kept-0 (pod ∷ pods) = ground (arith, kept-0 pods)

abbrev is_missing : Option (List Pod) → Bool
is_missing none = true
is_missing (some pods) = false

module _ {W : Type 0} (backoff : Backoff W) (sort : List Pod → List Pod)
    (permutes : (pods : List Pod) → Perm (sort pods) pods) where
  surplus-le : (pods : List Pod) → terminating (surplus backoff sort pods) ≤ terminating pods
  surplus-le [] = omega arith
  surplus-le (pod ∷ pods) = omega arith

  settle-0 :
      (pods : List Pod) (s : W)
      → terminating (settle backoff sort (triage backoff sort pods s)).0 ≡ 0
  settle-0 pods s =
      let t = triage backoff sort pods s in
      let (live, picked) = triage-Triaged backoff sort permutes pods s in
      omega (
        arith,
        count_if-append is_terminating t.0.0 (surplus backoff sort (sort t.0.1)),
        ended-0 t.0.0 (triage-ended backoff sort permutes pods s),
        surplus-le (sort t.0.1),
        count_if-perm is_terminating (permutes t.0.1),
        ap terminating live,
        live-0 pods,
      )

  one_node :
      (should_run should_continue : Bool) (name : String) (o : Option (List Pod)) (s : W)
      → let r = pods_should_be_on_node backoff sort (should_run, should_continue) name o s in
        (r.0.0 ≡ (if should_run && is_missing o then name ∷ [] else [])) × (terminating r.0.1 ≡ 0)
  unfolding pods_should_be_on_node
  one_node true b name none s = (refl, refl)
  one_node true true name (some pods) s = (refl, settle-0 pods s)
  one_node true false name (some pods) s = (refl, kept-0 pods)
  one_node false true name none s = (refl, settle-0 [] s)
  one_node false true name (some pods) s = (refl, settle-0 pods s)
  one_node false false name none s = (refl, refl)
  one_node false false name (some pods) s = (refl, kept-0 pods)

module _ {W : Type 0} (d : Daemons W) (permutes : (pods : List Pod) → Perm (d.sort pods) pods) where
  -- A node that should run a pod and has none.
  abbrev pub needs_pod : NodeSet → Groups → Node → Bool
  needs_pod nodeset groups node =
      (should_run_on d nodeset node).0 && is_missing (pods_on node.name groups)

  if_cons :
      (b : Bool) (name : String) (names : List String) (nodes : List Node) (node : Node)
      → node.name ≡ name
      → names ≡ map (λ n. n.name) nodes
      → (if b then name ∷ [] else []) ++ names
        ≡ map (λ n. n.name) (if b then node ∷ nodes else nodes)
  if_cons true name names nodes node e f = cc (e, f)
  if_cons false name names nodes node e f = f

  -- The plan that a reconcile in DaemonSet mode makes of the nodes, before the limit on the pods of
  -- one pass: it names each node that should run a pod and has none, in the order of the nodes,
  -- whatever the state of the backoff; and of the pods that it takes for deletion none is already
  -- being deleted.
  pub plan_nodes_lem :
      (nodeset : NodeSet) (groups : Groups) (nodes : List Node) (s : W)
      → let plan = (plan_nodes d nodeset groups nodes s).0 in
        (plan.0 ≡ map (λ node. node.name) (keep (needs_pod nodeset groups) nodes))
        × (count_if is_terminating plan.1 ≡ 0)
  unfolding plan_nodes
  plan_nodes_lem nodeset groups [] s = (refl, refl)
  plan_nodes_lem nodeset groups (node ∷ nodes) s =
      let f = should_run_on d nodeset node in
      let o = pods_on node.name groups in
      let b = d.backoff nodeset node.name in
      let r = pods_should_be_on_node b d.sort f node.name o s in
      let (here, none_here) = one_node b d.sort permutes f.0 f.1 node.name o s in
      let (there, none_there) = plan_nodes_lem nodeset groups nodes r.1 in
      (
        ap (λ l. l ++ (plan_nodes d nodeset groups nodes r.1).0.0) here
            ∙ if_cons (needs_pod nodeset groups node) node.name _ _ node refl there,
        count_if-append is_terminating r.0.1 _ ∙ omega (arith, none_here, none_there),
      )
