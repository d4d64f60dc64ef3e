-- ===== src/NodeSetSync/Taint/Marked.antt =====
-- `syncTaint` leaves each node with the worker taint where it runs workers, and without it elsewhere.
use slurm_operator.Prelude.{
  String, Bool, true, false, not, ◌&&◌, ◌||◌, ◌≡◌, refl, sym, ap, subst, ◌∙◌, ◌⊎◌, inl, inr, List,
  [], ◌∷◌, Option, none, some, str_eq, has_str, arith, if◌then◌else◌,
}
use slurm_operator.Api.{Error, Result, ok, err, Pod, Node, NodeSet, Taint, OwnerReference}
use slurm_operator.PodUtils.{is_running, is_terminating}
use slurm_operator.Effects.{Trace, Env, as_result, patch_node}
use slurm_operator.Steps.{Gives}
use slurm_operator.NodeSetSync.Taint.{
  taint_node_worker, Tainter, tainting_uids, is_worker_of, node_set_with_pod, patch_if,
  sync_taint_fn,
}

-- Taints are the same where key and effect are.
abbrev pub matches_taint : Taint → Taint → Bool
matches_taint t u = str_eq t.key u.key && str_eq t.effect u.effect

abbrev pub has_taint : Taint → List Taint → Bool
has_taint t [] = false
has_taint t (u ∷ us) = matches_taint t u || has_taint t us

-- What the package documents: after adding the node has the taint, after removing it has not, and
-- a node that is not updated is as it was.
pub record TaintLaws (tainter : Tainter) : Type 0 where
  pub added :
      (node : Node) (taint : Taint)
      → Gives (λ x. has_taint taint x.0.taints ≡ true) (tainter.add_or_update_taint node taint)
  pub removed :
      (node : Node) (taint : Taint)
      → Gives (λ x. has_taint taint x.0.taints ≡ false) (tainter.remove_taint node taint)
  pub added_same :
      (node : Node) (taint : Taint)
      → Gives
          (λ x. (x.1 ≡ true) ⊎ (x.0.taints ≡ node.taints))
          (tainter.add_or_update_taint node taint)
  pub removed_same :
      (node : Node) (taint : Taint)
      → Gives (λ x. (x.1 ≡ true) ⊎ (x.0.taints ≡ node.taints)) (tainter.remove_taint node taint)

-- Some NodeSet with this UID wants its nodes tainted.
abbrev pub wants_taint : String → List NodeSet → Bool
wants_taint uid [] = false
wants_taint uid (nodeset ∷ nodesets) =
    (nodeset.taint_kube_nodes && str_eq nodeset.uid uid) || wants_taint uid nodesets

-- The pod runs, is not being deleted, and such a NodeSet controls it.
abbrev pub is_worker : Option OwnerReference → List NodeSet → Pod → Bool
is_worker none nodesets pod = false
is_worker (some ref) nodesets pod =
    wants_taint ref.uid nodesets && (is_running pod && not (is_terminating pod))

module _ (owner_of : Pod → Option OwnerReference) where
  abbrev pub runs_worker : String → List NodeSet → List Pod → Bool
  runs_worker name nodesets [] = false
  runs_worker name nodesets (pod ∷ pods) =
      (is_worker (owner_of pod) nodesets pod && str_eq pod.node_name name)
      || runs_worker name nodesets pods

has_str-tainting_uids :
    (uid : String) (nodesets : List NodeSet)
    → has_str uid (tainting_uids nodesets) ≡ wants_taint uid nodesets
unfolding tainting_uids
has_str-tainting_uids uid [] = refl
has_str-tainting_uids uid (nodeset ∷ nodesets) = ground (arith, has_str-tainting_uids uid nodesets)

module _ (owner_of : Pod → Option OwnerReference) (nodesets : List NodeSet) where
  worker_lem :
      (pod : Pod)
      → is_worker_of owner_of (tainting_uids nodesets) pod ≡ is_worker (owner_of pod) nodesets pod
  unfolding is_worker_of
  worker_lem pod = go (owner_of pod)
    where
      go :
          (o : Option OwnerReference)
          → elim o as (λ x. Bool) [
            | none ↦ false
            | some ref ↦
                has_str ref.uid (tainting_uids nodesets)
                && (is_running pod && not (is_terminating pod))
          ]
            ≡ is_worker o nodesets pod
      go none = refl
      go (some ref) =
          ap (λ b. b && (is_running pod && not (is_terminating pod)))
            (has_str-tainting_uids ref.uid nodesets)

  has_str-node_set_with_pod :
      (name : String) (pods : List Pod)
      → has_str name (node_set_with_pod owner_of (tainting_uids nodesets) pods)
        ≡ runs_worker owner_of name nodesets pods
  unfolding node_set_with_pod
  has_str-node_set_with_pod name [] = refl
  has_str-node_set_with_pod name (pod ∷ pods) =
      ground (arith, worker_lem pod, has_str-node_set_with_pod name pods)

-- What a node is left as: nothing was sent, or the patch of it was taken.
abbrev pub LeftAs : Env → Node → Bool → Trace → Trace → Type 0
LeftAs env node marked tr tr' =
    ((tr' ≡ tr) × (has_taint taint_node_worker node.taints ≡ marked))
    ⊎ ((new : Node) × (tr' ≡ patch_node new node ∷ tr)
        × (env.patch_kube_node tr new node ≡ none)
        × (has_taint taint_node_worker new.taints ≡ marked))

as_result-ok : (o : Option Error) → as_result o ≡ ok tt → o ≡ none
as_result-ok none h = refl
as_result-ok (some e) h = absurd (cc)

module _ (env : Env) (node : Node) (marked : Bool) (tr tr' : Trace) where
  patch_if_lem :
      (r : Result (Node × Bool))
      → Gives (λ x. has_taint taint_node_worker x.0.taints ≡ marked) r
      → Gives (λ x. (x.1 ≡ true) ⊎ (x.0.taints ≡ node.taints)) r
      → patch_if env node r tr ≡ (ok tt, tr')
      → LeftAs env node marked tr tr'
  unfolding patch_if
  patch_if_lem (err e) right same h = absurd (cc)
  patch_if_lem (ok (new, false)) right (inl u) h = absurd (cc)
  patch_if_lem (ok (new, false)) right (inr u) h =
      inl (sym (ap (λ x. x.1) h), ap (has_taint taint_node_worker) (sym u) ∙ right)
  patch_if_lem (ok (new, true)) right same h = inr (
    new,
    sym (ap (λ x. x.1) h),
    as_result-ok (env.patch_kube_node tr new node) (ap (λ x. x.0) h),
    right,
  )

module _ (owner_of : Pod → Option OwnerReference) (tainter : Tainter) (laws : TaintLaws tainter)
    (env : Env) where
  -- The step of `syncTaint` for a node, with what it has gathered from the NodeSets and pods that it
  -- listed: where it ends without an error, either it sent nothing, and the node has the worker taint
  -- just where it runs a pod that is not being deleted, under the control of a NodeSet that taints
  -- its nodes; or it sent one patch, which was taken, and the patched node is so.
  pub sync_taint_fn_lem :
      (nodesets : List NodeSet) (pods : List Pod) (node : Node) (tr tr' : Trace)
      → sync_taint_fn tainter env (node_set_with_pod owner_of (tainting_uids nodesets) pods) node tr
        ≡ (ok tt, tr')
      → LeftAs env node (runs_worker owner_of node.name nodesets pods) tr tr'
  unfolding sync_taint_fn
  sync_taint_fn_lem nodesets pods node tr tr' h =
      go (runs_worker owner_of node.name nodesets pods) (
        subst
          (λ b.
            patch_if env node
              (if b
                then tainter.add_or_update_taint node taint_node_worker
                else tainter.remove_taint node taint_node_worker)
              tr
            ≡ (ok tt, tr'))
          (has_str-node_set_with_pod owner_of nodesets node.name pods) h)
    where
      go :
          (b : Bool)
          → patch_if env node
              (if b
                then tainter.add_or_update_taint node taint_node_worker
                else tainter.remove_taint node taint_node_worker)
              tr
            ≡ (ok tt, tr')
          → LeftAs env node b tr tr'
      go true q =
          patch_if_lem env node true tr tr' _ (laws.added node taint_node_worker)
            (laws.added_same node taint_node_worker) q
      go false q =
          patch_if_lem env node false tr tr' _ (laws.removed node taint_node_worker)
            (laws.removed_same node taint_node_worker) q
