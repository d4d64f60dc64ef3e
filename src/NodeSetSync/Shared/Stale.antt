-- ===== src/NodeSetSync/Shared/Stale.antt =====
-- An object that all NodeSets share is not brought up to date once it exists.
use slurm_operator.Prelude.{
  String, Bool, true, false, ◌≡◌, refl, sym, ap, ◌∙◌, subst, List, [], ◌∷◌, Bool-cases, inl, inr,
  str_eq, if◌then◌else◌,
}
use slurm_operator.Api.{Error, Result, ok, err, NodeSet}
use slurm_operator.Api.Object.{Object}
use slurm_operator.Effects.{
  Call, Trace, Env, ◌>>=◌, get_object, create_object, patch_object, list_node_sets,
}
use slurm_operator.Effects.Adds.{Adds, same, Adds-map, Makes-bind, Makes-call}
use slurm_operator.Steps.{Gives, Gives-elim, ok-inj, Result-cases}
use slurm_operator.Objects.{takes}
use slurm_operator.Objects.Writes.{WriteCall, sync_object-Writes}
use slurm_operator.NodeSetSync.Shared.{
  Builder, found_or, returns, own_each, set_owner_references, sync_named, own_and_sync, sync_built,
  sync_if_built, sync_cluster_worker_service, sync_cluster_worker_pdb,
}

-- No object is created, and a patch leaves the fields and the owners as they are.
unfoldable pub StaleCall : Call → Trace → Type 0
StaleCall (create_object object) tr = ⊥
StaleCall (patch_object result old) tr =
    (result.owner_references ≡ old.owner_references)
    × ((f : String) → result.fields f ≡ old.fields f)
StaleCall _ tr = Unit

abbrev pub SameKey : Object → Object → Type 0
SameKey a b = (a.kind ≡ b.kind) × (a.namespace ≡ b.namespace) × (a.name ≡ b.name)

-- The fields and the key are those of another object.
abbrev pub Like : Object → Object → Type 0
Like base o = (o.fields ≡ base.fields) × SameKey o base

Like-trans : (a b c : Object) → Like a b → Like b c → Like a c
Like-trans a b c (f, (k, s, n)) (g, (l, t, m)) = (g ∙ f, (l ∙ k, t ∙ s, m ∙ n))

-- Owner references are metadata: they leave the fields and the key of an object.
abbrev pub KeepsFields : Builder → Type 0
KeepsFields builder =
    (nodeset : NodeSet) (object : Object)
    → Gives (Like object) (builder.set_owner_reference nodeset object)

module _ (builder : Builder) (keeps : KeepsFields builder) (env : Env)
    (wrap : String → Error → Error) where
  own_each-Like :
      (cluster_name : String) (nodesets : List NodeSet) (object : Object)
      → Gives (Like object) (own_each builder env wrap cluster_name nodesets object)
  unfolding own_each
  own_each-Like cluster_name [] object = (refl, (refl, refl, refl))
  own_each-Like cluster_name (nodeset ∷ nodesets) object =
      elim (Bool-cases (str_eq nodeset.controller_name cluster_name)) [
        | inr e ↦ rw e (own_each-Like cluster_name nodesets object)
        | inl e ↦ elim (Result-cases (builder.set_owner_reference nodeset object)) [
          | inr (x, bad) ↦ rw (e, bad) tt
          | inl (o, good) ↦
              rw (e, good)
                (onward o (own_each builder env wrap cluster_name nodesets o)
                  (own_each-Like cluster_name nodesets o)
                  (Gives-elim (Like object) _ o (keeps nodeset object) good))
        ]
      ]
    where
      onward :
          (o : Object) (r : Result Object)
          → Gives (Like o) r
          → Like object o
          → Gives (Like object) r
      onward o (ok a) p q = Like-trans object o a q p
      onward o (err a) p q = tt

  module _ (live : Object)
      (reads : (tr : Trace) (object : Object)
        → SameKey object live
        → env.read_object tr object ≡ ok live) where
    -- What `SyncObject` may write, where the object that it gets has the fields of the live one.
    stale :
        (object : Object) (start : Trace)
        → Like live object
        → (c : Call) (tr : Trace) → WriteCall env object true start c tr
        → StaleCall c tr
    unfolding WriteCall StaleCall
    stale object start (same_fields, key) (create_object o) tr (e, (x, read, missing)) =
        absurd (cc (read, reads start object key))
    stale object start (same_fields, key) (patch_object result old) tr
          (read, wanted, kept, mutable, merge) =
        (merge.owners, λ f. field f)
      where
        is_live : old ≡ live
        is_live = ok-inj (sym read ∙ reads start object key)

        field : (f : String) → result.fields f ≡ old.fields f
        field f = merge.field f ∙ both (takes object.kind f)
          where
            both : (b : Bool) → (if b then object.fields f else old.fields f) ≡ old.fields f
            both true = ap (λ g. g f) same_fields ∙ ap (λ o. o.fields f) (sym is_live)
            both false = refl
    stale object start same_fields _ tr x = tt

    sync_named-Stale :
        (message : String) (object : Object) (tr : Trace)
        → Like live object
        → Adds StaleCall tr (sync_named builder env wrap message object tr).1
    unfolding sync_named
    sync_named-Stale message object tr same_fields =
        Adds-map (stale object tr same_fields) (sync_object-Writes env wrap object true tr)

    own_and_sync-Stale :
        (message cluster_name : String) (object : Object) (tr : Trace)
        → Like live object
        → Adds StaleCall tr (own_and_sync builder env wrap message cluster_name object tr).1
    unfolding own_and_sync set_owner_references StaleCall
    own_and_sync-Stale message cluster_name object tr like =
        Makes-bind StaleCall (set_owner_references builder env wrap object cluster_name)
          (sync_named builder env wrap message) tr
          (Makes-call StaleCall list_node_sets (env.node_sets tr)
            (λ nodesets.
              returns builder env wrap (own_each builder env wrap cluster_name nodesets object))
            tr tt (λ nodesets e. same))
          λ owned e. sync_named-Stale message owned _ (
            Like-trans live object owned like (
              Gives-elim (Like object) _ owned (owned_like (env.node_sets tr) (list_node_sets ∷ tr))
                e))
      where
        owned_like :
            (r : Result (List NodeSet)) (t : Trace)
            → Gives
                (Like object)
                ((◌>>=◌
                    (λ u. (r, u))
                    (λ nodesets.
                      returns builder env wrap
                        (own_each builder env wrap cluster_name nodesets object)))
                  t).0
        owned_like (err e) t = tt
        owned_like (ok nodesets) t = own_each-Like cluster_name nodesets object

    sync_built-Stale :
        (message cluster_name : String) (built : Object) (tr : Trace)
        → SameKey built live
        → Adds StaleCall tr (sync_built builder env wrap message cluster_name built tr).1
    unfolding sync_built StaleCall
    sync_built-Stale message cluster_name built tr key =
        Makes-call StaleCall (get_object built) (found_or built (env.read_object tr built))
          (own_and_sync builder env wrap message cluster_name) tr tt
          (λ object e. own_and_sync-Stale message cluster_name object _ (
            subst (Like live) (ok-inj (sym (ap (found_or built) (reads tr built key)) ∙ e))
              (refl, (refl, refl, refl))))

    sync_if_built-Stale :
        (failed message cluster_name : String) (r : Result Object) (tr : Trace)
        → Gives (λ built. SameKey built live) r
        → Adds StaleCall tr (sync_if_built builder env wrap failed message cluster_name r tr).1
    unfolding sync_if_built
    sync_if_built-Stale failed message cluster_name (err e) tr key = same
    sync_if_built-Stale failed message cluster_name (ok built) tr key =
        sync_built-Stale message cluster_name built tr key

  -- Where every read of the service of a cluster's workers gives one object, the same for the
  -- disruption budget, what the builder makes of the NodeSet has their names, and setting an owner
  -- leaves an object's name and fields alone, a reconcile creates none, and a patch that it sends
  -- leaves the object's fields and owners as they are: whatever else the builder has made of the
  -- NodeSet, and whichever NodeSets there are.
  pub sync_cluster_worker-Stale :
      (service budget : Object)
      → ((tr : Trace) (object : Object)
          → SameKey object service
          → env.read_object tr object ≡ ok service)
      → ((tr : Trace) (object : Object)
          → SameKey object budget
          → env.read_object tr object ≡ ok budget)
      → (nodeset : NodeSet)
      → Gives (λ o. SameKey o service) (builder.build_cluster_worker_service nodeset)
      → Gives (λ o. SameKey o budget) (builder.build_cluster_worker_pdb nodeset)
      → (tr : Trace)
      → Adds StaleCall tr (sync_cluster_worker_service builder env wrap nodeset tr).1
        × Adds StaleCall tr (sync_cluster_worker_pdb builder env wrap nodeset tr).1
  unfolding sync_cluster_worker_service sync_cluster_worker_pdb
  sync_cluster_worker-Stale service budget service_read budget_read nodeset names_service
        names_budget tr =
      (
        sync_if_built-Stale service service_read _ _ nodeset.controller_name
            (builder.build_cluster_worker_service nodeset) tr names_service,
        sync_if_built-Stale budget budget_read _ _ nodeset.controller_name
            (builder.build_cluster_worker_pdb nodeset) tr names_budget,
      )
