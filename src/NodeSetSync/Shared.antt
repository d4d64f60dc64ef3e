-- ===== src/NodeSetSync/Shared.antt =====
-- internal/controller/nodeset/nodeset_sync.go: the objects that all NodeSets of a cluster share, its
-- worker service and disruption budget, and a NodeSet's SSH configuration. `Builder` holds what
-- internal/builder makes of a NodeSet and what `controllerutil.SetOwnerReference` makes of an
-- object. `wrap` is `fmt.Errorf` with the text before `%w`.
pub mod Stale
use slurm_operator.Prelude.{String, Bool, true, false, List, [], ◌∷◌, str_eq, if◌then◌else◌}
use slurm_operator.Api.{Error, Result, ok, err, is_not_found, NodeSet}
use slurm_operator.Api.Object.{Object}
use slurm_operator.Effects.{Trace, Env, M, pure, throw, ◌>>=◌, list_node_sets, get_object}
use slurm_operator.NodeSetSync.Cordon.{query}
use slurm_operator.Objects.{sync_object}

pub record Builder : Type 0 where
  pub build_cluster_worker_service : NodeSet → Result Object
  pub build_cluster_worker_pdb : NodeSet → Result Object
  pub build_worker_ssh_config : NodeSet → Result Object
  pub set_owner_reference : NodeSet → Object → Result Object

abbrev pub or_wrapped : {A : Type 0} → (Error → Error) → Result A → Result A
or_wrapped wrap (ok a) = ok a
or_wrapped wrap (err e) = err (wrap e)

-- What a read leaves in the object that it reads into, where it is not found nothing.
abbrev pub found_or : Object → Result Object → Result Object
found_or built (ok live) = ok live
found_or built (err e) = if is_not_found e then ok built else err e

module _ (builder : Builder) (env : Env) (wrap : String → Error → Error) where
  abbrev pub returns : {A : Type 0} → Result A → M A
  returns r tr = (r, tr)

  unfoldable pub own_each : String → List NodeSet → Object → Result Object
  own_each cluster_name [] object = ok object
  own_each cluster_name (nodeset ∷ nodesets) object =
      if str_eq nodeset.controller_name cluster_name
      then elim (builder.set_owner_reference nodeset object) [
        | err e ↦ err (wrap "failed to set owner" e)
        | ok object' ↦ own_each cluster_name nodesets object'
      ]
      else own_each cluster_name nodesets object

  unfoldable pub set_owner_references : Object → String → M Object
  unfolding own_each
  set_owner_references object cluster_name =
      query list_node_sets (λ tr. env.node_sets tr) >>= λ nodesets.
      returns (own_each cluster_name nodesets object)

  -- `SyncObject`, with the text that goes before its error.
  unfoldable pub sync_named : String → Object → M (Unit {0})
  unfolding sync_object
  sync_named message object tr =
      let (r, tr') = sync_object env wrap object true tr in (or_wrapped (wrap message) r, tr')

  -- What follows the read of the object that was built.
  unfoldable pub own_and_sync : String → String → Object → M (Unit {0})
  unfolding set_owner_references sync_named
  own_and_sync message cluster_name object =
      set_owner_references object cluster_name >>= λ owned. sync_named message owned

  unfoldable pub sync_built : String → String → Object → M (Unit {0})
  unfolding own_and_sync
  sync_built message cluster_name built =
      query (get_object built) (λ tr. found_or built (env.read_object tr built))
      >>= own_and_sync message cluster_name

  -- What a reconcile makes of an object that a NodeSet was built into, and where it could not be.
  unfoldable pub sync_if_built : String → String → String → Result Object → M (Unit {0})
  unfolding sync_built
  sync_if_built failed message cluster_name (err e) = throw (wrap failed e)
  sync_if_built failed message cluster_name (ok built) = sync_built message cluster_name built

  unfoldable pub sync_cluster_worker_service : NodeSet → M (Unit {0})
  unfolding sync_if_built
  sync_cluster_worker_service nodeset =
      sync_if_built "failed to build cluster worker service" "failed to sync service"
        nodeset.controller_name (builder.build_cluster_worker_service nodeset)

  unfoldable pub sync_cluster_worker_pdb : NodeSet → M (Unit {0})
  unfolding sync_if_built
  sync_cluster_worker_pdb nodeset =
      sync_if_built "failed to build cluster worker PDB" "failed to sync object"
        nodeset.controller_name (builder.build_cluster_worker_pdb nodeset)

  unfoldable pub sync_config : Result Object → M (Unit {0})
  unfolding sync_named
  sync_config (err e) = throw (wrap "failed to build SSH config" e)
  sync_config (ok config) = sync_named "failed to sync SSH config" config

  unfoldable pub sync_ssh_config : NodeSet → M (Unit {0})
  unfolding sync_config
  sync_ssh_config nodeset =
      if nodeset.ssh_enabled then sync_config (builder.build_worker_ssh_config nodeset) else pure tt
