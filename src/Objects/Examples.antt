-- ===== src/Objects/Examples.antt =====
-- Objects that are written, on a cluster that has a service with a label of its own.
use slurm_operator.Prelude.{
  true, ◌≡◌, refl, has_prefix, chars, [], ◌∷◌, none, str_eq, if◌then◌else◌,
}
use slurm_operator.Api.{ok}
use slurm_operator.Api.Maps.{get?, get_value}
use slurm_operator.Api.Object.{Object, service}
use slurm_operator.Effects.{Env, patch_object, get_object}
use slurm_operator.Effects.Adds.{Adds}
use slurm_operator.Samples.{cluster, node_in}
use slurm_operator.Objects.{merged, sync_object}
use slurm_operator.Objects.Writes.{WriteCall, sync_object-Writes}

abbrev old : Object
old = record {
  kind = service;
  namespace = "slurm";
  name = "slurm-workers";
  labels = ("team", "a") ∷ ("app", "x") ∷ [];
  annotations = [];
  owner_references = [];
  immutable = none;
  deletion_timestamp = none;
  fields = λ f. if str_eq f "Status" then "ready" else "old";
}

abbrev new : Object
new = record old { labels = ("app", "slurmd") ∷ []; fields = λ f. "new" }

abbrev env : Env
env = record (cluster (node_in "slinky-0" [] "") []) { read_object = λ tr object. ok old }

patches :
    (sync_object env (λ s e. e) new true []).1
    ≡ patch_object (merged service old new) old ∷ get_object new ∷ []
unfolding sync_object
patches = refl

keeps_team : get_value "team" (merged service old new).labels ≡ "a"
unfolding merged get?
keeps_team = refl

keeps_status : (merged service old new).fields "Status" ≡ "ready"
unfolding merged has_prefix chars
keeps_status = refl

takes_ports : (merged service old new).fields "Spec.Ports" ≡ "new"
unfolding merged has_prefix chars
takes_ports = refl

sync_object-Writes_example :
    Adds (WriteCall env new true []) [] (sync_object env (λ s e. e) new true []).1
sync_object-Writes_example = sync_object-Writes env (λ s e. e) new true []
