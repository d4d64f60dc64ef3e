-- ===== src/Storage.antt =====
-- internal/controller/nodeset/utils/utils.go: the volumes of a pod and the claims that they mount.
-- A claim template is its name; what else it holds is copied to the claims. A Go map is ranged over
-- in an order of the runtime's choice: `order` puts the entries in it.
pub mod Match
mod Examples
use Prim.Native.String
use slurm_operator.Prelude.{
  String, Bool, true, false, not, List, [], ◌∷◌, ◌++◌, Option, none, some, map, str_eq, keep,
  if◌then◌else◌,
}
use slurm_operator.Prelude.Int.{pos, ltb_ℤ}
use slurm_operator.Api.{Pod, NodeSet, Volume}
use slurm_operator.Api.Maps.{Labels, get?, get_value, insert}
use slurm_operator.Api.WellKnown.{pod_hostname, stateful_set}
use slurm_operator.Naming.{get_ordinal, get_padded_ordinal}

-- `fmt.Sprintf("%s-%s-%s", ...)`.
abbrev pub join3 : String → String → String → String
join3 a b c = String.◌++◌ a (String.◌++◌ "-" (String.◌++◌ b (String.◌++◌ "-" c)))

unfoldable pub claim_name_ordinal : NodeSet → String → String → String
claim_name_ordinal nodeset claim padded_ordinal = join3 claim nodeset.name padded_ordinal

unfoldable pub claim_name_node_name : NodeSet → String → String → String
claim_name_node_name nodeset claim node_name = join3 claim nodeset.name node_name

-- The name of the claim that a pod has by a template.
unfoldable pub claim_name_of : NodeSet → Pod → String → String
unfolding claim_name_ordinal claim_name_node_name get_ordinal
claim_name_of nodeset pod template =
    if str_eq nodeset.scaling_mode stateful_set
    then claim_name_ordinal nodeset template (get_padded_ordinal nodeset (get_ordinal pod))
    else claim_name_node_name nodeset template (get_value pod_hostname pod.labels)

-- The map from template names to claim names, filled in the order of the templates.
unfoldable pub claims_of : NodeSet → Pod → List String → Labels → Labels
unfolding claim_name_of insert
claims_of nodeset pod [] claims = claims
claims_of nodeset pod (t ∷ ts) claims =
    claims_of nodeset pod ts (insert t (claim_name_of nodeset pod t) claims)

unfoldable pub get_persistent_volume_claims : NodeSet → Pod → Labels
unfolding claims_of
get_persistent_volume_claims nodeset pod = claims_of nodeset pod nodeset.volume_claim_templates []

abbrev pub claim_volume : String × String → Volume
claim_volume (name, claim) = record { name = name; claim_name = some claim }

abbrev pub is_none : Option String → Bool
is_none none = true
is_none (some c) = false

abbrev pub is_missing : String → Labels → Bool
is_missing name claims = is_none (get? name claims)

unfoldable pub update_storage : (Labels → Labels) → NodeSet → Pod → Pod
unfolding get_persistent_volume_claims
update_storage order nodeset pod =
    let claims = get_persistent_volume_claims nodeset pod in
    record pod {
      volumes = map claim_volume (order claims) ++ keep (λ v. is_missing v.name claims) pod.volumes;
    }

-- `volumes[name]`: of volumes with one name the last is in the map.
unfoldable pub volume_named : String → List Volume → Option Volume
volume_named name [] = none
volume_named name (v ∷ vs) = elim (volume_named name vs) [
  | some w ↦ some w
  | none ↦ if str_eq v.name name then some v else none
]

-- The test on one template.
abbrev pub mounts : String → Option Volume → Bool
mounts claim none = false
mounts claim (some v) = elim v.claim_name [ none ↦ false | some c ↦ str_eq c claim ]

unfoldable pub all_mounted : NodeSet → Pod → List String → Bool
unfolding volume_named claim_name_of
all_mounted nodeset pod [] = true
all_mounted nodeset pod (t ∷ ts) =
    let rest = all_mounted nodeset pod ts in
    if mounts (claim_name_of nodeset pod t) (volume_named t pod.volumes) then rest else false

unfoldable pub is_storage_match : NodeSet → Pod → Bool
unfolding all_mounted get_ordinal
is_storage_match nodeset pod =
    let rest = all_mounted nodeset pod nodeset.volume_claim_templates in
    if str_eq nodeset.scaling_mode stateful_set
    then (if ltb_ℤ (get_ordinal pod) (pos 0) then false else rest)
    else rest
