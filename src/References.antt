-- ===== src/References.antt =====
-- internal/utils/refresolver/refresolver.go: the objects that refer to another, and the data of a
-- Secret. Each function takes the answer to the read that it makes; a list holds an object together
-- with the reference of its spec.
use slurm_operator.Prelude.{String, List, [], ◌∷◌, none, some, keep}
use slurm_operator.Api.{Result, ok, err, text, NodeSet}
use slurm_operator.Api.Maps.{Labels, get?}
use slurm_operator.NodeSetSync.Cordon.{concat}
use slurm_operator.Keys.{NamespacedName, SecretKeySelector, is_match, key_named}
use slurm_operator.Keys.Controllers.{Controller}
use slurm_operator.Keys.Accountings.{Accounting}
use slurm_operator.Keys.RestApis.{RestApi}
use slurm_operator.Keys.LoginSets.{LoginSet}

-- The loop of the functions below: the objects whose reference matches.
unfoldable pub that_match :
    {A : Type 0} → (A → NamespacedName) → NamespacedName → Result (List A) → Result (List A)
unfolding is_match
that_match ref key (err e) = err e
that_match ref key (ok items) = ok (keep (λ item. is_match (ref item) key) items)

abbrev pub node_set_ref : NodeSet → NamespacedName
node_set_ref nodeset = key_named nodeset.controller_name nodeset.controller_namespace

unfoldable pub get_node_sets_for_controller :
    Controller → Result (List NodeSet) → Result (List NodeSet)
unfolding that_match
get_node_sets_for_controller o listed =
    that_match node_set_ref (key_named o.name o.namespace) listed

unfoldable pub get_login_sets_for_controller :
    Controller
    → Result (List (LoginSet × NamespacedName))
    → Result (List (LoginSet × NamespacedName))
unfolding that_match
get_login_sets_for_controller o listed =
    that_match (λ item. item.1) (key_named o.name o.namespace) listed

unfoldable pub get_restapis_for_controller :
    Controller → Result (List (RestApi × NamespacedName)) → Result (List (RestApi × NamespacedName))
unfolding that_match
get_restapis_for_controller o listed =
    that_match (λ item. item.1) (key_named o.name o.namespace) listed

unfoldable pub get_controllers_for_accounting :
    Accounting
    → Result (List (Controller × NamespacedName))
    → Result (List (Controller × NamespacedName))
unfolding that_match
get_controllers_for_accounting o listed =
    that_match (λ item. item.1) (key_named o.name o.namespace) listed

-- The data of the Secret that was read, as a map of texts.
unfoldable pub get_secret_key_ref : SecretKeySelector → Result Labels → Result String
unfolding get?
get_secret_key_ref selector (err e) = err e
get_secret_key_ref selector (ok contents) = elim (get? selector.key contents) [
  | none ↦ err (text (concat ("secret key '" ∷ selector.key ∷ "' not found" ∷ [])))
  | some value ↦ ok value
]
