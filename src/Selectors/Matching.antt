-- ===== src/Selectors/Matching.antt =====
-- A selector of an object finds what carries that object's labels, and nothing of another object.
use slurm_operator.Prelude.{
  String, ◌≡◌, refl, sym, ap, subst, ◌∙◌, ◌↔◌, [], ◌∷◌, some, All, str_eq, if◌then◌else◌,
}
use slurm_operator.Api.Maps.{Labels, get?, insert, get?-insert}
use slurm_operator.Selectors.{
  new_builder, app_label, instance_label, component_label, cluster_label,
  with_controller_selector_labels, with_controller_labels, with_restapi_selector_labels,
  with_restapi_labels, with_accounting_selector_labels, with_accounting_labels,
  with_worker_selector_labels, with_worker_labels, with_login_selector_labels, with_login_labels,
}

-- The kinds of objects that have labels of their own.
pub data Kind : Type 0 where
  controller restapi accounting worker login : Kind

abbrev pub selector_of : Kind → String → Labels
selector_of controller name = with_controller_selector_labels new_builder name
selector_of restapi name = with_restapi_selector_labels new_builder name
selector_of accounting name = with_accounting_selector_labels new_builder name
selector_of worker name = with_worker_selector_labels new_builder name
selector_of login name = with_login_selector_labels new_builder name

-- The labels of an object, on top of ones that a user gives; only a NodeSet names its cluster.
abbrev pub labels_of : Labels → Kind → String → String → Labels
labels_of given controller name cluster = with_controller_labels given name
labels_of given restapi name cluster = with_restapi_labels given name
labels_of given accounting name cluster = with_accounting_labels given name
labels_of given worker name cluster = with_worker_labels given name cluster
labels_of given login name cluster = with_login_labels given name

-- Every label of the selector is there with its value.
abbrev pub Selects : Labels → Labels → Type 0
Selects selector labels = All (λ x. get? x.0 labels ≡ some x.1) selector

abbrev app_name : Kind → String
app_name controller = "slurmctld"
app_name restapi = "slurmrestd"
app_name accounting = "slurmdbd"
app_name worker = "slurmd"
app_name login = "login"

abbrev kind_named : String → Kind
kind_named s =
    if str_eq s "slurmctld"
    then controller
    else if str_eq s "slurmrestd"
    then restapi
    else if str_eq s "slurmdbd"
    then accounting
    else if str_eq s "slurmd"
    then worker
    else login

kind_named-app_name : (a : Kind) → kind_named (app_name a) ≡ a
kind_named-app_name controller = refl
kind_named-app_name restapi = refl
kind_named-app_name accounting = refl
kind_named-app_name worker = refl
kind_named-app_name login = refl

-- The two labels that a selector reads, under the ones that are added later.
module _ (given : Labels) (app name component : String) where
  abbrev built : Labels
  built = insert component_label component (insert instance_label name (insert app_label app given))

  app_built : get? app_label built ≡ some app
  app_built =
      get?-insert component_label app_label component _
      ∙ get?-insert instance_label app_label name _
      ∙ get?-insert app_label app_label app given

  instance_built : get? instance_label built ≡ some name
  instance_built =
      get?-insert component_label instance_label component _
      ∙ get?-insert instance_label instance_label name _

-- The app and the instance of labels.
abbrev Names : Labels → Kind → String → Type 0
Names labels b name =
    (get? app_label labels ≡ some (app_name b)) × (get? instance_label labels ≡ some name)

labels_of-Names :
    (given : Labels) (b : Kind) (name cluster : String)
    → Names (labels_of given b name cluster) b name
unfolding with_controller_labels with_restapi_labels with_accounting_labels with_worker_labels
    with_login_labels
labels_of-Names given controller name cluster = (
  app_built given "slurmctld" name "controller",
  instance_built given "slurmctld" name "controller",
)
labels_of-Names given restapi name cluster =
    (app_built given "slurmrestd" name "restapi", instance_built given "slurmrestd" name "restapi")
labels_of-Names given accounting name cluster = (
  app_built given "slurmdbd" name "accounting",
  instance_built given "slurmdbd" name "accounting",
)
labels_of-Names given worker name cluster = (
  get?-insert cluster_label app_label cluster _ ∙ app_built given "slurmd" name "worker",
  get?-insert cluster_label instance_label cluster _ ∙ instance_built given "slurmd" name "worker",
)
labels_of-Names given login name cluster =
    (app_built given "login" name "login", instance_built given "login" name "login")

some-inj : {s t : String} → some s ≡ some t → s ≡ t
some-inj p = cc p

selector_of-two :
    (a : Kind) (name : String)
    → selector_of a name ≡ (app_label, app_name a) ∷ (instance_label, name) ∷ []
unfolding with_controller_selector_labels with_restapi_selector_labels
    with_accounting_selector_labels with_worker_selector_labels with_login_selector_labels
selector_of-two controller name = refl
selector_of-two restapi name = refl
selector_of-two accounting name = refl
selector_of-two worker name = refl
selector_of-two login name = refl

-- The selector of an object selects what was given the labels of an object, whatever labels a user
-- had given it before, just if it is the same kind of object with the same name.
pub selector_of-Selects :
    (a b : Kind) (name other cluster : String) (given : Labels)
    → Selects (selector_of a name) (labels_of given b other cluster) ↔ ((a ≡ b) × (name ≡ other))
selector_of-Selects a b name other cluster given = (there, back)
  where
    names : Names (labels_of given b other cluster) b other
    names = labels_of-Names given b other cluster

    there :
        Selects (selector_of a name) (labels_of given b other cluster) → (a ≡ b) × (name ≡ other)
    there h =
        let (app, (inst, u)) =
          subst (λ l. Selects l (labels_of given b other cluster)) (selector_of-two a name) h in
        (
          sym (kind_named-app_name a)
              ∙ ap kind_named (some-inj (sym app ∙ names.0))
              ∙ kind_named-app_name b,
          some-inj (sym inst ∙ names.1),
        )

    back : (a ≡ b) × (name ≡ other) → Selects (selector_of a name) (labels_of given b other cluster)
    back (p, q) =
        subst (λ l. Selects l (labels_of given b other cluster)) (sym (selector_of-two a name))
          (names.0 ∙ ap (λ k. some (app_name k)) (sym p), (names.1 ∙ ap some (sym q), tt))
