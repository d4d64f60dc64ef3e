-- ===== src/History/Examples.antt =====
-- The history of a NodeSet, tested on a client that keeps the revisions in a list.
use Prim.Native.String
use slurm_operator.Prelude.{
  Bool, ℕ, zero, suc, subst, eq_iff, String, true, false, ◌≡◌, refl, sym, ap, ◌∙◌, inl, inr, List,
  [], ◌∷◌, ◌++◌, Option, none, some, min, keep, not, has_str, length, All, str_eq, Bool-cases,
  if◌then◌else◌,
}
use slurm_operator.Api.{Error, not_found, already_exists, Result, ok, err, Pod}
use slurm_operator.Claims.{Owner}
use slurm_operator.Steps.{Step, last, Retrier, Gives, ok-inj}
use slurm_operator.Samples.{pod_named}
use slurm_operator.History.{Revision, Client, owner_ref, create_controller_revision, set_revision}
use slurm_operator.History.Create.{create_controller_revision_lem}
use slurm_operator.History.Revisions.{Api, get_node_set_revisions, truncate_history}
use slurm_operator.History.Truncate.{is_live, Deletes, truncate_history_lem}
use slurm_operator.History.Choice.{Contract, get_node_set_revisions_lem}

abbrev revision_of : String → String → ℕ → Revision
revision_of name raw n = record {
  name = name;
  namespace = "slurm";
  labels = [];
  owner_references = [];
  raw = raw;
  revision = n;
}

-- One revision is there, under the first name.
abbrev old : Revision
old = revision_of "w-0" "before" 1

abbrev create_but : String → Option Error
create_but name = if str_eq name "w-0" then some already_exists else none

-- The world is what was deleted.
abbrev client : Client (List Revision)
client = record {
  list = λ namespace w. (ok (old ∷ []), w);
  get = λ name w. (if str_eq name "w-0" then ok old else err not_found, w);
  create = λ r w. (create_but r.name, w);
  update = λ r w. (none, w);
  delete = λ r w. (none, w ++ r ∷ []);
  is_invalid = λ e. false;
}

abbrev one_try : Retrier
one_try = record { retry = λ fn w. fn w; retries = λ fn w. last w }

abbrev parent : Owner
parent = record { api_version = "v1"; kind = "NodeSet"; name = "w"; uid = "u" }

abbrev named : String → String → String
named p h = String.◌++◌ p (String.◌++◌ "-" h)

abbrev hash : Revision → ℕ → String
hash r zero = "0"
hash r (suc n) = "1"

abbrev new : Revision
new = revision_of "" "after" 2

covers :
    (c : Revision) (w : List Revision)
    → (client.create c w).0 ≡ some already_exists
    → has_str c.name ("w-0" ∷ []) ≡ true
covers c w e = elim (Bool-cases (str_eq c.name "w-0")) [
  | inl f ↦ subst (λ n. has_str n ("w-0" ∷ []) ≡ true) (sym ((eq_iff c.name "w-0").0 f)) refl
  | inr f ↦ let free : create_but c.name ≡ none = rw f refl in absurd (cc (e, free))
]

lost : set_revision none "abc" ≡ none
lost = refl

create_controller_revision_lem_example :
    (r : Result Revision) × (c : ℕ) × (w : List Revision) × (create_controller_revision client named
        hash 2 parent "slurm" new 0 []
      ≡ some (r, c, w))
    × Gives (λ created. created.raw ≡ "after") r
create_controller_revision_lem_example =
    create_controller_revision_lem client named hash parent "slurm" new 0 [] ("w-0" ∷ []) covers
      (refl, (refl, tt))

-- The first name is taken by other data, so the second collision count is used.
second_name :
    create_controller_revision client named hash 2 parent "slurm" new 0 []
    ≡ some (ok (revision_of "w-1" "after" 2), 1, [])
unfolding create_controller_revision
second_name = refl

abbrev adopted : Revision
adopted = record old { owner_references = owner_ref parent ∷ [] }

abbrev listed : List Revision
listed = revision_of "w-1" "a" 1 ∷ revision_of "w-2" "b" 2 ∷ revision_of "w-3" "c" 3 ∷ []

deletes : Deletes client (λ w. w)
deletes = record { accepts = λ r w. refl; logs = λ r w. refl }

abbrev get_pods : Step (List Revision) (List Pod)
get_pods w = (ok (pod_named "w-0" ∷ []), w)

truncate_history_lem_example :
    let dead : Revision → Bool = λ r. not (is_live (some old) none (pod_named "w-0" ∷ []) r) in
    (w : List Revision) × (gone : List Revision) × (kept : List Revision) × (truncate_history client
        one_try get_pods 1 listed
        (some old)
        none
        []
      ≡ (ok tt, w))
    × (w ≡ [] ++ gone)
    × (gone ++ kept ≡ keep dead listed)
    × (length kept ≡ min 1 (length (keep dead listed)))
truncate_history_lem_example =
    truncate_history_lem client one_try (λ w. w) deletes get_pods 1 listed (some old) none []
      (pod_named "w-0" ∷ []) refl

abbrev k8s : Api
k8s = record {
  sort = λ rs. rs;
  equal = λ a b. str_eq a.raw b.raw;
  find_equal = λ rs r. keep (λ s. str_eq s.raw r.raw) rs;
  revision_name = named;
  hash = hash;
}

abbrev content : String → String
content name = "before"

all_equal :
    (rs : List Revision) (new : Revision) → All (λ r. r.raw ≡ new.raw) (k8s.find_equal rs new)
all_equal [] new = tt
all_equal (r ∷ rs) new = elim (Bool-cases (str_eq r.raw new.raw)) [
  | inl e ↦ rw e ((eq_iff r.raw new.raw).0 e, all_equal rs new)
  | inr e ↦ rw e (all_equal rs new)
]

fetched : (n : String) (r : Revision) → (client.get n []).0 ≡ ok r → r.raw ≡ content n
fetched n r e = elim (Bool-cases (str_eq n "w-0")) [
  | inl f ↦
      let there : (client.get n []).0 ≡ ok old = rw f refl in
      sym (ap Revision.raw (ok-inj (sym there ∙ e)))
  | inr f ↦
      let missing : (client.get n []).0 ≡ err not_found = rw f refl in absurd (cc (e, missing))
]

contract : Contract client k8s content
contract = record {
  equal-raw = λ a b e. (eq_iff a.raw b.raw).0 e;
  found-equal = all_equal;
  found-nil = λ r. refl;
  immutable = λ n w r e. fetched n r e;
}

abbrev again : Revision
again = revision_of "" "before" 3

-- The newest revision has other data, so the older one is rolled back to.
abbrev two : List Revision
two = old ∷ revision_of "w-1" "after" 2 ∷ []

get_node_set_revisions_lem_example :
    (r : Result (Revision × Revision)) × (c : ℕ) × (w : List Revision) × (get_node_set_revisions
        client one_try k8s 2 parent "slurm"
        (λ n c. ok again)
        "w-0"
        (some 0)
        two
        []
      ≡ some (r, c, w))
    × Gives (λ both. both.1.raw ≡ "before") r
get_node_set_revisions_lem_example =
    get_node_set_revisions_lem client one_try k8s content contract parent "slurm" again ("w-0" ∷ [])
      covers (λ n c. ok again) "w-0" 0 two [] refl (refl, tt) (refl, (refl, tt))
