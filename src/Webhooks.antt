-- ===== src/Webhooks.antt =====
-- internal/webhook: what is checked before an object is stored. A validation gives its warnings and
-- its errors, and the object is refused where there is an error. `read_files` is the read of a
-- ConfigMap, as the names of its files in the order in which they are ranged over. Two values that
-- are compared by `Semantic.DeepEqual` hold texts, Booleans and pointers to Booleans only.
pub mod Updates
pub mod Names
mod Examples
use Prim.Native.Char.{Char, code}
use Prim.Native.String
use slurm_operator.Prelude.{
  ℕ, ◌+◌, String, Bool, true, false, not, ◌&&◌, ◌||◌, List, [], ◌∷◌, ◌++◌, Option, none, some, ltb,
  leb, ◌==◌, str_eq, chars, has_str, if◌then◌else◌,
}
use slurm_operator.Api.{Error, Result, ok, err, text}
use slurm_operator.Keys.{SecretKeySelector, JwtSecretKeySelector}
use slurm_operator.Keys.Controllers.{Controller, cluster_name, auth_jwt_ref}
use slurm_operator.Keys.Accountings.{Accounting}
use slurm_operator.Keys.Accountings
use slurm_operator.Keys.Tokens.{Token, jwt_ref}

-- Warnings and errors.
abbrev pub Verdict : Type 0
Verdict = List String × List Error

abbrev pub no_objection : Verdict
no_objection = ([], [])

abbrev pub deny_config_files : List String
deny_config_files = "slurm.conf" ∷ "slurmdbd.conf" ∷ []

abbrev pub known_config_files : List String
known_config_files =
    "acct_gather.conf" ∷ "burst_buffer.conf" ∷ "cgroup.conf" ∷ "cli_filter.lua" ∷ "gres.conf"
    ∷ "helpers.conf" ∷ "job_container.conf" ∷ "job_submit.lua" ∷ "mpi.conf" ∷ "namespace.yaml"
    ∷ "oci.conf" ∷ "plugstack.conf" ∷ "topology.conf" ∷ "topology.yaml" ∷ []

-- A file's part in the verdict: whether it is reserved, whether Slurm knows it.
abbrev pub judge_file : Bool → Bool → Verdict → Verdict
judge_file true known (warns, errs) =
    (warns, text "the configFile is reserved for slurm-operator use" ∷ errs)
judge_file false true verdict = verdict
judge_file false false (warns, errs) = ("the configFile is unknown to Slurm" ∷ warns, errs)

unfoldable pub check_files : List String → Verdict
check_files [] = no_objection
check_files (file ∷ files) =
    judge_file (has_str file deny_config_files) (has_str file known_config_files)
      (check_files files)

-- One ConfigMap before the ones after it.
abbrev pub with_files : Result (List String) → Verdict → Verdict
with_files (err e) (warns, errs) = (warns, e ∷ errs)
with_files (ok files) (warns, errs) =
    ((check_files files).0 ++ warns, (check_files files).1 ++ errs)

-- `len` of a Go string counts the bytes of its encoding.
abbrev pub bytes_of : Char → ℕ
bytes_of c =
    if ltb (code c) 128
    then 1
    else if ltb (code c) 2048
    then 2
    else if ltb (code c) 65536
    then 3
    else 4

abbrev pub byte_length : List Char → ℕ
byte_length [] = 0
byte_length (c ∷ cs) = bytes_of c + byte_length cs

abbrev pub between : ℕ → ℕ → Char → Bool
between low high c = leb low (code c) && leb (code c) high

-- `[A-Z]` and `[0-9a-zA-Z$_]`.
abbrev pub is_capital : Char → Bool
is_capital c = between 65 90 c

abbrev pub is_table_char : Char → Bool
is_table_char c =
    (between 48 57 c || between 97 122 c) || (is_capital c || (code c == 36 || code c == 95))

-- A match anywhere in the text of one character or more of a class.
abbrev pub matches_some : (Char → Bool) → List Char → Bool
matches_some p [] = false
matches_some p (c ∷ cs) = p c || matches_some p cs

abbrev pub opt_eq : Option Bool → Option Bool → Bool
opt_eq none none = true
opt_eq (some true) (some true) = true
opt_eq (some false) (some false) = true
opt_eq _ _ = false

abbrev pub selector_eq : SecretKeySelector → SecretKeySelector → Bool
selector_eq a b = str_eq a.name b.name && (str_eq a.key b.key && opt_eq a.optional b.optional)

abbrev pub error_if : Bool → String → List Error → List Error
error_if true message errs = text message ∷ errs
error_if false message errs = errs

module _ (read_files : String → String → Result (List String)) where
  unfoldable pub validate_refs : String → List String → Verdict
  unfolding check_files
  validate_refs namespace [] = no_objection
  validate_refs namespace (name ∷ names) =
      with_files (read_files name namespace) (validate_refs namespace names)

  unfoldable pub validate_controller : Controller → Verdict
  unfolding validate_refs
  validate_controller o = validate_refs o.namespace o.config_file_refs

  abbrev pub warn_if : Bool → String → List String → List String
  warn_if true message warns = warns ++ message ∷ []
  warn_if false message warns = warns

  -- `ValidateCreate` and `ValidateUpdate` of a Controller.
  unfoldable pub validate_create : Controller → Verdict
  unfolding validate_controller cluster_name chars
  validate_create o =
      let (warns, errs) = validate_controller o in
      let name = chars (cluster_name o) in
      (
        warn_if (matches_some is_capital name) "ClusterName contains capital letters" warns,
        errs
            ++ error_if (ltb 40 (byte_length name)) "ClusterName exceeds 40 characters" (
                error_if (not (matches_some is_table_char name)) "ClusterName must match regex" []),
      )

  unfoldable pub validate_update : Controller → Controller → Verdict
  unfolding validate_controller cluster_name auth_jwt_ref
  validate_update old new =
      let (warns, errs) = validate_controller new in
      (
        warns,
        errs
            ++ error_if (not (str_eq (cluster_name new) (cluster_name old)))
                "cannot change ClusterName after deployment"
                (error_if (not (str_eq new.slurm_key_ref.name old.slurm_key_ref.name))
                  "cannot change SlurmKeyRef after deployment"
                  (error_if (not (selector_eq (auth_jwt_ref new) (auth_jwt_ref old)))
                    "the value of JwtKeyRef or JwtHs256KeyRef cannot be modified after deployment"
                    (error_if (not (opt_eq new.persistence_enabled old.persistence_enabled))
                      "cannot change persistence.enabled after deployment" []))),
      )

-- `ValidateUpdate` of an Accounting and of a Token.
unfoldable pub validate_accounting_update : Accounting → Accounting → Verdict
unfolding Accountings.auth_jwt_ref
validate_accounting_update old new = (
  [],
  error_if (not (selector_eq (Accountings.auth_jwt_ref new) (Accountings.auth_jwt_ref old)))
      "the value of JwtKeyRef or JwtHs256KeyRef cannot be modified after deployment" [],
)

abbrev pub jwt_selector_eq : JwtSecretKeySelector → JwtSecretKeySelector → Bool
jwt_selector_eq a b = selector_eq a.selector b.selector && str_eq a.namespace b.namespace

unfoldable pub validate_token_update : Token → Token → Verdict
unfolding jwt_ref
validate_token_update old new = (
  [],
  error_if (not (jwt_selector_eq (jwt_ref new) (jwt_ref old)))
      "the value of JwtKeyRef or JwtHs256KeyRef cannot be modified after deployment" [],
)
