-- ===== src/Webhooks/Names.antt =====
-- Which Controllers the webhook lets be created.
use Prim.Native.Char.{Char}
use slurm_operator.Prelude.{
  ℕ, ◌≤◌, String, Bool, true, false, not, ◌≡◌, refl, ◌↔◌, List, [], ◌∷◌, ◌++◌, All, ltb, chars,
  has_str, arith,
}
use slurm_operator.Api.{Error, Result, ok, err}
use slurm_operator.Keys.Controllers.{Controller, cluster_name}
use slurm_operator.Webhooks.{
  Verdict, judge_file, deny_config_files, known_config_files, check_files, with_files, byte_length,
  is_table_char, matches_some, validate_refs, validate_controller, validate_create,
}
use slurm_operator.Webhooks.Updates.{error_if-nil, append-nil-inv}

-- No file of the ConfigMap, which can be read, is one that the operator writes.
abbrev pub FilesOk : Result (List String) → Type 0
FilesOk (err e) = ⊥
FilesOk (ok files) = All (λ file. has_str file deny_config_files ≡ false) files

judge_file_lem :
    (reserved known : Bool) (v : Verdict)
    → ((judge_file reserved known v).1 ≡ []) ↔ ((reserved ≡ false) × (v.1 ≡ []))
judge_file_lem true known v = (λ h. absurd (cc), λ x. absurd (cc (x.0)))
judge_file_lem false true v = (λ h. (refl, h), λ x. x.1)
judge_file_lem false false v = (λ h. (refl, h), λ x. x.1)

check_files_lem :
    (files : List String)
    → ((check_files files).1 ≡ []) ↔ All (λ file. has_str file deny_config_files ≡ false) files
unfolding check_files
check_files_lem [] = (λ h. tt, λ h. refl)
check_files_lem (file ∷ files) =
    let (there, back) =
      judge_file_lem (has_str file deny_config_files) (has_str file known_config_files)
        (check_files files) in
    let (onward, backward) = check_files_lem files in
    (λ h. ((there h).0, onward (there h).1), λ x. back (x.0, backward x.1))

append-nil-intro : (xs ys : List Error) → xs ≡ [] → ys ≡ [] → xs ++ ys ≡ []
append-nil-intro [] ys p q = q
append-nil-intro (x ∷ xs) ys p q = absurd (cc)

with_files_lem :
    (r : Result (List String)) (v : Verdict) → ((with_files r v).1 ≡ []) ↔ (FilesOk r × (v.1 ≡ []))
with_files_lem (err e) v = (λ h. absurd (cc), λ x. absurd (x.0))
with_files_lem (ok files) v = (
  λ h. let (p, q) = append-nil-inv (check_files files).1 v.1 h in ((check_files_lem files).0 p, q),
  λ x. append-nil-intro (check_files files).1 v.1 ((check_files_lem files).1 x.0) x.1,
)

module _ (read_files : String → String → Result (List String)) where
  validate_refs_lem :
      (namespace : String) (names : List String)
      → ((validate_refs read_files namespace names).1 ≡ [])
        ↔ All (λ name. FilesOk (read_files name namespace)) names
  unfolding validate_refs
  validate_refs_lem namespace [] = (λ h. tt, λ h. refl)
  validate_refs_lem namespace (name ∷ names) =
      let (there, back) =
        with_files_lem (read_files name namespace) (validate_refs read_files namespace names) in
      let (onward, backward) = validate_refs_lem namespace names in
      (λ h. ((there h).0, onward (there h).1), λ x. back (x.0, backward x.1))

  not-true : (b : Bool) → not b ≡ false → b ≡ true
  not-true true h = refl
  not-true false h = absurd (cc)

  ltb-at_most : (n : ℕ) → ltb 40 n ≡ false → n ≤ 40
  ltb-at_most n h = ground (arith, h)

  at_most-ltb : (n : ℕ) → n ≤ 40 → ltb 40 n ≡ false
  at_most-ltb n h = ground (arith, h)

  -- A Controller may be created just if each ConfigMap that it refers to can be read and holds none
  -- of the reserved files, and the cluster's name has at most 40 bytes and at least one of the
  -- characters that a name of a table may have: the others may be any.
  pub validate_create_lem :
      (o : Controller)
      → ((validate_create read_files o).1 ≡ []) ↔ (
          All (λ name. FilesOk (read_files name o.namespace)) o.config_file_refs
          × (byte_length (chars (cluster_name o)) ≤ 40)
          × (matches_some is_table_char (chars (cluster_name o)) ≡ true))
  unfolding validate_create validate_controller
  validate_create_lem o = (there, back)
    where
      name : List Char
      name = chars (cluster_name o)

      there :
          (validate_create read_files o).1 ≡ []
          → All (λ n. FilesOk (read_files n o.namespace)) o.config_file_refs
            × (byte_length name ≤ 40)
            × (matches_some is_table_char name ≡ true)
      there h =
          let (files, e1) =
            append-nil-inv (validate_refs read_files o.namespace o.config_file_refs).1 _ h in
          let (short, e2) = error_if-nil (ltb 40 (byte_length name)) _ _ e1 in
          let (valid, e3) =
            error_if-nil (not (matches_some is_table_char name)) "ClusterName must match regex" []
              e2 in
          (
            (validate_refs_lem o.namespace o.config_file_refs).0 files,
            ltb-at_most (byte_length name) short,
            not-true _ valid,
          )

      back :
          All (λ n. FilesOk (read_files n o.namespace)) o.config_file_refs
            × (byte_length name ≤ 40)
            × (matches_some is_table_char name ≡ true)
          → (validate_create read_files o).1 ≡ []
      back (files, short, valid) =
          append-nil-intro (validate_refs read_files o.namespace o.config_file_refs).1 _
            ((validate_refs_lem o.namespace o.config_file_refs).1 files)
            (rw (at_most-ltb (byte_length name) short, valid) refl)
