-- ===== src/SlurmControl/Deadlines/Latest.antt =====
-- A node's deadline is the latest end of the running jobs on it.
use slurm_operator.Prelude.{
  ℕ, max, String, Bool, true, false, ◌&&◌, ◌≡◌, refl, sym, ap, ◌∙◌, subst, List, [], ◌∷◌, map,
  has_str, arith, str_eq, eq_iff, Bool-cases, inl, inr, All, if◌then◌else◌,
}
use slurm_operator.Api.{Result, ok, err, Pod}
use slurm_operator.Naming.{get_slurm_node_name}
use slurm_operator.Stores.{Store, empty, peek, push, time_greater}
use slurm_operator.Stores.Pushes.{peek-push}
use slurm_operator.Effects.{JobInfo, Trace, Env, slurm_list_jobs}
use slurm_operator.SlurmControl.Deadlines.{
  job_end, has_any, push_each, job_step, jobs_loop, get_node_deadlines,
}

has_str_trans :
    (a b : String) (names : List String)
    → str_eq a b ≡ true
    → has_str b names ≡ true
    → has_str a names ≡ true
has_str_trans a b names e h = subst (λ x. has_str x names ≡ true) (sym ((eq_iff a b).0 e)) h

has_any-of :
    (name : String) (names ns : List String)
    → has_str name names ≡ true
    → has_str name ns ≡ true
    → has_any names ns ≡ true
has_any-of name names [] h i = absurd (cc)
has_any-of name names (n ∷ ns) h i =
    ground (arith, has_str_trans n name names, has_any-of name names ns)

peek-push_each :
    (name : String) (ns : List String) (t : ℕ) (store : Store ℕ)
    → peek 0 name (push_each ns t store)
      ≡ (if has_str name ns then max (peek 0 name store) t else peek 0 name store)
unfolding push_each
peek-push_each name [] t store = refl
peek-push_each name (n ∷ ns) t store =
    ground (arith, peek-push_each name ns t (push time_greater n t store), peek-push name n t store)

module _ (expand : String → Result (List String)) where
  -- Whether a job runs on a node.
  unfoldable pub runs_on : String → JobInfo → Bool
  runs_on name job =
      job.is_running && elim (expand job.nodes) [ ok ns ↦ has_str name ns | err e ↦ false ]

  -- The latest end of the jobs that run on a node, and of one more time.
  unfoldable pub latest_end : String → List JobInfo → ℕ → ℕ
  unfolding runs_on
  latest_end name [] t = t
  latest_end name (job ∷ jobs) t =
      latest_end name jobs (if runs_on name job then max t (job_end job) else t)

  -- The hostlist of a running job is one that `hostlist.Expand` reads.
  abbrev pub IsReadable : JobInfo → Type 0
  IsReadable job = job.is_running ≡ true → (ns : List String) × (expand job.nodes ≡ ok ns)

  job_step_lem :
      (names : List String) (job : JobInfo) (store : Store ℕ)
      → IsReadable job
      → (store' : Store ℕ) × (job_step expand names job store ≡ ok store')
        × ((name : String)
            → has_str name names ≡ true
            → peek 0 name store' ≡ (
                if runs_on name job
                then max (peek 0 name store) (job_end job)
                else peek 0 name store))
  unfolding job_step runs_on
  job_step_lem names job store readable = elim (Bool-cases job.is_running) [
    | inr off ↦ (store, rw off refl, λ name i. rw off refl)
    | inl on ↦
        let (ns, e) = readable on in
        elim (Bool-cases (has_any names ns)) [
          | inl any ↦ (
            push_each ns (job_end job) store,
            rw (on, e, any) refl,
            λ name i. rw (on, e) (peek-push_each name ns (job_end job) store),
          )
          | inr miss ↦ (
            store,
            rw (on, e, miss) refl,
            λ name i. rw (on, e) (ground (arith, has_any-of name names ns)),
          )
        ]
  ]

  jobs_loop_lem :
      (names : List String) (jobs : List JobInfo) (store : Store ℕ)
      → All IsReadable jobs
      → (store' : Store ℕ) × (jobs_loop expand names jobs store ≡ ok store')
        × ((name : String)
            → has_str name names ≡ true
            → peek 0 name store' ≡ latest_end name jobs (peek 0 name store))
  unfolding jobs_loop latest_end
  jobs_loop_lem names [] store readable = (store, refl, λ name i. refl)
  jobs_loop_lem names (job ∷ jobs) store readable =
      let (mid, e, at_mid) = job_step_lem names job store readable.0 in
      let (end, e', at_end) = jobs_loop_lem names jobs mid readable.1 in
      (
        end,
        rw (jobs_loop, e) e',
        λ name i. at_end name i ∙ ap (latest_end name jobs) (at_mid name i),
      )

  -- With a client that lists the jobs, and hostlists that can be read, `GetNodeDeadlines` returns
  -- a store in which each node of the pods has the latest end of the running jobs on it, or the
  -- zero time where there is none.
  pub get_node_deadlines_lem :
      (env : Env) (pods : List Pod) (tr : Trace) (jobs : List JobInfo)
      → env.has_slurm_client tr ≡ true
      → env.list_jobs tr ≡ ok jobs
      → All IsReadable jobs
      → (store : Store ℕ) × (get_node_deadlines expand env pods tr
          ≡ (ok store, slurm_list_jobs ∷ tr))
        × ((name : String)
            → has_str name (map get_slurm_node_name pods) ≡ true
            → peek 0 name store ≡ latest_end name jobs 0)
  unfolding get_node_deadlines peek
  get_node_deadlines_lem env pods tr jobs client listed readable =
      let (store, e, at) = jobs_loop_lem (map get_slurm_node_name pods) jobs empty readable in
      (store, rw (client, listed, e) refl, at)
