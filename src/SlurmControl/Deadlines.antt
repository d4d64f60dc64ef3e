-- ===== src/SlurmControl/Deadlines.antt =====
-- internal/controller/nodeset/slurmcontrol/slurmcontrol.go: `GetNodeDeadlines`. What
-- `hostlist.Expand` makes of a hostlist is a parameter. Times are nanoseconds since Go's zero time.
pub mod Latest
use slurm_operator.Prelude.{
  ℕ, ◌+◌, ◌-◌, ◌*◌, ◌%◌, ◌^◌, String, Bool, true, false, ◌||◌, List, [], ◌∷◌, map, leb, has_str,
  if◌then◌else◌,
}
use slurm_operator.Api.{Error, Result, ok, err, Pod}
use slurm_operator.Naming.{get_slurm_node_name}
use slurm_operator.Stores.{Store, empty, push, time_greater}
use slurm_operator.Effects.{JobInfo, Trace, Env, M, slurm_list_jobs}

-- `time.Unix(0, 0)`.
abbrev pub unix_epoch : ℕ
unix_epoch = 62135596800000000000

abbrev pub minute : ℕ
minute = 60000000000

-- `startTime.Add(timeLimit)`: the limit is an int64, so the product wraps around. Any start from
-- 1970 on is far enough from Go's zero time for a negative limit.
unfoldable pub job_end : JobInfo → ℕ
job_end job =
    let start = unix_epoch + job.start_time * 1000000000 in
    let limit = (job.time_limit * minute) % 2 ^ 64 in
    if job.infinite
    then start + 9223372036854775807
    else if leb 9223372036854775808 limit
    then start + limit - 2 ^ 64
    else start + limit

-- `HasAny` of a set.
abbrev pub has_any : List String → List String → Bool
has_any names [] = false
has_any names (n ∷ ns) = has_str n names || has_any names ns

unfoldable pub push_each : List String → ℕ → Store ℕ → Store ℕ
unfolding push
push_each [] t store = store
push_each (n ∷ ns) t store = push_each ns t (push time_greater n t store)

module _ (expand : String → Result (List String)) where
  -- One round of the loop over the jobs.
  unfoldable pub job_step : List String → JobInfo → Store ℕ → Result (Store ℕ)
  unfolding push_each job_end
  job_step names job store =
      if job.is_running
      then elim (expand job.nodes) [
        | err e ↦ err e
        | ok ns ↦ ok (if has_any names ns then push_each ns (job_end job) store else store)
      ]
      else ok store

  unfoldable pub jobs_loop : List String → List JobInfo → Store ℕ → Result (Store ℕ)
  unfolding job_step
  jobs_loop names [] store = ok store
  jobs_loop names (job ∷ jobs) store = elim (job_step names job store) [
    | err e ↦ err e
    | ok store' ↦ jobs_loop names jobs store'
  ]

  unfoldable pub get_node_deadlines : Env → List Pod → M (Store ℕ)
  unfolding jobs_loop
  get_node_deadlines env pods tr =
      if env.has_slurm_client tr
      then elim (env.list_jobs tr) [
        | err e ↦ (err e, slurm_list_jobs ∷ tr)
        | ok jobs ↦ (jobs_loop (map get_slurm_node_name pods) jobs empty, slurm_list_jobs ∷ tr)
      ]
      else (ok empty, tr)
