-- ===== src/Verification/Retention.antt =====
-- Which finished jobs are forgotten: `pruneTerminalJobs` of
-- internal/verification/verification_service.go. The jobs are a list in the order in which one
-- range over the Go map meets them, which the runtime chooses.
pub mod Candidates
pub mod Latest
pub mod Laws
use kode_stream.Prelude.{
  ℕ, suc, ◌-◌, Bool, true, false, not, ◌&&◌, ◌||◌, List, [], ◌∷◌, Option, none, some, String,
  string_eq, nat_eq, ◌==◌, ltb, if◌then◌else◌, Map, empty_map, put, All, select, any, length, ◌≢◌,
}
use kode_stream.Verification.Jobs.{Job, JobId, id_eq, is_terminal}

-- The ids of a map are distinct.
abbrev pub IsKeyed : List Job → Type 0
IsKeyed [] = Unit
IsKeyed (j ∷ js) = All (λ (k : Job). k.id ≢ j.id) js × IsKeyed js

abbrev pub terminal : Job → Bool
terminal j = is_terminal j.status

-- What the map `latestByWorkspace` holds for a workspace: the job in place of its id.
abbrev pub newer : Option Job → Job → Bool
newer none job = true
newer (some previous) job = ltb previous.finished_at job.finished_at

abbrev pub note : Job → Map String Job → Map String Job
note job m =
    if terminal job && newer (m job.workspace_id) job then put job.workspace_id job m else m

pub latest_from : Map String Job → List Job → Map String Job
latest_from m [] = m
latest_from m (job ∷ jobs) = latest_from (note job m) jobs

unfoldable pub latest_by_workspace : List Job → Map String Job
unfolding latest_from
latest_by_workspace jobs = latest_from empty_map jobs

-- `sort.Slice` by the time of finishing.
pub insert_by_finish : Job → List Job → List Job
insert_by_finish j [] = j ∷ []
insert_by_finish j (k ∷ ks) =
    if ltb k.finished_at j.finished_at then k ∷ insert_by_finish j ks else j ∷ k ∷ ks

pub sort_by_finish : List Job → List Job
unfolding insert_by_finish
sort_by_finish [] = []
sort_by_finish (j ∷ js) = insert_by_finish j (sort_by_finish js)

abbrev pub is_job : Option Job → JobId → Bool
is_job none i = false
is_job (some k) i = k.id == i

-- `latestByWorkspace[candidate.workspaceID] == candidate.id`
abbrev pub is_latest : Map String Job → Job → Bool
is_latest latest c = is_job (latest c.workspace_id) c.id

-- A retention of 0 stands for one that is not positive, and so for no expiry.
abbrev pub expired : ℕ → ℕ → Job → Bool
expired now retention c =
    ltb 0 retention && not (c.finished_at == 0) && ltb retention (now - c.finished_at)

-- The loop over the sorted candidates: the ids that it deletes.
unfoldable pub doomed : ℕ → ℕ → ℕ → Map String Job → ℕ → List Job → List JobId
doomed now retention max latest remaining [] = []
doomed now retention max latest remaining (c ∷ cs) =
    let fewer = doomed now retention max latest (remaining - 1) cs in
    let same = doomed now retention max latest remaining cs in
    if (expired now retention c || ltb max remaining) && not (is_latest latest c)
    then c.id ∷ fewer
    else same

unfoldable pub removed_ids : ℕ → ℕ → ℕ → List Job → List JobId
unfolding doomed sort_by_finish
removed_ids now retention max jobs =
    let terminals = select terminal jobs in
    doomed now retention max (latest_by_workspace jobs) (length terminals)
      (sort_by_finish terminals)

-- `delete(s.jobs, id)` for each of them.
unfoldable pub prune : ℕ → ℕ → ℕ → List Job → List Job
unfolding removed_ids
prune now retention max jobs =
    let removed = removed_ids now retention max jobs in
    select (λ (j : Job). not (any (λ i. i == j.id) removed)) jobs
