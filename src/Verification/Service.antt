-- ===== src/Verification/Service.antt =====
-- The verification service of internal/verification/verification_service.go: its jobs, the slots
-- that bound them, and the goroutines that work on them.
pub mod Steps
pub mod Moves
pub mod Laws
use kode_stream.Prelude.{
  ℕ, zero, suc, ◌+◌, ◌-◌, ◌≡◌, Bool, true, false, not, ◌&&◌, ◌||◌, List, [], ◌∷◌, ◌++◌, Option,
  none, some, String, string_eq, nat_eq, ◌==◌, ltb, if◌then◌else◌, Result, ok, err, ◌>>=◌,
}
use kode_stream.Verification.Jobs.{
  Job, JobId, id_eq, JobMode, JobStatus, queued, running, passed, failed, FailureType, StepResult,
  Artifact, inconclusive, RepositoryFingerprint, project_freshness,
}
use kode_stream.Verification.Run.{begin_job}
use kode_stream.Verification.Retention.{prune}

-- `in_use` is the number of values in the channel `slots`, and `capacity` its size.
pub record Service : Type 0 where
  pub jobs : List Job
  pub seq : ℕ
  pub in_use : ℕ
  pub capacity : ℕ
  pub max_terminal : ℕ
  pub retention : ℕ

pub data StartError : Type 0 where
  closed registry_failed workspace_missing runtime_missing queue_full : StartError
  invalid_automation : String → StartError

-- What `prepareAutomationJob` takes from the request and the configuration.
pub record AutomationJob : Type 0 where
  pub environment : String
  pub selected_specs : List String
  pub rendered_command : String

-- What `Start` asks of others up to the id: the context, the registry, the preparation of the
-- automation and the clock. The code trims the trigger, which is trimmed here already.
pub record StartInput : Type 0 where
  pub is_closed : Bool
  pub registry_error : Bool
  pub workspace_found : Bool
  pub runtime_configured : Bool
  pub prepared : Result String AutomationJob
  pub mode : JobMode
  pub profile : String
  pub trigger : String
  pub unix : ℕ

abbrev default_profile : String → String
default_profile profile = if profile == "" then "smoke" else profile

new_job : String → StartInput → AutomationJob → JobId → Job
new_job workspace_id input automation id = record {
  id = id;
  workspace_id = workspace_id;
  mode = input.mode;
  profile = default_profile input.profile;
  environment = automation.environment;
  selected_specs = automation.selected_specs;
  rendered_command = automation.rendered_command;
  status = queued;
  failure_type = none;
  exit_code = 0;
  trigger = input.trigger;
  started_at = 0;
  finished_at = 0;
  steps = [];
  artifacts = [];
  artifact_warning = "";
  start_fingerprint = none;
  finish_fingerprint = none;
  current_fingerprint = none;
  freshness = inconclusive;
}

-- `s.seq.Add(1)`, which is not taken back when the queue is full.
abbrev next_id : ℕ → Service → JobId
next_id unix s = record { unix = unix; sequence = suc s.seq }

abbrev drawn : Service → Service
drawn s = record s { seq = suc s.seq }

abbrev prepared_start :
    String → StartInput → Result String AutomationJob → Service → Result StartError Job × Service
prepared_start w input (err e) s = (err (invalid_automation e), s)
prepared_start w input (ok automation) s =
    (ok (new_job w input automation (next_id input.unix s)), drawn s)

-- `Start` up to the new job, whose id is drawn in one atomic step.
unfoldable pub draw_job : String → StartInput → Service → Result StartError Job × Service
unfolding new_job
draw_job w input s =
    if input.is_closed
    then (err closed, s)
    else if input.registry_error
    then (err registry_failed, s)
    else if not input.workspace_found
    then (err workspace_missing, s)
    else if not input.runtime_configured
    then (err runtime_missing, s)
    else prepared_start w input input.prepared s

-- The fingerprint at the start, if there is one.
abbrev pub started_with : Option RepositoryFingerprint → Job → Job
started_with f job = record job { start_fingerprint = f }

-- The `select` on the slots: one is taken, or the queue is full.
unfoldable pub take_slot : Service → Option Service
take_slot s = if ltb s.in_use s.capacity then some (record s { in_use = suc s.in_use }) else none

-- The insertion into the map, under an id that is not there.
abbrev pub insert_job : Job → Service → Service
insert_job job s = record s { jobs = job ∷ s.jobs }

-- `mutate`, `snapshot` and `snapshotAny`.
pub mutate : JobId → (Job → Job) → List Job → List Job
mutate i f [] = []
mutate i f (j ∷ js) = (if j.id == i then f j else j) ∷ mutate i f js

pub snapshot_any : JobId → List Job → Option Job
snapshot_any i [] = none
snapshot_any i (j ∷ js) = if j.id == i then some j else snapshot_any i js

abbrev of_workspace : String → Option Job → Option Job
of_workspace w none = none
of_workspace w (some j) = if j.workspace_id == w then some j else none

-- `GetContext`: a copy with the present fingerprint and the freshness that follows from it.
abbrev presented : Option RepositoryFingerprint → Option Job → Option Job
presented current none = none
presented none (some j) = some (record j { freshness = project_freshness j })
presented (some f) (some j) =
    let known : Job = record j { current_fingerprint = some f } in
    some (record known { freshness = project_freshness known })

unfoldable pub get_job : String → JobId → Option RepositoryFingerprint → Service → Option Job
unfolding snapshot_any
get_job w i current s = presented current (of_workspace w (snapshot_any i s.jobs))

-- Where a call of `Start` stands behind its id, and then the goroutine of `run` that it launches: the
-- id is drawn, the fingerprint is taken, a slot is held, the job is inserted; the goroutine waits, is
-- at work, has captured the fingerprint at the end, has concluded its job, and has pruned, when only
-- its slot is left to give back.
pub data Phase : Type 0 where
  numbered measured holding inserted waiting working captured_end concluded leaving : Phase

-- `job` is the job as the call of `Start` has built it; what becomes of it later is in the map.
pub record Worker : Type 0 where
  pub job : Job
  pub phase : Phase

pub record World : Type 0 where
  pub service : Service
  pub workers : List Worker

-- The list without its n-th worker, and with another one in its place.
abbrev pub without : List Worker → ℕ → List Worker
without [] n = []
without (w ∷ ws) zero = ws
without (w ∷ ws) (suc n) = w ∷ without ws n

abbrev pub replaced_at : Worker → List Worker → ℕ → List Worker
replaced_at u [] n = []
replaced_at u (w ∷ ws) zero = u ∷ ws
replaced_at u (w ∷ ws) (suc n) = w ∷ replaced_at u ws n

abbrev pub worker_at : List Worker → ℕ → Option Worker
worker_at [] n = none
worker_at (w ∷ ws) zero = some w
worker_at (w ∷ ws) (suc n) = worker_at ws n

-- What `run` does to its job while it works: a step is recorded, a failure with its step, artifacts,
-- and the exit code of a run that has passed.
pub data Mutation : Type 0 where
  step_recorded : StepResult → Mutation
  failure_recorded : FailureType → ℕ → StepResult → Mutation
  artifacts_collected : List Artifact → String → Mutation
  exit_recorded : Mutation

pub apply_mutation : Mutation → Job → Job
apply_mutation (step_recorded r) j = record j { steps = j.steps ++ (r ∷ []) }
apply_mutation (failure_recorded f code r) j = record j {
  failure_type = some f;
  exit_code = code;
  steps = j.steps ++ (r ∷ []);
}
apply_mutation (artifacts_collected xs warning) j = record j {
  artifacts = j.artifacts ++ xs;
  artifact_warning = if warning == "" then j.artifact_warning else warning;
}
apply_mutation exit_recorded j = record j { exit_code = 0 }

-- `captureFinishFingerprint`, when the fingerprinter answers.
abbrev pub finished_with : Option RepositoryFingerprint → Job → Job
finished_with none j = j
finished_with (some f) j = record j { finish_fingerprint = some f }

-- The final status: passed, or failed.
abbrev pub concluded_as : Bool → ℕ → Job → Job
concluded_as true now j = record j { status = passed; finished_at = now }
concluded_as false now j = record j { status = failed; finished_at = now }

abbrev pub with_jobs : List Job → Service → Service
with_jobs js s = record s { jobs = js }

-- The n-th worker goes on in another phase.
abbrev pub go_to : Phase → Job → ℕ → Service → World → World
go_to p job n s v = record {
  service = s;
  workers = replaced_at (record { job = job; phase = p }) v.workers n;
}

-- The steps that callers and goroutines take, in any order, one for each time the code takes a lock,
-- a slot or a number.
pub data Step : World → World → Type 0 where
  draw :
      (w : String) (input : StartInput) (v : World) (job : Job) (s : Service)
      → draw_job w input v.service ≡ (ok job, s)
      → Step v
          (record { service = s; workers = record { job = job; phase = numbered } ∷ v.workers })
  refuse :
      (w : String) (input : StartInput) (v : World) (e : StartError) (s : Service)
      → draw_job w input v.service ≡ (err e, s)
      → Step v (record v { service = s })
  measure :
      (n : ℕ) (f : Option RepositoryFingerprint) (v : World) (job : Job)
      → worker_at v.workers n ≡ some (record { job = job; phase = numbered })
      → Step v (go_to measured (started_with f job) n v.service v)
  take :
      (n : ℕ) (v : World) (job : Job) (s : Service)
      → worker_at v.workers n ≡ some (record { job = job; phase = measured })
      → take_slot v.service ≡ some s
      → Step v (go_to holding job n s v)
  full :
      (n : ℕ) (v : World) (job : Job)
      → worker_at v.workers n ≡ some (record { job = job; phase = measured })
      → take_slot v.service ≡ none
      → Step v (record v { workers = without v.workers n })
  insert :
      (n : ℕ) (v : World) (job : Job)
      → worker_at v.workers n ≡ some (record { job = job; phase = holding })
      → Step v (go_to inserted job n (insert_job job v.service) v)
  launch :
      (n : ℕ) (v : World) (job : Job)
      → worker_at v.workers n ≡ some (record { job = job; phase = inserted })
      → Step v (go_to waiting job n v.service v)
  vanish :
      (n : ℕ) (v : World) (job : Job)
      → worker_at v.workers n ≡ some (record { job = job; phase = waiting })
      → snapshot_any job.id v.service.jobs ≡ none
      → Step v (go_to leaving job n v.service v)
  begin :
      (n now : ℕ) (v : World) (job : Job)
      → worker_at v.workers n ≡ some (record { job = job; phase = waiting })
      → Step v (
          go_to working job n
            (with_jobs (mutate job.id (begin_job now) v.service.jobs) v.service)
            v)
  progress :
      (n : ℕ) (m : Mutation) (v : World) (job : Job)
      → worker_at v.workers n ≡ some (record { job = job; phase = working })
      → Step v (
          go_to working job n
            (with_jobs (mutate job.id (apply_mutation m) v.service.jobs) v.service)
            v)
  capture :
      (n : ℕ) (f : Option RepositoryFingerprint) (v : World) (job : Job)
      → worker_at v.workers n ≡ some (record { job = job; phase = working })
      → Step v (
          go_to captured_end job n
            (with_jobs (mutate job.id (finished_with f) v.service.jobs) v.service)
            v)
  conclude :
      (n now : ℕ) (b : Bool) (v : World) (job : Job)
      → worker_at v.workers n ≡ some (record { job = job; phase = captured_end })
      → Step v (
          go_to concluded job n
            (with_jobs (mutate job.id (concluded_as b now) v.service.jobs) v.service)
            v)
  prune_jobs :
      (n now : ℕ) (v : World) (job : Job)
      → worker_at v.workers n ≡ some (record { job = job; phase = concluded })
      → Step v (
          go_to leaving job n
            (with_jobs
              (prune now v.service.retention v.service.max_terminal v.service.jobs)
              v.service)
            v)
  release :
      (n : ℕ) (v : World) (job : Job)
      → worker_at v.workers n ≡ some (record { job = job; phase = leaving })
      → Step v (record {
        service = record v.service { in_use = v.service.in_use - 1 };
        workers = without v.workers n;
      })

pub data Reach (v : World) : World → Type 0 where
  here : Reach v v
  next : {u u' : World} → Reach v u → Step u u' → Reach v u'

-- A service that has just been made, with its number of slots.
abbrev pub new_world : ℕ → ℕ → ℕ → World
new_world capacity max_terminal retention = record {
  service = record {
    jobs = [];
    seq = 0;
    in_use = 0;
    capacity = capacity;
    max_terminal = max_terminal;
    retention = retention;
  };
  workers = [];
}
