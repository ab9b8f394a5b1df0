-- ===== src/Verification/Run.antt =====
-- What the goroutine of a job does: `run`, `runStep`, `failJob` and the collecting of artifacts in
-- internal/verification/verification_service.go.
pub mod Laws
use Prim.Native.String
use kode_stream.Prelude.{
  ℕ, Bool, true, false, List, [], ◌∷◌, ◌++◌, map, Option, none, some, String, string_eq, ◌==◌,
  Result, ok, err, ◌>>=◌, if◌then◌else◌,
}
use kode_stream.Verification.Jobs.{
  Job, JobMode, JobStatus, queued, running, passed, failed, FailureType, boot_failure, test_failure,
  infra_failure, StepResult, step_ok, step_failed, Artifact, RepositoryFingerprint, runtime,
  automation,
}

-- The calls of the runtime service.
pub data Call : Type 0 where
  prepare up health verify run_command down : Call

-- What the file system, the runtime service and the collecting of artifacts give in one run; an
-- error is its message.
pub record Outcomes : Type 0 where
  pub artifact_root : Option String
  pub runtime_log : Option String
  pub verify_log : Option String
  pub prepared : Option String
  pub started : Option String
  pub healthy : Option String
  pub verified : Option String
  pub stopped : Option String
  pub artifacts : List Artifact
  pub artifact_warning : String
  pub automation_artifacts : List Artifact
  pub automation_warning : String
  pub finish_fingerprint : Option RepositoryFingerprint
  pub begun : ℕ
  pub ended : ℕ

-- The job and the calls that have been made, the first one first.
pub record Progress : Type 0 where
  pub job : Job
  pub calls : List Call

step_of : String → Option String → StepResult
step_of name none = record { step = name; status = step_ok; message = "" }
step_of name (some e) = record { step = name; status = step_failed; message = e }

-- `runStep`
run_step : String → Call → Option String → Progress → Progress
unfolding step_of
run_step name call result p = record p {
  job = record p.job { steps = p.job.steps ++ (step_of name result ∷ []) };
  calls = p.calls ++ (call ∷ []);
}

-- `s.runtime.Down` whose error is dropped, outside a step
tear_down : Progress → Progress
tear_down p = record p { calls = p.calls ++ (down ∷ []) }

-- `fmt.Sprintf("%s: %v", message, err)`
describe : String → String → String
describe message e = String.◌++◌ message (String.◌++◌ ": " e)

-- `failJob`
fail_job : FailureType → ℕ → String → String → Progress → Progress
unfolding describe
fail_job failure code message e p =
    let failure_step : StepResult = record {
      step = "failure";
      status = step_failed;
      message = describe message e;
    } in
    record p {
      job = record p.job {
        failure_type = some failure;
        exit_code = code;
        steps = p.job.steps ++ (failure_step ∷ []);
      };
    }

abbrev tagged : String → List Artifact → List Artifact
tagged root = map (λ (a : Artifact). record a { root = root })

abbrev warned : String → String → String
warned old new = if new == "" then old else new

-- `collectArtifacts` and `collectAutomationArtifacts`, which is for automation jobs only
collect : Outcomes → Progress → Progress
collect o p = record p {
  job = record p.job {
    artifacts = p.job.artifacts ++ tagged "workspace" o.artifacts;
    artifact_warning = warned p.job.artifact_warning o.artifact_warning;
  };
}

collect_if_automation : Outcomes → JobMode → Progress → Progress
collect_if_automation o runtime p = p
collect_if_automation o automation p = record p {
  job = record p.job {
    artifacts = p.job.artifacts ++ tagged "automation" o.automation_artifacts;
    artifact_warning = warned p.job.artifact_warning o.automation_warning;
  };
}

collect_automation : Outcomes → Progress → Progress
unfolding collect_if_automation
collect_automation o p = collect_if_automation o p.job.mode p

-- The stages of `run`: a failed one ends the run with what is done about it.
open_stage : String → Option String → Progress → Result Progress Progress
unfolding fail_job
open_stage what none p = ok p
open_stage what (some e) p = err (fail_job infra_failure 30 what e p)

prepare_stage : Outcomes → Option String → Progress → Result Progress Progress
unfolding run_step fail_job collect
prepare_stage o none p = ok (run_step "prepare" prepare none p)
prepare_stage o (some e) p = err (
    collect o
      (fail_job infra_failure 30 "prepare failed" e (run_step "prepare" prepare (some e) p)))

up_stage : Outcomes → Option String → Progress → Result Progress Progress
unfolding run_step fail_job collect tear_down
up_stage o none p = ok (run_step "up" up none p)
up_stage o (some e) p = err (
    collect o
      (fail_job boot_failure 10 "startup failed" e (tear_down (run_step "up" up (some e) p))))

health_stage : Outcomes → Option String → Progress → Result Progress Progress
unfolding run_step fail_job collect tear_down
health_stage o none p = ok (run_step "health" health none p)
health_stage o (some e) p = err (
    collect o (
      fail_job boot_failure 10 "health checks failed" e
        (tear_down (run_step "health" health (some e) p))))

abbrev verify_step_name : JobMode → String
verify_step_name automation = "automation"
verify_step_name runtime = "verify"

abbrev verify_call : JobMode → Call
verify_call automation = run_command
verify_call runtime = verify

verify_stage : Outcomes → JobMode → Option String → Progress → Result Progress Progress
unfolding run_step fail_job collect collect_automation tear_down
verify_stage o mode none p = ok (run_step (verify_step_name mode) (verify_call mode) none p)
verify_stage o mode (some e) p = err (
    collect_automation o (
      collect o (
        fail_job test_failure 20 "verification failed" e
          (tear_down (run_step (verify_step_name mode) (verify_call mode) (some e) p)))))

stages : Outcomes → Progress → Result Progress Progress
unfolding open_stage prepare_stage up_stage health_stage verify_stage
stages o p = do
  p₁ ← open_stage "create artifact directory" o.artifact_root p
  p₂ ← open_stage "open runtime log" o.runtime_log p₁
  p₃ ← open_stage "open verify log" o.verify_log p₂
  p₄ ← prepare_stage o o.prepared p₃
  p₅ ← up_stage o o.started p₄
  p₆ ← health_stage o o.healthy p₅
  verify_stage o p₆.job.mode o.verified p₆

abbrev put_exit_code : ℕ → Progress → Progress
put_exit_code code p = record p { job = record p.job { exit_code = code } }

-- `captureFinishFingerprint`: an error keeps what was there
abbrev captured :
    Option RepositoryFingerprint → Option RepositoryFingerprint → Option RepositoryFingerprint
captured old none = old
captured old (some f) = some f

-- The deferred function: fingerprint, final status, time.
conclude : Outcomes → JobStatus → Progress → Progress
conclude o status p = record p {
  job = record p.job {
    finish_fingerprint = captured p.job.finish_fingerprint o.finish_fingerprint;
    status = status;
    finished_at = o.ended;
  };
}

after_stages : Outcomes → Result Progress Progress → Progress
unfolding conclude run_step collect collect_automation
after_stages o (err p) = conclude o failed p
after_stages o (ok p) =
    conclude o passed
      (put_exit_code 0 (collect_automation o (collect o (run_step "down" down o.stopped p))))

-- The first mutation of `run`.
unfoldable pub begin_job : ℕ → Job → Job
begin_job now job = record job { status = running; started_at = now }

-- The rest of it, for a job that has begun.
unfoldable pub finish_job : Outcomes → Job → Progress
unfolding stages after_stages
finish_job o job = after_stages o (stages o (record { job = job; calls = [] }))

-- The whole of `run` for a job that is in the map.
unfoldable pub run_job : Outcomes → Job → Progress
unfolding begin_job finish_job
run_job o job = finish_job o (begin_job o.begun job)
