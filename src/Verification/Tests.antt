-- ===== src/Verification/Tests.antt =====
-- The verification jobs at concrete inputs.
use kode_stream.Prelude.{
  ℕ, ◌≡◌, ◌≢◌, ◌≤◌, ◌↔◌, refl, ap, inl, inr, true, false, List, [], ◌∷◌, none, some, String, ok,
  arith, In, Any,
}
use kode_stream.Verification.Jobs.{
  Job, JobId, StepResult, step_ok, queued, passed, automation, fresh, stale, inconclusive,
  RepositoryFingerprint, project_freshness, is_terminal, project_freshness_iff, boot_failure,
}
use kode_stream.Verification.Run.{Outcomes, run_job}
use kode_stream.Verification.Run.Laws.{
  AllWell, is_up, is_down, count, last_is_down, run_job-passed_iff, run_job-failure, run_job-down,
}
use kode_stream.Verification.Retention.{IsKeyed, terminal, latest_by_workspace, removed_ids, prune}
use kode_stream.Verification.Retention.Laws.{prune-latest}
use kode_stream.Verification.Service.{
  StartInput, draw_job, take_slot, draw, measure, take, insert, launch, begin, progress, capture,
  conclude, step_recorded, Reach, here, next, new_world, World,
}
use kode_stream.Verification.Service.Steps.{IsSafe}
use kode_stream.Verification.Service.Laws.{Reach-IsSafe}

abbrev first_id : JobId
first_id = record { unix = 100; sequence = 1 }

abbrev print : String → RepositoryFingerprint
print v = record { value = v; branch = "main"; commit = "c1" }

abbrev waiting_job : Job
waiting_job = record {
  id = first_id;
  workspace_id = "w";
  mode = automation;
  profile = "smoke";
  environment = "";
  selected_specs = "a.spec.ts" ∷ [];
  rendered_command = "npx playwright test a.spec.ts";
  status = queued;
  failure_type = none;
  exit_code = 0;
  trigger = "manual";
  started_at = 0;
  finished_at = 0;
  steps = [];
  artifacts = [];
  artifact_warning = "";
  start_fingerprint = some (print "f1");
  finish_fingerprint = none;
  current_fingerprint = none;
  freshness = inconclusive;
}

abbrev done : ℕ → ℕ → Job
done n at = record waiting_job {
  id = record { unix = 100; sequence = n };
  status = passed;
  finished_at = at;
  finish_fingerprint = some (print "f1");
  current_fingerprint = some (print "f2");
}

abbrev well : Outcomes
well = record {
  artifact_root = none;
  runtime_log = none;
  verify_log = none;
  prepared = none;
  started = none;
  healthy = none;
  verified = none;
  stopped = some "still running";
  artifacts = [];
  artifact_warning = "";
  automation_artifacts = [];
  automation_warning = "";
  finish_fingerprint = some (print "f1");
  begun = 101;
  ended = 150;
}

abbrev unhealthy : Outcomes
unhealthy = record well { healthy = some "timeout" }

project_freshness_iff_example :
    ((project_freshness (done 1 150) ≡ fresh) ↔ (
      (is_terminal passed ≡ true)
      × ((print "f1").value ≡ (print "f1").value)
      × ((print "f1").value ≡ (print "f2").value)))
    × ((project_freshness (done 1 150) ≡ stale) ↔ (
        (is_terminal passed ≡ true)
        × ((print "f1").value ≡ (print "f1").value)
        × ((print "f1").value ≢ (print "f2").value)))
project_freshness_iff_example =
    project_freshness_iff (done 1 150) (print "f1") (print "f1") (print "f2")
      (record { at_start = refl; at_finish = refl; at_present = refl })

run_job-passed_iff_example :
    (is_terminal (run_job well waiting_job).job.status ≡ true)
    × (((run_job well waiting_job).job.status ≡ passed) ↔ AllWell well)
run_job-passed_iff_example = run_job-passed_iff well waiting_job

run_job-failure_example :
    ((run_job unhealthy waiting_job).job.failure_type ≡ some boot_failure)
    × ((run_job unhealthy waiting_job).job.exit_code ≡ 10)
run_job-failure_example = run_job-failure unhealthy waiting_job refl

run_job-down_example :
    (count is_down (run_job unhealthy waiting_job).calls
      ≡ count is_up (run_job unhealthy waiting_job).calls)
    × (count is_up (run_job unhealthy waiting_job).calls ≤ 1)
    × (count is_up (run_job unhealthy waiting_job).calls ≡ 1
        → last_is_down (run_job unhealthy waiting_job).calls ≡ true)
run_job-down_example = run_job-down unhealthy waiting_job

abbrev some_jobs : List Job
some_jobs = done 3 150 ∷ done 2 120 ∷ waiting_job ∷ []

some_jobs-IsKeyed : IsKeyed some_jobs
some_jobs-IsKeyed = (
  ((λ h. omega (arith, seq h)), ((λ h. omega (arith, seq h)), tt)),
  (((λ h. omega (arith, seq h)), tt), (tt, tt)),
)
  where
    seq : {i j : JobId} → i ≡ j → i.sequence ≡ j.sequence
    seq h = ap (λ (i : JobId). i.sequence) h

prune-latest_example :
    Any
      (λ (k : Job). (terminal k ≡ true) × (k.workspace_id ≡ "w") × (120 ≤ k.finished_at))
      (prune 1000 10 0 some_jobs)
prune-latest_example =
    prune-latest 1000 10 0 some_jobs (done 2 120) some_jobs-IsKeyed (inr (inl refl)) refl

done-In : In (done 3 150) (prune 1000 10 0 some_jobs)
unfolding prune removed_ids latest_by_workspace
done-In = inl refl

abbrev asked : StartInput
asked = record {
  is_closed = false;
  registry_error = false;
  workspace_found = true;
  runtime_configured = true;
  prepared = ok (record {
    environment = "";
    selected_specs = "a.spec.ts" ∷ [];
    rendered_command = "npx playwright test a.spec.ts";
  });
  mode = automation;
  profile = "";
  trigger = "manual";
  unix = 100;
}

abbrev numbered_job : Job
numbered_job = record waiting_job { start_fingerprint = none }

abbrev measured_job : Job
measured_job = record waiting_job { start_fingerprint = some (print "f1") }

abbrev second_job : Job
second_job = record numbered_job { id = record { unix = 100; sequence = 2 } }

abbrev verified : StepResult
verified = record { step = "automation"; status = step_ok; message = "" }

-- Two calls draw an id before the first one inserts its job; its goroutine works and concludes it
-- while the other one takes a slot.
history : (v : World) × Reach (new_world 2 20 600) v
unfolding draw_job take_slot
history = (
  _,
  (next
      (next
        (next
          (next
            (next
              (next
                (next
                  (next
                    (next
                      (next
                        (next (next here (draw "w" asked (new_world 2 20 600) numbered_job _ refl))
                          (measure 0 (some (print "f1")) _ numbered_job refl))
                        (draw "w" asked _ second_job _ refl))
                      (take 1 _ measured_job _ refl refl))
                    (insert 1 _ measured_job refl))
                  (launch 1 _ measured_job refl))
                (begin 1 101 _ measured_job refl))
              (measure 0 none _ second_job refl))
            (take 0 _ second_job _ refl refl))
          (progress 1 (step_recorded verified) _ measured_job refl))
        (capture 1 none _ measured_job refl))
      (conclude 1 150 true _ measured_job refl)),
)

Reach-IsSafe_example : IsSafe history.0
Reach-IsSafe_example = Reach-IsSafe history.1
