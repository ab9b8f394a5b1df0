-- ===== src/Verification/Run/Laws.antt =====
-- How a run ends: its status, its failure class and the tearing down of the runtime.
use kode_stream.Prelude.{
  ℕ, suc, ◌≡◌, ◌↔◌, Bool, true, false, List, [], ◌∷◌, Option, none, some, String, arith, ◌≤◌,
  if◌then◌else◌,
}
use kode_stream.Verification.Jobs.{
  Job, passed, FailureType, boot_failure, test_failure, infra_failure, is_terminal,
}
use kode_stream.Verification.Run.{Call, up, down, Outcomes, run_job, finish_job}

-- Everything but the final tearing down went well.
pub record AllWell (o : Outcomes) : Type 0 where
  pub artifact_root : o.artifact_root ≡ none
  pub runtime_log : o.runtime_log ≡ none
  pub verify_log : o.verify_log ≡ none
  pub prepared : o.prepared ≡ none
  pub started : o.started ≡ none
  pub healthy : o.healthy ≡ none
  pub verified : o.verified ≡ none

-- A run always ends with a final status, and it passes exactly when the files could be opened and
-- the runtime was prepared, started, healthy and verified; an error of the final tearing down does
-- not count.
pub run_job-passed_iff :
    (o : Outcomes) (job : Job)
    → (is_terminal (run_job o job).job.status ≡ true)
      × (((run_job o job).job.status ≡ passed) ↔ AllWell o)
unfolding run_job
run_job-passed_iff o job = ground arith

-- The class and the exit code of the first stage that went wrong.
abbrev pub first_failure :
    Option String
    → Option String
    → Option String
    → Option String
    → Option String
    → Option String
    → Option String
    → Option (FailureType × ℕ)
first_failure none none none none none none none = none
first_failure none none none none none none (some _) = some (test_failure, 20)
first_failure none none none none none (some _) _ = some (boot_failure, 10)
first_failure none none none none (some _) _ _ = some (boot_failure, 10)
first_failure _ _ _ _ _ _ _ = some (infra_failure, 30)

abbrev pub class_of : Option (FailureType × ℕ) → Option FailureType
class_of none = none
class_of (some (failure, code)) = some failure

abbrev pub code_of : Option (FailureType × ℕ) → ℕ
code_of none = 0
code_of (some (failure, code)) = code

-- A new job ends with the failure class and the exit code of the first stage that went wrong: 30
-- for the files and the preparation, 10 for the start and the health checks, 20 for the checks
-- themselves; and with no class and the code 0 if none did.
pub run_job-failure :
    (o : Outcomes) (job : Job)
    → job.failure_type ≡ none
    → let first =
        first_failure o.artifact_root o.runtime_log o.verify_log o.prepared o.started o.healthy
          o.verified in
      ((run_job o job).job.failure_type ≡ class_of first)
      × ((run_job o job).job.exit_code ≡ code_of first)
unfolding run_job
run_job-failure o job h = ground arith

abbrev pub is_up : Call → Bool
is_up up = true
is_up _ = false

abbrev pub is_down : Call → Bool
is_down down = true
is_down _ = false

abbrev pub count : (Call → Bool) → List Call → ℕ
count test [] = 0
count test (c ∷ cs) = if test c then suc (count test cs) else count test cs

abbrev pub last_is_down : List Call → Bool
last_is_down [] = false
last_is_down (c ∷ []) = is_down c
last_is_down (c ∷ d ∷ cs) = last_is_down (d ∷ cs)

-- The runtime is torn down exactly as often as its start is tried, so once or not at all, and the
-- tearing down is the last call.
pub run_job-down :
    (o : Outcomes) (job : Job)
    → (count is_down (run_job o job).calls ≡ count is_up (run_job o job).calls)
      × (count is_up (run_job o job).calls ≤ 1)
      × (count is_up (run_job o job).calls ≡ 1 → last_is_down (run_job o job).calls ≡ true)
unfolding run_job
run_job-down o job = ground arith

-- What the service relies on: a run keeps the id and ends with a final status.
pub finish_job-terminal :
    (o : Outcomes) (job : Job)
    → (is_terminal (finish_job o job).job.status ≡ true) × ((finish_job o job).job.id ≡ job.id)
unfolding finish_job
finish_job-terminal o job = ground arith
