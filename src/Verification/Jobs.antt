-- ===== src/Verification/Jobs.antt =====
-- The jobs of internal/verification/verification_service.go and the freshness of their results.
use kode_stream.Prelude.{
  ℕ, ◌≡◌, ◌≢◌, ◌↔◌, Bool, true, false, ◌&&◌, not, List, Option, some, is_some, String, string_eq,
  eq_iff, Comparable, ◌==◌, nat_eq, nat_beq_iff, arith, if◌then◌else◌,
}

pub data JobStatus : Type 0 where
  queued running passed failed : JobStatus

pub data FailureType : Type 0 where
  boot_failure test_failure infra_failure : FailureType

pub data JobMode : Type 0 where
  runtime automation : JobMode

pub data Freshness : Type 0 where
  fresh stale inconclusive : Freshness

pub record RepositoryFingerprint : Type 0 where
  pub value : String
  pub branch : String
  pub commit : String

pub data StepStatus : Type 0 where
  step_ok step_failed : StepStatus

-- A step's duration and time are measurements and are left out.
pub record StepResult : Type 0 where
  pub step : String
  pub status : StepStatus
  pub message : String

pub record Artifact : Type 0 where
  pub kind : String
  pub root : String
  pub path : String
  pub size_bytes : ℕ

-- `nextID` prints the time in seconds and the number that it draws.
pub record JobId : Type 0 where
  pub unix : ℕ
  pub sequence : ℕ

abbrev pub id_beq : JobId → JobId → Bool
id_beq i j = i.unix == j.unix && i.sequence == j.sequence

pub id_beq_iff : (i j : JobId) → (id_beq i j ≡ true) ↔ (i ≡ j)
id_beq_iff i j = ground (arith, nat_beq_iff i.unix j.unix, nat_beq_iff i.sequence j.sequence)

instance abbrev pub id_eq : Comparable JobId
id_eq = record { equal = id_beq; equal_iff = id_beq_iff }

-- `failure_type` is `none` for the empty string, and a time is 0 before it is set. The fields that
-- are copied from the request and read by nothing here (the display mode, the provider, the session
-- and the terminal mode) and the runtime configuration are left out.
pub record Job : Type 0 where
  pub id : JobId
  pub workspace_id : String
  pub mode : JobMode
  pub profile : String
  pub environment : String
  pub selected_specs : List String
  pub rendered_command : String
  pub status : JobStatus
  pub failure_type : Option FailureType
  pub exit_code : ℕ
  pub trigger : String
  pub started_at : ℕ
  pub finished_at : ℕ
  pub steps : List StepResult
  pub artifacts : List Artifact
  pub artifact_warning : String
  pub start_fingerprint : Option RepositoryFingerprint
  pub finish_fingerprint : Option RepositoryFingerprint
  pub current_fingerprint : Option RepositoryFingerprint
  pub freshness : Freshness

abbrev pub is_terminal : JobStatus → Bool
is_terminal passed = true
is_terminal failed = true
is_terminal _ = false

-- The tests of `projectFreshness` behind the one for an active job.
abbrev compare_fingerprints :
    Option RepositoryFingerprint
    → Option RepositoryFingerprint
    → Option RepositoryFingerprint
    → Freshness
compare_fingerprints (some start) (some finish) (some current) =
    if not (start.value == finish.value)
    then inconclusive
    else if not (finish.value == current.value)
    then stale
    else fresh
compare_fingerprints _ _ _ = inconclusive

unfoldable pub project_freshness : Job → Freshness
project_freshness job =
    if is_terminal job.status
    then compare_fingerprints job.start_fingerprint job.finish_fingerprint job.current_fingerprint
    else inconclusive

-- The three fingerprints of a job are known, and are those given.
pub record Fingerprints (job : Job) (start finish current : RepositoryFingerprint) : Type 0 where
  pub at_start : job.start_fingerprint ≡ some start
  pub at_finish : job.finish_fingerprint ≡ some finish
  pub at_present : job.current_fingerprint ≡ some current

-- With the three fingerprints known, a result is fresh exactly when the job has finished and all of
-- them have one value, and stale exactly when it has finished, nothing changed while it ran, and
-- the repository has another value now.
pub project_freshness_iff :
    (job : Job) (start finish current : RepositoryFingerprint)
    → Fingerprints job start finish current
    → ((project_freshness job ≡ fresh) ↔ (
        (is_terminal job.status ≡ true)
        × (start.value ≡ finish.value)
        × (finish.value ≡ current.value)))
      × ((project_freshness job ≡ stale) ↔ (
          (is_terminal job.status ≡ true)
          × (start.value ≡ finish.value)
          × (finish.value ≢ current.value)))
unfolding project_freshness
project_freshness_iff job start finish current known =
    rw (known.at_start, known.at_finish, known.at_present)
      (ground (arith, eq_iff start.value finish.value, eq_iff finish.value current.value))

-- A job that still runs, or one of whose fingerprints could not be taken, is inconclusive.
pub project_freshness_unknown :
    (job : Job)
    → project_freshness job ≢ inconclusive
    → (is_terminal job.status ≡ true)
      × (is_some job.start_fingerprint ≡ true)
      × (is_some job.finish_fingerprint ≡ true)
      × (is_some job.current_fingerprint ≡ true)
unfolding project_freshness
project_freshness_unknown job h = ground arith
