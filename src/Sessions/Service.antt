-- ===== src/Sessions/Service.antt =====
-- The service over the session records: internal/ai/session_record_service.go, and `markLaunchFailed`
-- of internal/ai/ai_embedded_service.go.
mod Steps
mod Oversized
mod Settled
pub mod Laws
use kode_stream.Prelude.{
  ℕ, ◌≡◌, Bool, true, false, not, ◌&&◌, ◌||◌, List, [], ◌∷◌, map, Option, none, some, is_some,
  String, Result, ok, err, ◌>>=◌, if◌then◌else◌, Text, text_eq, ◌==◌, trim_space, ℤ,
}
use kode_stream.Sessions.Durable.{Disk}
use kode_stream.Sessions.Records.{
  SessionState, starting, running, exited, cancelled, failed, interrupted, SessionRecord,
  RecordError, reservation_missing, is_empty, is_blank,
}
use kode_stream.Sessions.Repository.{
  Codec, Io, get, upsert, list_records, snapshot, find_by_idempotency,
}

-- A session of the embedded service, as far as its record follows it.
pub record Session : Type 0 where
  pub id : Text
  pub state : SessionState
  pub exit_code : Option ℤ

-- The clock, and how the file system answers a read and the write behind it.
pub record Step : Type 0 where
  pub clock : ℕ
  pub getting : Io
  pub putting : Io

abbrev pub is_active : SessionState → Bool
is_active starting = true
is_active running = true
is_active _ = false

abbrev pub is_failed : SessionState → Bool
is_failed failed = true
is_failed _ = false

abbrev pub is_ended : SessionState → Bool
is_ended exited = true
is_ended cancelled = true
is_ended failed = true
is_ended interrupted = true
is_ended _ = false

unfoldable pub find_session : Text → List Session → Option Session
find_session id [] = none
find_session id (s ∷ rest) = if s.id == id then some s else find_session id rest

pub record SessionRecordView : Type 0 where
  pub shown : SessionRecord
  pub live : Bool

abbrev pub as_view : Option (List Session) → SessionRecord → SessionRecordView
as_view none r = record { shown = r; live = false }
as_view (some sessions) r = record {
  shown = r;
  live = is_some (find_session r.id sessions) && is_active r.state;
}

-- A record that a failed launch has been taken back to.
abbrev pub is_compensated : Session → SessionRecord → Bool
is_compensated s r = is_failed r.state && is_empty r.idempotency_key && not (is_failed s.state)

unfoldable pub synced : ℕ → Session → SessionRecord → SessionRecord
synced now s r = record r {
  state = s.state;
  exit_code = s.exit_code;
  last_known_at = now;
  ended_at = if is_ended s.state then now else r.ended_at;
}

abbrev pub answer_of : Result RecordError SessionRecord × Disk → Option RecordError × Disk
answer_of (ok r, d) = (none, d)
answer_of (err e, d) = (some e, d)

unfoldable pub failed_launch : ℕ → SessionRecord → SessionRecord
failed_launch now r = record r {
  state = failed;
  ended_at = now;
  last_known_at = now;
  idempotency_key = [];
}

unfoldable pub interrupted_at : ℕ → SessionRecord → SessionRecord
interrupted_at now r = record r { state = interrupted; ended_at = now; last_known_at = now }

abbrev pub go_on :
    Option RecordError × Disk → (Disk → Option RecordError × Disk) → Option RecordError × Disk
go_on (some e, d) rest = (some e, d)
go_on (none, d) rest = rest d

module _ (c : Codec) where
  -- `SessionRecords`; `none` is a service without embedded sessions.
  unfoldable pub session_records :
      Io → Option (List Session) → Text → Text → Disk → Result RecordError (List SessionRecordView)
  unfolding find_session
  session_records io embedded workspace branch d =
      list_records c io (trim_space workspace) (trim_space branch) d
      >>= (λ rs. ok (map (as_view embedded) rs))

  abbrev pub sync_found : Step → Session → Result RecordError (Option SessionRecord) → Disk → Disk
  sync_found step s (err e) d = d
  sync_found step s (ok none) d = d
  sync_found step s (ok (some r)) d =
      if is_compensated s r then d else (upsert c step.putting (synced step.clock s r) d).1

  -- `syncSessionRecord`, whose errors are dropped.
  unfoldable pub sync_session_record : Step → Session → Disk → Disk
  unfolding synced
  sync_session_record step s d = sync_found step s (get c step.getting s.id d) d

  abbrev pub persist_found :
      Step → Session → Result RecordError (Option SessionRecord) → Disk → Option RecordError × Disk
  persist_found step s (err e) d = (some e, d)
  persist_found step s (ok none) d = (some reservation_missing, d)
  persist_found step s (ok (some r)) d =
      answer_of (upsert c step.putting (record r { state = s.state; last_known_at = step.clock }) d)

  -- `persistRunningSession`
  unfoldable pub persist_running_session : Step → Session → Disk → Option RecordError × Disk
  persist_running_session step s d = persist_found step s (get c step.getting s.id d) d

  -- `markLaunchFailed`
  unfoldable pub mark_launch_failed : Step → SessionRecord → Disk → Option RecordError × Disk
  unfolding failed_launch
  mark_launch_failed step r d = answer_of (upsert c step.putting (failed_launch step.clock r) d)

  -- One record of `ReconcileSessionRecords`: the error that ends the loop, if any.
  abbrev pub reconcile_record :
      Step → Option Session → SessionRecord → Disk → Option RecordError × Disk
  reconcile_record step (some s) r d = (none, sync_session_record step s d)
  reconcile_record step none r d =
      if is_active r.state
      then answer_of (upsert c step.putting (interrupted_at step.clock r) d)
      else (none, d)

  unfoldable pub reconcile_from :
      (Text → Step) → List Session → List SessionRecord → Disk → Option RecordError × Disk
  unfolding find_session
  reconcile_from steps sessions [] d = (none, d)
  reconcile_from steps sessions (r ∷ rs) d =
      go_on (reconcile_record (steps r.id) (find_session r.id sessions) r d)
        (reconcile_from steps sessions rs)

  abbrev pub reconcile_loaded :
      (Text → Step)
      → List Session
      → Result RecordError (List SessionRecord)
      → Disk
      → Option RecordError × Disk
  reconcile_loaded steps sessions (err e) d = (some e, d)
  reconcile_loaded steps sessions (ok rs) d = reconcile_from steps sessions rs d

  -- `ReconcileSessionRecords`, with the steps of each record; without an embedded service there are
  -- no sessions.
  unfoldable pub reconcile_session_records :
      Io → (Text → Step) → List Session → Disk → Option RecordError × Disk
  unfolding reconcile_from
  reconcile_session_records io steps sessions d =
      reconcile_loaded steps sessions (snapshot c io d) d
