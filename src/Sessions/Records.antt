-- ===== src/Sessions/Records.antt =====
-- Session records and their validation: internal/ai/session_record_repository.go.
pub mod Laws
use kode_stream.Prelude.{
  ℕ, ◌≡◌, refl, Bool, true, false, not, ◌&&◌, ◌||◌, List, [], ◌∷◌, ◌++◌, map, Option, none, some,
  String, Result, ok, err, ◌>>=◌, if◌then◌else◌, Text, text_eq, nat_eq, ◌==◌, trim_space, ℤ, Map,
  put, empty_map,
}
use kode_stream.Sessions.Durable.{ReadError, PublishError}

pub record SessionPlanRef : Type 0 where
  pub item_id : Text
  pub item_path : Text
  pub identifier : Text
  pub branch_key : Text
  pub observed_commit : Text

-- The states that a record may have, and any other text.
pub data SessionState : Type 0 where
  starting running exited cancelled failed interrupted : SessionState
  unknown_state : Text → SessionState

-- A time is 0 when it is the zero time; `none` is a nil pointer.
pub record SessionRecord : Type 0 where
  pub id : Text
  pub workspace_id : Text
  pub plan_ref : Option SessionPlanRef
  pub provider : Text
  pub intent : Text
  pub requested_branch : Text
  pub observed_commit : Text
  pub idempotency_key : Text
  pub state : SessionState
  pub started_at : ℕ
  pub ended_at : ℕ
  pub exit_code : Option ℤ
  pub last_known_at : ℕ

pub data RecordError : Type 0 where
  incomplete_identity incomplete_context timestamps_required : RecordError
  incomplete_plan plan_branch_differs : RecordError
  unsupported_state : Text → RecordError
  duplicate_id : Text → RecordError
  shared_key : Text → Text → RecordError
  key_taken : Text → RecordError
  not_loaded : ReadError → RecordError
  not_decoded : String → RecordError
  not_encoded : String → RecordError
  not_saved : PublishError → RecordError
  reservation_missing : RecordError

abbrev pub is_empty : Text → Bool
is_empty [] = true
is_empty (c ∷ s) = false

abbrev pub is_blank : Text → Bool
is_blank s = is_empty (trim_space s)

unfoldable pub normalize_plan : SessionPlanRef → SessionPlanRef
normalize_plan p = record {
  item_id = trim_space p.item_id;
  item_path = trim_space p.item_path;
  identifier = trim_space p.identifier;
  branch_key = trim_space p.branch_key;
  observed_commit = trim_space p.observed_commit;
}

abbrev pub normalize_plan_ref : Option SessionPlanRef → Option SessionPlanRef
normalize_plan_ref none = none
normalize_plan_ref (some p) = some (normalize_plan p)

-- `normalizeSessionRecord`
unfoldable pub normalize_session_record : SessionRecord → SessionRecord
unfolding normalize_plan
normalize_session_record r = record r {
  id = trim_space r.id;
  workspace_id = trim_space r.workspace_id;
  provider = trim_space r.provider;
  intent = trim_space r.intent;
  requested_branch = trim_space r.requested_branch;
  observed_commit = trim_space r.observed_commit;
  idempotency_key = trim_space r.idempotency_key;
  plan_ref = normalize_plan_ref r.plan_ref;
}

abbrev pub state_error : SessionState → Option RecordError
state_error (unknown_state s) = some (unsupported_state s)
state_error _ = none

abbrev pub plan_error : Text → Option SessionPlanRef → Option RecordError
plan_error branch none = none
plan_error branch (some p) =
    if is_blank p.item_id || is_blank p.item_path || is_blank p.branch_key
    then some incomplete_plan
    else if p.branch_key == branch
    then none
    else some plan_branch_differs

-- The first error of two checks.
abbrev pub or_else : Option RecordError → Option RecordError → Option RecordError
or_else (some e) later = some e
or_else none later = later

abbrev pub error_if : Bool → RecordError → Option RecordError
error_if true e = some e
error_if false e = none

-- `ValidateSessionRecord`
unfoldable pub validate_session_record : SessionRecord → Option RecordError
validate_session_record r =
    or_else (error_if (is_blank r.id || is_blank r.workspace_id) incomplete_identity) (
      or_else
        (error_if (is_blank r.provider || is_blank r.intent || is_blank r.requested_branch)
          incomplete_context)
        (or_else (state_error r.state) (
          or_else (error_if (r.started_at == 0 || r.last_known_at == 0) timestamps_required)
            (plan_error r.requested_branch r.plan_ref))))

-- The keys of the map of idempotency keys: both parts, joined by a NUL.
unfoldable pub joined_key : SessionRecord → Text
joined_key r = r.workspace_id ++ (0 ∷ r.idempotency_key)

abbrev pub mark : Text → (Text → Bool) → Text → Bool
mark k seen j = if k == j then true else seen j

abbrev pub note_key : SessionRecord → Map Text Text → Map Text Text
note_key r keys = if is_empty r.idempotency_key then keys else put (joined_key r) r.id keys

-- `prior := idempotency[key]; prior != ""`
abbrev pub prior_error : Text → Option Text → Option RecordError
prior_error id none = none
prior_error id (some []) = none
prior_error id (some (c ∷ prior)) = some (shared_key (c ∷ prior) id)

abbrev pub key_error : Map Text Text → SessionRecord → Option RecordError
key_error keys r =
    if is_empty r.idempotency_key then none else prior_error r.id (keys (joined_key r))

abbrev pub record_error : (Text → Bool) → Map Text Text → SessionRecord → Option RecordError
record_error seen keys r =
    or_else (validate_session_record r)
      (or_else (error_if (seen r.id) (duplicate_id r.id)) (key_error keys r))

abbrev pub unless_error :
    {A : Type 0} → Option RecordError → Result RecordError A → Result RecordError A
unless_error (some e) rest = err e
unless_error none rest = rest

-- The loop of `validateSessionRecords`, which replaces each record by its normal form.
unfoldable pub validate_from :
    (Text → Bool) → Map Text Text → List SessionRecord → Result RecordError (List SessionRecord)
unfolding validate_session_record
validate_from seen keys [] = ok []
validate_from seen keys (r ∷ rs) =
    let n = normalize_session_record r in
    unless_error (record_error seen keys n)
      (validate_from (mark n.id seen) (note_key n keys) rs >>= (λ ns. ok (n ∷ ns)))

abbrev pub validate_session_records : List SessionRecord → Result RecordError (List SessionRecord)
validate_session_records = validate_from (λ id. false) empty_map
