-- ===== src/Sessions/Repository.antt =====
-- The repository of session records in a file: `FileSessionRecordRepository` of
-- internal/ai/session_record_repository.go.
pub mod Placing
pub mod Laws
use kode_stream.Prelude.{
  ℕ, ◌≡◌, Bool, true, false, not, ◌&&◌, ◌||◌, List, [], ◌∷◌, Option, none, some, String, Result, ok,
  err, ◌>>=◌, if◌then◌else◌, Text, text_eq, nat_eq, ◌==◌, ltb, trim_space, select, sort_by,
  text_ltb,
}
use kode_stream.Sessions.Durable.{
  Bytes, Disk, ReadError, not_exist, unreadable, read_bounded_file, Faults, PublishError,
  publish_durable_file,
}
use kode_stream.Sessions.Records.{
  SessionRecord, RecordError, not_loaded, not_decoded, not_encoded, not_saved, key_taken, is_empty,
  normalize_session_record, validate_session_record, validate_session_records,
}

-- `gopkg.in/yaml.v3`: `Marshal`, and `Decode` of one document with known fields only, the null
-- document being the empty list.
pub record Codec : Type 0 where
  pub marshal : List SessionRecord → Result String Bytes
  pub decode : Bytes → Result String (List SessionRecord)

-- What is written is read back.
abbrev pub IsCodec : Codec → Type 0
IsCodec c = (rs : List SessionRecord) (b : Bytes) → c.marshal rs ≡ ok b → c.decode b ≡ ok rs

-- How the file system answers one operation: the errors of reading, and those of publishing.
pub record Io : Type 0 where
  pub reading : Option String
  pub publishing : Faults

unfoldable pub find_record : (SessionRecord → Bool) → List SessionRecord → Option SessionRecord
find_record p [] = none
find_record p (r ∷ rs) = if p r then some r else find_record p rs

abbrev pub has_id : Text → SessionRecord → Bool
has_id id r = r.id == id

abbrev pub has_key : Text → Text → SessionRecord → Bool
has_key workspace key r = r.workspace_id == workspace && r.idempotency_key == key

abbrev pub is_listed : Text → Text → SessionRecord → Bool
is_listed workspace branch r =
    (is_empty workspace || r.workspace_id == workspace)
    && (is_empty branch || r.requested_branch == branch)

abbrev pub listed_before : SessionRecord → SessionRecord → Bool
listed_before r s =
    if r.started_at == s.started_at then text_ltb r.id s.id else ltb s.started_at r.started_at

abbrev pub holds_key : SessionRecord → SessionRecord → Bool
holds_key r s =
    not (is_empty r.idempotency_key)
    && (s.workspace_id == r.workspace_id && s.idempotency_key == r.idempotency_key)

-- The loop of `Upsert`: it stops at the record of that id, or at one that holds the key.
unfoldable pub place_record :
    SessionRecord → List SessionRecord → Result RecordError (List SessionRecord)
place_record r [] = ok (r ∷ [])
place_record r (s ∷ rs) =
    let rest = place_record r rs in
    if s.id == r.id
    then ok (r ∷ rs)
    else if holds_key r s
    then err (key_taken s.id)
    else rest >>= (λ placed. ok (s ∷ placed))

abbrev pub answered :
    SessionRecord → Option RecordError × Disk → Result RecordError SessionRecord × Disk
answered r (none, d) = (ok r, d)
answered r (some e, d) = (err e, d)

module _ (c : Codec) where
  abbrev pub decoded : Result String (List SessionRecord) → Result RecordError (List SessionRecord)
  decoded (err e) = err (not_decoded e)
  decoded (ok rs) = validate_session_records rs

  -- `load`, with `decodeSessionRecords`
  abbrev pub decode_read : Result ReadError Bytes → Result RecordError (List SessionRecord)
  decode_read (err not_exist) = ok []
  decode_read (err (unreadable e)) = err (not_loaded (unreadable e))
  decode_read (ok content) = decoded (c.decode content)

  unfoldable pub load : Option String → Disk → Result RecordError (List SessionRecord)
  load reading d = decode_read (read_bounded_file reading d)

  -- `save`
  abbrev pub saved : Option PublishError × Disk → Option RecordError × Disk
  saved (none, d) = (none, d)
  saved (some e, d) = (some (not_saved e), d)

  abbrev pub publish_marshalled : Faults → Result String Bytes → Disk → Option RecordError × Disk
  publish_marshalled w (err e) d = (some (not_encoded e), d)
  publish_marshalled w (ok content) d = saved (publish_durable_file w content d)

  unfoldable pub save : Faults → List SessionRecord → Disk → Option RecordError × Disk
  save w rs d = publish_marshalled w (c.marshal rs) d

  -- `Get`
  unfoldable pub get : Io → Text → Disk → Result RecordError (Option SessionRecord)
  unfolding load find_record
  get io id d = load io.reading d >>= (λ rs. ok (find_record (has_id id) rs))

  -- `FindByIdempotency`
  unfoldable pub find_by_idempotency :
      Io → Text → Text → Disk → Result RecordError (Option SessionRecord)
  unfolding load find_record
  find_by_idempotency io workspace key d = load io.reading d >>= (λ rs.
      if is_empty (trim_space workspace) || is_empty (trim_space key)
      then ok none
      else ok (find_record (has_key (trim_space workspace) (trim_space key)) rs))

  -- `List`
  unfoldable pub list_records : Io → Text → Text → Disk → Result RecordError (List SessionRecord)
  unfolding load
  list_records io workspace branch d = load io.reading d >>= (λ rs.
      ok (sort_by listed_before (select (is_listed (trim_space workspace) (trim_space branch)) rs)))

  abbrev pub save_placed :
      Io
      → SessionRecord
      → Result RecordError (List SessionRecord)
      → Disk
      → Result RecordError SessionRecord × Disk
  save_placed io r (err e) d = (err e, d)
  save_placed io r (ok rs) d = answered r (save io.publishing rs d)

  abbrev pub upsert_valid :
      Io → SessionRecord → Option RecordError → Disk → Result RecordError SessionRecord × Disk
  upsert_valid io r (some e) d = (err e, d)
  upsert_valid io r none d = save_placed io r (load io.reading d >>= (λ rs. place_record r rs)) d

  -- `Upsert`: beside an error there is no record.
  unfoldable pub upsert : Io → SessionRecord → Disk → Result RecordError SessionRecord × Disk
  unfolding load save place_record
  upsert io r d =
      let n = normalize_session_record r in upsert_valid io n (validate_session_record n) d

  -- `Snapshot`
  abbrev pub snapshot : Io → Disk → Result RecordError (List SessionRecord)
  snapshot io d = load io.reading d

  -- `ReplaceAll`
  abbrev pub replace_validated :
      Io → Result RecordError (List SessionRecord) → Disk → Option RecordError × Disk
  replace_validated io (err e) d = (some e, d)
  replace_validated io (ok rs) d = save io.publishing rs d

  unfoldable pub replace_all : Io → List SessionRecord → Disk → Option RecordError × Disk
  unfolding save
  replace_all io rs d = replace_validated io (validate_session_records rs) d
