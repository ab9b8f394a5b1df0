-- ===== src/Sessions/Durable.antt =====
-- The publication of a file in internal/ai/durable_file.go.
pub mod Laws
use kode_stream.Prelude.{
  ℕ, ◌*◌, ◌^◌, Bool, true, false, List, [], ◌∷◌, Option, none, some, String, Result, ok, err,
  if◌then◌else◌, ltb, length,
}

abbrev pub Bytes : Type 0
Bytes = List ℕ

-- What stands at the path of the store, if anything does.
pub record StoredFile : Type 0 where
  pub content : Bytes
  pub mode : ℕ

abbrev pub Disk : Type 0
Disk = Option StoredFile

unfoldable pub max_ai_yaml_bytes : ℕ
max_ai_yaml_bytes = 2 * 2 ^ 20

pub data ReadError : Type 0 where
  not_exist : ReadError
  unreadable : String → ReadError

-- `readBoundedFile`, with the error of opening or reading a file that exists.
unfoldable pub read_bounded_file : Option String → Disk → Result ReadError Bytes
read_bounded_file fault none = err not_exist
read_bounded_file (some e) (some f) = err (unreadable e)
read_bounded_file none (some f) =
    if ltb max_ai_yaml_bytes (length f.content)
    then err (unreadable "AI persistence file exceeds the byte limit")
    else ok f.content

-- The errors of the steps, each `none` where the step succeeds. `before` are those of the hooks.
pub record RestoreFaults : Type 0 where
  pub create_temp : Option String
  pub chmod : Option String
  pub write : Option String
  pub sync : Option String
  pub close : Option String
  pub rename : Option String
  pub open_directory : Option String
  pub sync_directory : Option String

pub record Faults : Type 0 where
  pub make_directory : Option String
  pub read_previous : Option String
  pub stat_fails : Bool
  pub create_temp : Option String
  pub before_write : Option String
  pub chmod : Option String
  pub write : Option String
  pub before_sync : Option String
  pub sync : Option String
  pub before_close : Option String
  pub close : Option String
  pub before_rename : Option String
  pub rename : Option String
  pub sync_directory : Option String
  pub restore : RestoreFaults
  pub remove : Option String
  pub sync_removal : Option String

pub data PublishError : Type 0 where
  not_published : String → PublishError
  rolled_back : String → PublishError
  rollback_failed : String → String → PublishError

-- Steps that are tried in turn until one fails.
abbrev pub first_error : List (Option String) → Option String
first_error [] = none
first_error (some e ∷ rest) = some e
first_error (none ∷ rest) = first_error rest

-- `restoreDurableFile`: the file is replaced by the renaming, whatever comes behind it.
abbrev pub replace_unless : Option String → StoredFile → Option String → Disk → Option String × Disk
replace_unless (some e) f later old = (some e, old)
replace_unless none f later old = (later, some f)

unfoldable pub restore_durable_file : RestoreFaults → StoredFile → Disk → Option String × Disk
restore_durable_file w f old =
    replace_unless
      (first_error (w.create_temp ∷ w.chmod ∷ w.write ∷ w.sync ∷ w.close ∷ w.rename ∷ [])) f
      (first_error (w.open_directory ∷ w.sync_directory ∷ [])) old

abbrev pub rollback_error : String → Option String → PublishError
rollback_error cause none = rolled_back cause
rollback_error cause (some e) = rollback_failed cause e

-- The rollback of a publication whose directory could not be synchronised: the previous file with
-- its mode is restored, or the first one removed.
unfoldable pub roll_back : Faults → String → Disk → Disk → PublishError × Disk
unfolding restore_durable_file
roll_back w cause (some previous) now =
    let (e, after) = restore_durable_file w.restore previous now in (rollback_error cause e, after)
roll_back w cause none now = elim w.remove [
  | some e ↦ (rollback_failed cause e, now)
  | none ↦ (rollback_error cause w.sync_removal, none)
]

-- Behind the steps of the temporary file and the renaming, `failed` being the first error of these,
-- the directory is synchronised. `previous` is what was read, with the mode that is kept.
unfoldable pub rename_over :
    Faults → StoredFile → Disk → Option String → Option String → Disk → Option PublishError × Disk
unfolding roll_back
rename_over w fresh previous (some e) syncing old = (some (not_published e), old)
rename_over w fresh previous none none old = (none, some fresh)
rename_over w fresh previous none (some e) old =
    let (cause, after) = roll_back w e previous (some fresh) in (some cause, after)

abbrev pub writing : Faults → Option String
writing w = first_error (
    w.create_temp ∷ w.before_write ∷ w.chmod ∷ w.write ∷ w.before_sync ∷ w.sync ∷ w.before_close
    ∷ w.close ∷ w.before_rename ∷ w.rename ∷ [])

abbrev pub replace_file : Faults → StoredFile → Disk → Disk → Option PublishError × Disk
replace_file w fresh previous old = rename_over w fresh previous (writing w) w.sync_directory old

-- The mode of a file that exists is kept, if it can be asked for.
abbrev pub kept_mode : Bool → Disk → ℕ
kept_mode stat_fails none = 0o600
kept_mode true (some f) = 0o600
kept_mode false (some f) = f.mode

abbrev pub publish_over :
    Faults → Bytes → Disk → Result ReadError Bytes → Option PublishError × Disk
publish_over w content old (err (unreadable e)) = (some (not_published e), old)
publish_over w content old (err not_exist) =
    replace_file w (record { content = content; mode = 0o600 }) none old
publish_over w content old (ok previous) =
    let mode = kept_mode w.stat_fails old in
    replace_file w (record { content = content; mode = mode })
      (some (record { content = previous; mode = mode })) old

-- `publishDurableFileWith`
unfoldable pub publish_durable_file : Faults → Bytes → Disk → Option PublishError × Disk
unfolding read_bounded_file rename_over
publish_durable_file w content old = elim w.make_directory [
  | some e ↦ (some (not_published e), old)
  | none ↦ publish_over w content old (read_bounded_file w.read_previous old)
]
