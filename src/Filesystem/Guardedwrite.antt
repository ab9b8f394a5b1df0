-- ===== src/Filesystem/Guardedwrite.antt =====
-- The guarded replacement of a file: internal/filesystem/guardedwrite/write.go.
pub mod Ends
pub mod Laws
mod Tests
use kode_stream.Prelude.{
  ℕ, Bool, true, false, not, ◌||◌, List, [], ◌∷◌, Option, none, some, String, Result, ok, err,
  if◌then◌else◌, Text, text_eq, nat_eq, ◌==◌, trim_space, ltb, length,
}

abbrev pub Bytes : Type 0
Bytes = List ℕ

-- What stands at a path: its identity, which `os.SameFile` compares, whether it is a regular file
-- or a symbolic link, its permissions, and what is read when it is opened.
pub record Node : Type 0 where
  pub file_id : ℕ
  pub is_regular : Bool
  pub is_symlink : Bool
  pub mode : ℕ
  pub content : Bytes

abbrev pub Disk : Type 0
Disk = Option Node

-- The errors of the steps of `restore`, each `none` where the step succeeds.
pub record Restoring : Type 0 where
  pub create_temp : Option String
  pub chmod : Option String
  pub write : Option String
  pub sync : Option String
  pub close : Option String
  pub rename : Option String
  pub open_directory : Option String
  pub sync_directory : Option String

-- How the file system answers the steps of a replacement, the hooks included; what other processes
-- make of the path before the steps that look at it again; and the identities of the new files.
pub record Schedule : Type 0 where
  pub lstat : Option String
  pub before_open : Disk → Disk
  pub open_file : Option String
  pub read : Option String
  pub close_read : Option String
  pub real_directory : Result String Text
  pub create_temp : Option String
  pub chmod : Option String
  pub write : Option String
  pub after_write : Option String
  pub sync : Option String
  pub after_sync : Option String
  pub close : Option String
  pub after_close : Option String
  pub while_writing : Disk → Disk
  pub lstat_again : Option String
  pub current_directory : Result String Text
  pub before_rename : Disk → Disk
  pub rename : Option String
  pub fresh_id : ℕ
  pub after_rename : Option String
  pub open_directory : Option String
  pub sync_directory : Option String
  pub after_directory : Option String
  pub close_directory : Option String
  pub before_restore : Disk → Disk
  pub restoring : Restoring
  pub restored_id : ℕ

pub data WriteError : Type 0 where
  hash_required too_large stale unsafe_path target_changed parent_changed not_exist : WriteError
  step_failed : String → WriteError
  restoration_failed : String → String → WriteError

-- `Result`
pub record Replaced : Type 0 where
  pub path : Text
  pub hash : Text
  pub mode : ℕ

abbrev pub Outcome : Type 0
Outcome = Result WriteError Replaced × Disk

abbrev pub first_failure : List (Option String) → Option String
first_failure [] = none
first_failure (some e ∷ rest) = some e
first_failure (none ∷ rest) = first_failure rest

abbrev pub is_empty : Text → Bool
is_empty [] = true
is_empty (c ∷ s) = false

abbrev pub regular_file : ℕ → ℕ → Bytes → Node
regular_file id mode content = record {
  file_id = id;
  is_regular = true;
  is_symlink = false;
  mode = mode;
  content = content;
}

-- The file is replaced by the renaming, whatever comes behind it.
abbrev pub restored : Option String → Option String → Node → Disk → Option String × Disk
restored (some e) later f d = (some e, d)
restored none later f d = (later, some f)

-- `restore`
unfoldable pub restore : Restoring → ℕ → Bytes → ℕ → Disk → Option String × Disk
restore w id content mode d =
    restored (first_failure (w.create_temp ∷ w.chmod ∷ w.write ∷ w.sync ∷ w.close ∷ w.rename ∷ []))
      (first_failure (w.open_directory ∷ w.sync_directory ∷ [])) (regular_file id mode content) d

abbrev pub rollback_error : String → Option String → WriteError
rollback_error cause none = step_failed cause
rollback_error cause (some e) = restoration_failed cause e

-- Another file stands at the path, or a link, or nothing that can be looked at.
abbrev pub is_changed : Option String → Node → Disk → Bool
is_changed (some e) initial d = true
is_changed none initial none = true
is_changed none initial (some now) = not (now.file_id == initial.file_id) || now.is_symlink

abbrev pub is_moved : Text → Result String Text → Bool
is_moved real (err e) = true
is_moved real (ok now) = not (now == real)

module _ (hash : Bytes → Text) (w : Schedule) (content : Bytes) (expected : Text) (max : ℕ) where
  -- `rollback`
  abbrev pub rollback : Node → Bytes → String → Disk → Outcome
  rollback initial current cause d =
      let (e, after) =
        restore w.restoring w.restored_id current initial.mode (w.before_restore d) in
      (err (rollback_error cause e), after)

  -- Behind the renaming.
  abbrev pub confirm : Text → Node → Bytes → Option String → Disk → Outcome
  confirm full initial current (some e) d = rollback initial current e d
  confirm full initial current none d =
      (ok (record { path = full; hash = hash content; mode = initial.mode }), d)

  abbrev pub rename_over : Text → Node → Bytes → Option String → Disk → Outcome
  rename_over full initial current (some e) d = (err (step_failed e), d)
  rename_over full initial current none d =
      confirm full initial current
        (first_failure (
          w.after_rename ∷ w.open_directory ∷ w.sync_directory ∷ w.after_directory
          ∷ w.close_directory ∷ []))
        (some (regular_file w.fresh_id initial.mode content))

  -- The target is looked at again before the renaming.
  unfoldable pub publish : Text → Node → Bytes → Text → Disk → Outcome
  unfolding restore
  publish full initial current real d =
      if is_changed w.lstat_again initial d
      then (err target_changed, d)
      else if is_moved real w.current_directory
      then (err parent_changed, d)
      else rename_over full initial current w.rename (w.before_rename d)

  abbrev pub write_temporary : Text → Node → Bytes → Text → Option String → Disk → Outcome
  write_temporary full initial current real (some e) d = (err (step_failed e), d)
  write_temporary full initial current real none d =
      publish full initial current real (w.while_writing d)

  abbrev pub prepare : Text → Node → Bytes → Result String Text → Disk → Outcome
  prepare full initial current (err e) d = (err (step_failed e), d)
  prepare full initial current (ok real) d =
      write_temporary full initial current real
        (first_failure (
          w.create_temp ∷ w.chmod ∷ w.write ∷ w.after_write ∷ w.sync ∷ w.after_sync ∷ w.close
          ∷ w.after_close ∷ []))
        d

  unfoldable pub compare : Text → Node → Bytes → Disk → Outcome
  unfolding publish
  compare full initial current d =
      if ltb max (length current)
      then (err too_large, d)
      else if not (hash current == expected)
      then (err stale, d)
      else prepare full initial current w.real_directory d

  abbrev pub read_current : Text → Node → Option String → Disk → Outcome
  read_current full initial fault none = (err not_exist, none)
  read_current full initial (some e) (some now) = (err (step_failed e), some now)
  read_current full initial none (some now) = compare full initial now.content (some now)

  unfoldable pub look_up : Text → Option String → Disk → Outcome
  unfolding compare
  look_up full fault none = (err not_exist, none)
  look_up full (some e) (some initial) = (err (step_failed e), some initial)
  look_up full none (some initial) =
      if not initial.is_regular || initial.is_symlink
      then (err unsafe_path, some initial)
      else if ltb max (length initial.content)
      then (err too_large, some initial)
      else read_current full initial (first_failure (w.open_file ∷ w.read ∷ w.close_read ∷ []))
          (w.before_open (some initial))

  abbrev pub at_path : Result String Text → Disk → Outcome
  at_path (err e) d = (err (step_failed e), d)
  at_path (ok full) d = look_up full w.lstat d

  -- `replaceExisting`; `joined` is what `pathguard.SafeJoin` answers.
  unfoldable pub replace_existing : Result String Text → Disk → Outcome
  unfolding look_up
  replace_existing joined d =
      if is_empty (trim_space expected)
      then (err hash_required, d)
      else if ltb max (length content)
      then (err too_large, d)
      else at_path joined d
