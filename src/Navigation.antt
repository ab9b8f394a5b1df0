-- ===== src/Navigation.antt =====
-- The saved filters and recent items of internal/navigation/navigation_repository.go.
pub mod Filters
pub mod Recents
mod Tests
use kode_stream.Prelude.{
  ◌≡◌, Bool, ◌||◌, List, [], String, string_eq, ◌==◌, Result, ok, err, if◌then◌else◌,
}

-- `normalizeOwner`
abbrev pub normalize_owner : String → String
normalize_owner owner = if owner == "" then "local" else owner

-- `owner == "" || normalizeOwner(recorded) == owner`: no owner stands for all of them.
abbrev pub is_owned : String → String → Bool
is_owned owner recorded = owner == "" || normalize_owner recorded == owner

-- A file of the repository as `readYAML` finds it: its records, none where there is no file, or the
-- error of reading it.
abbrev pub File : Type 0 → Type 0
File A = Result String (List A)

-- How `write` ends: well, with an error before the file is replaced, or with one behind the
-- renaming, when the directory cannot be synchronised.
pub data WriteOutcome : Type 0 where
  written : WriteOutcome
  not_written not_synchronised : String → WriteOutcome

-- What the caller gets and the file that is left. Beside an error there is no value.
abbrev pub Answer : Type 0 → Type 0 → Type 0
Answer R A = Result String R × File A

abbrev pub write : {R : Type 0} {A : Type 0} → WriteOutcome → R → List A → File A → Answer R A
write written answer records old = (ok answer, ok records)
write (not_written e) answer records old = (err e, old)
write (not_synchronised e) answer records old = (err e, ok records)
