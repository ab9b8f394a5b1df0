-- ===== src/Filesystem/Guardedwrite/Tests.antt =====
-- A file of two bytes, the hash of a content being that content behind a letter.
use kode_stream.Prelude.{
  ◌≡◌, ◌≢◌, refl, [], ◌∷◌, none, some, ok, err, Text, codes, trim_space, trim_left, is_space,
}
use kode_stream.Filesystem.Guardedwrite.{
  Bytes, Disk, Restoring, Schedule, restoration_failed, Replaced, regular_file, replace_existing,
}
use kode_stream.Filesystem.Guardedwrite.Laws.{
  IsReplaced, IsQuiet, replace_existing-IsReplaced, replace_existing-once,
}

abbrev digest : Bytes → Text
digest b = 104 ∷ b

abbrev smooth_restore : Restoring
smooth_restore = record {
  create_temp = none;
  chmod = none;
  write = none;
  sync = none;
  close = none;
  rename = none;
  open_directory = none;
  sync_directory = none;
}

abbrev smooth : Schedule
smooth = record {
  lstat = none;
  open_file = none;
  read = none;
  close_read = none;
  create_temp = none;
  chmod = none;
  write = none;
  after_write = none;
  sync = none;
  after_sync = none;
  close = none;
  after_close = none;
  lstat_again = none;
  rename = none;
  after_rename = none;
  open_directory = none;
  sync_directory = none;
  after_directory = none;
  close_directory = none;
  before_open = λ d. d;
  while_writing = λ d. d;
  before_rename = λ d. d;
  before_restore = λ d. d;
  real_directory = ok (codes "/w");
  current_directory = ok (codes "/w");
  fresh_id = 7;
  restoring = smooth_restore;
  restored_id = 8;
}

-- The directory cannot be synchronised, and the original cannot be renamed back.
abbrev rough : Schedule
rough = record smooth {
  sync_directory = some "sync";
  restoring = record smooth_restore { rename = some "rename" };
}

abbrev old_file : Disk
old_file = some (regular_file 3 0o644 (1 ∷ 2 ∷ []))

abbrev new_file : Disk
new_file = some (regular_file 7 0o644 (5 ∷ []))

abbrev expected : Text
expected = digest (1 ∷ 2 ∷ [])

abbrev done : Replaced
done = record { path = codes "/w/a"; hash = digest (5 ∷ []); mode = 0o644 }

quiet_smooth : IsQuiet digest smooth (6 ∷ []) expected 10
quiet_smooth d = (refl, refl, refl, refl)

succeeds :
    replace_existing digest smooth (5 ∷ []) expected 10 (ok (codes "/w/a")) old_file
    ≡ (ok done, new_file)
unfolding replace_existing trim_space trim_left is_space
succeeds = refl

fails :
    replace_existing digest rough (5 ∷ []) expected 10 (ok (codes "/w/a")) old_file
    ≡ (err (restoration_failed "sync" "rename"), new_file)
unfolding replace_existing trim_space trim_left is_space
fails = refl

replace_existing-IsReplaced_example :
    IsReplaced digest rough
      (5 ∷ [])
      expected
      10
      old_file
      (replace_existing digest rough (5 ∷ []) expected 10 (ok (codes "/w/a")) old_file)
replace_existing-IsReplaced_example =
    replace_existing-IsReplaced digest rough (5 ∷ []) expected 10 (ok (codes "/w/a")) old_file

another : digest (5 ∷ []) ≢ expected
another h = cc

replace_existing-once_example :
    replace_existing digest smooth (6 ∷ []) expected 10 (ok (codes "/w/a")) new_file
    ≢ (ok done, some (regular_file 7 0o644 (6 ∷ [])))
replace_existing-once_example =
    replace_existing-once digest smooth smooth (5 ∷ []) (6 ∷ []) expected 10 (ok (codes "/w/a"))
      old_file new_file (some (regular_file 7 0o644 (6 ∷ []))) done done another quiet_smooth
      succeeds
