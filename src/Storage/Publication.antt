-- ===== src/Storage/Publication.antt =====
-- Publishing a staged data directory, and taking it back: `publishDataDirStage`,
-- `rollbackDataDirPublication` and `backupDataDirTarget` of internal/storage/sync.go.
pub mod Laws
pub mod Whole
use kode_stream.Prelude.{
  List, [], ◌∷◌, ◌++◌, Option, none, some, String, Result, ok, err, ◌>>=◌, Map, put, remove,
  empty_map,
}
use kode_stream.Storage.{StoreFile, file_eq, Disk, published, backed_up}

-- What goes wrong, for each file: `none` where the step succeeds. Removing a file that is not there
-- succeeds, as the code ignores that error.
pub record Faults : Type 0 where
  pub copying : StoreFile → Option String
  pub before_publish : StoreFile → Option String
  pub renaming : StoreFile → Option String
  pub before_restore : StoreFile → Option String
  pub inspecting : StoreFile → Option String
  pub restoring : StoreFile → Option String
  pub removing : StoreFile → Option String

-- `copyIfExists` into the backup: a file that is not there is not copied.
copy_content : StoreFile → Option String → Disk → Disk
copy_content f none d = d
copy_content f (some content) d = record d { backup = put f content d.backup }

pub copy_step : StoreFile → Option String → Disk → Result String Disk
unfolding copy_content
copy_step f (some e) d = err e
copy_step f none d = ok (copy_content f (d.target f) d)

pub copy_all : Faults → List StoreFile → Disk → Result String Disk
unfolding copy_step
copy_all faults [] d = ok d
copy_all faults (f ∷ fs) d = copy_step f (faults.copying f) d >>= (λ e. copy_all faults fs e)

-- `backupDataDirTarget`, whose directory is new.
unfoldable pub back_up : Faults → Disk → Result String Disk
unfolding copy_all
back_up faults d = copy_all faults backed_up (record d { backup = empty_map })

-- `os.Rename` of a staged file, which fails where there is none.
move_content : StoreFile → Option String → Disk → Result String Disk
move_content f none d = err "no such file"
move_content f (some content) d =
    ok (record d { target = put f content d.target; stage = remove f d.stage })

rename_step : StoreFile → Option String → Disk → Result String Disk
unfolding move_content
rename_step f (some e) d = err e
rename_step f none d = move_content f (d.stage f) d

pub publish_step : StoreFile → Option String → Option String → Disk → Result String Disk
unfolding rename_step
publish_step f (some e) renaming d = err e
publish_step f none renaming d = rename_step f renaming d

-- One file of `rollbackDataDirPublication`: the error that it reports, and the disk.
put_content_back :
    StoreFile → Option String → Option String → Option String → Disk → List String × Disk
put_content_back f none (some e) restoring d = (e ∷ [], d)
put_content_back f none none restoring d = ([], record d { target = remove f d.target })
put_content_back f (some content) removing (some e) d = (e ∷ [], d)
put_content_back f (some content) removing none d =
    ([], record d { target = put f content d.target })

pub restore_step : Faults → StoreFile → Option String → Option String → Disk → List String × Disk
unfolding put_content_back
restore_step faults f (some e) inspecting d = (e ∷ [], d)
restore_step faults f none (some e) d = (e ∷ [], d)
restore_step faults f none none d =
    put_content_back f (d.backup f) (faults.removing f) (faults.restoring f) d

pub restore_all : Faults → List StoreFile → Disk → List String × Disk
unfolding restore_step
restore_all faults [] d = ([], d)
restore_all faults (f ∷ fs) d =
    let (errors, e) = restore_step faults f (faults.before_restore f) (faults.inspecting f) d in
    let (more, g) = restore_all faults fs e in (errors ++ more, g)

-- `rollbackDataDirPublication`: the error of publishing comes first.
unfoldable pub roll_back : Faults → String → Disk → List String × Disk
unfolding restore_all
roll_back faults e d = let (errors, g) = restore_all faults published d in (e ∷ errors, g)

-- The loop of `publishDataDirStage`, with the errors that it returns: none if it succeeds.
pub publish_result :
    Faults → (Disk → List String × Disk) → Disk → Result String Disk → List String × Disk
unfolding roll_back
publish_result faults rest d (err e) = roll_back faults e d
publish_result faults rest d (ok next) = rest next

pub publish_from : Faults → List StoreFile → Disk → List String × Disk
unfolding publish_result publish_step
publish_from faults [] d = ([], d)
publish_from faults (f ∷ fs) d =
    publish_result faults (λ e. publish_from faults fs e) d
      (publish_step f (faults.before_publish f) (faults.renaming f) d)

unfoldable pub publish : Faults → Disk → List String × Disk
unfolding publish_from
publish faults d = publish_from faults published d
