-- ===== src/Storage/Tests.antt =====
-- Synchronisations in both directions.
use kode_stream.Prelude.{
  ◌≡◌, refl, true, false, [], ◌∷◌, Option, none, some, String, codes, trim_space, trim_left,
  is_space, ok, err,
}
use kode_stream.Storage.{StoreFile, audit_log, saved_filters, Disk}
use kode_stream.Storage.Publication.{Faults, back_up, publish}
use kode_stream.Storage.Sync.{
  Direction, parse_direction, Request, Setting, World, infrastructure, admit, SyncService, perform,
  sync,
}
use kode_stream.Storage.Sync.Laws.{IsUntouched, IsAdmitted, IsDone, sync-failed, sync-IsDone}

abbrev no_faults : Faults
no_faults = record {
  copying = λ f. none;
  before_publish = λ f. none;
  renaming = λ f. none;
  before_restore = λ f. none;
  inspecting = λ f. none;
  restoring = λ f. none;
  removing = λ f. none;
}

-- The third file cannot be renamed.
abbrev fails_at : StoreFile → Option String
fails_at audit_log = some "rename audit-log.jsonl"
fails_at _ = none

abbrev old_content : StoreFile → Option String
old_content saved_filters = none
old_content _ = some "old"

abbrev staged_disk : Disk
staged_disk = record { stage = λ f. some "new"; target = old_content; backup = λ f. none }

publishes : (publish no_faults staged_disk).0 ≡ []
unfolding publish
publishes = refl

abbrev third_fails : Faults
third_fails = record no_faults { renaming = fails_at }

saved_disk : (e : Disk) × (back_up third_fails staged_disk ≡ ok e)
unfolding back_up
saved_disk = (_, refl)

fails : (publish third_fails saved_disk.0).0 ≡ "rename audit-log.jsonl" ∷ []
unfolding saved_disk publish
fails = refl

abbrev local_files : Setting
local_files = record { is_cloud = false; is_postgres = false; is_database = false }

abbrev local_database : Setting
local_database = record { is_cloud = false; is_postgres = false; is_database = true }

abbrev works : World
works = record {
  cancelled_first = none;
  read = none;
  cancelled_read = none;
  make_stage = none;
  write_stage = none;
  cancelled_stage = none;
  before_backup = none;
  save_database = none;
  cancelled_backup = none;
  before_publish = none;
  rename_database = none;
  files = λ f. some "new";
  database = "new db";
  faults = third_fails;
}

abbrev service : SyncService
service = record {
  running = false;
  disk = record { stage = λ f. none; target = old_content; backup = λ f. none };
  database = some "old db";
  database_backup = none;
}

abbrev to_db : Request
to_db = record { direction = codes " DataDir_To_Database"; confirm = true }

abbrev to_dir : Request
to_dir = record { direction = codes "database_to_datadir"; confirm = true }

syncs : (sync local_files to_db works service).0 ≡ ok tt
unfolding sync admit perform parse_direction trim_space trim_left is_space
syncs = refl

sync-IsDone_example :
    (service.running ≡ false)
    × ((d : Direction) × IsAdmitted local_files to_db d
        × IsDone d works service (sync local_files to_db works service).1)
sync-IsDone_example = sync-IsDone local_files to_db works service syncs

sync_fails :
    (sync local_database to_dir works service).0
    ≡ err (record { kind = infrastructure; messages = "rename audit-log.jsonl" ∷ [] })
unfolding sync admit perform parse_direction trim_space trim_left is_space back_up publish
sync_fails = refl

sync-failed_example :
    IsUntouched service (sync local_database to_dir works service).1
    × ((sync local_database to_dir works service).1.running ≡ false)
sync-failed_example =
    sync-failed local_database to_dir works service infrastructure "rename audit-log.jsonl"
      sync_fails
