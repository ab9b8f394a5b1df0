-- ===== src/Storage/Sync.antt =====
-- `StorageSyncService.Sync` of internal/storage/sync.go.
pub mod Laws
use kode_stream.Prelude.{
  ℕ, ◌+◌, Bool, true, false, not, ◌&&◌, List, [], ◌∷◌, map, Option, none, some, String, nat_eq,
  Text, text_eq, codes, trim_space, ◌==◌, leb, if◌then◌else◌, Result, ok, err, ◌>>=◌, ◌>>◌, Map,
  put, remove, empty_map,
}
use kode_stream.Storage.{StoreFile, file_eq, Disk, published, backed_up}
use kode_stream.Storage.Publication.{Faults, back_up, publish}

pub data Direction : Type 0 where
  datadir_to_database database_to_datadir : Direction

-- `strings.ToLower` as far as the comparison with words of ASCII letters can tell: beside A to Z,
-- the capital I with a dot and the Kelvin sign have ASCII lower cases.
abbrev to_lower_rune : ℕ → ℕ
to_lower_rune c =
    if leb 65 c && leb c 90
    then c + 32
    else if c == 0x130
    then 105
    else if c == 0x212a
    then 107
    else c

abbrev to_lower : Text → Text
to_lower = map to_lower_rune

abbrev direction_of : Text → Option Direction
direction_of t =
    if t == codes "datadir_to_database"
    then some datadir_to_database
    else if t == codes "database_to_datadir"
    then some database_to_datadir
    else none

unfoldable pub parse_direction : Text → Option Direction
parse_direction t = direction_of (to_lower (trim_space t))

pub record Request : Type 0 where
  pub direction : Text
  pub confirm : Bool

-- The configuration: the mode, the driver and the active storage option.
pub record Setting : Type 0 where
  pub is_cloud : Bool
  pub is_postgres : Bool
  pub is_database : Bool

-- The steps outside the publication: an error is its message, `read` is the snapshot as the files
-- or the database that are written from it, and the context may end at each look at it.
pub record World : Type 0 where
  pub cancelled_first : Option String
  pub read : Option String
  pub cancelled_read : Option String
  pub make_stage : Option String
  pub write_stage : Option String
  pub cancelled_stage : Option String
  pub before_backup : Option String
  pub save_database : Option String
  pub cancelled_backup : Option String
  pub before_publish : Option String
  pub rename_database : Option String
  pub files : StoreFile → Option String
  pub database : String
  pub faults : Faults

pub data Kind : Type 0 where
  validation conflict infrastructure plain : Kind

-- A `SyncError`, or a plain error, with the messages that are joined in it.
pub record Failure : Type 0 where
  pub kind : Kind
  pub messages : List String

abbrev pub failure : Kind → String → Failure
failure k m = record { kind = k; messages = m ∷ [] }

-- `if err != nil { return … }`
abbrev pub check : Kind → Option String → Result Failure (Unit {0})
check k none = ok tt
check k (some m) = err (failure k m)

abbrev pub require : Bool → Kind → String → Result Failure (Unit {0})
require true k m = ok tt
require false k m = err (failure k m)

abbrev pub is_expected : Bool → Direction → Bool
is_expected true database_to_datadir = true
is_expected false datadir_to_database = true
is_expected _ _ = false

abbrev pub known : Option Direction → Result Failure Direction
known none = err (failure validation "direction must be datadir_to_database or database_to_datadir")
known (some d) = ok d

-- The guards in front of every effect.
unfoldable pub admit : Setting → Request → World → Result Failure Direction
unfolding parse_direction
admit setting request w = do
  direction ← known (parse_direction request.direction)
  require request.confirm validation "storage sync requires confirmation"
  require (not setting.is_cloud) validation "storage sync is only available in local mode"
  require (not setting.is_postgres) validation
      "manual synchronization with Local Postgres is not supported"
  require (is_expected setting.is_database direction) conflict "sync target is the active backend"
  check plain w.cancelled_first
  ok direction

-- `running`, the data directory, and the database with its backup.
pub record SyncService : Type 0 where
  pub running : Bool
  pub disk : Disk
  pub database : Option String
  pub database_backup : Option String

-- What comes before the backup, in both directions. The deferred calls remove the stage again.
abbrev pub staged : World → Result Failure (Unit {0})
staged w = do
  check plain w.read
  check plain w.cancelled_read
  check infrastructure w.make_stage
  check infrastructure w.write_stage

pub before_database : World → Result Failure (Unit {0})
before_database w = do
  staged w
  check plain w.cancelled_stage
  check plain w.before_backup
  check infrastructure w.save_database
  check plain w.before_publish

-- The renaming of the staged database.
pub renamed : Option String → String → SyncService → Result Failure (Unit {0}) × SyncService
renamed (some m) content s =
    (err (failure infrastructure m), record s { database_backup = s.database })
renamed none content s = (ok tt, record s { database = some content; database_backup = s.database })

pub to_database :
    World → Result Failure (Unit {0}) → SyncService → Result Failure (Unit {0}) × SyncService
unfolding renamed
to_database w (err e) s = (err e, s)
to_database w (ok _) s = renamed w.rename_database w.database s

abbrev pub saved : Result String Disk → Result Failure Disk
saved (err m) = err (failure infrastructure m)
saved (ok d) = ok d

pub before_files : World → Disk → Result Failure Disk
before_files w d = do
  staged w
  check plain w.before_backup
  e ← saved (back_up w.faults (record d { stage = w.files }))
  check plain w.cancelled_backup
  check plain w.before_publish
  ok e

abbrev pub outcome : List String → Result Failure (Unit {0})
outcome [] = ok tt
outcome (m ∷ ms) = err (record { kind = infrastructure; messages = m ∷ ms })

pub to_datadir : World → Result Failure Disk → SyncService → Result Failure (Unit {0}) × SyncService
to_datadir w (err e) s = (err e, s)
to_datadir w (ok d) s =
    let (errors, e) = publish w.faults d in (outcome errors, record s { disk = e })

unfoldable pub perform : World → Direction → SyncService → Result Failure (Unit {0}) × SyncService
unfolding before_database to_database before_files to_datadir
perform w datadir_to_database s = to_database w (before_database w) s
perform w database_to_datadir s = to_datadir w (before_files w s.disk) s

abbrev pub admitted :
    World → Result Failure Direction → SyncService → Result Failure (Unit {0}) × SyncService
admitted w (err e) s = (err e, s)
admitted w (ok direction) s = perform w direction s

-- `running.CompareAndSwap(false, true)`, and its resetting at the end.
abbrev pub guarded :
    Bool
    → SyncService
    → Result Failure (Unit {0}) × SyncService
    → Result Failure (Unit {0}) × SyncService
guarded true s run = (err (failure conflict "storage sync is already in progress"), s)
guarded false s (result, after) = (result, record after { running = false })

-- `Sync`
unfoldable pub sync :
    Setting → Request → World → SyncService → Result Failure (Unit {0}) × SyncService
unfolding admit perform
sync setting request w s =
    guarded s.running s (admitted w (admit setting request w) (record s { running = true }))
