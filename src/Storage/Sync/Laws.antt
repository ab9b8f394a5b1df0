-- ===== src/Storage/Sync/Laws.antt =====
-- What a synchronisation leaves behind, whether it succeeds or fails.
use kode_stream.Prelude.{
  ◌≡◌, refl, sym, ap, ◌∙◌, subst, inl, inr, Bool, true, false, not, List, [], ◌∷◌, Option, none,
  some, String, Result, ok, err, ok-injective, Result-cases, ◌>>◌, >>=-eq-ok, Map, In,
}
use kode_stream.Storage.{
  StoreFile, Disk, registry_file, plan_index, audit_log, saved_filters, recent_items, ai_settings,
  canvases, session_records,
}
use kode_stream.Storage.Publication.{back_up}
use kode_stream.Storage.Publication.Whole.{back_up-whole, publish-whole, publish-rolled_back}
use kode_stream.Storage.Sync.{
  Direction, datadir_to_database, database_to_datadir, parse_direction, Request, Setting, World,
  Kind, Failure, check, require, known, is_expected, admit, SyncService, staged, before_database,
  renamed, to_database, before_files, saved, outcome, to_datadir, perform, admitted, guarded, sync,
}

-- What the next run of the program reads is as before.
pub record IsUntouched (s after : SyncService) : Type 0 where
  pub target : (g : StoreFile) → after.disk.target g ≡ s.disk.target g
  pub database : after.database ≡ s.database

untouched : (s : SyncService) → IsUntouched s s
untouched s = record { target = λ g. refl; database = refl }

>>-eq-ok :
    {B : Type 0} (m : Result Failure (Unit {0})) (rest : Result Failure B) {b : B}
    → (m >> rest) ≡ ok b
    → rest ≡ ok b
>>-eq-ok (ok a) rest h = h
>>-eq-ok (err e) rest h = cc

before_files-ok :
    (w : World) (d e : Disk)
    → before_files w d ≡ ok e
    → back_up w.faults (record d { stage = w.files }) ≡ ok e
unfolding before_files
before_files-ok w d e h =
    let h₁ = >>-eq-ok (staged w) _ h in
    let h₂ = >>-eq-ok (check _ w.before_backup) _ h₁ in
    let (x, copied, later) =
      >>=-eq-ok (saved (back_up w.faults (record d { stage = w.files }))) _ h₂ in
    let h₃ = >>-eq-ok (check _ w.cancelled_backup) _ later in
    let h₄ = >>-eq-ok (check _ w.before_publish) _ h₃ in
    of_saved (back_up w.faults (record d { stage = w.files })) copied ∙ ap ok (ok-injective h₄)
  where
    of_saved : (r : Result String Disk) {x : Disk} → saved r ≡ ok x → r ≡ ok x
    of_saved (ok y) q = ap ok (ok-injective q)
    of_saved (err m) q = cc

outcome-single :
    (errors : List String) (k : Kind) (m : String)
    → outcome errors ≡ err (record { kind = k; messages = m ∷ [] })
    → errors ≡ m ∷ []
outcome-single [] k m h = cc
outcome-single (x ∷ xs) k m h = cc

outcome-ok : (errors : List String) → outcome errors ≡ ok tt → errors ≡ []
outcome-ok [] h = refl
outcome-ok (x ∷ xs) h = cc

perform-failed :
    (w : World) (d : Direction) (s : SyncService) (k : Kind) (m : String)
    → (perform w d s).0 ≡ err (record { kind = k; messages = m ∷ [] })
    → IsUntouched s (perform w d s).1
unfolding perform to_database renamed to_datadir
perform-failed w datadir_to_database s k m h = into (before_database w) h
  where
    into :
        (r : Result Failure (Unit {0}))
        → (to_database w r s).0 ≡ err (record { kind = k; messages = m ∷ [] })
        → IsUntouched s (to_database w r s).1
    into (err e) q = untouched s
    into (ok _) q = by (w.rename_database) q
      where
        by :
            (o : Option String)
            → (renamed o w.database s).0 ≡ err (record { kind = k; messages = m ∷ [] })
            → IsUntouched s (renamed o w.database s).1
        by (some x) p = record { target = λ g. refl; database = refl }
        by none p = cc
perform-failed w database_to_datadir s k m h = elim (Result-cases (before_files w s.disk)) [
  | inr (e, failed) ↦ rw failed (untouched s)
  | inl (d, saved_all) ↦ rw saved_all (record {
    target = λ g.
        publish-rolled_back w.faults (record s.disk { stage = w.files }) d m g
          (before_files-ok w s.disk d saved_all) (outcome-single _ k m (rw saved_all at h));
    database = refl;
  })
]

-- The files that hold a snapshot in the data directory.
abbrev pub whole_snapshot : List StoreFile
whole_snapshot =
    registry_file ∷ plan_index ∷ audit_log ∷ saved_filters ∷ recent_items ∷ ai_settings ∷ canvases
    ∷ session_records ∷ []

-- What a successful run has done: the inactive store holds the snapshot, the other is as before.
abbrev pub IsDone : Direction → World → SyncService → SyncService → Type 0
IsDone database_to_datadir w s after =
    ((g : StoreFile)
      → In g whole_snapshot
      → (c : String) × (w.files g ≡ some c) × (after.disk.target g ≡ some c))
    × (after.database ≡ s.database)
IsDone datadir_to_database w s after =
    (after.database ≡ some w.database)
    × (after.database_backup ≡ s.database)
    × ((g : StoreFile) → after.disk.target g ≡ s.disk.target g)

perform-IsDone :
    (w : World) (d : Direction) (s : SyncService)
    → (perform w d s).0 ≡ ok tt
    → IsDone d w s (perform w d s).1
unfolding perform to_database renamed to_datadir
perform-IsDone w datadir_to_database s h = into (before_database w) h
  where
    by :
        (o : Option String)
        → (renamed o w.database s).0 ≡ ok tt
        → IsDone datadir_to_database w s (renamed o w.database s).1
    by none p = (refl, refl, λ g. refl)
    by (some x) p = cc

    into :
        (r : Result Failure (Unit {0}))
        → (to_database w r s).0 ≡ ok tt
        → IsDone datadir_to_database w s (to_database w r s).1
    into (ok _) q = by (w.rename_database) q
    into (err e) q = cc
perform-IsDone w database_to_datadir s h = elim (Result-cases (before_files w s.disk)) [
  | inr (e, failed) ↦ absurd (clash (rw failed at h))
  | inl (d, saved_all) ↦
      let (_, stage, _) =
        back_up-whole w.faults (record s.disk { stage = w.files }) d
          (before_files-ok w s.disk d saved_all) in
      rw saved_all (
        (λ g inside.
            let (c, there, here) =
              publish-whole w.faults d g inside (outcome-ok _ (rw saved_all at h)) in
            (c, ap (λ (m : Map StoreFile String). m g) (sym stage) ∙ there, here)),
        refl,
      )
]
  where
    clash : {e : Failure} → ◌≡◌ {A = Result Failure (Unit {0})} (err e) (ok tt) → ⊥
    clash q = cc

-- The conditions of every run that has an effect.
pub record IsAdmitted (setting : Setting) (request : Request) (d : Direction) : Type 0 where
  pub direction : parse_direction request.direction ≡ some d
  pub confirmed : request.confirm ≡ true
  pub is_local : setting.is_cloud ≡ false
  pub has_files : setting.is_postgres ≡ false
  pub inactive : is_expected setting.is_database d ≡ true

require-ok :
    (b : Bool) (k : Kind) (m : String) (rest : Result Failure Direction) {d : Direction}
    → (require b k m >> rest) ≡ ok d
    → (b ≡ true) × (rest ≡ ok d)
require-ok true k m rest h = (refl, h)
require-ok false k m rest h = cc

known-ok : (o : Option Direction) (d : Direction) → known o ≡ ok d → o ≡ some d
known-ok none d h = cc
known-ok (some e) d h = ap some (ok-injective h)

not-true : (b : Bool) → not b ≡ true → b ≡ false
not-true false h = refl
not-true true h = cc

admit-IsAdmitted :
    (setting : Setting) (request : Request) (w : World) (d : Direction)
    → admit setting request w ≡ ok d
    → IsAdmitted setting request d
unfolding admit
admit-IsAdmitted setting request w d h =
    let (e, there, h₁) = >>=-eq-ok (known (parse_direction request.direction)) _ h in
    let (confirmed, h₂) = require-ok request.confirm _ _ _ h₁ in
    let (is_local, h₃) = require-ok (not setting.is_cloud) _ _ _ h₂ in
    let (has_files, h₄) = require-ok (not setting.is_postgres) _ _ _ h₃ in
    let (inactive, h₅) = require-ok (is_expected setting.is_database e) _ _ _ h₄ in
    let same = ok-injective (>>-eq-ok (check _ w.cancelled_first) (ok e) h₅) in
    record {
      direction = known-ok (parse_direction request.direction) e there ∙ ap some same;
      confirmed = confirmed;
      is_local = not-true setting.is_cloud is_local;
      has_files = not-true setting.is_postgres has_files;
      inactive = subst (λ (x : Direction). is_expected setting.is_database x ≡ true) same inactive;
    }

-- A synchronisation that fails with a single error message has changed nothing, whichever step
-- failed: every file of the data directory and the database are as before, and the service is as
-- ready as it was.
pub sync-failed :
    (setting : Setting) (request : Request) (w : World) (s : SyncService) (k : Kind) (m : String)
    → (sync setting request w s).0 ≡ err (record { kind = k; messages = m ∷ [] })
    → IsUntouched s (sync setting request w s).1
      × ((sync setting request w s).1.running ≡ s.running)
unfolding sync
sync-failed setting request w s k m h = by s.running refl (admit setting request w) h
  where
    by :
        (b : Bool)
        → b ≡ s.running
        → (r : Result Failure Direction)
        → (guarded b s (admitted w r (record s { running = true }))).0
          ≡ err (record { kind = k; messages = m ∷ [] })
        → IsUntouched s (guarded b s (admitted w r (record s { running = true }))).1
          × ((guarded b s (admitted w r (record s { running = true }))).1.running ≡ s.running)
    by true e r q = (untouched s, refl)
    by false e (err x) q = (record { target = λ g. refl; database = refl }, e)
    by false e (ok d) q =
        let kept = perform-failed w d (record s { running = true }) k m q in
        (record { target = kept.target; database = kept.database }, e)

-- A synchronisation that succeeds was confirmed, ran in local mode without Postgres towards the
-- store that is not in use, and that store holds the whole snapshot afterwards, a data directory the
-- staged content of each of its eight files, while the one in use is as before.
pub sync-IsDone :
    (setting : Setting) (request : Request) (w : World) (s : SyncService)
    → (sync setting request w s).0 ≡ ok tt
    → (s.running ≡ false)
      × ((d : Direction) × IsAdmitted setting request d × IsDone d w s (sync setting request w s).1)
unfolding sync
sync-IsDone setting request w s h = by s.running refl (admit setting request w) refl h
  where
    moved :
        (d : Direction) (t : SyncService)
        → IsDone d w (record s { running = true }) t
        → IsDone d w s (record t { running = false })
    moved datadir_to_database t done = done
    moved database_to_datadir t done = done

    by :
        (b : Bool)
        → b ≡ s.running
        → (r : Result Failure Direction) → admit setting request w ≡ r
        → (guarded b s (admitted w r (record s { running = true }))).0 ≡ ok tt
        → (s.running ≡ false)
          × ((d : Direction) × IsAdmitted setting request d
              × IsDone d w s (guarded b s (admitted w r (record s { running = true }))).1)
    by true e r a q = cc
    by false e (err x) a q = cc
    by false e (ok d) a q = (
      sym e,
      (
        d,
        admit-IsAdmitted setting request w d a,
        moved d _ (perform-IsDone w d (record s { running = true }) q),
      ),
    )
