-- ===== src/Sessions/Tests.antt =====
-- Session records in a small file.
mod Yaml
use kode_stream.Prelude.{
  ℕ, zero, suc, ◌<◌, length, ◌≡◌, ◌≢◌, ◌↔◌, map, All, refl, Bool, true, false, List, [], ◌∷◌,
  Option, none, some, String, Result, ok, err, Text, codes, ℤ, trim_space, trim_left, is_space,
  arith, inl, inr,
}
use kode_stream.Sessions.Durable.{
  Bytes, StoredFile, Disk, max_ai_yaml_bytes, read_bounded_file, unreadable, RestoreFaults, Faults,
  not_published, publish_durable_file, rename_over,
}
use kode_stream.Sessions.Durable.Laws.{
  IsPublished, fresh_file, publish-IsPublished, publish-oversized, faultless,
}
use kode_stream.Sessions.Records.{
  SessionRecord, starting, running, interrupted, normalize_session_record, validate_session_records,
  validate_from, validate_session_record, normalize_plan, joined_key,
}
use kode_stream.Sessions.Records.Laws.{IsSound, IsApart, validate_iff}
use kode_stream.Sessions.Repository.{Io, load, get, upsert, save, place_record, find_record}
use kode_stream.Sessions.Repository.Laws.{IsPut, upsert-IsPut}
use kode_stream.Sessions.Service.{
  Session, Step, find_session, synced, sync_session_record, interrupted_at, reconcile_from,
  reconcile_session_records,
}
use kode_stream.Sessions.Service.Laws.{reconcile-settled}
use kode_stream.Sessions.Tests.Yaml.{yaml, yaml-IsCodec, bytes_of}

abbrev old_file : StoredFile
old_file = record { content = 7 ∷ 8 ∷ []; mode = 0o640 }

zeros : ℕ → Bytes
zeros zero = []
zeros (suc n) = 0 ∷ zeros n

length-zeros : (n : ℕ) → length (zeros n) ≡ n
unfolding zeros
length-zeros zero = refl
length-zeros (suc n) = omega (arith, length-zeros n)

nothing_there : (e : String) → read_bounded_file none none ≢ err (unreadable e)
unfolding read_bounded_file
nothing_there e h = cc

big_enough : max_ai_yaml_bytes < length (zeros 2097153)
unfolding max_ai_yaml_bytes
big_enough = omega (arith, length-zeros 2097153)

abbrev big_file : Disk
big_file = some (record { content = zeros 2097153; mode = 0o600 })

publish-oversized_example :
    (publish_durable_file faultless (zeros 2097153) none ≡ (none, big_file))
    × ((e : String) × (read_bounded_file none big_file ≡ err (unreadable e))
        × ((f : String) × (publish_durable_file faultless (9 ∷ []) big_file
              ≡ (some (not_published f), big_file))))
publish-oversized_example =
    publish-oversized (zeros 2097153) none (λ e. nothing_there e) big_enough faultless (9 ∷ [])

abbrev quiet : Io
quiet = record { reading = none; publishing = faultless }

abbrev session : SessionRecord
session = record {
  id = codes "a";
  workspace_id = codes "w";
  plan_ref = none;
  provider = codes "p";
  intent = codes "i";
  requested_branch = codes "main";
  observed_commit = [];
  idempotency_key = codes "k";
  state = starting;
  started_at = 3;
  ended_at = 0;
  exit_code = none;
  last_known_at = 3;
}

abbrev other_session : SessionRecord
other_session = record session { id = codes " b "; idempotency_key = []; state = running }

validate_iff_example :
    (validate_session_records (session ∷ other_session ∷ []) ≡ ok (session ∷ [])) ↔ (
      (session ∷ [] ≡ map normalize_session_record (session ∷ other_session ∷ []))
      × (All IsSound (session ∷ []))
      × (IsApart (session ∷ [])))
validate_iff_example = validate_iff (session ∷ other_session ∷ []) (session ∷ [])

empty_loads : load yaml none none ≡ ok []
unfolding load read_bounded_file
empty_loads = refl

upsert-IsPut_example :
    IsPut yaml
      (normalize_session_record other_session)
      []
      none
      (upsert yaml quiet other_session none)
upsert-IsPut_example =
    upsert-IsPut yaml yaml-IsCodec quiet other_session [] none refl empty_loads tt

abbrev stored : List SessionRecord → Disk
stored rs = some (record { content = bytes_of rs; mode = 0o600 })

abbrev lost_session : SessionRecord
lost_session = record session { id = codes "b"; idempotency_key = []; state = running }

abbrev live_session : Session
live_session = record { id = codes "a"; state = running; exit_code = none }

abbrev steps : Text → Step
steps id = record { clock = 9; getting = quiet; putting = quiet }

abbrev reconciled : List SessionRecord
reconciled =
    record session { state = running; last_known_at = 9 }
    ∷ record lost_session { state = interrupted; ended_at = 9; last_known_at = 9 }
    ∷ []

reconciles :
    reconcile_session_records yaml quiet steps
      (live_session ∷ [])
      (stored (session ∷ lost_session ∷ []))
    ≡ (none, stored reconciled)
unfolding reconcile_session_records reconcile_from sync_session_record synced interrupted_at
    find_session get upsert load save place_record find_record read_bounded_file
    publish_durable_file rename_over normalize_session_record normalize_plan validate_session_record
    validate_from trim_space trim_left is_space max_ai_yaml_bytes joined_key
reconciles = refl

reads :
    get yaml quiet (codes "a") (stored reconciled)
    ≡ ok (some (record session { state = running; last_known_at = 9 }))
unfolding get load find_record read_bounded_file normalize_session_record normalize_plan
    validate_session_record validate_from trim_space trim_left is_space max_ai_yaml_bytes joined_key
reads = refl

reconcile-settled_example :
    (s : Session) × (find_session (codes "a") (live_session ∷ []) ≡ some s) × (s.id ≡ codes "a")
reconcile-settled_example =
    reconcile-settled yaml yaml-IsCodec quiet quiet steps (live_session ∷ [])
      (stored (session ∷ lost_session ∷ [])) (stored reconciled) (λ id. refl) reconciles (codes "a")
      (record session { state = running; last_known_at = 9 }) reads refl
