-- ===== src/Sessions/Service/Oversized.antt =====
-- A file of session records that has outgrown the limit stays as it is.
use kode_stream.Prelude.{
  ◌≡◌, refl, sym, ◌∙◌, String, Option, none, some, err, inl, inr, Bool-cases, Option-cases,
}
use kode_stream.Sessions.Durable.{Disk, unreadable}
use kode_stream.Sessions.Durable.Laws.{read-oversized}
use kode_stream.Sessions.Records.{
  SessionRecord, RecordError, normalize_session_record, validate_session_record, not_loaded,
}
use kode_stream.Sessions.Repository.{Codec, Io, load, get, upsert}
use kode_stream.Sessions.Repository.Laws.{IsOversized}
use kode_stream.Sessions.Service.{
  Session, Step, is_active, sync_session_record, interrupted_at, reconcile_record,
}

module _ (c : Codec) (d : Disk) (big : IsOversized c d) where
  pub load-oversized : (reading : Option String) → (e : RecordError) × (load c reading d ≡ err e)
  unfolding load
  load-oversized reading =
      let (content, there, over) = big in
      let (e, h) = read-oversized reading d content there over in
      (not_loaded (unreadable e), rw h refl)

  pub sync-oversized : (step : Step) (s : Session) → sync_session_record c step s d ≡ d
  unfolding sync_session_record get
  sync-oversized step s = let (e, h) = load-oversized step.getting.reading in rw h refl

  upsert-oversized :
      (io : Io) (r : SessionRecord) → (e : RecordError) × (upsert c io r d ≡ (err e, d))
  unfolding upsert
  upsert-oversized io r =
      elim (Option-cases (validate_session_record (normalize_session_record r))) [
        | inr (e, h) ↦ (e, rw h refl)
        | inl h ↦ let (e, l) = load-oversized io.reading in (e, rw (h, l) refl)
      ]

  pub reconcile-oversized :
      (step : Step) (live : Option Session) (r : SessionRecord) (after : Disk)
      → reconcile_record c step live r d ≡ (none, after)
      → after ≡ d
  reconcile-oversized step (some s) r after h =
      let same : sync_session_record c step s d ≡ after = cc in sym same ∙ sync-oversized step s
  reconcile-oversized step none r after h = elim (Bool-cases (is_active r.state)) [
    | inl t ↦
        let (e, u) = upsert-oversized step.putting (interrupted_at step.clock r) in
        let bad = rw (t, u) at h in cc
    | inr f ↦ let same = rw f at h in cc
  ]
