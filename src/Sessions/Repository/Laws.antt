-- ===== src/Sessions/Repository/Laws.antt =====
-- What the repository of session records keeps.
use kode_stream.Prelude.{
  ◌≤◌, ◌<◌, ◌⊎◌, ltb, ltb→lt, ◌≡◌, refl, sym, ap, ◌∙◌, subst, fun_ext, Bool, true, false, List, [],
  map, Option, none, some, String, Result, ok, err, ◌>>=◌, Text, text_eq, All, arith, inl, inr,
  Bool-cases, Option-cases, Result-cases, ok-injective, length, map-map_same, Map, put,
}
use kode_stream.Sessions.Durable.{
  Bytes, Disk, ReadError, not_exist, unreadable, read_bounded_file, max_ai_yaml_bytes, Faults,
  PublishError, not_published, rolled_back, rollback_failed, publish_durable_file,
}
use kode_stream.Sessions.Durable.Laws.{
  IsPublished, fresh_file, content_of, read-content, read-quiet, read-not_exist, published-content,
  publish-IsPublished,
}
use kode_stream.Sessions.Records.{
  SessionRecord, RecordError, not_saved, normalize_session_record, validate_session_record,
  validate_session_records,
}
use kode_stream.Sessions.Records.Laws.{IsApart, IsSound, validate_iff, normalize-normalize}
use kode_stream.Sessions.Repository.{
  Codec, IsCodec, Io, decode_read, saved, publish_marshalled, load, save, place_record, upsert,
  save_placed, answered,
}
use kode_stream.Sessions.Repository.Placing.{
  map-Placed, by_id, place-Placed, by_id-Placed, All-Placed, IsKeyFree, IsApart-Placed,
}

normal :
    (ss rs : List SessionRecord)
    → rs ≡ map normalize_session_record ss
    → map normalize_session_record rs ≡ rs
normal ss rs same = rw same (map-map_same normalize_session_record normalize-normalize ss)

module _ (c : Codec) where
  -- The records of a file that can be read.
  abbrev pub view : Disk → Result RecordError (Map Text SessionRecord)
  view d = load c none d >>= (λ rs. ok (by_id rs))

  decode_read-IsStore :
      (reading : Option String) (d : Disk) (rs : List SessionRecord) (read : Result ReadError Bytes)
      → read_bounded_file reading d ≡ read
      → decode_read c read ≡ ok rs
      → (load c none d ≡ ok rs)
        × (map normalize_session_record rs ≡ rs)
        × (All IsSound rs)
        × (IsApart rs)
  unfolding load
  decode_read-IsStore reading d rs (err not_exist) r h =
      let absent : d ≡ none = read-not_exist reading d r in
      let nothing : [] ≡ rs = ok-injective h in
      subst
        (λ l.
          (load c none d ≡ ok l)
          × (map normalize_session_record l ≡ l)
          × (All IsSound l)
          × (IsApart l))
        nothing (rw absent (unfold read_bounded_file in refl), refl, tt, tt)
  decode_read-IsStore reading d rs (err (unreadable e)) r h = cc
  decode_read-IsStore reading d rs (ok content) r h = elim (Result-cases (c.decode content)) [
    | inr (e, n) ↦ let bad = rw n at h in cc
    | inl (ss, n) ↦
        let valid : validate_session_records ss ≡ ok rs = rw n at h in
        let (same, sounds, apart) = (validate_iff ss rs).0 valid in
        (rw (read-quiet reading d content r) h, normal ss rs same, sounds, apart)
  ]

  pub loaded-IsStore :
      (reading : Option String) (d : Disk) (rs : List SessionRecord)
      → load c reading d ≡ ok rs
      → (load c none d ≡ ok rs)
        × (map normalize_session_record rs ≡ rs)
        × (All IsSound rs)
        × (IsApart rs)
  loaded-IsStore reading d rs h =
      decode_read-IsStore reading d rs (read_bounded_file reading d) refl (unfold load in h)

  saved-none :
      (p : Option PublishError × Disk) (after : Disk)
      → saved c p ≡ (none, after)
      → p ≡ (none, after)
  saved-none (none, d) after h = let same : d ≡ after = cc in cc
  saved-none (some e, d) after h = cc

  publish_marshalled-content :
      (w : Faults) (m : Result String Bytes) (d after : Disk)
      → publish_marshalled c w m d ≡ (none, after)
      → (content : Bytes) × (m ≡ ok content) × (content_of after ≡ some content)
  publish_marshalled-content w (err e) d after h = cc
  publish_marshalled-content w (ok content) d after h = (
    content,
    refl,
    published-content w content d after (saved-none (publish_durable_file w content d) after h),
  )

  read-loaded :
      (d : Disk) (content : Bytes) (rs : List SessionRecord)
      → read_bounded_file none d ≡ ok content
      → c.decode content ≡ ok rs
      → validate_session_records rs ≡ ok rs
      → load c none d ≡ ok rs
  unfolding load
  read-loaded d content rs r m valid = rw (r, m) valid

  saved-loaded :
      IsCodec c
      → (w : Faults) (rs : List SessionRecord) (d after : Disk) → save c w rs d ≡ (none, after)
      → validate_session_records rs ≡ ok rs
      → ((content : Bytes) → content_of after ≡ some content → length content ≤ max_ai_yaml_bytes)
      → load c none after ≡ ok rs
  saved-loaded law w rs d after h valid fits =
      let (content, m, there) =
        publish_marshalled-content w (c.marshal rs) d after (unfold save in h) in
      read-loaded after content rs (read-content after content there (fits content there))
        (law rs content m) valid

  -- A file that `readBoundedFile` refuses.
  abbrev pub IsOversized : Disk → Type 0
  IsOversized d =
      (content : Bytes) × (content_of d ≡ some content) × (max_ai_yaml_bytes < length content)

  abbrev pub is_rollback_failure : RecordError → Bool
  is_rollback_failure (not_saved (rollback_failed a b)) = true
  is_rollback_failure _ = false

  -- What putting `n` among the records `rs` of `d` may end with.
  abbrev pub IsReadAs : Map Text SessionRecord → Disk → Type 0
  IsReadAs m d = (view d ≡ ok m) ⊎ IsOversized d

  abbrev pub IsPut :
      SessionRecord → List SessionRecord → Disk → Result RecordError SessionRecord × Disk → Type 0
  IsPut n rs d (ok answer, after) = (answer ≡ n) × IsReadAs (put n.id n (by_id rs)) after
  IsPut n rs d (err e, after) =
      (after ≡ d) ⊎ ((is_rollback_failure e ≡ true) × IsReadAs (put n.id n (by_id rs)) after)

  view-place :
      (n : SessionRecord) (rs ps : List SessionRecord) (d : Disk)
      → place_record n rs ≡ ok ps
      → load c none d ≡ ok ps
      → view d ≡ ok (put n.id n (by_id rs))
  view-place n rs ps d placed loaded =
      rw loaded (ap ok (fun_ext (λ id. by_id-Placed n (place-Placed n rs ps placed) id)))

  placed-valid :
      (n : SessionRecord) (rs ps : List SessionRecord)
      → place_record n rs ≡ ok ps
      → normalize_session_record n ≡ n
      → IsSound n
      → IsKeyFree n rs
      → map normalize_session_record rs ≡ rs
      → All IsSound rs
      → IsApart rs
      → validate_session_records ps ≡ ok ps
  placed-valid n rs ps placed same sound free normals sounds apart =
      let p = place-Placed n rs ps placed in
      (validate_iff ps ps).1 (
        sym (map-Placed n p same normals),
        All-Placed IsSound n p sound sounds,
        IsApart-Placed n p free apart,
      )

  module _ (law : IsCodec c) (w : Faults) (n : SessionRecord) (rs ps : List SessionRecord)
      (d : Disk) (placed : place_record n rs ≡ ok ps)
      (valid : validate_session_records ps ≡ ok ps) where
    content-IsReadAs :
        (content : Bytes) (after : Disk)
        → c.marshal ps ≡ ok content
        → content_of after ≡ some content
        → IsReadAs (put n.id n (by_id rs)) after
    content-IsReadAs content after m there =
        elim (Bool-cases (ltb max_ai_yaml_bytes (length content))) [
          | inl t ↦ inr (content, there, ltb→lt max_ai_yaml_bytes (length content) t)
          | inr f ↦ inl (
              view-place n rs ps after placed (
                read-loaded after content ps (read-content after content there (ground arith))
                  (law ps content m) valid))
        ]

    published-IsPut :
        (content : Bytes) (p : Option PublishError × Disk)
        → c.marshal ps ≡ ok content
        → publish_durable_file w content d ≡ p
        → IsPublished (fresh_file content d) d p
        → IsPut n rs d (answered n (saved c p))
    published-IsPut content (none, after) m h ends =
        (refl, content-IsReadAs content after m (published-content w content d after h))
    published-IsPut content (some (not_published e), after) m h ends = inl ends
    published-IsPut content (some (rolled_back e), after) m h ends = inl ends
    published-IsPut content (some (rollback_failed a e), after) m h (inl old) = inl old
    published-IsPut content (some (rollback_failed a e), after) m h (inr new) =
        inr (refl, content-IsReadAs content after m (ap content_of new))

    marshalled-IsPut :
        w.stat_fails ≡ false
        → (m : Result String Bytes) → c.marshal ps ≡ m
        → IsPut n rs d (answered n (publish_marshalled c w m d))
    marshalled-IsPut stat (err e) h = inl refl
    marshalled-IsPut stat (ok content) h =
        published-IsPut content (publish_durable_file w content d) h refl
          (publish-IsPublished w content d stat)

    save-IsPut : w.stat_fails ≡ false → IsPut n rs d (answered n (save c w ps d))
    unfolding save
    save-IsPut stat = marshalled-IsPut stat (c.marshal ps) refl

  placed-IsPut :
      IsCodec c
      → (io : Io) (n : SessionRecord) (rs : List SessionRecord) (d : Disk)
      → io.publishing.stat_fails ≡ false
      → normalize_session_record n ≡ n
      → IsSound n
      → IsKeyFree n rs
      → load c io.reading d ≡ ok rs
      → (placed : Result RecordError (List SessionRecord)) → place_record n rs ≡ placed
      → IsPut n rs d (save_placed c io n placed d)
  placed-IsPut law io n rs d stat same sound free loaded (err e) h = inl refl
  placed-IsPut law io n rs d stat same sound free loaded (ok ps) h =
      let (now, normals, sounds, apart) = loaded-IsStore io.reading d rs loaded in
      save-IsPut law io.publishing n rs ps d h
        (placed-valid n rs ps h same sound free normals sounds apart) stat

  upsert_loaded-IsPut :
      IsCodec c
      → (io : Io) (n : SessionRecord) (rs : List SessionRecord) (d : Disk)
      → io.publishing.stat_fails ≡ false
      → normalize_session_record n ≡ n
      → IsSound n
      → load c none d ≡ ok rs
      → IsKeyFree n rs
      → (loaded : Result RecordError (List SessionRecord)) → load c io.reading d ≡ loaded
      → IsPut n rs d (save_placed c io n (loaded >>= (λ qs. place_record n qs)) d)
  upsert_loaded-IsPut law io n rs d stat same sound readable free (err e) h = inl refl
  upsert_loaded-IsPut law io n rs d stat same sound readable free (ok qs) h =
      let equal : qs ≡ rs = ok-injective (sym (loaded-IsStore io.reading d qs h).0 ∙ readable) in
      rw equal
        (placed-IsPut law io n rs d stat same sound free (h ∙ ap ok equal) (place_record n rs) refl)

  -- Putting a record into a file that can be read, where no other record has its key and the mode
  -- of the file can be asked for. A success answers the record in its normal form, and the file then
  -- reads as a map in which it stands under its id and all else is as before, unless the file has
  -- outgrown the limit of reading. An error leaves the file as it was, or speaks of a failed rollback
  -- and leaves it as a success does.
  pub upsert-IsPut :
      IsCodec c
      → (io : Io) (r : SessionRecord) (rs : List SessionRecord) (d : Disk)
      → io.publishing.stat_fails ≡ false
      → load c none d ≡ ok rs
      → IsKeyFree (normalize_session_record r) rs
      → IsPut (normalize_session_record r) rs d (upsert c io r d)
  unfolding upsert
  upsert-IsPut law io r rs d stat readable free =
      elim (Option-cases (validate_session_record (normalize_session_record r))) [
        | inr (e, h) ↦ rw h (inl refl)
        | inl h ↦ rw h (
            upsert_loaded-IsPut law io (normalize_session_record r) rs d stat
              (normalize-normalize r) h readable free (load c io.reading d) refl)
      ]
