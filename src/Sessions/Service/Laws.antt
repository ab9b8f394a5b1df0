-- ===== src/Sessions/Service/Laws.antt =====
-- What reconciling the session records achieves.
use kode_stream.Prelude.{
  ℕ, ◌⊎◌, ◌≡◌, refl, sym, ap, ◌∙◌, subst, true, false, List, [], ◌∷◌, map, Option, none, some,
  is_some, Result, ok, err, Text, text_eq, All-of, In, In-map, inl, inr, Bool-cases, Option-cases,
  >>=-eq-ok, ok-injective, Map, put, of_some, Result-cases,
}
use kode_stream.Sessions.Durable.{Disk}
use kode_stream.Sessions.Records.{SessionRecord, RecordError, joined_key, normalize_session_record}
use kode_stream.Sessions.Records.Laws.{keys_clash}
use kode_stream.Sessions.Repository.{Codec, IsCodec, Io, load, get, upsert}
use kode_stream.Sessions.Repository.Placing.{by_id}
use kode_stream.Sessions.Repository.Laws.{view, IsOversized, IsReadAs, IsPut, loaded-IsStore}
use kode_stream.Sessions.Service.{
  Session, Step, is_active, is_compensated, find_session, synced, sync_found, sync_session_record,
  answer_of, interrupted_at, reconcile_record, reconcile_from, reconcile_session_records,
}
use kode_stream.Sessions.Service.Settled.{
  IsSettledBut, next_settled, put_elsewhere, not_interrupted, find_session-id, go_on-none,
}
use kode_stream.Sessions.Service.Oversized.{load-oversized, reconcile-oversized}
use kode_stream.Sessions.Service.Steps.{by_id-In, In-by_id, view-loaded, stored-IsPut}

synced_normal :
    (now : ℕ) (s : Session) (r : SessionRecord)
    → normalize_session_record r ≡ r
    → normalize_session_record (synced now s r) ≡ synced now s r
unfolding synced normalize_session_record
synced_normal now s r h = ap (λ (q : SessionRecord). synced now s q) h

interrupted_normal :
    (now : ℕ) (r : SessionRecord)
    → normalize_session_record r ≡ r
    → normalize_session_record (interrupted_at now r) ≡ interrupted_at now r
unfolding interrupted_at normalize_session_record
interrupted_normal now r h = ap (λ (q : SessionRecord). interrupted_at now q) h

synced_id : (now : ℕ) (s : Session) (r : SessionRecord) → (synced now s r).id ≡ r.id
unfolding synced
synced_id now s r = refl

synced_keys :
    (now : ℕ) (s : Session) (r t : SessionRecord)
    → keys_clash (synced now s r) t ≡ true
    → keys_clash r t ≡ true
unfolding synced joined_key
synced_keys now s r t h = h

interrupted_keys :
    (now : ℕ) (r t : SessionRecord)
    → keys_clash (interrupted_at now r) t ≡ true
    → keys_clash r t ≡ true
unfolding interrupted_at joined_key
interrupted_keys now r t h = h

interrupted_id : (now : ℕ) (r : SessionRecord) → (interrupted_at now r).id ≡ r.id
unfolding interrupted_at
interrupted_id now r = refl

module _ (c : Codec) (law : IsCodec c) where
  Became : Map Text SessionRecord → Text → Disk → Type 0
  Became m i d = IsReadAs c m d ⊎ ((n : SessionRecord) × IsReadAs c (put i n m) d)

  as_read : (rs : List SessionRecord) (d : Disk) → load c none d ≡ ok rs → IsReadAs c (by_id rs) d
  as_read rs d h = inl (rw h refl)

  IsPut-Became :
      (n : SessionRecord) (rs : List SessionRecord) (d : Disk)
      (p : Result RecordError SessionRecord × Disk)
      → load c none d ≡ ok rs
      → IsPut c n rs d p
      → Became (by_id rs) n.id p.1
  unfolding Became
  IsPut-Became n rs d (ok a, after) loaded (same, h) = inr (n, h)
  IsPut-Became n rs d (err e, after) loaded (inl same) =
      inl (subst (IsReadAs c (by_id rs)) (sym same) (as_read rs d loaded))
  IsPut-Became n rs d (err e, after) loaded (inr (t, h)) = inr (n, h)

  answered-IsReadAs :
      (n : SessionRecord) (rs : List SessionRecord) (d : Disk)
      (p : Result RecordError SessionRecord × Disk)
      → IsPut c n rs d p
      → (after : Disk) → answer_of p ≡ (none, after)
      → IsReadAs c (put n.id n (by_id rs)) after
  answered-IsReadAs n rs d (ok a, now) (same, h) after e =
      let equal : now ≡ after = cc in subst (IsReadAs c (put n.id n (by_id rs))) equal h
  answered-IsReadAs n rs d (err x, now) h after e = cc

  sync_found-Became :
      (step : Step) (s : Session) (rs : List SessionRecord) (d : Disk)
      → step.putting.publishing.stat_fails ≡ false
      → load c none d ≡ ok rs
      → (o : Option SessionRecord) → by_id rs s.id ≡ o
      → Became (by_id rs) s.id (sync_found c step s (ok o) d)
  unfolding Became
  sync_found-Became step s rs d stat loaded none h = inl (as_read rs d loaded)
  sync_found-Became step s rs d stat loaded (some r) h = elim (Bool-cases (is_compensated s r)) [
    | inl t ↦ rw t (inl (as_read rs d loaded))
    | inr f ↦
        let (m, e) = by_id-In rs s.id r h in
        let n : SessionRecord = synced step.clock s r in
        rw f (
          subst (λ i. Became (by_id rs) i (upsert c step.putting n d).1)
            (synced_id step.clock s r ∙ e)
            (IsPut-Became n rs d (upsert c step.putting n d) loaded (
              stored-IsPut c law step.putting rs r n d stat loaded m (synced_normal step.clock s r)
                (synced_id step.clock s r) (λ t k. synced_keys step.clock s r t k))))
  ]

  get_loaded :
      (io : Io) (id : Text) (rs : List SessionRecord) (d : Disk)
      → load c none d ≡ ok rs
      → (get c io id d ≡ ok (by_id rs id)) ⊎ ((e : RecordError) × (get c io id d ≡ err e))
  unfolding get
  get_loaded io id rs d loaded = elim (Result-cases (load c io.reading d)) [
    | inl (qs, h) ↦
        let same : qs ≡ rs = ok-injective (sym (loaded-IsStore c io.reading d qs h).0 ∙ loaded) in
        inl (rw (h, same) refl)
    | inr (e, h) ↦ inr (e, rw h refl)
  ]

  sync-Became :
      (step : Step) (s : Session) (rs : List SessionRecord) (d : Disk)
      → step.putting.publishing.stat_fails ≡ false
      → load c none d ≡ ok rs
      → Became (by_id rs) s.id (sync_session_record c step s d)
  unfolding sync_session_record Became
  sync-Became step s rs d stat loaded = elim (get_loaded step.getting s.id rs d loaded) [
    | inl h ↦ rw h (sync_found-Became step s rs d stat loaded (by_id rs s.id) refl)
    | inr (e, h) ↦ rw h (inl (as_read rs d loaded))
  ]

  -- A file that has outgrown the limit, or that reads as records settled but for `todo`.
  State : List Session → List SessionRecord → Disk → Type 0
  State sessions todo d =
      IsOversized c d
      ⊎ ((m : Map Text SessionRecord) × (view c d ≡ ok m) × IsSettledBut sessions todo m)

  read-State :
      (sessions : List Session) (todo : List SessionRecord) (m : Map Text SessionRecord) (d : Disk)
      → IsSettledBut sessions todo m
      → IsReadAs c m d
      → State sessions todo d
  unfolding State
  read-State sessions todo m d s (inl h) = inr (m, h, s)
  read-State sessions todo m d s (inr big) = inl big

  live-step :
      (step : Step) (s : Session) (sessions : List Session) (r : SessionRecord)
      (todo : List SessionRecord) (rs : List SessionRecord) (d : Disk)
      → step.putting.publishing.stat_fails ≡ false
      → load c none d ≡ ok rs
      → s.id ≡ r.id
      → is_some (find_session r.id sessions) ≡ true
      → IsSettledBut sessions (r ∷ todo) (by_id rs)
      → State sessions todo (sync_session_record c step s d)
  unfolding Became
  live-step step s sessions r todo rs d stat loaded same live before =
      elim (sync-Became step s rs d stat loaded) [
        | inl kept ↦
            read-State sessions todo (by_id rs) _
              (next_settled sessions r todo (by_id rs) (by_id rs) before (λ j f. refl)
                (λ x h a. live))
              kept
        | inr (n, changed) ↦
            read-State sessions todo (put r.id n (by_id rs)) _
              (next_settled sessions r todo (by_id rs) (put r.id n (by_id rs)) before
                (put_elsewhere r n (by_id rs)) (λ x h a. live))
              (subst (λ i. IsReadAs c (put i n (by_id rs)) (sync_session_record c step s d)) same
                changed)
      ]

  lost-step :
      (step : Step) (sessions : List Session) (r : SessionRecord) (todo : List SessionRecord)
      (rs : List SessionRecord) (d after : Disk)
      → step.putting.publishing.stat_fails ≡ false
      → load c none d ≡ ok rs
      → IsSettledBut sessions (r ∷ todo) (by_id rs)
      → reconcile_record c step none r d ≡ (none, after)
      → State sessions todo after
  unfolding interrupted_at
  lost-step step sessions r todo rs d after stat loaded before h =
      elim (Bool-cases (is_active r.state)) [
        | inr f ↦
            let same : d ≡ after = let q = rw f at h in cc in
            subst (State sessions todo) same (
              read-State sessions todo (by_id rs) d
                (next_settled sessions r todo (by_id rs) (by_id rs) before (λ j g. refl)
                  (λ x k active.
                    let equal : r ≡ x = of_some (sym before.stored.0 ∙ k) in
                    let bad : is_active r.state ≡ true =
                      subst (λ q. is_active q.state ≡ true) (sym equal) active in
                    cc))
                (as_read rs d loaded))
        | inl t ↦
            let n : SessionRecord = interrupted_at step.clock r in
            let (inside, same) = by_id-In rs r.id r before.stored.0 in
            read-State sessions todo (put r.id n (by_id rs)) after
              (next_settled sessions r todo (by_id rs) (put r.id n (by_id rs)) before
                (put_elsewhere r n (by_id rs))
                (λ x k active. absurd (not_interrupted r x (by_id rs) step.clock k active)))
              (answered-IsReadAs n rs d (upsert c step.putting n d)
                (stored-IsPut c law step.putting rs r n d stat loaded inside
                  (interrupted_normal step.clock r) (interrupted_id step.clock r)
                  (λ q k. interrupted_keys step.clock r q k))
                after (rw t at h))
      ]

  visited :
      (step : Step) (sessions : List Session) (r : SessionRecord) (todo : List SessionRecord)
      (d after : Disk)
      → step.putting.publishing.stat_fails ≡ false
      → State sessions (r ∷ todo) d
      → (live : Option Session) → find_session r.id sessions ≡ live
      → reconcile_record c step live r d ≡ (none, after)
      → State sessions todo after
  unfolding State
  visited step sessions r todo d after stat (inl big) live found h =
      inl (subst (IsOversized c) (sym (reconcile-oversized c d big step live r after h)) big)
  visited step sessions r todo d after stat (inr (m, v, s)) live found h =
      let (rs, loaded, e) = view-loaded c d m v in
      let before : IsSettledBut sessions (r ∷ todo) (by_id rs) =
        subst (IsSettledBut sessions (r ∷ todo)) (sym e) s in
      settle rs loaded before live found h
    where
      settle :
          (rs : List SessionRecord)
          → load c none d ≡ ok rs
          → IsSettledBut sessions (r ∷ todo) (by_id rs)
          → (l : Option Session) → find_session r.id sessions ≡ l
          → reconcile_record c step l r d ≡ (none, after)
          → State sessions todo after
      settle rs loaded before none found h =
          lost-step step sessions r todo rs d after stat loaded before h
      settle rs loaded before (some q) found h =
          let same : sync_session_record c step q d ≡ after = cc in
          subst (State sessions todo) same (
            live-step step q sessions r todo rs d stat loaded
              (find_session-id r.id sessions q found) (rw found refl) before)

  loop-State :
      (steps : Text → Step) (sessions : List Session) (todo : List SessionRecord) (d after : Disk)
      → ((id : Text) → (steps id).putting.publishing.stat_fails ≡ false)
      → State sessions todo d
      → reconcile_from c steps sessions todo d ≡ (none, after)
      → State sessions [] after
  unfolding reconcile_from
  loop-State steps sessions [] d after stat s h =
      let same : d ≡ after = cc in subst (State sessions []) same s
  loop-State steps sessions (r ∷ todo) d after stat s h =
      let (next, first, rest) =
        go_on-none (reconcile_record c (steps r.id) (find_session r.id sessions) r d)
          (reconcile_from c steps sessions todo) after h in
      loop-State steps sessions todo next after stat
        (visited (steps r.id) sessions r todo d next (stat r.id) s (find_session r.id sessions) refl
          first)
        rest

  found-live :
      (reading : Io) (sessions : List Session) (after : Disk) (id : Text) (r : SessionRecord)
      → State sessions [] after
      → get c reading id after ≡ ok (some r)
      → is_active r.state ≡ true
      → is_some (find_session id sessions) ≡ true
  unfolding State get
  found-live reading sessions after id r (inl big) found active =
      let (e, l) = load-oversized c after big reading.reading in let bad = rw l at found in cc
  found-live reading sessions after id r (inr (m, v, s)) found active =
      let (rs, loaded, e) = >>=-eq-ok (load c reading.reading after) _ found in
      let quiet = (loaded-IsStore c reading.reading after rs loaded).0 in
      let same : by_id rs ≡ m = ok-injective (rw quiet at v) in
      let here : by_id rs id ≡ some r = ok-injective e in
      elim (s.settled id r (sym (ap (λ (f : Map Text SessionRecord). f id) same) ∙ here) active) [
        | inl live ↦ live
        | inr none_left ↦ absurd none_left
      ]

  first-State :
      (sessions : List Session) (io : Io) (rs : List SessionRecord) (d : Disk)
      → load c io.reading d ≡ ok rs
      → State sessions rs d
  first-State sessions io rs d h =
      let (loaded, normals, sounds, apart) = loaded-IsStore c io.reading d rs h in
      read-State sessions rs (by_id rs) d
        (record {
          settled = λ i r k active.
              let (m, same) = by_id-In rs i r k in
              inr (
                subst (λ j. In j (map (λ (t : SessionRecord). t.id) rs)) same
                  (In-map (λ (t : SessionRecord). t.id) rs r m));
          stored = All-of (λ t. by_id rs t.id ≡ some t) rs (λ r m. In-by_id rs r apart m);
          apart = apart;
        })
        (as_read rs d loaded)

  -- After a reconciliation that reports no error, a record that is read as starting or running
  -- belongs to a session that is there: no record is left in such a state by a session that is gone.
  -- The writes can ask for the mode of the file.
  pub reconcile-settled :
      (io reading : Io) (steps : Text → Step) (sessions : List Session) (d after : Disk)
      → ((id : Text) → (steps id).putting.publishing.stat_fails ≡ false)
      → reconcile_session_records c io steps sessions d ≡ (none, after)
      → (id : Text) (r : SessionRecord) → get c reading id after ≡ ok (some r)
      → is_active r.state ≡ true
      → (s : Session) × (find_session id sessions ≡ some s) × (s.id ≡ id)
  unfolding reconcile_session_records
  reconcile-settled io reading steps sessions d after stat done id r found active =
      elim (Result-cases (load c io.reading d)) [
        | inr (e, h) ↦ let bad = rw h at done in cc
        | inl (rs, h) ↦
            let live =
              found-live reading sessions after id r
                (loop-State steps sessions rs d after stat (first-State sessions io rs d h)
                  (rw h at done))
                found active in
            elim (Option-cases (find_session id sessions)) [
              | inl n ↦ let bad = rw n at live in cc
              | inr (s, n) ↦ (s, n, find_session-id id sessions s n)
            ]
      ]
