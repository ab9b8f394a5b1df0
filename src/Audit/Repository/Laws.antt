-- ===== src/Audit/Repository/Laws.antt =====
-- What is read from the log after it has been written to.
use mathlib.Core.List.{reverse_aux}
use kode_stream.Prelude.{
  ℕ, zero, suc, ◌+◌, ◌≤◌, ◌<◌, ◌≡◌, refl, sym, ap, ◌∙◌, append-nil, inl, inr, ◌⊎◌, ℤ, pos, negsuc,
  is_positive, pos_part, true, false, List, [], ◌∷◌, ◌++◌, Option, none, some, String, nat_eq, ◌==◌,
  leb, ltb, length, take, append_assoc, select, Bool-cases, Result, ok, err, ok-injective, arith,
}
use kode_stream.Audit.{AuditEvent, Query}
use kode_stream.Audit.Repository.{
  Codec, Log, Appending, appended, partly_written, last_piece, not_appended, not_synchronised,
  completed, presented_event, line_limit, limited_events, matches_query, query_from, append_event,
  keep_line, scan_lines, newest_first, recent, query_events,
}

reverse_aux-append :
    (es r : List AuditEvent) (x : AuditEvent)
    → reverse_aux (es ++ (x ∷ [])) r ≡ x ∷ reverse_aux es r
reverse_aux-append [] r x = refl
reverse_aux-append (e ∷ es) r x = reverse_aux-append es (e ∷ r) x

module _ {Line : Type 0} (codec : Codec Line) where
  keep_line-append :
      (o : Option AuditEvent) (r : Result String (List AuditEvent)) (es : List AuditEvent)
      (x : AuditEvent)
      → keep_line codec o r ≡ ok es
      → (fs : List AuditEvent) × (r ≡ ok fs)
        × (keep_line codec o (ok (fs ++ (x ∷ []))) ≡ ok (es ++ (x ∷ [])))
  keep_line-append none r es x h = (es, h, refl)
  keep_line-append (some e) (ok fs) es x h =
      (fs, refl, ap (λ (u : List AuditEvent). ok (u ++ (x ∷ []))) (ok-injective h))
  keep_line-append (some e) (err m) es x h = cc

  scan_lines-append :
      (lines : List Line) (l : Line) (es : List AuditEvent) (e : AuditEvent)
      → scan_lines codec lines ≡ ok es
      → codec.decode l ≡ some e
      → leb line_limit (codec.size l) ≡ false
      → scan_lines codec (lines ++ (l ∷ [])) ≡ ok (es ++ (presented_event e ∷ []))
  unfolding scan_lines
  scan_lines-append [] l es e h d s =
      rw (s, d) (ap (λ (u : List AuditEvent). ok (u ++ (presented_event e ∷ []))) (ok-injective h))
  scan_lines-append (k ∷ lines) l es e h d s = elim (Bool-cases (leb line_limit (codec.size k))) [
    | inl long ↦ absurd (clash (rw long at h))
    | inr short ↦
        let (fs, before, after) =
          keep_line-append (codec.decode k) (scan_lines codec lines) es (presented_event e)
            (rw short at h) in
        rw (short, scan_lines-append lines l fs e before d s) after
  ]
    where
      clash : {m : String} → ◌≡◌ {A = Result String (List AuditEvent)} (err m) (ok es) → ⊥
      clash q = cc

  -- An event that was appended without an error to a log that ends with a line end, and whose line
  -- is short enough, is the first one that is read, completed and with its owner and actor filled in;
  -- the others follow as before.
  pub recent-append_event :
      (now : ℕ) (fresh : String) (a : Appending) (e done : AuditEvent) (lines : List Line)
      (es : List AuditEvent)
      → (append_event codec now fresh a e (record { lines = lines; unended = none })).0 ≡ ok done
      → recent codec none (pos 0) (record { lines = lines; unended = none }) ≡ ok es
      → codec.size (codec.encode done) < line_limit
      → recent codec none
          (pos 0)
          (append_event codec now fresh a e (record { lines = lines; unended = none })).1
        ≡ ok (presented_event done ∷ es)
  unfolding append_event recent
  recent-append_event now fresh appended e done lines es h readable short =
      by (scan_lines codec lines) refl (
        ap (λ ls. newest_first codec (pos 0) (scan_lines codec ls)) (sym (append-nil lines))
        ∙ readable)
    where
      last : completed now fresh e ≡ done
      last = ok-injective h

      by :
          (r : Result String (List AuditEvent))
          → scan_lines codec lines ≡ r
          → newest_first codec (pos 0) r ≡ ok es
          → newest_first codec
              (pos 0)
              (scan_lines codec ((lines ++ (codec.encode (completed now fresh e) ∷ [])) ++ []))
            ≡ ok (presented_event done ∷ es)
      by (err m) q p = cc
      by (ok fs) q p =
          rw
            (
              append-nil (lines ++ (codec.encode (completed now fresh e) ∷ [])),
              last,
              scan_lines-append lines (codec.encode done) fs done q (codec.decode-encode done)
                  (ground arith),
            )
            (ap ok (
              reverse_aux-append fs [] (presented_event done)
              ∙ ap (λ (u : List AuditEvent). presented_event done ∷ u) (ok-injective p)))
  recent-append_event now fresh (partly_written n m) e done lines es h readable short = cc
  recent-append_event now fresh (not_appended m) e done lines es h readable short = cc
  recent-append_event now fresh (not_synchronised m) e done lines es h readable short = cc

  keep_line-err : (o : Option AuditEvent) (m : String) → keep_line codec o (err m) ≡ err m
  keep_line-err none m = refl
  keep_line-err (some e) m = refl

  scan_lines-long :
      (lines more : List Line) (l : Line)
      → leb line_limit (codec.size l) ≡ true
      → (m : String) × (scan_lines codec (lines ++ (l ∷ more)) ≡ err m)
  unfolding scan_lines
  scan_lines-long [] more l long = ("token too long", rw long refl)
  scan_lines-long (k ∷ lines) more l long = elim (Bool-cases (leb line_limit (codec.size k))) [
    | inl first ↦ ("token too long", rw first refl)
    | inr later ↦
        let (m, failed) = scan_lines-long lines more l long in
        (m, rw (later, failed) (keep_line-err (codec.decode k) m))
  ]

  -- One event whose line reaches 1 MiB makes the whole log unreadable, from the moment that it has
  -- been appended without an error behind a line end and whatever is written later.
  pub recent-long_event :
      (now : ℕ) (fresh : String) (e : AuditEvent) (lines more : List Line) (piece : Option Line)
      (limit : ℤ)
      → line_limit ≤ codec.size (codec.encode (completed now fresh e))
      → ((append_event codec now fresh appended e (record { lines = lines; unended = none })).0
          ≡ ok (completed now fresh e))
        × ((m : String) × (recent codec none limit (record {
          lines =
              (append_event codec now fresh appended e
                (record { lines = lines; unended = none })).1.lines
              ++ more;
          unended = piece;
        })
              ≡ err m))
  unfolding append_event recent
  recent-long_event now fresh e lines more piece limit long =
      let l = codec.encode (completed now fresh e) in
      let (m, failed) = scan_lines-long lines (more ++ last_piece codec piece) l (ground arith) in
      (
        refl,
        (
          m,
          rw
              (
                append_assoc lines (l ∷ []) more,
                append_assoc lines (l ∷ more) (last_piece codec piece),
                failed,
              )
              refl,
        ),
      )

take-all : (n : ℕ) (es : List AuditEvent) → length es ≤ n → take n es ≡ es
take-all zero [] h = refl
take-all (suc n) [] h = refl
take-all (suc n) (e ∷ es) h = ap (λ (u : List AuditEvent). e ∷ u) (take-all n es (omega (arith, h)))
take-all zero (e ∷ es) h = absurd (omega (arith, h))

-- The loop with `n` events so far and room for `suc k` more.
query_from-take :
    (q : Query) (n k : ℕ) (es : List AuditEvent)
    → is_positive q.limit ≡ true
    → pos_part q.limit ≡ n + suc k
    → query_from q n es ≡ take (suc k) (select (matches_query q) es)
unfolding query_from
query_from-take q n k [] h l = refl
query_from-take q n zero (e ∷ es) h l = elim (Bool-cases (matches_query q e)) [
  | inr f ↦ rw f (query_from-take q n zero es h l)
  | inl t ↦ let full : (suc n == pos_part q.limit) ≡ true = ground arith in rw (t, h, full) refl
]
query_from-take q n (suc k) (e ∷ es) h l = elim (Bool-cases (matches_query q e)) [
  | inr f ↦ rw f (query_from-take q n (suc k) es h l)
  | inl t ↦
      let room : (suc n == pos_part q.limit) ≡ false = ground arith in
      rw (t, h, room)
        (ap (λ (u : List AuditEvent). e ∷ u) (query_from-take q (suc n) k es h (omega (arith, l))))
]

query_from-select :
    (q : Query) (n : ℕ) (es : List AuditEvent)
    → is_positive q.limit ≡ false
    → query_from q n es ≡ select (matches_query q) es
unfolding query_from
query_from-select q n [] h = refl
query_from-select q n (e ∷ es) h = elim (Bool-cases (matches_query q e)) [
  | inl t ↦ rw (t, h) (ap (λ (u : List AuditEvent). e ∷ u) (query_from-select q (suc n) es h))
  | inr f ↦ rw f (query_from-select q n es h)
]

-- A query without errors answers the newest events that match its owner and its workspace, at most
-- as many as its limit says, or all of them if the limit is not positive.
pub query_events-limited :
    {Line : Type 0} (codec : Codec Line) (q : Query) (log : Log Line) (es : List AuditEvent)
    → recent codec none (pos 0) log ≡ ok es
    → query_events codec q none none none log
      ≡ ok (limited_events q.limit (select (matches_query q) es))
unfolding query_events
query_events-limited codec q log es h = rw h (ap ok (answered (Bool-cases (is_positive q.limit))))
  where
    positive : (k : ℤ) → is_positive k ≡ true → (n : ℕ) × (pos_part k ≡ suc n)
    positive (pos (suc n)) t = (n, refl)
    positive (pos zero) t = cc
    positive (negsuc n) t = cc

    answered :
        ◌⊎◌ (is_positive q.limit ≡ true) (is_positive q.limit ≡ false)
        → query_from q 0 es ≡ limited_events q.limit (select (matches_query q) es)
    answered (inr none_set) = rw none_set (query_from-select q 0 es none_set)
    answered (inl set) =
        let (k, size) = positive q.limit set in
        let answer = query_from-take q 0 k es set (omega (arith, size)) in
        elim (Bool-cases (ltb (pos_part q.limit) (length (select (matches_query q) es)))) [
          | inl more ↦ rw (set, more, size) answer
          | inr enough ↦
              rw (set, enough)
                (answer ∙ take-all (suc k) (select (matches_query q) es) (bound size enough))
        ]
      where
        bound : {m n l : ℕ} → m ≡ n → ltb m l ≡ false → l ≤ n
        bound e f = ground arith
