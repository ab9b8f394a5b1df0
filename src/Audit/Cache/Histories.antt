-- ===== src/Audit/Cache/Histories.antt =====
-- What holds of the cache whatever the interleaving of its callers.
use kode_stream.Prelude.{
  ℕ, ◌+◌, ◌<◌, ℤ, pos_part, is_positive, Option, none, some, List, [], ◌∷◌, true, ok, err, ◌≡◌,
  refl, sym, ap, ◌∙◌, Map, ◌==◌, arith, Any, Any-mono, inl, inr, Option-cases, Bool-cases,
}
use kode_stream.Audit.{AuditEvent, Query, query_eq, query_beq_iff}
use kode_stream.Audit.Cache.{
  CachedEvents, CachedEventReader, Lookup, pass, cancelled, hit, miss, valid_at, begin_query,
  Action, start, answer, flush, step, after, counted, flushes, sum_of,
}

valid_at-hit :
    (now : ℕ) (o : Option CachedEvents) (events : List AuditEvent)
    → valid_at now o ≡ some events
    → (entry : CachedEvents) × (o ≡ some entry) × (entry.events ≡ events) × (now < entry.expires_at)
valid_at-hit now none events h = cc
valid_at-hit now (some entry) events h = (entry, refl, ground arith, ground arith)

module _ {E : Type 0} where
  begin_query-keeps :
      (ctx : Option E) (now : ℕ) (q : Query) (r : CachedEventReader)
      → ((begin_query ctx now q r).1.ttl ≡ r.ttl) × ((begin_query ctx now q r).1.items ≡ r.items)
  unfolding begin_query
  begin_query-keeps none now q r = elim (Bool-cases (is_positive r.ttl)) [
    | inl p ↦ elim (Option-cases (valid_at now (r.items q))) [
      | inl old ↦ rw (p, begin_query, old, begin_query) (refl, refl)
      | inr (es, fresh) ↦ rw (p, begin_query, fresh, begin_query) (refl, refl)
    ]
    | inr n ↦ rw (n, begin_query) (refl, refl)
  ]
  begin_query-keeps (some e) now q r = elim (Bool-cases (is_positive r.ttl)) [
    | inl p ↦ rw (p, begin_query) (refl, refl)
    | inr n ↦ rw (n, begin_query) (refl, refl)
  ]

  step-ttl : (a : Action E) (r : CachedEventReader) → (step a r).ttl ≡ r.ttl
  unfolding step
  step-ttl (start ctx now q) r = (begin_query-keeps ctx now q r).0
  step-ttl (answer now q (ok es)) r = refl
  step-ttl (answer now q (err e)) r = refl
  step-ttl flush r = refl

  after-ttl : (ttl : ℤ) (past : List (Action E)) → (after ttl past).ttl ≡ ttl
  unfolding after
  after-ttl ttl [] = refl
  after-ttl ttl (a ∷ past) = rw (step-ttl a (after ttl past)) (after-ttl ttl past)

  -- The answer of the source that an entry of the cache comes from.
  abbrev pub IsAnswer : ℤ → Query → List AuditEvent → ℕ → Action E → Type 0
  IsAnswer ttl q events expiry a =
      (t : ℕ) × (a ≡ answer t q (ok events)) × (expiry ≡ t + pos_part ttl)

  answer_of :
      (ttl : ℤ) (now : ℕ) (k q : Query) (events : List AuditEvent) (past : List (Action E))
      (entry : CachedEvents)
      → k ≡ q
      → ◌≡◌ {A = Option CachedEvents}
          (some (record { expires_at = now + pos_part (after ttl past).ttl; events = events }))
          (some entry)
      → IsAnswer ttl q entry.events entry.expires_at (answer now k (ok events))
  answer_of ttl now k q events past entry same h = (now, cc, ground (arith, after-ttl ttl past))

  after-items :
      (ttl : ℤ) (past : List (Action E)) (q : Query) (entry : CachedEvents)
      → (after ttl past).items q ≡ some entry
      → Any (IsAnswer ttl q entry.events entry.expires_at) past
  unfolding after
  after-items ttl [] q entry h = cc
  after-items ttl (start ctx now k ∷ past) q entry h =
      let kept = (begin_query-keeps ctx now k (after ttl past)).1 in
      inr (after-items ttl past q entry (ap (λ (m : Map Query CachedEvents). m q) (sym kept) ∙ h))
  after-items ttl (answer now k (ok events) ∷ past) q entry h = elim (Bool-cases (k == q)) [
    | inl same ↦
        inl (answer_of ttl now k q events past entry ((query_beq_iff k q).0 same) (rw same at h))
    | inr other ↦ inr (after-items ttl past q entry (rw other at h))
  ]
  after-items ttl (answer now k (err e) ∷ past) q entry h = inr (after-items ttl past q entry h)
  after-items ttl (flush ∷ past) q entry h = cc

  pass-ne-hit : {es : List AuditEvent} → ◌≡◌ {A = Lookup E} pass (hit es) → ⊥
  pass-ne-hit h = cc

  miss-ne-hit : {es : List AuditEvent} → ◌≡◌ {A = Lookup E} miss (hit es) → ⊥
  miss-ne-hit h = cc

  cancelled-ne-hit : {e : E} {es : List AuditEvent} → ◌≡◌ {A = Lookup E} (cancelled e) (hit es) → ⊥
  cancelled-ne-hit h = cc

  hit-injective : {es fs : List AuditEvent} → ◌≡◌ {A = Lookup E} (hit es) (hit fs) → es ≡ fs
  hit-injective h = cc

  same_answer :
      {a : Action E} {t : ℕ} {q : Query} {es fs : List AuditEvent}
      → a ≡ answer t q (ok es)
      → es ≡ fs
      → a ≡ answer t q (ok fs)
  same_answer h k = cc

  begin_query-hit :
      (ctx : Option E) (now : ℕ) (q : Query) (r : CachedEventReader) (events : List AuditEvent)
      → (begin_query ctx now q r).0 ≡ hit events
      → valid_at now (r.items q) ≡ some events
  unfolding begin_query
  begin_query-hit none now q r events h = elim (Bool-cases (is_positive r.ttl)) [
    | inl p ↦ elim (Option-cases (valid_at now (r.items q))) [
      | inl old ↦ absurd (miss-ne-hit (rw (p, begin_query, old, begin_query) at h))
      | inr (es, fresh) ↦
          rw fresh (ap some (hit-injective (rw (p, begin_query, fresh, begin_query) at h)))
    ]
    | inr n ↦ absurd (pass-ne-hit (rw (n, begin_query) at h))
  ]
  begin_query-hit (some e) now q r events h = elim (Bool-cases (is_positive r.ttl)) [
    | inl p ↦ absurd (cancelled-ne-hit (rw (p, begin_query) at h))
    | inr n ↦ absurd (pass-ne-hit (rw (n, begin_query) at h))
  ]

  -- Whatever the goroutines do, and in whatever order, events that the cache answers at the time
  -- `now` are what the source answered for that same query, in a call that began at a time `t`
  -- less than the time to live before `now`.
  pub hit-IsRecent :
      (ttl : ℤ) (past : List (Action E)) (ctx : Option E) (now : ℕ) (q : Query)
      (events : List AuditEvent)
      → (begin_query ctx now q (after ttl past)).0 ≡ hit events
      → Any (λ a. (t : ℕ) × (a ≡ answer t q (ok events)) × (now < t + pos_part ttl)) past
  hit-IsRecent ttl past ctx now q events h =
      let (entry, found, same, fresh) =
        valid_at-hit now _ events (begin_query-hit ctx now q _ events h) in
      Any-mono (λ a (t, answered, expiry). (t, same_answer answered same, rw expiry at fresh)) past
        (after-items ttl past q entry found)

  begin_query-counts :
      (ctx : Option E) (now : ℕ) (q : Query) (r : CachedEventReader)
      → is_positive r.ttl ≡ true
      → ((begin_query ctx now q r).1.hits + (begin_query ctx now q r).1.misses
          ≡ counted (start ctx now q) + (r.hits + r.misses))
        × ((begin_query ctx now q r).1.invalidations ≡ r.invalidations)
  unfolding begin_query
  begin_query-counts none now q r p = elim (Option-cases (valid_at now (r.items q))) [
    | inl old ↦ rw (p, begin_query, old, begin_query) (omega arith, refl)
    | inr (es, fresh) ↦ rw (p, begin_query, fresh, begin_query) (omega arith, refl)
  ]
  begin_query-counts (some e) now q r p = rw (p, begin_query) (omega arith, refl)

  -- Every lookup that is not cancelled is counted once, as a hit or as a miss, and every
  -- invalidation once, whatever the interleaving.
  pub counters-exact :
      (ttl : ℤ) (past : List (Action E))
      → is_positive ttl ≡ true
      → ((after ttl past).hits + (after ttl past).misses ≡ sum_of counted past)
        × ((after ttl past).invalidations ≡ sum_of flushes past)
  unfolding after step
  counters-exact ttl [] p = (refl, refl)
  counters-exact ttl (start none now q ∷ past) p =
      let here = begin_query-counts none now q (after ttl past) (rw (after-ttl ttl past) p) in
      omega (arith, here, counters-exact ttl past p)
  counters-exact ttl (start (some e) now q ∷ past) p =
      let here = begin_query-counts (some e) now q (after ttl past) (rw (after-ttl ttl past) p) in
      omega (arith, here, counters-exact ttl past p)
  counters-exact ttl (answer now q (ok es) ∷ past) p = omega (arith, counters-exact ttl past p)
  counters-exact ttl (answer now q (err e) ∷ past) p = omega (arith, counters-exact ttl past p)
  counters-exact ttl (flush ∷ past) p = omega (arith, counters-exact ttl past p)
