-- ===== src/Audit/Cache/Laws.antt =====
-- What the cache answers, in one thread and in any interleaving.
use kode_stream.Prelude.{
  ℕ, ◌+◌, ◌<◌, pos_part, is_positive, none, List, true, Result, ok, err, lt→ltb, ◌≡◌, inl, inr,
  beq_self, Option-cases, Bool-cases,
}
use kode_stream.Audit.{AuditEvent, Query, query_eq}
use kode_stream.Audit.Cache.{
  CachedEventReader, Lookup, hit, miss, valid_at, begin_query, finish_query, query_context,
  invalidate,
}

module _ {E : Type 0} where
  -- After `Invalidate` the next query, of whatever key and at whatever time, is answered by the
  -- source, and not from the cache.
  pub query_context-invalidate :
      (now : ℕ) (q : Query) (reply : Result E (List AuditEvent)) (r : CachedEventReader)
      → (query_context none now q reply (invalidate r)).0 ≡ reply
  unfolding query_context invalidate
  query_context-invalidate now q (ok events) r = elim (Bool-cases (is_positive r.ttl)) [
    | inl p ↦ rw p
    | inr n ↦ rw n
  ]
  query_context-invalidate now q (err e) r = elim (Bool-cases (is_positive r.ttl)) [
    | inl p ↦ rw p
    | inr n ↦ rw n
  ]

  -- With a positive time to live, a query that misses and that the source answers is answered
  -- alike until the time to live has passed, whatever the source says by then.
  pub query_context_repeat :
      (now later : ℕ) (q : Query) (events : List AuditEvent) (reply : Result E (List AuditEvent))
      (r : CachedEventReader)
      → is_positive r.ttl ≡ true
      → (begin_query {E = E} none now q r).0 ≡ miss
      → later < now + pos_part r.ttl
      → (query_context none later q reply (query_context {E = E} none now q (ok events) r).1).0
        ≡ ok events
  unfolding query_context
  query_context_repeat now later q events reply r p m h =
      elim (Option-cases (valid_at now (r.items q))) [
        | inl old ↦ rw (p, old) (rw (p, beq_self q, lt→ltb _ _ h))
        | inr (es, fresh) ↦ let seen : ◌≡◌ {A = Lookup E} (hit es) miss = rw (p, fresh) at m in cc
      ]

  -- `Invalidate` does not reach a call that is under way: when the source has been asked before
  -- it and answers after it, the old events are served until the time to live has passed.
  pub stale_after_invalidate :
      (now later : ℕ) (q : Query) (events : List AuditEvent) (r : CachedEventReader)
      → is_positive r.ttl ≡ true
      → (begin_query {E = E} none now q r).0 ≡ miss
      → later < now + pos_part r.ttl
      → (begin_query {E = E} none later q
          (finish_query {E = E} now q
            (ok events)
            (invalidate (begin_query {E = E} none now q r).1)).1).0
        ≡ hit events
  unfolding begin_query finish_query invalidate
  stale_after_invalidate now later q events r p m h =
      elim (Option-cases (valid_at now (r.items q))) [
        | inl old ↦ rw (p, begin_query, old, begin_query) (rw (p, beq_self q, lt→ltb _ _ h))
        | inr (es, fresh) ↦ let seen : ◌≡◌ {A = Lookup E} (hit es) miss = rw (p, fresh) at m in cc
      ]
