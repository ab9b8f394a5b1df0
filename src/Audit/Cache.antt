-- ===== src/Audit/Cache.antt =====
-- internal/audit/audit_cache.go: reading events through a cache with a time to live.
pub mod Laws
pub mod Histories
use kode_stream.Prelude.{
  ℕ, zero, suc, ◌+◌, ℤ, pos_part, is_positive, Option, none, some, List, [], ◌∷◌, Bool, true, false,
  Map, empty_map, put, Result, ok, err, ltb, if◌then◌else◌,
}
use kode_stream.Audit.{AuditEvent, Query, query_eq}

pub record CachedEvents : Type 0 where
  pub expires_at : ℕ
  pub events : List AuditEvent

pub record CachedEventReader : Type 0 where
  pub ttl : ℤ
  pub items : Map Query CachedEvents
  pub hits : ℕ
  pub misses : ℕ
  pub invalidations : ℕ

unfoldable pub new_cached_event_reader : ℤ → CachedEventReader
new_cached_event_reader ttl = record {
  ttl = ttl;
  items = empty_map;
  hits = 0;
  misses = 0;
  invalidations = 0;
}

-- What `QueryContext` does before it calls the source: `pass` is a call without the cache.
pub data Lookup (E : Type 0) : Type 0 where
  pass : Lookup E
  cancelled : E → Lookup E
  hit : List AuditEvent → Lookup E
  miss : Lookup E

-- `now.Before(entry.expiresAt)`, for an entry that is there.
abbrev pub valid_at : ℕ → Option CachedEvents → Option (List AuditEvent)
valid_at now none = none
valid_at now (some entry) = if ltb now entry.expires_at then some entry.events else none

module _ {E : Type 0} where
  -- Under the lock, with the entry that the map holds.
  abbrev count : Option (List AuditEvent) → CachedEventReader → Lookup E × CachedEventReader
  count (some events) r = (hit events, record r { hits = suc r.hits })
  count none r = (miss, record r { misses = suc r.misses })

  abbrev unless_cancelled :
      Option E → Lookup E × CachedEventReader → CachedEventReader → Lookup E × CachedEventReader
  unless_cancelled (some e) found r = (cancelled e, r)
  unless_cancelled none found r = found

  -- `QueryContext` up to its call of the source. `ctx` is what `ctx.Err()` gives.
  unfoldable pub begin_query :
      Option E → ℕ → Query → CachedEventReader → Lookup E × CachedEventReader
  begin_query ctx now q r =
      if is_positive r.ttl
      then unless_cancelled ctx (count (valid_at now (r.items q)) r) r
      else (pass, r)

  -- `QueryContext` from the source's reply on, after a miss at the time `now`.
  unfoldable pub finish_query :
      ℕ
      → Query
      → Result E (List AuditEvent)
      → CachedEventReader
      → Result E (List AuditEvent) × CachedEventReader
  finish_query now q (err e) r = (err e, r)
  finish_query now q (ok events) r =
      let entry : CachedEvents = record { expires_at = now + pos_part r.ttl; events = events } in
      (ok events, record r { items = put q entry r.items })

  abbrev pub after_lookup :
      ℕ
      → Query
      → Result E (List AuditEvent)
      → Lookup E × CachedEventReader
      → Result E (List AuditEvent) × CachedEventReader
  after_lookup now q reply (pass, r) = (reply, r)
  after_lookup now q reply (cancelled e, r) = (err e, r)
  after_lookup now q reply (hit events, r) = (ok events, r)
  after_lookup now q reply (miss, r) = finish_query now q reply r

  -- The whole call when no other call comes between; `reply` is what the source would say.
  unfoldable pub query_context :
      Option E
      → ℕ
      → Query
      → Result E (List AuditEvent)
      → CachedEventReader
      → Result E (List AuditEvent) × CachedEventReader
  unfolding begin_query finish_query
  query_context ctx now q reply r = after_lookup now q reply (begin_query ctx now q r)

unfoldable pub invalidate : CachedEventReader → CachedEventReader
invalidate r = record r { items = empty_map; invalidations = suc r.invalidations }

-- What other goroutines do to the reader between two steps of one call.
pub data Action (E : Type 0) : Type 0 where
  start : Option E → ℕ → Query → Action E
  answer : ℕ → Query → Result E (List AuditEvent) → Action E
  flush : Action E

module _ {E : Type 0} where
  unfoldable pub step : Action E → CachedEventReader → CachedEventReader
  unfolding begin_query finish_query invalidate
  step (start ctx now q) r = (begin_query ctx now q r).1
  step (answer now q reply) r = (finish_query now q reply r).1
  step flush r = invalidate r

  -- The reader after a history of actions, the latest first.
  unfoldable pub after : ℤ → List (Action E) → CachedEventReader
  unfolding step new_cached_event_reader
  after ttl [] = new_cached_event_reader ttl
  after ttl (a ∷ past) = step a (after ttl past)

  abbrev pub counted : Action E → ℕ
  counted (start none _ _) = 1
  counted _ = 0

  abbrev pub flushes : Action E → ℕ
  flushes flush = 1
  flushes _ = 0

  abbrev pub sum_of : (Action E → ℕ) → List (Action E) → ℕ
  sum_of f [] = 0
  sum_of f (a ∷ past) = f a + sum_of f past
