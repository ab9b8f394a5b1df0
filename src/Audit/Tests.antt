-- ===== src/Audit/Tests.antt =====
-- The audit cache at concrete inputs.
use kode_stream.Prelude.{
  ℕ, ◌+◌, ◌<◌, ◌≡◌, refl, pos, none, some, List, [], ◌∷◌, ok, String, Any, arith,
}
use kode_stream.Audit.{AuditEvent, Query}
use kode_stream.Audit.Cache.{
  CachedEventReader, hit, begin_query, finish_query, invalidate, Action, start, answer, flush,
  after,
}
use kode_stream.Audit.Cache.Laws.{stale_after_invalidate}
use kode_stream.Audit.Cache.Histories.{hit-IsRecent}

abbrev pushed : AuditEvent
pushed = record {
  id = "e1";
  time = 5;
  owner_user_id = "local";
  actor_user_id = "local";
  workspace_id = "w";
  item_id = "";
  operation = "git.push";
  status = "ok";
  message = "";
  paths = some [];
  duration_ms = pos 3;
  error = "";
}

abbrev all_of_w : Query
all_of_w = record { owner_user_id = ""; workspace_id = "w"; limit = pos 10 }

abbrev reader : CachedEventReader
reader = record { ttl = pos 2; items = λ q. none; hits = 0; misses = 0; invalidations = 0 }

stale_after_invalidate_example :
    (begin_query {E = String} none 8 all_of_w
      (finish_query {E = String} 7 all_of_w
        (ok (pushed ∷ []))
        (invalidate (begin_query {E = String} none 7 all_of_w reader).1)).1).0
    ≡ hit (pushed ∷ [])
unfolding begin_query
stale_after_invalidate_example =
    stale_after_invalidate {E = String} 7 8 all_of_w (pushed ∷ []) reader refl refl (omega arith)

abbrev history : List (Action String)
history = answer 7 all_of_w (ok (pushed ∷ [])) ∷ flush ∷ start none 7 all_of_w ∷ []

hit-IsRecent_example :
    Any (λ a. (t : ℕ) × (a ≡ answer t all_of_w (ok (pushed ∷ []))) × (8 < t + 2)) history
unfolding begin_query after
hit-IsRecent_example = hit-IsRecent (pos 2) history none 8 all_of_w (pushed ∷ []) refl
