-- ===== src/Audit/Repository/Tests.antt =====
-- The audit log at concrete lines: a line is an event itself, as long as its message says.
use kode_stream.Prelude.{
  List, ◌≡◌, refl, pos, [], ◌∷◌, ◌++◌, some, none, String, string_eq, ◌==◌, if◌then◌else◌, select,
  ok, err, arith,
}
use kode_stream.Audit.{AuditEvent, Query}
use kode_stream.Audit.Repository.{
  Codec, Log, appended, completed, presented_event, limited_events, matches_query, append_event,
  scan_lines, recent, query_events,
}
use kode_stream.Audit.Repository.Laws.{recent-append_event, recent-long_event, query_events-limited}

abbrev plain : Codec AuditEvent
plain = record {
  size = λ e. if e.message == "long" then 2000000 else 200;
  cut = λ n e. record e { message = "torn" };
  join = λ a b. record a { message = "glued" };
  encode = λ e. e;
  decode = λ e. some e;
  decode-encode = λ e. refl;
}

abbrev log_of : List AuditEvent → Log AuditEvent
log_of es = record { lines = es; unended = none }

abbrev event : AuditEvent
event = record {
  id = "e1";
  time = 5;
  owner_user_id = "";
  actor_user_id = "ann";
  workspace_id = "w";
  item_id = "";
  operation = "git.push";
  status = "ok";
  message = "";
  paths = none;
  duration_ms = pos 3;
  error = "";
}

abbrev long_event : AuditEvent
long_event = record event { id = "e2"; message = "long" }

abbrev done : AuditEvent
done = record event { paths = some [] }

appends : (append_event plain 9 "e3" appended event (log_of [])).0 ≡ ok done
unfolding append_event
appends = refl

reads : recent plain none (pos 0) (log_of []) ≡ ok []
unfolding recent scan_lines
reads = refl

recent-append_event_example :
    recent plain none (pos 0) (append_event plain 9 "e3" appended event (log_of [])).1
    ≡ ok (presented_event done ∷ [])
recent-append_event_example =
    recent-append_event plain 9 "e3" appended event done [] [] appends reads (omega arith)

recent-long_event_example :
    ((append_event plain 9 "e3" appended long_event (log_of (done ∷ []))).0
      ≡ ok (completed 9 "e3" long_event))
    × ((m : String) × (recent plain none (pos 5) (record {
      lines =
          (append_event plain 9 "e3" appended long_event (log_of (done ∷ []))).1.lines
          ++ (done ∷ []);
      unended = none;
    })
          ≡ err m))
recent-long_event_example =
    recent-long_event plain 9 "e3" long_event (done ∷ []) (done ∷ []) none (pos 5) (omega arith)

abbrev of_w : Query
of_w = record { owner_user_id = ""; workspace_id = "w"; limit = pos 1 }

reads_two :
    recent plain none (pos 0) (log_of (done ∷ done ∷ []))
    ≡ ok (presented_event done ∷ presented_event done ∷ [])
unfolding recent scan_lines
reads_two = refl

query_events-limited_example :
    query_events plain of_w none none none (log_of (done ∷ done ∷ []))
    ≡ ok (
        limited_events
          (pos 1)
          (select (matches_query of_w) (presented_event done ∷ presented_event done ∷ [])))
query_events-limited_example =
    query_events-limited plain of_w (log_of (done ∷ done ∷ []))
      (presented_event done ∷ presented_event done ∷ []) reads_two
