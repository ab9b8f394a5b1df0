-- ===== src/Audit/Repository.antt =====
-- The audit log of internal/audit/audit_repository.go: a file of one JSON object on each line.
pub mod Laws
mod Tests
use kode_stream.Prelude.{
  ℕ, suc, ◌≡◌, ℤ, pos, is_positive, pos_part, Bool, true, false, ◌&&◌, ◌||◌, List, [], ◌∷◌, ◌++◌,
  Option, none, some, String, string_eq, nat_eq, ◌==◌, leb, ltb, if◌then◌else◌, length, take,
  Result, ok, err, ◌>>=◌,
}
use mathlib.Core.List.{reverse}
use kode_stream.Audit.{AuditEvent, Query}

-- `encoding/json` on the events: a line of the file with its size in bytes, what the first bytes of
-- it are, and what two pieces are one behind the other. What is written is read back as it was, and a
-- line that is no event is `none`.
pub record Codec (Line : Type 0) : Type 0 where
  pub size : Line → ℕ
  pub cut : ℕ → Line → Line
  pub join : Line → Line → Line
  pub encode : AuditEvent → Line
  pub decode : Line → Option AuditEvent
  pub decode-encode : (e : AuditEvent) → decode (encode e) ≡ some e

-- The file: its lines, and what stands behind the last line end, if a write stopped there.
pub record Log (Line : Type 0) : Type 0 where
  pub lines : List Line
  pub unended : Option Line

-- How opening, writing and synchronising the file end. A write may stop behind some of the bytes of
-- its line.
pub data Appending : Type 0 where
  appended : Appending
  partly_written : ℕ → String → Appending
  not_appended not_synchronised : String → Appending

abbrev pub made_paths : Option (List String) → Option (List String)
made_paths none = some []
made_paths (some ps) = some ps

-- What `Append` makes of an event, with the clock and a new id.
abbrev pub completed : ℕ → String → AuditEvent → AuditEvent
completed now fresh e = record e {
  id = if e.id == "" then fresh else e.id;
  time = if e.time == 0 then now else e.time;
  paths = made_paths e.paths;
}

-- `NormalizeLegacyEvent`
abbrev pub normalize_legacy_event : AuditEvent → AuditEvent
normalize_legacy_event e = record e {
  owner_user_id = if e.owner_user_id == "" then "local" else e.owner_user_id;
  actor_user_id = if e.actor_user_id == "" then "unknown" else e.actor_user_id;
}

abbrev pub presented_event : AuditEvent → AuditEvent
presented_event e = normalize_legacy_event (record e { paths = made_paths e.paths })

-- The size from which on `bufio.Scanner` gives up on a line: with its line end it has no room in a
-- buffer of 1024 * 1024 bytes.
abbrev pub line_limit : ℕ
line_limit = 1048576

abbrev pub limited_events : ℤ → List AuditEvent → List AuditEvent
limited_events limit es =
    if is_positive limit && ltb (pos_part limit) (length es) then take (pos_part limit) es else es

abbrev pub matches_query : Query → AuditEvent → Bool
matches_query q e =
    (q.owner_user_id == "" || e.owner_user_id == q.owner_user_id)
    && (q.workspace_id == "" || e.workspace_id == q.workspace_id)

-- The loop of `QueryContext`, which stops when the number of events that it has is the limit.
unfoldable pub query_from : Query → ℕ → List AuditEvent → List AuditEvent
query_from q n [] = []
query_from q n (e ∷ es) =
    let more = query_from q (suc n) es in
    let others = query_from q n es in
    if matches_query q e
    then (if is_positive q.limit && suc n == pos_part q.limit then e ∷ [] else e ∷ more)
    else others

module _ {Line : Type 0} (codec : Codec Line) where
  -- What is written goes behind what stands there without a line end.
  abbrev pub behind : Option Line → Line → Line
  behind none l = l
  behind (some piece) l = codec.join piece l

  abbrev pub with_line : Line → Log Line → Log Line
  with_line l log = record { lines = log.lines ++ (behind log.unended l ∷ []); unended = none }

  abbrev pub file_after : Appending → AuditEvent → Log Line → Log Line
  file_after (not_appended m) e log = log
  file_after (partly_written n m) e log = record log {
    unended = some (behind log.unended (codec.cut n (codec.encode e)));
  }
  file_after appended e log = with_line (codec.encode e) log
  file_after (not_synchronised m) e log = with_line (codec.encode e) log

  abbrev pub append_result : Appending → AuditEvent → Result String AuditEvent
  append_result appended e = ok e
  append_result (not_appended m) e = err m
  append_result (partly_written n m) e = err m
  append_result (not_synchronised m) e = err m

  -- `Append`. A file that is not there has no lines.
  unfoldable pub append_event :
      ℕ → String → Appending → AuditEvent → Log Line → Result String AuditEvent × Log Line
  append_event now fresh a e log =
      let done = completed now fresh e in (append_result a done, file_after a done log)

  abbrev pub keep_line :
      Option AuditEvent → Result String (List AuditEvent) → Result String (List AuditEvent)
  keep_line none rest = rest
  keep_line (some e) (ok es) = ok (presented_event e ∷ es)
  keep_line (some e) (err m) = err m

  -- The scan of the lines: the one that is too long ends it with an error.
  unfoldable pub scan_lines : List Line → Result String (List AuditEvent)
  scan_lines [] = ok []
  scan_lines (l ∷ ls) =
      let rest = scan_lines ls in
      if leb line_limit (codec.size l)
      then err "token too long"
      else keep_line (codec.decode l) rest

  -- The scanner also answers what stands behind the last line end.
  abbrev pub last_piece : Option Line → List Line
  last_piece none = []
  last_piece (some piece) = piece ∷ []

  abbrev pub scan_log : Log Line → Result String (List AuditEvent)
  scan_log log = scan_lines (log.lines ++ last_piece log.unended)

  -- `Recent`, with the error of opening the file.
  abbrev pub newest_first : ℤ → Result String (List AuditEvent) → Result String (List AuditEvent)
  newest_first limit (err m) = err m
  newest_first limit (ok es) = ok (limited_events limit (reverse es))

  unfoldable pub recent : Option String → ℤ → Log Line → Result String (List AuditEvent)
  unfolding scan_lines
  recent (some m) limit log = err m
  recent none limit log = newest_first limit (scan_log log)

  -- `QueryContext`, with the error of the context before and behind the reading.
  abbrev pub queried :
      Query → Option String → Result String (List AuditEvent) → Result String (List AuditEvent)
  queried q cancelled (err m) = err m
  queried q none (ok es) = ok (query_from q 0 es)
  queried q (some m) (ok es) = err m

  unfoldable pub query_events :
      Query
      → Option String
      → Option String
      → Option String
      → Log Line
      → Result String (List AuditEvent)
  unfolding recent query_from
  query_events q (some m) opening late log = err m
  query_events q none opening late log = queried q late (recent opening (pos 0) log)
