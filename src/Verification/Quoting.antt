-- ===== src/Verification/Quoting.antt =====
-- How values of a request become words of a shell command: `shellQuote` and `shellQuoteIfNeeded`
-- of internal/verification/verification_service.go, and `shellQuote` of
-- internal/ai/ai_launch_service.go. The reader is the quoting of POSIX sh.
pub mod Laws
mod Tests
use kode_stream.Prelude.{
  ℕ, Bool, true, false, not, ◌&&◌, ◌||◌, List, [], ◌∷◌, ◌++◌, Text, nat_eq, text_eq, ◌==◌, codes,
  any, if◌then◌else◌,
}

abbrev pub quote : ℕ
quote = b'\''

-- `strings.ReplaceAll(value, "'", by)`
pub replace_quotes : Text → Text → Text
replace_quotes by [] = []
replace_quotes by (c ∷ s) = (if c == quote then by else c ∷ []) ++ replace_quotes by s

-- internal/verification: the Go literal "'\\\"'\\\"'"
abbrev pub spec_escape : Text
spec_escape = quote ∷ b'\\' ∷ b'"' ∷ quote ∷ b'\\' ∷ b'"' ∷ quote ∷ []

-- internal/ai: the Go literal "'\"'\"'"
abbrev pub launch_escape : Text
launch_escape = quote ∷ b'"' ∷ quote ∷ b'"' ∷ quote ∷ []

unfoldable pub shell_quote : Text → Text
unfolding replace_quotes
shell_quote value = quote ∷ (replace_quotes spec_escape value ++ (quote ∷ []))

unfoldable pub launch_quote : Text → Text
unfolding replace_quotes
launch_quote value = quote ∷ (replace_quotes launch_escape value ++ (quote ∷ []))

abbrev pub special : Text
special = codes " \t\r\n\\\"'$`;&|<>(){}[]*!?"

-- `strings.ContainsAny(value, chars)`
unfoldable pub contains_any : Text → Text → Bool
contains_any [] chars = false
contains_any (c ∷ s) chars = any (λ d. c == d) chars || contains_any s chars

unfoldable pub shell_quote_if_needed : Text → Text
unfolding contains_any
shell_quote_if_needed value =
    if not (value == []) && not (contains_any value special) then value else shell_quote value

-- Where the reader of a shell stands: outside quotes, after a backslash there, in single quotes, in
-- double quotes, and after a backslash in those.
pub data Mode : Type 0 where
  bare escaped single double double_escaped : Mode

-- What has been read: the text of the word, and those of its characters that are neither quoted nor
-- escaped, which the shell interprets.
pub record Reading : Type 0 where
  pub mode : Mode
  pub word : Text
  pub loose : Text

abbrev pub enter : Reading → Mode → Reading
enter r m = record r { mode = m }

abbrev pub literal : Reading → Mode → ℕ → Reading
literal r m c = record r { mode = m; word = r.word ++ (c ∷ []) }

abbrev pub interpreted : Reading → Mode → ℕ → Reading
interpreted r m c = record r { mode = m; word = r.word ++ (c ∷ []); loose = r.loose ++ (c ∷ []) }

abbrev pub step_in : Mode → Reading → ℕ → Reading
step_in bare r c =
    if c == quote
    then enter r single
    else if c == b'"'
    then enter r double
    else if c == b'\\'
    then enter r escaped
    else interpreted r bare c
step_in escaped r c = literal r bare c
step_in single r c = if c == quote then enter r bare else literal r single c
step_in double r c =
    if c == b'"'
    then enter r bare
    else if c == b'\\'
    then enter r double_escaped
    else if c == b'$' || c == b'`'
    then interpreted r double c
    else literal r double c
step_in double_escaped r c =
    if c == b'$' || c == b'`' || c == b'"' || c == b'\\'
    then literal r double c
    else record r { mode = double; word = r.word ++ (b'\\' ∷ c ∷ []) }

abbrev pub step : Reading → ℕ → Reading
step r c = step_in r.mode r c

pub read_from : Reading → Text → Reading
read_from r [] = r
read_from r (c ∷ s) = read_from (step r c) s

abbrev pub start : Reading
start = record { mode = bare; word = []; loose = [] }

unfoldable pub read : Text → Reading
unfolding read_from
read s = read_from start s
