-- ===== src/Filesystem/Writeguard.antt =====
-- The names that internal/filesystem/writeguard/validation.go lets through.
pub mod Laws
use kode_stream.Prelude.{
  ℕ, Bool, true, false, not, ◌&&◌, ◌||◌, List, [], ◌∷◌, Text, text_eq, nat_eq, codes, trim_space,
  has_prefix, has_suffix, contains, byte_len, ◌==◌, leb, ltb, if◌then◌else◌, any, all, Result, ok,
  err,
}

pub data NameError : Type 0 where
  branch_required branch_dots branch_empty_segments branch_slash_ends branch_dot_end branch_lock
        branch_characters :
      NameError
  message_required message_too_long : NameError
  service_required service_invalid service_segments service_characters : NameError
  item_required item_invalid item_segments item_characters : NameError

-- The classes of the two regular expressions.
abbrev pub is_alnum : ℕ → Bool
is_alnum c = (leb 65 c && leb c 90) || (leb 97 c && leb c 122) || (leb 48 c && leb c 57)

abbrev pub is_service_char : ℕ → Bool
is_service_char c = is_alnum c || c == 46 || c == 95 || c == 45

abbrev pub is_branch_char : ℕ → Bool
is_branch_char c = is_service_char c || c == 47

-- `branchNamePattern` and `serviceNamePattern`
abbrev pub matches : (ℕ → Bool) → Text → Bool
matches p [] = false
matches p (c ∷ s) = is_alnum c && all p s

abbrev pub contains_one : List ℕ → Text → Bool
contains_one cs s = any (λ c. contains s (c ∷ [])) cs

abbrev pub forbidden : List ℕ
forbidden = 92 ∷ 32 ∷ 126 ∷ 94 ∷ 58 ∷ 63 ∷ 42 ∷ 91 ∷ []

-- `ValidateBranchName` of a trimmed name.
unfoldable pub branch_name : Text → Result NameError (Unit {0})
branch_name b =
    if b == []
    then err branch_required
    else if contains b (46 ∷ 46 ∷ [])
    then err branch_dots
    else if contains b (47 ∷ 47 ∷ [])
    then err branch_empty_segments
    else if has_prefix b (47 ∷ []) || has_suffix b (47 ∷ [])
    then err branch_slash_ends
    else if has_suffix b (46 ∷ [])
    then err branch_dot_end
    else if has_suffix b (codes ".lock")
    then err branch_lock
    else if contains_one forbidden b
    then err branch_characters
    else if not (matches is_branch_char b)
    then err branch_characters
    else ok tt

unfoldable pub validate_branch_name : Text → Result NameError (Unit {0})
unfolding branch_name
validate_branch_name branch = branch_name (trim_space branch)

-- `ValidateCommitMessage`
unfoldable pub validate_commit_message : Text → Result NameError (Unit {0})
validate_commit_message message =
    let m = trim_space message in
    if m == []
    then err message_required
    else if ltb 500 (byte_len m)
    then err message_too_long
    else ok tt

-- `ValidateScopeName` of a trimmed name.
unfoldable pub scope_name : Text → Result NameError (Unit {0})
scope_name s =
    if s == []
    then err service_required
    else if s == 46 ∷ [] || s == 46 ∷ 46 ∷ []
    then err service_invalid
    else if contains s (47 ∷ []) || contains s (92 ∷ [])
    then err service_segments
    else if not (matches is_service_char s)
    then err service_characters
    else ok tt

unfoldable pub validate_scope_name : Text → Result NameError (Unit {0})
unfolding scope_name
validate_scope_name service = scope_name (trim_space service)

-- `unicode.IsControl`
abbrev pub is_control : ℕ → Bool
is_control c = ltb c 0x20 || (leb 0x7f c && ltb c 0xa0)

-- `strings.ContainsAny(item, …)` and `strings.IndexFunc(item, unicode.IsControl) >= 0`
abbrev pub is_marked : ℕ → Bool
is_marked c = any (λ d. c == d) (60 ∷ 62 ∷ 58 ∷ 34 ∷ 124 ∷ 63 ∷ 42 ∷ [])

unfoldable pub identifier_name : Text → Result NameError (Unit {0})
identifier_name item =
    if item == []
    then err item_required
    else if item == 46 ∷ [] || item == 46 ∷ 46 ∷ []
    then err item_invalid
    else if contains item (47 ∷ []) || contains item (92 ∷ [])
    then err item_segments
    else if any is_marked item
    then err item_characters
    else if any is_control item
    then err item_characters
    else ok tt

-- `ValidateIdentifierName`
unfoldable pub validate_identifier_name : Text → Result NameError (Unit {0})
unfolding identifier_name
validate_identifier_name item = identifier_name (trim_space item)
