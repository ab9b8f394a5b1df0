-- ===== src/Filesystem/Sourceguard.antt =====
-- The source roots of a workspace: internal/filesystem/sourceguard/sourceguard.go.
pub mod Laws
mod Tests
use kode_stream.Prelude.{
  Bool, true, false, ◌||◌, List, [], ◌∷◌, ◌++◌, Option, none, some, Result, ok, err, ◌>>=◌,
  if◌then◌else◌, Text, codes, text_eq, ◌==◌, has_prefix, trim_space, text_ltb, sort_by,
}
use kode_stream.Filesystem.Paths.{slash, dot, dot_dot, clean, is_abs}

pub record Source : Type 0 where
  pub relative : Text
  pub real_path : Text

pub data SourceError : Type 0 where
  root_unresolved : SourceError
  not_relative missing escapes : Text → SourceError
  same_directory overlap : Text → Text → SourceError

-- `contained`: whether `filepath.Rel` leads from one absolute clean path down to the other.
unfoldable pub contained : Text → Text → Bool
contained root target =
    target == root || root == (slash ∷ []) || has_prefix target (root ++ (slash ∷ []))

abbrev pub is_refused : Text → Text → Bool
is_refused value cleaned =
    cleaned == []
    || cleaned == dot
    || is_abs value
    || cleaned == dot_dot
    || has_prefix cleaned (dot_dot ++ (slash ∷ []))

abbrev pub or_else : Option SourceError → Option SourceError → Option SourceError
or_else (some e) later = some e
or_else none later = later

-- `key` is the path in the spelling in which the system compares paths. `real` answers a relative
-- path with the real path of the directory that it names in the workspace, if there is one.
module _ (key : Text → Text) (root : Text) (real : Text → Option Text) where
  abbrev pub resolved : Text → Option Text → Result SourceError Source
  resolved cleaned none = err (missing cleaned)
  resolved cleaned (some path) =
      if contained root path
      then ok (record { relative = cleaned; real_path = path })
      else err (escapes cleaned)

  -- One step of the first loop.
  unfoldable pub resolve_source : Text → Result SourceError Source
  resolve_source value =
      let cleaned = clean (trim_space value) in
      if is_refused value cleaned then err (not_relative value) else resolved cleaned (real cleaned)

  unfoldable pub resolve_each : List Text → Result SourceError (List Source)
  resolve_each [] = ok []
  resolve_each (v ∷ vs) = resolve_source v >>= (λ s. resolve_each vs >>= (λ ss. ok (s ∷ ss)))

  -- The inner loop, over the sources before `right`.
  unfoldable pub check_pairs : Source → List Source → Option SourceError
  check_pairs right [] = none
  check_pairs right (left ∷ ls) =
      let rest = check_pairs right ls in
      if key left.real_path == key right.real_path
      then some (same_directory left.relative right.relative)
      else if contained left.real_path right.real_path || contained right.real_path left.real_path
      then some (overlap left.relative right.relative)
      else rest

  -- The outer loop, with the sources that it has passed.
  unfoldable pub check_each : List Source → List Source → Option SourceError
  unfolding check_pairs
  check_each before [] = none
  check_each before (s ∷ ss) = or_else (check_pairs s before) (check_each (before ++ (s ∷ [])) ss)

  abbrev pub key_before : Source → Source → Bool
  key_before a b = text_ltb (key a.real_path) (key b.real_path)

  abbrev pub unless_clash : List Source → Option SourceError → Result SourceError (List Source)
  unless_clash ss (some e) = err e
  unless_clash ss none = ok ss

-- `ResolveAll`, with the real path of the workspace, if it can be resolved.
unfoldable pub resolve_all :
    (Text → Text)
    → (Text → Option Text)
    → Option Text
    → List Text
    → Result SourceError (List Source)
unfolding resolve_each check_each
resolve_all key real none values = err root_unresolved
resolve_all key real (some root) values = resolve_each key root real values >>= (λ ss.
    let sorted = sort_by (key_before key root real) ss in
    unless_clash key root real sorted (check_each key root real [] sorted))
