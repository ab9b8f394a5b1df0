-- ===== src/Filesystem/Pathguard.antt =====
-- The path checks of internal/filesystem/pathguard/pathguard.go that need no file system.
pub mod Laws
use kode_stream.Prelude.{
  ℕ, Bool, true, false, not, ◌&&◌, ◌||◌, List, [], ◌∷◌, ◌++◌, Text, text_eq, nat_eq, codes,
  trim_space, has_prefix, ◌==◌, if◌then◌else◌, any, Result, ok, err, ◌>>=◌, ◌>>◌,
}
use kode_stream.Filesystem.Paths.{slash, dot, dot_dot, clean, is_abs}

pub data PathError : Type 0 where
  invalid_path outside_sources : Text → PathError
  no_paths : PathError

-- What `CleanRelative` makes of a path before it looks at it.
unfoldable pub cleaned : Text → Text
cleaned path = clean (trim_space path)

abbrev pub is_refused : Text → Bool
is_refused c = c == dot || is_abs c || has_prefix c (46 ∷ 46 ∷ 47 ∷ []) || c == dot_dot

-- `CleanRelative`
unfoldable pub clean_relative : Text → Result PathError Text
unfolding cleaned
clean_relative path =
    if is_refused (cleaned path) then err (invalid_path path) else ok (cleaned path)

abbrev pub is_below : Text → Text → Bool
is_below c source = c == source || has_prefix c (source ++ (slash ∷ []))

-- `ValidateSourcePath`
abbrev pub in_sources : List Text → Text → Text → Result PathError Text
in_sources sources path c = if any (is_below c) sources then ok c else err (outside_sources path)

unfoldable pub validate_source_path : List Text → Text → Result PathError Text
unfolding clean_relative
validate_source_path sources path = do c ← clean_relative path; in_sources sources path c

-- `ValidateSourcePaths`
abbrev pub forgotten : Result PathError Text → Result PathError (Unit {0})
forgotten (ok c) = ok tt
forgotten (err e) = err e

unfoldable pub validate_each : List Text → List Text → Result PathError (Unit {0})
unfolding validate_source_path
validate_each sources [] = ok tt
validate_each sources (path ∷ paths) = do
  forgotten (validate_source_path sources path)
  validate_each sources paths

unfoldable pub validate_source_paths : List Text → List Text → Result PathError (Unit {0})
unfolding validate_each
validate_source_paths sources [] = err no_paths
validate_source_paths sources (path ∷ paths) = validate_each sources (path ∷ paths)
