-- ===== src/Filesystem/Tests.antt =====
-- Paths below a source directory.
use kode_stream.Prelude.{
  ◌≡◌, ◌↔◌, ◌⊎◌, refl, List, [], ◌∷◌, ◌++◌, true, Text, codes, trim_space, trim_left, is_space,
  has_prefix, Any, ok,
}
use kode_stream.Filesystem.Paths.{slash, split_path, join_path, push_all, clean}
use kode_stream.Filesystem.Paths.Laws.{IsInside}
use kode_stream.Filesystem.Pathguard.{cleaned, clean_relative, validate_source_path}
use kode_stream.Filesystem.Pathguard.Laws.{validate_source_path-IsInside}
use kode_stream.Filesystem.Writeguard.{validate_branch_name}
use kode_stream.Filesystem.Writeguard.Laws.{IsBranchName, validate_branch_name_iff}

abbrev asked : Text
asked = codes " docs/./old//../a.md"

abbrev found : Text
found = codes "docs/a.md"

abbrev sources : List Text
sources = codes "plans" ∷ codes "docs" ∷ []

cleans : clean_relative asked ≡ ok found
unfolding clean_relative cleaned clean split_path push_all join_path trim_space trim_left is_space
    has_prefix
cleans = refl

validates : validate_source_path sources asked ≡ ok found
unfolding validate_source_path clean_relative cleaned clean split_path push_all join_path trim_space
    trim_left is_space has_prefix
validates = refl

validate_source_path-IsInside_example :
    IsInside found
    × Any (λ (s : Text). (found ≡ s) ⊎ (has_prefix found (s ++ (slash ∷ [])) ≡ true)) sources
validate_source_path-IsInside_example = validate_source_path-IsInside sources asked found validates

validate_branch_name_iff_example :
    (validate_branch_name (codes "feature/a.lock") ≡ ok tt)
    ↔ IsBranchName (trim_space (codes "feature/a.lock"))
validate_branch_name_iff_example = validate_branch_name_iff (codes "feature/a.lock")
