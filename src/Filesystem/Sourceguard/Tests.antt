-- ===== src/Filesystem/Sourceguard/Tests.antt =====
-- Two sources side by side, and one inside another.
use kode_stream.Prelude.{
  ◌≡◌, refl, List, [], ◌∷◌, Option, none, some, ok, err, Text, codes, In, length, ◌==◌, text_eq,
  if◌then◌else◌, has_prefix, trim_space, trim_left, is_space, sort_by,
}
use kode_stream.Filesystem.Paths.{clean, split_path, join_path, push_all}
use kode_stream.Filesystem.Sourceguard.{Source, overlap, contained, resolve_source, resolve_all}
use kode_stream.Filesystem.Sourceguard.Laws.{
  IsInside, ArePairwiseApart, resolve_all-ArePairwiseApart,
}

abbrev same_case : Text → Text
same_case t = t

abbrev real : Text → Option Text
real name =
    if name == codes "docs"
    then some (codes "/w/docs")
    else if name == codes "old"
    then some (codes "/w/docs/old")
    else if name == codes "plans"
    then some (codes "/w/plans")
    else none

abbrev two : List Source
two =
    record { relative = codes "docs"; real_path = codes "/w/docs" }
    ∷ record { relative = codes "plans"; real_path = codes "/w/plans" }
    ∷ []

accepted :
    resolve_all same_case real (some (codes "/w")) (codes "plans" ∷ codes " docs/" ∷ []) ≡ ok two
unfolding resolve_all resolve_source contained clean split_path join_path push_all trim_space
    trim_left is_space has_prefix sort_by
accepted = refl

refused :
    resolve_all same_case real (some (codes "/w")) (codes "old" ∷ codes "docs" ∷ [])
    ≡ err (overlap (codes "docs") (codes "old"))
unfolding resolve_all resolve_source contained clean split_path join_path push_all trim_space
    trim_left is_space has_prefix sort_by
refused = refl

resolve_all-ArePairwiseApart_example :
    (length two ≡ 2)
    × ((s : Source) → In s two → IsInside same_case (codes "/w") real s)
    × ArePairwiseApart same_case (codes "/w") real two
resolve_all-ArePairwiseApart_example =
    resolve_all-ArePairwiseApart same_case (codes "/w") real (codes "plans" ∷ codes " docs/" ∷ [])
      two accepted
