-- ===== src/Verification/Artifacts/Tests.antt =====
-- A directory with a log, a link and a directory with a picture.
use kode_stream.Prelude.{
  arith, ◌≡◌, ◌≤◌, ◌↔◌, refl, false, [], ◌∷◌, none, some, Text, codes, In, length, contains,
  has_prefix,
}
use kode_stream.Filesystem.Paths.{join_path, split_path}
use kode_stream.Verification.Artifacts.{
  max_artifact_files, max_artifact_bytes, max_artifact_depth, Entries, end, file, link, directory,
  Artifact, classify_artifact, classify, collect_artifacts,
}
use kode_stream.Verification.Artifacts.Laws.{weigh, files, collect-bounded, collect_complete}

abbrev same_case : Text → Text
same_case t = t

abbrev entries : Entries
entries =
    file (codes "verify.log") (some 10)
      (link (codes "x") (directory (codes "out") false (file (codes "a.png") (some 7) end) end))

unwarned_entries : (collect_artifacts same_case (some (false, entries))).1 ≡ none
unfolding collect_artifacts max_artifact_files max_artifact_bytes max_artifact_depth
unwarned_entries = refl

picture :
    classify_artifact same_case (codes "out" ∷ codes "a.png" ∷ []) ≡ codes "playwright_screenshot"
unfolding classify_artifact classify join_path split_path contains has_prefix
picture = refl

collect-bounded_example :
    (length (collect_artifacts same_case (some (false, entries))).0 ≤ max_artifact_files)
    × (weigh (λ a. a.size_bytes) (collect_artifacts same_case (some (false, entries))).0
        ≤ max_artifact_bytes)
    × ((a : Artifact)
        → In a (collect_artifacts same_case (some (false, entries))).0
        → length a.path ≤ max_artifact_depth)
collect-bounded_example =
    collect-bounded same_case (some (false, entries)) (omega arith, ((omega arith, tt), tt))

collect_complete_example :
    (length (collect_artifacts same_case (some (false, entries))).0
      ≡ length (files same_case [] entries))
    × ((a : Artifact)
        → In a (collect_artifacts same_case (some (false, entries))).0
          ↔ In a (files same_case [] entries))
collect_complete_example = collect_complete same_case false entries unwarned_entries

-- The sum of the sizes of two files passes 2^63, and both are collected.
overflow :
    (collect_artifacts same_case
      (some (false, file (codes "a") (some 1) (file (codes "b") (some 9223372036854775807) end)))).1
    ≡ none
unfolding collect_artifacts max_artifact_files max_artifact_bytes max_artifact_depth
overflow = refl
