-- ===== src/Verification/Artifacts.antt =====
-- The collecting of artifacts in internal/verification/verification_service.go: `collectArtifacts`
-- and `classifyArtifact`.
pub mod Laws
mod Tests
use kode_stream.Prelude.{
  ℕ, suc, ◌+◌, ◌*◌, ◌^◌, ◌%◌, ◌&&◌, Bool, true, false, not, ◌||◌, List, [], ◌∷◌, ◌++◌, Option, none,
  some, String, if◌then◌else◌, Text, codes, text_eq, ◌==◌, ltb, length, text_ltb, contains,
  has_suffix, sort_by,
}
use kode_stream.Filesystem.Paths.{join_path, split_path}

unfoldable pub max_artifact_files : ℕ
max_artifact_files = 256

unfoldable pub max_artifact_bytes : ℕ
max_artifact_bytes = 128 * 2 ^ 20

unfoldable pub max_artifact_depth : ℕ
max_artifact_depth = 12

-- A sum of two numbers of 64 bits, as what its bits say without a sign.
abbrev pub add_int64 : ℕ → ℕ → ℕ
add_int64 a b = (a + b) % 2 ^ 64

-- Whether an `int64` is more than a limit: with the highest bit set it is negative.
abbrev pub exceeds : ℕ → ℕ → Bool
exceeds limit n = ltb limit n && ltb n (2 ^ 63)

-- What stands in a directory, in the order in which `filepath.WalkDir` visits it, the entries of a
-- directory before those that follow it. A file has its size if it is a regular one that can be
-- looked at; a directory has whether an error struck when it was read.
pub data Entries : Type 0 where
  end : Entries
  file : Text → Option ℕ → Entries → Entries
  link : Text → Entries → Entries
  directory : Text → Bool → Entries → Entries → Entries

pub record Artifact : Type 0 where
  pub kind : Text
  pub path : List Text
  pub size_bytes : ℕ

pub data Warning : Type 0 where
  root_unavailable some_unreadable depth_limit retention_limit : Warning

pub record Progress : Type 0 where
  pub artifacts : List Artifact
  pub total : ℕ
  pub warning : Option Warning

-- What the visit of a file answers: `nil`, or `SkipDir`.
pub data Visit : Type 0 where
  go_on : Progress → Visit
  skip_dir : Progress → Visit

abbrev pub warn : Warning → Progress → Progress
warn w s = record s { warning = some w }

abbrev pub last_of : List Text → Text
last_of [] = []
last_of (n ∷ []) = n
last_of (n ∷ m ∷ ns) = last_of (m ∷ ns)

module _ (lower : Text → Text) where
  -- `classifyArtifact`, of the lower-case path and its last name.
  unfoldable pub classify : Text → Text → Text
  classify path name =
      if name == codes "automation.log"
      then codes "automation_log"
      else if name == codes "verify.log"
      then codes "verify_log"
      else if name == codes "runtime.log"
      then codes "runtime_log"
      else if contains path (codes "trace")
      then codes "playwright_trace"
      else if contains path (codes "video")
      then codes "playwright_video"
      else if contains path (codes "screenshot") || has_suffix path (codes ".png")
      then codes "playwright_screenshot"
      else if contains path (codes "report")
      then codes "playwright_report"
      else if contains path (codes "verify")
      then codes "verify_log"
      else codes "runtime_log"

  unfoldable pub classify_artifact : List Text → Text
  classify_artifact path =
      let lowered = lower (join_path path) in classify lowered (last_of (split_path lowered))

  -- The artifact of a file, whose path is the names from the root of the walk.
  abbrev pub artifact_of : List Text → ℕ → Artifact
  artifact_of path size = record { kind = classify_artifact path; path = path; size_bytes = size }

  -- The callback on a file.
  unfoldable pub visit_file : List Text → Option ℕ → Progress → Visit
  visit_file path none s = go_on s
  visit_file path (some size) s =
      if ltb max_artifact_depth (length path)
      then go_on (warn depth_limit s)
      else if not (ltb (length s.artifacts) max_artifact_files)
          || exceeds max_artifact_bytes (add_int64 s.total size)
      then skip_dir (warn retention_limit s)
      else go_on (record s {
        artifacts = s.artifacts ++ (artifact_of path size ∷ []);
        total = add_int64 s.total size;
      })

  -- `SkipDir` on a file leaves out what follows it in its directory.
  abbrev pub continue : Visit → (Progress → Progress) → Progress
  continue (go_on s) rest = rest s
  continue (skip_dir s) rest = s

  -- The callback on a directory whose reading failed.
  abbrev pub read_error : Bool → Progress → Progress
  read_error true s = warn some_unreadable s
  read_error false s = s

  -- `filepath.WalkDir` over the entries of the directory at a path.
  unfoldable pub walk : List Text → Entries → Progress → Progress
  unfolding visit_file
  walk at end s = s
  walk at (file name size rest) s = continue (visit_file (at ++ (name ∷ [])) size s) (walk at rest)
  walk at (link name rest) s = walk at rest s
  walk at (directory name failed below rest) s =
      walk at rest (walk (at ++ (name ∷ [])) below (read_error failed s))

  abbrev pub path_before : Artifact → Artifact → Bool
  path_before a b = text_ltb (join_path a.path) (join_path b.path)

  -- `collectArtifacts`: the root is unavailable, or what the walk finds, a root that is a file being
  -- its only entry.
  unfoldable pub collect_artifacts : Option (Bool × Entries) → List Artifact × Option Warning
  unfolding walk
  collect_artifacts none = ([], some root_unavailable)
  collect_artifacts (some (failed, entries)) =
      let s =
        walk [] entries
          (read_error failed (record { artifacts = []; total = 0; warning = none })) in
      (sort_by path_before s.artifacts, s.warning)
