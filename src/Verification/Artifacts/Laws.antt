-- ===== src/Verification/Artifacts/Laws.antt =====
-- What the collecting of artifacts collects.
use kode_stream.Prelude.{
  ℕ, suc, ◌+◌, ◌^◌, ◌≤◌, ◌<◌, ◌≡◌, refl, sym, ap, ◌∙◌, subst, Bool, true, false, not, ◌||◌, List,
  [], ◌∷◌, ◌++◌, append_assoc, append-nil, Option, none, some, Text, ltb, length, length-append,
  All, All-append, All-at, ◌↔◌, In, arith, inl, inr, Bool-cases, sort_by, insert_by, In-sort_by,
  length-sort_by, sort_by-In,
}
use kode_stream.Verification.Artifacts.{
  add_int64, exceeds, max_artifact_files, max_artifact_bytes, max_artifact_depth, Entries, end,
  file, link, directory, Artifact, depth_limit, some_unreadable, Progress, warn, artifact_of,
  visit_file, read_error, walk, path_before, collect_artifacts,
}

not_ltb : (m n : ℕ) → ltb m n ≡ false → n ≤ m
not_ltb m n h = ground arith

add_int64-small :
    (total size : ℕ)
    → total ≤ max_artifact_bytes
    → size < 2 ^ 62
    → (add_int64 total size ≡ total + size) × (ltb (total + size) (2 ^ 63) ≡ true)
unfolding max_artifact_bytes
add_int64-small total size few small = (omega (arith, few, small), ground arith)

-- Neither limit is reached.
below :
    (count total size : ℕ)
    → total ≤ max_artifact_bytes
    → size < 2 ^ 62
    → (not (ltb count max_artifact_files) || exceeds max_artifact_bytes (add_int64 total size))
      ≡ false
    → (suc count ≤ max_artifact_files)
      × (add_int64 total size ≡ total + size)
      × (total + size ≤ max_artifact_bytes)
below count total size few small h =
    let (sum, positive) = add_int64-small total size few small in
    elim (Bool-cases (ltb count max_artifact_files)) [
      | inr f ↦ let bad : true ≡ false = rw f at h in cc
      | inl t ↦ elim (Bool-cases (ltb max_artifact_bytes (total + size))) [
        | inl over ↦ let bad = rw (t, sum, over, positive) at h in cc
        | inr room ↦ (ground arith, sum, not_ltb max_artifact_bytes (total + size) room)
      ]
    ]

-- The sum of a number of each artifact.
abbrev pub weigh : (Artifact → ℕ) → List Artifact → ℕ
weigh f [] = 0
weigh f (a ∷ xs) = f a + weigh f xs

weigh-append :
    (f : Artifact → ℕ) (xs ys : List Artifact) → weigh f (xs ++ ys) ≡ weigh f xs + weigh f ys
weigh-append f [] ys = omega arith
weigh-append f (a ∷ xs) ys = omega (arith, weigh-append f xs ys)

weigh-insert_by :
    (f : Artifact → ℕ) (less : Artifact → Artifact → Bool) (a : Artifact) (xs : List Artifact)
    → weigh f (insert_by less a xs) ≡ f a + weigh f xs
unfolding insert_by
weigh-insert_by f less a [] = refl
weigh-insert_by f less a (b ∷ xs) = elim (Bool-cases (less b a)) [
  | inl t ↦ rw t (omega (arith, weigh-insert_by f less a xs))
  | inr n ↦ rw n refl
]

weigh-sort_by :
    (f : Artifact → ℕ) (less : Artifact → Artifact → Bool) (xs : List Artifact)
    → weigh f (sort_by less xs) ≡ weigh f xs
unfolding sort_by
weigh-sort_by f less [] = refl
weigh-sort_by f less (a ∷ xs) =
    weigh-insert_by f less a (sort_by less xs) ∙ ap (λ n. f a + n) (weigh-sort_by f less xs)

-- Every file below a path has less than 2^62 bytes.
abbrev pub AreSmall : Entries → Type 0
AreSmall end = Unit
AreSmall (file name none rest) = AreSmall rest
AreSmall (file name (some size) rest) = (size < 2 ^ 62) × AreSmall rest
AreSmall (link name rest) = AreSmall rest
AreSmall (directory name failed below rest) = AreSmall below × AreSmall rest

abbrev pub IsSmallRoot : Option (Bool × Entries) → Type 0
IsSmallRoot none = Unit
IsSmallRoot (some (failed, entries)) = AreSmall entries

module _ (lower : Text → Text) where
  -- Every regular file below a path.
  abbrev pub files : List Text → Entries → List Artifact
  files at end = []
  files at (file name none rest) = files at rest
  files at (file name (some size) rest) = artifact_of lower (at ++ (name ∷ [])) size ∷ files at rest
  files at (link name rest) = files at rest
  files at (directory name failed below rest) = files (at ++ (name ∷ [])) below ++ files at rest

  -- The artifacts are within the limits.
  abbrev pub IsWithin : Progress → Type 0
  IsWithin s =
      (length s.artifacts ≤ max_artifact_files)
      × (weigh (λ a. a.size_bytes) s.artifacts ≡ s.total)
      × (s.total ≤ max_artifact_bytes)
      × All (λ (a : Artifact). length a.path ≤ max_artifact_depth) s.artifacts

  unwarned :
      (failed : Bool) (s : Progress)
      → (read_error lower failed s).warning ≡ none
      → read_error lower failed s ≡ s
  unwarned true s h = cc
  unwarned false s h = refl

  walk_complete :
      (at : List Text) (es : Entries) (s : Progress)
      → (walk lower at es s).warning ≡ none
      → (s.warning ≡ none) × ((walk lower at es s).artifacts ≡ s.artifacts ++ files at es)
  unfolding walk visit_file
  walk_complete at end s h = (h, sym (append-nil s.artifacts))
  walk_complete at (link name rest) s h = walk_complete at rest s h
  walk_complete at (file name none rest) s h = walk_complete at rest s h
  walk_complete at (file name (some size) rest) s h =
      elim (Bool-cases (ltb max_artifact_depth (length (at ++ (name ∷ []))))) [
        | inl t ↦ let (bad, _) = walk_complete at rest (warn depth_limit s) (rw t at h) in cc
        | inr f ↦
            elim (Bool-cases (
              not (ltb (length s.artifacts) max_artifact_files)
              || exceeds max_artifact_bytes (add_int64 s.total size))) [
                | inl u ↦ let bad = rw (f, u) at h in cc
                | inr v ↦
                    let (fine, all) = walk_complete at rest _ (rw (f, v) at h) in
                    rw (f, v)
                      (
                        fine,
                        all
                            ∙ append_assoc s.artifacts
                                (artifact_of lower (at ++ (name ∷ [])) size ∷ []) (files at rest),
                      )
              ]
      ]
  walk_complete at (directory name failed below rest) s h =
      let (inner, later) = walk_complete at rest _ h in
      let (first, here) =
        walk_complete (at ++ (name ∷ [])) below (read_error lower failed s) inner in
      let same = unwarned failed s first in
      (
        subst (λ (r : Progress). r.warning ≡ none) same first,
        later
            ∙ (ap (λ xs. xs ++ files at rest)
                  (here
                    ∙ ap (λ (r : Progress). r.artifacts ++ files (at ++ (name ∷ [])) below) same)
                ∙ append_assoc s.artifacts (files (at ++ (name ∷ [])) below) (files at rest)),
      )

  added-IsWithin :
      (path : List Text) (size : ℕ) (s : Progress)
      → size < 2 ^ 62
      → IsWithin s
      → ltb max_artifact_depth (length path) ≡ false
      → (not (ltb (length s.artifacts) max_artifact_files)
          || exceeds max_artifact_bytes (add_int64 s.total size))
        ≡ false
      → IsWithin (record s {
        artifacts = s.artifacts ++ (artifact_of lower path size ∷ []);
        total = add_int64 s.total size;
      })
  unfolding max_artifact_files max_artifact_bytes max_artifact_depth
  added-IsWithin path size s tiny (few, sum, small, shallow) near room =
      let one = artifact_of lower path size ∷ [] in
      let count = length-append s.artifacts one in
      let weight = weigh-append (λ a. a.size_bytes) s.artifacts one in
      let (free, added, fits) = below (length s.artifacts) s.total size small tiny room in
      (
        omega (arith, count, free),
        omega (arith, weight, sum, added),
        omega (arith, added, fits),
        All-append (λ (a : Artifact). length a.path ≤ max_artifact_depth) s.artifacts one shallow
            (not_ltb max_artifact_depth (length path) near, tt),
      )

  walk-IsWithin :
      (at : List Text) (es : Entries) (s : Progress)
      → AreSmall es
      → IsWithin s
      → IsWithin (walk lower at es s)
  unfolding walk visit_file
  walk-IsWithin at end s small h = h
  walk-IsWithin at (link name rest) s small h = walk-IsWithin at rest s small h
  walk-IsWithin at (file name none rest) s small h = walk-IsWithin at rest s small h
  walk-IsWithin at (file name (some size) rest) s (tiny, small) h =
      elim (Bool-cases (ltb max_artifact_depth (length (at ++ (name ∷ []))))) [
        | inl t ↦ rw t (walk-IsWithin at rest (warn depth_limit s) small h)
        | inr f ↦
            elim (Bool-cases (
              not (ltb (length s.artifacts) max_artifact_files)
              || exceeds max_artifact_bytes (add_int64 s.total size))) [
                | inl u ↦ rw (f, u) h
                | inr v ↦
                    rw (f, v)
                      (walk-IsWithin at rest _ small
                        (added-IsWithin (at ++ (name ∷ [])) size s tiny h f v))
              ]
      ]
  walk-IsWithin at (directory name true below rest) s (inner, small) h =
      walk-IsWithin at rest _ small
        (walk-IsWithin (at ++ (name ∷ [])) below (warn some_unreadable s) inner h)
  walk-IsWithin at (directory name false below rest) s (inner, small) h =
      walk-IsWithin at rest _ small (walk-IsWithin (at ++ (name ∷ [])) below s inner h)

  begin : Progress
  begin = record { artifacts = []; total = 0; warning = none }

  begin-IsWithin : (failed : Bool) → IsWithin (read_error lower failed begin)
  unfolding begin max_artifact_files max_artifact_bytes
  begin-IsWithin true = (omega arith, refl, omega arith, tt)
  begin-IsWithin false = (omega arith, refl, omega arith, tt)

  -- Whatever files of less than 2^62 bytes stand below the root, at most 256 artifacts are
  -- collected, of 128 MiB together, and each at most 12 names below the root.
  pub collect-bounded :
      (root : Option (Bool × Entries))
      → IsSmallRoot root
      → (length (collect_artifacts lower root).0 ≤ max_artifact_files)
        × (weigh (λ a. a.size_bytes) (collect_artifacts lower root).0 ≤ max_artifact_bytes)
        × ((a : Artifact)
            → In a (collect_artifacts lower root).0
            → length a.path ≤ max_artifact_depth)
  unfolding collect_artifacts begin max_artifact_files max_artifact_bytes
  collect-bounded none little = (omega arith, omega arith, λ a m. absurd m)
  collect-bounded (some (failed, entries)) little =
      let s = walk lower [] entries (read_error lower failed begin) in
      let (few, sum, small, shallow) = walk-IsWithin [] entries _ little (begin-IsWithin failed) in
      (
        omega (arith, few, length-sort_by (path_before lower) s.artifacts),
        omega
            (arith, sum, small, weigh-sort_by (λ a. a.size_bytes) (path_before lower) s.artifacts),
        λ a m.
            All-at (λ (b : Artifact). length b.path ≤ max_artifact_depth) s.artifacts a shallow
              (In-sort_by (path_before lower) a s.artifacts m),
      )

  -- When the collecting ends without a warning the artifacts are, in some order, the regular files
  -- below the root whose size could be asked for, each once.
  pub collect_complete :
      (failed : Bool) (entries : Entries)
      → (collect_artifacts lower (some (failed, entries))).1 ≡ none
      → (length (collect_artifacts lower (some (failed, entries))).0 ≡ length (files [] entries))
        × ((a : Artifact)
            → In a (collect_artifacts lower (some (failed, entries))).0 ↔ In a (files [] entries))
  unfolding collect_artifacts begin
  collect_complete true entries h =
      let (bad, all) = walk_complete [] entries (read_error lower true begin) h in cc
  collect_complete false entries h =
      let s = walk lower [] entries begin in
      let (fine, all) = walk_complete [] entries begin h in
      (
        length-sort_by (path_before lower) s.artifacts ∙ ap length all,
        λ a. (
          λ m. subst (In a) all (In-sort_by (path_before lower) a s.artifacts m),
          λ m. sort_by-In (path_before lower) a s.artifacts (subst (In a) (sym all) m),
        ),
      )
