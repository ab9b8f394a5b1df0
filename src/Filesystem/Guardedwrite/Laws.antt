-- ===== src/Filesystem/Guardedwrite/Laws.antt =====
-- What a guarded replacement leaves at the path.
use kode_stream.Prelude.{
  ℕ, ◌≡◌, ◌≢◌, ◌⊎◌, refl, sym, ap, ◌∙◌, subst, false, not, ◌||◌, Option, none, some, String, Result,
  ok, err, Text, text_eq, nat_eq, inl, inr, of_some,
}
use kode_stream.Filesystem.Guardedwrite.{
  Bytes, Node, Disk, Schedule, restoration_failed, Replaced, Outcome, regular_file, restored,
  restore, rollback_error, replace_existing,
}
use kode_stream.Filesystem.Guardedwrite.Ends.{
  IsOthers, untouched, opened, written, renamed, IsSame, Ended, refused, rolled_back, replaced,
  replace_existing-Ended,
}

module _ (hash : Bytes → Text) (w : Schedule) (content : Bytes) (expected : Text) (max : ℕ) where
  -- What is read at the path, and its permissions.
  abbrev pub view : Disk → Option (ℕ × Bytes)
  view none = none
  view (some f) = some (f.mode, f.content)

  -- No other process writes to the path during the replacement.
  abbrev pub IsQuiet : Type 0
  IsQuiet =
      (d : Disk)
      → (w.before_open d ≡ d)
        × (w.while_writing d ≡ d)
        × (w.before_rename d ≡ d)
        × (w.before_restore d ≡ d)

  others-quiet :
      IsQuiet → (d after : Disk) → IsOthers hash w content expected max d after → after ≡ d
  others-quiet quiet d after (untouched _) = refl
  others-quiet quiet d after (opened _) = (quiet d).0
  others-quiet quiet d after (written _) = (quiet (w.before_open d)).1 ∙ (quiet d).0
  others-quiet quiet d after (renamed _) =
      (quiet (w.while_writing (w.before_open d))).2 ∙ ((quiet (w.before_open d)).1 ∙ (quiet d).0)

  -- How a replacement is described by what can be read at the path behind it.
  abbrev pub IsKept : Disk → Outcome → Type 0
  IsKept d (ok r, after) =
      (initial : Node) × (d ≡ some initial)
      × (hash initial.content ≡ expected)
      × (view after ≡ some (initial.mode, content))
      × (r.hash ≡ hash content)
  IsKept d (err e, after) =
      (view after ≡ view d)
      ⊎ ((initial : Node) × (cause : String) × (failure : String) × (d ≡ some initial)
          × (e ≡ restoration_failed cause failure)
          × (view after ≡ some (initial.mode, content)))

  rolled-IsKept :
      (d x : Disk) (initial now : Node) (cause : String) (first later : Option String)
      → d ≡ some initial
      → d ≡ some now
      → x ≡ some (regular_file w.fresh_id initial.mode content)
      → IsKept d (
        err (
            rollback_error cause
              (restored first later (regular_file w.restored_id initial.mode now.content) x).0),
        (restored first later (regular_file w.restored_id initial.mode now.content) x).1,
      )
  rolled-IsKept d x initial now cause (some e) later at here new =
      inr (initial, cause, e, at, refl, ap view new)
  rolled-IsKept d x initial now cause none (some e) at here new =
      let same : initial ≡ now = of_some (sym at ∙ here) in
      inl (ap (λ (n : Node). some (n.mode, now.content)) same ∙ sym (ap view here))
  rolled-IsKept d x initial now cause none none at here new =
      let same : initial ≡ now = of_some (sym at ∙ here) in
      inl (ap (λ (n : Node). some (n.mode, now.content)) same ∙ sym (ap view here))

  Ended-IsKept :
      IsQuiet → (d : Disk) (o : Outcome) → Ended hash w content expected max d o → IsKept d o
  unfolding restore
  Ended-IsKept quiet d o (refused _ e after others) =
      inl (ap view (others-quiet quiet d after others))
  Ended-IsKept quiet d o (rolled_back _ initial now cause at here) =
      rolled-IsKept d (w.before_restore (some (regular_file w.fresh_id initial.mode content)))
        initial now cause _ _ at (sym (quiet d).0 ∙ here)
        (quiet (some (regular_file w.fresh_id initial.mode content))).3
  Ended-IsKept quiet d o (replaced _ initial now full at here plain same fits still real r c) =
      let known : now ≡ initial = of_some (sym (sym (quiet d).0 ∙ here) ∙ at) in
      (initial, at, ap (λ (n : Node). hash n.content) (sym known) ∙ same, refl, refl)

  -- What a success says, whatever other processes do.
  abbrev pub IsWritten : Disk → Outcome → Type 0
  IsWritten d (ok r, after) =
      (initial : Node) × (now : Node) × (w.before_open d ≡ some now)
      × (hash now.content ≡ expected)
      × (after ≡ some (regular_file w.fresh_id initial.mode content))
  IsWritten d (err e, after) = Unit

  Ended-IsWritten : (d : Disk) (o : Outcome) → Ended hash w content expected max d o → IsWritten d o
  Ended-IsWritten d o (refused _ e after others) = tt
  Ended-IsWritten d o (rolled_back _ initial now cause at here) = tt
  Ended-IsWritten d o (replaced _ initial now full at here plain same fits still real r c) =
      (initial, now, here, same, refl)

  -- If no other process writes to the path, a success means that a file with the expected hash
  -- stood there, and that the new content stands there with its permissions; an error means that
  -- what can be read there is as before, or names a restoration that failed, and then the new
  -- content may stand there too.
  pub replace_existing-IsKept :
      (joined : Result String Text) (d : Disk)
      → IsQuiet
      → IsKept d (replace_existing hash w content expected max joined d)
  replace_existing-IsKept joined d quiet =
      Ended-IsKept quiet d _ (replace_existing-Ended hash w content expected max joined d)

  -- How a replacement ends, whatever other processes do to the path meanwhile. A success: a regular
  -- file was found, the content that was read has the expected hash, the target was still that file
  -- in its directory before the renaming, and the new content stands at the path with the
  -- permissions that the file had. An error: the path is as others made it; or the content that was
  -- read stands there again; or the error names a restoration that failed.
  abbrev pub IsReplaced : Disk → Outcome → Type 0
  IsReplaced d (ok r, after) =
      (initial : Node) × (now : Node) × (real : Text) × (d ≡ some initial)
      × ((not initial.is_regular || initial.is_symlink) ≡ false)
      × (w.before_open d ≡ some now)
      × (hash now.content ≡ expected)
      × IsSame hash w content expected max initial (w.while_writing (w.before_open d))
      × (w.real_directory ≡ ok real)
      × (w.current_directory ≡ ok real)
      × (view after ≡ some (initial.mode, content))
      × (r.hash ≡ hash content)
  IsReplaced d (err e, after) =
      IsOthers hash w content expected max d after
      ⊎ ((initial : Node) × (now : Node) × (d ≡ some initial)
          × (w.before_open d ≡ some now)
          × ((view after ≡ some (initial.mode, now.content))
              ⊎ ((cause : String) × (failure : String) × (e ≡ restoration_failed cause failure)
                  × (after
                      ≡ w.before_restore (some (regular_file w.fresh_id initial.mode content))))))

  rolled-IsReplaced :
      (d : Disk) (initial now : Node) (cause : String) (first later : Option String)
      → d ≡ some initial
      → w.before_open d ≡ some now
      → IsReplaced d (
        err (
            rollback_error cause
              (restored first later
                (regular_file w.restored_id initial.mode now.content)
                (w.before_restore (some (regular_file w.fresh_id initial.mode content)))).0),
        (restored first later
            (regular_file w.restored_id initial.mode now.content)
            (w.before_restore (some (regular_file w.fresh_id initial.mode content)))).1,
      )
  rolled-IsReplaced d initial now cause (some e) later at here =
      inr (initial, now, at, here, inr (cause, e, refl, refl))
  rolled-IsReplaced d initial now cause none (some e) at here =
      inr (initial, now, at, here, inl refl)
  rolled-IsReplaced d initial now cause none none at here = inr (initial, now, at, here, inl refl)

  Ended-IsReplaced :
      (d : Disk) (o : Outcome) → Ended hash w content expected max d o → IsReplaced d o
  unfolding restore
  Ended-IsReplaced d o (refused _ e after others) = inl others
  Ended-IsReplaced d o (rolled_back _ initial now cause at here) =
      rolled-IsReplaced d initial now cause _ _ at here
  Ended-IsReplaced d o (replaced _ initial now full at here plain same fits still real r c) =
      (initial, now, real, at, plain, here, same, still, r, c, refl, refl)

  -- Whatever other processes do to the path: a success means that a regular file was found there,
  -- that the content which was read has the expected hash, that the target was still that file in
  -- its directory when it was looked at again, and that the new content stands there with the
  -- permissions of the file. An error means that the path is as other processes made it, or that
  -- what was read stands there again, or it names a restoration that failed.
  pub replace_existing-IsReplaced :
      (joined : Result String Text) (d : Disk)
      → IsReplaced d (replace_existing hash w content expected max joined d)
  replace_existing-IsReplaced joined d =
      Ended-IsReplaced d _ (replace_existing-Ended hash w content expected max joined d)

-- Of two replacements that expect the same hash the second one fails when the first one, which may
-- have run among writes of other processes, has succeeded with a content of another hash, and no
-- other process writes to the path during the second.
pub replace_existing-once :
    (hash : Bytes → Text) (w v : Schedule) (content later : Bytes) (expected : Text) (max : ℕ)
    (joined : Result String Text) (d after last : Disk) (r s : Replaced)
    → hash content ≢ expected
    → IsQuiet hash v later expected max
    → replace_existing hash w content expected max joined d ≡ (ok r, after)
    → replace_existing hash v later expected max joined after ≢ (ok s, last)
replace_existing-once hash w v content later expected max joined d after last r s fresh quiet first
      second =
    let (initial, now, here, same, new) = subst (IsWritten hash w content expected max d) first (
      Ended-IsWritten hash w content expected max d _
        (replace_existing-Ended hash w content expected max joined d)) in
    let (initial2, now2, here2, same2, new2) =
      subst (IsWritten hash v later expected max after) second (
        Ended-IsWritten hash v later expected max after _
          (replace_existing-Ended hash v later expected max joined after)) in
    let stands : regular_file w.fresh_id initial.mode content ≡ now2 =
      of_some (sym new ∙ (sym (quiet after).0 ∙ here2)) in
    fresh (ap (λ (n : Node). hash n.content) stands ∙ same2)
