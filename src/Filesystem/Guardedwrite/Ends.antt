-- ===== src/Filesystem/Guardedwrite/Ends.antt =====
-- How a guarded replacement can end: one walk through all its branches.
use kode_stream.Prelude.{
  ℕ, ◌≤◌, ◌≡◌, refl, ap, subst, true, false, not, ◌||◌, Option, none, some, String, Result, ok, err,
  Text, text_eq, text_beq_iff, nat_eq, ◌==◌, trim_space, ltb, length, arith, inl, inr, Bool-cases,
}
use kode_stream.Filesystem.Guardedwrite.{
  Bytes, Node, Disk, Schedule, WriteError, hash_required, too_large, stale, unsafe_path,
  target_changed, parent_changed, not_exist, step_failed, Outcome, is_empty, regular_file,
  is_changed, is_moved, rollback, confirm, rename_over, publish, write_temporary, prepare, compare,
  read_current, look_up, at_path, replace_existing,
}

not_ltb : (m n : ℕ) → ltb m n ≡ false → n ≤ m
not_ltb m n h = ground arith

module _ (hash : Bytes → Text) (w : Schedule) (content : Bytes) (expected : Text) (max : ℕ) where
  -- What other processes have made of the path.
  pub data IsOthers : Disk → Disk → Type 0 where
    untouched : (d : Disk) → IsOthers d d
    opened : (d : Disk) → IsOthers d (w.before_open d)
    written : (d : Disk) → IsOthers d (w.while_writing (w.before_open d))
    renamed : (d : Disk) → IsOthers d (w.before_rename (w.while_writing (w.before_open d)))

  -- The target is still the file that was found, in the same directory.
  abbrev pub IsSame : Node → Disk → Type 0
  IsSame initial d =
      (seen : Node) × (d ≡ some seen) × (seen.file_id ≡ initial.file_id) × (seen.is_symlink ≡ false)

  is_changed-IsSame :
      (fault : Option String) (initial : Node) (d : Disk)
      → is_changed fault initial d ≡ false
      → IsSame initial d
  is_changed-IsSame (some e) initial d h = cc
  is_changed-IsSame none initial none h = cc
  is_changed-IsSame none initial (some now) h = (now, refl, ground arith, ground arith)

  is_moved-ok : (real : Text) (now : Result String Text) → is_moved real now ≡ false → now ≡ ok real
  is_moved-ok real (err e) h = cc
  is_moved-ok real (ok now) h = elim (Bool-cases (now == real)) [
    | inl t ↦ ap ok ((text_beq_iff now real).0 t)
    | inr f ↦ let bad : true ≡ false = rw f at h in cc
  ]

  -- How a replacement at a path where `d` stands can end.
  pub data Ended : Disk → Outcome → Type 0 where
    refused : (d : Disk) (e : WriteError) (after : Disk) → IsOthers d after → Ended d (err e, after)
    rolled_back :
        (d : Disk) (initial now : Node) (cause : String)
        → d ≡ some initial
        → w.before_open d ≡ some now
        → Ended d (
            rollback hash w content expected max initial now.content cause
              (some (regular_file w.fresh_id initial.mode content)))
    replaced :
        (d : Disk) (initial now : Node) (full : Text)
        → d ≡ some initial
        → w.before_open d ≡ some now
        → (not initial.is_regular || initial.is_symlink) ≡ false
        → hash now.content ≡ expected
        → length now.content ≤ max
        → IsSame initial (w.while_writing (w.before_open d))
        → (real : Text) → w.real_directory ≡ ok real
        → w.current_directory ≡ ok real
        → Ended d (
          ok (record { path = full; hash = hash content; mode = initial.mode }),
          some (regular_file w.fresh_id initial.mode content),
        )

  module _ (d : Disk) (full : Text) (initial now : Node) (at : d ≡ some initial)
      (here : w.before_open d ≡ some now) (same : hash now.content ≡ expected)
      (plain : (not initial.is_regular || initial.is_symlink) ≡ false)
      (fits : length now.content ≤ max) where
    confirm-Ended :
        IsSame initial (w.while_writing (w.before_open d))
        → (real : Text) → w.real_directory ≡ ok real
        → w.current_directory ≡ ok real
        → (fault : Option String)
        → Ended d (
            confirm hash w content expected max full initial now.content fault
              (some (regular_file w.fresh_id initial.mode content)))
    confirm-Ended still real r c (some e) = rolled_back d initial now e at here
    confirm-Ended still real r c none =
        replaced d initial now full at here plain same fits still real r c

    rename_over-Ended :
        IsSame initial (w.while_writing (w.before_open d))
        → (real : Text) → w.real_directory ≡ ok real
        → w.current_directory ≡ ok real
        → (fault : Option String) (x : Disk) → IsOthers d x
        → Ended d (rename_over hash w content expected max full initial now.content fault x)
    rename_over-Ended still real r c (some e) x others = refused d (step_failed e) x others
    rename_over-Ended still real r c none x others = confirm-Ended still real r c _

    publish-Ended :
        (real : Text)
        → w.real_directory ≡ ok real
        → Ended d (
            publish hash w content expected max full initial now.content real
              (w.while_writing (w.before_open d)))
    unfolding publish
    publish-Ended real r =
        let x = w.while_writing (w.before_open d) in
        elim (Bool-cases (is_changed w.lstat_again initial x)) [
          | inl t ↦ rw t (refused d target_changed x (written d))
          | inr f ↦ elim (Bool-cases (is_moved real w.current_directory)) [
            | inl u ↦ rw (f, u) (refused d parent_changed x (written d))
            | inr v ↦
                rw (f, v)
                  (rename_over-Ended (is_changed-IsSame w.lstat_again initial x f) real r
                    (is_moved-ok real w.current_directory v) w.rename (w.before_rename x)
                    (renamed d))
          ]
        ]

    write_temporary-Ended :
        (real : Text) (fault : Option String)
        → w.real_directory ≡ ok real
        → Ended d (
            write_temporary hash w content expected max full initial now.content real fault
              (w.before_open d))
    write_temporary-Ended real (some e) r = refused d (step_failed e) (w.before_open d) (opened d)
    write_temporary-Ended real none r = publish-Ended real r

    prepare-Ended :
        (real : Result String Text)
        → w.real_directory ≡ real
        → Ended d
            (prepare hash w content expected max full initial now.content real (w.before_open d))
    prepare-Ended (err e) r = refused d (step_failed e) (w.before_open d) (opened d)
    prepare-Ended (ok real) r = write_temporary-Ended real _ r

  compare-Ended :
      (d : Disk) (full : Text) (initial now : Node)
      → d ≡ some initial
      → w.before_open d ≡ some now
      → (not initial.is_regular || initial.is_symlink) ≡ false
      → Ended d (compare hash w content expected max full initial now.content (w.before_open d))
  unfolding compare
  compare-Ended d full initial now at here plain =
      elim (Bool-cases (ltb max (length now.content))) [
        | inl t ↦ rw t (refused d too_large (w.before_open d) (opened d))
        | inr f ↦ elim (Bool-cases (hash now.content == expected)) [
          | inl t ↦
              rw (f, t)
                (prepare-Ended d full initial now at here
                  ((text_beq_iff (hash now.content) expected).0 t) plain
                  (not_ltb max (length now.content) f) w.real_directory refl)
          | inr n ↦ rw (f, n) (refused d stale (w.before_open d) (opened d))
        ]
      ]

  read_current-Ended :
      (d : Disk) (full : Text) (initial : Node) (fault : Option String) (x : Disk)
      → d ≡ some initial
      → w.before_open d ≡ x
      → (not initial.is_regular || initial.is_symlink) ≡ false
      → Ended d (read_current hash w content expected max full initial fault x)
  read_current-Ended d full initial fault none at here plain =
      refused d not_exist none (subst (IsOthers d) here (opened d))
  read_current-Ended d full initial (some e) (some now) at here plain =
      refused d (step_failed e) (some now) (subst (IsOthers d) here (opened d))
  read_current-Ended d full initial none (some now) at here plain =
      subst (λ x. Ended d (compare hash w content expected max full initial now.content x)) here
        (compare-Ended d full initial now at here plain)

  look_up-Ended :
      (full : Text) (fault : Option String) (d : Disk)
      → Ended d (look_up hash w content expected max full fault d)
  unfolding look_up
  look_up-Ended full fault none = refused none not_exist none (untouched none)
  look_up-Ended full (some e) (some initial) =
      refused (some initial) (step_failed e) (some initial) (untouched (some initial))
  look_up-Ended full none (some initial) =
      elim (Bool-cases (not initial.is_regular || initial.is_symlink)) [
        | inl t ↦
            rw t (refused (some initial) unsafe_path (some initial) (untouched (some initial)))
        | inr f ↦ elim (Bool-cases (ltb max (length initial.content))) [
          | inl u ↦
              rw (f, u) (refused (some initial) too_large (some initial) (untouched (some initial)))
          | inr v ↦
              rw (f, v)
                (read_current-Ended (some initial) full initial _ (w.before_open (some initial))
                  refl refl f)
        ]
      ]

  at_path-Ended :
      (joined : Result String Text) (d : Disk)
      → Ended d (at_path hash w content expected max joined d)
  at_path-Ended (err e) d = refused d (step_failed e) d (untouched d)
  at_path-Ended (ok full) d = look_up-Ended full w.lstat d

  pub replace_existing-Ended :
      (joined : Result String Text) (d : Disk)
      → Ended d (replace_existing hash w content expected max joined d)
  unfolding replace_existing
  replace_existing-Ended joined d = elim (Bool-cases (is_empty (trim_space expected))) [
    | inl t ↦ rw t (refused d hash_required d (untouched d))
    | inr f ↦ elim (Bool-cases (ltb max (length content))) [
      | inl u ↦ rw (f, u) (refused d too_large d (untouched d))
      | inr v ↦ rw (f, v) (at_path-Ended joined d)
    ]
  ]
