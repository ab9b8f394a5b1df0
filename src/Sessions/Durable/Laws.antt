-- ===== src/Sessions/Durable/Laws.antt =====
-- What is left at the path behind a publication.
use kode_stream.Prelude.{
  ◌≤◌, ◌<◌, ◌⊎◌, ltb, ◌≡◌, ◌≢◌, refl, true, false, [], ◌∷◌, Option, none, some, String, Result, ok,
  err, length, arith, inl, inr, Bool-cases, Option-cases, ap, subst, sym,
}
use kode_stream.Sessions.Durable.{
  Bytes, StoredFile, Disk, max_ai_yaml_bytes, ReadError, not_exist, unreadable, read_bounded_file,
  Faults, RestoreFaults, PublishError, not_published, rolled_back, rollback_failed, first_error,
  roll_back, rename_over, writing, restore_durable_file, kept_mode, publish_over,
  publish_durable_file, rollback_error, replace_unless,
}

abbrev pub content_of : Disk → Option Bytes
content_of none = none
content_of (some f) = some f.content

-- How a publication of `fresh` over `old` may end.
abbrev pub IsPublished : StoredFile → Disk → Option PublishError × Disk → Type 0
IsPublished fresh old (none, after) = after ≡ some fresh
IsPublished fresh old (some (not_published e), after) = after ≡ old
IsPublished fresh old (some (rolled_back e), after) = after ≡ old
IsPublished fresh old (some (rollback_failed c e), after) = (after ≡ old) ⊎ (after ≡ some fresh)

-- What is read back is the content, if it is within the limit.
pub read-content :
    (d : Disk) (content : Bytes)
    → content_of d ≡ some content
    → length content ≤ max_ai_yaml_bytes
    → read_bounded_file none d ≡ ok content
unfolding read_bounded_file
read-content none content h le = cc
read-content (some f) content h le =
    let e : f.content ≡ content = cc in
    let fits : ltb max_ai_yaml_bytes (length content) ≡ false = ground arith in rw (e, fits) refl

pub read-content_of :
    (fault : Option String) (d : Disk) (content : Bytes)
    → read_bounded_file fault d ≡ ok content
    → content_of d ≡ some content
unfolding read_bounded_file
read-content_of fault none content h = cc
read-content_of (some e) (some f) content h = cc
read-content_of none (some f) content h =
    elim (Bool-cases (ltb max_ai_yaml_bytes (length f.content))) [
      | inl t ↦ let impossible = rw t at h in cc
      | inr n ↦ let same = rw n at h in cc
    ]

pub read-not_exist :
    (fault : Option String) (d : Disk) → read_bounded_file fault d ≡ err not_exist → d ≡ none
unfolding read_bounded_file
read-not_exist fault none h = refl
read-not_exist (some e) (some f) h = cc
read-not_exist none (some f) h = elim (Bool-cases (ltb max_ai_yaml_bytes (length f.content))) [
  | inl t ↦ let impossible = rw t at h in cc
  | inr n ↦ let same = rw n at h in cc
]

-- A reading that meets no error reads what is there.
pub read-quiet :
    (fault : Option String) (d : Disk) (content : Bytes)
    → read_bounded_file fault d ≡ ok content
    → read_bounded_file none d ≡ ok content
unfolding read_bounded_file
read-quiet fault none content h = cc
read-quiet (some e) (some f) content h = cc
read-quiet none (some f) content h = h

restored-IsPublished :
    (fresh previous : StoredFile) (cause : String) (first later : Option String)
    → IsPublished fresh (some previous) (
      some (rollback_error cause (replace_unless first previous later (some fresh)).0),
      (replace_unless first previous later (some fresh)).1,
    )
restored-IsPublished fresh previous cause (some e) later = inr refl
restored-IsPublished fresh previous cause none (some e) = inl refl
restored-IsPublished fresh previous cause none none = refl

roll_back-IsPublished :
    (w : Faults) (fresh : StoredFile) (old : Disk) (cause : String)
    → IsPublished fresh old
        (some (roll_back w cause old (some fresh)).0, (roll_back w cause old (some fresh)).1)
unfolding roll_back restore_durable_file
roll_back-IsPublished w fresh (some previous) cause =
    restored-IsPublished fresh previous cause
      (first_error (
        w.restore.create_temp ∷ w.restore.chmod ∷ w.restore.write ∷ w.restore.sync ∷ w.restore.close
        ∷ w.restore.rename ∷ []))
      (first_error (w.restore.open_directory ∷ w.restore.sync_directory ∷ []))
roll_back-IsPublished w fresh none cause = elim (Option-cases w.remove) [
  | inr (e, h) ↦ rw h (inr refl)
  | inl h ↦ elim (Option-cases w.sync_removal) [
    | inl n ↦ rw (h, n) refl
    | inr (e, n) ↦ rw (h, n) (inl refl)
  ]
]

rename_over-IsPublished :
    (w : Faults) (fresh : StoredFile) (old : Disk) (failed syncing : Option String)
    → IsPublished fresh old (rename_over w fresh old failed syncing old)
unfolding rename_over
rename_over-IsPublished w fresh old (some e) syncing = refl
rename_over-IsPublished w fresh old none none = refl
rename_over-IsPublished w fresh old none (some e) = roll_back-IsPublished w fresh old e

-- The file that a publication writes.
abbrev pub fresh_file : Bytes → Disk → StoredFile
fresh_file content old = record { content = content; mode = kept_mode false old }

publish_over-IsPublished :
    (w : Faults) (content : Bytes) (old : Disk) (read : Result ReadError Bytes)
    → w.stat_fails ≡ false
    → read_bounded_file w.read_previous old ≡ read
    → IsPublished (fresh_file content old) old (publish_over w content old read)
publish_over-IsPublished w content none (ok previous) stat r =
    let impossible = read-content_of w.read_previous none previous r in cc
publish_over-IsPublished w content (some f) (ok previous) stat r =
    let same : previous ≡ f.content =
      let h = read-content_of w.read_previous (some f) previous r in cc in
    simp (stat, same)
      (rename_over-IsPublished w (record f { content = content }) (some f) (writing w)
        w.sync_directory)
publish_over-IsPublished w content none (err not_exist) stat r =
    rename_over-IsPublished w _ none (writing w) w.sync_directory
publish_over-IsPublished w content (some f) (err not_exist) stat r =
    let impossible = read-not_exist w.read_previous (some f) r in cc
publish_over-IsPublished w content old (err (unreadable e)) stat r = refl

-- A publication that can ask for the mode of the file never leaves a torn file. If it reports no
-- error, the new content is there, with the mode of the file before or 0600; if it reports one, what
-- was there is as it was, its absence included; and if it reports that the rollback failed too, it
-- is one of these two.
pub publish-IsPublished :
    (w : Faults) (content : Bytes) (old : Disk)
    → w.stat_fails ≡ false
    → IsPublished (fresh_file content old) old (publish_durable_file w content old)
unfolding publish_durable_file
publish-IsPublished w content old stat = elim (Option-cases w.make_directory) [
  | inr (e, h) ↦ rw h refl
  | inl h ↦
      subst
        (λ o. IsPublished (fresh_file content old) old (elim o [
          | some e ↦ (some (not_published e), old)
          | none ↦ publish_over w content old (read_bounded_file w.read_previous old)
        ]))
        (sym h) (publish_over-IsPublished w content old _ stat refl)
]

rename_over-none :
    (w : Faults) (fresh : StoredFile) (previous : Disk) (failed syncing : Option String)
    (old after : Disk)
    → rename_over w fresh previous failed syncing old ≡ (none, after)
    → after ≡ some fresh
unfolding rename_over
rename_over-none w fresh previous (some e) syncing old after h = cc
rename_over-none w fresh previous none none old after h = cc
rename_over-none w fresh previous none (some e) old after h = cc

publish_over-none :
    (w : Faults) (content : Bytes) (old after : Disk) (read : Result ReadError Bytes)
    → publish_over w content old read ≡ (none, after)
    → content_of after ≡ some content
publish_over-none w content old after (ok previous) h =
    ap content_of (rename_over-none w _ _ (writing w) w.sync_directory old after h)
publish_over-none w content old after (err not_exist) h =
    ap content_of (rename_over-none w _ _ (writing w) w.sync_directory old after h)
publish_over-none w content old after (err (unreadable e)) h = cc

pub published-content :
    (w : Faults) (content : Bytes) (old after : Disk)
    → publish_durable_file w content old ≡ (none, after)
    → content_of after ≡ some content
unfolding publish_durable_file
published-content w content old after h = elim (Option-cases w.make_directory) [
  | inr (e, m) ↦ let bad = rw m at h in cc
  | inl m ↦ publish_over-none w content old after _ (rw m at h)
]

pub read-oversized :
    (reading : Option String) (d : Disk) (content : Bytes)
    → content_of d ≡ some content
    → max_ai_yaml_bytes < length content
    → (e : String) × (read_bounded_file reading d ≡ err (unreadable e))
unfolding read_bounded_file
read-oversized reading none content h big = cc
read-oversized (some e) (some f) content h big = (e, refl)
read-oversized none (some f) content h big =
    let same : f.content ≡ content = cc in
    let over : ltb max_ai_yaml_bytes (length content) ≡ true = ground arith in
    ("AI persistence file exceeds the byte limit", rw (same, over) refl)

-- What a publication of more than the limit leaves cannot be read, and every later publication
-- reports an error and leaves it.
oversized-kept :
    (w : Faults) (content : Bytes) (old after : Disk)
    → publish_durable_file w content old ≡ (none, after)
    → max_ai_yaml_bytes < length content
    → (later : Faults) (next : Bytes)
    → (e : String) × (read_bounded_file later.read_previous after ≡ err (unreadable e))
      × ((f : String) × (publish_durable_file later next after ≡ (some (not_published f), after)))
unfolding publish_durable_file
oversized-kept w content old after done big later next =
    let (e, r) =
      read-oversized later.read_previous after content (published-content w content old after done)
        big in
    (
      e,
      r,
      elim (Option-cases later.make_directory) [
        | inr (f, m) ↦ (f, rw m refl)
        | inl m ↦ (e, rw (m, r) refl)
      ],
    )

-- No step fails.
abbrev pub faultless_restore : RestoreFaults
faultless_restore = record {
  create_temp = none;
  chmod = none;
  write = none;
  sync = none;
  close = none;
  rename = none;
  open_directory = none;
  sync_directory = none;
}

abbrev pub faultless : Faults
faultless = record {
  make_directory = none;
  read_previous = none;
  stat_fails = false;
  create_temp = none;
  before_write = none;
  chmod = none;
  write = none;
  before_sync = none;
  sync = none;
  before_close = none;
  close = none;
  before_rename = none;
  rename = none;
  sync_directory = none;
  restore = faultless_restore;
  remove = none;
  sync_removal = none;
}

publish-faultless :
    (content : Bytes) (old : Disk)
    → ((e : String) → read_bounded_file none old ≢ err (unreadable e))
    → publish_durable_file faultless content old ≡ (none, some (fresh_file content old))
unfolding publish_durable_file rename_over read_bounded_file
publish-faultless content none fine = refl
publish-faultless content (some f) fine =
    elim (Bool-cases (ltb max_ai_yaml_bytes (length f.content))) [
      | inl t ↦ absurd (fine "AI persistence file exceeds the byte limit" (rw t refl))
      | inr n ↦ rw n refl
    ]

-- Where no step fails and the file that is there can be read, a publication of more than the limit
-- succeeds; what it leaves cannot be read, and every later publication, whatever it would write and
-- however the file system answers it, reports an error and leaves it.
pub publish-oversized :
    (content : Bytes) (old : Disk)
    → ((e : String) → read_bounded_file none old ≢ err (unreadable e))
    → max_ai_yaml_bytes < length content
    → (later : Faults) (next : Bytes)
    → (publish_durable_file faultless content old ≡ (none, some (fresh_file content old)))
      × ((e : String) × (read_bounded_file later.read_previous (some (fresh_file content old))
            ≡ err (unreadable e))
          × ((f : String) × (publish_durable_file later next (some (fresh_file content old))
                ≡ (some (not_published f), some (fresh_file content old)))))
publish-oversized content old fine big later next =
    let done = publish-faultless content old fine in
    (done, oversized-kept faultless content old (some (fresh_file content old)) done big later next)
