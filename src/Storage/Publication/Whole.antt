-- ===== src/Storage/Publication/Whole.antt =====
-- A publication takes place as a whole or not at all.
use kode_stream.Prelude.{
  ◌≡◌, ◌≢◌, ◌⊎◌, refl, sym, ap, ◌∙◌, subst, inl, inr, Bool, true, not, ◌&&◌, List, [], ◌∷◌, Option,
  none, some, Option-cases, String, ok, ok-injective, Result-cases, >>=-eq-ok, Map, empty_map, ◌==◌,
  all, In, arith,
}
use kode_stream.Storage.{
  StoreFile, file_eq, file_beq_iff, Disk, published, backed_up, registry_file, plan_index,
  audit_log, saved_filters, recent_items, ai_settings, canvases, session_records, knowledge_index,
}
use kode_stream.Storage.Publication.{
  Faults, copy_content, copy_step, copy_all, back_up, publish_step, roll_back, publish_result,
  publish_from, publish,
}
use kode_stream.Storage.Publication.Laws.{
  IsGiven, file-cases, put-IsGiven, publish_step-IsMoved, publish_from-rolled_back,
}

all-In :
    (p : StoreFile → Bool) (fs : List StoreFile) (k : StoreFile)
    → all p fs ≡ true
    → In k fs
    → p k ≡ true
all-In p (f ∷ fs) k h (inl e) = subst (λ (x : StoreFile). p x ≡ true) e (ground arith)
all-In p (f ∷ fs) k h (inr m) = all-In p fs k (ground arith) m
all-In p [] k h m = absurd m

abbrev distinct : List StoreFile → Bool
distinct [] = true
distinct (f ∷ fs) = all (λ g. not (f == g)) fs && distinct fs

distinct-ne :
    (f : StoreFile) (fs : List StoreFile) (k : StoreFile)
    → distinct (f ∷ fs) ≡ true
    → In k fs
    → f ≢ k
distinct-ne f fs k h m e =
    clash (all-In (λ g. not (f == g)) fs k (ground arith) m) ((file_beq_iff f k).1 e)
  where
    clash : {b : Bool} → not b ≡ true → b ≡ true → ⊥
    clash p q = ground arith

-- A file that has its staged content, which was there.
abbrev IsPublished : Map StoreFile String → Disk → StoreFile → Type 0
IsPublished staged d g = (c : String) × (staged g ≡ some c) × (d.target g ≡ some c)

publish_from-whole :
    (faults : Faults) (staged : Map StoreFile String) (fs : List StoreFile) (d : Disk)
    (g : StoreFile)
    → distinct fs ≡ true
    → ((f : StoreFile) → In f fs → d.stage f ≡ staged f)
    → (publish_from faults fs d).0 ≡ []
    → In g fs ⊎ IsPublished staged d g
    → IsPublished staged (publish_from faults fs d).1 g
unfolding publish_from publish_result roll_back
publish_from-whole faults staged [] d g apart same h (inr p) = p
publish_from-whole faults staged [] d g apart same h (inl m) = absurd m
publish_from-whole faults staged (f ∷ fs) d g apart same h inside =
    elim (Result-cases (publish_step f (faults.before_publish f) (faults.renaming f) d)) [
      | inr (x, failed) ↦ absurd (clash (rw failed at h))
      | inl (e, moved) ↦
          let step = publish_step-IsMoved f _ _ d e moved in
          rw moved (
            publish_from-whole faults staged fs e g (ground arith)
              (λ k i. step.rest.elsewhere k (distinct-ne f fs k apart i) ∙ same k (inr i))
              (rw moved at h)
              (next e step.content (sym (same f (inl refl)) ∙ step.staged) step.target))
    ]
  where
    clash : {y : String} {ys : List String} → y ∷ ys ≡ [] → ⊥
    clash q = cc

    next :
        (e : Disk) (c : String)
        → staged f ≡ some c
        → IsGiven f (some c) d.target e.target
        → In g fs ⊎ IsPublished staged e g
    next e c there set = elim (file-cases f g) [
      | inl eq ↦ inr (
        c,
        subst (λ (x : StoreFile). staged x ≡ some c) eq there,
        subst (λ (x : StoreFile). e.target x ≡ some c) eq set.here,
      )
      | inr ne ↦ elim inside [
        | inl (inl eq) ↦ absurd (ne eq)
        | inl (inr i) ↦ inl i
        | inr (k, was, at_g) ↦ inr (k, was, set.elsewhere g ne ∙ at_g)
      ]
    ]

-- If a publication reports no error, every file of the store has its staged content.
pub publish-whole :
    (faults : Faults) (d : Disk) (g : StoreFile)
    → In g published
    → (publish faults d).0 ≡ []
    → (content : String) × (d.stage g ≡ some content)
      × ((publish faults d).1.target g ≡ some content)
unfolding publish
publish-whole faults d g inside done =
    publish_from-whole faults d.stage published d g refl (λ f m. refl) done (inl inside)

-- One file is copied to the backup, if it is there.
record IsCopied (f : StoreFile) (d e : Disk) : Type 0 where
  same_target : e.target ≡ d.target
  same_stage : e.stage ≡ d.stage
  here : (d.backup f ≡ none) ⊎ (d.backup f ≡ d.target f) → e.backup f ≡ d.target f
  elsewhere : (g : StoreFile) → f ≢ g → e.backup g ≡ d.backup g

copy_step-IsCopied :
    (f : StoreFile) (x : Option String) (d e : Disk) → copy_step f x d ≡ ok e → IsCopied f d e
unfolding copy_step copy_content
copy_step-IsCopied f none d e h = elim (Option-cases (d.target f)) [
  | inl missing ↦
      subst (λ (y : Disk). IsCopied f d y) (ok-injective (rw missing at h))
        (record {
          same_target = refl;
          same_stage = refl;
          here = λ p. elim p [ inl q ↦ q ∙ sym missing | inr q ↦ q ];
          elsewhere = λ g ne. refl;
        })
  | inr (c, there) ↦
      let set = put-IsGiven f c d.backup in
      subst (λ (y : Disk). IsCopied f d y) (ok-injective (rw there at h))
        (record {
          same_target = refl;
          same_stage = refl;
          here = λ p. set.here ∙ sym there;
          elsewhere = set.elsewhere;
        })
]
copy_step-IsCopied f (some m) d e h = cc

copy_all-same :
    (faults : Faults) (fs : List StoreFile) (d e : Disk)
    → copy_all faults fs d ≡ ok e
    → (e.target ≡ d.target) × (e.stage ≡ d.stage)
unfolding copy_all
copy_all-same faults [] d e h = (
  ap (λ (y : Disk). y.target) (sym (ok-injective h)),
  ap (λ (y : Disk). y.stage) (sym (ok-injective h)),
)
copy_all-same faults (f ∷ fs) d e h =
    let (next, first, later) = >>=-eq-ok (copy_step f (faults.copying f) d) _ h in
    let step = copy_step-IsCopied f (faults.copying f) d next first in
    let (t, s) = copy_all-same faults fs next e later in (t ∙ step.same_target, s ∙ step.same_stage)

copy_all-backup :
    (faults : Faults) (fs : List StoreFile) (d e : Disk) (g : StoreFile)
    → copy_all faults fs d ≡ ok e
    → (d.backup g ≡ none) ⊎ (d.backup g ≡ d.target g)
    → In g fs ⊎ (d.backup g ≡ d.target g)
    → e.backup g ≡ d.target g
unfolding copy_all
copy_all-backup faults [] d e g h p (inr q) =
    ap (λ (y : Disk). y.backup g) (sym (ok-injective h)) ∙ q
copy_all-backup faults [] d e g h p (inl m) = absurd m
copy_all-backup faults (f ∷ fs) d e g h p q =
    let (next, first, later) = >>=-eq-ok (copy_step f (faults.copying f) d) _ h in
    let step = copy_step-IsCopied f (faults.copying f) d next first in
    let at_g = ap (λ (t : Map StoreFile String). t g) step.same_target in
    elim (file-cases f g) [
      | inl eq ↦
          let copied =
            subst
              (λ (k : StoreFile).
                (d.backup k ≡ none) ⊎ (d.backup k ≡ d.target k) → next.backup k ≡ d.target k)
              eq step.here p in
          copy_all-backup faults fs next e g later (inr (copied ∙ sym at_g))
            (inr (copied ∙ sym at_g))
          ∙ at_g
      | inr ne ↦
          let stays = step.elsewhere g ne in
          copy_all-backup faults fs next e g later (was next stays at_g p)
            (to_do next ne stays at_g q)
          ∙ at_g
    ]
  where
    was :
        (next : Disk)
        → next.backup g ≡ d.backup g
        → next.target g ≡ d.target g
        → (d.backup g ≡ none) ⊎ (d.backup g ≡ d.target g)
        → (next.backup g ≡ none) ⊎ (next.backup g ≡ next.target g)
    was next s t (inl u) = inl (s ∙ u)
    was next s t (inr u) = inr (s ∙ u ∙ sym t)

    to_do :
        (next : Disk)
        → f ≢ g
        → next.backup g ≡ d.backup g
        → next.target g ≡ d.target g
        → In g (f ∷ fs) ⊎ (d.backup g ≡ d.target g)
        → In g fs ⊎ (next.backup g ≡ next.target g)
    to_do next ne s t (inl (inl eq)) = absurd (ne eq)
    to_do next ne s t (inl (inr m)) = inl m
    to_do next ne s t (inr u) = inr (s ∙ u ∙ sym t)

every_file : (g : StoreFile) → In g backed_up
every_file registry_file = inl refl
every_file plan_index = inr (inl refl)
every_file audit_log = inr (inr (inl refl))
every_file saved_filters = inr (inr (inr (inl refl)))
every_file recent_items = inr (inr (inr (inr (inl refl))))
every_file ai_settings = inr (inr (inr (inr (inr (inl refl)))))
every_file canvases = inr (inr (inr (inr (inr (inr (inl refl))))))
every_file session_records = inr (inr (inr (inr (inr (inr (inr (inl refl)))))))
every_file knowledge_index = inr (inr (inr (inr (inr (inr (inr (inr (inl refl))))))))

-- A backup that was made without an error holds every file as it is, and changes none.
pub back_up-whole :
    (faults : Faults) (d e : Disk)
    → back_up faults d ≡ ok e
    → (e.target ≡ d.target) × (e.stage ≡ d.stage) × ((g : StoreFile) → e.backup g ≡ d.target g)
unfolding back_up
back_up-whole faults d e h =
    let (t, s) = copy_all-same faults backed_up (record d { backup = empty_map }) e h in
    (
      t,
      s,
      λ g.
          copy_all-backup faults backed_up (record d { backup = empty_map }) e g h (inl refl)
            (inl (every_file g)),
    )

-- A publication behind a backup that reports one error only, the one of publishing, has left every
-- file of the data directory as it was, wherever the error struck.
pub publish-rolled_back :
    (faults : Faults) (d e : Disk) (m : String) (g : StoreFile)
    → back_up faults d ≡ ok e
    → (publish faults e).0 ≡ m ∷ []
    → (publish faults e).1.target g ≡ d.target g
unfolding publish
publish-rolled_back faults d e m g saved failed =
    let (same, _, kept) = back_up-whole faults d e saved in
    publish_from-rolled_back faults published e g m (λ f i. i) failed
      (inr (ap (λ (t : Map StoreFile String). t g) same ∙ sym (kept g)))
    ∙ kept g
