-- ===== src/Storage/Publication/Laws.antt =====
-- What a step of publishing or restoring does, and a publication that is taken back.
use kode_stream.Prelude.{
  ◌≡◌, ◌≢◌, ◌⊎◌, refl, sym, ap, ◌∙◌, subst, inl, inr, Bool, true, false, List, [], ◌∷◌, ◌++◌,
  Option, none, some, Option-cases, Bool-cases, String, Result, ok, err, ok-injective, Result-cases,
  Map, put, remove, ◌==◌, In,
}
use kode_stream.Storage.{StoreFile, file_eq, file_beq_iff, Disk, published}
use kode_stream.Storage.Publication.{
  Faults, move_content, rename_step, publish_step, put_content_back, restore_step, restore_all,
  roll_back, publish_result, publish_from,
}

-- A step concerns one file `f`: it is given the content `c`, and the others stay.
pub record IsGiven (f : StoreFile) (c : Option String) (old new : Map StoreFile String)
    : Type 0 where
  pub here : new f ≡ c
  pub elsewhere : (g : StoreFile) → f ≢ g → new g ≡ old g

pub file-cases : (f g : StoreFile) → (f ≡ g) ⊎ (f ≢ g)
file-cases f g = elim (Bool-cases (f == g)) [
  | inl t ↦ inl ((file_beq_iff f g).0 t)
  | inr n ↦ inr (λ e. both_ways ((file_beq_iff f g).1 e) n)
]
  where
    both_ways : {b : Bool} → b ≡ true → b ≡ false → ⊥
    both_ways t n = cc

same_file : (f : StoreFile) → (f == f) ≡ true
same_file f = (file_beq_iff f f).1 refl

other_file : (f g : StoreFile) → f ≢ g → (f == g) ≡ false
other_file f g h = elim (Bool-cases (f == g)) [
  | inl t ↦ absurd (h ((file_beq_iff f g).0 t))
  | inr n ↦ n
]

pub put-IsGiven :
    (f : StoreFile) (c : String) (m : Map StoreFile String) → IsGiven f (some c) m (put f c m)
put-IsGiven f c m = record {
  here = rw (same_file f) refl;
  elsewhere = λ g h. rw (other_file f g h) refl;
}

remove-IsGiven : (f : StoreFile) (m : Map StoreFile String) → IsGiven f none m (remove f m)
remove-IsGiven f m = record {
  here = rw (same_file f) refl;
  elsewhere = λ g h. rw (other_file f g h) refl;
}

-- A file is restored without an error only if it gets the content of its backup.
restore_step-IsGiven :
    (faults : Faults) (f : StoreFile) (b i : Option String) (d : Disk)
    → (restore_step faults f b i d).0 ≡ []
    → IsGiven f (d.backup f) d.target (restore_step faults f b i d).1.target
      × ((restore_step faults f b i d).1.backup ≡ d.backup)
unfolding restore_step put_content_back
restore_step-IsGiven faults f none none d h =
    put_back (d.backup f) (faults.removing f) (faults.restoring f) h
  where
    put_back :
        (content removing restoring : Option String)
        → (put_content_back f content removing restoring d).0 ≡ []
        → IsGiven f content d.target (put_content_back f content removing restoring d).1.target
          × ((put_content_back f content removing restoring d).1.backup ≡ d.backup)
    put_back none none restoring e = (remove-IsGiven f d.target, refl)
    put_back (some c) removing none e = (put-IsGiven f c d.target, refl)
    put_back none (some x) restoring e = cc
    put_back (some c) removing (some x) e = cc
restore_step-IsGiven faults f (some e) i d h = cc
restore_step-IsGiven faults f none (some e) d h = cc

append-nil_left : (xs ys : List String) → xs ++ ys ≡ [] → (xs ≡ []) × (ys ≡ [])
append-nil_left [] ys h = (refl, h)
append-nil_left (x ∷ xs) ys h = cc

-- What is restored without an error is as in the backup, also where it was so before.
restore_all-target :
    (faults : Faults) (fs : List StoreFile) (d : Disk) (g : StoreFile)
    → (restore_all faults fs d).0 ≡ []
    → In g fs ⊎ (d.target g ≡ d.backup g)
    → (restore_all faults fs d).1.target g ≡ d.backup g
unfolding restore_all
restore_all-target faults [] d g h (inr e) = e
restore_all-target faults [] d g h (inl m) = absurd m
restore_all-target faults (f ∷ fs) d g h m =
    let step = restore_step faults f (faults.before_restore f) (faults.inspecting f) d in
    let (first, later) = append-nil_left step.0 _ h in
    let (set, same) =
      restore_step-IsGiven faults f (faults.before_restore f) (faults.inspecting f) d first in
    restore_all-target faults fs step.1 g later (next step.1 set same m)
    ∙ ap (λ (b : Map StoreFile String). b g) same
  where
    next :
        (e : Disk)
        → IsGiven f (d.backup f) d.target e.target
        → e.backup ≡ d.backup
        → In g (f ∷ fs) ⊎ (d.target g ≡ d.backup g)
        → In g fs ⊎ (e.target g ≡ e.backup g)
    next e set same m = elim (file-cases f g) [
      | inl eq ↦ inr (
          subst (λ (x : StoreFile). e.target x ≡ d.backup x) eq set.here
          ∙ sym (ap (λ (b : Map StoreFile String). b g) same))
      | inr ne ↦ elim m [
        | inl (inl eq) ↦ absurd (ne eq)
        | inl (inr later) ↦ inl later
        | inr q ↦ inr (set.elsewhere g ne ∙ q ∙ sym (ap (λ (b : Map StoreFile String). b g) same))
      ]
    ]

-- A file is published by moving what is staged, which must be there.
pub record IsMoved (f : StoreFile) (d e : Disk) : Type 0 where
  pub content : String
  pub staged : d.stage f ≡ some content
  pub target : IsGiven f (some content) d.target e.target
  pub rest : IsGiven f none d.stage e.stage
  pub same_backup : e.backup ≡ d.backup

pub publish_step-IsMoved :
    (f : StoreFile) (before renaming : Option String) (d e : Disk)
    → publish_step f before renaming d ≡ ok e
    → IsMoved f d e
unfolding publish_step rename_step move_content
publish_step-IsMoved f none none d e h = elim (Option-cases (d.stage f)) [
  | inl missing ↦ absurd (clash (rw missing at h))
  | inr (c, there) ↦
      subst (λ (x : Disk). IsMoved f d x) (ok-injective (rw there at h))
        (record {
          content = c;
          staged = there;
          target = put-IsGiven f c d.target;
          rest = remove-IsGiven f d.stage;
          same_backup = refl;
        })
]
  where
    clash : {m : String} → ◌≡◌ {A = Result String Disk} (err m) (ok e) → ⊥
    clash q = cc
publish_step-IsMoved f (some m) renaming d e h = cc
publish_step-IsMoved f none (some m) d e h = cc

-- If only the error of publishing is reported, everything is as in the backup again.
roll_back-target :
    (faults : Faults) (x m : String) (d : Disk) (g : StoreFile)
    → (roll_back faults x d).0 ≡ m ∷ []
    → In g published ⊎ (d.target g ≡ d.backup g)
    → (roll_back faults x d).1.target g ≡ d.backup g
unfolding roll_back
roll_back-target faults x m d g h inside = restore_all-target faults published d g (tail h) inside
  where
    tail : {y z : String} {ys : List String} → y ∷ ys ≡ z ∷ [] → ys ≡ []
    tail q = cc

pub publish_from-rolled_back :
    (faults : Faults) (fs : List StoreFile) (d : Disk) (g : StoreFile) (m : String)
    → ((f : StoreFile) → In f fs → In f published)
    → (publish_from faults fs d).0 ≡ m ∷ []
    → In g published ⊎ (d.target g ≡ d.backup g)
    → (publish_from faults fs d).1.target g ≡ d.backup g
unfolding publish_from publish_result
publish_from-rolled_back faults [] d g m sub h inside = cc
publish_from-rolled_back faults (f ∷ fs) d g m sub h inside =
    elim (Result-cases (publish_step f (faults.before_publish f) (faults.renaming f) d)) [
      | inr (x, failed) ↦ rw failed (roll_back-target faults x m d g (rw failed at h) inside)
      | inl (e, moved) ↦
          let step = publish_step-IsMoved f _ _ d e moved in
          rw moved (
            publish_from-rolled_back faults fs e g m (λ k i. sub k (inr i)) (rw moved at h)
              (next e step.target step.same_backup)
            ∙ ap (λ (b : Map StoreFile String). b g) step.same_backup)
    ]
  where
    next :
        (e : Disk) {c : String}
        → IsGiven f (some c) d.target e.target
        → e.backup ≡ d.backup
        → In g published ⊎ (e.target g ≡ e.backup g)
    next e set same = elim (file-cases f g) [
      | inl eq ↦ inl (subst (λ (x : StoreFile). In x published) eq (sub f (inl refl)))
      | inr ne ↦ elim inside [
        | inl i ↦ inl i
        | inr q ↦ inr (set.elsewhere g ne ∙ q ∙ sym (ap (λ (b : Map StoreFile String). b g) same))
      ]
    ]
