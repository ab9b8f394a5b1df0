-- ===== src/Navigation/Filters/Laws.antt =====
-- What the operations on saved filters do for the owner and for the others.
use kode_stream.Prelude.{
  ℕ, ◌≡◌, ◌≢◌, refl, sym, ap, ◌∙◌, inl, inr, true, false, not, List, [], ◌∷◌, map, Option, none,
  some, String, string_eq, eq_iff, nat_eq, ◌==◌, ok, err, beq_self, any, select, arith, Bool-cases,
  sort_desc, select-sort_desc, map-sort_desc, sort_desc-sort_desc, select-map, map-map_same,
}
use kode_stream.Navigation.{
  normalize_owner, is_owned, File, WriteOutcome, written, not_written, not_synchronised, write,
}
use kode_stream.Navigation.Filters.{
  SavedFilter, updated, made, make_map, normalize_filters, of_owner, listed_for, prepared,
  is_record, place, save_filter, delete_filter, list_for, save_for, delete_for,
}

pub normalize_owner-ne : (a : String) → (normalize_owner a == "") ≡ false
normalize_owner-ne a = elim (Bool-cases (a == "")) [ inl t ↦ rw t refl | inr f ↦ rw f f ]

-- A record belongs to at most one owner.
pub is_owned-other :
    (x y r : String)
    → (x == "") ≡ false
    → (y == "") ≡ false
    → x ≢ y
    → is_owned x r ≡ true
    → is_owned y r ≡ false
is_owned-other x y r hx hy h owned = rw hy (not_both (normalize_owner r) (rw hx at owned))
  where
    not_both : (z : String) → (z == x) ≡ true → (z == y) ≡ false
    not_both z e = elim (Bool-cases (z == y)) [
      | inl t ↦ absurd (h (sym ((eq_iff z x).0 e) ∙ (eq_iff z y).0 t))
      | inr f ↦ f
    ]

pub is_owned_self : (x : String) → (x == "") ≡ false → is_owned x x ≡ true
is_owned_self x h = rw h (beq_self x)

module _ {V : Type 0} where
  pub made-made : (m : Option (List (String × V))) → made (made m) ≡ made m
  made-made none = refl
  made-made (some m) = refl

  make_map-make_map : (f : SavedFilter V) → make_map (make_map f) ≡ make_map f
  make_map-make_map f = rw (made-made f.filters) refl

  normalize-normalize :
      (fs : List (SavedFilter V)) → normalize_filters (normalize_filters fs) ≡ normalize_filters fs
  unfolding normalize_filters
  normalize-normalize fs =
      rw
        (
          ← map-sort_desc updated make_map (λ f. refl) (map make_map fs),
          map-map_same make_map make_map-make_map fs,
        )
        (sort_desc-sort_desc updated (map make_map fs))

  select-normalize :
      (owner : String) (fs : List (SavedFilter V))
      → select (of_owner owner) (normalize_filters fs)
        ≡ normalize_filters (select (of_owner owner) fs)
  unfolding normalize_filters
  select-normalize owner fs =
      select-sort_desc updated (of_owner owner) (map make_map fs)
      ∙ ap (sort_desc updated) (select-map (of_owner owner) make_map (λ f. refl) fs)

  -- What an owner sees depends on the owner's records only, and not on whether the file is sorted.
  listed-same :
      (owner : String) (fs gs : List (SavedFilter V))
      → select (of_owner owner) fs ≡ select (of_owner owner) gs
      → listed_for owner (normalize_filters fs) ≡ listed_for owner gs
  unfolding listed_for
  listed-same owner fs gs h =
      rw (normalize-normalize fs, select-normalize owner fs, select-normalize owner gs, h) refl

  module _ (x y : String) (hx : (x == "") ≡ false) (hy : (y == "") ≡ false) (h : x ≢ y) where
    other_owner : (f : SavedFilter V) → of_owner x f ≡ true → of_owner y f ≡ false
    other_owner f owned = is_owned-other x y f.owner_user_id hx hy h owned

    is_record-owner :
        (i : String) (g : SavedFilter V) → is_record x i g ≡ true → of_owner x g ≡ true
    is_record-owner i g t = ground arith

    place-other :
        (f : SavedFilter V) (gs : List (SavedFilter V))
        → of_owner y f ≡ false
        → select (of_owner y) (place x f gs).1 ≡ select (of_owner y) gs
    unfolding place
    place-other f [] e = rw e refl
    place-other f (g ∷ gs) e = elim (Bool-cases (is_record x f.id g)) [
      | inl t ↦ let not_mine = other_owner g (is_record-owner f.id g t) in rw (t, not_mine, e) refl
      | inr n ↦ elim (Bool-cases (of_owner y g)) [
        | inl u ↦ rw (n, u) (ap (λ zs. g ∷ zs) (place-other f gs e))
        | inr v ↦ rw (n, v) (place-other f gs e)
      ]
    ]

    delete-other :
        (i : String) (gs : List (SavedFilter V))
        → select (of_owner y) (select (λ g. not (is_record x i g)) gs) ≡ select (of_owner y) gs
    delete-other i [] = refl
    delete-other i (g ∷ gs) = elim (Bool-cases (is_record x i g)) [
      | inl t ↦
          let not_mine = other_owner g (is_record-owner i g t) in
          rw (t, not_mine) (delete-other i gs)
      | inr n ↦ elim (Bool-cases (of_owner y g)) [
        | inl u ↦ rw (n, u) (ap (λ zs. g ∷ zs) (delete-other i gs))
        | inr v ↦ rw (n, v) (delete-other i gs)
      ]
    ]

  listed-equal :
      (owner : String) (fs gs : List (SavedFilter V))
      → select (of_owner owner) fs ≡ select (of_owner owner) gs
      → listed_for owner fs ≡ listed_for owner gs
  unfolding listed_for
  listed-equal owner fs gs h = rw (select-normalize owner fs, select-normalize owner gs, h) refl

  prepared-owner :
      (x : String) (now : ℕ) (fresh : String) (f : SavedFilter V)
      → (x == "") ≡ false
      → (prepared x now fresh f).owner_user_id ≡ x
  unfolding prepared
  prepared-owner x now fresh f h = rw h refl

  -- Saving a filter for one owner changes nothing that another owner sees, however the write ends.
  pub list_for-save_for_other :
      (a b : String) (now : ℕ) (fresh : String) (w : WriteOutcome) (f : SavedFilter V)
      (file : File (SavedFilter V))
      → normalize_owner a ≢ normalize_owner b
      → list_for b (save_for a now fresh w f file).1 ≡ list_for b file
  unfolding save_filter
  list_for-save_for_other a b now fresh w f (err e) h = refl
  list_for-save_for_other a b now fresh w f (ok fs) h = by_outcome w
    where
      saved :
          listed_for (normalize_owner b) (
            normalize_filters
              (place (normalize_owner a) (prepared (normalize_owner a) now fresh f) fs).1)
          ≡ listed_for (normalize_owner b) fs
      saved = listed-same (normalize_owner b) _ fs (
          place-other (normalize_owner a) (normalize_owner b) (normalize_owner-ne a)
            (normalize_owner-ne b) h (prepared (normalize_owner a) now fresh f) fs
            (other_owner (normalize_owner a) (normalize_owner b) (normalize_owner-ne a)
              (normalize_owner-ne b) h (prepared (normalize_owner a) now fresh f)
              (rw (prepared-owner (normalize_owner a) now fresh f (normalize_owner-ne a))
                (is_owned_self (normalize_owner a) (normalize_owner-ne a)))))

      by_outcome :
          (v : WriteOutcome)
          → list_for b (save_for a now fresh v f (ok fs)).1 ≡ ok (listed_for (normalize_owner b) fs)
      by_outcome written = ap ok saved
      by_outcome (not_written e) = refl
      by_outcome (not_synchronised e) = ap ok saved

  -- Deleting a filter of one owner changes nothing that another owner sees, even if ids coincide.
  pub list_for-delete_for_other :
      (a b i : String) (w : WriteOutcome) (file : File (SavedFilter V))
      → normalize_owner a ≢ normalize_owner b
      → list_for b (delete_for a i w file).1 ≡ list_for b file
  unfolding delete_filter
  list_for-delete_for_other a b i w (err e) h = refl
  list_for-delete_for_other a b i w (ok fs) h =
      elim (Bool-cases (any (is_record (normalize_owner a) i) fs)) [
        | inl t ↦ rw t (by_outcome w)
        | inr f ↦ rw f refl
      ]
    where
      deleted :
          listed_for (normalize_owner b) (select (λ g. not (is_record (normalize_owner a) i g)) fs)
          ≡ listed_for (normalize_owner b) fs
      deleted = listed-equal (normalize_owner b) _ fs (
          delete-other (normalize_owner a) (normalize_owner b) (normalize_owner-ne a)
            (normalize_owner-ne b) h i fs)

      by_outcome :
          (v : WriteOutcome)
          → list_for b
              (write v true (select (λ g. not (is_record (normalize_owner a) i g)) fs) (ok fs)).1
            ≡ ok (listed_for (normalize_owner b) fs)
      by_outcome written = ap ok deleted
      by_outcome (not_written e) = refl
      by_outcome (not_synchronised e) = ap ok deleted
