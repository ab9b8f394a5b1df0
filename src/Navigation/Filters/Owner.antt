-- ===== src/Navigation/Filters/Owner.antt =====
-- What the operations on saved filters do for their own owner.
use kode_stream.Prelude.{
  ℕ, ◌≡◌, ◌≢◌, refl, sym, ap, ◌∙◌, subst, inl, inr, Bool, true, false, not, List, [], ◌∷◌, map,
  String, string_eq, eq_iff, nat_eq, ◌==◌, ok, err, ok-injective, any, select, All, In, In-select,
  In-of_select, In-map, In-of_map, In-any, All-of, Bool-cases, In-sort_desc, sort_desc-In,
}
use kode_stream.Navigation.{
  normalize_owner, is_owned, File, WriteOutcome, written, not_written, not_synchronised, write,
}
use kode_stream.Navigation.Filters.{
  SavedFilter, updated, make_map, normalize_filters, of_owner, set_owner, listed_for, prepared,
  is_record, place, save_filter, delete_filter, list_for, save_for, delete_for,
}
use kode_stream.Navigation.Filters.Laws.{normalize_owner-ne, is_owned_self, made-made}

module _ {V : Type 0} where
  abbrev created_as : SavedFilter V → ℕ → SavedFilter V
  created_as f c = record f { created_at = c }

  -- The answered filter is in the new list, and is the argument but for its time of creation.
  place-In :
      (x : String) (f : SavedFilter V) (gs : List (SavedFilter V))
      → In (place x f gs).0 (place x f gs).1 × ((c : ℕ) × ((place x f gs).0 ≡ created_as f c))
  unfolding place
  place-In x f [] = (inl refl, (f.created_at, refl))
  place-In x f (g ∷ gs) = elim (Bool-cases (is_record x f.id g)) [
    | inl t ↦ rw t (inl refl, (g.created_at, refl))
    | inr n ↦ let (inside, shape) = place-In x f gs in rw n (inr inside, shape)
  ]

  In-normalize :
      (f : SavedFilter V) (fs : List (SavedFilter V))
      → In f fs
      → In (make_map f) (normalize_filters fs)
  unfolding normalize_filters
  In-normalize f fs m = sort_desc-In updated (make_map f) (map make_map fs) (In-map make_map fs f m)

  In-of_normalize :
      (g : SavedFilter V) (fs : List (SavedFilter V))
      → In g (normalize_filters fs)
      → (f : SavedFilter V) × (In f fs) × (make_map f ≡ g)
  unfolding normalize_filters
  In-of_normalize g fs m = In-of_map make_map fs g (In-sort_desc updated g (map make_map fs) m)

  In-listed_for :
      (x : String) (f : SavedFilter V) (fs : List (SavedFilter V))
      → In f fs
      → of_owner x f ≡ true
      → set_owner x (make_map f) ≡ f
      → In f (listed_for x fs)
  unfolding listed_for
  In-listed_for x f fs m owned same =
      subst (λ (g : SavedFilter V). In g (listed_for x fs)) same
        (In-map (set_owner x) (select (of_owner x) (normalize_filters fs)) (make_map f)
          (In-select (of_owner x) (normalize_filters fs) (make_map f) (In-normalize f fs m) owned))

  prepared-fields :
      (x : String) (now : ℕ) (fresh : String) (f : SavedFilter V) (c : ℕ)
      → (x == "") ≡ false
      → let g = created_as (prepared x now fresh f) c in
        (g.owner_user_id ≡ x) × (g.updated_at ≡ now)
  unfolding prepared
  prepared-fields x now fresh f c h = (rw h refl, refl)

  -- A filter as `saveFilterForOwner` writes it is listed as it is.
  written_as_is :
      (x : String) (now : ℕ) (fresh : String) (f : SavedFilter V) (c : ℕ)
      → (x == "") ≡ false
      → let g = created_as (prepared x now fresh f) c in
        (of_owner x g ≡ true) × (set_owner x (make_map g) ≡ g) × (make_map g ≡ g)
  unfolding prepared
  written_as_is x now fresh f c h = (
    subst (λ u. is_owned x u ≡ true) (sym (prepared-fields x now fresh f c h).0)
        (is_owned_self x h),
    rw (h, made-made f.filters) refl,
    rw (made-made f.filters) refl,
  )

  saved_listed :
      (x : String) (now : ℕ) (fresh : String) (f : SavedFilter V) (fs : List (SavedFilter V))
      → (x == "") ≡ false
      → let (g, next) = place x (prepared x now fresh f) fs in
        In g (listed_for x (normalize_filters next)) × (g.owner_user_id ≡ x) × (g.updated_at ≡ now)
  saved_listed x now fresh f fs h =
      let (inside, (c, shape)) = place-In x (prepared x now fresh f) fs in
      let (owned, same, mapped) = written_as_is x now fresh f c h in
      let next = (place x (prepared x now fresh f) fs).1 in
      let stored = In-normalize (created_as (prepared x now fresh f) c) next (rw shape at inside) in
      let (owner, time) = prepared-fields x now fresh f c h in
      rw shape (
        In-listed_for x (created_as (prepared x now fresh f) c) (normalize_filters next)
            (subst (λ (u : SavedFilter V). In u (normalize_filters next)) mapped stored) owned same,
        owner,
        time,
      )

  -- A filter that was saved without an error is in the list of its owner, as it was answered and
  -- with the time of saving.
  pub list_for-save_for :
      (a : String) (now : ℕ) (fresh : String) (w : WriteOutcome) (f g : SavedFilter V)
      (file : File (SavedFilter V))
      → (save_for a now fresh w f file).0 ≡ ok g
      → (l : List (SavedFilter V)) × (list_for a (save_for a now fresh w f file).1 ≡ ok l)
        × (In g l)
        × (g.owner_user_id ≡ normalize_owner a)
        × (g.updated_at ≡ now)
  unfolding save_filter
  list_for-save_for a now fresh written f g (ok fs) h =
      let (inside, owner, time) =
        saved_listed (normalize_owner a) now fresh f fs (normalize_owner-ne a) in
      let same = ok-injective h in
      (
        _,
        refl,
        subst
            (λ (u : SavedFilter V). In u (
              listed_for (normalize_owner a) (
                normalize_filters
                  (place (normalize_owner a) (prepared (normalize_owner a) now fresh f) fs).1)))
            same inside,
        subst (λ (u : SavedFilter V). u.owner_user_id ≡ normalize_owner a) same owner,
        subst (λ (u : SavedFilter V). u.updated_at ≡ now) same time,
      )
  list_for-save_for a now fresh (not_written e) f g (ok fs) h = cc
  list_for-save_for a now fresh (not_synchronised e) f g (ok fs) h = cc
  list_for-save_for a now fresh w f g (err e) h = cc

  set_owner-id : (x : String) (g : SavedFilter V) → (set_owner x g).id ≡ g.id
  set_owner-id x g = elim (Bool-cases (x == "")) [ inl t ↦ rw t refl | inr f ↦ rw f refl ]

  -- What is listed is a record of the file, with its id, that belongs to the owner.
  In-of_listed_for :
      (x : String) (g : SavedFilter V) (fs : List (SavedFilter V))
      → In g (listed_for x fs)
      → (f : SavedFilter V) × (In f fs) × (of_owner x f ≡ true) × (g.id ≡ f.id)
  unfolding listed_for
  In-of_listed_for x g fs m =
      let (k, chosen, e) =
        In-of_map (set_owner x) (select (of_owner x) (normalize_filters fs)) g m in
      let (sorted, owned) = In-of_select (of_owner x) (normalize_filters fs) k chosen in
      let (f, inside, d) = In-of_normalize k fs sorted in
      (
        f,
        inside,
        subst (λ (u : SavedFilter V). of_owner x u ≡ true) (sym d) owned,
        sym (ap (λ (u : SavedFilter V). u.id) e)
            ∙ set_owner-id x k
            ∙ sym (ap (λ (u : SavedFilter V). u.id) d),
      )

  absent_after_delete :
      (x i : String) (fs : List (SavedFilter V)) (g : SavedFilter V)
      → In g (listed_for x (select (λ f. not (is_record x i f)) fs))
      → g.id ≢ i
  absent_after_delete x i fs g m e =
      let (f, inside, owned, same) = In-of_listed_for x g _ m in
      let (listed, kept) =
        In-of_select (λ (k : SavedFilter V). not (is_record x i k)) fs f inside in
      let here : (f.id == i) ≡ true = (eq_iff f.id i).1 (sym same ∙ e) in
      clash (rw (here, owned) at kept)
    where
      clash : false ≡ true → ⊥
      clash h = cc

  -- After a deletion without an error the owner has no filter of that id.
  pub list_for-delete_for :
      (a i : String) (w : WriteOutcome) (file : File (SavedFilter V)) (found : Bool)
      → (delete_for a i w file).0 ≡ ok found
      → (l : List (SavedFilter V)) × (list_for a (delete_for a i w file).1 ≡ ok l)
        × (All (λ (g : SavedFilter V). g.id ≢ i) l)
  unfolding delete_filter
  list_for-delete_for a i w (err e) found h = cc
  list_for-delete_for a i w (ok fs) found h =
      elim (Bool-cases (any (is_record (normalize_owner a) i) fs)) [
        | inl t ↦ rw t (by_outcome w (rw t at h))
        | inr f ↦ rw f (
          listed_for (normalize_owner a) fs,
          refl,
          All-of (λ (g : SavedFilter V). g.id ≢ i) (listed_for (normalize_owner a) fs)
              (λ g m e. absent (normalize_owner a) f g m e),
        )
      ]
    where
      both_ways : {b : Bool} → b ≡ true → b ≡ false → ⊥
      both_ways t f = cc

      absent :
          (x : String)
          → any (is_record x i) fs ≡ false
          → (g : SavedFilter V) → In g (listed_for x fs)
          → g.id ≢ i
      absent x none_there g m e =
          let (f, inside, owned, same) = In-of_listed_for x g fs m in
          let here : (f.id == i) ≡ true = (eq_iff f.id i).1 (sym same ∙ e) in
          both_ways (In-any (is_record x i) fs f inside (rw here owned)) none_there

      by_outcome :
          (v : WriteOutcome)
          → (write v true (select (λ f. not (is_record (normalize_owner a) i f)) fs) (ok fs)).0
            ≡ ok found
          → (l : List (SavedFilter V)) × (list_for a
                (write v true (select (λ f. not (is_record (normalize_owner a) i f)) fs) (ok fs)).1
              ≡ ok l)
            × (All (λ (g : SavedFilter V). g.id ≢ i) l)
      by_outcome written e = (
        _,
        refl,
        All-of (λ (g : SavedFilter V). g.id ≢ i) _
            (λ g m. absent_after_delete (normalize_owner a) i fs g m),
      )
      by_outcome (not_written s) e = cc
      by_outcome (not_synchronised s) e = cc
