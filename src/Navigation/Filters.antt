-- ===== src/Navigation/Filters.antt =====
-- The saved filters of internal/navigation/navigation_repository.go.
pub mod Laws
pub mod Owner
use kode_stream.Prelude.{
  ℕ, Bool, true, false, not, ◌&&◌, ◌||◌, List, [], ◌∷◌, map, Option, none, some, String, string_eq,
  nat_eq, ◌==◌, Result, ok, err, if◌then◌else◌, any, select, sort_desc,
}
use kode_stream.Navigation.{normalize_owner, is_owned, File, WriteOutcome, Answer, write}

-- The values in the map of a filter are of a type `V`, since the repository never looks at them. A
-- time is 0 before it is set, and `none` is the nil map.
pub record SavedFilter (V : Type 0) : Type 0 where
  pub id : String
  pub owner_user_id : String
  pub name : String
  pub route : String
  pub workspace_id : String
  pub filters : Option (List (String × V))
  pub created_at : ℕ
  pub updated_at : ℕ

module _ {V : Type 0} where
  abbrev pub updated : SavedFilter V → ℕ
  updated f = f.updated_at

  abbrev pub made : Option (List (String × V)) → Option (List (String × V))
  made none = some []
  made (some m) = some m

  -- `normalizeFilters`: no nil maps, then a stable sort by the time of the update.
  abbrev pub make_map : SavedFilter V → SavedFilter V
  make_map f = record f { filters = made f.filters }

  unfoldable pub normalize_filters : List (SavedFilter V) → List (SavedFilter V)
  normalize_filters fs = sort_desc updated (map make_map fs)

  abbrev pub of_owner : String → SavedFilter V → Bool
  of_owner owner f = is_owned owner f.owner_user_id

  abbrev pub set_owner : String → SavedFilter V → SavedFilter V
  set_owner owner f = if owner == "" then f else record f { owner_user_id = owner }

  -- `filtersForOwner`
  unfoldable pub listed_for : String → List (SavedFilter V) → List (SavedFilter V)
  unfolding normalize_filters
  listed_for owner fs = map (set_owner owner) (select (of_owner owner) (normalize_filters fs))

  abbrev pub filters_for_owner :
      String → File (SavedFilter V) → Result String (List (SavedFilter V))
  filters_for_owner owner (err e) = err e
  filters_for_owner owner (ok fs) = ok (listed_for owner fs)

  -- What `saveFilterForOwner` makes of the argument before it looks for the record.
  unfoldable pub prepared : String → ℕ → String → SavedFilter V → SavedFilter V
  prepared owner now fresh f =
      let created = if f.id == "" then now else if f.created_at == 0 then now else f.created_at in
      record f {
        id = if f.id == "" then fresh else f.id;
        owner_user_id = if owner == "" then f.owner_user_id else owner;
        created_at = created;
        updated_at = now;
        filters = made f.filters;
      }

  abbrev pub is_record : String → String → SavedFilter V → Bool
  is_record owner id f = f.id == id && of_owner owner f

  -- The loop: the first record of that id keeps its place and its time of creation; without one
  -- the filter is appended. The filter that is answered comes first.
  unfoldable pub place :
      String → SavedFilter V → List (SavedFilter V) → SavedFilter V × List (SavedFilter V)
  place owner f [] = (f, f ∷ [])
  place owner f (g ∷ gs) =
      let (answer, rest) = place owner f gs in
      if is_record owner f.id g
      then (record f { created_at = g.created_at }, record f { created_at = g.created_at } ∷ gs)
      else (answer, g ∷ rest)

  -- `saveFilterForOwner`, with the clock, a new id and the end of the write as arguments.
  unfoldable pub save_filter :
      String
      → ℕ
      → String
      → WriteOutcome
      → SavedFilter V
      → File (SavedFilter V)
      → Answer (SavedFilter V) (SavedFilter V)
  save_filter owner now fresh w f (err e) = (err e, err e)
  save_filter owner now fresh w f (ok fs) =
      let (answer, next) = place owner (prepared owner now fresh f) fs in
      write w answer (normalize_filters next) (ok fs)

  -- `deleteFilterForOwner`
  unfoldable pub delete_filter :
      String → String → WriteOutcome → File (SavedFilter V) → Answer Bool (SavedFilter V)
  delete_filter owner id w (err e) = (err e, err e)
  delete_filter owner id w (ok fs) =
      if any (is_record owner id) fs
      then write w true (select (λ g. not (is_record owner id g)) fs) (ok fs)
      else (ok false, ok fs)

  -- The methods of `OwnedRepository`.
  abbrev pub list_for : String → File (SavedFilter V) → Result String (List (SavedFilter V))
  list_for owner = filters_for_owner (normalize_owner owner)

  abbrev pub save_for :
      String
      → ℕ
      → String
      → WriteOutcome
      → SavedFilter V
      → File (SavedFilter V)
      → Answer (SavedFilter V) (SavedFilter V)
  save_for owner = save_filter (normalize_owner owner)

  abbrev pub delete_for :
      String → String → WriteOutcome → File (SavedFilter V) → Answer Bool (SavedFilter V)
  delete_for owner = delete_filter (normalize_owner owner)

  -- `RestoreFilter`
  abbrev pub is_same_record : SavedFilter V → SavedFilter V → Bool
  is_same_record f g =
      g.id == f.id && normalize_owner g.owner_user_id == normalize_owner f.owner_user_id

  unfoldable pub put_back : SavedFilter V → List (SavedFilter V) → List (SavedFilter V)
  put_back f [] = f ∷ []
  put_back f (g ∷ gs) = let rest = put_back f gs in if is_same_record f g then f ∷ gs else g ∷ rest

  unfoldable pub restore_filter :
      WriteOutcome → SavedFilter V → File (SavedFilter V) → Answer (Unit {0}) (SavedFilter V)
  restore_filter w f (err e) = (err e, err e)
  restore_filter w f (ok fs) = write w tt (normalize_filters (put_back f fs)) (ok fs)
