-- ===== src/Navigation/Tests.antt =====
-- Saved filters and recent items of two owners.
use kode_stream.Prelude.{
  ◌≡◌, ◌≢◌, ◌≤◌, refl, pos, true, List, [], ◌∷◌, none, some, String, ok, arith, All, length,
}
use kode_stream.Navigation.{normalize_owner, File, written, not_synchronised}
use kode_stream.Navigation.Filters.{
  SavedFilter, list_for, save_for, delete_for, save_filter, place, prepared, delete_filter,
}
use kode_stream.Navigation.Filters.Laws.{list_for-save_for_other}
use kode_stream.Navigation.Recents.{RecentItem, stamped, record_for, recents_for, record_recent}
use kode_stream.Navigation.Recents.Laws.{recents_for-record_for}

abbrev mine : SavedFilter String
mine = record {
  id = "f1";
  owner_user_id = "local";
  name = "open plans";
  route = "/plans";
  workspace_id = "w";
  filters = none;
  created_at = 5;
  updated_at = 5;
}

abbrev filters_file : File (SavedFilter String)
filters_file = ok (mine ∷ record mine { owner_user_id = "ann"; updated_at = 4 } ∷ [])

owners_differ : normalize_owner "" ≢ normalize_owner "ann"
owners_differ h = cc

list_for-save_for_other_example :
    list_for "ann" (save_for "" 9 "f2" (not_synchronised "sync") mine filters_file).1
    ≡ list_for "ann" filters_file
list_for-save_for_other_example =
    list_for-save_for_other "" "ann" 9 "f2" (not_synchronised "sync") mine filters_file
      owners_differ

abbrev saved : SavedFilter String
saved = record mine { filters = some []; updated_at = 9 }

saves : (save_for "" 9 "f2" written mine filters_file).0 ≡ ok saved
unfolding save_filter place prepared
saves = refl

deletes : (delete_for "" "f1" written filters_file).0 ≡ ok true
unfolding delete_filter
deletes = refl

abbrev plan : RecentItem
plan = record {
  item_id = "i1";
  owner_user_id = "";
  workspace_id = "w";
  title = "Plan";
  subtitle = "";
  route = "/items/i1";
  opened_at = 3;
}

abbrev opened_items : List RecentItem
opened_items =
    record plan { item_id = "i2"; opened_at = 6 }
    ∷ record plan { owner_user_id = "ann" }
    ∷ plan
    ∷ []

records : (record_for "" 9 written plan (ok opened_items)).0 ≡ ok tt
unfolding record_recent
records = refl

recents_for-record_for_example :
    (rest : List RecentItem) × (recents_for ""
        (pos 0)
        (record_for "" 9 written plan (ok opened_items)).1
      ≡ ok (stamped (normalize_owner "") 9 plan ∷ rest))
    × (length rest ≤ 49)
    × (All (λ (r : RecentItem). r.item_id ≢ "i1") rest)
recents_for-record_for_example =
    recents_for-record_for "" 9 written plan opened_items
      (omega arith, (omega arith, (omega arith, tt))) records
