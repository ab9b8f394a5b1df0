-- ===== src/Navigation/Recents.antt =====
-- The recent items of internal/navigation/navigation_repository.go.
pub mod Laws
use kode_stream.Prelude.{
  ℕ, zero, suc, ℤ, is_positive, pos_part, Bool, true, false, not, ◌&&◌, ◌||◌, List, [], ◌∷◌, map,
  String, string_eq, ◌==◌, ltb, Result, ok, err, if◌then◌else◌, select, take, length, sort_desc,
}
use kode_stream.Navigation.{normalize_owner, is_owned, File, WriteOutcome, Answer, write}

pub record RecentItem : Type 0 where
  pub item_id : String
  pub owner_user_id : String
  pub workspace_id : String
  pub title : String
  pub subtitle : String
  pub route : String
  pub opened_at : ℕ

abbrev pub opened : RecentItem → ℕ
opened r = r.opened_at

abbrev pub of_owner : String → RecentItem → Bool
of_owner owner r = is_owned owner r.owner_user_id

abbrev pub set_owner : String → RecentItem → RecentItem
set_owner owner r = if owner == "" then r else record r { owner_user_id = owner }

-- `recentsForOwner`
unfoldable pub recents_of : String → List RecentItem → List RecentItem
recents_of owner rs = sort_desc opened (map (set_owner owner) (select (of_owner owner) rs))

abbrev pub limited : ℤ → List RecentItem → List RecentItem
limited limit rs =
    if is_positive limit && ltb (pos_part limit) (length rs) then take (pos_part limit) rs else rs

abbrev pub recents_for_owner : String → ℤ → File RecentItem → Result String (List RecentItem)
recents_for_owner owner limit (err e) = err e
recents_for_owner owner limit (ok rs) = ok (limited limit (recents_of owner rs))

-- `recordRecentForOwner`: the item in front, without the records that it replaces.
abbrev pub stamped : String → ℕ → RecentItem → RecentItem
stamped owner now item = record item {
  opened_at = now;
  owner_user_id = if owner == "" then item.owner_user_id else owner;
}

abbrev pub is_kept : String → String → RecentItem → Bool
is_kept owner item_id r =
    not (r.item_id == item_id)
    || (not (owner == "") && not (normalize_owner r.owner_user_id == owner))

-- The loop that leaves out the records of the owner behind the fiftieth.
unfoldable pub prune_owned : String → ℕ → List RecentItem → List RecentItem
prune_owned owner n [] = []
prune_owned owner n (r ∷ rs) =
    let counted = prune_owned owner (suc n) rs in
    let others = prune_owned owner n rs in
    if normalize_owner r.owner_user_id == owner
    then (if ltb 50 (suc n) then counted else r ∷ counted)
    else r ∷ others

unfoldable pub recorded : String → ℕ → RecentItem → List RecentItem → List RecentItem
recorded owner now item rs =
    let next = stamped owner now item ∷ select (is_kept owner item.item_id) rs in
    if owner == "" then take 50 next else prune_owned owner 0 next

unfoldable pub record_recent :
    String → ℕ → WriteOutcome → RecentItem → File RecentItem → Answer (Unit {0}) RecentItem
record_recent owner now w item (err e) = (err e, err e)
record_recent owner now w item (ok rs) = write w tt (recorded owner now item rs) (ok rs)

-- The methods of `OwnedRepository`.
abbrev pub recents_for : String → ℤ → File RecentItem → Result String (List RecentItem)
recents_for owner = recents_for_owner (normalize_owner owner)

abbrev pub record_for :
    String → ℕ → WriteOutcome → RecentItem → File RecentItem → Answer (Unit {0}) RecentItem
record_for owner = record_recent (normalize_owner owner)

-- `RestoreRecent`
abbrev pub is_other : RecentItem → RecentItem → Bool
is_other item r =
    not (r.item_id == item.item_id)
    || not (normalize_owner r.owner_user_id == normalize_owner item.owner_user_id)

unfoldable pub restore_recent :
    WriteOutcome → RecentItem → File RecentItem → Answer (Unit {0}) RecentItem
restore_recent w item (err e) = (err e, err e)
restore_recent w item (ok rs) =
    write w tt (sort_desc opened (item ∷ select (is_other item) rs)) (ok rs)
