-- ===== src/Index.antt =====
-- The index of items: internal/item/index/index.go.
pub mod Laws
mod Tests
use kode_stream.Prelude.{
  ℕ, suc, Bool, true, false, not, ◌&&◌, ◌||◌, List, [], ◌∷◌, ◌++◌, map, Option, none, some, is_some,
  String, Result, ok, err, if◌then◌else◌, Text, codes, text_eq, nat_eq, ◌==◌, has_prefix, contains,
  trim_space, Map, put, remove, empty_map, select, sort_desc,
}

-- The fields of an item that the index looks at; the others are of a type `V`, as it hands them on.
-- `none` is the nil slice of tags.
pub record Item (V : Type 0) : Type 0 where
  pub id : Text
  pub workspace_id : Text
  pub branch : Text
  pub branch_ref : Text
  pub commit : Text
  pub status : Text
  pub source_mode : Text
  pub editable : Bool
  pub title : Text
  pub identifier : Text
  pub scope : Text
  pub description : Text
  pub author : Text
  pub tags : Option (List Text)
  pub updated_at : ℕ
  pub rest : V

pub record ScanWarning : Type 0 where
  pub item_path : Text
  pub message : Text

pub record BranchScanMetadata : Type 0 where
  pub workspace_id : Text
  pub branch : Text
  pub branch_ref : Text
  pub commit : Text
  pub source_mode : Text
  pub editable : Bool
  pub scanned_at : ℕ
  pub warnings : List ScanWarning

-- A nil map of maps has no entries, as an empty one.
pub record State (V : Type 0) : Type 0 where
  pub items : List (Item V)
  pub warnings : List ScanWarning
  pub scans : Map Text ℕ
  pub branch_scans : Map Text (Map Text BranchScanMetadata)

pub record Query : Type 0 where
  pub workspace_id : Text
  pub branch : Text
  pub status : Text
  pub text : Text
  pub include_snapshots : Bool

abbrev pub is_empty : Text → Bool
is_empty [] = true
is_empty (c ∷ s) = false

abbrev pub colon : ℕ
colon = 58

abbrev pub workspace_prefix : Text → Text
workspace_prefix w = w ++ (colon ∷ [])

abbrev pub branch_prefix : Text → Text → Text
branch_prefix w b = w ++ (colon ∷ (b ++ (colon ∷ [])))

-- The warnings without those of a prefix, and new ones under it.
abbrev pub is_foreign : Text → ScanWarning → Bool
is_foreign prefix w = not (has_prefix w.item_path prefix)

abbrev pub under : Text → ScanWarning → ScanWarning
under prefix w = record w { item_path = prefix ++ w.item_path }

abbrev pub replace_warnings : Text → List ScanWarning → List ScanWarning → List ScanWarning
replace_warnings prefix new old = select (is_foreign prefix) old ++ map (under prefix) new

-- Reading and writing through a nil inner map.
abbrev pub inner_of : Option (Map Text BranchScanMetadata) → Map Text BranchScanMetadata
inner_of none = empty_map
inner_of (some m) = m

-- What the index holds in memory and what its file holds, if there is one. A save may fail before
-- the file is renamed into place, or behind that, when the directory is synchronised.
pub data SaveOutcome : Type 0 where
  saved : SaveOutcome
  not_saved not_synchronised : String → SaveOutcome

pub record Index (V : Type 0) : Type 0 where
  pub state : State V
  pub file : Option (State V)

-- `detail.Tags = []string{}` where there are none.
abbrev pub made : Option (List Text) → Option (List Text)
made none = some []
made (some tags) = some tags

-- `strings.Join`
abbrev pub join : Text → List Text → Text
join sep [] = []
join sep (s ∷ []) = s
join sep (s ∷ t ∷ rest) = s ++ (sep ++ join sep (t ∷ rest))

abbrev pub tag_list : Option (List Text) → List Text
tag_list none = []
tag_list (some tags) = tags

abbrev pub equal_or_any : Text → Text → Bool
equal_or_any wanted value = is_empty wanted || value == wanted

-- What `VisitContext` does with the answer of the visitor, which has a state of its own.
abbrev pub go_on : {S : Type 0} → Bool × S → (S → Option String × S) → Option String × S
go_on (true, s) rest = rest s
go_on (false, s) rest = (none, s)

abbrev pub working_tree_if_empty : Text → Text
working_tree_if_empty mode = if is_empty mode then codes "working_tree" else mode

abbrev pub zero_if_none : Option ℕ → ℕ
zero_if_none none = 0
zero_if_none (some t) = t

module _ {V : Type 0} where
  -- `saveOrRestoreLocked`
  abbrev pub save_or_restore : SaveOutcome → State V → State V → Index V → Option String × Index V
  save_or_restore saved previous next i = (none, record { state = next; file = some next })
  save_or_restore (not_saved e) previous next i = (some e, record i { state = previous })
  save_or_restore (not_synchronised e) previous next i =
      (some e, record { state = previous; file = some next })

  abbrev pub in_workspace : Text → Item V → Bool
  in_workspace w item = item.workspace_id == w

  abbrev pub in_branch : Text → Text → Item V → Bool
  in_branch w b item = item.workspace_id == w && item.branch == b

  -- The changes that `ReplaceWorkspace`, `ReplaceWorkspaceBranch` and `DeleteWorkspace` make.
  unfoldable pub replaced_workspace :
      Text → List (Item V) → List ScanWarning → ℕ → State V → State V
  replaced_workspace w items warnings scanned s = record {
    items = select (λ item. not (in_workspace w item)) s.items ++ items;
    warnings = replace_warnings (workspace_prefix w) warnings s.warnings;
    scans = put w scanned s.scans;
    branch_scans = remove w s.branch_scans;
  }

  unfoldable pub replaced_branch :
      Text → Text → List (Item V) → BranchScanMetadata → State V → State V
  replaced_branch w b items metadata s = record {
    items = select (λ item. not (in_branch w b item)) s.items ++ items;
    warnings = replace_warnings (branch_prefix w b) metadata.warnings s.warnings;
    scans = put w metadata.scanned_at s.scans;
    branch_scans =
        put w
          (put b (record metadata { workspace_id = w; branch = b }) (inner_of (s.branch_scans w)))
          s.branch_scans;
  }

  unfoldable pub deleted_workspace : Text → State V → State V
  deleted_workspace w s = record {
    items = select (λ item. not (in_workspace w item)) s.items;
    warnings = select (is_foreign (workspace_prefix w)) s.warnings;
    scans = remove w s.scans;
    branch_scans = remove w s.branch_scans;
  }

  abbrev pub replace_workspace :
      SaveOutcome → Text → List (Item V) → List ScanWarning → ℕ → Index V → Option String × Index V
  replace_workspace o w items warnings scanned i =
      save_or_restore o i.state (replaced_workspace w items warnings scanned i.state) i

  abbrev pub replace_workspace_branch :
      SaveOutcome
      → Text
      → Text
      → List (Item V)
      → BranchScanMetadata
      → Index V
      → Option String × Index V
  replace_workspace_branch o w b items metadata i =
      save_or_restore o i.state (replaced_branch w b items metadata i.state) i

  abbrev pub delete_workspace : SaveOutcome → Text → Index V → Option String × Index V
  delete_workspace o w i = save_or_restore o i.state (deleted_workspace w i.state) i

  abbrev pub summary : Item V → Item V
  summary item = record item { tags = made item.tags }

  abbrev pub haystack : Item V → Text
  haystack item = join (32 ∷ []) (
      item.title
      ∷ item.identifier
      ∷ item.scope
      ∷ item.description
      ∷ item.author
      ∷ join (32 ∷ []) (tag_list item.tags)
      ∷ [])

  -- `lower` is `strings.ToLower`.
  abbrev pub matches_text : (Text → Text) → Item V → Text → Bool
  matches_text lower item text = contains (lower (haystack item)) text

  -- The conditions under which the loops of `Query` and `VisitContext` do not skip an item.
  unfoldable pub matches : (Text → Text) → Query → Item V → Bool
  matches lower q item =
      (q.include_snapshots || not (item.source_mode == codes "snapshot"))
      && equal_or_any q.workspace_id item.workspace_id
      && equal_or_any q.branch item.branch
      && equal_or_any q.status item.status
      && (is_empty (lower (trim_space q.text))
          || matches_text lower item (lower (trim_space q.text)))

  abbrev pub updated : Item V → ℕ
  updated item = item.updated_at

  -- `Query`; items of one time stay in their order, one of those that `sort.Slice` may give.
  unfoldable pub query : (Text → Text) → Query → State V → List (Item V)
  unfolding matches
  query lower q s = sort_desc updated (map summary (select (matches lower q) s.items))

  -- `BranchItems`
  abbrev pub branch_items : (Text → Text) → Text → Text → State V → List (Item V)
  branch_items lower w b =
      query lower
        (record { workspace_id = w; branch = b; status = []; text = []; include_snapshots = true })

  -- `VisitContext`: `context n` is the error of the context before the item `n`.
  unfoldable pub visit_items :
      {S : Type 0}
      → (Text → Text)
      → Query
      → (S → Item V → Bool × S)
      → (ℕ → Option String)
      → ℕ
      → List (Item V)
      → S
      → Option String × S
  unfolding matches
  visit_items lower q visit context n [] s = (none, s)
  visit_items lower q visit context n (item ∷ items) s =
      let rest = visit_items lower q visit context (suc n) items in
      elim (context n) [
        | some e ↦ (some e, s)
        | none ↦ if matches lower q item then go_on (visit s (summary item)) rest else rest s
      ]

  -- `BranchScan`
  abbrev pub branch_scan : Text → Text → State V → Option BranchScanMetadata
  branch_scan w b s = inner_of (s.branch_scans w) b

  -- `Get`
  unfoldable pub get_item : Text → List (Item V) → Option (Item V)
  get_item id [] = none
  get_item id (item ∷ items) = if item.id == id then some item else get_item id items

  -- What `load` makes of the items of a file.
  abbrev pub with_source_mode : Item V → Item V
  with_source_mode item =
      if is_empty item.source_mode
      then record item { source_mode = codes "working_tree"; editable = true }
      else item

  unfoldable pub scan_of_item : State V → Item V → BranchScanMetadata
  scan_of_item s item = record {
    workspace_id = item.workspace_id;
    branch = item.branch;
    branch_ref = item.branch_ref;
    commit = item.commit;
    source_mode = working_tree_if_empty item.source_mode;
    editable =
        item.editable || is_empty item.source_mode || item.source_mode == codes "working_tree";
    scanned_at = zero_if_none (s.scans item.workspace_id);
    warnings = [];
  }

  -- One round of `migrateBranchScanMetadataLocked`.
  unfoldable pub migrate_item : Item V → State V → State V
  unfolding scan_of_item
  migrate_item item s =
      if is_empty item.workspace_id
        || is_empty item.branch
        || is_some (branch_scan item.workspace_id item.branch s)
      then s
      else record s {
        branch_scans =
            put item.workspace_id
              (put item.branch (scan_of_item s item) (inner_of (s.branch_scans item.workspace_id)))
              s.branch_scans;
      }

  unfoldable pub migrate_items : List (Item V) → State V → State V
  unfolding migrate_item
  migrate_items [] s = s
  migrate_items (item ∷ items) s = migrate_items items (migrate_item item s)

  abbrev pub empty_state : State V
  empty_state = record { items = []; warnings = []; scans = empty_map; branch_scans = empty_map }

  -- `load`: a file that is not there, that cannot be read or decoded, or its state.
  unfoldable pub load : Result String (Option (State V)) → Result String (State V)
  unfolding migrate_items
  load (err e) = err e
  load (ok none) = ok empty_state
  load (ok (some s)) =
      let items = map with_source_mode s.items in
      ok (migrate_items items (record s { items = items }))
