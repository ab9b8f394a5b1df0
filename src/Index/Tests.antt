-- ===== src/Index/Tests.antt =====
-- An index of two branches.
use kode_stream.Prelude.{
  ℕ, ◌≡◌, sort_desc, refl, true, false, [], ◌∷◌, map, none, text_eq, nat_eq, codes, empty_map, put,
}
use kode_stream.Index.{
  Item, State, BranchScanMetadata, replaced_branch, summary, branch_items, migrate_items,
}
use kode_stream.Index.Laws.{branch_items-replaced_branch}

abbrev item : Item ℕ
item = record {
  id = codes "i";
  workspace_id = codes "w";
  branch = codes "main";
  branch_ref = [];
  commit = codes "c";
  status = codes "todo";
  source_mode = [];
  editable = false;
  title = codes "Plan";
  identifier = codes "P-1";
  scope = [];
  description = [];
  author = [];
  tags = none;
  updated_at = 4;
  rest = 0;
}

abbrev snapshot : Item ℕ
snapshot = record item { id = codes "s"; branch = codes "next"; source_mode = codes "snapshot" }

abbrev known : BranchScanMetadata
known = record {
  workspace_id = codes "w";
  branch = codes "next";
  branch_ref = [];
  commit = [];
  source_mode = codes "snapshot";
  editable = false;
  scanned_at = 2;
  warnings = [];
}

abbrev file : State ℕ
file = record {
  items = item ∷ snapshot ∷ [];
  warnings = [];
  scans = put (codes "w") 3 empty_map;
  branch_scans = put (codes "w") (put (codes "next") known empty_map) empty_map;
}

abbrev rescanned : Item ℕ
rescanned = record item { id = codes "j"; updated_at = 7 }

branch_items-replaced_branch_example :
    (branch_items
        (λ s. s)
        (codes "w")
        (codes "main")
        (replaced_branch (codes "w") (codes "main") (rescanned ∷ []) known file)
      ≡ sort_desc (λ (i : Item ℕ). i.updated_at) (map summary (rescanned ∷ [])))
    × (branch_items
          (λ s. s)
          (codes "w")
          (codes "next")
          (replaced_branch (codes "w") (codes "main") (rescanned ∷ []) known file)
        ≡ branch_items (λ s. s) (codes "w") (codes "next") file)
branch_items-replaced_branch_example =
    branch_items-replaced_branch (λ s. s) refl (codes "w") (codes "main") (codes "w") (codes "next")
      (rescanned ∷ []) known file refl refl refl refl refl (refl, tt)

-- A file that an older version wrote, without scans of branches.
abbrev legacy : State ℕ
legacy = record file { branch_scans = empty_map }

abbrev working : Item ℕ
working = record item { source_mode = codes "working_tree"; editable = true }

abbrev loaded : State ℕ
loaded = migrate_items (working ∷ snapshot ∷ []) (record legacy { items = working ∷ snapshot ∷ [] })
