-- ===== src/Canvas/Tests.antt =====
-- A layout with two nodes. A number of a position is a natural number here.
use kode_stream.Prelude.{
  Result, String, ◌<◌, ◌⊎◌, ap, sym, ok-injective, ℕ, ◌≤◌, length, ◌≡◌, ◌≢◌, refl, true, false, not,
  List, [], ◌∷◌, none, some, ok, err, Text, text_eq, nat_eq, ◌==◌, codes, ltb, select, trim_space,
  trim_left, is_space,
}
use kode_stream.Canvas.Snapshots.{normalize_snapshot, validate_snapshot, find_layout}
use kode_stream.Canvas.{
  validate_layout, validate_viewport, Floats, Layout, Placement, PlacementPatch, Snapshot,
  max_placements, EntityRef, workspace_entity, placement_conflict, validate_placement,
  validate_entity_ref,
}
use kode_stream.Canvas.Snapshots.Laws.{placements_of, IsDistinct}
use kode_stream.Canvas.Repository.{
  Bytes, Codec, IsCodec, max_canvas_file_bytes, save, find_default_layout, SaveOutcome, saved,
  left_none, Io, load,
}
use kode_stream.Canvas.Repository.Laws.{
  Request, initialize_request, replace_request, perform_all, load-perform_all,
}
use kode_stream.Canvas.Placements.{
  revision_of, apply_placement_patches, index_placements, find_conflicts,
}
use kode_stream.Canvas.Placements.Laws.{last_of}
use kode_stream.Canvas.Placements.Conflicts.{nodes_of}
use kode_stream.Canvas.Placements.Batches.{written_by, apply-conflicts}

abbrev naturals : Floats ℕ
naturals = record {
  is_nan = λ v. false;
  is_inf = λ v. false;
  abs = λ v. v;
  less = ltb;
  max_coordinate = 1000000;
  min_zoom = 1;
  max_zoom = 2;
}

abbrev layout : Layout ℕ
layout = record {
  id = codes "c";
  owner_user_id = [];
  workspace_id = codes "w";
  branch_key = codes "main";
  viewport = record { x = 0; y = 0; zoom = 1 };
  version = 1;
  created_at = 1;
  updated_at = 1;
}

abbrev ref : EntityRef
ref = record {
  kind = workspace_entity;
  workspace_id = codes "w";
  item_id = [];
  item_path = [];
  identifier = [];
  branch_key = [];
  observed_commit = [];
  session_id = [];
}

abbrev placed : Placement ℕ
placed = record {
  layout_id = codes "c";
  node_id = codes "n";
  entity_ref = ref;
  position = record { x = 1; y = 2 };
  collapsed = false;
  hidden = false;
  revision = 4;
  updated_at = 1;
}

abbrev move : PlacementPatch ℕ
move = record {
  node_id = codes "n";
  entity_ref = ref;
  position = record { x = 5; y = 6 };
  collapsed = true;
  expected_revision = 4;
}

abbrev moved : List (Placement ℕ)
moved =
    written_by naturals layout 9 move (some placed)
    ∷ record placed { layout_id = codes "d" }
    ∷ written_by naturals layout 9 (record move { node_id = codes "m"; expected_revision = 0 }) none
    ∷ []

abbrev before : List (Placement ℕ)
before = placed ∷ record placed { layout_id = codes "d" } ∷ []

abbrev batch : List (PlacementPatch ℕ)
batch = move ∷ record move { node_id = codes "m"; expected_revision = 0 } ∷ []

abbrev stale : List (PlacementPatch ℕ)
stale = record move { expected_revision = 3 } ∷ []

conflicts :
    apply_placement_patches naturals layout 9 stale before
    ≡ err (placement_conflict (codes "n" ∷ []))
unfolding apply_placement_patches index_placements find_conflicts
conflicts = refl

apply-conflicts_example :
    ((codes "n" ∷ []) ≢ [])
    × ((codes "n" ∷ [])
        ≡ nodes_of (
            select
              (λ (patch : PlacementPatch ℕ).
                not (
                  revision_of (last_of (codes "c") patch.node_id before)
                  == patch.expected_revision))
              stale))
apply-conflicts_example = apply-conflicts naturals layout 9 stale before (codes "n" ∷ []) conflicts

abbrev answers : SaveOutcome → Io
answers outcome = record { reading = none; saving = outcome; now = 9 }

-- A canvas without layouts is written as its version; another one cannot be written.
abbrev marshalled : ℕ → List (Layout ℕ) → List (Placement ℕ) → Result String Bytes
marshalled v [] [] = ok (v ∷ [])
marshalled v [] (p ∷ ps) = err "placements"
marshalled v (l ∷ ls) ps = err "layouts"

abbrev read_back : Bytes → Result String (Snapshot ℕ)
read_back [] = err "end of file"
read_back (v ∷ b) = ok (record { version = v; layouts = []; placements = [] })

abbrev versions : Codec ℕ
versions = record { marshal = λ s. marshalled s.version s.layouts s.placements; decode = read_back }

versions-IsCodec : IsCodec versions
versions-IsCodec s b h = back s.version s.layouts s.placements h
  where
    back :
        (v : ℕ) (ls : List (Layout ℕ)) (ps : List (Placement ℕ))
        → marshalled v ls ps ≡ ok b
        → read_back b ≡ ok (record { version = v; layouts = ls; placements = ps })
    back v [] [] q = ap read_back (sym (ok-injective q))
    back v [] (p ∷ ps) q = cc
    back v (l ∷ ls) ps q = cc

-- An empty canvas of the first version is written, lost by a failed renaming and written again; then
-- a layout cannot be added, as it cannot be marshalled.
abbrev requests : List (Request naturals versions)
requests =
    replace_request (answers saved) (record { version = 1; layouts = []; placements = [] })
    ∷ replace_request (answers (left_none "rename"))
        (record { version = 2; layouts = []; placements = [] })
    ∷ replace_request (answers saved) (record { version = 1; layouts = []; placements = [] })
    ∷ initialize_request (answers saved) [] (codes "w") (codes "main") (placed ∷ []) (ok layout)
    ∷ []

performed : perform_all naturals versions requests none ≡ some (2 ∷ [])
unfolding load save normalize_snapshot validate_snapshot max_canvas_file_bytes find_default_layout
    validate_layout validate_viewport validate_placement validate_entity_ref trim_space trim_left
    is_space find_layout
performed = refl

load-perform_all_example :
    ((b : Bytes) × (perform_all naturals versions requests none ≡ some b)
      × (max_canvas_file_bytes < length b))
    ⊎ ((s : Snapshot ℕ) × (load naturals versions none (perform_all naturals versions requests none)
          ≡ ok s)
        × ((id : Text) → length (placements_of id s.placements) ≤ max_placements)
        × IsDistinct s.placements)
load-perform_all_example = load-perform_all naturals versions versions-IsCodec requests
