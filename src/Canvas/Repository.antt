-- ===== src/Canvas/Repository.antt =====
-- The repository of the canvas in a file: `FileRepository` of internal/canvas/file_repository.go.
pub mod Laws
use kode_stream.Prelude.{
  ℕ, suc, ◌*◌, ◌^◌, ◌≡◌, Bool, true, false, not, ◌&&◌, ◌||◌, List, [], ◌∷◌, ◌++◌, map, Option, none,
  some, String, Result, ok, err, ◌>>=◌, if◌then◌else◌, Text, codes, text_eq, nat_eq, ◌==◌, ltb,
  text_ltb, trim_space, select, sort_by, length,
}
use kode_stream.Canvas.{
  Floats, Viewport, Layout, Placement, PlacementPatch, Snapshot, CanvasError, layout_incomplete,
  batch_outside, placements_outside, placement_conflict, not_found, storage_error, is_empty,
  is_blank, max_placements, max_placement_batch, validate_viewport,
}
use kode_stream.Canvas.Placements.{apply_placement_patches}
use kode_stream.Canvas.Snapshots.{
  find_layout, validate_snapshot, normalize_snapshot, empty_snapshot,
}

-- How the writing of a file ends, once its content is valid: it is the new generation; an error
-- struck and the previous one stands; the new one stands beside an error of what comes behind it; or
-- both renamings failed, into place and back, and there is no file.
pub data SaveOutcome : Type 0 where
  saved : SaveOutcome
  kept_previous kept_new left_none : String → SaveOutcome

-- How the file system answers an operation: an error of reading the file; the end of a write; and
-- the time of the clock.
pub record Io : Type 0 where
  pub reading : Option String
  pub saving : SaveOutcome
  pub now : ℕ

abbrev pub Bytes : Type 0
Bytes = List ℕ

-- The content of the file, if there is one.
abbrev pub Store : Type 0
Store = Option Bytes

-- `yaml.Marshal`, and the decoding of one document with known fields.
pub record Codec (F : Type 0) : Type 0 where
  pub marshal : Snapshot F → Result String Bytes
  pub decode : Bytes → Result String (Snapshot F)

-- What is written is read back.
abbrev pub IsCodec : {F : Type 0} → Codec F → Type 0
IsCodec {F} codec = (s : Snapshot F) (b : Bytes) → codec.marshal s ≡ ok b → codec.decode b ≡ ok s

unfoldable pub max_canvas_file_bytes : ℕ
max_canvas_file_bytes = 4 * 2 ^ 20

abbrev pub Answer : Type 0 → Type 0
Answer A = Result CanvasError A × Store

-- The node that a conflict of viewports names.
abbrev pub viewport_node : Text
viewport_node = codes "viewport"

module _ {F : Type 0} (floats : Floats F) (codec : Codec F) where
  abbrev pub checked : Snapshot F → Option CanvasError → Result CanvasError (Snapshot F)
  checked s (some e) = err e
  checked s none = ok s

  abbrev pub decoded : Result String (Snapshot F) → Result CanvasError (Snapshot F)
  decoded (err e) = err (storage_error e)
  decoded (ok s) = checked (normalize_snapshot s) (validate_snapshot floats (normalize_snapshot s))

  -- `load`
  unfoldable pub load : Option String → Store → Result CanvasError (Snapshot F)
  load reading none = ok (normalize_snapshot empty_snapshot)
  load (some e) (some b) = err (storage_error e)
  load none (some b) =
      if ltb max_canvas_file_bytes (length b)
      then err (storage_error "canvas file exceeds the read limit")
      else decoded (codec.decode b)

  abbrev pub write : {A : Type 0} → SaveOutcome → A → Result String Bytes → Store → Answer A
  write w a (err e) old = (err (storage_error e), old)
  write saved a (ok b) old = (ok a, some b)
  write (kept_previous e) a (ok b) old = (err (storage_error e), old)
  write (kept_new e) a (ok b) old = (err (storage_error e), some b)
  write (left_none e) a (ok b) old = (err (storage_error e), none)

  abbrev pub write_valid :
      {A : Type 0} → SaveOutcome → A → Snapshot F → Option CanvasError → Store → Answer A
  write_valid w a s (some e) old = (err e, old)
  write_valid w a s none old = write w a (codec.marshal s) old

  -- `save`, with the value that the operation answers if it succeeds.
  unfoldable pub save : {A : Type 0} → SaveOutcome → A → Snapshot F → Store → Answer A
  save w a s old =
      let n = normalize_snapshot s in write_valid w a n (validate_snapshot floats n) old

  abbrev pub checked_save :
      {A : Type 0} → SaveOutcome → A → Snapshot F → Option CanvasError → Store → Answer A
  checked_save w a s (some e) old = (err e, old)
  checked_save w a s none old = save w a s old

  -- The operation on the generation that was loaded.
  abbrev pub on_loaded :
      {A : Type 0}
      → Result CanvasError (Snapshot F)
      → Store
      → (Snapshot F → Store → Answer A)
      → Answer A
  on_loaded (err e) d next = (err e, d)
  on_loaded (ok s) d next = next s d

  abbrev pub is_default : Text → Text → Text → Layout F → Bool
  is_default owner workspace branch l =
      l.owner_user_id == owner && l.workspace_id == workspace && l.branch_key == branch

  unfoldable pub find_default_layout : (Layout F → Bool) → List (Layout F) → Option (Layout F)
  find_default_layout p [] = none
  find_default_layout p (l ∷ ls) = if p l then some l else find_default_layout p ls

  -- `NewLayout`: `digest` is the hexadecimal beginning of a SHA-256, `one` the number 1 and `zero`
  -- the number 0.
  unfoldable pub new_layout :
      (Text → Text) → F → F → Text → Text → Text → ℕ → Result CanvasError (Layout F)
  new_layout digest zero one owner workspace branch now =
      let key = trim_space owner ++ (0 ∷ (trim_space workspace ++ (0 ∷ trim_space branch))) in
      if is_blank workspace || is_blank branch
      then err layout_incomplete
      else ok (record {
        id = codes "canvas-" ++ digest key;
        owner_user_id = trim_space owner;
        workspace_id = trim_space workspace;
        branch_key = trim_space branch;
        viewport = record { x = zero; y = zero; zoom = one };
        version = 1;
        created_at = now;
        updated_at = now;
      })

  -- `FindDefault`
  abbrev pub find_default : Io → Text → Text → Text → Store → Result CanvasError (Option (Layout F))
  find_default io owner workspace branch d =
      load io.reading d
      >>= (λ s. ok (find_default_layout (is_default owner workspace branch) s.layouts))

  abbrev pub resolve_found :
      Io
      → Option (Layout F)
      → Result CanvasError (Layout F)
      → Snapshot F
      → Store
      → Answer (Layout F × Bool)
  resolve_found io (some l) fresh s d = (ok (l, false), d)
  resolve_found io none (err e) s d = (err e, d)
  resolve_found io none (ok l) s d =
      save io.saving (l, true) (record s { layouts = s.layouts ++ (l ∷ []) }) d

  -- `ResolveDefault`; `fresh` is what `NewLayout` answers.
  abbrev pub resolve_default :
      Io → Text → Text → Text → Result CanvasError (Layout F) → Store → Answer (Layout F × Bool)
  resolve_default io owner workspace branch fresh d = on_loaded (load io.reading d) d (λ s.
      resolve_found io (find_default_layout (is_default owner workspace branch) s.layouts) fresh s)

  abbrev pub with_layout : Text → Placement F → Placement F
  with_layout id p = record p { layout_id = id }

  abbrev pub initialized : Layout F → List (Placement F) → Snapshot F → Snapshot F
  initialized l ps s = record s {
    layouts = s.layouts ++ (l ∷ []);
    placements = s.placements ++ map (with_layout l.id) ps;
  }

  abbrev pub initialize_found :
      Io
      → List (Placement F)
      → Option (Layout F)
      → Result CanvasError (Layout F)
      → Snapshot F
      → Store
      → Answer (Layout F × Bool)
  initialize_found io ps (some l) fresh s d = (ok (l, false), d)
  initialize_found io ps none (err e) s d = (err e, d)
  initialize_found io ps none (ok l) s d =
      if length ps == 0 || ltb max_placements (length ps)
      then (err placements_outside, d)
      else checked_save io.saving (l, true) (initialized l ps s)
          (validate_snapshot floats (initialized l ps s)) d

  -- `InitializeDefault`
  abbrev pub initialize_default :
      Io
      → Text
      → Text
      → Text
      → List (Placement F)
      → Result CanvasError (Layout F)
      → Store
      → Answer (Layout F × Bool)
  initialize_default io owner workspace branch ps fresh d = on_loaded (load io.reading d) d (λ s.
      initialize_found io ps (find_default_layout (is_default owner workspace branch) s.layouts)
        fresh s)

  -- `GetLayout`, `Layouts` and `Placements`
  abbrev pub get_layout : Io → Text → Store → Result CanvasError (Option (Layout F))
  get_layout io id d = load io.reading d >>= (λ s. ok (find_layout id s.layouts))

  abbrev pub layout_before : Layout F → Layout F → Bool
  layout_before l m = text_ltb l.id m.id

  abbrev pub layouts : Io → Store → Result CanvasError (List (Layout F))
  layouts io d = load io.reading d >>= (λ s. ok (sort_by layout_before s.layouts))

  abbrev pub node_before : Placement F → Placement F → Bool
  node_before p q = text_ltb p.node_id q.node_id

  abbrev pub listed_placements :
      Text → List (Placement F) → Option (Layout F) → Result CanvasError (List (Placement F))
  listed_placements id ps none = err not_found
  listed_placements id ps (some l) = ok (sort_by node_before (select (λ p. p.layout_id == id) ps))

  abbrev pub placements : Io → Text → Store → Result CanvasError (List (Placement F))
  placements io id d =
      load io.reading d >>= (λ s. listed_placements id s.placements (find_layout id s.layouts))

  -- The end of `applyPlacementPatches`: the first layout of that id was touched.
  unfoldable pub touch_layout : Text → ℕ → List (Layout F) → List (Layout F)
  touch_layout id now [] = []
  touch_layout id now (l ∷ ls) =
      let rest = touch_layout id now ls in
      if l.id == id then record l { updated_at = now } ∷ ls else l ∷ rest

  abbrev pub save_patched :
      Io
      → Layout F
      → Result CanvasError (List (Placement F) × ℕ)
      → Snapshot F
      → Store
      → Answer (Unit {0})
  save_patched io l (err e) s d = (err e, d)
  save_patched io l (ok (ps, count)) s d =
      save io.saving tt (record s { placements = ps; layouts = touch_layout l.id io.now s.layouts })
        d

  abbrev pub patch_layout :
      Io → List (PlacementPatch F) → Option (Layout F) → Snapshot F → Store → Answer (Unit {0})
  patch_layout io patches none s d = (err not_found, d)
  patch_layout io patches (some l) s d =
      save_patched io l (apply_placement_patches floats l io.now patches s.placements) s d

  -- `PatchPlacements`, without the list that it answers.
  unfoldable pub patch_placements : Io → Text → List (PlacementPatch F) → Store → Answer (Unit {0})
  patch_placements io id patches d =
      if length patches == 0 || ltb max_placement_batch (length patches)
      then (err batch_outside, d)
      else on_loaded (load io.reading d) d
          (λ s. patch_layout io patches (find_layout id s.layouts) s)

  -- The loop of `RemovePlacement`: the first placement of the node is hidden.
  unfoldable pub hide_placement :
      Text → Text → ℕ → ℕ → List (Placement F) → Result CanvasError (List (Placement F))
  hide_placement id node revision now [] = err not_found
  hide_placement id node revision now (p ∷ ps) =
      let rest = hide_placement id node revision now ps in
      if p.layout_id == id && p.node_id == node
      then if p.revision == revision
        then ok (record p { hidden = true; revision = suc p.revision; updated_at = now } ∷ ps)
        else err (placement_conflict (node ∷ []))
      else rest >>= (λ qs. ok (p ∷ qs))

  abbrev pub save_hidden :
      Io → Result CanvasError (List (Placement F)) → Snapshot F → Store → Answer (Unit {0})
  save_hidden io (err e) s d = (err e, d)
  save_hidden io (ok ps) s d = save io.saving tt (record s { placements = ps }) d

  abbrev pub remove_from :
      Io → Text → Text → ℕ → Option (Layout F) → Snapshot F → Store → Answer (Unit {0})
  remove_from io id node revision none s d = (err not_found, d)
  remove_from io id node revision (some l) s d =
      save_hidden io (hide_placement id node revision io.now s.placements) s d

  -- `RemovePlacement`
  unfoldable pub remove_placement : Io → Text → Text → ℕ → Store → Answer (Unit {0})
  remove_placement io id node revision d =
      on_loaded (load io.reading d) d
        (λ s. remove_from io id node revision (find_layout id s.layouts) s)

  -- The loop of `SaveViewport`, which answers the layout that it has changed.
  unfoldable pub set_viewport :
      Text → ℕ → ℕ → Viewport F → List (Layout F) → Result CanvasError (Layout F × List (Layout F))
  set_viewport id version now v [] = err not_found
  set_viewport id version now v (l ∷ ls) =
      let rest = set_viewport id version now v ls in
      let changed = record l { viewport = v; version = suc l.version; updated_at = now } in
      if l.id == id
      then if l.version == version
        then ok (changed, changed ∷ ls)
        else err (placement_conflict (viewport_node ∷ []))
      else rest >>= (λ (m, ms). ok (m, l ∷ ms))

  abbrev pub save_layout :
      Io → Result CanvasError (Layout F × List (Layout F)) → Snapshot F → Store → Answer (Layout F)
  save_layout io (err e) s d = (err e, d)
  save_layout io (ok (l, ls)) s d = save io.saving l (record s { layouts = ls }) d

  abbrev pub unless_outside :
      Io → Text → ℕ → Viewport F → Option CanvasError → Store → Answer (Layout F)
  unless_outside io id version v (some e) d = (err e, d)
  unless_outside io id version v none d =
      on_loaded (load io.reading d) d
        (λ s. save_layout io (set_viewport id version io.now v s.layouts) s)

  -- `SaveViewport`
  unfoldable pub save_viewport : Io → Text → ℕ → Viewport F → Store → Answer (Layout F)
  save_viewport io id version v d = unless_outside io id version v (validate_viewport floats v) d

  -- `ReplaceAll`
  abbrev pub replace_all : Io → Snapshot F → Store → Answer (Unit {0})
  replace_all io s d =
      checked_save io.saving tt (normalize_snapshot s)
        (validate_snapshot floats (normalize_snapshot s)) d
