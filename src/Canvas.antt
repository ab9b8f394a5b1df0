-- ===== src/Canvas.antt =====
-- The layouts of the canvas and their placements: internal/canvas.
pub mod Placements
pub mod Snapshots
pub mod Repository
mod Tests
use kode_stream.Prelude.{
  ℕ, Bool, true, false, not, ◌&&◌, ◌||◌, List, [], ◌∷◌, ◌++◌, Option, none, some, String,
  if◌then◌else◌, Text, codes, text_eq, ◌==◌, trim_space, ltb,
}

pub data EntityKind : Type 0 where
  workspace_entity plan_entity session_entity : EntityKind
  other_entity : Text → EntityKind

-- The numbers of a position are of a type `F`; what the code asks of a `float64` is a `Floats F`.
pub record Floats (F : Type 0) : Type 0 where
  pub is_nan : F → Bool
  pub is_inf : F → Bool
  pub abs : F → F
  pub less : F → F → Bool
  pub max_coordinate : F
  pub min_zoom : F
  pub max_zoom : F

pub record Viewport (F : Type 0) : Type 0 where
  pub x : F
  pub y : F
  pub zoom : F

pub record Position (F : Type 0) : Type 0 where
  pub x : F
  pub y : F

pub record EntityRef : Type 0 where
  pub kind : EntityKind
  pub workspace_id : Text
  pub item_id : Text
  pub item_path : Text
  pub identifier : Text
  pub branch_key : Text
  pub observed_commit : Text
  pub session_id : Text

-- Versions and revisions count up from 1; a time is the reading of a clock.
pub record Layout (F : Type 0) : Type 0 where
  pub id : Text
  pub owner_user_id : Text
  pub workspace_id : Text
  pub branch_key : Text
  pub viewport : Viewport F
  pub version : ℕ
  pub created_at : ℕ
  pub updated_at : ℕ

pub record Placement (F : Type 0) : Type 0 where
  pub layout_id : Text
  pub node_id : Text
  pub entity_ref : EntityRef
  pub position : Position F
  pub collapsed : Bool
  pub hidden : Bool
  pub revision : ℕ
  pub updated_at : ℕ

pub record PlacementPatch (F : Type 0) : Type 0 where
  pub node_id : Text
  pub entity_ref : EntityRef
  pub position : Position F
  pub collapsed : Bool
  pub expected_revision : ℕ

pub record Snapshot (F : Type 0) : Type 0 where
  pub version : ℕ
  pub layouts : List (Layout F)
  pub placements : List (Placement F)

pub data CanvasError : Type 0 where
  layout_incomplete version_not_positive viewport_outside : CanvasError
  node_required revision_not_positive position_outside : CanvasError
  foreign_reference mixed_reference incomplete_plan plan_branch_differs : CanvasError
  session_required session_branch_differs : CanvasError
  unsupported_kind : Text → CanvasError
  duplicate_layout : Text → CanvasError
  duplicate_default : CanvasError
  unknown_layout duplicate_placement : Text → CanvasError
  too_many_placements : CanvasError
  invalid_batch batch_outside placements_outside : CanvasError
  placement_conflict : List Text → CanvasError
  not_found : CanvasError
  storage_error : String → CanvasError

abbrev pub max_placements : ℕ
max_placements = 300

abbrev pub max_placement_batch : ℕ
max_placement_batch = 50

abbrev pub is_empty : Text → Bool
is_empty [] = true
is_empty (c ∷ s) = false

abbrev pub is_blank : Text → Bool
is_blank s = is_empty (trim_space s)

abbrev pub error_if : Bool → CanvasError → Option CanvasError
error_if true e = some e
error_if false e = none

abbrev pub or_else : Option CanvasError → Option CanvasError → Option CanvasError
or_else (some e) later = some e
or_else none later = later

module _ {F : Type 0} (floats : Floats F) where
  -- `finiteCoordinate`
  abbrev pub finite_coordinate : F → Bool
  finite_coordinate v =
      not (floats.is_nan v)
      && not (floats.is_inf v)
      && not (floats.less floats.max_coordinate (floats.abs v))

  -- `validateViewport`
  unfoldable pub validate_viewport : Viewport F → Option CanvasError
  validate_viewport v =
      error_if
        (not (finite_coordinate v.x)
          || not (finite_coordinate v.y)
          || floats.is_nan v.zoom
          || floats.is_inf v.zoom
          || floats.less v.zoom floats.min_zoom
          || floats.less floats.max_zoom v.zoom)
        viewport_outside

  -- `validateLayout`
  unfoldable pub validate_layout : Layout F → Option CanvasError
  unfolding validate_viewport
  validate_layout l =
      or_else
        (error_if (is_blank l.id || is_blank l.workspace_id || is_blank l.branch_key)
          layout_incomplete)
        (or_else (error_if (ltb l.version 1) version_not_positive) (validate_viewport l.viewport))

  abbrev pub kind_error : Layout F → EntityRef → EntityKind → Option CanvasError
  kind_error l ref workspace_entity =
      error_if (not (is_empty ref.item_id) || not (is_empty ref.session_id)) mixed_reference
  kind_error l ref plan_entity =
      or_else
        (error_if (is_blank ref.item_id || is_blank ref.item_path || is_blank ref.branch_key)
          incomplete_plan)
        (error_if (not (ref.branch_key == l.branch_key)) plan_branch_differs)
  kind_error l ref session_entity = or_else (error_if (is_blank ref.session_id) session_required) (
      error_if (not (is_empty ref.branch_key) && not (ref.branch_key == l.branch_key))
        session_branch_differs)
  kind_error l ref (other_entity kind) = some (unsupported_kind kind)

  -- `validateEntityRef`
  unfoldable pub validate_entity_ref : Layout F → EntityRef → Option CanvasError
  validate_entity_ref l ref =
      or_else
        (error_if (is_blank ref.workspace_id || not (ref.workspace_id == l.workspace_id))
          foreign_reference)
        (kind_error l ref ref.kind)

  -- `validatePlacement`
  unfoldable pub validate_placement : Layout F → Placement F → Option CanvasError
  unfolding validate_entity_ref
  validate_placement l p = or_else (error_if (is_blank p.node_id) node_required) (
      or_else (error_if (ltb p.revision 1) revision_not_positive) (
        or_else
          (error_if (not (finite_coordinate p.position.x) || not (finite_coordinate p.position.y))
            position_outside)
          (validate_entity_ref l p.entity_ref)))
