-- ===== src/Canvas/Snapshots.antt =====
-- The validation of a canvas file: `ValidateSnapshot` and `normalizeSnapshot` of
-- internal/canvas/repository.go.
pub mod Laws
use kode_stream.Prelude.{
  ℕ, zero, suc, Bool, true, false, List, [], ◌∷◌, ◌++◌, map, Option, none, some, if◌then◌else◌,
  Text, text_eq, ◌==◌, ltb,
}
use kode_stream.Canvas.{
  Floats, EntityKind, session_entity, Layout, Placement, Snapshot, CanvasError, duplicate_layout,
  duplicate_default, unknown_layout, duplicate_placement, too_many_placements, or_else, error_if,
  validate_layout, validate_placement, max_placements,
}

module _ {F : Type 0} where
  unfoldable pub find_layout : Text → List (Layout F) → Option (Layout F)
  find_layout id [] = none
  find_layout id (l ∷ ls) = if l.id == id then some l else find_layout id ls

  -- The keys of the maps: the parts joined by a NUL.
  abbrev pub default_key : Layout F → Text
  default_key l = l.owner_user_id ++ (0 ∷ (l.workspace_id ++ (0 ∷ l.branch_key)))

  abbrev pub node_key : Placement F → Text
  node_key p = p.layout_id ++ (0 ∷ p.node_id)

  abbrev pub is_marked : Option (Layout F) → Bool
  is_marked none = false
  is_marked (some l) = true

abbrev pub mark : Text → (Text → Bool) → Text → Bool
mark k seen j = if k == j then true else seen j

abbrev pub count_up : Text → (Text → ℕ) → Text → ℕ
count_up k counts j = if k == j then suc (counts j) else counts j

module _ {F : Type 0} (floats : Floats F) where
  -- The loop over the layouts; `known` holds those that have been seen.
  unfoldable pub validate_layouts :
      List (Layout F) → (Text → Bool) → List (Layout F) → Option CanvasError
  unfolding find_layout
  validate_layouts known unique [] = none
  validate_layouts known unique (l ∷ ls) = or_else (validate_layout floats l) (
      or_else (error_if (is_marked (find_layout l.id known)) (duplicate_layout l.id)) (
        or_else (error_if (unique (default_key l)) duplicate_default)
          (validate_layouts (l ∷ known) (mark (default_key l) unique) ls)))

  abbrev pub placement_error : Placement F → Option (Layout F) → Option CanvasError
  placement_error p none = some (unknown_layout p.node_id)
  placement_error p (some l) = validate_placement floats l p

  -- The loop over the placements, which counts those of each layout.
  unfoldable pub validate_placements :
      List (Layout F) → (Text → Bool) → (Text → ℕ) → List (Placement F) → Option CanvasError
  unfolding find_layout
  validate_placements layouts nodes counts [] = none
  validate_placements layouts nodes counts (p ∷ ps) =
      or_else (placement_error p (find_layout p.layout_id layouts)) (
        or_else (error_if (nodes (node_key p)) (duplicate_placement p.node_id)) (
          or_else (error_if (ltb max_placements (suc (counts p.layout_id))) too_many_placements) (
            validate_placements layouts (mark (node_key p) nodes) (count_up p.layout_id counts)
              ps)))

  -- `ValidateSnapshot`
  unfoldable pub validate_snapshot : Snapshot F → Option CanvasError
  unfolding validate_layouts validate_placements
  validate_snapshot s =
      or_else (validate_layouts [] (λ k. false) s.layouts)
        (validate_placements s.layouts (λ k. false) (λ k. 0) s.placements)

abbrev pub current_snapshot_version : ℕ
current_snapshot_version = 2

module _ {F : Type 0} where
  abbrev pub collapse_kind : EntityKind → Placement F → Placement F
  collapse_kind session_entity p = record p { collapsed = true }
  collapse_kind _ p = p

  abbrev pub collapse_session : Placement F → Placement F
  collapse_session p = collapse_kind p.entity_ref.kind p

  -- `normalizeSnapshot`
  unfoldable pub normalize_snapshot : Snapshot F → Snapshot F
  normalize_snapshot s =
      if ltb s.version current_snapshot_version
      then record s {
        placements = map collapse_session s.placements;
        version = current_snapshot_version;
      }
      else s

  abbrev pub empty_snapshot : Snapshot F
  empty_snapshot = record { version = 0; layouts = []; placements = [] }
