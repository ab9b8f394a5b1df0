-- ===== src/Canvas/Placements.antt =====
-- Patching the placements of a layout: `applyPlacementPatches` of
-- internal/canvas/file_repository.go.
pub mod Laws
pub mod Conflicts
pub mod Batches
use kode_stream.Prelude.{
  ℕ, suc, zero, ◌+◌, Bool, true, false, not, ◌&&◌, ◌||◌, List, [], ◌∷◌, ◌++◌, Option, none, some,
  Result, ok, err, ◌>>=◌, if◌then◌else◌, Text, text_eq, nat_eq, ◌==◌, ltb, Map, put, empty_map,
}
use kode_stream.Canvas.{
  Floats, Layout, Placement, PlacementPatch, Snapshot, CanvasError, invalid_batch,
  placement_conflict, too_many_placements, validate_placement, max_placements, is_empty,
}

abbrev pub add_conflict :
    Bool → Text → Result CanvasError (List Text) → Result CanvasError (List Text)
add_conflict differing node (err e) = err e
add_conflict differing node (ok nodes) = if differing then ok (node ∷ nodes) else ok nodes

-- The state of the third loop: the placements and their number.
abbrev pub Applied : Type 0 → Type 0
Applied F = Result CanvasError (List (Placement F) × ℕ)

module _ {F : Type 0} where
  -- Reading and writing a slice at an index.
  abbrev pub at : List (Placement F) → ℕ → Option (Placement F)
  at [] i = none
  at (p ∷ ps) zero = some p
  at (p ∷ ps) (suc i) = at ps i

  abbrev pub set_at : ℕ → Placement F → List (Placement F) → List (Placement F)
  set_at i q [] = []
  set_at zero q (p ∷ ps) = q ∷ ps
  set_at (suc i) q (p ∷ ps) = p ∷ set_at i q ps

  -- The first loop: where the placements of the layout stand, the last one of a node, and how many
  -- there are.
  unfoldable pub index_placements : Text → ℕ → List (Placement F) → Map Text ℕ → ℕ → Map Text ℕ × ℕ
  index_placements layout i [] existing count = (existing, count)
  index_placements layout i (p ∷ ps) existing count =
      if p.layout_id == layout
      then index_placements layout (suc i) ps (put p.node_id i existing) (suc count)
      else index_placements layout (suc i) ps existing count

  abbrev pub revision_of : Option (Placement F) → ℕ
  revision_of none = 0
  revision_of (some p) = p.revision

  -- The placement that stands at the index that is known for a node.
  abbrev pub current_at : List (Placement F) → Option ℕ → Option (Placement F)
  current_at ps none = none
  current_at ps (some i) = at ps i

  abbrev pub differs : List (Placement F) → Map Text ℕ → PlacementPatch F → Bool
  differs ps existing patch =
      not (revision_of (current_at ps (existing patch.node_id)) == patch.expected_revision)

  -- The second loop: the nodes whose revision is not the one that the patch expects, or an error.
  unfoldable pub find_conflicts :
      List (Placement F)
      → Map Text ℕ
      → (Text → Bool)
      → List (PlacementPatch F)
      → Result CanvasError (List Text)
  find_conflicts ps existing seen [] = ok []
  find_conflicts ps existing seen (patch ∷ patches) =
      let rest =
        find_conflicts ps existing (λ n. if patch.node_id == n then true else seen n) patches in
      if seen patch.node_id || is_empty patch.node_id
      then err invalid_batch
      else add_conflict (differs ps existing patch) patch.node_id rest

  -- What a patch makes of the placement that is there, or of none.
  abbrev pub patched : Layout F → ℕ → PlacementPatch F → Option (Placement F) → Placement F
  patched l now patch none = record {
    layout_id = l.id;
    node_id = patch.node_id;
    entity_ref = patch.entity_ref;
    position = patch.position;
    collapsed = patch.collapsed;
    hidden = false;
    revision = 1;
    updated_at = now;
  }
  patched l now patch (some current) = record {
    layout_id = l.id;
    node_id = patch.node_id;
    entity_ref = current.entity_ref;
    position = patch.position;
    collapsed = patch.collapsed;
    hidden = current.hidden;
    revision = suc current.revision;
    updated_at = now;
  }

  abbrev pub unless_invalid : Option CanvasError → List (Placement F) × ℕ → Applied F
  unless_invalid (some e) next = err e
  unless_invalid none next = ok next

module _ {F : Type 0} (floats : Floats F) (l : Layout F) (now : ℕ) where
  -- One patch: its placement is replaced at its index, or appended.
  abbrev pub apply_at :
      PlacementPatch F → Option ℕ → Option (Placement F) → List (Placement F) × ℕ → Applied F
  apply_at patch (some i) (some current) (ps, count) =
      let p = patched l now patch (some current) in
      unless_invalid (validate_placement floats l p) (set_at i p ps, count)
  apply_at patch known current (ps, count) =
      let p = patched l now patch none in
      if ltb max_placements (suc count)
      then err too_many_placements
      else unless_invalid (validate_placement floats l p) (ps ++ (p ∷ []), suc count)

  unfoldable pub apply_each :
      Map Text ℕ → List (PlacementPatch F) → List (Placement F) × ℕ → Applied F
  apply_each existing [] state = ok state
  apply_each existing (patch ∷ patches) (ps, count) =
      apply_at patch (existing patch.node_id) (current_at ps (existing patch.node_id)) (ps, count)
      >>= (λ next. apply_each existing patches next)

  abbrev pub unless_conflicts : Result CanvasError (List Text) → Applied F → Applied F
  unless_conflicts (err e) rest = err e
  unless_conflicts (ok []) rest = rest
  unless_conflicts (ok (n ∷ nodes)) rest = err (placement_conflict (n ∷ nodes))

  abbrev pub apply_indexed :
      List (PlacementPatch F) → List (Placement F) → Map Text ℕ × ℕ → Applied F
  apply_indexed patches ps (existing, count) =
      unless_conflicts (find_conflicts ps existing (λ n. false) patches)
        (apply_each existing patches (ps, count))

  -- `applyPlacementPatches`, as far as the placements go.
  unfoldable pub apply_placement_patches : List (PlacementPatch F) → List (Placement F) → Applied F
  unfolding apply_each
  apply_placement_patches patches ps =
      apply_indexed patches ps (index_placements l.id 0 ps empty_map 0)
