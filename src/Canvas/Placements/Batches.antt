-- ===== src/Canvas/Placements/Batches.antt =====
-- What a batch of patches does to the placements of a layout.
use kode_stream.Prelude.{
  ◌≢◌, select_alike, ℕ, suc, ◌≡◌, refl, sym, ap, ◌∙◌, subst, Bool, false, not, List, [], ◌∷◌,
  Option, none, some, err, if◌then◌else◌, Text, text_eq, nat_eq, ◌==◌, Map, empty_map, All, select,
  arith, inl, inr, Result-cases,
}
use kode_stream.Canvas.{Floats, Layout, Placement, PlacementPatch, placement_conflict}
use kode_stream.Canvas.Placements.{
  at, index_placements, revision_of, current_at, differs, find_conflicts, patched,
  apply_placement_patches,
}
use kode_stream.Canvas.Placements.Laws.{
  later, position_of, last_of, position-none, position-some, index-position_of,
}
use kode_stream.Canvas.Placements.Conflicts.{
  nodes_of, conflicts-IsFresh, conflicts-err, is_conflict, apply_each-plain,
}

module _ {F : Type 0} (floats : Floats F) (l : Layout F) (now : ℕ) where
  -- What a patch makes of a node: its position, and whether it is collapsed, are those of the patch.
  -- A placement that was there keeps its entity and stays hidden, and its revision goes up by one;
  -- one that was not there has the entity of the patch, is shown and has revision 1.
  abbrev pub written_by : PlacementPatch F → Option (Placement F) → Placement F
  written_by patch none = record {
    layout_id = l.id;
    node_id = patch.node_id;
    entity_ref = patch.entity_ref;
    position = patch.position;
    collapsed = patch.collapsed;
    hidden = false;
    revision = 1;
    updated_at = now;
  }
  written_by patch (some old) = record {
    layout_id = l.id;
    node_id = patch.node_id;
    entity_ref = old.entity_ref;
    position = patch.position;
    collapsed = patch.collapsed;
    hidden = old.hidden;
    revision = suc old.revision;
    updated_at = now;
  }

  -- What the patches make of the placement of a node.
  abbrev pub patched_by :
      List (PlacementPatch F) → Text → Option (Placement F) → Option (Placement F)
  patched_by [] n current = current
  patched_by (patch ∷ patches) n current =
      patched_by patches n (if patch.node_id == n then some (written_by patch current) else current)

  -- What is known of a node is where it stands, for the nodes that are still to be patched.
  IsIndexed : Map Text ℕ → List (PlacementPatch F) → List (Placement F) → Type 0
  IsIndexed existing patches ps =
      All (λ (patch : PlacementPatch F). existing patch.node_id ≡ position_of l.id patch.node_id ps)
        patches

  abbrev pub is_elsewhere : Placement F → Bool
  is_elsewhere p = not (p.layout_id == l.id)

  indexed :
      (ps : List (Placement F)) (n : Text)
      → (index_placements l.id 0 ps empty_map 0).0 n ≡ position_of l.id n ps
  indexed ps n = index-position_of l.id 0 0 ps empty_map n ∙ from_start (position_of l.id n ps)
    where
      from_start : (o : Option ℕ) → later 0 o none ≡ o
      from_start none = refl
      from_start (some j) = ap some (omega arith)

  -- The placement at the index that is known is the last one of the node.
  current :
      (ps : List (Placement F)) (n : Text)
      → current_at ps ((index_placements l.id 0 ps empty_map 0).0 n) ≡ last_of l.id n ps
  current ps n = ap (current_at ps) (indexed ps n) ∙ stands_at (position_of l.id n ps) refl
    where
      stands_at : (o : Option ℕ) → position_of l.id n ps ≡ o → current_at ps o ≡ last_of l.id n ps
      stands_at none h = sym (position-none l.id n ps h)
      stands_at (some i) h =
          let (q, there, named, last) = position-some l.id n ps i h in there ∙ sym last

  -- One patch on the placements `ps`, with `next` and its number as the result.
  record IsStep (patch : PlacementPatch F) (ps next : List (Placement F)) : Type 0 where
    views :
        (m : Text)
        → last_of l.id m next ≡ (
            if patch.node_id == m
            then some (patched l now patch (last_of l.id patch.node_id ps))
            else last_of l.id m ps)
    stands :
        (m : Text) → (patch.node_id == m) ≡ false → position_of l.id m next ≡ position_of l.id m ps
    elsewhere : select is_elsewhere next ≡ select is_elsewhere ps

  -- A batch that is refused for a conflict names the nodes whose revision is not the expected one,
  -- 0 standing for a node that the layout does not have, and there is such a node.
  pub apply-conflicts :
      (patches : List (PlacementPatch F)) (ps : List (Placement F)) (nodes : List Text)
      → apply_placement_patches floats l now patches ps ≡ err (placement_conflict nodes)
      → (nodes ≢ [])
        × (nodes
            ≡ nodes_of (
                select
                  (λ (patch : PlacementPatch F).
                    not (revision_of (last_of l.id patch.node_id ps) == patch.expected_revision))
                  patches))
  unfolding apply_placement_patches
  apply-conflicts patches ps nodes done =
      let existing : Map Text ℕ = (index_placements l.id 0 ps empty_map 0).0 in
      let state : List (Placement F) × ℕ = (ps, (index_placements l.id 0 ps empty_map 0).1) in
      elim (Result-cases (find_conflicts ps existing (λ n. false) patches)) [
        | inr (e, h) ↦
            let named = ap is_conflict (sym (conflicts-err ps existing (λ n. false) patches e h)) in
            let same : e ≡ placement_conflict nodes = let g = rw h at done in cc in
            let bad = named ∙ ap is_conflict same in cc
        | inl ([], h) ↦
            let plain =
              apply_each-plain floats l now existing patches state (placement_conflict nodes)
                (rw h at done) in
            cc
        | inl (n ∷ rest, h) ↦
            let same : n ∷ rest ≡ nodes = let g = rw h at done in cc in
            let (fresh, listed) = conflicts-IsFresh ps existing (λ n. false) patches (n ∷ rest) h in
            (
              subst (λ k. k ≢ []) same (λ e. cc),
              sym same
                  ∙ listed
                  ∙ ap nodes_of (
                      select_alike (differs ps existing)
                        (λ (patch : PlacementPatch F).
                          not (
                            revision_of (last_of l.id patch.node_id ps) == patch.expected_revision))
                        (λ patch.
                          ap (λ o. not (revision_of o == patch.expected_revision))
                            (current ps patch.node_id))
                        patches),
            )
      ]
