-- ===== src/Canvas/Snapshots/Laws.antt =====
-- What a valid canvas file holds.
use kode_stream.Prelude.{
  ℕ, suc, ◌+◌, ◌≤◌, ◌≡◌, refl, subst, Bool, true, false, List, [], ◌∷◌, Option, none, some, Text,
  text_eq, text_beq_iff, ◌==◌, ltb, All, select, length, arith, inl, inr, Bool-cases,
}
use kode_stream.Canvas.{
  Floats, Layout, Placement, Snapshot, CanvasError, or_else, error_if, too_many_placements,
  duplicate_placement, max_placements,
}
use kode_stream.Canvas.Snapshots.{
  find_layout, node_key, mark, count_up, validate_layouts, placement_error, validate_placements,
  validate_snapshot,
}

pub or_else-none : (a b : Option CanvasError) → or_else a b ≡ none → (a ≡ none) × (b ≡ none)
or_else-none (some e) b h = cc
or_else-none none b h = (refl, h)

pub error_if-none : (b : Bool) (e : CanvasError) → error_if b e ≡ none → b ≡ false
error_if-none true e h = cc
error_if-none false e h = refl

module _ {F : Type 0} where
  abbrev pub of_layout : Text → Placement F → Bool
  of_layout id p = p.layout_id == id

  abbrev pub placements_of : Text → List (Placement F) → List (Placement F)
  placements_of id ps = select (of_layout id) ps

  -- No two placements of one node, by the joined key.
  abbrev pub IsDistinct : List (Placement F) → Type 0
  IsDistinct [] = Unit
  IsDistinct (p ∷ ps) = All (λ q. (node_key p == node_key q) ≡ false) ps × IsDistinct ps

ltb-ge : (m n : ℕ) → ltb m n ≡ false → n ≤ m
ltb-ge m n h = ground arith

split_marked :
    {F : Type 0} (k : Text) (nodes : Text → Bool) (ps : List (Placement F))
    → All (λ q. mark k nodes (node_key q) ≡ false) ps
    → All (λ q. (k == node_key q) ≡ false) ps × All (λ q. nodes (node_key q) ≡ false) ps
split_marked k nodes [] h = (tt, tt)
split_marked k nodes (p ∷ ps) (h, hs) =
    let (a, b) = split_marked k nodes ps hs in
    elim (Bool-cases (k == node_key p)) [
      | inl t ↦ let bad = rw t at h in cc
      | inr f ↦ ((f, a), (rw f at h, b))
    ]

module _ {F : Type 0} (floats : Floats F) where
  placements-few :
      (layouts : List (Layout F)) (nodes : Text → Bool) (counts : Text → ℕ)
      (ps : List (Placement F)) (id : Text)
      → validate_placements floats layouts nodes counts ps ≡ none
      → counts id ≤ max_placements
      → counts id + length (placements_of id ps) ≤ max_placements
  unfolding validate_placements
  placements-few layouts nodes counts [] id h le = omega (arith, le)
  placements-few layouts nodes counts (p ∷ ps) id h le =
      let (fine, more) =
        or_else-none (placement_error floats p (find_layout p.layout_id layouts)) _ h in
      let (new, rest) =
        or_else-none (error_if (nodes (node_key p)) (duplicate_placement p.node_id)) _ more in
      let (few, next) =
        or_else-none (error_if (ltb max_placements (suc (counts p.layout_id))) too_many_placements)
          _ rest in
      elim (Bool-cases (p.layout_id == id)) [
        | inl t ↦
            let e : p.layout_id ≡ id = (text_beq_iff p.layout_id id).0 t in
            let room : ltb max_placements (suc (counts p.layout_id)) ≡ false =
              error_if-none _ too_many_placements few in
            let fits : suc (counts id) ≤ max_placements =
              subst (λ k. suc (counts k) ≤ max_placements) e
                (ltb-ge max_placements (suc (counts p.layout_id)) room) in
            let up : count_up p.layout_id counts id ≡ suc (counts id) = rw t refl in
            let ih =
              placements-few layouts (mark (node_key p) nodes) (count_up p.layout_id counts) ps id
                next (omega (arith, up, fits)) in
            rw t (omega (arith, ih, up))
        | inr f ↦
            let up : count_up p.layout_id counts id ≡ counts id = rw f refl in
            let ih =
              placements-few layouts (mark (node_key p) nodes) (count_up p.layout_id counts) ps id
                next (omega (arith, up, le)) in
            rw f (omega (arith, ih, up))
      ]

  placements-IsDistinct :
      (layouts : List (Layout F)) (nodes : Text → Bool) (counts : Text → ℕ)
      (ps : List (Placement F))
      → validate_placements floats layouts nodes counts ps ≡ none
      → IsDistinct ps × All (λ q. nodes (node_key q) ≡ false) ps
  unfolding validate_placements
  placements-IsDistinct layouts nodes counts [] h = (tt, tt)
  placements-IsDistinct layouts nodes counts (p ∷ ps) h =
      let (fine, more) =
        or_else-none (placement_error floats p (find_layout p.layout_id layouts)) _ h in
      let (new, rest) =
        or_else-none (error_if (nodes (node_key p)) (duplicate_placement p.node_id)) _ more in
      let (few, next) =
        or_else-none (error_if (ltb max_placements (suc (counts p.layout_id))) too_many_placements)
          _ rest in
      let (distinct, fresh) =
        placements-IsDistinct layouts (mark (node_key p) nodes) (count_up p.layout_id counts) ps
          next in
      let unmarked = split_marked (node_key p) nodes ps fresh in
      (
        (unmarked.0, distinct),
        (error_if-none (nodes (node_key p)) (duplicate_placement p.node_id) new, unmarked.1),
      )

  -- In a canvas file that is valid no layout has more than 300 placements, and no two placements
  -- have one layout and node, joined by a NUL.
  pub validate_snapshot-bounded :
      (s : Snapshot F) (id : Text)
      → validate_snapshot floats s ≡ none
      → (length (placements_of id s.placements) ≤ max_placements) × IsDistinct s.placements
  unfolding validate_snapshot
  validate_snapshot-bounded s id h =
      let (first, second) = or_else-none (validate_layouts floats [] (λ k. false) s.layouts) _ h in
      (
        omega (
          arith,
          placements-few s.layouts (λ k. false) (λ k. 0) s.placements id second (omega arith),
        ),
        (placements-IsDistinct s.layouts (λ k. false) (λ k. 0) s.placements second).0,
      )
