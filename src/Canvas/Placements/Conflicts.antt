-- ===== src/Canvas/Placements/Conflicts.antt =====
-- When a batch of patches is refused: the nodes that come twice, the conflicts, and the errors that
-- are no conflicts.
use kode_stream.Prelude.{
  ℕ, suc, ◌≡◌, refl, sym, ap, ◌∙◌, subst, Bool, true, false, not, ◌||◌, List, [], ◌∷◌, ◌++◌, map,
  Option, none, some, Result, ok, err, ok-injective, if◌then◌else◌, Text, text_eq, nat_eq, ◌==◌,
  ltb, Map, select, arith, inl, inr, Bool-cases, Result-cases,
}
use kode_stream.Canvas.{
  Floats, Layout, Placement, PlacementPatch, CanvasError, invalid_batch, placement_conflict,
  error_if, is_blank, finite_coordinate, or_else, kind_error, validate_entity_ref, EntityRef,
  EntityKind, workspace_entity, plan_entity, session_entity, other_entity, node_required,
  revision_not_positive, position_outside, foreign_reference, too_many_placements,
  validate_placement, max_placements, is_empty,
}
use kode_stream.Canvas.Placements.{
  current_at, differs, add_conflict, find_conflicts, patched, unless_invalid, apply_at, apply_each,
}
use kode_stream.Canvas.Placements.Laws.{later}

module _ {F : Type 0} where
  -- The nodes of a batch are not empty, and none comes twice or is among `seen`.
  abbrev pub IsFresh : (Text → Bool) → List (PlacementPatch F) → Type 0
  IsFresh seen [] = Unit
  IsFresh seen (patch ∷ patches) =
      (seen patch.node_id ≡ false)
      × IsFresh (λ n. if patch.node_id == n then true else seen n) patches

  abbrev pub nodes_of : List (PlacementPatch F) → List Text
  nodes_of patches = map (λ (p : PlacementPatch F). p.node_id) patches

  pub conflicts-IsFresh :
      (ps : List (Placement F)) (existing : Map Text ℕ) (seen : Text → Bool)
      (patches : List (PlacementPatch F)) (nodes : List Text)
      → find_conflicts ps existing seen patches ≡ ok nodes
      → IsFresh seen patches × (nodes ≡ nodes_of (select (differs ps existing) patches))
  unfolding find_conflicts
  conflicts-IsFresh ps existing seen [] nodes h = (tt, sym (ok-injective h))
  conflicts-IsFresh ps existing seen (patch ∷ patches) nodes h =
      elim (Bool-cases (seen patch.node_id || is_empty patch.node_id)) [
        | inl t ↦ let bad = rw t at h in cc
        | inr f ↦
            let fresh : seen patch.node_id ≡ false = ground arith in
            let more : Text → Bool = λ n. if patch.node_id == n then true else seen n in
            elim (Result-cases (find_conflicts ps existing more patches)) [
              | inr (e, g) ↦ let bad = rw (f, g) at h in cc
              | inl (rest, g) ↦
                  let (later_fresh, same) = conflicts-IsFresh ps existing more patches rest g in
                  (
                    (fresh, later_fresh),
                    listed (differs ps existing patch) rest same (rw (f, g) at h),
                  )
            ]
      ]
    where
      listed :
          (b : Bool) (rest : List Text)
          → rest ≡ nodes_of (select (differs ps existing) patches)
          → add_conflict b patch.node_id (ok rest) ≡ ok nodes
          → nodes
            ≡ nodes_of (
                if b
                then patch ∷ select (differs ps existing) patches
                else select (differs ps existing) patches)
      listed true rest same e = sym (ok-injective e) ∙ ap (λ k. patch.node_id ∷ k) same
      listed false rest same e = sym (ok-injective e) ∙ same

abbrev pub is_conflict : CanvasError → Bool
is_conflict (placement_conflict nodes) = true
is_conflict _ = false

abbrev is_plain : Option CanvasError → Bool
is_plain none = true
is_plain (some e) = not (is_conflict e)

pub conflicts-err :
    {F : Type 0} (ps : List (Placement F)) (existing : Map Text ℕ) (seen : Text → Bool)
    (patches : List (PlacementPatch F)) (e : CanvasError)
    → find_conflicts ps existing seen patches ≡ err e
    → e ≡ invalid_batch
unfolding find_conflicts
conflicts-err ps existing seen [] e h = cc
conflicts-err ps existing seen (patch ∷ patches) e h =
    elim (Bool-cases (seen patch.node_id || is_empty patch.node_id)) [
      | inl t ↦ let k = rw t at h in cc
      | inr f ↦
          let more : Text → Bool = λ n. if patch.node_id == n then true else seen n in
          elim (Result-cases (find_conflicts ps existing more patches)) [
            | inr (d, g) ↦
                let k : ◌≡◌ {A = Result CanvasError (List Text)} (err d) (err e) = rw (f, g) at h in
                let same : d ≡ e = cc in sym same ∙ conflicts-err ps existing more patches d g
            | inl (rest, g) ↦ no_error (differs ps existing patch) rest (rw (f, g) at h)
          ]
    ]
  where
    no_error :
        (b : Bool) (rest : List Text)
        → add_conflict b patch.node_id (ok rest) ≡ err e
        → e ≡ invalid_batch
    no_error true rest h = cc
    no_error false rest h = cc

is_plain-or_else :
    (b : Bool) (e : CanvasError) (later : Option CanvasError)
    → is_conflict e ≡ false
    → is_plain later ≡ true
    → is_plain (or_else (error_if b e) later) ≡ true
is_plain-or_else true e later h k = rw h refl
is_plain-or_else false e later h k = k

pub unseen_before :
    {F : Type 0} (r : PlacementPatch F) (n : Text) (seen : Text → Bool)
    → (if r.node_id == n then true else seen n) ≡ false
    → seen n ≡ false
unseen_before r n seen h = elim (Bool-cases (r.node_id == n)) [
  | inl t ↦ let bad = rw t at h in cc
  | inr f ↦ rw f at h
]

pub apart_from :
    {F : Type 0} (r : PlacementPatch F) (n : Text) (seen : Text → Bool)
    → (if r.node_id == n then true else seen n) ≡ false
    → (r.node_id == n) ≡ false
apart_from r n seen h = elim (Bool-cases (r.node_id == n)) [
  | inl t ↦ let bad = rw t at h in cc
  | inr f ↦ f
]

pub unless_invalid-ok :
    {F : Type 0} (o : Option CanvasError) (x y : List (Placement F) × ℕ)
    → unless_invalid o x ≡ ok y
    → x ≡ y
unless_invalid-ok (some e) x y h = cc
unless_invalid-ok none x y h = ok-injective h

module _ {F : Type 0} (floats : Floats F) (l : Layout F) (now : ℕ) where
  is_plain-kind_error :
      (ref : EntityRef) (k : EntityKind) → is_plain (kind_error floats l ref k) ≡ true
  is_plain-kind_error ref workspace_entity = ground arith
  is_plain-kind_error ref plan_entity = ground arith
  is_plain-kind_error ref session_entity = ground arith
  is_plain-kind_error ref (other_entity k) = refl

  is_plain-validate_entity_ref :
      (ref : EntityRef) → is_plain (validate_entity_ref floats l ref) ≡ true
  unfolding validate_entity_ref
  is_plain-validate_entity_ref ref =
      is_plain-or_else (is_blank ref.workspace_id || not (ref.workspace_id == l.workspace_id))
        foreign_reference (kind_error floats l ref ref.kind) refl (is_plain-kind_error ref ref.kind)

  is_plain-validate_placement : (p : Placement F) → is_plain (validate_placement floats l p) ≡ true
  unfolding validate_placement
  is_plain-validate_placement p = is_plain-or_else (is_blank p.node_id) node_required _ refl (
      is_plain-or_else (ltb p.revision 1) revision_not_positive _ refl (
        is_plain-or_else
          (not (finite_coordinate floats p.position.x)
            || not (finite_coordinate floats p.position.y))
          position_outside (validate_entity_ref floats l p.entity_ref) refl
          (is_plain-validate_entity_ref p.entity_ref)))

  unless_invalid-plain :
      (o : Option CanvasError) (x : List (Placement F) × ℕ) (e : CanvasError)
      → is_plain o ≡ true
      → unless_invalid o x ≡ err e
      → is_conflict e ≡ false
  unless_invalid-plain (some f) x e h g =
      let same : f ≡ e = cc in
      let p : is_conflict f ≡ false = ground arith in subst (λ k. is_conflict k ≡ false) same p
  unless_invalid-plain none x e h g = cc

  appended-plain :
      (patch : PlacementPatch F) (ps : List (Placement F)) (c : ℕ) (e : CanvasError)
      → apply_at floats l now patch none none (ps, c) ≡ err e
      → is_conflict e ≡ false
  appended-plain patch ps c e h = elim (Bool-cases (ltb max_placements (suc c))) [
    | inl t ↦
        let same : too_many_placements ≡ e = let k = rw t at h in cc in
        subst (λ k. is_conflict k ≡ false) same refl
    | inr f ↦
        unless_invalid-plain _ (ps ++ (patched l now patch none ∷ []), suc c) e
          (is_plain-validate_placement (patched l now patch none)) (rw f at h)
  ]

  apply_at-plain :
      (patch : PlacementPatch F) (known : Option ℕ) (now_there : Option (Placement F))
      (ps : List (Placement F)) (c : ℕ) (e : CanvasError)
      → apply_at floats l now patch known now_there (ps, c) ≡ err e
      → is_conflict e ≡ false
  apply_at-plain patch (some i) (some q) ps c e h =
      unless_invalid-plain _ _ e (is_plain-validate_placement _) h
  apply_at-plain patch (some i) none ps c e h = appended-plain patch ps c e h
  apply_at-plain patch none q ps c e h = appended-plain patch ps c e h

  pub apply_each-plain :
      (existing : Map Text ℕ) (patches : List (PlacementPatch F)) (state : List (Placement F) × ℕ)
      (e : CanvasError)
      → apply_each floats l now existing patches state ≡ err e
      → is_conflict e ≡ false
  unfolding apply_each
  apply_each-plain existing [] state e h = cc
  apply_each-plain existing (patch ∷ patches) (ps, c) e h =
      elim (Result-cases (
        apply_at floats l now patch (existing patch.node_id)
          (current_at ps (existing patch.node_id)) (ps, c))) [
            | inl (mid, g) ↦ apply_each-plain existing patches mid e (rw g at h)
            | inr (f, g) ↦
                let same : f ≡ e = let k = rw g at h in cc in
                subst (λ k. is_conflict k ≡ false) same
                  (apply_at-plain patch (existing patch.node_id)
                    (current_at ps (existing patch.node_id)) ps c f g)
          ]
