-- ===== src/Canvas/Repository/Laws.antt =====
-- What holds of the canvas file, whatever the operations.
use kode_stream.Prelude.{
  ℕ, ◌<◌, ◌⊎◌, String, ◌≤◌, ◌≡◌, refl, true, List, [], ◌∷◌, Option, none, some, Result, ok, err,
  Text, length, arith, inl, inr, Bool-cases, Option-cases, ltb, ◌||◌, nat_eq, ◌==◌,
}
use kode_stream.Canvas.{
  Floats, Viewport, Layout, Placement, PlacementPatch, Snapshot, CanvasError, max_placements,
  max_placement_batch, validate_viewport,
}
use kode_stream.Canvas.Placements.{apply_placement_patches}
use kode_stream.Canvas.Snapshots.{
  validate_snapshot, normalize_snapshot, empty_snapshot, current_snapshot_version, find_layout,
}
use kode_stream.Canvas.Snapshots.Laws.{placements_of, IsDistinct, validate_snapshot-bounded}
use kode_stream.Canvas.Repository.{
  SaveOutcome, saved, kept_previous, kept_new, left_none, Io, Bytes, Codec, IsCodec,
  max_canvas_file_bytes, Store, Answer, load, write, save, checked_save, on_loaded, resolve_default,
  resolve_found, initialize_default, initialize_found, initialized, patch_placements, patch_layout,
  save_patched, remove_placement, remove_from, hide_placement, save_hidden, set_viewport,
  save_viewport, save_layout, unless_outside, replace_all, find_default_layout, is_default,
}

normalize-normalize :
    {F : Type 0} (s : Snapshot F) → normalize_snapshot (normalize_snapshot s) ≡ normalize_snapshot s
unfolding normalize_snapshot
normalize-normalize s = elim (Bool-cases (ltb s.version current_snapshot_version)) [
  | inl t ↦ rw t refl
  | inr f ↦ rw (f, f) refl
]

module _ {F : Type 0} (floats : Floats F) (codec : Codec F) where
  -- A request that may write, with the file system's answers to it.
  pub data Request : Type 0 where
    resolve_request : Io → Text → Text → Text → Result CanvasError (Layout F) → Request
    initialize_request :
        Io → Text → Text → Text → List (Placement F) → Result CanvasError (Layout F) → Request
    patch_request : Io → Text → List (PlacementPatch F) → Request
    remove_request : Io → Text → Text → ℕ → Request
    view_request : Io → Text → ℕ → Viewport F → Request
    replace_request : Io → Snapshot F → Request

  -- What the request makes of the file.
  abbrev pub perform : Request → Store → Store
  perform (resolve_request io owner workspace branch fresh) d =
      (resolve_default floats codec io owner workspace branch fresh d).1
  perform (initialize_request io owner workspace branch ps fresh) d =
      (initialize_default floats codec io owner workspace branch ps fresh d).1
  perform (patch_request io id ps) d = (patch_placements floats codec io id ps d).1
  perform (remove_request io id node revision) d =
      (remove_placement floats codec io id node revision d).1
  perform (view_request io id version v) d = (save_viewport floats codec io id version v d).1
  perform (replace_request io s) d = (replace_all floats codec io s d).1

  abbrev pub perform_all : List Request → Store → Store
  perform_all [] d = d
  perform_all (r ∷ rs) d = perform_all rs (perform r d)

  -- A file that loads as it stands, unless it is too large.
  abbrev pub IsGood : Store → Type 0
  IsGood none = Unit
  IsGood (some b) =
      (s : Snapshot F) × (codec.decode b ≡ ok s)
      × (normalize_snapshot s ≡ s)
      × (validate_snapshot floats s ≡ none)

  module _ (law : IsCodec codec) where
    write-IsGood :
        {A : Type 0} (w : SaveOutcome) (a : A) (s : Snapshot F) (r : Result String Bytes)
        (d : Store)
        → codec.marshal s ≡ r
        → normalize_snapshot s ≡ s
        → validate_snapshot floats s ≡ none
        → IsGood d
        → IsGood (write floats codec w a r d).1
    write-IsGood w a s (err e) d made same valid old = old
    write-IsGood saved a s (ok b) d made same valid old = (s, law s b made, same, valid)
    write-IsGood (kept_previous e) a s (ok b) d made same valid old = old
    write-IsGood (kept_new e) a s (ok b) d made same valid old = (s, law s b made, same, valid)
    write-IsGood (left_none e) a s (ok b) d made same valid old = tt

    save-IsGood :
        {A : Type 0} (w : SaveOutcome) (a : A) (s : Snapshot F) (d : Store)
        → IsGood d
        → IsGood (save floats codec w a s d).1
    unfolding save
    save-IsGood w a s d old =
        elim (Option-cases (validate_snapshot floats (normalize_snapshot s))) [
          | inl h ↦ rw h (
              write-IsGood w a (normalize_snapshot s) (codec.marshal (normalize_snapshot s)) d refl
                (normalize-normalize s) h old)
          | inr (e, h) ↦ rw h old
        ]

    checked_save-IsGood :
        {A : Type 0} (w : SaveOutcome) (a : A) (s : Snapshot F) (v : Option CanvasError) (d : Store)
        → IsGood d
        → IsGood (checked_save floats codec w a s v d).1
    checked_save-IsGood w a s (some e) d old = old
    checked_save-IsGood w a s none d old = save-IsGood w a s d old

    on_loaded-IsGood :
        {A : Type 0} (r : Result CanvasError (Snapshot F)) (d : Store)
        (next : Snapshot F → Store → Answer A)
        → IsGood d
        → ((s : Snapshot F) → IsGood (next s d).1)
        → IsGood (on_loaded floats codec r d next).1
    on_loaded-IsGood (err e) d next old h = old
    on_loaded-IsGood (ok s) d next old h = h s

    resolve_found-IsGood :
        (io : Io) (found : Option (Layout F)) (fresh : Result CanvasError (Layout F))
        (s : Snapshot F) (d : Store)
        → IsGood d
        → IsGood (resolve_found floats codec io found fresh s d).1
    resolve_found-IsGood io (some l) fresh s d old = old
    resolve_found-IsGood io none (err e) s d old = old
    resolve_found-IsGood io none (ok l) s d old = save-IsGood io.saving (l, true) _ d old

    initialize_found-IsGood :
        (io : Io) (ps : List (Placement F)) (found : Option (Layout F))
        (fresh : Result CanvasError (Layout F)) (s : Snapshot F) (d : Store)
        → IsGood d
        → IsGood (initialize_found floats codec io ps found fresh s d).1
    initialize_found-IsGood io ps (some l) fresh s d old = old
    initialize_found-IsGood io ps none (err e) s d old = old
    initialize_found-IsGood io ps none (ok l) s d old =
        elim (Bool-cases (length ps == 0 || ltb max_placements (length ps))) [
          | inl t ↦ rw t old
          | inr f ↦
              rw f
                (checked_save-IsGood io.saving (l, true) (initialized floats codec l ps s) _ d old)
        ]

    save_patched-IsGood :
        (io : Io) (l : Layout F) (r : Result CanvasError (List (Placement F) × ℕ)) (s : Snapshot F)
        (d : Store)
        → IsGood d
        → IsGood (save_patched floats codec io l r s d).1
    save_patched-IsGood io l (err e) s d old = old
    save_patched-IsGood io l (ok (ps, count)) s d old = save-IsGood io.saving tt _ d old

    patch_layout-IsGood :
        (io : Io) (patches : List (PlacementPatch F)) (found : Option (Layout F)) (s : Snapshot F)
        (d : Store)
        → IsGood d
        → IsGood (patch_layout floats codec io patches found s d).1
    patch_layout-IsGood io patches none s d old = old
    patch_layout-IsGood io patches (some l) s d old =
        save_patched-IsGood io l (apply_placement_patches floats l io.now patches s.placements) s d
          old

    patch_placements-IsGood :
        (io : Io) (id : Text) (patches : List (PlacementPatch F)) (d : Store)
        → IsGood d
        → IsGood (patch_placements floats codec io id patches d).1
    unfolding patch_placements
    patch_placements-IsGood io id patches d old =
        elim (Bool-cases (length patches == 0 || ltb max_placement_batch (length patches))) [
          | inl t ↦ rw t old
          | inr f ↦ rw f (
              on_loaded-IsGood (load floats codec io.reading d) d _ old
                (λ s. patch_layout-IsGood io patches (find_layout id s.layouts) s d old))
        ]

    save_hidden-IsGood :
        (io : Io) (r : Result CanvasError (List (Placement F))) (s : Snapshot F) (d : Store)
        → IsGood d
        → IsGood (save_hidden floats codec io r s d).1
    save_hidden-IsGood io (err e) s d old = old
    save_hidden-IsGood io (ok ps) s d old = save-IsGood io.saving tt _ d old

    remove_from-IsGood :
        (io : Io) (id node : Text) (revision : ℕ) (found : Option (Layout F)) (s : Snapshot F)
        (d : Store)
        → IsGood d
        → IsGood (remove_from floats codec io id node revision found s d).1
    remove_from-IsGood io id node revision none s d old = old
    remove_from-IsGood io id node revision (some l) s d old =
        save_hidden-IsGood io (hide_placement floats codec id node revision io.now s.placements) s d
          old

    save_layout-IsGood :
        (io : Io) (r : Result CanvasError (Layout F × List (Layout F))) (s : Snapshot F) (d : Store)
        → IsGood d
        → IsGood (save_layout floats codec io r s d).1
    save_layout-IsGood io (err e) s d old = old
    save_layout-IsGood io (ok (l, ls)) s d old = save-IsGood io.saving l _ d old

    unless_outside-IsGood :
        (io : Io) (id : Text) (version : ℕ) (v : Viewport F) (e : Option CanvasError) (d : Store)
        → IsGood d
        → IsGood (unless_outside floats codec io id version v e d).1
    unless_outside-IsGood io id version v (some e) d old = old
    unless_outside-IsGood io id version v none d old =
        on_loaded-IsGood (load floats codec io.reading d) d _ old (λ s.
          save_layout-IsGood io (set_viewport floats codec id version io.now v s.layouts) s d old)

    perform-IsGood : (r : Request) (d : Store) → IsGood d → IsGood (perform r d)
    unfolding remove_placement save_viewport
    perform-IsGood (resolve_request io owner workspace branch fresh) d old =
        on_loaded-IsGood (load floats codec io.reading d) d _ old (λ s.
          resolve_found-IsGood io
            (find_default_layout floats codec (is_default floats codec owner workspace branch)
              s.layouts)
            fresh s d old)
    perform-IsGood (initialize_request io owner workspace branch ps fresh) d old =
        on_loaded-IsGood (load floats codec io.reading d) d _ old (λ s.
          initialize_found-IsGood io ps
            (find_default_layout floats codec (is_default floats codec owner workspace branch)
              s.layouts)
            fresh s d old)
    perform-IsGood (patch_request io id ps) d old = patch_placements-IsGood io id ps d old
    perform-IsGood (remove_request io id node revision) d old =
        on_loaded-IsGood (load floats codec io.reading d) d _ old
          (λ s. remove_from-IsGood io id node revision (find_layout id s.layouts) s d old)
    perform-IsGood (view_request io id version v) d old =
        unless_outside-IsGood io id version v (validate_viewport floats v) d old
    perform-IsGood (replace_request io s) d old =
        checked_save-IsGood io.saving tt (normalize_snapshot s)
          (validate_snapshot floats (normalize_snapshot s)) d old

    perform_all-IsGood : (rs : List Request) (d : Store) → IsGood d → IsGood (perform_all rs d)
    perform_all-IsGood [] d good = good
    perform_all-IsGood (r ∷ rs) d good =
        perform_all-IsGood rs (perform r d) (perform-IsGood r d good)

    -- The file is within the limit of reading, and its snapshot within those of the canvas.
    load-bounded :
        (d : Store)
        → IsGood d
        → ((b : Bytes) × (d ≡ some b) × (max_canvas_file_bytes < length b))
          ⊎ ((s : Snapshot F) × (load floats codec none d ≡ ok s)
              × ((id : Text) → length (placements_of id s.placements) ≤ max_placements)
              × IsDistinct s.placements)
    unfolding load normalize_snapshot
    load-bounded none good = inr (normalize_snapshot empty_snapshot, refl, (λ id. omega arith), tt)
    load-bounded (some b) (s, read, same, valid) =
        elim (Bool-cases (ltb max_canvas_file_bytes (length b))) [
          | inl big ↦ inl (b, refl, ground arith)
          | inr small ↦ inr (
            s,
            rw (small, read, same, valid) refl,
            (λ id. (validate_snapshot-bounded floats s id valid).0),
            (validate_snapshot-bounded floats s [] valid).1,
          )
        ]

    -- Whatever requests were made on a canvas that had no file, and however the file system answered
    -- them: the file has grown beyond the 4 MiB that are read, or it loads, and then no layout in it
    -- has more than 300 placements, and no two placements have one layout and node, joined by a NUL.
    -- What is written is read back, if it is read.
    pub load-perform_all :
        (rs : List Request)
        → ((b : Bytes) × (perform_all rs none ≡ some b) × (max_canvas_file_bytes < length b))
          ⊎ ((s : Snapshot F) × (load floats codec none (perform_all rs none) ≡ ok s)
              × ((id : Text) → length (placements_of id s.placements) ≤ max_placements)
              × IsDistinct s.placements)
    load-perform_all rs = load-bounded (perform_all rs none) (perform_all-IsGood rs none tt)
