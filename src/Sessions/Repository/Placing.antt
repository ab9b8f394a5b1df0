-- ===== src/Sessions/Repository/Placing.antt =====
-- Placing a record among those of a store: it replaces the one of its id, or comes last.
use kode_stream.Prelude.{
  ◌≡◌, refl, sym, ap, ◌∙◌, subst, true, false, List, [], ◌∷◌, map, some, ok, if◌then◌else◌, Text,
  text_eq, text_beq_iff, ◌==◌, beq_comm, beq-ne, All, arith, inl, inr, Bool-cases, >>=-eq-ok,
  ok-injective, Map, put,
}
use kode_stream.Sessions.Records.{SessionRecord, joined_key, normalize_session_record}
use kode_stream.Sessions.Records.Laws.{clash, keys_clash, IsApart}
use kode_stream.Sessions.Repository.{find_record, has_id, holds_key, place_record}

pub data Placed (r : SessionRecord) : List SessionRecord → List SessionRecord → Type 0 where
  appended : Placed r [] (r ∷ [])
  replaced :
      (s : SessionRecord) (rs : List SessionRecord) → s.id ≡ r.id → Placed r (s ∷ rs) (r ∷ rs)
  behind :
      (s : SessionRecord) {rs ps : List SessionRecord}
      → (s.id == r.id) ≡ false
      → Placed r rs ps
      → Placed r (s ∷ rs) (s ∷ ps)

pub place-Placed :
    (r : SessionRecord) (rs ps : List SessionRecord) → place_record r rs ≡ ok ps → Placed r rs ps
unfolding place_record
place-Placed r [] ps h = subst (Placed r []) (ok-injective h) appended
place-Placed r (s ∷ rs) ps h = elim (Bool-cases (s.id == r.id)) [
  | inl t ↦
      subst (Placed r (s ∷ rs)) (ok-injective (rw t at h))
        (replaced s rs ((text_beq_iff s.id r.id).0 t))
  | inr f ↦ elim (Bool-cases (holds_key r s)) [
    | inl t ↦ let bad = rw (f, t) at h in cc
    | inr n ↦
        let (qs, placed, e) = >>=-eq-ok (place_record r rs) _ (rw (f, n) at h) in
        subst (Placed r (s ∷ rs)) (ok-injective e) (behind s f (place-Placed r rs qs placed))
  ]
]

-- What a client sees: the record of each id.
abbrev pub by_id : List SessionRecord → Map Text SessionRecord
by_id rs id = find_record (has_id id) rs

pub by_id-Placed :
    (r : SessionRecord) {rs ps : List SessionRecord}
    → Placed r rs ps
    → (id : Text) → by_id ps id ≡ put r.id r (by_id rs) id
unfolding find_record
by_id-Placed r appended id = refl
by_id-Placed r (replaced s rs e) id = shadowed (s.id) e
  where
    shadowed :
        (i : Text)
        → i ≡ r.id
        → (if r.id == id then some r else by_id rs id)
          ≡ (if r.id == id then some r else if i == id then some s else by_id rs id)
    shadowed i e = rw e (elim (Bool-cases (r.id == id)) [ inl t ↦ rw t refl | inr f ↦ rw f refl ])
by_id-Placed r (behind s {rs} {ps} d p) id = elim (Bool-cases (s.id == id)) [
  | inl t ↦
      let other : (r.id == id) ≡ false =
        let same : s.id ≡ id = (text_beq_iff s.id id).0 t in
        (beq_comm r.id id ∙ ap (λ i. i == r.id) (sym same) ∙ d) in
      rw (t, other) refl
  | inr f ↦ rw f (by_id-Placed r p id)
]

pub All-Placed :
    (P : SessionRecord → Type 0) (r : SessionRecord) {rs ps : List SessionRecord}
    → Placed r rs ps
    → P r
    → All P rs
    → All P ps
All-Placed P r appended h hs = (h, tt)
All-Placed P r (replaced s rs e) h (g, gs) = (h, gs)
All-Placed P r (behind s d p) h (g, gs) = (g, All-Placed P r p h gs)

-- The only record with the key of `r` is the one that `r` replaces.
abbrev pub IsKeyFree : SessionRecord → List SessionRecord → Type 0
IsKeyFree r = All (λ s. keys_clash r s ≡ true → s.id ≡ r.id)

pub clash_back : (r s : SessionRecord) → clash r s ≡ clash s r
clash_back r s = rw (beq_comm r.id s.id, beq_comm (joined_key r) (joined_key s)) (ground arith)

-- A record of another id than `r` does not clash with it.
free-clash :
    (r s : SessionRecord)
    → (r.id == s.id) ≡ false
    → (keys_clash r s ≡ true → s.id ≡ r.id)
    → clash r s ≡ false
free-clash r s d free = elim (Bool-cases (keys_clash r s)) [
  | inl t ↦ absurd (beq-ne r.id s.id d (sym (free t)))
  | inr f ↦ rw (d, f) refl
]

distinct : (s t : SessionRecord) → clash s t ≡ false → (s.id == t.id) ≡ false
distinct s t h = ground arith

replaced-clash :
    (r s : SessionRecord)
    → s.id ≡ r.id
    → (rs : List SessionRecord) → IsKeyFree r rs
    → All (λ t. clash s t ≡ false) rs
    → All (λ t. clash r t ≡ false) rs
replaced-clash r s e [] free apart = tt
replaced-clash r s e (t ∷ rs) (f, free) (a, apart) = (
  free-clash r t (ap (λ i. i == t.id) (sym e) ∙ distinct s t a) f,
  replaced-clash r s e rs free apart,
)

pub IsApart-Placed :
    (r : SessionRecord) {rs ps : List SessionRecord}
    → Placed r rs ps
    → IsKeyFree r rs
    → IsApart rs
    → IsApart ps
IsApart-Placed r appended free apart = (tt, tt)
IsApart-Placed r (replaced s rs e) (f, free) (a, apart) = (replaced-clash r s e rs free a, apart)
IsApart-Placed r (behind s d p) (f, free) (a, apart) = (
  All-Placed (λ t. clash s t ≡ false) r p
      (clash_back s r ∙ free-clash r s (beq_comm r.id s.id ∙ d) f) a,
  IsApart-Placed r p free apart,
)

All-of_map_same :
    (f : SessionRecord → SessionRecord) (rs : List SessionRecord)
    → map f rs ≡ rs
    → All (λ s. f s ≡ s) rs
All-of_map_same f [] h = tt
All-of_map_same f (s ∷ rs) h =
    let first : f s ≡ s = cc in let rest : map f rs ≡ rs = cc in (first, All-of_map_same f rs rest)

map_same-All :
    (f : SessionRecord → SessionRecord) (rs : List SessionRecord)
    → All (λ s. f s ≡ s) rs
    → map f rs ≡ rs
map_same-All f [] h = refl
map_same-All f (s ∷ rs) (h, hs) = cc (h, map_same-All f rs hs)

pub map-Placed :
    (r : SessionRecord) {rs ps : List SessionRecord}
    → Placed r rs ps
    → normalize_session_record r ≡ r
    → map normalize_session_record rs ≡ rs
    → map normalize_session_record ps ≡ ps
map-Placed r {rs} {ps} p same h = map_same-All normalize_session_record ps (
    All-Placed (λ s. normalize_session_record s ≡ s) r p same
      (All-of_map_same normalize_session_record rs h))
