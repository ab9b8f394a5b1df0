-- ===== src/Sessions/Records/Laws.antt =====
-- What the validation of session records accepts.
use kode_stream.Prelude.{
  ◌≡◌, ◌↔◌, refl, sym, ap, Bool, true, false, not, ◌&&◌, ◌||◌, List, [], ◌∷◌, map, Option, none,
  some, Result, ok, Text, text_eq, nat_eq, ◌==◌, trim_left, trim_space, trim_space-trim_space, Map,
  empty_map, All, arith, inl, inr, Bool-cases, subst, >>=-eq-ok, ok-injective,
}
use kode_stream.Sessions.Records.{
  SessionPlanRef, SessionRecord, RecordError, is_empty, is_blank, normalize_plan,
  normalize_plan_ref, normalize_session_record, validate_session_record, joined_key, mark, note_key,
  prior_error, key_error, record_error, unless_error, validate_from, validate_session_records,
  or_else, error_if, incomplete_identity, duplicate_id,
}

normalize_plan_ref_twice :
    (p : Option SessionPlanRef) → normalize_plan_ref (normalize_plan_ref p) ≡ normalize_plan_ref p
unfolding normalize_plan
normalize_plan_ref_twice none = refl
normalize_plan_ref_twice (some p) = simp (trim_space-trim_space)

pub normalize-normalize :
    (r : SessionRecord)
    → normalize_session_record (normalize_session_record r) ≡ normalize_session_record r
unfolding normalize_session_record
normalize-normalize r = simp (trim_space-trim_space, normalize_plan_ref_twice r.plan_ref)

abbrev pub keys_clash : SessionRecord → SessionRecord → Bool
keys_clash r s =
    not (is_empty r.idempotency_key)
    && (not (is_empty s.idempotency_key) && joined_key r == joined_key s)

-- Two records that cannot stand in one store.
abbrev pub clash : SessionRecord → SessionRecord → Bool
clash r s = r.id == s.id || keys_clash r s

abbrev pub IsApart : List SessionRecord → Type 0
IsApart [] = Unit
IsApart (r ∷ rs) = All (λ s. clash r s ≡ false) rs × IsApart rs

abbrev pub IsSound : SessionRecord → Type 0
IsSound r = validate_session_record r ≡ none

-- What a generation of records must be: normal, valid one by one, and without clashes.
pub record IsStore (rs : List SessionRecord) : Type 0 where
  pub normal : map normalize_session_record rs ≡ rs
  pub sound : All IsSound rs
  pub apart : IsApart rs

IsFree : (Text → Bool) → Map Text Text → SessionRecord → Type 0
IsFree seen keys s = (seen s.id ≡ false) × (key_error keys s ≡ none)

blank-nil : is_blank [] ≡ true
unfolding trim_space trim_left
blank-nil = refl

named_of :
    (i : Text) (w : Bool) (rest : Option RecordError)
    → or_else (error_if (is_blank i || w) incomplete_identity) rest ≡ none
    → is_empty i ≡ false
named_of [] w rest h = let impossible = rw blank-nil at h in cc
named_of (c ∷ i) w rest h = refl

sound-id : (r : SessionRecord) → IsSound r → is_empty r.id ≡ false
unfolding validate_session_record
sound-id r h = named_of r.id (is_blank r.workspace_id) _ h

prior_error-taken : (s i : Text) → is_empty i ≡ false → prior_error s (some i) ≡ none → ⊥
prior_error-taken s [] h e = cc
prior_error-taken s (c ∷ i) h e = cc

module _ (seen : Text → Bool) (keys : Map Text Text) (n s : SessionRecord)
    (named : is_empty n.id ≡ false) where
  IsFree-mark : IsFree seen keys s → clash n s ≡ false → IsFree (mark n.id seen) (note_key n keys) s
  unfolding IsFree
  IsFree-mark (unseen, keyless) apart = elim (Bool-cases (is_empty s.idempotency_key)) [
    | inl t ↦ (ground arith, rw t refl)
    | inr f ↦ elim (Bool-cases (is_empty n.idempotency_key)) [
      | inl t ↦ (ground arith, rw (t, f) (rw f at keyless))
      | inr g ↦
          let j : (joined_key n == joined_key s) ≡ false = ground arith in
          (ground arith, rw (f, g, j) (rw f at keyless))
    ]
  ]

  mark-IsFree :
      IsFree (mark n.id seen) (note_key n keys) s → IsFree seen keys s × (clash n s ≡ false)
  unfolding IsFree
  mark-IsFree (unseen, keyless) = elim (Bool-cases (n.id == s.id)) [
    | inl t ↦ let bad = rw t at unseen in cc
    | inr d ↦ elim (Bool-cases (is_empty s.idempotency_key)) [
      | inl t ↦ ((rw d at unseen, rw t refl), ground arith)
      | inr f ↦ elim (Bool-cases (is_empty n.idempotency_key)) [
        | inl t ↦ ((rw d at unseen, rw f (rw (t, f) at keyless)), ground arith)
        | inr g ↦ elim (Bool-cases (joined_key n == joined_key s)) [
          | inl j ↦ absurd (prior_error-taken s.id n.id named (rw (f, g, j) at keyless))
          | inr j ↦ ((rw d at unseen, rw f (rw (f, g, j) at keyless)), ground arith)
        ]
      ]
    ]
  ]

All-IsFree_after :
    (seen : Text → Bool) (keys : Map Text Text) (n : SessionRecord)
    → is_empty n.id ≡ false
    → (rs : List SessionRecord) → All (IsFree seen keys) rs
    → All (λ s. clash n s ≡ false) rs
    → All (IsFree (mark n.id seen) (note_key n keys)) rs
All-IsFree_after seen keys n named [] free apart = tt
All-IsFree_after seen keys n named (r ∷ rs) (f, fs) (a, as_) =
    (IsFree-mark seen keys n r named f a, All-IsFree_after seen keys n named rs fs as_)

All-IsFree_before :
    (seen : Text → Bool) (keys : Map Text Text) (n : SessionRecord)
    → is_empty n.id ≡ false
    → (rs : List SessionRecord) → All (IsFree (mark n.id seen) (note_key n keys)) rs
    → All (IsFree seen keys) rs × All (λ s. clash n s ≡ false) rs
All-IsFree_before seen keys n named [] free = (tt, tt)
All-IsFree_before seen keys n named (r ∷ rs) (f, fs) =
    let (g, a) = mark-IsFree seen keys n r named f in
    let (gs, as_) = All-IsFree_before seen keys n named rs fs in ((g, gs), (a, as_))

unless_error-ok :
    {A : Type 0} (e : Option RecordError) (m : Result RecordError A) {a : A}
    → unless_error e m ≡ ok a
    → (e ≡ none) × (m ≡ ok a)
unless_error-ok (some e) m h = cc
unless_error-ok none m h = (refl, h)

or_else-none :
    (first later : Option RecordError)
    → or_else first later ≡ none
    → (first ≡ none) × (later ≡ none)
or_else-none (some e) later h = cc
or_else-none none later h = (refl, h)

error_if-none : (b : Bool) (e : RecordError) → error_if b e ≡ none → b ≡ false
error_if-none true e h = cc
error_if-none false e h = refl

record_error-none :
    (seen : Text → Bool) (keys : Map Text Text) (n : SessionRecord)
    → record_error seen keys n ≡ none
    → IsSound n × IsFree seen keys n
unfolding IsFree
record_error-none seen keys n h =
    let (sound, rest) = or_else-none (validate_session_record n) _ h in
    let (unseen, free) =
      or_else-none (error_if (seen n.id) (duplicate_id n.id)) (key_error keys n) rest in
    (sound, (error_if-none (seen n.id) (duplicate_id n.id) unseen, free))

none-record_error :
    (seen : Text → Bool) (keys : Map Text Text) (n : SessionRecord)
    → IsSound n
    → IsFree seen keys n
    → record_error seen keys n ≡ none
unfolding IsFree
none-record_error seen keys n sound (unseen, free) = simp (sound, unseen, free)

validated-IsStore :
    (seen : Text → Bool) (keys : Map Text Text) (rs ns : List SessionRecord)
    → validate_from seen keys rs ≡ ok ns
    → (ns ≡ map normalize_session_record rs)
      × (All IsSound ns)
      × (All (IsFree seen keys) ns)
      × (IsApart ns)
unfolding validate_from
validated-IsStore seen keys [] ns h =
    let e : ns ≡ [] = cc in
    subst (λ l. (l ≡ []) × (All IsSound l) × (All (IsFree seen keys) l) × (IsApart l)) (sym e)
      (refl, tt, tt, tt)
validated-IsStore seen keys (r ∷ rs) ns h =
    let n : SessionRecord = normalize_session_record r in
    let (fine, more) = unless_error-ok (record_error seen keys n) _ h in
    let (rest, valid, e) = >>=-eq-ok (validate_from (mark n.id seen) (note_key n keys) rs) _ more in
    let (sound, free) = record_error-none seen keys n fine in
    let (same, sounds, frees, apart) =
      validated-IsStore (mark n.id seen) (note_key n keys) rs rest valid in
    let (olds, aparts) = All-IsFree_before seen keys n (sound-id n sound) rest frees in
    subst
      (λ l.
        (l ≡ map normalize_session_record (r ∷ rs))
        × (All IsSound l)
        × (All (IsFree seen keys) l)
        × (IsApart l))
      (ok-injective e) (ap (λ l. n ∷ l) same, (sound, sounds), (free, olds), (aparts, apart))

store-validated :
    (seen : Text → Bool) (keys : Map Text Text) (rs : List SessionRecord)
    → All IsSound (map normalize_session_record rs)
    → All (IsFree seen keys) (map normalize_session_record rs)
    → IsApart (map normalize_session_record rs)
    → validate_from seen keys rs ≡ ok (map normalize_session_record rs)
unfolding validate_from
store-validated seen keys [] sounds frees apart = refl
store-validated seen keys (r ∷ rs) (sound, sounds) (free, frees) (a, apart) =
    let n : SessionRecord = normalize_session_record r in
    rw
      (
        none-record_error seen keys n sound free,
        store-validated (mark n.id seen) (note_key n keys) rs sounds
            (All-IsFree_after seen keys n (sound-id n sound) (map normalize_session_record rs) frees
              a)
            apart,
      )
      refl

all-IsFree : (rs : List SessionRecord) → All (IsFree (λ id. false) empty_map) rs
unfolding IsFree
all-IsFree [] = tt
all-IsFree (r ∷ rs) = ((refl, no_error r), all-IsFree rs)
  where
    no_error : (s : SessionRecord) → key_error empty_map s ≡ none
    no_error s = elim (Bool-cases (is_empty s.idempotency_key)) [
      | inl t ↦ rw t refl
      | inr f ↦ rw f refl
    ]

-- A list of records validates exactly when, in their normal forms, each is valid by itself, no two
-- have one id, and no two whose keys are not empty have one workspace and key, joined by a NUL; then
-- the normal forms are what is returned.
pub validate_iff :
    (rs ns : List SessionRecord)
    → (validate_session_records rs ≡ ok ns)
      ↔ ((ns ≡ map normalize_session_record rs) × (All IsSound ns) × (IsApart ns))
validate_iff rs ns = (
  λ h.
      let (same, sounds, frees, apart) = validated-IsStore (λ id. false) empty_map rs ns h in
      (same, sounds, apart),
  λ (same, sounds, apart). rw same (
      store-validated (λ id. false) empty_map rs (rw same at sounds)
        (all-IsFree (map normalize_session_record rs)) (rw same at apart)),
)
