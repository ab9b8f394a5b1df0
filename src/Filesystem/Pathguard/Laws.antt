-- ===== src/Filesystem/Pathguard/Laws.antt =====
-- What the path checks let through.
use kode_stream.Prelude.{
  ◌≡◌, ◌≢◌, ◌↔◌, ◌⊎◌, refl, ap, ◌∙◌, subst, inl, inr, Bool, true, false, List, [], ◌∷◌, ◌++◌, Text,
  text_eq, nat_eq, has_prefix, ◌==◌, any, All, Any, Any-mono, text_beq_iff, Bool-cases, Result, ok,
  err, ok-injective, Result-cases, >>=-eq-ok, arith,
}
use kode_stream.Filesystem.Paths.{dot, slash, is_abs}
use kode_stream.Filesystem.Paths.Laws.{IsInside, begins_up, clean-IsInside}
use kode_stream.Filesystem.Pathguard.{
  PathError, cleaned, is_refused, clean_relative, is_below, in_sources, validate_source_path,
  validate_each, validate_source_paths,
}

-- What `CleanRelative` returns names something below the directory that it is joined to: it is a
-- list of one or more names joined by slashes, none of them empty, `.` or `..`, whatever was asked.
pub clean_relative-IsInside : (path c : Text) → clean_relative path ≡ ok c → IsInside c
unfolding clean_relative cleaned
clean_relative-IsInside path c h = elim (Bool-cases (is_refused (cleaned path))) [
  | inl refused ↦ absurd (clash (rw refused at h))
  | inr good ↦ subst IsInside (ok-injective (rw good at h)) (
      clean-IsInside _ (part₁ (cleaned path) good) (part₂ (cleaned path) good)
        (part₃ (cleaned path) good))
]
  where
    clash : {e : PathError} → ◌≡◌ {A = Result PathError Text} (err e) (ok c) → ⊥
    clash q = cc

    part₁ : (u : Text) → is_refused u ≡ false → (u == dot) ≡ false
    part₁ u q = ground arith

    part₂ : (u : Text) → is_refused u ≡ false → is_abs u ≡ false
    part₂ u q = ground arith

    part₃ : (u : Text) → is_refused u ≡ false → begins_up u ≡ false
    part₃ u q = ground arith

any-Any : (p : Text → Bool) (ss : List Text) → any p ss ≡ true → Any (λ s. p s ≡ true) ss
any-Any p (s ∷ ss) h = elim (Bool-cases (p s)) [
  | inl t ↦ inl t
  | inr f ↦ inr (any-Any p ss (rw f at h))
]
any-Any p [] h = cc

-- A path that a source admits is a source or lies below one, and does not step out of it: all its
-- segments are names.
pub validate_source_path-IsInside :
    (sources : List Text) (path c : Text)
    → validate_source_path sources path ≡ ok c
    → IsInside c × Any (λ (s : Text). (c ≡ s) ⊎ (has_prefix c (s ++ (slash ∷ [])) ≡ true)) sources
unfolding validate_source_path
validate_source_path-IsInside sources path c h =
    let (d, cleaned_to, checked) = >>=-eq-ok (clean_relative path) (in_sources sources path) h in
    let (same, below) = of_in_sources d checked in
    (
      clean_relative-IsInside path c (cleaned_to ∙ ap ok same),
      Any-mono (λ s t. split_below s t) sources (any-Any (is_below c) sources below),
    )
  where
    of_in_sources :
        (d : Text) → in_sources sources path d ≡ ok c → (d ≡ c) × (any (is_below c) sources ≡ true)
    of_in_sources d q = elim (Bool-cases (any (is_below d) sources)) [
      | inl t ↦
          let same = ok-injective (rw t at q) in
          (same, subst (λ (u : Text). any (is_below u) sources ≡ true) same t)
      | inr f ↦ absurd (clash (rw f at q))
    ]
      where
        clash : {e : PathError} → ◌≡◌ {A = Result PathError Text} (err e) (ok c) → ⊥
        clash r = cc

    split_below :
        (s : Text) → is_below c s ≡ true → (c ≡ s) ⊎ (has_prefix c (s ++ (slash ∷ [])) ≡ true)
    split_below s t = elim (Bool-cases (c == s)) [
      | inl same ↦ inl ((text_beq_iff c s).0 same)
      | inr other ↦ inr (rw other at t)
    ]

validate_each_iff :
    (sources paths : List Text)
    → (validate_each sources paths ≡ ok tt)
      ↔ All (λ (p : Text). (c : Text) × (validate_source_path sources p ≡ ok c)) paths
unfolding validate_each
validate_each_iff sources [] = (λ h. tt, λ h. refl)
validate_each_iff sources (p ∷ ps) = elim (Result-cases (validate_source_path sources p)) [
  | inl (c, good) ↦
      let (forth, back) = validate_each_iff sources ps in
      rw good (λ h. ((c, refl), forth h), λ h. back h.1)
  | inr (e, bad) ↦ rw bad (λ h. absurd (clash h), λ h. absurd (clash_ok h.0))
]
  where
    clash : {e : PathError} → ◌≡◌ {A = Result PathError (Unit {0})} (err e) (ok tt) → ⊥
    clash q = cc

    clash_ok : {e : PathError} → ((c : Text) × ◌≡◌ {A = Result PathError Text} (err e) (ok c)) → ⊥
    clash_ok (c, q) = cc

-- A list of paths is accepted exactly if it is not empty and each of its paths is.
pub validate_source_paths_iff :
    (sources paths : List Text)
    → (validate_source_paths sources paths ≡ ok tt) ↔ (
        (paths ≢ [])
        × All (λ (p : Text). (c : Text) × (validate_source_path sources p ≡ ok c)) paths)
unfolding validate_source_paths
validate_source_paths_iff sources [] = (λ h. cc, λ h. absurd (h.0 refl))
validate_source_paths_iff sources (p ∷ ps) =
    let (forth, back) = validate_each_iff sources (p ∷ ps) in
    (λ h. ((λ e. cc), forth h), λ h. back h.1)
