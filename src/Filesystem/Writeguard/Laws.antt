-- ===== src/Filesystem/Writeguard/Laws.antt =====
-- The checks of the names against plain descriptions of them.
use kode_stream.Prelude.{
  ℕ, ◌≡◌, ◌↔◌, refl, subst, inl, inr, Bool, true, false, not, ◌&&◌, ◌||◌, List, [], ◌∷◌, Text,
  text_eq, nat_eq, nat_beq_iff, codes, trim_space, has_prefix, has_suffix, contains, ◌==◌,
  if◌then◌else◌, all, Bool-cases, Result, ok, err, arith,
}
use kode_stream.Filesystem.Writeguard.{
  NameError, service_invalid, service_segments, service_characters, branch_dots,
  branch_empty_segments, branch_slash_ends, branch_dot_end, branch_lock, branch_characters,
  is_alnum, is_service_char, is_branch_char, matches, contains_one, forbidden, branch_name,
  validate_branch_name, scope_name, validate_scope_name,
}

and-left : (a b : Bool) → (a && b) ≡ true → a ≡ true
and-left true b h = refl
and-left false b h = cc

and-right : (a b : Bool) → (a && b) ≡ true → b ≡ true
and-right true b h = h
and-right false b h = cc

-- A text of a class does not contain a character outside of it.
contains-other :
    (p : ℕ → Bool) (d : ℕ) (s : Text) → p d ≡ false → all p s ≡ true → contains s (d ∷ []) ≡ false
unfolding contains has_prefix
contains-other p d [] h k = refl
contains-other p d (c ∷ s) h k = elim (Bool-cases (c == d)) [
  | inl same ↦
      absurd (both (subst (λ (x : ℕ). p x ≡ true) ((nat_beq_iff c d).0 same) (ground arith)) h)
  | inr other ↦ rw other (contains-other p d s h (ground arith))
]
  where
    both : {b : Bool} → b ≡ true → b ≡ false → ⊥
    both t f = cc

matches-all :
    (p : ℕ → Bool) (s : Text)
    → ((c : ℕ) → is_alnum c ≡ true → p c ≡ true)
    → matches p s ≡ true
    → all p s ≡ true
matches-all p (c ∷ s) f h =
    let here = f c (and-left (is_alnum c) (all p s) h) in
    rw here (and-right (is_alnum c) (all p s) h)
matches-all p [] f h = cc

contains_one-other :
    (p : ℕ → Bool) (ds : List ℕ) (s : Text)
    → all (λ d. not (p d)) ds ≡ true
    → all p s ≡ true
    → contains_one ds s ≡ false
contains_one-other p [] s h k = refl
contains_one-other p (d ∷ ds) s h k =
    rw (contains-other p d s (ground arith) k) (contains_one-other p ds s (ground arith) k)

alnum-service : (c : ℕ) → is_alnum c ≡ true → is_service_char c ≡ true
alnum-service c h = rw h refl

alnum-branch : (c : ℕ) → is_alnum c ≡ true → is_branch_char c ≡ true
alnum-branch c h = rw h refl

alnum-ne_dot : (c : ℕ) → is_alnum c ≡ true → (c == 46) ≡ false
alnum-ne_dot c h = ground arith

-- The chain of checks of a scope name, whatever they are.
scope_chain :
    (a b m : Bool)
    → (◌≡◌ {A = Result NameError (Unit {0})}
        (if a
          then err service_invalid
          else if b
          then err service_segments
          else if not m
          then err service_characters
          else ok tt)
        (ok tt))
      ↔ ((a ≡ false) × (b ≡ false) × (m ≡ true))
scope_chain true b m = (λ h. cc, λ h. cc)
scope_chain false true m = (λ h. cc, λ h. cc)
scope_chain false false true = (λ h. (refl, refl, refl), λ h. refl)
scope_chain false false false = (λ h. cc, λ h. cc)

-- A scope name is accepted exactly if, but for the spaces around it, it begins with a letter or a
-- digit and goes on with letters, digits, dots, underscores and dashes.
pub validate_scope_name_iff :
    (service : Text)
    → (validate_scope_name service ≡ ok tt) ↔ (matches is_service_char (trim_space service) ≡ true)
unfolding validate_scope_name scope_name
validate_scope_name_iff service = trimmed (trim_space service)
  where
    trimmed : (s : Text) → (scope_name s ≡ ok tt) ↔ (matches is_service_char s ≡ true)
    trimmed [] = (λ h. cc, λ h. cc)
    trimmed (c ∷ s) =
        let (forth, back) =
          scope_chain ((c ∷ s) == 46 ∷ [] || (c ∷ s) == 46 ∷ 46 ∷ [])
            (contains (c ∷ s) (47 ∷ []) || contains (c ∷ s) (92 ∷ []))
            (matches is_service_char (c ∷ s)) in
        (
          λ h. (forth h).2,
          λ m.
              let not_dot = alnum-ne_dot c (and-left (is_alnum c) (all is_service_char s) m) in
              let class = matches-all is_service_char (c ∷ s) alnum-service m in
              back (
                rw not_dot refl,
                rw (contains-other is_service_char 47 (c ∷ s) refl class)
                    (contains-other is_service_char 92 (c ∷ s) refl class),
                m,
              ),
        )

alnum-slash : (c : ℕ) (s : Text) → is_alnum c ≡ true → has_prefix (c ∷ s) (47 ∷ []) ≡ false
unfolding has_prefix
alnum-slash c s h = let other : (c == 47) ≡ false = ground arith in rw other refl

-- The chain of checks of a branch name behind the first one.
branch_chain :
    (dots empty ends dot_end lock chars m : Bool)
    → (◌≡◌ {A = Result NameError (Unit {0})}
        (if dots
          then err branch_dots
          else if empty
          then err branch_empty_segments
          else if ends
          then err branch_slash_ends
          else if dot_end
          then err branch_dot_end
          else if lock
          then err branch_lock
          else if chars
          then err branch_characters
          else if not m
          then err branch_characters
          else ok tt)
        (ok tt))
      ↔ ((dots ≡ false)
          × (empty ≡ false)
          × (ends ≡ false)
          × (dot_end ≡ false)
          × (lock ≡ false)
          × (chars ≡ false)
          × (m ≡ true))
branch_chain dots empty ends dot_end lock chars m = ground arith

-- What a branch name must be like.
pub record IsBranchName (b : Text) : Type 0 where
  pub pattern : matches is_branch_char b ≡ true
  pub no_dots : contains b (46 ∷ 46 ∷ []) ≡ false
  pub no_empty_segment : contains b (47 ∷ 47 ∷ []) ≡ false
  pub no_slash_end : has_suffix b (47 ∷ []) ≡ false
  pub no_dot_end : has_suffix b (46 ∷ []) ≡ false
  pub no_lock : has_suffix b (codes ".lock") ≡ false

-- A branch name is accepted exactly if, but for the spaces around it, it begins with a letter or a
-- digit, goes on with letters, digits, dots, underscores, slashes and dashes, has no two dots and no
-- two slashes in a row, and does not end with a slash, a dot or `.lock`.
pub validate_branch_name_iff :
    (branch : Text) → (validate_branch_name branch ≡ ok tt) ↔ IsBranchName (trim_space branch)
unfolding validate_branch_name branch_name
validate_branch_name_iff branch = trimmed (trim_space branch)
  where
    or-right : (a b : Bool) → (a || b) ≡ false → b ≡ false
    or-right false b h = h
    or-right true b h = cc

    or-false : (a b : Bool) → a ≡ false → b ≡ false → (a || b) ≡ false
    or-false false b h k = k
    or-false true b h k = cc

    trimmed : (b : Text) → (branch_name b ≡ ok tt) ↔ IsBranchName b
    trimmed [] = (λ h. cc, λ h. let no = h.pattern in cc)
    trimmed (c ∷ s) =
        let b : Text = c ∷ s in
        let (forth, back) =
          branch_chain (contains b (46 ∷ 46 ∷ [])) (contains b (47 ∷ 47 ∷ []))
            (has_prefix b (47 ∷ []) || has_suffix b (47 ∷ [])) (has_suffix b (46 ∷ []))
            (has_suffix b (codes ".lock")) (contains_one forbidden b) (matches is_branch_char b) in
        (
          λ h.
              let (dots, empty, ends, dot_end, lock, chars, m) = forth h in
              record {
                pattern = m;
                no_dots = dots;
                no_empty_segment = empty;
                no_slash_end = or-right (has_prefix b (47 ∷ [])) (has_suffix b (47 ∷ [])) ends;
                no_dot_end = dot_end;
                no_lock = lock;
              },
          λ is.
              let class = matches-all is_branch_char b alnum-branch is.pattern in
              back (
                is.no_dots,
                is.no_empty_segment,
                or-false _ _
                    (alnum-slash c s (and-left (is_alnum c) (all is_branch_char s) is.pattern))
                    is.no_slash_end,
                is.no_dot_end,
                is.no_lock,
                contains_one-other is_branch_char forbidden b refl class,
                is.pattern,
              ),
        )
