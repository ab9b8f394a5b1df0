-- ===== src/Prelude/Trimming.antt =====
-- `strings.TrimSpace` leaves nothing to trim.
use Prim.Native.Nat.{ℕ}
use mathlib.Core.Path.{◌≡◌, refl, sym, ap, ◌∙◌}
use mathlib.Core.Bool.{false}
use mathlib.Core.Logic.{inl, inr}
use mathlib.Core.List.{[], ◌∷◌, ◌++◌, reverse, reverse-cons, reverse-append}
use kode_stream.Prelude.Tests.{if◌then◌else◌, Bool-cases}
use kode_stream.Prelude.Texts.{Text, is_space, trim_left, trim_space}

-- A space in front of `rest`, which has been trimmed behind.
abbrev before : ℕ → Text → Text
before c [] = if is_space c then [] else c ∷ []
before c (d ∷ r) = c ∷ d ∷ r

abbrev trim_right : Text → Text
trim_right [] = []
trim_right (c ∷ s) = before c (trim_right s)

abbrev behind : Text → ℕ → Text
behind [] c = if is_space c then [] else c ∷ []
behind (d ∷ r) c = d ∷ (r ++ (c ∷ []))

trim_left-snoc : (s : Text) (c : ℕ) → trim_left (s ++ (c ∷ [])) ≡ behind (trim_left s) c
unfolding trim_left
trim_left-snoc [] c = refl
trim_left-snoc (d ∷ s) c = elim (Bool-cases (is_space d)) [
  | inl t ↦ rw t (trim_left-snoc s c)
  | inr f ↦ rw f refl
]

before-snoc : (c d : ℕ) (xs : Text) → before c (xs ++ (d ∷ [])) ≡ c ∷ (xs ++ (d ∷ []))
before-snoc c d [] = refl
before-snoc c d (x ∷ xs) = refl

reverse-behind : (t : Text) (c : ℕ) → reverse (behind t c) ≡ before c (reverse t)
reverse-behind [] c = elim (Bool-cases (is_space c)) [ inl t ↦ rw t refl | inr f ↦ rw f refl ]
reverse-behind (d ∷ r) c =
    reverse-append (d ∷ r) (c ∷ [])
    ∙ ap (λ l. c ∷ l) (reverse-cons d r)
    ∙ sym (before-snoc c d (reverse r))
    ∙ ap (before c) (sym (reverse-cons d r))

trim_right_reversed : (s : Text) → reverse (trim_left (reverse s)) ≡ trim_right s
unfolding trim_left
trim_right_reversed [] = refl
trim_right_reversed (c ∷ s) =
    ap (λ l. reverse (trim_left l)) (reverse-cons c s)
    ∙ ap reverse (trim_left-snoc (reverse s) c)
    ∙ reverse-behind (trim_left (reverse s)) c
    ∙ ap (before c) (trim_right_reversed s)

trim_right-trim_right : (s : Text) → trim_right (trim_right s) ≡ trim_right s
trim_right-trim_right [] = refl
trim_right-trim_right (c ∷ s) = again (trim_right s) (trim_right-trim_right s)
  where
    again : (t : Text) → trim_right t ≡ t → trim_right (before c t) ≡ before c t
    again [] h = elim (Bool-cases (is_space c)) [ inl t ↦ rw t refl | inr f ↦ rw (f, f) refl ]
    again (d ∷ r) h = ap (before c) h

trim_left-before : (c : ℕ) (t : Text) → is_space c ≡ false → trim_left (before c t) ≡ before c t
unfolding trim_left
trim_left-before c [] f = rw (f, f) refl
trim_left-before c (d ∷ r) f = rw f refl

trim_left-trim_right : (s : Text) → trim_left (trim_right (trim_left s)) ≡ trim_right (trim_left s)
unfolding trim_left
trim_left-trim_right [] = refl
trim_left-trim_right (c ∷ s) = elim (Bool-cases (is_space c)) [
  | inl t ↦ rw t (trim_left-trim_right s)
  | inr f ↦ rw f (trim_left-before c (trim_right s) f)
]

pub trim_space-trim_space : (s : Text) → trim_space (trim_space s) ≡ trim_space s
unfolding trim_space
trim_space-trim_space s =
    let kept = trim_left-trim_right s in
    rw (trim_right_reversed (trim_left s), kept, trim_right_reversed (trim_right (trim_left s)))
      (trim_right-trim_right (trim_left s))
