-- ===== src/Prelude/Ordering.antt =====
-- `sort.Slice` by a comparison: inserting the elements one by one from the back.
use mathlib.Core.Bool.{Bool, true, false, ◌&&◌, ◌||◌}
use mathlib.Core.Logic.{inl, inr}
use mathlib.Core.List.{List, [], ◌∷◌}
use kode_stream.Prelude.Tests.{if◌then◌else◌, Bool-cases, ltb, nat_eq, ◌==◌}
use kode_stream.Prelude.Texts.{Text}
use kode_stream.Prelude.Lists.{length}
use kode_stream.Prelude.Members.{In}
use Prim.Native.Nat.{suc}
use mathlib.Core.Path.{◌≡◌, refl, ap, ◌∙◌}

-- `s < t` on strings: by code points, which is the order of their UTF-8 encodings.
abbrev pub text_ltb : Text → Text → Bool
text_ltb s [] = false
text_ltb [] (d ∷ t) = true
text_ltb (c ∷ s) (d ∷ t) = ltb c d || (c == d && text_ltb s t)

module _ {A : Type 0} (less : A → A → Bool) where
  unfoldable pub insert_by : A → List A → List A
  insert_by x [] = x ∷ []
  insert_by x (y ∷ ys) = let rest = insert_by x ys in if less y x then y ∷ rest else x ∷ y ∷ ys

  unfoldable pub sort_by : List A → List A
  unfolding insert_by
  sort_by [] = []
  sort_by (x ∷ xs) = insert_by x (sort_by xs)

  In-insert_by : (x a : A) (ys : List A) → In a (insert_by x ys) → In a (x ∷ ys)
  unfolding insert_by
  In-insert_by x a [] m = m
  In-insert_by x a (y ∷ ys) m = elim (Bool-cases (less y x)) [
    | inl t ↦ elim (rw t at m) [
      | inl e ↦ inr (inl e)
      | inr r ↦ elim (In-insert_by x a ys r) [ inl e ↦ inl e | inr q ↦ inr (inr q) ]
    ]
    | inr f ↦ rw f at m
  ]

  insert_by-In : (x a : A) (ys : List A) → In a (x ∷ ys) → In a (insert_by x ys)
  unfolding insert_by
  insert_by-In x a [] m = m
  insert_by-In x a (y ∷ ys) m = elim (Bool-cases (less y x)) [
    | inl t ↦ rw t (elim m [
      | inl e ↦ inr (insert_by-In x a ys (inl e))
      | inr (inl e) ↦ inl e
      | inr (inr r) ↦ inr (insert_by-In x a ys (inr r))
    ])
    | inr f ↦ rw f m
  ]

  pub In-sort_by : (a : A) (xs : List A) → In a (sort_by xs) → In a xs
  unfolding sort_by
  In-sort_by a [] m = m
  In-sort_by a (x ∷ xs) m = elim (In-insert_by x a (sort_by xs) m) [
    | inl e ↦ inl e
    | inr r ↦ inr (In-sort_by a xs r)
  ]

  pub sort_by-In : (a : A) (xs : List A) → In a xs → In a (sort_by xs)
  unfolding sort_by
  sort_by-In a (x ∷ xs) (inl e) = insert_by-In x a (sort_by xs) (inl e)
  sort_by-In a (x ∷ xs) (inr m) = insert_by-In x a (sort_by xs) (inr (sort_by-In a xs m))
  sort_by-In a [] m = absurd m

  length-insert_by : (x : A) (ys : List A) → length (insert_by x ys) ≡ suc (length ys)
  unfolding insert_by
  length-insert_by x [] = refl
  length-insert_by x (y ∷ ys) = elim (Bool-cases (less y x)) [
    | inl t ↦ rw t (ap suc (length-insert_by x ys))
    | inr f ↦ rw f refl
  ]

  pub length-sort_by : (xs : List A) → length (sort_by xs) ≡ length xs
  unfolding sort_by
  length-sort_by [] = refl
  length-sort_by (x ∷ xs) = length-insert_by x (sort_by xs) ∙ ap suc (length-sort_by xs)
