-- ===== src/Prelude/Members.antt =====
-- Membership in a list, and lists filtered by a test.
use mathlib.Core.Path.{◌≡◌, refl, sym, ap, subst}
use mathlib.Core.Bool.{Bool, true, false, not}
use mathlib.Core.Logic.{inl, inr}
use mathlib.Core.List.{List, [], ◌∷◌, ◌++◌, map}
use kode_stream.Prelude.Tests.{if◌then◌else◌, Bool-cases}
use kode_stream.Prelude.Lists.{All, Any, any}

abbrev pub In : {A : Type 0} → A → List A → Type 0
In a = Any (λ b. b ≡ a)

abbrev pub select : {A : Type 0} → (A → Bool) → List A → List A
select p [] = []
select p (x ∷ xs) = if p x then x ∷ select p xs else select p xs

module _ {A : Type 0} where
  pub All-at : (P : A → Type 0) (xs : List A) (a : A) → All P xs → In a xs → P a
  All-at P (x ∷ xs) a (h, hs) (inl e) = subst P e h
  All-at P (x ∷ xs) a (h, hs) (inr m) = All-at P xs a hs m
  All-at P [] a h m = absurd m

  pub All-of : (P : A → Type 0) (xs : List A) → ((a : A) → In a xs → P a) → All P xs
  All-of P [] f = tt
  All-of P (x ∷ xs) f = (f x (inl refl), All-of P xs (λ a m. f a (inr m)))

  pub Any-In : (P : A → Type 0) (xs : List A) → Any P xs → (a : A) × (In a xs) × (P a)
  Any-In P (x ∷ xs) (inl h) = (x, inl refl, h)
  Any-In P (x ∷ xs) (inr m) = let (a, inside, h) = Any-In P xs m in (a, inr inside, h)
  Any-In P [] m = absurd m

  pub In-Any : (P : A → Type 0) (xs : List A) (a : A) → In a xs → P a → Any P xs
  In-Any P (x ∷ xs) a (inl e) h = inl (subst P (sym e) h)
  In-Any P (x ∷ xs) a (inr m) h = inr (In-Any P xs a m h)
  In-Any P [] a m h = absurd m

  pub In-select : (p : A → Bool) (xs : List A) (a : A) → In a xs → p a ≡ true → In a (select p xs)
  In-select p (x ∷ xs) a (inl e) h =
      let here : p x ≡ true = subst (λ b. p b ≡ true) (sym e) h in rw here (inl e)
  In-select p (x ∷ xs) a (inr m) h = elim (Bool-cases (p x)) [
    | inl t ↦ rw t (inr (In-select p xs a m h))
    | inr f ↦ rw f (In-select p xs a m h)
  ]
  In-select p [] a m h = absurd m

  pub In-of_select :
      (p : A → Bool) (xs : List A) (a : A) → In a (select p xs) → In a xs × (p a ≡ true)
  In-of_select p (x ∷ xs) a m = elim (Bool-cases (p x)) [
    | inl t ↦ elim (rw t at m) [
      | inl e ↦ (inl e, subst (λ b. p b ≡ true) e t)
      | inr r ↦ let (i, h) = In-of_select p xs a r in (inr i, h)
    ]
    | inr f ↦ let (i, h) = In-of_select p xs a (rw f at m) in (inr i, h)
  ]
  In-of_select p [] a m = absurd m

pub In-any :
    {A : Type 0} (p : A → Bool) (xs : List A) (a : A) → In a xs → p a ≡ true → any p xs ≡ true
In-any p (x ∷ xs) a (inl e) h =
    let here : p x ≡ true = subst (λ b. p b ≡ true) (sym e) h in rw here refl
In-any p (x ∷ xs) a (inr m) h = elim (Bool-cases (p x)) [
  | inl t ↦ rw t refl
  | inr f ↦ rw f (In-any p xs a m h)
]
In-any p [] a m h = absurd m

module _ {A B : Type 0} (f : A → B) where
  pub In-map : (xs : List A) (a : A) → In a xs → In (f a) (map f xs)
  In-map (x ∷ xs) a (inl e) = inl (ap f e)
  In-map (x ∷ xs) a (inr m) = inr (In-map xs a m)
  In-map [] a m = absurd m

  pub In-of_map : (xs : List A) (b : B) → In b (map f xs) → (a : A) × (In a xs) × (f a ≡ b)
  In-of_map (x ∷ xs) b (inl e) = (x, inl refl, e)
  In-of_map (x ∷ xs) b (inr m) = let (a, inside, e) = In-of_map xs b m in (a, inr inside, e)
  In-of_map [] b m = absurd m

module _ {A : Type 0} where
  pub select-append :
      (p : A → Bool) (xs ys : List A) → select p (xs ++ ys) ≡ select p xs ++ select p ys
  select-append p [] ys = refl
  select-append p (x ∷ xs) ys = elim (Bool-cases (p x)) [
    | inl t ↦ rw t (ap (λ l. x ∷ l) (select-append p xs ys))
    | inr f ↦ rw f (select-append p xs ys)
  ]

  pub select_every : (p : A → Bool) (xs : List A) → All (λ x. p x ≡ true) xs → select p xs ≡ xs
  select_every p [] h = refl
  select_every p (x ∷ xs) (h, hs) = rw h (ap (λ l. x ∷ l) (select_every p xs hs))

  pub select_none : (p : A → Bool) (xs : List A) → All (λ x. p x ≡ false) xs → select p xs ≡ []
  select_none p [] h = refl
  select_none p (x ∷ xs) (h, hs) = rw h (select_none p xs hs)

  -- What one test selects among what another one leaves, if they exclude each other.
  pub select_excluded :
      (p q : A → Bool)
      → ((x : A) → p x ≡ true → q x ≡ false)
      → (xs : List A) → select q (select (λ x. not (p x)) xs) ≡ select q xs
  select_excluded p q h [] = refl
  select_excluded p q h (x ∷ xs) = elim (Bool-cases (p x)) [
    | inl t ↦ rw (t, h x t) (select_excluded p q h xs)
    | inr f ↦ elim (Bool-cases (q x)) [
      | inl u ↦ rw (f, u) (ap (λ l. x ∷ l) (select_excluded p q h xs))
      | inr v ↦ rw (f, v) (select_excluded p q h xs)
    ]
  ]

  pub select_taken : (p : A → Bool) (xs : List A) → select p (select (λ x. not (p x)) xs) ≡ []
  select_taken p [] = refl
  select_taken p (x ∷ xs) = elim (Bool-cases (p x)) [
    | inl t ↦ rw t (select_taken p xs)
    | inr f ↦ rw (f, f) (select_taken p xs)
  ]

pub select_alike :
    {A : Type 0} (p q : A → Bool)
    → ((x : A) → p x ≡ q x)
    → (xs : List A) → select p xs ≡ select q xs
select_alike p q h [] = refl
select_alike p q h (x ∷ xs) = rw (h x, select_alike p q h xs) refl
