-- ===== src/Prelude/Sorting.antt =====
-- `sort.SliceStable` by a number, the greatest first: the result is that of inserting the elements
-- one by one from the back, an element before its equals.
use Prim.Native.Nat.{ℕ, suc, ◌≤◌}
use mathlib.Core.Path.{◌≡◌, refl, sym, ap, ◌∙◌}
use mathlib.Core.Bool.{Bool, true, false}
use mathlib.Core.Logic.{◌⊎◌, inl, inr}
use mathlib.Core.List.{List, [], ◌∷◌, map}
use native.Mathlib.Omega.{arith}
use kode_stream.Prelude.Tests.{if◌then◌else◌, Bool-cases, ltb, ltb→lt}
use kode_stream.Prelude.Lists.{All, length}
use kode_stream.Prelude.Members.{In, select, All-at, All-of, In-of_select}

module _ {A : Type 0} (key : A → ℕ) where
  unfoldable pub insert_desc : A → List A → List A
  insert_desc x [] = x ∷ []
  insert_desc x (y ∷ ys) =
      let rest = insert_desc x ys in if ltb (key x) (key y) then y ∷ rest else x ∷ y ∷ ys

  unfoldable pub sort_desc : List A → List A
  unfolding insert_desc
  sort_desc [] = []
  sort_desc (x ∷ xs) = insert_desc x (sort_desc xs)

  abbrev pub IsDescending : List A → Type 0
  IsDescending [] = Unit
  IsDescending (x ∷ xs) = All (λ y. key y ≤ key x) xs × IsDescending xs

  pub In-insert_desc : (x a : A) (ys : List A) → In a (insert_desc x ys) → In a (x ∷ ys)
  unfolding insert_desc
  In-insert_desc x a [] m = m
  In-insert_desc x a (y ∷ ys) m = elim (Bool-cases (ltb (key x) (key y))) [
    | inl t ↦ elim (rw t at m) [
      | inl e ↦ inr (inl e)
      | inr r ↦ elim (In-insert_desc x a ys r) [ inl e ↦ inl e | inr q ↦ inr (inr q) ]
    ]
    | inr f ↦ rw f at m
  ]

  pub insert_desc-In : (x a : A) (ys : List A) → In a (x ∷ ys) → In a (insert_desc x ys)
  unfolding insert_desc
  insert_desc-In x a [] m = m
  insert_desc-In x a (y ∷ ys) m = elim (Bool-cases (ltb (key x) (key y))) [
    | inl t ↦ rw t (elim m [
      | inl e ↦ inr (insert_desc-In x a ys (inl e))
      | inr (inl e) ↦ inl e
      | inr (inr r) ↦ inr (insert_desc-In x a ys (inr r))
    ])
    | inr f ↦ rw f m
  ]

  pub In-sort_desc : (a : A) (xs : List A) → In a (sort_desc xs) → In a xs
  unfolding sort_desc
  In-sort_desc a [] m = m
  In-sort_desc a (x ∷ xs) m = elim (In-insert_desc x a (sort_desc xs) m) [
    | inl e ↦ inl e
    | inr r ↦ inr (In-sort_desc a xs r)
  ]

  pub sort_desc-In : (a : A) (xs : List A) → In a xs → In a (sort_desc xs)
  unfolding sort_desc
  sort_desc-In a (x ∷ xs) (inl e) = insert_desc-In x a (sort_desc xs) (inl e)
  sort_desc-In a (x ∷ xs) (inr m) = insert_desc-In x a (sort_desc xs) (inr (sort_desc-In a xs m))
  sort_desc-In a [] m = absurd m

  insert_desc-IsDescending :
      (x : A) (ys : List A) → IsDescending ys → IsDescending (insert_desc x ys)
  unfolding insert_desc
  insert_desc-IsDescending x [] d = (tt, tt)
  insert_desc-IsDescending x (y ∷ ys) (below, d) = elim (Bool-cases (ltb (key x) (key y))) [
    | inl t ↦ rw t (
      All-of (λ z. key z ≤ key y) (insert_desc x ys)
          (λ a m. elim (In-insert_desc x a ys m) [
            | inl e ↦ omega (arith, ltb→lt (key x) (key y) t, ap key e)
            | inr r ↦ All-at (λ z. key z ≤ key y) ys a below r
          ]),
      insert_desc-IsDescending x ys d,
    )
    | inr f ↦
        let le : key y ≤ key x = ground arith in
        rw f (
          (
            le,
            All-of (λ z. key z ≤ key x) ys
                (λ a m. omega (arith, le, All-at (λ z. key z ≤ key y) ys a below m)),
          ),
          (below, d),
        )
  ]

  length-insert_desc : (x : A) (ys : List A) → length (insert_desc x ys) ≡ suc (length ys)
  unfolding insert_desc
  length-insert_desc x [] = refl
  length-insert_desc x (y ∷ ys) = elim (Bool-cases (ltb (key x) (key y))) [
    | inl t ↦ rw t (omega (arith, length-insert_desc x ys))
    | inr f ↦ rw f refl
  ]

  pub length-sort_desc : (xs : List A) → length (sort_desc xs) ≡ length xs
  unfolding sort_desc
  length-sort_desc [] = refl
  length-sort_desc (x ∷ xs) =
      omega (arith, length-insert_desc x (sort_desc xs), length-sort_desc xs)

  pub sort_desc-IsDescending : (xs : List A) → IsDescending (sort_desc xs)
  unfolding sort_desc
  sort_desc-IsDescending [] = tt
  sort_desc-IsDescending (x ∷ xs) =
      insert_desc-IsDescending x (sort_desc xs) (sort_desc-IsDescending xs)

  -- An element that is not below the rest stays in front.
  pub insert_desc-front :
      (x : A) (ys : List A) → All (λ y. key y ≤ key x) ys → insert_desc x ys ≡ x ∷ ys
  unfolding insert_desc
  insert_desc-front x [] h = refl
  insert_desc-front x (y ∷ ys) (h, hs) =
      let f : ltb (key x) (key y) ≡ false = ground arith in rw f refl

  pub sort_desc-front :
      (x : A) (xs : List A) → All (λ y. key y ≤ key x) xs → sort_desc (x ∷ xs) ≡ x ∷ sort_desc xs
  unfolding sort_desc
  sort_desc-front x xs h = insert_desc-front x (sort_desc xs) (
      All-of (λ y. key y ≤ key x) (sort_desc xs)
        (λ a m. All-at (λ y. key y ≤ key x) xs a h (In-sort_desc a xs m)))

  pub sort_desc_sorted : (xs : List A) → IsDescending xs → sort_desc xs ≡ xs
  unfolding sort_desc
  sort_desc_sorted [] d = refl
  sort_desc_sorted (x ∷ xs) (below, d) = rw (sort_desc_sorted xs d) (insert_desc-front x xs below)

  -- A sort keeps the order among the elements of a selection.
  select-insert_desc :
      (p : A → Bool) (x : A) (ys : List A)
      → IsDescending ys
      → select p (insert_desc x ys) ≡ (if p x then insert_desc x (select p ys) else select p ys)
  unfolding insert_desc
  select-insert_desc p x [] d = elim (Bool-cases (p x)) [ inl t ↦ rw t refl | inr f ↦ rw f refl ]
  select-insert_desc p x (y ∷ ys) (below, d) = elim (Bool-cases (ltb (key x) (key y))) [
    | inl t ↦ rw t (later (Bool-cases (p x)) (Bool-cases (p y)) t (select-insert_desc p x ys d))
    | inr f ↦ let le : key y ≤ key x = ground arith in rw f (first (Bool-cases (p x)) le)
  ]
    where
      below_x : key y ≤ key x → All (λ z. key z ≤ key x) (select p (y ∷ ys))
      below_x le =
          All-of (λ z. key z ≤ key x) (select p (y ∷ ys))
            (λ a m. elim (In-of_select p (y ∷ ys) a m).0 [
              | inl e ↦ omega (arith, le, ap key e)
              | inr r ↦ omega (arith, le, All-at (λ z. key z ≤ key y) ys a below r)
            ])

      first :
          ◌⊎◌ (p x ≡ true) (p x ≡ false)
          → key y ≤ key x
          → select p (x ∷ y ∷ ys)
            ≡ (if p x then insert_desc x (select p (y ∷ ys)) else select p (y ∷ ys))
      first (inl t) le =
          let placed = sym (insert_desc-front x (select p (y ∷ ys)) (below_x le)) in rw t placed
      first (inr f) le = rw f refl

      later :
          ◌⊎◌ (p x ≡ true) (p x ≡ false)
          → ◌⊎◌ (p y ≡ true) (p y ≡ false)
          → ltb (key x) (key y) ≡ true
          → select p (insert_desc x ys) ≡ (if p x then insert_desc x (select p ys) else select p ys)
          → select p (y ∷ insert_desc x ys)
            ≡ (if p x then insert_desc x (select p (y ∷ ys)) else select p (y ∷ ys))
      later (inl t) (inl u) l ih = rw (t, u, l) (ap (λ zs. y ∷ zs) (rw t at ih))
      later (inl t) (inr v) l ih = rw (t, v) (rw t at ih)
      later (inr f) (inl u) l ih = rw (f, u) (ap (λ zs. y ∷ zs) (rw f at ih))
      later (inr f) (inr v) l ih = rw (f, v) (rw f at ih)

  pub select-sort_desc :
      (p : A → Bool) (xs : List A) → select p (sort_desc xs) ≡ sort_desc (select p xs)
  unfolding sort_desc
  select-sort_desc p [] = refl
  select-sort_desc p (x ∷ xs) =
      select-insert_desc p x (sort_desc xs) (sort_desc-IsDescending xs) ∙ elim (Bool-cases (p x)) [
        | inl t ↦ rw t (ap (insert_desc x) (select-sort_desc p xs))
        | inr f ↦ rw f (select-sort_desc p xs)
      ]

  -- A sort commutes with a change of the elements that keeps their keys.
  map-insert_desc :
      (f : A → A)
      → ((a : A) → key (f a) ≡ key a)
      → (x : A) (ys : List A) → insert_desc (f x) (map f ys) ≡ map f (insert_desc x ys)
  unfolding insert_desc
  map-insert_desc f h x [] = refl
  map-insert_desc f h x (y ∷ ys) = elim (Bool-cases (ltb (key x) (key y))) [
    | inl t ↦ rw (h x, h y, t) (ap (λ zs. f y ∷ zs) (map-insert_desc f h x ys))
    | inr n ↦ rw (h x, h y, n) refl
  ]

  pub map-sort_desc :
      (f : A → A)
      → ((a : A) → key (f a) ≡ key a)
      → (xs : List A) → sort_desc (map f xs) ≡ map f (sort_desc xs)
  unfolding sort_desc
  map-sort_desc f h [] = refl
  map-sort_desc f h (x ∷ xs) = rw (map-sort_desc f h xs) (map-insert_desc f h x (sort_desc xs))

  pub sort_desc-sort_desc : (xs : List A) → sort_desc (sort_desc xs) ≡ sort_desc xs
  sort_desc-sort_desc xs = sort_desc_sorted (sort_desc xs) (sort_desc-IsDescending xs)

module _ {A : Type 0} where
  pub select-map :
      (p : A → Bool) (f : A → A)
      → ((a : A) → p (f a) ≡ p a)
      → (xs : List A) → select p (map f xs) ≡ map f (select p xs)
  select-map p f h [] = refl
  select-map p f h (x ∷ xs) = elim (Bool-cases (p x)) [
    | inl t ↦ rw (h x, t) (ap (λ zs. f x ∷ zs) (select-map p f h xs))
    | inr n ↦ rw (h x, n) (select-map p f h xs)
  ]

  pub map-map_same :
      (f : A → A) → ((a : A) → f (f a) ≡ f a) → (xs : List A) → map f (map f xs) ≡ map f xs
  map-map_same f h [] = refl
  map-map_same f h (x ∷ xs) = rw (h x, map-map_same f h xs) refl

  pub length-map : (f : A → A) (xs : List A) → length (map f xs) ≡ length xs
  length-map f [] = refl
  length-map f (x ∷ xs) = omega (arith, length-map f xs)
