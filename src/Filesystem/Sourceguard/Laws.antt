-- ===== src/Filesystem/Sourceguard/Laws.antt =====
-- The sources that the guard accepts.
use kode_stream.Prelude.{
  suc, ◌∙◌, length, length-sort_by, trim_space, ◌≡◌, ◌≢◌, ◌⊎◌, has_prefix, text_beq_iff,
  append_assoc, nat_eq, arith, refl, Bool, true, false, ◌||◌, List, [], ◌∷◌, ◌++◌, Option, none,
  some, ok, Text, text_eq, ◌==◌, All, All-at, All-of, In, sort_by, In-sort_by, inl, inr, Bool-cases,
  >>=-eq-ok, subst, sym, ap, ok-injective,
}
use kode_stream.Filesystem.Paths.{clean, slash}
use kode_stream.Filesystem.Sourceguard.{
  Source, SourceError, contained, is_refused, resolved, resolve_source, resolve_each, check_pairs,
  or_else, check_each, key_before, unless_clash, resolve_all,
}

or_else-none : (a b : Option SourceError) → or_else a b ≡ none → (a ≡ none) × (b ≡ none)
or_else-none (some e) b h = cc
or_else-none none b h = (refl, h)

-- A path is another one, or goes on behind it with a slash; every absolute path is below the root.
abbrev pub IsBelow : Text → Text → Type 0
IsBelow root path =
    (path ≡ root) ⊎ (root ≡ slash ∷ []) ⊎ ((rest : Text) × (path ≡ root ++ (slash ∷ rest)))

has_prefix-append : (p rest : Text) → has_prefix (p ++ rest) p ≡ true
unfolding has_prefix
has_prefix-append [] rest = refl
has_prefix-append (c ∷ p) rest = rw (has_prefix-append p rest) (ground arith)

prefix-split : (s p : Text) → has_prefix s p ≡ true → (rest : Text) × (s ≡ p ++ rest)
unfolding has_prefix
prefix-split s [] h = (s, refl)
prefix-split [] (d ∷ p) h = cc
prefix-split (c ∷ s) (d ∷ p) h =
    let first : c ≡ d = ground arith in
    let (rest, e) = prefix-split s p (ground arith) in
    (rest, ap (λ t. c ∷ t) e ∙ ap (λ x. x ∷ (p ++ rest)) first)

contained-IsBelow : (root path : Text) → contained root path ≡ true → IsBelow root path
unfolding contained
contained-IsBelow root path h = elim (Bool-cases (path == root)) [
  | inl t ↦ inl ((text_beq_iff path root).0 t)
  | inr f ↦ elim (Bool-cases (root == (slash ∷ []))) [
    | inl u ↦ inr (inl ((text_beq_iff root (slash ∷ [])).0 u))
    | inr g ↦
        let (rest, e) = prefix-split path (root ++ (slash ∷ [])) (rw (f, g) at h) in
        inr (inr (rest, e ∙ append_assoc root (slash ∷ []) rest))
  ]
]

IsBelow-contained : (root path : Text) → IsBelow root path → contained root path ≡ true
unfolding contained
IsBelow-contained root path (inl e) = rw ((text_beq_iff path root).1 e) refl
IsBelow-contained root path (inr (inl e)) =
    let top : (root == (slash ∷ [])) ≡ true = (text_beq_iff root (slash ∷ [])).1 e in
    elim (Bool-cases (path == root)) [ inl t ↦ rw t refl | inr f ↦ rw (f, top) refl ]
IsBelow-contained root path (inr (inr (rest, e))) =
    let longer : has_prefix path (root ++ (slash ∷ [])) ≡ true =
      ap (λ s. has_prefix s (root ++ (slash ∷ []))) (e ∙ sym (append_assoc root (slash ∷ []) rest))
      ∙ has_prefix-append (root ++ (slash ∷ [])) rest in
    elim (Bool-cases (path == root)) [
      | inl t ↦ rw t refl
      | inr f ↦ elim (Bool-cases (root == (slash ∷ []))) [
        | inl u ↦ rw (f, u) refl
        | inr g ↦ rw (f, g) longer
      ]
    ]

not-IsBelow : (root path : Text) → contained root path ≡ false → ¬ IsBelow root path
not-IsBelow root path h below = let bad = IsBelow-contained root path below in cc

module _ (key : Text → Text) (root : Text) (real : Text → Option Text) where
  -- Two sources are different directories, and neither is below the other.
  abbrev pub IsApart : Source → Source → Type 0
  IsApart a b =
      (key a.real_path ≢ key b.real_path)
      × (¬ IsBelow a.real_path b.real_path)
      × (¬ IsBelow b.real_path a.real_path)

  abbrev pub ArePairwiseApart : List Source → Type 0
  ArePairwiseApart [] = Unit
  ArePairwiseApart (s ∷ ss) = All (IsApart s) ss × ArePairwiseApart ss

  abbrev pub IsInside : Source → Type 0
  IsInside s = IsBelow root s.real_path

  or_false : (a b : Bool) → (a || b) ≡ false → (a ≡ false) × (b ≡ false)
  or_false true b h = cc
  or_false false b h = (refl, h)

  check_pairs-IsApart :
      (right : Source) (ls : List Source)
      → check_pairs key root real right ls ≡ none
      → All (λ l. IsApart l right) ls
  unfolding check_pairs
  check_pairs-IsApart right [] h = tt
  check_pairs-IsApart right (l ∷ ls) h =
      elim (Bool-cases (key l.real_path == key right.real_path)) [
        | inl t ↦ let bad = rw t at h in cc
        | inr f ↦
            elim (Bool-cases
              (contained l.real_path right.real_path || contained right.real_path l.real_path)) [
                | inl u ↦ let bad = rw (f, u) at h in cc
                | inr v ↦
                    let (down, up) =
                      or_false (contained l.real_path right.real_path)
                        (contained right.real_path l.real_path) v in
                    (
                      (
                        λ e.
                            let bad = (text_beq_iff (key l.real_path) (key right.real_path)).1 e in
                            cc,
                        not-IsBelow l.real_path right.real_path down,
                        not-IsBelow right.real_path l.real_path up,
                      ),
                      check_pairs-IsApart right ls (rw (f, v) at h),
                    )
              ]
      ]

  All-split : (P : Source → Type 0) (xs ys : List Source) → All P (xs ++ ys) → All P xs × All P ys
  All-split P [] ys h = (tt, h)
  All-split P (x ∷ xs) ys (h, hs) = let (a, b) = All-split P xs ys hs in ((h, a), b)

  All-with :
      (s : Source) (ss xs : List Source)
      → All (λ l. IsApart l s) xs
      → All (λ l. All (IsApart l) ss) xs
      → All (λ l. All (IsApart l) (s ∷ ss)) xs
  All-with s ss [] h k = tt
  All-with s ss (x ∷ xs) (h, hs) (k, ks) = ((h, k), All-with s ss xs hs ks)

  check_each-ArePairwiseApart :
      (before ss : List Source)
      → check_each key root real before ss ≡ none
      → All (λ l. All (IsApart l) ss) before × ArePairwiseApart ss
  unfolding check_each
  check_each-ArePairwiseApart before [] h = (All-of (λ l. Unit) before (λ l m. tt), tt)
  check_each-ArePairwiseApart before (s ∷ ss) h =
      let (here, later) = or_else-none (check_pairs key root real s before) _ h in
      let (all, rest) = check_each-ArePairwiseApart (before ++ (s ∷ [])) ss later in
      let (old, new) = All-split (λ l. All (IsApart l) ss) before (s ∷ []) all in
      (All-with s ss before (check_pairs-IsApart s before here) old, (new.0, rest))

  resolved-IsInside :
      (c : Text) (o : Option Text) (s : Source) → resolved key root real c o ≡ ok s → IsInside s
  resolved-IsInside c none s h = cc
  resolved-IsInside c (some path) s h = elim (Bool-cases (contained root path)) [
    | inl t ↦
        let same : record { relative = c; real_path = path } ≡ s = ok-injective (rw t at h) in
        subst IsInside same (contained-IsBelow root path t)
    | inr f ↦ let bad = rw f at h in cc
  ]

  resolve_source-IsInside :
      (v : Text) (s : Source) → resolve_source key root real v ≡ ok s → IsInside s
  unfolding resolve_source
  resolve_source-IsInside v s h =
      let c = clean (trim_space v) in
      elim (Bool-cases (is_refused v c)) [
        | inl t ↦ let bad = rw t at h in cc
        | inr f ↦ resolved-IsInside c (real c) s (rw f at h)
      ]

  resolve_each-IsInside :
      (vs : List Text) (ss : List Source)
      → resolve_each key root real vs ≡ ok ss
      → All IsInside ss × (length ss ≡ length vs)
  unfolding resolve_each
  resolve_each-IsInside [] ss h =
      let same : [] ≡ ss = ok-injective h in
      subst (λ xs. All IsInside xs × (length xs ≡ 0)) same (tt, refl)
  resolve_each-IsInside (v ∷ vs) ss h =
      let (s, first, later) = >>=-eq-ok (resolve_source key root real v) _ h in
      let (rest, next, last) = >>=-eq-ok (resolve_each key root real vs) _ later in
      let (inside, count) = resolve_each-IsInside vs rest next in
      let same : (s ∷ rest) ≡ ss = ok-injective last in
      subst (λ xs. All IsInside xs × (length xs ≡ suc (length vs))) same
        ((resolve_source-IsInside v s first, inside), ap suc count)

  -- The list that is accepted.
  unless_clash-ok :
      (xs ss : List Source) (e : Option SourceError)
      → unless_clash key root real xs e ≡ ok ss
      → (xs ≡ ss) × (e ≡ none)
  unless_clash-ok xs ss none h = (ok-injective h, refl)
  unless_clash-ok xs ss (some e) h = cc

  -- When the sources of a workspace are accepted there is one for each value, the real path of each
  -- is that of the workspace or goes on behind it, and any two of them differ as the system compares
  -- paths, neither going on behind the other as they are spelled.
  pub resolve_all-ArePairwiseApart :
      (values : List Text) (ss : List Source)
      → resolve_all key real (some root) values ≡ ok ss
      → (length ss ≡ length values) × ((s : Source) → In s ss → IsInside s) × ArePairwiseApart ss
  unfolding resolve_all
  resolve_all-ArePairwiseApart values ss h =
      let (found, each, checked) = >>=-eq-ok (resolve_each key root real values) _ h in
      let sorted = sort_by (key_before key root real) found in
      let (same, fine) = unless_clash-ok sorted ss (check_each key root real [] sorted) checked in
      let (inside, count) = resolve_each-IsInside values found each in
      (
        ap length (sym same) ∙ (length-sort_by (key_before key root real) found ∙ count),
        λ s m.
            All-at IsInside found s inside
              (In-sort_by (key_before key root real) s found (subst (In s) (sym same) m)),
        subst ArePairwiseApart same (check_each-ArePairwiseApart [] sorted fine).1,
      )
