-- ===== src/Canvas/Placements/Laws.antt =====
-- What a batch of patches does to the placements of a layout.
use kode_stream.Prelude.{
  ℕ, suc, ◌+◌, ◌⊎◌, ◌≡◌, refl, sym, ap, ◌∙◌, subst, Bool, true, false, ◌&&◌, List, [], ◌∷◌, ◌++◌,
  Option, none, some, of_some, if◌then◌else◌, Text, text_eq, text_beq_iff, nat_eq, ◌==◌, beq_self,
  Map, put, arith, inl, inr, Bool-cases, Option-cases,
}
use kode_stream.Canvas.{Placement}
use kode_stream.Canvas.Placements.{at, set_at, index_placements}

abbrev pub behind : Option ℕ → Bool → Option ℕ
behind (some j) here = some (suc j)
behind none true = some 0
behind none false = none

abbrev pub later : ℕ → Option ℕ → Option ℕ → Option ℕ
later i (some j) old = some (i + j)
later i none old = old

module _ {F : Type 0} (layout : Text) where
  abbrev pub is_at : Text → Placement F → Bool
  is_at n p = p.layout_id == layout && p.node_id == n

  -- Where the last placement of a node stands.
  abbrev pub position_of : Text → List (Placement F) → Option ℕ
  position_of n [] = none
  position_of n (p ∷ ps) = behind (position_of n ps) (is_at n p)

  abbrev pub or_this : Option (Placement F) → Bool → Placement F → Option (Placement F)
  or_this (some q) here p = some q
  or_this none true p = some p
  or_this none false p = none

  -- The last placement of a node of the layout.
  abbrev pub last_of : Text → List (Placement F) → Option (Placement F)
  last_of n [] = none
  last_of n (p ∷ ps) = or_this (last_of n ps) (is_at n p) p

  pub position-none :
      (n : Text) (ps : List (Placement F)) → position_of n ps ≡ none → last_of n ps ≡ none
  position-none n [] h = refl
  position-none n (p ∷ ps) h = elim (Option-cases (position_of n ps)) [
    | inr (j, e) ↦ let bad = rw e at h in cc
    | inl e ↦ elim (Bool-cases (is_at n p)) [
      | inl t ↦ let bad = rw (e, t) at h in cc
      | inr f ↦ rw (position-none n ps e, f) refl
    ]
  ]

  pub position-some :
      (n : Text) (ps : List (Placement F)) (i : ℕ)
      → position_of n ps ≡ some i
      → (q : Placement F) × (at ps i ≡ some q) × (is_at n q ≡ true) × (last_of n ps ≡ some q)
  position-some n [] i h = cc
  position-some n (p ∷ ps) i h = elim (Option-cases (position_of n ps)) [
    | inr (j, e) ↦
        let (q, there, named, last) = position-some n ps j e in
        let same : suc j ≡ i = of_some (rw e at h) in
        (q, subst (λ k. at (p ∷ ps) k ≡ some q) same there, named, rw last refl)
    | inl e ↦ elim (Bool-cases (is_at n p)) [
      | inl t ↦
          let same : 0 ≡ i = of_some (rw (e, t) at h) in
          (p, subst (λ k. at (p ∷ ps) k ≡ some p) same refl, t, rw (position-none n ps e, t) refl)
      | inr f ↦ let bad = rw (e, f) at h in cc
    ]
  ]

  pub index-position_of :
      (i c : ℕ) (ps : List (Placement F)) (existing : Map Text ℕ) (n : Text)
      → (index_placements layout i ps existing c).0 n ≡ later i (position_of n ps) (existing n)
  unfolding index_placements
  index-position_of i c [] existing n = refl
  index-position_of i c (p ∷ ps) existing n = elim (Bool-cases (p.layout_id == layout)) [
    | inl t ↦ rw t (
        index-position_of (suc i) (suc c) ps (put p.node_id i existing) n
        ∙ here t (position_of n ps) (Bool-cases (p.node_id == n)))
    | inr f ↦ rw f (index-position_of (suc i) c ps existing n ∙ elsewhere (position_of n ps))
  ]
    where
      here :
          (p.layout_id == layout) ≡ true
          → (o : Option ℕ) → ((p.node_id == n) ≡ true) ⊎ ((p.node_id == n) ≡ false)
          → later (suc i) o (put p.node_id i existing n)
            ≡ later i (behind o (true && p.node_id == n)) (existing n)
      here t (some j) d = ap some (omega arith)
      here t none (inl u) = rw u (ap some (omega arith))
      here t none (inr v) = rw v refl

      elsewhere :
          (o : Option ℕ) → later (suc i) o (existing n) ≡ later i (behind o false) (existing n)
      elsewhere (some j) = ap some (omega arith)
      elsewhere none = refl

  module _ (n : Text) (q : Placement F) (placed : q.layout_id ≡ layout)
      (named : q.node_id ≡ n) where
    is_at-q : (m : Text) → is_at m q ≡ (n == m)
    is_at-q m = rw (placed, beq_self layout, named) refl

    -- The placement at the node is at no other one.
    is_at-p : (p : Placement F) → is_at n p ≡ true → (m : Text) → is_at m p ≡ (n == m)
    is_at-p p t m =
        let here : (p.layout_id == layout) ≡ true = ground arith in
        let there : (p.node_id == n) ≡ true = ground arith in
        rw here (ap (λ k. k == m) ((text_beq_iff p.node_id n).0 there))

    deeper :
        (o : Option (Placement F)) (p : Placement F) (m : Text)
        → ((n == m) ≡ true) ⊎ ((n == m) ≡ false)
        → or_this (if n == m then some q else o) (is_at m p) p
          ≡ (if n == m then some q else or_this o (is_at m p) p)
    deeper o p m (inl t) = rw t refl
    deeper o p m (inr f) = rw f refl

    unseen : (o : Option (Placement F)) (p : Placement F) → or_this o false q ≡ or_this o false p
    unseen (some x) p = refl
    unseen none p = refl

    here :
        (p : Placement F) (ps : List (Placement F)) (m : Text)
        → is_at n p ≡ true
        → last_of n ps ≡ none
        → ((n == m) ≡ true) ⊎ ((n == m) ≡ false)
        → or_this (last_of m ps) (is_at m q) q
          ≡ (if n == m then some q else or_this (last_of m ps) (is_at m p) p)
    here p ps m t e (inl u) =
        let alone : last_of m ps ≡ none =
          subst (λ k. last_of k ps ≡ none) ((text_beq_iff n m).0 u) e in
        rw (u, alone, is_at-q m, u) refl
    here p ps m t e (inr v) = rw (v, is_at-q m, is_at-p p t m, v) (unseen (last_of m ps) p)

    pub set_at-position_of :
        (ps : List (Placement F)) (i : ℕ)
        → position_of n ps ≡ some i
        → (m : Text) → position_of m (set_at i q ps) ≡ position_of m ps
    set_at-position_of [] i h m = refl
    set_at-position_of (p ∷ ps) i h m = elim (Option-cases (position_of n ps)) [
      | inr (j, e) ↦
          let same : suc j ≡ i = of_some (rw e at h) in
          subst (λ k. position_of m (set_at k q (p ∷ ps)) ≡ position_of m (p ∷ ps)) same
            (ap (λ o. behind o (is_at m p)) (set_at-position_of ps j e m))
      | inl e ↦ elim (Bool-cases (is_at n p)) [
        | inr f ↦ let bad = rw (e, f) at h in cc
        | inl t ↦
            let same : 0 ≡ i = of_some (rw (e, t) at h) in
            subst (λ k. position_of m (set_at k q (p ∷ ps)) ≡ position_of m (p ∷ ps)) same
              (ap (behind (position_of m ps)) (is_at-q m ∙ sym (is_at-p p t m)))
      ]
    ]

    pub set_at-last_of :
        (ps : List (Placement F)) (i : ℕ)
        → position_of n ps ≡ some i
        → (m : Text) → last_of m (set_at i q ps) ≡ (if n == m then some q else last_of m ps)
    set_at-last_of [] i h m = cc
    set_at-last_of (p ∷ ps) i h m = elim (Option-cases (position_of n ps)) [
      | inr (j, e) ↦
          let same : suc j ≡ i = of_some (rw e at h) in
          subst
            (λ k. last_of m (set_at k q (p ∷ ps)) ≡ (if n == m then some q else last_of m (p ∷ ps)))
            same
            (ap (λ o. or_this o (is_at m p) p) (set_at-last_of ps j e m)
              ∙ deeper (last_of m ps) p m (Bool-cases (n == m)))
      | inl e ↦ elim (Bool-cases (is_at n p)) [
        | inr f ↦ let bad = rw (e, f) at h in cc
        | inl t ↦
            let same : 0 ≡ i = of_some (rw (e, t) at h) in
            subst
              (λ k.
                last_of m (set_at k q (p ∷ ps)) ≡ (if n == m then some q else last_of m (p ∷ ps)))
              same (here p ps m t (position-none n ps e) (Bool-cases (n == m)))
      ]
    ]

    pub append-last_of :
        (ps : List (Placement F)) (m : Text)
        → last_of m (ps ++ (q ∷ [])) ≡ (if n == m then some q else last_of m ps)
    append-last_of [] m =
        rw (is_at-q m) (elim (Bool-cases (n == m)) [ inl t ↦ rw t refl | inr f ↦ rw f refl ])
    append-last_of (p ∷ ps) m =
        ap (λ o. or_this o (is_at m p) p) (append-last_of ps m)
        ∙ deeper (last_of m ps) p m (Bool-cases (n == m))

    pub append-position_of :
        (ps : List (Placement F)) (m : Text)
        → (n == m) ≡ false
        → position_of m (ps ++ (q ∷ [])) ≡ position_of m ps
    append-position_of [] m d = rw (is_at-q m, d) refl
    append-position_of (p ∷ ps) m d = ap (λ o. behind o (is_at m p)) (append-position_of ps m d)
