-- ===== src/Filesystem/Paths/Laws.antt =====
-- What a path that `filepath.Clean` has cleaned consists of.
use mathlib.Core.List.{reverse, reverse_aux}
use kode_stream.Prelude.{
  ℕ, ◌≡◌, ◌⊎◌, refl, sym, ap, subst, inl, inr, Bool, true, false, ◌||◌, List, [], ◌∷◌, Text,
  text_eq, text_beq_iff, nat_eq, ◌==◌, any, has_prefix, All, Bool-cases, arith,
}
use kode_stream.Filesystem.Paths.{
  slash, dot, dot_dot, begin_segment, split_path, join_path, back, push, push_all, is_abs,
  print_path, clean,
}

-- The name of a file or a directory.
pub record IsPlain (s : Text) : Type 0 where
  pub not_empty : (s == []) ≡ false
  pub not_dot : (s == dot) ≡ false
  pub not_dot_dot : (s == dot_dot) ≡ false
  pub no_slash : any (λ c. c == slash) s ≡ false

abbrev NoSlash : Text → Type 0
NoSlash s = any (λ c. c == slash) s ≡ false

begin_segment-NoSlash :
    (c : ℕ) (ss : List Text)
    → (c == slash) ≡ false
    → All NoSlash ss
    → All NoSlash (begin_segment c ss)
begin_segment-NoSlash c [] h a = (rw h refl, tt)
begin_segment-NoSlash c (s ∷ ss) h (a, rest) = (rw h a, rest)

split_path-NoSlash : (t : Text) → All NoSlash (split_path t)
unfolding split_path
split_path-NoSlash [] = (refl, tt)
split_path-NoSlash (c ∷ t) = elim (Bool-cases (c == slash)) [
  | inl here ↦ rw here (refl, split_path-NoSlash t)
  | inr other ↦ rw other (begin_segment-NoSlash c (split_path t) other (split_path-NoSlash t))
]

-- The kept segments of a relative path: names above, and below them steps up only.
abbrev IsStacked : List Text → Type 0
IsStacked [] = Unit
IsStacked (s ∷ ss) = (IsPlain s × IsStacked ss) ⊎ ((s ≡ dot_dot) × All (λ r. r ≡ dot_dot) ss)

Climbs-IsStacked : (ss : List Text) → All (λ r. r ≡ dot_dot) ss → IsStacked ss
Climbs-IsStacked [] h = tt
Climbs-IsStacked (s ∷ ss) (h, hs) = inr (h, hs)

back-IsStacked : (ss : List Text) → IsStacked ss → IsStacked (back false ss)
back-IsStacked [] h = inr (refl, tt)
back-IsStacked (s ∷ ss) (inl (plain, rest)) = rw plain.not_dot_dot rest
back-IsStacked (s ∷ ss) (inr (here, below)) =
    let up : (s == dot_dot) ≡ true = (text_beq_iff s dot_dot).1 here in
    rw up (inr (refl, (here, below)))

push-IsStacked :
    (s : Text) (ss : List Text) → NoSlash s → IsStacked ss → IsStacked (push false s ss)
push-IsStacked s ss clear h = elim (Bool-cases (s == [] || s == dot)) [
  | inl nothing ↦ rw nothing h
  | inr something ↦ elim (Bool-cases (s == dot_dot)) [
    | inl up ↦ rw (something, up) (back-IsStacked ss h)
    | inr down ↦
        rw (something, down)
          (inl (
            record {
              not_empty = or-left (s == []) (s == dot) something;
              not_dot = or-right (s == []) (s == dot) something;
              not_dot_dot = down;
              no_slash = clear;
            },
            h,
          ))
  ]
]
  where
    or-left : (a b : Bool) → (a || b) ≡ false → a ≡ false
    or-left a b q = ground arith

    or-right : (a b : Bool) → (a || b) ≡ false → b ≡ false
    or-right a b q = ground arith

push_all-IsStacked :
    (ts ss : List Text) → All NoSlash ts → IsStacked ss → IsStacked (push_all false ts ss)
unfolding push_all
push_all-IsStacked [] ss clear h = h
push_all-IsStacked (t ∷ ts) ss (clear, rest) h =
    push_all-IsStacked ts (push false t ss) rest (push-IsStacked t ss clear h)

climbs-front :
    (s : Text) (ss r : List Text)
    → s ≡ dot_dot
    → All (λ q. q ≡ dot_dot) ss
    → (qs : List Text) × (reverse_aux (s ∷ ss) r ≡ dot_dot ∷ qs)
climbs-front s [] r e h = (r, ap (λ q. q ∷ r) e)
climbs-front s (t ∷ ss) r e (f, h) = climbs-front t ss (s ∷ r) f h

-- If the path does not begin with a step up, there is none in it.
stacked-front :
    (ss : List Text)
    → IsStacked ss
    → All IsPlain ss ⊎ ((r : List Text) → (qs : List Text) × (reverse_aux ss r ≡ dot_dot ∷ qs))
stacked-front [] h = inl tt
stacked-front (s ∷ ss) (inl (plain, rest)) = elim (stacked-front ss rest) [
  | inl all_plain ↦ inl (plain, all_plain)
  | inr climbs ↦ inr (λ r. climbs (s ∷ r))
]
stacked-front (s ∷ ss) (inr (e, h)) = inr (λ r. climbs-front s ss r e h)

reverse_aux-All :
    (ss r : List Text) → All IsPlain ss → All IsPlain r → All IsPlain (reverse_aux ss r)
reverse_aux-All [] r h k = k
reverse_aux-All (s ∷ ss) r (p, h) k = reverse_aux-All ss (s ∷ r) h (p, k)

-- A cleaned path that is relative, is not `.` and does not begin with `..` names something below
-- the directory it starts in: all its segments are names.
pub record IsInside (c : Text) : Type 0 where
  pub first : Text
  pub more : List Text
  pub printed : c ≡ join_path (first ∷ more)
  pub plain : All IsPlain (first ∷ more)

abbrev pub begins_up : Text → Bool
begins_up c = c == dot_dot || has_prefix c (46 ∷ 46 ∷ 47 ∷ [])

join_path-up : (qs : List Text) → begins_up (join_path (dot_dot ∷ qs)) ≡ true
unfolding join_path has_prefix
join_path-up [] = refl
join_path-up (q ∷ qs) = refl

print-IsInside :
    (segments : List Text)
    → All IsPlain segments ⊎ ((qs : List Text) × (segments ≡ dot_dot ∷ qs))
    → (print_path false segments == dot) ≡ false
    → begins_up (print_path false segments) ≡ false
    → IsInside (print_path false segments)
print-IsInside [] h not_dot not_up = cc
print-IsInside (s ∷ ss) (inl plain) not_dot not_up = record {
  first = s;
  more = ss;
  printed = refl;
  plain = plain;
}
print-IsInside (s ∷ ss) (inr (qs, e)) not_dot not_up = absurd (
    both_ways (subst (λ (l : List Text). begins_up (join_path l) ≡ true) (sym e) (join_path-up qs))
      not_up)
  where
    both_ways : {b : Bool} → b ≡ true → b ≡ false → ⊥
    both_ways t f = cc

pub clean-IsInside :
    (t : Text)
    → (clean t == dot) ≡ false
    → is_abs (clean t) ≡ false
    → begins_up (clean t) ≡ false
    → IsInside (clean t)
unfolding clean
clean-IsInside t not_dot relative not_up = by (is_abs t) refl not_dot relative not_up
  where
    by :
        (b : Bool)
        → b ≡ is_abs t
        → (print_path b (reverse (push_all b (split_path t) [])) == dot) ≡ false
        → is_abs (print_path b (reverse (push_all b (split_path t) []))) ≡ false
        → begins_up (print_path b (reverse (push_all b (split_path t) []))) ≡ false
        → IsInside (print_path b (reverse (push_all b (split_path t) [])))
    by true e d r u = cc
    by false e d r u =
        print-IsInside (reverse (push_all false (split_path t) []))
          (elim (stacked-front (push_all false (split_path t) [])
            (push_all-IsStacked (split_path t) [] (split_path-NoSlash t) tt)) [
              | inl plain ↦ inl (reverse_aux-All (push_all false (split_path t) []) [] plain tt)
              | inr climbs ↦ inr (climbs [])
            ])
          d u
