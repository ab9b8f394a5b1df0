-- ===== src/Filesystem/Paths.antt =====
-- `filepath.Clean` as the guards of internal/filesystem use it, with the separator `/` and no
-- volume names.
pub mod Laws
use kode_stream.Prelude.{
  ℕ, Bool, true, false, ◌&&◌, ◌||◌, List, [], ◌∷◌, ◌++◌, Text, text_eq, nat_eq, codes, ◌==◌,
  if◌then◌else◌, has_prefix,
}
use mathlib.Core.List.{reverse}

abbrev pub slash : ℕ
slash = 47

abbrev pub dot : Text
dot = 46 ∷ []

abbrev pub dot_dot : Text
dot_dot = 46 ∷ 46 ∷ []

-- The texts between slashes. The first one is held back until its slash is met.
abbrev pub begin_segment : ℕ → List Text → List Text
begin_segment c [] = (c ∷ []) ∷ []
begin_segment c (s ∷ ss) = (c ∷ s) ∷ ss

unfoldable pub split_path : Text → List Text
split_path [] = [] ∷ []
split_path (c ∷ t) =
    let rest = split_path t in if c == slash then [] ∷ rest else begin_segment c rest

unfoldable pub join_path : List Text → Text
join_path [] = []
join_path (s ∷ []) = s
join_path (s ∷ r ∷ rs) = s ++ (slash ∷ join_path (r ∷ rs))

-- The segments that are kept, the last one first: a `..` takes back the one before it, or is kept
-- where there is none, unless the path is rooted.
abbrev pub back : Bool → List Text → List Text
back true [] = []
back false [] = dot_dot ∷ []
back rooted (s ∷ ss) = if s == dot_dot then dot_dot ∷ s ∷ ss else ss

abbrev pub push : Bool → Text → List Text → List Text
push rooted s kept =
    if s == [] || s == dot then kept else if s == dot_dot then back rooted kept else s ∷ kept

unfoldable pub push_all : Bool → List Text → List Text → List Text
push_all rooted [] kept = kept
push_all rooted (s ∷ ss) kept = push_all rooted ss (push rooted s kept)

-- `filepath.IsAbs`
abbrev pub is_abs : Text → Bool
is_abs [] = false
is_abs (c ∷ t) = c == slash

abbrev pub print_path : Bool → List Text → Text
print_path true segments = slash ∷ join_path segments
print_path false [] = dot
print_path false (s ∷ ss) = join_path (s ∷ ss)

unfoldable pub clean : Text → Text
unfolding split_path push_all join_path
clean t = print_path (is_abs t) (reverse (push_all (is_abs t) (split_path t) []))
