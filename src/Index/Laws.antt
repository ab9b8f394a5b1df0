-- ===== src/Index/Laws.antt =====
-- What the operations of the index do to what is listed.
use kode_stream.Prelude.{
  select-append, select_every, select_none, select_excluded, select_taken, select_alike, ℕ, suc,
  ◌≡◌, refl, sym, ap, ◌∙◌, Bool, true, false, not, ◌&&◌, List, [], ◌∷◌, ◌++◌, map, Option, none,
  String, Text, text_eq, nat_eq, ◌==◌, trim_space, trim_left, All, arith, inl, inr, Bool-cases,
  select, sort_desc, text_beq_iff, beq_comm, append-nil,
}
use kode_stream.Index.{
  Item, State, Query, BranchScanMetadata, is_empty, in_branch, replaced_branch, summary, matches,
  updated, query, branch_items, visit_items, go_on,
}

module _ {V : Type 0} (lower : Text → Text) (kept : lower [] ≡ []) where
  matches_branch :
      (w b : Text) (item : Item V)
      → is_empty w ≡ false
      → is_empty b ≡ false
      → matches lower
          (record {
            workspace_id = w;
            branch = b;
            status = [];
            text = [];
            include_snapshots = true;
          })
          item
        ≡ in_branch w b item
  unfolding matches trim_space trim_left
  matches_branch w b item hw hb = rw (hw, hb, kept) ground arith

  branch_items-eq :
      (w b : Text) (s : State V)
      → is_empty w ≡ false
      → is_empty b ≡ false
      → branch_items lower w b s ≡ sort_desc updated (map summary (select (in_branch w b) s.items))
  unfolding query
  branch_items-eq w b s hw hb =
      ap (λ (l : List (Item V)). sort_desc updated (map summary l))
        (select_alike
          (matches lower (record {
            workspace_id = w;
            branch = b;
            status = [];
            text = [];
            include_snapshots = true;
          }))
          (in_branch w b) (λ item. matches_branch w b item hw hb) s.items)

  excluded :
      (w b v c : Text) (item : Item V)
      → (v == w && c == b) ≡ false
      → in_branch w b item ≡ true
      → in_branch v c item ≡ false
  excluded w b v c item other own =
      let here : (item.workspace_id == w) ≡ true = ground arith in
      let there : (item.branch == b) ≡ true = ground arith in
      let e : item.workspace_id ≡ w = (text_beq_iff item.workspace_id w).0 here in
      let f : item.branch ≡ b = (text_beq_iff item.branch b).0 there in
      ap (λ x. x == v && item.branch == c) e
      ∙ ap (λ y. w == v && y == c) f
      ∙ ap (λ t. t && b == c) (beq_comm w v)
      ∙ ap (λ t. v == w && t) (beq_comm b c)
      ∙ other

  none_listed :
      (w b v c : Text) (items : List (Item V))
      → (v == w && c == b) ≡ false
      → All (λ item. in_branch w b item ≡ true) items
      → All (λ item. in_branch v c item ≡ false) items
  none_listed w b v c [] other own = tt
  none_listed w b v c (item ∷ items) other (h, hs) =
      (excluded w b v c item other h, none_listed w b v c items other hs)

  -- After the scan of a branch was put in, its list is that of the scan, each item as often as it
  -- stands there, the latest first; and the lists of the other branches are as before. The names are
  -- not empty and the items belong to the branch.
  pub branch_items-replaced_branch :
      (w b v c : Text) (items : List (Item V)) (metadata : BranchScanMetadata) (s : State V)
      → is_empty w ≡ false
      → is_empty b ≡ false
      → is_empty v ≡ false
      → is_empty c ≡ false
      → (v == w && c == b) ≡ false
      → All (λ item. in_branch w b item ≡ true) items
      → (branch_items lower w b (replaced_branch w b items metadata s)
          ≡ sort_desc (λ (item : Item V). item.updated_at) (map summary items))
        × (branch_items lower v c (replaced_branch w b items metadata s) ≡ branch_items lower v c s)
  unfolding query replaced_branch
  branch_items-replaced_branch w b v c items metadata s hw hb hv hc other own =
      let left = select (λ item. not (in_branch w b item)) s.items in
      let mine : select (in_branch w b) (left ++ items) ≡ items =
        select-append (in_branch w b) left items
        ∙ ap (λ l. l ++ select (in_branch w b) items) (select_taken (in_branch w b) s.items)
        ∙ select_every (in_branch w b) items own in
      let theirs : select (in_branch v c) (left ++ items) ≡ select (in_branch v c) s.items =
        select-append (in_branch v c) left items
        ∙ ap (λ l. l ++ select (in_branch v c) items)
            (select_excluded (in_branch w b) (in_branch v c)
              (λ item h. excluded w b v c item other h) s.items)
        ∙ ap (λ l. select (in_branch v c) s.items ++ l)
            (select_none (in_branch v c) items (none_listed w b v c items other own))
        ∙ append-nil (select (in_branch v c) s.items) in
      let after = replaced_branch w b items metadata s in
      let sorted : branch_items lower w b after ≡ sort_desc updated (map summary items) =
        branch_items-eq w b after hw hb
        ∙ ap (λ (l : List (Item V)). sort_desc updated (map summary l)) mine in
      (
        sorted,
        branch_items-eq v c after hv hc
            ∙ ap (λ (l : List (Item V)). sort_desc updated (map summary l)) theirs
            ∙ sym (branch_items-eq v c s hv hc),
      )

go_on-none :
    {S : Type 0} (p : Bool × S) (f : S → Option String × S) (g : S → S)
    → ((t : S) → f t ≡ (none, g t))
    → go_on p f ≡ (none, (go_on p (λ t. (none, g t))).1)
go_on-none (true, s) f g h = h s
go_on-none (false, s) f g h = refl

module _ {V : Type 0} where
  -- The visitor called on a list until it answers `false`.
  abbrev pub fold_until : {S : Type 0} → (S → Item V → Bool × S) → List (Item V) → S → S
  fold_until visit [] s = s
  fold_until visit (item ∷ items) s =
      (go_on (visit s item) (λ t. (none, fold_until visit items t))).1

  -- Without a cancellation `VisitContext` calls its visitor on the items that `Query` selects, in
  -- their order in the index, until the visitor ends the traversal, and reports no error.
  pub visit_items-fold :
      {S : Type 0} (lower : Text → Text) (q : Query) (visit : S → Item V → Bool × S) (n : ℕ)
      (items : List (Item V)) (s : S)
      → visit_items lower q visit (λ m. none) n items s
        ≡ (none, fold_until visit (map summary (select (matches lower q) items)) s)
  unfolding visit_items
  visit_items-fold lower q visit n [] s = refl
  visit_items-fold lower q visit n (item ∷ items) s = elim (Bool-cases (matches lower q item)) [
    | inl t ↦ rw t (
        go_on-none (visit s (summary item)) (visit_items lower q visit (λ m. none) (suc n) items)
          (fold_until visit (map summary (select (matches lower q) items)))
          (λ u. visit_items-fold lower q visit (suc n) items u))
    | inr f ↦ rw f (visit_items-fold lower q visit (suc n) items s)
  ]
