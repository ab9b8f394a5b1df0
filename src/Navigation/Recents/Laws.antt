-- ===== src/Navigation/Recents/Laws.antt =====
-- Whom a recorded item concerns, and how many are kept.
use kode_stream.Prelude.{
  ℕ, suc, ◌-◌, ◌≤◌, ℤ, pos, ◌≡◌, ◌≢◌, refl, sym, ap, ◌∙◌, inl, inr, true, false, List, [], ◌∷◌, map,
  String, string_eq, eq_iff, ◌==◌, ltb, ok, err, beq_self, select, length, sort_desc,
  length-sort_desc, length-map, sort_desc-front, sort_desc-In, In-sort_desc, In-of_map,
  In-of_select, All, In, All-of, All-at, Bool-cases, arith,
}
use kode_stream.Navigation.{
  normalize_owner, is_owned, File, WriteOutcome, written, not_written, not_synchronised,
}
use kode_stream.Navigation.Filters.Laws.{normalize_owner-ne, is_owned-other, is_owned_self}
use kode_stream.Navigation.Recents.{
  RecentItem, opened, of_owner, set_owner, recents_of, limited, stamped, is_kept, prune_owned,
  recorded, record_recent, recents_for, record_for,
}

module _ (x y : String) (hx : (x == "") ≡ false) (hy : (y == "") ≡ false) (h : x ≢ y) where
  other_owner :
      (r : RecentItem) → (normalize_owner r.owner_user_id == x) ≡ true → of_owner y r ≡ false
  other_owner r owned = is_owned-other x y r.owner_user_id hx hy h (rw (hx, owned) refl)

  prune_owned-other :
      (n : ℕ) (rs : List RecentItem)
      → select (of_owner y) (prune_owned x n rs) ≡ select (of_owner y) rs
  unfolding prune_owned
  prune_owned-other n [] = refl
  prune_owned-other n (r ∷ rs) = elim (Bool-cases (normalize_owner r.owner_user_id == x)) [
    | inl t ↦
        let not_mine = other_owner r t in
        elim (Bool-cases (ltb 50 (suc n))) [
          | inl full ↦ rw (t, full, not_mine) (prune_owned-other (suc n) rs)
          | inr room ↦ rw (t, room, not_mine) (prune_owned-other (suc n) rs)
        ]
    | inr f ↦ elim (Bool-cases (of_owner y r)) [
      | inl u ↦ rw (f, u) (ap (λ zs. r ∷ zs) (prune_owned-other n rs))
      | inr v ↦ rw (f, v) (prune_owned-other n rs)
    ]
  ]

  kept-other :
      (i : String) (rs : List RecentItem)
      → select (of_owner y) (select (is_kept x i) rs) ≡ select (of_owner y) rs
  kept-other i [] = refl
  kept-other i (r ∷ rs) = elim (Bool-cases (is_kept x i r)) [
    | inl t ↦ elim (Bool-cases (of_owner y r)) [
      | inl u ↦ rw (t, u) (ap (λ zs. r ∷ zs) (kept-other i rs))
      | inr v ↦ rw (t, v) (kept-other i rs)
    ]
    | inr f ↦ let not_mine = other_owner r (ground arith) in rw (f, not_mine) (kept-other i rs)
  ]

  recorded-other :
      (now : ℕ) (item : RecentItem) (rs : List RecentItem)
      → select (of_owner y) (recorded x now item rs) ≡ select (of_owner y) rs
  unfolding recorded
  recorded-other now item rs =
      let mine : (normalize_owner x == x) ≡ true = rw hx (beq_self x) in
      let not_mine : is_owned y x ≡ false = is_owned-other x y x hx hy h (is_owned_self x hx) in
      rw hx (
        prune_owned-other 0
          (record item { opened_at = now; owner_user_id = x } ∷ select (is_kept x item.item_id) rs)
        ∙ rw not_mine (kept-other item.item_id rs))

-- Recording an item for one owner changes nothing that another owner sees, at any limit.
pub recents_for-record_for_other :
    (a b : String) (now : ℕ) (limit : ℤ) (w : WriteOutcome) (item : RecentItem)
    (file : File RecentItem)
    → normalize_owner a ≢ normalize_owner b
    → recents_for b limit (record_for a now w item file).1 ≡ recents_for b limit file
unfolding record_recent recents_of
recents_for-record_for_other a b now limit w item (err e) h = refl
recents_for-record_for_other a b now limit w item (ok rs) h = by_outcome w
  where
    same :
        recents_of (normalize_owner b) (recorded (normalize_owner a) now item rs)
        ≡ recents_of (normalize_owner b) rs
    same =
        ap (λ (l : List RecentItem). sort_desc opened (map (set_owner (normalize_owner b)) l))
          (recorded-other (normalize_owner a) (normalize_owner b) (normalize_owner-ne a)
            (normalize_owner-ne b) h now item rs)

    by_outcome :
        (v : WriteOutcome)
        → recents_for b limit (record_for a now v item (ok rs)).1
          ≡ ok (limited limit (recents_of (normalize_owner b) rs))
    by_outcome written = ap (λ (l : List RecentItem). ok (limited limit l)) same
    by_outcome (not_written e) = refl
    by_outcome (not_synchronised e) = ap (λ (l : List RecentItem). ok (limited limit l)) same

module _ (x : String) (hx : (x == "") ≡ false) where
  prune_owned-length :
      (n : ℕ) (rs : List RecentItem) → length (select (of_owner x) (prune_owned x n rs)) ≤ 50 - n
  unfolding prune_owned
  prune_owned-length n [] = omega arith
  prune_owned-length n (r ∷ rs) = elim (Bool-cases (normalize_owner r.owner_user_id == x)) [
    | inl t ↦ elim (Bool-cases (ltb 50 (suc n))) [
      | inl full ↦ rw (t, full) (omega (arith, prune_owned-length (suc n) rs))
      | inr room ↦
          let le : suc n ≤ 50 = ground arith in
          let mine : of_owner x r ≡ true = rw (hx, t) refl in
          rw (t, room, mine) (omega (arith, le, prune_owned-length (suc n) rs))
    ]
    | inr f ↦
        let not_mine : of_owner x r ≡ false = rw (hx, f) refl in
        rw (f, not_mine) (prune_owned-length n rs)
  ]

  prune_owned-In :
      (n : ℕ) (rs : List RecentItem) (r : RecentItem) → In r (prune_owned x n rs) → In r rs
  unfolding prune_owned
  prune_owned-In n (s ∷ rs) r m = elim (Bool-cases (normalize_owner s.owner_user_id == x)) [
    | inl t ↦ elim (Bool-cases (ltb 50 (suc n))) [
      | inl full ↦ inr (prune_owned-In (suc n) rs r (rw (t, full) at m))
      | inr room ↦ elim (rw (t, room) at m) [
        | inl e ↦ inl e
        | inr q ↦ inr (prune_owned-In (suc n) rs r q)
      ]
    ]
    | inr f ↦ elim (rw f at m) [ inl e ↦ inl e | inr q ↦ inr (prune_owned-In n rs r q) ]
  ]
  prune_owned-In n [] r m = m

  recorded-front :
      (now : ℕ) (item : RecentItem) (rs : List RecentItem)
      → recorded x now item rs
        ≡ stamped x now item ∷ prune_owned x 1 (select (is_kept x item.item_id) rs)
  unfolding recorded prune_owned
  recorded-front now item rs = rw (hx, hx, beq_self x) refl

  -- What an owner sees behind the item that has just been recorded.
  abbrev seen_before : RecentItem → List RecentItem → List RecentItem
  seen_before item rs = sort_desc opened (
      map (set_owner x)
        (select (of_owner x) (prune_owned x 1 (select (is_kept x item.item_id) rs))))

  seen_before-length :
      (item : RecentItem) (rs : List RecentItem) → length (seen_before item rs) ≤ 49
  seen_before-length item rs =
      let owned = select (of_owner x) (prune_owned x 1 (select (is_kept x item.item_id) rs)) in
      omega (
        arith,
        length-sort_desc opened (map (set_owner x) owned),
        length-map (set_owner x) owned,
        prune_owned-length 1 (select (is_kept x item.item_id) rs),
      )

  seen_before-In :
      (item r : RecentItem) (rs : List RecentItem)
      → In r (seen_before item rs)
      → (s : RecentItem) × (In s rs) × (r.opened_at ≡ s.opened_at) × (r.item_id ≢ item.item_id)
  seen_before-In item r rs m =
      let (s, chosen, e) =
        In-of_map (set_owner x)
          (select (of_owner x) (prune_owned x 1 (select (is_kept x item.item_id) rs))) r
          (In-sort_desc opened r _ m) in
      let (pruned, owned) =
        In-of_select (of_owner x) (prune_owned x 1 (select (is_kept x item.item_id) rs)) s chosen in
      let (inside, kept) =
        In-of_select (is_kept x item.item_id) rs s
          (prune_owned-In 1 (select (is_kept x item.item_id) rs) s pruned) in
      let same : ◌≡◌ {A = RecentItem} (record s { owner_user_id = x }) r = rw hx at e in
      (
        s,
        inside,
        ap (λ (u : RecentItem). u.opened_at) (sym same),
        λ p. absurd (different s (ap (λ (u : RecentItem). u.item_id) same ∙ p) owned kept),
      )
    where
      clash : false ≡ true → ⊥
      clash h = cc

      different :
          (s : RecentItem)
          → s.item_id ≡ item.item_id
          → of_owner x s ≡ true
          → is_kept x item.item_id s ≡ true
          → ⊥
      different s p owned kept =
          let here : (s.item_id == item.item_id) ≡ true = (eq_iff s.item_id item.item_id).1 p in
          let mine : (normalize_owner s.owner_user_id == x) ≡ true = rw hx at owned in
          clash (rw (here, hx, mine) at kept)

  recents_of-recorded :
      (now : ℕ) (item : RecentItem) (rs : List RecentItem)
      → All (λ (r : RecentItem). r.opened_at ≤ now) rs
      → recents_of x (recorded x now item rs) ≡ stamped x now item ∷ seen_before item rs
  unfolding recents_of
  recents_of-recorded now item rs earlier =
      let mine : of_owner x (stamped x now item) ≡ true =
        rw (hx, hx) (rw hx at (is_owned_self x hx)) in
      let same : set_owner x (stamped x now item) ≡ stamped x now item = rw hx refl in
      let others =
        map (set_owner x)
          (select (of_owner x) (prune_owned x 1 (select (is_kept x item.item_id) rs))) in
      rw (recorded-front now item rs, mine, same)
        (sort_desc-front opened (stamped x now item) others (
          All-of (λ (r : RecentItem). r.opened_at ≤ now) others
            (λ r m.
              let (s, inside, e, _) = seen_before-In item r rs (sort_desc-In opened r others m) in
              omega
                (arith, e, All-at (λ (r : RecentItem). r.opened_at ≤ now) rs s earlier inside))))

-- If no item in the file is from the future, an item that was recorded without an error is the
-- first that its owner sees; behind it are at most 49 others, none of them for the same item.
pub recents_for-record_for :
    (a : String) (now : ℕ) (w : WriteOutcome) (item : RecentItem) (rs : List RecentItem)
    → All (λ (r : RecentItem). r.opened_at ≤ now) rs
    → (record_for a now w item (ok rs)).0 ≡ ok tt
    → (rest : List RecentItem) × (recents_for a (pos 0) (record_for a now w item (ok rs)).1
        ≡ ok (stamped (normalize_owner a) now item ∷ rest))
      × (length rest ≤ 49)
      × (All (λ (r : RecentItem). r.item_id ≢ item.item_id) rest)
unfolding record_recent
recents_for-record_for a now written item rs earlier done =
    let x = normalize_owner a in
    let hx = normalize_owner-ne a in
    (
      seen_before x hx item rs,
      ap ok (recents_of-recorded x hx now item rs earlier),
      seen_before-length x hx item rs,
      All-of (λ (r : RecentItem). r.item_id ≢ item.item_id) (seen_before x hx item rs)
          (λ r m. let (s, inside, e, other) = seen_before-In x hx item r rs m in other),
    )
recents_for-record_for a now (not_written e) item rs earlier done = cc
recents_for-record_for a now (not_synchronised e) item rs earlier done = cc
