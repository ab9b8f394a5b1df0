-- ===== src/Verification/Retention/Candidates.antt =====
-- Which candidates the loop of the pruning deletes.
use kode_stream.Prelude.{
  ℕ, ◌-◌, ◌≡◌, ◌≢◌, sym, ap, ◌∙◌, subst, inl, inr, true, false, not, ◌&&◌, ◌||◌, List, [], ◌∷◌,
  String, string_eq, nat_eq, ltb, Map, Any, In, All-at, arith, Bool-cases,
}
use kode_stream.Verification.Jobs.{Job, JobId, id_eq}
use kode_stream.Verification.Retention.{
  IsKeyed, insert_by_finish, sort_by_finish, is_latest, expired, doomed,
}

pub IsKeyed-eq : (js : List Job) (a b : Job) → IsKeyed js → In a js → In b js → a.id ≡ b.id → a ≡ b
IsKeyed-eq (j ∷ js) a b (h, k) (inl p) (inl q) e = sym p ∙ q
IsKeyed-eq (j ∷ js) a b (h, k) (inl p) (inr m) e =
    absurd (All-at (λ (x : Job). x.id ≢ j.id) js b h m (sym e ∙ ap (λ (x : Job). x.id) (sym p)))
IsKeyed-eq (j ∷ js) a b (h, k) (inr m) (inl q) e =
    absurd (All-at (λ (x : Job). x.id ≢ j.id) js a h m (e ∙ ap (λ (x : Job). x.id) (sym q)))
IsKeyed-eq (j ∷ js) a b (h, k) (inr m) (inr n) e = IsKeyed-eq js a b k m n e
IsKeyed-eq [] a b k m n e = absurd m

In-insert : (j a : Job) (ks : List Job) → In a (insert_by_finish j ks) → In a (j ∷ ks)
unfolding insert_by_finish
In-insert j a [] m = m
In-insert j a (k ∷ ks) m = elim (Bool-cases (ltb k.finished_at j.finished_at)) [
  | inl t ↦ elim (rw t at m) [
    | inl e ↦ inr (inl e)
    | inr r ↦ elim (In-insert j a ks r) [ inl e ↦ inl e | inr q ↦ inr (inr q) ]
  ]
  | inr f ↦ rw f at m
]

insert-In : (j a : Job) (ks : List Job) → In a (j ∷ ks) → In a (insert_by_finish j ks)
unfolding insert_by_finish
insert-In j a [] m = m
insert-In j a (k ∷ ks) m = elim (Bool-cases (ltb k.finished_at j.finished_at)) [
  | inl t ↦ rw t (elim m [
    | inl e ↦ inr (insert-In j a ks (inl e))
    | inr (inl e) ↦ inl e
    | inr (inr r) ↦ inr (insert-In j a ks (inr r))
  ])
  | inr f ↦ rw f m
]

pub In-sort : (a : Job) (js : List Job) → In a (sort_by_finish js) → In a js
unfolding sort_by_finish
In-sort a [] m = m
In-sort a (j ∷ js) m = elim (In-insert j a (sort_by_finish js) m) [
  | inl e ↦ inl e
  | inr r ↦ inr (In-sort a js r)
]

pub sort-In : (a : Job) (js : List Job) → In a js → In a (sort_by_finish js)
unfolding sort_by_finish
sort-In a [] m = m
sort-In a (j ∷ js) (inl e) = insert-In j a (sort_by_finish js) (inl e)
sort-In a (j ∷ js) (inr m) = insert-In j a (sort_by_finish js) (inr (sort-In a js m))

module _ (now retention max : ℕ) where
  -- Only a candidate that is not the latest of its workspace is deleted.
  pub doomed-candidate :
      (latest : Map String Job) (remaining : ℕ) (cs : List Job) (i : JobId)
      → In i (doomed now retention max latest remaining cs)
      → Any (λ (c : Job). (c.id ≡ i) × (is_latest latest c ≡ false)) cs
  unfolding doomed
  doomed-candidate latest remaining [] i m = absurd m
  doomed-candidate latest remaining (c ∷ cs) i m =
      elim (Bool-cases
        ((expired now retention c || ltb max remaining) && not (is_latest latest c))) [
          | inl t ↦ elim (rw t at m) [
            | inl e ↦ inl (e, ground arith)
            | inr r ↦ inr (doomed-candidate latest (remaining - 1) cs i r)
          ]
          | inr f ↦ inr (doomed-candidate latest remaining cs i (rw f at m))
        ]

  -- Every expired candidate that is not the latest of its workspace is.
  pub doomed-expired :
      (latest : Map String Job) (remaining : ℕ) (cs : List Job) (c : Job)
      → In c cs
      → expired now retention c ≡ true
      → is_latest latest c ≡ false
      → In c.id (doomed now retention max latest remaining cs)
  unfolding doomed
  doomed-expired latest remaining (d ∷ cs) c (inl e) x l =
      let chosen : ((expired now retention c || ltb max remaining) && not (is_latest latest c))
          ≡ true =
        ground arith in
      let here : ((expired now retention d || ltb max remaining) && not (is_latest latest d))
          ≡ true =
        subst
          (λ (u : Job).
            ((expired now retention u || ltb max remaining) && not (is_latest latest u)) ≡ true)
          (sym e) chosen in
      rw here (inl (ap (λ (u : Job). u.id) e))
  doomed-expired latest remaining (d ∷ cs) c (inr m) x l =
      elim (Bool-cases
        ((expired now retention d || ltb max remaining) && not (is_latest latest d))) [
          | inl t ↦ rw t (inr (doomed-expired latest (remaining - 1) cs c m x l))
          | inr f ↦ rw f (doomed-expired latest remaining cs c m x l)
        ]
  doomed-expired latest remaining [] c m x l = absurd m
