-- ===== src/Verification/Retention/Laws.antt =====
-- What pruning keeps and what it forgets.
use kode_stream.Prelude.{
  ℕ, ◌≤◌, ◌≡◌, ◌≢◌, subst, inl, inr, Bool, true, false, not, List, [], ◌∷◌, some, String, string_eq,
  nat_eq, ◌==◌, beq_self, Map, empty_map, Any, In, All-at, All-of, Any-In, In-Any, In-select,
  In-of_select, select, any, arith, Bool-cases,
}
use kode_stream.Verification.Jobs.{Job, JobId, id_eq, id_beq_iff}
use kode_stream.Verification.Retention.{
  IsKeyed, terminal, latest_by_workspace, is_latest, expired, removed_ids, prune,
}
use kode_stream.Verification.Retention.Candidates.{
  IsKeyed-eq, In-sort, sort-In, doomed-candidate, doomed-expired,
}
use kode_stream.Verification.Retention.Latest.{latest_from-IsSound, latest_from-Covers_self}

module _ (now retention max : ℕ) (jobs : List Job) where
  latest_of : Map String Job
  latest_of = latest_by_workspace jobs

  -- A job whose id is deleted is, if ids are distinct, finished and not the latest.
  removed-doomed :
      (j : Job)
      → IsKeyed jobs
      → In j jobs
      → In j.id (removed_ids now retention max jobs)
      → (terminal j ≡ true) × (is_latest latest_of j ≡ false)
  unfolding removed_ids latest_of
  removed-doomed j keyed inside gone =
      let (c, candidate, (same_id, not_latest)) =
        Any-In _ _ (doomed-candidate now retention max latest_of _ _ j.id gone) in
      let (listed, done) =
        In-of_select terminal jobs c (In-sort c (select terminal jobs) candidate) in
      let same : c ≡ j = IsKeyed-eq jobs c j keyed listed inside same_id in
      (
        subst (λ (x : Job). terminal x ≡ true) same done,
        subst (λ (x : Job). is_latest latest_of x ≡ false) same not_latest,
      )

  any-removed : (j : Job) (ids : List JobId) → any (λ i. i == j.id) ids ≡ true → In j.id ids
  any-removed j (i ∷ ids) h = elim (Bool-cases (i == j.id)) [
    | inl here ↦ inl ((id_beq_iff i j.id).0 here)
    | inr there ↦ inr (any-removed j ids (rw there at h))
  ]
  any-removed j [] h = cc

  removed-any : (j : Job) (ids : List JobId) → In j.id ids → any (λ i. i == j.id) ids ≡ true
  removed-any j (i ∷ ids) (inl e) =
      let here : (i == j.id) ≡ true = (id_beq_iff i j.id).1 e in rw here
  removed-any j (i ∷ ids) (inr m) = elim (Bool-cases (i == j.id)) [
    | inl here ↦ rw here
    | inr there ↦ rw there (removed-any j ids m)
  ]
  removed-any j [] m = absurd m

  In-prune :
      (j : Job)
      → In j jobs
      → ¬ In j.id (removed_ids now retention max jobs)
      → In j (prune now retention max jobs)
  unfolding prune
  In-prune j inside kept =
      In-select (λ (k : Job). not (any (λ i. i == k.id) (removed_ids now retention max jobs))) jobs
        j inside
        (elim (Bool-cases (any (λ i. i == j.id) (removed_ids now retention max jobs))) [
          | inl gone ↦ absurd (kept (any-removed j _ gone))
          | inr stays ↦ rw stays
        ])

  prune-In :
      (j : Job)
      → In j (prune now retention max jobs)
      → In j jobs × (¬ In j.id (removed_ids now retention max jobs))
  unfolding prune
  prune-In j inside =
      let (listed, stays) =
        In-of_select (λ (k : Job). not (any (λ i. i == k.id) (removed_ids now retention max jobs)))
          jobs j inside in
      (listed, λ gone. not_both (removed-any j _ gone) stays)
    where
      not_both : {b : Bool} → b ≡ true → not b ≡ true → ⊥
      not_both h k = ground arith

  -- Pruning never forgets a job that is queued or running.
  pub prune-active :
      (j : Job)
      → IsKeyed jobs
      → In j jobs
      → terminal j ≡ false
      → In j (prune now retention max jobs)
  prune-active j keyed inside active =
      In-prune j inside λ gone. absurd (clash (removed-doomed j keyed inside gone).0 active)
    where
      clash : {b : Bool} → b ≡ true → b ≡ false → ⊥
      clash h k = cc

  -- Of every workspace with a finished job pruning keeps one that finished no earlier: the latest
  -- result of a workspace survives, however old it is and however many there are.
  pub prune-latest :
      (j : Job)
      → IsKeyed jobs
      → In j jobs
      → terminal j ≡ true
      → Any
          (λ (k : Job).
            (terminal k ≡ true)
            × (k.workspace_id ≡ j.workspace_id)
            × (j.finished_at ≤ k.finished_at))
          (prune now retention max jobs)
  unfolding latest_by_workspace latest_of
  prune-latest j keyed inside done =
      let (k, found, le) = latest_from-Covers_self jobs empty_map j inside done in
      let sound =
        latest_from-IsSound jobs empty_map jobs (λ i m. m) (record { holds = λ w i e. cc }) in
      let (listed, finished, same) = sound.holds j.workspace_id k found in
      In-Any _ (prune now retention max jobs) k
        (In-prune k listed
          λ gone. absurd (latest_stays k (rw same found) (removed-doomed k keyed listed gone).1))
        (finished, same, le)
    where
      both_ways : {b : Bool} → b ≡ true → b ≡ false → ⊥
      both_ways t f = cc

      latest_stays :
          (k : Job)
          → latest_by_workspace jobs k.workspace_id ≡ some k
          → is_latest latest_of k ≡ false
          → ⊥
      latest_stays k e h = both_ways (beq_self k.id) (rw e at h)

  -- A finished job that has expired survives only as the latest of its workspace.
  pub prune-expired :
      (j : Job)
      → In j (prune now retention max jobs)
      → terminal j ≡ true
      → expired now retention j ≡ true
      → is_latest (latest_by_workspace jobs) j ≡ true
  unfolding removed_ids
  prune-expired j inside done old =
      let (listed, kept) = prune-In j inside in
      elim (Bool-cases (is_latest (latest_by_workspace jobs) j)) [
        | inl latest ↦ latest
        | inr other ↦ absurd (
            kept (
              doomed-expired now retention max (latest_by_workspace jobs) _ _ j
                (sort-In j (select terminal jobs) (In-select terminal jobs j listed done)) old
                other))
      ]

pub IsKeyed-select : (p : Job → Bool) (js : List Job) → IsKeyed js → IsKeyed (select p js)
IsKeyed-select p [] k = tt
IsKeyed-select p (j ∷ js) (h, k) = elim (Bool-cases (p j)) [
  | inl t ↦ rw t (
    All-of (λ (x : Job). x.id ≢ j.id) (select p js)
        (λ a m. All-at (λ (x : Job). x.id ≢ j.id) js a h (In-of_select p js a m).0),
    IsKeyed-select p js k,
  )
  | inr f ↦ rw f (IsKeyed-select p js k)
]

-- Pruning only takes jobs away.
pub prune-sub :
    (now retention max : ℕ) (jobs : List Job)
    → ((j : Job) → In j (prune now retention max jobs) → In j jobs)
      × (IsKeyed jobs → IsKeyed (prune now retention max jobs))
unfolding prune
prune-sub now retention max jobs =
    (λ j m. (In-of_select _ jobs j m).0, λ k. IsKeyed-select _ jobs k)
