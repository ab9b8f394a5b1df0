-- ===== src/Verification/Service/Steps.antt =====
-- What the single operations of the service do to its jobs and workers.
use kode_stream.Prelude.{
  ℕ, ◌+◌, All-at, All-of, zero, suc, ◌≤◌, ◌≡◌, ◌≢◌, refl, sym, ap, ◌∙◌, subst, ◌⊎◌, inl, inr, Bool,
  true, false, List, [], ◌∷◌, some, of_some, String, string_eq, nat_eq, ◌==◌, if◌then◌else◌, ok,
  err, All, Any, In, arith, Bool-cases,
}
use kode_stream.Verification.Jobs.{Job, JobId, id_eq, id_beq_iff}
use kode_stream.Verification.Retention.{IsKeyed, terminal}
use kode_stream.Verification.Service.{
  Service, StartInput, StartError, draw_job, mutate, Phase, numbered, measured, holding, inserted,
  waiting, working, captured_end, Worker, World, without, replaced_at, worker_at,
}

-- Whether a slot is held, whether the job is not in the map yet, and whether an active job still has
-- its conclusion before it.
abbrev pub holds_slot : Phase → Bool
holds_slot numbered = false
holds_slot measured = false
holds_slot _ = true

abbrev pub is_new : Phase → Bool
is_new numbered = true
is_new measured = true
is_new holding = true
is_new _ = false

abbrev pub is_live : Phase → Bool
is_live inserted = true
is_live waiting = true
is_live working = true
is_live captured_end = true
is_live _ = false

abbrev pub count : Bool → ℕ
count true = 1
count false = 0

-- The calls and goroutines that hold a slot.
abbrev pub holders : List Worker → ℕ
holders [] = 0
holders (w ∷ ws) = count (holds_slot w.phase) + holders ws

-- What a `Start` that gets to its id does: the id is new, and nothing else changes.
pub record Drawn (s s' : Service) (job : Job) : Type 0 where
  pub same_jobs : s'.jobs ≡ s.jobs
  pub same_slots : s'.in_use ≡ s.in_use
  pub same_capacity : s'.capacity ≡ s.capacity
  pub counted : s'.seq ≡ suc s.seq
  pub fresh : job.id.sequence ≡ suc s.seq

pub draw-ok :
    (w : String) (input : StartInput) (s s' : Service) (job : Job)
    → draw_job w input s ≡ (ok job, s')
    → Drawn s s' job
unfolding draw_job
draw-ok w input s s' job h = ground arith

pub draw-err :
    (w : String) (input : StartInput) (s s' : Service) (e : StartError)
    → draw_job w input s ≡ (err e, s')
    → s' ≡ s
unfolding draw_job
draw-err w input s s' e h = ground arith

-- A worker that goes on to the conclusion of the job with the id `i`.
abbrev pub IsOn : JobId → Worker → Type 0
IsOn i w = (w.job.id ≡ i) × (is_live w.phase ≡ true)

-- The ids of the calls and goroutines are distinct.
abbrev pub AreApart : List Worker → Type 0
AreApart [] = Unit
AreApart (w ∷ ws) = All (λ (u : Worker). u.job.id ≢ w.job.id) ws × AreApart ws

-- A job that is still to be inserted is not there.
abbrev pub IsAbsent : List Job → Worker → Type 0
IsAbsent js w = is_new w.phase ≡ true → All (λ (k : Job). k.id ≢ w.job.id) js

-- The slots in use are those of the calls and goroutines that hold one, within the capacity; ids are
-- distinct and were drawn before, also between the jobs and the calls that will insert theirs; and
-- every job that is not finished has a call or a goroutine that goes on to its conclusion.
pub record IsSafe (v : World) : Type 0 where
  pub slots : v.service.in_use ≡ holders v.workers
  pub bounded : v.service.in_use ≤ v.service.capacity
  pub keyed : IsKeyed v.service.jobs
  pub drawn_jobs : (j : Job) → In j v.service.jobs → j.id.sequence ≤ v.service.seq
  pub drawn_workers : (w : Worker) → In w v.workers → w.job.id.sequence ≤ v.service.seq
  pub apart : AreApart v.workers
  pub absent : (w : Worker) → In w v.workers → IsAbsent v.service.jobs w
  pub worked : (j : Job) → In j v.service.jobs → terminal j ≡ false → Any (IsOn j.id) v.workers

pub In-worker_at : (ws : List Worker) (n : ℕ) (w : Worker) → worker_at ws n ≡ some w → In w ws
In-worker_at [] n w h = cc
In-worker_at (x ∷ ws) zero w h = inl (of_some h)
In-worker_at (x ∷ ws) (suc n) w h = inr (In-worker_at ws n w h)

module _ (u : Worker) where
  pub holders-replaced_at :
      (ws : List Worker) (n : ℕ) (w : Worker)
      → worker_at ws n ≡ some w
      → holders (replaced_at u ws n) + count (holds_slot w.phase)
        ≡ holders ws + count (holds_slot u.phase)
  holders-replaced_at [] n w h = cc
  holders-replaced_at (x ∷ ws) zero w h =
      let e = ap (λ (y : Worker). count (holds_slot y.phase)) (of_some h) in omega (arith, e)
  holders-replaced_at (x ∷ ws) (suc n) w h = omega (arith, holders-replaced_at ws n w h)

  pub In-replaced_at :
      (ws : List Worker) (n : ℕ) (x : Worker) → In x (replaced_at u ws n) → (u ≡ x) ⊎ In x ws
  In-replaced_at (w ∷ ws) zero x (inl e) = inl e
  In-replaced_at (w ∷ ws) zero x (inr m) = inr (inr m)
  In-replaced_at (w ∷ ws) (suc n) x (inl e) = inr (inl e)
  In-replaced_at (w ∷ ws) (suc n) x (inr m) = elim (In-replaced_at ws n x m) [
    | inl e ↦ inl e
    | inr i ↦ inr (inr i)
  ]
  In-replaced_at [] n x m = absurd m

  -- The others are those of other ids.
  pub In-replaced_apart :
      (ws : List Worker) (n : ℕ) (w x : Worker)
      → worker_at ws n ≡ some w
      → AreApart ws
      → In x (replaced_at u ws n)
      → (u ≡ x) ⊎ (In x ws × (x.job.id ≢ w.job.id))
  In-replaced_apart (y ∷ ws) zero w x h (far, rest) (inl e) = inl e
  In-replaced_apart (y ∷ ws) zero w x h (far, rest) (inr m) = inr (
    inr m,
    subst (λ (z : Worker). x.job.id ≢ z.job.id) (of_some h)
        (All-at (λ (z : Worker). z.job.id ≢ y.job.id) ws x far m),
  )
  In-replaced_apart (y ∷ ws) (suc n) w x h (far, rest) (inl e) = inr (
    inl e,
    λ same.
        All-at (λ (z : Worker). z.job.id ≢ y.job.id) ws w far (In-worker_at ws n w h)
          (sym same ∙ sym (ap (λ (z : Worker). z.job.id) e)),
  )
  In-replaced_apart (y ∷ ws) (suc n) w x h (far, rest) (inr m) =
      elim (In-replaced_apart ws n w x h rest m) [
        | inl e ↦ inl e
        | inr (i, other) ↦ inr (inr i, other)
      ]
  In-replaced_apart [] n w x h far m = absurd m

  All-replaced_at :
      (P : Worker → Type 0) (ws : List Worker) (n : ℕ) → P u → All P ws → All P (replaced_at u ws n)
  All-replaced_at P [] n here all = tt
  All-replaced_at P (w ∷ ws) zero here (h, hs) = (here, hs)
  All-replaced_at P (w ∷ ws) (suc n) here (h, hs) = (h, All-replaced_at P ws n here hs)

  pub replaced_at-AreApart :
      (ws : List Worker) (n : ℕ) (w : Worker)
      → worker_at ws n ≡ some w
      → u.job.id ≡ w.job.id
      → AreApart ws
      → AreApart (replaced_at u ws n)
  replaced_at-AreApart [] n w h same apart = tt
  replaced_at-AreApart (x ∷ ws) zero w h same (far, rest) =
      let e : x.job.id ≡ u.job.id = ap (λ (z : Worker). z.job.id) (of_some h) ∙ sym same in
      (subst (λ i. All (λ (z : Worker). z.job.id ≢ i) ws) e far, rest)
  replaced_at-AreApart (x ∷ ws) (suc n) w h same (far, rest) =
      let w_far = All-at (λ (z : Worker). z.job.id ≢ x.job.id) ws w far (In-worker_at ws n w h) in
      (
        All-replaced_at (λ (z : Worker). z.job.id ≢ x.job.id) ws n (λ e. w_far (sym same ∙ e)) far,
        replaced_at-AreApart ws n w h same rest,
      )

  -- A worker that was on a job stays on it, or it is the one that is replaced.
  pub IsOn-replaced_at :
      (ws : List Worker) (n : ℕ) (w : Worker) (i : JobId)
      → worker_at ws n ≡ some w
      → (IsOn i w → IsOn i u)
      → Any (IsOn i) ws
      → Any (IsOn i) (replaced_at u ws n)
  IsOn-replaced_at (x ∷ ws) zero w i h own (inl (same, live)) =
      inl (own (subst (IsOn i) (of_some h) (same, live)))
  IsOn-replaced_at (x ∷ ws) zero w i h own (inr m) = inr m
  IsOn-replaced_at (x ∷ ws) (suc n) w i h own (inl on) = inl on
  IsOn-replaced_at (x ∷ ws) (suc n) w i h own (inr m) = inr (IsOn-replaced_at ws n w i h own m)
  IsOn-replaced_at [] n w i h own m = absurd m

  pub IsOn-replaced_self :
      (ws : List Worker) (n : ℕ) (w : Worker) (i : JobId)
      → worker_at ws n ≡ some w
      → IsOn i u
      → Any (IsOn i) (replaced_at u ws n)
  IsOn-replaced_self [] n w i h on = cc
  IsOn-replaced_self (x ∷ ws) zero w i h on = inl on
  IsOn-replaced_self (x ∷ ws) (suc n) w i h on = inr (IsOn-replaced_self ws n w i h on)

pub holders-without :
    (ws : List Worker) (n : ℕ) (w : Worker)
    → worker_at ws n ≡ some w
    → holders (without ws n) + count (holds_slot w.phase) ≡ holders ws
holders-without [] n w h = cc
holders-without (x ∷ ws) zero w h =
    let e = ap (λ (y : Worker). count (holds_slot y.phase)) (of_some h) in omega (arith, e)
holders-without (x ∷ ws) (suc n) w h = omega (arith, holders-without ws n w h)

pub In-without : (ws : List Worker) (n : ℕ) (x : Worker) → In x (without ws n) → In x ws
In-without (w ∷ ws) zero x m = inr m
In-without (w ∷ ws) (suc n) x (inl e) = inl e
In-without (w ∷ ws) (suc n) x (inr m) = inr (In-without ws n x m)
In-without [] n x m = absurd m

pub without-AreApart : (ws : List Worker) (n : ℕ) → AreApart ws → AreApart (without ws n)
without-AreApart [] n apart = tt
without-AreApart (w ∷ ws) zero (far, rest) = rest
without-AreApart (w ∷ ws) (suc n) (far, rest) = (
  All-of (λ (z : Worker). z.job.id ≢ w.job.id) (without ws n)
      (λ x m. All-at (λ (z : Worker). z.job.id ≢ w.job.id) ws x far (In-without ws n x m)),
  without-AreApart ws n rest,
)

pub IsOn-without :
    (ws : List Worker) (n : ℕ) (w : Worker) (i : JobId)
    → worker_at ws n ≡ some w
    → is_live w.phase ≡ false
    → Any (IsOn i) ws
    → Any (IsOn i) (without ws n)
IsOn-without (x ∷ ws) zero w i h idle (inl (same, live)) =
    let bad : ◌≡◌ {A = Bool} true false =
      sym live ∙ (ap (λ (z : Worker). is_live z.phase) (of_some h) ∙ idle) in
    cc
IsOn-without (x ∷ ws) zero w i h idle (inr m) = m
IsOn-without (x ∷ ws) (suc n) w i h idle (inl on) = inl on
IsOn-without (x ∷ ws) (suc n) w i h idle (inr m) = inr (IsOn-without ws n w i h idle m)
IsOn-without [] n w i h idle m = absurd m

module _ (i : JobId) (f : Job → Job) (keeps : (j : Job) → (f j).id ≡ j.id) where
  -- A job behind `mutate` is the changed one, or another that was there.
  pub In-mutate :
      (js : List Job) (j : Job)
      → In j (mutate i f js)
      → ((k : Job) × (In k js) × (k.id ≡ i) × (j ≡ f k)) ⊎ (In j js × (j.id ≢ i))
  unfolding mutate
  In-mutate (k ∷ js) j (inl e) = elim (Bool-cases (k.id == i)) [
    | inl t ↦ inl (k, inl refl, (id_beq_iff k.id i).0 t, sym (rw t at e))
    | inr t ↦
        let same : k ≡ j = rw t at e in
        inr (
          inl same,
          subst (λ (u : Job). u.id ≢ i) same (λ p. false_true t ((id_beq_iff k.id i).1 p)),
        )
  ]
    where
      false_true : {b : Bool} → b ≡ false → b ≡ true → ⊥
      false_true h g = cc
  In-mutate (k ∷ js) j (inr m) = elim (In-mutate js j m) [
    | inl (l, inside, same, e) ↦ inl (l, inr inside, same, e)
    | inr (inside, other) ↦ inr (inr inside, other)
  ]
  In-mutate [] j m = absurd m

  pub mutate-id : (k : Job) → (if k.id == i then f k else k).id ≡ k.id
  mutate-id k = elim (Bool-cases (k.id == i)) [ inl t ↦ rw t (keeps k) | inr t ↦ rw t refl ]

  pub All-mutate :
      (j : JobId) (js : List Job)
      → All (λ (x : Job). x.id ≢ j) js
      → All (λ (x : Job). x.id ≢ j) (mutate i f js)
  unfolding mutate
  All-mutate j [] h = tt
  All-mutate j (k ∷ js) (h, hs) = (λ e. h (sym (mutate-id k) ∙ e), All-mutate j js hs)

  pub IsKeyed-mutate : (js : List Job) → IsKeyed js → IsKeyed (mutate i f js)
  unfolding mutate
  IsKeyed-mutate [] k = tt
  IsKeyed-mutate (j ∷ js) (h, k) = (
    subst (λ x. All (λ (y : Job). y.id ≢ x) (mutate i f js)) (sym (mutate-id j))
        (All-mutate j.id js h),
    IsKeyed-mutate js k,
  )
