-- ===== src/Verification/Service/Laws.antt =====
-- What holds of the service in every interleaving of requests and workers.
use kode_stream.Prelude.{
  ℕ, suc, ◌+◌, ◌-◌, ◌≤◌, ◌≡◌, ◌≢◌, refl, sym, ap, ◌∙◌, subst, inl, inr, Bool, true, false, List, [],
  ◌∷◌, Option, none, some, of_some, string_eq, nat_eq, ◌==◌, In, arith, Bool-cases, ltb,
}
use kode_stream.Verification.Jobs.{Job, JobId, id_eq, id_beq_iff, RepositoryFingerprint}
use kode_stream.Verification.Run.{begin_job}
use kode_stream.Verification.Retention.{prune, terminal, IsKeyed}
use kode_stream.Verification.Retention.Laws.{prune-sub}
use kode_stream.Verification.Service.Steps.{draw-ok, draw-err, holders, IsSafe, holders-without}
use kode_stream.Verification.Service.{
  Service, started_with, take_slot, snapshot_any, numbered, measured, holding, inserted, waiting,
  working, captured_end, concluded, leaving, Worker, World, worker_at, Mutation, step_recorded,
  failure_recorded, artifacts_collected, exit_recorded, apply_mutation, finished_with, concluded_as,
  with_jobs, Step, draw, refuse, measure, take, full, insert, launch, vanish, begin, progress,
  capture, conclude, prune_jobs, release, Reach, here, next, new_world,
}
use kode_stream.Verification.Service.Moves.{
  not_new, mutate-IsSafe, keep-IsSafe, end-IsSafe, insert-IsSafe, draw-IsSafe,
}

take_slot-some :
    (s s' : Service)
    → take_slot s ≡ some s'
    → (s'.in_use ≡ s.in_use + 1) × (s'.in_use ≤ s'.capacity) × (s'.seq ≡ s.seq) × (s'.jobs ≡ s.jobs)
unfolding take_slot
take_slot-some s s' h = elim (Bool-cases (ltb s.in_use s.capacity)) [
  | inr f ↦ let bad = rw f at h in cc
  | inl t ↦
      let e : record s { in_use = suc s.in_use } ≡ s' = of_some (rw t at h) in
      subst
        (λ (r : Service).
          (r.in_use ≡ s.in_use + 1) × (r.in_use ≤ r.capacity) × (r.seq ≡ s.seq) × (r.jobs ≡ s.jobs))
        e (omega arith, ground arith, refl, refl)
]

snapshot_any-none :
    (i : JobId) (js : List Job) (j : Job) → snapshot_any i js ≡ none → In j js → j.id ≢ i
unfolding snapshot_any
snapshot_any-none i (k ∷ js) j h m same = elim (Bool-cases (k.id == i)) [
  | inl t ↦ let bad = rw t at h in cc
  | inr f ↦ elim m [
    | inl e ↦
        let named : (k.id == i) ≡ true = (id_beq_iff k.id i).1 (ap (λ (x : Job). x.id) e ∙ same) in
        not_new (k.id == i) f named
    | inr n ↦ snapshot_any-none i js j (rw f at h) n same
  ]
]
snapshot_any-none i [] j h m same = absurd m

apply_mutation-id : (m : Mutation) (j : Job) → (apply_mutation m j).id ≡ j.id
unfolding apply_mutation
apply_mutation-id (step_recorded r) j = refl
apply_mutation-id (failure_recorded f code r) j = refl
apply_mutation-id (artifacts_collected xs warning) j = refl
apply_mutation-id exit_recorded j = refl

finished_with-id : (f : Option RepositoryFingerprint) (j : Job) → (finished_with f j).id ≡ j.id
finished_with-id none j = refl
finished_with-id (some f) j = refl

concluded_as-id : (b : Bool) (now : ℕ) (j : Job) → (concluded_as b now j).id ≡ j.id
concluded_as-id true now j = refl
concluded_as-id false now j = refl

concluded_as-terminal : (b : Bool) (now : ℕ) (j : Job) → terminal (concluded_as b now j) ≡ true
concluded_as-terminal true now j = refl
concluded_as-terminal false now j = refl

Step-IsSafe : {v u : World} → Step v u → IsSafe v → IsSafe u
unfolding begin_job
Step-IsSafe (draw w input v job s h) safe =
    draw-IsSafe v job s (draw-ok w input v.service s job h) safe
Step-IsSafe (refuse w input v e s h) safe =
    subst (λ (t : Service). IsSafe (record v { service = t }))
      (sym (draw-err w input v.service s e h)) safe
Step-IsSafe (measure n f v job at) safe =
    keep-IsSafe v n job safe (record { job = job; phase = numbered })
      (record { job = started_with f job; phase = measured }) v.service at refl refl safe.bounded
      refl safe.keyed (λ j m. m) (λ new. refl) (λ j m on. (on.0, on.1))
Step-IsSafe (take n v job s at free) safe =
    let (more, fits, counted, jobs) = take_slot-some v.service s free in
    keep-IsSafe v n job safe (record { job = job; phase = measured })
      (record { job = job; phase = holding }) s at refl (omega (arith, more)) fits counted
      (subst IsKeyed (sym jobs) safe.keyed) (λ j m. subst (In j) jobs m) (λ new. refl)
      (λ j m on. (on.0, on.1))
Step-IsSafe (full n v job at none_free) safe =
    end-IsSafe v n job safe (record { job = job; phase = measured }) v.service at refl refl refl
      (omega arith) refl
Step-IsSafe (insert n v job at) safe = insert-IsSafe v n job safe at
Step-IsSafe (launch n v job at) safe =
    keep-IsSafe v n job safe (record { job = job; phase = inserted })
      (record { job = job; phase = waiting }) v.service at refl refl safe.bounded refl safe.keyed
      (λ j m. m) (λ new. new) (λ j m on. (on.0, refl))
Step-IsSafe (vanish n v job at missing) safe =
    keep-IsSafe v n job safe (record { job = job; phase = waiting })
      (record { job = job; phase = leaving }) v.service at refl refl safe.bounded refl safe.keyed
      (λ j m. m) (λ new. new)
      (λ j m on. absurd (snapshot_any-none job.id v.service.jobs j missing m (sym on.0)))
Step-IsSafe (begin n now v job at) safe =
    mutate-IsSafe v n job safe waiting working (begin_job now) at refl refl (λ j. refl) (inl refl)
Step-IsSafe (progress n m v job at) safe =
    mutate-IsSafe v n job safe working working (apply_mutation m) at refl refl (apply_mutation-id m)
      (inl refl)
Step-IsSafe (capture n f v job at) safe =
    mutate-IsSafe v n job safe working captured_end (finished_with f) at refl refl
      (finished_with-id f) (inl refl)
Step-IsSafe (conclude n now b v job at) safe =
    mutate-IsSafe v n job safe captured_end concluded (concluded_as b now) at refl refl
      (concluded_as-id b now) (inr (concluded_as-terminal b now))
Step-IsSafe (prune_jobs n now v job at) safe =
    let (sub, keyed) = prune-sub now v.service.retention v.service.max_terminal v.service.jobs in
    keep-IsSafe v n job safe (record { job = job; phase = concluded })
      (record { job = job; phase = leaving })
      (with_jobs (prune now v.service.retention v.service.max_terminal v.service.jobs) v.service) at
      refl refl safe.bounded refl (keyed safe.keyed) sub (λ new. new) (λ j m on. (on.0, on.1))
Step-IsSafe (release n v job at) safe =
    end-IsSafe v n job safe (record { job = job; phase = leaving })
      (record v.service { in_use = v.service.in_use - 1 }) at refl refl refl
      (held v.service.in_use v.workers n job safe.slots at) refl
  where
    held :
        (k : ℕ) (ws : List Worker) (n : ℕ) (job : Job)
        → k ≡ holders ws
        → worker_at ws n ≡ some (record { job = job; phase = leaving })
        → (k - 1) + 1 ≡ k
    held k ws n job slots at =
        let rest = holders-without ws n (record { job = job; phase = leaving }) at in
        omega (arith, slots, rest)

new_world-IsSafe : (capacity most retention : ℕ) → IsSafe (new_world capacity most retention)
new_world-IsSafe capacity most retention = record {
  slots = refl;
  bounded = omega arith;
  keyed = tt;
  drawn_jobs = λ j m. absurd m;
  drawn_workers = λ w m. absurd m;
  apart = tt;
  absent = λ w m. absurd m;
  worked = λ j m active. absurd m;
}

-- Whatever the requests, and however they and the goroutines interleave between any two of their
-- accesses to the map, the slots and the counter: the slots in use are those of the calls and
-- goroutines that hold one, and never more than the capacity; job ids are distinct; and a job that is
-- queued or running has a goroutine that goes on to its conclusion, or a call that will launch it.
pub Reach-IsSafe :
    {capacity most retention : ℕ} {v : World}
    → Reach (new_world capacity most retention) v
    → IsSafe v
Reach-IsSafe {capacity} {most} {retention} here = new_world-IsSafe capacity most retention
Reach-IsSafe (next r s) = Step-IsSafe s (Reach-IsSafe r)
