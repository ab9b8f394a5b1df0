-- ===== src/Verification/Service/Moves.antt =====
-- What one call or goroutine that goes on leaves as it was.
use kode_stream.Prelude.{
  ℕ, ◌+◌, ◌≤◌, ◌≡◌, ◌≢◌, ◌⊎◌, refl, sym, ap, ◌∙◌, subst, inl, inr, Bool, true, false, ◌∷◌, some,
  string_eq, nat_eq, In, Any, All, All-of, All-at, arith,
}
use kode_stream.Verification.Jobs.{Job, JobId, id_eq}
use kode_stream.Verification.Retention.{terminal, IsKeyed}
use kode_stream.Verification.Service.Steps.{
  Drawn, holds_slot, is_new, is_live, count, IsOn, IsAbsent, IsSafe, In-worker_at,
  holders-replaced_at, In-replaced_at, In-replaced_apart, replaced_at-AreApart, IsOn-replaced_at,
  IsOn-replaced_self, holders-without, In-without, without-AreApart, IsOn-without, In-mutate,
  IsKeyed-mutate, All-mutate,
}
use kode_stream.Verification.Service.{
  Service, insert_job, mutate, Phase, numbered, holding, inserted, Worker, World, without,
  replaced_at, worker_at, with_jobs, go_to,
}

-- One worker goes on, and the service changes.
record IsMove (v : World) (w u : Worker) (s : Service) : Type 0 where
  same : u.job.id ≡ w.job.id
  slots : s.in_use + count (holds_slot w.phase) ≡ v.service.in_use + count (holds_slot u.phase)
  bounded : s.in_use ≤ s.capacity
  keyed : IsKeyed s.jobs
  counted : s.seq ≡ v.service.seq
  drawn_jobs : (j : Job) → In j s.jobs → j.id.sequence ≤ v.service.seq
  own : IsAbsent s.jobs u
  others : (x : Worker) → In x v.workers → x.job.id ≢ w.job.id → IsAbsent s.jobs x

move-IsSafe :
    (v : World) (n : ℕ) (w u : Worker) (s : Service)
    → worker_at v.workers n ≡ some w
    → IsSafe v
    → IsMove v w u s
    → ((j : Job) → In j s.jobs → terminal j ≡ false → Any (IsOn j.id) (replaced_at u v.workers n))
    → IsSafe (record { service = s; workers = replaced_at u v.workers n })
move-IsSafe v n w u s at safe move worked = record {
  slots = omega (arith, safe.slots, holders-replaced_at u v.workers n w at, move.slots);
  bounded = move.bounded;
  keyed = move.keyed;
  drawn_jobs = λ j m. omega (arith, move.drawn_jobs j m, move.counted);
  drawn_workers = λ x m. elim (In-replaced_at u v.workers n x m) [
    | inl e ↦
        let old = safe.drawn_workers w (In-worker_at v.workers n w at) in
        omega (
          arith,
          old,
          move.counted,
          ap (λ (i : JobId). i.sequence) move.same,
          ap (λ (z : Worker). z.job.id.sequence) e,
        )
    | inr i ↦ omega (arith, safe.drawn_workers x i, move.counted)
  ];
  apart = replaced_at-AreApart u v.workers n w at move.same safe.apart;
  absent = λ x m. elim (In-replaced_apart u v.workers n w x at safe.apart m) [
    | inl e ↦ subst (IsAbsent s.jobs) e move.own
    | inr (i, other) ↦ move.others x i other
  ];
  worked = worked;
}

pub not_new : (b : Bool) → b ≡ false → b ≡ true → ⊥
not_new b h k = cc

module _ (v : World) (n : ℕ) (job : Job) (safe : IsSafe v) where
  -- A worker whose job is in the map changes it, and goes on.
  pub mutate-IsSafe :
      (p q : Phase) (f : Job → Job)
      → worker_at v.workers n ≡ some (record { job = job; phase = p })
      → holds_slot p ≡ holds_slot q
      → is_new q ≡ false
      → ((j : Job) → (f j).id ≡ j.id)
      → (is_live q ≡ true) ⊎ ((j : Job) → terminal (f j) ≡ true)
      → IsSafe (go_to q job n (with_jobs (mutate job.id f v.service.jobs) v.service) v)
  mutate-IsSafe p q f at held old keeps end =
      let w : Worker = record { job = job; phase = p } in
      let u : Worker = record { job = job; phase = q } in
      let js = mutate job.id f v.service.jobs in
      let move : IsMove v w u (with_jobs js v.service) = record {
        same = refl;
        slots = ap (λ b. v.service.in_use + count b) held;
        bounded = safe.bounded;
        keyed = IsKeyed-mutate job.id f keeps v.service.jobs safe.keyed;
        counted = refl;
        drawn_jobs = λ j m. elim (In-mutate job.id f keeps v.service.jobs j m) [
          | inl (k, inside, named, e) ↦ omega (
            arith,
            safe.drawn_jobs k inside,
            ap (λ (x : Job). x.id.sequence) e,
            ap (λ (i : JobId). i.sequence) (keeps k),
          )
          | inr (inside, other) ↦ safe.drawn_jobs j inside
        ];
        own = λ fresh. absurd (not_new (is_new q) old fresh);
        others = λ x m other fresh.
            All-mutate job.id f keeps x.job.id v.service.jobs (safe.absent x m fresh);
      } in
      move-IsSafe v n w u (with_jobs js v.service) at safe move (λ j m active.
        elim (In-mutate job.id f keeps v.service.jobs j m) [
          | inl (k, inside, named, e) ↦ elim end [
            | inl live ↦
                IsOn-replaced_self u v.workers n w j.id at
                  (sym named ∙ sym (keeps k) ∙ sym (ap (λ (x : Job). x.id) e), live)
            | inr ended ↦ absurd (not_new (terminal j) active (ap terminal e ∙ ended k))
          ]
          | inr (inside, other) ↦
              IsOn-replaced_at u v.workers n w j.id at (λ on. absurd (other (sym on.0)))
                (safe.worked j inside active)
        ])

  -- A worker goes on while no job is added.
  pub keep-IsSafe :
      (w u : Worker) (s : Service)
      → worker_at v.workers n ≡ some w
      → u.job.id ≡ w.job.id
      → s.in_use + count (holds_slot w.phase) ≡ v.service.in_use + count (holds_slot u.phase)
      → s.in_use ≤ s.capacity
      → s.seq ≡ v.service.seq
      → IsKeyed s.jobs
      → ((j : Job) → In j s.jobs → In j v.service.jobs)
      → (is_new u.phase ≡ true → is_new w.phase ≡ true)
      → ((j : Job) → In j s.jobs → IsOn j.id w → IsOn j.id u)
      → IsSafe (record { service = s; workers = replaced_at u v.workers n })
  keep-IsSafe w u s at same slots bounded counted keyed sub fresh on =
      let gone : (x : Worker) → In x v.workers → IsAbsent s.jobs x = λ x m new.
        All-of (λ (k : Job). k.id ≢ x.job.id) s.jobs
          (λ k i.
            All-at (λ (l : Job). l.id ≢ x.job.id) v.service.jobs k (safe.absent x m new)
              (sub k i)) in
      let move : IsMove v w u s = record {
        same = same;
        slots = slots;
        bounded = bounded;
        keyed = keyed;
        counted = counted;
        drawn_jobs = λ j m. safe.drawn_jobs j (sub j m);
        own = λ new.
            subst (λ i. All (λ (k : Job). k.id ≢ i) s.jobs) (sym same)
              (gone w (In-worker_at v.workers n w at) (fresh new));
        others = λ x m other. gone x m;
      } in
      move-IsSafe v n w u s at safe move (λ j m active.
        IsOn-replaced_at u v.workers n w j.id at (on j m) (safe.worked j (sub j m) active))

  -- The n-th call or goroutine ends.
  pub end-IsSafe :
      (w : Worker) (s : Service)
      → worker_at v.workers n ≡ some w
      → is_live w.phase ≡ false
      → s.jobs ≡ v.service.jobs
      → s.seq ≡ v.service.seq
      → s.in_use + count (holds_slot w.phase) ≡ v.service.in_use
      → s.capacity ≡ v.service.capacity
      → IsSafe (record { service = s; workers = without v.workers n })
  end-IsSafe w s at idle jobs counted slots room = record {
    slots = omega (arith, safe.slots, slots, holders-without v.workers n w at);
    bounded = omega (arith, safe.bounded, slots, room);
    keyed = subst IsKeyed (sym jobs) safe.keyed;
    drawn_jobs = λ j m. omega (arith, safe.drawn_jobs j (subst (In j) jobs m), counted);
    drawn_workers =
        λ x m. omega (arith, safe.drawn_workers x (In-without v.workers n x m), counted);
    apart = without-AreApart v.workers n safe.apart;
    absent =
        λ x m. subst (λ js. IsAbsent js x) (sym jobs) (safe.absent x (In-without v.workers n x m));
    worked = λ j m active.
        IsOn-without v.workers n w j.id at idle (safe.worked j (subst (In j) jobs m) active);
  }

  pub insert-IsSafe :
      worker_at v.workers n ≡ some (record { job = job; phase = holding })
      → IsSafe (go_to inserted job n (insert_job job v.service) v)
  insert-IsSafe at =
      let w : Worker = record { job = job; phase = holding } in
      let u : Worker = record { job = job; phase = inserted } in
      let inside = In-worker_at v.workers n w at in
      let move : IsMove v w u (insert_job job v.service) = record {
        same = refl;
        slots = refl;
        bounded = safe.bounded;
        keyed = (safe.absent w inside refl, safe.keyed);
        counted = refl;
        drawn_jobs = λ j m. elim m [
          | inl e ↦ omega (arith, safe.drawn_workers w inside, ap (λ (x : Job). x.id.sequence) e)
          | inr old ↦ safe.drawn_jobs j old
        ];
        own = λ fresh. cc;
        others = λ x m other fresh. (λ e. other (sym e), safe.absent x m fresh);
      } in
      move-IsSafe v n w u (insert_job job v.service) at safe move (λ j m active. elim m [
        | inl e ↦ IsOn-replaced_self u v.workers n w j.id at (ap (λ (x : Job). x.id) e, refl)
        | inr old ↦
            IsOn-replaced_at u v.workers n w j.id at (λ on. absurd (idle on.1))
              (safe.worked j old active)
      ])
    where
      idle : is_live holding ≡ true → ⊥
      idle h = cc

pub draw-IsSafe :
    (v : World) (job : Job) (s : Service)
    → Drawn v.service s job
    → IsSafe v
    → IsSafe (record { service = s; workers = record { job = job; phase = numbered } ∷ v.workers })
draw-IsSafe v job s d safe = record {
  slots = omega (arith, safe.slots, d.same_slots);
  bounded = omega (arith, safe.bounded, d.same_slots, d.same_capacity);
  keyed = subst IsKeyed (sym d.same_jobs) safe.keyed;
  drawn_jobs = λ j m. omega (arith, safe.drawn_jobs j (subst (In j) d.same_jobs m), d.counted);
  drawn_workers = λ x m. elim m [
    | inl e ↦ omega (arith, d.fresh, d.counted, ap (λ (z : Worker). z.job.id.sequence) e)
    | inr i ↦ omega (arith, safe.drawn_workers x i, d.counted)
  ];
  apart = (
    All-of (λ (z : Worker). z.job.id ≢ job.id) v.workers
        (λ x m e. omega (arith, safe.drawn_workers x m, d.fresh, ap (λ (i : JobId). i.sequence) e)),
    safe.apart,
  );
  absent = λ x m. elim m [
    | inl e ↦ subst (IsAbsent s.jobs) e (λ fresh.
        subst (λ js. All (λ (k : Job). k.id ≢ job.id) js) (sym d.same_jobs)
          (All-of (λ (k : Job). k.id ≢ job.id) v.service.jobs
            (λ k i same.
              omega (arith, safe.drawn_jobs k i, d.fresh, ap (λ (l : JobId). l.sequence) same))))
    | inr i ↦ subst (λ js. IsAbsent js x) (sym d.same_jobs) (safe.absent x i)
  ];
  worked = λ j m active. inr (safe.worked j (subst (In j) d.same_jobs m) active);
}
