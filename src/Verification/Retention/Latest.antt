-- ===== src/Verification/Retention/Latest.antt =====
-- What the map of the latest jobs of the workspaces holds.
use kode_stream.Prelude.{
  ℕ, ◌≤◌, ◌≡◌, refl, sym, subst, inl, inr, true, ◌&&◌, List, [], ◌∷◌, some, of_some, String,
  string_eq, eq_iff, nat_eq, ◌==◌, ltb, beq_self, Map, In, arith, Bool-cases, Option-cases,
}
use kode_stream.Verification.Jobs.{Job, id_eq}
use kode_stream.Verification.Retention.{terminal, newer, note, latest_from}

-- What the map of the latest jobs holds is a finished job of that workspace.
pub record IsSound (jobs : List Job) (m : Map String Job) : Type 0 where
  pub holds :
      (w : String) (k : Job) → m w ≡ some k → In k jobs × (terminal k ≡ true) × (k.workspace_id ≡ w)

note-IsSound :
    (jobs : List Job) (j : Job) (m : Map String Job)
    → In j jobs
    → IsSound jobs m
    → IsSound jobs (note j m)
note-IsSound jobs j m inside sound = elim (Bool-cases (terminal j && newer (m j.workspace_id) j)) [
  | inl t ↦ rw t (record {
    holds = λ w k e. elim (Bool-cases (j.workspace_id == w)) [
      | inl same ↦
          let here : j ≡ k = of_some (rw same at e) in
          subst (λ (x : Job). In x jobs × (terminal x ≡ true) × (x.workspace_id ≡ w)) here
            (inside, ground arith, (eq_iff j.workspace_id w).0 same)
      | inr other ↦ sound.holds w k (rw other at e)
    ];
  })
  | inr f ↦ rw f sound
]

pub latest_from-IsSound :
    (jobs : List Job) (m : Map String Job) (js : List Job)
    → ((k : Job) → In k js → In k jobs)
    → IsSound jobs m
    → IsSound jobs (latest_from m js)
unfolding latest_from
latest_from-IsSound jobs m [] f sound = sound
latest_from-IsSound jobs m (j ∷ js) f sound =
    latest_from-IsSound jobs (note j m) js (λ k i. f k (inr i))
      (note-IsSound jobs j m (f j (inl refl)) sound)

-- A job of the workspace that finished at the given time or later is in the map.
abbrev pub Covers : Map String Job → String → ℕ → Type 0
Covers m w t = (k : Job) × (m w ≡ some k) × (t ≤ k.finished_at)

note-Covers :
    (j : Job) (m : Map String Job) (w : String) (t : ℕ) → Covers m w t → Covers (note j m) w t
note-Covers j m w t (k, found, le) = elim (Bool-cases (terminal j && newer (m j.workspace_id) j)) [
  | inl updated ↦ elim (Bool-cases (j.workspace_id == w)) [
    | inl same ↦
        let at_j : m j.workspace_id ≡ some k = rw ((eq_iff j.workspace_id w).0 same) found in
        rw updated (rw same (j, refl, replaced k (rw at_j at updated) le))
    | inr other ↦ rw updated (rw other (k, found, le))
  ]
  | inr f ↦ rw f (k, found, le)
]
  where
    replaced :
        (p : Job) → (terminal j && newer (some p) j) ≡ true → t ≤ p.finished_at → t ≤ j.finished_at
    replaced p h l = ground arith

note-Covers_self :
    (j : Job) (m : Map String Job)
    → terminal j ≡ true
    → Covers (note j m) j.workspace_id j.finished_at
note-Covers_self j m h = elim (Option-cases (m j.workspace_id)) [
  | inl missing ↦ rw (h, missing) (rw (beq_self j.workspace_id) (j, refl, omega arith))
  | inr (p, found) ↦ elim (Bool-cases (ltb p.finished_at j.finished_at)) [
    | inl later ↦ rw (h, found) (rw later (rw (beq_self j.workspace_id) (j, refl, omega arith)))
    | inr not_later ↦ rw (h, found) (rw not_later (p, found, ground arith))
  ]
]

latest_from-Covers :
    (js : List Job) (m : Map String Job) (w : String) (t : ℕ)
    → Covers m w t
    → Covers (latest_from m js) w t
unfolding latest_from
latest_from-Covers [] m w t c = c
latest_from-Covers (j ∷ js) m w t c = latest_from-Covers js (note j m) w t (note-Covers j m w t c)

pub latest_from-Covers_self :
    (js : List Job) (m : Map String Job) (j : Job)
    → In j js
    → terminal j ≡ true
    → Covers (latest_from m js) j.workspace_id j.finished_at
unfolding latest_from
latest_from-Covers_self (k ∷ js) m j (inl e) h =
    latest_from-Covers js (note k m) j.workspace_id j.finished_at (
      subst (λ (x : Job). Covers (note k m) x.workspace_id x.finished_at) e
        (note-Covers_self k m (subst (λ (x : Job). terminal x ≡ true) (sym e) h)))
latest_from-Covers_self (k ∷ js) m j (inr i) h = latest_from-Covers_self js (note k m) j i h
latest_from-Covers_self [] m j i h = absurd i
