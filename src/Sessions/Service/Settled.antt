-- ===== src/Sessions/Service/Settled.antt =====
-- Records that are active and have no session, while a reconciliation visits them.
use kode_stream.Prelude.{
  ℕ, ◌⊎◌, ◌≡◌, refl, sym, ap, ◌∙◌, subst, true, false, List, [], ◌∷◌, map, Option, none, some,
  is_some, Text, text_eq, text_beq_iff, ◌==◌, beq_self, beq-ne, All, In, arith, inl, inr,
  Bool-cases, Map, put, of_some,
}
use kode_stream.Sessions.Durable.{Disk}
use kode_stream.Sessions.Records.{SessionRecord, RecordError}
use kode_stream.Sessions.Records.Laws.{clash, IsApart}
use kode_stream.Sessions.Service.{Session, is_active, find_session, interrupted_at, go_on}

-- The records that are active and have no session stand among `todo`, as they do in the file.
pub record IsSettledBut (sessions : List Session) (todo : List SessionRecord)
    (m : Map Text SessionRecord) : Type 0 where
  pub settled :
      (i : Text) (r : SessionRecord)
      → m i ≡ some r
      → is_active r.state ≡ true
      → (is_some (find_session i sessions) ≡ true) ⊎ In i (map (λ (t : SessionRecord). t.id) todo)
  pub stored : All (λ t. m t.id ≡ some t) todo
  pub apart : IsApart todo

still_stored :
    (r : SessionRecord) (todo : List SessionRecord) (m n : Map Text SessionRecord)
    → ((j : Text) → (r.id == j) ≡ false → n j ≡ m j)
    → All (λ t. clash r t ≡ false) todo
    → All (λ t. m t.id ≡ some t) todo
    → All (λ t. n t.id ≡ some t) todo
still_stored r [] m n same a h = tt
still_stored r (t ∷ todo) m n same (a, as_) (h, hs) =
    let other : (r.id == t.id) ≡ false = ground arith in
    (same t.id other ∙ h, still_stored r todo m n same as_ hs)

pub next_settled :
    (sessions : List Session) (r : SessionRecord) (todo : List SessionRecord)
    (m n : Map Text SessionRecord)
    → IsSettledBut sessions (r ∷ todo) m
    → ((j : Text) → (r.id == j) ≡ false → n j ≡ m j)
    → ((x : SessionRecord)
        → n r.id ≡ some x
        → is_active x.state ≡ true
        → is_some (find_session r.id sessions) ≡ true)
    → IsSettledBut sessions todo n
next_settled sessions r todo m n before same here = record {
  settled = λ i x h active. elim (Bool-cases (r.id == i)) [
    | inl t ↦
        let e : r.id ≡ i = (text_beq_iff r.id i).0 t in
        inl (subst (λ j. is_some (find_session j sessions) ≡ true) e (here x (ap n e ∙ h) active))
    | inr f ↦ elim (before.settled i x (sym (same i f) ∙ h) active) [
      | inl live ↦ inl live
      | inr (inl e) ↦ absurd (beq-ne r.id i f e)
      | inr (inr m) ↦ inr m
    ]
  ];
  stored = still_stored r todo m n same before.apart.0 before.stored.1;
  apart = before.apart.1;
}

pub put_elsewhere :
    (r n : SessionRecord) (m : Map Text SessionRecord) (j : Text)
    → (r.id == j) ≡ false
    → put r.id n m j ≡ m j
put_elsewhere r n m j f = rw f refl

pub not_interrupted :
    (r x : SessionRecord) (m : Map Text SessionRecord) (now : ℕ)
    → put r.id (interrupted_at now r) m r.id ≡ some x
    → is_active x.state ≡ true
    → ⊥
unfolding interrupted_at
not_interrupted r x m now h active =
    let e : interrupted_at now r ≡ x = of_some (rw (beq_self r.id) at h) in
    let bad : is_active (interrupted_at now r).state ≡ true =
      subst (λ q. is_active q.state ≡ true) (sym e) active in
    cc

pub find_session-id :
    (id : Text) (sessions : List Session) (s : Session)
    → find_session id sessions ≡ some s
    → s.id ≡ id
unfolding find_session
find_session-id id [] s h = cc
find_session-id id (q ∷ rest) s h = elim (Bool-cases (q.id == id)) [
  | inl t ↦
      let same : q ≡ s = of_some (rw t at h) in
      ap (λ (p : Session). p.id) (sym same) ∙ (text_beq_iff q.id id).0 t
  | inr f ↦ find_session-id id rest s (rw f at h)
]

pub go_on-none :
    (p : Option RecordError × Disk) (rest : Disk → Option RecordError × Disk) (after : Disk)
    → go_on p rest ≡ (none, after)
    → (next : Disk) × (p ≡ (none, next)) × (rest next ≡ (none, after))
go_on-none (some e, d) rest after h = cc
go_on-none (none, d) rest after h = (d, refl, h)
