-- ===== src/Sessions/Tests/Yaml.antt =====
-- A marshalling of session records without plans and exit codes: each is eight texts, the last of
-- its numbers, and a text follows its length.
use kode_stream.Prelude.{
  ℕ, zero, suc, ◌≤◌, ◌≡◌, refl, ap, List, [], ◌∷◌, ◌++◌, Option, none, some, String, Result, ok,
  err, Text, length, length-append, take, drop, take-drop-append, arith, of_some, subst, sym, ◌∙◌,
  ℤ, ok-injective,
}
use kode_stream.Sessions.Durable.{Bytes}
use kode_stream.Sessions.Records.{
  SessionState, starting, running, exited, cancelled, failed, interrupted, unknown_state,
  SessionRecord, SessionPlanRef,
}
use kode_stream.Sessions.Repository.{Codec, IsCodec}

abbrev state_code : SessionState → Option ℕ
state_code starting = some 0
state_code running = some 1
state_code failed = some 2
state_code interrupted = some 3
state_code _ = none

abbrev state_of : ℕ → SessionState
state_of zero = starting
state_of (suc zero) = running
state_of (suc (suc zero)) = failed
state_of (suc (suc (suc n))) = interrupted

abbrev numbers : SessionRecord → ℕ → Text
numbers r n = n ∷ r.started_at ∷ r.ended_at ∷ r.last_known_at ∷ []

abbrev add_texts :
    SessionRecord
    → Option SessionPlanRef
    → Option ℤ
    → Option ℕ
    → Option (List Text)
    → Option (List Text)
add_texts r none none (some n) (some ts) = some (
    r.id
    ∷ r.workspace_id
    ∷ r.provider
    ∷ r.intent
    ∷ r.requested_branch
    ∷ r.observed_commit
    ∷ r.idempotency_key
    ∷ numbers r n
    ∷ ts)
add_texts _ _ _ _ _ = none

abbrev texts_of : List SessionRecord → Option (List Text)
texts_of [] = some []
texts_of (r ∷ rs) = add_texts r r.plan_ref r.exit_code (state_code r.state) (texts_of rs)

abbrev records_of : List Text → List SessionRecord
records_of (id ∷ w ∷ p ∷ i ∷ b ∷ o ∷ k ∷ (n ∷ start ∷ end ∷ last ∷ []) ∷ ts) =
    record {
      id = id;
      workspace_id = w;
      plan_ref = none;
      provider = p;
      intent = i;
      requested_branch = b;
      observed_commit = o;
      idempotency_key = k;
      state = state_of n;
      started_at = start;
      ended_at = end;
      exit_code = none;
      last_known_at = last;
    }
    ∷ records_of ts
records_of _ = []

state_of_code : (s : SessionState) (n : ℕ) → state_code s ≡ some n → state_of n ≡ s
state_of_code starting n h = let e : 0 ≡ n = of_some h in subst (λ k. state_of k ≡ starting) e refl
state_of_code running n h = let e : 1 ≡ n = of_some h in subst (λ k. state_of k ≡ running) e refl
state_of_code failed n h = let e : 2 ≡ n = of_some h in subst (λ k. state_of k ≡ failed) e refl
state_of_code interrupted n h =
    let e : 3 ≡ n = of_some h in subst (λ k. state_of k ≡ interrupted) e refl
state_of_code exited n h = cc
state_of_code cancelled n h = cc
state_of_code (unknown_state t) n h = cc

read_record :
    (r : SessionRecord) (p : Option SessionPlanRef) (x : Option ℤ) (o : Option ℕ)
    (t : Option (List Text)) (ts : List Text) (rs : List SessionRecord)
    → r.plan_ref ≡ p
    → r.exit_code ≡ x
    → state_code r.state ≡ o
    → ((us : List Text) → t ≡ some us → records_of us ≡ rs)
    → add_texts r p x o t ≡ some ts
    → records_of ts ≡ r ∷ rs
read_record r none none (some n) (some us) ts rs hp hx ho ih h =
    let rest : records_of us ≡ rs = ih us refl in
    subst (λ l. records_of l ≡ r ∷ rs) (of_some h)
      (λ i.
        record r { plan_ref = sym hp i; exit_code = sym hx i; state = state_of_code r.state n ho i }
        ∷ rest i)
read_record r (some p) x o t ts rs hp hx ho ih h = cc
read_record r none (some x) o t ts rs hp hx ho ih h = cc
read_record r none none none t ts rs hp hx ho ih h = cc
read_record r none none (some n) none ts rs hp hx ho ih h = cc

records_of-texts_of :
    (rs : List SessionRecord) (ts : List Text) → texts_of rs ≡ some ts → records_of ts ≡ rs
records_of-texts_of [] ts h = subst (λ l. records_of l ≡ []) (of_some h) refl
records_of-texts_of (r ∷ rs) ts h =
    read_record r r.plan_ref r.exit_code (state_code r.state) (texts_of rs) ts rs refl refl refl
      (λ us e. records_of-texts_of rs us e) h

abbrev joined : List Text → Bytes
joined [] = []
joined (t ∷ ts) = length t ∷ (t ++ joined ts)

abbrev split_texts : ℕ → Bytes → List Text
split_texts zero b = []
split_texts (suc f) [] = []
split_texts (suc f) (n ∷ rest) = take n rest ∷ split_texts f (drop n rest)

split-joined : (f : ℕ) (ts : List Text) → length (joined ts) ≤ f → split_texts f (joined ts) ≡ ts
split-joined zero [] h = refl
split-joined (suc f) [] h = refl
split-joined zero (t ∷ ts) h = absurd (omega arith)
split-joined (suc f) (t ∷ ts) h =
    let (front, back) = take-drop-append (length t) t (joined ts) refl in
    rw (front, back)
      (ap (λ l. t ∷ l) (split-joined f ts (omega (arith, length-append t (joined ts)))))

abbrev marshalled : Option (List Text) → Result String Bytes
marshalled none = err "not supported"
marshalled (some ts) = ok (joined ts)

abbrev plain_bytes : Option (List Text) → Bytes
plain_bytes none = []
plain_bytes (some ts) = joined ts

abbrev pub bytes_of : List SessionRecord → Bytes
bytes_of rs = plain_bytes (texts_of rs)

abbrev pub yaml : Codec
yaml = record {
  marshal = λ rs. marshalled (texts_of rs);
  decode = λ b. ok (records_of (split_texts (length b) b));
}

read_back :
    (rs : List SessionRecord) (o : Option (List Text)) (b : Bytes)
    → texts_of rs ≡ o
    → marshalled o ≡ ok b
    → records_of (split_texts (length b) b) ≡ rs
read_back rs none b e h = cc
read_back rs (some ts) b e h =
    subst (λ l. records_of (split_texts (length l) l) ≡ rs) (ok-injective h)
      (ap records_of (split-joined (length (joined ts)) ts (omega arith))
        ∙ records_of-texts_of rs ts e)

pub yaml-IsCodec : IsCodec yaml
yaml-IsCodec rs b h = ap ok (read_back rs (texts_of rs) b refl h)
