-- ===== src/Scanner/Budget/Laws.antt =====
-- What a scan can read through the budget reader.
use kode_stream.Prelude.{
  ℕ, suc, ◌+◌, ◌≤◌, ◌≡◌, ◌⊎◌, refl, ◌∙◌, ap, true, false, List, [], ◌∷◌, Option, none, some, String,
  Result, ok, err, ltb, Text, length, All, arith, inl, inr, Bool-cases, Option-cases, is_some,
}
use kode_stream.Scanner.Budget.{
  ScanBudget, BudgetReader, ScanError, new_budget_reader, fail, first_of, cancelled, entry_budget,
  depth_budget, total_byte_budget, file_byte_budget, check, depth, Answer, read_dir,
  counted_entries, read_file, read_sized, begin_walk, visit, counted_visit, stat, answer_of,
}

abbrev pub Bytes : Type 0
Bytes = List ℕ

-- A call of the reader, with the error of the context and what the inner reader answers.
pub data Call : Type 0 where
  reads_dir : Option String → Text → Result String (List Text) → Call
  reads_file : Option String → Text → Result String ℕ → Result String Bytes → Call
  begins : Option String → Call
  visits : Option String → Text → Text → Call
  stats : Option String → Result String ℕ → Call

-- The reader, and how many entries and bytes it has handed out.
pub record Scan : Type 0 where
  pub reader : BudgetReader
  pub handed_entries : ℕ
  pub handed_bytes : ℕ

abbrev pub start_scan : ScanBudget → Scan
start_scan b = record { reader = new_budget_reader b; handed_entries = 0; handed_bytes = 0 }

abbrev pub hand_entries : Scan → Answer (List Text) → Scan
hand_entries s (err e, r) = record s { reader = r }
hand_entries s (ok es, r) = record s { reader = r; handed_entries = s.handed_entries + length es }

abbrev pub hand_bytes : Scan → Answer Bytes → Scan
hand_bytes s (err e, r) = record s { reader = r }
hand_bytes s (ok b, r) = record s { reader = r; handed_bytes = s.handed_bytes + length b }

abbrev pub hand_visit : Scan → Answer (Unit {0}) → Scan
hand_visit s (err e, r) = record s { reader = r }
hand_visit s (ok t, r) = record s { reader = r; handed_entries = suc s.handed_entries }

abbrev pub hand_none : {A : Type 0} → Scan → Answer A → Scan
hand_none s (a, r) = record s { reader = r }

unfoldable pub call : Call → Scan → Scan
call (reads_dir ctx path inner) s = hand_entries s (read_dir ctx path inner s.reader)
call (reads_file ctx path size content) s = hand_bytes s (read_file ctx path size content s.reader)
call (begins ctx) s = hand_none s (begin_walk ctx s.reader)
call (visits ctx root path) s = hand_visit s (visit ctx root path s.reader)
call (stats ctx info) s = hand_none s (stat ctx info s.reader)

unfoldable pub scan : List Call → Scan → Scan
unfolding call
scan [] s = s
scan (c ∷ cs) s = scan cs (call c s)

abbrev pub HasSize : Result String ℕ → Result String Bytes → Type 0
HasSize (ok size) (ok content) = length content ≡ size
HasSize _ _ = Unit

-- The inner reader reads as many bytes as it said.
abbrev pub IsHonest : Call → Type 0
IsHonest (reads_file ctx path size content) = HasSize size content
IsHonest _ = Unit

record IsWithin (b : ScanBudget) (s : Scan) : Type 0 where
  same : s.reader.budget ≡ b
  few : s.handed_entries ≤ b.max_entries
  small : s.handed_bytes ≤ b.max_total_bytes
  counted :
      (is_some s.reader.error ≡ true)
      ⊎ ((s.handed_entries ≤ s.reader.entries) × (s.handed_bytes ≤ s.reader.bytes))

ltb-ge : (m n : ℕ) → ltb m n ≡ false → n ≤ m
ltb-ge m n h = ground arith

first_of-is_some : (f : Option ScanError) (e : ScanError) → is_some (first_of f e) ≡ true
first_of-is_some none e = refl
first_of-is_some (some f) e = refl

check-cases :
    (ctx : Option String) (r : BudgetReader)
    → ((e : ScanError) × (f : ScanError) × (check ctx r ≡ (some e, record r { error = some f })))
      ⊎ ((r.error ≡ none) × (check ctx r ≡ (none, r)))
unfolding check fail
check-cases (some e) r = elim (Option-cases r.error) [
  | inl h ↦ inl (cancelled e, cancelled e, rw h refl)
  | inr (f, h) ↦ inl (cancelled e, f, rw h refl)
]
check-cases none r = elim (Option-cases r.error) [
  | inl h ↦ inr (h, rw h refl)
  | inr (e, h) ↦ inl (e, e, rw h refl)
]

module _ (b : ScanBudget) (s : Scan) (w : IsWithin b s) where
  stopped :
      (r : BudgetReader)
      → r.budget ≡ s.reader.budget
      → is_some r.error ≡ true
      → IsWithin b (record s { reader = r })
  stopped r same e = record { same = same ∙ w.same; few = w.few; small = w.small; counted = inl e }

  failed-IsWithin :
      (r : BudgetReader) (e : ScanError)
      → r.budget ≡ s.reader.budget
      → IsWithin b (record s { reader = fail e r })
  unfolding fail
  failed-IsWithin r e same = stopped (fail e r) same (first_of-is_some r.error e)

  open_counts :
      s.reader.error ≡ none
      → (s.handed_entries ≤ s.reader.entries) × (s.handed_bytes ≤ s.reader.bytes)
  open_counts h = elim w.counted [ inl e ↦ let bad = rw h at e in cc | inr c ↦ c ]

  counted_entries-IsWithin :
      (path : Text) (inner : Result String (List Text))
      → s.reader.error ≡ none
      → IsWithin b (hand_entries s (counted_entries path inner s.reader))
  counted_entries-IsWithin path (err e) h = w
  counted_entries-IsWithin path (ok es) h =
      let (more, less) = open_counts h in
      let r = record s.reader { entries = s.reader.entries + length es } in
      elim (Bool-cases (ltb s.reader.budget.max_entries (s.reader.entries + length es))) [
        | inl t ↦ rw t (failed-IsWithin r entry_budget refl)
        | inr f ↦ elim (Bool-cases (ltb s.reader.budget.max_depth (depth path))) [
          | inl t ↦ rw (f, t) (failed-IsWithin r depth_budget refl)
          | inr g ↦
              rw (f, g)
                (record {
                  same = w.same;
                  few = omega (
                    arith,
                    more,
                    ap (λ (q : ScanBudget). q.max_entries) w.same,
                    ltb-ge s.reader.budget.max_entries (s.reader.entries + length es) f,
                  );
                  small = w.small;
                  counted = inr (omega (arith, more), less);
                })
        ]
      ]

  read_sized-IsWithin :
      (path : Text) (size : Result String ℕ) (content : Result String Bytes)
      → HasSize size content
      → s.reader.error ≡ none
      → IsWithin b (hand_bytes s (read_sized path size content s.reader))
  read_sized-IsWithin path (err e) content honest h = w
  read_sized-IsWithin path (ok size) content honest h =
      let (more, less) = open_counts h in
      let r = record s.reader { bytes = s.reader.bytes + size } in
      elim (Bool-cases (ltb s.reader.budget.max_file_bytes size)) [
        | inl t ↦ rw t (failed-IsWithin s.reader (file_byte_budget path) refl)
        | inr f ↦ elim (Bool-cases (ltb s.reader.budget.max_total_bytes (s.reader.bytes + size))) [
          | inl t ↦ rw (f, t) (failed-IsWithin r total_byte_budget refl)
          | inr g ↦
              rw (f, g)
                (read content honest
                  (omega (
                    arith,
                    less,
                    ap (λ (q : ScanBudget). q.max_total_bytes) w.same,
                    ltb-ge s.reader.budget.max_total_bytes (s.reader.bytes + size) g,
                  ))
                  more less)
        ]
      ]
    where
      read :
          (content : Result String Bytes)
          → HasSize (ok size) content
          → s.handed_bytes + size ≤ b.max_total_bytes
          → s.handed_entries ≤ s.reader.entries
          → s.handed_bytes ≤ s.reader.bytes
          → IsWithin b
              (hand_bytes s (answer_of content, record s.reader { bytes = s.reader.bytes + size }))
      read (err e) honest fits more less = record {
        same = w.same;
        few = w.few;
        small = w.small;
        counted = inr (more, omega (arith, less));
      }
      read (ok bytes) honest fits more less = record {
        same = w.same;
        few = w.few;
        small = omega (arith, fits, honest);
        counted = inr (more, omega (arith, less, honest));
      }

  counted_visit-IsWithin :
      (root path : Text)
      → s.reader.error ≡ none
      → IsWithin b (hand_visit s (counted_visit root path s.reader))
  counted_visit-IsWithin root path h =
      let (more, less) = open_counts h in
      let r = record s.reader { entries = suc s.reader.entries } in
      elim (Bool-cases (ltb (depth root + s.reader.budget.max_depth) (depth path))) [
        | inl t ↦ rw t (failed-IsWithin s.reader depth_budget refl)
        | inr f ↦ elim (Bool-cases (ltb s.reader.budget.max_entries (suc s.reader.entries))) [
          | inl t ↦ rw (f, t) (failed-IsWithin r entry_budget refl)
          | inr g ↦
              rw (f, g)
                (record {
                  same = w.same;
                  few = omega (
                    arith,
                    more,
                    ap (λ (q : ScanBudget). q.max_entries) w.same,
                    ltb-ge s.reader.budget.max_entries (suc s.reader.entries) g,
                  );
                  small = w.small;
                  counted = inr (omega (arith, more), less);
                })
        ]
      ]

  call-IsWithin : (c : Call) → IsHonest c → IsWithin b (call c s)
  unfolding call read_dir read_file begin_walk visit stat
  call-IsWithin (reads_dir ctx path inner) honest = elim (check-cases ctx s.reader) [
    | inl (e, f, h) ↦ rw h (stopped _ refl refl)
    | inr (h, q) ↦ rw q (counted_entries-IsWithin path inner h)
  ]
  call-IsWithin (reads_file ctx path size content) honest = elim (check-cases ctx s.reader) [
    | inl (e, f, h) ↦ rw h (stopped _ refl refl)
    | inr (h, q) ↦ rw q (read_sized-IsWithin path size content honest h)
  ]
  call-IsWithin (begins ctx) honest = elim (check-cases ctx s.reader) [
    | inl (e, f, h) ↦ rw h (stopped _ refl refl)
    | inr (h, q) ↦ rw q w
  ]
  call-IsWithin (visits ctx root path) honest = elim (check-cases ctx s.reader) [
    | inl (e, f, h) ↦ rw h (stopped _ refl refl)
    | inr (h, q) ↦ rw q (counted_visit-IsWithin root path h)
  ]
  call-IsWithin (stats ctx info) honest = elim (check-cases ctx s.reader) [
    | inl (e, f, h) ↦ rw h (stopped _ refl refl)
    | inr (h, q) ↦ rw q w
  ]

scan-IsWithin :
    (b : ScanBudget) (cs : List Call) (s : Scan)
    → IsWithin b s
    → All IsHonest cs
    → IsWithin b (scan cs s)
unfolding scan
scan-IsWithin b [] s w honest = w
scan-IsWithin b (c ∷ cs) s w (h, hs) = scan-IsWithin b cs (call c s) (call-IsWithin b s w c h) hs

-- Whatever calls a scan makes, and wherever the context is cancelled, the reader hands out at most
-- as many directory entries as its budget has, and at most as many bytes of file contents, if
-- the reader below reads as many bytes of a file as it said that there are.
pub scan-bounded :
    (b : ScanBudget) (cs : List Call)
    → All IsHonest cs
    → ((scan cs (start_scan b)).handed_entries ≤ b.max_entries)
      × ((scan cs (start_scan b)).handed_bytes ≤ b.max_total_bytes)
scan-bounded b cs honest =
    let w =
      scan-IsWithin b cs (start_scan b)
        (record {
          same = refl;
          few = omega arith;
          small = omega arith;
          counted = inr (omega arith, omega arith);
        })
        honest in
    (w.few, w.small)
