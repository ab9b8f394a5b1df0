-- ===== src/Scanner/Budget.antt =====
-- The limits of a scan: internal/workspace/scanner/budget_reader.go.
pub mod Laws
use kode_stream.Prelude.{
  ℕ, suc, ◌+◌, ◌*◌, ◌^◌, Bool, true, false, ◌||◌, List, [], ◌∷◌, ◌++◌, Option, none, some, String,
  Result, ok, err, if◌then◌else◌, ltb, leb, nat_eq, text_eq, ◌==◌, Text, codes, length, trim_space,
}
use kode_stream.Filesystem.Paths.{clean, dot, split_path}

-- The limits, as far as the reader looks at them. They are not negative.
pub record ScanBudget : Type 0 where
  pub max_file_bytes : ℕ
  pub max_total_bytes : ℕ
  pub max_entries : ℕ
  pub max_depth : ℕ

abbrev pub default_scan_budget : ScanBudget
default_scan_budget = record {
  max_file_bytes = 2 * 2 ^ 20;
  max_total_bytes = 64 * 2 ^ 20;
  max_entries = 50000;
  max_depth = 64;
}

pub data ScanError : Type 0 where
  cancelled : String → ScanError
  inner_error : String → ScanError
  entry_budget depth_budget total_byte_budget : ScanError
  file_byte_budget : Text → ScanError

pub record BudgetReader : Type 0 where
  pub budget : ScanBudget
  pub entries : ℕ
  pub bytes : ℕ
  pub error : Option ScanError

-- `newBudgetReader`
abbrev pub new_budget_reader : ScanBudget → BudgetReader
new_budget_reader b = record { budget = b; entries = 0; bytes = 0; error = none }

-- `fail` keeps the first error and answers the last one.
abbrev pub first_of : Option ScanError → ScanError → Option ScanError
first_of none e = some e
first_of (some e) f = some e

unfoldable pub fail : ScanError → BudgetReader → BudgetReader
fail e r = record r { error = first_of r.error e }

-- `check`, with the error of the context.
abbrev pub check_error : Option ScanError → BudgetReader → Option ScanError × BudgetReader
check_error (some e) r = (some e, r)
check_error none r = (none, r)

unfoldable pub check : Option String → BudgetReader → Option ScanError × BudgetReader
unfolding fail
check (some e) r = (some (cancelled e), fail (cancelled e) r)
check none r = check_error r.error r

-- `depth`, where the cleaned path of no path is `.`.
unfoldable pub depth : Text → ℕ
depth value = if clean value == dot then 0 else length (split_path (clean value))

abbrev pub Answer : Type 0 → Type 0
Answer A = Result ScanError A × BudgetReader

abbrev pub after_check :
    {A : Type 0} → Option ScanError × BudgetReader → (BudgetReader → Answer A) → Answer A
after_check (some e, r) rest = (err e, r)
after_check (none, r) rest = rest r

abbrev pub failing : {A : Type 0} → ScanError → BudgetReader → Answer A
failing e r = (err e, fail e r)

module _ {E : Type 0} where
  abbrev pub counted_entries : Text → Result String (List E) → BudgetReader → Answer (List E)
  counted_entries path (err e) r = (err (inner_error e), r)
  counted_entries path (ok entries) r =
      let s = record r { entries = r.entries + length entries } in
      if ltb s.budget.max_entries s.entries
      then failing entry_budget s
      else if ltb s.budget.max_depth (depth path)
      then failing depth_budget s
      else (ok entries, s)

  -- `ReadDir`, with what the inner reader answers.
  unfoldable pub read_dir :
      Option String → Text → Result String (List E) → BudgetReader → Answer (List E)
  unfolding check
  read_dir ctx path inner r = after_check (check ctx r) (counted_entries path inner)

-- One call of the function that `WalkDir` hands to the inner reader: whether the caller's own
-- function is called for the path.
abbrev pub counted_visit : Text → Text → BudgetReader → Answer (Unit {0})
counted_visit root path r =
    if ltb (depth root + r.budget.max_depth) (depth path)
    then failing depth_budget r
    else let s = record r { entries = suc r.entries } in
      if ltb s.budget.max_entries s.entries then failing entry_budget s else (ok tt, s)

abbrev pub answer_of : {A : Type 0} → Result String A → Result ScanError A
answer_of (err e) = err (inner_error e)
answer_of (ok a) = ok a

module _ {B : Type 0} where
  abbrev pub read_sized : Text → Result String ℕ → Result String B → BudgetReader → Answer B
  read_sized path (err e) content r = (err (inner_error e), r)
  read_sized path (ok size) content r =
      if ltb r.budget.max_file_bytes size
      then failing (file_byte_budget path) r
      else let s = record r { bytes = r.bytes + size } in
        if ltb s.budget.max_total_bytes s.bytes
        then failing total_byte_budget s
        else (answer_of content, s)

  -- `ReadFile`, with the size that `Stat` of the inner reader answers and what it reads then.
  unfoldable pub read_file :
      Option String → Text → Result String ℕ → Result String B → BudgetReader → Answer B
  unfolding check
  read_file ctx path size content r = after_check (check ctx r) (read_sized path size content)

-- The first step of `WalkDir`, and `Stat` with what the inner reader answers.
unfoldable pub begin_walk : Option String → BudgetReader → Answer (Unit {0})
unfolding check
begin_walk ctx r = after_check (check ctx r) (λ s. (ok tt, s))

unfoldable pub visit : Option String → Text → Text → BudgetReader → Answer (Unit {0})
unfolding check
visit ctx root path r = after_check (check ctx r) (counted_visit root path)

unfoldable pub stat : {I : Type 0} → Option String → Result String I → BudgetReader → Answer I
unfolding check
stat ctx info r = after_check (check ctx r) (λ s. (answer_of info, s))
