-- ===== src/Scanner/Tests.antt =====
-- A scan with a small budget.
use kode_stream.Prelude.{◌≤◌, List, [], ◌∷◌, none, some, ok, err, codes, refl}
use kode_stream.Scanner.Budget.{ScanBudget}
use kode_stream.Scanner.Budget.Laws.{
  Call, reads_dir, reads_file, visits, start_scan, scan, scan-bounded,
}

abbrev small_budget : ScanBudget
small_budget = record { max_file_bytes = 3; max_total_bytes = 4; max_entries = 2; max_depth = 3 }

abbrev calls : List Call
calls =
    reads_dir none (codes "plans") (ok (codes "a" ∷ []))
    ∷ reads_file none (codes "plans/a") (ok 3) (ok (1 ∷ 2 ∷ 3 ∷ []))
    ∷ visits none (codes "plans") (codes "plans/a")
    ∷ reads_file none (codes "plans/b") (ok 2) (ok (1 ∷ 2 ∷ []))
    ∷ reads_dir (some "cancelled") (codes "plans") (err "gone")
    ∷ []

scan-bounded_example :
    ((scan calls (start_scan small_budget)).handed_entries ≤ 2)
    × ((scan calls (start_scan small_budget)).handed_bytes ≤ 4)
scan-bounded_example = scan-bounded small_budget calls (tt, (refl, (tt, (refl, (tt, tt)))))
