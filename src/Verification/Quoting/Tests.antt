-- ===== src/Verification/Quoting/Tests.antt =====
-- Quoting at concrete values.
use kode_stream.Prelude.{◌≡◌, refl, [], ◌∷◌, ◌++◌, codes, arith}
use kode_stream.Verification.Quoting.{shell_quote, bare, read, quote}
use kode_stream.Verification.Quoting.Laws.{read-shell_quote, shell_quote_injection}

read-shell_quote_example :
    read (shell_quote (codes "a b.spec"))
    ≡ record { mode = bare; word = codes "a b.spec"; loose = [] }
read-shell_quote_example = read-shell_quote (codes "a b.spec") (omega arith)

shell_quote_text : shell_quote (codes "x';id;'y") ≡ codes "'x'\\\"'\\\"';id;'\\\"'\\\"'y'"
unfolding shell_quote
shell_quote_text = refl

-- The command substitution of a test name reaches the shell.
shell_quote_injection_example :
    ((read (shell_quote (codes "x" ++ (quote ∷ (codes ";id;" ++ (quote ∷ codes "y")))))).loose
      ≡ codes ";id;")
    × ((read (shell_quote (codes "x" ++ (quote ∷ (codes ";id;" ++ (quote ∷ codes "y")))))).mode
        ≡ bare)
shell_quote_injection_example =
    shell_quote_injection (codes "x") (codes ";id;") (codes "y") (omega arith) (omega arith)
      (omega arith)
