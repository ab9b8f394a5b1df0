-- ===== src/Verification/Quoting/Laws.antt =====
-- Which quoted values the shell reads back as one word.
use kode_stream.Prelude.{
  ℕ, ◌≡◌, ◌≢◌, refl, ap, sym, ◌∙◌, Bool, false, not, ◌&&◌, ◌||◌, [], ◌∷◌, ◌++◌, append_assoc,
  append-nil, All, arith, Text, nat_eq, text_eq, ◌==◌, any, Bool-cases, nat_beq_iff, inl, inr,
}
use kode_stream.Verification.Quoting.{
  quote, replace_quotes, spec_escape, launch_escape, shell_quote, launch_quote, special,
  contains_any, shell_quote_if_needed, Mode, bare, single, Reading, read_from, read, step,
}

abbrev pub HasNoQuote : Text → Type 0
HasNoQuote = All (λ c. c ≢ quote)

-- Characters that mean themselves outside quotes, as far as quoting goes.
abbrev pub IsPlain : Text → Type 0
IsPlain = All (λ c. (c ≢ quote) × (c ≢ b'"') × (c ≢ b'\\'))

abbrev at : Mode → Text → Text → Reading
at m w l = record { mode = m; word = w; loose = l }

read_from-append : (r : Reading) (s t : Text) → read_from r (s ++ t) ≡ read_from (read_from r s) t
unfolding read_from
read_from-append r [] t = refl
read_from-append r (c ∷ s) t = read_from-append (step r c) s t

replace_quotes-append :
    (by s t : Text) → replace_quotes by (s ++ t) ≡ replace_quotes by s ++ replace_quotes by t
unfolding replace_quotes
replace_quotes-append by [] t = refl
replace_quotes-append by (c ∷ s) t = elim (Bool-cases (c == quote)) [
  | inl same ↦ rw (same, replace_quotes-append by s t) (sym (append_assoc by _ _))
  | inr other ↦ rw (other, replace_quotes-append by s t)
]

replace_quotes_none : (by s : Text) → HasNoQuote s → replace_quotes by s ≡ s
unfolding replace_quotes
replace_quotes_none by [] h = refl
replace_quotes_none by (c ∷ s) (hc, h) =
    let other : (c == quote) ≡ false = ground arith in
    rw other (ap (λ t. c ∷ t) (replace_quotes_none by s h))

-- In single quotes all is literal up to the next quote.
read_single : (w l s : Text) → HasNoQuote s → read_from (at single w l) s ≡ at single (w ++ s) l
unfolding read_from
read_single w l [] h = rw append-nil
read_single w l (c ∷ s) (hc, h) =
    let other : (c == quote) ≡ false = ground arith in
    rw other (rw (read_single (w ++ (c ∷ [])) l s h) (rw append_assoc))

read_plain : (w l s : Text) → IsPlain s → read_from (at bare w l) s ≡ at bare (w ++ s) (l ++ s)
unfolding read_from
read_plain w l [] h = rw (append-nil w, append-nil l)
read_plain w l (c ∷ s) ((hq, hd, hb), h) =
    let other : (c == quote) ≡ false = ground arith in
    let other_d : (c == b'"') ≡ false = ground arith in
    let other_b : (c == b'\\') ≡ false = ground arith in
    rw (other, other_d, other_b)
      (rw (read_plain (w ++ (c ∷ [])) (l ++ (c ∷ [])) s h) (rw (append_assoc w, append_assoc l)))

read_single_end : (w l : Text) → read_from (at single w l) (quote ∷ []) ≡ at bare w l
unfolding read_from
read_single_end w l = refl

-- The launch service's escape, read from within single quotes, is one literal quote.
launch_escape-single :
    (w l s : Text)
    → read_from (at single w l) (launch_escape ++ s) ≡ read_from (at single (w ++ (quote ∷ [])) l) s
unfolding read_from
launch_escape-single w l s = refl

literal-single :
    (w l s : Text) (c : ℕ)
    → (c == quote) ≡ false
    → read_from (at single w l) (c ∷ s) ≡ read_from (at single (w ++ (c ∷ [])) l) s
unfolding read_from
literal-single w l s c other = rw other

read-launch_from :
    (w l v : Text)
    → read_from (at single w l) (replace_quotes launch_escape v ++ (quote ∷ []))
      ≡ at bare (w ++ v) l
unfolding replace_quotes
read-launch_from w l [] = rw append-nil (read_single_end w l)
read-launch_from w l (c ∷ v) = elim (Bool-cases (c == quote)) [
  | inl same ↦
      let here : c ≡ quote = ground (arith, nat_beq_iff c quote) in
      rw same (
        rw (append_assoc launch_escape) (
          launch_escape-single w l _
          ∙ read-launch_from (w ++ (quote ∷ [])) l v
          ∙ rw here (rw append_assoc)))
  | inr other ↦
      rw other
        (literal-single w l _ c other ∙ read-launch_from (w ++ (c ∷ [])) l v ∙ rw append_assoc)
]

-- Whatever the value, a shell reads what the launch service quotes as one word, and that word is
-- the value: no character of it is left for the shell to interpret.
pub read-launch_quote :
    (value : Text) → read (launch_quote value) ≡ record { mode = bare; word = value; loose = [] }
unfolding read launch_quote
read-launch_quote value = read-launch_from [] [] value

-- A value that holds no quote is read back as one word, that value, from what the verification
-- service quotes.
pub read-shell_quote :
    (value : Text)
    → HasNoQuote value
    → read (shell_quote value) ≡ record { mode = bare; word = value; loose = [] }
unfolding read shell_quote
read-shell_quote value h = rw (replace_quotes_none spec_escape value h) (
    read_from-append (at single [] []) value (quote ∷ [])
    ∙ ap (λ r. read_from r (quote ∷ [])) (read_single [] [] value h)
    ∙ read_single_end value [])

spec_escape-single :
    (w l : Text)
    → read_from (at single w l) spec_escape
      ≡ at bare (((w ++ (b'"' ∷ [])) ++ (b'\\' ∷ [])) ++ (b'"' ∷ [])) l
unfolding read_from
spec_escape-single w l = refl

spec_escape-bare :
    (w l : Text)
    → read_from (at bare w l) spec_escape
      ≡ at single (((w ++ (b'\\' ∷ [])) ++ (b'"' ∷ [])) ++ (b'"' ∷ [])) l
unfolding read_from
spec_escape-bare w l = refl

plain-HasNoQuote : (s : Text) → IsPlain s → HasNoQuote s
plain-HasNoQuote [] h = tt
plain-HasNoQuote (c ∷ s) (hc, h) = (hc.0, plain-HasNoQuote s h)

escape-quote :
    (s t : Text)
    → HasNoQuote s
    → replace_quotes spec_escape (s ++ (quote ∷ t))
      ≡ s ++ (spec_escape ++ replace_quotes spec_escape t)
unfolding replace_quotes
escape-quote s t h =
    replace_quotes-append spec_escape s (quote ∷ t)
    ∙ ap (λ u. u ++ (spec_escape ++ replace_quotes spec_escape t))
        (replace_quotes_none spec_escape s h)

-- What stands in the command for a value with two quotes, and how the parts of it are read.
escape_two :
    (a b c : Text)
    → HasNoQuote a
    → HasNoQuote b
    → HasNoQuote c
    → replace_quotes spec_escape (a ++ (quote ∷ (b ++ (quote ∷ c))))
      ≡ a ++ (spec_escape ++ (b ++ (spec_escape ++ c)))
escape_two a b c ha hb hc =
    escape-quote a (b ++ (quote ∷ c)) ha
    ∙ ap (λ t. a ++ (spec_escape ++ t))
        (escape-quote b c hb
          ∙ ap (λ t. b ++ (spec_escape ++ t)) (replace_quotes_none spec_escape c hc))

read_two :
    (a b c : Text)
    → HasNoQuote a
    → IsPlain b
    → HasNoQuote c
    → (w : Text) × (read_from (at single [] []) (a ++ (spec_escape ++ (b ++ (spec_escape ++ c))))
        ≡ at single w b)
read_two a b c ha hb hc = (
  _,
  read_from-append (at single [] []) a _
      ∙ ap (λ r. read_from r (spec_escape ++ (b ++ (spec_escape ++ c)))) (read_single [] [] a ha)
      ∙ read_from-append (at single a []) spec_escape _
      ∙ ap (λ r. read_from r (b ++ (spec_escape ++ c))) (spec_escape-single a [])
      ∙ read_from-append _ b _
      ∙ ap (λ r. read_from r (spec_escape ++ c)) (read_plain _ [] b hb)
      ∙ read_from-append _ spec_escape c
      ∙ ap (λ r. read_from r c) (spec_escape-bare _ b)
      ∙ read_single _ b c hc,
)

-- The verification service's escape does not bring a quote into the word: it ends the quoting. In
-- a value with two quotes the text between them is left unquoted, so that the shell interprets
-- it, and the quotes balance again behind it.
pub shell_quote_injection :
    (a b c : Text)
    → HasNoQuote a
    → IsPlain b
    → HasNoQuote c
    → ((read (shell_quote (a ++ (quote ∷ (b ++ (quote ∷ c)))))).loose ≡ b)
      × ((read (shell_quote (a ++ (quote ∷ (b ++ (quote ∷ c)))))).mode ≡ bare)
unfolding read shell_quote
shell_quote_injection a b c ha hb hc =
    let (w, inside) = read_two a b c ha hb hc in
    let whole : read (shell_quote (a ++ (quote ∷ (b ++ (quote ∷ c))))) ≡ at bare w b =
      rw (escape_two a b c ha (plain-HasNoQuote b hb) hc) (
        read_from-append (at single [] []) (a ++ (spec_escape ++ (b ++ (spec_escape ++ c))))
          (quote ∷ [])
        ∙ ap (λ r. read_from r (quote ∷ [])) inside
        ∙ read_single_end w b) in
    rw whole (refl, refl)

IsPlain-of_unspecial : (s : Text) → contains_any s special ≡ false → IsPlain s
unfolding contains_any
IsPlain-of_unspecial [] h = tt
IsPlain-of_unspecial (c ∷ s) h =
    let (here, rest) = or_false _ _ h in (unspecial_plain c here, IsPlain-of_unspecial s rest)
  where
    or_false : (x y : Bool) → (x || y) ≡ false → (x ≡ false) × (y ≡ false)
    or_false x y e = ground arith

    unspecial_plain :
        (d : ℕ) → any (λ e. d == e) special ≡ false → (d ≢ quote) × (d ≢ b'"') × (d ≢ b'\\')
    unspecial_plain d e = ground arith

-- A value without a quote becomes one word whose text is the value, quoted or not, and no character
-- that is left for the shell is among those that `shellQuoteIfNeeded` looks for.
pub read-shell_quote_if_needed :
    (value : Text)
    → HasNoQuote value
    → ((read (shell_quote_if_needed value)).mode ≡ bare)
      × ((read (shell_quote_if_needed value)).word ≡ value)
      × (contains_any (read (shell_quote_if_needed value)).loose special ≡ false)
unfolding shell_quote_if_needed
read-shell_quote_if_needed value h =
    elim (Bool-cases (not (value == []) && not (contains_any value special))) [
      | inl safe ↦
          let unspecial : contains_any value special ≡ false = ground arith in
          rw safe (
            unfold read in
            rw (read_plain [] [] value (IsPlain-of_unspecial value unspecial))
              (refl, refl, unspecial))
      | inr quoted ↦ rw quoted (rw (read-shell_quote value h) (refl, refl, refl))
    ]
