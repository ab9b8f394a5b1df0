-- ===== src/Verification/Automation/Template.antt =====
-- The command template of an automation: how it is checked and filled in.
use kode_stream.Prelude.{
  ℕ, Bool, not, ◌&&◌, ◌||◌, List, [], ◌∷◌, ◌++◌, Text, text_eq, nat_eq, codes, trim_space,
  has_prefix, contains, ◌==◌, if◌then◌else◌, any, all, length, zero, suc, ◌-◌, Result, ok, err,
}
use kode_stream.Verification.Quoting.{shell_quote_if_needed}

pub data AutomationError : Type 0 where
  specs_too_many root_invalid environment_invalid mode_invalid not_configured specs_missing
        template_missing template_quotes template_placeholder :
      AutomationError
  spec_invalid spec_absolute spec_outside : Text → AutomationError

-- `normalizeAutomationDisplayMode` leaves these two, and a runner is Playwright or another one.
pub data DisplayMode : Type 0 where
  silent visible : DisplayMode

pub data Runner : Type 0 where
  playwright cypress : Runner

-- `strings.Split(template, "{")`, and what stands before the first `}`.
abbrev begin_part : ℕ → List Text → List Text
begin_part c [] = (c ∷ []) ∷ []
begin_part c (s ∷ ss) = (c ∷ s) ∷ ss

split_braces : Text → List Text
split_braces [] = [] ∷ []
split_braces (c ∷ t) =
    let rest = split_braces t in if c == 123 then [] ∷ rest else begin_part c rest

before_brace : Text → Text
before_brace [] = []
before_brace (c ∷ t) = let rest = before_brace t in if c == 125 then [] else c ∷ rest

abbrev is_placeholder : Text → Bool
is_placeholder name =
    any (λ n. n == name)
      (codes "env" ∷ codes "specs" ∷ codes "modeArgs" ∷ codes "headed" ∷ codes "browser" ∷ [])

is_known_part : Text → Bool
unfolding before_brace
is_known_part part = not (contains part (125 ∷ [])) || is_placeholder (before_brace part)

abbrev is_quoted : Text → Text → Bool
is_quoted template marker =
    contains template marker
    && (contains template (34 ∷ (marker ++ (34 ∷ [])))
        || contains template (39 ∷ (marker ++ (39 ∷ []))))

-- `ValidateAutomationCommandTemplate`
unfoldable pub validate_template : Text → Result AutomationError (Unit {0})
unfolding split_braces is_known_part
validate_template template =
    let t = trim_space template in
    if t == []
    then err template_missing
    else if is_quoted t (codes "{env}") || is_quoted t (codes "{specs}")
    then err template_quotes
    else if all is_known_part (split_braces t)
    then ok tt
    else err template_placeholder

-- `strings.ReplaceAll` of a text that is not empty; `skip` counts what is left of a match.
replace_from : Text → Text → ℕ → Text → Text
replace_from old new skip [] = []
replace_from old new (suc skip) (c ∷ t) = replace_from old new skip t
replace_from old new zero (c ∷ t) =
    let matched = replace_from old new (length old - 1) t in
    let other = replace_from old new zero t in
    if has_prefix (c ∷ t) old then new ++ matched else c ∷ other

unfoldable pub replace_all : Text → Text → Text → Text
unfolding replace_from
replace_all old new t = replace_from old new 0 t

abbrev pub join_commas : List Text → Text
join_commas [] = []
join_commas (s ∷ []) = s
join_commas (s ∷ r ∷ rs) = s ++ (44 ∷ join_commas (r ∷ rs))

abbrev pub mode_args : Runner → DisplayMode → Text
mode_args runner silent = []
mode_args playwright visible = codes "--headed --project=chromium"
mode_args cypress visible = codes "--headed --browser chrome"

abbrev pub headed_arg : DisplayMode → Text
headed_arg silent = []
headed_arg visible = codes "--headed"

abbrev pub browser_arg : Runner → DisplayMode → Text
browser_arg runner silent = []
browser_arg playwright visible = codes "--project=chromium"
browser_arg cypress visible = codes "--browser chrome"

-- `renderAutomationCommand`
unfoldable pub render : Text → Runner → Text → List Text → DisplayMode → Text
unfolding replace_all
render template runner environment specs display =
    let trimmed = trim_space template in
    let args = mode_args runner display in
    let has_mode =
      contains trimmed (codes "{modeArgs}")
      || contains trimmed (codes "{headed}")
      || contains trimmed (codes "{browser}") in
    let with_env = replace_all (codes "{env}") (shell_quote_if_needed environment) trimmed in
    let with_specs =
      replace_all (codes "{specs}") (shell_quote_if_needed (join_commas specs)) with_env in
    let with_args = replace_all (codes "{modeArgs}") args with_specs in
    let with_headed = replace_all (codes "{headed}") (headed_arg display) with_args in
    let rendered = replace_all (codes "{browser}") (browser_arg runner display) with_headed in
    if not (args == []) && not has_mode then trim_space (rendered ++ (32 ∷ args)) else rendered
