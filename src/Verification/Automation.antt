-- ===== src/Verification/Automation.antt =====
-- The preparation of an automation job: `prepareAutomationJob` and what it calls in
-- internal/verification/verification_service.go, and `ValidateAutomationCommandTemplate` of
-- internal/runtime/runtime_service.go.
pub mod Template
pub mod Laws
mod Tests
use mathlib.Core.List.{reverse}
use kode_stream.Prelude.{
  ℕ, Bool, true, false, not, ◌&&◌, ◌||◌, List, [], ◌∷◌, ◌++◌, map, Option, none, some, Text,
  text_eq, nat_eq, codes, trim_space, has_prefix, byte_len, ◌==◌, leb, ltb, if◌then◌else◌, any, all,
  length, Result, ok, err, ◌>>=◌, ◌>>◌,
}
use kode_stream.Filesystem.Paths.{
  slash, dot, dot_dot, split_path, push_all, is_abs, print_path, clean,
}
use kode_stream.Verification.Quoting.{contains_any}
use kode_stream.Verification.Automation.Template.{
  AutomationError, DisplayMode, silent, visible, Runner, specs_too_many, root_invalid, spec_invalid,
  spec_absolute, spec_outside, environment_invalid, mode_invalid, not_configured, specs_missing,
  template_missing, validate_template, render,
}

-- `filepath.Abs` with the working directory, and `filepath.Join` of two paths that are not empty.
abbrev pub join_two : Text → Text → Text
join_two a b = clean (a ++ (slash ∷ b))

abbrev pub absolute : Text → Text → Text
absolute cwd t = if is_abs t then clean t else join_two cwd t

-- The segments of a rooted path, and `filepath.Rel` of two such paths: steps up from where they
-- part, and down again.
segments_of : Text → List Text
segments_of t = reverse (push_all true (split_path t) [])

relative_segments : List Text → List Text → List Text
relative_segments [] target = target
relative_segments (b ∷ bs) [] = map (λ s. dot_dot) (b ∷ bs)
relative_segments (b ∷ bs) (t ∷ ts) =
    let rest = relative_segments bs ts in
    if b == t then rest else map (λ s. dot_dot) (b ∷ bs) ++ (t ∷ ts)

relative : Text → Text → Text
unfolding segments_of relative_segments
relative base target = print_path false (relative_segments (segments_of base) (segments_of target))

abbrev pub steps_up : Text → Bool
steps_up c = c == dot_dot || has_prefix c (46 ∷ 46 ∷ 47 ∷ [])

-- The body of the loop of `validateSelectedSpecs`: `none` where it skips the spec.
unfoldable pub cleaned_spec : Text → Text
cleaned_spec spec = clean (trim_space spec)

unfoldable pub check_clean : Text → Text → Text → Text → Result AutomationError (Option Text)
unfolding relative
check_clean cwd root spec c =
    if c == [] || c == dot
    then ok none
    else if is_abs c || steps_up c
    then err (spec_absolute spec)
    else if steps_up (relative root (absolute cwd (join_two root c)))
    then err (spec_outside spec)
    else ok (some c)

unfoldable pub check_spec : Text → Text → Text → Result AutomationError (Option Text)
unfolding cleaned_spec check_clean
check_spec cwd root spec =
    if ltb 512 (byte_len spec) || contains_any spec (0 ∷ 13 ∷ 10 ∷ [])
    then err (spec_invalid spec)
    else check_clean cwd root spec (cleaned_spec spec)

abbrev pub add_spec : Option Text → List Text → List Text
add_spec none selected = selected
add_spec (some c) selected = if any (λ s. s == c) selected then selected else selected ++ (c ∷ [])

unfoldable pub select_specs :
    Text → Text → List Text → List Text → Result AutomationError (List Text)
unfolding check_spec
select_specs cwd root selected [] = ok selected
select_specs cwd root selected (spec ∷ specs) =
    check_spec cwd root spec >>= (λ o. select_specs cwd root (add_spec o selected) specs)

-- `validateSelectedSpecs`, where the absolute path of the repository is never empty.
unfoldable pub validate_selected_specs :
    Text → Text → List Text → Result AutomationError (List Text)
unfolding select_specs
validate_selected_specs cwd repository specs =
    if ltb 64 (length specs)
    then err specs_too_many
    else select_specs cwd (absolute cwd (trim_space repository)) [] specs

-- `validateAutomationEnvironment`
abbrev pub is_environment_char : ℕ → Bool
is_environment_char c =
    (leb 97 c && leb c 122)
    || (leb 65 c && leb c 90)
    || (leb 48 c && leb c 57)
    || c == 46
    || c == 95
    || c == 45

unfoldable pub validate_environment : Text → Result AutomationError (Unit {0})
validate_environment environment =
    if environment == [] || ltb 64 (byte_len environment)
    then err environment_invalid
    else if all is_environment_char environment
    then ok tt
    else err environment_invalid

pub record AutomationConfig : Type 0 where
  pub enabled : Bool
  pub repository_path : Text
  pub runner : Runner
  pub default_environment : Text
  pub command_template : Text

pub record CreateInput : Type 0 where
  pub mode : Text
  pub environment : Text
  pub display_mode : DisplayMode
  pub selected_specs : List Text

pub record AutomationJobConfig : Type 0 where
  pub environment : Text
  pub display_mode : DisplayMode
  pub selected_specs : List Text
  pub repository_path : Text
  pub rendered_command : Text

abbrev pub empty_config : AutomationJobConfig
empty_config = record {
  environment = [];
  display_mode = silent;
  selected_specs = [];
  repository_path = [];
  rendered_command = [];
}

abbrev pub require_specs : List Text → Result AutomationError (Unit {0})
require_specs [] = err specs_missing
require_specs (s ∷ ss) = ok tt

abbrev pub require_command : Text → Result AutomationError (Unit {0})
require_command rendered = if trim_space rendered == [] then err template_missing else ok tt

abbrev pub enabled_config : Option AutomationConfig → Result AutomationError AutomationConfig
enabled_config none = err not_configured
enabled_config (some config) = if config.enabled then ok config else err not_configured

abbrev pub environment_of : AutomationConfig → CreateInput → Text
environment_of config input =
    let asked = trim_space input.environment in
    if asked == [] then config.default_environment else asked

unfoldable pub prepare_enabled :
    Text → CreateInput → AutomationConfig → Result AutomationError AutomationJobConfig
unfolding validate_selected_specs validate_environment
prepare_enabled cwd input config = do
  specs ← validate_selected_specs cwd config.repository_path input.selected_specs
  require_specs specs
  validate_environment (environment_of config input)
  validate_template config.command_template
  let rendered : Text =
      render config.command_template config.runner (environment_of config input) specs
        input.display_mode
  require_command rendered
  ok (record {
    environment = environment_of config input;
    display_mode = input.display_mode;
    selected_specs = specs;
    repository_path = config.repository_path;
    rendered_command = rendered;
  })

-- `prepareAutomationJob`
unfoldable pub prepare_automation_job :
    Text → Option AutomationConfig → CreateInput → Result AutomationError AutomationJobConfig
unfolding prepare_enabled
prepare_automation_job cwd automation input =
    if input.mode == codes "automation"
    then enabled_config automation >>= (λ config. prepare_enabled cwd input config)
    else if not (input.mode == []) && not (input.mode == codes "runtime")
    then err mode_invalid
    else ok empty_config
