-- ===== src/Verification/Automation/Tests.antt =====
-- A request for an automation job with two spellings of one spec.
use kode_stream.Prelude.{
  ◌≡◌, refl, true, [], ◌∷◌, Option, some, codes, trim_space, trim_left, is_space, has_prefix,
  contains, byte_len, ok, text_eq,
}
use kode_stream.Filesystem.Paths.{split_path, join_path, push_all, clean}
use kode_stream.Verification.Quoting.{contains_any, shell_quote_if_needed}
use kode_stream.Verification.Automation.Template.{
  silent, playwright, validate_template, render, replace_all,
}
use kode_stream.Verification.Automation.{
  cleaned_spec, check_clean, check_spec, select_specs, validate_selected_specs,
  validate_environment, AutomationConfig, CreateInput, AutomationJobConfig, prepare_enabled,
  prepare_automation_job,
}
use kode_stream.Verification.Automation.Laws.{IsPrepared, prepare_automation_job-IsPrepared}

abbrev config : AutomationConfig
config = record {
  enabled = true;
  repository_path = codes "/r";
  runner = playwright;
  default_environment = codes "dev-1";
  command_template = codes "run {specs}";
}

abbrev input : CreateInput
input = record {
  mode = codes "automation";
  environment = [];
  display_mode = silent;
  selected_specs = codes "t/./a.ts" ∷ codes "t/a.ts" ∷ [];
}

abbrev prepared : AutomationJobConfig
prepared = record {
  environment = codes "dev-1";
  display_mode = silent;
  selected_specs = codes "t/a.ts" ∷ [];
  repository_path = codes "/r";
  rendered_command = codes "run t/a.ts";
}

prepares : prepare_automation_job (codes "/") (some config) input ≡ ok prepared
unfolding prepare_automation_job prepare_enabled validate_selected_specs select_specs check_spec
    check_clean cleaned_spec validate_environment validate_template render replace_all contains_any
    shell_quote_if_needed clean split_path join_path push_all trim_space trim_left is_space
    has_prefix contains byte_len
prepares = refl

prepare_automation_job-IsPrepared_example :
    ((c : AutomationConfig) × (◌≡◌ {A = Option AutomationConfig} (some config) (some c))
      × (c.enabled ≡ true))
    × IsPrepared prepared
prepare_automation_job-IsPrepared_example =
    prepare_automation_job-IsPrepared (codes "/") (some config) input prepared refl prepares
