-- ===== src/Verification/Automation/Laws.antt =====
-- What a prepared automation job is like.
use kode_stream.Prelude.{
  ℕ, suc, ◌+◌, ◌≤◌, ◌≡◌, ◌≢◌, refl, sym, ap, subst, inl, inr, Bool, true, false, not, ◌&&◌, ◌||◌,
  List, [], ◌∷◌, ◌++◌, Option, none, some, of_some, Text, text_eq, text_beq_iff, nat_eq,
  nat_beq_iff, codes, trim_space, byte_len, ltb, ◌==◌, if◌then◌else◌, any, all, length,
  length-append, All, All-append, Bool-cases, Result, ok, err, ok-injective, ◌>>◌, >>=-eq-ok, arith,
}
use kode_stream.Filesystem.Paths.{dot, is_abs}
use kode_stream.Filesystem.Paths.Laws.{IsInside, clean-IsInside}
use kode_stream.Verification.Quoting.{contains_any, special, shell_quote_if_needed}
use kode_stream.Verification.Automation.Template.{AutomationError, validate_template}
use kode_stream.Verification.Automation.{
  steps_up, cleaned_spec, check_clean, check_spec, add_spec, select_specs, validate_selected_specs,
  is_environment_char, validate_environment, AutomationConfig, CreateInput, AutomationJobConfig,
  require_specs, require_command, enabled_config, environment_of, prepare_enabled,
  prepare_automation_job,
}

or-left : (a b : Bool) → (a || b) ≡ false → a ≡ false
or-left false b q = refl
or-left true b q = cc

or-right : (a b : Bool) → (a || b) ≡ false → b ≡ false
or-right false b q = q
or-right true b q = cc

and-left : (a b : Bool) → (a && b) ≡ true → a ≡ true
and-left true b q = refl
and-left false b q = cc

and-right : (a b : Bool) → (a && b) ≡ true → b ≡ true
and-right true b q = q
and-right false b q = cc

-- No two of the texts are equal.
abbrev pub IsApart : List Text → Type 0
IsApart [] = Unit
IsApart (s ∷ ss) = All (λ r. r ≢ s) ss × IsApart ss

append-IsApart :
    (ss : List Text) (c : Text)
    → any (λ s. s == c) ss ≡ false
    → IsApart ss
    → IsApart (ss ++ (c ∷ []))
append-IsApart [] c h a = (tt, tt)
append-IsApart (s ∷ ss) c h (others, a) = (
  All-append (λ r. r ≢ s) ss (c ∷ []) others
      ((λ e. both ((text_beq_iff s c).1 (sym e)) (or-left (s == c) (any (λ r. r == c) ss) h)), tt),
  append-IsApart ss c (or-right (s == c) (any (λ r. r == c) ss) h) a,
)
  where
    both : {b : Bool} → b ≡ true → b ≡ false → ⊥
    both t f = cc

spec_chain :
    (a b e : Bool) (x y : AutomationError) (d c : Text)
    → ◌≡◌ {A = Result AutomationError (Option Text)}
        (if a then ok none else if b then err x else if e then err y else ok (some d))
        (ok (some c))
    → (a ≡ false) × (b ≡ false) × (d ≡ c)
spec_chain true b e x y d c h = cc
spec_chain false true e x y d c h = cc
spec_chain false false true x y d c h = cc
spec_chain false false false x y d c h = (refl, refl, of_some (ok-injective h))

cleaned_spec-IsInside :
    (spec : Text)
    → (cleaned_spec spec == dot) ≡ false
    → is_abs (cleaned_spec spec) ≡ false
    → steps_up (cleaned_spec spec) ≡ false
    → IsInside (cleaned_spec spec)
unfolding cleaned_spec
cleaned_spec-IsInside spec p q r = clean-IsInside (trim_space spec) p q r

-- A spec that is not skipped is a cleaned path inside of the repository.
check_spec-IsInside : (cwd root spec c : Text) → check_spec cwd root spec ≡ ok (some c) → IsInside c
unfolding check_spec check_clean
check_spec-IsInside cwd root spec c h =
    elim (Bool-cases (ltb 512 (byte_len spec) || contains_any spec (0 ∷ 13 ∷ 10 ∷ []))) [
      | inl bad ↦ absurd (clash (rw bad at h))
      | inr good ↦
          let d = cleaned_spec spec in
          let (kept, relative, same) =
            spec_chain (d == [] || d == dot) (is_abs d || steps_up d) _ _ _ d c (rw good at h) in
          subst IsInside same (
            cleaned_spec-IsInside spec (or-right (d == []) (d == dot) kept)
              (or-left (is_abs d) (steps_up d) relative)
              (or-right (is_abs d) (steps_up d) relative))
    ]
  where
    clash :
        {e : AutomationError}
        → ◌≡◌ {A = Result AutomationError (Option Text)} (err e) (ok (some c))
        → ⊥
    clash q = cc

record IsSelection (ss : List Text) : Type 0 where
  insides : All IsInside ss
  apart : IsApart ss

add_spec-IsSelection :
    (cwd root spec : Text) (o : Option Text) (ss : List Text)
    → check_spec cwd root spec ≡ ok o
    → IsSelection ss
    → IsSelection (add_spec o ss) × (length (add_spec o ss) ≤ suc (length ss))
add_spec-IsSelection cwd root spec none ss h sel = (sel, omega arith)
add_spec-IsSelection cwd root spec (some c) ss h sel = elim (Bool-cases (any (λ s. s == c) ss)) [
  | inl known ↦ rw known (sel, omega arith)
  | inr new ↦ rw new (
    record {
      insides =
          All-append IsInside ss (c ∷ []) sel.insides (check_spec-IsInside cwd root spec c h, tt);
      apart = append-IsApart ss c new sel.apart;
    },
    omega (arith, length-append ss (c ∷ [])),
  )
]

select_specs-IsSelection :
    (cwd root : Text) (ss specs out : List Text)
    → select_specs cwd root ss specs ≡ ok out
    → IsSelection ss
    → IsSelection out × (length out ≤ length ss + length specs)
unfolding select_specs
select_specs-IsSelection cwd root ss [] out h sel =
    let same = ok-injective h in (subst IsSelection same sel, omega (arith, ap length (sym same)))
select_specs-IsSelection cwd root ss (spec ∷ specs) out h sel =
    let (o, checked, rest) = >>=-eq-ok (check_spec cwd root spec) _ h in
    let (next, size) = add_spec-IsSelection cwd root spec o ss checked sel in
    let (done, total) = select_specs-IsSelection cwd root (add_spec o ss) specs out rest next in
    (done, omega (arith, size, total))

any-other :
    (p : ℕ → Bool) (c : ℕ) (ds : List ℕ)
    → p c ≡ true
    → all (λ d. not (p d)) ds ≡ true
    → any (λ d. c == d) ds ≡ false
any-other p c [] h k = refl
any-other p c (d ∷ ds) h k = elim (Bool-cases (c == d)) [
  | inl same ↦ absurd (
      both (subst (λ (x : ℕ). p x ≡ true) ((nat_beq_iff c d).0 same) h)
        (not-false (p d) (and-left _ _ k)))
  | inr other ↦ rw other (any-other p c ds h (and-right _ _ k))
]
  where
    both : {b : Bool} → b ≡ true → b ≡ false → ⊥
    both t f = cc

    not-false : (b : Bool) → not b ≡ true → b ≡ false
    not-false false q = refl
    not-false true q = cc

environment-plain : (e : Text) → all is_environment_char e ≡ true → contains_any e special ≡ false
unfolding contains_any
environment-plain [] h = refl
environment-plain (c ∷ e) h =
    let here = any-other is_environment_char c special (and-left _ _ h) refl in
    rw here (environment-plain e (and-right _ _ h))

-- An environment that is accepted is a single word of the shell as it is.
validate_environment-plain :
    (e : Text) → validate_environment e ≡ ok tt → shell_quote_if_needed e ≡ e
unfolding validate_environment shell_quote_if_needed
validate_environment-plain e h = elim (Bool-cases (e == [] || ltb 64 (byte_len e))) [
  | inl bad ↦ absurd (clash (rw bad at h))
  | inr good ↦ elim (Bool-cases (all is_environment_char e)) [
    | inl plain ↦
        let not_empty = or-left (e == []) (ltb 64 (byte_len e)) good in
        let none_special = environment-plain e plain in rw (not_empty, none_special) refl
    | inr other ↦ absurd (clash (rw (good, other) at h))
  ]
]
  where
    clash : {x : AutomationError} → ◌≡◌ {A = Result AutomationError (Unit {0})} (err x) (ok tt) → ⊥
    clash q = cc

validate_selected_specs-IsSelection :
    (cwd repository : Text) (specs out : List Text)
    → validate_selected_specs cwd repository specs ≡ ok out
    → IsSelection out × (length out ≤ 64)
unfolding validate_selected_specs
validate_selected_specs-IsSelection cwd repository specs out h =
    elim (Bool-cases (ltb 64 (length specs))) [
      | inl many ↦ absurd (clash (rw many at h))
      | inr few ↦
          let (sel, size) =
            select_specs-IsSelection cwd _ [] specs out (rw few at h)
              (record { insides = tt; apart = tt }) in
          (sel, bound (length out) (length specs) size few)
    ]
  where
    clash :
        {x : AutomationError} → ◌≡◌ {A = Result AutomationError (List Text)} (err x) (ok out) → ⊥
    clash q = cc

    bound : (m n : ℕ) → m ≤ 0 + n → ltb 64 n ≡ false → m ≤ 64
    bound m n l f = ground arith

>>-parts :
    {B : Type 0} (m : Result AutomationError (Unit {0})) (rest : Result AutomationError B) {b : B}
    → (m >> rest) ≡ ok b
    → (m ≡ ok tt) × (rest ≡ ok b)
>>-parts (ok a) rest h = (refl, h)
>>-parts (err e) rest h = cc

require_specs-ok : (ss : List Text) → require_specs ss ≡ ok tt → ss ≢ []
require_specs-ok [] h = cc
require_specs-ok (s ∷ ss) h = λ e. cc

-- What the command of an automation job is made of.
pub record IsPrepared (job : AutomationJobConfig) : Type 0 where
  pub insides : All IsInside job.selected_specs
  pub apart : IsApart job.selected_specs
  pub some_spec : job.selected_specs ≢ []
  pub few : length job.selected_specs ≤ 64
  pub environment : shell_quote_if_needed job.environment ≡ job.environment

prepare_enabled-IsPrepared :
    (cwd : Text) (input : CreateInput) (config : AutomationConfig) (job : AutomationJobConfig)
    → prepare_enabled cwd input config ≡ ok job
    → IsPrepared job
unfolding prepare_enabled
prepare_enabled-IsPrepared cwd input config job h =
    let (specs, chosen, h₁) =
      >>=-eq-ok (validate_selected_specs cwd config.repository_path input.selected_specs) _ h in
    let (there, h₂) = >>-parts (require_specs specs) _ h₁ in
    let (word, h₃) = >>-parts (validate_environment (environment_of config input)) _ h₂ in
    let (template, h₄) = >>-parts (validate_template config.command_template) _ h₃ in
    let (rendered, h₅) = >>-parts (require_command _) _ h₄ in
    let (sel, few) =
      validate_selected_specs-IsSelection cwd config.repository_path input.selected_specs specs
        chosen in
    subst IsPrepared (ok-injective h₅) (record {
      insides = sel.insides;
      apart = sel.apart;
      some_spec = require_specs-ok specs there;
      few = few;
      environment = validate_environment-plain (environment_of config input) word;
    })

-- A request for an automation job is accepted only if the automation is configured and enabled; then
-- the job has between one and 64 specs, all different and all paths inside of the repository, and
-- its environment is a single word of the shell without quotes.
pub prepare_automation_job-IsPrepared :
    (cwd : Text) (automation : Option AutomationConfig) (input : CreateInput)
    (job : AutomationJobConfig)
    → (input.mode == codes "automation") ≡ true
    → prepare_automation_job cwd automation input ≡ ok job
    → ((config : AutomationConfig) × (automation ≡ some config) × (config.enabled ≡ true))
      × IsPrepared job
unfolding prepare_automation_job
prepare_automation_job-IsPrepared cwd automation input job mode h =
    let (config, found, prepared) = >>=-eq-ok (enabled_config automation) _ (rw mode at h) in
    (enabled automation config found, prepare_enabled-IsPrepared cwd input config job prepared)
  where
    enabled :
        (o : Option AutomationConfig) (config : AutomationConfig)
        → enabled_config o ≡ ok config
        → (c : AutomationConfig) × (o ≡ some c) × (c.enabled ≡ true)
    enabled none config q = cc
    enabled (some c) config q = elim (Bool-cases c.enabled) [
      | inl on ↦ (c, refl, on)
      | inr off ↦ absurd (clash (rw off at q))
    ]
      where
        clash :
            {x : AutomationError}
            → ◌≡◌ {A = Result AutomationError AutomationConfig} (err x) (ok config)
            → ⊥
        clash r = cc
