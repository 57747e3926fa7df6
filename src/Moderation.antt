-- ===== src/Moderation.antt =====
-- Moderation by checkers: internal/service/moderation (plugin.go, project.go, scorer_checker.go and the
-- task of moderation.go). The providers that score an image or read its text are arguments of the
-- checkers; the settings' JSON is not modelled.
pub mod Task
pub mod Verdicts
pub mod Examples
use imgli.Common.{
  ℕ, Bool, true, false, not, ◌&&◌, ◌||◌, Option, none, some, List, [], ◌∷◌, ◌++◌, String, str_eq,
  ltb, leb, any, if◌then◌else◌,
}
use imgli.Common.Outcome.{Outcome, ok, err}
use imgli.Model.{Status, normal, pending, rejected, Score, Image, File}

-- CheckResult.Severity; `unset` is the empty string.
pub data Severity : Type 0 where
  unset harmless review block : Severity

pub record CheckResult : Type 0 where
  pub plugin : String
  pub severity : Severity
  pub score : Option Score
  pub hits : List String

-- A Checker, for one image: its name, and what Check returns.
pub record Checker : Type 0 where
  pub name : String
  pub check_image : Image → File → Outcome String CheckResult

-- Policy; an action that is not set is none.
pub record Policy : Type 0 where
  pub action_review : Option Status
  pub action_block : Option Status

pub record Decision : Type 0 where
  pub status : Status
  pub score : Option Score
  pub flagged : Bool

abbrev pub default_to : Status → Option Status → Status
default_to s none = s
default_to s (some t) = t

-- The greater of the highest score so far and a result's.
abbrev pub higher : Option Score → Option Score → Option Score
higher none b = b
higher (some a) none = some a
higher (some a) (some b) = if ltb a b then some b else some a

abbrev pub is_review : CheckResult → Bool
is_review r = elim r.severity [ unset ↦ false | harmless ↦ false | review ↦ true | block ↦ false ]

abbrev pub is_block : CheckResult → Bool
is_block r = elim r.severity [ unset ↦ false | harmless ↦ false | review ↦ false | block ↦ true ]

-- The loop of Decide over the scores.
unfoldable pub max_score : Option Score → List CheckResult → Option Score
max_score best [] = best
max_score best (r ∷ results) = max_score (higher best r.score) results

unfoldable pub decide : List CheckResult → Policy → Decision
decide results pol =
    let score = max_score none results in
    if any is_block results
    then record { status = default_to rejected pol.action_block; score = score; flagged = true }
    else if any is_review results
    then record { status = default_to pending pol.action_review; score = score; flagged = true }
    else record { status = normal; score = score; flagged = false }

-- Config.OnPluginError.
pub data OnError : Type 0 where
  fail_open to_review : OnError

abbrev is_to_review : OnError → Bool
is_to_review fail_open = false
is_to_review to_review = true

abbrev pub filled : String → CheckResult → CheckResult
filled name r = record r {
  plugin = if str_eq r.plugin "" then name else r.plugin;
  severity = elim r.severity [
    | unset ↦ harmless
    | harmless ↦ harmless
    | review ↦ review
    | block ↦ block
  ];
}

abbrev pub failed_check : String → CheckResult
failed_check name = record { plugin = name; severity = review; score = none; hits = [] }

abbrev pub and_then :
    CheckResult → Outcome String (List CheckResult) → Outcome String (List CheckResult)
and_then r (ok rest) = ok (r ∷ rest)
and_then r (err e) = err e

-- The loop of RunPipelineWithErrorPolicy; `single` is whether there is one checker in all.
unfoldable pub run_each :
    Bool → OnError → Image → File → List Checker → Outcome String (List CheckResult)
run_each single on_error img file [] = ok []
run_each single on_error img file (c ∷ checkers) =
    let rest = run_each single on_error img file checkers in
    elim (c.check_image img file) [
      | ok r ↦ and_then (filled c.name r) rest
      | err e ↦
          if is_to_review on_error
          then and_then (failed_check c.name) rest
          else if single
          then err e
          else rest
    ]

abbrev is_single : List Checker → Bool
is_single (c ∷ []) = true
is_single _ = false

unfoldable pub run_pipeline :
    OnError → Image → File → List Checker → Outcome String (List CheckResult)
run_pipeline on_error img file checkers = run_each (is_single checkers) on_error img file checkers

-- Config.Action: "pending" or "rejected".
pub data Action : Type 0 where
  to_pending to_rejected : Action

unfoldable pub policy_from_config : Action → Policy
policy_from_config to_rejected = record {
  action_review = some rejected;
  action_block = some rejected;
}
policy_from_config to_pending = record {
  action_review = some pending;
  action_block = some rejected;
}

abbrev pub over_threshold_from_action : Action → Severity
over_threshold_from_action to_rejected = block
over_threshold_from_action to_pending = review

-- thresholdChecker.Check: `scorer` opens the image and scores it.
unfoldable pub wrap_scorer :
    String → (Image → File → Outcome String Score) → Score → Severity → Checker
wrap_scorer name scorer threshold over = record {
  name = name;
  check_image = λ img file. elim (scorer img file) [
    | err e ↦ err e
    | ok score ↦ ok (record {
      plugin = name;
      severity = if leb threshold score then over else harmless;
      score = some score;
      hits = [];
    })
  ];
}

-- The fields of Config that the task reads; `text_checker` is the OCR checker, which asks a service
-- for the text, where it is enabled.
pub record Config : Type 0 where
  pub enabled : Bool
  pub provider : String
  pub scorer : Image → File → Outcome String Score
  pub threshold : Score
  pub action : Action
  pub text_checker : Option Checker
  pub on_plugin_error : OnError
  pub notify_on_reject : Bool

unfoldable pub build_checkers_from_config : Config → List Checker
build_checkers_from_config cfg =
    if not cfg.enabled
    then []
    else wrap_scorer (if str_eq cfg.provider "" then "webhook" else cfg.provider) cfg.scorer
        cfg.threshold (over_threshold_from_action cfg.action)
      ∷ (elim cfg.text_checker [ none ↦ [] | some c ↦ c ∷ [] ])
