-- ===== src/Moderation/Examples.antt =====
-- A site with a scorer, a text checker that fails, and one picture.
use imgli.Common.{
  ◌&&◌, ℕ, ◌≤◌, ◌≡◌, refl, ◌⊎◌, Bool, true, false, not, ◌||◌, Option, none, some, List, [], ◌∷◌,
  ◌++◌, String, any, length, All, ◌==◌, arith,
}
use imgli.Common.Outcome.{ok, err}
use imgli.Model.{Status, normal, pending, rejected, Image, File}
use imgli.Moderation.{
  CheckResult, Checker, Config, Policy, harmless, review, block, fail_open, to_review, to_pending,
  decide, run_pipeline, policy_from_config, is_block, is_review,
}
use mathlib.Core.List.Permᴰ.{swap}
use imgli.Moderation.Task.{is_normal, conclude, open_to_decision}
use imgli.Moderation.Verdicts.{
  IsHeard, fails, decide-order, decide-worst, pipeline-review, conclude-guards,
}
use imgli.Store.{Db, find_image}
use imgli.Store.Moderate.{is_live}
use imgli.Store.Examples.{one, picture}

abbrev a_file : File
a_file = record {
  id = 1;
  hash = "abc";
  surface = imgli.Model.public;
  storage_policy_id = 1;
  path = "a/b.png";
  size = 40;
  ref_count = 1;
}

abbrev suspect : CheckResult
suspect = record { plugin = "nsfwjs"; severity = review; score = some 90; hits = [] }

abbrev banned_words : CheckResult
banned_words = record {
  plugin = "ocr_keywords";
  severity = block;
  score = none;
  hits = "spam" ∷ [];
}

abbrev broken : Checker
broken = record { name = "ocr_keywords"; check_image = λ img file. err "timeout" }

abbrev settings : Config
settings = record {
  enabled = true;
  provider = "nsfwjs";
  scorer = λ img file. ok 90;
  threshold = 80;
  action = to_pending;
  text_checker = some broken;
  on_plugin_error = to_review;
  notify_on_reject = false;
}

decide-order_example :
    decide (suspect ∷ banned_words ∷ suspect ∷ []) (policy_from_config to_pending)
    ≡ decide (banned_words ∷ suspect ∷ suspect ∷ []) (policy_from_config to_pending)
decide-order_example = decide-order (policy_from_config to_pending) (swap refl refl)

decide-worst_example :
    All
      (IsHeard (decide (suspect ∷ banned_words ∷ []) (policy_from_config to_pending)))
      (suspect ∷ banned_words ∷ [])
    × ((decide (suspect ∷ banned_words ∷ []) (policy_from_config to_pending)).flagged ≡ (
        any is_block (suspect ∷ banned_words ∷ []) || any is_review (suspect ∷ banned_words ∷ [])))
    × ((decide (suspect ∷ banned_words ∷ []) (policy_from_config to_pending)).flagged
        ≡ not (
            is_normal
              (decide (suspect ∷ banned_words ∷ []) (policy_from_config to_pending)).status))
decide-worst_example = decide-worst (suspect ∷ banned_words ∷ []) to_pending

pipeline-review_example :
    (results : List CheckResult) × (run_pipeline to_review
        (picture 1 "k1" none)
        a_file
        (broken ∷ [])
      ≡ ok results)
    × (length results ≡ length (broken ∷ []))
    × (any (fails (picture 1 "k1" none) a_file) (broken ∷ []) ≡ true
        → is_normal (decide results (policy_from_config to_pending)).status ≡ false)
pipeline-review_example = pipeline-review (picture 1 "k1" none) a_file (broken ∷ []) to_pending

conclude-guards_example :
    (after : Image) × (find_image 1 (conclude settings (picture 1 "k1" none) (suspect ∷ []) one).db
      ≡ some after)
    × (after
        ≡ record (picture 1 "k1" none) { status = after.status; nsfw_score = after.nsfw_score })
    × (((picture 1 "k1" none).id == (picture 1 "k1" none).id) ≡ false → after ≡ picture 1 "k1" none)
    × ((after.status ≡ normal)
        ⊎ ((◌≡◌ {A = Status} normal normal)
            × (◌≡◌ {A = Bool} false false)
            × (is_live (picture 1 "k1" none) ≡ true)
            × (after.status ≡ (decide (suspect ∷ []) (policy_from_config to_pending)).status)
            × (is_normal after.status ≡ false)
            × ((conclude settings (picture 1 "k1" none) (suspect ∷ []) one).audited ≡ true)))
    × ((conclude settings (picture 1 "k1" none) (suspect ∷ []) one).audited ≡ (
        (decide (suspect ∷ []) (policy_from_config to_pending)).flagged
        && any (open_to_decision 1) one.images))
unfolding imgli.Table.find_id
conclude-guards_example =
    conclude-guards settings (picture 1 "k1" none) (suspect ∷ []) one 1 (picture 1 "k1" none) refl

held_for_review : (conclude settings (picture 1 "k1" none) (suspect ∷ []) one).audited ≡ true
unfolding conclude decide any imgli.Moderation.Task.apply_status_decision
    imgli.Store.Trash.update_images imgli.Moderation.Task.record_score imgli.Moderation.max_score
    imgli.Common.update_where
held_for_review = refl
