-- ===== src/Moderation/Verdicts.antt =====
-- What the moderation task decides and what it may change: internal/service/moderation.
use imgli.Common.{
  ℕ, ◌≤◌, ◌≡◌, refl, sym, ◌∙◌, ap, ◌⊎◌, inl, inr, Bool, true, false, not, ◌&&◌, ◌||◌, Option, none,
  some, List, [], ◌∷◌, ◌++◌, arith, any, length, All, Bool-cases, ◌==◌, update_where,
}
use mathlib.Core.List.{Permᴰ}
use mathlib.Core.List.Permᴰ.{nil, cons, swap, trans}
use imgli.Common.Outcome.{ok, err, Outcome-cases}
use imgli.Table.Members.{All-map, All-both}
use imgli.Table.Counts.{find_id-updated}
use imgli.Model.{normal, rejected, Score, Image, File}
use imgli.Moderation.{
  CheckResult, Checker, Decision, Policy, Config, Action, to_review, decide, max_score, higher,
  is_block, is_review, run_each, run_pipeline, is_single, filled, failed_check, policy_from_config,
}
use imgli.Moderation.Task.{
  is_normal, conclude, record_score, rescored, restatus, apply_status_decision, open_to_decision,
}
use imgli.Table.{find_id}
use imgli.Store.{Db, image_key, find_image}
use imgli.Store.Moderate.{is_live}
use imgli.Store.Trash.{update_images}

abbrev pub value : Option Score → ℕ
value none = 0
value (some s) = s

higher_assoc : (a b c : Option Score) → higher (higher a b) c ≡ higher a (higher b c)
higher_assoc a b c = ground arith

higher_comm : (a b : Option Score) → higher a b ≡ higher b a
higher_comm a b = ground arith

max_score-higher :
    (best : Option Score) (results : List CheckResult)
    → max_score best results ≡ higher best (max_score none results)
unfolding max_score
max_score-higher best [] = ground arith
max_score-higher best (r ∷ results) =
    rw
      (
        max_score-higher (higher best r.score) results,
        max_score-higher (higher none r.score) results,
      )
      (higher_assoc best r.score (max_score none results))

max_score-app :
    (best : Option Score) (xs ys : List CheckResult)
    → max_score best (xs ++ ys) ≡ higher (max_score best xs) (max_score none ys)
unfolding max_score
max_score-app best [] ys = max_score-higher best ys
max_score-app best (x ∷ xs) ys = max_score-app (higher best x.score) xs ys

any-app : {A : Type 0} (p : A → Bool) (xs ys : List A) → any p (xs ++ ys) ≡ (any p xs || any p ys)
unfolding any
any-app p [] ys = refl
any-app p (x ∷ xs) ys = ground (arith, any-app p xs ys)

any-perm : {A : Type 0} (p : A → Bool) {xs ys : List A} → Permᴰ xs ys → any p xs ≡ any p ys
unfolding any
any-perm p nil = refl
any-perm p (cons e h) = rw (e, any-perm p h) refl
any-perm p (swap e f) = rw (e, f) (ground arith)
any-perm p (trans g h) = any-perm p g ∙ any-perm p h

max_score-perm :
    (best : Option Score) {xs ys : List CheckResult}
    → Permᴰ xs ys
    → max_score best xs ≡ max_score best ys
unfolding max_score
max_score-perm best nil = refl
max_score-perm best (cons {b = b} e h) = rw e (max_score-perm (higher best b.score) h)
max_score-perm best (swap {a = a} {b = b} {l = l} e f) =
    rw (← e, ← f)
      (ap (λ s. max_score s l)
        (higher_assoc best a.score b.score
          ∙ ap (higher best) (higher_comm a.score b.score)
          ∙ sym (higher_assoc best b.score a.score)))
max_score-perm best (trans g h) = max_score-perm best g ∙ max_score-perm best h

-- The decision is the same for the results of the checks in any order: for every permutation of them.
pub decide-order :
    {xs ys : List CheckResult} (pol : Policy) → Permᴰ xs ys → decide xs pol ≡ decide ys pol
unfolding decide
decide-order pol h = rw (any-perm is_block h, any-perm is_review h, max_score-perm none h) refl

-- What the result of one check demands of the decision.
abbrev pub IsHeard : Decision → CheckResult → Type 0
IsHeard d r =
    (is_block r ≡ true → d.status ≡ rejected)
    × (is_review r ≡ true → d.flagged ≡ true)
    × (value r.score ≤ value d.score)

scores_heard :
    (best : Option Score) (results : List CheckResult)
    → (value best ≤ value (max_score best results))
      × All (λ r. value r.score ≤ value (max_score best results)) results
unfolding max_score
scores_heard best [] = (omega arith, tt)
scores_heard best (r ∷ results) =
    let (le, rest) = scores_heard (higher best r.score) results in
    (ground arith, (ground arith, rest))

any-All : {A : Type 0} (p : A → Bool) (xs : List A) → All (λ x. p x ≡ true → any p xs ≡ true) xs
unfolding any
any-All p [] = tt
any-All p (x ∷ xs) = (λ h. ground arith, All-map xs (λ y f h. ground (arith, f h)) (any-All p xs))

-- The decision hears every checker: one block has the image rejected, one review keeps it from
-- passing, and the recorded score is no less than any of theirs; and it flags nothing that no checker
-- asked for.
pub decide-worst :
    (results : List CheckResult) (action : Action)
    → All (IsHeard (decide results (policy_from_config action))) results
      × ((decide results (policy_from_config action)).flagged
          ≡ (any is_block results || any is_review results))
      × ((decide results (policy_from_config action)).flagged
          ≡ not (is_normal (decide results (policy_from_config action)).status))
unfolding decide policy_from_config
decide-worst results action =
    let blocks = any-All is_block results in
    let reviews = any-All is_review results in
    let scores = (scores_heard none results).1 in
    (
      All-map results
          (λ r facts. (
            λ h. ground (arith, facts.0 h),
            λ h. ground (arith, facts.1.0 h),
            ground (arith, facts.1.1),
          ))
          (All-both _ _ results blocks (All-both _ _ results reviews scores)),
      ground arith,
      ground arith,
    )

-- A check that fails, as the pipeline sees it.
abbrev pub fails : Image → File → Checker → Bool
fails img file c = elim (c.check_image img file) [ ok r ↦ false | err e ↦ true ]

run_each-review :
    (single : Bool) (img : Image) (file : File) (cs : List Checker)
    → (results : List CheckResult) × (run_each single to_review img file cs ≡ ok results)
      × (length results ≡ length cs)
      × (any (fails img file) cs ≡ true → any is_review results ≡ true)
unfolding run_each any
run_each-review single img file [] = ([], refl, refl, λ h. h)
run_each-review single img file (c ∷ cs) =
    let (rest, ran, long, heard) = run_each-review single img file cs in
    elim (Outcome-cases (c.check_image img file)) [
      | inl (r, e) ↦ (
        filled c.name r ∷ rest,
        rw (e, run_each, ran) refl,
        ground arith,
        λ h. ground (arith, heard),
      )
      | inr (x, e) ↦
          (failed_check c.name ∷ rest, rw (e, run_each, ran) refl, ground arith, λ h. refl)
    ]

-- Where failures go to review, the pipeline always gives one result for each checker, and an image of
-- which one check failed never passes.
pub pipeline-review :
    (img : Image) (file : File) (cs : List Checker) (action : Action)
    → (results : List CheckResult) × (run_pipeline to_review img file cs ≡ ok results)
      × (length results ≡ length cs)
      × (any (fails img file) cs ≡ true
          → is_normal (decide results (policy_from_config action)).status ≡ false)
unfolding run_pipeline
pipeline-review img file cs action =
    let (results, ran, long, heard) = run_each-review (is_single cs) img file cs in
    let facts = decide-worst results action in
    (results, ran, long, λ h. ground (arith, heard h, facts.1, facts.2))

found-any :
    (p : Image → Bool) (j : ℕ) (xs : List Image) {y : Image}
    → find_id image_key j xs ≡ some y
    → p y ≡ true
    → any p xs ≡ true
unfolding find_id any
found-any p j [] f h = absurd (ground arith)
found-any p j (x ∷ xs) {y = y} f h = ground (arith, found-any p j xs {y = y})

-- Recording a score leaves a row as it was but for the score, and other rows altogether.
scored_row :
    (id : ℕ) (score : Option Score) (db : Db) (j : ℕ) (row : Image)
    → find_image j db ≡ some row
    → (after : Image) × (find_image j (record_score id score db) ≡ some after)
      × (after ≡ record row { status = after.status; nsfw_score = after.nsfw_score })
      × (after.status ≡ row.status)
      × ((row.id == id) ≡ false → after ≡ row)
unfolding record_score update_images
scored_row id none db j row found = (row, found, refl, refl, λ h. refl)
scored_row id (some s) db j row found =
    let p = λ (i : Image). i.id == id && is_live i in
    let kept = find_id-updated p (rescored s) image_key j db.images {y = row} (λ i. refl) found in
    elim (Bool-cases (p row)) [
      | inl e ↦ (rescored s row, rw e at kept, refl, refl, λ h. absurd (ground arith))
      | inr e ↦ (row, rw e at kept, refl, refl, λ h. refl)
    ]

conclude-rows :
    (cfg : Config) (img : Image) (results : List CheckResult) (db : Db) (j : ℕ) (row : Image)
    → find_image j db ≡ some row
    → (after : Image) × (find_image j (conclude cfg img results db).db ≡ some after)
      × (after ≡ record row { status = after.status; nsfw_score = after.nsfw_score })
      × ((row.id == img.id) ≡ false → after ≡ row)
      × ((after.status ≡ row.status)
          ⊎ ((row.status ≡ normal)
              × (row.is_whitelisted ≡ false)
              × (is_live row ≡ true)
              × (after.status ≡ (decide results (policy_from_config cfg.action)).status)
              × (is_normal after.status ≡ false)
              × ((conclude cfg img results db).audited ≡ true)))
unfolding conclude apply_status_decision update_images
conclude-rows cfg img results db j row found =
    let dec = decide results (policy_from_config cfg.action) in
    let worst = decide-worst results cfg.action in
    let scored = record_score img.id dec.score db in
    let (row1, there, same, unmoved, other) = scored_row img.id dec.score db j row found in
    let p = open_to_decision img.id in
    let kept =
      find_id-updated p (restatus dec.status) image_key j scored.images {y = row1} (λ i. refl)
        there in
    elim (Bool-cases dec.flagged) [
      | inr e ↦ (row1, rw (e, conclude) there, same, other, inl unmoved)
      | inl e ↦ elim (Bool-cases (p row1)) [
        | inr c ↦
            let left : find_image j (apply_status_decision img.id dec.status scored).1 ≡ some row1 =
              rw c at kept in
            elim (Bool-cases (apply_status_decision img.id dec.status scored).0) [
              | inl a ↦ (row1, rw (e, a, conclude) left, same, other, inl unmoved)
              | inr a ↦ (row1, rw (e, a, conclude) left, same, other, inl unmoved)
            ]
        | inl c ↦
            let chosen : (apply_status_decision img.id dec.status scored).0 ≡ true =
              found-any p j scored.images {y = row1} there c in
            let left : find_image j (apply_status_decision img.id dec.status scored).1
                ≡ some (restatus dec.status row1) =
              rw c at kept in
            (
              restatus dec.status row1,
              rw (e, chosen, conclude) left,
              ap (restatus dec.status) same,
              λ h. absurd (ground (arith, same)),
              inr (
                sym unmoved ∙ ground (arith, c),
                ap (λ (i : Image). i.is_whitelisted) (sym same) ∙ ground (arith, c),
                ap is_live (sym same) ∙ ground (arith, c),
                refl,
                ground (arith, worst.2, e),
                rw (e, chosen, conclude) refl,
              ),
            )
      ]
    ]

any-update_where :
    (p q : Image → Bool) (g : Image → Image) (xs : List Image)
    → ((i : Image) → p (g i) ≡ p i)
    → any p (update_where q g xs) ≡ any p xs
unfolding any update_where
any-update_where p q g [] h = refl
any-update_where p q g (x ∷ xs) h = ground (arith, h x, any-update_where p q g xs h)

scored_open :
    (id : ℕ) (score : Option Score) (db : Db)
    → any (open_to_decision id) (record_score id score db).images
      ≡ any (open_to_decision id) db.images
unfolding record_score update_images
scored_open id none db = refl
scored_open id (some s) db =
    any-update_where (open_to_decision id) (λ i. i.id == id && is_live i) (rescored s) db.images
      (λ i. refl)

conclude-audited :
    (cfg : Config) (img : Image) (results : List CheckResult) (db : Db)
    → (conclude cfg img results db).audited ≡ (
        (decide results (policy_from_config cfg.action)).flagged
        && any (open_to_decision img.id) db.images)
unfolding conclude apply_status_decision update_images
conclude-audited cfg img results db =
    let dec = decide results (policy_from_config cfg.action) in
    let scored = record_score img.id dec.score db in
    let same = scored_open img.id dec.score db in
    elim (Bool-cases dec.flagged) [
      | inr e ↦ rw (e, conclude) refl
      | inl e ↦ elim (Bool-cases (any (open_to_decision img.id) scored.images)) [
        | inl a ↦ rw (e, ← same, a, conclude) refl
        | inr a ↦ rw (e, ← same, a, conclude) refl
      ]
    ]

-- The task changes no image but its own, and of that one only the score, and the status where it is
-- still normal, the image is not whitelisted and not in the trash, and the decision flags it, whatever
-- was done to the tables while the checkers ran. An audit row is written exactly if the decision
-- flags the image and the tables have a row of it that is open to the decision.
pub conclude-guards :
    (cfg : Config) (img : Image) (results : List CheckResult) (db : Db) (j : ℕ) (row : Image)
    → find_image j db ≡ some row
    → (after : Image) × (find_image j (conclude cfg img results db).db ≡ some after)
      × (after ≡ record row { status = after.status; nsfw_score = after.nsfw_score })
      × ((row.id == img.id) ≡ false → after ≡ row)
      × ((after.status ≡ row.status)
          ⊎ ((row.status ≡ normal)
              × (row.is_whitelisted ≡ false)
              × (is_live row ≡ true)
              × (after.status ≡ (decide results (policy_from_config cfg.action)).status)
              × (is_normal after.status ≡ false)
              × ((conclude cfg img results db).audited ≡ true)))
      × ((conclude cfg img results db).audited ≡ (
          (decide results (policy_from_config cfg.action)).flagged
          && any (open_to_decision img.id) db.images))
conclude-guards cfg img results db j row found =
    let (after, there, same, other, either) = conclude-rows cfg img results db j row found in
    (after, there, same, other, either, conclude-audited cfg img results db)
