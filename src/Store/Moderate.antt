-- ===== src/Store/Moderate.antt =====
-- The moderation verdict that an upload inherits from earlier images of the same bytes:
-- inheritModerationFrom and inheritModerationByHash of internal/service/upload/instant.go.
use imgli.Common.{
  ℕ, Bool, ◌&&◌, not, Option, none, some, List, [], ◌∷◌, String, str_eq, ltb, ◌==◌, is_some,
  if◌then◌else◌, any, keep,
}
use imgli.Model.{Image, Status, normal, pending, rejected, Score}
use imgli.Store.{Db}

pub record Verdict : Type 0 where
  pub status : Status
  pub score : Option Score

unfoldable pub merge_status : Status → Status → Status
merge_status acc rejected = rejected
merge_status rejected pending = rejected
merge_status normal pending = pending
merge_status pending pending = pending
merge_status acc normal = acc

unfoldable pub merge_score : Option Score → Option Score → Option Score
merge_score acc none = acc
merge_score none (some s) = some s
merge_score (some a) (some s) = if ltb a s then some s else some a

-- The loop over the siblings.
unfoldable pub merge_siblings : Verdict → List Image → Verdict
unfolding merge_status merge_score
merge_siblings v [] = v
merge_siblings v (sib ∷ siblings) =
    merge_siblings
      (record {
        status = merge_status v.status sib.status;
        score = merge_score v.score sib.nsfw_score;
      })
      siblings

abbrev pub no_verdict : Verdict
no_verdict = record { status = normal; score = none }

-- GORM's default scope leaves the soft-deleted rows out.
abbrev pub is_live : Image → Bool
is_live i = not (is_some i.deleted_at)

unfoldable pub inherit_moderation_from : ℕ → Db → Verdict
unfolding merge_siblings
inherit_moderation_from fid db =
    merge_siblings no_verdict (keep (λ i. i.file_id == fid && is_live i) db.images)

-- file_id IN (the ids of the files with the hash)
abbrev pub has_hash : String → Db → Image → Bool
has_hash hash db i = any (λ f. str_eq f.hash hash && f.id == i.file_id) db.files

unfoldable pub inherit_moderation_by_hash : String → Db → Verdict
unfolding merge_siblings
inherit_moderation_by_hash hash db =
    merge_siblings no_verdict (keep (λ i. has_hash hash db i && is_live i) db.images)
