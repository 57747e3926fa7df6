-- ===== src/Store/LifecycleExamples.antt =====
-- A user with one image: a group's cap reaches the image, and then the user is deleted.
use imgli.Common.{
  ℕ, ◌⊎◌, ◌≡◌, refl, ◌+◌, ◌≤◌, true, false, none, some, List, [], ◌∷◌, any, count_of,
}
use imgli.Common.Int.{pos, leb_ℤ}
use imgli.Common.Outcome.{ok}
use imgli.Table.{find_id}
use imgli.Model.{UserGroup, Image}
use imgli.Access.{group_cap_sec, add_seconds}
use imgli.Auth.Sessions.{of_user}
use imgli.Auth.Reach.{start_with}
use imgli.Store.{Db, find_image, find_user}
use imgli.Store.Trash.{PhysicalDelete}
use imgli.Store.Invariant.{IsConsistent}
use imgli.Store.Lifecycle.{
  UserRows, of_uploader, delete_user_data, Applied, apply_lifecycle, to_clamp, batch_of,
}
use imgli.Store.EraseLaws.{delete_user_data-erases}
use imgli.Store.ClampLaws.{min_of, apply_lifecycle-clamps}
use imgli.Store.Examples.{one, content, one-IsConsistent}

abbrev hourly : UserGroup
hourly = record {
  id = 1;
  is_default = true;
  is_guest = false;
  storage_quota = pos 0;
  max_file_size = pos 0;
  bandwidth_quota_month = pos 0;
  rate_per_minute = pos 0;
  rate_per_hour = pos 0;
  rate_per_day = pos 0;
  default_expires_in = pos 0;
  max_expires_in = pos 3600;
  default_max_views = pos 0;
  max_max_views = pos 0;
  retention_days = pos 0;
  force_max_age_days = pos 0;
}

abbrev no_rows : UserRows
no_rows = record { albums = []; api_tokens = []; accounts = start_with (hourly ∷ []) }

delete_user_data-erases_example :
    (doomed : List PhysicalDelete) × (rows' : UserRows) × (db' : Db) × (delete_user_data 1 9 no_rows
        one
      ≡ ok (doomed, rows', db'))
    × IsConsistent content db'
    × (any (of_uploader 1) db'.images ≡ false)
    × (find_user 1 db' ≡ none)
    × (any (of_user 1) rows'.accounts.sessions ≡ false)
    × ((other : Image)
        → find_image other.id one ≡ some other
        → of_uploader 1 other ≡ false
        → find_image other.id db' ≡ some other)
delete_user_data-erases_example = delete_user_data-erases content 1 9 no_rows one one-IsConsistent

hourly_capped : leb_ℤ (group_cap_sec (some hourly)) (pos 0) ≡ false
unfolding group_cap_sec imgli.Access.group_cap
hourly_capped = refl

apply_lifecycle-clamps_example :
    (a : Applied) × (apply_lifecycle 1 true (pos 0) (hourly ∷ []) 9 one ≡ ok a)
    × (a.updated
          + count_of
              (to_clamp hourly (add_seconds 9 (group_cap_sec (some hourly))) a.db)
              a.db.images
        ≡ count_of (to_clamp hourly (add_seconds 9 (group_cap_sec (some hourly))) one) one.images)
    × (a.updated
        ≡ min_of (batch_of (pos 0)) (
            count_of
              (to_clamp hourly (add_seconds 9 (group_cap_sec (some hourly))) one)
              one.images))
    × (1 ≤ batch_of (pos 0))
    × (a.skipped ≡ 0)
    × ((j : ℕ) (i : Image)
        → find_image j one ≡ some i
        → to_clamp hourly (add_seconds 9 (group_cap_sec (some hourly))) one i ≡ false
        → find_image j a.db ≡ some i)
    × ((j : ℕ) (i : Image)
        → find_image j one ≡ some i
        → (find_image j a.db ≡ some i)
          ⊎ (find_image j a.db
              ≡ some
                  (record i { expires_at = some (add_seconds 9 (group_cap_sec (some hourly))) })))
unfolding find_id
apply_lifecycle-clamps_example =
    apply_lifecycle-clamps 1 (pos 0) (hourly ∷ []) 9 one hourly one-IsConsistent.images_keyed.unique
      refl hourly_capped

one_clamped :
    count_of (to_clamp hourly (add_seconds 9 (group_cap_sec (some hourly))) one) one.images ≡ 1
unfolding count_of find_id
one_clamped = refl
