-- ===== src/Serve/Examples.antt =====
-- The direct links on a site with one public image that may be seen twice.
use Prim.Native.Nat.{min}
use imgli.Common.{
  ℕ, ◌+◌, ◌-◌, ◌≡◌, refl, ◌↔◌, true, false, none, some, [], ◌∷◌, arith, first, any, sum_of,
}
use imgli.Common.Int.{pos, ◌≤ℤ◌, ◌<ℤ◌}
use imgli.Common.Outcome.{ok, err}
use imgli.Table.{find_id, rows_with}
use imgli.Model.{User, UserGroup, Image, public, normal}
use imgli.Bandwidth.{exceeded, account_key, check, Snapshot, snapshot_for}
use imgli.Bandwidth.Laws.{used_in, add_all, add_all-total, check-exceeded_iff}
use imgli.Store.{Db, find_file}
use imgli.Serve.{
  Access, Gatekeeper, Delivery, authorize, claim_view, original, lookup, Response, views_used_up,
}
use imgli.Serve.Thumbnail.{Thumbnails, sized, thumbnail, sent, IsSent, thumbnail-sends}
use imgli.Serve.Gate.{MayPass, authorize_iff}
use imgli.Serve.Views.{claim_all, IsLimited, claim_all-exact}
use imgli.Serve.Delivered.{is_delivery, IsNamed, WentBy, original-delivers, original-exhausted}

abbrev member : User
member = record {
  id = 1;
  group_id = 1;
  used_storage = 40;
  bandwidth_used_month = pos 60;
  bandwidth_period = "2026-10";
}

abbrev members : UserGroup
members = record {
  id = 1;
  is_default = true;
  is_guest = false;
  storage_quota = pos 0;
  max_file_size = pos 0;
  bandwidth_quota_month = pos 100;
  rate_per_minute = pos 0;
  rate_per_hour = pos 0;
  rate_per_day = pos 0;
  default_expires_in = pos 0;
  max_expires_in = pos 0;
  default_max_views = pos 0;
  max_max_views = pos 0;
  retention_days = pos 0;
  force_max_age_days = pos 0;
}

abbrev seen : ℕ → Image
seen views = record {
  id = 1;
  key = "k1";
  slug = none;
  user_id = some 1;
  file_id = 1;
  album_id = none;
  name = "b.png";
  visibility = public;
  status = normal;
  is_whitelisted = false;
  nsfw_score = none;
  expires_at = none;
  max_views = pos 2;
  views_served = views;
  access_password_hash = "";
  created_at = 5;
  deleted_at = none;
}

abbrev site : ℕ → Db
site views = record {
  users = member ∷ [];
  files =
      record {
        id = 1;
        hash = "abc";
        surface = public;
        storage_policy_id = 1;
        path = "a/b.png";
        size = 40;
        ref_count = 1;
      }
      ∷ [];
  images = seen views ∷ [];
  next_file = 2;
  next_image = 2;
}

abbrev gate : Gatekeeper
gate = record { hotlinking = none; own_host = []; groups = members ∷ [] }

abbrev visitor : Access
visitor = record { is_owner = false; is_admin = false; password_ok = true; referer_host = [] }

abbrev administrator : Access
administrator = record visitor { is_admin = true }

abbrev drivers : Delivery
drivers = record {
  policy_exists = λ id. true;
  cdn_url = λ file. true;
  presigned = λ file. false;
  stream = λ file. some file.size;
}

row-IsLimited : (views : ℕ) → IsLimited (seen views) 2 views (site views)
unfolding find_id rows_with
row-IsLimited views = record {
  row = seen views;
  there = refl;
  live = refl;
  limited = refl;
  used = refl;
  only = omega arith;
}

claim_all-exact_example :
    ((claim_all 5 (seen 1) (site 1)).0 ≡ min 5 (2 - 1))
    × IsLimited (seen 1) 2 (1 + min 5 (2 - 1)) (claim_all 5 (seen 1) (site 1)).1
claim_all-exact_example =
    claim_all-exact (seen 1) 2 refl (omega arith) 5 1 (site 1) (row-IsLimited 1) (omega arith)

authorize_iff_example :
    (authorize gate visitor 9 "2026-11" (seen 1) (site 1) ≡ none)
    ↔ MayPass gate visitor 9 "2026-11" (seen 1) (site 1)
authorize_iff_example = authorize_iff gate visitor 9 "2026-11" (seen 1) (site 1)

delivered : is_delivery (original drivers gate visitor 9 "2026-11" "k1" (site 1)).0 ≡ true
unfolding original lookup imgli.Serve.find first authorize imgli.Serve.authorize_traffic check
    imgli.Bandwidth.check_row find_id imgli.Bandwidth.effective_used imgli.Serve.serve_image
    claim_view imgli.Store.Trash.update_images any imgli.Serve.deliver
delivered = refl

original-delivers_example :
    (img : Image) × IsNamed "k1" img
    × MayPass gate visitor 9 "2026-11" img (site 1)
    × WentBy visitor img (site 1) (original drivers gate visitor 9 "2026-11" "k1" (site 1))
original-delivers_example =
    original-delivers drivers gate visitor 9 "2026-11" "k1" (site 1) delivered

exhausted_found : (imgli.Serve.find "k1" (site 2)).0 ≡ some (seen 2)
unfolding imgli.Serve.find first
exhausted_found = refl

original-exhausted_example :
    (is_delivery (original drivers gate administrator 9 "2026-11" "k1" (site 2)).0 ≡ false)
    × (authorize gate administrator 9 "2026-11" (seen 2) (site 2) ≡ none
        → (original drivers gate administrator 9 "2026-11" "k1" (site 2)).0 ≡ views_used_up)
original-exhausted_example =
    original-exhausted drivers gate administrator 9 "2026-11" "k1" (site 2) 2 2 exhausted_found refl
      (omega arith) (omega arith) (row-IsLimited 2) refl

member_found : find_id account_key 1 (member ∷ []) ≡ some member
unfolding find_id
member_found = refl

add_all-total_example :
    (k : ℕ) × (used_in 1 "2026-10" (member ∷ []) ≡ pos k)
    × (used_in 1 "2026-10" (add_all 1 "2026-10" (7 ∷ 8 ∷ []) (member ∷ []))
        ≡ pos (k + sum_of (λ n. n) (7 ∷ 8 ∷ [])))
add_all-total_example =
    add_all-total 1 "2026-10" (7 ∷ 8 ∷ []) (member ∷ []) member refl member_found (omega arith)

check-exceeded_iff_example : (check 1 "2026-10" (member ∷ []) (members ∷ []) ≡ err exceeded) ↔ (
    (s : Snapshot) × (snapshot_for 1 "2026-10" (member ∷ []) (members ∷ []) ≡ ok s)
    × (pos 0 <ℤ s.quota)
    × (s.quota ≤ℤ s.used))
check-exceeded_iff_example = check-exceeded_iff 1 "2026-10" (member ∷ []) (members ∷ [])

abbrev thumbs : Thumbnails
thumbs = record {
  policy_exists = λ id. true;
  thumb = λ file cacheable. some 8;
  width_thumb = λ file n cacheable. some 9;
}

thumb_sent :
    (thumbnail thumbs gate visitor 9 "2026-11" "k1" (sized (pos 200)) (site 1)).0 ≡ sent 9 false
unfolding thumbnail lookup imgli.Serve.find first authorize imgli.Serve.authorize_traffic check
    imgli.Bandwidth.check_row find_id imgli.Bandwidth.effective_used
    imgli.Serve.Thumbnail.send_thumb imgli.Serve.Thumbnail.thumb_width_allowed any
    imgli.Serve.Thumbnail.metered_thumb
thumb_sent = refl

thumbnail-sends_example :
    (img : Image) × IsNamed "k1" img
    × MayPass gate visitor 9 "2026-11" img (site 1)
    × IsSent
        (sized (pos 200))
        img
        (site 1)
        9
        false
        (thumbnail thumbs gate visitor 9 "2026-11" "k1" (sized (pos 200)) (site 1)).1
thumbnail-sends_example =
    thumbnail-sends thumbs gate visitor 9 "2026-11" "k1" (sized (pos 200)) (site 1) thumb_sent
