-- ===== src/Store/Examples.antt =====
-- The theorems of the image store on a site of one user, who uploads the same bytes twice.
use imgli.Common.{
  ℕ, ◌≡◌, refl, ◌⊎◌, ◌<◌, ◌≤◌, ◌+◌, true, false, Option, none, some, List, [], ◌∷◌, String, arith,
  is_some, any, keep, first, update_where,
}
use imgli.Common.Int.{pos, ◌≤ℤ◌, ◌<ℤ◌}
use imgli.Common.Outcome.{ok}
use imgli.Table.{find_id, update_id, insert}
use imgli.Model.{User, File, Image, Time, public, normal}
use imgli.Store.{
  Db, find_image, find_file, find_user, has_room, add_used_storage, unique_key_within,
}
use imgli.Store.Uploads.{Upload, commit_upload, find_existing, commit_new, commit_instant}
use imgli.Store.Trash.{PhysicalDelete, soft_delete, purge_one, purge_permanent}
use imgli.Store.Invariant.{IsConsistent, refs, used_of}
use imgli.Store.Charge.{charge_of}
use imgli.Store.QuotaLaws.{upload_respects_quota}
use imgli.Store.ModerateLaws.{upload_inherits, severity}
use imgli.Store.Reuse.{save_upload}
use imgli.Store.ReuseLaws.{again, SameRows, save_upload-again}
use imgli.Store.PurgeSafety.{purge_one-safe}
use imgli.Store.PurgeLaws.{Agrees}
use imgli.Store.Reach.{Reach, start_with, HasNothing, Reach-IsConsistent}
use imgli.Store.Reach.Step.{uploaded, joined, deleted, purged}
use imgli.Store.Reach.Reach.{here, next}

abbrev users_with : ℕ → List User
users_with used =
    record {
      id = 1;
      group_id = 1;
      used_storage = used;
      bandwidth_used_month = pos 0;
      bandwidth_period = "";
    }
    ∷ []

abbrev pub file_with : ℕ → File
file_with refs = record {
  id = 1;
  hash = "abc";
  surface = public;
  storage_policy_id = 1;
  path = "a/b.png";
  size = 40;
  ref_count = refs;
}

abbrev pub picture : ℕ → String → Option Time → Image
picture id key deleted_at = record {
  id = id;
  key = key;
  slug = none;
  user_id = some 1;
  file_id = 1;
  album_id = none;
  name = "b.png";
  visibility = public;
  status = normal;
  is_whitelisted = false;
  nsfw_score = none;
  expires_at = none;
  max_views = pos 0;
  views_served = 0;
  access_password_hash = "";
  created_at = 5;
  deleted_at = deleted_at;
}

-- The same bytes with a view limit of five: another image.
abbrev second_picture : Image
second_picture = record (picture 2 "k2" none) { max_views = pos 5 }

abbrev upload_as : String → Upload
upload_as key = record {
  user = some 1;
  visibility = "public";
  hash = "abc";
  size = 40;
  policy_id = 1;
  path = "a/b.png";
  filename = "b.png";
  album_id = none;
  expires_at = none;
  max_views = pos 0;
  access_password_hash = "";
  storage_quota = pos 100;
  keys = key ∷ [];
  now = 5;
}

abbrev second_upload_as : Upload
second_upload_as = record (upload_as "k2") { max_views = pos 5 }

-- One upload; two; two of which the first is in the trash; that one purged.
abbrev pub one : Db
one = record {
  users = users_with 40;
  files = file_with 1 ∷ [];
  images = picture 1 "k1" none ∷ [];
  next_file = 2;
  next_image = 2;
}

abbrev two : Db
two = record {
  users = users_with 80;
  files = file_with 2 ∷ [];
  images = picture 1 "k1" none ∷ second_picture ∷ [];
  next_file = 2;
  next_image = 3;
}

abbrev trashed : Db
trashed = record two { images = picture 1 "k1" (some 9) ∷ second_picture ∷ [] }

abbrev cleared : Db
cleared = record two {
  users = users_with 40;
  files = file_with 1 ∷ [];
  images = second_picture ∷ [];
}

pub content : String → ℕ
content hash = 40

first_upload : commit_upload (upload_as "k1") (start_with (users_with 0)) ≡ ok one
unfolding commit_upload imgli.Store.Uploads.find_existing first imgli.Store.Uploads.commit_new
    unique_key_within any imgli.Store.Uploads.create_file imgli.Store.Uploads.charge_user
    add_used_storage has_room find_id imgli.Store.Uploads.create_image update_id insert
    imgli.Store.Uploads.new_file imgli.Store.Uploads.new_image imgli.Store.Uploads.visibility_for
    imgli.Store.Moderate.inherit_moderation_by_hash keep
first_upload = refl

second_upload : commit_upload second_upload_as one ≡ ok two
unfolding commit_upload imgli.Store.Uploads.find_existing first imgli.Store.Uploads.visibility_for
    imgli.Store.Uploads.commit_instant unique_key_within any imgli.Store.Uploads.bump_ref find_id
    imgli.Store.Uploads.create_image imgli.Store.Uploads.charge_user add_used_storage has_room
    update_id insert imgli.Store.Uploads.new_image imgli.Store.Moderate.inherit_moderation_from keep
second_upload = refl

first_deleted : soft_delete 1 "k1" 9 two ≡ ok trashed
unfolding soft_delete imgli.Store.Trash.update_images any update_where
first_deleted = refl

first_purged : purge_one (picture 1 "k1" (some 9)) trashed ≡ ok (none, cleared)
unfolding purge_one any imgli.Store.Trash.release_file find_id imgli.Store.Trash.drop_file update_id
    imgli.Store.Trash.refund_owner keep
first_purged = refl

nothing_yet : HasNothing (users_with 0)
unfolding find_id
nothing_yet uid = ground arith

first_saved : commit_new (upload_as "k1") (start_with (users_with 0)) ≡ ok one
unfolding commit_new unique_key_within any imgli.Store.Uploads.create_file
    imgli.Store.Uploads.charge_user add_used_storage has_room find_id
    imgli.Store.Uploads.create_image update_id insert imgli.Store.Uploads.new_file
    imgli.Store.Uploads.new_image imgli.Store.Uploads.visibility_for
    imgli.Store.Moderate.inherit_moderation_by_hash keep
first_saved = refl

second_found : find_existing second_upload_as one ≡ some (file_with 1)
unfolding find_existing first imgli.Store.Uploads.visibility_for
second_found = refl

second_saved : commit_instant second_upload_as 1 one ≡ ok two
unfolding commit_instant unique_key_within any imgli.Store.Uploads.bump_ref find_id
    imgli.Store.Uploads.create_image imgli.Store.Uploads.charge_user add_used_storage has_room
    update_id insert imgli.Store.Uploads.new_image imgli.Store.Uploads.visibility_for
    imgli.Store.Moderate.inherit_moderation_from keep
second_saved = refl

history_to_trashed : Reach content (start_with (users_with 0)) trashed
unfolding content find_id
history_to_trashed =
    next
      (next (next here (uploaded (upload_as "k1") refl first_saved)) (
        joined second_upload_as one (file_with 1) (file_with 1) refl second_found refl refl refl
          second_saved))
      (deleted 1 "k1" 9 first_deleted)

same_row : (row : Image) → find_image 1 trashed ≡ some row → Agrees (picture 1 "k1" (some 9)) row
unfolding find_id
same_row row e = (cc, cc)

history : Reach content (start_with (users_with 0)) cleared
history = next history_to_trashed (purged (picture 1 "k1" (some 9)) none same_row first_purged)

Reach-IsConsistent_example : IsConsistent content cleared
Reach-IsConsistent_example = Reach-IsConsistent content (users_with 0) nothing_yet history

pub one-IsConsistent : IsConsistent content one
unfolding content
one-IsConsistent =
    Reach-IsConsistent content (users_with 0) nothing_yet
      (next here (uploaded (upload_as "k1") refl first_saved))

upload_respects_quota_example :
    ((uid : ℕ)
      → used_of (find_user uid two) ≡ used_of (find_user uid one) + charge_of second_upload_as uid)
    × ((uid : ℕ)
        → second_upload_as.user ≡ some uid
        → pos 0 <ℤ pos 100
        → pos (used_of (find_user uid two)) ≤ℤ pos 100)
upload_respects_quota_example = upload_respects_quota second_upload_as one two second_upload

upload_inherits_example :
    (img : Image) × (find_image 2 two ≡ some img) × (severity normal ≤ severity img.status)
unfolding find_id imgli.Store.Uploads.find_existing imgli.Store.Uploads.visibility_for
upload_inherits_example =
    upload_inherits second_upload_as one two one-IsConsistent second_upload 1 (picture 1 "k1" none)
      refl refl

purge_one-safe_example :
    (r : Option PhysicalDelete × Db) × (purge_one (picture 1 "k1" (some 9)) trashed ≡ ok r)
    × (is_some r.0 ≡ true → (refs 1 r.1.images ≡ 0) × (find_file 1 r.1 ≡ none))
    × (is_some r.0 ≡ false
        → (r.1 ≡ trashed) ⊎ ((0 < refs 1 r.1.images) × (is_some (find_file 1 r.1) ≡ true)))
purge_one-safe_example =
    purge_one-safe content (picture 1 "k1" (some 9)) trashed
      (Reach-IsConsistent content (users_with 0) nothing_yet history_to_trashed) same_row

save_upload-again_example :
    (second : Db) × (save_upload (again (upload_as "k1") ("k3" ∷ []) 70 none) one ≡ ok second)
    × SameRows second one
save_upload-again_example =
    save_upload-again (upload_as "k1") 1 (start_with (users_with 0)) one refl ("k3" ∷ []) 70 none tt
      first_upload
