-- ===== src/Store/Uploads.antt =====
-- The two ways in which an upload enters the store: the transaction of Save in
-- internal/service/upload/save.go for new bytes, and commitInstant of instant.go for bytes that a
-- file of the same surface already holds.
use imgli.Common.{
  ℕ, ◌+◌, false, Option, none, some, List, String, str_eq, is_some, if◌then◌else◌, ◌&&◌, first,
}
use imgli.Common.Int.{ℤ}
use imgli.Common.Outcome.{Outcome, ok, err, ◌>>=◌}
use imgli.Table.{update_id, insert}
use imgli.Model.{File, Image, Time, Visibility, public, private, same_visibility}
use imgli.Store.{
  Db, StoreError, record_not_found, file_key, image_key, find_file, add_used_storage, unique_key,
}
use imgli.Store.Moderate.{Verdict, inherit_moderation_from, inherit_moderation_by_hash}

-- What Save has computed when it reaches the transaction. `user` is none for a guest, `keys` are the
-- random keys that it would draw.
pub record Upload : Type 0 where
  pub user : Option ℕ
  pub visibility : String
  pub hash : String
  pub size : ℕ
  pub policy_id : ℕ
  pub path : String
  pub filename : String
  pub album_id : Option ℕ
  pub expires_at : Option Time
  pub max_views : ℤ
  pub access_password_hash : String
  pub storage_quota : ℤ
  pub keys : List String
  pub now : Time

abbrev pub norm_visibility : String → Visibility
norm_visibility v = if str_eq v "private" then private else public

-- Guests' images are public whatever the request says.
unfoldable pub visibility_for : Option ℕ → String → Visibility
visibility_for none v = public
visibility_for (some u) v = norm_visibility v

abbrev pub surface_of : Upload → Visibility
surface_of up = visibility_for up.user up.visibility

-- s.db.First(&existing, "hash = ? AND surface = ?")
unfoldable pub find_existing : Upload → Db → Option File
find_existing up db =
    first (λ f. str_eq f.hash up.hash && same_visibility f.surface (surface_of up)) db.files

unfoldable pub new_image : Upload → Verdict → ℕ → ℕ → String → Image
new_image up v id file_id key = record {
  id = id;
  key = key;
  slug = none;
  user_id = up.user;
  file_id = file_id;
  album_id = up.album_id;
  name = up.filename;
  visibility = surface_of up;
  status = v.status;
  is_whitelisted = false;
  nsfw_score = v.score;
  expires_at = up.expires_at;
  max_views = up.max_views;
  views_served = 0;
  access_password_hash = up.access_password_hash;
  created_at = up.now;
  deleted_at = none;
}

unfoldable pub new_file : Upload → ℕ → File
new_file up id = record {
  id = id;
  hash = up.hash;
  surface = surface_of up;
  storage_policy_id = up.policy_id;
  path = up.path;
  size = up.size;
  ref_count = 1;
}

-- tx.Create(file), tx.Create(img)
unfoldable pub create_file : (ℕ → File) → Db → Db
create_file make db = record db {
  files = insert file_key (make db.next_file) db.files;
  next_file = db.next_file + 1;
}

unfoldable pub create_image : (ℕ → Image) → Db → Db
create_image make db = record db {
  images = insert image_key (make db.next_image) db.images;
  next_image = db.next_image + 1;
}

-- Guests are not charged.
unfoldable pub charge_user : Upload → Db → Outcome StoreError Db
charge_user up db = elim up.user [
  | none ↦ ok db
  | some uid ↦ add_used_storage uid up.size up.storage_quota db
]

unfoldable pub commit_new : Upload → Db → Outcome StoreError Db
commit_new up db = do
  let v = inherit_moderation_by_hash up.hash db
  let with_file = create_file (new_file up) db
  key ← unique_key up.keys with_file
  charge_user up (create_image (λ id. new_image up v id db.next_file key) with_file)

abbrev pub add_ref : File → File
add_ref f = record f { ref_count = f.ref_count + 1 }

-- The conditional `ref_count + 1`: no row is changed when the file is gone, and the upload fails.
unfoldable pub bump_ref : ℕ → Db → Outcome StoreError Db
bump_ref fid db =
    if is_some (find_file fid db)
    then ok (record db { files = update_id file_key fid add_ref db.files })
    else err record_not_found

unfoldable pub commit_instant : Upload → ℕ → Db → Outcome StoreError Db
commit_instant up fid db = do
  let v = inherit_moderation_from fid db
  key ← unique_key up.keys db
  referenced ← bump_ref fid (create_image (λ id. new_image up v id fid key) db)
  charge_user up referenced

-- The branch of Save: instant where a file with the hash and surface is there, new otherwise.
unfoldable pub commit_upload : Upload → Db → Outcome StoreError Db
commit_upload up db = elim (find_existing up db) [
  | some f ↦ commit_instant up f.id db
  | none ↦ commit_new up db
]
