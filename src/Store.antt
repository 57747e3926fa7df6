-- ===== src/Store.antt =====
-- The image store: the rows of users, files and images that uploads, the trash, purges and changes
-- of visibility share (internal/service/upload, internal/service/imagesvc). A transaction is a
-- function from the store to an outcome: an error carries no store, which is the rollback.
pub mod Moderate
pub mod Uploads
pub mod Trash
pub mod Rehome
pub mod Invariant
pub mod Charge
pub mod NewLaws
pub mod UploadLaws
pub mod DropLaws
pub mod PurgeLaws
pub mod PurgeSafety
pub mod TrashLaws
pub mod LoopLaws
pub mod ExpiryLaws
pub mod ResolveLaws
pub mod MoveLaws
pub mod RehomeLaws
pub mod QuotaLaws
pub mod ModerateLaws
pub mod Reuse
pub mod ReuseLaws
pub mod Edit
pub mod EditWrite
pub mod EditLaws
pub mod EditAccess
pub mod EditExamples
pub mod Lifecycle
pub mod SweepLaws
pub mod EraseLaws
pub mod ClampLaws
pub mod Reach
pub mod Examples
pub mod LifecycleExamples
use imgli.Common.{
  ℕ, suc, zero, ◌+◌, ◌-◌, Bool, true, false, ◌&&◌, Option, none, some, List, [], ◌∷◌, String,
  str_eq, leb, if◌then◌else◌, any,
}
use imgli.Common.Int.{ℤ, pos, pos_part, neg_part, ltb_ℤ, leb_ℤ}
use imgli.Common.Outcome.{Outcome, ok, err}
use imgli.Table.{find_id, update_id}
use imgli.Model.{User, File, Image}

pub record Db : Type 0 where
  pub users : List User
  pub files : List File
  pub images : List Image
  pub next_file : ℕ
  pub next_image : ℕ

pub data StoreError : Type 0 where
  record_not_found quota_exceeded no_unique_key not_found rehome_conflict still_live : StoreError

abbrev pub user_key : User → ℕ
user_key u = u.id

abbrev pub file_key : File → ℕ
file_key f = f.id

abbrev pub image_key : Image → ℕ
image_key i = i.id

abbrev pub find_user : ℕ → Db → Option User
find_user i db = find_id user_key i db.users

abbrev pub find_file : ℕ → Db → Option File
find_file i db = find_id file_key i db.files

abbrev pub find_image : ℕ → Db → Option Image
find_image i db = find_id image_key i db.images

abbrev pub charge : ℕ → User → User
charge size u = record u { used_storage = u.used_storage + size }

-- The `WHERE` of the conditional update: the row exists and, with a quota, has room.
unfoldable pub has_room : ℕ → ℤ → Option User → Bool
has_room size quota none = false
has_room size quota (some u) =
    if ltb_ℤ (pos 0) quota then leb_ℤ (pos (u.used_storage + size)) quota else true

abbrev missing_or_full : Option User → StoreError
missing_or_full none = record_not_found
missing_or_full (some u) = quota_exceeded

unfoldable pub add_used_storage : ℕ → ℕ → ℤ → Db → Outcome StoreError Db
add_used_storage uid size quota db =
    if has_room size quota (find_user uid db)
    then ok (record db { users = update_id user_key uid (charge size) db.users })
    else err (missing_or_full (find_user uid db))

-- uniqueKey: the first of five random keys that no image has, soft-deleted ones included. The
-- random source is the list of keys that it would draw.
unfoldable pub unique_key_within : ℕ → List String → Db → Outcome StoreError String
unique_key_within zero keys db = err no_unique_key
unique_key_within (suc n) [] db = err no_unique_key
unique_key_within (suc n) (key ∷ keys) db =
    let rest = unique_key_within n keys db in
    if any (λ i. str_eq i.key key) db.images then rest else ok key

abbrev pub unique_key : List String → Db → Outcome StoreError String
unique_key = unique_key_within 5
