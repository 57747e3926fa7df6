-- ===== src/Store/Charge.antt =====
-- What an upload charges to its user: addUsedStorage of internal/service/upload/instant.go.
use imgli.Common.{
  ℕ, ◌+◌, ◌≡◌, refl, inl, inr, some, arith, ◌==◌, eq_opt, if◌then◌else◌, Option-cases,
}
use imgli.Common.Int.{ℤ}
use imgli.Common.Outcome.{ok}
use imgli.Table.{update_id}
use imgli.Table.Laws.{find_id-update}
use imgli.Store.{Db, user_key, find_user, charge, has_room, add_used_storage}
use imgli.Store.Uploads.{Upload, charge_user}
use imgli.Store.Invariant.{used_of}

-- The charge that an upload makes to a user.
abbrev pub charge_of : Upload → ℕ → ℕ
charge_of up uid = if eq_opt up.user (some uid) then up.size else 0

-- What charging changes: the counter of the uploader alone.
pub record IsCharge (up : Upload) (db db' : Db) : Type 0 where
  pub files_same : db'.files ≡ db.files
  pub images_same : db'.images ≡ db.images
  pub next_file_same : db'.next_file ≡ db.next_file
  pub next_image_same : db'.next_image ≡ db.next_image
  pub used : (uid : ℕ) → used_of (find_user uid db') ≡ used_of (find_user uid db) + charge_of up uid

pub add_used_storage-used :
    (uid size : ℕ) (quota : ℤ) (db : Db) {db' : Db}
    → add_used_storage uid size quota db ≡ ok db'
    → (db' ≡ record db { users = update_id user_key uid (charge size) db.users })
      × ((g : ℕ)
          → used_of (find_user g db') ≡ used_of (find_user g db) + (if uid == g then size else 0))
unfolding add_used_storage has_room
add_used_storage-used uid size quota db h = (
  ground arith,
  λ g. ground (arith, find_id-update user_key uid g (charge size) db.users (λ u. refl)),
)

pub charge_user-IsCharge :
    (up : Upload) (db : Db) {db' : Db} → charge_user up db ≡ ok db' → IsCharge up db db'
unfolding charge_user
charge_user-IsCharge up db {db' = db'} h = elim (Option-cases up.user) [
  | inl guest ↦ record {
    files_same = ground arith;
    images_same = ground arith;
    next_file_same = ground arith;
    next_image_same = ground arith;
    used = λ uid. ground arith;
  }
  | inr (u, e) ↦
      let charged : add_used_storage u up.size up.storage_quota db ≡ ok db' = ground arith in
      let (shape, used) = add_used_storage-used u up.size up.storage_quota db charged in
      record {
        files_same = ground arith;
        images_same = ground arith;
        next_file_same = ground arith;
        next_image_same = ground arith;
        used = λ uid. ground (arith, used uid);
      }
]
