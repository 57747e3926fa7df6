-- ===== src/Store/QuotaLaws.antt =====
-- On the charge of an upload: addUsedStorage at the end of both transactions of
-- internal/service/upload.
use mathlib.Core.Path.{subst}
use imgli.Common.{ℕ, ◌+◌, ◌≡◌, refl, inl, inr, true, Option, some, arith, ap, ==_refl, Option-cases}
use imgli.Common.Int.{ℤ, pos, ◌≤ℤ◌, ◌<ℤ◌}
use imgli.Common.Outcome.{ok, >>=-eq-ok}
use imgli.Table.{find_id}
use imgli.Model.{User}
use imgli.Store.{user_key, Db, find_user, has_room, add_used_storage, unique_key}
use imgli.Store.Moderate.{inherit_moderation_from}
use imgli.Store.Uploads.{
  Upload, new_image, new_file, create_file, create_image, charge_user, commit_new, bump_ref,
  commit_instant, commit_upload, find_existing,
}
use imgli.Store.Invariant.{used_of}
use imgli.Store.Charge.{charge_of, charge_user-IsCharge}
use imgli.Store.UploadLaws.{bump_ref-shape}

-- Both ways of an upload end in the charge, and neither touched a user before it.
charged_last :
    (up : Upload) (db db' : Db)
    → commit_upload up db ≡ ok db'
    → (before : Db) × (before.users ≡ db.users) × (charge_user up before ≡ ok db')
unfolding commit_upload
charged_last up db db' h = elim (Option-cases (find_existing up db)) [
  | inl e ↦ new (ground arith)
  | inr (f, e) ↦ instant f.id (ground arith)
]
  where
    new :
        commit_new up db ≡ ok db'
        → (before : Db) × (before.users ≡ db.users) × (charge_user up before ≡ ok db')
    new e =
        unfold commit_new create_image create_file in
        let (key, drawn, paid) =
          >>=-eq-ok (unique_key up.keys (create_file (new_file up) db)) _ e in
        (_, refl, paid)

    instant :
        (fid : ℕ)
        → commit_instant up fid db ≡ ok db'
        → (before : Db) × (before.users ≡ db.users) × (charge_user up before ≡ ok db')
    instant fid e =
        unfold commit_instant create_image in
        let (key, drawn, rest) = >>=-eq-ok (unique_key up.keys db) _ e in
        let (after, bumped, paid) =
          >>=-eq-ok
            (bump_ref fid
              (create_image (λ id. new_image up (inherit_moderation_from fid db) id fid key) db))
            _ rest in
        (
          after,
          ap (λ d. d.users)
              (bump_ref-shape fid
                (create_image (λ id. new_image up (inherit_moderation_from fid db) id fid key) db)
                bumped),
          paid,
        )

has_room-sound :
    (size : ℕ) (quota : ℤ) (u : Option User)
    → has_room size quota u ≡ true
    → pos 0 <ℤ quota
    → pos (used_of u + size) ≤ℤ quota
unfolding has_room
has_room-sound size quota u h p = ground arith

charged_room :
    (up : Upload) (uid : ℕ) (db db' : Db)
    → up.user ≡ some uid
    → charge_user up db ≡ ok db'
    → has_room up.size up.storage_quota (find_user uid db) ≡ true
unfolding charge_user add_used_storage
charged_room up uid db db' u h = ground arith

-- A committed upload adds its size to its uploader's used_storage and to nobody else's; when the
-- uploader's quota is positive, the new total is within it. A guest's upload charges nobody.
pub upload_respects_quota :
    (up : Upload) (db db' : Db)
    → commit_upload up db ≡ ok db'
    → ((uid : ℕ) → used_of (find_user uid db') ≡ used_of (find_user uid db) + charge_of up uid)
      × ((uid : ℕ)
          → up.user ≡ some uid
          → pos 0 <ℤ up.storage_quota
          → pos (used_of (find_user uid db')) ≤ℤ up.storage_quota)
upload_respects_quota up db db' h =
    let (before, same, paid) = charged_last up db db' h in
    let used : (uid : ℕ)
        → used_of (find_user uid db') ≡ used_of (find_user uid db) + charge_of up uid =
      λ uid.
        subst
          (λ us. used_of (find_user uid db') ≡ used_of (find_id user_key uid us) + charge_of up uid)
          same ((charge_user-IsCharge up before paid).used uid) in
    (
      used,
      λ uid u p.
          let room =
            has_room-sound up.size up.storage_quota (find_user uid before)
              (charged_room up uid before db' u paid) p in
          ground (arith, (charge_user-IsCharge up before paid).used uid, ==_refl uid, room, u),
    )
