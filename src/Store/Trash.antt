-- ===== src/Store/Trash.antt =====
-- The recycle bin: SoftDelete of internal/service/imagesvc/batch.go, Restore of trash.go, and the
-- purges of purge.go. A purge returns the physical object to delete, where the last reference to
-- it went; the caller enqueues its deletion after the transaction.
use imgli.Common.{
  ℕ, ◌+◌, ◌-◌, ◌*◌, Bool, false, not, ◌&&◌, Option, none, some, List, [], ◌∷◌, String, str_eq,
  is_some, if◌then◌else◌, any, ◌==◌, ltb, leb, eq_opt, first, keep, update_where,
}
use imgli.Common.Outcome.{Outcome, ok, err, ◌>>=◌}
use imgli.Table.{update_id}
use imgli.Model.{User, File, Image, Time, Visibility, day}
use imgli.Store.{Db, StoreError, record_not_found, not_found, user_key, file_key, find_file}
use imgli.Store.Moderate.{is_live}

-- physicalDelete: the object's path, and the surface and hash whose thumbnails go with it.
pub record PhysicalDelete : Type 0 where
  pub policy_id : ℕ
  pub path : String
  pub surface : Visibility
  pub hash : String

abbrev pub owned_by : ℕ → String → Image → Bool
owned_by uid key i = str_eq i.key key && eq_opt i.user_id (some uid)

abbrev pub in_trash : Image → Bool
in_trash i = is_some i.deleted_at

abbrev pub mark_deleted : Time → Image → Image
mark_deleted now i = record i { deleted_at = some now }

abbrev pub unmark_deleted : Image → Image
unmark_deleted i = record i { deleted_at = none }

-- A conditional UPDATE of images: whether some row was changed, and the store after it.
unfoldable pub update_images : (Image → Bool) → (Image → Image) → Db → Bool × Db
update_images p f db = (any p db.images, record db { images = update_where p f db.images })

abbrev pub changed_or_not_found : Bool × Db → Outcome StoreError Db
changed_or_not_found r = if r.0 then ok r.1 else err not_found

unfoldable pub soft_delete : ℕ → String → Time → Db → Outcome StoreError Db
soft_delete uid key now db =
    changed_or_not_found
      (update_images (λ i. owned_by uid key i && is_live i) (mark_deleted now) db)

unfoldable pub restore : ℕ → String → Db → Outcome StoreError Db
restore uid key db =
    changed_or_not_found (update_images (λ i. owned_by uid key i && in_trash i) unmark_deleted db)

-- CASE WHEN used_storage >= size THEN used_storage - size ELSE 0 END
abbrev pub refund : ℕ → User → User
refund size u = record u {
  used_storage = if leb size u.used_storage then u.used_storage - size else 0;
}

unfoldable pub refund_owner : Option ℕ → ℕ → Db → Db
refund_owner none size db = db
refund_owner (some uid) size db = record db {
  users = update_id user_key uid (refund size) db.users;
}

-- `ref_count - 1`: a counter that would fall below 0 reads 0 here, and the row goes either way.
abbrev pub drop_ref : File → File
drop_ref f = record f { ref_count = f.ref_count - 1 }

-- The row of an unreferenced file is deleted, and its object is to be deleted too.
unfoldable pub drop_file : File → Db → Option PhysicalDelete × Db
drop_file file db =
    let files = update_id file_key file.id drop_ref db.files in
    if any (λ f. f.id == file.id && leb f.ref_count 0) files
    then (
      some (record {
        policy_id = file.storage_policy_id;
        path = file.path;
        surface = file.surface;
        hash = file.hash;
      }),
      record db { files = keep (λ f. not (f.id == file.id && leb f.ref_count 0)) files },
    )
    else (none, record db { files = files })

-- What purgeOne does once the row of the image is gone.
unfoldable pub release_file : Image → Db → Outcome StoreError (Option PhysicalDelete × Db)
release_file img db = elim (find_file img.file_id db) [
  | none ↦ err record_not_found
  | some file ↦ ok (drop_file file (refund_owner img.user_id file.size db))
]

-- DELETE FROM images WHERE id = ? AND deleted_at IS NOT NULL, and the rest only if a row went.
unfoldable pub purge_one : Image → Db → Outcome StoreError (Option PhysicalDelete × Db)
purge_one img db =
    let doomed = λ (i : Image). i.id == img.id && in_trash i in
    if any doomed db.images
    then release_file img (record db { images = keep (λ i. not (doomed i)) db.images })
    else ok (none, db)

-- PurgePermanent
unfoldable pub purge_permanent : ℕ → String → Db → Outcome StoreError (Option PhysicalDelete × Db)
purge_permanent uid key db = elim (first (λ i. owned_by uid key i && in_trash i) db.images) [
  | none ↦ err not_found
  | some img ↦ purge_one img db
]

abbrev pub cons_some {ℓ} : {A : Type ℓ} → Option A → List A → List A
cons_some none xs = xs
cons_some (some x) xs = x ∷ xs

-- The loop of EmptyTrash: one transaction over all the images.
unfoldable pub purge_all : List Image → Db → Outcome StoreError (List PhysicalDelete × Db)
purge_all [] db = ok ([], db)
purge_all (img ∷ imgs) db = do
  purged ← purge_one img db
  rest ← purge_all imgs purged.1
  ok (cons_some purged.0 rest.0, rest.1)

abbrev pub trash_of : ℕ → Db → List Image
trash_of uid db = keep (λ i. eq_opt i.user_id (some uid) && in_trash i) db.images

unfoldable pub empty_trash : ℕ → Db → Outcome StoreError (List PhysicalDelete × Db)
empty_trash uid db = purge_all (trash_of uid db) db

-- One image of PurgeExpiredTrash: a transaction of its own, whose failure is logged and passed over.
unfoldable pub purge_or_skip : Image → Db → Option PhysicalDelete × Db
purge_or_skip img db = elim (purge_one img db) [ err e ↦ (none, db) | ok r ↦ r ]

unfoldable pub purge_each : List Image → Db → List PhysicalDelete × Db
purge_each [] db = ([], db)
purge_each (img ∷ imgs) db =
    let r = purge_or_skip img db in let rest = purge_each imgs r.1 in (cons_some r.0 rest.0, rest.1)

-- deleted_at < now - 30 days
abbrev pub trash_expired : Time → Image → Bool
trash_expired now i = elim i.deleted_at [ none ↦ false | some t ↦ ltb (t + 30 * day) now ]

unfoldable pub purge_expired_trash : Time → Db → List PhysicalDelete × Db
purge_expired_trash now db = purge_each (keep (trash_expired now) db.images) db

-- expires_at IS NOT NULL AND expires_at < now AND deleted_at IS NULL
abbrev pub image_expired : Time → Image → Bool
image_expired now i = is_live i && (elim i.expires_at [ none ↦ false | some t ↦ ltb t now ])

-- One image of PurgeExpiredImages: it goes only if the row is still expired and live.
unfoldable pub purge_expired_one : Time → Image → Db → Option PhysicalDelete × Db
purge_expired_one now img db =
    let r = update_images (λ i. i.id == img.id && image_expired now i) (mark_deleted now) db in
    if r.0 then (elim (purge_one img r.1) [ err e ↦ (none, db) | ok q ↦ q ]) else (none, db)

unfoldable pub purge_expired_each : Time → List Image → Db → List PhysicalDelete × Db
purge_expired_each now [] db = ([], db)
purge_expired_each now (img ∷ imgs) db =
    let r = purge_expired_one now img db in
    let rest = purge_expired_each now imgs r.1 in (cons_some r.0 rest.0, rest.1)

unfoldable pub purge_expired_images : Time → Db → List PhysicalDelete × Db
purge_expired_images now db = purge_expired_each now (keep (image_expired now) db.images) db

-- AdminPurge: a live image is soft-deleted first. No other transaction stands between its read and
-- its writes here, so the retry of softDeleteForPurge is not taken.
unfoldable pub admin_purge : String → Time → Db → Outcome StoreError (Option PhysicalDelete × Db)
admin_purge key now db = elim (first (λ i. str_eq i.key key) db.images) [
  | none ↦ err not_found
  | some img ↦
      purge_one img (update_images (λ i. i.id == img.id && is_live i) (mark_deleted now) db).1
]
