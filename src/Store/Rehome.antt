-- ===== src/Store/Rehome.antt =====
-- Changing the surface of an image: rehomeWithUpdates and the row that resolveFileForSurface creates,
-- of internal/service/imagesvc/surface.go. Copying the object is the storage driver's.
use imgli.Common.{ℕ, ◌&&◌, Option, none, some, String, str_eq, if◌then◌else◌, ◌==◌, first}
use imgli.Common.Outcome.{Outcome, ok, err, ◌>>=◌}
use imgli.Model.{File, Image, Visibility, same_visibility}
use imgli.Store.{Db, StoreError, rehome_conflict}
use imgli.Store.Moderate.{is_live}
use imgli.Store.Uploads.{create_file, bump_ref}
use imgli.Store.Trash.{PhysicalDelete, update_images, drop_file}

-- The row for a copied object: no image refers to it yet.
unfoldable pub copied_file : File → Visibility → String → ℕ → File
copied_file src target path id = record src {
  id = id;
  surface = target;
  path = path;
  ref_count = 0;
}

-- The file of the same bytes on the target surface, created where there is none. `path` is where the
-- copy of the object stands.
unfoldable pub resolve_file_for_surface : File → Visibility → String → Db → ℕ × Db
resolve_file_for_surface src target path db =
    elim (first (λ f. str_eq f.hash src.hash && same_visibility f.surface target) db.files) [
      | some existing ↦ (existing.id, db)
      | none ↦ (db.next_file, create_file (copied_file src target path) db)
    ]

abbrev pub move_to : ℕ → Visibility → Image → Image
move_to fid target i = record i { file_id = fid; visibility = target }

-- The transaction: the image is moved only if it is live and still refers to the old file.
unfoldable pub move_image :
    Image → File → ℕ → Visibility → Db → Outcome StoreError (Option PhysicalDelete × Db)
move_image img old new_id target db =
    let r =
      update_images (λ i. i.id == img.id && (i.file_id == old.id && is_live i))
        (move_to new_id target) db in
    if r.0
    then (do referenced ← bump_ref new_id r.1; ok (drop_file old referenced))
    else err rehome_conflict

unfoldable pub rehome :
    Image → File → Visibility → String → Db → Outcome StoreError (Option PhysicalDelete × Db)
rehome img old target path db =
    let resolved = resolve_file_for_surface old target path db in
    move_image img old resolved.0 target resolved.1
