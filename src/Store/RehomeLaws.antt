-- ===== src/Store/RehomeLaws.antt =====
-- Lemmas on rehomeWithUpdates as a whole (internal/service/imagesvc/surface.go).
use mathlib.Core.Path.{subst}
use imgli.Common.{
  ap, ℕ, ◌≤◌, ◌≡◌, sym, ◌∙◌, false, ◌&&◌, Option, some, String, arith, ◌==◌, any, inl, inr,
  Bool-cases,
}
use imgli.Common.Outcome.{ok, ◌>>=◌, >>=-eq-ok, ok-injective}
use imgli.Table.{update_id, rows_with}
use imgli.Table.Laws.{find_id-found}
use imgli.Table.Conditional.{update-chosen, chosen_row}
use imgli.Model.{File, Image, Visibility, same_visibility}
use imgli.Store.{Db, image_key, file_key, find_file, find_image}
use imgli.Store.Moderate.{is_live}
use imgli.Store.Uploads.{bump_ref}
use imgli.Store.UploadLaws.{referenced, bump_ref-shape}
use imgli.Store.Trash.{PhysicalDelete, update_images, drop_file}
use imgli.Store.Rehome.{resolve_file_for_surface, move_to, move_image, rehome}
use imgli.Store.Invariant.{IsConsistent, same_visibility_refl}
use imgli.Store.MoveLaws.{left-IsConsistent}
use imgli.Store.ResolveLaws.{resolve-IsResolved}

move_image-shape :
    (img : Image) (old : File) (fid : ℕ) (target : Visibility) (db : Db)
    {r : Option PhysicalDelete × Db}
    → ((i : ℕ) → rows_with image_key i db.images ≤ 1)
    → move_image img old fid target db ≡ ok r
    → r
      ≡ drop_file old (record db {
        images = update_id image_key img.id (move_to fid target) db.images;
        files = referenced fid db;
      })
unfolding move_image update_images
move_image-shape img old fid target db u h =
    elim (Bool-cases (any (λ i. i.id == img.id && (i.file_id == old.id && is_live i)) db.images)) [
      | inr e ↦ absurd (ground arith)
      | inl e ↦
          let next = record db {
            images = update_id image_key img.id (move_to fid target) db.images;
          } in
          let one =
            update-chosen image_key img.id (λ i. i.file_id == old.id && is_live i)
              (move_to fid target) db.images e (u img.id) in
          let step : move_image img old fid target db
              ≡ (bump_ref fid next >>= λ d. ok (drop_file old d)) =
            rw (e, one) in
          let (after, bumped, done) =
            >>=-eq-ok (bump_ref fid next) (λ d. ok (drop_file old d)) (sym step ∙ h) in
          sym (rw (← bump_ref-shape fid next bumped) (ok-injective done))
    ]

-- drop_file looks at the id of its file alone.
drop_file-id : (a b : File) (db : Db) → a.id ≡ b.id → (drop_file a db).1 ≡ (drop_file b db).1
unfolding drop_file
drop_file-id a b db e = rw e (ground arith)

other_file :
    (after : Db) (old new : File) (fid : ℕ) (target : Visibility)
    → find_file old.id after ≡ some old
    → find_file fid after ≡ some new
    → new.surface ≡ target
    → same_visibility old.surface target ≡ false
    → (old.id == fid) ≡ false
other_file after old new fid target o n t apart = ground (arith, same_visibility_refl target)

-- A change of surface keeps the store consistent, whether the target's file was there or is a copy:
-- both files' counters stay right, nobody's quota changes, and the image stands on the surface that
-- its visibility names. The row of the image and its file are those of the store.
pub rehome-IsConsistent :
    (cs : String → ℕ) (img : Image) (old : File) (target : Visibility) (path : String) (db : Db)
    {r : Option PhysicalDelete × Db}
    → IsConsistent cs db
    → find_image img.id db ≡ some img
    → find_file old.id db ≡ some old
    → img.file_id ≡ old.id
    → same_visibility old.surface target ≡ false
    → rehome img old target path db ≡ ok r
    → IsConsistent cs r.1
unfolding rehome
rehome-IsConsistent cs img old target path db c there old_there refers apart h =
    let res = resolve-IsResolved cs db c old target path old_there in
    let resolved = resolve_file_for_surface old target path db in
    let shape =
      move_image-shape img old resolved.0 target resolved.1 res.consistent.images_keyed.unique h in
    subst (λ q. IsConsistent cs q.1) (sym shape)
      (left-IsConsistent cs resolved.1 res.consistent img old res.file resolved.0
        (rw (res.images_same) there) res.old_there refers res.found res.same_bytes
        (other_file resolved.1 old res.file resolved.0 target res.old_there res.found res.on_target
          apart)
        target res.on_target)

-- The transaction keeps the store consistent, from whatever copies of the image and of its old file: it
-- moves the row only where that still refers to the old file. `row` and `new` are the rows of the two
-- files.
pub move_image-IsConsistent :
    (cs : String → ℕ) (img : Image) (old row new : File) (target : Visibility) (db : Db)
    {r : Option PhysicalDelete × Db}
    → IsConsistent cs db
    → find_file old.id db ≡ some row
    → find_file new.id db ≡ some new
    → new.hash ≡ row.hash
    → new.surface ≡ target
    → same_visibility row.surface target ≡ false
    → move_image img old new.id target db ≡ ok r
    → IsConsistent cs r.1
unfolding move_image update_images
move_image-IsConsistent cs img old row new target db c there new_there same face apart h =
    let q = λ (i : Image). i.file_id == old.id && is_live i in
    elim (Bool-cases (any (λ i. i.id == img.id && q i) db.images)) [
      | inr e ↦ absurd (ground arith)
      | inl e ↦
          let (now, found, holds) =
            chosen_row image_key img.id q db.images e (c.images_keyed.unique img.id) in
          let same_id : now.id ≡ img.id =
            ground (arith, find_id-found image_key img.id db.images found) in
          let old_id : row.id ≡ old.id =
            ground (arith, find_id-found file_key old.id db.files there) in
          let shape = move_image-shape img old new.id target db c.images_keyed.unique h in
          let refers : now.file_id ≡ row.id = ground (arith, holds, old_id) in
          let here = subst (λ k. find_image k db ≡ some now) (sym same_id) found in
          let held = subst (λ k. find_file k db ≡ some row) (sym old_id) there in
          let kept =
            left-IsConsistent cs db c now row new new.id here held refers new_there same
              (other_file db row new new.id target held new_there face apart) target face in
          let joined : ℕ → Db = λ k. record db {
            images = update_id image_key k (move_to new.id target) db.images;
            files = referenced new.id db;
          } in
          subst (IsConsistent cs)
            (ap (λ k. (drop_file row (joined k)).1) same_id
              ∙ drop_file-id row old (joined img.id) old_id
              ∙ sym (ap (λ q. q.1) shape))
            kept
    ]
