-- ===== src/Store/UploadLaws.antt =====
-- Lemmas on the two transactions of an upload (internal/service/upload), joined.
use imgli.Common.{
  ◌&&◌, str_eq, ℕ, ◌+◌, ◌≡◌, refl, inl, inr, Option, some, List, String, arith, ◌==◌, eq_iff,
  if◌then◌else◌, Option-cases,
}
use imgli.Common.Outcome.{ok, >>=-eq-ok}
use imgli.Table.{find_id, update_id, insert}
use imgli.Table.Laws.{map_option, find_id-update, sum-insert, IsKeyed-insert, IsKeyed-update}
use imgli.Model.{File, Image, Visibility, same_visibility}
use imgli.Store.{Db, file_key, image_key, unique_key}
use imgli.Store.Moderate.{Verdict, inherit_moderation_from}
use imgli.Store.Uploads.{
  Upload, new_image, create_image, add_ref, bump_ref, commit_instant, commit_upload, find_existing,
  surface_of,
}
use imgli.Store.Invariant.{
  same_visibility-eq, same_visibility_refl, IsConsistent, traits, refs, lent, size_weight,
  face_weight, lent-same,
}
use imgli.Table.Conditional.{first-found}
use imgli.Table.Members.{first-holds}
use imgli.Store.Charge.{IsCharge, charge_user-IsCharge}
use imgli.Store.NewLaws.{commit_new-IsConsistent}

abbrev pub referenced : ℕ → Db → List File
referenced fid db = update_id file_key fid add_ref db.files

pub bump_ref-shape :
    (fid : ℕ) (db : Db) {db' : Db}
    → bump_ref fid db ≡ ok db'
    → db' ≡ record db { files = referenced fid db }
unfolding bump_ref
bump_ref-shape fid db h = ground arith

-- One more image of a file that is there.
module _ {cs : String → ℕ} (db : Db) (c : IsConsistent cs db) (fid : ℕ) {file : File}
    (found : find_id file_key fid db.files ≡ some file) (image : Image)
    (refers : image.file_id ≡ fid) where
  found_after :
      (g : ℕ)
      → find_id file_key g (referenced fid db) ≡ (
          if fid == g
          then map_option add_ref (find_id file_key g db.files)
          else find_id file_key g db.files)
  found_after g = find_id-update file_key fid g add_ref db.files (λ f. refl)

  traits_after :
      (g : ℕ)
      → traits (find_id file_key g (referenced fid db)) ≡ traits (find_id file_key g db.files)
  traits_after g = ground (arith, found_after g)

  refs_after :
      (g : ℕ)
      → refs g (insert image_key image db.images) ≡ refs g db.images + (if fid == g then 1 else 0)
  refs_after g = rw (sum-insert image_key, refers)

  lent_after :
      (W : Option (ℕ × Visibility) → Image → ℕ)
      → lent W (referenced fid db) (insert image_key image db.images)
        ≡ lent W db.files db.images + W (some (file.size, file.surface)) image
  lent_after W = cc (
    sum-insert image_key (λ i. W (traits (find_id file_key i.file_id (referenced fid db))) i) image
        db.images,
    lent-same W db.files (referenced fid db) db.images traits_after,
    refers,
    found,
    traits_after fid,
  )

-- What the lookup of the bytes answers.
pub existing-content :
    (up : Upload) (db : Db) {file : File}
    → find_existing up db ≡ some file
    → (file.hash ≡ up.hash) × (file.surface ≡ surface_of up)
unfolding find_existing
existing-content up db {file = file} h =
    let holds =
      first-holds (λ f. str_eq f.hash up.hash && same_visibility f.surface (surface_of up)) db.files
        h in
    (
      ground (arith, eq_iff file.hash up.hash),
      same_visibility-eq file.surface (surface_of up) (ground (arith, eq_iff file.hash up.hash)),
    )

module _ (content_size : String → ℕ) (up : Upload) (content : up.size ≡ content_size up.hash) where
  joined : Verdict → String → ℕ → Db → Db
  unfolding create_image
  joined v key fid db = record (create_image (λ id. new_image up v id fid key) db) {
    files = referenced fid db;
  }

  joined-IsConsistent :
      (v : Verdict) (key : String) (fid : ℕ) (file : File) (db db' : Db)
      → IsConsistent content_size db
      → find_id file_key fid db.files ≡ some file
      → file.hash ≡ up.hash
      → file.surface ≡ surface_of up
      → IsCharge up (joined v key fid db) db'
      → IsConsistent content_size db'
  unfolding joined new_image
  joined-IsConsistent v key fid file db db' c found same face paid =
      let ni = new_image up v db.next_image fid key in
      record {
        files_keyed =
            rw (paid.files_same, paid.next_file_same)
              (IsKeyed-update file_key db.next_file fid add_ref db.files (λ f. refl) c.files_keyed);
        images_keyed =
            rw (paid.images_same, paid.next_image_same)
              (IsKeyed-insert image_key db.next_image ni db.images refl c.images_keyed);
        counted = λ g.
            rw (paid.files_same, paid.images_same)
              (ground (
                arith,
                found,
                found_after db c fid found ni refl g,
                refs_after db c fid found ni refl g,
                c.counted g,
              ));
        charged = λ uid.
            rw
              (
                paid.used uid,
                paid.files_same,
                paid.images_same,
                lent_after db c fid found ni refl (size_weight uid),
                c.charged uid,
              )
              (ground (arith, content, same, found, c.sized fid));
        sized = λ g.
            rw paid.files_same (ground (arith, found_after db c fid found ni refl g, c.sized g));
        placed = rw (
          paid.files_same,
          paid.images_same,
          lent_after db c fid found ni refl face_weight,
          c.placed,
          face,
          same_visibility_refl (surface_of up),
        );
      }

  pub commit_instant-IsConsistent :
      (fid : ℕ) (file : File) (db db' : Db)
      → IsConsistent content_size db
      → find_id file_key fid db.files ≡ some file
      → file.hash ≡ up.hash
      → file.surface ≡ surface_of up
      → commit_instant up fid db ≡ ok db'
      → IsConsistent content_size db'
  unfolding commit_instant joined
  commit_instant-IsConsistent fid file db db' c found same face h =
      let v = inherit_moderation_from fid db in
      let (key, drawn, rest) = >>=-eq-ok (unique_key up.keys db) _ h in
      let (after, bumped, paid) =
        >>=-eq-ok (bump_ref fid (create_image (λ id. new_image up v id fid key) db)) _ rest in
      let shape : after ≡ joined v key fid db =
        bump_ref-shape fid (create_image (λ id. new_image up v id fid key) db) bumped in
      joined-IsConsistent v key fid file db db' c found same face
        (rw shape at (charge_user-IsCharge up after paid))

  found_by_content :
      (db : Db) {file : File}
      → IsConsistent content_size db
      → find_existing up db ≡ some file
      → (find_id file_key file.id db.files ≡ some file)
        × (file.hash ≡ up.hash)
        × (file.surface ≡ surface_of up)
  unfolding find_existing
  found_by_content db {file = file} c h =
      let (hash, surface) = existing-content up db h in
      ((first-found file_key _ db.files h c.files_keyed.unique).1, hash, surface)

  -- Whichever way an upload takes, a successful one leaves the store consistent: each file counts
  -- exactly the images that refer to it, each user is charged for exactly the bytes of their images,
  -- and no image's file stands on another surface than the image's visibility. The upload's size is
  -- assumed to be the one that its hash determines.
  pub commit_upload-IsConsistent :
      (db db' : Db)
      → IsConsistent content_size db
      → commit_upload up db ≡ ok db'
      → IsConsistent content_size db'
  unfolding commit_upload
  commit_upload-IsConsistent db db' c h = elim (Option-cases (find_existing up db)) [
    | inl fresh ↦ commit_new-IsConsistent content_size up content db db' c (ground arith)
    | inr (file, e) ↦
        let (found, same, face) = found_by_content db c e in
        commit_instant-IsConsistent file.id file db db' c found same face (ground arith)
  ]
