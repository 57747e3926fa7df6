-- ===== src/Store/NewLaws.antt =====
-- Lemmas on the upload of new bytes: the transaction of Save (internal/service/upload/save.go).
use imgli.Common.{ℕ, ◌+◌, ◌≡◌, refl, Option, some, String, arith, ◌==◌, ==_refl, if◌then◌else◌}
use imgli.Common.Outcome.{ok, >>=-eq-ok}
use imgli.Table.{find_id, insert}
use imgli.Table.Laws.{find_id-insert, sum-insert, IsKeyed-insert}
use imgli.Model.{File, Image, Visibility}
use imgli.Store.{Db, file_key, image_key, unique_key}
use imgli.Store.Moderate.{Verdict, inherit_moderation_by_hash}
use imgli.Store.Uploads.{
  Upload, new_image, new_file, create_file, create_image, commit_new, surface_of,
}
use imgli.Store.Invariant.{
  same_visibility_refl, IsConsistent, traits, refs, lent, size_weight, face_weight, lent-agree,
  refs-fresh,
}
use imgli.Store.Charge.{IsCharge, charge_user-IsCharge}

-- A new file with its first image.
module _ {cs : String → ℕ} (db : Db) (c : IsConsistent cs db) (file : File) (image : Image)
    (file_id : file.id ≡ db.next_file) (refers : image.file_id ≡ db.next_file) where
  found_after :
      (g : ℕ)
      → find_id file_key g (insert file_key file db.files)
        ≡ (if db.next_file == g then some file else find_id file_key g db.files)
  found_after g =
      ground (arith, find_id-insert file_key g file db.files, c.files_keyed.fresh db.next_file)

  refs_after :
      (g : ℕ)
      → refs g (insert image_key image db.images)
        ≡ refs g db.images + (if db.next_file == g then 1 else 0)
  refs_after g = rw (sum-insert image_key, refers)

  lent_after :
      (W : Option (ℕ × Visibility) → Image → ℕ)
      → lent W (insert file_key file db.files) (insert image_key image db.images)
        ≡ lent W db.files db.images + W (some (file.size, file.surface)) image
  lent_after W = cc (
    sum-insert image_key
        (λ i. W (traits (find_id file_key i.file_id (insert file_key file db.files))) i) image
        db.images,
    lent-agree W db.files (insert file_key file db.files) db.next_file db.images (refs-fresh db c)
        (λ g ne. rw (found_after g, ne)),
    refers,
    found_after db.next_file,
    ==_refl db.next_file,
  )

module _ (content_size : String → ℕ) (up : Upload) (content : up.size ≡ content_size up.hash) where
  -- The rows that the transaction for new bytes leaves, before the charge.
  added : Verdict → String → Db → Db
  unfolding create_file create_image
  added v key db =
      create_image (λ id. new_image up v id db.next_file key) (create_file (new_file up) db)

  added-IsConsistent :
      (v : Verdict) (key : String) (db db' : Db)
      → IsConsistent content_size db
      → IsCharge up (added v key db) db'
      → IsConsistent content_size db'
  unfolding added new_image new_file
  added-IsConsistent v key db db' c paid =
      let nf = new_file up db.next_file in
      let ni = new_image up v db.next_image db.next_file key in
      record {
        files_keyed =
            rw (paid.files_same, paid.next_file_same)
              (IsKeyed-insert file_key db.next_file nf db.files refl c.files_keyed);
        images_keyed =
            rw (paid.images_same, paid.next_image_same)
              (IsKeyed-insert image_key db.next_image ni db.images refl c.images_keyed);
        counted = λ fid.
            rw (paid.files_same, paid.images_same)
              (ground (
                arith,
                found_after db c nf ni refl refl fid,
                refs_after db c nf ni refl refl fid,
                c.counted fid,
                refs-fresh db c,
              ));
        charged = λ uid. rw (
          paid.used uid,
          paid.files_same,
          paid.images_same,
          lent_after db c nf ni refl refl (size_weight uid),
          c.charged uid,
        );
        sized = λ fid.
            rw paid.files_same (ground (arith, found_after db c nf ni refl refl fid, c.sized fid));
        placed = rw (
          paid.files_same,
          paid.images_same,
          lent_after db c nf ni refl refl face_weight,
          c.placed,
          same_visibility_refl (surface_of up),
        );
      }

  pub commit_new-IsConsistent :
      (db db' : Db)
      → IsConsistent content_size db
      → commit_new up db ≡ ok db'
      → IsConsistent content_size db'
  unfolding commit_new added
  commit_new-IsConsistent db db' c h =
      let v = inherit_moderation_by_hash up.hash db in
      let (key, drawn, paid) = >>=-eq-ok (unique_key up.keys (create_file (new_file up) db)) _ h in
      added-IsConsistent v key db db' c (charge_user-IsCharge up (added v key db) paid)
