-- ===== src/Store/MoveLaws.antt =====
-- Lemmas on the transaction of rehomeWithUpdates (internal/service/imagesvc/surface.go).
use imgli.Common.{
  ℕ, ◌+◌, ◌≡◌, refl, true, false, Option, some, List, String, arith, ◌==◌, leb, if◌then◌else◌,
}
use imgli.Table.{find_id, update_id, IsKeyed}
use imgli.Table.Laws.{map_option, find_id-update, IsKeyed-update}
use imgli.Table.Conditional.{sum-replace}
use imgli.Model.{File, Image, Visibility}
use imgli.Store.{Db, file_key, image_key, find_file, find_image}
use imgli.Store.Uploads.{add_ref}
use imgli.Store.UploadLaws.{referenced}
use imgli.Store.Trash.{drop_file}
use imgli.Store.Rehome.{move_to}
use imgli.Store.Invariant.{
  IsConsistent, traits, refs, lent, size_weight, face_weight, lent-same, same_visibility_refl,
}
use imgli.Store.DropLaws.{drop_file-same, drop_file-IsKeyed, find-drop_file, lent-drop_file}

-- Moving one image from `old` to the file `fid` of the same bytes on another surface.
module _ (cs : String → ℕ) (db : Db) (c : IsConsistent cs db) (img : Image) (old new : File)
    (fid : ℕ) (there : find_image img.id db ≡ some img) (old_there : find_file old.id db ≡ some old)
    (refers : img.file_id ≡ old.id) (new_there : find_file fid db ≡ some new)
    (same_bytes : new.hash ≡ old.hash) (apart : (old.id == fid) ≡ false) (target : Visibility)
    (on_target : new.surface ≡ target) where
  abbrev moved : List Image
  moved = update_id image_key img.id (move_to fid target) db.images

  abbrev joined : Db
  joined = record db { images = moved; files = referenced fid db }

  abbrev pub left : Db
  left = (drop_file old joined).1

  found_joined :
      (g : ℕ)
      → find_file g joined
        ≡ (if fid == g then map_option add_ref (find_file g db) else find_file g db)
  found_joined g = find_id-update file_key fid g add_ref db.files (λ f. refl)

  joined-IsKeyed : IsKeyed file_key db.next_file (referenced fid db)
  joined-IsKeyed =
      IsKeyed-update file_key db.next_file fid add_ref db.files (λ f. refl) c.files_keyed

  old_joined : find_file old.id joined ≡ some old
  old_joined = ground (arith, found_joined old.id)

  refs-moved :
      (g : ℕ)
      → refs g moved + (if old.id == g then 1 else 0)
        ≡ refs g db.images + (if fid == g then 1 else 0)
  refs-moved g = ground (
    arith,
    sum-replace image_key (λ i. if i.file_id == g then 1 else 0) img.id (move_to fid target)
        db.images there (c.images_keyed.unique img.id),
  )

  last-refs : leb old.ref_count 1 ≡ true → refs old.id moved ≡ 0
  last-refs h = ground (arith, c.counted old.id, refs-moved old.id)

  same :
      (left.users ≡ db.users)
      × (left.images ≡ moved)
      × (left.next_file ≡ db.next_file)
      × (left.next_image ≡ db.next_image)
  same = drop_file-same joined joined-IsKeyed old old_joined

  lent-left :
      (W : Option (ℕ × Visibility) → Image → ℕ)
      → lent W left.files left.images + W (some (old.size, old.surface)) img
        ≡ lent W db.files db.images + W (some (new.size, new.surface)) (move_to fid target img)
  lent-left W = cc (
    same.1,
    lent-drop_file joined joined-IsKeyed old old_joined W moved last-refs,
    lent-same W db.files (referenced fid db) moved (λ g. ground (arith, found_joined g)),
    sum-replace image_key (λ i. W (traits (find_id file_key i.file_id db.files)) i) img.id
        (move_to fid target) db.images there (c.images_keyed.unique img.id),
    refers,
    old_there,
    new_there,
  )

  sizes : new.size ≡ old.size
  sizes = ground (arith, c.sized fid, c.sized old.id, same_bytes)

  pub left-IsConsistent : IsConsistent cs left
  left-IsConsistent = record {
    files_keyed = rw (same.2) (drop_file-IsKeyed joined joined-IsKeyed old old_joined);
    images_keyed =
        rw (same.1, same.3)
          (IsKeyed-update image_key db.next_image img.id (move_to fid target) db.images (λ i. refl)
            c.images_keyed);
    counted = λ g. rw (same.1) (
        ground (
          arith,
          find-drop_file joined joined-IsKeyed old old_joined g,
          found_joined g,
          c.counted g,
          refs-moved g,
          old_there,
          new_there,
        ));
    charged =
        λ uid. rw (same.0) (ground (arith, lent-left (size_weight uid), c.charged uid, sizes));
    sized = λ g. ground (
      arith,
      find-drop_file joined joined-IsKeyed old old_joined g,
      found_joined g,
      c.sized g,
      old_there,
    );
    placed =
        ground (arith, lent-left face_weight, c.placed, on_target, same_visibility_refl target);
  }
