-- ===== src/Store/TrashLaws.antt =====
-- Lemmas on SoftDelete and Restore (internal/service/imagesvc/batch.go and trash.go), and on every
-- update of images that the counters do not see.
use mathlib.Core.Path.{subst}
use imgli.Common.{ℕ, ◌≡◌, refl, sym, ◌∙◌, Bool, String, arith, ◌==◌, if◌then◌else◌}
use imgli.Common.Outcome.{ok}
use imgli.Table.{find_id}
use imgli.Table.Conditional.{sum-update_where, rows_with-update_where}
use imgli.Model.{Image, Time}
use imgli.Store.{Db, file_key, image_key}
use imgli.Store.Trash.{
  mark_deleted, unmark_deleted, update_images, changed_or_not_found, soft_delete, restore,
}
use imgli.Store.Invariant.{IsConsistent, traits, size_weight, face_weight}

-- A change of an image that the counters do not see.
pub record IsNeutral (f : Image → Image) : Type 0 where
  pub same_id : (i : Image) → (f i).id ≡ i.id
  pub same_file : (i : Image) → (f i).file_id ≡ i.file_id
  pub same_user : (i : Image) → (f i).user_id ≡ i.user_id
  pub same_face : (i : Image) → (f i).visibility ≡ i.visibility

module _ (cs : String → ℕ) (p : Image → Bool) (f : Image → Image) (n : IsNeutral f) where
  pub update_images-IsConsistent :
      (db : Db) → IsConsistent cs db → IsConsistent cs (update_images p f db).1
  unfolding update_images
  update_images-IsConsistent db c = record {
    files_keyed = c.files_keyed;
    images_keyed = record {
      unique = λ i.
          rw (rows_with-update_where p f image_key i db.images n.same_id) (c.images_keyed.unique i);
      fresh = λ i le.
          rw (rows_with-update_where p f image_key i db.images n.same_id)
            (c.images_keyed.fresh i le);
    };
    counted = λ fid.
        c.counted fid
        ∙ sym (
            sum-update_where p f (λ i. if i.file_id == fid then 1 else 0) db.images
              (λ i. cc (n.same_file i)));
    charged = λ uid.
        c.charged uid
        ∙ sym (
            sum-update_where p f
              (λ i. size_weight uid (traits (find_id file_key i.file_id db.files)) i) db.images
              (λ i. ground (arith, n.same_file i, n.same_user i)));
    sized = c.sized;
    placed =
        sum-update_where p f (λ i. face_weight (traits (find_id file_key i.file_id db.files)) i)
          db.images (λ i. ground (arith, n.same_file i, n.same_face i))
        ∙ c.placed;
  }

  changed-IsConsistent :
      (db : Db) {db' : Db}
      → IsConsistent cs db
      → changed_or_not_found (update_images p f db) ≡ ok db'
      → IsConsistent cs db'
  changed-IsConsistent db c h =
      subst (IsConsistent cs) (ground arith) (update_images-IsConsistent db c)

pub mark_deleted-IsNeutral : (now : Time) → IsNeutral (mark_deleted now)
mark_deleted-IsNeutral now = record {
  same_id = λ i. refl;
  same_file = λ i. refl;
  same_user = λ i. refl;
  same_face = λ i. refl;
}

unmark_deleted-IsNeutral : IsNeutral unmark_deleted
unmark_deleted-IsNeutral = record {
  same_id = λ i. refl;
  same_file = λ i. refl;
  same_user = λ i. refl;
  same_face = λ i. refl;
}

pub soft_delete-IsConsistent :
    (cs : String → ℕ) (uid : ℕ) (key : String) (now : Time) (db : Db) {db' : Db}
    → IsConsistent cs db
    → soft_delete uid key now db ≡ ok db'
    → IsConsistent cs db'
unfolding soft_delete
soft_delete-IsConsistent cs uid key now db c h =
    changed-IsConsistent cs _ (mark_deleted now) (mark_deleted-IsNeutral now) db c h

pub restore-IsConsistent :
    (cs : String → ℕ) (uid : ℕ) (key : String) (db : Db) {db' : Db}
    → IsConsistent cs db
    → restore uid key db ≡ ok db'
    → IsConsistent cs db'
unfolding restore
restore-IsConsistent cs uid key db c h =
    changed-IsConsistent cs _ unmark_deleted unmark_deleted-IsNeutral db c h
