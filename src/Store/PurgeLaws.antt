-- ===== src/Store/PurgeLaws.antt =====
-- Lemmas on purgeOne of internal/service/imagesvc/purge.go: the row that goes, the refund, the
-- reference.
use imgli.Common.{
  ℕ, ◌+◌, ◌-◌, ◌≡◌, refl, sym, ◌∙◌, ◌⊎◌, true, false, Bool, ◌&&◌, Option, none, some, List, String,
  arith, ◌==◌, eq_opt, leb, if◌then◌else◌, any, inl, inr, Bool-cases, Option-cases,
}
use mathlib.Core.Path.{subst}
use imgli.Common.Outcome.{ok, ok-injective}
use imgli.Table.{find_id, delete_id}
use imgli.Table.Laws.{
  find_id-found, find_id-update, IsKeyed-delete, sum-delete, find_id-rows, delete_id-absent,
}
use imgli.Table.Conditional.{chosen_row, keep-chosen, any-found, any-absent}
use imgli.Model.{File, Image, Visibility}
use imgli.Store.{Db, user_key, file_key, image_key, find_user, find_file, find_image}
use imgli.Store.Trash.{
  PhysicalDelete, in_trash, refund, refund_owner, drop_file, release_file, purge_one,
}
use imgli.Store.Invariant.{IsConsistent, used_of, traits, refs, lent, size_weight, face_weight}
use imgli.Store.DropLaws.{drop_file-same, drop_file-IsKeyed, find-drop_file, lent-drop_file}

-- A row that was read earlier and the row that is there now agree on what a purge uses.
abbrev pub Agrees : Image → Image → Type 0
Agrees img row = (row.file_id ≡ img.file_id) × (row.user_id ≡ img.user_id)

abbrev pub refund_of : Option ℕ → ℕ → ℕ → ℕ
refund_of owner size uid = if eq_opt owner (some uid) then size else 0

refund_owner-used :
    (owner : Option ℕ) (size uid : ℕ) (db : Db)
    → used_of (find_user uid (refund_owner owner size db))
      ≡ used_of (find_user uid db) - refund_of owner size uid
unfolding refund_owner
refund_owner-used none size uid db = omega arith
refund_owner-used (some u) size uid db =
    ground (arith, find_id-update user_key u uid (refund size) db.users (λ x. refl))

refund_owner-same :
    (owner : Option ℕ) (size : ℕ) (db : Db)
    → refund_owner owner size db ≡ record db { users = (refund_owner owner size db).users }
unfolding refund_owner
refund_owner-same none size db = refl
refund_owner-same (some u) size db = refl

module _ (content_size : String → ℕ) (db : Db) (c : IsConsistent content_size db) (img row : Image)
    (there : find_image img.id db ≡ some row) (agrees : Agrees img row) where
  abbrev remaining : List Image
  remaining = delete_id image_key img.id db.images

  lent-remaining :
      (W : Option (ℕ × Visibility) → Image → ℕ)
      → lent W db.files remaining + W (traits (find_file row.file_id db)) row
        ≡ lent W db.files db.images
  lent-remaining W =
      sum-delete image_key (λ i. W (traits (find_id file_key i.file_id db.files)) i) img.id
        db.images there (c.images_keyed.unique img.id)

  pub refs-remaining :
      (g : ℕ) → refs g remaining + (if img.file_id == g then 1 else 0) ≡ refs g db.images
  refs-remaining g = ground (
    arith,
    sum-delete image_key (λ i. if i.file_id == g then 1 else 0) img.id db.images there
        (c.images_keyed.unique img.id),
  )

  -- An image's file is there.
  held : (f : File) × (find_file img.file_id db ≡ some f)
  held = elim (Option-cases (find_file img.file_id db)) [
    | inl e ↦ absurd (ground (arith, c.counted img.file_id, refs-remaining img.file_id))
    | inr (f, e) ↦ (f, e)
  ]

  module _ (file : File) (found : find_file img.file_id db ≡ some file) where
    -- The store after the image's row is gone and its owner has the bytes back.
    abbrev refunded : Db
    refunded = record db {
      images = remaining;
      users = (refund_owner img.user_id file.size (record db { images = remaining })).users;
    }

    abbrev pub released : Db
    released = (drop_file file refunded).1

    pub found_here : find_id file_key file.id refunded.files ≡ some file
    found_here = cc (find_id-found file_key img.file_id db.files found, found)

    pub file-id : file.id ≡ img.file_id
    file-id = find_id-found file_key img.file_id db.files found

    last-refs : leb file.ref_count 1 ≡ true → refs file.id remaining ≡ 0
    last-refs h = ground (arith, found, file-id, c.counted img.file_id, refs-remaining img.file_id)

    pub same :
        (released.users ≡ refunded.users)
        × (released.images ≡ remaining)
        × (released.next_file ≡ db.next_file)
        × (released.next_image ≡ db.next_image)
    same = drop_file-same refunded c.files_keyed file found_here

    released-users :
        (uid : ℕ)
        → used_of (find_user uid released)
          ≡ used_of (find_user uid db) - refund_of img.user_id file.size uid
    released-users uid =
        rw (same.0) (refund_owner-used img.user_id file.size uid (record db { images = remaining }))

    lent-released :
        (W : Option (ℕ × Visibility) → Image → ℕ)
        → lent W released.files released.images + W (some (file.size, file.surface)) row
          ≡ lent W db.files db.images
    lent-released W = cc (
      same.1,
      lent-drop_file refunded c.files_keyed file found_here W remaining last-refs,
      lent-remaining W,
      agrees.0,
      found,
    )

    released-IsConsistent : IsConsistent content_size released
    released-IsConsistent = record {
      files_keyed = rw (same.2) (drop_file-IsKeyed refunded c.files_keyed file found_here);
      images_keyed =
          rw (same.1, same.3)
            (IsKeyed-delete image_key db.next_image img.id db.images c.images_keyed);
      counted = λ g. rw (same.1) (
          ground (
            arith,
            find-drop_file refunded c.files_keyed file found_here g,
            c.counted g,
            refs-remaining g,
            file-id,
            found,
          ));
      charged = λ uid.
          ground
            (arith, released-users uid, lent-released (size_weight uid), c.charged uid, agrees.1);
      sized = λ g. ground (
        arith,
        find-drop_file refunded c.files_keyed file found_here g,
        c.sized g,
        file-id,
        found,
      );
      placed = ground (arith, lent-released face_weight, c.placed);
    }

release_file-found :
    (img : Image) (db : Db) {file : File}
    → find_file img.file_id db ≡ some file
    → release_file img db
      ≡ ok (drop_file file (record db { users = (refund_owner img.user_id file.size db).users }))
unfolding release_file
release_file-found img db {file = file} h =
    rw (h, release_file, ← refund_owner-same img.user_id file.size db)

-- The store that purgeOne leaves when the image's row was in the trash, before the file's reference
-- is dropped.
abbrev pub without_image : Image → File → Db → Db
without_image img file db =
    let images = delete_id image_key img.id db.images in
    record db {
      images = images;
      users = (refund_owner img.user_id file.size (record db { images = images })).users;
    }

abbrev is_doomed : Image → Image → Bool
is_doomed img i = i.id == img.id && in_trash i

-- The row is in the trash: it goes, and its file is released.
Purged : Image → Db → Type 0
Purged img db =
    (row : Image) × (file : File) × (find_image img.id db ≡ some row)
    × (find_file img.file_id db ≡ some file)
    × (purge_one img db ≡ ok (drop_file file (without_image img file db)))

purge_one-doomed :
    (cs : String → ℕ) (img : Image) (db : Db) (c : IsConsistent cs db)
    → ((row : Image) → find_image img.id db ≡ some row → Agrees img row)
    → any (is_doomed img) db.images ≡ true
    → Purged img db
unfolding purge_one Purged
purge_one-doomed cs img db c agree e =
    let (row, there, trashed) =
      chosen_row image_key img.id in_trash db.images e (c.images_keyed.unique img.id) in
    let (file, found) = held cs db c img row there (agree row there) in
    (
      row,
      file,
      there,
      found,
      rw (e, keep-chosen image_key img.id in_trash db.images e (c.images_keyed.unique img.id))
          (release_file-found img (record db { images = delete_id image_key img.id db.images })
            found),
    )

-- The two outcomes of purgeOne: nothing happens, or the row was in the trash and its file is released.
pub purge_one-cases :
    (cs : String → ℕ) (img : Image) (db : Db) (c : IsConsistent cs db)
    → ((row : Image) → find_image img.id db ≡ some row → Agrees img row)
    → (purge_one img db ≡ ok (none, db))
      ⊎ ((row : Image) × (file : File) × (find_image img.id db ≡ some row)
          × (find_file img.file_id db ≡ some file)
          × (purge_one img db ≡ ok (drop_file file (without_image img file db))))
unfolding purge_one Purged
purge_one-cases cs img db c agree = elim (Bool-cases (any (is_doomed img) db.images)) [
  | inr e ↦ inl (rw e)
  | inl e ↦ inr (purge_one-doomed cs img db c agree e)
]

-- Where the row, if it is there, is in the trash, it is gone afterwards and the others are not.
pub purge_one-images :
    (cs : String → ℕ) (img : Image) (db : Db) {r : Option PhysicalDelete × Db}
    → (c : IsConsistent cs db) → ((row : Image) → find_image img.id db ≡ some row → Agrees img row)
    → ((row : Image) → find_image img.id db ≡ some row → in_trash row ≡ true)
    → purge_one img db ≡ ok r
    → r.1.images ≡ delete_id image_key img.id db.images
unfolding Purged purge_one
purge_one-images cs img db {r = r} c agree trashed h = elim (Option-cases (find_image img.id db)) [
  | inl gone ↦
      let absent = find_id-rows image_key img.id db.images gone in
      let unmoved : any (is_doomed img) db.images ≡ false =
        any-absent image_key img.id in_trash db.images absent in
      let same : (none, db) ≡ r = ground arith in
      subst (λ q. q.1.images ≡ delete_id image_key img.id db.images) same
        (sym (delete_id-absent image_key img.id db.images absent))
  | inr (row, there) ↦
      let (row', file, there', found, e) =
        purge_one-doomed cs img db c agree
          (any-found image_key img.id in_trash db.images there (trashed row there)) in
      subst (λ q. q.1.images ≡ delete_id image_key img.id db.images) (ok-injective (sym e ∙ h))
        ((same cs db c img row' there' (agree row' there') file found).1)
]

pub purge_one-IsConsistent :
    (cs : String → ℕ) (img : Image) (db : Db) {r : Option PhysicalDelete × Db}
    → IsConsistent cs db
    → ((row : Image) → find_image img.id db ≡ some row → Agrees img row)
    → purge_one img db ≡ ok r
    → IsConsistent cs r.1
purge_one-IsConsistent cs img db {r = r} c agree h = elim (purge_one-cases cs img db c agree) [
  | inl e ↦ subst (λ q. IsConsistent cs q.1) (ok-injective (sym e ∙ h)) c
  | inr (row, file, there, found, e) ↦
      subst (λ q. IsConsistent cs q.1) (ok-injective (sym e ∙ h))
        (released-IsConsistent cs db c img row there (agree row there) file found)
]
