-- ===== src/Store/Invariant.antt =====
-- What ties the rows of the image store together: reference counters, quota counters, and the
-- surface on which an image's bytes stand.
use imgli.Common.{
  ℕ, ◌≡◌, refl, true, false, Option, none, some, List, [], ◌∷◌, String, arith, ◌==◌, eq_opt,
  if◌then◌else◌, sum_of,
}
use imgli.Table.{find_id, IsKeyed}
use imgli.Table.Laws.{find_id-absent}
use imgli.Model.{User, File, Image, Visibility, same_visibility}
use imgli.Store.{Db, user_key, file_key, image_key}

abbrev pub ref_of : Option File → ℕ
ref_of none = 0
ref_of (some f) = f.ref_count

abbrev pub used_of : Option User → ℕ
used_of none = 0
used_of (some u) = u.used_storage

abbrev pub size_of : Option File → ℕ
size_of none = 0
size_of (some f) = f.size

abbrev pub content_of : (String → ℕ) → Option File → ℕ
content_of content_size none = 0
content_of content_size (some f) = content_size f.hash

-- What a file lends to the images that refer to it.
abbrev pub traits : Option File → Option (ℕ × Visibility)
traits none = none
traits (some f) = some (f.size, f.surface)

abbrev pub ref_weight : ℕ → Image → ℕ
ref_weight fid i = if i.file_id == fid then 1 else 0

abbrev pub size_weight : ℕ → Option (ℕ × Visibility) → Image → ℕ
size_weight uid none i = 0
size_weight uid (some (size, face)) i = if eq_opt i.user_id (some uid) then size else 0

abbrev pub face_weight : Option (ℕ × Visibility) → Image → ℕ
face_weight none i = 0
face_weight (some (size, face)) i = if same_visibility face i.visibility then 0 else 1

-- The images that refer to a file, those in the trash included.
abbrev pub refs : ℕ → List Image → ℕ
refs fid images = sum_of (ref_weight fid) images

-- A sum over the images of what their files lend them.
abbrev pub lent : (Option (ℕ × Visibility) → Image → ℕ) → List File → List Image → ℕ
lent W files images = sum_of (λ i. W (traits (find_id file_key i.file_id files)) i) images

-- The bytes that a user's images take, in the trash or not; a file shared by several counts for each.
abbrev pub usage : ℕ → List File → List Image → ℕ
usage uid files images = lent (size_weight uid) files images

-- The images whose file stands on another surface than their visibility says.
abbrev pub misplaced : List File → List Image → ℕ
misplaced files images = lent face_weight files images

-- `content_size` gives the length of the bytes that a hash stands for: hashes do not collide.
module _ (content_size : String → ℕ) where
  pub record IsConsistent (db : Db) : Type 0 where
    pub files_keyed : IsKeyed file_key db.next_file db.files
    pub images_keyed : IsKeyed image_key db.next_image db.images
    pub counted : (fid : ℕ) → ref_of (find_id file_key fid db.files) ≡ refs fid db.images
    pub charged : (uid : ℕ) → used_of (find_id user_key uid db.users) ≡ usage uid db.files db.images
    pub sized :
        (fid : ℕ)
        → size_of (find_id file_key fid db.files)
          ≡ content_of content_size (find_id file_key fid db.files)
    pub placed : misplaced db.files db.images ≡ 0

module _ (W : Option (ℕ × Visibility) → Image → ℕ) (files files' : List File) where
  -- A file that no image refers to has no share in what is lent.
  pub lent-agree :
      (fid : ℕ) (images : List Image)
      → refs fid images ≡ 0
      → ((g : ℕ)
          → (fid == g) ≡ false
          → traits (find_id file_key g files') ≡ traits (find_id file_key g files))
      → lent W files' images ≡ lent W files images
  unfolding sum_of
  lent-agree fid [] h same = refl
  lent-agree fid (i ∷ images) h same =
      rw (same i.file_id (ground arith), lent-agree fid images (ground arith) same)

  pub lent-same :
      (images : List Image)
      → ((g : ℕ) → traits (find_id file_key g files') ≡ traits (find_id file_key g files))
      → lent W files' images ≡ lent W files images
  unfolding sum_of
  lent-same [] same = refl
  lent-same (i ∷ images) same = rw (same i.file_id, lent-same images same)

-- A file id at or above the next one is no image's.
pub refs-fresh : {cs : String → ℕ} (db : Db) → IsConsistent cs db → refs db.next_file db.images ≡ 0
refs-fresh db c = ground (
  arith,
  c.counted db.next_file,
  find_id-absent file_key db.next_file db.files,
  c.files_keyed.fresh db.next_file,
)

pub same_visibility_refl : (v : Visibility) → same_visibility v v ≡ true
same_visibility_refl Visibility.public = refl
same_visibility_refl Visibility.private = refl

pub same_visibility-eq : (v w : Visibility) → same_visibility v w ≡ true → v ≡ w
same_visibility-eq v w h = ground arith
