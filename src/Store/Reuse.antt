-- ===== src/Store/Reuse.antt =====
-- Uploading the same bytes again: findReusableLiveImage and expiresEqual of
-- internal/service/upload/instant.go, and the branch of Save (save.go) that answers with the image
-- that is already there.
use imgli.Common.{
  ℕ, ◌*◌, ◌-◌, ◌≡◌, refl, inl, inr, Bool, true, false, not, ◌&&◌, Option, none, some, String,
  str_eq, arith, ◌==◌, leb, eq_opt, if◌then◌else◌, first, Option-cases, Bool-cases,
}
use imgli.Common.Int.{ℤ, leb_ℤ}
use imgli.Common.Outcome.{Outcome, ok}
use imgli.Model.{Image, Time, minute, same_visibility}
use imgli.Store.{Db, StoreError}
use imgli.Store.Moderate.{is_live}
use imgli.Store.Uploads.{Upload, surface_of, find_existing, commit_upload}
use imgli.Store.Trash.{update_images}
use imgli.Store.Invariant.{IsConsistent}
use imgli.Store.UploadLaws.{commit_upload-IsConsistent}
use imgli.Store.TrashLaws.{update_images-IsConsistent}

abbrev pub expires_reuse_skew : Time
expires_reuse_skew = 2 * minute

abbrev pub expires_equal : Option Time → Option Time → Bool
expires_equal none none = true
expires_equal (some a) (some b) = leb (a - b) expires_reuse_skew && leb (b - a) expires_reuse_skew
expires_equal _ _ = false

abbrev pub eq_ℤ : ℤ → ℤ → Bool
eq_ℤ a b = leb_ℤ a b && leb_ℤ b a

-- The conditions of the query, and of the loop over its rows.
abbrev pub is_reusable : ℕ → ℕ → Upload → Image → Bool
is_reusable uid fid up i =
    is_live i
    && eq_opt i.user_id (some uid)
    && i.file_id == fid
    && same_visibility i.visibility (surface_of up)
    && eq_ℤ i.max_views up.max_views
    && str_eq i.access_password_hash up.access_password_hash
    && eq_opt i.album_id up.album_id
    && expires_equal i.expires_at up.expires_at

unfoldable pub find_reusable_live_image : ℕ → ℕ → Upload → Db → Option Image
find_reusable_live_image uid fid up db = first (is_reusable uid fid up) db.images

-- A guest's upload is never answered with an image that is there.
unfoldable pub reusable : Upload → Db → Option Image
unfolding find_reusable_live_image
reusable up db = elim (find_existing up db) [
  | none ↦ none
  | some f ↦ elim up.user [ none ↦ none | some uid ↦ find_reusable_live_image uid f.id up db ]
]

abbrev rename_to : String → Image → Image
rename_to filename i = record i { name = filename }

unfoldable pub answer_with : Image → Upload → Db → Db
answer_with prev up db =
    if not (str_eq up.filename "") && not (str_eq prev.name up.filename)
    then (update_images (λ i. i.id == prev.id && is_live i) (rename_to up.filename) db).1
    else db

-- Save, from the lookup of the bytes on.
unfoldable pub save_upload : Upload → Db → Outcome StoreError Db
save_upload up db = elim (reusable up db) [
  | some prev ↦ ok (answer_with prev up db)
  | none ↦ commit_upload up db
]

pub answer_with-IsConsistent :
    (cs : String → ℕ) (prev : Image) (up : Upload) (db : Db)
    → IsConsistent cs db
    → IsConsistent cs (answer_with prev up db)
unfolding answer_with
answer_with-IsConsistent cs prev up db c =
    elim (Bool-cases (not (str_eq up.filename "") && not (str_eq prev.name up.filename))) [
      | inl e ↦ rw e (
          update_images-IsConsistent cs (λ i. i.id == prev.id && is_live i) (rename_to up.filename)
            (record {
              same_id = λ i. refl;
              same_file = λ i. refl;
              same_user = λ i. refl;
              same_face = λ i. refl;
            })
            db c)
      | inr e ↦ rw e c
    ]

pub save_upload-IsConsistent :
    (cs : String → ℕ) (up : Upload) (db : Db) {db' : Db}
    → up.size ≡ cs up.hash
    → IsConsistent cs db
    → save_upload up db ≡ ok db'
    → IsConsistent cs db'
unfolding save_upload
save_upload-IsConsistent cs up db {db' = db'} size c h = elim (Option-cases (reusable up db)) [
  | inl e ↦ commit_upload-IsConsistent cs up size db db' c (ground (arith, e))
  | inr (prev, e) ↦
      let same : answer_with prev up db ≡ db' = ground (arith, e) in
      rw same at (answer_with-IsConsistent cs prev up db c)
]
