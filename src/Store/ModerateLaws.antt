-- ===== src/Store/ModerateLaws.antt =====
-- On the verdict that an upload inherits (internal/service/upload/instant.go).
use imgli.Common.{
  Option-cases, ==_refl, ap, sym, ◌∙◌, ℕ, ◌≤◌, ◌≡◌, refl, inl, inr, Bool, true, ◌&&◌, Option, none,
  some, List, [], ◌∷◌, String, arith, ◌==◌, if◌then◌else◌, keep, ltb,
}
use imgli.Model.{Image, File, Status, normal, pending, rejected, Score}
use imgli.Common.Outcome.{ok, >>=-eq-ok}
use imgli.Table.{find_id, insert}
use imgli.Table.Laws.{find_id-insert}
use imgli.Store.{Db, image_key, find_image, unique_key}
use imgli.Store.Invariant.{IsConsistent}
use imgli.Store.Charge.{charge_user-IsCharge}
use imgli.Store.UploadLaws.{bump_ref-shape}
use imgli.Store.Uploads.{
  Upload, new_image, new_file, create_file, create_image, commit_new, bump_ref, commit_instant,
  commit_upload, find_existing,
}
use imgli.Store.Moderate.{
  Verdict, merge_status, merge_score, merge_siblings, no_verdict, is_live, inherit_moderation_from,
  has_hash, inherit_moderation_by_hash,
}

abbrev pub severity : Status → ℕ
severity normal = 0
severity pending = 1
severity rejected = 2

-- The severity of the strictest status of a list, from `floor` on.
abbrev pub strictest : ℕ → List Image → ℕ
strictest floor [] = floor
strictest floor (i ∷ images) =
    strictest (if ltb floor (severity i.status) then severity i.status else floor) images

abbrev pub highest : Option Score → List Image → Option Score
highest top [] = top
highest top (i ∷ images) = highest (merge_score top i.nsfw_score) images

merge_status-severity :
    (a s : Status)
    → severity (merge_status a s)
      ≡ (if ltb (severity a) (severity s) then severity s else severity a)
unfolding merge_status
merge_status-severity normal normal = refl
merge_status-severity normal pending = refl
merge_status-severity normal rejected = refl
merge_status-severity pending normal = refl
merge_status-severity pending pending = refl
merge_status-severity pending rejected = refl
merge_status-severity rejected normal = refl
merge_status-severity rejected pending = refl
merge_status-severity rejected rejected = refl

merge_siblings-severity :
    (v : Verdict) (images : List Image)
    → severity (merge_siblings v images).status ≡ strictest (severity v.status) images
unfolding merge_siblings
merge_siblings-severity v [] = refl
merge_siblings-severity v (i ∷ images) = rw (
  merge_siblings-severity
      (record { status = merge_status v.status i.status; score = merge_score v.score i.nsfw_score })
      images,
  merge_status-severity v.status i.status,
)

merge_siblings-score :
    (v : Verdict) (images : List Image) → (merge_siblings v images).score ≡ highest v.score images
unfolding merge_siblings
merge_siblings-score v [] = refl
merge_siblings-score v (i ∷ images) =
    merge_siblings-score
      (record { status = merge_status v.status i.status; score = merge_score v.score i.nsfw_score })
      images

strictest-floor : (floor : ℕ) (images : List Image) → floor ≤ strictest floor images
strictest-floor floor [] = omega arith
strictest-floor floor (i ∷ images) = ground (
  arith,
  strictest-floor (if ltb floor (severity i.status) then severity i.status else floor) images,
)

strictest-each :
    (p : Image → Bool) (floor j : ℕ) (images : List Image) {i : Image}
    → find_id image_key j images ≡ some i
    → p i ≡ true
    → severity i.status ≤ strictest floor (keep p images)
unfolding find_id keep
strictest-each p floor j [] h e = absurd (ground arith)
strictest-each p floor j (i ∷ images) {i = x} h e =
    let up = if ltb floor (severity i.status) then severity i.status else floor in
    ground (
      arith,
      strictest-floor up (keep p images),
      strictest-each p up j images {i = x},
      strictest-each p floor j images {i = x},
    )

-- Which images an upload takes its verdict from: those of the file that it shares, or else those
-- of any file with the same hash.
abbrev sibling_by : String → Db → Option File → Image → Bool
sibling_by hash db none i = has_hash hash db i && is_live i
sibling_by hash db (some f) i = i.file_id == f.id && is_live i

abbrev pub sibling : Upload → Db → Image → Bool
sibling up db i = sibling_by up.hash db (find_existing up db) i

abbrev merged : Upload → Db → Option File → Verdict
merged up db existing = merge_siblings no_verdict (keep (sibling_by up.hash db existing) db.images)

module _ {cs : String → ℕ} (up : Upload) (db db' : Db) (c : IsConsistent cs db)
    (done : commit_upload up db ≡ ok db') where
  added :
      (v : Verdict) (fid : ℕ) (key : String)
      → db'.images ≡ insert image_key (new_image up v db.next_image fid key) db.images
      → find_image db.next_image db' ≡ some (new_image up v db.next_image fid key)
  unfolding new_image
  added v fid key e =
      rw
        (
          e,
          find_id-insert image_key db.next_image (new_image up v db.next_image fid key) db.images
              (c.images_keyed.fresh db.next_image (omega arith)),
          ==_refl db.next_image,
        )
        refl

  -- The new image carries the merged verdict of its siblings.
  carries :
      (img : Image) × (find_image db.next_image db' ≡ some img)
      × (img.status ≡ (merge_siblings no_verdict (keep (sibling up db) db.images)).status)
      × (img.nsfw_score ≡ (merge_siblings no_verdict (keep (sibling up db) db.images)).score)
  carries = elim (Option-cases (find_existing up db)) [
    | inl e ↦ new e (unfold commit_upload in ground arith)
    | inr (f, e) ↦ instant f e (unfold commit_upload in ground arith)
  ]
    where
      Carried : Type 0
      Carried =
          (img : Image) × (find_image db.next_image db' ≡ some img)
          × (img.status ≡ (merge_siblings no_verdict (keep (sibling up db) db.images)).status)
          × (img.nsfw_score ≡ (merge_siblings no_verdict (keep (sibling up db) db.images)).score)

      new : find_existing up db ≡ none → commit_new up db ≡ ok db' → Carried
      new e h =
          unfold commit_new create_image create_file inherit_moderation_by_hash new_image in
          let v = inherit_moderation_by_hash up.hash db in
          let (key, drawn, paid) =
            >>=-eq-ok (unique_key up.keys (create_file (new_file up) db)) _ h in
          (
            _,
            added v db.next_file key (charge_user-IsCharge up _ paid).images_same,
            ap (λ o. (merged up db o).status) (sym e),
            ap (λ o. (merged up db o).score) (sym e),
          )

      instant :
          (f : File) → find_existing up db ≡ some f → commit_instant up f.id db ≡ ok db' → Carried
      instant f e h =
          unfold commit_instant create_image inherit_moderation_from new_image in
          let v = inherit_moderation_from f.id db in
          let (key, drawn, rest) = >>=-eq-ok (unique_key up.keys db) _ h in
          let (after, bumped, paid) =
            >>=-eq-ok (bump_ref f.id (create_image (λ id. new_image up v id f.id key) db)) _ rest in
          let shape =
            bump_ref-shape f.id (create_image (λ id. new_image up v id f.id key) db) bumped in
          (
            _,
            added v f.id key
                ((charge_user-IsCharge up after paid).images_same ∙ ap (λ d. d.images) shape),
            ap (λ o. (merged up db o).status) (sym e),
            ap (λ o. (merged up db o).score) (sym e),
          )

  -- An upload is judged no milder than a live image of the file that it shares: on a consistent
  -- store, the row that a committed upload adds has a status at least as strict as that of every
  -- sibling. The siblings are the live images of the file that it joins or, for a new file, of every
  -- file with the same hash; those on the other surface, where there is a file to join, and those in
  -- the recycle bin are none.
  pub upload_inherits :
      (j : ℕ) (i : Image)
      → find_image j db ≡ some i
      → sibling up db i ≡ true
      → (img : Image) × (find_image db.next_image db' ≡ some img)
        × (severity i.status ≤ severity img.status)
  upload_inherits j i found sib =
      let (img, at, status, score) = carries in
      (
        img,
        at,
        rw (status, merge_siblings-severity no_verdict (keep (sibling up db) db.images))
            (strictest-each (sibling up db) 0 j db.images found sib),
      )
