-- ===== src/Store/ReuseLaws.antt =====
-- Uploading the same bytes with the same options a second time.
use mathlib.Core.Path.{subst}
use imgli.Common.{
  length, suc, ℕ, ◌+◌, ◌*◌, ◌≤◌, ◌≡◌, refl, ◌∙◌, ap, ◌⊎◌, inl, inr, Bool, true, not, ◌&&◌, Option,
  none, some, List, [], ◌∷◌, String, str_eq, eq_iff, arith, ◌==◌, ==_refl, eq_opt, first,
  update_where, Option-cases, Bool-cases,
}
use imgli.Common.Int.{ℤ}
use imgli.Common.Outcome.{ok, >>=-eq-ok}
use imgli.Table.{insert, update_id}
use imgli.Model.{second, File, Image, Time, same_visibility}
use imgli.Store.{Db, file_key, image_key, unique_key}
use imgli.Store.Moderate.{Verdict, inherit_moderation_from, inherit_moderation_by_hash}
use imgli.Store.Uploads.{
  Upload, surface_of, find_existing, new_image, new_file, create_file, create_image, commit_new,
  add_ref, bump_ref, commit_instant, commit_upload,
}
use imgli.Store.Trash.{update_images}
use imgli.Store.Invariant.{same_visibility_refl}
use imgli.Store.UploadLaws.{bump_ref-shape}
use imgli.Store.Charge.{charge_user-IsCharge}
use imgli.Store.Reuse.{
  expires_equal, eq_ℤ, is_reusable, find_reusable_live_image, reusable, answer_with, save_upload,
}

module _ {A : Type 0} (p : A → Bool) where
  first-insert-none :
      (id : A → ℕ) (x : A) (xs : List A)
      → first p xs ≡ none
      → p x ≡ true
      → first p (insert id x xs) ≡ some x
  unfolding first insert
  first-insert-none id x [] h e = ground arith
  first-insert-none id x (y ∷ xs) h e = ground (arith, first-insert-none id x xs)

  first-insert :
      (id : A → ℕ) (x : A) (xs : List A)
      → p x ≡ true
      → (y : A) × (first p (insert id x xs) ≡ some y)
  unfolding first insert
  first-insert id x [] e = (x, ground arith)
  first-insert id x (y ∷ xs) e = elim (Bool-cases (p y)) [
    | inl t ↦ (y, ground arith)
    | inr t ↦ let (z, found) = first-insert id x xs e in (z, ground arith)
  ]

  first-update :
      (q : A → Bool) (g : A → A) (xs : List A) {x : A}
      → ((x : A) → p (g x) ≡ p x)
      → first p xs ≡ some x
      → (y : A) × (first p (update_where q g xs) ≡ some y) × ((y ≡ x) ⊎ (y ≡ g x))
  unfolding first update_where
  first-update q g [] k h = absurd (ground arith)
  first-update q g (y ∷ xs) {x = x} k h = elim (Bool-cases (p y)) [
    | inl t ↦ elim (Bool-cases (q y)) [
      | inl u ↦ (g y, ground (arith, k y), inr (ground arith))
      | inr u ↦ (y, ground arith, inl (ground arith))
    ]
    | inr t ↦
        let (z, found, same) = first-update q g xs {x = x} k (ground arith) in
        (z, ground (arith, k y), same)
  ]

eq_opt_refl : (o : Option ℕ) → eq_opt o o ≡ true
eq_opt_refl none = refl
eq_opt_refl (some n) = ground arith

str_eq_refl : (s : String) → str_eq s s ≡ true
str_eq_refl s = (eq_iff s s).1 refl

eq_ℤ_refl : (a : ℤ) → eq_ℤ a a ≡ true
eq_ℤ_refl a = ground arith

answered :
    (up : Upload) (uid : ℕ) (db : Db) (f : File) (prev : Image)
    → up.user ≡ some uid
    → find_existing up db ≡ some f
    → find_reusable_live_image uid f.id up db ≡ some prev
    → save_upload up db ≡ ok (answer_with prev up db)
unfolding save_upload reusable
answered up uid db f prev u e r =
    let got : reusable up db ≡ some prev = ground (arith, u, e, r) in ground (arith, got)

length-update_where :
    (p : Image → Bool) (g : Image → Image) (xs : List Image)
    → length (update_where p g xs) ≡ length xs
unfolding update_where
length-update_where p g [] = refl
length-update_where p g (x ∷ xs) = ap suc (length-update_where p g xs)

abbrev pub SameRows : Db → Db → Type 0
SameRows a b =
    (a.users ≡ b.users)
    × (a.files ≡ b.files)
    × (a.next_image ≡ b.next_image)
    × (length a.images ≡ length b.images)

answer_with-rows : (prev : Image) (up : Upload) (db : Db) → SameRows (answer_with prev up db) db
unfolding answer_with update_images
answer_with-rows prev up db =
    elim (Bool-cases (not (str_eq up.filename "") && not (str_eq prev.name up.filename))) [
      | inl e ↦ rw e (refl, refl, refl, length-update_where _ _ db.images)
      | inr e ↦ rw e (refl, refl, refl, refl)
    ]

-- A second upload with the same options but for its expiry, whatever keys it would draw.
abbrev pub again : Upload → List String → Time → Option Time → Upload
again up keys now expires = record up { keys = keys; now = now; expires_at = expires }

-- No expiry both times, or two instants at most two minutes apart.
abbrev pub IsNear : Option Time → Option Time → Type 0
IsNear none none = Unit
IsNear (some a) (some b) = (a ≤ b + 120 * second) × (b ≤ a + 120 * second)
IsNear _ _ = ⊥

near-equal : (a b : Option Time) → IsNear a b → expires_equal a b ≡ true
near-equal none none h = refl
near-equal none (some b) h = absurd h
near-equal (some a) none h = absurd h
near-equal (some a) (some b) h = ground arith

new_image-reusable :
    (up : Upload) (uid fid id : ℕ) (v : Verdict) (key : String) (keys : List String) (now : Time)
    (expires : Option Time)
    → up.user ≡ some uid
    → IsNear up.expires_at expires
    → is_reusable uid fid (again up keys now expires) (new_image up v id fid key) ≡ true
unfolding new_image
new_image-reusable up uid fid id v key keys now expires u near =
    rw
      (
        same_visibility_refl (surface_of up),
        u,
        ==_refl uid,
        ==_refl fid,
        eq_ℤ_refl up.max_views,
        str_eq_refl up.access_password_hash,
        eq_opt_refl up.album_id,
        near-equal up.expires_at expires near,
      )
      refl

matches_content : Upload → File → Bool
matches_content up f = str_eq f.hash up.hash && same_visibility f.surface (surface_of up)

module _ (up : Upload) (uid : ℕ) (db db' : Db) (mine : up.user ≡ some uid) where
  -- Where the bytes stand now, and the image that was added.
  found_again :
      commit_upload up db ≡ ok db'
      → (f : File) × (v : Verdict) × (key : String) × (find_existing up db' ≡ some f)
        × (db'.images ≡ insert image_key (new_image up v db.next_image f.id key) db.images)
  found_again h = elim (Option-cases (find_existing up db)) [
    | inl e ↦ new e (unfold commit_upload in ground arith)
    | inr (f, e) ↦ instant f e (unfold commit_upload in ground arith)
  ]
    where
      Found : Type 0
      Found =
          (f : File) × (v : Verdict) × (key : String) × (find_existing up db' ≡ some f)
          × (db'.images ≡ insert image_key (new_image up v db.next_image f.id key) db.images)

      new : find_existing up db ≡ none → commit_new up db ≡ ok db' → Found
      new e h =
          unfold commit_new create_image create_file find_existing new_file in
          let v = inherit_moderation_by_hash up.hash db in
          let (key, drawn, paid) =
            >>=-eq-ok (unique_key up.keys (create_file (new_file up) db)) _ h in
          let charged = charge_user-IsCharge up _ paid in
          let made = new_file up db.next_file in
          let there =
            first-insert-none
              (λ f. str_eq f.hash up.hash && same_visibility f.surface (surface_of up)) file_key
              made db.files e
              (rw (str_eq_refl up.hash, same_visibility_refl (surface_of up)) refl) in
          (made, v, key, rw charged.files_same there, charged.images_same)

      instant :
          (f : File) → find_existing up db ≡ some f → commit_instant up f.id db ≡ ok db' → Found
      instant f e h =
          unfold commit_instant create_image find_existing update_id in
          let v = inherit_moderation_from f.id db in
          let (key, drawn, rest) = >>=-eq-ok (unique_key up.keys db) _ h in
          let (after, bumped, paid) =
            >>=-eq-ok (bump_ref f.id (create_image (λ id. new_image up v id f.id key) db)) _ rest in
          let shape =
            bump_ref-shape f.id (create_image (λ id. new_image up v id f.id key) db) bumped in
          let charged = charge_user-IsCharge up after paid in
          let (g, there, same) =
            first-update (λ f. str_eq f.hash up.hash && same_visibility f.surface (surface_of up))
              (λ x. x.id == f.id) add_ref db.files {x = f} (λ x. refl) e in
          (
            g,
            v,
            key,
            rw (charged.files_same, shape) there,
            subst
                (λ n. db'.images ≡ insert image_key (new_image up v db.next_image n key) db.images)
                (ground arith) (charged.images_same ∙ ap (λ d. d.images) shape),
          )

  -- A signed-in user who uploads the same bytes again with the same options, and an expiry that is
  -- none both times or at most two minutes off, gets the image that is there as long as nothing else
  -- happened: the second upload succeeds, adds no row and no reference, and charges nothing.
  pub save_upload-again :
      (keys : List String) (now : Time) (expires : Option Time)
      → IsNear up.expires_at expires
      → commit_upload up db ≡ ok db'
      → (second : Db) × (save_upload (again up keys now expires) db' ≡ ok second)
        × SameRows second db'
  save_upload-again keys now expires near h =
      let (f, v, key, there, added) = found_again h in
      let next = again up keys now expires in
      let (prev, met) =
        first-insert (is_reusable uid f.id next) image_key (new_image up v db.next_image f.id key)
          db.images
          (new_image-reusable up uid f.id db.next_image v key keys now expires mine near) in
      let found : first (is_reusable uid f.id next) db'.images ≡ some prev = rw added met in
      (
        answer_with prev next db',
        answered next uid db' f prev mine (unfold find_existing in there)
            (unfold find_reusable_live_image in found),
        answer_with-rows prev next db',
      )
