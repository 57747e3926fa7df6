-- ===== src/Store/EditLaws.antt =====
-- What an album demands of its images, through the changes of internal/service/imagesvc/update.go.
use imgli.Common.{
  ℕ, ◌≤◌, ◌≡◌, ap, sym, ◌∙◌, refl, true, Option, some, String, arith, inl, inr, str_eq, Bool-cases,
  Option-cases, All, update_where, first, ◌==◌, ◌&&◌, List,
}
use imgli.Common.Int.{ℤ, pos, pos_part, ltb_ℤ}
use imgli.Common.Outcome.{ok, Outcome-cases, ◌>>=◌, >>=-eq-ok, ok-injective}
use imgli.Table.{rows_with}
use imgli.Table.Conditional.{first-found}
use imgli.Model.{UserGroup, Time, File, Image, Album, Visibility, private, same_visibility}
use imgli.Table.Members.{All-first, All-update_one}
use imgli.Store.{Db, image_key, find_image, find_file}
use imgli.Store.Moderate.{is_live}
use imgli.Store.Trash.{PhysicalDelete, owned_by, update_images, drop_file}
use mathlib.Core.Path.{subst}
use imgli.Store.UploadLaws.{bump_ref-shape}
use imgli.Store.Rehome.{resolve_file_for_surface}
use imgli.Store.Uploads.{create_file, bump_ref}
use imgli.Store.Edit.{
  PatchTexts, Columns, write_columns, patch_group, check_patch, name_column, expires_column,
  max_views_column, password_column, slug_column, UpdatePatch, album_row, find_album,
  in_private_album, asked_visibility, keeps_album, visibility_column, album_column, or_old,
  is_private,
}
use imgli.Store.EditWrite.{write_patch, write_in_place, write_and_move, move_columns, update}

-- An image of a private album is private.
abbrev pub IsHidden : List Album → Option ℕ → Visibility → Type 0
IsHidden albums album_id v = in_private_album album_id albums ≡ true → v ≡ private

found_album :
    (uid : ℕ) (id : ℤ) (albums : List Album) {dest : Album}
    → ((k : ℕ) → rows_with album_row k albums ≤ 1)
    → find_album uid id albums ≡ some dest
    → (ltb_ℤ (pos 0) id ≡ true)
      × (in_private_album (some (pos_part id)) albums ≡ is_private dest.visibility)
unfolding in_private_album
found_album uid id albums {dest = dest} u f =
    let (holds, found) = first-found album_row _ albums f u in (ground arith, ground arith)

-- What the checks let through keeps a private album's images private.
columns_hide :
    (uid : ℕ) (p : UpdatePatch) (img : Image) (albums : List Album) {asked kept : Option String}
    {v : Option Visibility} {a : Option (Option ℕ)}
    → ((k : ℕ) → rows_with album_row k albums ≤ 1)
    → asked_visibility uid p albums ≡ ok asked
    → keeps_album asked p img albums ≡ ok kept
    → visibility_column kept ≡ ok v
    → album_column uid p albums ≡ ok a
    → IsHidden albums img.album_id img.visibility
    → IsHidden albums (or_old a img.album_id) (or_old v img.visibility)
unfolding in_private_album asked_visibility keeps_album visibility_column album_column
columns_hide uid p img albums {asked = asked} {kept = kept} {v = v} {a = a} u e k w c h inside =
    elim (Option-cases p.album_id) [
      | inl stays ↦ elim (Option-cases asked) [
        | inl nothing ↦ ground arith
        | inr (t, asks) ↦ ground arith
      ]
      | inr (id, goes) ↦ elim (Bool-cases (ltb_ℤ (pos 0) id)) [
        | inr low ↦ elim (Option-cases (find_album uid id albums)) [
          | inl missing ↦ ground arith
          | inr (dest, found) ↦ absurd (ground (arith, found_album uid id albums u found))
        ]
        | inl up ↦ elim (Option-cases (find_album uid id albums)) [
          | inl missing ↦ absurd (ground arith)
          | inr (dest, found) ↦
              let (positive, same) = found_album uid id albums {dest = dest} u found in
              let album : a ≡ some (some (pos_part id)) = ground arith in
              let hidden : is_private dest.visibility ≡ true =
                sym (ap (λ o. in_private_album (or_old o img.album_id) albums) album ∙ same)
                ∙ inside in
              let asks : asked ≡ some "private" = ground arith in
              let keeps : kept ≡ some "private" = ground arith in
              let shows : v ≡ some private = ground arith in rw shows refl
        ]
      ]
    ]

checked_columns :
    (x : PatchTexts) (uid : ℕ) (img : Image) (p : UpdatePatch) (group : Option UserGroup)
    (albums : List Album) (now : Time) (db : Db) {c : Columns}
    → check_patch x uid img p group albums now db ≡ ok c
    → (asked : Option String) × (kept : Option String) × (asked_visibility uid p albums ≡ ok asked)
      × (keeps_album asked p img albums ≡ ok kept)
      × (visibility_column kept ≡ ok c.visibility)
      × (album_column uid p albums ≡ ok c.album_id)
unfolding check_patch
checked_columns x uid img p group albums now db h =
    let (asked, asks, h1) = >>=-eq-ok (asked_visibility uid p albums) _ h in
    let (kept, keeps, h2) = >>=-eq-ok (keeps_album asked p img albums) _ h1 in
    let (name, named, h3) = >>=-eq-ok (name_column x p.name) _ h2 in
    let (v, shows, h4) = >>=-eq-ok (visibility_column kept) _ h3 in
    let (album, moves, h5) = >>=-eq-ok (album_column uid p albums) _ h4 in
    let (expires, lasts, h6) = >>=-eq-ok (expires_column group p now) _ h5 in
    let (views, viewed, h7) = >>=-eq-ok (max_views_column group p) _ h6 in
    let (password, hashed, h8) = >>=-eq-ok (password_column x p.access_password) _ h7 in
    let (slug, slugged, h9) = >>=-eq-ok (slug_column x img.key p.slug db) _ h8 in
    (
      asked,
      kept,
      asks,
      keeps,
      shows ∙ ap (λ d. ok d.visibility) (ok-injective h9),
      moves ∙ ap (λ d. ok d.album_id) (ok-injective h9),
    )

abbrev pub KeepsHidden : List Album → Db → Type 0
KeepsHidden albums db = All (λ i. IsHidden albums i.album_id i.visibility) db.images

resolved_images :
    (old : File) (target : Visibility) (path : String) (db : Db)
    → (resolve_file_for_surface old target path db).1.images ≡ db.images
unfolding resolve_file_for_surface create_file
resolved_images old target path db =
    elim (Option-cases
      (first (λ f. str_eq f.hash old.hash && same_visibility f.surface target) db.files)) [
        | inl fresh ↦ rw (fresh, resolve_file_for_surface) refl
        | inr (there, e) ↦ rw (e, resolve_file_for_surface) refl
      ]

write_in_place-hides :
    (albums : List Album) (c : Columns) (img : Image) (db : Db) {r : Option PhysicalDelete × Db}
    → rows_with image_key img.id db.images ≤ 1
    → find_image img.id db ≡ some img
    → IsHidden albums (or_old c.album_id img.album_id) (or_old c.visibility img.visibility)
    → KeepsHidden albums db
    → write_in_place c img db ≡ ok r
    → KeepsHidden albums r.1
unfolding write_in_place write_columns update_images
write_in_place-hides albums c img db {r = r} u found new h e =
    let after = update_where (λ i. i.id == img.id && is_live i) (write_columns c) db.images in
    let kept : All (λ i. IsHidden albums i.album_id i.visibility) after =
      All-update_one (λ i. IsHidden albums i.album_id i.visibility) image_key img.id is_live
        (write_columns c) db.images found u new h in
    let done : r.1.images ≡ after = ground arith in
    subst (All (λ i. IsHidden albums i.album_id i.visibility)) (sym done) kept

dropped_images : (file : File) (db : Db) → (drop_file file db).1.images ≡ db.images
unfolding drop_file
dropped_images file db = ground arith

write_and_move-hides :
    (albums : List Album) (c : Columns) (img : Image) (old : File) (target : Visibility)
    (path : String) (db : Db) {r : Option PhysicalDelete × Db}
    → rows_with image_key img.id db.images ≤ 1
    → find_image img.id db ≡ some img
    → IsHidden albums (or_old c.album_id img.album_id) target
    → KeepsHidden albums db
    → write_and_move c img old target path db ≡ ok r
    → KeepsHidden albums r.1
unfolding write_and_move write_columns update_images
write_and_move-hides albums c img old target path db {r = r} u found new h e =
    let resolved = resolve_file_for_surface old target path db in
    let same : resolved.1.images ≡ db.images = resolved_images old target path db in
    let chosen = λ (i : Image). i.id == img.id && (i.file_id == old.id && is_live i) in
    let moved = update_images chosen (move_columns c resolved.0 target) resolved.1 in
    let kept : KeepsHidden albums moved.1 = rw same (
      All-update_one (λ i. IsHidden albums i.album_id i.visibility) image_key img.id
        (λ i. i.file_id == old.id && is_live i) (move_columns c resolved.0 target) db.images found u
        new h) in
    elim (Bool-cases moved.0) [
      | inr f ↦
          let done : r.1.images ≡ db.images = ground (arith, same) in
          subst (All (λ i. IsHidden albums i.album_id i.visibility)) (sym done) h
      | inl t ↦ elim (Outcome-cases (bump_ref resolved.0 moved.1)) [
        | inr (failure, f) ↦ absurd (ground arith)
        | inl (after, f) ↦
            let ran : write_and_move c img old target path db ≡ ok (drop_file old after) =
              ground arith in
            let done : r.1.images ≡ moved.1.images =
              ap (λ q. q.1.images) (sym (ok-injective (sym ran ∙ e)))
              ∙ dropped_images old after
              ∙ ap (λ d. d.images) (bump_ref-shape resolved.0 moved.1 f) in
            subst (All (λ i. IsHidden albums i.album_id i.visibility)) (sym done) kept
      ]
    ]

write_patch-hides :
    (albums : List Album) (c : Columns) (img : Image) (path : String) (db : Db)
    {r : Option PhysicalDelete × Db}
    → rows_with image_key img.id db.images ≤ 1
    → find_image img.id db ≡ some img
    → IsHidden albums (or_old c.album_id img.album_id) (or_old c.visibility img.visibility)
    → KeepsHidden albums db
    → write_patch c img path db ≡ ok r
    → KeepsHidden albums r.1
unfolding write_patch
write_patch-hides albums c img path db {r = r} u found new h e = elim (Option-cases c.visibility) [
  | inl nothing ↦ write_in_place-hides albums c img db {r = r} u found new h (ground arith)
  | inr (target, shows) ↦ elim (Option-cases (find_file img.file_id db)) [
    | inl gone ↦ absurd (ground arith)
    | inr (old, there) ↦ elim (Bool-cases (same_visibility old.surface target)) [
      | inl same ↦ write_in_place-hides albums c img db {r = r} u found new h (ground arith)
      | inr apart ↦
          write_and_move-hides albums c img old target path db {r = r} u found
            (λ inside. ap (λ w. or_old w img.visibility) (sym shows) ∙ new inside) h (ground arith)
    ]
  ]
]

-- Albums and images have distinct ids, and every image of a private album is private: a change to an
-- image that goes through, to whatever fields, albums or visibility, leaves it so.
pub update-hides :
    (x : PatchTexts) (uid : ℕ) (key : String) (p : UpdatePatch) (groups : List UserGroup)
    (albums : List Album) (now : Time) (path : String) (db : Db) {r : Option PhysicalDelete × Db}
    → ((k : ℕ) → rows_with album_row k albums ≤ 1)
    → ((k : ℕ) → rows_with image_key k db.images ≤ 1)
    → KeepsHidden albums db
    → update x uid key p groups albums now path db ≡ ok r
    → KeepsHidden albums r.1
unfolding update
update-hides x uid key p groups albums now path db {r = r} ua ui h e =
    elim (Option-cases (first (λ i. owned_by uid key i && is_live i) db.images)) [
      | inl missing ↦ absurd (ground arith)
      | inr (img, chosen) ↦
          let (holds, found) = first-found image_key _ db.images chosen ui in
          let rest : update x uid key p groups albums now path db ≡ (
              patch_group uid p groups db >>= λ group.
              check_patch x uid img p group albums now db >>= λ columns.
              write_patch columns img path db) =
            rw (chosen, update) refl in
          let (group, allowed, checks) = >>=-eq-ok (patch_group uid p groups db) _ (sym rest ∙ e) in
          let (c, checked, written) =
            >>=-eq-ok (check_patch x uid img p group albums now db) _ checks in
          let (asked, kept, asks, keeps, shows, moves) =
            checked_columns x uid img p group albums now db checked in
          let (own, hidden) =
            All-first (λ i. IsHidden albums i.album_id i.visibility)
              (λ i. owned_by uid key i && is_live i) db.images h chosen in
          write_patch-hides albums c img path db (ui img.id) found
            (columns_hide uid p img albums ua asks keeps shows moves hidden) h written
    ]
