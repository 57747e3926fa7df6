-- ===== src/Store/DropLaws.antt =====
-- Lemmas on dropping a reference to a file: the end of purgeOne (internal/service/imagesvc/purge.go)
-- and of rehomeWithUpdates (surface.go).
use imgli.Common.{
  ℕ, ◌≡◌, refl, true, ◌&&◌, Option, none, some, List, arith, ◌==◌, leb, is_some, if◌then◌else◌, any,
  inl, inr, Bool-cases,
}
use imgli.Table.{find_id, update_id, delete_id, IsKeyed}
use imgli.Table.Laws.{find_id-update, find_id-delete, IsKeyed-update, IsKeyed-delete}
use imgli.Table.Conditional.{chosen_row, keep-chosen, not_chosen}
use imgli.Model.{File, Image, Visibility}
use imgli.Store.{Db, file_key}
use imgli.Store.Trash.{drop_ref, drop_file}
use imgli.Store.Invariant.{refs, lent, lent-agree, lent-same}

abbrev pub after_drop : File → Option File
after_drop f = if leb f.ref_count 1 then none else some (drop_ref f)

module _ (db : Db) (keyed : IsKeyed file_key db.next_file db.files) (file : File) {row : File}
    (found : find_id file_key file.id db.files ≡ some row) where
  abbrev dropped : List File
  dropped = update_id file_key file.id drop_ref db.files

  dropped-IsKeyed : IsKeyed file_key db.next_file dropped
  dropped-IsKeyed = IsKeyed-update file_key db.next_file file.id drop_ref db.files (λ f. refl) keyed

  dropped-find : find_id file_key file.id dropped ≡ some (drop_ref row)
  dropped-find =
      ground (arith, find_id-update file_key file.id file.id drop_ref db.files (λ f. refl))

  gone : any (λ f. f.id == file.id && leb f.ref_count 0) dropped ≡ leb row.ref_count 1
  gone = elim (Bool-cases (any (λ f. f.id == file.id && leb f.ref_count 0) dropped)) [
    | inl e ↦
        let (f, found', low) =
          chosen_row file_key file.id (λ f. leb f.ref_count 0) dropped e
            (dropped-IsKeyed.unique file.id) in
        ground (arith, dropped-find)
    | inr e ↦
        ground (arith, not_chosen file_key file.id (λ f. leb f.ref_count 0) dropped e dropped-find)
  ]

  -- The object is to be deleted exactly when the reference was the last one.
  pub drop_file-last : is_some (drop_file file db).0 ≡ leb row.ref_count 1
  unfolding drop_file
  drop_file-last = ground (arith, gone)

  pub drop_file-same :
      ((drop_file file db).1.users ≡ db.users)
      × ((drop_file file db).1.images ≡ db.images)
      × ((drop_file file db).1.next_file ≡ db.next_file)
      × ((drop_file file db).1.next_image ≡ db.next_image)
  unfolding drop_file
  drop_file-same = (ground arith, ground arith, ground arith, ground arith)

  files-drop_file :
      (drop_file file db).1.files
      ≡ (if leb row.ref_count 1 then delete_id file_key file.id dropped else dropped)
  unfolding drop_file
  files-drop_file = ground (
    arith,
    gone,
    keep-chosen file_key file.id (λ f. leb f.ref_count 0) dropped,
    dropped-IsKeyed.unique file.id,
  )

  pub drop_file-IsKeyed : IsKeyed file_key db.next_file (drop_file file db).1.files
  drop_file-IsKeyed = elim (Bool-cases (leb row.ref_count 1)) [
    | inl e ↦
        rw (files-drop_file, e)
          (IsKeyed-delete file_key db.next_file file.id dropped dropped-IsKeyed)
    | inr e ↦ rw (files-drop_file, e) dropped-IsKeyed
  ]

  pub find-drop_file :
      (g : ℕ)
      → find_id file_key g (drop_file file db).1.files
        ≡ (if file.id == g then after_drop row else find_id file_key g db.files)
  find-drop_file g = ground (
    arith,
    found,
    files-drop_file,
    find_id-update file_key file.id g drop_ref db.files (λ f. refl),
    find_id-delete file_key file.id g dropped,
  )

  -- What the images borrow is the same after the drop, if the row stays or nobody refers to it.
  pub lent-drop_file :
      (W : Option (ℕ × Visibility) → Image → ℕ) (images : List Image)
      → (leb row.ref_count 1 ≡ true → refs file.id images ≡ 0)
      → lent W (drop_file file db).1.files images ≡ lent W db.files images
  lent-drop_file W images last = elim (Bool-cases (leb row.ref_count 1)) [
    | inl e ↦
        lent-agree W db.files (drop_file file db).1.files file.id images (last e)
          (λ g ne. rw (find-drop_file g, ne))
    | inr e ↦
        lent-same W db.files (drop_file file db).1.files images
          (λ g. ground (arith, find-drop_file g, found))
  ]
