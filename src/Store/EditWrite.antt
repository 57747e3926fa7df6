-- ===== src/Store/EditWrite.antt =====
-- Writing a checked change to an image: the end of Update in internal/service/imagesvc/update.go, and
-- rehomeWithUpdates of surface.go.
use imgli.Common.{
  ℕ, Bool, false, not, ◌&&◌, Option, none, some, List, String, str_eq, if◌then◌else◌, ◌==◌, first,
  any,
}
use imgli.Common.Outcome.{Outcome, ok, err, ◌>>=◌}
use imgli.Model.{UserGroup, File, Image, Album, Time, Visibility, same_visibility}
use imgli.Store.{Db, find_file}
use imgli.Store.Moderate.{is_live}
use imgli.Store.Uploads.{bump_ref}
use imgli.Store.Trash.{PhysicalDelete, owned_by, update_images, drop_file}
use imgli.Store.Rehome.{resolve_file_for_surface, move_to}
use imgli.Store.Edit.{
  UpdateError, image_not_found, row_not_found, slug_index, store_error, UpdatePatch, Columns,
  PatchTexts, write_columns, check_patch, patch_group,
}

-- The unique index of slugs, which the recycle bin is part of.
abbrev pub slug_clashes : Columns → Image → Db → Bool
slug_clashes c img db = elim c.slug [
  | none ↦ false
  | some new ↦ elim new [
    | none ↦ false
    | some v ↦
        any (λ i. not (i.id == img.id) && (elim i.slug [ none ↦ false | some w ↦ str_eq w v ]))
          db.images
  ]
]

-- UPDATE images of the columns, where the surface stays.
unfoldable pub write_in_place :
    Columns → Image → Db → Outcome UpdateError (Option PhysicalDelete × Db)
write_in_place c img db =
    let r = update_images (λ i. i.id == img.id && is_live i) (write_columns c) db in
    if r.0 && slug_clashes c img db then err slug_index else ok (none, r.1)

-- The columns that rehomeWithUpdates writes with the new file.
abbrev pub move_columns : Columns → ℕ → Visibility → Image → Image
move_columns c fid target i = move_to fid target (write_columns c i)

-- rehomeWithUpdates. On a conflict the transaction is rolled back, and Update still returns the row.
unfoldable pub write_and_move :
    Columns
    → Image
    → File
    → Visibility
    → String
    → Db
    → Outcome UpdateError (Option PhysicalDelete × Db)
write_and_move c img old target path db =
    let resolved = resolve_file_for_surface old target path db in
    let r =
      update_images (λ i. i.id == img.id && (i.file_id == old.id && is_live i))
        (move_columns c resolved.0 target) resolved.1 in
    if not r.0
    then ok (none, resolved.1)
    else if slug_clashes c img db
    then err slug_index
    else elim (bump_ref resolved.0 r.1) [
      | err e ↦ err (store_error e)
      | ok referenced ↦ ok (drop_file old referenced)
    ]

-- A visibility in the patch moves the image to the surface of that name, if it is on another.
unfoldable pub write_patch :
    Columns → Image → String → Db → Outcome UpdateError (Option PhysicalDelete × Db)
write_patch c img path db = elim c.visibility [
  | none ↦ write_in_place c img db
  | some target ↦ elim (find_file img.file_id db) [
    | none ↦ err row_not_found
    | some old ↦
        if same_visibility old.surface target
        then write_in_place c img db
        else write_and_move c img old target path db
  ]
]

unfoldable pub update :
    PatchTexts
    → ℕ
    → String
    → UpdatePatch
    → List UserGroup
    → List Album
    → Time
    → String
    → Db
    → Outcome UpdateError (Option PhysicalDelete × Db)
update x uid key p groups albums now path db =
    elim (first (λ i. owned_by uid key i && is_live i) db.images) [
      | none ↦ err image_not_found
      | some img ↦ do
        group ← patch_group uid p groups db
        columns ← check_patch x uid img p group albums now db
        write_patch columns img path db
    ]
