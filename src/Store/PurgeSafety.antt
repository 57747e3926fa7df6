-- ===== src/Store/PurgeSafety.antt =====
-- On the objects that purgeOne (internal/service/imagesvc/purge.go) hands over for deletion.
use imgli.Common.{
  ℕ, ◌+◌, ◌<◌, ◌≡◌, refl, ◌⊎◌, true, false, Option, none, some, String, arith, leb, is_some, inl,
  inr,
}
use imgli.Common.Outcome.{ok}
use imgli.Model.{File, Image}
use imgli.Store.{Db, find_file, find_image}
use imgli.Store.Trash.{PhysicalDelete, drop_file, purge_one}
use imgli.Store.Invariant.{IsConsistent, refs}
use imgli.Store.DropLaws.{after_drop, drop_file-last, find-drop_file}
use imgli.Store.PurgeLaws.{
  Agrees, without_image, purge_one-cases, refs-remaining, found_here, file-id, same,
}

module _ (cs : String → ℕ) (db : Db) (c : IsConsistent cs db) (img row : Image)
    (there : find_image img.id db ≡ some row) (agrees : Agrees img row) (file : File)
    (found : find_file img.file_id db ≡ some file) where
  abbrev outcome : Option PhysicalDelete × Db
  outcome = drop_file file (without_image img file db)

  refs-outcome : refs img.file_id outcome.1.images + 1 ≡ file.ref_count
  refs-outcome = ground (
    arith,
    same cs db c img row there agrees file found,
    refs-remaining cs db c img row there agrees img.file_id,
    c.counted img.file_id,
    found,
  )

  handed_over : is_some outcome.0 ≡ leb file.ref_count 1
  handed_over =
      drop_file-last (without_image img file db) c.files_keyed file
        (found_here cs db c img row there agrees file found)

  find-outcome : find_file img.file_id outcome.1 ≡ after_drop file
  find-outcome = ground (
    arith,
    find-drop_file (without_image img file db) c.files_keyed file
        (found_here cs db c img row there agrees file found) img.file_id,
    file-id cs db c img row there agrees file found,
  )

-- purgeOne never fails on a consistent store, given a copy of an image whose file and owner are those
-- of its row where it still has one. It hands an object over for deletion only when no
-- image, in the trash or not, refers to its file any more, and then the file's row is gone too.
-- When it hands nothing over, either the store is unchanged or some image still refers to the file,
-- whose row is still there.
pub purge_one-safe :
    (cs : String → ℕ) (img : Image) (db : Db)
    → IsConsistent cs db
    → ((row : Image) → find_image img.id db ≡ some row → Agrees img row)
    → (r : Option PhysicalDelete × Db) × (purge_one img db ≡ ok r)
      × (is_some r.0 ≡ true
          → (refs img.file_id r.1.images ≡ 0) × (find_file img.file_id r.1 ≡ none))
      × (is_some r.0 ≡ false
          → (r.1 ≡ db)
            ⊎ ((0 < refs img.file_id r.1.images) × (is_some (find_file img.file_id r.1) ≡ true)))
purge_one-safe cs img db c agree = elim (purge_one-cases cs img db c agree) [
  | inl e ↦ ((none, db), e, λ f. absurd (ground arith), λ f. inl refl)
  | inr (row, file, there, found, e) ↦
      let counted = refs-outcome cs db c img row there (agree row there) file found in
      let over = handed_over cs db c img row there (agree row there) file found in
      let row_left = find-outcome cs db c img row there (agree row there) file found in
      (
        drop_file file (without_image img file db),
        e,
        λ f. (ground arith, ground arith),
        λ f. inr (ground arith, ground arith),
      )
]
