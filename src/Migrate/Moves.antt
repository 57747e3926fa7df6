-- ===== src/Migrate/Moves.antt =====
-- What one batch of MigrateFiles (internal/service/storagesvc/migrate.go) does to the files.
use mathlib.Core.Path.{subst}
use imgli.Common.{
  ℕ, ◌+◌, ◌≤◌, ◌≡◌, refl, sym, ap, ◌⊎◌, inl, inr, true, false, some, List, [], ◌∷◌, arith, length,
  All, Bool-cases, ltb, keep, update_where, any,
}
use imgli.Common.Outcome.{ok}
use imgli.Table.{find_id, rows_with}
use imgli.Table.Laws.{find_id-found}
use imgli.Table.Counts.{find_id-updated}
use imgli.Table.Members.{found_rows, All-take}
use imgli.Model.{File}
use imgli.Store.{Db, file_key}
use imgli.Migrate.{StoragePolicy}
use imgli.Migrate.Files.{
  copied, Drivers, MigrateOpts, Batch, selected, to_scan, is_verified, repointed, still_at,
  migrate_one, migrate_each, empty_batch, migrate_files,
}

-- Every file that a batch has scanned is counted once more.
abbrev settled : Batch → ℕ
settled b = b.copied_files + b.skipped + b.failures

migrate_one-counts :
    (opts : MigrateOpts) (d : Drivers) (f : File) (b : Batch)
    → ((migrate_one opts d f b).scanned ≡ b.scanned + 1)
      × ((migrate_one opts d f b).cancelled ≡ false
          → settled (migrate_one opts d f b) ≡ settled b + 1)
unfolding migrate_one
migrate_one-counts opts d f b = (ground arith, λ h. ground arith)

migrate_each-stop :
    (opts : MigrateOpts) (d : Drivers) (f : File) (fs : List File) (b : Batch)
    → (migrate_one opts d f b).cancelled ≡ true
    → migrate_each opts d (f ∷ fs) b ≡ migrate_one opts d f b
unfolding migrate_each
migrate_each-stop opts d f fs b e = ground arith

migrate_each-go :
    (opts : MigrateOpts) (d : Drivers) (f : File) (fs : List File) (b : Batch)
    → (migrate_one opts d f b).cancelled ≡ false
    → migrate_each opts d (f ∷ fs) b ≡ migrate_each opts d fs (migrate_one opts d f b)
unfolding migrate_each
migrate_each-go opts d f fs b e = ground arith

-- What the counts of a batch come to.
abbrev Tally : List File → Batch → Batch → Type 0
Tally fs b end =
    (end.scanned ≤ b.scanned + length fs)
    × (end.cancelled ≡ false
        → (end.scanned ≡ b.scanned + length fs) × (settled end ≡ settled b + length fs))

migrate_each-counts :
    (opts : MigrateOpts) (d : Drivers) (fs : List File) (b : Batch)
    → Tally fs b (migrate_each opts d fs b)
unfolding migrate_each
migrate_each-counts opts d [] b = (omega arith, λ h. (omega arith, omega arith))
migrate_each-counts opts d (f ∷ fs) b =
    let one = migrate_one opts d f b in
    let (here, there) = migrate_one-counts opts d f b in
    let (most, all) = migrate_each-counts opts d fs one in
    elim (Bool-cases one.cancelled) [
      | inl e ↦
          subst (Tally (f ∷ fs) b) (sym (migrate_each-stop opts d f fs b e))
            (omega (arith, here), λ h. absurd (ground arith))
      | inr e ↦ subst (Tally (f ∷ fs) b) (sym (migrate_each-go opts d f fs b e)) (
        ground (arith, here, most),
        λ h. (omega (arith, here, (all h).0), omega (arith, there e, (all h).1)),
      )
    ]

-- A file's row after a batch: as it was, or moved, and then its bytes are at the target.
abbrev pub IsMove : MigrateOpts → Drivers → File → File → Type 0
IsMove opts d row after =
    (after ≡ row)
    ⊎ ((after ≡ repointed opts.to_policy_id row)
        × (row.storage_policy_id ≡ opts.from_policy_id)
        × (opts.dry_run ≡ false)
        × (d.copy_object row.path ≡ copied)
        × (is_verified opts d row ≡ true))

module _ (opts : MigrateOpts) (d : Drivers) (files : List File) where
  abbrev IsOnCourse : Batch → Type 0
  IsOnCourse b =
      (j : ℕ) (row : File)
      → find_id file_key j files ≡ some row
      → (after : File) × (find_id file_key j b.files ≡ some after) × IsMove opts d row after

  -- The statement on files is reached only past the copy and its check.
  migrate_one-files :
      (f : File) (b : Batch)
      → ((migrate_one opts d f b).files ≡ b.files)
        ⊎ (((migrate_one opts d f b).files
              ≡ update_where
                  (still_at f.id opts.from_policy_id)
                  (repointed opts.to_policy_id)
                  b.files)
            × (opts.dry_run ≡ false)
            × (d.copy_object f.path ≡ copied)
            × (is_verified opts d f ≡ true))
  unfolding migrate_one
  migrate_one-files f b = elim (Bool-cases (any (still_at f.id opts.from_policy_id) b.files)) [
    | inl e ↦ ground arith
    | inr e ↦ inl (ground arith)
  ]

  migrate_one-moves :
      (f : File) (b : Batch)
      → find_id file_key f.id files ≡ some f
      → IsOnCourse b
      → IsOnCourse (migrate_one opts d f b)
  migrate_one-moves f b read course j row found =
      let (after, there, moved) = course j row found in
      let p = still_at f.id opts.from_policy_id in
      elim (migrate_one-files f b) [
        | inl e ↦ (after, rw e there, moved)
        | inr (e, wet, copies, sound) ↦
            let kept =
              find_id-updated p (repointed opts.to_policy_id) file_key j b.files {y = after}
                (λ x. refl) there in
            elim (Bool-cases (p after)) [
              | inr c ↦ (after, rw e (rw c at kept), moved)
              | inl c ↦ (
                repointed opts.to_policy_id after,
                rw e (rw c at kept),
                elim moved [
                  | inl same ↦
                      let row_id = find_id-found file_key j files found in
                      let read_row : f ≡ row = ground (arith, read, found, row_id, same, c) in
                      inr (
                        ap (repointed opts.to_policy_id) same,
                        ground (arith, same, c),
                        wet,
                        subst (λ z. d.copy_object z.path ≡ copied) read_row copies,
                        subst (λ z. is_verified opts d z ≡ true) read_row sound,
                      )
                  | inr (same, at, wet', copies', sound') ↦
                      inr (ap (repointed opts.to_policy_id) same, at, wet', copies', sound')
                ],
              )
            ]
      ]

  migrate_each-moves :
      (fs : List File) (b : Batch)
      → All (λ f. find_id file_key f.id files ≡ some f) fs
      → IsOnCourse b
      → IsOnCourse (migrate_each opts d fs b)
  unfolding migrate_each
  migrate_each-moves [] b read course = course
  migrate_each-moves (f ∷ fs) b read course =
      let one = migrate_one-moves f b read.0 course in
      elim (Bool-cases (migrate_one opts d f b).cancelled) [
        | inl e ↦ subst IsOnCourse (sym (migrate_each-stop opts d f fs b e)) one
        | inr e ↦
            subst IsOnCourse (sym (migrate_each-go opts d f fs b e))
              (migrate_each-moves fs (migrate_one opts d f b) read.1 one)
      ]

to_scan-rows :
    (opts : MigrateOpts) (db : Db)
    → ((i : ℕ) → rows_with file_key i db.files ≤ 1)
    → All (λ f. find_id file_key f.id db.files ≡ some f) (to_scan opts db.images db.files)
to_scan-rows opts db u =
    let found = found_rows file_key (selected opts db.images) db.files u in
    elim (Bool-cases (ltb 0 opts.limit)) [
      | inl e ↦ rw e (All-take _ opts.limit (keep (selected opts db.images) db.files) found)
      | inr e ↦ rw e found
    ]

-- A batch points a file's row at the target policy only where the row stood at the source policy, it
-- is no dry run, the object was copied, and, where that is asked for, the copy has the size of
-- the file; every other row is as it was. It scans no more files than it selected, and one that is
-- not interrupted scans all of them and counts each once as copied, skipped or failed. The files
-- have the ids that the table gives them.
pub migrate_files-moves :
    (policies : List StoragePolicy) (opts : MigrateOpts) (d : Drivers) (checks : ℕ) (db : Db)
    {b : Batch}
    → ((i : ℕ) → rows_with file_key i db.files ≤ 1)
    → migrate_files policies opts d checks db ≡ ok b
    → (b.scanned ≤ length (to_scan opts db.images db.files))
      × (b.cancelled ≡ false
          → (b.scanned ≡ length (to_scan opts db.images db.files))
            × (b.copied_files + b.skipped + b.failures ≡ b.scanned))
      × ((j : ℕ) (row : File)
          → find_id file_key j db.files ≡ some row
          → (after : File) × (find_id file_key j b.files ≡ some after) × IsMove opts d row after)
unfolding migrate_files
migrate_files-moves policies opts d checks db {b = b} u h =
    let fs = to_scan opts db.images db.files in
    let start = empty_batch checks db.files in
    let same : migrate_each opts d fs start ≡ b = ground arith in
    let (most, all) = subst (Tally fs start) same (migrate_each-counts opts d fs start) in
    (
      omega (arith, most),
      λ live. (omega (arith, (all live).0), omega (arith, (all live).0, (all live).1)),
      subst (IsOnCourse opts d db.files) same (
          migrate_each-moves opts d db.files fs start (to_scan-rows opts db u)
            (λ j row found. (row, found, inl refl))),
    )
