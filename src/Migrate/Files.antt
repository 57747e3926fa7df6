-- ===== src/Migrate/Files.antt =====
-- MigrateFiles of internal/service/storagesvc/migrate.go. What the storage drivers answer for a path is
-- an argument; the sample paths and the texts of errors are left out, and so are the thumbnails,
-- which are copied as far as it goes.
use imgli.Common.{
  ℕ, ◌+◌, ◌-◌, Bool, true, false, not, ◌&&◌, ◌||◌, Option, none, some, List, [], ◌∷◌, ◌++◌, String,
  ltb, leb, any, keep, take, update_where, eq_opt, ◌==◌, if◌then◌else◌,
}
use imgli.Common.Outcome.{Outcome, ok, err}
use imgli.Table.{find_id}
use imgli.Model.{File, Image}
use imgli.Store.{Db}
use imgli.Store.Moderate.{is_live}
use imgli.Migrate.{
  StoragePolicy, policy_key, MigrateError, policy_required, same_policy, target_missing,
  target_disabled, source_missing,
}

-- copyObject: the source is missing, reading or writing failed, or the object is there now.
pub data CopyResult : Type 0 where
  missing broken copied : CopyResult

-- src.Exists, copyObject, objectSize
pub record Drivers : Type 0 where
  pub exists : String → Outcome String Bool
  pub copy_object : String → CopyResult
  pub object_size : String → Outcome String ℕ

-- MigrateOpts; `in_window` is the condition on created_at.
pub record MigrateOpts : Type 0 where
  pub from_policy_id : ℕ
  pub to_policy_id : ℕ
  pub dry_run : Bool
  pub delete_source : Bool
  pub limit : ℕ
  pub after_id : ℕ
  pub user_id : Option ℕ
  pub in_window : File → Bool
  pub verify_size : Bool

pub record Batch : Type 0 where
  pub scanned : ℕ
  pub copied_files : ℕ
  pub skipped : ℕ
  pub failures : ℕ
  pub last_file_id : ℕ
  pub files : List File
  pub deleted : List String
  pub checks : ℕ
  pub cancelled : Bool

-- `id IN (SELECT file_id FROM images WHERE user_id = ?)`, which leaves out the recycle bin.
abbrev of_owner : Option ℕ → List Image → File → Bool
of_owner none images f = true
of_owner (some uid) images f =
    any (λ (i : Image). i.file_id == f.id && eq_opt i.user_id (some uid) && is_live i) images

abbrev pub selected : MigrateOpts → List Image → File → Bool
selected opts images f =
    f.storage_policy_id == opts.from_policy_id
    && ltb opts.after_id f.id
    && of_owner opts.user_id images f
    && opts.in_window f

abbrev pub to_scan : MigrateOpts → List Image → List File → List File
to_scan opts images files =
    let rows = keep (selected opts images) files in
    if ltb 0 opts.limit then take opts.limit rows else rows

abbrev pub size_matches : Drivers → File → Bool
size_matches d f = elim (d.object_size f.path) [ err e ↦ false | ok n ↦ n == f.size ]

abbrev pub is_verified : MigrateOpts → Drivers → File → Bool
is_verified opts d f = not opts.verify_size || not (ltb 0 f.size) || size_matches d f

abbrev pub repointed : ℕ → File → File
repointed policy f = record f { storage_policy_id = policy }

-- UPDATE files SET storage_policy_id WHERE id = ? AND storage_policy_id = ?
abbrev pub still_at : ℕ → ℕ → File → Bool
still_at id from f = f.id == id && f.storage_policy_id == from

abbrev pub failing : Batch → Batch
failing b = record b { failures = b.failures + 1 }

abbrev pub skipping : Batch → Batch
skipping b = record b { skipped = b.skipped + 1 }

-- What follows the copy of an object.
abbrev pub repoint : MigrateOpts → Drivers → File → Batch → Batch
repoint opts d f b =
    if not (is_verified opts d f)
    then failing b
    else if any (still_at f.id opts.from_policy_id) b.files
    then record b {
      files =
          update_where (still_at f.id opts.from_policy_id) (repointed opts.to_policy_id) b.files;
      copied_files = b.copied_files + 1;
      deleted = if opts.delete_source then b.deleted ++ f.path ∷ [] else b.deleted;
    }
    else skipping b

abbrev pub transfer : MigrateOpts → Drivers → File → Batch → Batch
transfer opts d f b =
    if opts.dry_run
    then (elim (d.exists f.path) [
      | err e ↦ failing b
      | ok there ↦ if there then record b { copied_files = b.copied_files + 1 } else skipping b
    ])
    else (elim (d.copy_object f.path) [
      | missing ↦ skipping b
      | broken ↦ failing b
      | copied ↦ repoint opts d f b
    ])

-- The file is counted and remembered before the context is looked at.
abbrev pub scan_file : File → Batch → Batch
scan_file f b = record b {
  scanned = b.scanned + 1;
  last_file_id = if ltb b.last_file_id f.id then f.id else b.last_file_id;
}

unfoldable pub migrate_one : MigrateOpts → Drivers → File → Batch → Batch
migrate_one opts d f b =
    if leb b.checks 0
    then record (scan_file f b) { cancelled = true }
    else transfer opts d f (record (scan_file f b) { checks = b.checks - 1 })

unfoldable pub migrate_each : MigrateOpts → Drivers → List File → Batch → Batch
migrate_each opts d [] b = b
migrate_each opts d (f ∷ fs) b =
    let one = migrate_one opts d f b in
    let rest = migrate_each opts d fs one in if one.cancelled then one else rest

abbrev pub empty_batch : ℕ → List File → Batch
empty_batch checks files = record {
  scanned = 0;
  copied_files = 0;
  skipped = 0;
  failures = 0;
  last_file_id = 0;
  files = files;
  deleted = [];
  checks = checks;
  cancelled = false;
}

-- The checks of the options; a job holds the source policy already.
abbrev opts_error : List StoragePolicy → MigrateOpts → Option MigrateError
opts_error policies opts =
    if opts.from_policy_id == 0 || opts.to_policy_id == 0
    then some policy_required
    else if opts.from_policy_id == opts.to_policy_id
    then some same_policy
    else elim (find_id policy_key opts.from_policy_id policies) [
      | none ↦ some source_missing
      | some from ↦ elim (find_id policy_key opts.to_policy_id policies) [
        | none ↦ some target_missing
        | some to ↦ if not to.enabled then some target_disabled else none
      ]
    ]

unfoldable pub migrate_files :
    List StoragePolicy → MigrateOpts → Drivers → ℕ → Db → Outcome MigrateError Batch
migrate_files policies opts d checks db = elim (opts_error policies opts) [
  | some e ↦ err e
  | none ↦ ok (migrate_each opts d (to_scan opts db.images db.files) (empty_batch checks db.files))
]
