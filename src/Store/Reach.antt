-- ===== src/Store/Reach.antt =====
-- Every history of the image store: any sequence of committed transactions, in any order, as
-- concurrent requests interleave them.
use mathlib.Core.Path.{subst}
use imgli.Common.{
  ap, sym, ◌∙◌, ℕ, ◌≡◌, refl, false, Option, some, List, [], String, arith, sum_of, All,
}
use imgli.Common.Outcome.{ok, ok-injective}
use imgli.Table.{find_id, rows_with}
use imgli.Model.{User, File, Image, Time, Visibility, same_visibility}
use imgli.Store.{Db, user_key, find_file, find_image}
use imgli.Store.Uploads.{Upload, find_existing, commit_new, commit_instant}
use imgli.Store.Trash.{
  PhysicalDelete, soft_delete, restore, purge_one, purge_all, purge_expired_one, admin_purge,
}
use imgli.Store.Lifecycle.{
  sweep_of, expire_one, trash_one, retain_one, force_one, Applied, clamp_one, UserRows,
  delete_user_data,
}
use imgli.Store.SweepLaws.{expire_one-IsTurn, trash_one-IsTurn, retain_one-IsConsistent, forced}
use imgli.Store.ClampLaws.{clamp_one-IsConsistent}
use imgli.Store.EraseLaws.{delete_user_data-erases}
use imgli.Store.Rehome.{resolve_file_for_surface, move_image, rehome}
use imgli.Store.Invariant.{IsConsistent, used_of}
use imgli.Store.Reuse.{answer_with, answer_with-IsConsistent}
use imgli.Store.NewLaws.{commit_new-IsConsistent}
use imgli.Store.UploadLaws.{existing-content, commit_instant-IsConsistent}
use imgli.Store.TrashLaws.{soft_delete-IsConsistent, restore-IsConsistent}
use imgli.Store.PurgeLaws.{purge_one-IsConsistent}
use imgli.Store.LoopLaws.{IsSnapshot, purge_all-IsConsistent}
use imgli.Store.ExpiryLaws.{purge_expired_one-step, admin_purge-IsConsistent}
use imgli.Store.ResolveLaws.{resolve-IsResolved}
use imgli.Store.RehomeLaws.{move_image-IsConsistent, rehome-IsConsistent}

-- Two rows of one hash, on two surfaces: the file that an image is moved from, and the one it is moved
-- to. The hash and the surface of a row never change.
abbrev pub IsTwin : File → File → Visibility → Type 0
IsTwin old new target =
    (new.hash ≡ old.hash) × (new.surface ≡ target) × (same_visibility old.surface target ≡ false)

-- One committed transaction, whatever others were committed since the rows that it works on were read.
-- A loop over images, as in the sweeps, takes one step for each image. `content_size` gives the length
-- of the bytes behind a hash.
pub data Step (content_size : String → ℕ) (db db' : Db) : Type 0 where
  -- Save of bytes for which no file was found.
  uploaded :
      (up : Upload)
      → up.size ≡ content_size up.hash
      → commit_new up db ≡ ok db'
      → Step content_size db db'
  -- Save of bytes for which a file was found, in a store of some time before; the row is still there.
  joined :
      (up : Upload) (seen : Db) (file row : File)
      → up.size ≡ content_size up.hash
      → find_existing up seen ≡ some file
      → find_file file.id db ≡ some row
      → row.hash ≡ file.hash
      → row.surface ≡ file.surface
      → commit_instant up file.id db ≡ ok db'
      → Step content_size db db'
  -- Save, answered with an image that was found.
  reused : (prev : Image) (up : Upload) → answer_with prev up db ≡ db' → Step content_size db db'
  deleted :
      (uid : ℕ) (key : String) (now : Time)
      → soft_delete uid key now db ≡ ok db'
      → Step content_size db db'
  restored : (uid : ℕ) (key : String) → restore uid key db ≡ ok db' → Step content_size db db'
  -- PurgePermanent, or one image of PurgeExpiredTrash.
  purged :
      (img : Image) (doomed : Option PhysicalDelete)
      → IsSnapshot db img
      → purge_one img db ≡ ok (doomed, db')
      → Step content_size db db'
  -- EmptyTrash.
  emptied :
      (imgs : List Image) (doomed : List PhysicalDelete)
      → All (IsSnapshot db) imgs
      → purge_all imgs db ≡ ok (doomed, db')
      → Step content_size db db'
  -- One image of PurgeExpiredImages.
  image_expires :
      (now : Time) (img : Image) (doomed : Option PhysicalDelete)
      → IsSnapshot db img
      → purge_expired_one now img db ≡ (doomed, db')
      → Step content_size db db'
  admin_purged :
      (key : String) (now : Time) (doomed : Option PhysicalDelete)
      → admin_purge key now db ≡ ok (doomed, db')
      → Step content_size db db'
  -- resolveFileForSurface, and the transaction of rehomeWithUpdates; then both with nothing between.
  copied :
      (src : File) (target : Visibility) (path : String) (fid : ℕ)
      → find_file src.id db ≡ some src
      → resolve_file_for_surface src target path db ≡ (fid, db')
      → Step content_size db db'
  moved :
      (img : Image) (old row new : File) (target : Visibility) (doomed : Option PhysicalDelete)
      → find_file old.id db ≡ some row
      → find_file new.id db ≡ some new
      → IsTwin row new target
      → move_image img old new.id target db ≡ ok (doomed, db')
      → Step content_size db db'
  rehomed :
      (img : Image) (old : File) (target : Visibility) (path : String)
      (doomed : Option PhysicalDelete)
      → find_image img.id db ≡ some img
      → find_file old.id db ≡ some old
      → img.file_id ≡ old.id
      → same_visibility old.surface target ≡ false
      → rehome img old target path db ≡ ok (doomed, db')
      → Step content_size db db'
  -- One image of RunCleanup, of SoftDeleteByGroupRetention and of PurgeByGroupForceMaxAge.
  cleaned_up :
      (now : Time) (img : Image)
      → IsSnapshot db img
      → (expire_one now img (sweep_of 0 db)).db ≡ db'
      → Step content_size db db'
  trash_cleaned :
      (img : Image)
      → IsSnapshot db img
      → (trash_one img (sweep_of 0 db)).db ≡ db'
      → Step content_size db db'
  retained :
      (now : Time) (img : Image)
      → (retain_one now img (sweep_of 0 db)).db ≡ db'
      → Step content_size db db'
  aged_out :
      (now : Time) (img : Image)
      → (force_one now img (sweep_of 0 db)).db ≡ db'
      → Step content_size db db'
  -- One image of ApplyLifecycle.
  clamped :
      (max_at : Time) (img : Image) (a : Applied)
      → clamp_one max_at img (record { updated = 0; skipped = 0; db = db }) ≡ a
      → a.db ≡ db'
      → Step content_size db db'
  user_deleted :
      (uid : ℕ) (now : Time) (rows rows' : UserRows) (doomed : List PhysicalDelete)
      → delete_user_data uid now rows db ≡ ok (doomed, rows', db')
      → Step content_size db db'

pub data Reach (content_size : String → ℕ) (start : Db) : Db → Type 0 where
  here : Reach content_size start start
  next :
      {s t : Db} → Reach content_size start s → Step content_size s t → Reach content_size start t

-- The store of a new site: users who have uploaded nothing.
abbrev pub start_with : List User → Db
start_with users = record { users = users; files = []; images = []; next_file = 1; next_image = 1 }

abbrev pub HasNothing : List User → Type 0
HasNothing users = (uid : ℕ) → used_of (find_id user_key uid users) ≡ 0

Step-IsConsistent :
    (cs : String → ℕ) {db db' : Db} → Step cs db db' → IsConsistent cs db → IsConsistent cs db'
Step-IsConsistent cs {db} {db'} (uploaded up size h) c =
    commit_new-IsConsistent cs up size db db' c h
Step-IsConsistent cs {db} {db'} (joined up seen file row size e there same face h) c =
    let (hash, surface) = existing-content up seen e in
    commit_instant-IsConsistent cs up size file.id row db db' c there (same ∙ hash) (face ∙ surface)
      h
Step-IsConsistent cs {db} (reused prev up e) c =
    subst (IsConsistent cs) e (answer_with-IsConsistent cs prev up db c)
Step-IsConsistent cs {db} (deleted uid key now e) c = soft_delete-IsConsistent cs uid key now db c e
Step-IsConsistent cs {db} (restored uid key e) c = restore-IsConsistent cs uid key db c e
Step-IsConsistent cs {db} (purged img doomed snap e) c = purge_one-IsConsistent cs img db c snap e
Step-IsConsistent cs {db} (emptied imgs doomed snaps e) c =
    purge_all-IsConsistent cs imgs db c snaps e
Step-IsConsistent cs {db} (image_expires now img doomed snap e) c =
    subst (λ q. IsConsistent cs q.1) e (purge_expired_one-step cs now img db c snap).0
Step-IsConsistent cs {db} (admin_purged key now doomed e) c =
    admin_purge-IsConsistent cs key now db c e
Step-IsConsistent cs {db} (copied src target path fid there e) c =
    subst (λ q. IsConsistent cs q.1) e (resolve-IsResolved cs db c src target path there).consistent
Step-IsConsistent cs {db} (moved img old row new target doomed there new_there twin e) c =
    move_image-IsConsistent cs img old row new target db c there new_there twin.0 twin.1 twin.2 e
Step-IsConsistent cs {db} (rehomed img old target path doomed i o r a e) c =
    rehome-IsConsistent cs img old target path db c i o r a e
Step-IsConsistent cs {db} (cleaned_up now img snap e) c =
    subst (IsConsistent cs) e ((expire_one-IsTurn cs now).consistent img (sweep_of 0 db) c snap)
Step-IsConsistent cs {db} (trash_cleaned img snap e) c =
    subst (IsConsistent cs) e ((trash_one-IsTurn cs).consistent img (sweep_of 0 db) c snap)
Step-IsConsistent cs {db} (retained now img e) c =
    subst (IsConsistent cs) e (retain_one-IsConsistent cs now img (sweep_of 0 db) c)
Step-IsConsistent cs {db} (aged_out now img e) c =
    subst (IsConsistent cs) e (forced cs now img (sweep_of 0 db) c).0
Step-IsConsistent cs {db} (clamped max_at img a e same) c =
    subst (IsConsistent cs) (ap (λ z. z.db) e ∙ same)
      (clamp_one-IsConsistent cs max_at img (record { updated = 0; skipped = 0; db = db }) c)
Step-IsConsistent cs {db} (user_deleted uid now rows rows' doomed e) c =
    let (doomed', left, db'', ran, k, none_left, no_user, no_session, others) =
      delete_user_data-erases cs uid now rows db c in
    subst (λ q. IsConsistent cs q.2) (ok-injective (sym ran ∙ e)) k

start-IsConsistent :
    (cs : String → ℕ) (users : List User) → HasNothing users → IsConsistent cs (start_with users)
unfolding sum_of find_id rows_with
start-IsConsistent cs users h = record {
  files_keyed = record { unique = λ i. omega arith; fresh = λ i le. refl };
  images_keyed = record { unique = λ i. omega arith; fresh = λ i le. refl };
  counted = λ fid. refl;
  charged = h;
  sized = λ fid. refl;
  placed = refl;
}

-- After any history of committed transactions (uploads, deletions, restores, purges, the turns of the
-- sweeps, deleted users, copies of files and moves of images between surfaces) each file's ref_count
-- is the number of images that refer to it, each user's used_storage is the size of their images'
-- files, and every image's file stands on the surface that its visibility names. A history starts
-- with users who have uploaded nothing, and each upload's size is the one that its hash determines.
-- What a transaction works on may have been read before others were committed, but for this: the copy
-- of an image that a purge works on names the file and the owner of the row that is there, if one is;
-- a file is copied from the row that is there; and AdminPurge reads its image with its transaction.
-- The source does not see to the first: a change of visibility between the read and the purge breaks it.
pub Reach-IsConsistent :
    (cs : String → ℕ) (users : List User) {db : Db}
    → HasNothing users
    → Reach cs (start_with users) db
    → IsConsistent cs db
Reach-IsConsistent cs users h here = start-IsConsistent cs users h
Reach-IsConsistent cs users h (next r s) = Step-IsConsistent cs s (Reach-IsConsistent cs users h r)
