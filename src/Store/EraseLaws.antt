-- ===== src/Store/EraseLaws.antt =====
-- Lemmas on DeleteUserData of internal/service/imagesvc/purge.go: which rows are left.
use imgli.Common.{
  ℕ, ◌≤◌, ◌≡◌, refl, ◌∙◌, ap, inl, inr, Bool, ◌&&◌, not, true, false, none, some, List, [], ◌∷◌,
  String, arith, ◌==◌, keep, any, update_where, sum_of, All, Bool-cases, Option-cases,
  if◌then◌else◌,
}
use imgli.Common.Outcome.{ok}
use imgli.Table.{find_id, delete_id, rows_with}
use imgli.Table.Laws.{find_id-delete, rows_with-delete}
use imgli.Table.Conditional.{chosen_row, first-found}
use imgli.Table.Counts.{any-keep, any-first, find_id-updated}
use imgli.Table.Members.{All-map, All-keep, All-both, keep-holds, found_rows}
use imgli.Model.{File, Image, Time}
use imgli.Auth.Sessions.{end_sessions, of_user}
use imgli.Store.{file_key, Db, image_key, user_key, find_image, find_user}
use imgli.Store.Moderate.{is_live}
use imgli.Store.Trash.{PhysicalDelete, in_trash, mark_deleted, update_images, purge_all, cons_some}
use imgli.Store.Lifecycle.{UserRows, delete_rows, of_uploader, delete_user_data}
use imgli.Store.Invariant.{IsConsistent, usage, traits}
use imgli.Store.PurgeLaws.{purge_one-images, purge_one-IsConsistent}
use imgli.Store.PurgeSafety.{purge_one-safe}
use imgli.Store.TrashLaws.{mark_deleted-IsNeutral, update_images-IsConsistent}
use imgli.Store.LoopLaws.{IsSnapshot, purge_one-rows, queried}

module _ {A : Type 0} (id : A → ℕ) where
  -- The rows that are left when those of a list are deleted.
  abbrev pub delete_all : List A → List A → List A
  delete_all [] ys = ys
  delete_all (x ∷ xs) ys = delete_all xs (delete_id id (id x) ys)

  module _ (p : A → Bool) where
    abbrev Covers : List A → List A → Type 0
    Covers xs ys =
        (y : A) → find_id id (id y) ys ≡ some y → p y ≡ true → any (λ x. id x == id y) xs ≡ true

    keep-Covers : (ys : List A) → Covers (keep p ys) ys
    unfolding keep any find_id
    keep-Covers [] y f h = absurd (ground arith)
    keep-Covers (x ∷ ys) y f h = ground (arith, keep-Covers ys y)

    none_left :
        (xs ys : List A)
        → ((i : ℕ) → rows_with id i ys ≤ 1)
        → Covers xs ys
        → any p (delete_all xs ys) ≡ false
    unfolding any
    none_left [] ys u c = elim (Bool-cases (any p ys)) [
      | inr e ↦ e
      | inl e ↦
          let (y, f) = any-first p (λ z. z) ys e in
          let (holds, found) = first-found id p ys f u in absurd (ground (arith, c y found holds))
    ]
    none_left (x ∷ xs) ys u c =
        none_left xs (delete_id id (id x) ys)
          (λ i. ground (arith, u i, rows_with-delete id (id x) i ys))
          (λ y f h. ground (arith, c y, find_id-delete id (id x) (id y) ys))

    -- Deleting the rows that meet a condition leaves none that does.
    pub delete_all-none :
        (ys : List A)
        → ((i : ℕ) → rows_with id i ys ≤ 1)
        → any p (delete_all (keep p ys) ys) ≡ false
    delete_all-none ys u = none_left (keep p ys) ys u (keep-Covers ys)

  -- A row that is in none of them stays.
  pub find_id-delete_all :
      (j : ℕ) (xs ys : List A)
      → find_id id j (delete_all xs ys)
        ≡ (if any (λ x. id x == j) xs then none else find_id id j ys)
  unfolding any
  find_id-delete_all j [] ys = refl
  find_id-delete_all j (x ∷ xs) ys =
      ground
        (arith, find_id-delete_all j xs (delete_id id (id x) ys), find_id-delete id (id x) j ys)

-- An image whose row, where it is there, is in the trash.
abbrev IsDoomed : Db → Image → Type 0
IsDoomed db img = (row : Image) → find_image img.id db ≡ some row → in_trash row ≡ true

purge_all-images :
    (cs : String → ℕ) (imgs : List Image) (db : Db)
    → IsConsistent cs db
    → All (IsSnapshot db) imgs
    → All (IsDoomed db) imgs
    → (r : List PhysicalDelete × Db) × (purge_all imgs db ≡ ok r)
      × IsConsistent cs r.1
      × (r.1.images ≡ delete_all image_key imgs db.images)
unfolding purge_all
purge_all-images cs [] db c s d = (([], db), refl, c, refl)
purge_all-images cs (img ∷ imgs) db c s d =
    let safe = purge_one-safe cs img db c s.0 in
    let one = safe.0 in
    let ran = safe.1 in
    let images = purge_one-images cs img db c s.0 d.0 ran in
    let kept = purge_one-IsConsistent cs img db c s.0 ran in
    let still_doomed : All (IsDoomed one.1) imgs =
      All-map imgs
        (λ other dies row f.
          dies row (ground (arith, images, find_id-delete image_key img.id other.id db.images)))
        d.1 in
    let (rest, ended, c', left) =
      purge_all-images cs imgs one.1 kept
        (All-map imgs (λ other. purge_one-rows cs img db other c s.0 ran) s.1) still_doomed in
    (
      (cons_some one.0 rest.0, rest.1),
      rw (ran, ended) refl,
      c',
      left ∙ ap (λ xs. delete_all image_key imgs xs) images,
    )

any-keep-not : {A : Type 0} (p : A → Bool) (xs : List A) → any p (keep (λ x. not (p x)) xs) ≡ false
unfolding any keep
any-keep-not p [] = refl
any-keep-not p (x ∷ xs) = ground (arith, any-keep-not p xs)

-- Without images, no bytes.
no_usage :
    (uid : ℕ) (files : List File) (images : List Image)
    → any (of_uploader uid) images ≡ false
    → usage uid files images ≡ 0
unfolding any sum_of
no_usage uid files [] h = refl
no_usage uid files (i ∷ images) h =
    ground
      (arith, no_usage uid files images, Option-cases (traits (find_id file_key i.file_id files)))

marked_rows :
    (uid : ℕ) (now : Time) (images : List Image)
    → All
        (λ i. of_uploader uid i ≡ true → in_trash i ≡ true)
        (update_where (λ i. of_uploader uid i && is_live i) (mark_deleted now) images)
unfolding update_where
marked_rows uid now [] = tt
marked_rows uid now (i ∷ images) = (λ h. ground arith, marked_rows uid now images)

module _ (cs : String → ℕ) (uid : ℕ) (now : Time) (db : Db) (c : IsConsistent cs db) where
  abbrev marked : Db
  marked = (update_images (λ i. of_uploader uid i && is_live i) (mark_deleted now) db).1

  marked-IsConsistent : IsConsistent cs marked
  marked-IsConsistent =
      update_images-IsConsistent cs (λ i. of_uploader uid i && is_live i) (mark_deleted now)
        (mark_deleted-IsNeutral now) db c

  abbrev theirs : List Image
  theirs = keep (of_uploader uid) marked.images

  -- All of the user's images are in the trash once they are marked.
  theirs-IsDoomed : All (IsDoomed marked) theirs
  unfolding update_images
  theirs-IsDoomed =
      let found =
        found_rows image_key (of_uploader uid) marked.images
          marked-IsConsistent.images_keyed.unique in
      let trashed = All-keep _ (of_uploader uid) marked.images (marked_rows uid now db.images) in
      All-map theirs (λ x facts row f. ground arith)
        (All-both _ _ theirs found
          (All-both _ _ theirs trashed (keep-holds (of_uploader uid) marked.images)))

  erased :
      (r : List PhysicalDelete × Db) × (purge_all theirs marked ≡ ok r)
      × IsConsistent cs r.1
      × (r.1.images ≡ delete_all image_key theirs marked.images)
  erased =
      purge_all-images cs theirs marked marked-IsConsistent
        (queried cs (of_uploader uid) marked marked-IsConsistent) theirs-IsDoomed

  abbrev without_user : Db → Db
  without_user db' = record db' { users = delete_id user_key uid db'.users }

  without_user-IsConsistent :
      (db' : Db)
      → any (of_uploader uid) db'.images ≡ false
      → IsConsistent cs db'
      → IsConsistent cs (without_user db')
  without_user-IsConsistent db' none_left k = record {
    files_keyed = k.files_keyed;
    images_keyed = k.images_keyed;
    counted = k.counted;
    charged = λ v. ground (
      arith,
      find_id-delete user_key uid v db'.users,
      k.charged v,
      no_usage uid db'.files db'.images,
    );
    sized = k.sized;
    placed = k.placed;
  }

  -- Another user's image is as it was.
  others-kept :
      (other : Image)
      → find_image other.id db ≡ some other
      → of_uploader uid other ≡ false
      → find_id image_key other.id (delete_all image_key theirs marked.images) ≡ some other
  unfolding update_images
  others-kept other f h =
      let p = λ (i : Image). of_uploader uid i && is_live i in
      let there =
        find_id-updated p (mark_deleted now) image_key other.id db.images {y = other} (λ i. refl)
          f in
      elim (Bool-cases (any (λ i. i.id == other.id && of_uploader uid i) marked.images)) [
        | inl e ↦
            let (y, found, holds) =
              chosen_row image_key other.id (of_uploader uid) marked.images e
                (marked-IsConsistent.images_keyed.unique other.id) in
            absurd (ground arith)
        | inr e ↦ ground (
          arith,
          find_id-delete_all image_key other.id theirs marked.images,
          any-keep image_key (of_uploader uid) other.id marked.images,
        )
      ]

sessions_ended :
    (uid : ℕ) (rows : UserRows) → any (of_user uid) (delete_rows uid rows).accounts.sessions ≡ false
unfolding delete_rows end_sessions
sessions_ended uid rows = any-keep-not (of_user uid) rows.accounts.sessions

-- Deleting a user's data succeeds on a consistent store and leaves a consistent one, in which the user
-- has no row and no image, in the trash or not, and no session; the images of others are as they were.
pub delete_user_data-erases :
    (cs : String → ℕ) (uid : ℕ) (now : Time) (rows : UserRows) (db : Db)
    → IsConsistent cs db
    → (doomed : List PhysicalDelete) × (rows' : UserRows) × (db' : Db) × (delete_user_data uid now
          rows db
        ≡ ok (doomed, rows', db'))
      × IsConsistent cs db'
      × (any (of_uploader uid) db'.images ≡ false)
      × (find_user uid db' ≡ none)
      × (any (of_user uid) rows'.accounts.sessions ≡ false)
      × ((other : Image)
          → find_image other.id db ≡ some other
          → of_uploader uid other ≡ false
          → find_image other.id db' ≡ some other)
unfolding delete_user_data
delete_user_data-erases cs uid now rows db c =
    let (r, ran, k, images) = erased cs uid now db c in
    let none_left : any (of_uploader uid) r.1.images ≡ false = rw images (
      delete_all-none image_key (of_uploader uid) (marked cs uid now db c).images
        (marked-IsConsistent cs uid now db c).images_keyed.unique) in
    (
      r.0,
      delete_rows uid rows,
      without_user cs uid now db c r.1,
      rw (delete_user_data, ran) refl,
      without_user-IsConsistent cs uid now db c r.1 none_left k,
      none_left,
      ground (arith, find_id-delete user_key uid uid r.1.users),
      sessions_ended uid rows,
      λ other f h. rw images (others-kept cs uid now db c other f h),
    )
