-- ===== src/Store/LoopLaws.antt =====
-- Lemmas on the loops of internal/service/imagesvc/purge.go (EmptyTrash, PurgeExpiredTrash): rows
-- read before the loop, and the rows that they find when their turn comes.
use mathlib.Core.Path.{subst}
use imgli.Common.{
  ℕ, ◌≡◌, sym, ◌∙◌, inl, inr, Bool, ◌&&◌, Option, none, some, List, [], ◌∷◌, String, arith, eq_opt,
  first, keep, All, Option-cases,
}
use imgli.Common.Outcome.{ok, >>=-eq-ok, ok-injective, Outcome-cases}
use imgli.Table.Laws.{find_id-delete}
use imgli.Table.Conditional.{first-found}
use imgli.Table.Members.{All-map, found_rows}
use imgli.Model.{Image, Time}
use imgli.Store.{Db, image_key, find_image}
use imgli.Store.Trash.{
  PhysicalDelete, purge_one, purge_permanent, purge_all, trash_of, empty_trash, purge_or_skip,
  purge_each, trash_expired, purge_expired_trash, owned_by, in_trash,
}
use imgli.Store.Invariant.{IsConsistent}
use imgli.Store.DropLaws.{drop_file-same}
use imgli.Store.PurgeLaws.{
  Agrees, without_image, purge_one-cases, purge_one-IsConsistent, found_here,
}

-- An image that was read earlier: if its row is still there, it is as it was.
abbrev pub IsSnapshot : Db → Image → Type 0
IsSnapshot db img = (row : Image) → find_image img.id db ≡ some row → Agrees img row

-- A purge changes no row of another image.
pub purge_one-rows :
    (cs : String → ℕ) (img : Image) (db : Db) {r : Option PhysicalDelete × Db} (other : Image)
    → IsConsistent cs db
    → IsSnapshot db img
    → purge_one img db ≡ ok r
    → IsSnapshot db other
    → IsSnapshot r.1 other
purge_one-rows cs img db {r = r} other c agree h snap = elim (purge_one-cases cs img db c agree) [
  | inl e ↦ subst (λ q. IsSnapshot q.1 other) (ok-injective (sym e ∙ h)) snap
  | inr (row, file, there, found, e) ↦
      subst (λ q. IsSnapshot q.1 other) (ok-injective (sym e ∙ h))
        λ row' found'.
          let same =
            drop_file-same (without_image img file db) c.files_keyed file
              (found_here cs db c img row there (agree row there) file found) in
          snap row' (ground (arith, same, find_id-delete image_key img.id other.id db.images))
]

-- EmptyTrash over any list of earlier rows.
pub purge_all-IsConsistent :
    (cs : String → ℕ) (imgs : List Image) (db : Db) {r : List PhysicalDelete × Db}
    → IsConsistent cs db
    → All (IsSnapshot db) imgs
    → purge_all imgs db ≡ ok r
    → IsConsistent cs r.1
unfolding purge_all
purge_all-IsConsistent cs [] db c s h = subst (λ q. IsConsistent cs q.1) (ok-injective h) c
purge_all-IsConsistent cs (img ∷ imgs) db {r = r} c s h =
    let (one, e, rest) = >>=-eq-ok (purge_one img db) _ h in
    let (others, e', last) = >>=-eq-ok (purge_all imgs one.1) _ rest in
    subst (λ q. IsConsistent cs q.1) (ok-injective last)
      (purge_all-IsConsistent cs imgs one.1 (purge_one-IsConsistent cs img db c s.0 e)
        (All-map imgs (λ other. purge_one-rows cs img db other c s.0 e) s.1) e')

-- The rows that a query returns are snapshots.
pub queried :
    (cs : String → ℕ) (p : Image → Bool) (db : Db)
    → IsConsistent cs db
    → All (IsSnapshot db) (keep p db.images)
queried cs p db c =
    All-map (keep p db.images) (λ img found row e. (ground arith, ground arith))
      (found_rows image_key p db.images c.images_keyed.unique)

pub empty_trash-IsConsistent :
    (cs : String → ℕ) (uid : ℕ) (db : Db) {r : List PhysicalDelete × Db}
    → IsConsistent cs db
    → empty_trash uid db ≡ ok r
    → IsConsistent cs r.1
unfolding empty_trash
empty_trash-IsConsistent cs uid db c h =
    purge_all-IsConsistent cs (trash_of uid db) db c
      (queried cs (λ i. eq_opt i.user_id (some uid) && in_trash i) db c) h

pub purge_permanent-IsConsistent :
    (cs : String → ℕ) (uid : ℕ) (key : String) (db : Db) {r : Option PhysicalDelete × Db}
    → IsConsistent cs db
    → purge_permanent uid key db ≡ ok r
    → IsConsistent cs r.1
unfolding purge_permanent
purge_permanent-IsConsistent cs uid key db {r = r} c h =
    elim (Option-cases (first (λ i. owned_by uid key i && in_trash i) db.images)) [
      | inl e ↦ absurd (ground arith)
      | inr (img, e) ↦
          let (holds, found) = first-found image_key _ db.images e c.images_keyed.unique in
          let one : purge_one img db ≡ ok r = ground arith in
          purge_one-IsConsistent cs img db c (λ row there. (ground arith, ground arith)) one
    ]

-- One round of PurgeExpiredTrash, and the whole of it.
purge_or_skip-step :
    (cs : String → ℕ) (img : Image) (db : Db)
    → IsConsistent cs db
    → IsSnapshot db img
    → (IsConsistent cs (purge_or_skip img db).1)
      × ((other : Image) → IsSnapshot db other → IsSnapshot (purge_or_skip img db).1 other)
unfolding purge_or_skip
purge_or_skip-step cs img db c s = elim (Outcome-cases (purge_one img db)) [
  | inl (r, e) ↦
      let out : purge_or_skip img db ≡ r = rw (e, purge_or_skip) in
      (
        subst (λ q. IsConsistent cs q.1) (sym out) (purge_one-IsConsistent cs img db c s e),
        λ other snap.
            subst (λ q. IsSnapshot q.1 other) (sym out) (purge_one-rows cs img db other c s e snap),
      )
  | inr (x, e) ↦
      let out : purge_or_skip img db ≡ (none, db) = rw (e, purge_or_skip) in
      (
        subst (λ q. IsConsistent cs q.1) (sym out) c,
        λ other snap. subst (λ q. IsSnapshot q.1 other) (sym out) snap,
      )
]

purge_each-IsConsistent :
    (cs : String → ℕ) (imgs : List Image) (db : Db)
    → IsConsistent cs db
    → All (IsSnapshot db) imgs
    → IsConsistent cs (purge_each imgs db).1
unfolding purge_each
purge_each-IsConsistent cs [] db c s = c
purge_each-IsConsistent cs (img ∷ imgs) db c s =
    let (kept, same) = purge_or_skip-step cs img db c s.0 in
    purge_each-IsConsistent cs imgs (purge_or_skip img db).1 kept (All-map imgs same s.1)

pub purge_expired_trash-IsConsistent :
    (cs : String → ℕ) (now : Time) (db : Db)
    → IsConsistent cs db
    → IsConsistent cs (purge_expired_trash now db).1
unfolding purge_expired_trash
purge_expired_trash-IsConsistent cs now db c =
    purge_each-IsConsistent cs (keep (trash_expired now) db.images) db c
      (queried cs (trash_expired now) db c)
