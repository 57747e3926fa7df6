-- ===== src/Store/ExpiryLaws.antt =====
-- Lemmas on PurgeExpiredImages and AdminPurge of internal/service/imagesvc/purge.go.
use mathlib.Core.Path.{subst}
use imgli.Common.{
  ℕ, ◌≡◌, refl, sym, inl, inr, Bool, ◌&&◌, Option, none, List, [], ◌∷◌, String, arith, ◌==◌, str_eq,
  first, keep, All, Bool-cases, Option-cases,
}
use imgli.Common.Outcome.{ok, Outcome-cases}
use imgli.Table.Conditional.{first-found, find_id-update_where}
use imgli.Table.Members.{All-map}
use imgli.Model.{Image, Time}
use imgli.Store.{Db, image_key}
use imgli.Store.Moderate.{is_live}
use imgli.Store.Trash.{
  PhysicalDelete, mark_deleted, update_images, purge_one, image_expired, purge_expired_one,
  purge_expired_each, purge_expired_images, admin_purge,
}
use imgli.Store.Invariant.{IsConsistent}
use imgli.Store.PurgeLaws.{purge_one-IsConsistent}
use imgli.Store.TrashLaws.{mark_deleted-IsNeutral, update_images-IsConsistent}
use imgli.Store.LoopLaws.{IsSnapshot, purge_one-rows, queried}

pub marked-IsSnapshot :
    (p : Image → Bool) (now : Time) (db : Db) (img : Image)
    → IsSnapshot db img
    → IsSnapshot (update_images p (mark_deleted now) db).1 img
unfolding update_images
marked-IsSnapshot p now db img s row e =
    let (before, found, same) =
      find_id-update_where p (mark_deleted now) image_key img.id db.images (λ i. refl) e in
    let agrees = s before found in (ground arith, ground arith)

pub purge_expired_one-step :
    (cs : String → ℕ) (now : Time) (img : Image) (db : Db)
    → IsConsistent cs db
    → IsSnapshot db img
    → (IsConsistent cs (purge_expired_one now img db).1)
      × ((other : Image) → IsSnapshot db other → IsSnapshot (purge_expired_one now img db).1 other)
unfolding purge_expired_one
purge_expired_one-step cs now img db c s =
    let p = λ (i : Image). i.id == img.id && image_expired now i in
    let marked = (update_images p (mark_deleted now) db).1 in
    let c' = update_images-IsConsistent cs p (mark_deleted now) (mark_deleted-IsNeutral now) db c in
    let s' = marked-IsSnapshot p now db img s in
    elim (Bool-cases (update_images p (mark_deleted now) db).0) [
      | inr e ↦
          let out : purge_expired_one now img db ≡ (none, db) = rw (e, purge_expired_one) in
          (
            subst (λ q. IsConsistent cs q.1) (sym out) c,
            λ other snap. subst (λ q. IsSnapshot q.1 other) (sym out) snap,
          )
      | inl e ↦ elim (Outcome-cases (purge_one img marked)) [
        | inl (r, ran) ↦
            let out : purge_expired_one now img db ≡ r = rw (e, ran, purge_expired_one) in
            (
              subst (λ q. IsConsistent cs q.1) (sym out)
                  (purge_one-IsConsistent cs img marked c' s' ran),
              λ other snap.
                  subst (λ q. IsSnapshot q.1 other) (sym out)
                    (purge_one-rows cs img marked other c' s' ran
                      (marked-IsSnapshot p now db other snap)),
            )
        | inr (x, ran) ↦
            let out : purge_expired_one now img db ≡ (none, db) = rw (e, ran, purge_expired_one) in
            (
              subst (λ q. IsConsistent cs q.1) (sym out) c,
              λ other snap. subst (λ q. IsSnapshot q.1 other) (sym out) snap,
            )
      ]
    ]

purge_expired_each-IsConsistent :
    (cs : String → ℕ) (now : Time) (imgs : List Image) (db : Db)
    → IsConsistent cs db
    → All (IsSnapshot db) imgs
    → IsConsistent cs (purge_expired_each now imgs db).1
unfolding purge_expired_each
purge_expired_each-IsConsistent cs now [] db c s = c
purge_expired_each-IsConsistent cs now (img ∷ imgs) db c s =
    let (kept, same) = purge_expired_one-step cs now img db c s.0 in
    purge_expired_each-IsConsistent cs now imgs (purge_expired_one now img db).1 kept
      (All-map imgs same s.1)

pub purge_expired_images-IsConsistent :
    (cs : String → ℕ) (now : Time) (db : Db)
    → IsConsistent cs db
    → IsConsistent cs (purge_expired_images now db).1
unfolding purge_expired_images
purge_expired_images-IsConsistent cs now db c =
    purge_expired_each-IsConsistent cs now (keep (image_expired now) db.images) db c
      (queried cs (image_expired now) db c)

pub admin_purge-IsConsistent :
    (cs : String → ℕ) (key : String) (now : Time) (db : Db) {r : Option PhysicalDelete × Db}
    → IsConsistent cs db
    → admin_purge key now db ≡ ok r
    → IsConsistent cs r.1
unfolding admin_purge
admin_purge-IsConsistent cs key now db {r = r} c h =
    elim (Option-cases (first (λ i. str_eq i.key key) db.images)) [
      | inl e ↦ absurd (ground arith)
      | inr (img, e) ↦
          let (holds, found) = first-found image_key _ db.images e c.images_keyed.unique in
          let p = λ (i : Image). i.id == img.id && is_live i in
          let one : purge_one img (update_images p (mark_deleted now) db).1 ≡ ok r = ground arith in
          purge_one-IsConsistent cs img (update_images p (mark_deleted now) db).1
            (update_images-IsConsistent cs p (mark_deleted now) (mark_deleted-IsNeutral now) db c)
            (marked-IsSnapshot p now db img (λ row there. (ground arith, ground arith))) one
    ]
