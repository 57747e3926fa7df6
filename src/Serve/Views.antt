-- ===== src/Serve/Views.antt =====
-- On ClaimView of internal/service/servesvc/servesvc.go, called any number of times.
use Prim.Native.Nat.{min}
use mathlib.Core.Path.{subst}
use imgli.Common.{
  ℕ, suc, zero, ◌+◌, ◌-◌, ◌≤◌, ◌<◌, ◌≡◌, refl, ◌∙◌, ap, true, false, ◌&&◌, some, arith, ltb,
  if◌then◌else◌, ◌==◌, ==_refl, any, update_where, Bool-cases, inl, inr,
}
use imgli.Common.Int.{pos}
use imgli.Table.{rows_with, update_id}
use imgli.Table.Laws.{find_id-update, rows_with-update}
use imgli.Table.Conditional.{chosen_row, update-chosen, update_where-none, any-found}
use imgli.Model.{Image}
use imgli.Store.{Db, image_key, find_image}
use imgli.Store.Moderate.{is_live}
use imgli.Store.Trash.{update_images}
use imgli.Serve.{has_views, count_view, claim_view}

-- Claims one after the other, as the database orders those of concurrent requests: how many
-- succeeded, and the store after them.
unfoldable pub claim_all : ℕ → Image → Db → ℕ × Db
claim_all zero img db = (0, db)
claim_all (suc n) img db =
    let claimed = claim_view img db in
    let rest = claim_all n img claimed.1 in ((if claimed.0 then 1 else 0) + rest.0, rest.1)

-- The row of an image with a view limit, of which `served` are used.
pub record IsLimited (img : Image) (limit served : ℕ) (db : Db) : Type 0 where
  pub row : Image
  pub there : find_image img.id db ≡ some row
  pub live : is_live row ≡ true
  pub limited : row.max_views ≡ pos limit
  pub used : row.views_served ≡ served
  pub only : rows_with image_key img.id db.images ≤ 1

module _ (img : Image) (limit : ℕ) (asks : img.max_views ≡ pos limit) (some_views : 0 < limit) where
  claim-shape :
      (db : Db)
      → claim_view img db
        ≡ update_images (λ i. i.id == img.id && (has_views i && is_live i)) count_view db
  unfolding claim_view
  claim-shape db = ground (arith, asks)

  claim-left :
      (served : ℕ) (db : Db)
      → served < limit
      → IsLimited img limit served db
      → ((claim_view img db).0 ≡ true) × IsLimited img limit (served + 1) (claim_view img db).1
  unfolding update_images
  claim-left served db less l =
      let free : has_views l.row && is_live l.row ≡ true =
        ground (arith, l.limited, l.used, l.live) in
      let hit = any-found image_key img.id (λ i. has_views i && is_live i) db.images l.there free in
      let same : update_where (λ i. i.id == img.id && (has_views i && is_live i)) count_view
            db.images
          ≡ update_id image_key img.id count_view db.images =
        update-chosen image_key img.id (λ i. has_views i && is_live i) count_view db.images hit
          l.only in
      rw (claim-shape db, same)
        (
          hit,
          record {
            row = count_view l.row;
            there =
                find_id-update image_key img.id img.id count_view db.images (λ i. refl)
                ∙ ground (arith, ==_refl img.id, l.there);
            live = l.live;
            limited = l.limited;
            used = ap (λ n. n + 1) l.used;
            only =
                rw (rows_with-update image_key img.id img.id count_view db.images (λ i. refl))
                  l.only;
          },
        )

  pub claim-none :
      (served : ℕ) (db : Db)
      → limit ≤ served
      → IsLimited img limit served db
      → ((claim_view img db).0 ≡ false) × IsLimited img limit served (claim_view img db).1
  unfolding update_images
  claim-none served db less l =
      elim (Bool-cases (any (λ i. i.id == img.id && (has_views i && is_live i)) db.images)) [
        | inl hit ↦
            let (row, there, free) =
              chosen_row image_key img.id (λ i. has_views i && is_live i) db.images hit l.only in
            absurd (ground (arith, l.there, there, l.limited, l.used))
        | inr miss ↦ rw (claim-shape db) (
          miss,
          rw
              (update_where-none (λ i. i.id == img.id && (has_views i && is_live i)) count_view
                db.images miss)
              l,
        )
      ]

  -- Of `n` claims exactly as many succeed as views are left, whatever the order in which requests
  -- come, and the counter ends at most at the limit. The image has a limit, its row is live and has
  -- used at most that many views, and its id is unique.
  pub claim_all-exact :
      (n served : ℕ) (db : Db)
      → IsLimited img limit served db
      → served ≤ limit
      → ((claim_all n img db).0 ≡ min n (limit - served))
        × IsLimited img limit (served + min n (limit - served)) (claim_all n img db).1
  unfolding claim_all
  claim_all-exact zero served db l le =
      (ground arith, subst (λ k. IsLimited img limit k db) (ground arith) l)
  claim_all-exact (suc n) served db l le = elim (Bool-cases (ltb served limit)) [
    | inl less ↦
        let (taken, l') = claim-left served db (ground arith) l in
        let (count, end) = claim_all-exact n (served + 1) (claim_view img db).1 l' (ground arith) in
        (
          ground (arith, taken, count),
          subst (λ k. IsLimited img limit k (claim_all n img (claim_view img db).1).1)
              (ground arith) end,
        )
    | inr full ↦
        let (refused, l') = claim-none served db (ground arith) l in
        let (count, end) = claim_all-exact n served (claim_view img db).1 l' le in
        (
          ground (arith, refused, count),
          subst (λ k. IsLimited img limit k (claim_all n img (claim_view img db).1).1)
              (ground arith) end,
        )
  ]
