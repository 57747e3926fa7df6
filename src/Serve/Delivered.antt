-- ===== src/Serve/Delivered.antt =====
-- On the handler Original of internal/handler/serve.go, from the lookup to the response.
use imgli.Common.{
  ℕ, ◌≤◌, ◌<◌, ◌≡◌, refl, inl, inr, Bool, true, false, not, ◌&&◌, ◌||◌, none, some, List, [], ◌∷◌,
  String, str_eq, arith, first, Option-cases, Bool-cases,
}
use imgli.Common.Int.{pos}
use imgli.Common.Outcome.{ok, err, Outcome-cases}
use imgli.Model.{Image, Time, public, private}
use imgli.Store.{Db}
use imgli.Store.Moderate.{is_live}
use imgli.Serve.{
  Access, Gatekeeper, named, find, authorize, lookup, claim_view, meter_owner, Delivery, Response,
  views_used_up, to_cdn, to_signed, streamed, deliver, is_limited, serve_image, original,
}
use imgli.Serve.Views.{IsLimited, claim-none}
use imgli.Serve.Gate.{MayPass, authorize_iff}

abbrev pub is_delivery : Response → Bool
is_delivery to_cdn = true
is_delivery to_signed = true
is_delivery (streamed n) = true
is_delivery _ = false

abbrev pub is_cdn : Response → Bool
is_cdn to_cdn = true
is_cdn _ = false

abbrev pub is_signed : Response → Bool
is_signed to_signed = true
is_signed _ = false

found_live :
    (p : Image → Bool) (images : List Image) {img : Image}
    → first (λ i. p i && is_live i) images ≡ some img
    → (is_live img ≡ true) × (p img ≡ true)
unfolding first
found_live p [] h = absurd (ground arith)
found_live p (i ∷ images) {img = img} h = ground (arith, found_live p images {img = img})

-- The image that a reference names.
abbrev pub IsNamed : String → Image → Type 0
IsNamed ref img = (is_live img ≡ true) × ((str_eq img.key ref || named ref img) ≡ true)

find-IsNamed : (ref : String) (db : Db) {img : Image} → (find ref db).0 ≡ some img → IsNamed ref img
unfolding find
find-IsNamed ref db {img = img} h =
    elim (Option-cases (first (λ i. str_eq i.key ref && is_live i) db.images)) [
      | inr (by_key, e) ↦ ground (arith, e, found_live (λ i. str_eq i.key ref) db.images e)
      | inl e ↦ elim (Option-cases (first (λ i. named ref i && is_live i) db.images)) [
        | inr (by_slug, f) ↦ ground (arith, e, f, found_live (λ i. named ref i) db.images f)
        | inl f ↦ absurd (ground (arith, e, f))
      ]
    ]

pub lookup-passes :
    (g : Gatekeeper) (acc : Access) (now : Time) (period ref : String) (db : Db) {img : Image}
    → lookup g acc now period ref db ≡ ok img
    → IsNamed ref img × (authorize g acc now period img db ≡ none)
unfolding lookup
lookup-passes g acc now period ref db {img = img} h = elim (Option-cases (find ref db).0) [
  | inl e ↦ absurd (ground (arith, e))
  | inr (other, e) ↦ elim (Option-cases (authorize g acc now period other db)) [
    | inr (kind, f) ↦ absurd (ground (arith, e, f))
    | inl f ↦
        let same : other ≡ img = ground (arith, e, f) in
        (rw same at (find-IsNamed ref db e), rw same at f)
  ]
]

deliver-way :
    (d : Delivery) (limited : Bool) (img : Image) (period : String) (db : Db)
    → (is_cdn (deliver d limited img period db).0 ≡ true
        → (limited ≡ false) × (img.visibility ≡ public))
      × (is_signed (deliver d limited img period db).0 ≡ true → img.visibility ≡ private)
unfolding deliver
deliver-way d limited img period db = (λ h. (ground arith, ground arith), λ h. ground arith)

deliver-images :
    (d : Delivery) (limited : Bool) (img : Image) (period : String) (db : Db)
    → (deliver d limited img period db).1.images ≡ db.images
unfolding deliver meter_owner
deliver-images d limited img period db = ground arith

-- The way that an answer went, and the claim before it: what it leaves are the image rows of the
-- claim, and without a claim the image rows that were there.
abbrev pub WentBy : Access → Image → Db → Response × Db → Type 0
WentBy acc img db r =
    (is_delivery r.0 ≡ true
      → is_limited img ≡ true
      → acc.is_owner ≡ false
      → ((claim_view img db).0 ≡ true) × (r.1.images ≡ (claim_view img db).1.images))
    × ((is_limited img && not acc.is_owner) ≡ false → r.1.images ≡ db.images)
    × (is_cdn r.0 ≡ true → (is_limited img ≡ false) × (img.visibility ≡ public))
    × (is_signed r.0 ≡ true → img.visibility ≡ private)

serve_image-way :
    (d : Delivery) (acc : Access) (img : Image) (period : String) (db : Db)
    → WentBy acc img db (serve_image d acc img period db)
unfolding serve_image
serve_image-way d acc img period db =
    let free = deliver-way d (is_limited img) img period db in
    let counted = deliver-way d true img period (claim_view img db).1 in
    elim (Bool-cases (is_limited img && not acc.is_owner)) [
      | inr e ↦ rw e (
        λ a l o. absurd (ground arith),
        λ w. deliver-images d (is_limited img) img period db,
        free.0,
        free.1,
      )
      | inl e ↦ elim (Bool-cases (claim_view img db).0) [
        | inl c ↦
            rw (e, c)
              (
                λ a l o. (refl, deliver-images d true img period (claim_view img db).1),
                λ w. absurd (ground arith),
                λ w. absurd (ground (arith, counted.0 w)),
                counted.1,
              )
        | inr c ↦
            rw (e, c)
              (
                λ a. absurd (ground arith),
                λ w. absurd (ground arith),
                λ w. absurd (ground arith),
                λ w. absurd (ground arith),
              )
      ]
    ]

original-found :
    (d : Delivery) (g : Gatekeeper) (acc : Access) (now : Time) (period ref : String) (db : Db)
    {img : Image}
    → lookup g acc now period ref db ≡ ok img
    → original d g acc now period ref db ≡ serve_image d acc img period db
unfolding original
original-found d g acc now period ref db e = ground (arith, e)

-- Whenever Original sends bytes, by a redirection or a stream, the reference names a live image that
-- the gate let pass at that moment. A visitor who does not own a limited image has had a view of it
-- claimed, and the image rows are then those that the claim leaves; for the owner, and for an image
-- without a limit, they are as they were. The public CDN is used only for a public image that has
-- neither a view limit nor a password, a signed address only for a private one.
pub original-delivers :
    (d : Delivery) (g : Gatekeeper) (acc : Access) (now : Time) (period ref : String) (db : Db)
    → is_delivery (original d g acc now period ref db).0 ≡ true
    → (img : Image) × IsNamed ref img
      × MayPass g acc now period img db
      × WentBy acc img db (original d g acc now period ref db)
original-delivers d g acc now period ref db h =
    elim (Outcome-cases (lookup g acc now period ref db)) [
      | inr (kind, e) ↦ absurd (unfold original in ground (arith, e))
      | inl (img, e) ↦
          let (is_named, free) = lookup-passes g acc now period ref db e in
          (
            img,
            is_named,
            (authorize_iff g acc now period img db).0 free,
            rw (original-found d g acc now period ref db e) (serve_image-way d acc img period db),
          )
    ]

-- A reference that names an image whose views are used up delivers nothing to anyone but its owner, and
-- a visitor whom the gate lets pass, as it does an administrator, is answered that the views are used
-- up.
pub original-exhausted :
    (d : Delivery) (g : Gatekeeper) (acc : Access) (now : Time) (period ref : String) (db : Db)
    {img : Image} (limit served : ℕ)
    → (find ref db).0 ≡ some img
    → img.max_views ≡ pos limit
    → 0 < limit
    → limit ≤ served
    → IsLimited img limit served db
    → acc.is_owner ≡ false
    → (is_delivery (original d g acc now period ref db).0 ≡ false)
      × (authorize g acc now period img db ≡ none
          → (original d g acc now period ref db).0 ≡ views_used_up)
original-exhausted d g acc now period ref db {img = img} limit served e asks some_views full l o =
    let (refused, same) = claim-none img limit asks some_views served db full l in
    elim (Option-cases (authorize g acc now period img db)) [
      | inr (kind, f) ↦
          let shut : lookup g acc now period ref db ≡ err kind =
            unfold lookup in ground (arith, e, f) in
          (unfold original in ground (arith, shut), λ h. absurd (ground (arith, f, h)))
      | inl f ↦
          let passed : lookup g acc now period ref db ≡ ok img =
            unfold lookup in ground (arith, e, f) in
          let answer : (original d g acc now period ref db).0 ≡ views_used_up =
            rw (original-found d g acc now period ref db passed)
              (unfold serve_image in ground (arith, refused, asks, o)) in
          (rw answer refl, λ h. answer)
    ]
