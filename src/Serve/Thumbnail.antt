-- ===== src/Serve/Thumbnail.antt =====
-- Thumbnails: the handler Thumbnail of internal/handler/serve.go and the widths of
-- internal/handler/thumbwidth.go. How a thumbnail is read, made or cached is an argument.
use imgli.Common.{
  ℕ, ◌≡◌, inl, inr, Bool, true, false, not, ◌&&◌, Option, none, some, List, [], ◌∷◌, String, arith,
  if◌then◌else◌, any, Option-cases, Bool-cases,
}
use imgli.Common.Int.{ℤ, pos, leb_ℤ}
use imgli.Common.Outcome.{ok, err, Outcome-cases}
use imgli.Model.{File, Image, Time, public, same_visibility}
use imgli.Store.{Db, find_file}
use imgli.Serve.{DenyKind, Access, Gatekeeper, has_password, lookup, meter_owner}
use imgli.Serve.Gate.{MayPass, authorize_iff}
use imgli.Serve.Delivered.{IsNamed, lookup-passes}

abbrev pub allowed_thumb_widths : List ℕ
allowed_thumb_widths = 120 ∷ 200 ∷ 240 ∷ 400 ∷ 480 ∷ 800 ∷ 960 ∷ 1600 ∷ []

abbrev pub is_zero : ℤ → Bool
is_zero a = leb_ℤ a (pos 0) && leb_ℤ (pos 0) a

unfoldable pub thumb_width_allowed : ℤ → Bool
thumb_width_allowed n = any (λ w. leb_ℤ n (pos w) && leb_ℤ (pos w) n) allowed_thumb_widths

-- The parameter w: not there, no number, or a number.
pub data Width : Type 0 where
  default_width unreadable : Width
  sized : ℤ → Width

-- What reading a thumbnail gives: the bytes written, or none after an error. The flag says whether
-- it may come from the public cache.
pub record Thumbnails : Type 0 where
  pub policy_exists : ℕ → Bool
  pub thumb : File → Bool → Option ℕ
  pub width_thumb : File → ℤ → Bool → Option ℕ

pub data ThumbResponse : Type 0 where
  thumb_denied : DenyKind → ThumbResponse
  thumb_missing bad_width thumb_failed : ThumbResponse
  sent : (bytes : ℕ) (cacheable : Bool) → ThumbResponse

abbrev pub is_cacheable : Image → Bool
is_cacheable img =
    same_visibility img.visibility public && not (has_password img) && is_zero img.max_views

unfoldable pub metered_thumb : Option ℕ → Image → String → Db → ThumbResponse × Db
metered_thumb none img period db = (thumb_failed, db)
metered_thumb (some n) img period db = (sent n (is_cacheable img), meter_owner img n period db)

unfoldable pub send_thumb : Thumbnails → Width → File → Image → String → Db → ThumbResponse × Db
send_thumb s default_width file img period db =
    metered_thumb (s.thumb file (is_cacheable img)) img period db
send_thumb s unreadable file img period db = (bad_width, db)
send_thumb s (sized n) file img period db =
    let scaled = metered_thumb (s.width_thumb file n (is_cacheable img)) img period db in
    if thumb_width_allowed n then scaled else (bad_width, db)

unfoldable pub thumbnail :
    Thumbnails → Gatekeeper → Access → Time → String → String → Width → Db → ThumbResponse × Db
thumbnail s g acc now period ref w db = elim (lookup g acc now period ref db) [
  | err kind ↦ (thumb_denied kind, db)
  | ok img ↦ elim (find_file img.file_id db) [
    | none ↦ (thumb_missing, db)
    | some file ↦
        if not (s.policy_exists file.storage_policy_id)
        then (thumb_missing, db)
        else send_thumb s w file img period db
  ]
]

meter_owner-images :
    (img : Image) (n : ℕ) (period : String) (db : Db)
    → (meter_owner img n period db).images ≡ db.images
unfolding meter_owner
meter_owner-images img n period db = elim (Option-cases img.user_id) [
  | inl e ↦ ground (arith, e)
  | inr (uid, e) ↦ ground (arith, e)
]

-- What a sent thumbnail means for the image behind it.
abbrev pub IsSent : Width → Image → Db → ℕ → Bool → Db → Type 0
IsSent w img db n cacheable db' =
    (db'.images ≡ db.images)
    × (cacheable ≡ true
        → (img.visibility ≡ public) × (has_password img ≡ false) × (img.max_views ≡ pos 0))
    × ((k : ℤ) → w ≡ sized k → thumb_width_allowed k ≡ true)

metered-IsSent :
    (o : Option ℕ) (img : Image) (period : String) (db : Db) {n : ℕ} {c : Bool}
    → (metered_thumb o img period db).0 ≡ sent n c
    → ((metered_thumb o img period db).1.images ≡ db.images)
      × (c ≡ true
          → (img.visibility ≡ public) × (has_password img ≡ false) × (img.max_views ≡ pos 0))
unfolding metered_thumb
metered-IsSent none img period db h = absurd (ground arith)
metered-IsSent (some m) img period db h =
    (meter_owner-images img m period db, λ c. (ground arith, ground arith, ground arith))

send_thumb-IsSent :
    (s : Thumbnails) (w : Width) (file : File) (img : Image) (period : String) (db : Db) {n : ℕ}
    {c : Bool}
    → (send_thumb s w file img period db).0 ≡ sent n c
    → IsSent w img db n c (send_thumb s w file img period db).1
unfolding send_thumb
send_thumb-IsSent s default_width file img period db h =
    let (same, open_flag) = metered-IsSent (s.thumb file (is_cacheable img)) img period db h in
    (same, open_flag, λ k e. absurd (ground (arith, e)))
send_thumb-IsSent s unreadable file img period db h = absurd (ground (arith, h))
send_thumb-IsSent s (sized m) file img period db h = elim (Bool-cases (thumb_width_allowed m)) [
  | inr e ↦ absurd (ground (arith, e, h))
  | inl e ↦
      let scaled = s.width_thumb file m (is_cacheable img) in
      let went : (metered_thumb scaled img period db).0 ≡ sent _ _ = rw e at h in
      let (same, open_flag) = metered-IsSent scaled img period db went in
      rw e (same, open_flag, λ k f. ground (arith, e, f))
]

-- Whenever Thumbnail sends bytes, the reference names a live image that the gate let pass, no image's
-- row has changed (a thumbnail uses up no view), only a thumbnail of a public image without password
-- and without view limit may be cached publicly, and a width that was asked for is one of the
-- allowed ones.
pub thumbnail-sends :
    (s : Thumbnails) (g : Gatekeeper) (acc : Access) (now : Time) (period ref : String) (w : Width)
    (db : Db) {n : ℕ} {c : Bool}
    → (thumbnail s g acc now period ref w db).0 ≡ sent n c
    → (img : Image) × IsNamed ref img
      × MayPass g acc now period img db
      × IsSent w img db n c (thumbnail s g acc now period ref w db).1
thumbnail-sends s g acc now period ref w db {n = n} {c = c} h =
    elim (Outcome-cases (lookup g acc now period ref db)) [
      | inr (kind, e) ↦ absurd (unfold thumbnail in ground (arith, e, h))
      | inl (img, e) ↦ elim (Option-cases (find_file img.file_id db)) [
        | inl f ↦ absurd (unfold thumbnail in ground (arith, e, f, h))
        | inr (file, f) ↦ elim (Bool-cases (s.policy_exists file.storage_policy_id)) [
          | inr p ↦ absurd (unfold thumbnail in ground (arith, e, f, p, h))
          | inl p ↦
              let shape : thumbnail s g acc now period ref w db
                  ≡ send_thumb s w file img period db =
                unfold thumbnail in ground (arith, e, f, p) in
              let (is_named, free) = lookup-passes g acc now period ref db e in
              (
                img,
                is_named,
                (authorize_iff g acc now period img db).0 free,
                rw shape (send_thumb-IsSent s w file img period db (rw shape at h)),
              )
        ]
      ]
    ]
