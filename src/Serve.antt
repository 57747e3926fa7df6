-- ===== src/Serve.antt =====
-- The direct links: the gate, the claims of views and the metering of
-- internal/service/servesvc/servesvc.go, and the handler Original of internal/handler/serve.go.
pub mod Hotlink
pub mod Gate
pub mod Views
pub mod Delivered
pub mod Thumbnail
pub mod Examples
use imgli.Common.{
  ℕ, suc, zero, ◌+◌, Bool, true, false, not, ◌&&◌, ◌||◌, Option, none, some, List, String, str_eq,
  ltb, if◌then◌else◌, any, first, ◌==◌, is_some,
}
use imgli.Common.Int.{ℤ, pos, ltb_ℤ, leb_ℤ}
use imgli.Common.Outcome.{Outcome, ok, err}
use imgli.Model.{
  UserGroup, File, Image, Time, Visibility, public, private, same_visibility, Status, normal,
  pending, rejected,
}
use imgli.Bandwidth.{BandwidthError, exceeded, no_row, check, add}
use imgli.Store.{Db, find_file}
use imgli.Store.Moderate.{is_live}
use imgli.Store.Trash.{update_images}
use imgli.Serve.Hotlink.{HotlinkConfig, Host, hotlink_allowed}

pub data DenyKind : Type 0 where
  not_found removed private_image expired exhausted password hotlink bandwidth internal : DenyKind

pub record Access : Type 0 where
  pub is_owner : Bool
  pub is_admin : Bool
  pub password_ok : Bool
  pub referer_host : Host

-- The service: its configuration, `none` for no statistics service, and the rows of the groups.
pub record Gatekeeper : Type 0 where
  pub hotlinking : Option HotlinkConfig
  pub own_host : Host
  pub groups : List UserGroup

abbrev pub named : String → Image → Bool
named ref i = elim i.slug [ none ↦ false | some s ↦ str_eq s ref ]

-- Find: the live image of the key, or of the slug; or whether a deleted one has either.
unfoldable pub find : String → Db → Option Image × Bool
find ref db = elim (first (λ i. str_eq i.key ref && is_live i) db.images) [
  | some img ↦ (some img, false)
  | none ↦ elim (first (λ i. named ref i && is_live i) db.images) [
    | some img ↦ (some img, false)
    | none ↦ (none, any (λ i. str_eq i.key ref || named ref i) db.images)
  ]
]

abbrev pub has_password : Image → Bool
has_password img = not (str_eq img.access_password_hash "")

abbrev pub is_rejected : Image → Bool
is_rejected img = elim img.status [ rejected ↦ true | _ ↦ false ]

abbrev pub is_pending : Image → Bool
is_pending img = elim img.status [ pending ↦ true | _ ↦ false ]

abbrev pub is_expired : Time → Image → Bool
is_expired now img = elim img.expires_at [ none ↦ false | some t ↦ ltb t now ]

abbrev pub is_exhausted : Image → Bool
is_exhausted img = ltb_ℤ (pos 0) img.max_views && leb_ℤ img.max_views (pos img.views_served)

abbrev pub refuses_host : Gatekeeper → Access → Bool
refuses_host g acc = elim g.hotlinking [
  | none ↦ false
  | some cfg ↦ not (hotlink_allowed cfg acc.referer_host g.own_host)
]

-- The last test: the owner's traffic, which an administrator does not wait for.
unfoldable pub authorize_traffic : Gatekeeper → Access → String → Image → Db → Option DenyKind
authorize_traffic g acc period img db = elim img.user_id [
  | none ↦ none
  | some uid ↦ if acc.is_admin then none else elim (check uid period db.users g.groups) [
    | ok r ↦ none
    | err exceeded ↦ some bandwidth
    | err no_row ↦ some internal
  ]
]

-- Authorize, for an image that is there: `none` lets the request pass.
unfoldable pub authorize : Gatekeeper → Access → Time → String → Image → Db → Option DenyKind
authorize g acc now period img db =
    let privileged = acc.is_owner || acc.is_admin in
    if is_rejected img && not acc.is_admin
    then some removed
    else if is_pending img && not privileged
    then some removed
    else if same_visibility img.visibility private && not privileged
    then some private_image
    else if is_expired now img && not acc.is_admin
    then some expired
    else if is_exhausted img && not privileged
    then some exhausted
    else if has_password img && not acc.password_ok && not privileged
    then some password
    else if not privileged && refuses_host g acc
    then some hotlink
    else authorize_traffic g acc period img db

-- Lookup
unfoldable pub lookup : Gatekeeper → Access → Time → String → String → Db → Outcome DenyKind Image
lookup g acc now period ref db =
    let found = find ref db in
    elim found.0 [
      | none ↦ if found.1 then err removed else err not_found
      | some img ↦ elim (authorize g acc now period img db) [ none ↦ ok img | some d ↦ err d ]
    ]

abbrev pub has_views : Image → Bool
has_views i = ltb_ℤ (pos 0) i.max_views && ltb_ℤ (pos i.views_served) i.max_views

abbrev pub count_view : Image → Image
count_view i = record i { views_served = i.views_served + 1 }

-- ClaimView: the conditional update, which passes over deleted rows.
unfoldable pub claim_view : Image → Db → Bool × Db
claim_view img db =
    if leb_ℤ img.max_views (pos 0)
    then (true, db)
    else update_images (λ i. i.id == img.id && (has_views i && is_live i)) count_view db

-- MeterOwner
unfoldable pub meter_owner : Image → ℕ → String → Db → Db
meter_owner img n period db = elim img.user_id [
  | none ↦ db
  | some uid ↦ record db { users = add uid period n db.users }
]

-- What the storage drivers answer: whether a CDN address or a signed one can be made, and how many
-- bytes a stream wrote, `none` when it failed. `policy_exists` is the lookup of a policy's row.
pub record Delivery : Type 0 where
  pub policy_exists : ℕ → Bool
  pub cdn_url : File → Bool
  pub presigned : File → Bool
  pub stream : File → Option ℕ

pub data Response : Type 0 where
  denied : DenyKind → Response
  views_used_up missing broken_off : Response
  to_cdn to_signed : Response
  streamed : ℕ → Response

-- writeDeny: the HTTP status of a refusal.
unfoldable pub deny_status : DenyKind → ℕ
deny_status removed = 410
deny_status private_image = 401
deny_status expired = 410
deny_status exhausted = 410
deny_status password = 401
deny_status hotlink = 403
deny_status bandwidth = 429
deny_status internal = 500
deny_status not_found = 404

-- How the bytes are sent, after the gate and the claim.
unfoldable pub deliver : Delivery → Bool → Image → String → Db → Response × Db
deliver d limited img period db = elim (find_file img.file_id db) [
  | none ↦ (missing, db)
  | some file ↦
      if not (d.policy_exists file.storage_policy_id)
      then (missing, db)
      else if not limited
          && same_visibility img.visibility public
          && same_visibility file.surface public
          && d.cdn_url file
      then (to_cdn, meter_owner img file.size period db)
      else if not (same_visibility img.visibility public) && d.presigned file
      then (to_signed, meter_owner img file.size period db)
      else elim (d.stream file) [
        | none ↦ (broken_off, db)
        | some n ↦ (streamed n, meter_owner img n period db)
      ]
]

abbrev pub is_limited : Image → Bool
is_limited img = ltb_ℤ (pos 0) img.max_views || has_password img

-- Original, for an image that the gate let pass.
unfoldable pub serve_image : Delivery → Access → Image → String → Db → Response × Db
serve_image d acc img period db =
    if is_limited img && not acc.is_owner
    then (let claimed = claim_view img db in
        if claimed.0 then deliver d true img period claimed.1 else (views_used_up, claimed.1))
    else deliver d (is_limited img) img period db

unfoldable pub original :
    Delivery → Gatekeeper → Access → Time → String → String → Db → Response × Db
original d g acc now period ref db = elim (lookup g acc now period ref db) [
  | err kind ↦ (denied kind, db)
  | ok img ↦ serve_image d acc img period db
]
