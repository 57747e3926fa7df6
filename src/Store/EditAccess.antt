-- ===== src/Store/EditAccess.antt =====
-- What an upload stored, against the checks of a later change of the same image: group_access.go of
-- internal/service/upload, and update.go of internal/service/imagesvc.
use imgli.Common.{◌≤◌, ◌≡◌, true, some, arith}
use imgli.Common.Int.{pos, leb_ℤ}
use imgli.Common.Outcome.{ok}
use imgli.Model.{UserGroup, Time}
use imgli.Access.{Opts, apply_group_access}
use imgli.Access.Limits.{access_within, access_agrees}
use imgli.Store.Edit.{UpdatePatch, expires_column, max_views_column}

-- An upload whose view limit is not negative is accepted with some expiry and some view limit. A change
-- at that moment or later, by a member of the same group, to exactly these values passes the checks of
-- Update for both columns, which are then written.
pub update_accepts :
    (g : UserGroup) (opts : Opts) (now later : Time) (p : UpdatePatch) {opts' : Opts}
    → apply_group_access (some g) opts now ≡ ok opts'
    → leb_ℤ (pos 0) opts.max_views ≡ true
    → now ≤ later
    → p.set_expires ≡ true
    → p.expires_at ≡ opts'.expires_at
    → p.max_views ≡ some opts'.max_views
    → (expires_column (some g) p later ≡ ok (some opts'.expires_at))
      × (max_views_column (some g) p ≡ ok (some opts'.max_views))
unfolding expires_column max_views_column
update_accepts g opts now later p {opts' = opts'} accepted positive le sets at views =
    let (expiry, limit, kept) = access_agrees g opts now accepted later le in
    let within = access_within g opts now accepted in
    (ground (arith, sets, at, expiry), ground (arith, views, limit, kept positive, within.1))
