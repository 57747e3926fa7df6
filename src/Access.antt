-- ===== src/Access.antt =====
-- Expiry and view limits of user groups: internal/service/upload/group_access.go (uploads),
-- internal/service/imagesvc/group_access_check.go (later changes), groupCapSec of
-- internal/service/imagesvc/apply_lifecycle.go, and validateGroupLifecycle of
-- internal/service/adminsvc/groups.go.
pub mod Limits
pub mod Examples
use imgli.Common.{
  ℕ, ◌+◌, ◌*◌, ◌^◌, Bool, true, false, ◌||◌, ◌&&◌, Option, none, some, String, ltb, if◌then◌else◌,
}
use imgli.Common.Int.{ℤ, pos, negsuc, pos_part, neg_part, ltb_ℤ, leb_ℤ, scale64, of_bits64}
use imgli.Common.Outcome.{Outcome, ok, err, ◌>>=◌}
use imgli.Model.{Time, second, UserGroup}

-- upload.Opts: what the caller asks for.
pub record Opts : Type 0 where
  pub visibility : String
  pub album_id : Option ℕ
  pub policy_id : ℕ
  pub expires_at : Option Time
  pub max_views : ℤ
  pub access_password_hash : String

pub data AccessError : Type 0 where
  expires_over_group max_views_over_group : AccessError

abbrev pub global_max_expires_in_sec : ℕ
global_max_expires_in_sec = 366 * 24 * 60 * 60

abbrev pub global_max_views : ℕ
global_max_views = 10000

-- `capSec` before the global limit: the smaller of MaxExpiresIn and ForceMaxAgeDays, where set.
unfoldable pub group_cap : UserGroup → ℤ
group_cap g =
    if ltb_ℤ (pos 0) g.force_max_age_days
    then (let force = scale64 g.force_max_age_days 86400 in
        if leb_ℤ g.max_expires_in (pos 0) || ltb_ℤ force g.max_expires_in
        then force
        else g.max_expires_in)
    else g.max_expires_in

abbrev at_most : ℤ → ℕ → ℤ
at_most c limit = if ltb_ℤ (pos limit) c then pos limit else c

unfoldable pub effective_expires_cap_sec : Option UserGroup → ℤ
effective_expires_cap_sec none = pos 0
effective_expires_cap_sec (some g) =
    let cap_sec = at_most (group_cap g) global_max_expires_in_sec in
    if ltb_ℤ cap_sec (pos 0) then pos 0 else cap_sec

-- groupCapSec, written out a second time in the source: `capSec` after the first test, then the global
-- limit, then 0.
unfoldable pub group_cap_sec : Option UserGroup → ℤ
group_cap_sec none = pos 0
group_cap_sec (some g) =
    let force = scale64 g.force_max_age_days 86400 in
    let cap_sec =
      if ltb_ℤ (pos 0) g.force_max_age_days
        && (leb_ℤ g.max_expires_in (pos 0) || ltb_ℤ force g.max_expires_in)
      then force
      else g.max_expires_in in
    let limit = pos (366 * 24 * 60 * 60) in
    let limited = if ltb_ℤ limit cap_sec then limit else cap_sec in
    if ltb_ℤ limited (pos 0) then pos 0 else limited

-- now.Add(time.Duration(sec) * time.Second), for sec > 0
abbrev pub add_seconds : Time → ℤ → Time
add_seconds now sec = now + pos_part sec * second

-- The first half of ApplyGroupAccess.
unfoldable pub apply_expires : UserGroup → Opts → Time → Outcome AccessError Opts
apply_expires g opts now =
    let cap_sec = effective_expires_cap_sec (some g) in
    if ltb_ℤ (pos 0) cap_sec
    then elim opts.expires_at [
      | none ↦
          let sec =
            if leb_ℤ g.default_expires_in (pos 0) || ltb_ℤ cap_sec g.default_expires_in
            then cap_sec
            else g.default_expires_in in
          ok (record opts { expires_at = some (add_seconds now sec) })
      | some t ↦ if ltb (add_seconds now cap_sec) t then err expires_over_group else ok opts
    ]
    else ok opts

-- The second half.
unfoldable pub apply_max_views : UserGroup → Opts → Outcome AccessError Opts
apply_max_views g opts =
    if ltb_ℤ (pos 0) g.max_max_views
    then (let cap_v = at_most g.max_max_views global_max_views in
        if leb_ℤ opts.max_views (pos 0)
        then (let v =
              if leb_ℤ g.default_max_views (pos 0) || ltb_ℤ cap_v g.default_max_views
              then cap_v
              else g.default_max_views in
            ok (record opts { max_views = v }))
        else if ltb_ℤ cap_v opts.max_views
        then err max_views_over_group
        else ok opts)
    else if ltb_ℤ (pos global_max_views) opts.max_views
    then err max_views_over_group
    else ok opts

unfoldable pub apply_group_access : Option UserGroup → Opts → Time → Outcome AccessError Opts
apply_group_access none opts now = ok opts
apply_group_access (some g) opts now = do opts' ← apply_expires g opts now; apply_max_views g opts'

-- imagesvc.checkGroupExpires, with a third copy of `capSec`.
unfoldable pub check_group_expires :
    Option UserGroup → Option Time → Time → Outcome AccessError (Unit {0})
check_group_expires none expires_at now = ok tt
check_group_expires (some g) expires_at now =
    let force = scale64 g.force_max_age_days 86400 in
    let cap_sec =
      if ltb_ℤ (pos 0) g.force_max_age_days
        && (leb_ℤ g.max_expires_in (pos 0) || ltb_ℤ force g.max_expires_in)
      then force
      else g.max_expires_in in
    if leb_ℤ cap_sec (pos 0) then ok tt else elim expires_at [
      | none ↦ err expires_over_group
      | some t ↦
          if ltb (add_seconds now (at_most cap_sec global_max_expires_in_sec)) t
          then err expires_over_group
          else ok tt
    ]

-- imagesvc.checkGroupMaxViews
unfoldable pub check_group_max_views : Option UserGroup → ℤ → Outcome AccessError (Unit {0})
check_group_max_views none max_views = ok tt
check_group_max_views (some g) max_views =
    if leb_ℤ g.max_max_views (pos 0)
    then ok tt
    else if leb_ℤ max_views (pos 0) || ltb_ℤ (at_most g.max_max_views global_max_views) max_views
    then err max_views_over_group
    else ok tt

-- validateGroupLifecycle: `true` where the source returns nil.
unfoldable pub validate_group_lifecycle : ℤ → ℤ → ℤ → ℤ → ℤ → ℤ → Bool
validate_group_lifecycle def_exp max_exp def_views max_views retention force_age =
    if ltb_ℤ def_exp (pos 0)
      || ltb_ℤ max_exp (pos 0)
      || ltb_ℤ def_views (pos 0)
      || ltb_ℤ max_views (pos 0)
      || ltb_ℤ retention (pos 0)
      || ltb_ℤ force_age (pos 0)
    then false
    else if ltb_ℤ (pos global_max_expires_in_sec) max_exp
        || ltb_ℤ (pos global_max_expires_in_sec) def_exp
    then false
    else if ltb_ℤ (pos 0) max_exp && ltb_ℤ max_exp def_exp
    then false
    else if ltb_ℤ (pos global_max_views) max_views || ltb_ℤ (pos global_max_views) def_views
    then false
    else if ltb_ℤ (pos 0) max_views && ltb_ℤ max_views def_views
    then false
    else if ltb_ℤ (pos 3650) retention || ltb_ℤ (pos 3650) force_age
    then false
    else true
