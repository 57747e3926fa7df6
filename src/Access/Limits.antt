-- ===== src/Access/Limits.antt =====
-- On the limits of user groups: ApplyGroupAccess of internal/service/upload/group_access.go beside
-- the checks of internal/service/imagesvc/group_access_check.go.
use Prim.Native.Nat.{min}
use imgli.Common.{
  ◌==◌, ℕ, ◌*◌, ◌≤◌, ◌<◌, ◌≡◌, refl, ◌↔◌, ◌⊎◌, inl, inr, true, Option, none, some, arith,
  if◌then◌else◌, Option-cases,
}
use imgli.Common.Int.{leb_ℤ, ℤ, pos, pos_part, ◌≤ℤ◌, ◌<ℤ◌, scale64_exact}
use imgli.Common.Outcome.{Outcome, ok, err, ◌>>=◌, >>=-eq-ok}
use imgli.Model.{Time, UserGroup}
use imgli.Access.{
  Opts, AccessError, expires_over_group, global_max_expires_in_sec, global_max_views, group_cap,
  effective_expires_cap_sec, group_cap_sec, add_seconds, apply_expires, apply_max_views,
  apply_group_access, check_group_expires, check_group_max_views, validate_group_lifecycle,
}

-- The limits that the administrator set, as validateGroupLifecycle lets them be stored.
abbrev pub IsAccepted : UserGroup → Type 0
IsAccepted g =
    validate_group_lifecycle g.default_expires_in g.max_expires_in g.default_max_views
      g.max_max_views g.retention_days g.force_max_age_days
    ≡ true

cap_range :
    (g : Option UserGroup)
    → (pos 0 ≤ℤ effective_expires_cap_sec g)
      × (effective_expires_cap_sec g ≤ℤ pos global_max_expires_in_sec)
unfolding effective_expires_cap_sec
cap_range none = omega arith
cap_range (some g) = ground arith

-- The cap that the image service computes for a group is the one that uploads compute.
pub caps_agree : (g : Option UserGroup) → group_cap_sec g ≡ effective_expires_cap_sec g
unfolding effective_expires_cap_sec group_cap_sec group_cap
caps_agree none = refl
caps_agree (some g) = ground arith

-- The expiry that an accepted upload leaves stands within the cap.
abbrev pub ExpiresWithin : ℤ → Time → Option Time → Type 0
ExpiresWithin cap now none = cap ≤ℤ pos 0
ExpiresWithin cap now (some t) = (cap ≤ℤ pos 0) ⊎ (t ≤ add_seconds now cap)

apply_expires_within :
    (g : UserGroup) (opts : Opts) (now : Time) {opts' : Opts}
    → apply_expires g opts now ≡ ok opts'
    → ExpiresWithin (effective_expires_cap_sec (some g)) now opts'.expires_at
unfolding apply_expires
apply_expires_within g opts now h = ground (arith, cap_range (some g))

apply_expires_again :
    (g : UserGroup) (opts : Opts) (now : Time) {opts' : Opts}
    → apply_expires g opts now ≡ ok opts'
    → apply_expires g opts' now ≡ ok opts'
unfolding apply_expires
apply_expires_again g opts now h = ground arith

apply_expires_check :
    (g : UserGroup) (opts : Opts) (now later : Time) {opts' : Opts}
    → now ≤ later
    → apply_expires g opts now ≡ ok opts'
    → check_group_expires (some g) opts'.expires_at later ≡ ok tt
unfolding apply_expires check_group_expires effective_expires_cap_sec group_cap
apply_expires_check g opts now later le h = ground arith

apply_max_views_check :
    (g : UserGroup) (opts : Opts) {opts' : Opts}
    → apply_max_views g opts ≡ ok opts'
    → check_group_max_views (some g) opts'.max_views ≡ ok tt
unfolding apply_max_views check_group_max_views
apply_max_views_check g opts h = ground arith

apply_max_views_keeps :
    (g : UserGroup) (opts : Opts) {opts' : Opts}
    → apply_max_views g opts ≡ ok opts'
    → opts'.expires_at ≡ opts.expires_at
unfolding apply_max_views
apply_max_views_keeps g opts h = ground arith

-- A view limit that was not negative stays so, and the expiry's half leaves it as it was.
apply_max_views_positive :
    (g : UserGroup) (opts : Opts) {opts' : Opts}
    → apply_max_views g opts ≡ ok opts'
    → leb_ℤ (pos 0) opts.max_views ≡ true
    → leb_ℤ (pos 0) opts'.max_views ≡ true
unfolding apply_max_views
apply_max_views_positive g opts h p = ground arith

apply_expires_views :
    (g : UserGroup) (opts : Opts) (now : Time) {opts' : Opts}
    → apply_expires g opts now ≡ ok opts'
    → opts'.max_views ≡ opts.max_views
unfolding apply_expires
apply_expires_views g opts now h = ground arith

apply_max_views_again :
    (g : UserGroup) (opts : Opts) {opts' : Opts}
    → apply_max_views g opts ≡ ok opts'
    → apply_max_views g opts' ≡ ok opts'
unfolding apply_max_views
apply_max_views_again g opts h = ground arith

apply_max_views_range :
    (g : UserGroup) (opts : Opts) {opts' : Opts}
    → apply_max_views g opts ≡ ok opts'
    → (opts'.max_views ≤ℤ pos global_max_views)
      × (pos 0 <ℤ g.max_max_views
          → (pos 0 <ℤ opts'.max_views) × (opts'.max_views ≤ℤ g.max_max_views))
unfolding apply_max_views
apply_max_views_range g opts h = (ground arith, λ m. ground arith)

-- Only the requested expiry decides what apply_expires does.
apply_expires_same :
    (g : UserGroup) (o o' : Opts) (now : Time)
    → apply_expires g o now ≡ ok o
    → o'.expires_at ≡ o.expires_at
    → apply_expires g o' now ≡ ok o'
unfolding apply_expires
apply_expires_same g o o' now h e = ground arith

module _ (g : UserGroup) (opts : Opts) (now : Time) {opts' : Opts}
    (accepted : apply_group_access (some g) opts now ≡ ok opts') where
  steps : (mid : Opts) × (apply_expires g opts now ≡ ok mid) × (apply_max_views g mid ≡ ok opts')
  unfolding apply_group_access
  steps = >>=-eq-ok (apply_expires g opts now) (apply_max_views g) accepted

  -- Whenever an upload's options are accepted, the expiry that is stored lies within the group's
  -- cap (a group with a cap never leaves it open), the view limit is at most the global one, and
  -- where the group limits views the stored limit is positive and at most the group's.
  pub access_within :
      ExpiresWithin (effective_expires_cap_sec (some g)) now opts'.expires_at
      × (opts'.max_views ≤ℤ pos global_max_views)
      × (pos 0 <ℤ g.max_max_views
          → (pos 0 <ℤ opts'.max_views) × (opts'.max_views ≤ℤ g.max_max_views))
  access_within =
      let (mid, e, v) = steps in
      (
        rw (apply_max_views_keeps g mid v) (apply_expires_within g opts now e),
        (apply_max_views_range g mid v).0,
        (apply_max_views_range g mid v).1,
      )

  -- The group's checks of a later change accept the expiry and the view limit that were stored.
  pub access_agrees :
      (later : Time)
      → now ≤ later
      → (check_group_expires (some g) opts'.expires_at later ≡ ok tt)
        × (check_group_max_views (some g) opts'.max_views ≡ ok tt)
        × (leb_ℤ (pos 0) opts.max_views ≡ true → leb_ℤ (pos 0) opts'.max_views ≡ true)
  access_agrees later le =
      let (mid, e, v) = steps in
      (
        rw (apply_max_views_keeps g mid v) (apply_expires_check g opts now later le e),
        apply_max_views_check g mid v,
        λ h. apply_max_views_positive g mid v (rw (apply_expires_views g opts now e) h),
      )

  -- Applying the group's limits to options that they already shaped changes nothing.
  pub access_again : apply_group_access (some g) opts' now ≡ ok opts'
  unfolding apply_group_access
  access_again =
      let (mid, e, v) = steps in
      rw
        (apply_expires_same g mid opts' now (apply_expires_again g opts now e)
          (apply_max_views_keeps g mid v))
        (apply_max_views_again g mid v)

apply_max_views_error :
    (g : UserGroup) (opts : Opts) → apply_max_views g opts ≡ err expires_over_group → ⊥
unfolding apply_max_views
apply_max_views_error g opts h = ground arith

first_error :
    (g : UserGroup) (m : Outcome AccessError Opts)
    → (m >>= apply_max_views g) ≡ err expires_over_group
    → m ≡ err expires_over_group
first_error g (ok o) h = absurd (apply_max_views_error g o h)
first_error g (err e) h = h

apply_expires_refuses :
    (g : UserGroup) (opts : Opts) (now : Time)
    → apply_expires g opts now ≡ err expires_over_group
    → (t : Time) × (opts.expires_at ≡ some t)
      × (pos 0 <ℤ effective_expires_cap_sec (some g))
      × (add_seconds now (effective_expires_cap_sec (some g)) < t)
unfolding apply_expires
apply_expires_refuses g opts now h = elim (Option-cases opts.expires_at) [
  | inl e ↦ absurd (ground arith)
  | inr (t, e) ↦ (t, e, ground arith, ground arith)
]

-- An upload is refused for its expiry exactly when it asks for an instant past the group's cap,
-- counted from now.
pub access_refuses :
    (g : UserGroup) (opts : Opts) (now : Time)
    → (apply_group_access (some g) opts now ≡ err expires_over_group) ↔ (
        (t : Time) × (opts.expires_at ≡ some t)
        × (pos 0 <ℤ effective_expires_cap_sec (some g))
        × (add_seconds now (effective_expires_cap_sec (some g)) < t))
unfolding apply_group_access
access_refuses g opts now = (
  λ h. apply_expires_refuses g opts now (first_error g (apply_expires g opts now) h),
  λ h. unfold apply_expires in ground arith,
)

accepted_limits :
    (g : UserGroup)
    → IsAccepted g
    → (m : ℕ) × (f : ℕ) × (g.max_expires_in ≡ pos m)
      × (g.force_max_age_days ≡ pos f)
      × (m ≤ global_max_expires_in_sec)
      × (f ≤ 3650)
unfolding validate_group_lifecycle
accepted_limits g h = (
  pos_part g.max_expires_in,
  pos_part g.force_max_age_days,
  ground arith,
  ground arith,
  ground arith,
  ground arith,
)

cap_of_limits :
    (g : UserGroup) (m f : ℕ)
    → g.max_expires_in ≡ pos m
    → g.force_max_age_days ≡ pos f
    → m ≤ global_max_expires_in_sec
    → f ≤ 3650
    → effective_expires_cap_sec (some g)
      ≡ pos (
          min global_max_expires_in_sec
            (if f == 0 then m else if m == 0 then f * 86400 else min m (f * 86400)))
unfolding effective_expires_cap_sec group_cap
cap_of_limits g m f em ef lm lf = rw (em, ef) (ground (arith, scale64_exact f 86400))

-- For limits that validateGroupLifecycle accepts, the cap is the smaller of the two settings that
-- are set: it is open exactly when both are 0, and never exceeds either of them or a year. In
-- particular the product ForceMaxAgeDays * 86400 does not wrap.
pub validated_cap :
    (g : UserGroup)
    → IsAccepted g
    → let cap = effective_expires_cap_sec (some g) in
      ((cap ≡ pos 0) ↔ ((g.max_expires_in ≡ pos 0) × (g.force_max_age_days ≡ pos 0)))
      × (pos 0 <ℤ g.max_expires_in → cap ≤ℤ g.max_expires_in)
      × (pos 0 <ℤ g.force_max_age_days → pos_part cap ≤ pos_part g.force_max_age_days * 86400)
      × (cap ≤ℤ pos global_max_expires_in_sec)
validated_cap g h =
    let (m, f, em, ef, lm, lf) = accepted_limits g h in
    rw (cap_of_limits g m f em ef lm lf, em, ef)
      ((λ e. ground arith, λ e. ground arith), λ l. ground arith, λ l. ground arith, ground arith)
