-- ===== src/Access/Examples.antt =====
-- The limits of user groups at a group with a cap of seven days and at most ten views.
use imgli.Common.{ℕ, ◌≡◌, refl, ◌⊎◌, ◌<◌, ◌≤◌, ◌+◌, ◌*◌, ◌↔◌, true, Option, none, some, String, ◌∙◌}
use imgli.Common.Int.{ℤ, pos, pos_part, ◌≤ℤ◌, ◌<ℤ◌}
use imgli.Common.Outcome.{ok, err}
use imgli.Model.{UserGroup, second}
use imgli.Access.{
  Opts, expires_over_group, global_max_expires_in_sec, global_max_views, effective_expires_cap_sec,
  group_cap_sec, add_seconds, apply_group_access, check_group_expires, check_group_max_views,
  validate_group_lifecycle,
}
use imgli.Access.Limits.{
  ExpiresWithin, IsAccepted, caps_agree, access_within, access_again, access_refuses, validated_cap,
}

abbrev pub week : UserGroup
week = record {
  id = 1;
  is_default = true;
  is_guest = true;
  storage_quota = pos 0;
  max_file_size = pos 0;
  bandwidth_quota_month = pos 0;
  rate_per_minute = pos 0;
  rate_per_hour = pos 0;
  rate_per_day = pos 0;
  default_expires_in = pos 3600;
  max_expires_in = pos 0;
  default_max_views = pos 3;
  max_max_views = pos 10;
  retention_days = pos 0;
  force_max_age_days = pos 7;
}

-- What a client asks for that sets no limits, and what it is given.
abbrev pub asked : Opts
asked = record {
  visibility = "public";
  album_id = none;
  policy_id = 0;
  expires_at = none;
  max_views = pos 0;
  access_password_hash = "";
}

abbrev pub given : Opts
given = record asked { expires_at = some (5 + 3600 * second); max_views = pos 3 }

pub shaped : apply_group_access (some week) asked 5 ≡ ok given
unfolding apply_group_access imgli.Access.apply_expires effective_expires_cap_sec
    imgli.Access.group_cap imgli.Common.Int.scale64 imgli.Access.apply_max_views
shaped = refl

week-IsAccepted : IsAccepted week
unfolding validate_group_lifecycle
week-IsAccepted = refl

caps_agree_example : group_cap_sec (some week) ≡ effective_expires_cap_sec (some week)
caps_agree_example = caps_agree (some week)

access_within_example :
    ExpiresWithin (effective_expires_cap_sec (some week)) 5 given.expires_at
    × (pos 3 ≤ℤ pos global_max_views)
    × (pos 0 <ℤ pos 10 → (pos 0 <ℤ pos 3) × (pos 3 ≤ℤ pos 10))
access_within_example = access_within week asked 5 shaped

access_again_example : apply_group_access (some week) given 5 ≡ ok given
access_again_example = access_again week asked 5 shaped

access_refuses_example : (apply_group_access (some week) given 5 ≡ err expires_over_group) ↔ (
    (t : ℕ) × (some (5 + 3600 * second) ≡ some t)
    × (pos 0 <ℤ effective_expires_cap_sec (some week))
    × (add_seconds 5 (effective_expires_cap_sec (some week)) < t))
access_refuses_example = access_refuses week given 5

validated_cap_example :
    let cap = effective_expires_cap_sec (some week) in
    ((cap ≡ pos 0) ↔ ((pos 0 ≡ pos 0) × (pos 7 ≡ pos 0)))
    × (pos 0 <ℤ pos 0 → cap ≤ℤ pos 0)
    × (pos 0 <ℤ pos 7 → pos_part cap ≤ 7 * 86400)
    × (cap ≤ℤ pos global_max_expires_in_sec)
validated_cap_example = validated_cap week week-IsAccepted
