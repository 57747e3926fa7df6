-- ===== src/Model.antt =====
-- The rows of internal/model/model.go, with the columns that the modelled code reads or writes.
-- A `time.Time` is its count of nanoseconds from Go's zero time, a number. A pointer that may be
-- nil is an `Option`, a signed `int` or `int64` setting an integer, a counter a number. A column
-- whose values the source lists is a data type.
use imgli.Common.{ℕ, ◌*◌, Bool, true, false, Option, String}
use imgli.Common.Int.{ℤ}

abbrev pub Time : Type 0
Time = ℕ

abbrev pub second : ℕ
second = 1_000_000_000

abbrev pub minute : ℕ
minute = 60 * second

abbrev pub hour : ℕ
hour = 3600 * second

abbrev pub day : ℕ
day = 24 * hour

-- Image.Visibility, File.Surface and Album.Visibility.
pub data Visibility : Type 0 where
  public private : Visibility

abbrev pub same_visibility : Visibility → Visibility → Bool
same_visibility public public = true
same_visibility private private = true
same_visibility _ _ = false

-- Image.Status.
pub data Status : Type 0 where
  normal pending rejected : Status

-- A NSFW score: a float64 of [0,1], written as its multiple of the least positive float64, so that
-- the order of floats is the order of numbers.
abbrev pub Score : Type 0
Score = ℕ

pub record UserGroup : Type 0 where
  pub id : ℕ
  pub is_default : Bool
  pub is_guest : Bool
  pub storage_quota : ℤ
  pub max_file_size : ℤ
  pub bandwidth_quota_month : ℤ
  pub rate_per_minute : ℤ
  pub rate_per_hour : ℤ
  pub rate_per_day : ℤ
  pub default_expires_in : ℤ
  pub max_expires_in : ℤ
  pub default_max_views : ℤ
  pub max_max_views : ℤ
  pub retention_days : ℤ
  pub force_max_age_days : ℤ

pub record User : Type 0 where
  pub id : ℕ
  pub group_id : ℕ
  pub used_storage : ℕ
  pub bandwidth_used_month : ℤ
  pub bandwidth_period : String

pub record File : Type 0 where
  pub id : ℕ
  pub hash : String
  pub surface : Visibility
  pub storage_policy_id : ℕ
  pub path : String
  pub size : ℕ
  pub ref_count : ℕ

pub record Image : Type 0 where
  pub id : ℕ
  pub key : String
  pub slug : Option String
  pub user_id : Option ℕ
  pub file_id : ℕ
  pub album_id : Option ℕ
  pub name : String
  pub visibility : Visibility
  pub status : Status
  pub is_whitelisted : Bool
  pub nsfw_score : Option Score
  pub expires_at : Option Time
  pub max_views : ℤ
  pub views_served : ℕ
  pub access_password_hash : String
  pub created_at : Time
  pub deleted_at : Option Time

pub record Album : Type 0 where
  pub id : ℕ
  pub user_id : ℕ
  pub visibility : Visibility
