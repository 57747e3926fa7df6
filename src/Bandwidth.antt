-- ===== src/Bandwidth.antt =====
-- The monthly traffic of a user: internal/service/bandwidth/bandwidth.go. The period that a time
-- belongs to ("2006-01" in Shanghai) is an argument.
pub mod Laws
use imgli.Common.{
  ℕ, suc, zero, ◌+◌, ◌-◌, Bool, true, false, Option, none, some, List, String, str_eq, leb,
  if◌then◌else◌, ◌==◌,
}
use imgli.Common.Int.{ℤ, pos, negsuc, ltb_ℤ, leb_ℤ}
use imgli.Common.Outcome.{Outcome, ok, err}
use imgli.Table.{find_id, update_id}
use imgli.Model.{User, UserGroup}

pub data BandwidthError : Type 0 where
  exceeded no_row : BandwidthError

abbrev pub account_key : User → ℕ
account_key u = u.id

abbrev pub group_key : UserGroup → ℕ
group_key g = g.id

-- A counter that was never written for the period counts as 0, and so does a negative one.
unfoldable pub effective_used : ℤ → String → String → ℤ
effective_used used own period =
    if str_eq own period then (if ltb_ℤ used (pos 0) then pos 0 else used) else pos 0

pub record CheckRow : Type 0 where
  pub bandwidth_used_month : ℤ
  pub bandwidth_period : String
  pub bandwidth_quota_month : ℤ

-- The row of users JOIN user_groups.
unfoldable pub check_row : ℕ → List User → List UserGroup → Option CheckRow
check_row uid users groups = elim (find_id account_key uid users) [
  | none ↦ none
  | some u ↦ elim (find_id group_key u.group_id groups) [
    | none ↦ none
    | some g ↦ some (record {
      bandwidth_used_month = u.bandwidth_used_month;
      bandwidth_period = u.bandwidth_period;
      bandwidth_quota_month = g.bandwidth_quota_month;
    })
  ]
]

abbrev within_quota : String → CheckRow → Outcome BandwidthError (Unit {0})
within_quota period row =
    if leb_ℤ row.bandwidth_quota_month (pos 0)
    then ok tt
    else if leb_ℤ row.bandwidth_quota_month
        (effective_used row.bandwidth_used_month row.bandwidth_period period)
    then err exceeded
    else ok tt

-- Check
unfoldable pub check : ℕ → String → List User → List UserGroup → Outcome BandwidthError (Unit {0})
check uid period users groups = if uid == 0 then ok tt else elim (check_row uid users groups) [
  | none ↦ err no_row
  | some row ↦ within_quota period row
]

-- used + n
abbrev pub plus_ℕ : ℤ → ℕ → ℤ
plus_ℕ (pos k) n = pos (k + n)
plus_ℕ (negsuc k) n = if leb (suc k) n then pos (n - suc k) else negsuc (k - n)

abbrev pub meter : String → ℕ → User → User
meter period n u = record u {
  bandwidth_used_month =
      if str_eq u.bandwidth_period period then plus_ℕ u.bandwidth_used_month n else pos n;
  bandwidth_period = period;
}

-- Add, for n ≥ 0: nothing where n = 0.
unfoldable pub add : ℕ → String → ℕ → List User → List User
add uid period n users =
    if uid == 0
    then users
    else if n == 0
    then users
    else update_id account_key uid (meter period n) users

pub record Snapshot : Type 0 where
  pub period : String
  pub used : ℤ
  pub quota : ℤ

-- SnapshotFor
unfoldable pub snapshot_for :
    ℕ → String → List User → List UserGroup → Outcome BandwidthError Snapshot
snapshot_for uid period users groups =
    if uid == 0
    then ok (record { period = period; used = pos 0; quota = pos 0 })
    else elim (check_row uid users groups) [
      | none ↦ err no_row
      | some row ↦ ok (record {
        period = period;
        used = effective_used row.bandwidth_used_month row.bandwidth_period period;
        quota = row.bandwidth_quota_month;
      })
    ]
