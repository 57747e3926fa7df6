-- ===== src/Auth.antt =====
-- Accounts: internal/service/auth/auth.go and password.go, internal/token/token.go, and the tables
-- of internal/model/model.go that they read and write. The signup attribution columns of a user,
-- which no modelled code reads, are left out.
pub mod Phc
pub mod Password
pub mod Register
pub mod Sessions
pub mod Tokens
pub mod Invites
pub mod Invariant
pub mod TokenLaws
pub mod UserLaws
pub mod InviteLaws
pub mod RegisterLaws
pub mod InviteRows
pub mod StepLaws
pub mod SessionLaws
pub mod ResetLaws
pub mod ApiTokens
pub mod Reach
pub mod Examples
pub mod PhcExamples
use imgli.Common.{ℕ, ◌*◌, Bool, true, false, ◌&&◌, Option, List, String, str_eq, is_some, not, ltb}
use imgli.Model.{Time, hour, day, UserGroup}

pub data AccountStatus : Type 0 where
  active banned : AccountStatus

abbrev pub is_banned : AccountStatus → Bool
is_banned active = false
is_banned banned = true

-- A row of users, with the columns of the account.
pub record Account : Type 0 where
  pub id : ℕ
  pub username : String
  pub email : String
  pub password_hash : String
  pub nickname : String
  pub group_id : ℕ
  pub is_admin : Bool
  pub status : AccountStatus
  pub email_verified_at : Option Time
  pub signup_invite_code_id : Option ℕ

pub record InviteCode : Type 0 where
  pub id : ℕ
  pub code : String
  pub created_by : ℕ
  pub used_by : Option ℕ
  pub used_at : Option Time
  pub expires_at : Option Time

-- The key of a session is the hash of its token.
pub record Session : Type 0 where
  pub id : String
  pub user_id : ℕ
  pub expires_at : Time

pub data Purpose : Type 0 where
  verify_email reset_password change_email : Purpose

abbrev pub same_purpose : Purpose → Purpose → Bool
same_purpose verify_email verify_email = true
same_purpose reset_password reset_password = true
same_purpose change_email change_email = true
same_purpose _ _ = false

pub record AuthToken : Type 0 where
  pub id : ℕ
  pub user_id : ℕ
  pub purpose : Purpose
  pub token_hash : String
  pub payload : String
  pub expires_at : Time
  pub used_at : Option Time

-- The tables, and the setting first_admin_claimed.
pub record Accounts : Type 0 where
  pub users : List Account
  pub groups : List UserGroup
  pub invites : List InviteCode
  pub sessions : List Session
  pub tokens : List AuthToken
  pub first_admin_claimed : Option ℕ
  pub next_user : ℕ
  pub next_invite : ℕ
  pub next_token : ℕ

abbrev pub account_key : Account → ℕ
account_key u = u.id

abbrev pub invite_key : InviteCode → ℕ
invite_key i = i.id

abbrev pub token_key : AuthToken → ℕ
token_key t = t.id

-- The errors of auth.go, and of the database: no row, and a value that a unique index has already.
pub data AuthError : Type 0 where
  email_taken username_taken invalid_credentials registration_closed : AuthError
  invite_required invite_invalid user_banned weak_password invalid_input : AuthError
  account_conflict token_invalid already_verified wrong_password : AuthError
  record_not_found duplicated_key : AuthError
  invite_not_found invite_used invite_count_invalid : AuthError

abbrev pub session_ttl : Time
session_ttl = 30 * day

abbrev pub reset_token_ttl : Time
reset_token_ttl = hour

abbrev pub verify_token_ttl : Time
verify_token_ttl = 24 * hour

-- What auth.go calls of Go's packages strings, regexp and utf8, of argon2 and of sha256.
pub record Platform : Type 0 where
  pub trim_space : String → String
  pub to_lower : String → String
  pub to_upper : String → String
  pub username_re : String → Bool
  pub email_re : String → Bool
  pub has_letter : String → Bool
  pub has_digit : String → Bool
  pub byte_length : String → ℕ
  pub equal_fold : String → String → Bool
  pub hash : String → String
  pub verify : String → String → Bool

-- strings.ToLower(strings.TrimSpace(email))
abbrev pub clean_email : Platform → String → String
clean_email p email = p.to_lower (p.trim_space email)

-- used_at IS NULL AND expires_at > now
abbrev pub is_open_token : Time → AuthToken → Bool
is_open_token now t = not (is_some t.used_at) && ltb now t.expires_at
