-- ===== src/Auth/Tokens.antt =====
-- The one-time tokens of internal/service/auth/auth.go: createAuthToken, and the verification of an
-- address, its change, and the reset of a password. A new token is the argument `raw`, which
-- token.Random draws; the mail that carries it, sent after the commit, is part of the result.
use imgli.Common.{
  ℕ, ◌+◌, Bool, not, ◌&&◌, Option, none, some, String, str_eq, is_some, any, first, update_where,
  ◌==◌, if◌then◌else◌,
}
use imgli.Common.Outcome.{Outcome, ok, err}
use imgli.Table.{find_id, update_id, insert}
use imgli.Model.{Time}
use imgli.Auth.{
  Account, AuthToken, Purpose, verify_email, reset_password, change_email, same_purpose, Accounts,
  account_key, token_key, AuthError, email_taken, weak_password, invalid_input, token_invalid,
  already_verified, wrong_password, record_not_found, duplicated_key, Platform, clean_email,
  reset_token_ttl, verify_token_ttl, is_open_token,
}
use imgli.Auth.Password.{valid_password}
use imgli.Auth.Sessions.{set_password, end_sessions}

-- What is mailed: the address and the token of the link.
pub record Mail : Type 0 where
  pub to : String
  pub token : String

abbrev pub use_token : Time → AuthToken → AuthToken
use_token now t = record t { used_at = some now }

-- user_id = ? AND purpose = ? AND used_at IS NULL
abbrev pub pending_token : ℕ → Purpose → AuthToken → Bool
pending_token uid purpose t =
    t.user_id == uid && same_purpose t.purpose purpose && not (is_some t.used_at)

abbrev pub has_token_hash : String → AuthToken → Bool
has_token_hash h t = str_eq t.token_hash h

abbrev pub void_tokens : ℕ → Purpose → Time → Accounts → Accounts
void_tokens uid purpose now db = record db {
  tokens = update_where (pending_token uid purpose) (use_token now) db.tokens;
}

-- The row of a new token; the unique index on token_hash refuses a second one of one value.
unfoldable pub add_token : AuthToken → Accounts → Outcome AuthError Accounts
add_token t db =
    if any (has_token_hash t.token_hash) db.tokens
    then err duplicated_key
    else ok (record db { tokens = insert token_key t db.tokens; next_token = db.next_token + 1 })

unfoldable pub create_auth_token_payload :
    Platform → ℕ → Purpose → String → Time → String → Time → Accounts → Outcome AuthError Accounts
create_auth_token_payload p uid purpose payload ttl raw now db =
    add_token
      (record {
        id = db.next_token;
        user_id = uid;
        purpose = purpose;
        token_hash = p.hash raw;
        payload = payload;
        expires_at = now + ttl;
        used_at = none;
      })
      (void_tokens uid purpose now db)

abbrev pub create_auth_token :
    Platform → ℕ → Purpose → Time → String → Time → Accounts → Outcome AuthError Accounts
create_auth_token p uid purpose ttl raw now db =
    create_auth_token_payload p uid purpose "" ttl raw now db

-- token_hash = ? AND purpose = ? AND used_at IS NULL AND expires_at > now
abbrev pub open_token : String → Purpose → Time → AuthToken → Bool
open_token h purpose now t =
    has_token_hash h t && same_purpose t.purpose purpose && is_open_token now t

-- email = ? AND id <> ?
abbrev pub taken_by_other : String → ℕ → Account → Bool
taken_by_other email uid u = str_eq u.email email && not (u.id == uid)

-- Without a mailer nothing is written.
unfoldable pub request_change_email :
    Platform
    → Bool
    → ℕ
    → String
    → String
    → String
    → Time
    → Accounts
    → Outcome AuthError (Option Mail × Accounts)
request_change_email p has_mailer uid password address raw now db =
    let new_email = clean_email p address in
    if not (p.email_re new_email)
    then err invalid_input
    else elim (find_id account_key uid db.users) [
      | none ↦ err record_not_found
      | some u ↦
          if not (p.verify u.password_hash password)
          then err wrong_password
          else if p.equal_fold u.email new_email
          then err invalid_input
          else if any (taken_by_other new_email uid) db.users
          then err email_taken
          else if not has_mailer
          then ok (none, db)
          else elim (create_auth_token_payload p uid change_email new_email reset_token_ttl raw now
              db) [
                | err e ↦ err e
                | ok db' ↦ ok (some (record { to = new_email; token = raw }), db')
              ]
    ]

-- UPDATE auth_tokens SET used_at WHERE id = ? AND used_at IS NULL AND expires_at > now
abbrev pub spend : ℕ → Time → Accounts → Outcome AuthError Accounts
spend id now db =
    let chosen = λ (t : AuthToken). t.id == id && is_open_token now t in
    if any chosen db.tokens
    then ok (record db { tokens = update_where chosen (use_token now) db.tokens })
    else err token_invalid

abbrev pub readdress : String → Time → Account → Account
readdress email now u = record u { email = email; email_verified_at = some now }

-- The transaction of ConfirmChangeEmail, for the token's row.
unfoldable pub move_address : String → AuthToken → Time → Accounts → Outcome AuthError Accounts
move_address new_email at now db = elim (spend at.id now db) [
  | err e ↦ err e
  | ok spent ↦
      if any (taken_by_other new_email at.user_id) spent.users
      then err email_taken
      else ok (
          end_sessions at.user_id (record spent {
            users = update_id account_key at.user_id (readdress new_email now) spent.users;
          }))
]

unfoldable pub confirm_change_email :
    Platform → String → Time → Accounts → Outcome AuthError Accounts
confirm_change_email p raw now db =
    elim (first (open_token (p.hash (p.trim_space raw)) change_email now) db.tokens) [
      | none ↦ err token_invalid
      | some at ↦
          let new_email = clean_email p at.payload in
          if str_eq new_email "" then err token_invalid else move_address new_email at now db
    ]

-- A failure to write the token is logged, and no mail is sent.
unfoldable pub send_verify_email :
    Platform → Bool → Account → String → Time → Accounts → Option Mail × Accounts
send_verify_email p has_mailer u raw now db =
    if not has_mailer
    then (none, db)
    else elim (create_auth_token p u.id verify_email verify_token_ttl raw now db) [
      | err e ↦ (none, db)
      | ok db' ↦ (some (record { to = u.email; token = raw }), db')
    ]

abbrev pub verified_at : Time → Account → Account
verified_at now u = record u { email_verified_at = some now }

unfoldable pub confirm_email : Platform → String → Time → Accounts → Outcome AuthError Accounts
confirm_email p raw now db =
    elim (first (open_token (p.hash (p.trim_space raw)) verify_email now) db.tokens) [
      | none ↦ err token_invalid
      | some at ↦ elim (spend at.id now db) [
        | err e ↦ err e
        | ok spent ↦ ok (record spent {
          users = update_id account_key at.user_id (verified_at now) spent.users;
        })
      ]
    ]

unfoldable pub resend_verification :
    Platform → Bool → ℕ → String → Time → Accounts → Outcome AuthError (Option Mail × Accounts)
resend_verification p has_mailer uid raw now db = elim (find_id account_key uid db.users) [
  | none ↦ err record_not_found
  | some u ↦
      if is_some u.email_verified_at
      then err already_verified
      else ok (send_verify_email p has_mailer u raw now db)
]

-- The caller is told nothing, whether there is such an account or not.
unfoldable pub forgot_password :
    Platform → Bool → String → String → Time → Accounts → Option Mail × Accounts
forgot_password p has_mailer address raw now db =
    elim (first (λ (u : Account). str_eq u.email (clean_email p address)) db.users) [
      | none ↦ (none, db)
      | some u ↦ elim (create_auth_token p u.id reset_password reset_token_ttl raw now db) [
        | err e ↦ (none, db)
        | ok db' ↦ (if has_mailer then some (record { to = u.email; token = raw }) else none, db')
      ]
    ]

-- user_id = ? AND purpose = ? AND used_at IS NULL AND expires_at > now
abbrev pub open_of : ℕ → Time → AuthToken → Bool
open_of uid now t = t.user_id == uid && same_purpose t.purpose reset_password && is_open_token now t

-- The transaction of ResetPasswordByToken: its conditional UPDATE reads the clock `later`.
unfoldable pub reset_account : ℕ → String → Time → Time → Accounts → Outcome AuthError Accounts
reset_account uid password_hash now later db =
    let rehashed = set_password uid password_hash db in
    if any (open_of uid later) rehashed.tokens
    then ok (
        end_sessions uid (record rehashed {
          tokens = update_where (open_of uid later) (use_token now) rehashed.tokens;
        }))
    else err token_invalid

unfoldable pub reset_password_by_token :
    Platform → String → String → String → Time → Time → Accounts → Outcome AuthError Accounts
reset_password_by_token p raw new_password password_hash now later db =
    if not (valid_password p new_password)
    then err weak_password
    else elim (first (open_token (p.hash (p.trim_space raw)) reset_password now) db.tokens) [
      | none ↦ err token_invalid
      | some at ↦ reset_account at.user_id password_hash now later db
    ]
