-- ===== src/Auth/Sessions.antt =====
-- Login, CreateSession, Logout, UserBySession and ChangePassword of internal/service/auth/auth.go.
-- A new session's token is the argument `raw`, which token.Random draws.
use imgli.Common.{
  ℕ, ◌+◌, Bool, not, ◌||◌, Option, none, some, String, str_eq, ltb, any, keep, first, ◌==◌,
  if◌then◌else◌,
}
use imgli.Common.Outcome.{Outcome, ok, err}
use imgli.Table.{find_id, update_id, insert}
use imgli.Model.{Time}
use imgli.Auth.{
  Account, is_banned, Session, Accounts, account_key, AuthError, invalid_credentials, user_banned,
  weak_password, record_not_found, duplicated_key, Platform, session_ttl,
}
use imgli.Auth.Password.{valid_password}

abbrev pub has_session_id : String → Session → Bool
has_session_id id s = str_eq s.id id

-- The primary key refuses a second session of one token.
unfoldable pub create_session :
    Platform → Account → String → Time → Accounts → Outcome AuthError Accounts
create_session p u raw now db =
    if any (has_session_id (p.hash raw)) db.sessions
    then err duplicated_key
    else ok (record db {
      sessions =
          insert (λ _. 0)
            (record { id = p.hash raw; user_id = u.id; expires_at = now + session_ttl })
            db.sessions;
    })

-- email = ? OR username = ?
abbrev pub goes_by : Platform → String → Account → Bool
goes_by p account u =
    let name = p.trim_space account in str_eq u.email (p.to_lower name) || str_eq u.username name

unfoldable pub login :
    Platform → String → String → String → Time → Accounts → Outcome AuthError (Account × Accounts)
login p account password raw now db = elim (first (goes_by p account) db.users) [
  | none ↦ err invalid_credentials
  | some u ↦
      if not (p.verify u.password_hash password)
      then err invalid_credentials
      else if is_banned u.status
      then err user_banned
      else elim (create_session p u raw now db) [ err e ↦ err e | ok db' ↦ ok (u, db') ]
]

unfoldable pub delete_session : String → Accounts → Accounts
delete_session id db = record db { sessions = keep (λ s. not (has_session_id id s)) db.sessions }

unfoldable pub logout : Platform → String → Accounts → Accounts
logout p raw db = delete_session (p.hash raw) db

-- The user of a session that is there and has not expired.
abbrev pub session_user : Session → Accounts → Outcome AuthError (Option Account × Accounts)
session_user s db = elim (find_id account_key s.user_id db.users) [
  | none ↦ err record_not_found
  | some u ↦ if is_banned u.status then ok (none, db) else ok (some u, db)
]

-- An expired session's row is deleted.
unfoldable pub user_by_session :
    Platform → String → Time → Accounts → Outcome AuthError (Option Account × Accounts)
user_by_session p raw now db =
    if str_eq raw ""
    then ok (none, db)
    else elim (first (has_session_id (p.hash raw)) db.sessions) [
      | none ↦ ok (none, db)
      | some s ↦
          if ltb s.expires_at now then ok (none, delete_session s.id db) else session_user s db
    ]

abbrev pub of_user : ℕ → Session → Bool
of_user uid s = s.user_id == uid

unfoldable pub end_sessions : ℕ → Accounts → Accounts
end_sessions uid db = record db { sessions = keep (λ s. not (of_user uid s)) db.sessions }

abbrev pub rehash : String → Account → Account
rehash password_hash u = record u { password_hash = password_hash }

unfoldable pub set_password : ℕ → String → Accounts → Accounts
set_password uid password_hash db = record db {
  users = update_id account_key uid (rehash password_hash) db.users;
}

-- `password_hash` is what HashPassword gives for `new_pw`.
unfoldable pub change_password :
    Platform → ℕ → String → String → String → Accounts → Outcome AuthError Accounts
change_password p uid old_pw new_pw password_hash db = elim (find_id account_key uid db.users) [
  | none ↦ err record_not_found
  | some u ↦
      if not (p.verify u.password_hash old_pw)
      then err invalid_credentials
      else if not (valid_password p new_pw)
      then err weak_password
      else ok (end_sessions u.id (set_password u.id password_hash db))
]
