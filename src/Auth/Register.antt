-- ===== src/Auth/Register.antt =====
-- RegisterWithMeta of internal/service/auth/auth.go. The transaction runs alone here, so the unique
-- indexes, which turn a lost race into ErrAccountConflict, are not reached.
use imgli.Common.{
  ℕ, ◌+◌, Bool, true, false, not, ◌&&◌, ◌||◌, Option, none, some, String, str_eq, is_some, ltb, any,
  first, update_where, if◌then◌else◌,
}
use imgli.Common.Outcome.{Outcome, ok, err}
use imgli.Table.{update_id, insert}
use imgli.Model.{Time, UserGroup}
use imgli.Auth.{
  Account, active, InviteCode, Accounts, account_key, AuthError, email_taken, username_taken,
  registration_closed, invite_required, invite_invalid, weak_password, invalid_input,
  record_not_found, Platform, clean_email,
}
use imgli.Auth.Password.{valid_password}

-- The setting registration_mode; another value than "open" and "invite" closes registration.
pub data RegistrationMode : Type 0 where
  opened invite closed : RegistrationMode

abbrev pub by_invite : RegistrationMode → Bool
by_invite invite = true
by_invite _ = false

-- The arguments, and the hash that HashPassword gives for the password.
pub record Signup : Type 0 where
  pub username : String
  pub email : String
  pub password : String
  pub invite_code : String
  pub password_hash : String

-- code = ? AND used_by IS NULL AND (expires_at IS NULL OR expires_at > now)
abbrev pub usable : String → Time → InviteCode → Bool
usable code now i =
    str_eq i.code code
    && not (is_some i.used_by)
    && (elim i.expires_at [ none ↦ true | some t ↦ ltb now t ])

abbrev pub mark_used : ℕ → Time → InviteCode → InviteCode
mark_used uid now i = record i { used_by = some uid; used_at = some now }

abbrev pub attribute : ℕ → Account → Account
attribute invite_id u = record u { signup_invite_code_id = some invite_id }

-- The invite's row is read again, by its code, for the user's attribution.
unfoldable pub attribute_invite : String → ℕ → Accounts → Accounts
attribute_invite code uid db = elim (first (λ (i : InviteCode). str_eq i.code code) db.invites) [
  | none ↦ db
  | some i ↦ record db { users = update_id account_key uid (attribute i.id) db.users }
]

unfoldable pub redeem : String → ℕ → Time → Accounts → Outcome AuthError Accounts
redeem code uid now db =
    if any (usable code now) db.invites
    then ok (
        attribute_invite code uid
          (record db { invites = update_where (usable code now) (mark_used uid now) db.invites }))
    else err invite_invalid

abbrev pub make_admin : Account → Account
make_admin u = record u { is_admin = true }

-- INSERT … ON CONFLICT DO NOTHING on the key first_admin_claimed.
unfoldable pub claim_admin : ℕ → Accounts → Accounts
claim_admin uid db = elim db.first_admin_claimed [
  | some other ↦ db
  | none ↦ record db {
    first_admin_claimed = some uid;
    users = update_id account_key uid make_admin db.users;
  }
]

abbrev pub new_account : Accounts → String → String → String → UserGroup → Account
new_account db username email password_hash group = record {
  id = db.next_user;
  username = username;
  email = email;
  password_hash = password_hash;
  nickname = username;
  group_id = group.id;
  is_admin = false;
  status = active;
  email_verified_at = none;
  signup_invite_code_id = none;
}

abbrev pub with_account : Account → Accounts → Accounts
with_account u db = record db {
  users = insert account_key u db.users;
  next_user = db.next_user + 1;
}

abbrev pub default_group : UserGroup → Bool
default_group g = g.is_default

-- The user's row, the invite and the first administrator, in this order.
unfoldable pub enrol :
    RegistrationMode → String → Account → Time → Accounts → Outcome AuthError Accounts
enrol mode code u now db =
    if by_invite mode
    then (elim (redeem code u.id now (with_account u db)) [
      | err e ↦ err e
      | ok redeemed ↦ ok (claim_admin u.id redeemed)
    ])
    else ok (claim_admin u.id (with_account u db))

-- The transaction of RegisterWithMeta: the new user's id and the tables.
unfoldable pub create_account :
    RegistrationMode
    → String
    → String
    → String
    → String
    → Time
    → Accounts
    → Outcome AuthError (ℕ × Accounts)
create_account mode code username email password_hash now db =
    if any (λ (u : Account). str_eq u.email email) db.users
    then err email_taken
    else if any (λ (u : Account). str_eq u.username username) db.users
    then err username_taken
    else elim (first default_group db.groups) [
      | none ↦ err record_not_found
      | some group ↦
          elim (enrol mode code (new_account db username email password_hash group) now db) [
            | err e ↦ err e
            | ok enrolled ↦ ok (db.next_user, enrolled)
          ]
    ]

-- The switch on the registration mode.
abbrev pub mode_error : RegistrationMode → String → Option AuthError
mode_error opened code = none
mode_error invite code = if str_eq code "" then some invite_required else none
mode_error closed code = some registration_closed

unfoldable pub register :
    Platform → RegistrationMode → Signup → Time → Accounts → Outcome AuthError (ℕ × Accounts)
register p mode s now db =
    let code = p.to_upper (p.trim_space s.invite_code) in
    let username = p.trim_space s.username in
    let email = clean_email p s.email in
    elim (mode_error mode code) [
      | some e ↦ err e
      | none ↦
          if not (p.username_re username) || not (p.email_re email)
          then err invalid_input
          else if not (valid_password p s.password)
          then err weak_password
          else create_account mode code username email s.password_hash now db
    ]
