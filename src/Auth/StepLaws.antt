-- ===== src/Auth/StepLaws.antt =====
-- Lemmas on each operation of internal/service/auth/auth.go: it keeps what the tables keep.
use mathlib.Core.Path.{subst}
use imgli.Common.{
  ℕ, ◌≡◌, refl, Bool, Option, String, arith, any, first, Bool-cases, Option-cases, inl, inr, str_eq,
  ◌==◌, update_where, ◌&&◌, false,
}
use imgli.Common.Outcome.{ok, Outcome-cases}
use imgli.Table.{find_id, update_id}
use imgli.Model.{Time}
use imgli.Auth.{
  Account, AuthToken, Accounts, account_key, Platform, verify_email, reset_password, change_email,
  verify_token_ttl, reset_token_ttl, is_open_token, clean_email,
}
use imgli.Auth.Sessions.{
  create_session, login, user_by_session, change_password, set_password, rehash, delete_session,
  end_sessions,
}
use imgli.Auth.Tokens.{
  Mail, request_change_email, confirm_change_email, send_verify_email, confirm_email,
  forgot_password, reset_password_by_token, create_auth_token, create_auth_token_payload, use_token,
  verified_at, open_token, move_address, taken_by_other, reset_account, open_of, readdress,
}
use imgli.Auth.Invariant.{IsSound}
use imgli.Auth.TokenLaws.{use_token-TokensSound, create_auth_token-IsSound}
use imgli.Auth.UserLaws.{Keeps, update-IsSound, readdress-IsSound}

-- Sessions are not read by the invariant.
pub sessions-IsSound :
    (db db' : Accounts) → record db { sessions = db'.sessions } ≡ db' → IsSound db → IsSound db'
sessions-IsSound db db' e s =
    subst IsSound e
      (record { of_users = s.of_users; of_invites = s.of_invites; of_tokens = s.of_tokens })

spent-IsSound :
    (q : AuthToken → Bool) (now : Time) (db : Accounts)
    → IsSound db
    → IsSound (record db { tokens = update_where q (use_token now) db.tokens })
spent-IsSound q now db s = record {
  of_users = s.of_users;
  of_invites = s.of_invites;
  of_tokens = use_token-TokensSound q now db.tokens db.next_token s.of_tokens;
}

rehash-Keeps : (password_hash : String) → Keeps (rehash password_hash)
rehash-Keeps password_hash = record {
  same_id = λ u. refl;
  same_email = λ u. refl;
  same_username = λ u. refl;
  same_admin = λ u. refl;
  same_signup = λ u. refl;
}

verified_at-Keeps : (now : Time) → Keeps (verified_at now)
verified_at-Keeps now = record {
  same_id = λ u. refl;
  same_email = λ u. refl;
  same_username = λ u. refl;
  same_admin = λ u. refl;
  same_signup = λ u. refl;
}

pub login-IsSound :
    (p : Platform) (account password raw : String) (now : Time) (u : Account) (db : Accounts)
    {db' : Accounts}
    → IsSound db
    → login p account password raw now db ≡ ok (u, db')
    → IsSound db'
unfolding login create_session
login-IsSound p account password raw now u db {db' = db'} s h =
    sessions-IsSound db db' (ground arith) s

pub user_by_session-IsSound :
    (p : Platform) (raw : String) (now : Time) (u : Option Account) (db : Accounts) {db' : Accounts}
    → IsSound db
    → user_by_session p raw now db ≡ ok (u, db')
    → IsSound db'
unfolding user_by_session delete_session
user_by_session-IsSound p raw now u db {db' = db'} s h = sessions-IsSound db db' (ground arith) s

pub set_password-IsSound :
    (uid : ℕ) (password_hash : String) (db : Accounts)
    → IsSound db
    → IsSound (end_sessions uid (set_password uid password_hash db))
unfolding set_password end_sessions
set_password-IsSound uid password_hash db s =
    let s' = update-IsSound uid (rehash password_hash) db (rehash-Keeps password_hash) s in
    record { of_users = s'.of_users; of_invites = s'.of_invites; of_tokens = s'.of_tokens }

pub change_password-IsSound :
    (p : Platform) (uid : ℕ) (old_pw new_pw password_hash : String) (db : Accounts) {db' : Accounts}
    → IsSound db
    → change_password p uid old_pw new_pw password_hash db ≡ ok db'
    → IsSound db'
unfolding change_password
change_password-IsSound p uid old_pw new_pw password_hash db {db' = db'} s h =
    elim (Option-cases (find_id account_key uid db.users)) [
      | inl e ↦ absurd (ground arith)
      | inr (u, e) ↦
          let done : end_sessions u.id (set_password u.id password_hash db) ≡ db' = ground arith in
          subst IsSound done (set_password-IsSound u.id password_hash db s)
    ]

pub request_change_email-IsSound :
    (p : Platform) (has_mailer : Bool) (uid : ℕ) (password address raw : String) (now : Time)
    (mail : Option Mail) (db : Accounts) {db' : Accounts}
    → IsSound db
    → request_change_email p has_mailer uid password address raw now db ≡ ok (mail, db')
    → IsSound db'
unfolding request_change_email
request_change_email-IsSound p has_mailer uid password address raw now mail db {db' = db'} s h =
    let made =
      create_auth_token_payload p uid change_email (clean_email p address) reset_token_ttl raw now
        db in
    elim (Bool-cases has_mailer) [
      | inr off ↦ let same : db ≡ db' = ground arith in subst IsSound same s
      | inl on ↦ elim (Outcome-cases made) [
        | inr (x, e) ↦ absurd (ground arith)
        | inl (db1, e) ↦
            let same : db1 ≡ db' = ground arith in
            subst IsSound same (
              create_auth_token-IsSound p uid change_email (clean_email p address) reset_token_ttl
                raw now db s e)
      ]
    ]

pub send_verify_email-IsSound :
    (p : Platform) (has_mailer : Bool) (u : Account) (raw : String) (now : Time)
    (mail : Option Mail) (db : Accounts) {db' : Accounts}
    → IsSound db
    → send_verify_email p has_mailer u raw now db ≡ (mail, db')
    → IsSound db'
unfolding send_verify_email
send_verify_email-IsSound p has_mailer u raw now mail db {db' = db'} s h =
    elim (Outcome-cases (create_auth_token p u.id verify_email verify_token_ttl raw now db)) [
      | inr (x, e) ↦ let same : db ≡ db' = ground arith in subst IsSound same s
      | inl (db1, e) ↦ elim (Bool-cases has_mailer) [
        | inr off ↦ let same : db ≡ db' = ground arith in subst IsSound same s
        | inl on ↦
            let same : db1 ≡ db' = ground arith in
            subst IsSound same
              (create_auth_token-IsSound p u.id verify_email "" verify_token_ttl raw now db s e)
      ]
    ]

pub forgot_password-IsSound :
    (p : Platform) (has_mailer : Bool) (address raw : String) (now : Time) (mail : Option Mail)
    (db : Accounts) {db' : Accounts}
    → IsSound db
    → forgot_password p has_mailer address raw now db ≡ (mail, db')
    → IsSound db'
unfolding forgot_password
forgot_password-IsSound p has_mailer address raw now mail db {db' = db'} s h =
    elim (Option-cases (first (λ (u : Account). str_eq u.email (clean_email p address)) db.users)) [
      | inl e ↦ let same : db ≡ db' = ground arith in subst IsSound same s
      | inr (u, e) ↦
          elim (Outcome-cases
            (create_auth_token p u.id reset_password reset_token_ttl raw now db)) [
              | inr (x, e') ↦ let same : db ≡ db' = ground arith in subst IsSound same s
              | inl (db1, e') ↦
                  let same : db1 ≡ db' = ground arith in
                  subst IsSound same (
                    create_auth_token-IsSound p u.id reset_password "" reset_token_ttl raw now db s
                      e')
            ]
    ]

pub confirm_email-IsSound :
    (p : Platform) (raw : String) (now : Time) (db : Accounts) {db' : Accounts}
    → IsSound db
    → confirm_email p raw now db ≡ ok db'
    → IsSound db'
unfolding confirm_email
confirm_email-IsSound p raw now db {db' = db'} s h =
    elim (Option-cases
      (first (open_token (p.hash (p.trim_space raw)) verify_email now) db.tokens)) [
        | inl e ↦ absurd (ground arith)
        | inr (at, e) ↦
            let chosen = λ (t : AuthToken). t.id == at.id && is_open_token now t in
            let spent = record db { tokens = update_where chosen (use_token now) db.tokens } in
            let done : record spent {
              users = update_id account_key at.user_id (verified_at now) db.users;
            }
                ≡ db' =
              ground arith in
            subst IsSound done (
              update-IsSound at.user_id (verified_at now) spent (verified_at-Keeps now)
                (spent-IsSound chosen now db s))
      ]

pub confirm_change_email-IsSound :
    (p : Platform) (raw : String) (now : Time) (db : Accounts) {db' : Accounts}
    → IsSound db
    → confirm_change_email p raw now db ≡ ok db'
    → IsSound db'
unfolding confirm_change_email move_address end_sessions
confirm_change_email-IsSound p raw now db {db' = db'} s h =
    elim (Option-cases
      (first (open_token (p.hash (p.trim_space raw)) change_email now) db.tokens)) [
        | inl e ↦ absurd (ground arith)
        | inr (at, e) ↦
            let new_email = clean_email p at.payload in
            let chosen = λ (t : AuthToken). t.id == at.id && is_open_token now t in
            let spent = record db { tokens = update_where chosen (use_token now) db.tokens } in
            let free : any (taken_by_other new_email at.user_id) db.users ≡ false = ground arith in
            let moved =
              readdress-IsSound at.user_id new_email now spent free
                (spent-IsSound chosen now db s) in
            sessions-IsSound
              (record spent {
                users = update_id account_key at.user_id (readdress new_email now) db.users;
              })
              db' (ground arith) moved
      ]

pub reset_password-IsSound :
    (p : Platform) (raw new_password password_hash : String) (now later : Time) (db : Accounts)
    {db' : Accounts}
    → IsSound db
    → reset_password_by_token p raw new_password password_hash now later db ≡ ok db'
    → IsSound db'
unfolding reset_password_by_token reset_account set_password end_sessions
reset_password-IsSound p raw new_password password_hash now later db {db' = db'} s h =
    elim (Option-cases
      (first (open_token (p.hash (p.trim_space raw)) reset_password now) db.tokens)) [
        | inl e ↦ absurd (ground arith)
        | inr (at, e) ↦
            let rehashed =
              update-IsSound at.user_id (rehash password_hash) db (rehash-Keeps password_hash) s in
            let spent = spent-IsSound (open_of at.user_id later) now _ rehashed in
            sessions-IsSound _ db' (ground arith) spent
      ]
