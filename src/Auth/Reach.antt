-- ===== src/Auth/Reach.antt =====
-- Every history of the accounts: any sequence of the operations of internal/service/auth/auth.go and
-- of the invitation codes, each one transaction, in any order.
use mathlib.Core.Path.{subst}
use imgli.Common.{ℕ, ◌≡◌, refl, Bool, Option, none, List, [], String, arith, count_of}
use imgli.Common.Outcome.{Outcome, ok}
use imgli.Table.{rows_with}
use imgli.Model.{Time, UserGroup}
use imgli.Auth.{Account, Accounts, AuthError, Platform}
use imgli.Auth.Register.{RegistrationMode, Signup, register}
use imgli.Auth.Sessions.{login, logout, user_by_session, change_password, delete_session}
use imgli.Auth.Tokens.{
  Mail, request_change_email, confirm_change_email, send_verify_email, confirm_email,
  forgot_password, reset_password_by_token,
}
use imgli.Auth.Invites.{create_invites, revoke_invite}
use imgli.Auth.Invariant.{IsSound}
use imgli.Auth.StepLaws.{
  sessions-IsSound, login-IsSound, user_by_session-IsSound, change_password-IsSound,
  request_change_email-IsSound, send_verify_email-IsSound, forgot_password-IsSound,
  confirm_email-IsSound, confirm_change_email-IsSound, reset_password-IsSound,
}
use imgli.Auth.RegisterLaws.{register-IsSound}
use imgli.Auth.InviteRows.{create_invites-IsSound, revoke_invite-IsSound}

-- One operation that changes the tables.
pub data Step (p : Platform) (db db' : Accounts) : Type 0 where
  registered :
      (mode : RegistrationMode) (x : Signup) (now : Time) (uid : ℕ)
      → register p mode x now db ≡ ok (uid, db')
      → Step p db db'
  logged_in :
      (account password raw : String) (now : Time) (u : Account)
      → login p account password raw now db ≡ ok (u, db')
      → Step p db db'
  logged_out : (raw : String) → logout p raw db ≡ db' → Step p db db'
  looked_up :
      (raw : String) (now : Time) (u : Option Account)
      → user_by_session p raw now db ≡ ok (u, db')
      → Step p db db'
  password_changed :
      (uid : ℕ) (old_pw new_pw password_hash : String)
      → change_password p uid old_pw new_pw password_hash db ≡ ok db'
      → Step p db db'
  change_requested :
      (has_mailer : Bool) (uid : ℕ) (password address raw : String) (now : Time)
      (mail : Option Mail)
      → request_change_email p has_mailer uid password address raw now db ≡ ok (mail, db')
      → Step p db db'
  change_confirmed :
      (raw : String) (now : Time) → confirm_change_email p raw now db ≡ ok db' → Step p db db'
  verification_sent :
      (has_mailer : Bool) (u : Account) (raw : String) (now : Time) (mail : Option Mail)
      → send_verify_email p has_mailer u raw now db ≡ (mail, db')
      → Step p db db'
  verified : (raw : String) (now : Time) → confirm_email p raw now db ≡ ok db' → Step p db db'
  reset_requested :
      (has_mailer : Bool) (address raw : String) (now : Time) (mail : Option Mail)
      → forgot_password p has_mailer address raw now db ≡ (mail, db')
      → Step p db db'
  password_reset :
      (raw new_password password_hash : String) (now later : Time)
      → reset_password_by_token p raw new_password password_hash now later db ≡ ok db'
      → Step p db db'
  invited :
      (created_by : ℕ) (expires : Option Time) (rounds : List (List String))
      (codes : Outcome AuthError (List String))
      → create_invites created_by expires rounds db ≡ (codes, db')
      → Step p db db'
  revoked : (id : ℕ) (code : String) → revoke_invite id db ≡ ok (code, db') → Step p db db'

pub data Reach (p : Platform) (start : Accounts) : Accounts → Type 0 where
  here : Reach p start start
  next : {s t : Accounts} → Reach p start s → Step p s t → Reach p start t

-- A site before its first visitor.
abbrev pub start_with : List UserGroup → Accounts
start_with groups = record {
  users = [];
  groups = groups;
  invites = [];
  sessions = [];
  tokens = [];
  first_admin_claimed = none;
  next_user = 1;
  next_invite = 1;
  next_token = 1;
}

Step-IsSound : (p : Platform) {db db' : Accounts} → Step p db db' → IsSound db → IsSound db'
unfolding logout delete_session
Step-IsSound p {db} (registered mode x now uid e) s = register-IsSound p mode x now db s e
Step-IsSound p {db} (logged_in account password raw now u e) s =
    login-IsSound p account password raw now u db s e
Step-IsSound p {db} {db'} (logged_out raw e) s = sessions-IsSound db db' (ground arith) s
Step-IsSound p {db} (looked_up raw now u e) s = user_by_session-IsSound p raw now u db s e
Step-IsSound p {db} (password_changed uid old_pw new_pw password_hash e) s =
    change_password-IsSound p uid old_pw new_pw password_hash db s e
Step-IsSound p {db} (change_requested has_mailer uid password address raw now mail e) s =
    request_change_email-IsSound p has_mailer uid password address raw now mail db s e
Step-IsSound p {db} (change_confirmed raw now e) s = confirm_change_email-IsSound p raw now db s e
Step-IsSound p {db} (verification_sent has_mailer u raw now mail e) s =
    send_verify_email-IsSound p has_mailer u raw now mail db s e
Step-IsSound p {db} (verified raw now e) s = confirm_email-IsSound p raw now db s e
Step-IsSound p {db} (reset_requested has_mailer address raw now mail e) s =
    forgot_password-IsSound p has_mailer address raw now mail db s e
Step-IsSound p {db} (password_reset raw new_password password_hash now later e) s =
    reset_password-IsSound p raw new_password password_hash now later db s e
Step-IsSound p {db} (invited created_by expires rounds codes e) s =
    subst (λ q. IsSound q.1) e (create_invites-IsSound created_by expires rounds db s)
Step-IsSound p {db} (revoked id code e) s = revoke_invite-IsSound id db s e

start-IsSound : (groups : List UserGroup) → IsSound (start_with groups)
unfolding count_of rows_with
start-IsSound groups = record {
  of_users = record {
    keyed = record { unique = λ i. omega arith; fresh = λ i le. refl };
    emails = λ e. omega arith;
    usernames = λ n. omega arith;
    one_admin = refl;
  };
  of_invites = record {
    keyed = record { unique = λ i. omega arith; fresh = λ i le. refl };
    codes = λ c. omega arith;
    admitted = λ i. refl;
  };
  of_tokens = record {
    keyed = record { unique = λ i. omega arith; fresh = λ i le. refl };
    hashes = λ h. omega arith;
    pending = λ uid purpose. omega arith;
  };
}

-- After any history of a new site's accounts (registrations, invitations made, revoked and redeemed,
-- logins, changes of password and of address, and one-time tokens), no two users share an address or
-- a name, no two invitations a code and no two tokens a hash; there is exactly one administrator if
-- the first one has been claimed and none before; each invitation has admitted one user if it is
-- marked as used and none otherwise; and no user has two pending tokens of one purpose.
pub Reach-IsSound :
    (p : Platform) (groups : List UserGroup) {db : Accounts}
    → Reach p (start_with groups) db
    → IsSound db
Reach-IsSound p groups here = start-IsSound groups
Reach-IsSound p groups (next r s) = Step-IsSound p s (Reach-IsSound p groups r)
