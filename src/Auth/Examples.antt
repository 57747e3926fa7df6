-- ===== src/Auth/Examples.antt =====
-- A site with one user, who signs up by invitation, logs in, and forgets the password.
use imgli.Common.{
  ℕ, ◌+◌, ◌≤◌, ◌≡◌, ◌↔◌, refl, Bool, true, false, Option, none, some, List, [], ◌∷◌, String, str_eq,
  ◌==◌, arith, first, eq_iff, ==_iff, if◌then◌else◌,
}
use imgli.Common.Int.{pos}
use imgli.Common.Outcome.{ok, err}
use imgli.Table.{find_id}
use imgli.Table.Laws.{map_option}
use imgli.Model.{Time, UserGroup}
use imgli.Auth.{
  Account, active, InviteCode, Session, AuthToken, Accounts, account_key, Platform, reset_password,
  session_ttl, token_invalid, is_banned,
}
use imgli.Auth.Password.{valid_password}
use imgli.Auth.Register.{Signup, invite, register}
use imgli.Auth.Sessions.{login, goes_by, user_by_session, delete_session, change_password, rehash}
use imgli.Auth.Tokens.{forgot_password, reset_password_by_token, open_token}
use imgli.Auth.Invites.{create_invites}
use imgli.Auth.Invariant.{IsSound}
use imgli.Auth.Reach.{
  Reach, here, next, start_with, registered, invited, logged_in, reset_requested, Reach-IsSound,
}
use imgli.Auth.SessionLaws.{login-user_by_session, change_password-ends}
use imgli.Auth.ResetLaws.{reset_password-once}

-- A platform on which texts need no cleaning and a password is its own hash.
abbrev plain : Platform
plain = record {
  trim_space = λ s. s;
  to_lower = λ s. s;
  to_upper = λ s. s;
  username_re = λ s. true;
  email_re = λ s. true;
  has_letter = λ s. true;
  has_digit = λ s. true;
  byte_length = λ s. 8;
  equal_fold = str_eq;
  hash = λ s. s;
  verify = str_eq;
}

abbrev members : UserGroup
members = record {
  id = 1;
  is_default = true;
  is_guest = false;
  storage_quota = pos 0;
  max_file_size = pos 0;
  bandwidth_quota_month = pos 0;
  rate_per_minute = pos 0;
  rate_per_hour = pos 0;
  rate_per_day = pos 0;
  default_expires_in = pos 0;
  max_expires_in = pos 0;
  default_max_views = pos 0;
  max_max_views = pos 0;
  retention_days = pos 0;
  force_max_age_days = pos 0;
}

abbrev empty_site : Accounts
empty_site = start_with (members ∷ [])

abbrev code_row : Option ℕ → Option Time → InviteCode
code_row used_by used_at = record {
  id = 1;
  code = "IL-1";
  created_by = 0;
  used_by = used_by;
  used_at = used_at;
  expires_at = none;
}

abbrev with_code : Accounts
with_code = record empty_site { invites = code_row none none ∷ []; next_invite = 2 }

abbrev ann_signup : Signup
ann_signup = record {
  username = "ann";
  email = "ann@example.org";
  password = "secret";
  invite_code = "IL-1";
  password_hash = "secret";
}

abbrev ann_with : String → Account
ann_with password_hash = record {
  id = 1;
  username = "ann";
  email = "ann@example.org";
  password_hash = password_hash;
  nickname = "ann";
  group_id = 1;
  is_admin = true;
  status = active;
  email_verified_at = none;
  signup_invite_code_id = some 1;
}

abbrev signed_up : Accounts
signed_up = record with_code {
  users = ann_with "secret" ∷ [];
  invites = code_row (some 1) (some 7) ∷ [];
  first_admin_claimed = some 1;
  next_user = 2;
}

abbrev session_of_ann : Session
session_of_ann = record { id = "s1"; user_id = 1; expires_at = 8 + session_ttl }

abbrev signed_in : Accounts
signed_in = record signed_up { sessions = session_of_ann ∷ [] }

abbrev reset_token : Option Time → AuthToken
reset_token used_at = record {
  id = 1;
  user_id = 1;
  purpose = reset_password;
  token_hash = "t1";
  payload = "";
  expires_at = 9 + imgli.Auth.reset_token_ttl;
  used_at = used_at;
}

abbrev forgotten : Accounts
forgotten = record signed_in { tokens = reset_token none ∷ []; next_token = 2 }

abbrev recovered : Accounts
recovered = record forgotten {
  users = ann_with "better" ∷ [];
  sessions = [];
  tokens = reset_token (some 10) ∷ [];
}

code_made : create_invites 0 none (("IL-1" ∷ []) ∷ []) empty_site ≡ (ok ("IL-1" ∷ []), with_code)
unfolding create_invites imgli.Auth.Invites.create_codes imgli.Auth.Invites.try_codes
    imgli.Auth.Invites.add_invite imgli.Common.any imgli.Table.insert
code_made = refl

ann_registers : register plain invite ann_signup 7 with_code ≡ ok (1, signed_up)
unfolding register imgli.Auth.Register.create_account imgli.Common.any first
    imgli.Auth.Register.enrol imgli.Auth.Register.redeem imgli.Auth.Register.claim_admin
    imgli.Auth.Register.attribute_invite imgli.Common.update_where imgli.Table.update_id
    imgli.Table.insert
ann_registers = refl

-- The code admits nobody else.
bob_comes_late :
    register plain invite
      (record ann_signup { username = "bob"; email = "bob@example.org" })
      8
      signed_up
    ≡ err imgli.Auth.invite_invalid
unfolding register imgli.Auth.Register.create_account imgli.Common.any first
    imgli.Auth.Register.enrol imgli.Auth.Register.redeem
bob_comes_late = refl

ann_logs_in : login plain "ann" "secret" "s1" 8 signed_up ≡ ok (ann_with "secret", signed_in)
unfolding login first imgli.Auth.Sessions.create_session imgli.Common.any imgli.Table.insert
ann_logs_in = refl

ann_forgets :
    forgot_password plain true "ann@example.org" "t1" 9 signed_in
    ≡ (some (record { to = "ann@example.org"; token = "t1" }), forgotten)
unfolding forgot_password first imgli.Auth.Tokens.create_auth_token_payload
    imgli.Auth.Tokens.add_token imgli.Common.any imgli.Common.update_where imgli.Table.insert
ann_forgets = refl

ann_resets : reset_password_by_token plain "t1" "better" "better" 10 10 forgotten ≡ ok recovered
unfolding reset_password_by_token first imgli.Auth.Tokens.reset_account imgli.Common.any
    imgli.Auth.Sessions.set_password imgli.Auth.Sessions.end_sessions imgli.Table.update_id
    imgli.Common.keep imgli.Common.update_where
ann_resets = refl

ann_changes :
    change_password plain 1 "secret" "better" "better" signed_in
    ≡ ok (record signed_in { users = ann_with "better" ∷ []; sessions = [] })
unfolding change_password find_id imgli.Auth.Sessions.end_sessions imgli.Auth.Sessions.set_password
    imgli.Common.keep imgli.Table.update_id
ann_changes = refl

history : Reach plain empty_site forgotten
history =
    next
      (next
        (next (next here (invited 0 none (("IL-1" ∷ []) ∷ []) (ok ("IL-1" ∷ [])) code_made))
          (registered invite ann_signup 7 1 ann_registers))
        (logged_in "ann" "secret" "s1" 8 (ann_with "secret") ann_logs_in))
      (reset_requested true "ann@example.org" "t1" 9
        (some (record { to = "ann@example.org"; token = "t1" })) ann_forgets)

Reach-IsSound_example : IsSound forgotten
Reach-IsSound_example = Reach-IsSound plain (members ∷ []) history

signed_up-IsSound : IsSound signed_up
signed_up-IsSound = Reach-IsSound plain (members ∷ []) (
    next (next here (invited 0 none (("IL-1" ∷ []) ∷ []) (ok ("IL-1" ∷ [])) code_made))
      (registered invite ann_signup 7 1 ann_registers))

login_example :
    (goes_by plain "ann" (ann_with "secret") ≡ true)
    × (is_banned (ann_with "secret").status ≡ false)
    × (plain.verify "secret" "secret" ≡ true)
    × ((later : Time)
        → later ≤ 8 + session_ttl
        → user_by_session plain "s1" later signed_in ≡ ok (some (ann_with "secret"), signed_in))
    × ((later : Time)
        → 8 + session_ttl + 1 ≤ later
        → user_by_session plain "s1" later signed_in ≡ ok (none, delete_session "s1" signed_in))
login_example =
    login-user_by_session plain "ann" "secret" "s1" 8 (ann_with "secret") signed_up signed_in
      signed_up-IsSound refl ann_logs_in

change_password-ends_example :
    (v : Account) × (find_id account_key 1 signed_in.users ≡ some v)
    × (plain.verify v.password_hash "secret" ≡ true)
    × (find_id account_key 1 (ann_with "better" ∷ []) ≡ some (rehash "better" v))
    × ((raw : String) (now : Time) (u : Account) (db'' : Accounts)
        → user_by_session plain raw now
            (record signed_in { users = ann_with "better" ∷ []; sessions = [] })
          ≡ ok (some u, db'')
        → (u.id == 1) ≡ false)
change_password-ends_example =
    change_password-ends plain 1 "secret" "better" "better" signed_in
      (record signed_in { users = ann_with "better" ∷ []; sessions = [] }) ann_changes

reset_password-once_example :
    (at : AuthToken) × (first (open_token "t1" reset_password 10) forgotten.tokens ≡ some at)
    × (find_id account_key at.user_id recovered.users
        ≡ map_option (rehash "better") (find_id account_key at.user_id forgotten.users))
    × ((other : String) (t : Time) (u : Account) (db'' : Accounts)
        → user_by_session plain other t recovered ≡ ok (some u, db'')
        → (u.id == at.user_id) ≡ false)
    × ((again again_hash : String) (t t' : Time)
        → valid_password plain again ≡ true
        → reset_password_by_token plain "t1" again again_hash t t' recovered ≡ err token_invalid)
reset_password-once_example =
    reset_password-once plain "t1" "better" "better" 10 10 forgotten recovered
      (Reach-IsSound plain (members ∷ []) history) ann_resets
