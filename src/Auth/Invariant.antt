-- ===== src/Auth/Invariant.antt =====
-- What the tables of internal/model/model.go keep: their unique indexes, and the counts that tie
-- users to invites, administrators to the setting, and tokens to one pending token each.
use imgli.Common.{
  ℕ, ◌≤◌, ◌≡◌, Bool, ◌&&◌, Option, none, some, List, String, str_eq, is_some, eq_opt, ◌==◌,
  count_of,
}
use imgli.Table.{IsKeyed}
use imgli.Auth.{
  Account, InviteCode, AuthToken, Purpose, Accounts, account_key, invite_key, token_key,
}
use imgli.Auth.Tokens.{has_token_hash, pending_token}

abbrev pub has_email : String → Account → Bool
has_email e u = str_eq u.email e

abbrev pub has_username : String → Account → Bool
has_username n u = str_eq u.username n

abbrev pub has_code : String → InviteCode → Bool
has_code c i = str_eq i.code c

abbrev pub admin : Account → Bool
admin u = u.is_admin

-- The users who signed up with the invite, and the invite where it is used.
abbrev pub signed_up_with : ℕ → Account → Bool
signed_up_with i u = eq_opt u.signup_invite_code_id (some i)

abbrev pub used_invite : ℕ → InviteCode → Bool
used_invite i inv = inv.id == i && is_some inv.used_by

abbrev pub how_many : Option ℕ → ℕ
how_many none = 0
how_many (some _) = 1

pub record UsersSound (users : List Account) (next : ℕ) (claimed : Option ℕ) : Type 0 where
  pub keyed : IsKeyed account_key next users
  pub emails : (e : String) → count_of (has_email e) users ≤ 1
  pub usernames : (n : String) → count_of (has_username n) users ≤ 1
  pub one_admin : count_of admin users ≡ how_many claimed

pub record InvitesSound (users : List Account) (invites : List InviteCode) (next : ℕ) : Type 0 where
  pub keyed : IsKeyed invite_key next invites
  pub codes : (c : String) → count_of (has_code c) invites ≤ 1
  pub admitted : (i : ℕ) → count_of (signed_up_with i) users ≡ count_of (used_invite i) invites

pub record TokensSound (tokens : List AuthToken) (next : ℕ) : Type 0 where
  pub keyed : IsKeyed token_key next tokens
  pub hashes : (h : String) → count_of (has_token_hash h) tokens ≤ 1
  pub pending : (uid : ℕ) (purpose : Purpose) → count_of (pending_token uid purpose) tokens ≤ 1

pub record IsSound (db : Accounts) : Type 0 where
  pub of_users : UsersSound db.users db.next_user db.first_admin_claimed
  pub of_invites : InvitesSound db.users db.invites db.next_invite
  pub of_tokens : TokensSound db.tokens db.next_token
