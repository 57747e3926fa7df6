-- ===== src/Auth/ApiTokens.antt =====
-- API tokens: internal/service/apitoken/apitoken.go. A new token's plain text is the argument
-- `plaintext`, the prefix and what token.Random draws.
use imgli.Common.{
  ℕ, ◌+◌, Bool, true, not, ◌&&◌, ◌||◌, Option, none, some, List, String, str_eq, ltb, leb, any,
  keep, first, ◌==◌, if◌then◌else◌,
}
use imgli.Common.Outcome.{Outcome, ok, err}
use imgli.Table.{find_id, update_id, insert}
use imgli.Model.{Time, minute}
use imgli.Auth.{Account, is_banned, account_key}

pub record ApiToken : Type 0 where
  pub id : ℕ
  pub user_id : ℕ
  pub name : String
  pub token_hash : String
  pub scope : String
  pub last_used_at : Option Time

abbrev pub api_token_key : ApiToken → ℕ
api_token_key t = t.id

pub data ApiTokenError : Type 0 where
  invalid_name invalid_scope not_found user_missing duplicated_key : ApiTokenError

-- What it calls of strings, utf8 and sha256.
pub record Texts : Type 0 where
  pub trim_space : String → String
  pub rune_count : String → ℕ
  pub has_prefix : String → String → Bool
  pub hash : String → String

abbrev pub prefix : String
prefix = "bl_"

abbrev pub is_scope : String → Bool
is_scope scope = str_eq scope "upload" || str_eq scope "full"

abbrev pub valid_name : Texts → String → Bool
valid_name x name = leb 1 (x.rune_count name) && leb (x.rune_count name) 64

abbrev pub has_secret : String → ApiToken → Bool
has_secret h t = str_eq t.token_hash h

unfoldable pub create :
    Texts → ℕ → String → String → String → ℕ → List ApiToken → Outcome ApiTokenError (List ApiToken)
create x uid name scope plaintext next tokens =
    if not (valid_name x (x.trim_space name))
    then err invalid_name
    else if not (is_scope scope)
    then err invalid_scope
    else if any (has_secret (x.hash plaintext)) tokens
    then err duplicated_key
    else ok (
        insert api_token_key
          (record {
            id = next;
            user_id = uid;
            name = x.trim_space name;
            token_hash = x.hash plaintext;
            scope = scope;
            last_used_at = none;
          })
          tokens)

abbrev pub revokes : ℕ → ℕ → ApiToken → Bool
revokes uid id t = t.id == id && t.user_id == uid

unfoldable pub revoke : ℕ → ℕ → List ApiToken → Outcome ApiTokenError (List ApiToken)
revoke uid id tokens =
    if any (revokes uid id) tokens
    then ok (keep (λ t. not (revokes uid id t)) tokens)
    else err not_found

abbrev pub touch : Time → ApiToken → ApiToken
touch now t = record t { last_used_at = some now }

-- last_used_at is written once a minute at most.
abbrev pub is_stale : Time → ApiToken → Bool
is_stale now t = elim t.last_used_at [ none ↦ true | some at ↦ ltb (at + minute) now ]

unfoldable pub user_by_token :
    Texts
    → String
    → Time
    → List Account
    → List ApiToken
    → Outcome ApiTokenError (Option (Account × String) × List ApiToken)
user_by_token x plaintext now users tokens =
    if not (x.has_prefix plaintext prefix)
    then ok (none, tokens)
    else elim (first (has_secret (x.hash plaintext)) tokens) [
      | none ↦ ok (none, tokens)
      | some t ↦ elim (find_id account_key t.user_id users) [
        | none ↦ err user_missing
        | some u ↦
            if is_banned u.status
            then ok (none, tokens)
            else ok (
              some (u, t.scope),
              if is_stale now t then update_id api_token_key t.id (touch now) tokens else tokens,
            )
      ]
    ]
