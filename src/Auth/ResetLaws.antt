-- ===== src/Auth/ResetLaws.antt =====
-- The reset of a password by a mailed token: ResetPasswordByToken of internal/service/auth/auth.go.
use mathlib.Core.Path.{subst}
use imgli.Auth.TokenLaws.{use_token-TokensSound}
use imgli.Auth.SessionLaws.{end_sessions-shut}
use imgli.Common.{
  ap, if◌then◌else◌, update_where, is_some, ℕ, ◌≤◌, ◌≡◌, refl, ◌∙◌, true, false, none, some, List,
  String, arith, any, first, Option-cases, inl, inr, ◌==◌, count_of,
}
use imgli.Common.Outcome.{ok, err}
use imgli.Table.{find_id, rows_with}
use imgli.Table.Laws.{map_option, find_id-update}
use imgli.Table.Conditional.{first-found}
use imgli.Table.Counts.{only_one, any-first, find_id-updated}
use imgli.Model.{Time}
use imgli.Auth.{
  Account, AuthToken, Accounts, account_key, token_key, token_invalid, Platform, reset_password,
}
use imgli.Auth.Password.{valid_password}
use imgli.Auth.Sessions.{user_by_session, end_sessions, set_password, rehash}
use imgli.Auth.Tokens.{
  reset_password_by_token, reset_account, open_token, open_of, use_token, has_token_hash,
  pending_token,
}
use imgli.Auth.Invariant.{IsSound}

-- The token that was read is the one that the conditional UPDATE spends: its user has no other one
-- pending.
spent_token :
    (at : AuthToken) (now later : Time) (h : String) (db : Accounts)
    → IsSound db
    → first (open_token h reset_password now) db.tokens ≡ some at
    → any (open_of at.user_id later) db.tokens ≡ true
    → find_id token_key at.id (update_where (open_of at.user_id later) (use_token now) db.tokens)
      ≡ some (use_token now at)
spent_token at now later h db s read some_open =
    let (t, e) = any-first (open_of at.user_id later) (use_token now) db.tokens some_open in
    let (open_t, found_t) =
      first-found token_key (open_of at.user_id later) db.tokens e s.of_tokens.keyed.unique in
    let (open_at, found_at) =
      first-found token_key (open_token h reset_password now) db.tokens read
        s.of_tokens.keyed.unique in
    let same : t ≡ at =
      only_one token_key (pending_token at.user_id reset_password) db.tokens found_t found_at
        (ground arith) (ground arith) (s.of_tokens.pending at.user_id reset_password) in
    let chosen : open_of at.user_id later at ≡ true =
      subst (λ z. open_of at.user_id later z ≡ true) same open_t in
    let kept =
      find_id-updated (open_of at.user_id later) (use_token now) token_key at.id db.tokens {y = at}
        (λ x. refl) found_at in
    let used : (if open_of at.user_id later at then use_token now at else at) ≡ use_token now at =
      rw chosen refl in
    kept ∙ ap some used

-- A row that is used answers for its hash: no open token has it.
used_hash :
    (h : String) (at : AuthToken) (now : Time) (tokens : List AuthToken)
    → count_of (has_token_hash h) tokens ≤ 1
    → ((i : ℕ) → rows_with token_key i tokens ≤ 1)
    → find_id token_key at.id tokens ≡ some at
    → is_some at.used_at ≡ true
    → has_token_hash h at ≡ true
    → first (open_token h reset_password now) tokens ≡ none
used_hash h at now tokens one unique found used hashed =
    elim (Option-cases (first (open_token h reset_password now) tokens)) [
      | inl e ↦ e
      | inr (t, e) ↦
          let (is_open, found_t) =
            first-found token_key (open_token h reset_password now) tokens e unique in
          let same : t ≡ at =
            only_one token_key (has_token_hash h) tokens found_t found (ground arith) hashed one in
          absurd (ground arith)
    ]

updated :
    (uid : ℕ) (password_hash : String) (db : Accounts)
    → find_id account_key uid (end_sessions uid (set_password uid password_hash db)).users
      ≡ map_option (rehash password_hash) (find_id account_key uid db.users)
unfolding end_sessions set_password
updated uid password_hash db =
    ground (arith, find_id-update account_key uid uid (rehash password_hash) db.users (λ u. refl))

-- A reset that succeeds gives the token's user the new password, ends all the user's sessions, and
-- spends the token, so that it cannot be used a second time, however soon. The tables are those of a
-- history of the site, and a second attempt is with an acceptable password.
pub reset_password-once :
    (p : Platform) (raw new_password password_hash : String) (now later : Time) (db db' : Accounts)
    → IsSound db
    → reset_password_by_token p raw new_password password_hash now later db ≡ ok db'
    → (at : AuthToken) × (first
          (open_token (p.hash (p.trim_space raw)) reset_password now)
          db.tokens
        ≡ some at)
      × (find_id account_key at.user_id db'.users
          ≡ map_option (rehash password_hash) (find_id account_key at.user_id db.users))
      × ((other : String) (t : Time) (u : Account) (db'' : Accounts)
          → user_by_session p other t db' ≡ ok (some u, db'')
          → (u.id == at.user_id) ≡ false)
      × ((again again_hash : String) (t t' : Time)
          → valid_password p again ≡ true
          → reset_password_by_token p raw again again_hash t t' db' ≡ err token_invalid)
unfolding reset_password_by_token reset_account set_password end_sessions
reset_password-once p raw new_password password_hash now later db db' s h =
    let hashed = p.hash (p.trim_space raw) in
    elim (Option-cases (first (open_token hashed reset_password now) db.tokens)) [
      | inl e ↦ absurd (ground arith)
      | inr (at, e) ↦
          let spent = update_where (open_of at.user_id later) (use_token now) db.tokens in
          let some_open : any (open_of at.user_id later) db.tokens ≡ true = ground arith in
          let done : db'
              ≡ end_sessions at.user_id
                  (record (set_password at.user_id password_hash db) { tokens = spent }) =
            ground arith in
          let there = spent_token at now later hashed db s e some_open in
          let (open_at, found_at) =
            first-found token_key (open_token hashed reset_password now) db.tokens e
              s.of_tokens.keyed.unique in
          let sound =
            use_token-TokensSound (open_of at.user_id later) now db.tokens db.next_token
              s.of_tokens in
          let none_open : (t : Time) → first (open_token hashed reset_password t) spent ≡ none =
            λ t.
              used_hash hashed (use_token now at) t spent (sound.hashes hashed) sound.keyed.unique
                there refl (ground arith) in
          (
            at,
            e,
            rw done (updated at.user_id password_hash (record db { tokens = spent })),
            λ other t u db'' k.
                end_sessions-shut p at.user_id other t
                  (record (set_password at.user_id password_hash db) { tokens = spent }) db'' u
                  (rw done at k),
            λ again again_hash t t' v. rw done (ground (arith, none_open t)),
          )
    ]
