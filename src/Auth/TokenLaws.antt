-- ===== src/Auth/TokenLaws.antt =====
-- Lemmas on the table auth_tokens: what voiding, adding and spending tokens keep.
use mathlib.Core.Path.{subst}
use imgli.Common.{
  ℕ, ◌+◌, ◌≡◌, refl, Bool, true, false, List, String, str_eq, arith, update_where, any, none,
  count_of, Bool-cases, inl, inr, eq_iff,
}
use imgli.Common.Outcome.{ok, ok-injective}
use imgli.Table.{insert}
use imgli.Table.Laws.{IsKeyed-insert}
use imgli.Table.Conditional.{rows_with-update_where}
use imgli.Table.Counts.{
  count-insert, count-none, count-update_where, count-update_where-le, count-update_where-none,
}
use imgli.Model.{Time}
use imgli.Auth.{
  Platform, AuthToken, Purpose, same_purpose, token_key, verify_email, reset_password, change_email,
  Accounts,
}
use imgli.Auth.Tokens.{
  has_token_hash, pending_token, use_token, void_tokens, add_token, create_auth_token_payload,
}
use imgli.Auth.Invariant.{TokensSound, IsSound}

-- Marking any tokens as used.
pub use_token-TokensSound :
    (q : AuthToken → Bool) (now : Time) (tokens : List AuthToken) (next : ℕ)
    → TokensSound tokens next
    → TokensSound (update_where q (use_token now) tokens) next
use_token-TokensSound q now tokens next s = record {
  keyed = record {
    unique = λ i.
        rw (rows_with-update_where q (use_token now) token_key i tokens (λ t. refl))
          (s.keyed.unique i);
    fresh = λ i le.
        rw (rows_with-update_where q (use_token now) token_key i tokens (λ t. refl))
          (s.keyed.fresh i le);
  };
  hashes = λ h.
      rw (count-update_where (has_token_hash h) q (use_token now) tokens (λ t e. refl))
        (s.hashes h);
  pending = λ uid purpose. ground (
    arith,
    s.pending uid purpose,
    count-update_where-le (pending_token uid purpose) q (use_token now) tokens
        (λ t e f. ground arith),
  );
}

same_purpose-eq : (a b : Purpose) → same_purpose a b ≡ true → a ≡ b
same_purpose-eq verify_email verify_email h = refl
same_purpose-eq reset_password reset_password h = refl
same_purpose-eq change_email change_email h = refl
same_purpose-eq verify_email reset_password h = absurd (ground arith)
same_purpose-eq verify_email change_email h = absurd (ground arith)
same_purpose-eq reset_password verify_email h = absurd (ground arith)
same_purpose-eq reset_password change_email h = absurd (ground arith)
same_purpose-eq change_email verify_email h = absurd (ground arith)
same_purpose-eq change_email reset_password h = absurd (ground arith)

same_purpose_refl : (a : Purpose) → same_purpose a a ≡ true
same_purpose_refl verify_email = refl
same_purpose_refl reset_password = refl
same_purpose_refl change_email = refl

same_purpose_left :
    (a b c : Purpose) → same_purpose a c ≡ true → same_purpose b c ≡ true → same_purpose a b ≡ true
same_purpose_left a b c h k =
    rw (same_purpose-eq a c h, same_purpose-eq b c k, same_purpose_refl c) refl

-- None of a user's tokens of a purpose is pending after they are voided.
emptied :
    (uid : ℕ) (purpose : Purpose) (t : AuthToken) (now : Time) (tokens : List AuthToken)
    → pending_token uid purpose t ≡ true
    → count_of
        (pending_token uid purpose)
        (update_where (pending_token t.user_id t.purpose) (use_token now) tokens)
      ≡ 0
emptied uid purpose t now tokens h =
    count-update_where-none (pending_token uid purpose) (pending_token t.user_id t.purpose)
      (use_token now) tokens (λ x e. ground (arith, same_purpose_left x.purpose t.purpose purpose))
      (λ x e. ground arith)

-- Once its user's pending tokens of its purpose are voided, a token with a new hash may be added.
pub add_token-TokensSound :
    (t : AuthToken) (now : Time) (tokens : List AuthToken) (next : ℕ)
    → t.id ≡ next
    → any
        (has_token_hash t.token_hash)
        (update_where (pending_token t.user_id t.purpose) (use_token now) tokens)
      ≡ false
    → TokensSound tokens next
    → TokensSound
        (insert token_key t
          (update_where (pending_token t.user_id t.purpose) (use_token now) tokens))
        (next + 1)
add_token-TokensSound t now tokens next e fresh s =
    let voided = update_where (pending_token t.user_id t.purpose) (use_token now) tokens in
    let s' = use_token-TokensSound (pending_token t.user_id t.purpose) now tokens next s in
    record {
      keyed = IsKeyed-insert token_key next t voided e s'.keyed;
      hashes = λ h. elim (Bool-cases (str_eq t.token_hash h)) [
        | inl same ↦
            let eq : t.token_hash ≡ h = (eq_iff t.token_hash h).0 same in
            ground (
              arith,
              count-insert (has_token_hash h) token_key t voided,
              count-none (has_token_hash h) voided
                  (subst (λ z. any (has_token_hash z) voided ≡ false) eq fresh),
            )
        | inr other ↦
            ground (arith, count-insert (has_token_hash h) token_key t voided, s'.hashes h)
      ];
      pending = λ uid purpose. elim (Bool-cases (pending_token uid purpose t)) [
        | inl same ↦ ground (
          arith,
          count-insert (pending_token uid purpose) token_key t voided,
          emptied uid purpose t now tokens same,
        )
        | inr other ↦ ground (
          arith,
          count-insert (pending_token uid purpose) token_key t voided,
          s'.pending uid purpose,
        )
      ];
    }

-- createAuthTokenPayload keeps the tables.
pub create_auth_token-IsSound :
    (p : Platform) (uid : ℕ) (purpose : Purpose) (payload : String) (ttl : Time) (raw : String)
    (now : Time) (db : Accounts) {db' : Accounts}
    → IsSound db
    → create_auth_token_payload p uid purpose payload ttl raw now db ≡ ok db'
    → IsSound db'
unfolding create_auth_token_payload add_token
create_auth_token-IsSound p uid purpose payload ttl raw now db {db' = db'} s h =
    let t : AuthToken = record {
      id = db.next_token;
      user_id = uid;
      purpose = purpose;
      token_hash = p.hash raw;
      payload = payload;
      expires_at = now + ttl;
      used_at = none;
    } in
    elim (Bool-cases (any (has_token_hash (p.hash raw)) (void_tokens uid purpose now db).tokens)) [
      | inl e ↦ absurd (ground arith)
      | inr e ↦ subst IsSound (ok-injective (rw e at h)) (record {
        of_users = s.of_users;
        of_invites = s.of_invites;
        of_tokens = add_token-TokensSound t now db.tokens db.next_token refl e s.of_tokens;
      })
    ]
