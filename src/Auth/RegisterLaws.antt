-- ===== src/Auth/RegisterLaws.antt =====
-- Lemmas on RegisterWithMeta of internal/service/auth/auth.go: the invariant of the tables, from the
-- new row to the end of the transaction.
use mathlib.Core.Path.{subst}
use imgli.Common.{
  ℕ, ◌≡◌, refl, none, some, String, arith, any, first, Bool-cases, Option-cases, inl, inr,
}
use imgli.Common.Outcome.{ok, ok-injective, Outcome-cases}
use imgli.Table.{find_id}
use imgli.Table.Laws.{find_id-insert}
use imgli.Model.{Time}
use imgli.Auth.{Account, Accounts, account_key, Platform, clean_email}
use imgli.Auth.Register.{
  RegistrationMode, by_invite, Signup, redeem, with_account, enrol, new_account, default_group,
  create_account, register, mode_error,
}
use imgli.Auth.Invariant.{has_email, has_username, IsSound}
use imgli.Auth.UserLaws.{with_account-IsSound, claim_admin-IsSound}
use imgli.Auth.InviteLaws.{redeem-IsSound, redeem-keeps}

-- The new row is found by its id.
with_account-found :
    (u : Account) (db : Accounts)
    → u.id ≡ db.next_user
    → IsSound db
    → find_id account_key u.id (with_account u db).users ≡ some u
with_account-found u db e s =
    ground (arith, find_id-insert account_key u.id u db.users, s.of_users.keyed.fresh u.id)

enrol-IsSound :
    (mode : RegistrationMode) (code : String) (u : Account) (now : Time) (db : Accounts)
    {db' : Accounts}
    → find_id account_key u.id (with_account u db).users ≡ some u
    → u.signup_invite_code_id ≡ none
    → IsSound (with_account u db)
    → enrol mode code u now db ≡ ok db'
    → IsSound db'
unfolding enrol
enrol-IsSound mode code u now db found alone s h = elim (Bool-cases (by_invite mode)) [
  | inr e ↦
      subst IsSound (ok-injective (rw e at h))
        (claim_admin-IsSound u.id (with_account u db) found s)
  | inl e ↦ elim (Outcome-cases (redeem code u.id now (with_account u db))) [
    | inr (x, failed) ↦ absurd (ground arith)
    | inl (redeemed, done) ↦
        let (row, there) = redeem-keeps code u now (with_account u db) found s done in
        subst IsSound (ok-injective (rw (e, done) at h)) (
          claim_admin-IsSound u.id redeemed there
            (redeem-IsSound code u now (with_account u db) found alone s done))
  ]
]

create_account-IsSound :
    (mode : RegistrationMode) (code username email password_hash : String) (now : Time)
    (db : Accounts) {r : ℕ × Accounts}
    → IsSound db
    → create_account mode code username email password_hash now db ≡ ok r
    → IsSound r.1
unfolding create_account
create_account-IsSound mode code username email password_hash now db {r = r} s h =
    elim (Bool-cases (any (has_email email) db.users)) [
      | inl e ↦ absurd (ground arith)
      | inr e ↦ elim (Bool-cases (any (has_username username) db.users)) [
        | inl n ↦ absurd (ground arith)
        | inr n ↦ elim (Option-cases (first default_group db.groups)) [
          | inl g ↦ absurd (ground arith)
          | inr (group, g) ↦
              let u = new_account db username email password_hash group in
              elim (Outcome-cases (enrol mode code u now db)) [
                | inr (x, failed) ↦ absurd (ground arith)
                | inl (done, ended) ↦
                    let sound = with_account-IsSound u db refl refl refl e n s in
                    subst (λ q. IsSound q.1) (ok-injective (rw (e, n, g, ended) at h))
                      (enrol-IsSound mode code u now db (with_account-found u db refl s) refl sound
                        ended)
              ]
        ]
      ]
    ]

pub register-IsSound :
    (p : Platform) (mode : RegistrationMode) (x : Signup) (now : Time) (db : Accounts)
    {r : ℕ × Accounts}
    → IsSound db
    → register p mode x now db ≡ ok r
    → IsSound r.1
unfolding register
register-IsSound p mode x now db {r = r} s h =
    let code = p.to_upper (p.trim_space x.invite_code) in
    let username = p.trim_space x.username in
    let email = clean_email p x.email in
    let went : create_account mode code username email x.password_hash now db ≡ ok r =
      ground (arith, Option-cases (mode_error mode code)) in
    create_account-IsSound mode code username email x.password_hash now db s went
