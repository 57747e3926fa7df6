-- ===== src/Auth/InviteLaws.antt =====
-- Lemmas on the table invite_codes: a code is redeemed for one user, new codes, revoked codes, and
-- the whole of a registration.
use mathlib.Core.Path.{subst}
use imgli.Common.{
  ℕ, ◌+◌, ◌≤◌, ◌≡◌, refl, sym, ◌∙◌, true, false, none, some, List, [], ◌∷◌, String, arith, ◌==◌,
  any, first, update_where, count_of, if◌then◌else◌, Bool-cases, inl, inr,
}
use imgli.Common.Outcome.{ok, ok-injective}
use imgli.Table.{find_id, update_id}
use imgli.Table.Laws.{find_id-update, IsKeyed-update}
use imgli.Table.Conditional.{rows_with-update_where}
use imgli.Table.Counts.{count-replace, count-update_id, count-update_where}
use imgli.Model.{Time}
use imgli.Auth.{Account, InviteCode, Accounts, account_key, invite_key}
use imgli.Auth.Register.{usable, mark_used, attribute, attribute_invite, redeem}
use imgli.Auth.Invariant.{
  has_code, has_email, has_username, admin, signed_up_with, used_invite, IsSound,
}

-- Where no row has the code, none is usable.
no_code :
    (code : String) (uid : ℕ) (now : Time) (xs : List InviteCode)
    → count_of (has_code code) xs ≡ 0
    → (any (usable code now) xs ≡ false)
      × (update_where (usable code now) (mark_used uid now) xs ≡ xs)
unfolding count_of any update_where
no_code code uid now [] h = (refl, refl)
no_code code uid now (x ∷ xs) h =
    (ground (arith, no_code code uid now xs), ground (arith, no_code code uid now xs))

-- Redeeming a code makes used the one invite that the code names, and no other.
redeemed :
    (code : String) (uid : ℕ) (now : Time) (xs : List InviteCode)
    → count_of (has_code code) xs ≤ 1
    → any (usable code now) xs ≡ true
    → (x : InviteCode) × (first
          (has_code code)
          (update_where (usable code now) (mark_used uid now) xs)
        ≡ some x)
      × ((i : ℕ)
          → count_of (used_invite i) (update_where (usable code now) (mark_used uid now) xs)
            ≡ count_of (used_invite i) xs + (if x.id == i then 1 else 0))
unfolding count_of any update_where first
redeemed code uid now [] c h = absurd (ground arith)
redeemed code uid now (x ∷ xs) c h = elim (Bool-cases (has_code code x)) [
  | inl e ↦ (
    mark_used uid now x,
    ground (arith, no_code code uid now xs),
    λ i. ground (arith, no_code code uid now xs),
  )
  | inr e ↦
      let (y, found, counted) = redeemed code uid now xs (ground arith) (ground arith) in
      (y, ground arith, λ i. ground (arith, counted i))
]

abbrev with_invites : List InviteCode → Accounts → Accounts
with_invites invites db = record db { invites = invites }

abbrev after_redeem : String → ℕ → Time → ℕ → Accounts → Accounts
after_redeem code uid now invite_id db = record db {
  invites = update_where (usable code now) (mark_used uid now) db.invites;
  users = update_id account_key uid (attribute invite_id) db.users;
}

redeem-some :
    (code : String) (uid : ℕ) (now : Time) (db : Accounts) {x : InviteCode}
    → any (usable code now) db.invites ≡ true
    → first (has_code code) (update_where (usable code now) (mark_used uid now) db.invites) ≡ some x
    → redeem code uid now db ≡ ok (after_redeem code uid now x.id db)
unfolding redeem attribute_invite
redeem-some code uid now db {x = x} e there = ground arith

-- The code is used and the user attributed to it, so that both counts grow together.
pub redeem-IsSound :
    (code : String) (u : Account) (now : Time) (db : Accounts) {db' : Accounts}
    → find_id account_key u.id db.users ≡ some u
    → u.signup_invite_code_id ≡ none
    → IsSound db
    → redeem code u.id now db ≡ ok db'
    → IsSound db'
unfolding redeem attribute_invite
redeem-IsSound code u now db found alone s h =
    elim (Bool-cases (any (usable code now) db.invites)) [
      | inr e ↦ absurd (ground arith)
      | inl e ↦
          let (x, there, counted) = redeemed code u.id now db.invites (s.of_invites.codes code) e in
          subst IsSound (ok-injective (sym (redeem-some code u.id now db e there) ∙ h)) (record {
            of_users = record {
              keyed =
                  IsKeyed-update account_key db.next_user u.id (attribute x.id) db.users (λ u. refl)
                    s.of_users.keyed;
              emails = λ a.
                  rw
                    (count-update_id account_key (has_email a) u.id (attribute x.id) db.users
                      (λ u. refl))
                    (s.of_users.emails a);
              usernames = λ n.
                  rw
                    (count-update_id account_key (has_username n) u.id (attribute x.id) db.users
                      (λ u. refl))
                    (s.of_users.usernames n);
              one_admin =
                  rw (count-update_id account_key admin u.id (attribute x.id) db.users (λ u. refl))
                    s.of_users.one_admin;
            };
            of_invites = record {
              keyed = record {
                unique = λ i.
                    rw
                      (rows_with-update_where (usable code now) (mark_used u.id now) invite_key i
                        db.invites (λ t. refl))
                      (s.of_invites.keyed.unique i);
                fresh = λ i le.
                    rw
                      (rows_with-update_where (usable code now) (mark_used u.id now) invite_key i
                        db.invites (λ t. refl))
                      (s.of_invites.keyed.fresh i le);
              };
              codes = λ c.
                  rw
                    (count-update_where (has_code c) (usable code now) (mark_used u.id now)
                      db.invites (λ t e. refl))
                    (s.of_invites.codes c);
              admitted = λ i. ground (
                arith,
                counted i,
                s.of_invites.admitted i,
                count-replace account_key (signed_up_with i) u.id (attribute x.id) db.users found
                    (s.of_users.keyed.unique u.id),
              );
            };
            of_tokens = s.of_tokens;
          })
    ]

-- The user who redeems a code is still there.
pub redeem-keeps :
    (code : String) (u : Account) (now : Time) (db : Accounts) {db' : Accounts}
    → find_id account_key u.id db.users ≡ some u
    → IsSound db
    → redeem code u.id now db ≡ ok db'
    → (row : Account) × (find_id account_key u.id db'.users ≡ some row)
unfolding redeem
redeem-keeps code u now db {db' = db'} found s h =
    elim (Bool-cases (any (usable code now) db.invites)) [
      | inr e ↦ absurd (ground arith)
      | inl e ↦
          let (x, there, counted) = redeemed code u.id now db.invites (s.of_invites.codes code) e in
          (
            attribute x.id u,
            subst (λ z. find_id account_key u.id z.users ≡ some (attribute x.id u))
                (ok-injective (sym (redeem-some code u.id now db e there) ∙ h))
                (ground (arith, find_id-update account_key u.id u.id (attribute x.id) db.users)),
          )
    ]
