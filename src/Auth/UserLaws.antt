-- ===== src/Auth/UserLaws.antt =====
-- Lemmas on the table users: a new account, the columns that an update leaves, and a new address.
use mathlib.Core.Path.{subst}
use imgli.Common.{
  ℕ, ◌+◌, ◌≤◌, ◌≡◌, refl, sym, Bool, true, false, not, ◌&&◌, Option, none, some, List, [], ◌∷◌,
  String, str_eq, eq_iff, arith, ◌==◌, any, count_of, if◌then◌else◌, Bool-cases, inl, inr, is_some,
  eq_opt, Option-cases,
}
use imgli.Table.{find_id, update_id, rows_with}
use imgli.Table.Laws.{find_id-found, IsKeyed-insert, IsKeyed-update}
use imgli.Table.Counts.{count-insert, count-none, count-replace, count-update_id, found-counts}
use imgli.Model.{Time}
use imgli.Auth.{Account, Accounts, account_key}
use imgli.Auth.Register.{make_admin, claim_admin, with_account}
use imgli.Auth.Tokens.{taken_by_other, readdress}
use imgli.Auth.Invariant.{has_email, has_username, admin, signed_up_with, IsSound}

-- A change of a row that no index and no count reads.
pub record Keeps (f : Account → Account) : Type 0 where
  pub same_id : (u : Account) → (f u).id ≡ u.id
  pub same_email : (u : Account) → (f u).email ≡ u.email
  pub same_username : (u : Account) → (f u).username ≡ u.username
  pub same_admin : (u : Account) → (f u).is_admin ≡ u.is_admin
  pub same_signup : (u : Account) → (f u).signup_invite_code_id ≡ u.signup_invite_code_id

abbrev pub with_users : List Account → Accounts → Accounts
with_users users db = record db { users = users }

pub update-IsSound :
    (uid : ℕ) (f : Account → Account) (db : Accounts)
    → Keeps f
    → IsSound db
    → IsSound (with_users (update_id account_key uid f db.users) db)
update-IsSound uid f db k s = record {
  of_users = record {
    keyed = IsKeyed-update account_key db.next_user uid f db.users k.same_id s.of_users.keyed;
    emails = λ e.
        rw
          (count-update_id account_key (has_email e) uid f db.users
            (λ u. ground (arith, k.same_email u)))
          (s.of_users.emails e);
    usernames = λ n.
        rw
          (count-update_id account_key (has_username n) uid f db.users
            (λ u. ground (arith, k.same_username u)))
          (s.of_users.usernames n);
    one_admin =
        rw (count-update_id account_key admin uid f db.users k.same_admin) s.of_users.one_admin;
  };
  of_invites = record {
    keyed = s.of_invites.keyed;
    codes = s.of_invites.codes;
    admitted = λ i.
        rw
          (count-update_id account_key (signed_up_with i) uid f db.users
            (λ u. ground (arith, k.same_signup u)))
          (s.of_invites.admitted i);
  };
  of_tokens = s.of_tokens;
}

-- With an address that no other user has, the addresses stay apart.
readdress-others :
    (uid : ℕ) (email : String) (now : Time) (users : List Account)
    → any (taken_by_other email uid) users ≡ false
    → count_of (has_email email) (update_id account_key uid (readdress email now) users)
      ≡ rows_with account_key uid users
unfolding any count_of update_id rows_with imgli.Common.update_where
readdress-others uid email now [] h = refl
readdress-others uid email now (u ∷ users) h =
    ground (arith, readdress-others uid email now users, eq_iff email email)

readdress-le :
    (uid : ℕ) (email e : String) (now : Time) (users : List Account)
    → str_eq email e ≡ false
    → count_of (has_email e) (update_id account_key uid (readdress email now) users)
      ≤ count_of (has_email e) users
unfolding count_of update_id imgli.Common.update_where
readdress-le uid email e now [] h = ground arith
readdress-le uid email e now (u ∷ users) h = ground (arith, readdress-le uid email e now users h)

pub readdress-IsSound :
    (uid : ℕ) (email : String) (now : Time) (db : Accounts)
    → any (taken_by_other email uid) db.users ≡ false
    → IsSound db
    → IsSound (with_users (update_id account_key uid (readdress email now) db.users) db)
readdress-IsSound uid email now db free s = record {
  of_users = record {
    keyed =
        IsKeyed-update account_key db.next_user uid (readdress email now) db.users (λ u. refl)
          s.of_users.keyed;
    emails = λ e. elim (Bool-cases (str_eq email e)) [
      | inl same ↦
          subst
            (λ z.
              count_of (has_email z) (update_id account_key uid (readdress email now) db.users) ≤ 1)
            ((eq_iff email e).0 same)
            (rw (readdress-others uid email now db.users free) (s.of_users.keyed.unique uid))
      | inr other ↦ ground (arith, readdress-le uid email e now db.users other, s.of_users.emails e)
    ];
    usernames = λ n.
        rw
          (count-update_id account_key (has_username n) uid (readdress email now) db.users
            (λ u. refl))
          (s.of_users.usernames n);
    one_admin =
        rw (count-update_id account_key admin uid (readdress email now) db.users (λ u. refl))
          s.of_users.one_admin;
  };
  of_invites = record {
    keyed = s.of_invites.keyed;
    codes = s.of_invites.codes;
    admitted = λ i.
        rw
          (count-update_id account_key (signed_up_with i) uid (readdress email now) db.users
            (λ u. refl))
          (s.of_invites.admitted i);
  };
  of_tokens = s.of_tokens;
}

-- A new account whose address and name are free, and which is no administrator.
pub with_account-IsSound :
    (u : Account) (db : Accounts)
    → u.id ≡ db.next_user
    → u.is_admin ≡ false
    → u.signup_invite_code_id ≡ none
    → any (has_email u.email) db.users ≡ false
    → any (has_username u.username) db.users ≡ false
    → IsSound db
    → IsSound (with_account u db)
with_account-IsSound u db at_next plain alone email_free name_free s = record {
  of_users = record {
    keyed = IsKeyed-insert account_key db.next_user u db.users at_next s.of_users.keyed;
    emails = λ e. elim (Bool-cases (str_eq u.email e)) [
      | inl same ↦
          let none_yet : any (has_email e) db.users ≡ false =
            subst (λ z. any (has_email z) db.users ≡ false) ((eq_iff u.email e).0 same)
              email_free in
          ground (
            arith,
            count-insert (has_email e) account_key u db.users,
            count-none (has_email e) db.users none_yet,
          )
      | inr other ↦
          ground (arith, count-insert (has_email e) account_key u db.users, s.of_users.emails e)
    ];
    usernames = λ n. elim (Bool-cases (str_eq u.username n)) [
      | inl same ↦
          let none_yet : any (has_username n) db.users ≡ false =
            subst (λ z. any (has_username z) db.users ≡ false) ((eq_iff u.username n).0 same)
              name_free in
          ground (
            arith,
            count-insert (has_username n) account_key u db.users,
            count-none (has_username n) db.users none_yet,
          )
      | inr other ↦
          ground
            (arith, count-insert (has_username n) account_key u db.users, s.of_users.usernames n)
    ];
    one_admin = ground (arith, count-insert admin account_key u db.users, s.of_users.one_admin);
  };
  of_invites = record {
    keyed = s.of_invites.keyed;
    codes = s.of_invites.codes;
    admitted = λ i.
        ground
          (arith, count-insert (signed_up_with i) account_key u db.users, s.of_invites.admitted i);
  };
  of_tokens = s.of_tokens;
}

claim_admin-shut :
    (uid : ℕ) (db : Accounts) {other : ℕ}
    → db.first_admin_claimed ≡ some other
    → claim_admin uid db ≡ db
unfolding claim_admin
claim_admin-shut uid db e = ground arith

claim_admin-open :
    (uid : ℕ) (db : Accounts)
    → db.first_admin_claimed ≡ none
    → claim_admin uid db ≡ record db {
      first_admin_claimed = some uid;
      users = update_id account_key uid make_admin db.users;
    }
unfolding claim_admin
claim_admin-open uid db e = ground arith

made_admin :
    (uid : ℕ) (users : List Account) {u : Account}
    → find_id account_key uid users ≡ some u
    → rows_with account_key uid users ≤ 1
    → count_of admin users ≡ 0
    → count_of admin (update_id account_key uid make_admin users) ≡ 1
made_admin uid users {u = u} found one none_yet = elim (Bool-cases u.is_admin) [
  | inl e ↦ absurd (
      ground (
        arith,
        found-counts account_key admin users {x = u},
        find_id-found account_key uid users found,
      ))
  | inr e ↦ ground (arith, count-replace account_key admin uid make_admin users found one)
]

-- The first administrator, where nobody has claimed it.
pub claim_admin-IsSound :
    (uid : ℕ) (db : Accounts) {u : Account}
    → find_id account_key uid db.users ≡ some u
    → IsSound db
    → IsSound (claim_admin uid db)
unfolding claim_admin
claim_admin-IsSound uid db {u = u} found s = elim (Option-cases db.first_admin_claimed) [
  | inr (other, e) ↦ subst IsSound (sym (claim_admin-shut uid db e)) s
  | inl e ↦ subst IsSound (sym (claim_admin-open uid db e)) (record {
    of_users = record {
      keyed =
          IsKeyed-update account_key db.next_user uid make_admin db.users (λ u. refl)
            s.of_users.keyed;
      emails = λ a.
          rw (count-update_id account_key (has_email a) uid make_admin db.users (λ u. refl))
            (s.of_users.emails a);
      usernames = λ n.
          rw (count-update_id account_key (has_username n) uid make_admin db.users (λ u. refl))
            (s.of_users.usernames n);
      one_admin =
          made_admin uid db.users found (s.of_users.keyed.unique uid)
            (ground (arith, s.of_users.one_admin));
    };
    of_invites = record {
      keyed = s.of_invites.keyed;
      codes = s.of_invites.codes;
      admitted = λ i.
          rw (count-update_id account_key (signed_up_with i) uid make_admin db.users (λ u. refl))
            (s.of_invites.admitted i);
    };
    of_tokens = s.of_tokens;
  })
]
