-- ===== src/Auth/SessionLaws.antt =====
-- Sessions of internal/service/auth/auth.go: a login and the session that it opens, and what a change
-- of password leaves of the sessions before it.
use imgli.Common.{
  refl, ℕ, ◌+◌, ◌≤◌, ◌≡◌, true, false, not, none, some, List, [], ◌∷◌, String, str_eq, eq_iff,
  arith, any, keep, first, Option-cases, inl, inr, ◌==◌,
}
use imgli.Common.Outcome.{ok}
use imgli.Table.{find_id, insert}
use imgli.Table.Laws.{find_id-found, find_id-update}
use imgli.Table.Conditional.{first-found}
use imgli.Model.{Time}
use imgli.Auth.{Account, Session, Accounts, is_banned, account_key, Platform, session_ttl}
use imgli.Auth.Sessions.{
  rehash, login, create_session, user_by_session, has_session_id, delete_session, of_user,
  end_sessions, change_password, set_password, goes_by,
}
use imgli.Auth.Invariant.{IsSound}

first-insert :
    (id : String) (s : Session) (xs : List Session)
    → any (has_session_id id) xs ≡ false
    → has_session_id id s ≡ true
    → first (has_session_id id) (insert (λ _. 0) s xs) ≡ some s
unfolding first any insert
first-insert id s [] h e = ground arith
first-insert id s (x ∷ xs) h e = ground (arith, first-insert id s xs)

-- A login succeeds only for a user who is there, is not banned, whose address or name is the one
-- given and whose password matches; the token that it returns then stands for that user until the
-- session's thirty days are over, and for nobody after them.
pub login-user_by_session :
    (p : Platform) (account password raw : String) (now : Time) (u : Account) (db db' : Accounts)
    → IsSound db
    → str_eq raw "" ≡ false
    → login p account password raw now db ≡ ok (u, db')
    → (goes_by p account u ≡ true)
      × (is_banned u.status ≡ false)
      × (p.verify u.password_hash password ≡ true)
      × ((later : Time)
          → later ≤ now + session_ttl
          → user_by_session p raw later db' ≡ ok (some u, db'))
      × ((later : Time)
          → now + session_ttl + 1 ≤ later
          → user_by_session p raw later db' ≡ ok (none, delete_session (p.hash raw) db'))
unfolding login create_session user_by_session
login-user_by_session p account password raw now u db db' s filled h =
    elim (Option-cases (first (goes_by p account) db.users)) [
      | inl e ↦ absurd (ground arith)
      | inr (v, e) ↦
          let same : v ≡ u = ground arith in
          let (holds, found) =
            first-found account_key (goes_by p account) db.users e s.of_users.keyed.unique in
          let made : Session = record {
            id = p.hash raw;
            user_id = u.id;
            expires_at = now + session_ttl;
          } in
          let free : any (has_session_id (p.hash raw)) db.sessions ≡ false = ground arith in
          let after : db' ≡ record db { sessions = insert (λ _. 0) made db.sessions } =
            ground arith in
          let open_one : first (has_session_id (p.hash raw)) db'.sessions ≡ some made = rw after (
            first-insert (p.hash raw) made db.sessions free
              (ground (arith, eq_iff (p.hash raw) (p.hash raw)))) in
          let user_there : find_id account_key u.id db'.users ≡ some u = rw after (ground arith) in
          (
            ground arith,
            ground arith,
            ground arith,
            λ later le. ground arith,
            λ later le. ground arith,
          )
    ]

none-kept :
    (uid : ℕ) (xs : List Session) (id : String) {s : Session}
    → first (has_session_id id) (keep (λ x. not (of_user uid x)) xs) ≡ some s
    → of_user uid s ≡ false
unfolding first keep
none-kept uid [] id h = absurd (ground arith)
none-kept uid (x ∷ xs) id {s = s} h = ground (arith, none-kept uid xs id {s = s})

-- Once a user's sessions are ended, no token stands for them.
pub end_sessions-shut :
    (p : Platform) (uid : ℕ) (raw : String) (now : Time) (db db' : Accounts) (u : Account)
    → user_by_session p raw now (end_sessions uid db) ≡ ok (some u, db')
    → (u.id == uid) ≡ false
unfolding user_by_session end_sessions
end_sessions-shut p uid raw now db db' u h =
    elim (Option-cases (first (has_session_id (p.hash raw)) (end_sessions uid db).sessions)) [
      | inl e ↦ absurd (ground arith)
      | inr (s, e) ↦
          let other = none-kept uid db.sessions (p.hash raw) {s = s} e in
          let row : find_id account_key s.user_id db.users ≡ some u = ground arith in
          ground (arith, find_id-found account_key s.user_id db.users row)
    ]

-- A change of password takes the old one and replaces its hash, and it ends every session of the
-- user, on whatever device it was opened: no token stands for them any more.
pub change_password-ends :
    (p : Platform) (uid : ℕ) (old_pw new_pw password_hash : String) (db db' : Accounts)
    → change_password p uid old_pw new_pw password_hash db ≡ ok db'
    → (v : Account) × (find_id account_key uid db.users ≡ some v)
      × (p.verify v.password_hash old_pw ≡ true)
      × (find_id account_key uid db'.users ≡ some (rehash password_hash v))
      × ((raw : String) (now : Time) (u : Account) (db'' : Accounts)
          → user_by_session p raw now db' ≡ ok (some u, db'')
          → (u.id == uid) ≡ false)
unfolding change_password set_password end_sessions
change_password-ends p uid old_pw new_pw password_hash db db' h =
    elim (Option-cases (find_id account_key uid db.users)) [
      | inl e ↦ absurd (ground arith)
      | inr (v, e) ↦
          let done : db' ≡ end_sessions v.id (set_password v.id password_hash db) = ground arith in
          let same = find_id-found account_key uid db.users e in
          (
            v,
            e,
            ground arith,
            rw done (
                ground (
                  arith,
                  find_id-update account_key v.id uid (rehash password_hash) db.users (λ u. refl),
                )),
            λ raw now u db'' k. ground (
              arith,
              end_sessions-shut p v.id raw now (set_password v.id password_hash db) db'' u
                  (rw done at k),
            ),
          )
    ]
