-- ===== src/Auth/Invites.antt =====
-- Invitation codes: CreateInvites and RevokeInvite of internal/service/adminsvc/invites.go. The
-- codes that newInviteCode draws are arguments.
use imgli.Common.{
  ℕ, ◌+◌, Bool, not, ◌&&◌, ◌||◌, Option, none, some, List, [], ◌∷◌, String, str_eq, is_some, any,
  keep, ltb, ◌==◌, if◌then◌else◌, length,
}
use imgli.Common.Outcome.{Outcome, ok, err}
use imgli.Table.{find_id, insert}
use imgli.Model.{Time}
use imgli.Auth.{
  InviteCode, Accounts, invite_key, AuthError, duplicated_key, invite_not_found, invite_used,
  invite_count_invalid,
}

-- One INSERT; the unique index on the code refuses one that is there.
unfoldable pub add_invite : ℕ → Option Time → String → Accounts → Outcome AuthError Accounts
add_invite created_by expires code db =
    if any (λ (i : InviteCode). str_eq i.code code) db.invites
    then err duplicated_key
    else ok (record db {
      invites =
          insert invite_key
            (record {
              id = db.next_invite;
              code = code;
              created_by = created_by;
              used_by = none;
              used_at = none;
              expires_at = expires;
            })
            db.invites;
      next_invite = db.next_invite + 1;
    })

-- The inner loop: a new draw for as long as the code is taken, five at most.
unfoldable pub try_codes :
    ℕ → Option Time → List String → Accounts → Outcome AuthError (String × Accounts)
try_codes created_by expires [] db = err duplicated_key
try_codes created_by expires (code ∷ draws) db =
    let again = try_codes created_by expires draws db in
    elim (add_invite created_by expires code db) [ ok db' ↦ ok (code, db') | err e ↦ again ]

-- The outer loop, with the draws of each round. It returns early on an error; the codes that were
-- written before stay.
unfoldable pub create_codes :
    ℕ → Option Time → List (List String) → Accounts → Outcome AuthError (List String) × Accounts
create_codes created_by expires [] db = (ok [], db)
create_codes created_by expires (draws ∷ rounds) db = elim (try_codes created_by expires draws db) [
  | err e ↦ (err e, db)
  | ok made ↦
      let rest = create_codes created_by expires rounds made.1 in
      (elim rest.0 [ err e ↦ err e | ok codes ↦ ok (made.0 ∷ codes) ], rest.1)
]

unfoldable pub create_invites :
    ℕ → Option Time → List (List String) → Accounts → Outcome AuthError (List String) × Accounts
create_invites created_by expires rounds db =
    if ltb (length rounds) 1 || ltb 100 (length rounds)
    then (err invite_count_invalid, db)
    else create_codes created_by expires rounds db

-- DELETE … WHERE id = ? AND used_by IS NULL
abbrev pub revocable : ℕ → InviteCode → Bool
revocable id i = i.id == id && not (is_some i.used_by)

unfoldable pub revoke_invite : ℕ → Accounts → Outcome AuthError (String × Accounts)
revoke_invite id db = elim (find_id invite_key id db.invites) [
  | none ↦ err invite_not_found
  | some ic ↦
      if is_some ic.used_by
      then err invite_used
      else if any (revocable id) db.invites
      then ok (ic.code, record db { invites = keep (λ i. not (revocable id i)) db.invites })
      else err invite_used
]
