-- ===== src/Auth/InviteRows.antt =====
-- Lemmas on CreateInvites and RevokeInvite of internal/service/adminsvc/invites.go: what new and
-- deleted codes keep.
use mathlib.Core.Path.{subst}
use imgli.Common.{
  ℕ, ◌≡◌, refl, false, not, ◌||◌, Option, none, List, [], ◌∷◌, String, str_eq, eq_iff, arith, ◌==◌,
  any, keep, Bool-cases, Option-cases, inl, inr, length, ltb,
}
use imgli.Common.Outcome.{ok, ok-injective, Outcome-cases}
use imgli.Table.{find_id, rows_with}
use imgli.Table.Laws.{IsKeyed-insert}
use imgli.Table.Counts.{count-insert, count-none, count-keep, count-keep-same}
use imgli.Model.{Time}
use imgli.Auth.{InviteCode, Accounts, invite_key}
use imgli.Auth.Invites.{
  add_invite, try_codes, create_codes, create_invites, revocable, revoke_invite,
}
use imgli.Auth.Invariant.{has_code, used_invite, IsSound}

add_invite-IsSound :
    (created_by : ℕ) (expires : Option Time) (code : String) (db : Accounts) {db' : Accounts}
    → IsSound db
    → add_invite created_by expires code db ≡ ok db'
    → IsSound db'
unfolding add_invite
add_invite-IsSound created_by expires code db s h =
    let x : InviteCode = record {
      id = db.next_invite;
      code = code;
      created_by = created_by;
      used_by = none;
      used_at = none;
      expires_at = expires;
    } in
    elim (Bool-cases (any (has_code code) db.invites)) [
      | inl e ↦ absurd (ground arith)
      | inr e ↦ subst IsSound (ok-injective (rw e at h)) (record {
        of_users = s.of_users;
        of_invites = record {
          keyed = IsKeyed-insert invite_key db.next_invite x db.invites refl s.of_invites.keyed;
          codes = λ c. elim (Bool-cases (str_eq code c)) [
            | inl same ↦
                let free : any (has_code c) db.invites ≡ false =
                  subst (λ z. any (has_code z) db.invites ≡ false) ((eq_iff code c).0 same) e in
                ground (
                  arith,
                  count-insert (has_code c) invite_key x db.invites,
                  count-none (has_code c) db.invites free,
                )
            | inr other ↦
                ground
                  (arith, count-insert (has_code c) invite_key x db.invites, s.of_invites.codes c)
          ];
          admitted = λ i. ground (
            arith,
            count-insert (used_invite i) invite_key x db.invites,
            s.of_invites.admitted i,
          );
        };
        of_tokens = s.of_tokens;
      })
    ]

try_codes-IsSound :
    (created_by : ℕ) (expires : Option Time) (draws : List String) (db : Accounts)
    {r : String × Accounts}
    → IsSound db
    → try_codes created_by expires draws db ≡ ok r
    → IsSound r.1
unfolding try_codes
try_codes-IsSound created_by expires [] db s h = absurd (ground arith)
try_codes-IsSound created_by expires (code ∷ draws) db {r = r} s h =
    elim (Outcome-cases (add_invite created_by expires code db)) [
      | inl (db', e) ↦
          subst (λ q. IsSound q.1) (ok-injective (rw (e, try_codes) at h))
            (add_invite-IsSound created_by expires code db s e)
      | inr (x, e) ↦ try_codes-IsSound created_by expires draws db s (rw (e, try_codes) at h)
    ]

create_codes-IsSound :
    (created_by : ℕ) (expires : Option Time) (rounds : List (List String)) (db : Accounts)
    → IsSound db
    → IsSound (create_codes created_by expires rounds db).1
unfolding create_codes
create_codes-IsSound created_by expires [] db s = s
create_codes-IsSound created_by expires (draws ∷ rounds) db s =
    elim (Outcome-cases (try_codes created_by expires draws db)) [
      | inl (made, e) ↦
          rw (e, create_codes)
            (create_codes-IsSound created_by expires rounds made.1
              (try_codes-IsSound created_by expires draws db s e))
      | inr (x, e) ↦ rw (e, create_codes) s
    ]

pub create_invites-IsSound :
    (created_by : ℕ) (expires : Option Time) (rounds : List (List String)) (db : Accounts)
    → IsSound db
    → IsSound (create_invites created_by expires rounds db).1
unfolding create_invites
create_invites-IsSound created_by expires rounds db s =
    elim (Bool-cases (ltb (length rounds) 1 || ltb 100 (length rounds))) [
      | inl e ↦ rw e s
      | inr e ↦ rw e (create_codes-IsSound created_by expires rounds db s)
    ]

-- Only unused codes go, so the count of the used ones stays.
pub revoke_invite-IsSound :
    (id : ℕ) (db : Accounts) {r : String × Accounts}
    → IsSound db
    → revoke_invite id db ≡ ok r
    → IsSound r.1
unfolding revoke_invite rows_with
revoke_invite-IsSound id db {r = r} s h =
    let left = keep (λ i. not (revocable id i)) db.invites in
    let sound : IsSound (record db { invites = left }) = record {
      of_users = s.of_users;
      of_invites = record {
        keyed = record {
          unique = λ i. ground (
            arith,
            s.of_invites.keyed.unique i,
            count-keep (λ x. invite_key x == i) (λ x. not (revocable id x)) db.invites,
          );
          fresh = λ i le. ground (
            arith,
            s.of_invites.keyed.fresh i le,
            count-keep (λ x. invite_key x == i) (λ x. not (revocable id x)) db.invites,
          );
        };
        codes = λ c. ground (
          arith,
          s.of_invites.codes c,
          count-keep (has_code c) (λ x. not (revocable id x)) db.invites,
        );
        admitted = λ i.
            rw
              (count-keep-same (used_invite i) (λ x. not (revocable id x)) db.invites
                (λ x e. ground arith))
              (s.of_invites.admitted i);
      };
      of_tokens = s.of_tokens;
    } in
    elim (Option-cases (find_id invite_key id db.invites)) [
      | inl e ↦ absurd (ground arith)
      | inr (ic, e) ↦
          let same : (ic.code, record db { invites = left }) ≡ r = ground arith in
          subst (λ q. IsSound q.1) same sound
    ]
