-- ===== src/Bandwidth/Laws.antt =====
-- On Check, Add and SnapshotFor of internal/service/bandwidth/bandwidth.go.
use mathlib.Core.Path.{subst}
use imgli.Common.{
  ℕ, ◌+◌, ◌≡◌, refl, ◌↔◌, inl, inr, false, none, some, List, [], ◌∷◌, String, str_eq, eq_iff, arith,
  ◌==◌, ==_refl, sum_of, Option-cases, Bool-cases,
}
use imgli.Common.Int.{ℤ, pos_part, pos, ◌<ℤ◌, ◌≤ℤ◌}
use imgli.Common.Outcome.{ok, err}
use imgli.Table.{find_id}
use imgli.Table.Laws.{find_id-update}
use imgli.Model.{User, UserGroup}
use imgli.Bandwidth.{
  exceeded, account_key, effective_used, CheckRow, check_row, check, meter, add, Snapshot,
  snapshot_for,
}

-- A user's traffic in a period, 0 for a user who is not there.
abbrev pub used_in : ℕ → String → List User → ℤ
used_in uid period users = elim (find_id account_key uid users) [
  | none ↦ pos 0
  | some u ↦ effective_used u.bandwidth_used_month u.bandwidth_period period
]

-- The bytes of several answers, metered one after the other.
unfoldable pub add_all : ℕ → String → List ℕ → List User → List User
add_all uid period [] users = users
add_all uid period (n ∷ ns) users = add_all uid period ns (add uid period n users)

add-find :
    (uid : ℕ) (period : String) (n : ℕ) (users : List User) (u : User)
    → (uid == 0) ≡ false
    → (n == 0) ≡ false
    → find_id account_key uid users ≡ some u
    → find_id account_key uid (add uid period n users) ≡ some (meter period n u)
unfolding add
add-find uid period n users u z p e = ground (
  arith,
  z,
  p,
  e,
  find_id-update account_key uid uid (meter period n) users (λ x. refl),
  ==_refl uid,
)

-- The user's counter and the bytes that it stands for.
record Counted (uid : ℕ) (period : String) (users : List User) (k : ℕ) : Type 0 where
  user : User
  there : find_id account_key uid users ≡ some user
  counted : pos 0 ≤ℤ user.bandwidth_used_month
  worth : effective_used user.bandwidth_used_month user.bandwidth_period period ≡ pos k

effective_start :
    (used : ℤ) (own period : String) → (k : ℕ) × (effective_used used own period ≡ pos k)
unfolding effective_used
effective_start used own period = elim (Bool-cases (str_eq own period)) [
  | inl e ↦ (pos_part used, ground arith)
  | inr e ↦ (0, ground arith)
]

add-Counted :
    (uid : ℕ) (period : String) (n : ℕ) (users : List User) (k : ℕ)
    → (uid == 0) ≡ false
    → Counted uid period users k
    → Counted uid period (add uid period n users) (k + n)
unfolding add effective_used
add-Counted uid period n users k z c = elim (Bool-cases (n == 0)) [
  | inl e ↦ record {
    user = c.user;
    there = ground (arith, c.there);
    counted = c.counted;
    worth = ground (arith, c.worth);
  }
  | inr e ↦ record {
    user = meter period n c.user;
    there = add-find uid period n users c.user z e c.there;
    counted = ground (arith, c.counted);
    worth = ground (arith, c.counted, (eq_iff period period).1 refl, c.worth);
  }
]

add_all-Counted :
    (uid : ℕ) (period : String) (ns : List ℕ) (users : List User) (k : ℕ)
    → (uid == 0) ≡ false
    → Counted uid period users k
    → Counted uid period (add_all uid period ns users) (k + sum_of (λ n. n) ns)
unfolding add_all sum_of
add_all-Counted uid period [] users k z c = subst (Counted uid period users) (omega arith) c
add_all-Counted uid period (n ∷ ns) users k z c =
    subst (Counted uid period (add_all uid period ns (add uid period n users))) (omega arith) (
      add_all-Counted uid period ns (add uid period n users) (k + n) z
        (add-Counted uid period n users k z c))

-- Metering is exact: within one period, answers of any sizes, in any order, raise the traffic of
-- their owner by exactly their total, also across a change of period before the first of them. The
-- owner's row is there with a counter that is not negative.
pub add_all-total :
    (uid : ℕ) (period : String) (ns : List ℕ) (users : List User) (u : User)
    → (uid == 0) ≡ false
    → find_id account_key uid users ≡ some u
    → pos 0 ≤ℤ u.bandwidth_used_month
    → (k : ℕ) × (used_in uid period users ≡ pos k)
      × (used_in uid period (add_all uid period ns users) ≡ pos (k + sum_of (λ n. n) ns))
add_all-total uid period ns users u z e p =
    let (k, worth) = effective_start u.bandwidth_used_month u.bandwidth_period period in
    let start : Counted uid period users k = record {
      user = u;
      there = e;
      counted = p;
      worth = worth;
    } in
    let end = add_all-Counted uid period ns users k z start in
    (k, ground (arith, e, worth), ground (arith, end.there, end.worth))

-- Serving stops exactly when the account page shows a positive quota that is used up.
pub check-exceeded_iff :
    (uid : ℕ) (period : String) (users : List User) (groups : List UserGroup)
    → (check uid period users groups ≡ err exceeded) ↔ (
        (s : Snapshot) × (snapshot_for uid period users groups ≡ ok s)
        × (pos 0 <ℤ s.quota)
        × (s.quota ≤ℤ s.used))
unfolding check snapshot_for
check-exceeded_iff uid period users groups = (λ h. refused h, λ shows. exhausted shows)
  where
    shown : CheckRow → Snapshot
    shown row = record {
      period = period;
      used = effective_used row.bandwidth_used_month row.bandwidth_period period;
      quota = row.bandwidth_quota_month;
    }

    refused :
        check uid period users groups ≡ err exceeded
        → (s : Snapshot) × (snapshot_for uid period users groups ≡ ok s)
          × (pos 0 <ℤ s.quota)
          × (s.quota ≤ℤ s.used)
    refused h = elim (Bool-cases (uid == 0)) [
      | inl z ↦ absurd (ground arith)
      | inr z ↦ elim (Option-cases (check_row uid users groups)) [
        | inl e ↦ absurd (ground (arith, e))
        | inr (row, e) ↦ (shown row, ground (arith, e, z), ground (arith, e), ground (arith, e))
      ]
    ]

    exhausted :
        (s : Snapshot) × (snapshot_for uid period users groups ≡ ok s)
          × (pos 0 <ℤ s.quota)
          × (s.quota ≤ℤ s.used)
        → check uid period users groups ≡ err exceeded
    exhausted (s, e, q, u) = elim (Bool-cases (uid == 0)) [
      | inl z ↦ absurd (ground arith)
      | inr z ↦ elim (Option-cases (check_row uid users groups)) [
        | inl f ↦ absurd (ground (arith, f, z))
        | inr (row, f) ↦ ground (arith, f, z)
      ]
    ]
