-- ===== src/Limiter/Decisions.antt =====
-- On `allow` of internal/handler/ratelimit.go, seen through the counts of Limiter/Windows.
use imgli.Common.{
  ℕ, ◌+◌, ◌≤◌, ◌≡◌, refl, ◌∙◌, ◌⊎◌, inl, inr, ◌↔◌, Bool, true, false, List, String, str_eq, eq_iff,
  arith, if◌then◌else◌, Bool-cases, Option-cases,
}
use imgli.Common.Int.{ℤ, pos, leb_ℤ, ◌<ℤ◌, ◌≤ℤ◌}
use imgli.Model.{Time}
use imgli.Limiter.{Window, is_over, window_at, put, maybe_sweep, hit, allow}
use imgli.Limiter.Windows.{
  IsSingle, used, window-put, put-IsSingle, sweep-IsSingle, used-maybe_sweep,
}

-- Whether a limit leaves room for one more call.
abbrev pub HasRoom : ℤ → ℕ → Type 0
HasRoom limit count = (limit ≤ℤ pos 0) ⊎ (pos count <ℤ limit)

module _ (key : String) (dur : Time) (limit : ℤ) (now : Time) where
  -- What a call does to the counts, for a limit that is set.
  record IsCounted (hits : List Window) (r : Bool × List Window) : Type 0 where
    single : IsSingle r.1
    decided : (r.0 ≡ true) ↔ (pos (used key now hits) <ℤ limit)
    own : r.0 ≡ true → used key now r.1 ≡ used key now hits + 1
    refused : r.0 ≡ false → (k : String) (t : Time) → used k t r.1 ≡ used k t hits
    others : (k : String) (t : Time) → str_eq key k ≡ false → used k t r.1 ≡ used k t hits

  own_key : str_eq key key ≡ true
  own_key = (eq_iff key key).1 refl

  opened : Window
  opened = record { key = key; count = 1; reset = now + dur }

  opens :
      (hits : List Window)
      → hit key dur limit now hits ≡ (true, put opened hits)
      → used key now hits ≡ 0
      → pos 0 <ℤ limit
      → IsSingle hits
      → IsCounted hits (hit key dur limit now hits)
  unfolding opened
  opens hits shape idle l s = rw shape (record {
    single = put-IsSingle opened hits s;
    decided = (λ h. ground (arith, idle), λ h. refl);
    own = λ h. ground (arith, window-put key opened hits, own_key, idle);
    refused = λ h. absurd (ground arith);
    others = λ k t d. ground (arith, window-put k opened hits, d);
  })

  hit-IsCounted :
      (hits : List Window)
      → pos 0 <ℤ limit
      → IsSingle hits
      → IsCounted hits (hit key dur limit now hits)
  unfolding opened
  hit-IsCounted hits l s = elim (Option-cases (window_at key hits)) [
    | inl e ↦ opens hits (unfold hit in ground (arith, e)) (ground (arith, e)) l s
    | inr (w, e) ↦ elim (Bool-cases (is_over now w)) [
      | inl over ↦ opens hits (unfold hit in ground (arith, e, over)) (ground (arith, e, over)) l s
      | inr open_still ↦ elim (Bool-cases (leb_ℤ limit (pos w.count))) [
        | inl full ↦
            let shape : hit key dur limit now hits ≡ (false, hits) =
              unfold hit in ground (arith, e, open_still, full) in
            rw shape (record {
              single = s;
              decided = (λ h. absurd (ground arith), λ h. absurd (ground (arith, e, open_still)));
              own = λ h. absurd (ground arith);
              refused = λ h k t. refl;
              others = λ k t d. refl;
            })
        | inr room ↦
            let more : Window = record w { key = key; count = w.count + 1 } in
            let shape : hit key dur limit now hits ≡ (true, put more hits) =
              unfold hit in ground (arith, e, open_still, room) in
            rw shape (record {
              single = put-IsSingle more hits s;
              decided = (λ h. ground (arith, e, open_still, room), λ h. refl);
              own = λ h. ground (arith, window-put key more hits, own_key, e, open_still);
              refused = λ h. absurd (ground arith);
              others = λ k t d. ground (arith, window-put k more hits, d);
            })
      ]
    ]
  ]

-- One call: it passes exactly if its limit is unset or more than the calls counted so far, counts
-- one where it passes a set limit, and leaves every other count, seen from then on.
pub record IsCall (key : String) (limit : ℤ) (now : Time) (hits : List Window)
    (r : Bool × List Window) : Type 0 where
  pub single : IsSingle r.1
  pub decided : (r.0 ≡ true) ↔ HasRoom limit (used key now hits)
  pub own :
      r.0 ≡ true → used key now r.1 ≡ used key now hits + (if leb_ℤ limit (pos 0) then 0 else 1)
  pub refused : r.0 ≡ false → (k : String) (t : Time) → now ≤ t → used k t r.1 ≡ used k t hits
  pub others :
      (k : String) (t : Time) → now ≤ t → str_eq key k ≡ false → used k t r.1 ≡ used k t hits

-- Whatever the limiter has kept or swept, a call passes exactly if its limit is unset or above the
-- number of calls counted in the key's current window; a call that passes a set limit is counted
-- once, one that is refused is not counted, and no other key's count changes. The list of windows
-- has one entry for each key at most.
pub allow-IsCall :
    (key : String) (dur : Time) (limit : ℤ) (now : Time) (hits : List Window)
    → IsSingle hits
    → IsCall key limit now hits (allow key dur limit now hits)
allow-IsCall key dur limit now hits s = elim (Bool-cases (leb_ℤ limit (pos 0))) [
  | inl e ↦
      let shape : allow key dur limit now hits ≡ (true, hits) = unfold allow in ground (arith, e) in
      rw shape (record {
        single = s;
        decided = (λ h. inl (ground arith), λ h. refl);
        own = λ h. ground (arith, e);
        refused = λ h. absurd (ground arith);
        others = λ k t le d. refl;
      })
  | inr e ↦
      let swept = maybe_sweep now hits in
      let shape : allow key dur limit now hits ≡ hit key dur limit now swept =
        unfold allow in ground (arith, e) in
      let c = hit-IsCounted key dur limit now swept (ground arith) (sweep-IsSingle now hits s) in
      let same = used-maybe_sweep key now now hits (omega arith) s in
      rw shape (record {
        single = c.single;
        decided =
            (λ h. inr (rw same at (c.decided.0 h)), λ h. c.decided.1 (ground (arith, e, h, same)));
        own = λ h. ground (arith, c.own h, same, e);
        refused = λ h k t le. c.refused h k t ∙ used-maybe_sweep k now t hits le s;
        others = λ k t le d. c.others k t d ∙ used-maybe_sweep k now t hits le s;
      })
]
