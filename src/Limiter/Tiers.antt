-- ===== src/Limiter/Tiers.antt =====
-- On AllowN of internal/handler/ratelimit.go, for any list of windows with different keys.
use mathlib.Core.Path.{subst}
use imgli.Common.{
  ℕ, ◌+◌, ◌-◌, ◌≤◌, ◌≡◌, refl, sym, ap, ◌∙◌, ◌⊎◌, inl, inr, false, not, ◌&&◌, Option, none, some,
  List, [], ◌∷◌, String, str_eq, eq_iff, arith, if◌then◌else◌, All, Bool-cases, Option-cases,
}
use imgli.Common.Int.{pos, leb_ℤ, ◌<ℤ◌, ◌≤ℤ◌}
use imgli.Model.{Time}
use imgli.Limiter.{
  Window, is_over, window_at, maybe_sweep, allow, Tier, full_tier, count_tiers, allow_n,
}
use imgli.Limiter.Windows.{IsSingle, used, sweep-IsSingle, used-maybe_sweep}
use imgli.Limiter.Decisions.{HasRoom, allow-IsCall}

abbrev pub Differs : String → List Tier → Type 0
Differs name tiers = All (λ y. str_eq name y.name ≡ false) tiers

abbrev pub IsDistinct : List Tier → Type 0
IsDistinct [] = Unit
IsDistinct (x ∷ tiers) = Differs x.name tiers × IsDistinct tiers

abbrev pub step : Time → Tier → List Window → List Window
step now x hits = if leb_ℤ x.limit (pos 0) then hits else (allow x.name x.dur x.limit now hits).1

-- What a passed call adds to a tier's count.
abbrev pub share : Tier → ℕ
share x = if leb_ℤ x.limit (pos 0) then 0 else 1

record IsStep (now : Time) (x : Tier) (hits : List Window) (after : List Window) : Type 0 where
  single : IsSingle after
  own : used x.name now after ≡ used x.name now hits + share x
  others :
      (k : String) (t : Time) → now ≤ t → str_eq x.name k ≡ false → used k t after ≡ used k t hits

step-IsStep :
    (now : Time) (x : Tier) (hits : List Window)
    → IsSingle hits
    → HasRoom x.limit (used x.name now hits)
    → IsStep now x hits (step now x hits)
step-IsStep now x hits s room = elim (Bool-cases (leb_ℤ x.limit (pos 0))) [
  | inl e ↦ rw e (record { single = s; own = ground (arith, e); others = λ k t le d. refl })
  | inr e ↦
      let c = allow-IsCall x.name x.dur x.limit now hits s in
      rw e (record {
        single = c.single;
        own = ground (arith, c.own (c.decided.1 room), e);
        others = c.others;
      })
]

-- Tiers with other names than one do not feel its count.
carry :
    (P : Tier → ℕ → Type 0) (name : String) (f g : String → ℕ) (tiers : List Tier)
    → ((k : String) → str_eq name k ≡ false → f k ≡ g k)
    → Differs name tiers
    → All (λ y. P y (f y.name)) tiers
    → All (λ y. P y (g y.name)) tiers
carry P name f g [] same d a = tt
carry P name f g (y ∷ tiers) same d a =
    (subst (P y) (same y.name d.0) a.0, carry P name f g tiers same d.1 a.1)

count-others :
    (now : Time) (tiers : List Tier) (hits : List Window)
    → IsSingle hits
    → IsDistinct tiers
    → All (λ x. HasRoom x.limit (used x.name now hits)) tiers
    → (k : String) (t : Time) → now ≤ t
    → All (λ x. str_eq x.name k ≡ false) tiers
    → used k t (count_tiers now tiers hits) ≡ used k t hits
unfolding count_tiers
count-others now [] hits s d r k t le o = refl
count-others now (x ∷ tiers) hits s d r k t le o =
    let c = step-IsStep now x hits s r.0 in
    count-others now tiers (step now x hits) c.single d.1
      (carry (λ y n. HasRoom y.limit n) x.name (λ n. used n now hits)
        (λ n. used n now (step now x hits)) tiers (λ n e. sym (c.others n now (omega arith) e)) d.0
        r.1)
      k t le o.1
    ∙ c.others k t le o.0

apart :
    (name : String) (tiers : List Tier)
    → Differs name tiers
    → All (λ y. str_eq y.name name ≡ false) tiers
apart name [] d = tt
apart name (y ∷ tiers) d = (flipped, apart name tiers d.1)
  where
    flipped : str_eq y.name name ≡ false
    flipped = elim (Bool-cases (str_eq y.name name)) [
      | inr e ↦ e
      | inl e ↦
          absurd (ground (arith, d.0, (eq_iff name y.name).1 (sym ((eq_iff y.name name).0 e))))
    ]

count-own :
    (now : Time) (tiers : List Tier) (hits : List Window)
    → IsSingle hits
    → IsDistinct tiers
    → All (λ x. HasRoom x.limit (used x.name now hits)) tiers
    → All (λ x. used x.name now (count_tiers now tiers hits) ≡ used x.name now hits + share x) tiers
unfolding count_tiers
count-own now [] hits s d r = tt
count-own now (x ∷ tiers) hits s d r =
    let c = step-IsStep now x hits s r.0 in
    let room =
      carry (λ y n. HasRoom y.limit n) x.name (λ n. used n now hits)
        (λ n. used n now (step now x hits)) tiers (λ n e. sym (c.others n now (omega arith) e)) d.0
        r.1 in
    (
      count-others now tiers (step now x hits) c.single d.1 room x.name now (omega arith)
            (apart x.name tiers d.0)
          ∙ c.own,
      carry (λ y n. used y.name now (count_tiers now tiers (step now x hits)) ≡ n + share y) x.name
          (λ n. used n now (step now x hits)) (λ n. used n now hits) tiers
          (λ n e. c.others n now (omega arith) e) d.0
          (count-own now tiers (step now x hits) c.single d.1 room),
    )

-- The first pass finds a full tier, or all have room.
full_tier-some :
    (now : Time) (hits : List Window) (tiers : List Tier) {x : Tier} {wait : Time}
    → full_tier now hits tiers ≡ some (x, wait)
    → (pos 0 <ℤ x.limit) × (x.limit ≤ℤ pos (used x.name now hits))
unfolding full_tier
full_tier-some now hits [] h = absurd (ground arith)
full_tier-some now hits (y ∷ tiers) {x = x} {wait = wait} h =
    let later = full_tier-some now hits tiers {x = x} {wait = wait} in
    elim (Bool-cases (leb_ℤ y.limit (pos 0))) [
      | inl e ↦ later (ground (arith, e))
      | inr e ↦ elim (Option-cases (window_at y.name hits)) [
        | inl f ↦ later (ground (arith, e, f))
        | inr (w, f) ↦ elim (Bool-cases (not (is_over now w) && leb_ℤ y.limit (pos w.count))) [
          | inr o ↦ later (ground (arith, e, f, o))
          | inl o ↦
              let found : ◌≡◌ {A = Option (Tier × Time)} (some (y, w.reset - now))
                  (some (x, wait)) =
                ground (arith, e, f, o) in
              let same : y ≡ x = cc found in
              subst (λ z. (pos 0 <ℤ z.limit) × (z.limit ≤ℤ pos (used z.name now hits))) same
                (ground (arith, e), ground (arith, f, o))
        ]
      ]
    ]

full_tier-none :
    (now : Time) (hits : List Window) (tiers : List Tier)
    → full_tier now hits tiers ≡ none
    → All (λ x. HasRoom x.limit (used x.name now hits)) tiers
unfolding full_tier
full_tier-none now hits [] h = tt
full_tier-none now hits (y ∷ tiers) h = elim (Bool-cases (leb_ℤ y.limit (pos 0))) [
  | inl e ↦ (inl (ground (arith, e)), full_tier-none now hits tiers (ground (arith, e)))
  | inr e ↦ elim (Option-cases (window_at y.name hits)) [
    | inl f ↦ (inr (ground (arith, e, f)), full_tier-none now hits tiers (ground (arith, e, f)))
    | inr (w, f) ↦ elim (Bool-cases (not (is_over now w) && leb_ℤ y.limit (pos w.count))) [
      | inl o ↦ absurd (ground (arith, e, f, o))
      | inr o ↦
          (inr (ground (arith, e, f, o)), full_tier-none now hits tiers (ground (arith, e, f, o)))
    ]
  ]
]

-- A refusal for the tier that is full, or a passed call that every tier counts.
abbrev pub Refused : Tier → Time → List Window → List Window → Type 0
Refused x now hits after =
    (pos 0 <ℤ x.limit)
    × (x.limit ≤ℤ pos (used x.name now hits))
    × ((k : String) (t : Time) → now ≤ t → used k t after ≡ used k t hits)

abbrev pub Counted : List Tier → Time → List Window → List Window → Type 0
Counted tiers now hits after =
    All
      (λ x.
        HasRoom x.limit (used x.name now hits)
        × (used x.name now after ≡ used x.name now hits + share x))
      tiers

both :
    (u v w : String → ℕ) (tiers : List Tier)
    → ((k : String) → u k ≡ v k)
    → All (λ x. HasRoom x.limit (u x.name)) tiers
    → All (λ x. w x.name ≡ u x.name + share x) tiers
    → All (λ x. HasRoom x.limit (v x.name) × (w x.name ≡ v x.name + share x)) tiers
both u v w [] e r c = tt
both u v w (x ∷ tiers) e r c = (
  subst (λ n. HasRoom x.limit n × (w x.name ≡ n + share x)) (e x.name) (r.0, c.0),
  both u v w tiers e r.1 c.1,
)

-- AllowN is all or nothing: either it names a tier whose set limit is used up, and no count of any
-- key changes, or every set limit leaves room and each of those tiers counts the call once. The
-- tiers have different keys, and the list of windows has one entry for each key at most.
pub allow_n_atomic :
    (tiers : List Tier) (now : Time) (hits : List Window)
    → IsSingle hits
    → IsDistinct tiers
    → ((x : Tier) × (wait : Time) × ((allow_n tiers now hits).0 ≡ some (x, wait))
        × Refused x now hits (allow_n tiers now hits).1)
      ⊎ (((allow_n tiers now hits).0 ≡ none) × Counted tiers now hits (allow_n tiers now hits).1)
allow_n_atomic tiers now hits s d =
    let swept = maybe_sweep now hits in
    let seen = λ (k : String) (t : Time) (le : now ≤ t). used-maybe_sweep k now t hits le s in
    elim (Option-cases (full_tier now swept tiers)) [
      | inr ((x, wait), e) ↦
          let shape : allow_n tiers now hits ≡ (some (x, wait), swept) =
            unfold allow_n in ground (arith, e) in
          let (set, full) = full_tier-some now swept tiers e in
          inl (
            x,
            wait,
            ap (λ r. r.0) shape,
            rw shape (set, rw (seen x.name now (omega arith)) at full, seen),
          )
      | inl e ↦
          let shape : allow_n tiers now hits ≡ (none, count_tiers now tiers swept) =
            unfold allow_n in ground (arith, e) in
          let room = full_tier-none now swept tiers e in
          inr (
            ap (λ r. r.0) shape,
            rw shape (
                both (λ k. used k now swept) (λ k. used k now hits)
                  (λ k. used k now (count_tiers now tiers swept)) tiers
                  (λ k. seen k now (omega arith)) room
                  (count-own now tiers swept (sweep-IsSingle now hits s) d room)),
          )
    ]
