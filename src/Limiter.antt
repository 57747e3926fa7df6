-- ===== src/Limiter.antt =====
-- The rate limiter in memory: internal/handler/ratelimit.go. The map of windows is a list of entries
-- with distinct keys; the mutex makes each call one step.
pub mod Windows
pub mod Decisions
pub mod Tiers
pub mod Examples
use imgli.Common.{
  ℕ, suc, ◌+◌, ◌-◌, Bool, true, false, not, ◌&&◌, ◌||◌, Option, none, some, List, [], ◌∷◌, ◌++◌,
  String, str_eq, leb, ltb, if◌then◌else◌, keep, first, length, ◌==◌,
}
use imgli.Common.Int.{ℤ, pos, leb_ℤ}
use imgli.Model.{Time, minute, hour, day}

pub record Window : Type 0 where
  pub key : String
  pub count : ℕ
  pub reset : Time

abbrev pub sweep_threshold : ℕ
sweep_threshold = 512

-- now.After(w.reset)
abbrev pub is_over : Time → Window → Bool
is_over now w = ltb w.reset now

abbrev pub keyed : String → Window → Bool
keyed key w = str_eq w.key key

unfoldable pub window_at : String → List Window → Option Window
window_at key hits = first (keyed key) hits

-- l.hits[key] = w
unfoldable pub put : Window → List Window → List Window
put w hits = w ∷ keep (λ v. not (keyed w.key v)) hits

unfoldable pub sweep_expired : Time → List Window → List Window
sweep_expired now hits = keep (λ w. not (is_over now w)) hits

unfoldable pub maybe_sweep : Time → List Window → List Window
maybe_sweep now hits = if leb sweep_threshold (length hits) then sweep_expired now hits else hits

-- What `allow` does after the sweep.
unfoldable pub hit : String → Time → ℤ → Time → List Window → Bool × List Window
hit key dur limit now hits =
    let opened : Bool × List Window =
      (true, put (record { key = key; count = 1; reset = now + dur }) hits) in
    elim (window_at key hits) [
      | none ↦ opened
      | some w ↦
          if is_over now w
          then opened
          else if leb_ℤ limit (pos w.count)
          then (false, hits)
          else (true, put (record w { key = key; count = w.count + 1 }) hits)
    ]

unfoldable pub allow : String → Time → ℤ → Time → List Window → Bool × List Window
allow key dur limit now hits =
    if leb_ℤ limit (pos 0) then (true, hits) else hit key dur limit now (maybe_sweep now hits)

-- One of the three windows of AllowN: its key, its length and its limit.
pub record Tier : Type 0 where
  pub name : String
  pub dur : Time
  pub limit : ℤ

-- The first pass: the first tier that is full, with the time until it is reset.
unfoldable pub full_tier : Time → List Window → List Tier → Option (Tier × Time)
full_tier now hits [] = none
full_tier now hits (x ∷ tiers) =
    let rest = full_tier now hits tiers in
    if leb_ℤ x.limit (pos 0) then rest else elim (window_at x.name hits) [
      | none ↦ rest
      | some w ↦
          if not (is_over now w) && leb_ℤ x.limit (pos w.count)
          then some (x, w.reset - now)
          else rest
    ]

-- The second pass. The source reads the clock again for each tier; here it stands still for the call.
unfoldable pub count_tiers : Time → List Tier → List Window → List Window
count_tiers now [] hits = hits
count_tiers now (x ∷ tiers) hits =
    count_tiers now tiers
      (if leb_ℤ x.limit (pos 0) then hits else (allow x.name x.dur x.limit now hits).1)

-- AllowN, with the keys id|minute, id|hour and id|day of the three tiers.
unfoldable pub allow_n : List Tier → Time → List Window → Option (Tier × Time) × List Window
allow_n tiers now hits =
    let swept = maybe_sweep now hits in
    elim (full_tier now swept tiers) [
      | some refused ↦ (some refused, swept)
      | none ↦ (none, count_tiers now tiers swept)
    ]

abbrev pub tiers_of : String → String → String → ℤ → ℤ → ℤ → List Tier
tiers_of minute_key hour_key day_key per_minute per_hour per_day =
    record { name = minute_key; dur = minute; limit = per_minute }
    ∷ record { name = hour_key; dur = hour; limit = per_hour }
    ∷ record { name = day_key; dur = day; limit = per_day }
    ∷ []
