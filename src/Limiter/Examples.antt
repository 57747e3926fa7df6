-- ===== src/Limiter/Examples.antt =====
-- The limiter with a full minute, and with room in all three windows.
use imgli.Common.{◌≡◌, refl, ◌⊎◌, none, some, List, [], ◌∷◌, arith, count_of}
use imgli.Common.Int.{pos}
use imgli.Model.{Time}
use imgli.Limiter.{Window, Tier, tiers_of, allow, allow_n}
use imgli.Limiter.Windows.{IsSingle}
use imgli.Limiter.Decisions.{IsCall, allow-IsCall}
use imgli.Limiter.Tiers.{Refused, Counted, allow_n_atomic}

abbrev tiers : List Tier
tiers = tiers_of "u:1|minute" "u:1|hour" "u:1|day" (pos 2) (pos 10) (pos 0)

abbrev windows : List Window
windows = record { key = "u:1|minute"; count = 2; reset = 100 } ∷ []

windows-IsSingle : IsSingle windows
unfolding count_of
windows-IsSingle key = ground arith

allow-IsCall_example :
    IsCall "u:1|minute" (pos 2) 50 windows (allow "u:1|minute" 60 (pos 2) 50 windows)
allow-IsCall_example = allow-IsCall "u:1|minute" 60 (pos 2) 50 windows windows-IsSingle

allow_n_atomic_example :
    ((x : Tier) × (wait : Time) × ((allow_n tiers 50 windows).0 ≡ some (x, wait))
      × Refused x 50 windows (allow_n tiers 50 windows).1)
    ⊎ (((allow_n tiers 50 windows).0 ≡ none)
        × Counted tiers 50 windows (allow_n tiers 50 windows).1)
allow_n_atomic_example =
    allow_n_atomic tiers 50 windows windows-IsSingle ((refl, (refl, tt)), ((refl, tt), (tt, tt)))
