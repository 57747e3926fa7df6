-- ===== src/Serve/Hotlink.antt =====
-- Hotlink protection: HotlinkAllowed of internal/service/stats/stats.go. A host is the list of its
-- bytes; hosts are ASCII, so that lower case is a matter of 26 letters.
use imgli.Common.{
  ℕ, ◌+◌, Bool, true, false, not, ◌&&◌, ◌||◌, Option, none, some, List, [], ◌∷◌, leb, if◌then◌else◌,
  any, ◌==◌,
}

abbrev pub Host : Type 0
Host = List ℕ

pub record HotlinkConfig : Type 0 where
  pub enabled : Bool
  pub allowed_domains : List Host
  pub allow_empty_referer : Bool

abbrev pub lower_byte : ℕ → ℕ
lower_byte c = if leb 65 c && leb c 90 then c + 32 else c

unfoldable pub to_lower : Host → Host
to_lower [] = []
to_lower (c ∷ cs) = lower_byte c ∷ to_lower cs

unfoldable pub host_eq : Host → Host → Bool
host_eq [] [] = true
host_eq [] (c ∷ cs) = false
host_eq (b ∷ bs) [] = false
host_eq (b ∷ bs) (c ∷ cs) = b == c && host_eq bs cs

-- What follows the first dot.
unfoldable pub after_dot : Host → Option Host
after_dot [] = none
after_dot (c ∷ cs) = if c == 46 then some cs else after_dot cs

-- strings.IndexByte(ref, '.') > 0, and what follows the dot
unfoldable pub after_label : Host → Option Host
after_label [] = none
after_label (c ∷ cs) = if c == 46 then none else after_dot cs

-- What follows "*."
unfoldable pub wildcard : Host → Option Host
wildcard [] = none
wildcard (c ∷ []) = none
wildcard (c ∷ d ∷ suffix) = if c == 42 && d == 46 then some suffix else none

unfoldable pub domain_matches : Host → Host → Bool
domain_matches ref d = elim (wildcard (to_lower d)) [
  | none ↦ host_eq ref (to_lower d)
  | some suffix ↦
      host_eq ref suffix
      || (elim (after_label ref) [ none ↦ false | some rest ↦ host_eq rest suffix ])
]

unfoldable pub hotlink_allowed : HotlinkConfig → Host → Host → Bool
hotlink_allowed cfg ref_host own_host =
    if not cfg.enabled
    then true
    else if host_eq (to_lower ref_host) []
    then cfg.allow_empty_referer
    else host_eq (to_lower ref_host) (to_lower own_host)
      || any (domain_matches (to_lower ref_host)) cfg.allowed_domains
