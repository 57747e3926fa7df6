-- ===== src/Limiter/Windows.antt =====
-- The windows of internal/handler/ratelimit.go as counts: how many calls a key has made in its
-- current window.
use mathlib.Core.Path.{subst}
use imgli.Common.{
  ℕ, ◌≤◌, ◌≡◌, refl, sym, ◌∙◌, inl, inr, Bool, true, false, not, Option, none, some, List, [], ◌∷◌,
  String, str_eq, eq_iff, arith, leb, if◌then◌else◌, keep, first, length, count_of, Bool-cases,
}
use imgli.Model.{Time}
use imgli.Limiter.{
  Window, is_over, keyed, window_at, put, sweep_expired, maybe_sweep, sweep_threshold,
}

abbrev pub IsSingle : List Window → Type 0
IsSingle hits = (key : String) → count_of (keyed key) hits ≤ 1

abbrev pub live_count : Time → Option Window → ℕ
live_count now none = 0
live_count now (some w) = if is_over now w then 0 else w.count

-- The calls counted against a key at a time.
abbrev pub used : String → Time → List Window → ℕ
used key now hits = live_count now (window_at key hits)

absent :
    (key : String) (hits : List Window) → count_of (keyed key) hits ≡ 0 → window_at key hits ≡ none
unfolding window_at first count_of
absent key [] h = refl
absent key (w ∷ hits) h = ground (arith, absent key hits)

count-keep :
    (key : String) (p : Window → Bool) (hits : List Window)
    → count_of (keyed key) (keep p hits) ≤ count_of (keyed key) hits
unfolding count_of keep
count-keep key p [] = omega arith
count-keep key p (w ∷ hits) = ground (arith, count-keep key p hits)

-- Sweeping is invisible from its time on.
used-sweep_expired :
    (key : String) (swept now : Time) (hits : List Window)
    → swept ≤ now
    → count_of (keyed key) hits ≤ 1
    → used key now (sweep_expired swept hits) ≡ used key now hits
unfolding sweep_expired window_at first keep count_of
used-sweep_expired key swept now [] le u = refl
used-sweep_expired key swept now (w ∷ hits) le u = ground (
  arith,
  used-sweep_expired key swept now hits le,
  absent key (keep (λ v. not (is_over swept v)) hits),
  count-keep key (λ v. not (is_over swept v)) hits,
)

other_key : (a b c : String) → str_eq a b ≡ true → str_eq b c ≡ false → str_eq a c ≡ false
other_key a b c same differ = elim (Bool-cases (str_eq a c)) [
  | inr e ↦ e
  | inl e ↦
      absurd (ground (arith, differ, (eq_iff b c).1 (sym ((eq_iff a b).0 same) ∙ (eq_iff a c).0 e)))
]

window-without :
    (gone_key key : String) (hits : List Window)
    → str_eq gone_key key ≡ false
    → window_at key (keep (λ v. not (keyed gone_key v)) hits) ≡ window_at key hits
unfolding window_at first keep
window-without gone_key key [] d = refl
window-without gone_key key (w ∷ hits) d =
    ground (arith, window-without gone_key key hits d, other_key w.key gone_key key)

pub window-put :
    (key : String) (w : Window) (hits : List Window)
    → window_at key (put w hits) ≡ (if str_eq w.key key then some w else window_at key hits)
unfolding put
window-put key w hits = elim (Bool-cases (str_eq w.key key)) [
  | inl e ↦ unfold window_at first in ground (arith, e)
  | inr e ↦ rw e (window-head key w hits e ∙ window-without w.key key hits e)
]
  where
    window-head :
        (key : String) (w : Window) (hits : List Window)
        → str_eq w.key key ≡ false
        → window_at key (w ∷ keep (λ v. not (keyed w.key v)) hits)
          ≡ window_at key (keep (λ v. not (keyed w.key v)) hits)
    window-head key w hits e = unfold window_at first in ground (arith, e)

count-without :
    (key : String) (hits : List Window)
    → count_of (keyed key) (keep (λ v. not (keyed key v)) hits) ≡ 0
unfolding count_of keep
count-without key [] = refl
count-without key (w ∷ hits) = ground (arith, count-without key hits)

pub put-IsSingle : (w : Window) (hits : List Window) → IsSingle hits → IsSingle (put w hits)
unfolding put
put-IsSingle w hits s key = elim (Bool-cases (str_eq w.key key)) [
  | inl e ↦
      let same : w.key ≡ key = (eq_iff w.key key).0 e in
      unfold count_of in
      ground (
        arith,
        e,
        subst (λ k. count_of (keyed k) (keep (λ v. not (keyed w.key v)) hits) ≡ 0) same
            (count-without w.key hits),
      )
  | inr e ↦
      unfold count_of in ground (arith, e, count-keep key (λ v. not (keyed w.key v)) hits, s key)
]

pub sweep-IsSingle :
    (now : Time) (hits : List Window) → IsSingle hits → IsSingle (maybe_sweep now hits)
unfolding maybe_sweep sweep_expired
sweep-IsSingle now hits s key =
    ground (arith, count-keep key (λ w. not (is_over now w)) hits, s key)

pub used-maybe_sweep :
    (key : String) (swept now : Time) (hits : List Window)
    → swept ≤ now
    → IsSingle hits
    → used key now (maybe_sweep swept hits) ≡ used key now hits
unfolding maybe_sweep
used-maybe_sweep key swept now hits le s = elim (Bool-cases (leb sweep_threshold (length hits))) [
  | inl e ↦ rw e (used-sweep_expired key swept now hits le (s key))
  | inr e ↦ rw e refl
]
