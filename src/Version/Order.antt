-- ===== src/Version/Order.antt =====
-- On CompareSemver of internal/version/compare.go.
use imgli.Common.{ℕ, ◌≡◌, refl, inl, inr, List, [], ◌∷◌, arith, Option-cases}
use imgli.Version.{
  Bytes, Sign, less, same, more, normalize_tag, parse_parts, compare_parts, compare_bytes,
  compare_semver,
}

abbrev pub flip_sign : Sign → Sign
flip_sign less = more
flip_sign same = same
flip_sign more = less

compare_parts-swap : (ks ms : List ℕ) → compare_parts ms ks ≡ flip_sign (compare_parts ks ms)
unfolding compare_parts
compare_parts-swap [] [] = refl
compare_parts-swap (k ∷ ks) [] = ground (arith, compare_parts-swap ks [])
compare_parts-swap [] (m ∷ ms) = ground (arith, compare_parts-swap [] ms)
compare_parts-swap (k ∷ ks) (m ∷ ms) = ground (arith, compare_parts-swap ks ms)

compare_bytes-swap : (ks ms : Bytes) → compare_bytes ms ks ≡ flip_sign (compare_bytes ks ms)
unfolding compare_bytes
compare_bytes-swap [] [] = refl
compare_bytes-swap (k ∷ ks) [] = refl
compare_bytes-swap [] (m ∷ ms) = refl
compare_bytes-swap (k ∷ ks) (m ∷ ms) = ground (arith, compare_bytes-swap ks ms)

-- Swapping the two versions swaps the answer, also where one of them cannot be read and the strings
-- are compared instead.
pub compare_semver-swap : (a b : Bytes) → compare_semver b a ≡ flip_sign (compare_semver a b)
unfolding compare_semver
compare_semver-swap a b = elim (Option-cases (parse_parts (normalize_tag a))) [
  | inl e ↦ ground (arith, e, compare_bytes-swap (normalize_tag a) (normalize_tag b))
  | inr (ks, e) ↦ elim (Option-cases (parse_parts (normalize_tag b))) [
    | inl f ↦ ground (arith, e, f, compare_bytes-swap (normalize_tag a) (normalize_tag b))
    | inr (ms, f) ↦ ground (arith, e, f, compare_parts-swap ks ms)
  ]
]

-- Among lists of numbers, a version that is smaller than a second one is smaller than every third one
-- that the second is not larger than.
pub compare_parts_trans :
    (ks ms ns : List ℕ)
    → compare_parts ks ms ≡ less
    → (compare_parts ms ns ≡ more → ⊥)
    → compare_parts ks ns ≡ less
unfolding compare_parts
compare_parts_trans [] [] [] h g = h
compare_parts_trans [] [] (n ∷ ns) h g = absurd (ground (arith, h))
compare_parts_trans [] (m ∷ ms) [] h g = ground (arith, compare_parts_trans [] ms [])
compare_parts_trans [] (m ∷ ms) (n ∷ ns) h g = ground (arith, compare_parts_trans [] ms ns)
compare_parts_trans (k ∷ ks) [] [] h g = ground (arith, compare_parts_trans ks [] [])
compare_parts_trans (k ∷ ks) [] (n ∷ ns) h g = ground (arith, compare_parts_trans ks [] ns)
compare_parts_trans (k ∷ ks) (m ∷ ms) [] h g = ground (arith, compare_parts_trans ks ms [])
compare_parts_trans (k ∷ ks) (m ∷ ms) (n ∷ ns) h g = ground (arith, compare_parts_trans ks ms ns)
