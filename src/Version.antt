-- ===== src/Version.antt =====
-- The comparison of versions: internal/version/compare.go. A string is the list of its bytes.
pub mod Order
pub mod Examples
use imgli.Common.{
  ℕ, zero, suc, ◌+◌, ◌-◌, ◌*◌, ◌^◌, Bool, true, false, ◌&&◌, ◌||◌, Option, none, some, List, [],
  ◌∷◌, leb, ltb, if◌then◌else◌, ◌==◌, any,
}

abbrev pub Bytes : Type 0
Bytes = List ℕ

-- The results -1, 0 and 1.
pub data Sign : Type 0 where
  less same more : Sign

-- One leading byte is dropped where it is there: strings.TrimPrefix.
unfoldable pub trim_prefix : ℕ → Bytes → Bytes
trim_prefix c [] = []
trim_prefix c (b ∷ bytes) = if b == c then bytes else b ∷ bytes

abbrev pub is_space : ℕ → Bool
is_space b = (leb 9 b && leb b 13) || b == 32

unfoldable pub trim_left : Bytes → Bytes
trim_left [] = []
trim_left (b ∷ bytes) = let rest = trim_left bytes in if is_space b then rest else b ∷ bytes

unfoldable pub trim_right : Bytes → Bytes
trim_right [] = []
trim_right (b ∷ bytes) = elim (trim_right bytes) [
  | [] ↦ if is_space b then [] else b ∷ []
  | c ∷ cs ↦ b ∷ c ∷ cs
]

-- NormalizeTag: strings.TrimSpace (of ASCII spaces), then "v" (118), then "V" (86).
unfoldable pub normalize_tag : Bytes → Bytes
normalize_tag s = trim_prefix 86 (trim_prefix 118 (trim_right (trim_left s)))

-- What stands before the first "-" (45) or "+" (43).
unfoldable pub before_suffix : Bytes → Bytes
before_suffix [] = []
before_suffix (b ∷ bytes) =
    let rest = before_suffix bytes in if b == 45 || b == 43 then [] else b ∷ rest

-- strconv.Atoi of bytes without a sign: digits only, one at least, and within an int64.
unfoldable pub digits : ℕ → Bytes → Option ℕ
digits acc [] = some acc
digits acc (b ∷ bytes) =
    let rest = digits (acc * 10 + (b - 48)) bytes in if leb 48 b && leb b 57 then rest else none

unfoldable pub atoi : Bytes → Option ℕ
atoi [] = none
atoi (b ∷ bytes) = elim (digits 0 (b ∷ bytes)) [
  | none ↦ none
  | some n ↦ if ltb n (2 ^ 63) then some n else none
]

abbrev pub grow : ℕ → List Bytes → List Bytes
grow b [] = (b ∷ []) ∷ []
grow b (seg ∷ segs) = (b ∷ seg) ∷ segs

-- strings.Split at "." (46)
unfoldable pub split_dots : Bytes → List Bytes
split_dots [] = [] ∷ []
split_dots (b ∷ bytes) = let rest = split_dots bytes in if b == 46 then [] ∷ rest else grow b rest

unfoldable pub all_numbers : List Bytes → Option (List ℕ)
all_numbers [] = some []
all_numbers (seg ∷ segs) = elim (atoi seg) [
  | none ↦ none
  | some n ↦ elim (all_numbers segs) [ none ↦ none | some ns ↦ some (n ∷ ns) ]
]

abbrev pub is_dev : Bytes → Bool
is_dev (b ∷ c ∷ d ∷ []) = b == 100 && c == 101 && d == 118
is_dev _ = false

-- parseParts: `none` for nil.
unfoldable pub parse_parts : Bytes → Option (List ℕ)
parse_parts [] = none
parse_parts (b ∷ bytes) =
    if is_dev (b ∷ bytes) then none else all_numbers (split_dots (before_suffix (b ∷ bytes)))

abbrev pub compare_numbers : ℕ → ℕ → Sign → Sign
compare_numbers a b rest = if ltb a b then less else if ltb b a then more else rest

-- The loop of CompareSemver: a missing part counts ks 0.
unfoldable pub compare_parts : List ℕ → List ℕ → Sign
compare_parts [] [] = same
compare_parts (a ∷ ks) [] = compare_numbers a 0 (compare_parts ks [])
compare_parts [] (b ∷ bs) = compare_numbers 0 b (compare_parts [] bs)
compare_parts (a ∷ ks) (b ∷ bs) = compare_numbers a b (compare_parts ks bs)

-- strings.Compare
unfoldable pub compare_bytes : Bytes → Bytes → Sign
compare_bytes [] [] = same
compare_bytes (a ∷ ks) [] = more
compare_bytes [] (b ∷ bs) = less
compare_bytes (a ∷ ks) (b ∷ bs) = compare_numbers a b (compare_bytes ks bs)

abbrev choose : Option (List ℕ) → Option (List ℕ) → Sign → Sign
choose (some ks) (some bs) otherwise = compare_parts ks bs
choose _ _ otherwise = otherwise

-- CompareSemver
unfoldable pub compare_semver : Bytes → Bytes → Sign
compare_semver a b =
    choose (parse_parts (normalize_tag a)) (parse_parts (normalize_tag b))
      (compare_bytes (normalize_tag a) (normalize_tag b))
