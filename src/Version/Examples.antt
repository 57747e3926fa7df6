-- ===== src/Version/Examples.antt =====
-- Versions as the update check meets them.
use imgli.Common.{◌≡◌, refl, [], ◌∷◌, arith}
use imgli.Version.{Bytes, Sign, less, same, more, compare_parts, compare_semver}
use imgli.Version.Order.{flip_sign, compare_semver-swap, compare_parts_trans}

-- "v1.9" and "1.10"
abbrev one_nine : Bytes
one_nine = 118 ∷ 49 ∷ 46 ∷ 57 ∷ []

abbrev one_ten : Bytes
one_ten = 49 ∷ 46 ∷ 49 ∷ 48 ∷ []

smaller : compare_semver one_nine one_ten ≡ less
unfolding compare_semver imgli.Version.parse_parts imgli.Version.normalize_tag
    imgli.Version.trim_prefix imgli.Version.trim_right imgli.Version.trim_left
    imgli.Version.all_numbers imgli.Version.split_dots imgli.Version.before_suffix
    imgli.Version.atoi imgli.Version.digits compare_parts
smaller = refl

compare_semver-swap_example :
    compare_semver one_ten one_nine ≡ flip_sign (compare_semver one_nine one_ten)
compare_semver-swap_example = compare_semver-swap one_nine one_ten

parts_smaller : compare_parts (1 ∷ 9 ∷ []) (1 ∷ 10 ∷ []) ≡ less
unfolding compare_parts
parts_smaller = refl

parts_not_more : compare_parts (1 ∷ 10 ∷ []) (1 ∷ 10 ∷ 0 ∷ []) ≡ more → ⊥
unfolding compare_parts
parts_not_more h = ground arith

compare_parts_trans_example : compare_parts (1 ∷ 9 ∷ []) (1 ∷ 10 ∷ 0 ∷ []) ≡ less
compare_parts_trans_example =
    compare_parts_trans (1 ∷ 9 ∷ []) (1 ∷ 10 ∷ []) (1 ∷ 10 ∷ 0 ∷ []) parts_smaller parts_not_more
