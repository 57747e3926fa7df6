-- ===== src/Store/ClampLaws.antt =====
-- Lemmas on ApplyLifecycle of internal/service/imagesvc/apply_lifecycle.go: how far one call gets.
use mathlib.Core.Path.{subst}
use imgli.Common.{
  ℕ, ◌+◌, ◌-◌, ◌≤◌, ◌≡◌, refl, sym, ◌∙◌, ap, inl, inr, Bool, ◌&&◌, true, false, some, List, [], ◌∷◌,
  String, arith, ◌==◌, leb, take, keep, any, count_of, length, All, Bool-cases, Option-cases, ◌⊎◌,
  if◌then◌else◌,
}
use imgli.Common.Int.{ℤ, pos, leb_ℤ}
use imgli.Common.Outcome.{ok}
use imgli.Table.{find_id, update_id, rows_with}
use imgli.Table.Laws.{map_option, find_id-update, rows_with-update}
use imgli.Table.Conditional.{any-found, update-chosen, chosen_row}
use imgli.Table.Counts.{count-replace, count-keep, count-take, any-take, any-keep}
use imgli.Table.Members.{All-map, All-take, All-both, keep-holds, found_rows}
use imgli.Model.{UserGroup, Image, Time}
use imgli.Access.{group_cap_sec, add_seconds}
use imgli.Store.{Db, image_key, find_image}
use imgli.Store.Trash.{update_images}
use imgli.Store.Lifecycle.{
  Applied, over_cap, clamp_expiry, clamp_one, clamp_each, in_group, to_clamp, apply_to_group,
  apply_lifecycle, batch_of, group_row,
}
use imgli.Store.Invariant.{IsConsistent}
use imgli.Store.TrashLaws.{IsNeutral, update_images-IsConsistent}

module _ {A : Type 0} (p : A → Bool) where
  length-keep : (xs : List A) → length (keep p xs) ≡ count_of p xs
  unfolding keep count_of
  length-keep [] = refl
  length-keep (x ∷ xs) = ground (arith, length-keep xs)

abbrev pub min_of : ℕ → ℕ → ℕ
min_of a b = if leb a b then a else b

length-take : {A : Type 0} (n : ℕ) (xs : List A) → length (take n xs) ≡ min_of n (length xs)
unfolding take
length-take n [] = ground arith
length-take n (x ∷ xs) = ground (arith, length-take (n - 1) xs)

module _ {A : Type 0} (id : A → ℕ) where
  all-apart : (i : ℕ) (xs : List A) → rows_with id i xs ≡ 0 → All (λ x. (id x == i) ≡ false) xs
  unfolding rows_with count_of
  all-apart i [] h = tt
  all-apart i (x ∷ xs) h = (ground arith, all-apart i xs (ground arith))

apart_any :
    (i : ℕ) (xs : List Image) → rows_with image_key i xs ≡ 0 → any (λ x. x.id == i) xs ≡ false
unfolding rows_with count_of any
apart_any i [] h = refl
apart_any i (x ∷ xs) h = ground (arith, apart_any i xs)

clamp_expiry-IsNeutral : (max_at : Time) → IsNeutral (clamp_expiry max_at)
clamp_expiry-IsNeutral max_at = record {
  same_id = λ i. refl;
  same_file = λ i. refl;
  same_user = λ i. refl;
  same_face = λ i. refl;
}

pub clamp_one-IsConsistent :
    (cs : String → ℕ) (max_at : Time) (img : Image) (a : Applied)
    → IsConsistent cs a.db
    → IsConsistent cs (clamp_one max_at img a).db
unfolding clamp_one
clamp_one-IsConsistent cs max_at img a c =
    let p = λ (i : Image). i.id == img.id && over_cap max_at i in
    let kept =
      update_images-IsConsistent cs p (clamp_expiry max_at) (clamp_expiry-IsNeutral max_at) a.db
        c in
    elim (Bool-cases (update_images p (clamp_expiry max_at) a.db).0) [
      | inl e ↦ rw (e, clamp_one) kept
      | inr e ↦ rw (e, clamp_one) kept
    ]

clamp_each-IsConsistent :
    (cs : String → ℕ) (max_at : Time) (imgs : List Image) (a : Applied)
    → IsConsistent cs a.db
    → IsConsistent cs (clamp_each max_at imgs a).db
unfolding clamp_each
clamp_each-IsConsistent cs max_at [] a c = c
clamp_each-IsConsistent cs max_at (img ∷ imgs) a c =
    clamp_each-IsConsistent cs max_at imgs (clamp_one max_at img a)
      (clamp_one-IsConsistent cs max_at img a c)

pub apply_to_group-IsConsistent :
    (cs : String → ℕ) (g : UserGroup) (limit : ℤ) (now : Time) (db : Db)
    → IsConsistent cs db
    → IsConsistent cs (apply_to_group g limit now db).db
unfolding apply_to_group
apply_to_group-IsConsistent cs g limit now db c =
    elim (Bool-cases (leb_ℤ (group_cap_sec (some g)) (pos 0))) [
      | inl e ↦ rw (e, apply_to_group) c
      | inr e ↦
          rw (e, apply_to_group)
            (clamp_each-IsConsistent cs (add_seconds now (group_cap_sec (some g))) _ _ c)
    ]

pub apply_lifecycle-IsConsistent :
    (cs : String → ℕ) (gid : ℕ) (confirm : Bool) (limit : ℤ) (groups : List UserGroup) (now : Time)
    (db : Db) {a : Applied}
    → IsConsistent cs db
    → apply_lifecycle gid confirm limit groups now db ≡ ok a
    → IsConsistent cs a.db
unfolding apply_lifecycle
apply_lifecycle-IsConsistent cs gid confirm limit groups now db {a = a} c h =
    elim (Option-cases (find_id group_row gid groups)) [
      | inl e ↦ absurd (ground arith)
      | inr (g, e) ↦
          let same : apply_to_group g limit now db ≡ a = ground arith in
          subst (λ z. IsConsistent cs z.db) same (apply_to_group-IsConsistent cs g limit now db c)
    ]

module _ (g : UserGroup) (max_at : Time) where
  abbrev waiting : Db → Image → Bool
  waiting db i = to_clamp g max_at db i

  -- The images that a call has read and not reached yet: their rows are as they were read.
  abbrev IsAhead : Db → Image → Type 0
  IsAhead db img = (find_image img.id db ≡ some img) × (waiting db img ≡ true)

  -- One turn: the image's row is clamped, and is counted.
  abbrev clamped : Image → Db → Db
  clamped img db = record db { images = update_id image_key img.id (clamp_expiry max_at) db.images }

  clamp_one-ahead :
      (img : Image) (a : Applied)
      → ((i : ℕ) → rows_with image_key i a.db.images ≤ 1)
      → IsAhead a.db img
      → clamp_one max_at img a ≡ record a { db = clamped img a.db; updated = a.updated + 1 }
  unfolding clamp_one update_images
  clamp_one-ahead img a u h =
      let chosen = any-found image_key img.id (over_cap max_at) a.db.images h.0 (ground arith) in
      rw
        (
          clamp_one,
          chosen,
          update-chosen image_key img.id (over_cap max_at) (clamp_expiry max_at) a.db.images chosen
              (u img.id),
        )
        refl

  clamp_each-counts :
      (imgs : List Image) (a : Applied)
      → ((i : ℕ) → rows_with image_key i a.db.images ≤ 1)
      → ((i : ℕ) → rows_with image_key i imgs ≤ 1)
      → All (IsAhead a.db) imgs
      → ((clamp_each max_at imgs a).updated ≡ a.updated + length imgs)
        × ((clamp_each max_at imgs a).skipped ≡ a.skipped)
        × ((clamp_each max_at imgs a).db.users ≡ a.db.users)
        × (count_of (waiting a.db) (clamp_each max_at imgs a).db.images + length imgs
            ≡ count_of (waiting a.db) a.db.images)
        × ((j : ℕ)
            → find_id image_key j (clamp_each max_at imgs a).db.images ≡ (
                if any (λ i. i.id == j) imgs
                then map_option (clamp_expiry max_at) (find_image j a.db)
                else find_image j a.db))
  unfolding clamp_each any rows_with
  clamp_each-counts [] a u d h = (omega arith, refl, refl, omega arith, λ j. refl)
  clamp_each-counts (img ∷ imgs) a u d h =
      let b : Applied = record a { db = clamped img a.db; updated = a.updated + 1 } in
      let turn : clamp_one max_at img a ≡ b = clamp_one-ahead img a u h.0 in
      let apart = all-apart image_key img.id imgs (ground (arith, d img.id)) in
      let ahead : All (IsAhead b.db) imgs =
        All-map imgs
          (λ x facts. (
            ground (
              arith,
              find_id-update image_key img.id x.id (clamp_expiry max_at) a.db.images (λ i. refl),
            ),
            facts.1.1,
          ))
          (All-both (λ x. (x.id == img.id) ≡ false) (IsAhead a.db) imgs apart h.1) in
      let (updated, skipped, users, counted, found) =
        clamp_each-counts imgs b
          (λ i.
            rw (rows_with-update image_key img.id i (clamp_expiry max_at) a.db.images (λ i. refl))
              (u i))
          (λ i. ground (arith, d i)) ahead in
      rw (clamp_each, turn)
        (
          ground arith,
          skipped,
          users,
          ground (
            arith,
            count-replace image_key (waiting a.db) img.id (clamp_expiry max_at) a.db.images h.0.0
                (u img.id),
          ),
          λ j. ground (
            arith,
            found j,
            find_id-update image_key img.id j (clamp_expiry max_at) a.db.images (λ i. refl),
            apart_any img.id imgs (ground (arith, d img.id)),
          ),
        )

any-keep-apart :
    (p : Image → Bool) (j n : ℕ) (xs : List Image) {i : Image}
    → find_id image_key j xs ≡ some i
    → p i ≡ false
    → ((k : ℕ) → rows_with image_key k xs ≤ 1)
    → any (λ x. x.id == j) (take n (keep p xs)) ≡ false
any-keep-apart p j n xs {i = i} f h u =
    elim (Bool-cases (any (λ x. x.id == j) (take n (keep p xs)))) [
      | inr e ↦ e
      | inl e ↦
          let kept = any-take (λ x. x.id == j) n (keep p xs) e in
          let (y, found, holds) =
            chosen_row image_key j p xs (sym (any-keep image_key p j xs) ∙ kept) (u j) in
          absurd (ground arith)
    ]

-- One call of ApplyLifecycle for a group with a cap sets the expiry of as many of the group's live
-- images past the cap to the cap as it may, all of them if they are no more than its limit, skips
-- none and touches no other image: a row of one of them stands as it was or differs in its expiry
-- alone, which is then the cap. So repeated calls, each of which reaches at least one image while
-- one is left, bring all of them under the cap. The images have the ids that the table gives them.
pub apply_lifecycle-clamps :
    (gid : ℕ) (limit : ℤ) (groups : List UserGroup) (now : Time) (db : Db) (g : UserGroup)
    → ((k : ℕ) → rows_with image_key k db.images ≤ 1)
    → find_id group_row gid groups ≡ some g
    → leb_ℤ (group_cap_sec (some g)) (pos 0) ≡ false
    → (a : Applied) × (apply_lifecycle gid true limit groups now db ≡ ok a)
      × (a.updated
            + count_of (to_clamp g (add_seconds now (group_cap_sec (some g))) a.db) a.db.images
          ≡ count_of (to_clamp g (add_seconds now (group_cap_sec (some g))) db) db.images)
      × (a.updated
          ≡ min_of
              (batch_of limit)
              (count_of (to_clamp g (add_seconds now (group_cap_sec (some g))) db) db.images))
      × (1 ≤ batch_of limit)
      × (a.skipped ≡ 0)
      × ((j : ℕ) (i : Image)
          → find_image j db ≡ some i
          → to_clamp g (add_seconds now (group_cap_sec (some g))) db i ≡ false
          → find_image j a.db ≡ some i)
      × ((j : ℕ) (i : Image)
          → find_image j db ≡ some i
          → (find_image j a.db ≡ some i)
            ⊎ (find_image j a.db
                ≡ some (record i { expires_at = some (add_seconds now (group_cap_sec (some g))) })))
unfolding apply_lifecycle apply_to_group rows_with
apply_lifecycle-clamps gid limit groups now db g u found capped =
    let max_at = add_seconds now (group_cap_sec (some g)) in
    let p = to_clamp g max_at db in
    let imgs = take (batch_of limit) (keep p db.images) in
    let start : Applied = record { updated = 0; skipped = 0; db = db } in
    let there = found_rows image_key p db.images u in
    let ahead =
      All-take _ (batch_of limit) (keep p db.images)
        (All-both _ _ (keep p db.images) there (keep-holds p db.images)) in
    let (updated, skipped, users, counted, rows) =
      clamp_each-counts g max_at imgs start u
        (λ i. ground (
          arith,
          u i,
          count-keep (λ x. x.id == i) p db.images,
          count-take (λ x. x.id == i) (batch_of limit) (keep p db.images),
        ))
        ahead in
    let images = (clamp_each max_at imgs start).db.images in
    let same : count_of (to_clamp g max_at (clamp_each max_at imgs start).db) images
        ≡ count_of p images =
      ap (λ us. count_of (λ i. over_cap max_at i && in_group g us i) images) users in
    (
      clamp_each max_at imgs start,
      rw (found, apply_lifecycle, apply_to_group, capped) refl,
      ground arith,
      ground (arith, length-take (batch_of limit) (keep p db.images), length-keep p db.images),
      ground arith,
      skipped,
      λ j i f h.
          ground (arith, rows j, any-keep-apart p j (batch_of limit) db.images {i = i} f h u),
      λ j i f. elim (Bool-cases (any (λ x. x.id == j) imgs)) [
        | inl t ↦ inr (ground (arith, rows j, t, f))
        | inr t ↦ inl (ground (arith, rows j, t, f))
      ],
    )
