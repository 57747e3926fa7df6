-- ===== src/Table/Counts.antt =====
-- Lemmas on how many rows meet a condition, as the unique indexes and the counters need them.
use imgli.Common.{
  take, ◌&&◌, ◌-◌, ℕ, ◌+◌, ◌≤◌, ◌≡◌, refl, sym, ◌∙◌, Option-cases, none, Bool, true, false, some,
  List, [], ◌∷◌, arith, ◌==◌, keep, any, first, update_where, count_of, if◌then◌else◌, Bool-cases,
  inl, inr,
}
use imgli.Table.{insert, update_id, find_id, rows_with}

module _ {A : Type 0} (p : A → Bool) where
  pub count-insert :
      (id : A → ℕ) (x : A) (xs : List A)
      → count_of p (insert id x xs) ≡ count_of p xs + (if p x then 1 else 0)
  unfolding count_of insert
  count-insert id x [] = ground arith
  count-insert id x (y ∷ xs) = ground (arith, count-insert id x xs)

  pub count-none : (xs : List A) → any p xs ≡ false → count_of p xs ≡ 0
  unfolding count_of any
  count-none [] h = refl
  count-none (x ∷ xs) h = ground (arith, count-none xs)

  pub count-some : (xs : List A) → any p xs ≡ true → 1 ≤ count_of p xs
  unfolding count_of any
  count-some [] h = absurd (ground arith)
  count-some (x ∷ xs) h = ground (arith, count-some xs)

  pub none-count : (xs : List A) → count_of p xs ≡ 0 → any p xs ≡ false
  unfolding count_of any
  none-count [] h = refl
  none-count (x ∷ xs) h = ground (arith, none-count xs)

  pub count-keep : (q : A → Bool) (xs : List A) → count_of p (keep q xs) ≤ count_of p xs
  unfolding count_of keep
  count-keep q [] = ground arith
  count-keep q (x ∷ xs) = ground (arith, count-keep q xs)

  -- Deleting rows that do not meet the condition.
  pub count-keep-same :
      (q : A → Bool) (xs : List A)
      → ((x : A) → q x ≡ false → p x ≡ false)
      → count_of p (keep q xs) ≡ count_of p xs
  unfolding count_of keep
  count-keep-same q [] h = refl
  count-keep-same q (x ∷ xs) h = ground (arith, h x, count-keep-same q xs h)

  module _ (q : A → Bool) (f : A → A) where
    pub count-update_where :
        (xs : List A)
        → ((x : A) → q x ≡ true → p (f x) ≡ p x)
        → count_of p (update_where q f xs) ≡ count_of p xs
    unfolding count_of update_where
    count-update_where [] h = refl
    count-update_where (x ∷ xs) h = ground (arith, h x, count-update_where xs h)

    pub count-update_where-le :
        (xs : List A)
        → ((x : A) → q x ≡ true → p (f x) ≡ true → p x ≡ true)
        → count_of p (update_where q f xs) ≤ count_of p xs
    unfolding count_of update_where
    count-update_where-le [] h = ground arith
    count-update_where-le (x ∷ xs) h = ground (arith, h x, count-update_where-le xs h)

    -- An update of every row that meets the condition, after which none does.
    pub count-update_where-none :
        (xs : List A)
        → ((x : A) → p x ≡ true → q x ≡ true)
        → ((x : A) → q x ≡ true → p (f x) ≡ false)
        → count_of p (update_where q f xs) ≡ 0
    unfolding count_of update_where
    count-update_where-none [] h k = refl
    count-update_where-none (x ∷ xs) h k = ground (arith, h x, k x, count-update_where-none xs h k)

module _ {A : Type 0} (id : A → ℕ) (p : A → Bool) where
  update_id-absent :
      (i : ℕ) (f : A → A) (xs : List A) → rows_with id i xs ≡ 0 → update_id id i f xs ≡ xs
  unfolding rows_with update_id
  update_id-absent i f [] h = refl
  update_id-absent i f (x ∷ xs) h = ground (arith, update_id-absent i f xs)

  -- A change of one row counts for that row.
  pub count-replace :
      (i : ℕ) (f : A → A) (xs : List A) {x : A}
      → find_id id i xs ≡ some x
      → rows_with id i xs ≤ 1
      → count_of p (update_id id i f xs) + (if p x then 1 else 0)
        ≡ count_of p xs + (if p (f x) then 1 else 0)
  unfolding find_id rows_with update_id count_of
  count-replace i f [] h u = absurd (ground arith)
  count-replace i f (y ∷ xs) {x = x} h u =
      ground (arith, count-replace i f xs {x = x}, update_id-absent i f xs)

  pub count-update_id :
      (i : ℕ) (f : A → A) (xs : List A)
      → ((x : A) → p (f x) ≡ p x)
      → count_of p (update_id id i f xs) ≡ count_of p xs
  unfolding update_id count_of
  count-update_id i f [] h = refl
  count-update_id i f (x ∷ xs) h = ground (arith, h x, count-update_id i f xs h)

  pub found-counts :
      (xs : List A) {x : A} → find_id id (id x) xs ≡ some x → p x ≡ true → 1 ≤ count_of p xs
  unfolding find_id count_of
  found-counts [] f e = absurd (ground arith)
  found-counts (z ∷ xs) {x = x} f e = ground (arith, found-counts xs {x = x})

  -- A row that meets a condition that one row at most meets is the one that the query finds.
  pub first-only :
      (xs : List A) {x y : A}
      → first p xs ≡ some x
      → find_id id (id y) xs ≡ some y
      → p y ≡ true
      → count_of p xs ≤ 1
      → x ≡ y
  unfolding first find_id count_of
  first-only [] h f e c = absurd (ground arith)
  first-only (z ∷ xs) {x = x} {y = y} h f e c = elim (Bool-cases (p z)) [
    | inl t ↦ elim (Bool-cases (id z == id y)) [
      | inl s ↦ ground arith
      | inr s ↦ absurd (ground (arith, found-counts xs {x = y}))
    ]
    | inr t ↦ elim (Bool-cases (id z == id y)) [
      | inl s ↦ absurd (ground arith)
      | inr s ↦ first-only xs (ground arith) (ground arith) e (ground arith)
    ]
  ]

  first-none :
      (xs : List A) {y : A} → first p xs ≡ none → find_id id (id y) xs ≡ some y → p y ≡ false
  unfolding first find_id
  first-none [] f e = absurd (ground arith)
  first-none (z ∷ xs) {y = y} f e = ground (arith, first-none xs {y = y})

  -- Two rows that meet a condition that one row at most meets are one row.
  pub only_one :
      (xs : List A) {x y : A}
      → find_id id (id x) xs ≡ some x
      → find_id id (id y) xs ≡ some y
      → p x ≡ true
      → p y ≡ true
      → count_of p xs ≤ 1
      → x ≡ y
  only_one xs {x = x} {y = y} fx fy px py c = elim (Option-cases (first p xs)) [
    | inl e ↦ absurd (ground (arith, first-none xs {y = x} e fx))
    | inr (z, e) ↦ sym (first-only xs e fx px c) ∙ first-only xs e fy py c
  ]

module _ {A : Type 0} (p : A → Bool) (g : A → A) where
  pub find_id-updated :
      (id : A → ℕ) (j : ℕ) (xs : List A) {y : A}
      → ((x : A) → id (g x) ≡ id x)
      → find_id id j xs ≡ some y
      → find_id id j (update_where p g xs) ≡ some (if p y then g y else y)
  unfolding update_where find_id
  find_id-updated id j [] h e = absurd (ground arith)
  find_id-updated id j (x ∷ xs) {y = y} h e = ground (arith, h x, find_id-updated id j xs {y = y} h)

  pub any-first : (xs : List A) → any p xs ≡ true → (x : A) × (first p xs ≡ some x)
  unfolding any first
  any-first [] h = absurd (ground arith)
  any-first (x ∷ xs) h = elim (Bool-cases (p x)) [
    | inl e ↦ (x, ground arith)
    | inr e ↦ let (y, f) = any-first xs (ground arith) in (y, ground arith)
  ]

module _ {A : Type 0} (id : A → ℕ) (p : A → Bool) where
  pub any-keep :
      (j : ℕ) (ys : List A) → any (λ x. id x == j) (keep p ys) ≡ any (λ x. id x == j && p x) ys
  unfolding any keep
  any-keep j [] = refl
  any-keep j (y ∷ ys) = ground (arith, any-keep j ys)

module _ {A : Type 0} (p : A → Bool) where
  pub any-take : (n : ℕ) (xs : List A) → any p (take n xs) ≡ true → any p xs ≡ true
  unfolding any take
  any-take n [] h = h
  any-take n (x ∷ xs) h = ground (arith, any-take (n - 1) xs)

  pub count-take : (n : ℕ) (xs : List A) → count_of p (take n xs) ≤ count_of p xs
  unfolding take count_of
  count-take n [] = ground arith
  count-take n (x ∷ xs) = ground (arith, count-take (n - 1) xs)
