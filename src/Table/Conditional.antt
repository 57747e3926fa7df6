-- ===== src/Table/Conditional.antt =====
-- Lemmas on conditional statements, `WHERE id = ? AND q`, on a keyed table.
use imgli.Common.{
  ℕ, ◌+◌, ◌≤◌, ◌≡◌, refl, Bool, true, false, not, ◌&&◌, some, List, [], ◌∷◌, arith, ◌==◌,
  Bool-cases, inl, inr, ◌⊎◌, keep, any, first, update_where, sum_of,
}
use imgli.Table.{find_id, update_id, delete_id, rows_with}

module _ {A : Type 0} (id : A → ℕ) (i : ℕ) (q : A → Bool) where
  pub any-absent : (xs : List A) → rows_with id i xs ≡ 0 → any (λ x. id x == i && q x) xs ≡ false
  unfolding any rows_with
  any-absent [] h = refl
  any-absent (x ∷ xs) h = ground (arith, any-absent xs)

  pub chosen_row :
      (xs : List A)
      → any (λ x. id x == i && q x) xs ≡ true
      → rows_with id i xs ≤ 1
      → (x : A) × (find_id id i xs ≡ some x) × (q x ≡ true)
  unfolding any find_id rows_with
  chosen_row [] h u = absurd (ground arith)
  chosen_row (x ∷ xs) h u = elim (Bool-cases (id x == i)) [
    | inl e ↦ (x, ground arith, ground (arith, any-absent xs))
    | inr e ↦
        let (y, found, holds) = chosen_row xs (ground arith) (ground arith) in
        (y, ground arith, holds)
  ]

  pub any-found :
      (xs : List A) {x : A}
      → find_id id i xs ≡ some x
      → q x ≡ true
      → any (λ x. id x == i && q x) xs ≡ true
  unfolding any find_id
  any-found [] f h = absurd (ground arith)
  any-found (y ∷ xs) {x = x} f h = ground (arith, any-found xs {x = x})

  keep-absent : (xs : List A) → rows_with id i xs ≡ 0 → keep (λ x. not (id x == i && q x)) xs ≡ xs
  unfolding keep rows_with
  keep-absent [] h = refl
  keep-absent (x ∷ xs) h = ground (arith, keep-absent xs)

  delete-absent : (xs : List A) → rows_with id i xs ≡ 0 → delete_id id i xs ≡ xs
  unfolding delete_id rows_with
  delete-absent [] h = refl
  delete-absent (x ∷ xs) h = ground (arith, delete-absent xs)

  pub keep-chosen :
      (xs : List A)
      → any (λ x. id x == i && q x) xs ≡ true
      → rows_with id i xs ≤ 1
      → keep (λ x. not (id x == i && q x)) xs ≡ delete_id id i xs
  unfolding any keep delete_id rows_with
  keep-chosen [] h u = absurd (ground arith)
  keep-chosen (x ∷ xs) h u =
      ground (arith, keep-chosen xs, any-absent xs, keep-absent xs, delete-absent xs)

  pub not_chosen :
      (xs : List A) {x : A}
      → any (λ x. id x == i && q x) xs ≡ false
      → find_id id i xs ≡ some x
      → q x ≡ false
  unfolding any find_id
  not_chosen [] h f = absurd (ground arith)
  not_chosen (y ∷ xs) {x = x} h f = ground (arith, not_chosen xs {x = x})

  pub update-absent :
      (g : A → A) (xs : List A)
      → rows_with id i xs ≡ 0
      → (update_where (λ x. id x == i && q x) g xs ≡ xs) × (update_id id i g xs ≡ xs)
  unfolding update_where update_id rows_with
  update-absent g [] h = (refl, refl)
  update-absent g (x ∷ xs) h =
      (ground (arith, update-absent g xs), ground (arith, update-absent g xs))

  pub update-chosen :
      (g : A → A) (xs : List A)
      → any (λ x. id x == i && q x) xs ≡ true
      → rows_with id i xs ≤ 1
      → update_where (λ x. id x == i && q x) g xs ≡ update_id id i g xs
  unfolding any update_where update_id rows_with
  update-chosen g [] h u = absurd (ground arith)
  update-chosen g (x ∷ xs) h u =
      ground (arith, update-chosen g xs, any-absent xs, update-absent g xs)

module _ {ℓ} {A : Type ℓ} (id : A → ℕ) where
  update_id-absent :
      (i : ℕ) (g : A → A) (xs : List A) → rows_with id i xs ≡ 0 → update_id id i g xs ≡ xs
  unfolding update_id rows_with
  update_id-absent i g [] h = refl
  update_id-absent i g (x ∷ xs) h = ground (arith, update_id-absent i g xs)

  -- Changing one row changes a sum by that row's share.
  pub sum-replace :
      (f : A → ℕ) (i : ℕ) (g : A → A) (xs : List A) {x : A}
      → find_id id i xs ≡ some x
      → rows_with id i xs ≤ 1
      → sum_of f (update_id id i g xs) + f x ≡ sum_of f xs + f (g x)
  unfolding find_id rows_with update_id sum_of
  sum-replace f i g [] h u = absurd (ground arith)
  sum-replace f i g (y ∷ xs) {x = x} h u =
      ground (arith, sum-replace f i g xs {x = x}, update_id-absent i g xs)

module _ {ℓ} {A : Type ℓ} (p : A → Bool) (g : A → A) where
  -- A statement that finds no row changes nothing.
  pub update_where-none : (xs : List A) → any p xs ≡ false → update_where p g xs ≡ xs
  unfolding any update_where
  update_where-none [] h = refl
  update_where-none (x ∷ xs) h = ground (arith, update_where-none xs)

  pub sum-update_where :
      (f : A → ℕ) (xs : List A)
      → ((x : A) → f (g x) ≡ f x)
      → sum_of f (update_where p g xs) ≡ sum_of f xs
  unfolding update_where sum_of
  sum-update_where f [] h = refl
  sum-update_where f (x ∷ xs) h = ground (arith, h x, sum-update_where f xs h)

  pub rows_with-update_where :
      (id : A → ℕ) (j : ℕ) (xs : List A)
      → ((x : A) → id (g x) ≡ id x)
      → rows_with id j (update_where p g xs) ≡ rows_with id j xs
  unfolding update_where rows_with
  rows_with-update_where id j [] h = refl
  rows_with-update_where id j (x ∷ xs) h = ground (arith, h x, rows_with-update_where id j xs h)

  -- A row after an update is the row before it, or that row changed.
  pub find_id-update_where :
      (id : A → ℕ) (j : ℕ) (xs : List A) {x : A}
      → ((x : A) → id (g x) ≡ id x)
      → find_id id j (update_where p g xs) ≡ some x
      → (y : A) × (find_id id j xs ≡ some y) × ((x ≡ y) ⊎ (x ≡ g y))
  unfolding update_where find_id
  find_id-update_where id j [] h e = absurd (ground arith)
  find_id-update_where id j (y ∷ xs) {x = x} h e = elim (Bool-cases (id y == j)) [
    | inl t ↦ (y, ground arith, ground (arith, h y))
    | inr f ↦
        let (z, found, same) = find_id-update_where id j xs {x = x} h (ground (arith, h y)) in
        (z, ground arith, same)
  ]

module _ {ℓ} {A : Type ℓ} (id : A → ℕ) (p : A → Bool) where
  first-rows : (xs : List A) {x : A} → first p xs ≡ some x → 1 ≤ rows_with id (id x) xs
  unfolding first rows_with
  first-rows [] h = absurd (ground arith)
  first-rows (y ∷ xs) {x = x} h = ground (arith, first-rows xs {x = x})

  -- The row that a query finds meets its condition, and is the row of its id.
  pub first-found :
      (xs : List A) {x : A}
      → first p xs ≡ some x
      → ((i : ℕ) → rows_with id i xs ≤ 1)
      → (p x ≡ true) × (find_id id (id x) xs ≡ some x)
  unfolding first find_id rows_with
  first-found [] h u = absurd (ground arith)
  first-found (y ∷ xs) {x = x} h u = elim (Bool-cases (p y)) [
    | inl e ↦ (ground arith, ground arith)
    | inr e ↦
        let later : first p xs ≡ some x = ground arith in
        let (holds, found) = first-found xs later (λ i. ground (arith, u i)) in
        (holds, ground (arith, first-rows xs later, u (id x)))
  ]
