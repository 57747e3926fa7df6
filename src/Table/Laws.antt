-- ===== src/Table/Laws.antt =====
-- What the table statements do to lookups, to sums over the rows, and to the primary key.
use imgli.Common.{
  ℕ, ◌+◌, ◌≤◌, ◌≡◌, refl, Option, none, some, List, [], ◌∷◌, arith, ◌==◌, if◌then◌else◌, sum_of,
}
use imgli.Table.{find_id, update_id, delete_id, insert, rows_with, IsKeyed}

abbrev pub map_option {ℓ} : {A : Type ℓ} → (A → A) → Option A → Option A
map_option f none = none
map_option f (some x) = some (f x)

module _ {ℓ} {A : Type ℓ} (id : A → ℕ) where
  pub find_id-found : (i : ℕ) (xs : List A) {x : A} → find_id id i xs ≡ some x → id x ≡ i
  unfolding find_id
  find_id-found i [] h = absurd (ground arith)
  find_id-found i (y ∷ xs) {x = x} h = ground (arith, find_id-found i xs {x = x})

  pub find_id-update :
      (i j : ℕ) (f : A → A) (xs : List A)
      → ((x : A) → id (f x) ≡ id x)
      → find_id id j (update_id id i f xs)
        ≡ (if i == j then map_option f (find_id id j xs) else find_id id j xs)
  unfolding find_id update_id
  find_id-update i j f [] h = ground arith
  find_id-update i j f (x ∷ xs) h = ground (arith, h x, find_id-update i j f xs h)

  pub find_id-delete :
      (i j : ℕ) (xs : List A)
      → find_id id j (delete_id id i xs) ≡ (if i == j then none else find_id id j xs)
  unfolding find_id delete_id
  find_id-delete i j [] = ground arith
  find_id-delete i j (x ∷ xs) = ground (arith, find_id-delete i j xs)

  abbrev or_else : Option A → Option A → Option A
  or_else none o = o
  or_else (some x) o = some x

  pub find_id-insert :
      (j : ℕ) (x : A) (xs : List A)
      → rows_with id (id x) xs ≡ 0
      → find_id id j (insert id x xs) ≡ (if id x == j then some x else find_id id j xs)
  unfolding find_id insert rows_with
  find_id-insert j x [] h = ground arith
  find_id-insert j x (y ∷ xs) h = ground (arith, find_id-insert j x xs)

  pub rows_with-update :
      (i j : ℕ) (f : A → A) (xs : List A)
      → ((x : A) → id (f x) ≡ id x)
      → rows_with id j (update_id id i f xs) ≡ rows_with id j xs
  unfolding rows_with update_id
  rows_with-update i j f [] h = refl
  rows_with-update i j f (x ∷ xs) h = ground (arith, h x, rows_with-update i j f xs h)

  pub rows_with-delete :
      (i j : ℕ) (xs : List A)
      → rows_with id j (delete_id id i xs) ≡ (if i == j then 0 else rows_with id j xs)
  unfolding rows_with delete_id
  rows_with-delete i j [] = ground arith
  rows_with-delete i j (x ∷ xs) = ground (arith, rows_with-delete i j xs)

  pub rows_with-insert :
      (j : ℕ) (x : A) (xs : List A)
      → rows_with id j (insert id x xs) ≡ rows_with id j xs + (if id x == j then 1 else 0)
  unfolding rows_with insert
  rows_with-insert j x [] = ground arith
  rows_with-insert j x (y ∷ xs) = ground (arith, rows_with-insert j x xs)

  pub find_id-rows : (i : ℕ) (xs : List A) → (find_id id i xs ≡ none) → rows_with id i xs ≡ 0
  unfolding find_id rows_with
  find_id-rows i [] h = refl
  find_id-rows i (x ∷ xs) h = ground (arith, find_id-rows i xs)

  pub find_id-absent : (i : ℕ) (xs : List A) → rows_with id i xs ≡ 0 → find_id id i xs ≡ none
  unfolding find_id rows_with
  find_id-absent i [] h = refl
  find_id-absent i (x ∷ xs) h = ground (arith, find_id-absent i xs)

  pub delete_id-absent : (i : ℕ) (xs : List A) → rows_with id i xs ≡ 0 → delete_id id i xs ≡ xs
  unfolding delete_id rows_with
  delete_id-absent i [] h = refl
  delete_id-absent i (x ∷ xs) h = ground (arith, delete_id-absent i xs)

  -- Deleting a row takes its share out of every sum over the table.
  pub sum-delete :
      (f : A → ℕ) (i : ℕ) (xs : List A) {x : A}
      → find_id id i xs ≡ some x
      → rows_with id i xs ≤ 1
      → sum_of f (delete_id id i xs) + f x ≡ sum_of f xs
  unfolding find_id rows_with delete_id sum_of
  sum-delete f i [] h u = absurd (ground arith)
  sum-delete f i (y ∷ xs) {x = x} h u =
      ground (arith, sum-delete f i xs {x = x}, delete_id-absent i xs)

  pub sum-insert : (f : A → ℕ) (x : A) (xs : List A) → sum_of f (insert id x xs) ≡ sum_of f xs + f x
  unfolding insert sum_of
  sum-insert f x [] = omega arith
  sum-insert f x (y ∷ xs) = omega (arith, sum-insert f x xs)

  -- An update that no row feels in a sum leaves the sum.
  pub sum-update :
      (f : A → ℕ) (i : ℕ) (g : A → A) (xs : List A)
      → ((x : A) → f (g x) ≡ f x)
      → sum_of f (update_id id i g xs) ≡ sum_of f xs
  unfolding update_id sum_of
  sum-update f i g [] h = refl
  sum-update f i g (x ∷ xs) h = ground (arith, h x, sum-update f i g xs h)

  pub IsKeyed-update :
      (next i : ℕ) (f : A → A) (xs : List A)
      → ((x : A) → id (f x) ≡ id x)
      → IsKeyed id next xs
      → IsKeyed id next (update_id id i f xs)
  IsKeyed-update next i f xs h k = record {
    unique = λ j. rw (rows_with-update i j f xs h) (k.unique j);
    fresh = λ j le. rw (rows_with-update i j f xs h) (k.fresh j le);
  }

  pub IsKeyed-delete :
      (next i : ℕ) (xs : List A) → IsKeyed id next xs → IsKeyed id next (delete_id id i xs)
  IsKeyed-delete next i xs k = record {
    unique = λ j. ground (arith, rows_with-delete i j xs, k.unique j);
    fresh = λ j le. ground (arith, rows_with-delete i j xs, k.fresh j le);
  }

  pub IsKeyed-insert :
      (next : ℕ) (x : A) (xs : List A)
      → id x ≡ next
      → IsKeyed id next xs
      → IsKeyed id (next + 1) (insert id x xs)
  IsKeyed-insert next x xs e k = record {
    unique = λ j. ground (arith, rows_with-insert j x xs, k.unique j, k.fresh j);
    fresh = λ j le. ground (arith, rows_with-insert j x xs, k.fresh j);
  }
