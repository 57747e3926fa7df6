-- ===== src/Table.antt =====
-- Database tables, as the model's stand-in for the SQL statements that the source issues: a table is
-- the list of its rows in the order of their ids. `find_id` is `First(&row, id)`, `update_id` is
-- `UPDATE … WHERE id = ?`, `delete_id` is `DELETE … WHERE id = ?`, `insert` is `Create`.
pub mod Laws
pub mod Conditional
pub mod Members
pub mod Counts
use imgli.Common.{
  ℕ, ◌+◌, ◌≤◌, ◌≡◌, Bool, not, Option, List, [], ◌∷◌, ◌++◌, ◌==◌, first, keep, update_where,
  count_of,
}

module _ {ℓ} {A : Type ℓ} (id : A → ℕ) where
  unfoldable pub find_id : ℕ → List A → Option A
  unfolding first
  find_id i xs = first (λ x. id x == i) xs

  unfoldable pub update_id : ℕ → (A → A) → List A → List A
  unfolding update_where
  update_id i f xs = update_where (λ x. id x == i) f xs

  unfoldable pub delete_id : ℕ → List A → List A
  unfolding keep
  delete_id i xs = keep (λ x. not (id x == i)) xs

  unfoldable pub insert : A → List A → List A
  insert x xs = xs ++ x ∷ []

  -- How many rows have the id.
  unfoldable pub rows_with : ℕ → List A → ℕ
  unfolding count_of
  rows_with i xs = count_of (λ x. id x == i) xs

  -- The primary key: no id occurs twice, and none at or above the next one occurs.
  pub record IsKeyed (next : ℕ) (xs : List A) : Type 0 where
    pub unique : (i : ℕ) → rows_with i xs ≤ 1
    pub fresh : (i : ℕ) → next ≤ i → rows_with i xs ≡ 0
