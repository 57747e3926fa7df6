-- ===== src/Table/Members.antt =====
-- Lemmas on the rows that a query returns, and on predicates that all rows meet.
use imgli.Common.{
  take, leb, ◌-◌, ℕ, ◌≤◌, ◌≡◌, Bool, true, some, List, [], ◌∷◌, arith, ◌==◌, keep, All, first,
  update_where, Bool-cases, inl, inr, ◌&&◌,
}
use mathlib.Core.List.{Memᴰ}
use mathlib.Core.List.Memᴰ.{head, tail}
use imgli.Table.Conditional.{update-absent}
use imgli.Table.{find_id, insert, rows_with}

module _ {ℓ κ} {A : Type ℓ} (P : A → Type κ) where
  pub All-keep : (p : A → Bool) (xs : List A) → All P xs → All P (keep p xs)
  unfolding keep
  All-keep p [] h = tt
  All-keep p (x ∷ xs) h = elim (Bool-cases (p x)) [
    | inl e ↦ rw e (h.0, All-keep p xs h.1)
    | inr e ↦ rw e (All-keep p xs h.1)
  ]

  pub All-take : (n : ℕ) (xs : List A) → All P xs → All P (take n xs)
  unfolding take
  All-take n [] h = tt
  All-take n (x ∷ xs) h = elim (Bool-cases (leb n 0)) [
    | inl e ↦ rw e tt
    | inr e ↦ rw e (h.0, All-take (n - 1) xs h.1)
  ]

  pub All-member : (xs : List A) {x : A} → All P xs → Memᴰ x xs → P x
  All-member [] h m = elim m [ ]
  All-member (x ∷ xs) h (head e) = rw e h.0
  All-member (x ∷ xs) h (tail m) = All-member xs h.1 m

  pub All-insert : (id : A → ℕ) (x : A) (xs : List A) → All P xs → P x → All P (insert id x xs)
  unfolding insert
  All-insert id x [] h p = (p, tt)
  All-insert id x (y ∷ xs) h p = (h.0, All-insert id x xs h.1 p)

  pub All-update_where :
      (p : A → Bool) (f : A → A) (xs : List A)
      → ((x : A) → p x ≡ true → P x → P (f x))
      → All P xs
      → All P (update_where p f xs)
  unfolding update_where
  All-update_where p f [] k h = tt
  All-update_where p f (x ∷ xs) k h = elim (Bool-cases (p x)) [
    | inl e ↦ rw e (k x e h.0, All-update_where p f xs k h.1)
    | inr e ↦ rw e (h.0, All-update_where p f xs k h.1)
  ]

  pub All-first :
      (p : A → Bool) (xs : List A) {x : A} → All P xs → first p xs ≡ some x → (p x ≡ true) × P x
  unfolding first
  All-first p [] h e = absurd (ground arith)
  All-first p (y ∷ xs) {x = x} h e = elim (Bool-cases (p y)) [
    | inl t ↦ let same : y ≡ x = ground arith in (rw same at t, rw same at h.0)
    | inr t ↦ All-first p xs h.1 (ground arith)
  ]

module _ {ℓ κ ι} {A : Type ℓ} {P : A → Type κ} {Q : A → Type ι} where
  pub All-map : (xs : List A) → ((x : A) → P x → Q x) → All P xs → All Q xs
  All-map [] f h = tt
  All-map (x ∷ xs) f h = (f x h.0, All-map xs f h.1)

module _ {ℓ κ ι} {A : Type ℓ} (P : A → Type κ) (Q : A → Type ι) where
  pub All-both : (xs : List A) → All P xs → All Q xs → All (λ x. P x × Q x) xs
  All-both [] h k = tt
  All-both (x ∷ xs) h k = ((h.0, k.0), All-both xs h.1 k.1)

module _ {ℓ} {A : Type ℓ} (p : A → Bool) where
  pub keep-holds : (xs : List A) → All (λ x. p x ≡ true) (keep p xs)
  unfolding keep
  keep-holds [] = tt
  keep-holds (x ∷ xs) = elim (Bool-cases (p x)) [
    | inl e ↦ rw e (e, keep-holds xs)
    | inr e ↦ rw e (keep-holds xs)
  ]

module _ {ℓ} {A : Type ℓ} (id : A → ℕ) where
  -- Each member is found, and counted under its id.
  abbrev IsRow : List A → A → Type ℓ
  IsRow xs x = (find_id id (id x) xs ≡ some x) × (1 ≤ rows_with id (id x) xs)

  IsRow-cons :
      (y : A) (xs : List A) (x : A)
      → ((i : ℕ) → rows_with id i (y ∷ xs) ≤ 1)
      → IsRow xs x
      → IsRow (y ∷ xs) x
  unfolding find_id rows_with
  IsRow-cons y xs x u h = elim (Bool-cases (id y == id x)) [
    | inl e ↦ absurd (ground (arith, u (id x)))
    | inr e ↦ (ground arith, ground arith)
  ]

  rows : (xs : List A) → ((i : ℕ) → rows_with id i xs ≤ 1) → All (IsRow xs) xs
  unfolding find_id rows_with
  rows [] u = tt
  rows (y ∷ xs) u = (
    (ground arith, ground arith),
    All-map xs (λ x. IsRow-cons y xs x u) (rows xs (λ i. ground (arith, u i))),
  )

  pub found_rows :
      (p : A → Bool) (xs : List A)
      → ((i : ℕ) → rows_with id i xs ≤ 1)
      → All (λ x. find_id id (id x) xs ≡ some x) (keep p xs)
  found_rows p xs u =
      All-keep (λ x. find_id id (id x) xs ≡ some x) p xs (All-map xs (λ x h. h.0) (rows xs u))

-- A conditional update of the row of one id keeps what holds of all rows, if the new row has it.
module _ {A : Type 0} (P : A → Type 0) (id : A → ℕ) (i : ℕ) (q : A → Bool) (f : A → A) where
  pub All-update_one :
      (xs : List A) {x : A}
      → find_id id i xs ≡ some x
      → rows_with id i xs ≤ 1
      → P (f x)
      → All P xs
      → All P (update_where (λ y. id y == i && q y) f xs)
  unfolding find_id rows_with update_where
  All-update_one [] found u new h = absurd (ground arith)
  All-update_one (y ∷ ys) {x = x} found u new h = elim (Bool-cases (id y == i)) [
    | inr e ↦ rw e (h.0, All-update_one ys {x = x} (ground arith) (ground arith) new h.1)
    | inl e ↦
        let same : y ≡ x = ground arith in
        let none_left : update_where (λ z. id z == i && q z) f ys ≡ ys =
          (update-absent id i q f ys (ground arith)).0 in
        elim (Bool-cases (q y)) [
          | inl t ↦ rw (e, t, none_left, same) (new, h.1)
          | inr t ↦ rw (e, t, none_left) h
        ]
  ]

pub first-holds :
    {A : Type 0} (p : A → Bool) (xs : List A) {x : A} → first p xs ≡ some x → p x ≡ true
unfolding first
first-holds p [] h = absurd (ground arith)
first-holds p (y ∷ xs) {x = x} h = ground (arith, first-holds p xs {x = x})
