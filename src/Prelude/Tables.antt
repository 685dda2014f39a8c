-- ===== src/Prelude/Tables.antt =====
-- A database table is the list of its rows. A query is a test on rows; an update rewrites the rows
-- that pass a test.
use Prim.Native.Nat.{ℕ, zero, suc, ◌+◌}
use mathlib.Core.Path.{◌≡◌, refl}
use mathlib.Core.Logic.{◌≢◌}
use mathlib.Core.Bool.{Bool, true, false}
use mathlib.Core.Option.{Option, none, some}
use mathlib.Core.List.{List, [], ◌∷◌, ◌++◌}
use native.Mathlib.Omega.{arith}
use ai_powered_market.Prelude.Tests.{if◌then◌else◌, nat_beq, leb}

module _ {ℓ} {A : Type ℓ} where
  abbrev pub length : List A → ℕ
  length [] = 0
  length (x ∷ xs) = suc (length xs)

  -- `db.scalar(select(…).where(p))`: the first row that passes, in table order.
  unfoldable pub find_by : (A → Bool) → List A → Option A
  find_by p [] = none
  find_by p (x ∷ xs) = if p x then some x else find_by p xs

  -- `db.scalars(select(…).where(p)).all()`
  unfoldable pub select : (A → Bool) → List A → List A
  select p [] = []
  select p (x ∷ xs) = if p x then x ∷ select p xs else select p xs

  unfoldable pub update_where : (A → Bool) → (A → A) → List A → List A
  update_where p f [] = []
  update_where p f (x ∷ xs) = (if p x then f x else x) ∷ update_where p f xs

  -- `db.add(row)`
  unfoldable pub insert : A → List A → List A
  insert a xs = xs ++ a ∷ []

  abbrev pub take : ℕ → List A → List A
  take zero xs = []
  take (suc n) [] = []
  take (suc n) (x ∷ xs) = x ∷ take n xs

  -- `ORDER BY rank`, which keeps the order of rows alike.
  unfoldable pub insert_by : (A → ℕ) → A → List A → List A
  insert_by rank a [] = a ∷ []
  insert_by rank a (x ∷ xs) = if leb (rank a) (rank x) then a ∷ x ∷ xs else x ∷ insert_by rank a xs

  unfoldable pub sort_by : (A → ℕ) → List A → List A
  unfolding insert_by
  sort_by rank [] = []
  sort_by rank (x ∷ xs) = insert_by rank x (sort_by rank xs)

  -- How many rows pass: what a unique constraint bounds by one.
  abbrev pub count_where : (A → Bool) → List A → ℕ
  count_where p [] = 0
  count_where p (x ∷ xs) = let rest = count_where p xs in if p x then suc rest else rest

  pub find_by-insert-some :
      (p : A → Bool) (a x : A) (xs : List A)
      → find_by p xs ≡ some x
      → find_by p (insert a xs) ≡ some x
  unfolding find_by insert
  find_by-insert-some p a x [] h = ground arith
  find_by-insert-some p a x (y ∷ xs) h = ground (arith, find_by-insert-some p a x xs)

  pub find_by-insert-none :
      (p : A → Bool) (a : A) (xs : List A)
      → find_by p xs ≡ none
      → find_by p (insert a xs) ≡ (if p a then some a else none)
  unfolding find_by insert
  find_by-insert-none p a [] h = refl
  find_by-insert-none p a (y ∷ xs) h = ground (arith, find_by-insert-none p a xs)

  pub find_by_passes : (p : A → Bool) (xs : List A) (x : A) → find_by p xs ≡ some x → p x ≡ true
  unfolding find_by
  find_by_passes p [] x h = ground arith
  find_by_passes p (y ∷ xs) x h = ground (arith, find_by_passes p xs x)

  pub length-insert : (a : A) (xs : List A) → length (insert a xs) ≡ length xs + 1
  unfolding insert
  length-insert a [] = omega arith
  length-insert a (y ∷ xs) = omega (arith, length-insert a xs)

  pub count_where-insert :
      (p : A → Bool) (a : A) (xs : List A)
      → count_where p (insert a xs) ≡ count_where p xs + (if p a then 1 else 0)
  unfolding insert
  count_where-insert p a [] = ground arith
  count_where-insert p a (y ∷ xs) = ground (arith, count_where-insert p a xs)

  pub count_where-find_none :
      (p : A → Bool) (xs : List A) → find_by p xs ≡ none → count_where p xs ≡ 0
  unfolding find_by
  count_where-find_none p [] h = refl
  count_where-find_none p (y ∷ xs) h = ground (arith, count_where-find_none p xs)

-- Rows with a key, `key` their column `id`.
module _ {ℓ} {A : Type ℓ} (key : A → ℕ) where
  abbrev pub has_key : ℕ → A → Bool
  has_key k row = nat_beq (key row) k

  -- `db.get(Table, k)`
  unfoldable pub get : ℕ → List A → Option A
  unfolding find_by
  get k = find_by (has_key k)

  -- The UPDATE of one row, found by its key.
  unfoldable pub put : A → List A → List A
  unfolding update_where
  put row = update_where (has_key (key row)) (λ _. row)

  pub get-key : (k : ℕ) (xs : List A) (x : A) → get k xs ≡ some x → key x ≡ k
  unfolding get
  get-key k [] x h = ground arith
  get-key k (y ∷ xs) x h = ground (arith, get-key k xs x)

  pub get-put_self :
      (row old : A) (xs : List A)
      → get (key row) xs ≡ some old
      → get (key row) (put row xs) ≡ some row
  unfolding get put
  get-put_self row old [] h = ground arith
  get-put_self row old (y ∷ xs) h = ground (arith, get-put_self row old xs)

  pub get-put_ne : (k : ℕ) (row : A) (xs : List A) → k ≢ key row → get k (put row xs) ≡ get k xs
  unfolding get put
  get-put_ne k row [] h = refl
  get-put_ne k row (y ∷ xs) h = ground (arith, get-put_ne k row xs)

  pub length-put : (row : A) (xs : List A) → length (put row xs) ≡ length xs
  unfolding put
  length-put row [] = refl
  length-put row (y ∷ xs) = ground (arith, length-put row xs)

  pub find_by-get-none :
      (p : A → Bool) (k : ℕ) (x : A) (xs : List A)
      → find_by p xs ≡ none
      → get k xs ≡ some x
      → p x ≡ false
  unfolding find_by get
  find_by-get-none p k x [] h e = ground arith
  find_by-get-none p k x (y ∷ xs) h e = ground (arith, find_by-get-none p k x xs)
