-- ===== src/Prelude/Keyed.antt =====
-- Tables whose rows have different keys, and queries after an UPDATE by key.
use Prim.Native.Nat.{ℕ}
use mathlib.Core.Path.{◌≡◌, refl}
use mathlib.Core.Logic.{◌≢◌}
use mathlib.Core.Bool.{Bool, true, false}
use mathlib.Core.Option.{some, none}
use mathlib.Core.List.{List, [], ◌∷◌}
use native.Mathlib.Omega.{arith}
use ai_powered_market.Prelude.Tables.{find_by, get, insert, insert_by, put, select, sort_by}

module _ {ℓ} {A : Type ℓ} (key : A → ℕ) where
  abbrev pub IsKeyed : List A → Type ℓ
  IsKeyed [] = Unit
  IsKeyed (x ∷ xs) = (get key (key x) xs ≡ none) × IsKeyed xs

  pub put_absent : (row : A) (xs : List A) → get key (key row) xs ≡ none → put key row xs ≡ xs
  unfolding get put
  put_absent row [] h = refl
  put_absent row (x ∷ xs) h = ground (arith, put_absent row xs)

  pub found_present :
      (p : A → Bool) (old : A) (xs : List A) → find_by p xs ≡ some old → get key (key old) xs ≢ none
  unfolding find_by get
  found_present p old [] h = ground arith
  found_present p old (x ∷ xs) h = ground (arith, found_present p old xs)

  -- In a keyed table, what a query finds is what its key finds.
  pub found_get :
      (p : A → Bool) (old : A) (xs : List A)
      → IsKeyed xs
      → find_by p xs ≡ some old
      → get key (key old) xs ≡ some old
  unfolding find_by get
  found_get p old [] k h = ground arith
  found_get p old (x ∷ xs) k h = ground (arith, found_get p old xs k.1, found_present p old xs)

  -- The row that a query finds, written again so that it still passes, is found by it.
  pub find_by-put_same :
      (p : A → Bool) (old row : A) (xs : List A)
      → IsKeyed xs
      → find_by p xs ≡ some old
      → key row ≡ key old
      → p row ≡ true
      → find_by p (put key row xs) ≡ some row
  unfolding find_by put
  find_by-put_same p old row [] k h e t = ground arith
  find_by-put_same p old row (x ∷ xs) k h e t =
      ground (arith, find_by-put_same p old row xs k.1, found_present p old xs)

  -- A query that neither the old nor the new row passes finds what it found.
  pub find_by-put_other :
      (p : A → Bool) (old row : A) (xs : List A)
      → IsKeyed xs
      → get key (key row) xs ≡ some old
      → p old ≡ false
      → p row ≡ false
      → find_by p (put key row xs) ≡ find_by p xs
  unfolding find_by get put
  find_by-put_other p old row [] k h e t = refl
  find_by-put_other p old row (x ∷ xs) k h e t =
      ground (arith, find_by-put_other p old row xs k.1, put_absent row xs)

  get-put-none :
      (k : ℕ) (row : A) (xs : List A) → get key k xs ≡ none → get key k (put key row xs) ≡ none
  unfolding get put
  get-put-none k row [] h = refl
  get-put-none k row (x ∷ xs) h = ground (arith, get-put-none k row xs)

  pub put-IsKeyed : (row : A) (xs : List A) → IsKeyed xs → IsKeyed (put key row xs)
  unfolding put
  put-IsKeyed row [] k = tt
  put-IsKeyed row (x ∷ xs) k =
      ground (arith, put-IsKeyed row xs k.1, get-put-none (key x) row xs k.0)

module _ {A : Type 0} (key : A → ℕ) where
  get-insert_by-none :
      (k : ℕ) (row : A) (xs : List A)
      → key row ≢ k
      → get key k xs ≡ none
      → get key k (insert_by key row xs) ≡ none
  unfolding get insert_by
  get-insert_by-none k row [] ne h = ground arith
  get-insert_by-none k row (x ∷ xs) ne h = ground (arith, get-insert_by-none k row xs)

  get-sort_by-none : (k : ℕ) (xs : List A) → get key k xs ≡ none → get key k (sort_by key xs) ≡ none
  unfolding get sort_by
  get-sort_by-none k [] h = refl
  get-sort_by-none k (x ∷ xs) h =
      ground (arith, get-sort_by-none k xs, get-insert_by-none k x (sort_by key xs))

  insert_by-IsKeyed :
      (row : A) (xs : List A)
      → get key (key row) xs ≡ none
      → IsKeyed key xs
      → IsKeyed key (insert_by key row xs)
  unfolding get insert_by
  insert_by-IsKeyed row [] h k = ground arith
  insert_by-IsKeyed row (x ∷ xs) h k =
      ground (arith, insert_by-IsKeyed row xs, get-insert_by-none (key x) row xs)

  -- A table sorted by its key is keyed still.
  pub IsKeyed-sort_by : (xs : List A) → IsKeyed key xs → IsKeyed key (sort_by key xs)
  unfolding sort_by
  IsKeyed-sort_by [] k = tt
  IsKeyed-sort_by (x ∷ xs) k =
      insert_by-IsKeyed x (sort_by key xs) (get-sort_by-none (key x) xs k.0)
        (IsKeyed-sort_by xs k.1)

  get-select-none :
      (p : A → Bool) (k : ℕ) (xs : List A) → get key k xs ≡ none → get key k (select p xs) ≡ none
  unfolding get select
  get-select-none p k [] h = refl
  get-select-none p k (x ∷ xs) h = ground (arith, get-select-none p k xs)

  -- What a selection holds under a key, the table holds.
  pub get-select :
      (p : A → Bool) (k : ℕ) (xs : List A) (row : A)
      → IsKeyed key xs
      → get key k (select p xs) ≡ some row
      → get key k xs ≡ some row
  unfolding get select
  get-select p k [] row u h = ground arith
  get-select p k (x ∷ xs) row u h =
      ground (arith, get-select p k xs row u.1, get-select-none p k xs)

  get-insert-none :
      (k : ℕ) (row : A) (xs : List A)
      → get key k xs ≡ none
      → key row ≢ k
      → get key k (insert row xs) ≡ none
  unfolding get insert
  get-insert-none k row [] h ne = ground arith
  get-insert-none k row (x ∷ xs) h ne = ground (arith, get-insert-none k row xs)

  pub get-insert_self :
      (row : A) (xs : List A)
      → get key (key row) xs ≡ none
      → get key (key row) (insert row xs) ≡ some row
  unfolding get insert
  get-insert_self row [] h = ground arith
  get-insert_self row (x ∷ xs) h = ground (arith, get-insert_self row xs)

  -- A row under a new key.
  pub IsKeyed-insert :
      (row : A) (xs : List A)
      → IsKeyed key xs
      → get key (key row) xs ≡ none
      → IsKeyed key (insert row xs)
  unfolding get insert
  IsKeyed-insert row [] k h = ground arith
  IsKeyed-insert row (x ∷ xs) k h =
      ground (arith, IsKeyed-insert row xs, get-insert-none (key x) row xs k.0)
