-- ===== src/Session/Monad.antt =====
-- Actions: the work of a request inside one transaction.
use ai_powered_market.Model.Db.{Db}
use ai_powered_market.Prelude.{
  Bool, Option, String, arith, false, inl, inr, none, refl, some, true, ℕ, ◌≡◌, ◌⊎◌,
}

-- `HTTPException(status_code, detail)`, of a formatted detail the fixed beginning, and `ValueError`.
pub data Error : Type 0 where
  http : ℕ → String → Error
  value_error : Error

pub data Result (A : Type 0) : Type 0 where
  ok : A → Result A
  err : Error → Result A

abbrev pub Action : Type 0 → Type 0
Action A = Db → Result (A × Db)

infixl 5 ◌>>=◌ ◌>>◌
abbrev pub ◌>>=◌ : {A B : Type 0} → Action A → (A → Action B) → Action B
◌>>=◌ m f db = elim (m db) [ ok (a, db') ↦ f a db' | err e ↦ err e ]

abbrev pub ◌>>◌ : {A B : Type 0} → Action A → Action B → Action B
m >> k = m >>= λ _. k

module _ {A : Type 0} where
  abbrev pub pure : A → Action A
  pure a db = ok (a, db)

  abbrev pub raise : Error → Action A
  raise e db = err e

  -- A query.
  abbrev pub gets : (Db → A) → Action A
  gets f db = ok (f db, db)

  abbrev pub or_raise : Option A → Error → Action A
  or_raise none e db = err e
  or_raise (some a) e db = ok (a, db)

  -- What the client sees and what the database holds afterwards.
  abbrev pub respond : Action A → Db → Result A × Db
  respond m db = elim (m db) [ ok (a, db') ↦ (ok a, db') | err e ↦ (err e, db) ]

abbrev pub raise_if : Bool → Error → Action (Unit {0})
raise_if true e db = err e
raise_if false e db = ok (tt, db)

abbrev pub modify : (Db → Db) → Action (Unit {0})
modify f db = ok (tt, f db)

-- `if test: m`
abbrev pub when : Bool → Action (Unit {0}) → Action (Unit {0})
when true m db = m db
when false m db = ok (tt, db)

-- To split on what an action returns and keep the equation.
pub Result-cases :
    {A : Type 0} (r : Result (A × Db))
    → ((a : A) × (db : Db) × (r ≡ ok (a, db))) ⊎ ((e : Error) × (r ≡ err e))
Result-cases (ok (a, db)) = inl (a, db, refl)
Result-cases (err e) = inr (e, refl)

-- The rest of a sequence, after a first action that returned.
pub bind_ok :
    {A B : Type 0} (m : Action A) (f : A → Action B) (db : Db) {a : A} {db1 : Db}
    {r : Result (B × Db)}
    → m db ≡ ok (a, db1)
    → (m >>= f) db ≡ r
    → f a db1 ≡ r
bind_ok m f db h e = ground arith
