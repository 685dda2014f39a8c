-- ===== src/Catalogue/Suspension.antt =====
-- What the platform's decision on a merchant does to the merchant's stores: backend/app/api/v1/routes/commerce.py.
use ai_powered_market.Capabilities.{ensure_capability}
use ai_powered_market.Catalogue.{
  approve_merchant, decide_merchant, set_merchant_status, update_merchant_status,
}
use ai_powered_market.Checkout.{Circumstances, new_order, trading}
use ai_powered_market.Checkout.Filling.{trading_lem}
use ai_powered_market.Checkout.Outcome.{SameOrder, safe_checkout_lem}
use ai_powered_market.Checkout.Placing.{CheckoutRequest, safe_checkout}
use ai_powered_market.Checkout.Quote.{QuoteRead, cart_quote}
use ai_powered_market.Checkout.Quoting.{cart_quote_lem}
use ai_powered_market.Effects.{record_admin_action}
use ai_powered_market.Model.Db.{Db}
use ai_powered_market.Model.Keys.{merchant_key, store_key}
use ai_powered_market.Model.Market.{Merchant, Store, User}
use ai_powered_market.Model.Orders.{Order}
use ai_powered_market.Model.Status.{MerchantStatus, approved, suspended}
use ai_powered_market.Prelude.{
  Option-cases, String, ap, arith, get, get-key, get-put_ne, get-put_self, if◌then◌else◌, inl, inr,
  nat_eq, put, refl, some, subst, sym, ℕ, ◌==◌, ◌∙◌, ◌≡◌, ◌≢◌, ◌⊎◌,
}
use ai_powered_market.Session.{ok}

decide_merchant_lem :
    (merchant_id : ℕ) (target : MerchantStatus) (action reason : String) (user : User) (db : Db)
    {r : Merchant} {db' : Db}
    → decide_merchant merchant_id target action reason user db ≡ ok (r, db')
    → (m : Merchant) × (get merchant_key merchant_id db.merchants ≡ some m)
      × (db'.merchants ≡ put merchant_key (record m { status = target }) db.merchants)
      × (db'.stores ≡ db.stores)
unfolding decide_merchant ensure_capability set_merchant_status record_admin_action
decide_merchant_lem merchant_id target action reason user db {r} {db'} e =
    elim (Option-cases (get merchant_key merchant_id db.merchants)) [
      | inl gone ↦ absurd (ground arith)
      | inr (m, found) ↦ (m, found, ground arith, ground arith)
    ]

-- The merchants after a decision, by key.
decided :
    (merchant_id : ℕ) (target : MerchantStatus) (action reason : String) (user : User) (db : Db)
    (k : ℕ) {r : Merchant} {db' : Db}
    → decide_merchant merchant_id target action reason user db ≡ ok (r, db')
    → (m : Merchant) × (get merchant_key merchant_id db.merchants ≡ some m)
      × (get merchant_key k db'.merchants ≡ (
          if k == merchant_id
          then some (record m { status = target })
          else get merchant_key k db.merchants))
decided merchant_id target action reason user db k {r} {db'} e =
    let (m, found, merchants, stores) =
      decide_merchant_lem merchant_id target action reason user db {r = r} {db' = db'} e in
    let key = get-key merchant_key merchant_id db.merchants m found in
    let row = record m { status = target } in
    (
      m,
      found,
      ground (
        arith,
        get-put_self merchant_key row m db.merchants,
        get-put_ne merchant_key k row db.merchants,
      ),
    )

-- What is for the store of another merchant.
abbrev pub IsElsewhere : ℕ → Db → ℕ → Type 0
IsElsewhere merchant_id db store_id =
    (s : Store) × (get store_key store_id db.stores ≡ some s) × (s.merchant_id ≢ merchant_id)

trading-IsElsewhere :
    (merchant_id store_id : ℕ) (m : Merchant) (db : Db) (s : Store)
    → get merchant_key merchant_id db.merchants ≡ some m
    → m.status ≡ suspended
    → trading db (get store_key store_id db.stores) ≡ some s
    → IsElsewhere merchant_id db store_id
trading-IsElsewhere merchant_id store_id m db s stored halted trades =
    let found = trading_lem db (get store_key store_id db.stores) {store = s} trades in
    (s, found, ground arith)

-- Suspending an approved merchant closes every store of the merchant to quotes and checkouts: a quote is for the store of
-- another merchant, and so is an order, unless the checkout repeats one that was there. No store's row is touched, and
-- approving the merchant again leaves each store, of this merchant and of others, trading just when it traded
-- before, so that a store that its owner had paused stays paused.
pub suspension_undone :
    (merchant_id : ℕ) (m : Merchant) (user : User) (db : Db) (s : Store) {r r' : Merchant}
    {db1 db2 : Db}
    → get merchant_key merchant_id db.merchants ≡ some m
    → m.status ≡ approved
    → update_merchant_status merchant_id suspended user db ≡ ok (r, db1)
    → approve_merchant merchant_id user db1 ≡ ok (r', db2)
    → ((c : Circumstances) (address_id : ℕ) (customer : User) (quote : QuoteRead) (read : Db)
        → cart_quote c address_id customer db1 ≡ ok (quote, read)
        → IsElsewhere merchant_id db1 quote.store_id)
      × ((c : Circumstances) (number : String) (payload : CheckoutRequest) (customer : User)
            (order : Order) (made : Db)
          → safe_checkout c number payload customer db1 ≡ ok (order, made)
          → SameOrder payload customer db1 order made ⊎ IsElsewhere merchant_id db1 order.store_id)
      × (db1.stores ≡ db.stores)
      × (trading db2 (some s) ≡ trading db (some s))
      × (db2.stores ≡ db.stores)
unfolding update_merchant_status approve_merchant new_order
suspension_undone merchant_id m user db s {r} {r'} {db1} {db2} stored was e1 e2 =
    let why : String = "merchant_operational_status_change" in
    let (m1, found1, after1) =
      decided merchant_id suspended "merchant.status_updated" why user db s.merchant_id {r = r}
        {db' = db1} e1 in
    let (m0, found0, self1) =
      decided merchant_id suspended "merchant.status_updated" why user db merchant_id {r = r}
        {db' = db1} e1 in
    let (m2, found2, after2) =
      decided merchant_id approved "merchant.approved" "merchant_onboarding_approval" user db1
        s.merchant_id {r = r'} {db' = db2} e2 in
    let (n1, f1, ms1, stores1) =
      decide_merchant_lem merchant_id suspended "merchant.status_updated" why user db {r = r}
        {db' = db1} e1 in
    let (n2, f2, ms2, stores2) =
      decide_merchant_lem merchant_id approved "merchant.approved" "merchant_onboarding_approval"
        user db1 {r = r'} {db' = db2} e2 in
    let row : Merchant = record m0 { status = suspended } in
    let held : get merchant_key merchant_id db1.merchants ≡ some row = ground arith in
    (
      λ c address_id customer quote read e.
          let q = cart_quote_lem c address_id customer db1 {quote = quote} {db' = read} e in
          trading-IsElsewhere merchant_id quote.store_id row db1 q.shop held refl q.trades,
      λ c number payload customer order made e.
          elim (safe_checkout_lem c number payload customer db1 {order = order} {db' = made} e) [
            | inl again ↦ inl again
            | inr fresh ↦
                let b = fresh.basket in
                let of_basket : order.store_id ≡ b.store.id =
                  ap (λ (o : Order). o.store_id) fresh.placed.is_new in
                inr (
                  subst (IsElsewhere merchant_id db1) (sym of_basket) (
                    trading-IsElsewhere merchant_id b.store.id row db1 b.store held refl
                      fresh.filled.trades))
          ],
      stores1,
      ground arith,
      stores2 ∙ stores1,
    )
