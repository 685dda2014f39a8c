-- ===== src/Support/Triage.antt =====
-- backend/app/services/support_triage.py. `str.lower` follows Unicode's tables and is an argument.
use Prim.Native.Char.{code}
use Prim.Native.String.{◌++◌}
use ai_powered_market.Prelude.{
  Bool, List, String, [], false, if◌then◌else◌, nat_eq, suc, true, zero, ℕ, ◌&&◌, ◌==◌, ◌||◌, ◌∷◌,
}
use ai_powered_market.Prelude.Text.{is_empty, string_eq, strip}

-- Whether a text begins with another.
abbrev begins : String → String → Bool
begins String.[] s = true
begins (String.◌∷◌ c t) String.[] = false
begins (String.◌∷◌ c t) (String.◌∷◌ d s) = let rest = begins t s in code c == code d && rest

-- `term in text`
unfoldable pub occurs : String → String → Bool
occurs term String.[] = is_empty term
occurs term (String.◌∷◌ c s) = let rest = occurs term s in begins term (String.◌∷◌ c s) || rest

abbrev pub some_occurs : List String → String → Bool
some_occurs [] text = false
some_occurs (term ∷ terms) text = let rest = some_occurs terms text in occurs term text || rest

-- `CATEGORIES`, each name with its terms.
abbrev pub categories : List (String × List String)
categories =
    (
      "payment",
      "payment" ∷ "charged" ∷ "refund" ∷ "upi" ∷ "cod" ∷ "money" ∷ "पेमेंट" ∷ "रिफंड" ∷ [],
    )
    ∷ (
      "delivery",
      "delivery" ∷ "rider" ∷ "late" ∷ "missing" ∷ "delivered" ∷ "डिलीवरी" ∷ "रायडर" ∷ [],
    )
    ∷ (
      "order",
      "order" ∷ "item" ∷ "wrong" ∷ "damaged" ∷ "quantity" ∷ "ऑर्डर" ∷ "सामान" ∷ "खराब" ∷ [],
    )
    ∷ ("account", "login" ∷ "otp" ∷ "account" ∷ "profile" ∷ "लॉगिन" ∷ "ओटीपी" ∷ [])
    ∷ []

-- `URGENT`
abbrev pub urgent : List String
urgent =
    "fraud" ∷ "charged twice" ∷ "double charged" ∷ "unsafe" ∷ "threat" ∷ "accident" ∷ "medical" ∷ []

-- `HIGH`
abbrev pub high : List String
high =
    "not delivered" ∷ "late" ∷ "missing" ∷ "refund" ∷ "damaged" ∷ "wrong item"
    ∷ "cancelled but charged" ∷ []

-- The first category of which a term occurs.
abbrev category_among : List (String × List String) → String → String
category_among [] text = "general"
category_among ((name, terms) ∷ others) text =
    let rest = category_among others text in if some_occurs terms text then name else rest

unfoldable pub category_of : String → String
category_of text = category_among categories text

unfoldable pub priority_of : String → String → String
priority_of category text =
    if some_occurs urgent text
    then "urgent"
    else (if some_occurs high text
        then "high"
        else (if category == "payment" || category == "delivery" then "medium" else "normal"))

abbrev action_of : String → String
action_of category =
    if category == "payment"
    then "Review payment attempt, provider events and settlement state; do not change financial state manually."
    else (if category == "delivery"
        then "Review lifecycle, assignment, latest location and proof or failure evidence."
        else (if category == "order"
            then "Review order items, merchant transitions and cancellation or refund eligibility."
            else (if category == "account"
                then "Review authentication events without exposing OTPs or credentials."
                else "Review the customer context and route it to the responsible operator.")))

-- `replace("\n", " ")`
abbrev one_line : String → String
one_line String.[] = String.[]
one_line (String.◌∷◌ c s) =
    let rest = one_line s in String.◌∷◌ (if code c == 10 then " " else c) rest

-- `[:n]`
abbrev first_chars : ℕ → String → String
first_chars zero s = String.[]
first_chars (suc n) String.[] = String.[]
first_chars (suc n) (String.◌∷◌ c s) = String.◌∷◌ c (first_chars n s)

unfoldable pub summary_of : String → String → String
unfolding strip
summary_of subject description =
    let summary = first_chars 500 (one_line (strip description)) in
    if is_empty summary then strip subject else summary

pub record Triage : Type 0 where
  pub category : String
  pub priority : String
  pub summary : String
  pub suggested_action : String

unfoldable pub triage_ticket : (String → String) → String → String → Triage
unfolding category_of priority_of summary_of strip
triage_ticket lower subject description =
    let text = strip (lower (subject ++ " " ++ description)) in
    let category = category_of text in
    record {
      category = category;
      priority = priority_of category text;
      summary = summary_of subject description;
      suggested_action = action_of category;
    }
