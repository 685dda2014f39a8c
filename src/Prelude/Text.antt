-- ===== src/Prelude/Text.antt =====
-- Texts: comparison, length in characters, and Python's `str.strip`.
use Prim.Native.Char.{Char, code}
use Prim.Native.String.{String, count}
use Prim.Native.Nat.{ℕ}
use mathlib.Core.Bool.{Bool, true, false, ◌&&◌}
use mathlib.Core.List.{List, [], ◌∷◌}
use text.Mathlib.Text.{◌==◌ as str_eq}
use text.Mathlib.TextEquality.{eq_iff}
use text.Mathlib.TextPositions.{eq_refl}
use mathlib.Core.Path.{◌≡◌, ap, refl, subst, sym, ◌∙◌}
use mathlib.Core.Logic.{inl, inr}
use ai_powered_market.Prelude.Tests.{Bool-cases, Eq, ◌==◌, contains, nat_eq, if◌then◌else◌}

instance abbrev pub string_eq : Eq String
string_eq = record { beq = str_eq }

abbrev pub text_length : String → ℕ
text_length s = count s

abbrev pub is_empty : String → Bool
is_empty String.[] = true
is_empty (String.◌∷◌ c s) = false

-- The code points that `str.isspace` accepts.
abbrev spaces : List ℕ
spaces =
    9 ∷ 10 ∷ 11 ∷ 12 ∷ 13 ∷ 28 ∷ 29 ∷ 30 ∷ 31 ∷ 32 ∷ 133 ∷ 160 ∷ 5760 ∷ 8192 ∷ 8193 ∷ 8194 ∷ 8195
    ∷ 8196 ∷ 8197 ∷ 8198 ∷ 8199 ∷ 8200 ∷ 8201 ∷ 8202 ∷ 8232 ∷ 8233 ∷ 8239 ∷ 8287 ∷ 12288 ∷ []

unfoldable pub is_space : ℕ → Bool
is_space c = contains spaces c

unfoldable pub lstrip : String → String
lstrip String.[] = String.[]
lstrip (String.◌∷◌ c s) = let rest = lstrip s in if is_space (code c) then rest else String.◌∷◌ c s

unfoldable pub rstrip : String → String
rstrip String.[] = String.[]
rstrip (String.◌∷◌ c s) =
    let rest = rstrip s in
    if is_empty rest && is_space (code c) then String.[] else String.◌∷◌ c rest

unfoldable pub strip : String → String
strip s = rstrip (lstrip s)

pub string_eq_refl : (s : String) → (s == s) ≡ true
string_eq_refl s = eq_refl s

pub string_eq_sound : (s t : String) → (s == t) ≡ true → s ≡ t
string_eq_sound s t h = (eq_iff s t).0 h

rstrip-keep :
    (c : Char) (s : String)
    → (is_empty s && is_space (code c)) ≡ false
    → rstrip s ≡ s
    → rstrip (String.◌∷◌ c s) ≡ String.◌∷◌ c s
unfolding rstrip
rstrip-keep c s h e =
    subst
      (λ t.
        (if is_empty t && is_space (code c) then String.[] else String.◌∷◌ c t) ≡ String.◌∷◌ c s)
      (sym e) (ap (λ b. if b then String.[] else String.◌∷◌ c s) h)

rstrip-rstrip : (s : String) → rstrip (rstrip s) ≡ rstrip s
unfolding rstrip
rstrip-rstrip String.[] = refl
rstrip-rstrip (String.◌∷◌ c s) = elim (Bool-cases (is_empty (rstrip s) && is_space (code c))) [
  | inl gone ↦
      subst
        (λ b.
          rstrip (if b then String.[] else String.◌∷◌ c (rstrip s))
          ≡ (if b then String.[] else String.◌∷◌ c (rstrip s)))
        (sym gone) refl
  | inr kept ↦
      subst
        (λ b.
          rstrip (if b then String.[] else String.◌∷◌ c (rstrip s))
          ≡ (if b then String.[] else String.◌∷◌ c (rstrip s)))
        (sym kept) (rstrip-keep c (rstrip s) kept (rstrip-rstrip s))
]

and_false : (b : Bool) → (b && false) ≡ false
and_false true = refl
and_false false = refl

lstrip-keep :
    (c : Char) (s : String) → is_space (code c) ≡ false → lstrip (String.◌∷◌ c s) ≡ String.◌∷◌ c s
unfolding lstrip
lstrip-keep c s h = ap (λ b. if b then lstrip s else String.◌∷◌ c s) h

rstrip-inner :
    (c : Char) (s : String)
    → is_space (code c) ≡ false
    → rstrip (String.◌∷◌ c s) ≡ String.◌∷◌ c (rstrip s)
unfolding rstrip
rstrip-inner c s h =
    ap (λ b. if is_empty (rstrip s) && b then String.[] else String.◌∷◌ c (rstrip s)) h
    ∙ ap (λ b. if b then String.[] else String.◌∷◌ c (rstrip s)) (and_false (is_empty (rstrip s)))

lstrip-rstrip : (s : String) → lstrip (rstrip (lstrip s)) ≡ rstrip (lstrip s)
unfolding lstrip rstrip
lstrip-rstrip String.[] = refl
lstrip-rstrip (String.◌∷◌ c s) = elim (Bool-cases (is_space (code c))) [
  | inl space ↦
      let to_rest = ap (λ b. rstrip (if b then lstrip s else String.◌∷◌ c s)) space in
      ap lstrip to_rest ∙ lstrip-rstrip s ∙ sym to_rest
  | inr other ↦
      let to_text =
        ap (λ b. rstrip (if b then lstrip s else String.◌∷◌ c s)) other ∙ rstrip-inner c s other in
      ap lstrip to_text ∙ lstrip-keep c (rstrip s) other ∙ sym to_text
]

pub strip-strip : (s : String) → strip (strip s) ≡ strip s
unfolding strip
strip-strip s = ap rstrip (lstrip-rstrip s) ∙ rstrip-rstrip (lstrip s)
