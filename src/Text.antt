-- ===== src/Text.antt =====
-- Python's `str` where the program walks it: a list of code points, and its size in UTF-8.
-- A lone surrogate, which `encode` refuses, does not occur.
use agentstrata.Prelude.{
  Bool, Bool-cases, List, [], ap, arith, false, if◌then◌else◌, inl, inr, ite, ltb, refl, suc, sym,
  true, zero, ℕ, ℕ_discrete, ◌%◌, ◌&&◌, ◌*◌, ◌++◌, ◌+◌, ◌-◌, ◌/◌, ◌<◌, ◌==◌, ◌||◌, ◌∙◌, ◌∷◌, ◌≡◌,
  ◌≤◌,
}

abbrev pub Text : Type 0
Text = List ℕ

-- len(ch.encode("utf-8"))
unfoldable pub utf8_size : ℕ → ℕ
utf8_size c = if ltb c 0x80 then 1 else if ltb c 0x800 then 2 else if ltb c 0x10000 then 3 else 4

-- len(text.encode("utf-8"))
unfoldable pub utf8_length : Text → ℕ
unfolding utf8_size
utf8_length [] = 0
utf8_length (c ∷ cs) = utf8_size c + utf8_length cs

pub utf8_size_bounds : (c : ℕ) → (1 ≤ utf8_size c) × (utf8_size c ≤ 4)
unfolding utf8_size
utf8_size_bounds c = ground arith

pub utf8_length-append : (xs ys : Text) → utf8_length (xs ++ ys) ≡ utf8_length xs + utf8_length ys
unfolding utf8_length
utf8_length-append [] ys = omega arith
utf8_length-append (x ∷ xs) ys = omega (arith, utf8_length-append xs ys)

unfoldable pub text_discrete : Discrete Text
unfolding ℕ_discrete
text_discrete = hlevel ℕ_discrete

-- text in texts
unfoldable pub elem : Text → List Text → Bool
unfolding text_discrete
elem t [] = false
elem t (s ∷ texts) = ite (text_discrete s t) true (elem t texts)

-- str(n), for a number below the fuel
unfoldable pub decimal_on : ℕ → ℕ → Text
decimal_on zero n = []
decimal_on (suc fuel) n =
    let rest = decimal_on fuel (n / 10) in
    if ltb n 10 then (48 + n) ∷ [] else rest ++ (48 + n % 10) ∷ []

-- str(n)
unfoldable pub decimal : ℕ → Text
unfolding decimal_on
decimal n = decimal_on (suc n) n

-- The number that decimal digits stand for, after `acc`.
unfoldable pub value : ℕ → Text → ℕ
value acc [] = acc
value acc (c ∷ cs) = value (acc * 10 + (c - 48)) cs

value-append : (acc : ℕ) (xs ys : Text) → value acc (xs ++ ys) ≡ value (value acc xs) ys
unfolding value
value-append acc [] ys = refl
value-append acc (x ∷ xs) ys = value-append (acc * 10 + (x - 48)) xs ys

value-decimal_on : (fuel n : ℕ) → n < fuel → value 0 (decimal_on fuel n) ≡ n
unfolding decimal_on value
value-decimal_on zero n h = absurd (omega arith)
value-decimal_on (suc fuel) n h = elim (Bool-cases (ltb n 10)) [
  | inl small ↦ rw small (omega arith)
  | inr large ↦
      let rest = decimal_on fuel (n / 10) in
      rw large (
        omega (
          arith,
          value-append 0 rest ((48 + n % 10) ∷ []),
          value-decimal_on fuel (n / 10) (ground arith),
        ))
]

-- Different numbers have different decimals.
pub decimal-injective : (m n : ℕ) → decimal m ≡ decimal n → m ≡ n
unfolding decimal
decimal-injective m n h =
    sym (value-decimal_on (suc m) m (omega arith))
    ∙ ap (value 0) h
    ∙ value-decimal_on (suc n) n (omega arith)

unfoldable pub begins : Text → Text → Bool
begins [] text = true
begins (p ∷ prefix) [] = false
begins (p ∷ prefix) (c ∷ text) = p == c && begins prefix text

-- part in text
unfoldable pub occurs : Text → Text → Bool
unfolding begins
occurs part [] = begins part []
occurs part (c ∷ text) = begins part (c ∷ text) || occurs part text

-- text.endswith(base)
unfoldable pub ends_with : Text → Text → Bool
unfolding text_discrete
ends_with [] base = ite (text_discrete [] base) true false
ends_with (c ∷ text) base = ite (text_discrete (c ∷ text) base) true (ends_with text base)

-- text.startswith(prefix)
unfoldable pub starts_with : Text → Text → Bool
starts_with text [] = true
starts_with [] (p ∷ prefix) = false
starts_with (c ∷ text) (p ∷ prefix) = c == p && starts_with text prefix

-- a < b, on texts
unfoldable pub text_lt : Text → Text → Bool
text_lt a [] = false
text_lt [] (d ∷ b) = true
text_lt (c ∷ a) (d ∷ b) = ltb c d || (c == d && text_lt a b)
