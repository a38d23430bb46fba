-- ===== src/InputParser/Numbers.antt =====
-- input_parser.cc: `ParseNum`, and `std::stoi`, which it calls.
use cpp_remote_screen_captur.Base.{
  ℕ, zero, suc, ◌+◌, ◌-◌, ◌*◌, ◌^◌, List, [], ◌∷◌, Bool, true, false, ◌&&◌, ◌||◌, length, ltb, leb,
  ◌==◌, if◌then◌else◌,
}
use cpp_remote_screen_captur.Base.Int.{ℤ, pos, negsuc}

-- What is thrown, by class and message. `null_text` is the `std::logic_error` of a `std::string`
-- built from a null pointer.
pub data ParseError : Type 0 where
  invalid_num no_conversion invalid_host invalid_port invalid_period : ParseError
  missing_options : List (List ℕ) → ParseError
  invalid_srv invalid_option duplicate_option : List ℕ → ParseError
  out_of_range null_text : ParseError

-- `catch (const std::invalid_argument&)` of both `main` functions.
unfoldable pub is_invalid_argument : ParseError → Bool
is_invalid_argument out_of_range = false
is_invalid_argument null_text = false
is_invalid_argument _ = true

pub data Outcome {ℓ} (A : Type ℓ) : Type ℓ where
  value : A → Outcome A
  thrown : ParseError → Outcome A

infixl 5 ◌>>=◌
abbrev pub ◌>>=◌ {ℓ κ} : {A : Type ℓ} {B : Type κ} → Outcome A → (A → Outcome B) → Outcome B
value a >>= f = f a
thrown e >>= f = thrown e

-- `std::isspace` and `std::isdigit` in the "C" locale.
abbrev pub is_space : ℕ → Bool
is_space c = c == 32 || (leb 9 c && leb c 13)

abbrev pub is_digit : ℕ → Bool
is_digit c = leb b'0' c && leb c b'9'

-- White space in front, with the count of characters skipped.
unfoldable pub skip_spaces : ℕ → List ℕ → ℕ × List ℕ
skip_spaces n [] = (n, [])
skip_spaces n (c ∷ cs) = elim (is_space c) [ true ↦ skip_spaces (n + 1) cs | false ↦ (n, c ∷ cs) ]

-- A sign: whether it is a minus, and the count of characters read.
unfoldable pub read_sign : List ℕ → Bool × ℕ × List ℕ
read_sign [] = (false, 0, [])
read_sign (c ∷ cs) =
    if c == b'-' then (true, 1, cs) else if c == b'+' then (false, 1, cs) else (false, 0, c ∷ cs)

-- Digits in front: their value over that of the digits before, and how many there are.
unfoldable pub read_digits : ℕ → ℕ → List ℕ → ℕ × ℕ
read_digits acc n [] = (acc, n)
read_digits acc n (c ∷ cs) = elim (is_digit c) [
  | true ↦ read_digits (acc * 10 + (c - b'0')) (n + 1) cs
  | false ↦ (acc, n)
]

-- The integer of a sign and a magnitude, if it is one of 32 bits.
unfoldable pub to_int : Bool → ℕ → Outcome ℤ
to_int false n = if ltb n (2 ^ 31) then value (pos n) else thrown out_of_range
to_int true zero = value (pos 0)
to_int true (suc n) = if ltb n (2 ^ 31) then value (negsuc n) else thrown out_of_range

-- `std::stoi` to base 10: the number and the count of characters read.
unfoldable pub stoi : List ℕ → Outcome (ℤ × ℕ)
unfolding to_int
stoi text =
    let (spaces, r1) = skip_spaces 0 text in
    let (minus, signs, r2) = read_sign r1 in
    let (n, digits) = read_digits 0 0 r2 in
    if digits == 0
    then thrown no_conversion
    else to_int minus n >>= λ num. value (num, spaces + signs + digits)

unfoldable pub parse_num : List ℕ → Outcome ℤ
parse_num num_str = stoi num_str >>= λ r.
    let (num, count) = r in if count == length num_str then value num else thrown invalid_num
