-- ===== src/InputParser/Decimals.antt =====
-- input_parser.cc: `ParseNum` on the decimal text of a number.
use cpp_remote_screen_captur.Base.{
  ℕ, zero, suc, ◌+◌, ◌*◌, ◌/◌, ◌%◌, ◌^◌, ◌<◌, ◌≡◌, refl, sym, ap, ◌∙◌, List, [], ◌∷◌, ◌++◌, true,
  false, length, length-append, append_assoc, append-nil, ltb, ltb→lt, arith, Bool-cases, inl, inr,
  if◌then◌else◌, is_empty, ◌==◌,
}
use cpp_remote_screen_captur.Base.Int.{ℤ, pos}
use cpp_remote_screen_captur.Base.Decimal.{digits_up_to, to_string}
use cpp_remote_screen_captur.InputParser.Numbers.{
  Outcome, value, thrown, invalid_num, out_of_range, is_digit, skip_spaces, read_sign, read_digits,
  stoi, parse_num,
}

abbrev power_of_ten : ℕ → ℕ
power_of_ten zero = 1
power_of_ten (suc k) = 10 * power_of_ten k

read_digits-digit :
    (acc cnt d : ℕ) (rest : List ℕ)
    → d < 10
    → read_digits acc cnt ((b'0' + d) ∷ rest) ≡ read_digits (acc * 10 + d) (cnt + 1) rest
unfolding read_digits
read_digits-digit acc cnt d rest h = ground arith

first_digit :
    (n : ℕ) (rest : List ℕ) → n < 10 → read_digits 0 0 ((b'0' + n) ∷ rest) ≡ read_digits n 1 rest
first_digit n rest h =
    let same : 0 * 10 + n ≡ n = omega arith in
    read_digits-digit 0 0 n rest h ∙ ap (λ m. read_digits m 1 rest) same

-- One digit more at the end.
read_digits-append :
    (front : List ℕ) (n : ℕ) (rest : List ℕ)
    → ((r : List ℕ) → read_digits 0 0 (front ++ r) ≡ read_digits (n / 10) (length front) r)
    → read_digits 0 0 ((front ++ (b'0' + n % 10) ∷ []) ++ rest)
      ≡ read_digits n (length (front ++ (b'0' + n % 10) ∷ [])) rest
read_digits-append front n rest h =
    let d : ℕ = n % 10 in
    let value_of : n / 10 * 10 + d ≡ n = omega arith in
    let count_of : length front + 1 ≡ length (front ++ (b'0' + d) ∷ []) =
      omega (arith, length-append front ((b'0' + d) ∷ [])) in
    ap (read_digits 0 0) (append_assoc front ((b'0' + d) ∷ []) rest)
    ∙ h ((b'0' + d) ∷ rest)
    ∙ read_digits-digit (n / 10) (length front) d rest (omega arith)
    ∙ ap (λ m. read_digits m (length front + 1) rest) value_of
    ∙ ap (λ m. read_digits n m rest) count_of

-- The digits of a number are read back as the number.
read_digits-digits_up_to :
    (k n : ℕ) (rest : List ℕ)
    → n < power_of_ten (suc k)
    → read_digits 0 0 (digits_up_to (suc k) n ++ rest)
      ≡ read_digits n (length (digits_up_to (suc k) n)) rest
unfolding digits_up_to
read_digits-digits_up_to zero n rest h =
    let small : ltb n 10 ≡ true = ground arith in rw small (first_digit n rest (omega arith))
read_digits-digits_up_to (suc k) n rest h =
    let shorter : n / 10 < power_of_ten (suc k) = omega arith in
    let ih = λ (r : List ℕ). read_digits-digits_up_to k (n / 10) r shorter in
    elim (Bool-cases (ltb n 10)) [
      | inl small ↦ rw small (first_digit n rest (ltb→lt n 10 small))
      | inr large ↦ rw large (read_digits-append (digits_up_to (suc k) (n / 10)) n rest ih)
    ]

-- The text begins with a digit.
record Starts (text : List ℕ) : Type 0 where
  first : ℕ
  others : List ℕ
  split : text ≡ first ∷ others
  digit : is_digit first ≡ true

digits_up_to-Starts : (k n : ℕ) → Starts (digits_up_to (suc k) n)
unfolding digits_up_to
digits_up_to-Starts zero n = elim (Bool-cases (ltb n 10)) [
  | inl small ↦ record {
    first = b'0' + n;
    others = [];
    split = rw small refl;
    digit = ground arith;
  }
  | inr large ↦ record {
    first = b'0' + n % 10;
    others = [];
    split = rw large refl;
    digit = ground arith;
  }
]
digits_up_to-Starts (suc k) n =
    let s = digits_up_to-Starts k (n / 10) in
    elim (Bool-cases (ltb n 10)) [
      | inl small ↦ record {
        first = b'0' + n;
        others = [];
        split = rw small refl;
        digit = ground arith;
      }
      | inr large ↦ record {
        first = s.first;
        others = s.others ++ (b'0' + n % 10) ∷ [];
        split = rw large (ap (λ (x : List ℕ). x ++ (b'0' + n % 10) ∷ []) s.split);
        digit = s.digit;
      }
    ]

skip_spaces-Starts : (text : List ℕ) → Starts text → skip_spaces 0 text ≡ (0, text)
unfolding skip_spaces
skip_spaces-Starts text s = ground (arith, s.split, s.digit)

read_sign-Starts : (text : List ℕ) → Starts text → read_sign text ≡ (false, 0, text)
unfolding read_sign
read_sign-Starts text s = ground (arith, s.split, s.digit)

pub to_string-read :
    (n : ℕ) → n < 10 ^ 20 → read_digits 0 0 (to_string n) ≡ (n, length (to_string n))
unfolding to_string
to_string-read n h =
    ap (read_digits 0 0) (sym (append-nil (digits_up_to 20 n)))
    ∙ read_digits-digits_up_to 19 n [] (omega arith)
    ∙ unfold read_digits in refl

-- The text does not go on with a digit.
abbrev pub NoDigit : List ℕ → Type 0
NoDigit [] = Unit {0}
NoDigit (c ∷ cs) = is_digit c ≡ false

read_digits-NoDigit : (acc n : ℕ) (rest : List ℕ) → NoDigit rest → read_digits acc n rest ≡ (acc, n)
unfolding read_digits
read_digits-NoDigit acc n [] h = refl
read_digits-NoDigit acc n (c ∷ cs) h = rw (h, read_digits)

to_string-read_rest :
    (n : ℕ) (rest : List ℕ)
    → n < 10 ^ 20
    → NoDigit rest
    → read_digits 0 0 (to_string n ++ rest) ≡ (n, length (to_string n))
unfolding to_string
to_string-read_rest n rest h stop =
    read_digits-digits_up_to 19 n rest (omega arith)
    ∙ read_digits-NoDigit n (length (digits_up_to 20 n)) rest stop

Starts-append : (text rest : List ℕ) → Starts text → Starts (text ++ rest)
Starts-append text rest s = record {
  first = s.first;
  others = s.others ++ rest;
  split = ap (λ (x : List ℕ). x ++ rest) s.split;
  digit = s.digit;
}

to_string-Starts : (n : ℕ) → Starts (to_string n)
unfolding to_string
to_string-Starts n = digits_up_to-Starts 19 n

-- What is made of the number and of what stands behind it.
abbrev pub numeral : ℕ → List ℕ → Outcome ℤ
numeral n rest =
    if ltb n (2 ^ 31)
    then (if is_empty rest then value (pos n) else thrown invalid_num)
    else thrown out_of_range

-- The count of characters read is the size of the text exactly if nothing stands behind.
all_read : (text rest : List ℕ) → (length text == length (text ++ rest)) ≡ is_empty rest
all_read text [] = ground (arith, length-append text [])
all_read text (c ∷ cs) = ground (arith, length-append text (c ∷ cs))

-- On the decimal text of a number below 10^20, and any text behind it that does not begin with a
-- digit, `ParseNum` throws `std::out_of_range` if the number is not below 2147483648; otherwise
-- it reads the number back if nothing stands behind it, and throws `std::invalid_argument` if
-- anything does.
pub parse_num-to_string :
    (n : ℕ) (rest : List ℕ)
    → n < 10 ^ 20
    → NoDigit rest
    → parse_num (to_string n ++ rest) ≡ numeral n rest
unfolding parse_num stoi
parse_num-to_string n rest h stop =
    let s : Starts (to_string n ++ rest) = Starts-append (to_string n) rest (to_string-Starts n) in
    ground (
      arith,
      skip_spaces-Starts (to_string n ++ rest) s,
      read_sign-Starts (to_string n ++ rest) s,
      to_string-read_rest n rest h stop,
      all_read (to_string n) rest,
      ap length (to_string-Starts n).split,
    )

-- The text alone.
pub parse_num-to_string_alone :
    (n : ℕ)
    → n < 10 ^ 20
    → parse_num (to_string n) ≡ (if ltb n (2 ^ 31) then value (pos n) else thrown out_of_range)
parse_num-to_string_alone n h =
    ap parse_num (sym (append-nil (to_string n))) ∙ parse_num-to_string n [] h tt
