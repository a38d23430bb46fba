-- ===== src/Logger/Timestamp.antt =====
-- common/src/logger.cc: `GetCurrentTimestamp`. The clock and the time zone are the system's: what
-- `localtime_r` gives is an argument.
use cpp_remote_screen_captur.Base.{
  ℕ, ◌+◌, ◌/◌, ◌%◌, List, [], ◌∷◌, ◌++◌, Bool, false, ◌==◌, if◌then◌else◌,
}
use cpp_remote_screen_captur.Base.Bytes.{codes}
use cpp_remote_screen_captur.Base.Decimal.{to_string}

-- `std::tm`, for a year of 1900 or later.
pub record Tm : Type 0 where
  pub tm_year : ℕ
  pub tm_mon : ℕ
  pub tm_mday : ℕ
  pub tm_hour : ℕ
  pub tm_min : ℕ
  pub tm_sec : ℕ

-- Of a number below 100, as the fields but for the year are.
unfoldable pub two_digits : ℕ → List ℕ
two_digits n = (b'0' + n / 10) ∷ (b'0' + n % 10) ∷ []

-- The conversions of `std::put_time` that the program's masks have; another gives nothing.
unfoldable pub conversion : Tm → ℕ → List ℕ
unfolding two_digits
conversion t c =
    if c == b'Y'
    then to_string (1900 + t.tm_year)
    else if c == b'm'
    then two_digits (t.tm_mon + 1)
    else if c == b'd'
    then two_digits t.tm_mday
    else if c == b'H'
    then two_digits t.tm_hour
    else if c == b'M'
    then two_digits t.tm_min
    else if c == b'S'
    then two_digits t.tm_sec
    else []

-- `std::put_time`; the Boolean says that a '%' stands in front.
unfoldable pub put_time : Tm → Bool → List ℕ → List ℕ
unfolding conversion
put_time t percent [] = []
put_time t percent (c ∷ mask) =
    let starts = if percent then false else c == b'%' in
    let rest = put_time t starts mask in
    if percent then conversion t c ++ rest else if starts then rest else c ∷ rest

unfoldable pub get_current_timestamp : Tm → List ℕ → List ℕ
unfolding put_time
get_current_timestamp t mask = put_time t false mask

-- The masks of `PrintInTerminal` and of `SaveScreen`.
abbrev pub line_mask : List ℕ
line_mask = codes "%Y-%m-%d %H:%M:%S"

abbrev pub file_mask : List ℕ
file_mask = codes "%Y%m%d_%H%M%S"
