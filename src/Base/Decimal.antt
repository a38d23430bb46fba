-- ===== src/Base/Decimal.antt =====
-- `std::to_string` of a number: its decimal digits.
use Prim.Native.Nat.{ℕ, zero, suc, ◌+◌, ◌/◌, ◌%◌}
use mathlib.Core.List.{List, [], ◌∷◌, ◌++◌}
use cpp_remote_screen_captur.Base.Tests.{ltb, if◌then◌else◌}

-- Twenty digits are enough for 64 bits.
unfoldable pub digits_up_to : ℕ → ℕ → List ℕ
digits_up_to zero n = []
digits_up_to (suc k) n =
    let front = digits_up_to k (n / 10) in
    if ltb n 10 then (b'0' + n) ∷ [] else front ++ (b'0' + n % 10) ∷ []

unfoldable pub to_string : ℕ → List ℕ
unfolding digits_up_to
to_string n = digits_up_to 20 n
