-- ===== src/Logger/Stamps.antt =====
-- logger.cc and session.cc: the times in the names of files.
use cpp_remote_screen_captur.Base.{
  ℕ, ◌+◌, ◌/◌, ◌%◌, ◌^◌, ◌<◌, ◌≡◌, ◌≢◌, refl, sym, ap, ◌∙◌, List, [], ◌∷◌, ◌++◌, length,
  length-append, arith,
}
use cpp_remote_screen_captur.Base.Decimal.{to_string}
use cpp_remote_screen_captur.InputParser.Numbers.{read_digits}
use cpp_remote_screen_captur.InputParser.Decimals.{to_string-read}
use cpp_remote_screen_captur.Session.State.{Session}
use cpp_remote_screen_captur.Session.Files.{Saving, file_name}
use cpp_remote_screen_captur.Logger.Timestamp.{
  Tm, two_digits, conversion, put_time, get_current_timestamp, file_mask,
}

-- What stands behind the year.
abbrev behind : Tm → List ℕ
behind t =
    two_digits (t.tm_mon + 1)
    ++ (two_digits t.tm_mday
        ++ (b'_' ∷ (two_digits t.tm_hour ++ (two_digits t.tm_min ++ two_digits t.tm_sec))))

stamp : (t : Tm) → get_current_timestamp t file_mask ≡ to_string (1900 + t.tm_year) ++ behind t
unfolding get_current_timestamp put_time conversion two_digits
stamp t = refl

-- Lists whose last parts have the same length.
append_inj {ℓ} :
    {A : Type ℓ} (a b x y : List A) → length x ≡ length y → a ++ x ≡ b ++ y → (a ≡ b) × (x ≡ y)
append_inj [] [] x y n e = (refl, e)
append_inj [] (b ∷ b_rest) x y n e = ground (arith, ap length e, length-append b_rest y)
append_inj (a ∷ a_rest) [] x y n e = ground (arith, ap length e, length-append a_rest x)
append_inj (a ∷ a_rest) (b ∷ b_rest) x y n e =
    let p = append_inj a_rest b_rest x y n (cc) in let h : a ≡ b = cc in (cc, p.1)

two_digits-inj :
    (m n : ℕ) (x y : List ℕ) → two_digits m ++ x ≡ two_digits n ++ y → (m ≡ n) × (x ≡ y)
unfolding two_digits
two_digits-inj m n x y e =
    let a : b'0' + m / 10 ≡ b'0' + n / 10 = cc in
    let b : b'0' + m % 10 ≡ b'0' + n % 10 = cc in (omega arith, cc)

behind-inj : (t u : Tm) → t.tm_year ≡ u.tm_year → behind t ≡ behind u → t ≡ u
behind-inj t u year e =
    let a = two_digits-inj (t.tm_mon + 1) (u.tm_mon + 1) _ _ e in
    let b = two_digits-inj t.tm_mday u.tm_mday _ _ a.1 in
    let under : two_digits t.tm_hour ++ (two_digits t.tm_min ++ two_digits t.tm_sec)
        ≡ two_digits u.tm_hour ++ (two_digits u.tm_min ++ two_digits u.tm_sec) =
      cc in
    let c = two_digits-inj t.tm_hour u.tm_hour _ _ under in
    let d = two_digits-inj t.tm_min u.tm_min _ _ c.1 in
    let f = two_digits-inj t.tm_sec u.tm_sec [] [] (ap (λ (x : List ℕ). x ++ []) d.1) in
    let mon : t.tm_mon ≡ u.tm_mon = omega (arith, a.0) in cc

length-behind : (t u : Tm) → length (behind t) ≡ length (behind u)
unfolding two_digits
length-behind t u = refl

to_string-inj : (m n : ℕ) → m < 10 ^ 20 → n < 10 ^ 20 → to_string m ≡ to_string n → m ≡ n
to_string-inj m n h k e =
    ap (λ (p : ℕ × ℕ). p.0) (sym (to_string-read m h) ∙ ap (read_digits 0 0) e ∙ to_string-read n k)

stamp-inj :
    (t u : Tm)
    → t.tm_year < 2 ^ 31
    → u.tm_year < 2 ^ 31
    → get_current_timestamp t file_mask ≡ get_current_timestamp u file_mask
    → t ≡ u
stamp-inj t u h k e =
    let p =
      append_inj (to_string (1900 + t.tm_year)) (to_string (1900 + u.tm_year)) (behind t) (behind u)
        (length-behind t u) (sym (stamp t) ∙ e ∙ stamp u) in
    let year : 1900 + t.tm_year ≡ 1900 + u.tm_year =
      to_string-inj _ _ (omega arith) (omega arith) p.0 in
    behind-inj t u (omega arith) p.1

-- Images that a session saves at two different local times, of years since 1900 below 2147483648,
-- get different file names.
pub file_name-ne :
    (s : Session) (t u : Tm) (at_t at_u : Saving)
    → t.tm_year < 2 ^ 31
    → u.tm_year < 2 ^ 31
    → at_t.timestamp ≡ get_current_timestamp t file_mask
    → at_u.timestamp ≡ get_current_timestamp u file_mask
    → t ≢ u
    → file_name at_t s ≢ file_name at_u s
unfolding file_name
file_name-ne s t u at_t at_u h k f g ne = λ e.
    ne (stamp-inj t u h k (sym f ∙ (append_inj at_t.timestamp at_u.timestamp _ _ refl e).0 ∙ g))
