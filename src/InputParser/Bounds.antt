-- ===== src/InputParser/Bounds.antt =====
-- input_parser.cc: the values that the parsing functions let pass.
use cpp_remote_screen_captur.Base.{ℕ, ◌≤◌, ◌≡◌, refl, List, Bool, true, Option, none, some, arith}
use cpp_remote_screen_captur.Base.Int.{ℤ, pos, negsuc}
use cpp_remote_screen_captur.InputParser.Numbers.{Outcome, value, thrown, ◌>>=◌, parse_num}
use cpp_remote_screen_captur.InputParser.Options.{
  InputParser, parse_host, set_port, parse_port, set_period, parse_period, parse_parts, with_text,
}

pub >>=-eq-value {ℓ κ} :
    {A : Type ℓ} {B : Type κ} (m : Outcome A) (f : A → Outcome B) {b : B}
    → (m >>= f) ≡ value b
    → (a : A) × (m ≡ value a) × (f a ≡ value b)
>>=-eq-value (value a) f h = (a, refl, h)
>>=-eq-value (thrown e) f h = cc

abbrev pub InPort : ℕ → Type 0
InPort n = (1 ≤ n) × (n ≤ 65535)

module _ (inet_pton : List ℕ → Bool) where
  set_port-InPort :
      (n : ℤ) (p : InputParser) {q : InputParser}
      → set_port inet_pton n p ≡ value q
      → (q ≡ record p { port = q.port }) × InPort q.port
  unfolding set_port
  set_port-InPort (negsuc n) p e = cc
  set_port-InPort (pos n) p e = ground arith

  -- A port that `ParsePort` accepts is one of 1 to 65535, and it is all that is changed in the
  -- parser.
  pub parse_port-InPort :
      (arg : List ℕ) (p : InputParser) {q : InputParser}
      → parse_port inet_pton arg p ≡ value q
      → (q ≡ record p { port = q.port }) × InPort q.port
  unfolding parse_port
  parse_port-InPort arg p {q} e =
      let (n, _, f) = >>=-eq-value (parse_num arg) (λ m. set_port inet_pton m p) {b = q} e in
      set_port-InPort n p {q = q} f

  set_period-bound :
      (n : ℤ) (p : InputParser) {q : InputParser}
      → set_period inet_pton n p ≡ value q
      → (q ≡ record p { period = q.period }) × (q.period ≤ 86400)
  unfolding set_period
  set_period-bound (negsuc n) p e = cc
  set_period-bound (pos n) p e = ground arith

  pub parse_period-bound :
      (arg : List ℕ) (p : InputParser) {q : InputParser}
      → parse_period inet_pton arg p ≡ value q
      → (q ≡ record p { period = q.period }) × (q.period ≤ 86400)
  unfolding parse_period
  parse_period-bound arg p {q} e =
      let (n, _, f) = >>=-eq-value (parse_num arg) (λ m. set_period inet_pton m p) {b = q} e in
      set_period-bound n p {q = q} f

  parse_host-eq_value :
      (arg : List ℕ) (p : InputParser) {q : InputParser}
      → parse_host inet_pton arg p ≡ value q
      → (q ≡ record p { host = q.host }) × (inet_pton q.host ≡ true)
  unfolding parse_host
  parse_host-eq_value arg p e = ground arith

  pub parse_parts-lem :
      (arg : List ℕ) (parts : Option (List ℕ × List ℕ)) (p : InputParser) {q : InputParser}
      → parse_parts inet_pton arg parts p ≡ value q
      → (q ≡ record p { host = q.host; port = q.port }) × InPort q.port × (inet_pton q.host ≡ true)
  unfolding parse_parts
  parse_parts-lem arg none p e = cc
  parse_parts-lem arg (some (host, port)) p {q} e =
      let (r, f, g) =
        >>=-eq-value (parse_host inet_pton host p) (parse_port inet_pton port) {b = q} e in
      let (rp, rh) = parse_host-eq_value host p {q = r} f in
      let (qr, qp) = parse_port-InPort port r {q = q} g in ground arith

  pub with_text-eq_value :
      (optarg : Option (List ℕ)) (f : List ℕ → InputParser → Outcome InputParser) (p : InputParser)
      {q : InputParser}
      → with_text inet_pton optarg f p ≡ value q
      → (arg : List ℕ) × (f arg p ≡ value q)
  unfolding with_text
  with_text-eq_value none f p e = cc
  with_text-eq_value (some arg) f p e = (arg, e)
