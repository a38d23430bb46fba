-- ===== src/Session/AuthSound.antt =====
-- session.cc: `ParseAuthMessage` and `HandleAuthRequest` on any request.
use cpp_remote_screen_captur.Base.{
  ℕ, ◌/◌, ◌%◌, ◌^◌, ◌≡◌, refl, sym, List, [], ◌∷◌, ◌++◌, length, take, drop, arith, All, Bool, true,
  ltb, some, take-append-drop, length-take, Bool-cases, inl, inr, ltb_false→le, ◌⊎◌, All-drop,
}
use cpp_remote_screen_captur.Base.Bytes.{be16, of_be16, IsByte}
use cpp_remote_screen_captur.Session.State.{
  Session, Message, Result, ok, err, Error, small_uint16, small_string,
}
use cpp_remote_screen_captur.Session.Buffer.{pop_uint16, pop_string}
use cpp_remote_screen_captur.Session.Auth.{
  is_valid_name, Reading, finish_auth, parse_auth_message, handle_auth_request, pop_message,
}
use cpp_remote_screen_captur.Session.AuthLaws.{auth_payload}

pop_uint16-cases :
    (b : List ℕ)
    → All IsByte b
    → ((x : Error) × (pop_uint16 b ≡ err x))
      ⊎ ((n : ℕ) × (rest : List ℕ) × (pop_uint16 b ≡ ok (n, rest))
          × (b ≡ be16 n ++ rest)
          × All IsByte rest)
unfolding pop_uint16
pop_uint16-cases [] h = inl (small_uint16, refl)
pop_uint16-cases (x ∷ []) h = inl (small_uint16, ground arith)
pop_uint16-cases (x ∷ y ∷ r) h =
    let n : ℕ = of_be16 x y in
    let ex : x ≡ n / 2 ^ 8 % 256 = omega arith in
    let ey : y ≡ n % 256 = omega arith in inr (n, r, ground arith, ground arith, h.1.1)

pop_string-cases :
    (b : List ℕ) (n : ℕ)
    → All IsByte b
    → ((x : Error) × (pop_string b n ≡ err x))
      ⊎ ((name : List ℕ) × (rest : List ℕ) × (pop_string b n ≡ ok (name, rest))
          × (b ≡ name ++ rest)
          × (length name ≡ n)
          × All IsByte rest)
unfolding pop_string
pop_string-cases b n h = elim (Bool-cases (ltb (length b) n)) [
  | inl short ↦ inl (small_string n, rw short)
  | inr long ↦ inr (
    take n b,
    drop n b,
    rw long,
    sym (take-append-drop n b),
    omega (arith, length-take n b, ltb_false→le _ _ long),
    All-drop IsByte n b h,
  )
]

-- What a parse that succeeds has read.
pub record Accepted (r t : Reading) : Type 0 where
  pub payload : r.buffer ≡ auth_payload t.session.client_hostname t.session.client_username t.buffer
  pub valid_hostname : is_valid_name t.session.client_hostname ≡ true
  pub valid_username : is_valid_name t.session.client_username ≡ true

parse_auth-Accepted :
    (r t : Reading) → All IsByte r.buffer → parse_auth_message r ≡ (ok tt, t) → Accepted r t
unfolding parse_auth_message
parse_auth-Accepted r t h e = elim (pop_uint16-cases r.buffer h) [
  | inl (x, p) ↦ absurd (ground arith)
  | inr (n, b1, p1, q1, h1) ↦ elim (pop_string-cases b1 n h1) [
    | inl (x, p) ↦ absurd (ground arith)
    | inr (host, b2, p2, q2, l2, h2) ↦ elim (pop_uint16-cases b2 h2) [
      | inl (x, p) ↦ absurd (ground arith)
      | inr (k, b3, p3, q3, h3) ↦ elim (pop_string-cases b3 k h3) [
        | inl (x, p) ↦ absurd (ground arith)
        | inr (user, b4, p4, q4, l4, h4) ↦ ground arith
      ]
    ]
  ]
]

-- The parse changes the two names at most.
abbrev pub renamed : Session → Session → Session
renamed s t = record s { client_hostname = t.client_hostname; client_username = t.client_username }

pub parse_auth-renames :
    (r : Reading) → let t = (parse_auth_message r).1.session in t ≡ renamed r.session t
unfolding parse_auth_message
parse_auth-renames r = ground arith

finish-true :
    (p : Result (Unit {0}) × Reading) {s' : Session}
    → finish_auth p ≡ (true, s')
    → (p ≡ (ok tt, p.1)) × (s' ≡ pop_message p.1.session)
finish-true (ok u, t) e = ground arith
finish-true (err x, t) e = cc

module _ (s : Session) (m : Message) (ms : List Message) (queue : s.messages ≡ m ∷ ms) where
  -- If the request in front of the queue, made of bytes, is accepted, then its bytes are the
  -- protocol's form of the names that the session then has, followed by any bytes, and both
  -- names are valid.
  pub handle_auth_sound :
      {s' : Session}
      → All IsByte m.bytes_vec
      → handle_auth_request s ≡ some (true, s')
      → ((extra : List ℕ) × (m.bytes_vec
            ≡ auth_payload s'.client_hostname s'.client_username extra))
        × (is_valid_name s'.client_hostname ≡ true)
        × (is_valid_name s'.client_username ≡ true)
  unfolding handle_auth_request
  handle_auth_sound {s'} h e =
      let r : Reading = record { session = s; buffer = m.bytes_vec } in
      let p = parse_auth_message r in
      let (q, x) = finish-true p {s' = s'} (ground arith) in
      let a = parse_auth-Accepted r p.1 h q in
      rw x ((p.1.buffer, a.payload), a.valid_hostname, a.valid_username)

  -- Accepted or not, exactly the first message is taken off the queue.
  pub handle_auth_pops :
      {ok : Bool} {s' : Session} → handle_auth_request s ≡ some (ok, s') → s'.messages ≡ ms
  unfolding handle_auth_request
  handle_auth_pops {ok} {s'} e =
      let r : Reading = record { session = s; buffer = m.bytes_vec } in
      ground (arith, parse_auth-renames r)
