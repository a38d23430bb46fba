-- ===== src/Session/AuthLaws.antt =====
-- session.cc: `ParseAuthMessage` and `HandleAuthRequest` on requests of the protocol's form.
use cpp_remote_screen_captur.Base.{
  ℕ, ◌^◌, ◌≤◌, ◌<◌, ◌≡◌, refl, ap, ◌∙◌, List, [], ◌∷◌, ◌++◌, length, arith, length-append, true,
  false, some, take-append_length, drop-append_length, le→ltb_false,
}
use cpp_remote_screen_captur.Base.Bytes.{be16, of_be16-be16}
use cpp_remote_screen_captur.Session.State.{
  Session, Message, Result, ok, err, auth_failed, invalid_hostname,
}
use cpp_remote_screen_captur.Session.Buffer.{pop_uint16, pop_string}
use cpp_remote_screen_captur.Session.Parser.{max_message_size}
use cpp_remote_screen_captur.Session.Auth.{
  is_valid_name, Reading, parse_auth_message, handle_auth_request, auth_front, finish_auth,
}

-- The payload of an authentication message, as server.h gives it, and what stands behind it.
abbrev pub auth_payload : List ℕ → List ℕ → List ℕ → List ℕ
auth_payload hostname username extra =
    be16 (length hostname) ++ (hostname ++ (be16 (length username) ++ (username ++ extra)))

-- A number below 65536 that is written in two bytes, highest first, is read back, and what stands
-- behind it is left.
pub pop_uint16-be16 :
    (n : ℕ) (rest : List ℕ) → n < 2 ^ 16 → pop_uint16 (be16 n ++ rest) ≡ ok (n, rest)
unfolding pop_uint16
pop_uint16-be16 n rest h = ground (arith, of_be16-be16 n)

-- A string is read back by its length from what begins with it, and what stands behind it is
-- left.
pub pop_string-append :
    (name rest : List ℕ) → pop_string (name ++ rest) (length name) ≡ ok (name, rest)
unfolding pop_string
pop_string-append name rest = rw (
  le→ltb_false (length (name ++ rest)) (length name) (omega (arith, length-append name rest)),
  take-append_length name rest (length name) refl,
  drop-append_length name rest (length name) refl,
)

pub length-valid : (name : List ℕ) → is_valid_name name ≡ true → length name ≤ 255
unfolding is_valid_name
length-valid [] h = omega arith
length-valid (c ∷ cs) h = ground arith

parse_auth-accepts :
    (s : Session) (hostname username extra : List ℕ)
    → is_valid_name hostname ≡ true
    → is_valid_name username ≡ true
    → parse_auth_message (record { session = s; buffer = auth_payload hostname username extra }) ≡ (
      ok tt,
      record {
        session = record s { client_hostname = hostname; client_username = username };
        buffer = extra;
      },
    )
unfolding parse_auth_message
parse_auth-accepts s hostname username extra vh vu =
    let lh = length-valid hostname vh in
    let lu = length-valid username vu in
    let back = be16 (length username) ++ (username ++ extra) in
    ground (
      arith,
      pop_uint16-be16 (length hostname) (hostname ++ back) (omega arith),
      le→ltb_false max_message_size (length hostname) (omega arith),
      pop_string-append hostname back,
      vh,
      pop_uint16-be16 (length username) (username ++ extra) (omega arith),
      le→ltb_false max_message_size (length username) (omega arith),
      pop_string-append username extra,
      vu,
    )

-- A hostname that is refused has been stored by then.
parse_auth-refuses :
    (s : Session) (hostname back : List ℕ)
    → length hostname < 2 ^ 16
    → is_valid_name hostname ≡ false
    → parse_auth_message
        (record { session = s; buffer = be16 (length hostname) ++ (hostname ++ back) })
      ≡ (
        err invalid_hostname,
        record { session = record s { client_hostname = hostname }; buffer = back },
      )
unfolding parse_auth_message
parse_auth-refuses s hostname back lh bad = ground (
  arith,
  pop_uint16-be16 (length hostname) (hostname ++ back) lh,
  le→ltb_false max_message_size (length hostname) (omega arith),
  pop_string-append hostname back,
  bad,
)

module _ (s : Session) (m : Message) (ms : List Message) (queue : s.messages ≡ m ∷ ms) where
  -- A request in front of the queue, of the protocol's form and with two valid names, is
  -- accepted: the names are then the session's, the message is taken off the queue, and nothing
  -- else is changed.
  pub handle_auth_accepts :
      (hostname username extra : List ℕ)
      → m.bytes_vec ≡ auth_payload hostname username extra
      → is_valid_name hostname ≡ true
      → is_valid_name username ≡ true
      → handle_auth_request s
        ≡ some (
          true,
          record s { client_hostname = hostname; client_username = username; messages = ms },
        )
  unfolding handle_auth_request
  handle_auth_accepts hostname username extra e vh vu =
      ap (auth_front s) queue
      ∙ ap
          (λ (b : List ℕ).
            some (finish_auth (parse_auth_message (record { session = s; buffer = b }))))
          e
      ∙ ap (λ (p : Result (Unit {0}) × Reading). some (finish_auth p))
          (parse_auth-accepts s hostname username extra vh vu)
      ∙ rw queue refl

  -- A request in front of the queue with an invalid hostname of less than 65536 bytes is
  -- refused and taken off the queue, but the hostname replaces that of the session.
  pub handle_auth_refuses :
      (hostname back : List ℕ)
      → m.bytes_vec ≡ be16 (length hostname) ++ (hostname ++ back)
      → length hostname < 2 ^ 16
      → is_valid_name hostname ≡ false
      → handle_auth_request s
        ≡ some (
          false,
          record s {
            client_hostname = hostname;
            messages = ms;
            log = s.log ++ auth_failed invalid_hostname ∷ [];
          },
        )
  unfolding handle_auth_request
  handle_auth_refuses hostname back e lh bad =
      ap (auth_front s) queue
      ∙ ap
          (λ (b : List ℕ).
            some (finish_auth (parse_auth_message (record { session = s; buffer = b }))))
          e
      ∙ ap (λ (p : Result (Unit {0}) × Reading). some (finish_auth p))
          (parse_auth-refuses s hostname back lh bad)
      ∙ rw queue refl
