-- ===== src/Session/AuthDecides.antt =====
-- session.cc: `HandleAuthRequest` on a request of the protocol's form with any two names.
use cpp_remote_screen_captur.Base.{
  ℕ, ◌^◌, ◌<◌, ◌≡◌, refl, sym, ap, ◌∙◌, List, [], ◌∷◌, ◌++◌, length, arith, Bool, true, false, ◌&&◌,
  some, le→ltb_false, Bool-cases, inl, inr,
}
use cpp_remote_screen_captur.Base.Bytes.{be16}
use cpp_remote_screen_captur.Session.State.{
  Session, Message, Result, err, auth_failed, invalid_username,
}
use cpp_remote_screen_captur.Session.Parser.{max_message_size}
use cpp_remote_screen_captur.Session.Auth.{
  is_valid_name, Reading, parse_auth_message, handle_auth_request, auth_front, finish_auth,
}
use cpp_remote_screen_captur.Session.AuthLaws.{
  auth_payload, length-valid, pop_uint16-be16, pop_string-append, handle_auth_accepts,
  handle_auth_refuses,
}

-- A username that is refused has been stored by then, and so has the hostname.
parse_auth-refuses_username :
    (s : Session) (hostname username : List ℕ)
    → is_valid_name hostname ≡ true
    → length username < 2 ^ 16
    → is_valid_name username ≡ false
    → parse_auth_message (record { session = s; buffer = auth_payload hostname username [] }) ≡ (
      err invalid_username,
      record {
        session = record s { client_hostname = hostname; client_username = username };
        buffer = [];
      },
    )
unfolding parse_auth_message
parse_auth-refuses_username s hostname username vh lu bad =
    let lh = length-valid hostname vh in
    let back = be16 (length username) ++ (username ++ []) in
    ground (
      arith,
      pop_uint16-be16 (length hostname) (hostname ++ back) (omega arith),
      le→ltb_false max_message_size (length hostname) (omega arith),
      pop_string-append hostname back,
      vh,
      pop_uint16-be16 (length username) (username ++ []) lu,
      le→ltb_false max_message_size (length username) (omega arith),
      pop_string-append username [],
      bad,
    )

-- What a request leaves, accepted or not.
pub record Decided (s t : Session) (hostname username : List ℕ) (ms : List Message) : Type 0 where
  pub others : t ≡ record s {
    client_hostname = t.client_hostname;
    client_username = t.client_username;
    messages = ms;
    log = t.log;
  }
  pub names :
      is_valid_name hostname ≡ true
      → is_valid_name username ≡ true
      → (t.client_hostname ≡ hostname) × (t.client_username ≡ username)

module _ (s : Session) (m : Message) (ms : List Message) (queue : s.messages ≡ m ∷ ms)
    (hostname username : List ℕ) (form : m.bytes_vec ≡ auth_payload hostname username [])
    (short : length hostname < 2 ^ 16) (short_user : length username < 2 ^ 16) where
  refuses_username :
      is_valid_name hostname ≡ true
      → is_valid_name username ≡ false
      → handle_auth_request s
        ≡ some (
          false,
          record s {
            client_hostname = hostname;
            client_username = username;
            messages = ms;
            log = s.log ++ auth_failed invalid_username ∷ [];
          },
        )
  unfolding handle_auth_request
  refuses_username vh bad =
      ap (auth_front s) queue
      ∙ ap
          (λ (b : List ℕ).
            some (finish_auth (parse_auth_message (record { session = s; buffer = b }))))
          form
      ∙ ap (λ (p : Result (Unit {0}) × Reading). some (finish_auth p))
          (parse_auth-refuses_username s hostname username vh short_user bad)
      ∙ rw queue refl

  abbrev Decision : Type 0
  Decision =
      (t : Session) × (handle_auth_request s
        ≡ some (is_valid_name hostname && is_valid_name username, t))
      × Decided s t hostname username ms

  decided :
      (b : Bool) (t : Session)
      → handle_auth_request s ≡ some (b, t)
      → is_valid_name hostname && is_valid_name username ≡ b
      → Decided s t hostname username ms
      → Decision
  decided b t e f d = (t, e ∙ ap (λ (x : Bool). some (x, t)) (sym f), d)

  -- A request of the protocol's form is accepted exactly if both names are valid.
  pub handle_auth_decides : Decision
  handle_auth_decides = elim (Bool-cases (is_valid_name hostname)) [
    | inr bad ↦
        decided _ _ (handle_auth_refuses s m ms queue hostname _ form short bad) (rw bad refl)
          (record { others = refl; names = λ h u. cc })
    | inl vh ↦ elim (Bool-cases (is_valid_name username)) [
      | inr bad ↦
          decided _ _ (refuses_username vh bad) (rw (vh, bad) refl)
            (record { others = refl; names = λ h u. cc })
      | inl vu ↦
          decided _ _ (handle_auth_accepts s m ms queue hostname username [] form vh vu)
            (rw (vh, vu) refl) (record { others = refl; names = λ h u. (refl, refl) })
    ]
  ]
