-- ===== src/Session/Auth.antt =====
-- session.cc: `GetMessageType`, `IsValidName`, `ParseAuthMessage` and `HandleAuthRequest`.
use cpp_remote_screen_captur.Base.{
  ℕ, Bool, true, false, ◌&&◌, ◌||◌, List, [], ◌∷◌, Option, none, some, length, is_empty, ltb, leb,
  ◌==◌, if◌then◌else◌,
}
use cpp_remote_screen_captur.Session.State.{
  Session, Message, Result, Error, ok, err, print, auth_failed, hostname_too_long, invalid_hostname,
  username_too_long, invalid_username,
}
use cpp_remote_screen_captur.Session.Buffer.{peek_uint8, pop_uint16, pop_string}
use cpp_remote_screen_captur.Session.Parser.{max_message_size}

-- The type of the message in front. `front` of an empty queue is undefined: `none`. The callers
-- test the queue first.
abbrev pub type_of_front : List Message → Option (Result ℕ)
type_of_front [] = none
type_of_front (m ∷ ms) = some (peek_uint8 m.type_vec)

unfoldable pub get_message_type : Session → Option (Result ℕ)
get_message_type s = type_of_front s.messages

-- `_messages.pop()`.
abbrev pub pop_message : Session → Session
pop_message s = record s { messages = elim s.messages [ [] ↦ [] | m ∷ ms ↦ ms ] }

-- `std::isalnum` in the "C" locale, `-` or `_`.
unfoldable pub is_name_char : ℕ → Bool
is_name_char c =
    (leb b'0' c && leb c b'9')
    || (leb b'A' c && leb c b'Z')
    || (leb b'a' c && leb c b'z')
    || c == b'-'
    || c == b'_'

unfoldable pub all_name_chars : List ℕ → Bool
unfolding is_name_char
all_name_chars [] = true
all_name_chars (c ∷ cs) = if is_name_char c then all_name_chars cs else false

unfoldable pub is_valid_name : List ℕ → Bool
is_valid_name name = if is_empty name || ltb 255 (length name) then false else all_name_chars name

-- The state of `ParseAuthMessage`: the session and the bytes of the message that it reads. What
-- was changed before a throw stays changed.
pub record Reading : Type 0 where
  pub session : Session
  pub buffer : List ℕ

abbrev pub M : Type 0 → Type 0
M A = Reading → Result A × Reading

abbrev pub and_then : {A B : Type 0} → (A → M B) → Result A × Reading → Result B × Reading
and_then f (ok a, r) = f a r
and_then f (err e, r) = (err e, r)

infixl 5 ◌>>=◌ ◌>>◌
abbrev pub ◌>>=◌ : {A B : Type 0} → M A → (A → M B) → M B
◌>>=◌ m f r = and_then f (m r)

abbrev pub ◌>>◌ : {B : Type 0} → M (Unit {0}) → M B → M B
m >> k = m >>= λ _. k

-- A `Pop` on the message's bytes.
abbrev pub popping : {A : Type 0} → (List ℕ → Result (A × List ℕ)) → M A
popping pop r = elim (pop r.buffer) [
  | ok (a, rest) ↦ (ok a, record r { buffer = rest })
  | err e ↦ (err e, r)
]

-- `if (bad) throw`.
abbrev pub throw_if : Bool → Error → M (Unit {0})
throw_if true e r = (err e, r)
throw_if false e r = (ok tt, r)

abbrev pub set_hostname : List ℕ → M (Unit {0})
set_hostname name r = (ok tt, record r { session = record r.session { client_hostname = name } })

abbrev pub set_username : List ℕ → M (Unit {0})
set_username name r = (ok tt, record r { session = record r.session { client_username = name } })

unfoldable pub parse_auth_message : M (Unit {0})
parse_auth_message = do
  hostname_len ← popping pop_uint16
  throw_if (ltb max_message_size hostname_len) hostname_too_long
  hostname ← popping (λ buffer. pop_string buffer hostname_len)
  set_hostname hostname
  throw_if (if is_valid_name hostname then false else true) invalid_hostname
  username_len ← popping pop_uint16
  throw_if (ltb max_message_size username_len) username_too_long
  username ← popping (λ buffer. pop_string buffer username_len)
  set_username username
  throw_if (if is_valid_name username then false else true) invalid_username

-- The `try` and its handler; the message read goes with the pop, whatever is left in it.
abbrev pub finish_auth : Result (Unit {0}) × Reading → Bool × Session
finish_auth (ok _, r) = (true, pop_message r.session)
finish_auth (err e, r) = (false, pop_message (print (auth_failed e) r.session))

abbrev pub auth_front : Session → List Message → Option (Bool × Session)
auth_front s [] = none
auth_front s (m ∷ ms) =
    some (finish_auth (parse_auth_message (record { session = s; buffer = m.bytes_vec })))

unfoldable pub handle_auth_request : Session → Option (Bool × Session)
handle_auth_request s = auth_front s s.messages
