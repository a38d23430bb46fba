-- ===== src/Session/Parser.antt =====
-- session.cc: `FromReqToVec` and `ParseMessage`, which cut the received bytes into messages.
use cpp_remote_screen_captur.Base.{
  ℕ, zero, suc, ◌*◌, List, [], ◌∷◌, ◌++◌, Option, none, some, length, take, drop, ltb, ◌==◌,
  if◌then◌else◌,
}
use cpp_remote_screen_captur.Session.State.{Session, Error, ok, err, too_large, clear}
use cpp_remote_screen_captur.Session.Buffer.{peek_uint32}

abbrev pub max_message_size : ℕ
max_message_size = 1024 * 1024 * 10

-- `none` is `false`: nothing is moved. Otherwise the vector and what is left of the request.
unfoldable pub from_req_to_vec : List ℕ → List ℕ → ℕ → Option (List ℕ × List ℕ)
from_req_to_vec vec request len =
    if ltb (length request) len then none else some (vec ++ take len request, drop len request)

-- How a part of the loop's body ends: it goes on to the next part, returns from `ParseMessage`,
-- or throws.
pub data Flow : Type 0 where
  goes returns : Session → Flow
  throws : Error → Flow

infixl 5 ◌>>=◌
abbrev pub ◌>>=◌ : Flow → (Session → Flow) → Flow
goes s >>= f = f s
returns s >>= f = returns s
throws e >>= f = throws e

unfoldable pub fill_type : Session → Flow
unfolding from_req_to_vec
fill_type s =
    if length s.message.type_vec == 1
    then goes s
    else elim (from_req_to_vec s.message.type_vec s.request 1) [
      | none ↦ returns s
      | some (vec, rest) ↦
          goes (record s { message = record s.message { type_vec = vec }; request = rest })
    ]

unfoldable pub fill_size : Session → Flow
unfolding from_req_to_vec
fill_size s =
    if length s.message.size_vec == 4
    then goes s
    else elim (from_req_to_vec s.message.size_vec s.request 4) [
      | none ↦ returns s
      | some (vec, rest) ↦
          goes (record s { message = record s.message { size_vec = vec }; request = rest })
    ]

-- The queue takes a copy of the message, and the message is cleared.
unfoldable pub push_message : ℕ → Session → Flow
push_message msg_len s =
    if length s.message.bytes_vec == msg_len
    then goes (record s { messages = s.messages ++ s.message ∷ []; message = clear })
    else returns s

unfoldable pub fill_bytes : ℕ → Session → Flow
unfolding from_req_to_vec push_message
fill_bytes msg_len s =
    if length s.message.bytes_vec == msg_len
    then goes s
    else if ltb max_message_size msg_len
    then returns (record s { log = s.log ++ too_large msg_len ∷ []; message = clear })
    else elim (from_req_to_vec s.message.bytes_vec s.request msg_len) [
      | none ↦ returns s
      | some (vec, rest) ↦
          push_message msg_len
            (record s { message = record s.message { bytes_vec = vec }; request = rest })
    ]

unfoldable pub fill_body : Session → Flow
unfolding peek_uint32 fill_bytes
fill_body s = elim (peek_uint32 s.message.size_vec) [
  | err e ↦ throws e
  | ok msg_len ↦ fill_bytes msg_len s
]

-- One round of `while (true)`.
unfoldable pub parse_round : Session → Flow
unfolding fill_type fill_size fill_body
parse_round s = fill_type s >>= fill_size >>= fill_body

-- `running` is a loop that has used up its fuel.
pub data Parsed : Type 0 where
  parsed running : Session → Parsed
  threw : Error → Parsed

unfoldable pub parse_message : ℕ → Session → Parsed
parse_message zero s = running s
parse_message (suc fuel) s = elim (parse_round s) [
  | goes s' ↦ parse_message fuel s'
  | returns s' ↦ parsed s'
  | throws e ↦ threw e
]

-- The loop ends within one round for each byte of the request and one more, or it does not end.
abbrev pub parse : Session → Parsed
parse s = parse_message (suc (length s.request)) s
