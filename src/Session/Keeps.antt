-- ===== src/Session/Keeps.antt =====
-- What each call leaves of a session, as the server needs it.
use cpp_remote_screen_captur.Base.{
  ℕ, zero, suc, ◌≤◌, ◌<◌, ◌≡◌, ◌≢◌, refl, ◌∙◌, List, [], ◌∷◌, Option, none, some, All, All-append,
  length, take, arith, length-append, length-take, if-cases, ltb, ◌==◌,
}
use cpp_remote_screen_captur.Session.State.{Session, Message, Error, Result, ok, err}
use cpp_remote_screen_captur.Session.Parser.{
  Flow, goes, returns, throws, fill_type, fill_size, fill_body, fill_bytes, push_message,
  parse_round, Parsed, parsed, running, threw, parse_message, max_message_size, ◌>>=◌,
  from_req_to_vec,
}
use cpp_remote_screen_captur.Session.Buffer.{peek_uint32}

-- Every queued message has a type.
abbrev pub AllTyped : List Message → Type 0
AllTyped = All (λ m. 0 < length m.type_vec)

-- The second session has grown out of the first by receiving and parsing.
pub record Parses (s s' : Session) : Type 0 where
  pub same_fd : s'.client_fd ≡ s.client_fd
  pub same_response : s'.response ≡ s.response
  pub typed : AllTyped s'.messages

-- A round that does not throw, with a further fact of the session that goes on.
abbrev FlowOk : Session → (Session → Type 0) → Flow → Type 0
FlowOk s Q (goes s') = Parses s s' × Q s'
FlowOk s Q (returns s') = Parses s s'
FlowOk s Q (throws e) = ⊥

fill_type-ok :
    (s : Session)
    → AllTyped s.messages
    → FlowOk s (λ t. 0 < length t.message.type_vec) (fill_type s)
unfolding fill_type from_req_to_vec
fill_type-ok s h =
    ground (arith, length-append s.message.type_vec (take 1 s.request), length-take 1 s.request)

fill_size-ok :
    (s t : Session)
    → Parses s t
    → 0 < length t.message.type_vec
    → FlowOk s
        (λ u. (0 < length u.message.type_vec) × (4 ≤ length u.message.size_vec))
        (fill_size t)
unfolding fill_size from_req_to_vec
fill_size-ok s t p h =
    ground (arith, length-append t.message.size_vec (take 4 t.request), length-take 4 t.request)

abbrev Anything : Session → Type 0
Anything s = Unit {0}

push_message-ok :
    (n : ℕ) (s t : Session)
    → Parses s t
    → 0 < length t.message.type_vec
    → FlowOk s Anything (push_message n t)
unfolding push_message
push_message-ok n s t p h =
    if-cases (FlowOk s Anything) (length t.message.bytes_vec == n) _ _
      (λ _. (
        record {
          same_fd = p.same_fd;
          same_response = p.same_response;
          typed =
              All-append (λ m. 0 < length m.type_vec) t.messages (t.message ∷ []) p.typed (h, tt);
        },
        tt,
      ))
      (λ _. p)

move_bytes-ok :
    (n : ℕ) (s t : Session) (moved : Option (List ℕ × List ℕ))
    → Parses s t
    → 0 < length t.message.type_vec
    → FlowOk s Anything (elim moved [
      | none ↦ returns t
      | some (vec, rest) ↦
          push_message n
            (record t { message = record t.message { bytes_vec = vec }; request = rest })
    ])
move_bytes-ok n s t none p h = p
move_bytes-ok n s t (some (vec, rest)) p h =
    push_message-ok n s _
      (record { same_fd = p.same_fd; same_response = p.same_response; typed = p.typed }) h

fill_bytes-ok :
    (n : ℕ) (s t : Session)
    → Parses s t
    → 0 < length t.message.type_vec
    → FlowOk s Anything (fill_bytes n t)
unfolding fill_bytes
fill_bytes-ok n s t p h =
    if-cases (FlowOk s Anything) (length t.message.bytes_vec == n) _ _ (λ _. (p, tt))
      λ _.
        if-cases (FlowOk s Anything) (ltb max_message_size n) _ _
          (λ _. record { same_fd = p.same_fd; same_response = p.same_response; typed = p.typed })
          (λ _. move_bytes-ok n s t _ p h)

peek_uint32-ne-err : (b : List ℕ) (x : Error) → 4 ≤ length b → peek_uint32 b ≢ err x
unfolding peek_uint32
peek_uint32-ne-err b x h e = ground arith

sized_body-ok :
    (s t : Session) (r : Result ℕ)
    → Parses s t
    → 0 < length t.message.type_vec
    → ((x : Error) → r ≢ err x)
    → FlowOk s Anything (elim r [ err e ↦ throws e | ok n ↦ fill_bytes n t ])
sized_body-ok s t (ok n) p h k = fill_bytes-ok n s t p h
sized_body-ok s t (err x) p h k = k x refl

fill_body-ok :
    (s t : Session)
    → Parses s t
    → 0 < length t.message.type_vec
    → 4 ≤ length t.message.size_vec
    → FlowOk s Anything (fill_body t)
unfolding fill_body
fill_body-ok s t p h k =
    sized_body-ok s t (peek_uint32 t.message.size_vec) p h
      (λ x. peek_uint32-ne-err t.message.size_vec x k)

FlowOk->>= :
    (s : Session) (P Q : Session → Type 0) (m : Flow) (f : Session → Flow)
    → FlowOk s P m
    → ((t : Session) → Parses s t → P t → FlowOk s Q (f t))
    → FlowOk s Q (m >>= f)
FlowOk->>= s P Q (goes t) f h k = k t h.0 h.1
FlowOk->>= s P Q (returns t) f h k = h
FlowOk->>= s P Q (throws e) f h k = absurd h

parse_round-ok : (s : Session) → AllTyped s.messages → FlowOk s Anything (parse_round s)
unfolding parse_round
parse_round-ok s h =
    FlowOk->>= s _ Anything (fill_type s >>= fill_size) fill_body
      (FlowOk->>= s _ _ (fill_type s) fill_size (fill_type-ok s h) (fill_size-ok s))
      (λ t p q. fill_body-ok s t p q.0 q.1)

-- The loop, ended or not.
abbrev pub ParsedOk : Session → Parsed → Type 0
ParsedOk s (parsed s') = Parses s s'
ParsedOk s (running s') = Parses s s'
ParsedOk s (threw e) = ⊥

Parses-trans : (s t u : Session) → Parses s t → Parses t u → Parses s u
Parses-trans s t u p q = record {
  same_fd = q.same_fd ∙ p.same_fd;
  same_response = q.same_response ∙ p.same_response;
  typed = q.typed;
}

ParsedOk-trans : (s t : Session) (r : Parsed) → Parses s t → ParsedOk t r → ParsedOk s r
ParsedOk-trans s t (parsed u) p q = Parses-trans s t u p q
ParsedOk-trans s t (running u) p q = Parses-trans s t u p q
ParsedOk-trans s t (threw e) p q = q

parse_on :
    (fuel : ℕ) (s : Session) (f : Flow)
    → FlowOk s Anything f
    → ((t : Session) → AllTyped t.messages → ParsedOk t (parse_message fuel t))
    → ParsedOk s
        (elim f [ goes s' ↦ parse_message fuel s' | returns s' ↦ parsed s' | throws e ↦ threw e ])
parse_on fuel s (goes t) h k = ParsedOk-trans s t (parse_message fuel t) h.0 (k t h.0.typed)
parse_on fuel s (returns t) h k = h
parse_on fuel s (throws e) h k = absurd h

-- On a session whose queued messages all have a type, `ParseMessage` throws nothing, however far
-- it runs, and queues only messages that have a type; it does not touch the descriptor and the
-- response.
pub parse_message-ParsedOk :
    (fuel : ℕ) (s : Session) → AllTyped s.messages → ParsedOk s (parse_message fuel s)
unfolding parse_message
parse_message-ParsedOk zero s h = record { same_fd = refl; same_response = refl; typed = h }
parse_message-ParsedOk (suc fuel) s h =
    parse_on fuel s (parse_round s) (parse_round-ok s h) (parse_message-ParsedOk fuel)
