-- ===== src/Client/Runs.antt =====
-- client.cc: a whole `Run`, however it ends.
use cpp_remote_screen_captur.Base.{
  ℕ, ◌≡◌, refl, sym, ap, subst, ◌∙◌, Bool, true, false, List, [], ◌∷◌, ◌++◌, arith, All,
  append_assoc, Bool-cases, ◌⊎◌, inl, inr, ◌==◌, ==_iff, if◌then◌else◌,
}
use cpp_remote_screen_captur.Session.Socket.{Recv, Send}
use cpp_remote_screen_captur.Session.Framing.{encode_all}
use cpp_remote_screen_captur.Client.State.{Client, Io, done, threw, waiting, print, authenticated}
use cpp_remote_screen_captur.Client.Setup.{Connecting, setup_hostname, setup_username, setup_socket}
use cpp_remote_screen_captur.Client.Messages.{create_authentication_request}
use cpp_remote_screen_captur.Client.Socket.{recv_all}
use cpp_remote_screen_captur.Client.Loop.{
  World, and_then, try_authenticate, after_request, after_response, after_auth, caught, run,
}
use cpp_remote_screen_captur.Client.Traffic.{IsSendable}
use cpp_remote_screen_captur.Client.Whole.{
  Begins-more, Took, Took-nothing, Wrote, images_of, send_bytes-Wrote, send_loop-Took,
}

-- The server's answer begins with 'Y'.
abbrev pub SaysYes : List Recv → Type 0
SaysYes recvs = (rest : List ℕ) × (recv_all recvs 1 ≡ done (b'Y' ∷ rest))

-- A call of `TryAuthenticate` has put a first part of the request on the connection, and is true
-- only after a 'Y' and with the whole request sent.
record Asked (c : Client) (octets : List ℕ) (recvs : List Recv) (p : Io Bool × Client)
    : Type 0 where
  took : Took c.sent octets p.1
  whole : p.0 ≡ done true → (p.1.sent ≡ c.sent ++ octets) × SaysYes recvs

after_response-Asked :
    (c : Client) (octets : List ℕ) (recvs : List Recv) (r : Io (List ℕ)) (d : Client)
    → Took c.sent octets d
    → d.sent ≡ c.sent ++ octets
    → recv_all recvs 1 ≡ r
    → Asked c octets recvs (after_response r d)
after_response-Asked c octets recvs (done []) d t s e = record { took = t; whole = λ f. cc }
after_response-Asked c octets recvs (done (b ∷ bs)) d t s e = elim (Bool-cases (b == b'Y')) [
  | inl y ↦
      subst (Asked c octets recvs)
        (sym (ap (λ x. if x then (done true, print authenticated d) else (done false, d)) y))
        (record {
          took = t;
          whole = λ f. (s, (bs, e ∙ ap (λ (x : ℕ). done (x ∷ bs)) (ground (arith, ==_iff b b'Y'))));
        })
  | inr n ↦
      subst (Asked c octets recvs)
        (sym (ap (λ x. if x then (done true, print authenticated d) else (done false, d)) n))
        (record { took = t; whole = λ f. cc })
]
after_response-Asked c octets recvs (threw x) d t s e = record { took = t; whole = λ f. cc }
after_response-Asked c octets recvs waiting d t s e = record { took = t; whole = λ f. cc }

after_request-Asked :
    (c : Client) (octets : List ℕ) (recvs : List Recv) (p : Io ℕ × Client)
    → Wrote c octets p
    → Asked c octets recvs (after_request recvs p)
after_request-Asked c octets recvs (done n, d) h =
    after_response-Asked c octets recvs (recv_all recvs 1) d h.took (h.all_of n refl) refl
after_request-Asked c octets recvs (threw e, d) h = record { took = h.took; whole = λ f. cc }
after_request-Asked c octets recvs (waiting, d) h = record { took = h.took; whole = λ f. cc }

abbrev request_of : Client → List ℕ
request_of c = create_authentication_request c.hostname c.username

try_authenticate-Asked :
    (sends : List Send) (recvs : List Recv) (c : Client)
    → Asked c (request_of c) recvs (try_authenticate sends recvs c)
unfolding try_authenticate
try_authenticate-Asked sends recvs c =
    after_request-Asked c (request_of c) recvs _ (send_bytes-Wrote sends (request_of c) c)

-- What a run has put on its connection: a first part of the request and the images' frames, and
-- none of the images unless the server has said 'Y'.
pub record Spoke (w : World) (before request : List ℕ) (d : Client) : Type 0 where
  pub stream : Took before (request ++ encode_all (images_of w.rounds)) d
  pub permitted : Took before request d ⊎ SaysYes w.auth_recvs

after_auth-Spoke :
    (w : World) (c : Client) (octets : List ℕ) (p : Io Bool × Client)
    → All IsSendable w.rounds
    → Asked c octets w.auth_recvs p
    → Spoke w c.sent octets (after_auth w p).1
after_auth-Spoke w c octets (done true, d) good h =
    let (sent, yes_) = h.whole refl in
    let (wire, e, (rest, b)) = send_loop-Took w.rounds w.flags d good in
    record {
      stream = (
        octets ++ wire,
        e ∙ ap (λ (x : List ℕ). x ++ wire) sent ∙ append_assoc c.sent octets wire,
        (rest, append_assoc octets wire rest ∙ ap (◌++◌ octets) b),
      );
      permitted = inr yes_;
    }
after_auth-Spoke w c octets (done false, d) good h =
    let (wire, e, b) = h.took in
    record { stream = (wire, e, Begins-more wire octets _ b); permitted = inl h.took }
after_auth-Spoke w c octets (threw x, d) good h =
    let (wire, e, b) = h.took in
    record { stream = (wire, e, Begins-more wire octets _ b); permitted = inl h.took }
after_auth-Spoke w c octets (waiting, d) good h =
    let (wire, e, b) = h.took in
    record { stream = (wire, e, Begins-more wire octets _ b); permitted = inl h.took }

caught-Spoke :
    (w : World) (before request : List ℕ) (p : Io (Unit {0}) × Client)
    → Spoke w before request p.1
    → Spoke w before request (caught p).1
caught-Spoke w before request (done u, d) h = h
caught-Spoke w before request (threw e, d) h = record { stream = h.stream; permitted = h.permitted }
caught-Spoke w before request (waiting, d) h = h

-- Setting up changes neither the names nor what has been sent.
Untouched : Client → Client → Type 0
Untouched c d = (d.sent ≡ c.sent) × (d.hostname ≡ c.hostname) × (d.username ≡ c.username)

setup_socket-Untouched : (sys : Connecting) (c : Client) → Untouched c (setup_socket sys c).1
unfolding setup_socket Untouched
setup_socket-Untouched sys c = ground arith

silent : (w : World) (c : Client) (request : List ℕ) → Spoke w c.sent request c
silent w c request = record { stream = Took-nothing _ c; permitted = inl (Took-nothing request c) }

connected-Spoke :
    (w : World) (c : Client) (p : Io (Unit {0}) × Client)
    → All IsSendable w.rounds
    → Untouched c p.1
    → Spoke w c.sent
        (request_of c)
        (and_then (λ d. after_auth w (try_authenticate w.auth_sends w.auth_recvs d)) p).1
unfolding Untouched
connected-Spoke w c (done u, d) good (sent, host, user) =
    let q = try_authenticate w.auth_sends w.auth_recvs d in
    subst (λ x. Spoke w x (request_of c) (after_auth w q).1) sent
      (subst (λ x. Spoke w d.sent x (after_auth w q).1)
        (ap (λ (h : List ℕ). create_authentication_request h d.username) host
          ∙ ap (create_authentication_request c.hostname) user)
        (after_auth-Spoke w d (request_of d) q good
          (try_authenticate-Asked w.auth_sends w.auth_recvs d)))
connected-Spoke w c (threw e, d) good (sent, host, user) =
    subst (λ x. Spoke w x (request_of c) d) sent (silent w d (request_of c))
connected-Spoke w c (waiting, d) good (sent, host, user) =
    subst (λ x. Spoke w x (request_of c) d) sent (silent w d (request_of c))

-- The client with the names that `Run` gives it.
abbrev pub named : World → Client → Client
named w c = setup_username w.user_name (setup_hostname w.host_name c)

named-sent : (w : World) (c : Client) → (named w c).sent ≡ c.sent
unfolding setup_username setup_hostname
named-sent w c = ground arith

-- Whatever the system and the server answer, a run of a client whose images have less than
-- 4294967296 bytes puts on its connection only a first part of its request followed by the frames
-- of its images in order; more than the request only if the server's answer begins with 'Y'.
pub run-Spoke :
    (w : World) (c : Client)
    → All IsSendable w.rounds
    → Spoke w c.sent
        (create_authentication_request (named w c).hostname (named w c).username)
        (run w c).1
unfolding run
run-Spoke w c good =
    let d : Client = named w c in
    let p : Io (Unit {0}) × Client =
      and_then (λ e. after_auth w (try_authenticate w.auth_sends w.auth_recvs e))
        (setup_socket w.connecting d) in
    caught-Spoke w c.sent (request_of d) p (
      subst (λ x. Spoke w x (request_of d) p.1) (named-sent w c)
        (connected-Spoke w d (setup_socket w.connecting d) good
          (setup_socket-Untouched w.connecting d)))
