-- ===== src/Conversation/Agreement.antt =====
-- `TryAuthenticate` at the client against the server's answer, among all other clients.
use cpp_remote_screen_captur.Base.{
  ℕ, ◌<◌, ◌^◌, ◌≡◌, refl, sym, ap, ◌∙◌, Bool, true, false, ◌&&◌, List, [], ◌∷◌, ◌++◌, length, some,
  ◌==◌, arith, append-nil, ◌⊎◌, inl, inr, Bool-cases, subst,
}
use cpp_remote_screen_captur.Base.Table.{find}
use cpp_remote_screen_captur.Session.State.{Session, open_session}
use cpp_remote_screen_captur.Session.Socket.{Recv, bytes, Send, auth_byte}
use cpp_remote_screen_captur.Session.Auth.{is_valid_name}
use cpp_remote_screen_captur.Session.Framing.{encode}
use cpp_remote_screen_captur.Session.Chunks.{received_all}
use cpp_remote_screen_captur.Client.State.{Client, done}
use cpp_remote_screen_captur.Client.Messages.{
  create_authentication_request, auth_frame, create_authentication_request-encode,
}
use cpp_remote_screen_captur.Client.Transfer.{IsSending, total, send_all_returns, recv_all_one}
use cpp_remote_screen_captur.Client.Loop.{try_authenticate}
use cpp_remote_screen_captur.Server.State.{Server}
use cpp_remote_screen_captur.Server.Invariant.{Inv}
use cpp_remote_screen_captur.Server.Answers.{Answers, Answered, QuietAt}
use cpp_remote_screen_captur.Server.Interleaving.{Run}
use cpp_remote_screen_captur.Server.Requests.{Run-Answered}

-- The client takes 'Y' for a yes and any other byte for a no.
try_authenticate_reads :
    (sends : List Send) (recvs : List Recv) (c : Client) (b : ℕ)
    → length c.hostname < 2 ^ 16
    → length c.username < 2 ^ 16
    → IsSending sends
    → total sends ≡ length (encode (auth_frame c.hostname c.username))
    → (try_authenticate sends (bytes (b ∷ []) ∷ recvs) c).0 ≡ done (b == b'Y')
unfolding try_authenticate
try_authenticate_reads sends recvs c b h u s t =
    rw
      (
        create_authentication_request-encode c.hostname c.username h u,
        send_all_returns sends (encode (auth_frame c.hostname c.username)) s t,
        recv_all_one recvs b,
      )
      (ground arith)

auth_byte-Y : (ok : Bool) → (auth_byte ok == b'Y') ≡ ok
auth_byte-Y true = refl
auth_byte-Y false = refl

first_byte :
    (sent response rest : List ℕ) (b y : ℕ) → sent ++ response ≡ y ∷ [] → sent ≡ b ∷ rest → b ≡ y
first_byte [] response rest b y e f = cc
first_byte (x ∷ xs) response rest b y e f = cc

module _ (fd : ℕ) (v w : Server) (host port : List ℕ) (c : Client) (answers : List (List Recv))
    (short : length c.hostname < 2 ^ 16) (short_user : length c.username < 2 ^ 16)
    (run : Run Answers fd w v answers) (inv : Inv v)
    (fresh : find fd v.table ≡ some (open_session fd host port))
    (whole : received_all answers ≡ create_authentication_request c.hostname c.username) where
  abbrev pub agreed : Bool
  agreed = is_valid_name c.hostname && is_valid_name c.username

  -- The names of an accepted client are its session's.
  abbrev pub Named : Session → Type 0
  Named s = (agreed ≡ false) ⊎ ((s.client_hostname ≡ c.hostname) × (s.client_username ≡ c.username))

  -- The session that has answered.
  pub request-Answered : Answered fd w [] c.hostname c.username
  request-Answered =
      let start : QuietAt fd v [] [] [] [] [] = record {
        session = open_session fd host port;
        found = fresh;
        quiet = record {
          holds = refl;
          empty = refl;
          wrote = refl;
          responds = refl;
          sends = refl;
          hostname = refl;
          username = refl;
        };
      } in
      let sent =
        whole
        ∙ create_authentication_request-encode c.hostname c.username short short_user
        ∙ sym (append-nil _)
        ∙ sym (append-nil _) in
      Run-Answered fd w [] tt c.hostname c.username [] [] short short_user v answers [] run inv
        start tt sent

  -- If the events of a client, over any run that returns and in which other clients' events and
  -- new connections come between, bring exactly its request, with names of less than 65536
  -- bytes, on a connection that stays open and takes the answer, to a new session of a server
  -- that serves every session, then the session's queue is empty again, and exactly one byte is
  -- sent or waits to be sent: 'Y' if both names are valid, when the names are the session's,
  -- and 'N' otherwise.
  pub request_decided :
      (s : Session) × (find fd w.table ≡ some s)
      × (s.messages ≡ [])
      × (s.sent ++ s.response ≡ auth_byte agreed ∷ [])
      × Named s
  request_decided =
      let a = request-Answered in
      let s : Session = a.at.session in
      let q = a.at.quiet in
      let answer : s.sent ++ s.response ≡ auth_byte agreed ∷ [] =
        ap (λ (x : List ℕ). x ++ s.response) q.sends ∙ ap (◌++◌ a.sent) q.responds ∙ a.answer in
      (
        s,
        a.at.found,
        q.empty,
        answer,
        elim (Bool-cases agreed) [
          | inr refused ↦ inl refused
          | inl taken ↦
              let n = a.names (ground arith) (ground arith) in
              inr (q.hostname ∙ n.0, q.username ∙ n.1)
        ],
      )

  -- If the events of a client, over any run that returns and in which other clients' events and
  -- new connections come between, bring exactly its request, with names of less than 65536
  -- bytes, on a connection that stays open and takes the answer, to a new session of a server
  -- that serves every session, then a client that has sent the whole request and reads the
  -- first byte that the session has sent is authenticated exactly if both names are valid, and
  -- the session of an authenticated client has its names.
  pub both_agree :
      (sends : List Send) (recvs : List Recv) (s : Session) (b : ℕ) (rest : List ℕ)
      → IsSending sends
      → total sends ≡ length (encode (auth_frame c.hostname c.username))
      → find fd w.table ≡ some s
      → s.sent ≡ b ∷ rest
      → ((try_authenticate sends (bytes (b ∷ []) ∷ recvs) c).0 ≡ done agreed) × Named s
  both_agree sends recvs s b rest sending all found sent =
      let (t, at, empty, answer, names) = request_decided in
      let same : t ≡ s = ground (arith, at, found) in
      (
        try_authenticate_reads sends recvs c b short short_user sending all
            ∙ ap (λ (x : ℕ). done (x == b'Y'))
                (first_byte t.sent t.response rest b (auth_byte agreed) answer
                  (ap (λ (x : Session). x.sent) same ∙ sent))
            ∙ ap done (auth_byte-Y agreed),
        subst Named same names,
      )
