-- ===== src/Server/Interleaving.antt =====
-- server.cc: one client's events among the connections and the events of all others.
use cpp_remote_screen_captur.Base.{
  ℕ, suc, ◌+◌, ◌≡◌, ◌≢◌, refl, sym, ap, subst, ◌∙◌, Bool, List, [], ◌∷◌, ◌++◌, Option, none, some,
  All, All-split, arith, length, append-nil, append_assoc,
}
use cpp_remote_screen_captur.Base.Table.{find, find-put_ne}
use cpp_remote_screen_captur.Session.State.{
  Session, Errno, eagain, ewouldblock, eintr, epipe, other,
}
use cpp_remote_screen_captur.Session.Socket.{Recv}
use cpp_remote_screen_captur.Session.Framing.{Frame, encode, encode_all, IsGood, IsPartial}
use cpp_remote_screen_captur.Session.Framing.Cuts.{cut}
use cpp_remote_screen_captur.Session.Chunks.{received, received_all, not-IsPartial-encode}
use cpp_remote_screen_captur.Server.State.{Server, Event, Ran, ran}
use cpp_remote_screen_captur.Server.Handlers.{handle_event}
use cpp_remote_screen_captur.Server.Connections.{
  Incoming, Accept, incoming, failed, register, add_connection, accept_new_connections,
}
use cpp_remote_screen_captur.Server.Invariant.{Inv, EventOk}
use cpp_remote_screen_captur.Server.Service.{handle_event-EventOk}
use cpp_remote_screen_captur.Server.Isolation.{Others, handle_event-Others}
use cpp_remote_screen_captur.Server.History.{AllFresh, accept_new_connections-Inv}
use cpp_remote_screen_captur.Server.Arrivals.{IsArrival}

-- A connected client's session is not touched by what `accept` gives.
register-found :
    (i : Incoming) (host : Option (List ℕ)) (v : Server) (m : List (ℕ × Bool)) (fd : ℕ)
    → i.fd ≢ fd
    → find fd (register i host (record v { interest = m })).table ≡ find fd v.table
register-found i none v m fd ne = refl
register-found i (some host) v m fd ne = find-put_ne i.fd fd _ v.table ne

add_connection-found :
    (i : Incoming) (ctl : Option Errno) (v : Server) (fd : ℕ)
    → i.fd ≢ fd
    → find fd (add_connection i ctl v).table ≡ find fd v.table
unfolding add_connection
add_connection-found i (some e) v fd ne = refl
add_connection-found i none v fd ne = register-found i i.host v _ fd ne

pub accept_new_connections-found :
    (answers : List Accept) (v : Server) (fd : ℕ) (s : Session)
    → AllFresh answers v
    → find fd v.table ≡ some s
    → find fd (accept_new_connections answers v).table ≡ some s
unfolding accept_new_connections
accept_new_connections-found [] v fd s fresh e = e
accept_new_connections-found (incoming i ∷ answers) v fd s fresh e =
    let ne : i.fd ≢ fd = λ q. ground (arith, ap (λ k. find k v.table) q, fresh.0) in
    accept_new_connections-found answers (add_connection i i.add_ctl v) fd s fresh.1
      (add_connection-found i i.add_ctl v fd ne ∙ e)
accept_new_connections-found (failed eagain ∷ answers) v fd s fresh e = e
accept_new_connections-found (failed ewouldblock ∷ answers) v fd s fresh e = e
accept_new_connections-found (failed eintr ∷ answers) v fd s fresh e =
    accept_new_connections-found answers v fd s fresh e
accept_new_connections-found (failed epipe ∷ answers) v fd s fresh e = e
accept_new_connections-found (failed (other n) ∷ answers) v fd s fresh e = e

pub accepts-found :
    (more : List Accept) (v u : Server) (fd : ℕ)
    → AllFresh more v
    → u ≡ accept_new_connections more v
    → (s : Session) → find fd v.table ≡ some s
    → find fd u.table ≡ some s
accepts-found more v u fd fresh e s f =
    ap (λ (x : Server). find fd x.table) e ∙ accept_new_connections-found more v fd s fresh f

-- A run of the server in which the events of the descriptor are arrivals of which `P` holds. The
-- list has what `recv` answers to each; what the others do between them is free, as long as it
-- returns.
pub data Run (P : Event → Type 0) (fd : ℕ) (w : Server) : Server → List (List Recv) → Type 0 where
  over : Run P fd w w []
  arrives :
      {v u : Server} {answers : List (List Recv)}
      → (ev : Event) → IsArrival fd ev
      → P ev
      → handle_event ev v ≡ ran tt u
      → Run P fd w u answers
      → Run P fd w v (ev.in_recvs ∷ answers)
  another :
      {v u : Server} {answers : List (List Recv)}
      → (ev : Event) → ev.fd ≢ fd
      → handle_event ev v ≡ ran tt u
      → Run P fd w u answers
      → Run P fd w v answers
  accepts :
      {v u : Server} {answers : List (List Recv)}
      → (more : List Accept) → AllFresh more v
      → u ≡ accept_new_connections more v
      → Run P fd w u answers
      → Run P fd w v answers

pub event-Inv : (ev : Event) (v u : Server) → Inv v → handle_event ev v ≡ ran tt u → Inv u
event-Inv ev v u inv e = subst EventOk e (handle_event-EventOk ev v inv)

pub another-found :
    (ev : Event) (v u : Server) (fd : ℕ)
    → Inv v
    → ev.fd ≢ fd
    → handle_event ev v ≡ ran tt u
    → find fd u.table ≡ find fd v.table
another-found ev v u fd inv ne e =
    (subst (λ (r : Ran (Unit {0})). Others ev.fd v r) e (handle_event-Others ev v inv) fd ne).0

pub Run-Inv :
    {P : Event → Type 0} {fd : ℕ} {w : Server} (v : Server) (answers : List (List Recv))
    → Run P fd w v answers
    → Inv v
    → Inv w
Run-Inv v answers over inv = inv
Run-Inv v answers (arrives {u} {answers = more} ev a p runs run) inv =
    Run-Inv u more run (event-Inv ev v u inv runs)
Run-Inv v answers (another {u} ev ne runs run) inv =
    Run-Inv u answers run (event-Inv ev v u inv runs)
Run-Inv v answers (accepts {u} more fresh e run) inv =
    Run-Inv u answers run (subst Inv (sym e) (accept_new_connections-Inv more v inv fresh))

-- No frame is complete in a partial one.
pub no_frame :
    (fs : List Frame) (held tail : List ℕ)
    → All IsGood fs
    → IsPartial held
    → held ++ [] ≡ encode_all fs ++ tail
    → (fs ≡ []) × (held ≡ tail)
no_frame [] held tail g p e = (refl, sym (append-nil held) ∙ e)
no_frame (f ∷ fs) held tail g p e = absurd (
    not-IsPartial-encode f (encode_all fs ++ tail) g.0 (
      subst IsPartial (sym (append-nil held) ∙ e ∙ append_assoc (encode f) (encode_all fs) tail) p))

-- What holds over a run: `R` is about the frames that have come, the count of the events, the server
-- and the bytes of a partial frame that the session holds.
module _ {P : Event → Type 0} (fd : ℕ) (w : Server) (tail : List ℕ) (last : IsPartial tail)
    (total : List Frame) (R : List Frame → ℕ → Server → List ℕ → Type 0)
    (step : (v : Server) (ev : Event) (held rest : List ℕ) (seen fs back : List Frame) (n : ℕ)
      → R seen n v held
      → IsArrival fd ev
      → P ev
      → All IsGood fs
      → IsPartial rest
      → held ++ received ev.in_recvs ≡ encode_all fs ++ rest
      → (seen ++ fs) ++ back ≡ total
      → (u : Server) × (handle_event ev v ≡ ran tt u) × R (seen ++ fs) (suc n) u rest)
    (moves : (v u : Server) (held : List ℕ) (seen : List Frame) (n : ℕ)
      → ((s : Session) → find fd v.table ≡ some s → find fd u.table ≡ some s)
      → R seen n v held
      → R seen n u held) where
  pub run_keeps :
      (v : Server) (answers : List (List Recv)) (held : List ℕ) (seen fs : List Frame) (n : ℕ)
      → Run P fd w v answers
      → Inv v
      → R seen n v held
      → All IsGood fs
      → IsPartial held
      → held ++ received_all answers ≡ encode_all fs ++ tail
      → seen ++ fs ≡ total
      → R total (n + length answers) w tail
  run_keeps v answers held seen fs n over inv h good partial stream all =
      let (none_left, same) = no_frame fs held tail good partial stream in
      let whole : seen ≡ total = sym (append-nil seen) ∙ ap (◌++◌ seen) (sym none_left) ∙ all in
      let count : n ≡ n + 0 = omega arith in
      subst (λ k. R total k w tail) count
        (subst (λ b. R total n w b) same (subst (λ x. R x n w held) whole h))
  run_keeps v answers held seen fs n (arrives {u} {answers = more} ev a p runs run) inv h good
        partial stream all =
      let c =
        cut fs (held ++ received ev.in_recvs) (received_all more) tail good last
          (append_assoc held (received ev.in_recvs) (received_all more) ∙ stream) in
      let (front, back) = All-split IsGood c.front c.back (subst (All IsGood) c.frames good) in
      let all' : (seen ++ c.front) ++ c.back ≡ total =
        append_assoc seen c.front c.back ∙ ap (◌++◌ seen) (sym c.frames) ∙ all in
      let (u', ended, q) =
        step v ev held c.held seen c.front c.back n h a p front c.incomplete c.taken all' in
      let server : u' ≡ u = cc in
      let count : suc n + length more ≡ n + length (ev.in_recvs ∷ more) = omega arith in
      subst (λ k. R total k w tail) count
        (run_keeps u more c.held (seen ++ c.front) c.back (suc n) run (event-Inv ev v u inv runs)
          (subst (λ x. R (seen ++ c.front) (suc n) x c.held) server q) back c.incomplete c.left
          all')
  run_keeps v answers held seen fs n (another {u} ev ne runs run) inv h good partial stream all =
      run_keeps u answers held seen fs n run (event-Inv ev v u inv runs)
        (moves v u held seen n (λ s e. another-found ev v u fd inv ne runs ∙ e) h) good partial
        stream all
  run_keeps v answers held seen fs n (accepts {u} more fresh e run) inv h good partial stream all =
      run_keeps u answers held seen fs n run
        (subst Inv (sym e) (accept_new_connections-Inv more v inv fresh))
        (moves v u held seen n (accepts-found more v u fd fresh e) h) good partial stream all
