-- ===== src/Server/History.antt =====
-- server.cc: accepted connections, and sequences of connections and events.
use cpp_remote_screen_captur.Base.{
  ℕ, ◌≡◌, ◌≢◌, refl, sym, subst, ◌∙◌, false, List, [], ◌∷◌, Option, none, some, arith,
}
use cpp_remote_screen_captur.Base.Table.{
  find, put, erase, find-erase_ne, find-put_ne, find-put_self,
}
use cpp_remote_screen_captur.Base.Decimal.{to_string}
use cpp_remote_screen_captur.Session.State.{Session, Errno, eintr, open_session}
use cpp_remote_screen_captur.Server.State.{Server, Event, ran}
use cpp_remote_screen_captur.Server.Handlers.{handle_event}
use cpp_remote_screen_captur.Server.Connections.{
  Incoming, Accept, incoming, failed, register, add_connection, accept_new_connections,
}
use cpp_remote_screen_captur.Server.Invariant.{IsServed, Inv, EventOk, put-Inv}
use cpp_remote_screen_captur.Server.Service.{handle_event-EventOk}

-- `accept` gives a descriptor that is not open, so that it is not in the table.
abbrev pub AllFresh : List Accept → Server → Type 0
AllFresh [] v = Unit {0}
AllFresh (incoming i ∷ answers) v =
    (find i.fd v.table ≡ none) × AllFresh answers (add_connection i i.add_ctl v)
AllFresh (failed eintr ∷ answers) v = AllFresh answers v
AllFresh (failed e ∷ answers) v = Unit {0}

new_session-IsServed :
    (fd : ℕ) (host port : List ℕ) → IsServed fd (open_session fd host port) (some false)
new_session-IsServed fd host port = record {
  own_fd = refl;
  typed = tt;
  bounded = omega arith;
  registered = λ e. cc;
  armed = λ h. absurd (omega arith);
}

dropped-Inv :
    (fd : ℕ) (v : Server)
    → Inv v
    → find fd v.table ≡ none
    → Inv (record v { interest = erase fd (put fd false v.interest) })
dropped-Inv fd v inv fresh j s e =
    let ne : fd ≢ j = λ q. ground (arith, subst (λ k. find k v.table ≡ none) q fresh) in
    subst (IsServed j s)
      (sym (find-erase_ne fd j (put fd false v.interest) ne ∙ find-put_ne fd j false v.interest ne))
      (inv j s e)

register-Inv :
    (i : Incoming) (host : Option (List ℕ)) (v : Server)
    → Inv v
    → find i.fd v.table ≡ none
    → Inv (register i host (record v { interest = put i.fd false v.interest }))
register-Inv i none v inv fresh = dropped-Inv i.fd v inv fresh
register-Inv i (some host) v inv fresh =
    let s = open_session i.fd host (to_string i.port) in
    put-Inv i.fd s v (register i (some host) (record v { interest = put i.fd false v.interest }))
      refl (λ j h. find-put_ne i.fd j false v.interest h) inv
      (subst (IsServed i.fd s) (sym (find-put_self i.fd false v.interest))
        (new_session-IsServed i.fd host (to_string i.port)))

add_connection-Inv :
    (i : Incoming) (ctl : Option Errno) (v : Server)
    → Inv v
    → find i.fd v.table ≡ none
    → Inv (add_connection i ctl v)
unfolding add_connection
add_connection-Inv i none v inv fresh = register-Inv i i.host v inv fresh
add_connection-Inv i (some e) v inv fresh = inv

-- On a server that serves every session of its table, accepting any sequence of connections on
-- descriptors that are not open, failures among them, keeps every session served.
pub accept_new_connections-Inv :
    (answers : List Accept) (v : Server)
    → Inv v
    → AllFresh answers v
    → Inv (accept_new_connections answers v)
unfolding accept_new_connections
accept_new_connections-Inv [] v inv h = inv
accept_new_connections-Inv (incoming i ∷ answers) v inv h =
    accept_new_connections-Inv answers (add_connection i i.add_ctl v)
      (add_connection-Inv i i.add_ctl v inv h.0) h.1
accept_new_connections-Inv (failed eintr ∷ answers) v inv h =
    accept_new_connections-Inv answers v inv h
accept_new_connections-Inv (failed e ∷ answers) v inv h = inv

-- What the loop does to the server, one call at a time.
pub data Step (v : Server) (w : Server) : Type 0 where
  accepts :
      (answers : List Accept) → AllFresh answers v → w ≡ accept_new_connections answers v → Step v w
  event : (ev : Event) → handle_event ev v ≡ ran tt w → Step v w

pub data Reach (v : Server) : Server → Type 0 where
  here : Reach v v
  next : {u w : Server} → Reach v u → Step u w → Reach v w

Step-Inv : (v w : Server) → Step v w → Inv v → Inv w
Step-Inv v w (accepts answers fresh e) inv =
    subst Inv (sym e) (accept_new_connections-Inv answers v inv fresh)
Step-Inv v w (event ev e) inv = subst EventOk e (handle_event-EventOk ev v inv)

Reach-Inv : {v w : Server} → Reach v w → Inv v → Inv w
Reach-Inv here inv = inv
Reach-Inv (next {u} {w} r st) inv = Step-Inv u w st (Reach-Inv r inv)

-- A server that starts with no session serves every session that it ever has, through any
-- sequence of returning events and of connections on descriptors that are not open: the session
-- owns its descriptor, its queued messages have a type, at most one byte waits to be sent, epoll
-- watches the descriptor, and watches it for writing if a byte waits.
pub Reach-IsServed :
    {v w : Server}
    → v.table ≡ []
    → Reach v w
    → (fd : ℕ) (s : Session) → find fd w.table ≡ some s
    → IsServed fd s (find fd w.interest)
Reach-IsServed {v} e r = Reach-Inv r (λ j s f. unfold find in cc)
