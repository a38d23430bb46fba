-- ===== src/Server/Service.antt =====
-- server.cc: `HandleEvent` and the parts of it, against the invariant.
use cpp_remote_screen_captur.Base.{
  ℕ, ◌≡◌, refl, sym, subst, Bool, true, false, ◌||◌, Option, none, some, if-cases, if◌then◌else◌,
}
use cpp_remote_screen_captur.Base.Table.{find}
use cpp_remote_screen_captur.Session.State.{Session}
use cpp_remote_screen_captur.Server.State.{
  Server, Event, Ran, ran, raised, hung, undefined, ◌>>=◌, epoll_ctl_failed,
}
use cpp_remote_screen_captur.Server.Handlers.{
  close_session, handle_out_event, handle_in_event, handle_event, closing, stage, in_stage,
}
use cpp_remote_screen_captur.Server.Invariant.{
  IsServed, Inv, Inv-InvExcept, HandlerOk, EventOk, close_session-Inv,
}
use cpp_remote_screen_captur.Server.Events.{handle_out-Ok, handle_in-Ok}

-- How a part of `HandleEvent` may end.
abbrev pub StageOk : ℕ → Ran Bool → Type 0
StageOk fd (ran true v) = Inv v × ((s : Session) × (find fd v.table ≡ some s))
StageOk fd (ran false v) = Inv v
StageOk fd (raised (epoll_ctl_failed e) v) = Unit {0}
StageOk fd (raised e v) = ⊥
StageOk fd (hung v) = Unit {0}
StageOk fd undefined = ⊥

closing-ok : (fd : ℕ) (r : Ran Bool) → HandlerOk fd r → StageOk fd (r >>= closing fd)
closing-ok fd (ran true v) h = h
closing-ok fd (ran false v) (inv, (s, e)) =
    subst
      (λ (o : Option Session).
        StageOk fd (elim o [ none ↦ undefined | some u ↦ ran false (close_session u v) ]))
      (sym e) (close_session-Inv fd s v inv e)
closing-ok fd (raised (epoll_ctl_failed x) v) h = tt
closing-ok fd (raised _ v) h = absurd h
closing-ok fd (hung v) h = tt
closing-ok fd undefined h = h

module _ (ev : Event) where
  -- A handler that keeps the invariant, on the server as it is.
  abbrev pub Handles : (Event → Session → Server → Ran Bool) → Type 0
  Handles handler =
      (v : Server) (s : Session)
      → Inv v
      → IsServed ev.fd s (find ev.fd v.interest)
      → HandlerOk ev.fd (handler ev s v)

  pub stage-ok :
      (set : Bool) (handler : Event → Session → Server → Ran Bool) (v : Server) (s : Session)
      → Handles handler
      → Inv v
      → find ev.fd v.table ≡ some s
      → StageOk ev.fd (stage set handler ev v)
  stage-ok false handler v s h inv e = (inv, (s, e))
  stage-ok true handler v s h inv e =
      subst
        (λ (o : Option Session).
          StageOk ev.fd (elim o [ none ↦ undefined | some u ↦ handler ev u v >>= closing ev.fd ]))
        (sym e) (closing-ok ev.fd (handler ev s v) (h v s inv (inv ev.fd s e)))

  drop_result : (r : Ran Bool) → StageOk ev.fd r → EventOk (r >>= λ _ u. ran tt u)
  drop_result (ran true v) h = h.0
  drop_result (ran false v) h = h
  drop_result (raised (epoll_ctl_failed x) v) h = tt
  drop_result (raised _ v) h = absurd h
  drop_result (hung v) h = tt
  drop_result undefined h = h

  then_in-ok : (r : Ran Bool) → StageOk ev.fd r → EventOk (r >>= in_stage ev)
  then_in-ok (ran true v) (inv, (s, e)) =
      drop_result (stage ev.epollin handle_in_event ev v)
        (stage-ok ev.epollin handle_in_event v s (λ w u i h. handle_in-Ok ev w i u h) inv e)
  then_in-ok (ran false v) h = h
  then_in-ok (raised (epoll_ctl_failed x) v) h = tt
  then_in-ok (raised _ v) h = absurd h
  then_in-ok (hung v) h = tt
  then_in-ok undefined h = h

  found-ok :
      (v : Server) (o : Option Session)
      → Inv v
      → find ev.fd v.table ≡ o
      → EventOk (elim o [
        | none ↦ ran tt v
        | some s ↦
            if ev.epollerr || ev.epollrdhup || ev.epollhup
            then ran tt (close_session s v)
            else stage ev.epollout handle_out_event ev v >>= in_stage ev
      ])
  found-ok v none inv e = inv
  found-ok v (some s) inv e =
      if-cases EventOk (ev.epollerr || ev.epollrdhup || ev.epollhup) _ _
        (λ _. close_session-Inv ev.fd s v (Inv-InvExcept ev.fd v inv) e)
        (λ _.
          then_in-ok (stage ev.epollout handle_out_event ev v)
            (stage-ok ev.epollout handle_out_event v s (λ w u i h. handle_out-Ok ev w i u h) inv e))

  -- On a server that serves every session of its table, whatever a client sends and the system
  -- answers, handling an event keeps every session served, or throws since `epoll_ctl` has
  -- failed, or does not return since the parser does not; no session throws, and no empty queue
  -- is read.
  pub handle_event-EventOk : (v : Server) → Inv v → EventOk (handle_event ev v)
  unfolding handle_event
  handle_event-EventOk v inv = found-ok v (find ev.fd v.table) inv refl
