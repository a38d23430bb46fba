-- ===== src/Server/Isolation.antt =====
-- server.cc: what the handling of one client's events does to the other clients.
use cpp_remote_screen_captur.Base.{
  ℕ, ◌≡◌, ◌≢◌, refl, sym, subst, ◌∙◌, Bool, true, false, ◌||◌, Option, none, some, if-cases, ◌==◌,
  is_empty, if◌then◌else◌,
}
use cpp_remote_screen_captur.Base.Table.{find, find-put_ne, find-erase_ne}
use cpp_remote_screen_captur.Session.State.{Session, Errno, Result, ok, err}
use cpp_remote_screen_captur.Session.Parser.{Parsed, parsed, running, threw, parse}
use cpp_remote_screen_captur.Session.Socket.{
  try_recv, try_send, send_auth_response, is_message_complete,
}
use cpp_remote_screen_captur.Session.Auth.{get_message_type, handle_auth_request}
use cpp_remote_screen_captur.Session.Files.{handle_img_message}
use cpp_remote_screen_captur.Server.State.{
  Server, Event, Ran, ran, raised, hung, undefined, ◌>>=◌, store,
}
use cpp_remote_screen_captur.Server.Handlers.{
  close_session, update_epoll_events, returning_true, after_out, handle_out_event, after_response,
  after_auth, after_img, after_type, handle_message, after_parse, after_recv, handle_in_event,
  closing, stage, in_stage, handle_event,
}
use cpp_remote_screen_captur.Server.Invariant.{Inv, HandlerOk}
use cpp_remote_screen_captur.Server.Events.{handle_out-Ok, handle_in-Ok}
use cpp_remote_screen_captur.Server.Service.{StageOk, stage-ok}

-- The sessions and masks of all descriptors but `fd` are the same.
abbrev pub Same : ℕ → Server → Server → Type 0
Same fd v w =
    (j : ℕ) → fd ≢ j → (find j w.table ≡ find j v.table) × (find j w.interest ≡ find j v.interest)

Same-refl : (fd : ℕ) (v : Server) → Same fd v v
Same-refl fd v j h = (refl, refl)

pub Same-trans : (fd : ℕ) (u v w : Server) → Same fd u v → Same fd v w → Same fd u w
Same-trans fd u v w p q j h = ((q j h).0 ∙ (p j h).0, (q j h).1 ∙ (p j h).1)

-- However a call ends, it leaves the others alone.
abbrev pub Others {ℓ} : {A : Type ℓ} → ℕ → Server → Ran A → Type 0
Others fd v (ran a w) = Same fd v w
Others fd v (raised e w) = Same fd v w
Others fd v (hung w) = Same fd v w
Others fd v undefined = Unit {0}

module _ (fd : ℕ) (v : Server) where
  Same-store : (s : Session) → Same fd v (store fd s v)
  Same-store s j h = (find-put_ne fd j s v.table h, refl)

  Others-mask :
      (s : Session) (out : Bool) (ctl : Option Errno)
      → Others fd v (returning_true (update_epoll_events fd out ctl (store fd s v)))
  unfolding update_epoll_events
  Others-mask s out (some e) = Same-store s
  Others-mask s out none = λ j h. (find-put_ne fd j s v.table h, find-put_ne fd j out v.interest h)

module _ (ev : Event) (v : Server) where
  abbrev Alone : Ran Bool → Type 0
  Alone = Others ev.fd v

  after_out-Others : (p : Bool × Session) → Alone (after_out ev v p)
  after_out-Others (false, s) = Same-store ev.fd v s
  after_out-Others (true, s) =
      if-cases Alone (is_empty s.response) _ _ (λ _. Others-mask ev.fd v s false ev.out_ctl)
        (λ _. Same-store ev.fd v s)

  handle_out-Others : (s : Session) → Alone (handle_out_event ev s v)
  unfolding handle_out_event
  handle_out-Others s = after_out-Others (try_send ev.out_sends s)

  after_response-Others : (p : Bool × Session) → Alone (after_response ev v p)
  after_response-Others (false, s) = Same-store ev.fd v s
  after_response-Others (true, s) =
      if-cases Alone (is_empty s.response) _ _ (λ _. Same-store ev.fd v s)
        (λ _. Others-mask ev.fd v s true ev.in_ctl)

  after_auth-Others : (o : Option (Bool × Session)) → Alone (after_auth ev v o)
  after_auth-Others none = tt
  after_auth-Others (some (accepted, s)) =
      after_response-Others (send_auth_response ev.in_sends accepted s)

  after_img-Others : (o : Option Session) → Alone (after_img ev v o)
  after_img-Others none = tt
  after_img-Others (some s) = Same-store ev.fd v s

  after_type-Others : (s : Session) (o : Option (Result ℕ)) → Alone (after_type ev s v o)
  after_type-Others s none = tt
  after_type-Others s (some (err e)) = Same-store ev.fd v s
  after_type-Others s (some (ok t)) =
      if-cases Alone (t == b'A') _ _ (λ _. after_auth-Others (handle_auth_request s))
        λ _.
          if-cases Alone (t == b'I') _ _ (λ _. after_img-Others (handle_img_message ev.saving s))
            (λ _. Same-store ev.fd v s)

  handle_message-Others : (s : Session) → Alone (handle_message ev s v)
  unfolding handle_message
  handle_message-Others s =
      if-cases Alone (is_message_complete s) _ _ (λ _. after_type-Others s (get_message_type s))
        (λ _. Same-store ev.fd v s)

  after_parse-Others : (r : Parsed) → Alone (after_parse ev v r)
  after_parse-Others (parsed s) = handle_message-Others s
  after_parse-Others (running s) = Same-store ev.fd v s
  after_parse-Others (threw e) = Same-refl ev.fd v

  after_recv-Others : (p : Bool × Session) → Alone (after_recv ev v p)
  after_recv-Others (false, s) = Same-store ev.fd v s
  after_recv-Others (true, s) = after_parse-Others (parse s)

  handle_in-Others : (s : Session) → Alone (handle_in_event ev s v)
  unfolding handle_in_event
  handle_in-Others s = after_recv-Others (try_recv ev.in_recvs s)

pub close_session-Same : (s : Session) (v : Server) → Same s.client_fd v (close_session s v)
unfolding close_session
close_session-Same s v j h =
    (find-erase_ne s.client_fd j v.table h, find-erase_ne s.client_fd j v.interest h)

-- The session that is closed is that of the descriptor.
closing-Others :
    (fd : ℕ) (v : Server) (r : Ran Bool)
    → Others fd v r
    → HandlerOk fd r
    → Others fd v (r >>= closing fd)
closing-Others fd v (ran true w) same h = same
closing-Others fd v (ran false w) same (inv, (s, e)) =
    subst
      (λ (o : Option Session).
        Others fd v (elim o [ none ↦ undefined | some u ↦ ran false (close_session u w) ]))
      (sym e)
      (Same-trans fd v w (close_session s w) same
        (subst (λ k. Same k w (close_session s w)) (inv fd s e).0 (close_session-Same s w)))
closing-Others fd v (raised e w) same h = same
closing-Others fd v (hung w) same h = same
closing-Others fd v undefined same h = tt

Others-after {ℓ} :
    {A : Type ℓ} (fd : ℕ) (u v : Server) (r : Ran A) → Same fd u v → Others fd v r → Others fd u r
Others-after fd u v (ran a w) p q = Same-trans fd u v w p q
Others-after fd u v (raised e w) p q = Same-trans fd u v w p q
Others-after fd u v (hung w) p q = Same-trans fd u v w p q
Others-after fd u v undefined p q = tt

Others->>= {ℓ κ} :
    {A : Type ℓ} {B : Type κ} (fd : ℕ) (v : Server) (r : Ran A) (f : A → Server → Ran B)
    → Others fd v r
    → ((a : A) (w : Server) → r ≡ ran a w → Others fd w (f a w))
    → Others fd v (r >>= f)
Others->>= fd v (ran a w) f same k = Others-after fd v w (f a w) same (k a w refl)
Others->>= fd v (raised e w) f same k = same
Others->>= fd v (hung w) f same k = same
Others->>= fd v undefined f same k = tt

module _ (ev : Event) where
  stage-Others :
      (set : Bool) (handler : Event → Session → Server → Ran Bool) (v : Server)
      → ((s : Session) → Others ev.fd v (handler ev s v))
      → ((s : Session) → find ev.fd v.table ≡ some s → HandlerOk ev.fd (handler ev s v))
      → Others ev.fd v (stage set handler ev v)
  stage-Others false handler v same fine = Same-refl ev.fd v
  stage-Others true handler v same fine = found (find ev.fd v.table) refl
    where
      found :
          (o : Option Session)
          → find ev.fd v.table ≡ o
          → Others ev.fd v (elim o [ none ↦ undefined | some u ↦ handler ev u v >>= closing ev.fd ])
      found none e = tt
      found (some s) e = closing-Others ev.fd v (handler ev s v) (same s) (fine s e)

  in_stage-Others : (go : Bool) (v : Server) → Inv v → Others ev.fd v (in_stage ev go v)
  in_stage-Others false v inv = Same-refl ev.fd v
  in_stage-Others true v inv =
      Others->>= ev.fd v (stage ev.epollin handle_in_event ev v) (λ _ u. ran tt u)
        (stage-Others ev.epollin handle_in_event v (handle_in-Others ev v)
          (λ s e. handle_in-Ok ev v inv s (inv ev.fd s e)))
        (λ a w e. Same-refl ev.fd w)

  event-Others :
      (v : Server) (o : Option Session)
      → Inv v
      → find ev.fd v.table ≡ o
      → Others {A = Unit {0}} ev.fd v (elim o [
        | none ↦ ran tt v
        | some s ↦
            if ev.epollerr || ev.epollrdhup || ev.epollhup
            then ran tt (close_session s v)
            else stage ev.epollout handle_out_event ev v >>= in_stage ev
      ])
  event-Others v none inv e = Same-refl ev.fd v
  event-Others v (some s) inv e =
      if-cases (λ (r : Ran (Unit {0})). Others ev.fd v r)
        (ev.epollerr || ev.epollrdhup || ev.epollhup) _ _
        (λ _.
          subst (λ k. Same k v (close_session s v)) (inv ev.fd s e).own_fd (close_session-Same s v))
        (λ _.
          Others->>= ev.fd v (stage ev.epollout handle_out_event ev v) (in_stage ev)
            (stage-Others ev.epollout handle_out_event v (handle_out-Others ev v)
              (λ t f. handle_out-Ok ev v inv t (inv ev.fd t f)))
            (λ go w f. in_stage-Others go w (
              kept go w (
                subst (StageOk ev.fd) f (
                  stage-ok ev ev.epollout handle_out_event v s (λ u t i h. handle_out-Ok ev u i t h)
                    inv e)))))
    where
      kept : (go : Bool) (w : Server) → StageOk ev.fd (ran go w) → Inv w
      kept true w h = h.0
      kept false w h = h

  -- On a server that serves every session of its table, one client's event leaves the sessions
  -- and the epoll masks of all other descriptors as they are, whether handling it returns,
  -- throws or does not end.
  pub handle_event-Others : (v : Server) → Inv v → Others ev.fd v (handle_event ev v)
  unfolding handle_event
  handle_event-Others v inv = event-Others v (find ev.fd v.table) inv refl
