-- ===== src/Server/Loops.antt =====
-- server.cc: `EventLoop` as a whole.
use cpp_remote_screen_captur.Base.{Bool, true, false, List, [], ◌∷◌, if-cases}
use cpp_remote_screen_captur.Session.State.{eagain, ewouldblock, eintr, epipe, other}
use cpp_remote_screen_captur.Server.State.{
  Server, ServerError, session_error, epoll_ctl_failed, epoll_wait_failed, Ran, ran, raised, hung,
  undefined, ◌>>=◌,
}
use cpp_remote_screen_captur.Server.Handlers.{handle_event}
use cpp_remote_screen_captur.Server.Run.{
  Ready, is_own, dispatch, handle_ready, Wait, events, failed, Round, loop,
}
use cpp_remote_screen_captur.Server.Invariant.{Inv, EventOk}
use cpp_remote_screen_captur.Server.Service.{handle_event-EventOk}
use cpp_remote_screen_captur.Server.History.{AllFresh, accept_new_connections-Inv}

-- What follows a call that returns.
abbrev pub After {ℓ} : {A : Type ℓ} → Ran A → (Server → Type 0) → Type 0
After (ran a v) P = P v
After (raised e v) P = Unit {0}
After (hung v) P = Unit {0}
After undefined P = Unit {0}

-- `accept` never gives a descriptor that is open.
abbrev pub FreshReady : List Ready → Server → Type 0
FreshReady [] v = Unit {0}
FreshReady (r ∷ rs) v = AllFresh r.accepts v × After (dispatch r v) (FreshReady rs)

abbrev pub FreshWait : Wait → Server → (Server → Type 0) → Type 0
FreshWait (events es) v next = FreshReady es v × After (handle_ready es v) next
FreshWait (failed e) v next = next v

abbrev pub FreshRounds : List Round → Server → Type 0
FreshRounds [] v = Unit {0}
FreshRounds (r ∷ rs) v = FreshWait r.wait v (FreshRounds rs)

-- An error of the system, and not one that a session throws.
abbrev pub IsSystem : ServerError → Type 0
IsSystem (session_error e) = ⊥
IsSystem e = Unit {0}

-- How the loop may end.
abbrev pub LoopOk {ℓ} : {A : Type ℓ} → Ran A → Type 0
LoopOk (ran a v) = Inv v
LoopOk (raised e v) = IsSystem e
LoopOk (hung v) = Unit {0}
LoopOk undefined = ⊥

event-LoopOk : (r : Ran (Unit {0})) → EventOk r → LoopOk r
event-LoopOk (ran u v) h = h
event-LoopOk (raised (epoll_ctl_failed e) v) h = tt
event-LoopOk (raised _ v) h = absurd h
event-LoopOk (hung v) h = tt
event-LoopOk undefined h = h

pub LoopOk->>= {ℓ κ} :
    {A : Type ℓ} {B : Type κ} (r : Ran A) (f : A → Server → Ran B) (P : Server → Type 0)
    → LoopOk r
    → After r P
    → ((a : A) (v : Server) → Inv v → P v → LoopOk (f a v))
    → LoopOk (r >>= f)
LoopOk->>= (ran a v) f P h p k = k a v h p
LoopOk->>= (raised e v) f P h p k = h
LoopOk->>= (hung v) f P h p k = tt
LoopOk->>= undefined f P h p k = h

dispatch-LoopOk : (r : Ready) (v : Server) → Inv v → AllFresh r.accepts v → LoopOk (dispatch r v)
unfolding dispatch
dispatch-LoopOk r v inv fresh =
    if-cases (λ (x : Ran (Unit {0})). LoopOk x) (is_own v.server_fd r.event.fd) _ _
      (λ _. accept_new_connections-Inv r.accepts v inv fresh)
      (λ _. event-LoopOk (handle_event r.event v) (handle_event-EventOk r.event v inv))

handle_ready-LoopOk :
    (rs : List Ready) (v : Server) → Inv v → FreshReady rs v → LoopOk (handle_ready rs v)
unfolding handle_ready
handle_ready-LoopOk [] v inv fresh = inv
handle_ready-LoopOk (r ∷ rs) v inv fresh =
    LoopOk->>= (dispatch r v) (λ _ u. handle_ready rs u) (FreshReady rs)
      (dispatch-LoopOk r v inv fresh.0) fresh.1 (λ a u i p. handle_ready-LoopOk rs u i p)

round-LoopOk :
    (w : Wait) (v : Server) (rest : Server → Ran Bool) (P : Server → Type 0)
    → Inv v
    → FreshWait w v P
    → ((u : Server) → Inv u → P u → LoopOk (rest u))
    → LoopOk (elim w [
      | failed eintr ↦ rest v
      | failed e ↦ raised (epoll_wait_failed e) v
      | events es ↦ handle_ready es v >>= λ _ u. rest u
    ])
round-LoopOk (failed eintr) v rest P inv fresh k = k v inv fresh
round-LoopOk (failed eagain) v rest P inv fresh k = tt
round-LoopOk (failed ewouldblock) v rest P inv fresh k = tt
round-LoopOk (failed epipe) v rest P inv fresh k = tt
round-LoopOk (failed (other n)) v rest P inv fresh k = tt
round-LoopOk (events es) v rest P inv fresh k =
    LoopOk->>= (handle_ready es v) (λ _ u. rest u) P (handle_ready-LoopOk es v inv fresh.0) fresh.1
      (λ a u i p. k u i p)

stopped-LoopOk :
    (r : Round) (v : Server) (rest : Server → Ran Bool) (P : Server → Type 0)
    → Inv v
    → FreshWait r.wait v P
    → ((u : Server) → Inv u → P u → LoopOk (rest u))
    → (b : Bool)
    → LoopOk (elim b [
      | true ↦ ran true v
      | false ↦ elim r.wait [
        | failed eintr ↦ rest v
        | failed e ↦ raised (epoll_wait_failed e) v
        | events es ↦ handle_ready es v >>= λ _ u. rest u
      ]
    ])
stopped-LoopOk r v rest P inv fresh k true = inv
stopped-LoopOk r v rest P inv fresh k false = round-LoopOk r.wait v rest P inv fresh k

pub loop-LoopOk :
    (rounds : List Round) (v : Server) → Inv v → FreshRounds rounds v → LoopOk (loop rounds v)
unfolding loop
loop-LoopOk [] v inv fresh = inv
loop-LoopOk (r ∷ rs) v inv fresh =
    stopped-LoopOk r v (loop rs) (FreshRounds rs) inv fresh (λ u i p. loop-LoopOk rs u i p)
      r.stopped
