-- ===== src/Server/Invariant.antt =====
-- The server's invariant, with `CloseSession` and `UpdateEpollEvents`.
use cpp_remote_screen_captur.Base.{
  ℕ, ◌≤◌, ◌<◌, ◌≡◌, ◌≢◌, refl, sym, ap, subst, ◌∙◌, Bool, true, false, Option, none, some, length,
  inl, inr,
}
use cpp_remote_screen_captur.Base.Table.{
  find, put, find-put-cases, find-put_self, find-put_ne, find-erase-cases, find-erase_ne,
}
use cpp_remote_screen_captur.Session.State.{Session, Errno}
use cpp_remote_screen_captur.Session.Keeps.{AllTyped}
use cpp_remote_screen_captur.Server.State.{
  Server, Ran, ran, raised, hung, undefined, store, epoll_ctl_failed,
}
use cpp_remote_screen_captur.Server.Handlers.{close_session, update_epoll_events, returning_true}

-- A session in the table, and the interest that epoll has in its descriptor.
pub record IsServed (fd : ℕ) (s : Session) (mask : Option Bool) : Type 0 where
  pub own_fd : s.client_fd ≡ fd
  pub typed : AllTyped s.messages
  pub bounded : length s.response ≤ 1
  pub registered : mask ≢ none
  pub armed : 0 < length s.response → mask ≡ some true

-- Every session of the table is served; with `except`, but for what waits to be sent by the one
-- session that is about to be closed.
abbrev pub Inv : Server → Type 0
Inv v = (j : ℕ) (s : Session) → find j v.table ≡ some s → IsServed j s (find j v.interest)

abbrev pub InvExcept : ℕ → Server → Type 0
InvExcept fd v =
    (j : ℕ) (s : Session)
    → find j v.table ≡ some s
    → (s.client_fd ≡ j) × (fd ≢ j → IsServed j s (find j v.interest))

-- A server whose table has one session more or changed, and whose interests are the old ones but
-- for its descriptor.
module _ (fd : ℕ) (s' : Session) (v w : Server) (table : w.table ≡ put fd s' v.table)
    (same : (j : ℕ) → fd ≢ j → find j w.interest ≡ find j v.interest) (inv : Inv v) where
  pub put-Inv : IsServed fd s' (find fd w.interest) → Inv w
  put-Inv ok j s e =
      elim (find-put-cases fd j s' s v.table (subst (λ t. find j t ≡ some s) table e)) [
        | inl (q, r) ↦
            subst (λ k. IsServed k s (find k w.interest)) q
              (subst (λ u. IsServed fd u (find fd w.interest)) r ok)
        | inr (q, r) ↦ subst (IsServed j s) (sym (same j q)) (inv j s r)
      ]

  pub put-InvExcept : s'.client_fd ≡ fd → InvExcept fd w
  put-InvExcept own j s e =
      elim (find-put-cases fd j s' s v.table (subst (λ t. find j t ≡ some s) table e)) [
        | inl (q, r) ↦ (ap (λ (u : Session). u.client_fd) (sym r) ∙ own ∙ q, λ h. absurd (h q))
        | inr (q, r) ↦ ((inv j s r).own_fd, λ _. subst (IsServed j s) (sym (same j q)) (inv j s r))
      ]

pub Inv-InvExcept : (fd : ℕ) (v : Server) → Inv v → InvExcept fd v
Inv-InvExcept fd v inv j s e = ((inv j s e).own_fd, λ _. inv j s e)

-- If every session but for one of the table is served, and this one owns its descriptor, then
-- closing it leaves every session served.
pub close_session-Inv :
    (fd : ℕ) (s : Session) (v : Server)
    → InvExcept fd v
    → find fd v.table ≡ some s
    → Inv (close_session s v)
unfolding close_session
close_session-Inv fd s v inv e j u f =
    let own : s.client_fd ≡ fd = (inv fd s e).0 in
    let (ne, old) = find-erase-cases s.client_fd j u v.table f in
    subst (IsServed j u) (sym (find-erase_ne s.client_fd j v.interest ne))
      ((inv j u old).1 (λ q. ne (own ∙ q)))

-- How a handler of the descriptor's events may end: only `epoll_ctl` makes it throw.
abbrev pub HandlerOk : ℕ → Ran Bool → Type 0
HandlerOk fd (ran true v) = Inv v × ((s : Session) × (find fd v.table ≡ some s))
HandlerOk fd (ran false v) = InvExcept fd v × ((s : Session) × (find fd v.table ≡ some s))
HandlerOk fd (raised (epoll_ctl_failed e) v) = Unit {0}
HandlerOk fd (raised e v) = ⊥
HandlerOk fd (hung v) = Unit {0}
HandlerOk fd undefined = ⊥

abbrev pub EventOk : Ran (Unit {0}) → Type 0
EventOk (ran u v) = Inv v
EventOk (raised (epoll_ctl_failed e) v) = Unit {0}
EventOk (raised e v) = ⊥
EventOk (hung v) = Unit {0}
EventOk undefined = ⊥

module _ (fd : ℕ) (s : Session) (v : Server) (inv : Inv v) where
  -- The session is stored, and the handler is done with it.
  pub stored-true : IsServed fd s (find fd v.interest) → HandlerOk fd (ran true (store fd s v))
  stored-true ok =
      (put-Inv fd s v (store fd s v) refl (λ j h. refl) inv ok, (s, find-put_self fd s v.table))

  pub stored-false : s.client_fd ≡ fd → HandlerOk fd (ran false (store fd s v))
  stored-false own = (
    put-InvExcept fd s v (store fd s v) refl (λ j h. refl) inv own,
    (s, find-put_self fd s v.table),
  )

  -- The session is stored, and its mask is set anew.
  pub stored-mask :
      (out : Bool) (ctl : Option Errno)
      → IsServed fd s (some out)
      → HandlerOk fd (returning_true (update_epoll_events fd out ctl (store fd s v)))
  unfolding update_epoll_events
  stored-mask out (some e) ok = tt
  stored-mask out none ok = (
    put-Inv fd s v (record v { table = put fd s v.table; interest = put fd out v.interest }) refl
        (λ j h. find-put_ne fd j out v.interest h) inv
        (subst (IsServed fd s) (sym (find-put_self fd out v.interest)) ok),
    (s, find-put_self fd s v.table),
  )
