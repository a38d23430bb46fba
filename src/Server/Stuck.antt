-- ===== src/Server/Stuck.antt =====
-- server.cc: a message of another kind than 'A' and 'I' in front of a session's queue.
use cpp_remote_screen_captur.Base.{
  ℕ, ◌≡◌, ◌≢◌, refl, sym, ap, subst, ◌∙◌, List, [], ◌∷◌, ◌++◌, map, some, All, append_assoc,
  append-nil,
}
use mathlib.Core.List.{map-append}
use cpp_remote_screen_captur.Base.Table.{find, put, find-put_self}
use cpp_remote_screen_captur.Session.State.{Session, Message, File}
use cpp_remote_screen_captur.Session.Socket.{Recv}
use cpp_remote_screen_captur.Session.Framing.{
  Frame, encode_all, hold, enqueue, message_of, IsGood, IsPartial,
}
use cpp_remote_screen_captur.Session.Chunks.{received, received_all}
use cpp_remote_screen_captur.Server.State.{Server, Event, ran, store}
use cpp_remote_screen_captur.Server.Handlers.{handle_event}
use cpp_remote_screen_captur.Server.Invariant.{Inv}
use cpp_remote_screen_captur.Server.Arrivals.{IsArrival, handle_event-frames}
use cpp_remote_screen_captur.Server.Fronts.{handle_message-other}
use cpp_remote_screen_captur.Server.Images.{hold_keeps, hold-hold}
use cpp_remote_screen_captur.Server.Answers.{whole}
use cpp_remote_screen_captur.Server.Interleaving.{Run, run_keeps}

abbrev pub IsOther : Frame → Type 0
IsOther f = (f.kind ≢ b'A') × (f.kind ≢ b'I')

-- A session for the descriptor that holds the bytes `held`, has the frame `f` and then `queue` to
-- handle, and has written the files and sent the bytes that are given.
pub record Waits (fd : ℕ) (v : Server) (held : List ℕ) (f : Frame) (queue : List Frame)
    (files : List File) (sent : List ℕ) : Type 0 where
  pub session : Session
  pub found : find fd v.table ≡ some session
  pub holds : hold session held ≡ session
  pub queued : session.messages ≡ message_of f ∷ map message_of queue
  pub wrote : session.files ≡ files
  pub sends : session.sent ≡ sent

-- Any event on any server that is over, or leaves this session alone.
abbrev pub AnyEvent : Event → Type 0
AnyEvent ev = Unit {0}

module _ (fd : ℕ) (f : Frame) (odd : IsOther f) (files : List File) (sent : List ℕ) where
  arrival-Waits :
      (v : Server) (ev : Event) (held tail : List ℕ) (queue fs : List Frame)
      → Waits fd v held f queue files sent
      → IsArrival fd ev
      → All IsGood fs
      → IsPartial tail
      → held ++ received ev.in_recvs ≡ encode_all fs ++ tail
      → (u : Server) × (handle_event ev v ≡ ran tt u) × Waits fd u tail f (queue ++ fs) files sent
  arrival-Waits v ev held tail queue fs h a good partial stream =
      let t : Session = h.session in
      let t1 : Session = hold (enqueue t fs) tail in
      let first =
        handle_event-frames ev t v held tail fs good partial stream fd a
          (h.found ∙ ap some (sym h.holds)) in
      let (ms, wrote, hs, us, r, s) = hold_keeps (enqueue t fs) tail in
      let queued : t1.messages ≡ message_of f ∷ map message_of (queue ++ fs) =
        ms
        ∙ ap (λ (q : List Message). q ++ map message_of fs) h.queued
        ∙ ap (◌∷◌ (message_of f)) (sym (map-append message_of queue fs)) in
      (
        store ev.fd t1 v,
        first
            ∙ ap (whole ev)
                (handle_message-other ev t1 v f (map message_of (queue ++ fs)) queued odd.0 odd.1),
        record {
          session = t1;
          found = ap (λ k. find fd (put k t1 v.table)) a.own ∙ find-put_self fd t1 v.table;
          holds = hold-hold (enqueue t fs) tail;
          queued = queued;
          wrote = wrote ∙ h.wrote;
          sends = s ∙ h.sends;
        },
      )

  moved :
      (v u : Server) (held : List ℕ) (queue : List Frame)
      → ((s : Session) → find fd v.table ≡ some s → find fd u.table ≡ some s)
      → Waits fd v held f queue files sent
      → Waits fd u held f queue files sent
  moved v u held queue k h = record {
    session = h.session;
    found = k h.session h.found;
    holds = h.holds;
    queued = h.queued;
    wrote = h.wrote;
    sends = h.sends;
  }

  -- Behind a message of another kind than 'A' and 'I' in front of a session's queue, every good
  -- frame that arrives over any run that returns, on a connection that stays open to a server
  -- that serves every session, only waits in the queue: the message stays in front, and no file
  -- is written and no byte is sent.
  pub stuck :
      (v w : Server) (answers : List (List Recv)) (fs : List Frame) (held tail : List ℕ)
      (queue : List Frame)
      → Run AnyEvent fd w v answers
      → Inv v
      → Waits fd v held f queue files sent
      → All IsGood fs
      → IsPartial held
      → IsPartial tail
      → held ++ received_all answers ≡ encode_all fs ++ tail
      → Waits fd w tail f (queue ++ fs) files sent
  stuck v w answers fs held tail queue run inv h good partial last stream =
      run_keeps fd w tail last fs (λ seen n x b. Waits fd x b f (queue ++ seen) files sent)
        (λ x ev b rest seen more back n k a p g q e all.
          let (u, ended, l) = arrival-Waits x ev b rest (queue ++ seen) more k a g q e in
          (u, ended, subst (λ z. Waits fd u rest f z files sent) (append_assoc queue seen more) l))
        (λ x u b seen n k l. moved x u b (queue ++ seen) k l) v answers held [] fs 0 run inv
        (subst (λ z. Waits fd v held f z files sent) (sym (append-nil queue)) h) good partial stream
        refl
