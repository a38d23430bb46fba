-- ===== src/Server/Gallery.antt =====
-- server.cc: a client's images over a whole run of the server.
use cpp_remote_screen_captur.Base.{
  ℕ, suc, ◌+◌, ◌≤◌, ◌≡◌, refl, sym, ap, subst, ◌∙◌, List, [], ◌++◌, map, some, All, All-split,
  arith, length, length-append, append-nil, append_assoc,
}
use mathlib.Core.List.{map-append}
use cpp_remote_screen_captur.Base.Table.{find}
use cpp_remote_screen_captur.Session.State.{Session}
use cpp_remote_screen_captur.Session.Socket.{Recv}
use cpp_remote_screen_captur.Session.Framing.{Frame, encode_all, IsGood, IsPartial}
use cpp_remote_screen_captur.Session.Chunks.{received_all}
use cpp_remote_screen_captur.Server.State.{Server, Event}
use cpp_remote_screen_captur.Server.Invariant.{Inv}
use cpp_remote_screen_captur.Server.Images.{IsImage, Works, Showing, Advance, arrival-Advance}
use cpp_remote_screen_captur.Server.Interleaving.{Run, run_keeps}

abbrev pub payloads : List Frame → List (List ℕ)
payloads = map (λ (f : Frame). f.payload)

abbrev pub DiskWorks : Event → Type 0
DiskWorks ev = Works ev.saving

-- What becomes of a queue: a first part is saved, at most one frame to an event.
pub record Gallery (fd : ℕ) (w : Server) (tail : List ℕ) (saved : List (List ℕ))
    (queue : List Frame) (events : ℕ) : Type 0 where
  pub done : List Frame
  pub rest : List Frame
  pub split : queue ≡ done ++ rest
  pub slow : length done ≤ events
  pub showing : Showing fd w tail (saved ++ payloads done) rest

-- One event more.
Gallery-more :
    (fd : ℕ) (v u : Server) (held rest : List ℕ) (saved : List (List ℕ)) (queue fs : List Frame)
    (n : ℕ)
    → (g : Gallery fd v held saved queue n)
    → Advance fd u rest (saved ++ payloads g.done) (g.rest ++ fs)
    → Gallery fd u rest saved (queue ++ fs) (suc n)
Gallery-more fd v u held rest saved queue fs n g a = record {
  done = g.done ++ a.done;
  rest = a.rest;
  split =
      ap (λ (q : List Frame). q ++ fs) g.split
      ∙ append_assoc g.done g.rest fs
      ∙ ap (◌++◌ g.done) a.split
      ∙ sym (append_assoc g.done a.done a.rest);
  slow = omega (arith, a.one, g.slow, length-append g.done a.done);
  showing =
      subst (λ c. Showing fd u rest c a.rest)
        (append_assoc saved (payloads g.done) (payloads a.done)
          ∙ ap (◌++◌ saved) (sym (map-append (λ (f : Frame). f.payload) g.done a.done)))
        a.showing;
}

Gallery-moved :
    (fd : ℕ) (v u : Server) (held : List ℕ) (saved : List (List ℕ)) (queue : List Frame) (n : ℕ)
    → ((s : Session) → find fd v.table ≡ some s → find fd u.table ≡ some s)
    → Gallery fd v held saved queue n
    → Gallery fd u held saved queue n
Gallery-moved fd v u held saved queue n k g = record {
  done = g.done;
  rest = g.rest;
  split = g.split;
  slow = g.slow;
  showing = record {
    session = g.showing.session;
    found = k g.showing.session g.showing.found;
    shows = g.showing.shows;
  };
}

-- If the events of a client with valid names, over any run that returns and in which other
-- clients' events and new connections come between, bring a stream of good frames of kind 'I' on
-- a connection that stays open, with a disk that works, to a server that serves every session,
-- then the contents of the files that its session has written are those it had and, in order, the
-- payloads of a first part of the queued and the sent images, at most one for each event; the
-- rest is queued in order, and a partial frame behind them is held.
pub images_kept :
    (fd : ℕ) (w v : Server) (answers : List (List Recv)) (fs : List Frame) (held tail : List ℕ)
    (saved : List (List ℕ)) (queue : List Frame)
    → Run DiskWorks fd w v answers
    → Inv v
    → Showing fd v held saved queue
    → All IsImage (queue ++ fs)
    → All IsGood fs
    → IsPartial held
    → IsPartial tail
    → held ++ received_all answers ≡ encode_all fs ++ tail
    → Gallery fd w tail saved (queue ++ fs) (length answers)
images_kept fd w v answers fs held tail saved queue run inv h images good partial last stream =
    let count : 0 + length answers ≡ length answers = omega arith in
    subst (λ n. Gallery fd w tail saved (queue ++ fs) n) count
      (run_keeps fd w tail last fs (λ seen n x b. Gallery fd x b saved (queue ++ seen) n)
        (λ x ev b rest seen more back n g a disk fine part e all.
          let images' : All IsImage ((queue ++ (seen ++ more)) ++ back) =
            subst (All IsImage)
              (ap (◌++◌ queue) (sym all) ∙ sym (append_assoc queue (seen ++ more) back)) images in
          let now : All IsImage (g.done ++ (g.rest ++ more)) =
            subst (All IsImage)
              (sym (append_assoc queue seen more)
                ∙ ap (λ (q : List Frame). q ++ more) g.split
                ∙ append_assoc g.done g.rest more)
              (All-split IsImage (queue ++ (seen ++ more)) back images').0 in
          let (u, ended, adv) =
            arrival-Advance fd x ev b rest (saved ++ payloads g.done) g.rest more g.showing a disk
              (All-split IsImage g.done (g.rest ++ more) now).1 fine part e in
          (
            u,
            ended,
            subst (λ z. Gallery fd u rest saved z (suc n)) (append_assoc queue seen more)
                (Gallery-more fd x u b rest saved (queue ++ seen) more n g adv),
          ))
        (λ x u b seen n k g. Gallery-moved fd x u b saved (queue ++ seen) n k g) v answers held []
        fs 0 run inv
        (subst (λ z. Gallery fd v held saved z 0) (sym (append-nil queue))
          (record {
            done = [];
            rest = queue;
            split = refl;
            slow = omega arith;
            showing = subst (λ z. Showing fd v held z queue) (sym (append-nil saved)) h;
          }))
        good partial stream refl)
