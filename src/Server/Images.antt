-- ===== src/Server/Images.antt =====
-- server.cc and session.cc: a client's images, over one event.
use mathlib.Core.List.{map-append}
use cpp_remote_screen_captur.Base.{
  ℕ, ◌≤◌, ◌≡◌, refl, sym, ap, subst, ◌∙◌, Bool, true, false, List, [], ◌∷◌, ◌++◌, map, none, some,
  All, arith, length, append-nil, ◌⊎◌, inl, inr,
}
use cpp_remote_screen_captur.Base.Table.{find, find-put_self}
use cpp_remote_screen_captur.Session.State.{Session, Message, File, saved_image}
use cpp_remote_screen_captur.Session.Auth.{is_valid_name}
use cpp_remote_screen_captur.Session.Files.{Saving, file_name, is_absolute}
use cpp_remote_screen_captur.Session.Paths.{directory, handle_img_saves}
use cpp_remote_screen_captur.Session.Framing.{
  Frame, encode_all, hold, enqueue, message_of, IsGood, IsPartial,
}
use cpp_remote_screen_captur.Session.Chunks.{received}
use cpp_remote_screen_captur.Server.State.{Server, Event, Ran, ran, ◌>>=◌, store}
use cpp_remote_screen_captur.Server.Handlers.{handle_message, handle_event, closing, after_img}
use cpp_remote_screen_captur.Server.Arrivals.{IsArrival, handle_event-frames, hold_fields}
use cpp_remote_screen_captur.Server.Fronts.{handle_message-none, handle_message-img}

abbrev pub IsImage : Frame → Type 0
IsImage f = f.kind ≡ b'I'

-- The disk takes a file, and the time does not begin with a separator.
pub record Works (sys : Saving) : Type 0 where
  pub made : sys.create_error ≡ none
  pub opened : sys.opened ≡ true
  pub relative : is_absolute sys.timestamp ≡ false

-- A session that holds the bytes `held` of a partial frame, has valid names, has written files with
-- the contents `saved`, and has the frames `queue` to handle.
pub record Shows (held : List ℕ) (saved : List (List ℕ)) (queue : List Frame) (t : Session)
    : Type 0 where
  pub holds : hold t held ≡ t
  pub queued : t.messages ≡ map message_of queue
  pub contents : map (λ (f : File). f.content) t.files ≡ saved
  pub host : is_valid_name t.client_hostname ≡ true
  pub user : is_valid_name t.client_username ≡ true

-- The server has such a session for the descriptor.
pub record Showing (fd : ℕ) (v : Server) (held : List ℕ) (saved : List (List ℕ))
    (queue : List Frame) : Type 0 where
  pub session : Session
  pub found : find fd v.table ≡ some session
  pub shows : Shows held saved queue session

pub hold-hold : (s : Session) (tail : List ℕ) → hold (hold s tail) tail ≡ hold s tail
hold-hold s [] = refl
hold-hold s (a ∷ []) = refl
hold-hold s (a ∷ b ∷ []) = refl
hold-hold s (a ∷ b ∷ c ∷ []) = refl
hold-hold s (a ∷ b ∷ c ∷ d ∷ []) = refl
hold-hold s (a ∷ b ∷ c ∷ d ∷ e ∷ x) = refl

-- What `hold` leaves of the other fields.
pub hold_keeps :
    (s : Session) (tail : List ℕ)
    → let t = hold s tail in
      (t.messages ≡ s.messages)
      × (t.files ≡ s.files)
      × (t.client_hostname ≡ s.client_hostname)
      × (t.client_username ≡ s.client_username)
      × (t.response ≡ s.response)
      × (t.sent ≡ s.sent)
hold_keeps s [] = (refl, refl, refl, refl, refl, refl)
hold_keeps s (a ∷ []) = (refl, refl, refl, refl, refl, refl)
hold_keeps s (a ∷ b ∷ []) = (refl, refl, refl, refl, refl, refl)
hold_keeps s (a ∷ b ∷ c ∷ []) = (refl, refl, refl, refl, refl, refl)
hold_keeps s (a ∷ b ∷ c ∷ d ∷ []) = (refl, refl, refl, refl, refl, refl)
hold_keeps s (a ∷ b ∷ c ∷ d ∷ e ∷ x) = (refl, refl, refl, refl, refl, refl)

-- Frames that arrive are queued.
arrived-Shows :
    (held tail : List ℕ) (saved : List (List ℕ)) (queue fs : List Frame) (t : Session)
    → Shows held saved queue t
    → Shows tail saved (queue ++ fs) (hold (enqueue t fs) tail)
arrived-Shows held tail saved queue fs t h =
    let (ms, files, host, user, r, s) = hold_keeps (enqueue t fs) tail in
    record {
      holds = hold-hold (enqueue t fs) tail;
      queued =
          ms
          ∙ ap (λ (q : List Message). q ++ map message_of fs) h.queued
          ∙ sym (map-append message_of queue fs);
      contents = ap (map (λ (f : File). f.content)) files ∙ h.contents;
      host = ap is_valid_name host ∙ h.host;
      user = ap is_valid_name user ∙ h.user;
    }

-- The session once the front of its queue has been saved.
saved_session : Saving → Session → Frame → List Frame → Session
saved_session sys t f fs =
    let path = directory t.client_hostname t.client_username ++ (b'/' ∷ file_name sys t) in
    record t {
      messages = map message_of fs;
      files = t.files ++ record { path = path; content = f.payload } ∷ [];
      log = t.log ++ saved_image path ∷ [];
    }

saved-Shows :
    (sys : Saving) (tail : List ℕ) (saved : List (List ℕ)) (f : Frame) (fs : List Frame)
    (t : Session)
    → Shows tail saved (f ∷ fs) t
    → Shows tail (saved ++ f.payload ∷ []) fs (saved_session sys t f fs)
unfolding saved_session
saved-Shows sys tail saved f fs t h =
    let u = saved_session sys t f fs in
    record {
      holds =
          sym (
            hold_fields t tail t.client_hostname t.client_username u.messages t.response t.sent
              u.log u.files)
          ∙ ap
              (λ (x : Session). record x {
                client_hostname = t.client_hostname;
                client_username = t.client_username;
                messages = u.messages;
                response = t.response;
                sent = t.sent;
                log = u.log;
                files = u.files;
              })
              h.holds;
      queued = refl;
      contents =
          map-append (λ (g : File). g.content) t.files _
          ∙ ap (λ (c : List (List ℕ)). c ++ f.payload ∷ []) h.contents;
      host = h.host;
      user = h.user;
    }

-- One event: at most the frame in front is saved, and all if none is left.
pub record Advance (fd : ℕ) (u : Server) (tail : List ℕ) (saved : List (List ℕ))
    (queue : List Frame) : Type 0 where
  pub done : List Frame
  pub rest : List Frame
  pub split : queue ≡ done ++ rest
  pub one : length done ≤ 1
  pub busy : rest ≡ [] ⊎ length done ≡ 1
  pub showing : Showing fd u tail (saved ++ map (λ (f : Frame). f.payload) done) rest

store-Showing :
    (fd : ℕ) (v : Server) (tail : List ℕ) (saved : List (List ℕ)) (queue : List Frame) (t : Session)
    → Shows tail saved queue t
    → Showing fd (store fd t v) tail saved queue
store-Showing fd v tail saved queue t h = record {
  session = t;
  found = find-put_self fd t v.table;
  shows = h;
}

module _ (ev : Event) (v : Server) (disk : Works ev.saving) (tail : List ℕ) (saved : List (List ℕ))
    (t : Session) where
  abbrev whole : Ran Bool → Ran (Unit {0})
  whole r = r >>= closing ev.fd >>= λ _ u. ran tt u

  serve :
      (queue : List Frame)
      → All IsImage queue
      → Shows tail saved queue t
      → (u : Server) × (whole (handle_message ev t v) ≡ ran tt u) × Advance ev.fd u tail saved queue
  unfolding saved_session
  serve [] images h = (
    store ev.fd t v,
    ap whole (handle_message-none ev t v h.queued),
    record {
      done = [];
      rest = [];
      split = refl;
      one = omega arith;
      busy = inl refl;
      showing =
          store-Showing ev.fd v tail (saved ++ []) [] t
            (subst (λ c. Shows tail c [] t) (sym (append-nil saved)) h);
    },
  )
  serve (f ∷ fs) images h =
      let next : Session = saved_session ev.saving t f fs in
      let img =
        handle_img_saves ev.saving t (message_of f) (map message_of fs) h.queued disk.made
          disk.opened disk.relative h.host h.user in
      (
        store ev.fd next v,
        ap whole (
            handle_message-img ev t v f (map message_of fs) h.queued images.0
            ∙ ap (after_img ev v) img),
        record {
          done = f ∷ [];
          rest = fs;
          split = refl;
          one = omega arith;
          busy = inr refl;
          showing =
              store-Showing ev.fd v tail (saved ++ f.payload ∷ []) fs next
                (saved-Shows ev.saving tail saved f fs t h);
        },
      )

-- An event that brings the rest of good frames of kind 'I' to a session with valid names and
-- images in its queue, on a connection that stays open and with a disk that works, returns; the
-- frames are queued behind the others, exactly the first of all is saved and taken off, if there
-- is one, and a partial frame behind them is held.
pub arrival-Advance :
    (fd : ℕ) (v : Server) (ev : Event) (held tail : List ℕ) (saved : List (List ℕ))
    (queue fs : List Frame)
    → Showing fd v held saved queue
    → IsArrival fd ev
    → Works ev.saving
    → All IsImage (queue ++ fs)
    → All IsGood fs
    → IsPartial tail
    → held ++ received ev.in_recvs ≡ encode_all fs ++ tail
    → (u : Server) × (handle_event ev v ≡ ran tt u) × Advance fd u tail saved (queue ++ fs)
arrival-Advance fd v ev held tail saved queue fs h a disk images good partial stream =
    let t : Session = h.session in
    let t1 : Session = hold (enqueue t fs) tail in
    let first =
      handle_event-frames ev t v held tail fs good partial stream fd a
        (h.found ∙ ap some (sym h.shows.holds)) in
    let (u, runs, adv) =
      serve ev v disk tail saved t1 (queue ++ fs) images
        (arrived-Shows held tail saved queue fs t h.shows) in
    (u, first ∙ runs, subst (λ k. Advance k u tail saved (queue ++ fs)) a.own adv)
