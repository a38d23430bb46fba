-- ===== src/Server/Unnamed.antt =====
-- server.cc and session.cc: an image from a client that has not sent a request.
use cpp_remote_screen_captur.Base.{
  ℕ, ◌≡◌, refl, sym, ap, ◌∙◌, false, List, [], ◌∷◌, ◌++◌, some, append-nil,
}
use cpp_remote_screen_captur.Base.Bytes.{codes}
use cpp_remote_screen_captur.Base.Table.{find}
use cpp_remote_screen_captur.Session.State.{Session, open_session, saved_image}
use cpp_remote_screen_captur.Session.Files.{
  Saving, is_absolute, has_filename, ◌//◌, base_path, file_name, save_screen, handle_img_message,
}
use cpp_remote_screen_captur.Session.Paths.{file_name-relative}
use cpp_remote_screen_captur.Session.Framing.{Frame, encode, enqueue, IsGood}
use cpp_remote_screen_captur.Session.Chunks.{received}
use cpp_remote_screen_captur.Server.State.{Server, Event, ran, store}
use cpp_remote_screen_captur.Server.Handlers.{handle_event, after_img}
use cpp_remote_screen_captur.Server.Arrivals.{IsArrival, handle_event-frames}
use cpp_remote_screen_captur.Server.Fronts.{handle_message-img}
use cpp_remote_screen_captur.Server.Images.{IsImage, Works}
use cpp_remote_screen_captur.Server.Answers.{whole}

screenshots_top :
    (q : List ℕ)
    → is_absolute q ≡ false
    → codes "screenshots" // [] // [] // q ≡ codes "screenshots/" ++ q
unfolding ◌//◌ has_filename is_absolute
screenshots_top q h = rw h refl

-- A session without names, once it has saved an image.
abbrev pub unnamed : Saving → ℕ → List ℕ → List ℕ → List ℕ → Session
unnamed sys fd host port payload =
    let s = open_session fd host port in
    let path = codes "screenshots/" ++ file_name sys s in
    record s { files = record { path = path; content = payload } ∷ []; log = saved_image path ∷ [] }

saves :
    (sys : Saving) (fd : ℕ) (host port : List ℕ) (f : Frame)
    → Works sys
    → handle_img_message sys (enqueue (open_session fd host port) (f ∷ []))
      ≡ some (unnamed sys fd host port f.payload)
unfolding handle_img_message save_screen base_path
saves sys fd host port f disk =
    let s = open_session fd host port in
    rw
      (
        disk.made,
        disk.opened,
        screenshots_top (file_name sys s) (file_name-relative sys s disk.relative),
      )
      refl

-- An event that brings one good frame of kind 'I' to a new session, which has had no request, on
-- a connection that stays open and with a disk that works, writes the payload to a file in the
-- directory 'screenshots' itself, with one line printed.
pub unnamed_image_saved :
    (fd : ℕ) (v : Server) (ev : Event) (host port : List ℕ) (f : Frame)
    → find fd v.table ≡ some (open_session fd host port)
    → IsArrival fd ev
    → Works ev.saving
    → IsImage f
    → IsGood f
    → received ev.in_recvs ≡ encode f
    → handle_event ev v ≡ ran tt (store fd (unnamed ev.saving fd host port f.payload) v)
unnamed_image_saved fd v ev host port f found a disk image good stream =
    let s = open_session fd host port in
    handle_event-frames ev s v [] [] (f ∷ []) (good, tt) tt
      (stream ∙ sym (append-nil (encode f)) ∙ sym (append-nil _)) fd a found
    ∙ ap (whole ev) (
        handle_message-img ev _ v f [] refl image
        ∙ ap (after_img ev v) (saves ev.saving fd host port f disk))
    ∙ ap (λ k. ran tt (store k (unnamed ev.saving fd host port f.payload) v)) a.own
