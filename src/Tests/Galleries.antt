-- ===== src/Tests/Galleries.antt =====
-- A client's images, and a message of an unknown kind, at a server among other clients.
use cpp_remote_screen_captur.Session.Files.{handle_img_message, save_screen, is_absolute}
use cpp_remote_screen_captur.Session.Buffer.{peek_uint8}
use cpp_remote_screen_captur.Session.Auth.{get_message_type, is_valid_name, all_name_chars}
use cpp_remote_screen_captur.Session.Parser.{parse_message, parse_round}
use cpp_remote_screen_captur.Base.{ℕ, ◌≡◌, refl, Bool, true, false, List, [], ◌∷◌, arith}
use cpp_remote_screen_captur.Base.Bytes.{codes}
use cpp_remote_screen_captur.Base.Table.{find, put}
use cpp_remote_screen_captur.Session.State.{Session, saved_image, eagain, eintr}
use cpp_remote_screen_captur.Session.Socket.{Recv, bytes, failed, count, try_recv}
use cpp_remote_screen_captur.Session.Framing.{Frame, message_of}
use cpp_remote_screen_captur.Server.State.{Server, ran, store}
use cpp_remote_screen_captur.Server.Unnamed.{unnamed, unnamed_image_saved}
use cpp_remote_screen_captur.Server.Handlers.{handle_event, handle_in_event, handle_message}
use cpp_remote_screen_captur.Server.Arrivals.{IsArrival}
use cpp_remote_screen_captur.Server.Isolation.{Others, handle_event-Others}
use cpp_remote_screen_captur.Server.Images.{Works, Showing, Advance, arrival-Advance}
use cpp_remote_screen_captur.Server.Gallery.{Gallery, DiskWorks, images_kept}
use cpp_remote_screen_captur.Server.Stuck.{Waits, stuck}
use cpp_remote_screen_captur.Server.Interleaving.{event-Inv, Run, over, arrives}
use cpp_remote_screen_captur.Tests.Servers.{request, busy_server, busy_server-Inv, client_session}
use cpp_remote_screen_captur.Tests.Conversations.{serving, answered, answered-Inv, piece, client}
use cpp_remote_screen_captur.Client.State.{Client, image_sent}
use cpp_remote_screen_captur.Client.Loop.{Round, grabbed}

handle_event-Others_example : Others 5 busy_server (handle_event request busy_server)
handle_event-Others_example = handle_event-Others request busy_server busy_server-Inv

abbrev image : ℕ → Frame
image n = record { kind = b'I'; payload = n ∷ [] }

-- Two images in one event.
abbrev image_recvs : List Recv
image_recvs =
    bytes (b'I' ∷ 0 ∷ 0 ∷ 0 ∷ 1 ∷ 7 ∷ [])
    ∷ bytes (b'I' ∷ 0 ∷ 0 ∷ 0 ∷ 1 ∷ 8 ∷ [])
    ∷ failed eagain
    ∷ []

abbrev image_path : List ℕ
image_path = codes "screenshots/pc/me/now_10007_40000.png"

abbrev shown : Session
shown = record answered {
  messages = message_of (image 8) ∷ [];
  log = saved_image image_path ∷ [];
  files = record { path = image_path; content = 7 ∷ [] } ∷ [];
}

images_event : handle_event (piece image_recvs) (serving answered) ≡ ran tt (serving shown)
unfolding handle_event find handle_in_event try_recv parse_message parse_round handle_message
    get_message_type peek_uint8 handle_img_message put save_screen
images_event = refl

piece-IsArrival : IsArrival 5 (piece image_recvs)
piece-IsArrival = record {
  own = refl;
  readable = refl;
  not_writable = refl;
  no_error = refl;
  alive = tt;
}

disk : Works (piece image_recvs).saving
unfolding is_absolute
disk = record { made = refl; opened = refl; relative = refl }

before : Showing 5 (serving answered) [] [] []
unfolding find is_valid_name all_name_chars
before = record {
  session = answered;
  found = refl;
  shows = record { holds = refl; queued = refl; contents = refl; host = refl; user = refl };
}

arrival-Advance_example :
    (u : Server) × (handle_event (piece image_recvs) (serving answered) ≡ ran tt u)
    × Advance 5 u [] [] (image 7 ∷ image 8 ∷ [])
arrival-Advance_example =
    arrival-Advance 5 (serving answered) (piece image_recvs) [] [] [] [] (image 7 ∷ image 8 ∷ [])
      before piece-IsArrival disk (refl, (refl, tt))
      ((omega arith, omega arith), ((omega arith, omega arith), tt)) tt refl

showing_run : Run DiskWorks 5 (serving shown) (serving answered) (image_recvs ∷ [])
showing_run = arrives (piece image_recvs) piece-IsArrival disk images_event over

images_kept_example : Gallery 5 (serving shown) [] [] (image 7 ∷ image 8 ∷ []) 1
images_kept_example =
    images_kept 5 (serving shown) (serving answered) (image_recvs ∷ []) (image 7 ∷ image 8 ∷ []) []
      [] [] [] showing_run answered-Inv before (refl, (refl, tt))
      ((omega arith, omega arith), ((omega arith, omega arith), tt)) tt tt refl

-- The two rounds of the client that sends these images.
abbrev rounds : List Round
rounds =
    record { grab = grabbed (7 ∷ []); sends = count 6 ∷ [] }
    ∷ record { grab = grabbed (8 ∷ []); sends = count 4 ∷ count 2 ∷ [] }
    ∷ []

abbrev client_after : Client
client_after = record client {
  sent = b'I' ∷ 0 ∷ 0 ∷ 0 ∷ 1 ∷ 7 ∷ b'I' ∷ 0 ∷ 0 ∷ 0 ∷ 1 ∷ 8 ∷ [];
  log = image_sent ∷ image_sent ∷ [];
}

abbrev flags : List Bool
flags = false ∷ false ∷ false ∷ false ∷ true ∷ []

-- A message of the kind 'X', and an image behind it.
abbrev odd : Frame
odd = record { kind = b'X'; payload = 1 ∷ [] }

abbrev odd_session : Session
odd_session = record answered { messages = message_of odd ∷ [] }

abbrev odd_recvs : List Recv
odd_recvs = bytes (b'X' ∷ 0 ∷ 0 ∷ 0 ∷ 1 ∷ 1 ∷ []) ∷ failed eagain ∷ []

abbrev more_recvs : List Recv
more_recvs = bytes (b'I' ∷ 0 ∷ 0 ∷ 0 ∷ 1 ∷ 7 ∷ []) ∷ failed eagain ∷ []

odd_event : handle_event (piece odd_recvs) (serving answered) ≡ ran tt (serving odd_session)
unfolding handle_event find handle_in_event try_recv parse_message parse_round handle_message
    get_message_type peek_uint8 put
odd_event = refl

more_event :
    handle_event (piece more_recvs) (serving odd_session)
    ≡ ran tt (serving (record answered { messages = message_of odd ∷ message_of (image 7) ∷ [] }))
unfolding handle_event find handle_in_event try_recv parse_message parse_round handle_message
    get_message_type peek_uint8 put
more_event = refl

stuck_example :
    Waits 5
      (serving (record answered { messages = message_of odd ∷ message_of (image 7) ∷ [] }))
      []
      odd
      (image 7 ∷ [])
      []
      (b'Y' ∷ [])
unfolding find
stuck_example =
    stuck 5 odd (omega arith, omega arith) [] (b'Y' ∷ []) (serving odd_session)
      (serving (record answered { messages = message_of odd ∷ message_of (image 7) ∷ [] }))
      (more_recvs ∷ []) (image 7 ∷ []) [] [] []
      (arrives (piece more_recvs)
        (record { own = refl; readable = refl; not_writable = refl; no_error = refl; alive = tt })
        tt more_event over)
      (event-Inv (piece odd_recvs) (serving answered) (serving odd_session) answered-Inv odd_event)
      (record {
        session = odd_session;
        found = refl;
        holds = refl;
        queued = refl;
        wrote = refl;
        sends = refl;
      })
      ((omega arith, omega arith), tt) tt tt refl

abbrev early_recvs : List Recv
early_recvs = bytes (b'I' ∷ 0 ∷ 0 ∷ []) ∷ failed eintr ∷ bytes (0 ∷ 1 ∷ 7 ∷ []) ∷ []

unnamed_image_saved_example :
    handle_event (piece early_recvs) (serving client_session)
    ≡ ran tt (
        store 5
          (unnamed (piece early_recvs).saving 5 (codes "10.0.0.7") (codes "40000") (7 ∷ []))
          (serving client_session))
unnamed_image_saved_example =
    unnamed_image_saved 5 (serving client_session) (piece early_recvs) (codes "10.0.0.7")
      (codes "40000") (image 7) (unfold find in refl)
      (record { own = refl; readable = refl; not_writable = refl; no_error = refl; alive = tt })
      (record { made = refl; opened = refl; relative = unfold is_absolute in refl }) refl
      (omega arith, omega arith) refl
