-- ===== src/Tests/Clients.antt =====
-- The client's theorems on concrete connections.
use cpp_remote_screen_captur.Base.{◌≡◌, refl, List, [], ◌∷◌, arith, true, false}
use cpp_remote_screen_captur.Base.Bytes.{codes}
use cpp_remote_screen_captur.Session.State.{eintr, epipe}
use cpp_remote_screen_captur.Session.Socket.{bytes, count, failed}
use cpp_remote_screen_captur.Session.Framing.{encode}
use cpp_remote_screen_captur.Client.State.{
  Client, done, new_client, print, authenticated, image_sent,
}
use cpp_remote_screen_captur.Client.Messages.{
  create_authentication_request, create_img_message, auth_frame, img_frame,
  create_authentication_request-encode, create_img_message-encode,
}
use cpp_remote_screen_captur.Client.Socket.{send_all}
use cpp_remote_screen_captur.Client.Transfer.{SendsInOrder, send_all-SendsInOrder, send_all_returns}
use cpp_remote_screen_captur.Client.Loop.{Round, grabbed, send_loop, wait_loop, try_authenticate}
use cpp_remote_screen_captur.Signals.{sigint, readings}
use cpp_remote_screen_captur.Client.Stopping.{send_loop_stops}
use cpp_remote_screen_captur.Client.Traffic.{wait_loop_slept, Waited, try_authenticate_accepts}

create_authentication_request-encode_example :
    create_authentication_request (codes "pc") (codes "me")
    ≡ encode (auth_frame (codes "pc") (codes "me"))
create_authentication_request-encode_example =
    create_authentication_request-encode (codes "pc") (codes "me") (omega arith) (omega arith)

create_img_message-encode_example :
    create_img_message (7 ∷ 8 ∷ []) ≡ encode (img_frame (7 ∷ 8 ∷ []))
create_img_message-encode_example = create_img_message-encode (7 ∷ 8 ∷ []) (omega arith)

send_all-SendsInOrder_example :
    SendsInOrder
      (1 ∷ 2 ∷ 3 ∷ [])
      (send_all (count 2 ∷ failed eintr ∷ failed epipe ∷ []) (1 ∷ 2 ∷ 3 ∷ []))
send_all-SendsInOrder_example =
    send_all-SendsInOrder (count 2 ∷ failed eintr ∷ failed epipe ∷ []) (1 ∷ 2 ∷ 3 ∷ [])

send_all_returns_example :
    send_all (count 2 ∷ failed eintr ∷ count 1 ∷ []) (1 ∷ 2 ∷ 3 ∷ []) ≡ (done 3, 1 ∷ 2 ∷ 3 ∷ [])
send_all_returns_example =
    send_all_returns (count 2 ∷ failed eintr ∷ count 1 ∷ []) (1 ∷ 2 ∷ 3 ∷ []) tt (omega arith)

abbrev client : Client
client = record (new_client (codes "10.0.0.1") 5000 1) {
  hostname = codes "pc";
  username = codes "me";
}

abbrev one_round : List Round
one_round = record { grab = grabbed (7 ∷ []); sends = count 6 ∷ [] } ∷ []

abbrev client_after : Client
client_after = record client { sent = b'I' ∷ 0 ∷ 0 ∷ 0 ∷ 1 ∷ 7 ∷ []; log = image_sent ∷ [] }

wait_loop_slept_example : Waited 3 (false ∷ true ∷ []) 1 []
unfolding wait_loop
wait_loop_slept_example = wait_loop_slept 3 (false ∷ true ∷ [])

try_authenticate_accepts_example :
    try_authenticate (count 10 ∷ count 3 ∷ []) (bytes (b'Y' ∷ []) ∷ []) client ≡ (
      done true,
      print authenticated (record client { sent = encode (auth_frame (codes "pc") (codes "me")) }),
    )
try_authenticate_accepts_example =
    try_authenticate_accepts (count 10 ∷ count 3 ∷ []) [] client (omega arith) (omega arith) tt
      (omega arith)

-- SIGINT comes while the client waits after its first image.
send_loop_stops_example :
    (send_loop one_round (readings false ([] ∷ (1 ∷ sigint ∷ []) ∷ [] ∷ [])) client).0 ≡ done tt
send_loop_stops_example =
    send_loop_stops one_round ([] ∷ []) ([] ∷ []) (1 ∷ []) [] client
      ((tt, unfold create_img_message in refl), tt) (tt, tt) (omega arith, tt) (omega arith)
