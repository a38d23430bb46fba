-- ===== src/Tests/Sessions.antt =====
-- Authentication, answers and saved images, on concrete names and bytes.
use cpp_remote_screen_captur.Base.{ℕ, ◌≡◌, refl, List, [], ◌∷◌, ◌++◌, arith, true, false, some}
use cpp_remote_screen_captur.Base.Bytes.{codes}
use cpp_remote_screen_captur.Session.State.{
  Session, Message, open_session, eintr, auth_failed, invalid_hostname,
}
use cpp_remote_screen_captur.Session.Buffer.{pop_uint16, pop_string}
use cpp_remote_screen_captur.Session.Socket.{count, failed, try_send}
use cpp_remote_screen_captur.Session.Auth.{
  is_valid_name, handle_auth_request, all_name_chars, parse_auth_message,
}
use cpp_remote_screen_captur.Session.AuthLaws.{
  auth_payload, handle_auth_accepts, handle_auth_refuses,
}
use cpp_remote_screen_captur.Session.AuthSound.{handle_auth_sound}
use cpp_remote_screen_captur.Session.Transfer.{Sends, try_send-Sends}
use cpp_remote_screen_captur.Base.{none}
use cpp_remote_screen_captur.Session.State.{saved_image}
use cpp_remote_screen_captur.Session.Files.{Saving, file_name, is_absolute, handle_img_message}
use cpp_remote_screen_captur.Session.Escapes.{Escaped, refused_hostname_escapes}
use cpp_remote_screen_captur.Session.Paths.{directory, handle_img_saves}

abbrev new_session : Session
new_session = open_session 5 (codes "10.0.0.7") (codes "40000")

-- An authentication message with the names "pc" and "me", and one with the hostname "..".
abbrev auth_message : Message
auth_message = record {
  type_vec = b'A' ∷ [];
  size_vec = 0 ∷ 0 ∷ 0 ∷ 8 ∷ [];
  bytes_vec = 0 ∷ 2 ∷ b'p' ∷ b'c' ∷ 0 ∷ 2 ∷ b'm' ∷ b'e' ∷ [];
}

abbrev bad_message : Message
bad_message = record {
  type_vec = b'A' ∷ [];
  size_vec = 0 ∷ 0 ∷ 0 ∷ 4 ∷ [];
  bytes_vec = 0 ∷ 3 ∷ b'/' ∷ b'.' ∷ b'.' ∷ [];
}

abbrev asking : Session
asking = record new_session { messages = auth_message ∷ [] }

abbrev asking_bad : Session
asking_bad = record new_session { messages = bad_message ∷ [] }

abbrev named : Session
named = record new_session { client_hostname = codes "pc"; client_username = codes "me" }

handle_auth_accepts_example : handle_auth_request asking ≡ some (true, named)
unfolding all_name_chars
handle_auth_accepts_example =
    handle_auth_accepts asking auth_message [] refl (codes "pc") (codes "me") [] refl
      (unfold is_valid_name in refl) (unfold is_valid_name in refl)

handle_auth_refuses_example :
    handle_auth_request asking_bad
    ≡ some (
      false,
      record new_session { client_hostname = codes "/.."; log = auth_failed invalid_hostname ∷ [] },
    )
unfolding all_name_chars
handle_auth_refuses_example =
    handle_auth_refuses asking_bad bad_message [] refl (codes "/..") [] refl (omega arith)
      (unfold is_valid_name in refl)

handle_auth_sound_example :
    ((extra : List ℕ) × (auth_message.bytes_vec ≡ auth_payload (codes "pc") (codes "me") extra))
    × (is_valid_name (codes "pc") ≡ true)
    × (is_valid_name (codes "me") ≡ true)
unfolding parse_auth_message pop_uint16 pop_string is_valid_name all_name_chars
handle_auth_sound_example =
    handle_auth_sound asking auth_message [] refl {s' = named}
      (
        omega arith,
        (
          omega arith,
          (
            omega arith,
            (omega arith, (omega arith, (omega arith, (omega arith, (omega arith, tt))))),
          ),
        ),
      )
      (unfold handle_auth_request in refl)

abbrev answering : Session
answering = record new_session { response = b'Y' ∷ [] }

try_send-Sends_example : Sends answering (try_send (failed eintr ∷ count 1 ∷ []) answering).1
try_send-Sends_example = try_send-Sends (failed eintr ∷ count 1 ∷ []) answering

-- A session with names, an image in front of its queue, and a disk that works.
abbrev showing : Session
showing = record named {
  messages =
      record { type_vec = b'I' ∷ []; size_vec = 0 ∷ 0 ∷ 0 ∷ 1 ∷ []; bytes_vec = 7 ∷ [] } ∷ [];
}

abbrev disk : Saving
disk = record { timestamp = codes "20260101_120000"; create_error = none; opened = true }

abbrev saved_path : List ℕ
saved_path = directory (codes "pc") (codes "me") ++ (b'/' ∷ file_name disk showing)

handle_img_saves_example :
    handle_img_message disk showing
    ≡ some (record named {
      files = record { path = saved_path; content = 7 ∷ [] } ∷ [];
      log = saved_image saved_path ∷ [];
    })
unfolding all_name_chars
handle_img_saves_example =
    handle_img_saves disk showing
      (record { type_vec = b'I' ∷ []; size_vec = 0 ∷ 0 ∷ 0 ∷ 1 ∷ []; bytes_vec = 7 ∷ [] }) [] refl
      refl refl (unfold is_absolute in refl) (unfold is_valid_name in refl)
      (unfold is_valid_name in refl)

-- A request with the hostname "/.." and an image behind it.
abbrev escaping : Session
escaping = record new_session {
  messages =
      bad_message
      ∷ record { type_vec = b'I' ∷ []; size_vec = 0 ∷ 0 ∷ 0 ∷ 1 ∷ []; bytes_vec = 7 ∷ [] }
      ∷ [];
}

refused_hostname_escapes_example :
    (t : Session) × (handle_auth_request escaping ≡ some (false, t))
    × Escaped disk escaping t
        (record { type_vec = b'I' ∷ []; size_vec = 0 ∷ 0 ∷ 0 ∷ 1 ∷ []; bytes_vec = 7 ∷ [] })
        (codes "/..")
unfolding is_absolute
refused_hostname_escapes_example =
    refused_hostname_escapes disk escaping bad_message _ [] refl (codes "..") [] refl (omega arith)
      refl refl refl refl
