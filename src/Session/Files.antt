-- ===== src/Session/Files.antt =====
-- session.cc: `GetStringFromHostPort`, `SaveScreen` and `HandleImgMessage`.
use cpp_remote_screen_captur.Base.{
  ℕ, Bool, true, false, List, [], ◌∷◌, ◌++◌, Option, none, some, ◌==◌, if◌then◌else◌,
}
use cpp_remote_screen_captur.Base.Bytes.{codes}
use cpp_remote_screen_captur.Session.State.{
  Session, Message, print, no_directory, no_file, saved_image,
}
use cpp_remote_screen_captur.Session.Auth.{pop_message}

-- `host.erase(std::remove(..., '.'), ...)`.
unfoldable pub erase_dots : List ℕ → List ℕ
erase_dots [] = []
erase_dots (c ∷ cs) = if c == b'.' then erase_dots cs else c ∷ erase_dots cs

unfoldable pub get_string_from_host_port : Session → List ℕ
unfolding erase_dots
get_string_from_host_port s = erase_dots s.client_host ++ (codes "_" ++ s.client_port)

-- `std::filesystem::path` on a POSIX system, as its text: `/` appends with a separator unless the
-- left side ends in one or is empty, and an absolute right side replaces the left.
unfoldable pub is_absolute : List ℕ → Bool
is_absolute [] = false
is_absolute (c ∷ cs) = c == b'/'

unfoldable pub has_filename : List ℕ → Bool
has_filename [] = false
has_filename (c ∷ []) = if c == b'/' then false else true
has_filename (c ∷ d ∷ cs) = has_filename (d ∷ cs)

infixl 60 ◌//◌
unfoldable pub ◌//◌ : List ℕ → List ℕ → List ℕ
unfolding is_absolute has_filename
p // q = if is_absolute q then q else if has_filename p then p ++ (b'/' ∷ q) else p ++ q

-- What the system answers while a file is saved: the local time in the format `%Y%m%d_%H%M%S`,
-- the error code of `create_directories`, and whether the file could be opened.
pub record Saving : Type 0 where
  pub timestamp : List ℕ
  pub create_error : Option ℕ
  pub opened : Bool

unfoldable pub base_path : Session → List ℕ
unfolding ◌//◌
base_path s = codes "screenshots" // s.client_hostname // s.client_username

unfoldable pub file_name : Saving → Session → List ℕ
unfolding get_string_from_host_port
file_name sys s = sys.timestamp ++ (codes "_" ++ (get_string_from_host_port s ++ codes ".png"))

unfoldable pub save_screen : Saving → Message → Session → Session
unfolding base_path file_name
save_screen sys msg s =
    let out_path = base_path s // file_name sys s in
    elim sys.create_error [
      | some ec ↦ print (no_directory ec) s
      | none ↦
          if sys.opened
          then print (saved_image out_path) (record s {
            files = s.files ++ record { path = out_path; content = msg.bytes_vec } ∷ [];
          })
          else print (no_file out_path) s
    ]

-- `none` where the queue is empty, on which the source calls `front`.
abbrev pub img_front : Saving → Session → List Message → Option Session
img_front sys s [] = none
img_front sys s (m ∷ ms) = some (pop_message (save_screen sys m s))

unfoldable pub handle_img_message : Saving → Session → Option Session
handle_img_message sys s = img_front sys s s.messages
