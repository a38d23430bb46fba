-- ===== src/Session/Paths.antt =====
-- Where `HandleImgMessage` saves an image.
use cpp_remote_screen_captur.Base.{
  ℕ, ◌≡◌, refl, ap, ◌∙◌, true, false, List, [], ◌∷◌, ◌++◌, none, some, arith, append_assoc,
}
use cpp_remote_screen_captur.Base.Bytes.{codes}
use cpp_remote_screen_captur.Session.State.{Session, Message, saved_image}
use cpp_remote_screen_captur.Session.Auth.{is_name_char, all_name_chars, is_valid_name}
use cpp_remote_screen_captur.Session.Files.{
  is_absolute, has_filename, ◌//◌, Saving, base_path, file_name, save_screen, handle_img_message,
  img_front,
}

is_absolute-chars :
    (c : ℕ) (cs : List ℕ) → all_name_chars (c ∷ cs) ≡ true → is_absolute (c ∷ cs) ≡ false
unfolding all_name_chars is_name_char is_absolute
is_absolute-chars c cs h = ground arith

is_absolute-valid : (name : List ℕ) → is_valid_name name ≡ true → is_absolute name ≡ false
unfolding is_valid_name
is_absolute-valid [] h = ground arith
is_absolute-valid (c ∷ cs) h = is_absolute-chars c cs (ground arith)

has_filename-chars :
    (c : ℕ) (cs : List ℕ) → all_name_chars (c ∷ cs) ≡ true → has_filename (c ∷ cs) ≡ true
unfolding all_name_chars has_filename
has_filename-chars c [] h = ground arith
has_filename-chars c (d ∷ cs) h = has_filename-chars d cs (ground arith)

has_filename-append :
    (p : List ℕ) (c : ℕ) (cs : List ℕ) → has_filename (p ++ c ∷ cs) ≡ has_filename (c ∷ cs)
unfolding has_filename
has_filename-append [] c cs = refl
has_filename-append (x ∷ []) c cs = refl
has_filename-append (x ∷ y ∷ p) c cs = has_filename-append (y ∷ p) c cs

has_filename-valid : (p name : List ℕ) → is_valid_name name ≡ true → has_filename (p ++ name) ≡ true
unfolding is_valid_name
has_filename-valid p [] h = ground arith
has_filename-valid p (c ∷ cs) h =
    has_filename-append p c cs ∙ has_filename-chars c cs (ground arith)

-- A relative path is appended to one that does not end in a separator.
append-relative :
    (p q : List ℕ) → has_filename p ≡ true → is_absolute q ≡ false → p // q ≡ p ++ (b'/' ∷ q)
unfolding ◌//◌
append-relative p q h k = rw (k, h) refl

is_absolute-append :
    (p q : List ℕ) → is_absolute p ≡ false → is_absolute q ≡ false → is_absolute (p ++ q) ≡ false
unfolding is_absolute
is_absolute-append [] q h k = k
is_absolute-append (c ∷ cs) q h k = h

pub file_name-relative :
    (sys : Saving) (s : Session)
    → is_absolute sys.timestamp ≡ false
    → is_absolute (file_name sys s) ≡ false
unfolding file_name
file_name-relative sys s relative =
    is_absolute-append sys.timestamp _ relative (unfold is_absolute in refl)

-- The directory of a session with valid names.
abbrev pub directory : List ℕ → List ℕ → List ℕ
directory hostname username = codes "screenshots/" ++ (hostname ++ (b'/' ∷ username))

base_path-directory :
    (s : Session)
    → is_valid_name s.client_hostname ≡ true
    → is_valid_name s.client_username ≡ true
    → base_path s ≡ directory s.client_hostname s.client_username
unfolding base_path
base_path-directory s vh vu =
    let host = s.client_hostname in
    let user = s.client_username in
    let first : codes "screenshots" // host ≡ codes "screenshots/" ++ host =
      append-relative (codes "screenshots") host (unfold has_filename in refl)
        (is_absolute-valid host vh) in
    ap (λ (p : List ℕ). p // user) first
    ∙ append-relative (codes "screenshots/" ++ host) user
        (has_filename-valid (codes "screenshots/") host vh) (is_absolute-valid user vu)
    ∙ append_assoc (codes "screenshots/") host (b'/' ∷ user)

module _ (sys : Saving) (s : Session) (m : Message) (ms : List Message)
    (queue : s.messages ≡ m ∷ ms) where
  -- An image in front of the queue of a session with valid names, on a disk that works and with
  -- a time that does not begin with a separator, is written whole to a file in the directory
  -- 'screenshots/<hostname>/<username>' and taken off the queue, with one line printed and
  -- nothing else changed.
  pub handle_img_saves :
      sys.create_error ≡ none
      → sys.opened ≡ true
      → is_absolute sys.timestamp ≡ false
      → is_valid_name s.client_hostname ≡ true
      → is_valid_name s.client_username ≡ true
      → let path = directory s.client_hostname s.client_username ++ (b'/' ∷ file_name sys s) in
        handle_img_message sys s
        ≡ some (record s {
          messages = ms;
          files = s.files ++ record { path = path; content = m.bytes_vec } ∷ [];
          log = s.log ++ saved_image path ∷ [];
        })
  unfolding handle_img_message save_screen file_name
  handle_img_saves made opened relative vh vu =
      let dir : List ℕ = directory s.client_hostname s.client_username in
      let rel : is_absolute (file_name sys s) ≡ false = file_name-relative sys s relative in
      let named : has_filename dir ≡ true =
        rw (append_assoc (codes "screenshots/" ++ s.client_hostname) (b'/' ∷ []) s.client_username)
          at
          (has_filename-valid (codes "screenshots/" ++ (s.client_hostname ++ b'/' ∷ []))
            s.client_username vu) in
      let whole : base_path s // file_name sys s ≡ dir ++ (b'/' ∷ file_name sys s) =
        ap (λ (p : List ℕ). p // file_name sys s) (base_path-directory s vh vu)
        ∙ append-relative dir (file_name sys s) named rel in
      ap (img_front sys s) queue ∙ rw (made, opened, whole, queue) refl
