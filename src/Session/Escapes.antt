-- ===== src/Session/Escapes.antt =====
-- session.cc: the file of an image that follows a request with an absolute path for a hostname.
use cpp_remote_screen_captur.Base.{
  ℕ, ◌^◌, ◌<◌, ◌≡◌, refl, ap, subst, ◌∙◌, true, false, List, [], ◌∷◌, ◌++◌, length, none, some,
  arith, append_assoc, if-cases,
}
use cpp_remote_screen_captur.Base.Bytes.{codes, be16}
use cpp_remote_screen_captur.Session.State.{Session, Message, File, auth_failed, invalid_hostname}
use cpp_remote_screen_captur.Session.Auth.{
  is_name_char, all_name_chars, is_valid_name, pop_message, handle_auth_request,
}
use cpp_remote_screen_captur.Session.AuthLaws.{handle_auth_refuses}
use cpp_remote_screen_captur.Session.Files.{
  is_absolute, has_filename, ◌//◌, Saving, base_path, file_name, save_screen, handle_img_message,
}
use cpp_remote_screen_captur.Session.Paths.{file_name-relative}

-- A path that begins with another.
pub record Under (front path : List ℕ) : Type 0 where
  pub rest : List ℕ
  pub split : path ≡ front ++ rest

Under-trans : (p q r : List ℕ) → Under p q → Under q r → Under p r
Under-trans p q r a b = record {
  rest = a.rest ++ b.rest;
  split = b.split ∙ ap (λ (x : List ℕ). x ++ b.rest) a.split ∙ append_assoc p a.rest b.rest;
}

Under-append : (p q : List ℕ) → is_absolute q ≡ false → Under p (p // q)
unfolding ◌//◌
Under-append p q h = rw h (
    if-cases (Under p) (has_filename p) _ _ (λ _. record { rest = b'/' ∷ q; split = refl })
      (λ _. record { rest = q; split = refl }))

is_valid_name-absolute : (name : List ℕ) → is_valid_name (b'/' ∷ name) ≡ false
unfolding is_valid_name all_name_chars is_name_char
is_valid_name-absolute name = ground arith

screenshots-absolute : (dir : List ℕ) → codes "screenshots" // (b'/' ∷ dir) ≡ b'/' ∷ dir
unfolding ◌//◌ is_absolute
screenshots-absolute dir = refl

base_path-Under :
    (s : Session) (dir : List ℕ)
    → s.client_hostname ≡ b'/' ∷ dir
    → is_absolute s.client_username ≡ false
    → Under (b'/' ∷ dir) (base_path s)
unfolding base_path
base_path-Under s dir host user =
    subst (λ p. Under p (codes "screenshots" // s.client_hostname // s.client_username))
      (ap (λ p. codes "screenshots" // p) host ∙ screenshots-absolute dir)
      (Under-append (codes "screenshots" // s.client_hostname) s.client_username user)

save_screen-files :
    (sys : Saving) (m : Message) (s : Session)
    → sys.create_error ≡ none
    → sys.opened ≡ true
    → (save_screen sys m s).files
      ≡ s.files ++ record { path = base_path s // file_name sys s; content = m.bytes_vec } ∷ []
unfolding save_screen
save_screen-files sys m s made opened = rw (made, opened) refl

-- The image `i` is in a file whose path begins with `dir`, in a session that has the other files
-- of `s`.
pub record Escaped (sys : Saving) (s t : Session) (i : Message) (dir : List ℕ) : Type 0 where
  pub after : Session
  pub handled : handle_img_message sys t ≡ some after
  pub file : File
  pub files : after.files ≡ s.files ++ file ∷ []
  pub content : file.content ≡ i.bytes_vec
  pub path : Under dir file.path

module _ (sys : Saving) (s : Session) (m i : Message) (ms : List Message)
    (queue : s.messages ≡ m ∷ i ∷ ms) where
  -- A request in front of the queue whose hostname is an absolute path of less than 65536 bytes
  -- is refused, and then an image behind it is written, on a disk that works and if neither the
  -- time nor the session's username begins with a separator, to a file whose path begins with
  -- this hostname.
  pub refused_hostname_escapes :
      (dir back : List ℕ)
      → m.bytes_vec ≡ be16 (length (b'/' ∷ dir)) ++ ((b'/' ∷ dir) ++ back)
      → length (b'/' ∷ dir) < 2 ^ 16
      → sys.create_error ≡ none
      → sys.opened ≡ true
      → is_absolute sys.timestamp ≡ false
      → is_absolute s.client_username ≡ false
      → (t : Session) × (handle_auth_request s ≡ some (false, t)) × Escaped sys s t i (b'/' ∷ dir)
  unfolding handle_img_message
  refused_hostname_escapes dir back form short made opened relative user =
      let t : Session = record s {
        client_hostname = b'/' ∷ dir;
        messages = i ∷ ms;
        log = s.log ++ auth_failed invalid_hostname ∷ [];
      } in
      (
        t,
        handle_auth_refuses s m (i ∷ ms) queue (b'/' ∷ dir) back form short
            (is_valid_name-absolute dir),
        record {
          after = pop_message (save_screen sys i t);
          handled = refl;
          file = record { path = base_path t // file_name sys t; content = i.bytes_vec };
          files = save_screen-files sys i t made opened;
          content = refl;
          path =
              Under-trans (b'/' ∷ dir) (base_path t) _ (base_path-Under t dir refl user)
                (Under-append (base_path t) (file_name sys t) (file_name-relative sys t relative));
        },
      )
