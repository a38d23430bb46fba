-- ===== src/Client/Messages.antt =====
-- client.cc: `InsertToVector`, `CreateAuthenticationRequest` and `CreateImgMessage`.
use cpp_remote_screen_captur.Base.{
  ℕ, ◌+◌, ◌-◌, ◌/◌, ◌%◌, ◌^◌, ◌<◌, ◌≡◌, List, [], ◌∷◌, ◌++◌, length, take, drop, arith,
  length-append, append_assoc, append-nil, ◌∙◌, sym, ap,
}
use cpp_remote_screen_captur.Base.Bytes.{be16, be32}
use cpp_remote_screen_captur.Session.Framing.{Frame, encode}
use cpp_remote_screen_captur.Session.AuthLaws.{auth_payload}

-- The template's three instances, by `sizeof(T)`.
pub data Width : Type 0 where
  one two four : Width

-- A number is cut to its type and written highest byte first.
unfoldable pub insert_to_vector : Width → List ℕ → ℕ → List ℕ
insert_to_vector one buffer num = buffer ++ (num % 2 ^ 8) ∷ []
insert_to_vector two buffer num = buffer ++ be16 (num % 2 ^ 16)
insert_to_vector four buffer num = buffer ++ be32 (num % 2 ^ 32)

-- `std::memcpy` into a buffer at a position.
unfoldable pub copy_at : ℕ → List ℕ → List ℕ → List ℕ
copy_at pos src buffer = take pos buffer ++ (src ++ drop (pos + length src) buffer)

-- The subtraction of `uint32_t` wraps.
unfoldable pub total_size : List ℕ → ℕ
total_size buffer = (length buffer % 2 ^ 32 + 2 ^ 32 - 1 - 4) % 2 ^ 32

unfoldable pub create_authentication_request : List ℕ → List ℕ → List ℕ
unfolding insert_to_vector copy_at total_size
create_authentication_request hostname username =
    let b1 = insert_to_vector one [] b'A' in
    let b2 = insert_to_vector four b1 0 in
    let b3 = insert_to_vector two b2 (length hostname) in
    let b4 = b3 ++ hostname in
    let b5 = insert_to_vector two b4 (length username) in
    let buffer = b5 ++ username in copy_at 1 (be32 (total_size buffer)) buffer

-- `img_bytes` is what `GrabAsPNG` has written.
unfoldable pub create_img_message : List ℕ → List ℕ
unfolding insert_to_vector
create_img_message img_bytes =
    let b1 = insert_to_vector one [] b'I' in
    let b2 = insert_to_vector four b1 (length img_bytes) in b2 ++ img_bytes

abbrev pub auth_frame : List ℕ → List ℕ → Frame
auth_frame hostname username = record { kind = b'A'; payload = auth_payload hostname username [] }

abbrev pub img_frame : List ℕ → Frame
img_frame img_bytes = record { kind = b'I'; payload = img_bytes }

total_size-five :
    (a b c d e x y : ℕ) (body : List ℕ)
    → length body < 2 ^ 18
    → total_size (a ∷ b ∷ c ∷ d ∷ e ∷ x ∷ y ∷ body) ≡ length (x ∷ y ∷ body)
unfolding total_size
total_size-five a b c d e x y body h = omega arith

-- For names of less than 65536 bytes the request is one frame of kind 'A', and its size field
-- counts the payload.
pub create_authentication_request-encode :
    (hostname username : List ℕ)
    → length hostname < 2 ^ 16
    → length username < 2 ^ 16
    → create_authentication_request hostname username ≡ encode (auth_frame hostname username)
unfolding create_authentication_request
create_authentication_request-encode hostname username h u =
    let eh : length hostname % 2 ^ 16 ≡ length hostname = omega arith in
    let eu : length username % 2 ^ 16 ≡ length username = omega arith in
    let names : List ℕ = hostname ++ (be16 (length username) ++ (username ++ [])) in
    let e : hostname ++ be16 (length username) ++ username ≡ names =
      append_assoc hostname (be16 (length username)) username
      ∙ ap (λ (w : List ℕ). hostname ++ (be16 (length username) ++ w))
          (sym (append-nil username)) in
    let small : length names < 2 ^ 18 = omega (
      arith,
      length-append hostname (be16 (length username) ++ (username ++ [])),
      length-append username [],
    ) in
    rw (
      eh,
      eu,
      e,
      total_size-five b'A' 0 0 0 0 (length hostname / 2 ^ 8 % 256) (length hostname % 256) names
          small,
    )

-- For an image of less than 4294967296 bytes the message is one frame of kind 'I' over the image.
pub create_img_message-encode :
    (img_bytes : List ℕ)
    → length img_bytes < 2 ^ 32
    → create_img_message img_bytes ≡ encode (img_frame img_bytes)
unfolding create_img_message
create_img_message-encode img_bytes h = ground arith
