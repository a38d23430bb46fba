-- ===== src/Session/Framing.antt =====
-- The message format of server.h as a specification: a frame is a kind, the length of its payload
-- in four bytes, highest first, and the payload.
pub mod Rounds
pub mod Cuts
pub mod Stream
use cpp_remote_screen_captur.Base.{ℕ, ◌≤◌, ◌<◌, List, [], ◌∷◌, ◌++◌, map, length, All}
use cpp_remote_screen_captur.Base.Bytes.{be32, of_be32}
use cpp_remote_screen_captur.Session.State.{Session, Message, clear}
use cpp_remote_screen_captur.Session.Parser.{max_message_size}

pub record Frame : Type 0 where
  pub kind : ℕ
  pub payload : List ℕ

abbrev pub encode : Frame → List ℕ
encode f = f.kind ∷ be32 (length f.payload) ++ f.payload

abbrev pub encode_all : List Frame → List ℕ
encode_all [] = []
encode_all (f ∷ fs) = encode f ++ encode_all fs

-- The message that a frame becomes.
abbrev pub message_of : Frame → Message
message_of f = record {
  type_vec = f.kind ∷ [];
  size_vec = be32 (length f.payload);
  bytes_vec = f.payload;
}

-- A payload is not empty, and within the session's limit.
abbrev pub IsGood : Frame → Type 0
IsGood f = (0 < length f.payload) × (length f.payload ≤ max_message_size)

-- A beginning of a good frame, or nothing.
abbrev pub IsPartial : List ℕ → Type 0
IsPartial (t ∷ a ∷ b ∷ c ∷ d ∷ r) =
    (0 < of_be32 a b c d) × (of_be32 a b c d ≤ max_message_size) × (length r < of_be32 a b c d)
IsPartial _ = Unit {0}

-- The session before any of the bytes `bs` is taken.
abbrev pub load : Session → List ℕ → Session
load s bs = record s { message = clear; request = bs }

-- The session once it has taken what it can of the bytes `bs` of an incomplete frame.
abbrev pub hold : Session → List ℕ → Session
hold s [] = load s []
hold s (t ∷ a ∷ b ∷ c ∷ d ∷ r) = record s {
  message = record { type_vec = t ∷ []; size_vec = a ∷ b ∷ c ∷ d ∷ []; bytes_vec = [] };
  request = r;
}
hold s (t ∷ r) = record s {
  message = record { type_vec = t ∷ []; size_vec = []; bytes_vec = [] };
  request = r;
}

abbrev pub enqueue : Session → List Frame → Session
enqueue s fs = record s { messages = s.messages ++ map message_of fs }
