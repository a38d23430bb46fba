-- ===== src/Session/Framing/Rounds.antt =====
-- One round of the parser on each form of input.
use cpp_remote_screen_captur.Base.{
  ℕ, ◌≤◌, ◌<◌, ◌≡◌, refl, List, [], ◌∷◌, ◌++◌, length, take, drop, arith, ◌∙◌, sym, length-take,
}
use cpp_remote_screen_captur.Base.Bytes.{of_be32}
use cpp_remote_screen_captur.Session.State.{Session, too_large}
use cpp_remote_screen_captur.Session.Parser.{
  goes, returns, max_message_size, parse_round, fill_bytes,
}
use cpp_remote_screen_captur.Session.Framing.{load, hold, IsPartial}

-- A session whose type and size are complete.
abbrev pub headed : Session → ℕ → ℕ → ℕ → ℕ → ℕ → List ℕ → Session
headed s t a b c d r = record s {
  message = record { type_vec = t ∷ []; size_vec = a ∷ b ∷ c ∷ d ∷ []; bytes_vec = [] };
  request = r;
}

pub round-load :
    (s : Session) (t a b c d : ℕ) (r : List ℕ)
    → parse_round (load s (t ∷ a ∷ b ∷ c ∷ d ∷ r))
      ≡ fill_bytes (of_be32 a b c d) (headed s t a b c d r)
unfolding parse_round
round-load s t a b c d r = ground arith

pub round-headed :
    (s : Session) (t a b c d : ℕ) (r : List ℕ)
    → parse_round (headed s t a b c d r) ≡ fill_bytes (of_be32 a b c d) (headed s t a b c d r)
unfolding parse_round
round-headed s t a b c d r = ground arith

module _ (s : Session) (t a b c d : ℕ) (r : List ℕ) where
  pub fill_bytes-partial :
      0 < of_be32 a b c d
      → of_be32 a b c d ≤ max_message_size
      → length r < of_be32 a b c d
      → fill_bytes (of_be32 a b c d) (headed s t a b c d r) ≡ returns (headed s t a b c d r)
  unfolding fill_bytes
  fill_bytes-partial pos small short = ground arith

  pub fill_bytes-oversized :
      max_message_size < of_be32 a b c d
      → fill_bytes (of_be32 a b c d) (headed s t a b c d r)
        ≡ returns (record (load s r) { log = s.log ++ too_large (of_be32 a b c d) ∷ [] })
  unfolding fill_bytes
  fill_bytes-oversized big = ground arith

  pub fill_bytes-empty :
      of_be32 a b c d ≡ 0
      → fill_bytes (of_be32 a b c d) (headed s t a b c d r) ≡ goes (headed s t a b c d r)
  unfolding fill_bytes
  fill_bytes-empty e = ground arith

  pub fill_bytes-whole :
      (n : ℕ)
      → n ≡ of_be32 a b c d
      → 0 < n
      → n ≤ max_message_size
      → n ≤ length r
      → fill_bytes n (headed s t a b c d r)
        ≡ goes (record (load s (drop n r)) {
          messages =
              s.messages
              ++ record { type_vec = t ∷ []; size_vec = a ∷ b ∷ c ∷ d ∷ []; bytes_vec = take n r }
                ∷ [];
        })
  unfolding fill_bytes
  fill_bytes-whole n e pos small long = ground (arith, length-take n r)

-- A partial frame is held: the round moves what header there is, and returns.
pub round-partial :
    (s : Session) (bs : List ℕ) → IsPartial bs → parse_round (load s bs) ≡ returns (hold s bs)
unfolding parse_round
round-partial s [] h = ground arith
round-partial s (t ∷ []) h = ground arith
round-partial s (t ∷ a ∷ []) h = ground arith
round-partial s (t ∷ a ∷ b ∷ []) h = ground arith
round-partial s (t ∷ a ∷ b ∷ c ∷ []) h = ground arith
round-partial s (t ∷ a ∷ b ∷ c ∷ d ∷ r) h =
    round-load s t a b c d r ∙ fill_bytes-partial s t a b c d r h.0 h.1 h.2

-- What a session holds of the beginning of a stream and the bytes that then arrive are parsed as
-- if they had come together.
pub round-hold :
    (s : Session) (bs more : List ℕ)
    → parse_round (record (hold s bs) { request = (hold s bs).request ++ more })
      ≡ parse_round (load s (bs ++ more))
unfolding parse_round
round-hold s [] more = refl
round-hold s (t ∷ []) more = ground arith
round-hold s (t ∷ a ∷ []) more = ground arith
round-hold s (t ∷ a ∷ b ∷ []) more = ground arith
round-hold s (t ∷ a ∷ b ∷ c ∷ []) more = ground arith
round-hold s (t ∷ a ∷ b ∷ c ∷ d ∷ r) more =
    round-headed s t a b c d (r ++ more) ∙ sym (round-load s t a b c d (r ++ more))
