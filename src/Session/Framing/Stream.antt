-- ===== src/Session/Framing/Stream.antt =====
-- The whole loop of `ParseMessage` on a stream of frames.
use cpp_remote_screen_captur.Base.{
  ℕ, zero, suc, ◌-◌, ◌/◌, ◌%◌, ◌+◌, ◌^◌, ◌<◌, ◌≡◌, refl, sym, ap, ◌∙◌, List, [], ◌∷◌, ◌++◌, map,
  length, arith, All, append_assoc, append-nil, take-append_length, drop-append_length,
  length-append,
}
use cpp_remote_screen_captur.Base.Bytes.{of_be32, of_be32-be32}
use cpp_remote_screen_captur.Session.State.{Session, Message, too_large}
use cpp_remote_screen_captur.Session.Parser.{
  goes, returns, max_message_size, parse_round, parsed, running, parse_message,
}
use cpp_remote_screen_captur.Session.Framing.{
  load, hold, enqueue, IsPartial, IsGood, Frame, encode, encode_all, message_of,
}
use cpp_remote_screen_captur.Session.Framing.Rounds.{
  headed, round-load, round-headed, round-partial, fill_bytes-whole, fill_bytes-oversized,
  fill_bytes-empty,
}

round-encode :
    (s : Session) (f : Frame) (rest : List ℕ)
    → IsGood f
    → parse_round (load s (encode f ++ rest)) ≡ goes (load (enqueue s (f ∷ [])) rest)
round-encode s f rest g =
    let n : ℕ = length f.payload in
    let e : of_be32 (n / 2 ^ 24 % 256) (n / 2 ^ 16 % 256) (n / 2 ^ 8 % 256) (n % 256) ≡ n =
      of_be32-be32 n (omega arith) in
    round-load s f.kind _ _ _ _ (f.payload ++ rest)
    ∙ rw e (
        fill_bytes-whole s f.kind _ _ _ _ (f.payload ++ rest) n (sym e) g.0 g.1
          (omega (arith, length-append f.payload rest))
        ∙ rw (take-append_length f.payload rest n refl, drop-append_length f.payload rest n refl)
            refl)

-- One round for each frame, and `n` more.
abbrev rounds : List Frame → ℕ → ℕ
rounds [] n = n
rounds (f ∷ fs) n = suc (rounds fs n)

rounds-length : (fs : List Frame) (n : ℕ) → rounds fs n ≡ length fs + n
rounds-length [] n = omega arith
rounds-length (f ∷ fs) n = omega (arith, rounds-length fs n)

rounds-sub :
    (fs : List Frame) (fuel : ℕ)
    → length fs < fuel
    → rounds fs (suc (fuel - suc (length fs))) ≡ fuel
rounds-sub fs fuel h = omega (arith, rounds-length fs (suc (fuel - suc (length fs))))

parse-goes :
    (fuel : ℕ) (s : Session) {s' : Session}
    → parse_round s ≡ goes s'
    → parse_message (suc fuel) s ≡ parse_message fuel s'
unfolding parse_message
parse-goes fuel s e = rw (e, parse_message)

parse-returns :
    (fuel : ℕ) (s : Session) {s' : Session}
    → parse_round s ≡ returns s'
    → parse_message (suc fuel) s ≡ parsed s'
unfolding parse_message
parse-returns fuel s e = rw (e, parse_message)

-- The first round is all that the loop makes of its session.
pub parse-round_eq :
    (fuel : ℕ) (s t : Session)
    → parse_round s ≡ parse_round t
    → parse_message (suc fuel) s ≡ parse_message (suc fuel) t
unfolding parse_message
parse-round_eq fuel s t e = rw (e, parse_message)

enqueue-enqueue :
    (s : Session) (f : Frame) (fs : List Frame)
    → enqueue (enqueue s (f ∷ [])) fs ≡ enqueue s (f ∷ fs)
enqueue-enqueue s f fs =
    ap (λ (ms : List Message). record s { messages = ms })
      (append_assoc s.messages (message_of f ∷ []) (map message_of fs))

-- Each good frame takes one round.
parse-encode_all :
    (s : Session) (fs : List Frame) (rest : List ℕ) (n : ℕ)
    → All IsGood fs
    → parse_message (rounds fs n) (load s (encode_all fs ++ rest))
      ≡ parse_message n (load (enqueue s fs) rest)
parse-encode_all s [] rest n g = rw append-nil
parse-encode_all s (f ∷ fs) rest n g = rw (append_assoc (encode f) (encode_all fs) rest) (
    parse-goes (rounds fs n) _ (round-encode s f (encode_all fs ++ rest) g.0)
    ∙ parse-encode_all (enqueue s (f ∷ [])) fs rest n g.1
    ∙ ap (λ (u : Session). parse_message n (load u rest)) (enqueue-enqueue s f fs))

module _ (s : Session) (fs : List Frame) (fuel : ℕ) (good : All IsGood fs)
    (enough : length fs < fuel) where
  parse-rest :
      (rest : List ℕ)
      → parse_message fuel (load s (encode_all fs ++ rest))
        ≡ parse_message (suc (fuel - suc (length fs))) (load (enqueue s fs) rest)
  parse-rest rest =
      rw (rounds-sub fs fuel enough) at
        (parse-encode_all s fs rest (suc (fuel - suc (length fs))) good)

  -- Given more fuel than there are frames, the loop queues whole good frames in their order,
  -- and holds the partial frame behind them.
  pub parse-frames :
      (tail : List ℕ)
      → IsPartial tail
      → parse_message fuel (load s (encode_all fs ++ tail)) ≡ parsed (hold (enqueue s fs) tail)
  parse-frames tail p = parse-rest tail ∙ parse-returns _ _ (round-partial (enqueue s fs) tail p)

  -- Given more fuel than there are good frames in front, the loop queues these, and at a header
  -- behind them whose size is beyond the limit it drops the header alone, prints a warning, and
  -- returns.
  pub parse-oversized :
      (t a b c d : ℕ) (r : List ℕ)
      → max_message_size < of_be32 a b c d
      → parse_message fuel (load s (encode_all fs ++ (t ∷ a ∷ b ∷ c ∷ d ∷ r)))
        ≡ parsed
            (record (load (enqueue s fs) r) { log = s.log ++ too_large (of_be32 a b c d) ∷ [] })
  parse-oversized t a b c d r big =
      parse-rest _
      ∙ parse-returns _ _ (
          round-load (enqueue s fs) t a b c d r
          ∙ fill_bytes-oversized (enqueue s fs) t a b c d r big)

-- Once the session waits for an empty payload, the loop goes round for ever.
parse-headed_empty :
    (fuel : ℕ) (s : Session) (t a b c d : ℕ) (r : List ℕ)
    → of_be32 a b c d ≡ 0
    → parse_message fuel (headed s t a b c d r) ≡ running (headed s t a b c d r)
parse-headed_empty zero s t a b c d r e = unfold parse_message in refl
parse-headed_empty (suc fuel) s t a b c d r e =
    parse-goes fuel _ (round-headed s t a b c d r ∙ fill_bytes-empty s t a b c d r e)
    ∙ parse-headed_empty fuel s t a b c d r e

pub parse-load_empty :
    (fuel : ℕ) (s : Session) (t a b c d : ℕ) (r : List ℕ)
    → of_be32 a b c d ≡ 0
    → (s' : Session) × (parse_message fuel (load s (t ∷ a ∷ b ∷ c ∷ d ∷ r)) ≡ running s')
parse-load_empty zero s t a b c d r e =
    (load s (t ∷ a ∷ b ∷ c ∷ d ∷ r), unfold parse_message in refl)
parse-load_empty (suc fuel) s t a b c d r e = (
  headed s t a b c d r,
  parse-goes fuel _ (round-load s t a b c d r ∙ fill_bytes-empty s t a b c d r e)
      ∙ parse-headed_empty fuel s t a b c d r e,
)

-- However much fuel it is given, the loop does not come past a frame of size 0 behind good
-- frames.
pub parse-empty_frame :
    (fs : List Frame) (fuel : ℕ) (s : Session) (t a b c d : ℕ) (r : List ℕ)
    → All IsGood fs
    → of_be32 a b c d ≡ 0
    → (s' : Session) × (parse_message fuel (load s (encode_all fs ++ (t ∷ a ∷ b ∷ c ∷ d ∷ r)))
        ≡ running s')
parse-empty_frame [] fuel s t a b c d r g e = parse-load_empty fuel s t a b c d r e
parse-empty_frame (f ∷ fs) zero s t a b c d r g e =
    (load s (encode_all (f ∷ fs) ++ (t ∷ a ∷ b ∷ c ∷ d ∷ r)), unfold parse_message in refl)
parse-empty_frame (f ∷ fs) (suc fuel) s t a b c d r g e =
    let more : List ℕ = t ∷ a ∷ b ∷ c ∷ d ∷ r in
    let (s', ih) = parse-empty_frame fs fuel (enqueue s (f ∷ [])) t a b c d r g.1 e in
    (
      s',
      rw (append_assoc (encode f) (encode_all fs) more)
          (parse-goes fuel _ (round-encode s f (encode_all fs ++ more) g.0) ∙ ih),
    )
