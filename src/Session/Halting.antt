-- ===== src/Session/Halting.antt =====
-- session.cc: the loop of `ParseMessage` on any bytes.
use cpp_remote_screen_captur.Base.{
  ℕ, zero, suc, ◌/◌, ◌%◌, ◌^◌, ◌≤◌, ◌<◌, ◌≡◌, refl, sym, ap, ◌∙◌, List, [], ◌∷◌, ◌++◌, length, take,
  drop, arith, All, append_assoc, length-append, All-drop, Bool-cases, ltb, ltb→lt, ltb_false→le,
  ◌⊎◌, inl, inr, length-take, take-append-drop, length-drop,
}
use cpp_remote_screen_captur.Base.Bytes.{be32, of_be32, IsByte}
use cpp_remote_screen_captur.Session.State.{Session, print, too_large}
use cpp_remote_screen_captur.Session.Parser.{
  max_message_size, parsed, running, parse_message, parse,
}
use cpp_remote_screen_captur.Session.Framing.{
  IsPartial, IsGood, Frame, encode, encode_all, hold, load, enqueue,
}
use cpp_remote_screen_captur.Session.Framing.Stream.{
  parse-frames, parse-oversized, parse-empty_frame,
}

-- What stands behind the good frames at the head of the bytes `bs`: a partial frame, a header
-- whose size is beyond the limit, or a header whose size is 0.
pub data Ends (bs : List ℕ) : Type 0 where
  ends_partial :
      (fs : List Frame) (tail : List ℕ)
      → All IsGood fs
      → IsPartial tail
      → bs ≡ encode_all fs ++ tail
      → Ends bs
  ends_oversized :
      (fs : List Frame) (t a b c d : ℕ) (r : List ℕ)
      → All IsGood fs
      → max_message_size < of_be32 a b c d
      → bs ≡ encode_all fs ++ (t ∷ a ∷ b ∷ c ∷ d ∷ r)
      → Ends bs
  ends_empty :
      (fs : List Frame) (t a b c d : ℕ) (r : List ℕ)
      → All IsGood fs
      → of_be32 a b c d ≡ 0
      → bs ≡ encode_all fs ++ (t ∷ a ∷ b ∷ c ∷ d ∷ r)
      → Ends bs

be32-of_be32 :
    (t a b c d n : ℕ) (p : List ℕ)
    → IsByte a × IsByte b × IsByte c × IsByte d
    → n ≡ of_be32 a b c d
    → t ∷ a ∷ b ∷ c ∷ d ∷ p ≡ t ∷ be32 n ++ p
be32-of_be32 t a b c d n p h e =
    let ea : a ≡ n / 2 ^ 24 % 256 = omega arith in
    let eb : b ≡ n / 2 ^ 16 % 256 = omega arith in
    let ec : c ≡ n / 2 ^ 8 % 256 = omega arith in let ed : d ≡ n % 256 = omega arith in cc

-- A whole frame in front, read back as the encoding of its payload.
encode-take :
    (t a b c d : ℕ) (r : List ℕ)
    → IsByte a × IsByte b × IsByte c × IsByte d
    → of_be32 a b c d ≤ length r
    → t ∷ a ∷ b ∷ c ∷ d ∷ r
      ≡ encode (record { kind = t; payload = take (of_be32 a b c d) r }) ++ drop (of_be32 a b c d) r
encode-take t a b c d r h long =
    let n : ℕ = of_be32 a b c d in
    let e : length (take n r) ≡ n = omega (arith, length-take n r) in
    be32-of_be32 t a b c d (length (take n r)) r h e
    ∙ ap (λ (p : List ℕ). t ∷ be32 (length (take n r)) ++ p) (sym (take-append-drop n r))

-- A good frame in front of what is classified already.
Ends-cons : (f : Frame) (bs rest : List ℕ) → IsGood f → bs ≡ encode f ++ rest → Ends rest → Ends bs
Ends-cons f bs rest g e (ends_partial fs tail gs p q) =
    ends_partial (f ∷ fs) tail (g, gs) p
      (e ∙ ap (◌++◌ (encode f)) q ∙ sym (append_assoc (encode f) (encode_all fs) tail))
Ends-cons f bs rest g e (ends_oversized fs t a b c d r gs p q) =
    ends_oversized (f ∷ fs) t a b c d r (g, gs) p
      (e ∙ ap (◌++◌ (encode f)) q ∙ sym (append_assoc (encode f) (encode_all fs) _))
Ends-cons f bs rest g e (ends_empty fs t a b c d r gs p q) =
    ends_empty (f ∷ fs) t a b c d r (g, gs) p
      (e ∙ ap (◌++◌ (encode f)) q ∙ sym (append_assoc (encode f) (encode_all fs) _))

-- A whole header, by its size; `next` is the class of what stands behind a whole frame.
Ends-header :
    (t a b c d : ℕ) (r : List ℕ)
    → IsByte a × IsByte b × IsByte c × IsByte d
    → Ends (drop (of_be32 a b c d) r)
    → Ends (t ∷ a ∷ b ∷ c ∷ d ∷ r)
Ends-header t a b c d r h next =
    let n : ℕ = of_be32 a b c d in
    elim (Bool-cases (ltb max_message_size n)) [
      | inl big ↦ ends_oversized [] t a b c d r tt (ltb→lt _ _ big) refl
      | inr fits ↦ elim (Bool-cases (ltb 0 n)) [
        | inr none_left ↦
            ends_empty [] t a b c d r tt (omega (arith, ltb_false→le _ _ none_left)) refl
        | inl pos ↦ elim (Bool-cases (ltb (length r) n)) [
          | inl short ↦
              ends_partial [] (t ∷ a ∷ b ∷ c ∷ d ∷ r) tt
                (ltb→lt _ _ pos, ltb_false→le _ _ fits, ltb→lt _ _ short) refl
          | inr long ↦
              Ends-cons (record { kind = t; payload = take n r }) _ (drop n r)
                (ground (arith, length-take n r))
                (encode-take t a b c d r h (ltb_false→le _ _ long)) next
        ]
      ]
    ]

classify_below : (k : ℕ) (bs : List ℕ) → All IsByte bs → length bs ≤ k → Ends bs
classify_below k [] h l = ends_partial [] [] tt tt refl
classify_below k (t ∷ []) h l = ends_partial [] (t ∷ []) tt tt refl
classify_below k (t ∷ a ∷ []) h l = ends_partial [] (t ∷ a ∷ []) tt tt refl
classify_below k (t ∷ a ∷ b ∷ []) h l = ends_partial [] (t ∷ a ∷ b ∷ []) tt tt refl
classify_below k (t ∷ a ∷ b ∷ c ∷ []) h l = ends_partial [] (t ∷ a ∷ b ∷ c ∷ []) tt tt refl
classify_below zero (t ∷ a ∷ b ∷ c ∷ d ∷ r) h l = absurd (omega arith)
classify_below (suc k) (t ∷ a ∷ b ∷ c ∷ d ∷ r) (ht, (ha, (hb, (hc, (hd, hr))))) l =
    Ends-header t a b c d r (ha, hb, hc, hd)
      (classify_below k (drop (of_be32 a b c d) r) (All-drop IsByte (of_be32 a b c d) r hr)
        (omega (arith, length-drop (of_be32 a b c d) r)))

pub classify : (bs : List ℕ) → All IsByte bs → Ends bs
classify bs h = classify_below (length bs) bs h (omega arith)

length-frames : (fs : List Frame) (rest : List ℕ) → length fs ≤ length (encode_all fs ++ rest)
length-frames [] rest = omega arith
length-frames (f ∷ fs) rest = omega (
  arith,
  length-frames fs rest,
  ap length (append_assoc (encode f) (encode_all fs) rest),
  length-append f.payload (encode_all fs ++ rest),
)

-- Good frames, and behind them the frame of an empty payload.
pub record HasEmptyFrame (bs : List ℕ) : Type 0 where
  pub front : List Frame
  pub good : All IsGood front
  pub kind : ℕ
  pub rest : List ℕ
  pub split : bs ≡ encode_all front ++ (encode (record { kind = kind; payload = [] }) ++ rest)

empty_header :
    (t a b c d : ℕ) (r : List ℕ)
    → of_be32 a b c d ≡ 0
    → t ∷ a ∷ b ∷ c ∷ d ∷ r ≡ encode (record { kind = t; payload = [] }) ++ r
empty_header t a b c d r e =
    let ea : a ≡ 0 = omega arith in
    let eb : b ≡ 0 = omega arith in
    let ec : c ≡ 0 = omega arith in let ed : d ≡ 0 = omega arith in cc

module _ (s : Session) (bs : List ℕ) where
  -- The two ways in which a call of the loop goes.
  abbrev pub Halts : Type 0
  Halts = (s' : Session) × (parse (load s bs) ≡ parsed s')

  abbrev pub Hangs : Type 0
  Hangs = (fuel : ℕ) → (s' : Session) × (parse_message fuel (load s bs) ≡ running s')

  -- The loop returns exactly if there is no empty frame.
  abbrev pub Decided : Type 0
  Decided = (¬ HasEmptyFrame bs × Halts) ⊎ (HasEmptyFrame bs × Hangs)

  hangs : HasEmptyFrame bs → Hangs
  hangs h fuel = rw h.split (parse-empty_frame h.front fuel s h.kind 0 0 0 0 h.rest h.good refl)

  halted : Halts → Decided
  halted (s', e) =
      inl (λ h. let (t, still) = hangs h (suc (length bs)) in cc (sym e ∙ still), (s', e))

  ends-Decided : Ends bs → Decided
  ends-Decided (ends_partial fs tail g p e) = halted (
    hold (enqueue s fs) tail,
    rw e (
        parse-frames s fs (suc (length (encode_all fs ++ tail))) g
          (omega (arith, length-frames fs tail)) tail p),
  )
  ends-Decided (ends_oversized fs t a b c d r g p e) = halted (
    print (too_large (of_be32 a b c d)) (load (enqueue s fs) r),
    rw e (
        parse-oversized s fs (suc (length (encode_all fs ++ (t ∷ a ∷ b ∷ c ∷ d ∷ r)))) g
          (omega (arith, length-frames fs (t ∷ a ∷ b ∷ c ∷ d ∷ r))) t a b c d r p),
  )
  ends-Decided (ends_empty fs t a b c d r g p e) =
      let h : HasEmptyFrame bs = record {
        front = fs;
        good = g;
        kind = t;
        rest = r;
        split = e ∙ ap (◌++◌ (encode_all fs)) (empty_header t a b c d r p);
      } in
      inr (h, hangs h)

  -- On any bytes the loop of `ParseMessage`, started between two messages, returns within one
  -- round for each byte and one more, with nothing thrown, if no frame of size 0 stands behind
  -- good frames (payloads of 1 to 10485760 bytes) at the head of the bytes; and if one does, no
  -- fuel is enough.
  pub parse-halts : All IsByte bs → Decided
  parse-halts h = ends-Decided (classify bs h)
