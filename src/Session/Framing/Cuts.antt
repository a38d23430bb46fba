-- ===== src/Session/Framing/Cuts.antt =====
-- Where a stream of frames may be cut.
use cpp_remote_screen_captur.Base.{
  ℕ, ◌<◌, ◌≡◌, refl, sym, ap, subst, ◌∙◌, List, [], ◌∷◌, ◌++◌, length, arith, All, append_assoc,
  length-append, append_split, inl, inr, Bool-cases, ltb, ltb→lt, ltb_false→le,
}
use cpp_remote_screen_captur.Base.Bytes.{of_be32, of_be32-be32}
use cpp_remote_screen_captur.Session.Framing.{IsPartial, IsGood, Frame, encode, encode_all}

pub IsPartial-prefix : (p q : List ℕ) → IsPartial (p ++ q) → IsPartial p
IsPartial-prefix [] q h = tt
IsPartial-prefix (t ∷ []) q h = tt
IsPartial-prefix (t ∷ a ∷ []) q h = tt
IsPartial-prefix (t ∷ a ∷ b ∷ []) q h = tt
IsPartial-prefix (t ∷ a ∷ b ∷ c ∷ []) q h = tt
IsPartial-prefix (t ∷ a ∷ b ∷ c ∷ d ∷ r) q h = (h.0, h.1, omega (arith, length-append r q))

-- A proper beginning of a good frame.
pub IsPartial-encode :
    (f : Frame) (p q : List ℕ)
    → IsGood f
    → p ++ q ≡ encode f
    → length p < length (encode f)
    → IsPartial p
IsPartial-encode f [] q g e h = tt
IsPartial-encode f (t ∷ []) q g e h = tt
IsPartial-encode f (t ∷ a ∷ []) q g e h = tt
IsPartial-encode f (t ∷ a ∷ b ∷ []) q g e h = tt
IsPartial-encode f (t ∷ a ∷ b ∷ c ∷ []) q g e h = tt
IsPartial-encode f (t ∷ a ∷ b ∷ c ∷ d ∷ r) q g e h =
    let n : of_be32 a b c d ≡ length f.payload = ground (arith, of_be32-be32 (length f.payload)) in
    (omega arith, omega arith, omega arith)

-- Bytes that begin a stream of frames are themselves frames and a partial frame.
pub record Cut (p rest : List ℕ) (fs : List Frame) (tail : List ℕ) : Type 0 where
  pub front : List Frame
  pub held : List ℕ
  pub back : List Frame
  pub frames : fs ≡ front ++ back
  pub taken : p ≡ encode_all front ++ held
  pub left : held ++ rest ≡ encode_all back ++ tail
  pub incomplete : IsPartial held

pub cut :
    (fs : List Frame) (p rest tail : List ℕ)
    → All IsGood fs
    → IsPartial tail
    → p ++ rest ≡ encode_all fs ++ tail
    → Cut p rest fs tail
cut [] p rest tail g h e = record {
  front = [];
  held = p;
  back = [];
  frames = refl;
  taken = refl;
  left = e;
  incomplete = IsPartial-prefix p rest (subst IsPartial (sym e) h);
}
cut (f ∷ fs) p rest tail g h e = elim (Bool-cases (ltb (length p) (length (encode f)))) [
  | inl short ↦
      let (ws, x, y) =
        append_split (encode f) p (encode_all fs ++ tail) rest
          (sym (e ∙ append_assoc (encode f) (encode_all fs) tail))
          (omega (arith, ltb→lt _ _ short)) in
      record {
        front = [];
        held = p;
        back = f ∷ fs;
        frames = refl;
        taken = refl;
        left = e;
        incomplete = IsPartial-encode f p ws g.0 (sym x) (ltb→lt _ _ short);
      }
  | inr long ↦
      let (ws, x, y) =
        append_split p (encode f) rest (encode_all fs ++ tail)
          (e ∙ append_assoc (encode f) (encode_all fs) tail) (ltb_false→le _ _ long) in
      let c = cut fs ws rest tail g.1 h y in
      record {
        front = f ∷ c.front;
        held = c.held;
        back = c.back;
        frames = ap (◌∷◌ f) c.frames;
        taken =
            x
            ∙ ap (◌++◌ (encode f)) c.taken
            ∙ sym (append_assoc (encode f) (encode_all c.front) c.held);
        left = c.left;
        incomplete = c.incomplete;
      }
]
