-- ===== src/Client/Whole.antt =====
-- client.cc: what `SendLoop` puts on the connection, however it ends.
use cpp_remote_screen_captur.Base.{
  ℕ, ◌<◌, ◌^◌, ◌≡◌, refl, sym, ap, subst, ◌∙◌, Bool, true, false, List, [], ◌∷◌, ◌++◌, length, take,
  All, append_assoc, append-nil, take-append-drop, drop,
}
use cpp_remote_screen_captur.Session.Socket.{Send}
use cpp_remote_screen_captur.Session.Framing.{Frame, encode_all}
use cpp_remote_screen_captur.Client.State.{Client, Io, done, threw, waiting}
use cpp_remote_screen_captur.Client.Messages.{create_img_message, create_img_message-encode}
use cpp_remote_screen_captur.Client.Socket.{send_all}
use cpp_remote_screen_captur.Client.Transfer.{send_all-SendsInOrder}
use cpp_remote_screen_captur.Client.Loop.{
  Grab, grabbed, failed_grab, Round, send_bytes, send_image, send_loop, wait_loop, and_then,
  after_image,
}
use cpp_remote_screen_captur.Client.Traffic.{frames_of_grab, IsSendable, encode_all-append}

-- A first part of a list.
abbrev pub Begins : List ℕ → List ℕ → Type 0
Begins xs ys = (rest : List ℕ) × (xs ++ rest ≡ ys)

Begins-take : (k : ℕ) (xs : List ℕ) → Begins (take k xs) xs
Begins-take k xs = (drop k xs, take-append-drop k xs)

Begins-append : (front xs ys : List ℕ) → Begins xs ys → Begins (front ++ xs) (front ++ ys)
Begins-append front xs ys (rest, e) = (rest, append_assoc front xs rest ∙ ap (◌++◌ front) e)

pub Begins-more : (xs ys more : List ℕ) → Begins xs ys → Begins xs (ys ++ more)
Begins-more xs ys more (rest, e) =
    (rest ++ more, sym (append_assoc xs rest more) ∙ ap (λ (z : List ℕ). z ++ more) e)

-- All frames of the images, and the bytes of a client's connection behind those that it has sent.
abbrev pub images_of : List Round → List Frame
images_of [] = []
images_of (r ∷ rounds) = frames_of_grab r.grab ++ images_of rounds

-- The connection has taken `before` and then a first part of `octets`.
abbrev pub Took : List ℕ → List ℕ → Client → Type 0
Took before octets d = (wire : List ℕ) × (d.sent ≡ before ++ wire) × Begins wire octets

pub Took-nothing : (octets : List ℕ) (c : Client) → Took c.sent octets c
Took-nothing octets c = ([], sym (append-nil c.sent), (octets, refl))

-- What a call leaves: a first part of the octets, and all of them if it returns.
pub record Wrote {ℓ} {A : Type ℓ} (c : Client) (octets : List ℕ) (p : Io A × Client) : Type ℓ where
  pub took : Took c.sent octets p.1
  pub all_of : (a : A) → p.0 ≡ done a → p.1.sent ≡ c.sent ++ octets

pub send_bytes-Wrote :
    (answers : List Send) (octets : List ℕ) (c : Client)
    → Wrote c octets (send_bytes answers octets c)
unfolding send_bytes
send_bytes-Wrote answers octets c =
    let ((k, first), full) = send_all-SendsInOrder answers octets in
    let p = send_all answers octets in
    record {
      took = (p.1, refl, subst (λ x. Begins x octets) (sym first) (Begins-take k octets));
      all_of = λ n e. ap (◌++◌ c.sent) (full n e);
    }

after_image-Wrote :
    (c : Client) (octets : List ℕ) (p : Io ℕ × Client)
    → Wrote c octets p
    → Wrote c octets (after_image p)
after_image-Wrote c octets (done n, d) h = record { took = h.took; all_of = λ u e. h.all_of n refl }
after_image-Wrote c octets (threw e, d) h = record { took = h.took; all_of = λ u f. cc }
after_image-Wrote c octets (waiting, d) h = record { took = h.took; all_of = λ u f. cc }

send_image-Wrote :
    (g : Grab) (sends : List Send) (c : Client)
    → All (λ (f : Frame). length f.payload < 2 ^ 32) (frames_of_grab g)
    → Wrote c (encode_all (frames_of_grab g)) (send_image g sends c)
unfolding send_image
send_image-Wrote (grabbed img_bytes) sends c h =
    subst (λ x. Wrote c x (after_image (send_bytes sends (create_img_message img_bytes) c)))
      (create_img_message-encode img_bytes h.0 ∙ sym (append-nil _))
      (after_image-Wrote c _ _ (send_bytes-Wrote sends (create_img_message img_bytes) c))
send_image-Wrote (failed_grab e) sends c h = record {
  took = Took-nothing [] c;
  all_of = λ u e. sym (append-nil c.sent);
}

-- A call and what follows it.
pub and_then-Took :
    (c : Client) (front back : List ℕ) (next : Client → Io (Unit {0}) × Client)
    (p : Io (Unit {0}) × Client)
    → Wrote c front p
    → ((d : Client) → p ≡ (done tt, d) → Took d.sent back (next d).1)
    → Took c.sent (front ++ back) (and_then next p).1
and_then-Took c front back next (done u, d) h k =
    let (wire, e, b) = k d refl in
    (
      front ++ wire,
      e ∙ ap (λ (x : List ℕ). x ++ wire) (h.all_of tt refl) ∙ append_assoc c.sent front wire,
      Begins-append front wire back b,
    )
and_then-Took c front back next (threw x, d) h k =
    let (wire, e, b) = h.took in (wire, e, Begins-more wire front back b)
and_then-Took c front back next (waiting, d) h k =
    let (wire, e, b) = h.took in (wire, e, Begins-more wire front back b)

pub send_loop-Took :
    (rounds : List Round) (flags : List Bool) (c : Client)
    → All IsSendable rounds
    → Took c.sent (encode_all (images_of rounds)) (send_loop rounds flags c).1
unfolding send_loop
send_loop-Took [] [] c h = Took-nothing _ c
send_loop-Took (r ∷ rounds) [] c h = Took-nothing _ c
send_loop-Took [] (true ∷ flags) c h = Took-nothing _ c
send_loop-Took (r ∷ rounds) (true ∷ flags) c h = Took-nothing _ c
send_loop-Took [] (false ∷ flags) c h = Took-nothing _ c
send_loop-Took (r ∷ rounds) (false ∷ flags) c h =
    subst (λ x. Took c.sent x (send_loop (r ∷ rounds) (false ∷ flags) c).1)
      (sym (encode_all-append (frames_of_grab r.grab) (images_of rounds)))
      (and_then-Took c _ _ (λ d. send_loop rounds (wait_loop d.timeout_sec flags).1 d) _
        (send_image-Wrote r.grab r.sends c h.0)
        (λ d e. send_loop-Took rounds (wait_loop d.timeout_sec flags).1 d h.1))
