-- ===== src/Client/Stopping.antt =====
-- client.cc: `SendLoop` and the flag that a signal sets.
use cpp_remote_screen_captur.Base.{
  ℕ, zero, suc, ◌≡◌, ◌≤◌, refl, sym, ap, subst, ◌∙◌, List, [], ◌∷◌, ◌++◌, length, Bool, true, false,
  All, arith,
}
use cpp_remote_screen_captur.Signals.{sigint, readings}
use cpp_remote_screen_captur.Signals.Delivery.{IsQuiet, deliver-IsQuiet, deliver-sigint}
use cpp_remote_screen_captur.Session.Socket.{Send}
use cpp_remote_screen_captur.Client.State.{Client, Io, done, threw, waiting}
use cpp_remote_screen_captur.Client.Messages.{create_img_message}
use cpp_remote_screen_captur.Client.Transfer.{IsSending, total, send_all_returns}
use cpp_remote_screen_captur.Client.Loop.{
  Round, Grab, grabbed, failed_grab, send_bytes, send_image, and_then, wait_loop, send_loop,
}

-- The flag is found set after at most `k` readings that find it clear.
abbrev Stops : ℕ → List Bool → Type 0
Stops k [] = Unit {0}
Stops k (true ∷ flags) = Unit {0}
Stops zero (false ∷ flags) = ⊥
Stops (suc k) (false ∷ flags) = Stops k flags

Stops-le : (j k : ℕ) (flags : List Bool) → j ≤ k → Stops j flags → Stops k flags
Stops-le j k [] n h = tt
Stops-le j k (true ∷ flags) n h = tt
Stops-le zero k (false ∷ flags) n h = absurd h
Stops-le (suc j) zero (false ∷ flags) n h = omega arith
Stops-le (suc j) (suc k) (false ∷ flags) n h = Stops-le j k flags (omega arith) h

wait_loop-Stops : (n k : ℕ) (flags : List Bool) → Stops k flags → Stops k (wait_loop n flags).1
unfolding wait_loop
wait_loop-Stops zero k flags h = h
wait_loop-Stops (suc n) k [] h = tt
wait_loop-Stops (suc n) k (true ∷ flags) h = tt
wait_loop-Stops (suc n) zero (false ∷ flags) h = absurd h
wait_loop-Stops (suc n) (suc k) (false ∷ flags) h =
    Stops-le k (suc k) (wait_loop n flags).1 (omega arith) (wait_loop-Stops n k flags h)

readings-Stops :
    (quiet more : List (List ℕ)) (before after : List ℕ)
    → All IsQuiet quiet
    → IsQuiet before
    → Stops (length quiet) (readings false (quiet ++ (before ++ sigint ∷ after) ∷ more))
unfolding readings
readings-Stops [] more before after calm first =
    subst (λ b. Stops 0 (b ∷ readings b more)) (sym (deliver-sigint before after first)) tt
readings-Stops (q ∷ quiet) more before after calm first =
    let rest : List (List ℕ) = quiet ++ (before ++ sigint ∷ after) ∷ more in
    subst (λ b. Stops (suc (length quiet)) (b ∷ readings b rest)) (sym (deliver-IsQuiet q calm.0))
      (readings-Stops quiet more before after calm.1 first)

-- The connection takes the image's message, or there is no image.
abbrev pub IsTaken : Grab → List Send → Type 0
IsTaken (grabbed img_bytes) sends =
    IsSending sends × (total sends ≡ length (create_img_message img_bytes))
IsTaken (failed_grab e) sends = Unit {0}

abbrev pub IsDelivered : Round → Type 0
IsDelivered r = IsTaken r.grab r.sends

send_image_returns :
    (g : Grab) (sends : List Send) (c : Client)
    → IsTaken g sends
    → (send_image g sends c).0 ≡ done tt
unfolding send_image send_bytes
send_image_returns (grabbed img_bytes) sends c h =
    rw (send_all_returns sends (create_img_message img_bytes) h.0 h.1) refl
send_image_returns (failed_grab e) sends c h = refl

and_then_next :
    (next : Client → Io (Unit {0}) × Client) (p : Io (Unit {0}) × Client)
    → p.0 ≡ done tt
    → and_then next p ≡ next p.1
and_then_next next (done u, d) e = refl
and_then_next next (threw x, d) e = cc
and_then_next next (waiting, d) e = cc

send_loop-Stops :
    (rounds : List Round) (flags : List Bool) (c : Client)
    → All IsDelivered rounds
    → Stops (length rounds) flags
    → (send_loop rounds flags c).0 ≡ done tt
unfolding send_loop
send_loop-Stops rounds [] c good h = refl
send_loop-Stops rounds (true ∷ flags) c good h = refl
send_loop-Stops [] (false ∷ flags) c good h = absurd h
send_loop-Stops (r ∷ rounds) (false ∷ flags) c good h =
    let d : Client = (send_image r.grab r.sends c).1 in
    ap (λ (q : Io (Unit {0}) × Client). q.0)
      (and_then_next (λ x. send_loop rounds (wait_loop x.timeout_sec flags).1 x)
        (send_image r.grab r.sends c) (send_image_returns r.grab r.sends c good.0))
    ∙ send_loop-Stops rounds (wait_loop d.timeout_sec flags).1 d good.1
        (wait_loop-Stops d.timeout_sec (length rounds) flags h)

-- If SIGINT first comes after the flag has been read clear at most as often as there are rounds,
-- and the connection takes the message of every image that is grabbed, then a `SendLoop` returns,
-- whatever would come after.
pub send_loop_stops :
    (rounds : List Round) (quiet more : List (List ℕ)) (before after : List ℕ) (c : Client)
    → All IsDelivered rounds
    → All IsQuiet quiet
    → IsQuiet before
    → length quiet ≤ length rounds
    → (send_loop rounds (readings false (quiet ++ (before ++ sigint ∷ after) ∷ more)) c).0 ≡ done tt
send_loop_stops rounds quiet more before after c good calm first enough =
    let flags : List Bool = readings false (quiet ++ (before ++ sigint ∷ after) ∷ more) in
    send_loop-Stops rounds flags c good (
      Stops-le (length quiet) (length rounds) flags enough
        (readings-Stops quiet more before after calm first))
